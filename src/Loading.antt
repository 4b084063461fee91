-- ===== src/Loading.antt =====
-- legacy/masson/lib/config/load.js: the files of the configuration, from paths to files or directories, and
-- the names of the servers. The file system, the import of a file (legacy/masson/lib/utils/load.js) and
-- `merge` of `mixme` are parameters. A section `servers` that is no object is left apart.
pub mod Laws
mod Tests
use Prim.Native.String
use Prim.Native.Char.{code}
use ryba.Base.{ℕ, String, ◌=ℕ◌, Bool, true, false, List, [], ◌∷◌, ◌++◌, if◌then◌else◌}
use ryba.Js.{
  Value, undefined, null, bool, num, str, obj, arr, func, Fields, end, field, Result, ok, err,
  ◌>>=◌, type_error, is_nullish, get, put, prop,
}
use ryba.Text.{dot, first_label}

-- `fs.stat(…).isDirectory()`, `fs.readdir`, and `path.resolve` in a directory.
pub record FileSystem : Type 0 where
  pub is_directory : String → Result Bool
  pub readdir : String → Result (List String)
  pub resolve_in : String → String → String
  pub cwd : String

-- `file.indexOf(".") === 0`
unfoldable pub is_hidden : String → Bool
is_hidden String.[] = false
is_hidden (String.◌∷◌ c s) = code c =ℕ dot

-- `x ?= v` on a property.
unfoldable pub default_property : String → Value → Fields → Fields
default_property k v fs = if is_nullish (get k fs) then put k v fs else fs

-- The body of the loop over the servers: a server is an object, else the assignment throws. Properties of
-- arrays and functions are left apart.
unfoldable pub server_defaults : String → Value → Result Value
server_defaults k (obj fs) =
    ok (
      obj (default_property "shortname" (str (first_label k)) (default_property "host" (str k) fs)))
server_defaults k (arr vs) = ok (arr vs)
server_defaults k (func f) = ok (func f)
server_defaults k v = err type_error

unfoldable pub default_servers : Fields → Result Fields
default_servers end = ok end
default_servers (field k v fs) =
    server_defaults k v >>= λ w. default_servers fs >>= λ rest. ok (field k w rest)

-- `config.servers` of the merged configuration.
unfoldable pub name_servers : Value → Value → Result Value
name_servers (obj fs) (obj servers) =
    default_servers servers >>= λ named. ok (obj (put "servers" (obj named) fs))
name_servers config servers = ok config

module _ (system : FileSystem) (load : String → Result Value) where
  -- A file in a directory that is listed.
  unfoldable pub load_entry : String → String → Result (List Value)
  load_entry location file =
      if is_hidden file
      then ok []
      else (system.is_directory (system.resolve_in location file) >>= λ directory.
          if directory
          then ok []
          else (load (system.resolve_in location file) >>= λ v. ok (v ∷ [])))

  unfoldable pub load_entries : String → List String → Result (List Value)
  load_entries location [] = ok []
  load_entries location (file ∷ files) =
      load_entry location file >>= λ vs. load_entries location files >>= λ rest. ok (vs ++ rest)

  unfoldable pub load_path : String → Result (List Value)
  load_path path =
      let location = system.resolve_in system.cwd path in
      system.is_directory location >>= λ directory.
      if directory
      then (system.readdir location >>= load_entries location)
      else (load location >>= λ v. ok (v ∷ []))

  unfoldable pub load_paths : List String → Result (List Value)
  load_paths [] = ok []
  load_paths (path ∷ paths) = load_path path >>= λ vs. load_paths paths >>= λ rest. ok (vs ++ rest)

  -- The default export.
  unfoldable pub load_config : (List Value → Value) → List String → Result Value
  load_config merge paths = load_paths paths >>= λ configs.
      let config = merge configs in prop config "servers" >>= name_servers config
