-- ===== src/Loading/Tests.antt =====
-- A directory with a hidden file and a directory, and a file beside it.
use ryba.Base.{String, ◌==◌, ◌≡◌, refl, Bool, true, false, ◌||◌, List, [], ◌∷◌, if◌then◌else◌}
use ryba.Js.{
  Value, undefined, str, obj, Fields, end, field, Result, ok, err, traverse, io_error, get, put,
  prop,
}
use ryba.Text.{first_label, split, ◌^^◌}
use ryba.Loading.{
  FileSystem, is_hidden, default_property, server_defaults, default_servers, name_servers,
  load_entry, load_entries, load_path, load_paths, load_config,
}
use ryba.Loading.Laws.{locate_all, load_paths-locate_all, AreNamed, default_servers-AreNamed}

abbrev is_directory : String → Result Bool
is_directory path = if path == "/conf" || path == "/conf/old" then ok true else ok false

abbrev readdir : String → Result (List String)
readdir path =
    if path == "/conf" then ok (".git" ∷ "a.json" ∷ "old" ∷ "b.js" ∷ []) else err io_error

abbrev system : FileSystem
system = record {
  is_directory = is_directory;
  readdir = readdir;
  resolve_in = λ base name. base ^^ ("/" ^^ name);
  cwd = "";
}

abbrev load : String → Result Value
load path = ok (obj (field "servers" (obj (field path (obj end) end)) end))

abbrev merge : List Value → Value
merge [] = undefined
merge (v ∷ vs) = v

program : Unit {0}
unfolding is_hidden first_label default_property server_defaults default_servers name_servers
    load_entry load_entries load_path load_paths load_config split get put prop
program = tt

abbrev files : List String
files = "/conf/a.json" ∷ "/conf/b.js" ∷ "/extra.js" ∷ []

abbrev configs : Result (List Value) → List Value
configs (ok vs) = vs
configs (Result.err e) = []

load_paths-conf :
    load_paths system load ("conf" ∷ "extra.js" ∷ []) ≡ ok (configs (traverse load files))
unfolding program
load_paths-conf = refl

load_paths-locate_all_example :
    (located : List String) × (locate_all system ("conf" ∷ "extra.js" ∷ []) ≡ ok located)
    × (traverse load located ≡ ok (configs (traverse load files)))
load_paths-locate_all_example =
    load_paths-locate_all system load ("conf" ∷ "extra.js" ∷ []) (configs (traverse load files))
      load_paths-conf

abbrev servers : Fields
servers = field "m1.ryba" (obj (field "host" (str "10.0.0.1") end)) (field "m2.ryba" (obj end) end)

abbrev named : Fields
named =
    field "m1.ryba" (obj (field "host" (str "10.0.0.1") (field "shortname" (str "m1") end)))
      (field "m2.ryba" (obj (field "host" (str "m2.ryba") (field "shortname" (str "m2") end))) end)

default_servers-AreNamed_example :
    AreNamed "host" servers named × (default_servers named ≡ ok named)
unfolding program
default_servers-AreNamed_example = default_servers-AreNamed "host" servers named refl

load_config-extra :
    load_config system load merge ("m1.ryba" ∷ [])
    ≡ ok (
        obj (
          field "servers"
            (obj (
              field "/m1.ryba"
                (obj (field "host" (str "/m1.ryba") (field "shortname" (str "/m1") end)))
                end))
            end))
unfolding program
load_config-extra = refl
