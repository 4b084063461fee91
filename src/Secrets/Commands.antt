-- ===== src/Secrets/Commands.antt =====
-- legacy/masson/lib/commands/secrets: the commands `init`, `get`, `set` and `unset`. A command makes its
-- `Store` object with `secrets(params)`, so it starts with empty buffers, and what it writes is a list of
-- lines. An exception that no `catch` takes rejects the command; the
-- lines that a rejected command has written before are left out.
pub mod Laws
use ryba.Base.{
  String, ◌==◌, Bool, true, false, not, ◌&&◌, List, [], ◌∷◌, Option, none, some, if◌then◌else◌,
}
use ryba.Js.{Value, str, truthy, prop, Result, ok, err, Error, type_error, reference_error}
use ryba.Secrets.{
  Bytes, Platform, Write, World, M, ◌>>=◌, and_then, pure, exists, get_all, get_key, set_key, unset,
  init,
}

-- A message of the command on `stderr`, the message of an exception there, or a text on `stdout`.
pub data Line : Type 0 where
  message : String → Line
  failure : Error → Line
  output : String → Line

abbrev pub not_there : List Line
not_there = message "Store does not exists, run the `init` command to initialize it." ∷ []

-- `try { m; lines } catch (err) { process.stderr.write(err.message) }`
unfoldable pub or_failure {ℓ} :
    {A : Type ℓ} → List Line → Result A × World → Result (List Line) × World
or_failure lines (ok a, w) = (ok lines, w)
or_failure lines (err e, w) = (ok (failure e ∷ []), w)

unfoldable pub init_command : Write → Bytes → M (List Line)
init_command write random = exists >>= λ there w.
    if there
    then (ok (message "Store already exists, please remove it before initializing it." ∷ []), w)
    else or_failure (message "Secret store is ready" ∷ []) (init write random w)

-- The password of the command line, of the generator or of `stdin`.
pub record Input : Type 0 where
  pub is_terminal : Bool
  pub generated : String
  pub typed : String

pub record SetParams : Type 0 where
  pub property : List String
  pub overwrite : Bool

-- `[property, password] = params.property`; `lodash` reads `undefined` as the key of that name.
unfoldable pub property_of : List String → String × String
property_of [] = ("undefined", "")
property_of (property ∷ []) = (property, "")
property_of (property ∷ password ∷ more) = (property, password)

module _ (platform : Platform) where
  -- `secrets = await store.get()`: `secrets` is the name of an import, so the assignment throws, and
  -- no `catch` is around it.
  unfoldable pub get_command : M (List Line)
  get_command = exists >>= λ there.
      if not there then pure not_there else (get_all platform >>= λ secrets w. (err type_error, w))

  -- `store_password`
  unfoldable pub store_password : String → String → List Line → M (List Line)
  store_password property password lines w =
      or_failure (message "Secret store updated." ∷ lines)
        (set_key platform property (str password) w)

  unfoldable pub choose_password : Input → String → String → M (List Line)
  choose_password input property password =
      if not (password == "")
      then store_password property password []
      else if input.is_terminal
      then store_password property input.generated (output input.generated ∷ [])
      else store_password property input.typed []

  -- `callback` is not defined: after the refusal the command throws.
  unfoldable pub check_overwrite : Input → SetParams → Value → M (List Line)
  check_overwrite input params existing =
      let (property, password) = property_of params.property in
      if truthy (platform.get_at existing property) && not params.overwrite
      then (λ w. (err reference_error, w))
      else choose_password input property password

  -- `({data} = await store.get())`
  unfoldable pub set_command : Input → SetParams → M (List Line)
  set_command input params = exists >>= λ there.
      if not there
      then pure not_there
      else (get_all platform >>= λ secrets.
          (λ w. (prop secrets "data", w)) >>= λ existing. check_overwrite input params existing)

  -- One turn of the loop of `unset`: whether it goes on, and what it writes.
  unfoldable pub unset_loop : List String → M (List Line)
  unset_loop [] = pure []
  unset_loop (property ∷ properties) = get_key platform property >>= λ value.
      if not (truthy value)
      then pure (message "Property does not exist." ∷ [])
      else (unset platform property >>= λ _.
          unset_loop properties >>= λ lines. pure (message "Property removed." ∷ lines))

  unfoldable pub unset_command : List String → M (List Line)
  unset_command properties =
      exists >>= λ there. if not there then pure not_there else unset_loop properties
