-- ===== src/Secrets/Commands/Laws.antt =====
-- The commands of the secrets after one another, and the option `overwrite`.
use ryba.Base.{
  ◌≤◌, String, ◌==◌, ◌≡◌, refl, sym, ap, ◌∙◌, inl, inr, Bool, true, false, List, [], ◌∷◌, none,
  length,
}
use ryba.Js.{Value, undefined, str, prop, ok}
use ryba.Secrets.{Bytes, Platform, contents, World, exists, exists_file, get_all, get_key}
use ryba.Secrets.Laws.{
  IsPlatform, IsStorable, IsCoherent, reopen, loaded, saved_bytes, set_key-eq, get_all-saved,
  get_all-file, get_all-state, IsCoherent-saved,
}
use ryba.Secrets.Commands.{
  message, or_failure, Input, SetParams, property_of, store_password, choose_password,
  check_overwrite, set_command,
}

-- A file that has just been opened by a command.
abbrev pub opened : Bytes → World
opened bs = record { file = contents bs; iv = none; raw = none }

exists-contents : (w : World) (bs : Bytes) → w.file ≡ contents bs → exists w ≡ (ok true, w)
unfolding exists exists_file
exists-contents w bs e = ap (λ f. (exists_file f, w)) e

set_command-eq :
    (p : Platform) (input : Input) (params : SetParams) (w : World) (bs : Bytes) (secrets : Value)
    → w.file ≡ contents bs
    → (get_all p w).0 ≡ ok secrets
    → prop secrets "data" ≡ ok undefined
    → p.get_at undefined (property_of params.property).0 ≡ undefined
    → set_command p input params w
      ≡ choose_password p input
          (property_of params.property).0
          (property_of params.property).1
          (get_all p w).1
unfolding set_command check_overwrite
set_command-eq p input params w bs secrets e found no_data nothing =
    rw (exists-contents w bs e, found, no_data, nothing) refl

-- On a file whose secrets are read and have no property `data`, and where `lodash` finds nothing in
-- `undefined`, the command `set` does the same without `overwrite` as with it, whatever the secrets
-- hold.
pub set_command-overwrite :
    (p : Platform) (input : Input) (property : List String) (w : World) (bs : Bytes)
    (secrets : Value)
    → w.file ≡ contents bs
    → (get_all p w).0 ≡ ok secrets
    → prop secrets "data" ≡ ok undefined
    → p.get_at undefined (property_of property).0 ≡ undefined
    → set_command p input (record { property = property; overwrite = false }) w
      ≡ set_command p input (record { property = property; overwrite = true }) w
set_command-overwrite p input property w bs secrets e found no_data nothing =
    set_command-eq p input (record { property = property; overwrite = false }) w bs secrets e found
      no_data nothing
    ∙ sym (
        set_command-eq p input (record { property = property; overwrite = true }) w bs secrets e
          found no_data nothing)

-- With `crypto`, `Buffer`, `JSON` and `fs` as documented, the password of the store given, and a
-- file that can be written, of at least 16 bytes, whose secrets are read and have no property
-- `data`, with a `lodash` that finds under the key what was set there and nothing in `undefined`,
-- for a key and a value that are not empty and changed secrets that `JSON` reads back: the command
-- `set` with the key and the value says that the store is updated, and `store.get(key)` of a new
-- `Store` object then returns the value.
pub get_key-set_command :
    (p : Platform) (input : Input) (key password : String) (overwrite : Bool) (bs : Bytes)
    (secrets : Value)
    → IsPlatform p
    → 16 ≤ length bs
    → (get_all p (opened bs)).0 ≡ ok secrets
    → prop secrets "data" ≡ ok undefined
    → p.get_at undefined key ≡ undefined
    → p.get_at (p.set_at secrets key (str password)) key ≡ str password
    → IsStorable p (p.set_at secrets key (str password))
    → (key == "") ≡ false
    → (password == "") ≡ false
    → let done =
        set_command p input
          (record { property = key ∷ password ∷ []; overwrite = overwrite })
          (opened bs) in
      (done.0 ≡ ok (message "Secret store updated." ∷ []))
      × ((get_key p key (reopen done.1)).0 ≡ ok (str password))
unfolding property_of choose_password store_password or_failure get_key
get_key-set_command p input key password overwrite bs secrets laws long found no_data nothing finds
      storable named full =
    let first : IsCoherent (opened bs) = (long, inl (refl, refl)) in
    let again : IsCoherent (loaded bs) = (long, inr (refl, refl)) in
    let v = p.set_at secrets key (str password) in
    rw
      (
        set_command-eq p input (record { property = key ∷ password ∷ []; overwrite = overwrite })
            (opened bs) bs secrets refl found no_data nothing,
        get_all-state p laws (opened bs) bs first refl,
        full,
        set_key-eq p laws key (str password) secrets (loaded bs) bs again refl (
            ap (λ r. r.0) (get_all-file p laws (loaded bs) (opened bs) bs again first refl refl)
            ∙ found),
        get_all-saved p laws v bs (opened (saved_bytes p laws v bs)) long storable
            ((IsCoherent-saved p laws v bs long).0, inl (refl, refl)) refl,
        named,
        finds,
      )
      (refl, refl)
