-- ===== src/Secrets/Tests.antt =====
-- The theorems on the store of secrets with a cipher that changes nothing, and with texts of one
-- byte per value.
use ryba.Base.{
  String, ◌==◌, ◌≡◌, ◌⊎◌, refl, false, true, [], ◌∷◌, ◌++◌, none, inl, inr, arith, if◌then◌else◌,
  length, ◌=ℕ◌,
}
use ryba.Js.{Value, str, obj, end, field, undefined, Result, ok, err, prop, get, put, type_error}
use ryba.Secrets.{
  Bytes, Platform, missing, contents, World, exists, exists_file, read, cached, read_file,
  parse_secrets, decrypt, get_all, get_key, set_all,
}
use ryba.Secrets.Laws.{IsPlatform, IsCoherent, reopen, get_all-set_all}
use ryba.Secrets.Commands.{message, Input, property_of, get_command, set_command}
use ryba.Secrets.Commands.Laws.{opened, set_command-overwrite, get_key-set_command}

-- Two values can be stored.
abbrev secret : Value
secret = obj (field "password" (str "rybapass") end)

abbrev stringify : Value → String
stringify (obj (field k v fs)) = "p"
stringify v = "{}"

abbrev parse : String → Result Value
parse t = if t == "{}" then ok (obj end) else (if t == "p" then ok secret else err type_error)

abbrev from_text : String → Bytes
from_text t = if t == "p" then 1 ∷ [] else (if t == "{}" then 2 ∷ [] else [])

abbrev to_text : Bytes → String
to_text [] = ""
to_text (b ∷ bytes) = if b =ℕ 1 then "p" else "{}"

abbrev get_at : Value → String → Value
get_at (obj fs) key = get key fs
get_at v key = undefined

abbrev set_at : Value → String → Value → Value
set_at (obj fs) key w = obj (put key w fs)
set_at v key w = v

abbrev platform : Platform
platform = record {
  cipher = λ iv t. if length iv =ℕ 16 then ok t else err type_error;
  decipher = λ iv t. ok t;
  stringify = stringify;
  parse = parse;
  from_text = from_text;
  to_text = to_text;
  get_at = get_at;
  set_at = set_at;
  unset_at = λ v key. v;
  write = λ bs file. (ok tt, contents bs);
}

stringify-cases : (v : Value) → (stringify v ≡ "p") ⊎ (stringify v ≡ "{}")
stringify-cases v = ground arith

platform-IsPlatform : IsPlatform platform
platform-IsPlatform = record {
  enciphered = λ iv t. t;
  cipher-eq = λ iv t long. ground (arith, long);
  decipher-enciphered = λ iv v long. refl;
  to_text-from_text = λ iv v. elim (stringify-cases v) [ inl e ↦ rw e | inr e ↦ rw e ];
  write-eq = λ bs file. refl;
}

abbrev iv : Bytes
iv = 1 ∷ 2 ∷ 3 ∷ 4 ∷ 5 ∷ 6 ∷ 7 ∷ 8 ∷ 9 ∷ 10 ∷ 11 ∷ 12 ∷ 13 ∷ 14 ∷ 15 ∷ 16 ∷ []

abbrev fresh : World
fresh = record { file = missing; iv = none; raw = none }

-- A file that has just been created, and a store object that has not read it.
abbrev created : World
created = record { file = contents iv; iv = none; raw = none }

created-IsCoherent : IsCoherent created
created-IsCoherent = (omega arith, inl (refl, refl))

get_all-set_all_example :
    ((set_all platform secret created).0 ≡ ok tt)
    × IsCoherent (set_all platform secret created).1
    × ((get_all platform (set_all platform secret created).1).0 ≡ ok secret)
    × ((get_all platform (reopen (set_all platform secret created).1)).0 ≡ ok secret)
get_all-set_all_example =
    get_all-set_all platform platform-IsPlatform secret created iv created-IsCoherent refl
      (refl, refl)

get_all-created : (get_all platform created).0 ≡ ok (obj end)
unfolding get_all read cached read_file decrypt parse_secrets
get_all-created = refl

storable_put :
    (platform.parse (platform.stringify (platform.set_at (obj end) "password" (str "rybapass")))
      ≡ ok (platform.set_at (obj end) "password" (str "rybapass")))
    × ((platform.stringify (platform.set_at (obj end) "password" (str "rybapass")) == "") ≡ false)
unfolding put
storable_put = (refl, refl)

abbrev input : Input
input = record { is_terminal = false; generated = "generated"; typed = "typed" }

get_key-set_command_example :
    let done =
      set_command platform input
        (record { property = "password" ∷ "rybapass" ∷ []; overwrite = false })
        (opened iv) in
    (done.0 ≡ ok (message "Secret store updated." ∷ []))
    × ((get_key platform "password" (reopen done.1)).0 ≡ ok (str "rybapass"))
unfolding get_all read cached read_file decrypt parse_secrets prop get put
get_key-set_command_example =
    get_key-set_command platform input "password" "rybapass" false iv (obj end) platform-IsPlatform
      (omega arith) refl refl refl refl (refl, refl) refl refl

-- The file holds the secret `password` already.
abbrev saved : Bytes
saved = iv ++ 1 ∷ []

set_command-overwrite_example :
    set_command platform input
      (record { property = "password" ∷ "{}" ∷ []; overwrite = false })
      (opened saved)
    ≡ set_command platform input
        (record { property = "password" ∷ "{}" ∷ []; overwrite = true })
        (opened saved)
unfolding get_all read cached read_file decrypt parse_secrets prop get property_of
set_command-overwrite_example =
    set_command-overwrite platform input ("password" ∷ "{}" ∷ []) (opened saved) saved secret refl
      refl refl refl

get_test : (get_command platform (opened saved)).0 ≡ err type_error
unfolding get_command exists exists_file get_all read cached read_file decrypt parse_secrets
get_test = refl
