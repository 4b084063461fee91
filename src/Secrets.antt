-- ===== src/Secrets.antt =====
-- legacy/masson/lib/secrets.js: the encrypted file of secrets. The state is the file and the two
-- buffers that a `Store` object keeps of it. An operation that throws keeps what it has changed.
pub mod Laws
pub mod Sync
pub mod Commands
pub mod Options
mod Tests
use ryba.Base.{
  ℕ, zero, suc, String, ◌==◌, Bool, true, false, List, [], ◌∷◌, ◌++◌, Option, none, some,
  if◌then◌else◌, ◌≡◌, ◌≢◌, length,
}
use ryba.Js.{Value, obj, end, Result, ok, err, Error, already_created, not_initialized, io_error}

abbrev pub Bytes : Type 0
Bytes = List ℕ

-- `data.slice(0, n)` and `data.slice(n)`
abbrev pub take : ℕ → Bytes → Bytes
take zero bs = []
take (suc n) [] = []
take (suc n) (b ∷ bs) = b ∷ take n bs

abbrev pub drop : ℕ → Bytes → Bytes
drop zero bs = bs
drop (suc n) [] = []
drop (suc n) (b ∷ bs) = drop n bs

-- The file `options.store`: `stat` fails with ENOENT, or with another error, or the file is read.
pub data File : Type 0 where
  missing unreadable : File
  contents : Bytes → File

-- `fs.writeFile`: how it ends, and the file that it leaves of the one before.
abbrev pub Write : Type 0
Write = Bytes → File → Result (Unit {0}) × File

-- What the store uses of `crypto` (with the key that it derives from the password, and the
-- algorithm of its options; it throws without a password, or on an `iv` of another length), of `JSON`, of
-- `Buffer`, of `lodash` and of `fs`.
pub record Platform : Type 0 where
  pub cipher : Bytes → String → Result String
  pub decipher : Bytes → String → Result String
  pub stringify : Value → String
  pub parse : String → Result Value
  pub from_text : String → Bytes
  pub to_text : Bytes → String
  pub get_at : Value → String → Value
  pub set_at : Value → String → Value → Value
  pub unset_at : Value → String → Value
  pub write : Write

pub record World : Type 0 where
  pub file : File
  pub iv : Option Bytes
  pub raw : Option Bytes

abbrev pub M : Type 0 → Type 0
M A = World → Result A × World

module _ {A B : Type 0} where
  abbrev pub and_then : Result A → (A → M B) → M B
  and_then (ok a) f w = f a w
  and_then (err e) f w = (err e, w)

  infixl 5 ◌>>=◌ ◌>>◌
  abbrev pub ◌>>=◌ : M A → (A → M B) → M B
  ◌>>=◌ m f w = let (r, w') = m w in and_then r f w'

  abbrev pub ◌>>◌ : M A → M B → M B
  m >> n = m >>= λ _. n

abbrev pub pure {ℓ} : {A : Type ℓ} → A → World → Result A × World
pure a w = (ok a, w)

-- `_read`, up to the test of the two buffers
unfoldable pub read_file : File → M (Bytes × Bytes)
read_file missing w = (err not_initialized, w)
read_file unreadable w = (err io_error, w)
read_file (contents bs) w =
    (ok (take 16 bs, drop 16 bs), record w { iv = some (take 16 bs); raw = some (drop 16 bs) })

-- `_read`: nothing is read if both buffers are there.
unfoldable pub cached : Option Bytes → Option Bytes → M (Bytes × Bytes)
cached (some iv) (some raw) w = (ok (iv, raw), w)
cached none raw w = read_file w.file w
cached (some iv) none w = read_file w.file w

unfoldable pub read : M (Bytes × Bytes)
read w = cached w.iv w.raw w

unfoldable pub exists_file : File → Result Bool
exists_file missing = ok false
exists_file unreadable = err io_error
exists_file (contents bs) = ok true

unfoldable pub exists : M Bool
exists w = (exists_file w.file, w)

module _ (platform : Platform) where
  open platform use {
    cipher, decipher, stringify, parse, from_text, to_text, get_at, set_at, unset_at, write,
  }

  unfoldable pub encrypt : Value → Bytes → Result String
  encrypt secrets iv = cipher iv (stringify secrets)

  -- `JSON.parse(dec || '{}')`
  unfoldable pub parse_secrets : Result String → Result Value
  parse_secrets (ok dec) = if dec == "" then parse "{}" else parse dec
  parse_secrets (err e) = err e

  unfoldable pub decrypt : Bytes → Bytes → Result Value
  decrypt raw iv = parse_secrets (decipher iv (to_text raw))

  -- `get()`
  unfoldable pub get_all : M Value
  get_all = read >>= λ (iv, raw) w. (decrypt raw iv, w)

  -- `get(key)`
  unfoldable pub get_key : String → M Value
  get_key key = get_all >>= λ secrets. pure (if key == "" then secrets else get_at secrets key)

  -- The end of `set(secrets)`: `this.raw` is replaced before the file is written.
  unfoldable pub save : Bytes → Result String → M (Unit {0})
  save iv (err e) w = (err e, w)
  save iv (ok text) w =
      let new = from_text text in
      let (done, file) = write (iv ++ new) w.file in
      (done, record w { raw = some new; file = file })

  -- `set(secrets)`
  unfoldable pub set_all : Value → M (Unit {0})
  set_all secrets = read >>= λ (iv, raw) w. save iv (encrypt secrets iv) w

  -- `set(key, value)`
  unfoldable pub set_key : String → Value → M (Unit {0})
  set_key key value = get_all >>= λ secrets. set_all (set_at secrets key value)

  unfoldable pub unset : String → M (Unit {0})
  unset key = get_all >>= λ secrets. set_all (unset_at secrets key)

-- `init`, with the 16 bytes that `crypto.randomBytes` gives.
unfoldable pub init : Write → Bytes → M (Unit {0})
init write random = exists >>= λ there w.
    if there
    then (err already_created, w)
    else (let (done, file) = write random w.file in (done, record w { file = file }))
