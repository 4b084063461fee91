-- ===== src/Secrets/Laws.antt =====
-- What is stored is read back, by the same `Store` object and by a new one.
use ryba.Base.{
  ℕ, zero, suc, ◌≤◌, String, ◌==◌, ◌≡◌, refl, sym, ap, subst, ◌∙◌, ◌⊎◌, inl, inr, false, [], ◌∷◌,
  ◌++◌, Option, none, some, arith, length,
}
use ryba.Js.{Value, ok, err, already_created}
use ryba.Secrets.{
  Bytes, take, drop, Platform, File, missing, unreadable, contents, Write, World, read_file, cached,
  read, exists_file, exists, encrypt, parse_secrets, decrypt, get_all, get_key, save, set_all,
  set_key, init,
}

-- The buffers of the object, if it has any, are the two parts of the file.
abbrev pub AreParts : File → Option Bytes → Option Bytes → Type 0
AreParts (contents bs) iv raw =
    (16 ≤ length bs)
    × (((iv ≡ none) × (raw ≡ none)) ⊎ ((iv ≡ some (take 16 bs)) × (raw ≡ some (drop 16 bs))))
AreParts missing iv raw = (iv ≡ none) × (raw ≡ none)
AreParts unreadable iv raw = (iv ≡ none) × (raw ≡ none)

abbrev pub IsCoherent : World → Type 0
IsCoherent w = AreParts w.file w.iv w.raw

-- A new object on the same file.
abbrev pub reopen : World → World
reopen w = record w { iv = none; raw = none }

length-take : (n : ℕ) (bs : Bytes) → n ≤ length bs → length (take n bs) ≡ n
length-take zero bs h = refl
length-take (suc n) [] h = absurd (omega arith)
length-take (suc n) (b ∷ bs) h = ap suc (length-take n bs (omega arith))

take-append : (xs ys : Bytes) → take (length xs) (xs ++ ys) ≡ xs
take-append [] ys = refl
take-append (x ∷ xs) ys = ap (λ l. x ∷ l) (take-append xs ys)

drop-append : (xs ys : Bytes) → drop (length xs) (xs ++ ys) ≡ ys
drop-append [] ys = refl
drop-append (x ∷ xs) ys = drop-append xs ys

length-append_le : (xs ys : Bytes) → length xs ≤ length (xs ++ ys)
length-append_le [] ys = omega arith
length-append_le (x ∷ xs) ys = omega (arith, length-append_le xs ys)

take_16 : (bs new : Bytes) → 16 ≤ length bs → take 16 (take 16 bs ++ new) ≡ take 16 bs
take_16 bs new h =
    subst (λ n. take n (take 16 bs ++ new) ≡ take 16 bs) (length-take 16 bs h)
      (take-append (take 16 bs) new)

drop_16 : (bs new : Bytes) → 16 ≤ length bs → drop 16 (take 16 bs ++ new) ≡ new
drop_16 bs new h =
    subst (λ n. drop n (take 16 bs ++ new) ≡ new) (length-take 16 bs h)
      (drop-append (take 16 bs) new)

-- An object whose buffers are the parts of the file.
abbrev pub loaded : Bytes → World
loaded bs = record { file = contents bs; iv = some (take 16 bs); raw = some (drop 16 bs) }

cached-parts :
    (bs : Bytes) (iv raw : Option Bytes)
    → AreParts (contents bs) iv raw
    → cached iv raw (record { file = contents bs; iv = iv; raw = raw })
      ≡ (ok (take 16 bs, drop 16 bs), loaded bs)
unfolding cached read_file
cached-parts bs iv raw (long, inl (no_iv, no_raw)) = rw no_iv
cached-parts bs iv raw (long, inr (has_iv, has_raw)) = rw (has_iv, has_raw)

read-loaded :
    (w : World) (bs : Bytes)
    → IsCoherent w
    → w.file ≡ contents bs
    → read w ≡ (ok (take 16 bs, drop 16 bs), loaded bs)
unfolding read
read-loaded w bs h e =
    let same : w ≡ record { file = contents bs; iv = w.iv; raw = w.raw } =
      λ i. record { file = e i; iv = w.iv; raw = w.raw } in
    ap read same ∙ cached-parts bs w.iv w.raw (subst (λ f. AreParts f w.iv w.raw) e h)

-- The documented behaviour of `crypto`, `Buffer`, `JSON` and `fs` that the store relies on, where there is a
-- password and the file can be written: with an `iv` of 16 bytes a text is enciphered, and deciphered again.
pub record IsPlatform (p : Platform) : Type 0 where
  pub enciphered : Bytes → String → String
  pub cipher-eq : (iv : Bytes) (s : String) → length iv ≡ 16 → p.cipher iv s ≡ ok (enciphered iv s)
  pub decipher-enciphered :
      (iv : Bytes) (v : Value)
      → length iv ≡ 16
      → p.decipher iv (enciphered iv (p.stringify v)) ≡ ok (p.stringify v)
  pub to_text-from_text :
      (iv : Bytes) (v : Value)
      → p.to_text (p.from_text (enciphered iv (p.stringify v))) ≡ enciphered iv (p.stringify v)
  pub write-eq : (bs : Bytes) (file : File) → p.write bs file ≡ (ok tt, contents bs)

-- A value that JSON reads back, and does not write as nothing.
abbrev pub IsStorable : Platform → Value → Type 0
IsStorable p v = (p.parse (p.stringify v) ≡ ok v) × ((p.stringify v == "") ≡ false)

module _ (p : Platform) (laws : IsPlatform p) where
  abbrev pub saved_bytes : Value → Bytes → Bytes
  saved_bytes v bs = take 16 bs ++ p.from_text (laws.enciphered (take 16 bs) (p.stringify v))

  pub IsCoherent-saved :
      (v : Value) (bs : Bytes) → 16 ≤ length bs → IsCoherent (loaded (saved_bytes v bs))
  IsCoherent-saved v bs h =
      let new = p.from_text (laws.enciphered (take 16 bs) (p.stringify v)) in
      (omega (arith, length-append_le (take 16 bs) new, length-take 16 bs h), inr (refl, refl))

  pub set_all-eq :
      (v : Value) (w : World) (bs : Bytes)
      → IsCoherent w
      → w.file ≡ contents bs
      → set_all p v w ≡ (ok tt, loaded (saved_bytes v bs))
  unfolding set_all encrypt save
  set_all-eq v w bs h e =
      let new = p.from_text (laws.enciphered (take 16 bs) (p.stringify v)) in
      let long = (subst (λ f. AreParts f w.iv w.raw) e h).0 in
      rw (
        read-loaded w bs h e,
        laws.cipher-eq (take 16 bs) (p.stringify v) (length-take 16 bs long),
        laws.write-eq (saved_bytes v bs) (contents bs),
        take_16 bs new long,
        drop_16 bs new long,
      )

  decrypt-encrypt :
      (v : Value) (bs : Bytes)
      → length bs ≡ 16
      → IsStorable p v
      → decrypt p (p.from_text (laws.enciphered bs (p.stringify v))) bs ≡ ok v
  unfolding decrypt parse_secrets
  decrypt-encrypt v bs long (back, full) =
      rw (laws.to_text-from_text bs v, laws.decipher-enciphered bs v long, full) back

  -- Whatever object reads the saved file, it finds the value.
  pub get_all-saved :
      (v : Value) (bs : Bytes) (w : World)
      → 16 ≤ length bs
      → IsStorable p v
      → IsCoherent w
      → w.file ≡ contents (saved_bytes v bs)
      → get_all p w ≡ (ok v, loaded (saved_bytes v bs))
  unfolding get_all
  get_all-saved v bs w long storable h e =
      let new = p.from_text (laws.enciphered (take 16 bs) (p.stringify v)) in
      rw (
        read-loaded w (saved_bytes v bs) h e,
        take_16 bs new long,
        drop_16 bs new long,
        decrypt-encrypt v (take 16 bs) (length-take 16 bs long) storable,
      )

  -- With `crypto`, `Buffer`, `JSON` and `fs` as documented, a password and a file that can be
  -- written, where the buffers of the object are empty or agree with the file, which is there, and
  -- for a value that `JSON` reads back: `set` succeeds and leaves the buffers in agreement with the
  -- file, and after it `get` returns the value, to the same object and to a new one, whose buffers
  -- are empty.
  pub get_all-set_all :
      (v : Value) (w : World) (bs : Bytes)
      → IsCoherent w
      → w.file ≡ contents bs
      → IsStorable p v
      → ((set_all p v w).0 ≡ ok tt)
        × IsCoherent (set_all p v w).1
        × ((get_all p (set_all p v w).1).0 ≡ ok v)
        × ((get_all p (reopen (set_all p v w).1)).0 ≡ ok v)
  get_all-set_all v w bs h e storable =
      let long = (subst (λ f. AreParts f w.iv w.raw) e h).0 in
      let coherent = IsCoherent-saved v bs long in
      rw (set_all-eq v w bs h e) (
        refl,
        coherent,
        ap (λ r. r.0) (get_all-saved v bs _ long storable coherent refl),
        ap (λ r. r.0) (get_all-saved v bs _ long storable (coherent.0, inl (refl, refl)) refl),
      )

  pub get_all-state :
      (w : World) (bs : Bytes) → IsCoherent w → w.file ≡ contents bs → (get_all p w).1 ≡ loaded bs
  unfolding get_all
  get_all-state w bs h e = rw (read-loaded w bs h e)

  -- What `get` returns depends on the file only.
  pub get_all-file :
      (w w' : World) (bs : Bytes)
      → IsCoherent w
      → IsCoherent w'
      → w.file ≡ contents bs
      → w'.file ≡ contents bs
      → get_all p w ≡ get_all p w'
  unfolding get_all
  get_all-file w w' bs h h' e e' = rw (read-loaded w bs h e, read-loaded w' bs h' e') refl

  pub set_key-eq :
      (key : String) (v secrets : Value) (w : World) (bs : Bytes)
      → IsCoherent w
      → w.file ≡ contents bs
      → (get_all p w).0 ≡ ok secrets
      → set_key p key v w ≡ (ok tt, loaded (saved_bytes (p.set_at secrets key v) bs))
  unfolding set_key
  set_key-eq key v secrets w bs h e found =
      let long = (subst (λ f. AreParts f w.iv w.raw) e h).0 in
      let before : get_all p w ≡ (ok secrets, loaded bs) =
        λ i. (found i, get_all-state w bs h e i) in
      rw before (set_all-eq (p.set_at secrets key v) (loaded bs) bs (long, inr (refl, refl)) refl)

  -- With `crypto`, `Buffer`, `JSON` and `fs` as documented, where the buffers of the object are
  -- empty or agree with a file whose secrets are read, and for a key that is not empty and changed
  -- secrets that `JSON` reads back: after `set(key, value)`, `get(key)` returns what `lodash` finds
  -- under the key in the changed secrets, also to a new object.
  get_key-set_key :
      (key : String) (v secrets : Value) (w : World) (bs : Bytes)
      → IsCoherent w
      → w.file ≡ contents bs
      → (get_all p w).0 ≡ ok secrets
      → IsStorable p (p.set_at secrets key v)
      → (key == "") ≡ false
      → ((get_key p key (set_key p key v w).1).0 ≡ ok (p.get_at (p.set_at secrets key v) key))
        × ((get_key p key (reopen (set_key p key v w).1)).0
            ≡ ok (p.get_at (p.set_at secrets key v) key))
  unfolding get_key
  get_key-set_key key v secrets w bs h e found storable full =
      let v' = p.set_at secrets key v in
      let long = (subst (λ f. AreParts f w.iv w.raw) e h).0 in
      let coherent = IsCoherent-saved v' bs long in
      rw
        (
          set_key-eq key v secrets w bs h e found,
          get_all-saved v' bs (loaded (saved_bytes v' bs)) long storable coherent refl,
          get_all-saved v' bs (reopen (loaded (saved_bytes v' bs))) long storable
              (coherent.0, inl (refl, refl)) refl,
          full,
        )
        (refl, refl)

-- Where there is a file, `init` throws and changes nothing.
pub init-contents :
    (write : Write) (random bs : Bytes) (w : World)
    → w.file ≡ contents bs
    → init write random w ≡ (err already_created, w)
unfolding init exists exists_file
init-contents write random bs w e =
    let same : w ≡ record { file = contents bs; iv = w.iv; raw = w.raw } =
      λ i. record { file = e i; iv = w.iv; raw = w.raw } in
    ap (init write random) same ∙ sym (ap (λ u. (err already_created, u)) same)
