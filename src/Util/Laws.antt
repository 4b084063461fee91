-- ===== src/Util/Laws.antt =====
-- What the helpers of utils give.
use ryba.Base.{
  String, ◌==◌, eq_iff, ◌≡◌, refl, sym, ap, ◌∙◌, ◌↔◌, Bool, true, false, ◌&&◌, ◌||◌, List, [], ◌∷◌,
  ◌++◌, any, keep, All, contains, arith, Bool-cases, inl, inr,
}
use mathlib.Core.List.{append_assoc, append-nil}
use ryba.Js.{
  Value, undefined, null, bool, num, str, func, arr, obj, Items, nil, cons, is_array, Fields, end,
  field, keys, put, put_true, ok,
}
use ryba.Util.{flatten, flatten_value, unique, OneOrMany, to_array, multimatch, only, array_get}

-- The values of a nested array that are no arrays, from left to right.
unfoldable mutual
  pub leaves_of : Value → List Value
  leaves_of (arr vs) = leaves vs
  leaves_of v = v ∷ []

  pub leaves : Items → List Value
  leaves nil = []
  leaves (cons v vs) = leaves_of v ++ leaves vs

mutual
  unfolding flatten leaves

  flatten_value-eq : (v : Value) (ret : List Value) → flatten_value v ret ≡ ret ++ leaves_of v
  flatten_value-eq (arr vs) ret = flatten-eq_from vs ret
  flatten_value-eq undefined ret = refl
  flatten_value-eq null ret = refl
  flatten_value-eq (bool b) ret = refl
  flatten_value-eq (num n) ret = refl
  flatten_value-eq (str s) ret = refl
  flatten_value-eq (func n) ret = refl
  flatten_value-eq (obj fs) ret = refl

  flatten-eq_from : (vs : Items) (ret : List Value) → flatten vs ret ≡ ret ++ leaves vs
  flatten-eq_from nil ret = sym (append-nil ret)
  flatten-eq_from (cons v vs) ret =
      flatten-eq_from vs (flatten_value v ret)
      ∙ ap (λ l. l ++ leaves vs) (flatten_value-eq v ret)
      ∙ append_assoc ret (leaves_of v) (leaves vs)

abbrev pub IsLeaf : Value → Type 0
IsLeaf v = is_array v ≡ false

All-append {ℓ} :
    {A : Type ℓ} (P : A → Type 0) (xs ys : List A) → All P xs → All P ys → All P (xs ++ ys)
All-append P [] ys h k = k
All-append P (x ∷ xs) ys h k = (h.0, All-append P xs ys h.1 k)

mutual
  unfolding leaves

  leaves_of-All : (v : Value) → All IsLeaf (leaves_of v)
  leaves_of-All (arr vs) = leaves-All vs
  leaves_of-All undefined = (refl, tt)
  leaves_of-All null = (refl, tt)
  leaves_of-All (bool b) = (refl, tt)
  leaves_of-All (num n) = (refl, tt)
  leaves_of-All (str s) = (refl, tt)
  leaves_of-All (func n) = (refl, tt)
  leaves_of-All (obj fs) = (refl, tt)

  leaves-All : (vs : Items) → All IsLeaf (leaves vs)
  leaves-All nil = tt
  leaves-All (cons v vs) =
      All-append IsLeaf (leaves_of v) (leaves vs) (leaves_of-All v) (leaves-All vs)

-- `flatten` appends to `ret` the values of a nested array that are no arrays, each once and from left
-- to right, and nothing that it appends is an array.
pub flatten_lem :
    (vs : Items) (ret : List Value) → (flatten vs ret ≡ ret ++ leaves vs) × All IsLeaf (leaves vs)
flatten_lem vs ret = (flatten-eq_from vs ret, leaves-All vs)

-- No name stands twice.
abbrev pub IsUnique : List String → Type 0
IsUnique [] = Unit
IsUnique (x ∷ xs) = (contains xs x ≡ false) × IsUnique xs

contains-keys-put :
    (k s : String) (v : Value) (fs : Fields)
    → contains (keys (put k v fs)) s ≡ ((k == s) || contains (keys fs) s)
unfolding put
contains-keys-put k s v end = refl
contains-keys-put k s v (field j w fs) = ground (arith, eq_iff j k, contains-keys-put k s v fs)

contains-keys-put_true :
    (xs : List String) (s : String) (fs : Fields)
    → contains (keys (put_true xs fs)) s ≡ (contains xs s || contains (keys fs) s)
unfolding put_true
contains-keys-put_true [] s fs = refl
contains-keys-put_true (x ∷ xs) s fs =
    contains-keys-put_true xs s (put x (bool true) fs)
    ∙ ground (arith, contains-keys-put x s (bool true) fs)

put-IsUnique :
    (k : String) (v : Value) (fs : Fields) → IsUnique (keys fs) → IsUnique (keys (put k v fs))
unfolding put
put-IsUnique k v end h = (refl, tt)
put-IsUnique k v (field j w fs) h = elim (Bool-cases (j == k)) [
  | inl same ↦ rw same h
  | inr other ↦
      rw other (
        ground (arith, contains-keys-put k j v fs, eq_iff j k, eq_iff k j),
        put-IsUnique k v fs h.1,
      )
]

put_true-IsUnique :
    (xs : List String) (fs : Fields) → IsUnique (keys fs) → IsUnique (keys (put_true xs fs))
unfolding put_true
put_true-IsUnique [] fs h = h
put_true-IsUnique (x ∷ xs) fs h = put_true-IsUnique xs _ (put-IsUnique x _ fs h)

-- `unique` gives the texts of an array, and each of them once.
pub unique_lem :
    (xs : List String)
    → IsUnique (unique xs) × ((s : String) → contains (unique xs) s ≡ contains xs s)
unfolding unique
unique_lem xs = (put_true-IsUnique xs end tt, λ s. contains-keys-put_true xs s end ∙ ground arith)

-- `x` is the one element of `xs` that meets the test.
pub record IsOnly {ℓ} {A : Type ℓ} (p : A → Bool) (xs : List A) (x : A) : Type ℓ where
  pub before : List A
  pub after : List A
  pub split : xs ≡ before ++ x ∷ after
  pub not_before : All (λ y. p y ≡ false) before
  pub meets : p x ≡ true
  pub not_after : All (λ y. p y ≡ false) after

module _ {ℓ} {A : Type ℓ} (p : A → Bool) where
  keep-nil : (xs : List A) → keep p xs ≡ [] → All (λ y. p y ≡ false) xs
  keep-nil [] h = tt
  keep-nil (x ∷ xs) h = elim (Bool-cases (p x)) [
    | inl yes_x ↦ absurd (cc (rw yes_x at h))
    | inr no_x ↦ (no_x, keep-nil xs (rw no_x at h))
  ]

  keep-none : (xs : List A) → All (λ y. p y ≡ false) xs → keep p xs ≡ []
  keep-none [] h = refl
  keep-none (x ∷ xs) h = rw h.0 (keep-none xs h.1)

  keep-append : (xs ys : List A) → keep p (xs ++ ys) ≡ keep p xs ++ keep p ys
  keep-append [] ys = refl
  keep-append (x ∷ xs) ys = ground (arith, keep-append xs ys)

  only-ok : (xs : List A) (x : A) → only xs ≡ ok x → xs ≡ x ∷ []
  unfolding only
  only-ok [] x h = cc
  only-ok (y ∷ []) x h = cc
  only-ok (y ∷ z ∷ more) x h = cc

  keep-one : (xs : List A) (x : A) → keep p xs ≡ x ∷ [] → IsOnly p xs x
  keep-one [] x h = absurd (cc)
  keep-one (y ∷ xs) x h = elim (Bool-cases (p y)) [
    | inl yes_y ↦
        let e : y ∷ keep p xs ≡ x ∷ [] = rw yes_y at h in
        let same : y ≡ x = cc in
        record {
          before = [];
          after = xs;
          split = ap (λ z. z ∷ xs) same;
          not_before = tt;
          meets = rw (← same) yes_y;
          not_after = keep-nil xs (cc);
        }
    | inr no_y ↦
        let r = keep-one xs x (rw no_y at h) in
        record {
          before = y ∷ r.before;
          after = r.after;
          split = ap (λ l. y ∷ l) r.split;
          not_before = (no_y, r.not_before);
          meets = r.meets;
          not_after = r.not_after;
        }
  ]

  -- `array_get` returns an element exactly when it is the only one that meets the test.
  pub array_get_iff : (xs : List A) (x : A) → (array_get xs p ≡ ok x) ↔ IsOnly p xs x
  unfolding array_get only
  array_get_iff xs x = (λ h. keep-one xs x (only-ok (keep p xs) x h), λ o. found o)
    where
      found : IsOnly p xs x → only (keep p xs) ≡ ok x
      found o = rw (
        o.split,
        keep-append o.before (x ∷ o.after),
        keep-none o.before o.not_before,
        o.meets,
        keep-none o.after o.not_after,
      )

-- What `multimatch` gives is in the list and matches a pattern, and all such is given.
pub multimatch-contains :
    (minimatch : String → String → Bool) (list patterns : OneOrMany) (s : String)
    → contains (multimatch minimatch list patterns) s
      ≡ (contains (to_array list) s && any (minimatch s) (to_array patterns))
unfolding multimatch
multimatch-contains minimatch list patterns s = go (to_array list)
  where
    go :
        (xs : List String)
        → contains (keep (λ el. any (minimatch el) (to_array patterns)) xs) s
          ≡ (contains xs s && any (minimatch s) (to_array patterns))
    go [] = refl
    go (x ∷ xs) = elim (Bool-cases (x == s)) [
      | inl same ↦
          let e : any (minimatch x) (to_array patterns) ≡ any (minimatch s) (to_array patterns) =
            ap (λ y. any (minimatch y) (to_array patterns)) ((eq_iff x s).0 same) in
          ground (arith, go xs, e)
      | inr other ↦ ground (arith, go xs)
    ]
