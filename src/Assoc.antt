-- ===== src/Assoc.antt =====
-- Objects used as tables: association lists by text keys, in the order of insertion.
use ryba.Base.{
  true, String, ◌==◌, eq_iff, eq_refl, ◌≡◌, refl, false, List, [], ◌∷◌, Option, none, some, arith,
  All, if◌then◌else◌, contains, Bool-cases, inl, inr, ap, sym, ◌∙◌,
}

abbrev pub Map {ℓ} : Type ℓ → Type ℓ
Map V = List (String × V)

module _ {ℓ} {V : Type ℓ} where
  -- `o[k]`
  unfoldable pub find : String → Map V → Option V
  find k [] = none
  find k ((j, v) ∷ m) = if j == k then some v else find k m

  -- `o[k] = v`
  unfoldable pub insert : String → V → Map V → Map V
  insert k v [] = (k, v) ∷ []
  insert k v ((j, w) ∷ m) = if j == k then (j, v) ∷ m else (j, w) ∷ insert k v m

  abbrev pub names : Map V → List String
  names [] = []
  names ((k, v) ∷ m) = k ∷ names m

  abbrev pub contents : Map V → List V
  contents [] = []
  contents ((k, v) ∷ m) = v ∷ contents m

  pub find-insert :
      (k j : String) (v : V) (m : Map V)
      → find j (insert k v m) ≡ (if k == j then some v else find j m)
  unfolding find insert
  find-insert k j v [] = refl
  find-insert k j v ((i, w) ∷ m) =
      ground (arith, eq_iff k j, eq_iff i k, eq_iff i j, find-insert k j v m)

  abbrev pub AreDistinct : Map V → Type 0
  AreDistinct [] = Unit
  AreDistinct ((k, v) ∷ m) = (contains (names m) k ≡ false) × AreDistinct m

  -- With distinct keys every entry is found under its key.
  pub find-entries : (m : Map V) → AreDistinct m → All (λ e. find e.0 m ≡ some e.1) m
  unfolding find
  find-entries [] h = tt
  find-entries ((k, v) ∷ m) h = (ground (arith, eq_refl k), later m (find-entries m h.1) h.0)
    where
      later :
          (es : Map V)
          → All (λ e. find e.0 m ≡ some e.1) es
          → contains (names es) k ≡ false
          → All (λ e. find e.0 ((k, v) ∷ m) ≡ some e.1) es
      later [] a b = tt
      later ((j, w) ∷ es) a b =
          (ground (arith, eq_iff k j, eq_iff j k), later es a.1 (ground arith))

-- A function on the values of a table, and on a value that may be missing.
abbrev pub map_values : {V W : Type 0} → (V → W) → Map V → Map W
map_values f [] = []
map_values f ((k, v) ∷ m) = (k, f v) ∷ map_values f m

abbrev pub map_some : {V W : Type 0} → (V → W) → Option V → Option W
map_some f none = none
map_some f (some v) = some (f v)

pub find-map_values :
    {V W : Type 0} (f : V → W) (k : String) (m : Map V)
    → find k (map_values f m) ≡ map_some f (find k m)
unfolding find
find-map_values f k [] = refl
find-map_values f k ((j, v) ∷ m) = elim (Bool-cases (j == k)) [
  | inl same ↦ rw same
  | inr other ↦ rw other (find-map_values f k m)
]

-- A write of a value that looks the same.
pub map_values-insert :
    {V W : Type 0} (f : V → W) (k : String) (v w : V) (m : Map V)
    → find k m ≡ some w
    → f v ≡ f w
    → map_values f (insert k v m) ≡ map_values f m
unfolding find insert
map_values-insert f k v w [] found same = cc
map_values-insert f k v w ((j, u) ∷ m) found same = elim (Bool-cases (j == k)) [
  | inl here ↦
      let e : some u ≡ some w = rw here at found in
      rw here (ap (λ x. (j, x) ∷ map_values f m) (same ∙ ap f (sym (cc))))
  | inr later ↦
      rw later (ap (λ l. (j, f u) ∷ l) (map_values-insert f k v w m (rw later at found) same))
]

pub find-absent {ℓ} :
    {V : Type ℓ} (k : String) (m : Map V) → contains (names m) k ≡ false → find k m ≡ none
unfolding find
find-absent k [] h = refl
find-absent k ((j, v) ∷ m) h = elim (Bool-cases (j == k)) [
  | inl same ↦ absurd (cc (rw same at h))
  | inr other ↦ rw other (find-absent k m (rw other at h))
]

pub find-contains {ℓ} :
    {V : Type ℓ} (k : String) (v : V) (m : Map V) → find k m ≡ some v → contains (names m) k ≡ true
find-contains k v m found = elim (Bool-cases (contains (names m) k)) [
  | inl there ↦ there
  | inr absent ↦ absurd (cc (find-absent k m absent, found))
]
