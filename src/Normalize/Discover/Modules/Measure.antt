-- ===== src/Normalize/Discover/Modules/Measure.antt =====
-- How many services can still be added: for each cluster, the modules of a given list that no service of
-- the module's own name stands for.
use ryba.Base.{
  ℕ, suc, ◌+◌, ◌≤◌, ◌<◌, String, ◌==◌, eq_iff, eq_refl, ◌≡◌, ◌≢◌, refl, subst, inl, inr, Bool, true,
  false, List, [], ◌∷◌, contains, Option, none, some, Bool-cases, arith, if◌then◌else◌,
}
use ryba.Assoc.{Map, find, insert, find-insert}
use ryba.Normalize.Discover.{Candidate, full, full_or, services_of_module}

-- A service of the name of its module.
abbrev pub is_settled : String → Option Candidate → Bool
is_settled m none = false
is_settled m (some c) = full_or c.module_name m == m

unfoldable pub missing_in : List String → Map Candidate → ℕ
missing_in [] services = 0
missing_in (m ∷ ms) services =
    let more = missing_in ms services in if is_settled m (find m services) then more else suc more

module _ (modules : List String) where
  unfoldable pub missing : Map (Map Candidate) → ℕ
  missing [] = 0
  missing ((c, services) ∷ clusters) = missing_in modules services + missing clusters

missing_in-le :
    (ms : List String) (s t : Map Candidate)
    → ((m : String) → is_settled m (find m s) ≡ true → is_settled m (find m t) ≡ true)
    → missing_in ms t ≤ missing_in ms s
unfolding missing_in
missing_in-le [] s t h = omega arith
missing_in-le (m ∷ ms) s t h = elim (Bool-cases (is_settled m (find m s))) [
  | inl there ↦ rw (there, h m there) (missing_in-le ms s t h)
  | inr new ↦ ground (arith, missing_in-le ms s t h)
]

missing_in-lt :
    (ms : List String) (s t : Map Candidate) (n : String)
    → ((m : String) → is_settled m (find m s) ≡ true → is_settled m (find m t) ≡ true)
    → contains ms n ≡ true
    → is_settled n (find n s) ≡ false
    → is_settled n (find n t) ≡ true
    → missing_in ms t < missing_in ms s
unfolding missing_in
missing_in-lt [] s t n h listed new there = cc
missing_in-lt (m ∷ ms) s t n h listed new there = elim (Bool-cases (m == n)) [
  | inl same ↦
      let e : m ≡ n = (eq_iff m n).0 same in
      rw (e, new, there) (omega (arith, missing_in-le ms s t h))
  | inr other ↦
      let rest = missing_in-lt ms s t n h (ground arith) new there in
      elim (Bool-cases (is_settled m (find m s))) [
        | inl kept ↦ rw (kept, h m kept) rest
        | inr open_m ↦ ground (arith, rest)
      ]
]

settled-insert :
    (n : String) (e : Candidate) (s : Map Candidate)
    → (is_settled n (find n s) ≡ true → is_settled n (some e) ≡ true)
    → (m : String) → is_settled m (find m s) ≡ true
    → is_settled m (find m (insert n e s)) ≡ true
settled-insert n e s h m there = elim (Bool-cases (n == m)) [
  | inl same ↦
      let k : n ≡ m = (eq_iff n m).0 same in
      rw (find-insert n m e s, same) (subst (λ x. is_settled x (some e) ≡ true) k (h (rw k there)))
  | inr other ↦ rw (find-insert n m e s, other) there
]

missing-insert :
    (modules : List String) (c : String) (clusters : Map (Map Candidate)) (s t : Map Candidate)
    → find c clusters ≡ some s
    → missing modules (insert c t clusters) + missing_in modules s
      ≡ missing modules clusters + missing_in modules t
unfolding missing find insert
missing-insert modules c [] s t h = cc
missing-insert modules c ((d, u) ∷ clusters) s t h = elim (Bool-cases (d == c)) [
  | inl same ↦ let e : u ≡ s = ground arith in rw (same, e) (omega arith)
  | inr other ↦ rw other (omega (arith, missing-insert modules c clusters s t (ground arith)))
]

module _ (modules : List String) (c n : String) (clusters : Map (Map Candidate)) (s : Map Candidate)
    (e : Candidate) (found : find c clusters ≡ some s) where
  -- A service that is written does not add to what is missing, if it stands for all that it stood for.
  pub missing-put_le :
      (is_settled n (find n s) ≡ true → is_settled n (some e) ≡ true)
      → missing modules (insert c (insert n e s) clusters) ≤ missing modules clusters
  missing-put_le h = omega (
    arith,
    missing-insert modules c clusters s (insert n e s) found,
    missing_in-le modules s (insert n e s) (settled-insert n e s h),
  )

  -- One of a listed module that was missing reduces it.
  pub missing-put_lt :
      contains modules n ≡ true
      → is_settled n (find n s) ≡ false
      → is_settled n (some e) ≡ true
      → missing modules (insert c (insert n e s) clusters) < missing modules clusters
  missing-put_lt listed new there = omega (
    arith,
    missing-insert modules c clusters s (insert n e s) found,
    missing_in-lt modules s (insert n e s) n (settled-insert n e s (λ _. there)) listed new
        (rw (find-insert n n e s, eq_refl n) there),
  )

-- The search by a module finds a service of the module's name.
pub settled-listed :
    (m : String) (s : Map Candidate) → is_settled m (find m s) ≡ true → services_of_module m s ≢ []
unfolding find services_of_module
settled-listed m [] h e = cc
settled-listed m ((name, c) ∷ s) h e = elim (Bool-cases (name == m)) [
  | inl same ↦
      let k : name ≡ m = (eq_iff name m).0 same in
      let hit : (full_or c.module_name name == m) ≡ true = rw k (rw (same, is_settled) at h) in
      absurd (ground arith)
  | inr other ↦ elim (Bool-cases (full_or c.module_name name == m)) [
    | inl hit ↦ absurd (ground arith)
    | inr miss ↦ settled-listed m s (ground arith) (ground arith)
  ]
]

full_or-full :
    (o : Option String) (name : String) → (name == "") ≡ false → (full_or o name == "") ≡ false
full_or-full none name h = h
full_or-full (some s) name h = elim (Bool-cases (s == "")) [
  | inl empty ↦ rw (empty, full_or, full) h
  | inr given ↦ rw (given, full_or, full) given
]

-- If it finds one service without a name, there is a service without a name.
pub unnamed-listed :
    (m : String) (s : Map Candidate)
    → services_of_module m s ≡ "" ∷ []
    → (c : Candidate) × (find "" s ≡ some c)
unfolding find services_of_module
unnamed-listed m [] h = absurd (cc)
unnamed-listed m ((name, c) ∷ s) h = elim (Bool-cases (name == "")) [
  | inl same ↦ (c, rw same refl)
  | inr other ↦ elim (Bool-cases (full_or c.module_name name == m)) [
    | inl hit ↦ absurd (ground (arith, full_or-full c.id name other, eq_iff (full_or c.id name) ""))
    | inr miss ↦ let (d, e) = unnamed-listed m s (ground arith) in (d, rw other e)
  ]
]
