-- ===== src/Normalize/Discover/Modules/Invariant.antt =====
-- The dependencies of the configuration, on modules of a given list, and what a step of discovery does to
-- them and to what can still be added.
use ryba.Base.{
  ℕ, ◌≤◌, String, ◌==◌, ◌≡◌, ◌≢◌, refl, ap, subst, inl, inr, Bool, true, List, [], ◌∷◌, contains,
  Option, none, some, Option-cases, Bool-cases, arith, ◌=ℕ◌,
}
use ryba.Js.{Result, ok, err, ◌>>=◌, out_of_fuel}
use ryba.Assoc.{Map, find, insert}
use ryba.Config.{Dep}
use ryba.Normalize.Each.{AllEntries}
use ryba.Normalize.Discover.{DepEntry, dep_object}
use ryba.Normalize.Discover.Drafts.{
  Entry, default_service, draft, ClusterEntry, cluster_with, Clusters, or_no, services_of,
  candidates, service_entry, put_entry, dep_entry, with_dep, put_dep,
}
use ryba.Normalize.Discover.Modules.Measure.{missing}
use ryba.Normalize.Discover.Modules.Candidates.{service_entry-found, candidates-put_dep}

module _ {V : Type 0} (P : V → Type 0) where
  pub AllEntries-find :
      (k : String) (v : V) (m : Map V) → AllEntries (λ _ v. P v) m → find k m ≡ some v → P v
  unfolding find
  AllEntries-find k v [] h found = cc
  AllEntries-find k v ((j, w) ∷ m) h found = elim (Bool-cases (j == k)) [
    | inl same ↦ subst P (ground arith) h.0
    | inr other ↦ AllEntries-find k v m h.1 (ground arith)
  ]

  pub AllEntries-insert :
      (k : String) (v : V) (m : Map V)
      → P v
      → AllEntries (λ _ v. P v) m
      → AllEntries (λ _ v. P v) (insert k v m)
  unfolding insert
  AllEntries-insert k v [] p h = (p, tt)
  AllEntries-insert k v ((j, w) ∷ m) p h = elim (Bool-cases (j == k)) [
    | inl same ↦ rw same (p, h.1)
    | inr other ↦ rw other (h.0, AllEntries-insert k v m p h.1)
  ]

-- An exception that the program has.
abbrev pub IsThrown {ℓ} : {A : Type ℓ} → Result A → Type 0
IsThrown (ok a) = Unit
IsThrown (err e) = e ≢ out_of_fuel

module _ (modules : List String) where
  abbrev pub is_in : Option String → Bool
  is_in none = true
  is_in (some m) = contains modules m

  -- The module of a dependency is in the list.
  abbrev pub IsDepIn : DepEntry → Type 0
  IsDepIn entry = is_in (dep_object entry).module_name ≡ true

  abbrev pub AreDepsIn : Option (Map DepEntry) → Type 0
  AreDepsIn deps = AllEntries (λ _ entry. IsDepIn entry) (or_no deps)

  abbrev pub IsEntryIn : Entry → Type 0
  IsEntryIn default_service = Unit
  IsEntryIn (draft d) = AreDepsIn d.deps

  abbrev pub IsClusterIn : ClusterEntry → Type 0
  IsClusterIn c = AllEntries (λ _ e. IsEntryIn e) (or_no (services_of c))

  -- All dependencies of the configuration are on modules of the list.
  abbrev pub AreIn : Clusters → Type 0
  AreIn clusters = AllEntries (λ _ c. IsClusterIn c) clusters

  abbrev pub left : Clusters → ℕ
  left clusters = missing modules (candidates clusters)

  -- What a step ensures: it throws, or it leaves no more to be added than before.
  abbrev pub Goes : ℕ → Result Clusters → Type 0
  Goes n (ok clusters) = AreIn clusters × (left clusters ≤ n)
  Goes n (err e) = e ≢ out_of_fuel

  pub Goes-le : (n k : ℕ) (r : Result Clusters) → n ≤ k → Goes n r → Goes k r
  Goes-le n k (ok clusters) h g = (g.0, omega arith)
  Goes-le n k (err e) h g = g

  pub Goes-bind :
      (n : ℕ) (r : Result Clusters) (f : Clusters → Result Clusters)
      → Goes n r
      → ((clusters : Clusters) → AreIn clusters → left clusters ≤ n → Goes n (f clusters))
      → Goes n (r >>= f)
  Goes-bind n (ok clusters) f g h = h clusters g.0 g.1
  Goes-bind n (err e) f g h = g

  pub Goes-after {ℓ} :
      {A : Type ℓ} (n : ℕ) (r : Result A) (f : A → Result Clusters)
      → IsThrown r
      → ((a : A) → r ≡ ok a → Goes n (f a))
      → Goes n (r >>= f)
  Goes-after n (ok a) f g h = h a refl
  Goes-after n (err e) f g h = g

  pub put_entry-AreIn :
      (cname sname : String) (e : Entry) (clusters : Clusters)
      → IsEntryIn e
      → AreIn clusters
      → AreIn (put_entry cname sname e clusters)
  unfolding put_entry
  put_entry-AreIn cname sname e clusters p h = elim (Option-cases (find cname clusters)) [
    | inl missing ↦ rw (missing, put_entry) h
    | inr (c, found) ↦
        rw (found, put_entry)
          (AllEntries-insert IsClusterIn cname
            (cluster_with (some (insert sname e (or_no (services_of c))))) clusters
            (AllEntries-insert IsEntryIn sname e (or_no (services_of c)) p
              (AllEntries-find IsClusterIn cname c clusters h found))
            h)
  ]

  pub service_entry-IsEntryIn :
      (clusters : Clusters) (cname sname : String) (e : Entry)
      → AreIn clusters
      → service_entry clusters cname sname ≡ some e
      → IsEntryIn e
  service_entry-IsEntryIn clusters cname sname e h there =
      let (c, found, in_c) = service_entry-found clusters cname sname e there in
      AllEntries-find IsEntryIn sname e (or_no (services_of c))
        (AllEntries-find IsClusterIn cname c clusters h found) in_c

  with_dep-IsEntryIn :
      (self : ℕ) (dname : String) (dep : Dep) (e : Entry)
      → is_in dep.module_name ≡ true
      → IsEntryIn e
      → IsEntryIn (with_dep self dname dep e)
  with_dep-IsEntryIn self dname dep default_service p h = tt
  with_dep-IsEntryIn self dname dep (draft d) p h = elim (Bool-cases (d.object =ℕ self)) [
    | inl same ↦ rw same (AllEntries-insert IsDepIn dname (dep_entry dep) (or_no d.deps) p h)
    | inr other ↦ rw other h
  ]

  pub put_dep-AreIn :
      (self : ℕ) (cname sname dname : String) (dep : Dep) (clusters : Clusters)
      → is_in dep.module_name ≡ true
      → AreIn clusters
      → AreIn (put_dep self cname sname dname dep clusters)
  unfolding put_dep
  put_dep-AreIn self cname sname dname dep clusters p h =
      elim (Option-cases (service_entry clusters cname sname)) [
        | inl missing ↦ rw (missing, put_dep) h
        | inr (e, there) ↦
            rw (there, put_dep)
              (put_entry-AreIn cname sname (with_dep self dname dep e) clusters
                (with_dep-IsEntryIn self dname dep e p
                  (service_entry-IsEntryIn clusters cname sname e h there))
                h)
      ]

  pub put_dep-left :
      (self : ℕ) (cname sname dname : String) (dep : Dep) (clusters : Clusters)
      → left (put_dep self cname sname dname dep clusters) ≡ left clusters
  put_dep-left self cname sname dname dep clusters =
      ap (missing modules) (candidates-put_dep self cname sname dname dep clusters)
