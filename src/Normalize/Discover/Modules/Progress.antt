-- ===== src/Normalize/Discover/Modules/Progress.antt =====
-- A service while its dependencies are visited: those that are wanted are there, but for the ones that are
-- still to come, or the object has been replaced.
use ryba.Base.{
  ℕ, ◌=ℕ◌, String, ◌==◌, eq_refl, eq_iff, ◌≡◌, refl, sym, ap, ◌∙◌, subst, inl, inr, ◌⊎◌, Bool, true,
  false, List, ◌∷◌, contains, Option, none, some, Option-cases, Bool-cases,
}
use ryba.Assoc.{find, insert, find-insert}
use ryba.Config.{Dep}
use ryba.Normalize.Discover.{DepEntry}
use ryba.Normalize.Discover.Drafts.{
  Entry, default_service, draft, Clusters, service_entry, dep_entry, with_dep, put_dep,
}
use ryba.Normalize.Discover.Modules.Lookup.{
  deps_at, IsSupplied, AreSupplied, Grows, Kept, AreSupplied-Grows, put_dep-Apart,
  service_entry-put_dep,
}

abbrev pub object_is : ℕ → Option Entry → Bool
object_is self none = false
object_is self (some default_service) = false
object_is self (some (draft d)) = d.object =ℕ self

-- The dependencies that are wanted are there, but for the listed ones.
abbrev pub AreSuppliedBut : List String → Clusters → Option Entry → Type 0
AreSuppliedBut later clusters o =
    (k : String) (entry : DepEntry)
    → find k (deps_at o) ≡ some entry
    → (contains later k ≡ true) ⊎ IsSupplied clusters entry

abbrev pub IsHolding : ℕ → String → Dep → List String → Clusters → Option Entry → Type 0
IsHolding self dname dep later clusters o =
    AreSupplied clusters o
    ⊎ ((object_is self o ≡ true)
        × AreSuppliedBut (dname ∷ later) clusters o
        × (find dname (deps_at o) ≡ some (dep_entry dep)))

abbrev pub IsOnTheWay : ℕ → List String → Clusters → Option Entry → Type 0
IsOnTheWay self later clusters o =
    AreSupplied clusters o ⊎ ((object_is self o ≡ true) × AreSuppliedBut later clusters o)

with_dep-other :
    (self : ℕ) (dname : String) (dep : Dep) (e : Entry)
    → object_is self (some e) ≡ false
    → with_dep self dname dep e ≡ e
with_dep-other self dname dep default_service h = refl
with_dep-other self dname dep (draft d) h = rw h refl

with_dep-own :
    (self : ℕ) (dname : String) (dep : Dep) (e : Entry)
    → object_is self (some e) ≡ true
    → (object_is self (some (with_dep self dname dep e)) ≡ true)
      × (deps_at (some (with_dep self dname dep e))
          ≡ insert dname (dep_entry dep) (deps_at (some e)))
with_dep-own self dname dep default_service h = absurd (cc h)
with_dep-own self dname dep (draft d) h = rw h (h, refl)

AreSuppliedBut-insert :
    (dname : String) (dep : Dep) (later : List String) (clusters : Clusters) (o o' : Option Entry)
    → deps_at o' ≡ insert dname (dep_entry dep) (deps_at o)
    → AreSuppliedBut (dname ∷ later) clusters o
    → AreSuppliedBut (dname ∷ later) clusters o'
AreSuppliedBut-insert dname dep later clusters o o' same keys k entry found =
    let looked =
      sym (find-insert dname k (dep_entry dep) (deps_at o)) ∙ ap (find k) (sym same) ∙ found in
    elim (Bool-cases (dname == k)) [
      | inl own ↦ inl (rw own refl)
      | inr other ↦ keys k entry (rw other at looked)
    ]

AreSuppliedBut-Grows :
    (later : List String) (o : Option Entry) (clusters clusters' : Clusters)
    → Grows clusters clusters'
    → AreSuppliedBut later clusters o
    → AreSuppliedBut later clusters' o
AreSuppliedBut-Grows later o clusters clusters' g keys k entry found = elim (keys k entry found) [
  | inl to_come ↦ inl to_come
  | inr there ↦ inr (λ wanted. g _ _ (there wanted))
]

AreSuppliedBut-of_IsOnTheWay :
    (self : ℕ) (later : List String) (clusters : Clusters) (o : Option Entry)
    → IsOnTheWay self later clusters o
    → AreSuppliedBut later clusters o
AreSuppliedBut-of_IsOnTheWay self later clusters o (inl there) =
    λ k entry found. inr (there k entry found)
AreSuppliedBut-of_IsOnTheWay self later clusters o (inr (own, keys)) = keys

with_dep-IsHolding :
    (self : ℕ) (dname : String) (dep : Dep) (later : List String) (clusters clusters' : Clusters)
    (e : Entry)
    → Grows clusters clusters'
    → IsOnTheWay self (dname ∷ later) clusters (some e)
    → IsHolding self dname dep later clusters' (some (with_dep self dname dep e))
with_dep-IsHolding self dname dep later clusters clusters' e g way =
    elim (Bool-cases (object_is self (some e))) [
      | inr other ↦
          subst (λ x. IsHolding self dname dep later clusters' (some x))
            (sym (with_dep-other self dname dep e other))
            (elim way [
              | inl there ↦ inl (AreSupplied-Grows (some e) clusters clusters' g there)
              | inr (own, keys) ↦ absurd (cc (own, other))
            ])
      | inl own ↦
          let (own', same) = with_dep-own self dname dep e own in
          let keys = AreSuppliedBut-of_IsOnTheWay self (dname ∷ later) clusters (some e) way in
          inr (
            own',
            AreSuppliedBut-insert dname dep later clusters' (some e)
                (some (with_dep self dname dep e)) same
                (AreSuppliedBut-Grows (dname ∷ later) (some e) clusters clusters' g keys),
            ap (find dname) same
                ∙ find-insert dname dname (dep_entry dep) (deps_at (some e))
                ∙ rw (eq_refl dname) refl,
          )
    ]

-- A dependency that is written is held.
pub put_dep-IsHolding :
    (self : ℕ) (cname sname dname : String) (dep : Dep) (later : List String) (clusters : Clusters)
    → IsOnTheWay self (dname ∷ later) clusters (service_entry clusters cname sname)
    → IsHolding self dname dep later
        (put_dep self cname sname dname dep clusters)
        (service_entry (put_dep self cname sname dname dep clusters) cname sname)
unfolding put_dep find
put_dep-IsHolding self cname sname dname dep later clusters way =
    elim (Option-cases (service_entry clusters cname sname)) [
      | inl missing ↦ rw (missing, put_dep) (inl (λ k entry f w. absurd (cc f)))
      | inr (e, there) ↦
          let clusters' = put_dep self cname sname dname dep clusters in
          subst (IsHolding self dname dep later clusters')
            (sym (service_entry-put_dep self cname sname dname dep clusters e there))
            (with_dep-IsHolding self dname dep later clusters clusters' e
              (put_dep-Apart self cname sname dname dep clusters).0
              (subst (IsOnTheWay self (dname ∷ later) clusters) there way))
    ]

pub IsHolding-Kept :
    (self : ℕ) (cname sname dname : String) (dep : Dep) (later : List String)
    (clusters clusters' : Clusters)
    → Grows clusters clusters'
    → Kept clusters clusters' cname sname
    → IsHolding self dname dep later clusters (service_entry clusters cname sname)
    → IsHolding self dname dep later clusters' (service_entry clusters' cname sname)
IsHolding-Kept self cname sname dname dep later clusters clusters' g (inr there) h = inl there
IsHolding-Kept self cname sname dname dep later clusters clusters' g (inl same) h =
    subst (IsHolding self dname dep later clusters') (sym same) (elim h [
      | inl there ↦
          inl (AreSupplied-Grows (service_entry clusters cname sname) clusters clusters' g there)
      | inr (own, keys, held) ↦ inr (
        own,
        AreSuppliedBut-Grows (dname ∷ later) (service_entry clusters cname sname) clusters clusters'
            g keys,
        held,
      )
    ])

-- Once it is there, it is no more to come.
pub IsOnTheWay-of_IsHolding :
    (self : ℕ) (dname : String) (dep : Dep) (later : List String) (clusters : Clusters)
    (o : Option Entry)
    → IsSupplied clusters (dep_entry dep)
    → IsHolding self dname dep later clusters o
    → IsOnTheWay self later clusters o
IsOnTheWay-of_IsHolding self dname dep later clusters o s (inl there) = inl there
IsOnTheWay-of_IsHolding self dname dep later clusters o s (inr (own, keys, held)) = inr (
  own,
  λ k entry found. elim (keys k entry found) [
    | inr there ↦ inr there
    | inl to_come ↦ elim (Bool-cases (dname == k)) [
      | inr other ↦ inl (rw other at to_come)
      | inl same ↦
          let named : dname ≡ k = (eq_iff dname k).0 same in
          let entry_same : dep_entry dep ≡ entry =
            cc (subst (λ n. find n (deps_at o) ≡ some (dep_entry dep)) named held, found) in
          inr (subst (IsSupplied clusters) entry_same s)
    ]
  ],
)
