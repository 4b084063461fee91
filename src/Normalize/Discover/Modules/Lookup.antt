-- ===== src/Normalize/Discover/Modules/Lookup.antt =====
-- The services of the configuration by their names, before and after a write.
use ryba.Base.{
  ap, ℕ, String, ◌==◌, eq_refl, eq_iff, ◌≡◌, refl, sym, ◌∙◌, subst, inl, inr, ◌⊎◌, Bool, true,
  false, not, ◌&&◌, [], Option, none, some, Option-cases, Bool-cases, if◌then◌else◌,
}
use ryba.Assoc.{Map, find, insert, find-insert}
use ryba.Config.{Dep}
use ryba.Normalize.Graph.{is_disabled}
use ryba.Normalize.Discover.{DepEntry}
use ryba.Normalize.Discover.Drafts.{
  Entry, default_service, draft, ClusterEntry, cluster_with, Clusters, or_no, services_of,
  service_entry, put_entry, with_dep, put_dep, given_dep_of, name_text, is_there,
}
use ryba.Normalize.Discover.Modules.Candidates.{service_entry-found}

pub service_entry-put_entry :
    (cname sname : String) (e : Entry) (clusters : Clusters) (c : ClusterEntry)
    (cname' sname' : String)
    → find cname clusters ≡ some c
    → service_entry (put_entry cname sname e clusters) cname' sname' ≡ (
        if (cname == cname') && (sname == sname')
        then some e
        else service_entry clusters cname' sname')
unfolding service_entry put_entry
service_entry-put_entry cname sname e clusters c cname' sname' found =
    let new = cluster_with (some (insert sname e (or_no (services_of c)))) in
    elim (Bool-cases (cname == cname')) [
      | inr other ↦
          rw (found, put_entry, service_entry, find-insert cname cname' new clusters, other) refl
      | inl same ↦
          let found' : find cname' clusters ≡ some c =
            subst (λ n. find n clusters ≡ some c) ((eq_iff cname cname').0 same) found in
          rw
            (
              found,
              put_entry,
              service_entry,
              find-insert cname cname' new clusters,
              same,
              found',
              find-insert sname sname' e (or_no (services_of c)),
            )
            refl
    ]

-- A dependency that is to be there by itself.
abbrev pub is_wanted : DepEntry → Bool
is_wanted entry = (given_dep_of entry).auto && not (is_disabled (given_dep_of entry))

abbrev pub is_supplied : Clusters → DepEntry → Bool
is_supplied clusters entry =
    is_there
      (service_entry clusters (given_dep_of entry).cluster (name_text (given_dep_of entry).service))

-- What a service depends on.
abbrev pub deps_at : Option Entry → Map DepEntry
deps_at none = []
deps_at (some default_service) = []
deps_at (some (draft d)) = or_no d.deps

-- The dependencies of a service that are wanted are there.
abbrev pub IsSupplied : Clusters → DepEntry → Type 0
IsSupplied clusters entry = is_wanted entry ≡ true → is_supplied clusters entry ≡ true

abbrev pub AreSupplied : Clusters → Option Entry → Type 0
AreSupplied clusters o =
    (k : String) (entry : DepEntry) → find k (deps_at o) ≡ some entry → IsSupplied clusters entry

-- No service is taken away.
abbrev pub Grows : Clusters → Clusters → Type 0
Grows clusters clusters' =
    (c s : String)
    → is_there (service_entry clusters c s) ≡ true
    → is_there (service_entry clusters' c s) ≡ true

-- A service is as it was, or its dependencies are there.
abbrev pub Kept : Clusters → Clusters → String → String → Type 0
Kept clusters clusters' c s =
    (service_entry clusters' c s ≡ service_entry clusters c s)
    ⊎ AreSupplied clusters' (service_entry clusters' c s)

abbrev pub Supplies : Clusters → Clusters → Type 0
Supplies clusters clusters' =
    Grows clusters clusters' × ((c s : String) → Kept clusters clusters' c s)

-- The same but for one service.
abbrev pub Apart : String → String → Clusters → Clusters → Type 0
Apart cname sname clusters clusters' =
    Grows clusters clusters'
    × ((c s : String) → ((cname == c) && (sname == s)) ≡ false → Kept clusters clusters' c s)

pub AreSupplied-Grows :
    (o : Option Entry) (clusters clusters' : Clusters)
    → Grows clusters clusters'
    → AreSupplied clusters o
    → AreSupplied clusters' o
AreSupplied-Grows o clusters clusters' g h k entry found wanted = g _ _ (h k entry found wanted)

pub Kept-trans :
    (a b d : Clusters) (c s : String) → Grows b d → Kept a b c s → Kept b d c s → Kept a d c s
Kept-trans a b d c s g h (inr there) = inr there
Kept-trans a b d c s g (inl same) (inl same') = inl (same' ∙ same)
Kept-trans a b d c s g (inr there) (inl same') =
    inr (subst (AreSupplied d) (sym same') (AreSupplied-Grows (service_entry b c s) b d g there))

pub Supplies-refl : (a : Clusters) → Supplies a a
Supplies-refl a = ((λ c s h. h), λ c s. inl refl)

pub Supplies-trans : (a b d : Clusters) → Supplies a b → Supplies b d → Supplies a d
Supplies-trans a b d h h' =
    ((λ c s t. h'.0 c s (h.0 c s t)), λ c s. Kept-trans a b d c s h'.0 (h.1 c s) (h'.1 c s))

pub Apart-refl : (cname sname : String) (a : Clusters) → Apart cname sname a a
Apart-refl cname sname a = ((λ c s h. h), λ c s other. inl refl)

pub Apart-trans :
    (cname sname : String) (a b d : Clusters)
    → Apart cname sname a b
    → Apart cname sname b d
    → Apart cname sname a d
Apart-trans cname sname a b d h h' = (
  (λ c s t. h'.0 c s (h.0 c s t)),
  λ c s other. Kept-trans a b d c s h'.0 (h.1 c s other) (h'.1 c s other),
)

pub put_entry-Apart :
    (cname sname : String) (e : Entry) (clusters : Clusters) (c : ClusterEntry)
    → find cname clusters ≡ some c
    → Apart cname sname clusters (put_entry cname sname e clusters)
put_entry-Apart cname sname e clusters c found = (
  (λ c' s there. elim (Bool-cases ((cname == c') && (sname == s))) [
    | inl same ↦ rw (service_entry-put_entry cname sname e clusters c c' s found, same) refl
    | inr other ↦ rw (service_entry-put_entry cname sname e clusters c c' s found, other) there
  ]),
  λ c' s other. inl (rw (service_entry-put_entry cname sname e clusters c c' s found, other) refl),
)

pub service_entry-put_entry_same :
    (cname sname : String) (e : Entry) (clusters : Clusters) (c : ClusterEntry)
    → find cname clusters ≡ some c
    → service_entry (put_entry cname sname e clusters) cname sname ≡ some e
service_entry-put_entry_same cname sname e clusters c found =
    service_entry-put_entry cname sname e clusters c cname sname found
    ∙ rw (eq_refl cname, eq_refl sname) refl

pub put_dep-Apart :
    (self : ℕ) (cname sname dname : String) (dep : Dep) (clusters : Clusters)
    → Apart cname sname clusters (put_dep self cname sname dname dep clusters)
unfolding put_dep
put_dep-Apart self cname sname dname dep clusters =
    elim (Option-cases (service_entry clusters cname sname)) [
      | inl missing ↦ rw (missing, put_dep) (Apart-refl cname sname clusters)
      | inr (e, there) ↦
          let (c, found, in_c) = service_entry-found clusters cname sname e there in
          rw (there, put_dep)
            (put_entry-Apart cname sname (with_dep self dname dep e) clusters c found)
    ]

pub service_entry-put_dep :
    (self : ℕ) (cname sname dname : String) (dep : Dep) (clusters : Clusters) (e : Entry)
    → service_entry clusters cname sname ≡ some e
    → service_entry (put_dep self cname sname dname dep clusters) cname sname
      ≡ some (with_dep self dname dep e)
unfolding put_dep
service_entry-put_dep self cname sname dname dep clusters e there =
    let (c, found, in_c) = service_entry-found clusters cname sname e there in
    rw (there, put_dep)
      (service_entry-put_entry_same cname sname (with_dep self dname dep e) clusters c found)

pub service_entry-found_cluster :
    (clusters : Clusters) (c s : String) (cl : ClusterEntry)
    → find c clusters ≡ some cl
    → service_entry clusters c s ≡ find s (or_no (services_of cl))
unfolding service_entry
service_entry-found_cluster clusters c s cl found = rw (service_entry, found) refl

pub service_entry-no_cluster :
    (clusters : Clusters) (c s : String)
    → find c clusters ≡ none
    → service_entry clusters c s ≡ none
unfolding service_entry
service_entry-no_cluster clusters c s missing = rw (service_entry, missing) refl

-- A cluster that is made an object has the services that it had.
pub service_entry-opened :
    (cname : String) (services : Map Entry) (clusters : Clusters) (cl : ClusterEntry) (c s : String)
    → find cname clusters ≡ some cl
    → services ≡ or_no (services_of cl)
    → service_entry (insert cname (cluster_with (some services)) clusters) c s
      ≡ service_entry clusters c s
unfolding service_entry
service_entry-opened cname services clusters cl c s found same = elim (Bool-cases (cname == c)) [
  | inr other ↦
      rw (service_entry, find-insert cname c (cluster_with (some services)) clusters, other) refl
  | inl here ↦
      let found' : find c clusters ≡ some cl =
        subst (λ n. find n clusters ≡ some cl) ((eq_iff cname c).0 here) found in
      rw (service_entry, find-insert cname c (cluster_with (some services)) clusters, here, found')
        (ap (find s) same)
]
