-- ===== src/Normalize/Discover/Modules/Supplied.antt =====
-- The services that dependencies ask for are there in the end.
use ryba.Base.{
  ℕ, String, ◌==◌, ◌≡◌, refl, sym, ap, ◌∙◌, subst, inl, inr, true, not, ◌&&◌, List, [], ◌∷◌, none,
  some, Option-cases, Bool-cases,
}
use ryba.Js.{ok}
use ryba.Js.Laws.{>>=-eq-ok, ok-injective}
use ryba.Assoc.{Map, find, names}
use ryba.Config.{Dep}
use ryba.Normalize.Graph.{is_disabled}
use ryba.Normalize.Discover.{DepEntry, Last, full, identify_dep}
use ryba.Normalize.Discover.Drafts.{
  Entry, draft, ClusterEntry, Clusters, services_of, candidates, service_entry, read_services,
  dep_entry, put_dep, name_text, is_there, auto_draft, next_object, put_added,
}
use ryba.Normalize.Discover.Modules.{Again, add_service, add_missing, add_auto, visit_deps}
use ryba.Normalize.Discover.Modules.Candidates.{candidates-put_dep}
use ryba.Normalize.Discover.Modules.Steps.{candidates-find, read_services-find}
use ryba.Normalize.Discover.Modules.Lookup.{
  IsSupplied, AreSupplied, Supplies, Apart, Supplies-trans, Apart-refl, Apart-trans,
  put_entry-Apart, put_dep-Apart, service_entry-put_entry, service_entry-put_entry_same,
}
use ryba.Normalize.Discover.Modules.Progress.{
  IsHolding, IsOnTheWay, put_dep-IsHolding, IsHolding-Kept, IsOnTheWay-of_IsHolding,
}

-- Discovery of a service leaves it with the dependencies that it wants.
abbrev pub IsSupplying : Again → Type 0
IsSupplying again =
    (clusters : Clusters) (c s : String) (clusters' : Clusters)
    → again clusters c s ≡ ok clusters'
    → Supplies clusters clusters' × AreSupplied clusters' (service_entry clusters' c s)

read_services-entry :
    (clusters : Clusters) (c s : String) (services : Map Entry)
    → read_services clusters c ≡ ok services
    → service_entry clusters c s ≡ find s services
unfolding read_services service_entry
read_services-entry clusters c s services h = elim (Option-cases (find c clusters)) [
  | inl missing ↦ absurd (cc (rw (missing, read_services) at h))
  | inr (cl, found) ↦ elim (Option-cases (services_of cl)) [
    | inl no_services ↦ absurd (cc (rw (found, read_services, no_services) at h))
    | inr (there, e) ↦
        rw (found, service_entry, e)
          (ap (find s) (ok-injective (rw (found, read_services, e) at h)))
  ]
]

-- A service that is added has no dependencies yet.
put_added-Supplies :
    (c m : String) (clusters : Clusters) (cl : ClusterEntry)
    → find c clusters ≡ some cl
    → Supplies clusters (put_added c m clusters)
unfolding find
put_added-Supplies c m clusters cl found =
    let e = draft (auto_draft (next_object (service_entry clusters c m)) m) in
    let (grows, kept) = put_entry-Apart c m e clusters cl found in
    (
      grows,
      λ c' s'. elim (Bool-cases ((c == c') && (m == s'))) [
        | inr other ↦ kept c' s' other
        | inl same ↦
            let new : service_entry (put_added c m clusters) c' s' ≡ some e =
              service_entry-put_entry c m e clusters cl c' s' found ∙ rw same refl in
            inr (
              subst (AreSupplied (put_added c m clusters)) (sym new) (λ k entry f w. absurd (cc f)))
      ],
    )

module _ (again : Again) (works : IsSupplying again) (self : ℕ) (cname sname : String) where
  abbrev Way : List String → Clusters → Type 0
  Way later clusters = IsOnTheWay self later clusters (service_entry clusters cname sname)

  abbrev Holding : String → Dep → List String → Clusters → Type 0
  Holding dname dep later clusters =
      IsHolding self dname dep later clusters (service_entry clusters cname sname)

  Way-of_Holding :
      (dname : String) (dep : Dep) (later : List String) (clusters : Clusters)
      → Holding dname dep later clusters
      → Way (dname ∷ later) clusters
  Way-of_Holding dname dep later clusters (inl there) = inl there
  Way-of_Holding dname dep later clusters (inr (own, keys, held)) = inr (own, keys)

  add_service-Supplies :
      (dname : String) (dep : Dep) (later : List String) (clusters clusters' : Clusters)
      (services : Map Entry)
      → read_services clusters dep.cluster ≡ ok services
      → Holding dname dep later clusters
      → add_service again self cname sname dname dep clusters none ≡ ok clusters'
      → Apart cname sname clusters clusters' × Way later clusters'
  unfolding add_service
  add_service-Supplies dname dep later clusters clusters' services read held h =
      let m = name_text dep.module_name in
      let dep' : Dep = record dep { service = some m } in
      let named = put_dep self cname sname dname dep' clusters in
      let (cl, found, same) = candidates-find dep.cluster named _ (
        ap (find dep.cluster) (candidates-put_dep self cname sname dname dep' clusters)
        ∙ read_services-find dep.cluster clusters services read) in
      let added = put_added dep.cluster m named in
      let (done, own) = works added dep.cluster m clusters' h in
      let steps =
        Supplies-trans named added clusters' (put_added-Supplies dep.cluster m named cl found)
          done in
      let new = draft (auto_draft (next_object (service_entry named dep.cluster m)) m) in
      let there : is_there (service_entry added dep.cluster m) ≡ true =
        ap is_there (service_entry-put_entry_same dep.cluster m new named cl found) in
      let holding =
        put_dep-IsHolding self cname sname dname dep' later clusters
          (Way-of_Holding dname dep later clusters held) in
      (
        Apart-trans cname sname clusters named clusters'
            (put_dep-Apart self cname sname dname dep' clusters)
            (steps.0, λ c s other. steps.1 c s),
        IsOnTheWay-of_IsHolding self dname dep' later clusters'
            (service_entry clusters' cname sname) (λ wanted. done.0 dep.cluster m there)
            (IsHolding-Kept self cname sname dname dep' later named clusters' steps.0
              (steps.1 cname sname) holding),
      )

  add_auto-Supplies :
      (dname : String) (dep : Dep) (later : List String) (clusters clusters' : Clusters)
      → Holding dname dep later clusters
      → add_auto again self cname sname dname dep clusters ≡ ok clusters'
      → Apart cname sname clusters clusters' × Way later clusters'
  unfolding add_auto add_missing add_service
  add_auto-Supplies dname dep later clusters clusters' held h =
      let here = service_entry clusters cname sname in
      let stays : (same : clusters ≡ clusters')
          → IsSupplied clusters (dep_entry dep)
          → Apart cname sname clusters clusters' × Way later clusters' =
        λ same s.
          subst (λ x. Apart cname sname clusters x × Way later x) same
            (
              Apart-refl cname sname clusters,
              IsOnTheWay-of_IsHolding self dname dep later clusters here s held,
            ) in
      elim (Bool-cases (dep.auto && not (is_disabled dep))) [
        | inr off ↦
            stays (ok-injective (rw (off, add_auto) at h)) (λ wanted. absurd (cc (off, wanted)))
        | inl on ↦
            let (services, read, h') =
              >>=-eq-ok (read_services clusters dep.cluster) _ (rw (on, add_auto) at h) in
            elim (Option-cases (find (name_text dep.service) services)) [
              | inr (e, there) ↦ stays (ok-injective (rw (there, add_missing) at h')) (λ wanted.
                  ap is_there (
                    read_services-entry clusters dep.cluster (name_text dep.service) services read
                    ∙ there))
              | inl missing ↦ elim (Option-cases (full dep.service)) [
                | inr (s, given) ↦ absurd (cc (rw (missing, add_missing, given, add_service) at h'))
                | inl unnamed ↦
                    add_service-Supplies dname dep later clusters clusters' services read held
                      (rw (missing, add_missing, unnamed) at h')
              ]
            ]
      ]

  pub visit_deps-Supplies :
      (own : String) (last : Last) (deps : Map DepEntry) (clusters clusters' : Clusters)
      → Way (names deps) clusters
      → visit_deps again self own cname sname last deps clusters ≡ ok clusters'
      → Apart cname sname clusters clusters'
        × AreSupplied clusters' (service_entry clusters' cname sname)
  unfolding visit_deps
  visit_deps-Supplies own last [] clusters clusters' way h =
      subst (λ x. Apart cname sname clusters x × AreSupplied x (service_entry x cname sname))
        (ok-injective h) (Apart-refl cname sname clusters, AreSupplied-of_Way clusters way)
    where
      AreSupplied-of_Way :
          (clusters : Clusters)
          → Way [] clusters
          → AreSupplied clusters (service_entry clusters cname sname)
      AreSupplied-of_Way clusters (inl there) = there
      AreSupplied-of_Way clusters (inr (own, keys)) = λ k entry found. elim (keys k entry found) [
        | inl none_left ↦ absurd (cc none_left)
        | inr there ↦ there
      ]
  visit_deps-Supplies own last ((dname, entry) ∷ deps) clusters clusters' way h =
      let ((dep, now), identified, h1) =
        >>=-eq-ok (identify_dep (candidates clusters) own last entry) _ h in
      let named = put_dep self cname sname dname dep clusters in
      let (after, added, h2) = >>=-eq-ok (add_auto again self cname sname dname dep named) _ h1 in
      let (first, way') =
        add_auto-Supplies dname dep (names deps) named after
          (put_dep-IsHolding self cname sname dname dep (names deps) clusters way) added in
      let (rest, there) = visit_deps-Supplies own now deps after clusters' way' h2 in
      (
        Apart-trans cname sname clusters named clusters'
            (put_dep-Apart self cname sname dname dep clusters)
            (Apart-trans cname sname named after clusters' first rest),
        there,
      )
