-- ===== src/Normalize/Discover/Modules/Complete.antt =====
-- After discovery, every dependency that is marked `auto` has its service.
use ryba.Base.{
  ℕ, zero, suc, String, ◌==◌, eq_iff, ◌≡◌, sym, ap, ap₂, ◌∙◌, subst, inl, inr, true, ◌&&◌, List, [],
  ◌∷◌, contains, none, some, Option-cases, Bool-cases, arith,
}
use ryba.Js.{Value, Fields, Result, ok, ◌>>=◌}
use ryba.Js.Laws.{>>=-eq-ok, ok-injective}
use ryba.Assoc.{find-absent, find-contains, Map, find, insert, names}
use ryba.Normalize.Discover.{DepEntry}
use ryba.Normalize.Discover.Drafts.{
  Draft, Entry, draft, cluster_with, Clusters, or_no, module_of, started, definition_of,
  service_entry, put_entry, is_there,
}
use ryba.Normalize.Discover.Modules.{
  Again, cluster_under, loaded_draft, visit_entry, discover_service, discover_services,
  discover_clusters, discover_all,
}
use ryba.Normalize.Discover.Modules.Candidates.{service_entry-found}
use ryba.Normalize.Discover.Modules.Loading.{cluster_under-found}
use ryba.Normalize.Discover.Modules.Lookup.{
  service_entry-found_cluster, service_entry-no_cluster, service_entry-opened, deps_at, is_wanted,
  is_supplied, AreSupplied, Supplies, Apart, AreSupplied-Grows, Supplies-refl, Supplies-trans,
  Apart-trans, put_entry-Apart, service_entry-put_entry_same,
}
use ryba.Normalize.Discover.Modules.Progress.{IsOnTheWay}
use ryba.Normalize.Discover.Modules.Supplied.{IsSupplying, visit_deps-Supplies}

AreSupplied-none : (clusters : Clusters) → AreSupplied clusters none
unfolding find
AreSupplied-none clusters k entry f wanted = absurd (cc f)

AreSupplied-Kept :
    (a b : Clusters) (c s : String)
    → Supplies a b
    → AreSupplied a (service_entry a c s)
    → AreSupplied b (service_entry b c s)
AreSupplied-Kept a b c s h there = elim (h.1 c s) [
  | inr there' ↦ there'
  | inl same ↦
      subst (AreSupplied b) (sym same) (AreSupplied-Grows (service_entry a c s) a b h.0 there)
]

Supplies-of_Apart :
    (cname sname : String) (a b : Clusters)
    → Apart cname sname a b
    → AreSupplied b (service_entry b cname sname)
    → Supplies a b
Supplies-of_Apart cname sname a b h own = (
  h.0,
  λ c s. elim (Bool-cases ((cname == c) && (sname == s))) [
    | inr other ↦ h.1 c s other
    | inl same ↦
        let cluster_same : cname ≡ c = (eq_iff cname c).0 (ground arith) in
        let service_same : sname ≡ s = (eq_iff sname s).0 (ground arith) in
        inr (subst (AreSupplied b) (ap₂ (service_entry b) cluster_same service_same) own)
  ],
)

module _ (load : String → Result Value) (mutate : Draft → Fields → Draft) where
  loaded_draft-object :
      (m : String) (d d' : Draft) → loaded_draft load mutate m d ≡ ok d' → d'.object ≡ d.object
  unfolding loaded_draft
  loaded_draft-object m d d' h =
      let (definition, e, same) = >>=-eq-ok (load m >>= definition_of m) _ h in
      ap (λ x. x.object) (sym (ok-injective same))

  visit_entry-Supplies :
      (again : Again) (own cname sname : String) (clusters clusters' : Clusters) (e : Entry)
      → IsSupplying again
      → service_entry clusters cname sname ≡ some e
      → visit_entry load mutate again own cname sname clusters (some e) ≡ ok clusters'
      → Supplies clusters clusters' × AreSupplied clusters' (service_entry clusters' cname sname)
  visit_entry-Supplies again own cname sname clusters clusters' e works there h =
      let d0 = started sname e in
      let (d, loaded, h1) =
        >>=-eq-ok (loaded_draft load mutate (module_of d0.module_name sname) d0) _ h in
      let (cl, found, in_c) = service_entry-found clusters cname sname e there in
      let opened = put_entry cname sname (draft d) clusters in
      let new = service_entry-put_entry_same cname sname (draft d) clusters cl found in
      let way : IsOnTheWay d0.object (names (or_no d.deps)) opened (some (draft d)) = inr (
        ground (arith, loaded_draft-object (module_of d0.module_name sname) d0 d loaded),
        λ k entry f. inl (find-contains k entry (or_no d.deps) f),
      ) in
      let (apart, own_deps) =
        visit_deps-Supplies again works d0.object cname sname own (none, none) (or_no d.deps) opened
          clusters' (subst (IsOnTheWay d0.object (names (or_no d.deps)) opened) (sym new) way) h1 in
      (
        Supplies-of_Apart cname sname clusters clusters'
            (Apart-trans cname sname clusters opened clusters'
              (put_entry-Apart cname sname (draft d) clusters cl found) apart)
            own_deps,
        own_deps,
      )

  discover_service-IsSupplying :
      (fuel : ℕ) (own : String) → IsSupplying (discover_service load mutate fuel own)
  unfolding discover_service
  discover_service-IsSupplying zero own clusters c s clusters' h = absurd (cc h)
  discover_service-IsSupplying (suc fuel) own clusters c s clusters' h =
      elim (Option-cases (service_entry clusters c s)) [
        | inl missing ↦ absurd (cc (rw missing at h))
        | inr (e, there) ↦
            visit_entry-Supplies (discover_service load mutate fuel own) own c s clusters clusters'
              e (discover_service-IsSupplying fuel own) there (rw there at h)
      ]

  discover_services-Supplies :
      (fuel : ℕ) (cname : String) (snames : List String) (clusters clusters' : Clusters)
      → discover_services load mutate fuel cname snames clusters ≡ ok clusters'
      → Supplies clusters clusters'
        × ((s : String)
            → contains snames s ≡ true
            → AreSupplied clusters' (service_entry clusters' cname s))
  unfolding discover_services
  discover_services-Supplies fuel cname [] clusters clusters' h = (
    subst (Supplies clusters) (ok-injective h) (Supplies-refl clusters),
    λ s there. absurd (cc there),
  )
  discover_services-Supplies fuel cname (sname ∷ snames) clusters clusters' h =
      let (after, done, h1) =
        >>=-eq-ok (discover_service load mutate fuel cname clusters cname sname) _ h in
      let (first, own) = discover_service-IsSupplying fuel cname clusters cname sname after done in
      let (rest, others) = discover_services-Supplies fuel cname snames after clusters' h1 in
      (
        Supplies-trans clusters after clusters' first rest,
        λ s there. elim (Bool-cases (sname == s)) [
          | inl same ↦
              subst (λ n. AreSupplied clusters' (service_entry clusters' cname n))
                ((eq_iff sname s).0 same) (AreSupplied-Kept after clusters' cname sname rest own)
          | inr other ↦ others s (rw other at there)
        ],
      )

  -- One cluster: all its services, also those that are not visited by the loop since they are added.
  discover_cluster-Supplies :
      (fuel : ℕ) (cname : String) (services : Map Entry) (clusters clusters' : Clusters)
      → cluster_under cname clusters ≡ ok services
      → discover_services load mutate fuel cname
          (names services)
          (insert cname (cluster_with (some services)) clusters)
        ≡ ok clusters'
      → Supplies clusters clusters'
        × ((s : String) → AreSupplied clusters' (service_entry clusters' cname s))
  discover_cluster-Supplies fuel cname services clusters clusters' under h =
      let (cl, found, same) = cluster_under-found cname clusters services under in
      let opened = insert cname (cluster_with (some services)) clusters in
      let as_before : (c s : String) → service_entry opened c s ≡ service_entry clusters c s =
        λ c s. service_entry-opened cname services clusters cl c s found same in
      let first : Supplies clusters opened =
        ((λ c s there. ap is_there (as_before c s) ∙ there), λ c s. inl (as_before c s)) in
      let (rest, visited) =
        discover_services-Supplies fuel cname (names services) opened clusters' h in
      (
        Supplies-trans clusters opened clusters' first rest,
        λ s. elim (Bool-cases (contains (names services) s)) [
          | inl there ↦ visited s there
          | inr absent ↦
              let none_there : service_entry opened cname s ≡ none =
                as_before cname s
                ∙ service_entry-found_cluster clusters cname s cl found
                ∙ ap (find s) (sym same)
                ∙ find-absent s services absent in
              AreSupplied-Kept opened clusters' cname s rest
                (subst (AreSupplied opened) (sym none_there) (AreSupplied-none opened))
        ],
      )

  discover_clusters-Supplies :
      (fuel : ℕ) (cnames : List String) (clusters clusters' : Clusters)
      → discover_clusters load mutate fuel cnames clusters ≡ ok clusters'
      → Supplies clusters clusters'
        × ((c s : String)
            → contains cnames c ≡ true
            → AreSupplied clusters' (service_entry clusters' c s))
  unfolding discover_clusters
  discover_clusters-Supplies fuel [] clusters clusters' h = (
    subst (Supplies clusters) (ok-injective h) (Supplies-refl clusters),
    λ c s there. absurd (cc there),
  )
  discover_clusters-Supplies fuel (cname ∷ cnames) clusters clusters' h =
      let (services, under, h1) = >>=-eq-ok (cluster_under cname clusters) _ h in
      let (after, done, h2) =
        >>=-eq-ok
          (discover_services load mutate fuel cname (names services)
            (insert cname (cluster_with (some services)) clusters))
          _ h1 in
      let (first, own) = discover_cluster-Supplies fuel cname services clusters after under done in
      let (rest, others) = discover_clusters-Supplies fuel cnames after clusters' h2 in
      (
        Supplies-trans clusters after clusters' first rest,
        λ c s there. elim (Bool-cases (cname == c)) [
          | inl same ↦
              subst (λ n. AreSupplied clusters' (service_entry clusters' n s))
                ((eq_iff cname c).0 same) (AreSupplied-Kept after clusters' cname s rest (own s))
          | inr other ↦ others c s (rw other at there)
        ],
      )

  -- If discovery succeeds, then for every service of the result and each of its dependencies that is marked
  -- `auto` and not disabled, the service that the dependency names is in the cluster that it names.
  pub discover_all-IsSupplied :
      (fuel : ℕ) (clusters clusters' : Clusters) (c s dname : String) (entry : DepEntry)
      → discover_all load mutate fuel clusters ≡ ok clusters'
      → find dname (deps_at (service_entry clusters' c s)) ≡ some entry
      → is_wanted entry ≡ true
      → is_supplied clusters' entry ≡ true
  unfolding discover_all
  discover_all-IsSupplied fuel clusters clusters' c s dname entry h found wanted =
      let (kept, visited) = discover_clusters-Supplies fuel (names clusters) clusters clusters' h in
      elim (Bool-cases (contains (names clusters) c)) [
        | inl there ↦ visited c s there dname entry found wanted
        | inr absent ↦
            AreSupplied-Kept clusters clusters' c s kept
              (subst (AreSupplied clusters)
                (sym (service_entry-no_cluster clusters c s (find-absent c clusters absent)))
                (AreSupplied-none clusters))
              dname entry found wanted
      ]
