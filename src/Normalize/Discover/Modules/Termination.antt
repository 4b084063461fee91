-- ===== src/Normalize/Discover/Modules/Termination.antt =====
-- Discovery ends, where the modules that services depend on are among a given list: each service that is
-- added is one that was missing.
use ryba.Base.{
  ℕ, zero, suc, ◌*◌, ◌≤◌, ◌<◌, String, ◌==◌, ◌≡◌, ◌≢◌, sym, ap, ◌∙◌, subst, inl, inr, List, [], ◌∷◌,
  none, some, Option-cases, arith, length,
}
use ryba.Js.{Value, obj, Fields, Result, ok, err, ◌>>=◌, out_of_fuel}
use ryba.Js.Laws.{>>=-eq-ok, ok-injective}
use ryba.Assoc.{find, insert, map_some, find-map_values, names}
use ryba.Normalize.Each.{AllEntries}
use ryba.Normalize.Discover.{full_or}
use ryba.Normalize.Discover.Drafts.{
  Draft, Entry, draft, ClusterEntry, cluster_with, Clusters, or_no, services_of, candidate_of,
  candidates, module_of, started, definition_of, service_entry, put_entry,
}
use ryba.Normalize.Discover.Modules.{
  Again, loaded_draft, visit_entry, discover_service, discover_services, cluster_under,
  discover_clusters, discover_all,
}
use ryba.Normalize.Discover.Modules.Measure.{is_settled, missing, missing-put_le}
use ryba.Normalize.Discover.Modules.Candidates.{
  cluster_candidates, candidates-put_entry, find-candidates, service_entry-found,
}
use ryba.Normalize.Discover.Modules.Invariant.{
  IsThrown, AreDepsIn, IsEntryIn, IsClusterIn, AreIn, left, Goes, Goes-le, Goes-bind, Goes-after,
  put_entry-AreIn, service_entry-IsEntryIn, AllEntries-find, AllEntries-insert,
}
use ryba.Normalize.Discover.Modules.Steps.{GoesBelow, visit_deps-Goes}
use ryba.Normalize.Discover.Modules.Loading.{
  definition_of-IsThrown, definition_of-obj, IsThrown-bind, IsThrown-of_ne, full_or-module_of,
  module_name-started, started-AreDepsIn, cluster_under-IsThrown, cluster_under-found,
  candidates-opened, left-le-length,
}

-- The modules that `load` gives set no `module` of the service, and depend on modules of the list.
pub record AreClosed (load : String → Result Value) (mutate : Draft → Fields → Draft)
    (modules : List String) : Type 0 where
  pub loads : (m : String) → load m ≢ err out_of_fuel
  pub keeps_module :
      (m : String) (definition : Fields) (d : Draft)
      → load m ≡ ok (obj definition)
      → (mutate d definition).module_name ≡ d.module_name
  pub keeps_deps :
      (m : String) (definition : Fields) (d : Draft)
      → load m ≡ ok (obj definition)
      → AreDepsIn modules d.deps
      → AreDepsIn modules (mutate d definition).deps

module _ (load : String → Result Value) (mutate : Draft → Fields → Draft) (modules : List String)
    (closed : AreClosed load mutate modules) where
  loaded_draft-IsThrown : (m : String) (d : Draft) → IsThrown (loaded_draft load mutate m d)
  unfolding loaded_draft
  loaded_draft-IsThrown m d =
      IsThrown-bind (load m >>= definition_of m) _
        (IsThrown-bind (load m) (definition_of m) (IsThrown-of_ne (load m) (closed.loads m))
          (definition_of-IsThrown m))
        (λ definition. tt)

  loaded_draft-keeps :
      (m : String) (d d' : Draft)
      → loaded_draft load mutate m d ≡ ok d'
      → AreDepsIn modules d.deps
      → (d'.module_name ≡ d.module_name) × AreDepsIn modules d'.deps
  unfolding loaded_draft
  loaded_draft-keeps m d d' h deps =
      let (definition, e, same) = >>=-eq-ok (load m >>= definition_of m) _ h in
      let (v, l, defined) = >>=-eq-ok (load m) (definition_of m) e in
      let given : load m ≡ ok (obj definition) =
        l ∙ ap ok (definition_of-obj m v definition defined) in
      (
        ap (λ x. x.module_name) (sym (ok-injective same))
            ∙ closed.keeps_module m definition d given,
        subst (λ x. AreDepsIn modules x.deps) (ok-injective same)
            (closed.keeps_deps m definition d given deps),
      )

  put_draft-left :
      (cname sname : String) (e : Entry) (d : Draft) (clusters : Clusters) (c : ClusterEntry)
      → find cname clusters ≡ some c
      → find sname (or_no (services_of c)) ≡ some e
      → d.module_name ≡ some (module_of (candidate_of e).module_name sname)
      → left modules (put_entry cname sname (draft d) clusters) ≤ left modules clusters
  put_draft-left cname sname e d clusters c found in_c kept =
      let old =
        find-map_values candidate_of sname (or_no (services_of c))
        ∙ ap (map_some candidate_of) in_c in
      let same =
        ap (λ o. full_or o sname == sname) kept
        ∙ ap (λ t. t == sname) (full_or-module_of (candidate_of e).module_name sname)
        ∙ sym (ap (is_settled sname) old) in
      omega (
        arith,
        ap (missing modules) (candidates-put_entry cname sname (draft d) clusters c found),
        missing-put_le modules cname sname (candidates clusters) (cluster_candidates c)
            (candidate_of (draft d)) (find-candidates cname clusters c found) (λ h. same ∙ h),
      )

  visit_entry-Goes :
      (n : ℕ) (again : Again) (own cname sname : String) (clusters : Clusters) (e : Entry)
      → GoesBelow modules n again
      → AreIn modules clusters
      → left modules clusters ≤ n
      → service_entry clusters cname sname ≡ some e
      → Goes modules
          (left modules clusters)
          (visit_entry load mutate again own cname sname clusters (some e))
  visit_entry-Goes n again own cname sname clusters e below h bound there =
      let d0 = started sname e in
      let m = module_of d0.module_name sname in
      Goes-after modules (left modules clusters) (loaded_draft load mutate m d0) _
        (loaded_draft-IsThrown m d0)
        λ d loaded_d.
          let (kept, deps) = loaded_draft-keeps m d0 d loaded_d (
            started-AreDepsIn modules sname e
              (service_entry-IsEntryIn modules clusters cname sname e h there)) in
          let (c, found, in_c) = service_entry-found clusters cname sname e there in
          let clusters' = put_entry cname sname (draft d) clusters in
          let less : left modules clusters' ≤ left modules clusters =
            put_draft-left cname sname e d clusters c found in_c
              (kept ∙ module_name-started sname e) in
          Goes-le modules (left modules clusters') (left modules clusters) _ less (
            visit_deps-Goes modules n again below (started sname e).object own cname sname
              (none, none) (or_no d.deps) clusters' deps
              (put_entry-AreIn modules cname sname (draft d) clusters deps h)
              (omega (arith, less, bound)))

  discover_service-Goes :
      (fuel : ℕ) (own : String) → GoesBelow modules fuel (discover_service load mutate fuel own)
  unfolding discover_service
  discover_service-Goes zero own clusters cname sname h bound = absurd (omega (arith, bound))
  discover_service-Goes (suc fuel) own clusters cname sname h bound =
      elim (Option-cases (service_entry clusters cname sname)) [
        | inl missing_there ↦ rw missing_there (λ e. cc)
        | inr (e, there) ↦ rw there (
            visit_entry-Goes fuel (discover_service load mutate fuel own) own cname sname clusters e
              (discover_service-Goes fuel own) h (omega (arith, bound)) there)
      ]

  discover_services-Goes :
      (fuel : ℕ) (cname : String) (snames : List String) (clusters : Clusters)
      → AreIn modules clusters
      → left modules clusters < fuel
      → Goes modules
          (left modules clusters)
          (discover_services load mutate fuel cname snames clusters)
  unfolding discover_services
  discover_services-Goes fuel cname [] clusters h bound = (h, omega arith)
  discover_services-Goes fuel cname (sname ∷ snames) clusters h bound =
      Goes-bind modules (left modules clusters)
        (discover_service load mutate fuel cname clusters cname sname)
        (discover_services load mutate fuel cname snames)
        (discover_service-Goes fuel cname clusters cname sname h bound)
        λ clusters' within less.
          Goes-le modules (left modules clusters') (left modules clusters)
            (discover_services load mutate fuel cname snames clusters') less
            (discover_services-Goes fuel cname snames clusters' within (omega (arith, less, bound)))

  discover_clusters-Goes :
      (fuel : ℕ) (cnames : List String) (clusters : Clusters)
      → AreIn modules clusters
      → left modules clusters < fuel
      → Goes modules (left modules clusters) (discover_clusters load mutate fuel cnames clusters)
  unfolding discover_clusters
  discover_clusters-Goes fuel [] clusters h bound = (h, omega arith)
  discover_clusters-Goes fuel (cname ∷ cnames) clusters h bound =
      Goes-after modules (left modules clusters) (cluster_under cname clusters) _
        (cluster_under-IsThrown cname clusters)
        λ services e.
          let (c, found, same) = cluster_under-found cname clusters services e in
          let clusters' = insert cname (cluster_with (some services)) clusters in
          let kept : left modules clusters' ≡ left modules clusters =
            ap (missing modules) (candidates-opened cname services clusters c found same) in
          let within : AreIn modules clusters' =
            AllEntries-insert (IsClusterIn modules) cname (cluster_with (some services)) clusters
              (subst (AllEntries (λ _ e. IsEntryIn modules e)) (sym same)
                (AllEntries-find (IsClusterIn modules) cname c clusters h found))
              h in
          Goes-bind modules (left modules clusters)
            (discover_services load mutate fuel cname (names services) clusters')
            (discover_clusters load mutate fuel cnames)
            (Goes-le modules (left modules clusters') (left modules clusters) _
              (omega (arith, kept))
              (discover_services-Goes fuel cname (names services) clusters' within
                (omega (arith, kept, bound))))
            λ clusters'' within' less.
              Goes-le modules (left modules clusters'') (left modules clusters)
                (discover_clusters load mutate fuel cnames clusters'') less
                (discover_clusters-Goes fuel cnames clusters'' within' (omega (arith, less, bound)))

  ne-of_Goes : (n : ℕ) (r : Result Clusters) → Goes modules n r → r ≢ err out_of_fuel
  ne-of_Goes n (ok clusters) g = λ e. cc
  ne-of_Goes n (err e) g = λ same. g (cc)

  -- If the modules set no `module` of a service and depend on modules of a list only, and so does the
  -- configuration, discovery with more fuel than the list has modules times clusters gives a result or an exception
  -- of the program: the services that dependencies add to one another come to an end.
  pub discover_all-ne-out_of_fuel :
      (fuel : ℕ) (clusters : Clusters)
      → AreIn modules clusters
      → length modules * length clusters < fuel
      → discover_all load mutate fuel clusters ≢ err out_of_fuel
  unfolding discover_all
  discover_all-ne-out_of_fuel fuel clusters h bound =
      ne-of_Goes (left modules clusters)
        (discover_clusters load mutate fuel (names clusters) clusters)
        (discover_clusters-Goes fuel (names clusters) clusters h
          (omega (arith, bound, left-le-length modules clusters)))
