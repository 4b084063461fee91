-- ===== src/Normalize/Discover/Modules/Steps.antt =====
-- The steps of discovery add no more than what is missing, if the discovery of what they add does not.
use ryba.Base.{
  ℕ, ◌≤◌, ◌<◌, String, ◌==◌, eq_refl, ◌≡◌, refl, sym, ap, ◌∙◌, subst, inl, inr, true, false, not,
  ◌&&◌, List, [], ◌∷◌, contains, none, some, Option-cases, Bool-cases, arith,
}
use ryba.Js.{ok}
use ryba.Js.Laws.{ok-injective}
use ryba.Assoc.{Map, find, map_values, map_some, find-map_values}
use ryba.Config.{Dep}
use ryba.Normalize.Each.{AllEntries}
use ryba.Normalize.Graph.{is_disabled}
use ryba.Normalize.Discover.{DepEntry, Candidate, Last, full, full_or, identify_dep}
use ryba.Normalize.Discover.Drafts.{
  Entry, draft, ClusterEntry, Clusters, or_no, services_of, candidate_of, candidates, put_entry,
  read_services, put_dep, name_text, auto_draft, next_object, put_added, service_entry,
}
use ryba.Normalize.Discover.Modules.{Again, add_service, add_missing, add_auto, visit_deps}
use ryba.Normalize.Discover.Modules.Measure.{is_settled, missing, missing-put_lt}
use ryba.Normalize.Discover.Modules.Candidates.{
  cluster_candidates, candidates-put_entry, find-candidates, candidates-put_dep,
}
use ryba.Normalize.Discover.Modules.Invariant.{
  IsThrown, is_in, IsDepIn, AreIn, left, Goes, Goes-le, Goes-bind, Goes-after, put_entry-AreIn,
  put_dep-AreIn, put_dep-left,
}
use ryba.Normalize.Discover.Modules.Identified.{
  identify_dep-IsThrown, identify_dep-module, identify_dep-search, the_service-is_settled,
}

pub candidates-find :
    (cname : String) (clusters : Clusters) (s : Map Candidate)
    → find cname (candidates clusters) ≡ some s
    → (c : ClusterEntry) × (find cname clusters ≡ some c) × (cluster_candidates c ≡ s)
unfolding candidates
candidates-find cname clusters s h = elim (Option-cases (find cname clusters)) [
  | inl none_there ↦ absurd (cc (find-map_values cluster_candidates cname clusters, none_there, h))
  | inr (c, found) ↦ (c, found, cc (find-candidates cname clusters c found, h))
]

pub read_services-find :
    (cname : String) (clusters : Clusters) (services : Map Entry)
    → read_services clusters cname ≡ ok services
    → find cname (candidates clusters) ≡ some (map_values candidate_of services)
unfolding read_services
read_services-find cname clusters services h = elim (Option-cases (find cname clusters)) [
  | inl none_there ↦ absurd (cc (rw (none_there, read_services) at h))
  | inr (c, found) ↦ elim (Option-cases (services_of c)) [
    | inl no_services ↦ absurd (cc (rw (found, read_services, no_services) at h))
    | inr (there, e) ↦
        find-candidates cname clusters c found
        ∙ ap (λ o. some (map_values candidate_of (or_no o))) e
        ∙ ap (λ m. some (map_values candidate_of m))
            (ok-injective (rw (found, read_services, e) at h))
  ]
]

read_services-IsThrown :
    (clusters : Clusters) (cname : String) → IsThrown (read_services clusters cname)
unfolding read_services
read_services-IsThrown clusters cname = elim (Option-cases (find cname clusters)) [
  | inl none_there ↦ rw (none_there, read_services) (λ e. cc)
  | inr (c, found) ↦ elim (Option-cases (services_of c)) [
    | inl no_services ↦ rw (found, read_services, no_services) (λ e. cc)
    | inr (services, there) ↦ rw (found, read_services, there) tt
  ]
]

-- Discovery again, below a bound on what is missing.
abbrev pub GoesBelow : List String → ℕ → Again → Type 0
GoesBelow modules n again =
    (clusters : Clusters) (cname sname : String)
    → AreIn modules clusters
    → left modules clusters < n
    → Goes modules (left modules clusters) (again clusters cname sname)

full_or_self : (m : String) → full_or (some m) m ≡ m
full_or_self m = elim (Bool-cases (m == "")) [
  | inl empty ↦ rw (full_or, full, empty) refl
  | inr given ↦ rw (full_or, full, given) refl
]

module _ (modules : List String) (n : ℕ) (again : Again) (below : GoesBelow modules n again) where
  add_service-Goes :
      (self : ℕ) (cname sname dname : String) (dep : Dep) (clusters : Clusters) (m : String)
      (s : Map Candidate)
      → AreIn modules clusters
      → left modules clusters ≤ n
      → dep.module_name ≡ some m
      → contains modules m ≡ true
      → find dep.cluster (candidates clusters) ≡ some s
      → is_settled m (find m s) ≡ false
      → Goes modules
          (left modules clusters)
          (add_service again self cname sname dname dep clusters none)
  unfolding add_service
  add_service-Goes self cname sname dname dep clusters m s h bound named listed found new =
      let dep' : Dep = record dep { service = some m } in
      let named_clusters = put_dep self cname sname dname dep' clusters in
      let same : candidates named_clusters ≡ candidates clusters =
        candidates-put_dep self cname sname dname dep' clusters in
      let (c, c_found, c_same) =
        candidates-find dep.cluster named_clusters s (ap (find dep.cluster) same ∙ found) in
      let number = next_object (service_entry named_clusters dep.cluster m) in
      let added = candidate_of (draft (auto_draft number m)) in
      let final = put_entry dep.cluster m (draft (auto_draft number m)) named_clusters in
      let put =
        candidates-put_entry dep.cluster m (draft (auto_draft number m)) named_clusters c c_found in
      let fewer =
        missing-put_lt modules dep.cluster m (candidates named_clusters) (cluster_candidates c)
          added (find-candidates dep.cluster named_clusters c c_found) listed
          (ap (λ t. is_settled m (find m t)) c_same ∙ new)
          (ap (λ t. t == m) (full_or_self m) ∙ eq_refl m) in
      let less : left modules final < left modules clusters =
        omega (arith, ap (missing modules) put, fewer, ap (missing modules) same) in
      let within =
        put_entry-AreIn modules dep.cluster m (draft (auto_draft number m)) named_clusters tt (
          put_dep-AreIn modules self cname sname dname dep' clusters
            (ap (is_in modules) named ∙ listed) h) in
      subst
        (λ t. Goes modules (left modules clusters) (
          again
            (put_added dep.cluster t
              (put_dep self cname sname dname (record dep { service = some t }) clusters))
            dep.cluster t))
        (sym (ap name_text named))
        (Goes-le modules (left modules final) (left modules clusters) (again final dep.cluster m)
          (omega (arith, less)) (below final dep.cluster m within (omega (arith, less, bound))))

  add_auto-Goes :
      (self : ℕ) (own cname sname dname : String) (last now : Last) (entry : DepEntry) (dep : Dep)
      (clusters : Clusters)
      → identify_dep (candidates clusters) own last entry ≡ ok (dep, now)
      → IsDepIn modules entry
      → AreIn modules clusters
      → left modules clusters ≤ n
      → Goes modules
          (left modules clusters)
          (add_auto again self cname sname dname dep (put_dep self cname sname dname dep clusters))
  unfolding add_auto add_missing add_service
  add_auto-Goes self own cname sname dname last now entry dep clusters identified listed h bound =
      let named = put_dep self cname sname dname dep clusters in
      let kept : left modules named ≡ left modules clusters =
        put_dep-left modules self cname sname dname dep clusters in
      let in_list : is_in modules dep.module_name ≡ true =
        ap (is_in modules)
          (identify_dep-module (candidates clusters) own last entry dep now identified)
        ∙ listed in
      let within : AreIn modules named =
        put_dep-AreIn modules self cname sname dname dep clusters in_list h in
      elim (Bool-cases (dep.auto && not (is_disabled dep))) [
        | inr off ↦ rw (add_auto, off) (within, omega (arith, kept))
        | inl auto ↦
            rw (add_auto, auto)
              (Goes-after modules (left modules clusters) (read_services named dep.cluster) _
                (read_services-IsThrown named dep.cluster)
                λ services read. elim (Option-cases (find (name_text dep.service) services)) [
                  | inr (e, there) ↦ rw (add_missing, there) (within, omega (arith, kept))
                  | inl missing_there ↦ elim (Option-cases (full dep.service)) [
                    | inr (s, given) ↦ rw (add_missing, missing_there, given, add_service) (λ e. cc)
                    | inl unnamed ↦
                        let (m, s, named_m, found, searched) =
                          identify_dep-search (candidates clusters) own last entry dep now
                            identified unnamed in
                        let found' : find dep.cluster (candidates named) ≡ some s =
                          ap (find dep.cluster)
                            (candidates-put_dep self cname sname dname dep clusters)
                          ∙ found in
                        let same : map_values candidate_of services ≡ s =
                          cc (read_services-find dep.cluster named services read, found') in
                        let absent : find (name_text dep.service) s ≡ none =
                          ap (find (name_text dep.service)) (sym same)
                          ∙ find-map_values candidate_of (name_text dep.service) services
                          ∙ ap (map_some candidate_of) missing_there in
                        rw (add_missing, missing_there, unnamed)
                          (Goes-le modules (left modules named) (left modules clusters)
                            (add_service again self cname sname dname dep named none)
                            (omega (arith, kept))
                            (add_service-Goes self cname sname dname dep named m s within
                              (omega (arith, kept, bound)) named_m
                              (ap (is_in modules) (sym named_m) ∙ in_list) found'
                              (the_service-is_settled m dep.cluster s dep.service searched unnamed
                                absent)))
                  ]
                ])
      ]

  pub visit_deps-Goes :
      (self : ℕ) (own cname sname : String) (last : Last) (deps : Map DepEntry)
      (clusters : Clusters)
      → AllEntries (λ _ entry. IsDepIn modules entry) deps
      → AreIn modules clusters
      → left modules clusters ≤ n
      → Goes modules
          (left modules clusters)
          (visit_deps again self own cname sname last deps clusters)
  unfolding visit_deps
  visit_deps-Goes self own cname sname last [] clusters d h bound = (h, omega arith)
  visit_deps-Goes self own cname sname last ((dname, entry) ∷ deps) clusters d h bound =
      Goes-after modules (left modules clusters) (identify_dep (candidates clusters) own last entry)
        _ (identify_dep-IsThrown (candidates clusters) own last entry)
        (λ (dep, now) identified.
          Goes-bind modules (left modules clusters)
            (add_auto again self cname sname dname dep
              (put_dep self cname sname dname dep clusters))
            _
            (add_auto-Goes self own cname sname dname last now entry dep clusters identified d.0 h
              bound)
            (λ clusters' within less.
              Goes-le modules (left modules clusters') (left modules clusters)
                (visit_deps again self own cname sname now deps clusters') less
                (visit_deps-Goes self own cname sname now deps clusters' d.1 within
                  (omega (arith, less, bound)))))
