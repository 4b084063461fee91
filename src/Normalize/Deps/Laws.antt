-- ===== src/Normalize/Deps/Laws.antt =====
-- After the pass every required dependency exists, and `disabled` is set on each dependency.
use ryba.Base.{
  ◌||◌, not, ◌⊎◌, String, ◌≡◌, ◌≢◌, ◌↔◌, Bool, true, false, none, some, arith, Option-cases, inl,
  inr,
}
use ryba.Js.{Result, ok, err, Error, ◌>>=◌}
use ryba.Js.Laws.{>>=-eq-ok, ok-injective, Result-cases}
use ryba.Assoc.{Map, find}
use ryba.Config.{Config, Cluster, Service, Dep}
use ryba.Normalize.Each.{
  each_entry, each_service, AllEntries, AllServices, each_entry-All, each_entry-ok,
  each_entry-given, AllEntries-every, AllEntries-map,
}
use ryba.Normalize.Deps.{
  service_of, missing_service, missing_cluster, check_dep, check_service, check_deps,
}

-- Whether the service that a dependency names is there.
unfoldable pub is_defined : Map Cluster → Dep → Bool
is_defined clusters dep = elim (find dep.cluster clusters) [
  | none ↦ false
  | some c ↦ elim (service_of c dep) [ none ↦ false | some s ↦ true ]
]

abbrev pub AllDeps : (Dep → Type 0) → Map Cluster → Type 0
AllDeps P clusters = AllServices (λ cname sname s. AllEntries (λ dname dep. P dep) s.deps) clusters

-- A dependency after the pass: it exists if it is required, its state is decided, and it is not enabled
-- where its cluster does not exist.
pub record IsChecked (clusters : Map Cluster) (dep : Dep) : Type 0 where
  pub satisfied : (not dep.required || is_defined clusters dep) ≡ true
  pub decided : dep.disabled ≢ none
  pub cluster_there : (dep.disabled ≢ some false) ⊎ (find dep.cluster clusters ≢ none)

pub check_dep-IsChecked :
    (clusters : Map Cluster) (dname : String) (dep dep' : Dep)
    → check_dep clusters dname dep ≡ ok dep'
    → IsChecked clusters dep'
unfolding check_dep missing_service missing_cluster is_defined service_of
check_dep-IsChecked clusters dname dep dep' h = elim (Option-cases (find dep.cluster clusters)) [
  | inl missing ↦ ground arith
  | inr (c, found) ↦ ground arith
]

-- The pass throws only for a required dependency that does not exist.
check_dep-err :
    (clusters : Map Cluster) (dname : String) (dep : Dep) {e : Error}
    → check_dep clusters dname dep ≡ err e
    → (dep.required ≡ true) × (is_defined clusters dep ≡ false)
unfolding check_dep missing_service missing_cluster is_defined service_of
check_dep-err clusters dname dep h = ground arith

-- A dependency that is not required, or exists.
abbrev pub IsSatisfied : Map Cluster → Dep → Type 0
IsSatisfied clusters dep = (not dep.required || is_defined clusters dep) ≡ true

check_dep-ok :
    (clusters : Map Cluster) (dname : String) (dep : Dep)
    → IsSatisfied clusters dep
    → (dep' : Dep) × (check_dep clusters dname dep ≡ ok dep')
check_dep-ok clusters dname dep h = elim (Result-cases (check_dep clusters dname dep)) [
  | inl done ↦ done
  | inr (e, thrown) ↦
      let (required, missing) = check_dep-err clusters dname dep thrown in absurd (ground arith)
]

-- It keeps everything but `disabled`.
pub check_dep-keeps :
    (clusters : Map Cluster) (dname : String) (dep dep' : Dep)
    → check_dep clusters dname dep ≡ ok dep'
    → dep' ≡ record dep { disabled = dep'.disabled }
unfolding check_dep missing_service missing_cluster
check_dep-keeps clusters dname dep dep' h = ground arith

check_dep-IsSatisfied :
    (clusters : Map Cluster) (dname : String) (dep dep' : Dep)
    → check_dep clusters dname dep ≡ ok dep'
    → IsSatisfied clusters dep
unfolding check_dep missing_service missing_cluster is_defined service_of
check_dep-IsSatisfied clusters dname dep dep' h = ground arith

-- The pass succeeds on every entry of a service, and so on a cluster and on all clusters.
module _ (clusters : Map Cluster) where
  check_service-lem :
      (cname sname : String) (s s' : Service)
      → check_service clusters cname sname s ≡ ok s'
      → AllEntries (λ dname dep. IsChecked clusters dep) s'.deps
  unfolding check_service
  check_service-lem cname sname s s' h =
      let (deps, done, same) = >>=-eq-ok (each_entry (check_dep clusters) s.deps) _ h in
      rw (← ok-injective same) (
        each_entry-All (check_dep clusters) (λ _ _. Unit) (λ _ dep. IsChecked clusters dep) s.deps
          deps (λ dname dep dep' _ e. check_dep-IsChecked clusters dname dep dep' e)
          (AllEntries-every (λ _ _. Unit) s.deps (λ _ _. tt)) done)

  abbrev in_cluster : String → Cluster → Result Cluster
  in_cluster cname c = each_entry (check_service clusters cname) c.services >>= λ services.
      ok (record c { services = services })

  in_cluster-lem :
      (cname : String) (c c' : Cluster)
      → in_cluster cname c ≡ ok c'
      → AllEntries (λ sname s. AllEntries (λ dname dep. IsChecked clusters dep) s.deps) c'.services
  in_cluster-lem cname c c' h =
      let (services, done, same) =
        >>=-eq-ok (each_entry (check_service clusters cname) c.services) _ h in
      rw (← ok-injective same) (
        each_entry-All (check_service clusters cname) (λ _ _. Unit)
          (λ _ s. AllEntries (λ dname dep. IsChecked clusters dep) s.deps) c.services services
          (λ sname s s' _ e. check_service-lem cname sname s s' e)
          (AllEntries-every (λ _ _. Unit) c.services (λ _ _. tt)) done)

-- If the pass succeeds, each dependency after it exists if it is required, has its `disabled`
-- decided, and is not enabled in a cluster that does not exist.
pub check_deps-IsChecked :
    (config config' : Config)
    → check_deps config ≡ ok config'
    → AllDeps (IsChecked config.clusters) config'.clusters
unfolding check_deps each_service
check_deps-IsChecked config config' h =
    let f = in_cluster config.clusters in
    let (clusters, done, same) = >>=-eq-ok (each_entry f config.clusters) _ h in
    rw (← ok-injective same) (
      each_entry-All f (λ _ _. Unit)
        (λ _ c.
          AllEntries (λ _ s. AllEntries (λ _ dep. IsChecked config.clusters dep) s.deps) c.services)
        config.clusters clusters (λ cname c c' _ e. in_cluster-lem config.clusters cname c c' e)
        (AllEntries-every (λ _ _. Unit) config.clusters (λ _ _. tt)) done)

module _ (clusters : Map Cluster) where
  check_service-ok :
      (cname sname : String) (s : Service)
      → AllEntries (λ _ dep. IsSatisfied clusters dep) s.deps
      → (s' : Service) × (check_service clusters cname sname s ≡ ok s')
  unfolding check_service
  check_service-ok cname sname s p =
      let (deps, e) =
        each_entry-ok (check_dep clusters) s.deps
          (AllEntries-map _ _ s.deps (check_dep-ok clusters) p) in
      (record s { deps = deps }, rw e)

  in_cluster-ok :
      (cname : String) (c : Cluster)
      → AllEntries (λ _ s. AllEntries (λ _ dep. IsSatisfied clusters dep) s.deps) c.services
      → (c' : Cluster) × (in_cluster clusters cname c ≡ ok c')
  in_cluster-ok cname c p =
      let (services, e) =
        each_entry-ok (check_service clusters cname) c.services
          (AllEntries-map _ _ c.services (check_service-ok cname) p) in
      (record c { services = services }, rw e)

-- If every required dependency exists, the pass does not throw.
pub check_deps-ok :
    (config : Config)
    → AllDeps (IsSatisfied config.clusters) config.clusters
    → (config' : Config) × (check_deps config ≡ ok config')
unfolding check_deps each_service
check_deps-ok config h =
    let clusters = config.clusters in
    let (done, e) =
      each_entry-ok (in_cluster clusters) clusters
        (AllEntries-map _ _ clusters (in_cluster-ok clusters) h) in
    (record config { clusters = done }, rw e)

-- The pass "Dependencies" succeeds exactly when every required dependency exists.
pub check_deps_iff :
    (config : Config)
    → ((config' : Config) × (check_deps config ≡ ok config'))
      ↔ AllDeps (IsSatisfied config.clusters) config.clusters
unfolding check_deps each_service check_service
check_deps_iff config = (
  λ (config', h).
      let clusters = config.clusters in
      let f = in_cluster clusters in
      let (done, e, same) = >>=-eq-ok (each_entry f clusters) _ h in
      each_entry-given f _ clusters done
        (λ cname c c' ec.
          let (services, es, _) =
            >>=-eq-ok (each_entry (check_service clusters cname) c.services) _ ec in
          each_entry-given (check_service clusters cname) _ c.services services
            (λ sname s s' ed.
              let (deps, et, _) = >>=-eq-ok (each_entry (check_dep clusters) s.deps) _ ed in
              each_entry-given (check_dep clusters) _ s.deps deps (check_dep-IsSatisfied clusters)
                et)
            es)
        e,
  check_deps-ok config,
)
