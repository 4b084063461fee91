-- ===== src/Normalize/Discover/Modules.antt =====
-- `discover_service` of normalize.js and the loops that call it: the definition of a service is loaded
-- from its module, and a dependency that is marked `auto` adds a service that is missing, which is
-- discovered in turn. The loader and `mutate` of `mixme` are parameters. Each call has fuel, since
-- what is added depends on the modules.
pub mod Measure
pub mod Candidates
pub mod Invariant
pub mod Identified
pub mod Steps
pub mod Loading
pub mod Termination
pub mod Lookup
pub mod Progress
pub mod Supplied
pub mod Complete
pub mod Carried
mod Tests
use ryba.Base.{
  ℕ, zero, suc, String, ◌==◌, ◌=ℕ◌, Bool, true, false, not, ◌&&◌, List, [], ◌∷◌, Option, none, some,
  if◌then◌else◌,
}
use ryba.Js.{
  Value, obj, arr, func, undefined, Fields, Result, ok, err, ◌>>=◌, type_error, out_of_fuel,
  invalid_definition, not_sure, invalid_cluster,
}
use ryba.Assoc.{Map, find, insert, names, map_values}
use ryba.Config.{Dep}
use ryba.Normalize.Graph.{is_disabled}
use ryba.Normalize.Discover.Drafts.{
  Draft, Entry, ClusterEntry, Clusters, empty_draft, or_no, services_of, candidate_of, candidates,
  module_of, started, definition_of, service_entry, put_entry, read_services, dep_entry, with_dep,
  put_dep, given_cluster_of, given_dep_of, name_text, is_there, auto_draft, next_object, put_added,
  default_service, draft, default_cluster, cluster_with, other_cluster,
}
use ryba.Normalize.Discover.{
  GivenDep, DepEntry, given_dep, dep_object, identified, Candidate, Last, full, identify_dep,
}

-- A loop over `sname in cluster.services` or `cname in config.clusters` runs on the keys that are there
-- when it starts.
abbrev pub Again : Type 0
Again = Clusters → String → String → Result Clusters

-- The part on `auto`, where there is no such service: it is added and discovered.
unfoldable pub add_service :
    Again → ℕ → String → String → String → Dep → Clusters → Option String → Result Clusters
add_service again self cname sname dname dep clusters (some s) = err not_sure
add_service again self cname sname dname dep clusters none =
    let m = name_text dep.module_name in
    let named = put_dep self cname sname dname (record dep { service = some m }) clusters in
    again (put_added dep.cluster m named) dep.cluster m

unfoldable pub add_missing :
    Again → ℕ → String → String → String → Dep → Clusters → Map Entry → Result Clusters
add_missing again self cname sname dname dep clusters services =
    elim (is_there (find (name_text dep.service) services)) [
      | true ↦ ok clusters
      | false ↦ add_service again self cname sname dname dep clusters (full dep.service)
    ]

unfoldable pub add_auto : Again → ℕ → String → String → String → Dep → Clusters → Result Clusters
add_auto again self cname sname dname dep clusters = elim (dep.auto && not (is_disabled dep)) [
  | true ↦
      read_services clusters dep.cluster >>= add_missing again self cname sname dname dep clusters
  | false ↦ ok clusters
]

-- The loop over `service.deps`; `own` is the cluster of the outer loop, also where a service has been
-- added to another one.
unfoldable pub visit_deps :
    Again → ℕ → String → String → String → Last → Map DepEntry → Clusters → Result Clusters
visit_deps again self own cname sname last [] clusters = ok clusters
visit_deps again self own cname sname last ((dname, entry) ∷ deps) clusters =
    identify_dep (candidates clusters) own last entry >>= λ (dep, now).
    add_auto again self cname sname dname dep (put_dep self cname sname dname dep clusters)
    >>= λ clusters'. visit_deps again self own cname sname now deps clusters'

-- A cluster is made an object with `services`, or refused: assigning `id` throws on a text, a number
-- or `false`.
unfoldable pub cluster_services : ClusterEntry → Result (Map Entry)
cluster_services default_cluster = ok []
cluster_services (cluster_with services) = ok (or_no services)
cluster_services (other_cluster (arr vs)) = err invalid_cluster
cluster_services (other_cluster (func f)) = err invalid_cluster
cluster_services (other_cluster v) = err type_error

abbrev pub cluster_under : String → Clusters → Result (Map Entry)
cluster_under cname clusters = elim (find cname clusters) [
  | none ↦ err type_error
  | some c ↦ cluster_services c
]

module _ (load : String → Result Value) (mutate : Draft → Fields → Draft) where
  -- The definition of the module, put into the service.
  unfoldable pub loaded_draft : String → Draft → Result Draft
  loaded_draft m d = load m >>= definition_of m >>= λ definition.
      let d' = mutate d definition in
      ok (record d' { object = d.object; deps = some (or_no d'.deps) })

  abbrev pub visit_entry :
      Again → String → String → String → Clusters → Option Entry → Result Clusters
  visit_entry again own cname sname clusters none = err type_error
  visit_entry again own cname sname clusters (some e) =
      loaded_draft (module_of (started sname e).module_name sname) (started sname e) >>= λ d.
      visit_deps again (started sname e).object own cname sname (none, none) (or_no d.deps)
        (put_entry cname sname (draft d) clusters)

  -- `discover_service(cname, sname, service)`
  unfoldable pub discover_service : ℕ → String → Again
  discover_service zero own clusters cname sname = err out_of_fuel
  discover_service (suc fuel) own clusters cname sname =
      visit_entry (discover_service fuel own) own cname sname clusters
        (service_entry clusters cname sname)

  -- The loop over the services of a cluster.
  unfoldable pub discover_services : ℕ → String → List String → Clusters → Result Clusters
  discover_services fuel cname [] clusters = ok clusters
  discover_services fuel cname (sname ∷ snames) clusters =
      discover_service fuel cname clusters cname sname >>= discover_services fuel cname snames

  -- The loop over the clusters.
  unfoldable pub discover_clusters : ℕ → List String → Clusters → Result Clusters
  discover_clusters fuel [] clusters = ok clusters
  discover_clusters fuel (cname ∷ cnames) clusters = cluster_under cname clusters >>= λ services.
      discover_services fuel cname (names services)
        (insert cname (cluster_with (some services)) clusters)
      >>= discover_clusters fuel cnames

  unfoldable pub discover_all : ℕ → Clusters → Result Clusters
  discover_all fuel clusters = discover_clusters fuel (names clusters) clusters
