-- ===== src/Normalize/Local.antt =====
-- The pass that re-validates `local` and `required` dependencies in normalize.js: each instance of
-- the service needs an instance of the dependency on its node.
pub mod Laws
use ryba.Base.{
  String, ◌==◌, Bool, true, false, ◌&&◌, List, [], ◌∷◌, map, contains, Option, none, some,
  if◌then◌else◌,
}
use ryba.Js.{Result, ok, err, ◌>>=◌, type_error, required_local}
use ryba.Assoc.{Map, find}
use ryba.Config.{Config, Cluster, Service, Dep, Instance}
use ryba.Normalize.Each.{each_entry}
use ryba.Normalize.Deps.{service_of}

-- `instances.map(function (instance) { return instance.node.id; })`
abbrev pub node_ids : List Instance → List String
node_ids instances = map (λ i. i.node.id) instances

-- The loop over `service.instances`.
unfoldable pub check_instances : String → String → List String → List Instance → Result (Unit {0})
check_instances cname sname there [] = ok tt
check_instances cname sname there (i ∷ instances) =
    let rest = check_instances cname sname there instances in
    if contains there i.node.id then rest else err (required_local sname cname i.node.id)

-- The same loop where the service of the dependency is `undefined`: its first round throws.
unfoldable pub without_service : List Instance → Result (Unit {0})
without_service [] = ok tt
without_service (i ∷ instances) = err type_error

-- The body of the loop over `service.deps`.
unfoldable pub check_local : Map Cluster → String → String → List Instance → Dep → Result (Unit {0})
check_local clusters cname sname instances dep =
    if dep.local && dep.required
    then elim (find dep.cluster clusters) [
      | none ↦ err type_error
      | some c ↦ elim (service_of c dep) [
        | none ↦ without_service instances
        | some d ↦ check_instances cname sname (node_ids d.instances) instances
      ]
    ]
    else ok tt

unfoldable pub check_service_local : Map Cluster → String → String → Service → Result Service
check_service_local clusters cname sname s =
    each_entry (λ dname dep. check_local clusters cname sname s.instances dep) s.deps >>= λ _. ok s

unfoldable pub check_cluster_local : Map Cluster → String → Cluster → Result Cluster
check_cluster_local clusters cname c =
    each_entry (check_service_local clusters cname) c.services >>= λ _. ok c

unfoldable pub check_locals : Config → Result Config
check_locals config =
    each_entry (check_cluster_local config.clusters) config.clusters >>= λ _. ok config
