-- ===== src/Normalize/Deps.antt =====
-- The pass "Dependencies" of normalize.js: a required dependency has to exist, and another one is
-- disabled if it does not. The pass changes `disabled` alone, so what it looks up may be looked up
-- in the configuration before the pass.
pub mod Laws
use ryba.Base.{String, ◌==◌, Bool, true, false, Option, none, some, if◌then◌else◌}
use ryba.Js.{Result, ok, err, ◌>>=◌, cluster_not_defined, service_not_defined, module_not_defined}
use ryba.Assoc.{Map, find}
use ryba.Config.{Config, Cluster, Service, Dep}
use ryba.Normalize.Each.{each_entry, each_service}

-- `x ?= v`
abbrev pub default_to : Bool → Option Bool → Option Bool
default_to v none = some v
default_to v (some w) = some w

-- `cluster.services[dservice.service]`; no service has the name `null` of a missing one.
unfoldable pub service_of : Cluster → Dep → Option Service
service_of c dep = elim dep.service [ none ↦ none | some s ↦ find s c.services ]

-- The dependency is not there: the two exceptions, or it is disabled.
unfoldable pub missing_service : String → Dep → Result Dep
missing_service dname dep =
    if dep.required
    then elim dep.service [
      | none ↦ err (module_not_defined dname dep.cluster)
      | some s ↦ err (service_not_defined dname s dep.cluster)
    ]
    else ok (record dep { disabled = default_to true dep.disabled })

unfoldable pub missing_cluster : Dep → Result Dep
missing_cluster dep =
    if dep.required
    then err (cluster_not_defined dep.cluster)
    else ok (record dep { disabled = some true })

-- The body of the loop over `service.deps`.
unfoldable pub check_dep : Map Cluster → String → Dep → Result Dep
check_dep clusters dname dep = elim (find dep.cluster clusters) [
  | none ↦ missing_cluster dep
  | some c ↦ elim (service_of c dep) [
    | none ↦ missing_service dname dep
    | some s ↦ ok (record dep { disabled = default_to false dep.disabled })
  ]
]

unfoldable pub check_service : Map Cluster → String → String → Service → Result Service
check_service clusters cname sname s =
    each_entry (check_dep clusters) s.deps >>= λ deps. ok (record s { deps = deps })

unfoldable pub check_deps : Config → Result Config
check_deps config = each_service (check_service config.clusters) config.clusters >>= λ clusters.
    ok (record config { clusters = clusters })
