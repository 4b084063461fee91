-- ===== src/Normalize/Graph.antt =====
-- The pass "Graph ordering" of normalize.js: what is added to the graph of the package `tsort`, whose
-- `sort` gives `config.graph`.
pub mod Laws
pub mod Sample
use ryba.Base.{
  String, ◌==◌, Bool, true, false, ◌||◌, List, [], ◌∷◌, ◌++◌, Option, none, some, if◌then◌else◌,
}
use ryba.Js.{Result, ok, ◌>>=◌}
use ryba.Assoc.{Map}
use ryba.Config.{Config, Cluster, Service, Dep, service_key}

-- A call of `graph.add`.
pub data Call : Type 0 where
  add_node : String → Call
  add_edge : String → String → Call

abbrev pub is_some_of : Option String → String → Bool
is_some_of none s = false
is_some_of (some t) s = t == s

-- `dservice.disabled`, as a test
abbrev pub is_disabled : Dep → Bool
is_disabled dep = elim dep.disabled [ none ↦ false | some b ↦ b ]

-- The name of the service in `${dservice.cluster}:${dservice.service}`.
abbrev pub service_text : Option String → String
service_text none = "null"
service_text (some s) = s

-- The body of the loop over `service.deps`.
unfoldable pub dep_calls : String → String → Dep → List Call
dep_calls cname sname dep =
    if is_some_of dep.service sname || is_disabled dep
    then []
    else add_edge (service_key dep.cluster (service_text dep.service)) (service_key cname sname)
      ∷ []

unfoldable pub deps_calls : String → String → Map Dep → List Call
deps_calls cname sname [] = []
deps_calls cname sname ((dname, dep) ∷ deps) =
    dep_calls cname sname dep ++ deps_calls cname sname deps

unfoldable pub services_calls : String → Map Service → List Call
services_calls cname [] = []
services_calls cname ((sname, s) ∷ services) =
    (add_node (service_key cname sname) ∷ deps_calls cname sname s.deps)
    ++ services_calls cname services

unfoldable pub clusters_calls : Map Cluster → List Call
clusters_calls [] = []
clusters_calls ((cname, c) ∷ clusters) = services_calls cname c.services ++ clusters_calls clusters

-- `tsort` stands for the package: it sorts what the calls have added, or throws on a cycle.
unfoldable pub order_graph : (List Call → Result (List String)) → Config → Result Config
order_graph tsort config =
    tsort (clusters_calls config.clusters) >>= λ graph. ok (record config { graph = graph })
