-- ===== src/Normalize/Whole/Tests.antt =====
-- A configuration of one service, whose module depends on another one that is added to another cluster.
use ryba.Base.{
  String, ◌==◌, ◌≡◌, refl, true, List, [], ◌∷◌, All, Option, none, some, if◌then◌else◌, arith,
}
use ryba.Js.{Value, str, obj, func, end, field, Fields, Result, ok, err, invalid_nodes}
use ryba.Text.{split}
use ryba.Assoc.{Map, find, insert}
use ryba.Config.{Config}
use ryba.Affinity.Resolve.{generic_resolve, generic_value, resolve_value}
use ryba.Affinity.Match.{any_test, some_loop}
use ryba.Normalize.Placement.{auto_affinity}
use ryba.Normalize.Services.{GivenService}
use ryba.Normalize.Nodes.{NodeEntry, flag, node_defaults}
use ryba.Normalize.Graph.Sample.{tsort, tsort-IsSorter, tsort-IsUnique}
use ryba.Normalize.Configure.{Called}
use ryba.Normalize.Configure.Order.{AreOver, IsKey}
use ryba.Normalize.Run.{prepare}
use ryba.Normalize.Run.Laws.{AreGivenOnce, IsPrepared}
use ryba.Normalize.Run.Tests.{program, value_or, empty, call, merge, call-KeepsOutline}
use ryba.Normalize.Discover.{
  DepEntry, given_dep, by_module, dep_object, next_last, cluster_of, services_of_module,
  the_service, search_module, identify_dep,
}
use ryba.Normalize.Discover.Drafts.{
  Draft, default_service, default_cluster, cluster_with, candidates, started, definition_of,
  service_entry, put_entry, read_services, put_dep,
}
use ryba.Normalize.Discover.Modules.{
  add_service, add_missing, add_auto, visit_deps, loaded_draft, discover_service, discover_services,
  cluster_services, discover_clusters, discover_all,
}
use ryba.Normalize.Whole.{
  missing, object, no_object, GivenConfig, read_section, given_service_of, given_services,
  read_sections, discovered, normalize_all,
}
use ryba.Normalize.Whole.Laws.{normalize_all-IsPrepared}

abbrev on_nn : DepEntry
on_nn = given_dep (record (dep_object (by_module "nn")) {
  cluster = some "base";
  auto = true;
  required = true;
  local = true;
})

-- Modules that hold nothing; what a service gets from them is written in `mutate`.
abbrev deps_of : Option String → Option (Map DepEntry)
deps_of none = none
deps_of (some m) = if m == "dn" then some (("nn", on_nn) ∷ []) else none

abbrev load : String → Result Value
load m = ok (obj end)

abbrev mutate : Draft → Fields → Draft
mutate d definition = record d {
  deps = deps_of d.module_name;
  affinity = obj (field "type" (str "nodes") (field "values" (str "m1") end));
  options = obj end;
  configure = func 0;
}

abbrev config : GivenConfig
config = record {
  clusters = object (
      ("base", default_cluster)
      ∷ ("vagrant", cluster_with (some (("dn", default_service) ∷ [])))
      ∷ []);
  services = missing;
  nodes = object (("m1", flag) ∷ []);
}

whole : Unit {0}
unfolding program find insert split next_last cluster_of services_of_module the_service
    search_module identify_dep candidates started definition_of service_entry put_entry
    read_services put_dep add_service add_missing add_auto visit_deps loaded_draft discover_service
    discover_services cluster_services discover_clusters discover_all read_section given_service_of
    given_services read_sections discovered normalize_all node_defaults generic_resolve
    generic_value resolve_value auto_affinity any_test some_loop
whole = tt

abbrev given_or :
    Result (Map (Map GivenService) × Map NodeEntry) → Map (Map GivenService) × Map NodeEntry
given_or (ok g) = g
given_or (Result.err e) = ([], [])

-- What discovery makes of it.
abbrev given : Map (Map GivenService) × Map NodeEntry
given = given_or (discovered load mutate 3 config)

discovered-config : discovered load mutate 3 config ≡ ok (given.0, given.1)
unfolding whole
discovered-config = refl

abbrev prepared : Config
prepared = value_or empty (prepare tsort given.0 given.1)

prepare-given : prepare tsort given.0 given.1 ≡ ok prepared
unfolding whole
prepare-given = refl

given-AreGivenOnce : AreGivenOnce given.1
unfolding whole
given-AreGivenOnce = (λ c s. omega arith, tt)

prepared-IsKey : All IsKey prepared.graph
unfolding whole
prepared-IsKey = (refl, (refl, tt))

abbrev final : Result (Config × List Called) → Config
final (ok (c, calls)) = c
final (Result.err e) = empty

abbrev configured : Config
configured = final (normalize_all load mutate tsort merge call 3 config)

-- The service that was added is configured before the one that depends on it.
abbrev expected_calls : List Called
expected_calls = ("base:nn", "m1") ∷ ("vagrant:dn", "m1") ∷ []

normalize_all-config :
    normalize_all load mutate tsort merge call 3 config ≡ ok (configured, expected_calls)
unfolding whole
normalize_all-config = refl

normalize_all-IsPrepared_example : IsPrepared prepared × AreOver prepared.clusters expected_calls
normalize_all-IsPrepared_example =
    normalize_all-IsPrepared load mutate tsort merge call 3 config given.0 given.1 prepared
      configured expected_calls tsort-IsSorter tsort-IsUnique call-KeepsOutline discovered-config
      given-AreGivenOnce prepare-given prepared-IsKey normalize_all-config

-- With nodes that are no object, the modules are not loaded.
refused :
    discovered load mutate 0 (record config { nodes = no_object (str "m1") }) ≡ err invalid_nodes
unfolding whole
refused = refl
