-- ===== src/Normalize/Run/Tests.antt =====
-- All passes on two services, of which one is a local dependency of the other.
use ryba.Base.{ℕ, String, ◌≡◌, refl, List, [], ◌∷◌, All, none, arith}
use ryba.Js.{
  Value, str, obj, undefined, func, end, field, Result, ok, ◌>>=◌, get, put, put_true, prop,
  elements, object_keys, strict_eq,
}
use ryba.Text.{split}
use ryba.Assoc.{Map, find, insert}
use ryba.Config.{Config, Dep}
use ryba.Samples.{on_server}
use ryba.Store.{service_in}
use ryba.Affinity.Normalize.{
  normalize, handler, nodes_normalize, kind_of, default_type, texts_to_object, array_to_object,
  strings, need_match,
}
use ryba.Affinity.Normalize.Fuel.{size_fields, size, size_items}
use ryba.Affinity.Resolve.{resolve, nodes_resolve, subject_test}
use ryba.Affinity.Match.{match_by, run, test_of, all_test, all_loop, any_of, any_loop, includes}
use ryba.Normalize.Each.{each_entry, each_service}
use ryba.Normalize.Services.{
  GivenService, normalize_services, normalize_cluster, normalize_service, normalize_affinity,
  normalize_command, check_modules, command_values, is_module, affinity_values, normalize_typed,
  located,
}
use ryba.Normalize.Deps.{
  check_deps, check_service, check_dep, missing_service, missing_cluster, service_of,
}
use ryba.Normalize.Nodes.{
  NodeEntry, flag, normalize_nodes, normalize_node, node_defaults, services_array, keyed_service,
  check_registrations, check_registration,
}
use ryba.Normalize.Graph.{order_graph, clusters_calls, services_calls, deps_calls, dep_calls}
use ryba.Normalize.Graph.Sample.{tsort}
use ryba.Normalize.Placement.{
  place_all, place_key, place_service, service_instances, check_existing, affinity_nodes,
  register_all, register_instance, register, enrich_deps, enrich_dep, set_service, new_instance,
  nodes_object, chosen_affinity, resolve_affinity, id_text,
}
use ryba.Normalize.Ordering.{order_nodes, sort_services, insert_by, index_of}
use ryba.Normalize.Local.{
  check_locals, check_cluster_local, check_service_local, check_local, check_instances,
}
use ryba.Normalize.Inject.{
  inject_deps, inject_dep, narrow, first, on_node, node_options, options_by_count, instance_options,
}
use ryba.Normalize.Configure.{
  Inject, Called, service_in_clusters, service_under, put_service, node_under, instance_at,
  options_of_instance, set_options, loaded, function_of, load_configure, call_configure,
  configure_instance, configure_from, configure_key, configure_keys, configure_all,
}
use ryba.Normalize.Configure.Outline.{KeepsOutline, outline}
use ryba.Normalize.Configure.Calls.{all_calls, configure_all-calls}
use ryba.Normalize.Configure.Order.{IsKey}
use ryba.Normalize.Run.{prepare, normalize_config}
use ryba.Normalize.Run.Laws.{AreGivenOnce}

unfoldable pub program : Unit {0}
unfolding find insert split get put put_true prop elements object_keys strict_eq service_in
    normalize handler nodes_normalize kind_of default_type texts_to_object array_to_object strings
    need_match size_fields size size_items resolve nodes_resolve subject_test match_by run test_of
    all_test all_loop any_of any_loop includes each_entry each_service normalize_services
    normalize_cluster normalize_service normalize_affinity normalize_command check_modules
    command_values is_module affinity_values normalize_typed located check_deps check_service
    check_dep missing_service missing_cluster service_of normalize_nodes normalize_node
    node_defaults services_array keyed_service check_registrations check_registration order_graph
    clusters_calls services_calls deps_calls dep_calls place_all place_key place_service
    service_instances check_existing affinity_nodes register_all register_instance register
    enrich_deps enrich_dep set_service new_instance nodes_object chosen_affinity resolve_affinity
    id_text order_nodes sort_services insert_by index_of check_locals check_cluster_local
    check_service_local check_local check_instances inject_deps inject_dep narrow first on_node
    node_options options_by_count instance_options service_in_clusters service_under put_service
    node_under instance_at options_of_instance set_options loaded function_of load_configure
    call_configure configure_instance configure_from configure_key configure_keys configure_all
    prepare normalize_config
program = tt

abbrev given_on_m1 : String → Map Dep → ℕ → GivenService
given_on_m1 m deps f = record {
  module_name = m;
  deps = deps;
  affinity = obj (field "type" (str "nodes") (field "values" (str "m1") end));
  commands = none;
  nodes = none;
  options = obj end;
  configure = func f;
  plugin = undefined;
}

abbrev given : Map (Map GivenService)
given =
    (
      "vagrant",
      ("nn", given_on_m1 "hdfs/nn" [] 1)
          ∷ ("dn", given_on_m1 "hdfs/dn" (("hdfs_nn", on_server) ∷ []) 2)
          ∷ [],
    )
    ∷ []

abbrev entries : Map NodeEntry
entries = ("m1", flag) ∷ []

abbrev pub value_or : Config → Result Config → Config
value_or default (ok c) = c
value_or default (Result.err e) = default

abbrev pub empty : Config
empty = record { clusters = []; nodes = []; graph = [] }

-- What the passes make of it.
abbrev prepared : Config
prepared = value_or empty (prepare tsort given entries)

prepare-given : prepare tsort given entries ≡ ok prepared
unfolding program
prepare-given = refl

entries-AreGivenOnce : AreGivenOnce entries
unfolding program
entries-AreGivenOnce = (λ c s. omega arith, tt)

-- Functions that change nothing.
abbrev pub call : ℕ → Inject → Config → Result Config
call f inject config = ok config

abbrev pub merge : Value → Value → Value → Value
merge a b c = a

abbrev load : String → Result Value
load path = ok (func 0)

pub call-KeepsOutline : KeepsOutline call
call-KeepsOutline f inject config config' h = ground arith

abbrev configured : Config
configured =
    value_or empty (configure_all merge load call prepared >>= λ (config, calls). ok config)

abbrev expected_calls : List Called
expected_calls = ("vagrant:nn", "m1") ∷ ("vagrant:dn", "m1") ∷ []

normalize_config-given :
    normalize_config tsort merge load call given entries ≡ ok (configured, expected_calls)
unfolding program
normalize_config-given = refl

prepared-IsKey : All IsKey prepared.graph
unfolding program
prepared-IsKey = (refl, (refl, tt))

configure_all-prepared : configure_all merge load call prepared ≡ ok (configured, expected_calls)
unfolding program
configure_all-prepared = refl

configure_all-calls_example :
    (outline configured.clusters ≡ outline prepared.clusters)
    × (expected_calls ≡ all_calls prepared.graph (outline prepared.clusters))
configure_all-calls_example =
    configure_all-calls merge load call prepared configured expected_calls call-KeepsOutline
      configure_all-prepared
