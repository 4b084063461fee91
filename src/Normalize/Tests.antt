-- ===== src/Normalize/Tests.antt =====
-- The theorems on the passes of normalize.js at a concrete configuration.
use ryba.Base.{String, ◌≡◌, ◌≢◌, ◌↔◌, refl, true, List, [], ◌∷◌, All, none, some}
use ryba.Js.{
  str, bool, obj, undefined, Fields, end, field, ok, err, out_of_fuel, in_service, func, elements,
  get, put, put_true, object_keys,
}
use ryba.Text.{split}
use ryba.Assoc.{Map, find, names}
use ryba.Config.{Config, Cluster, Node, NodeService}
use ryba.Samples.{config}
use ryba.Normalize.Each.{each_entry, each_service, AllServices, AllEntries}
use ryba.Normalize.Deps.{
  check_deps, check_service, check_dep, missing_service, missing_cluster, service_of,
}
use ryba.Normalize.Deps.Laws.{check_deps_iff, check_deps-IsChecked, IsChecked, IsSatisfied, AllDeps}
use ryba.Normalize.Graph.{order_graph, clusters_calls, services_calls, deps_calls, dep_calls}
use ryba.Normalize.Graph.Laws.{order_graph-IsPlaced, IsPlaced}
use ryba.Normalize.Graph.Sample.{tsort, tsort-IsSorter}
use ryba.Normalize.Local.{
  check_locals, check_cluster_local, check_service_local, check_local, check_instances,
}
use ryba.Normalize.Local.Laws.{check_locals-IsLocal, IsLocal}
use ryba.Normalize.Nodes.{
  NodeEntry, flag, given, keyed, normalize_nodes, normalize_node, node_defaults, services_array,
  keyed_service, check_registrations, check_registration,
}
use ryba.Normalize.Nodes.Laws.{normalize_nodes-All, IsRegistered}
use ryba.Normalize.Services.{
  GivenService, normalize_services, normalize_cluster, normalize_service, normalize_affinity,
  normalize_command, check_modules, command_values, is_module, affinity_values, normalize_typed,
  located,
}
use ryba.Normalize.Services.Laws.{
  normalize_services-IsNormalService, normalize_affinity-ne-out_of_fuel, IsNormalService,
}
use ryba.Affinity.Normalize.{
  normalize, handler, nodes_normalize, kind_of, default_type, texts_to_object, array_to_object,
  strings, need_match,
}
use ryba.Affinity.Normalize.Fuel.{size_fields, size}

program : Unit {0}
unfolding find split each_entry each_service check_deps check_service check_dep missing_service
    missing_cluster service_of order_graph clusters_calls services_calls deps_calls dep_calls
    check_locals check_cluster_local check_service_local check_local check_instances normalize_nodes
    normalize_node node_defaults services_array keyed_service check_registrations check_registration
    normalize_services normalize_cluster normalize_service normalize_affinity normalize_command
    check_modules command_values is_module affinity_values normalize_typed located normalize handler
    nodes_normalize kind_of default_type texts_to_object array_to_object strings need_match
    size_fields size get put put_true elements object_keys
program = tt

abbrev on_m1 : Fields
on_m1 = field "type" (str "nodes") (field "values" (str "m1.ryba") end)

abbrev given_service : GivenService
given_service = record {
  module_name = "hdfs/nn";
  deps = [];
  affinity = obj on_m1;
  commands = some (("start", func 1) ∷ []);
  nodes = none;
  options = undefined;
  configure = undefined;
  plugin = undefined;
}

abbrev normal_affinity : Fields
normal_affinity =
    field "type" (str "nodes") (field "values" (obj (field "m1.ryba" (bool true) end)) end)

abbrev normal_clusters : Map Cluster
normal_clusters =
    (
      "vagrant",
      record {
        id = "vagrant";
        services =
            (
              "nn",
              record {
                id = "nn";
                cluster = "vagrant";
                module_name = "hdfs/nn";
                deps = [];
                affinity = normal_affinity ∷ [];
                commands = ("start", func 1 ∷ []) ∷ [];
                nodes = [];
                options = undefined;
                instances = [];
                configure = undefined;
                plugin = undefined;
              },
            )
            ∷ [];
      },
    )
    ∷ []

normalize_services-given :
    normalize_services (("vagrant", ("nn", given_service) ∷ []) ∷ []) ≡ ok normal_clusters
unfolding program
normalize_services-given = refl

normalize_services-IsNormalService_example :
    (names normal_clusters ≡ "vagrant" ∷ []) × AllServices IsNormalService normal_clusters
normalize_services-IsNormalService_example =
    normalize_services-IsNormalService (("vagrant", ("nn", given_service) ∷ []) ∷ [])
      normal_clusters normalize_services-given

normalize_affinity-ne-out_of_fuel_example :
    normalize_affinity "vagrant" "nn" (obj on_m1) ≢ err (in_service out_of_fuel "nn" "vagrant")
normalize_affinity-ne-out_of_fuel_example =
    normalize_affinity-ne-out_of_fuel "vagrant" "nn" (obj on_m1)

check_deps_iff_example :
    ((config' : Config) × (check_deps config ≡ ok config'))
    ↔ AllDeps (IsSatisfied config.clusters) config.clusters
check_deps_iff_example = check_deps_iff config

check_deps-config : check_deps config ≡ ok config
unfolding program
check_deps-config = refl

check_deps-IsChecked_example : AllDeps (IsChecked config.clusters) config.clusters
check_deps-IsChecked_example = check_deps-IsChecked config config check_deps-config

check_locals-config : check_locals config ≡ ok config
unfolding program
check_locals-config = refl

check_locals-IsLocal_example :
    (config ≡ config)
    × AllServices
        (λ _ _ s. AllEntries (λ _ dep. IsLocal config.clusters s.instances dep) s.deps)
        config.clusters
check_locals-IsLocal_example = check_locals-IsLocal config config check_locals-config

abbrev ordered : Config
ordered = record config { graph = "vagrant:nn" ∷ "vagrant:dn" ∷ [] }

order_graph-config : order_graph tsort config ≡ ok ordered
unfolding program
order_graph-config = refl

order_graph-IsPlaced_example : AllServices (IsPlaced ordered.graph) ordered.clusters
order_graph-IsPlaced_example =
    order_graph-IsPlaced tsort config ordered tsort-IsSorter order_graph-config

abbrev given_nodes : Map NodeEntry
given_nodes =
    (
      "m1.ryba",
      given (record {
        id = none;
        fqdn = none;
        hostname = none;
        services = keyed (("vagrant:nn", undefined) ∷ []);
        others = end;
      }),
    )
    ∷ ("w1.ryba", flag)
    ∷ []

abbrev bare : String → String → List NodeService → Node
bare name host services = record {
  id = name;
  fqdn = name;
  hostname = host;
  services = services;
  others = end;
}

abbrev normal_nodes : Map Node
normal_nodes =
    (
      "m1.ryba",
      bare "m1.ryba" "m1" (
          record { cluster = "vagrant"; service = "nn"; module_name = none; options = undefined }
          ∷ []),
    )
    ∷ ("w1.ryba", bare "w1.ryba" "w1" [])
    ∷ []

normalize_nodes-given : normalize_nodes config.clusters given_nodes ≡ ok normal_nodes
unfolding program
normalize_nodes-given = refl

normalize_nodes-All_example :
    (names normal_nodes ≡ names given_nodes)
    × AllEntries (λ _ n. All (IsRegistered config.clusters) n.services) normal_nodes
normalize_nodes-All_example =
    normalize_nodes-All config.clusters given_nodes normal_nodes normalize_nodes-given
