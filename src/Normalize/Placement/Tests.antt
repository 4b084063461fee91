-- ===== src/Normalize/Placement/Tests.antt =====
-- The theorems on placement, on the order of the services of a node and on injection at concrete
-- configurations.
use ryba.Base.{false, ◌⊎◌, ℕ, String, ◌≡◌, refl, true, List, [], ◌∷◌, All, arith}
use mathlib.Core.List.{Perm}
use ryba.Js.{str, bool, obj, Fields, end, field, ok, elements, get, object_keys, prop, strict_eq}
use ryba.Text.{split}
use ryba.Assoc.{find, insert}
use ryba.Config.{Config, Service, Node, NodeService}
use ryba.Samples.{config, vagrant, server, master, registered}
use ryba.Affinity.Normalize.{kind_of}
use ryba.Affinity.Normalize.Fuel.{size_fields, size}
use ryba.Affinity.Resolve.{resolve, nodes_resolve, subject_test}
use ryba.Affinity.Match.{match_by, run, test_of, all_test, all_loop, any_of, any_loop, includes}
use ryba.Normalize.Each.{AllServices, AllEntries, each_entry}
use ryba.Normalize.Deps.{service_of}
use ryba.Normalize.Local.{
  check_locals, check_cluster_local, check_service_local, check_local, check_instances,
}
use ryba.Normalize.Inject.Laws.{inject_dep-check_locals, AllIdentified, is_colocated, IsInjected}
use ryba.Normalize.Ordering.{sort_services}
use ryba.Normalize.Ordering.Laws.{sort_services_lem, IsSorted, ranked}
use ryba.Normalize.Placement.{
  place_all, place_key, place_service, service_instances, check_existing, affinity_nodes,
  register_all, register_instance, register, enrich_deps, set_service, new_instance, nodes_object,
  chosen_affinity, resolve_affinity, id_text,
}
use ryba.Normalize.Placement.Laws.{node_options-place_all, AreOnce, AllOptions}

program : Unit {0}
unfolding find insert split service_of each_entry check_locals check_cluster_local
    check_service_local check_local check_instances place_all place_key place_service
    service_instances check_existing affinity_nodes register_all register_instance register
    enrich_deps set_service new_instance nodes_object chosen_affinity resolve_affinity id_text
    resolve nodes_resolve subject_test match_by run test_of all_test all_loop any_of any_loop
    includes kind_of size_fields size get elements object_keys prop strict_eq
program = tt

abbrev empty_node : Node
empty_node = record master { services = [] }

abbrev on_m1 : Fields
on_m1 = field "type" (str "nodes") (field "values" (obj (field "m1.ryba" (bool true) end)) end)

abbrev unplaced : Config
unplaced = record {
  clusters =
      (
        "vagrant",
        record vagrant {
          services = ("nn", record server { affinity = on_m1 ∷ []; instances = [] }) ∷ [];
        },
      )
      ∷ [];
  nodes = ("m1.ryba", empty_node) ∷ [];
  graph = [];
}

unplaced-AreOnce : AreOnce unplaced.nodes
unplaced-AreOnce = (λ c s. omega arith, tt)

abbrev placed_server : Service
placed_server = record server {
  affinity = on_m1 ∷ [];
  instances =
      record {
        id = "m1.ryba";
        cluster = "vagrant";
        service = "nn";
        node = record empty_node { services = registered "nn" ∷ [] };
        options = obj end;
      }
      ∷ [];
}

abbrev placed : Config
placed = record {
  clusters = ("vagrant", record vagrant { services = ("nn", placed_server) ∷ [] }) ∷ [];
  nodes = ("m1.ryba", record empty_node { services = registered "nn" ∷ [] }) ∷ [];
  graph = [];
}

place_all-unplaced : place_all ("vagrant:nn" ∷ []) unplaced ≡ ok placed
unfolding program
place_all-unplaced = refl

node_options-place_all_example : AllOptions placed.nodes
node_options-place_all_example =
    node_options-place_all ("vagrant:nn" ∷ []) unplaced placed unplaced-AreOnce place_all-unplaced

config-AllIdentified : AllIdentified config.clusters
config-AllIdentified = (((refl, tt), ((refl, tt), tt)), tt)

check_locals-fine : check_locals config ≡ ok config
unfolding program
check_locals-fine = refl

inject_dep-check_locals_example :
    AllServices
      (λ _ _ s.
        AllEntries
          (λ _ dep.
            (is_colocated dep ≡ false)
            ⊎ All (λ i. IsInjected config.clusters dep i.node.id) s.instances)
          s.deps)
      config.clusters
inject_dep-check_locals_example =
    inject_dep-check_locals config config config-AllIdentified check_locals-fine

abbrev graph : List String
graph = "vagrant:nn" ∷ "vagrant:dn" ∷ []

abbrev unsorted : List NodeService
unsorted = registered "dn" ∷ registered "nn" ∷ []

sort_services_lem_example :
    Perm (sort_services graph unsorted) unsorted
    × IsSorted graph (sort_services graph unsorted)
    × ((k : ℕ) → ranked graph k (sort_services graph unsorted) ≡ ranked graph k unsorted)
sort_services_lem_example = sort_services_lem graph unsorted
