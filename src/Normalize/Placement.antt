-- ===== src/Normalize/Placement.antt =====
-- The pass "Affinity discovery" of normalize.js: the instances of each service, the registration of
-- the service with its nodes, and the affinities of the dependencies marked `auto`.
pub mod Laws
mod Tests
use ryba.Base.{
  ℕ, suc, String, ◌==◌, Bool, true, false, not, ◌&&◌, List, [], ◌∷◌, ◌++◌, map, contains, Option,
  none, some, if◌then◌else◌,
}
use ryba.Js.{
  Value, str, obj, array, undefined, Fields, end, field, Result, ok, err, ◌>>=◌, ◌>>◌, type_error,
  no_affinity_found, traverse, elements, get, put_true,
}
use ryba.Text.{split, colon}
use ryba.Assoc.{Map, find, insert}
use ryba.Config.{Config, Cluster, Service, Node, NodeService, Instance, Dep, service_key}
use ryba.Store.{pair_of}
use ryba.Affinity.Normalize.{kind_of}
use ryba.Affinity.Normalize.Fuel.{size_fields}
use ryba.Affinity.Resolve.{resolve}
use ryba.Normalize.Deps.{service_of}
use ryba.Normalize.Graph.{is_disabled}
use ryba.Normalize.Local.{node_ids}

-- What affinities read of `config.nodes`.
unfoldable pub nodes_object : Map Node → Fields
nodes_object [] = end
nodes_object ((nname, n) ∷ nodes) =
    field nname
      (obj (
        field "id" (str n.id)
          (field "fqdn" (str n.fqdn) (field "hostname" (str n.hostname) n.others))))
      (nodes_object nodes)

-- More than one affinity is met if any of them is.
unfoldable pub chosen_affinity : Fields → List Fields → Fields
chosen_affinity a [] = a
chosen_affinity a (b ∷ more) =
    field "type" (str "generic")
      (field "match" (str "any") (field "values" (array (map (λ c. obj c) (a ∷ b ∷ more))) end))

-- `handlers[affinity.type].resolve(config, affinity)`; the size of the affinity bounds its depth.
unfoldable pub resolve_affinity : Map Node → Fields → Result Value
resolve_affinity nodes affinity = elim (kind_of (get "type" affinity)) [
  | none ↦ err type_error
  | some k ↦ resolve (suc (size_fields affinity)) (nodes_object nodes) k affinity
]

-- The identifiers in `nodeids`, which are texts.
unfoldable pub id_text : Value → Result String
id_text (str s) = ok s
id_text _ = err type_error

unfoldable pub affinity_nodes : Map Node → List Fields → Result (List String)
affinity_nodes nodes [] = ok []
affinity_nodes nodes (a ∷ more) = resolve_affinity nodes (chosen_affinity a more) >>= λ v.
    elements v >>= λ vs. traverse id_text vs

-- The instances that are there already have to be among the nodes found.
unfoldable pub check_existing : List String → List Instance → Result (Unit {0})
check_existing nodeids [] = ok tt
check_existing nodeids (i ∷ instances) =
    let rest = check_existing nodeids instances in
    if contains nodeids i.node.id then rest else err (no_affinity_found i.node.id)

abbrev options_of : Option Value → Value
options_of none = obj end
options_of (some v) = v

-- A new instance on a node, with a copy of the node. No node of that name: reading `services` of it
-- throws, further down.
unfoldable pub new_instance : Service → Map Node → String → Result Instance
new_instance s nodes nodeid = elim (find nodeid nodes) [
  | none ↦ err type_error
  | some n ↦ ok (record {
    id = nodeid;
    cluster = s.cluster;
    service = s.id;
    node = n;
    options = options_of (find nodeid s.nodes);
  })
]

abbrev pub is_entry : String → String → NodeService → Bool
is_entry cname sname srv = srv.cluster == cname && srv.service == sname

abbrev set_module : String → Option String → Option String
set_module m none = some m
set_module m (some n) = some n

-- The search in `node.services`: an entry that is found gets the module, or one is pushed. With the
-- services of the node comes the entry that is copied to the instance.
unfoldable pub register :
    String → String → String → List NodeService → List NodeService × NodeService
register cname sname m [] =
    let new : NodeService = record {
      cluster = cname;
      service = sname;
      module_name = some m;
      options = undefined;
    } in
    (new ∷ [], new)
register cname sname m (srv ∷ services) =
    let found : NodeService = record srv { module_name = set_module m srv.module_name } in
    let (rest, entry) = register cname sname m services in
    if is_entry cname sname srv then (found ∷ services, found) else (srv ∷ rest, entry)

-- One round of the loop "Enrich service list in nodes".
unfoldable pub register_instance :
    String → String → String → Instance → Map Node → Result (Instance × Map Node)
register_instance cname sname m i nodes = elim (find i.node.id nodes) [
  | none ↦ err type_error
  | some n ↦
      let (services, entry) = register cname sname m n.services in
      ok (
        record i { node = record (i.node) { services = i.node.services ++ entry ∷ [] } },
        insert i.node.id (record n { services = services }) nodes,
      )
]

unfoldable pub register_all :
    String → String → String → List Instance → Map Node → Result (List Instance × Map Node)
register_all cname sname m [] nodes = ok ([], nodes)
register_all cname sname m (i ∷ instances) nodes =
    register_instance cname sname m i nodes >>= λ (i', nodes').
    register_all cname sname m instances nodes' >>= λ (rest, last). ok (i' ∷ rest, last)

-- `config.clusters[cname].services[sname] = s`
unfoldable pub set_service : String → String → Service → Map Cluster → Map Cluster
set_service cname sname s clusters = elim (find cname clusters) [
  | none ↦ clusters
  | some c ↦ insert cname (record c { services = insert sname s c.services }) clusters
]

-- `{type: "nodes", match: "any", values: {…}}` with the nodes of the instances.
unfoldable pub auto_affinity : List Instance → Fields
auto_affinity instances =
    field "type" (str "nodes")
      (field "match" (str "any") (field "values" (obj (put_true (node_ids instances) end)) end))

-- One round of the loop "Enrich affinity for dependencies marked as auto".
unfoldable pub enrich_dep : List Instance → Dep → Map Cluster → Result (Map Cluster)
enrich_dep instances dep clusters =
    if dep.auto && not (is_disabled dep)
    then elim (find dep.cluster clusters) [
      | none ↦ err type_error
      | some c ↦ elim (service_of c dep) [
        | none ↦ err type_error
        | some d ↦
            let d' : Service = record d { affinity = d.affinity ++ auto_affinity instances ∷ [] } in
            ok (elim dep.service [
              | none ↦ clusters
              | some s ↦ set_service dep.cluster s d' clusters
            ])
      ]
    ]
    else ok clusters

unfoldable pub enrich_deps : List Instance → Map Dep → Map Cluster → Result (Map Cluster)
enrich_deps instances [] clusters = ok clusters
enrich_deps instances ((dname, dep) ∷ deps) clusters =
    enrich_dep instances dep clusters >>= λ clusters'. enrich_deps instances deps clusters'

-- The instances of a service: those that are there, and a new one for each node found.
unfoldable pub service_instances : Service → Map Node → Result (List Instance)
service_instances s nodes = do
  nodeids ← affinity_nodes nodes s.affinity
  (elim s.affinity [ [] ↦ ok tt | a ∷ more ↦ check_existing nodeids s.instances ])
  new ← traverse (new_instance s nodes) nodeids
  ok (s.instances ++ new)

-- The body of the loop, for the service under `cname:sname`.
unfoldable pub place_service : String → String → Service → Config → Result Config
place_service cname sname s config = do
  instances ← service_instances s config.nodes
  (placed, nodes) ← register_all cname sname s.module_name instances config.nodes
  let clusters = set_service cname sname (record s { instances = placed }) config.clusters
  clusters' ← enrich_deps placed s.deps clusters
  ok (record config { clusters = clusters'; nodes = nodes })

unfoldable pub place_key : String → Config → Result Config
place_key key config =
    let names = pair_of (split colon key) in
    elim (find names.0 config.clusters) [
      | none ↦ err type_error
      | some c ↦ elim (find names.1 c.services) [
        | none ↦ err type_error
        | some s ↦ place_service names.0 names.1 s config
      ]
    ]

-- The loop over `services.slice().reverse()`.
unfoldable pub place_all : List String → Config → Result Config
place_all [] config = ok config
place_all (key ∷ keys) config = place_key key config >>= λ config'. place_all keys config'
