-- ===== src/Normalize/Run/Laws.antt =====
-- What the passes ensure together: none of them undoes what an earlier one has established.
use ryba.Base.{ℕ, String, ◌≡◌, refl, sym, ap, ◌∙◌, subst, List, [], ◌∷◌, All, true, arith, contains}
use mathlib.Core.List.{reverse}
use ryba.Js.{Value, Result, ok, ◌>>=◌}
use ryba.Js.Laws.{>>=-eq-ok, ok-injective}
use ryba.Assoc.{Map}
use ryba.Config.{Config, Cluster, Node, NodeService, service_key}
use ryba.Util.Laws.{IsUnique}
use ryba.Normalize.Each.{AllEntries, AllServices, each_entry-All}
use ryba.Normalize.Services.{GivenService, normalize_services}
use ryba.Normalize.Deps.{check_deps}
use ryba.Normalize.Nodes.{
  NodeEntry, normalize_nodes, normalize_node, node_defaults, check_registrations,
}
use ryba.Normalize.Graph.{Call, order_graph, clusters_calls}
use ryba.Normalize.Graph.Laws.{IsSorter, IsOrdered, IsPlaced, order_graph-IsPlaced}
use ryba.Normalize.Placement.{place_all}
use ryba.Normalize.Placement.Laws.{
  AreOnce, IsOnce, AllOptions, place_all-AreOnce, AllOptions-of_AreOnce, count,
}
use ryba.Normalize.Ordering.{order_nodes, sort_services, insert_by}
use ryba.Normalize.Ordering.Laws.{IsSorted, sort_services_lem}
use ryba.Normalize.Local.{check_locals}
use ryba.Normalize.Local.Laws.{IsLocal, check_locals-IsLocal}
use ryba.Normalize.Configure.{Inject, Called, configure_all}
use ryba.Normalize.Configure.Outline.{KeepsOutline}
use ryba.Normalize.Configure.Order.{AreOver, IsKey, configure_all-AreOver}
use ryba.Normalize.Run.{prepare, normalize_config}
use ryba.Normalize.Run.Deps.{AllServices-deps, place_all-deps}

-- Sorting does not change how often a service is registered.
count-insert_by :
    (graph : List String) (c s : String) (srv : NodeService) (services : List NodeService)
    → count c s (insert_by graph srv services) ≡ count c s (srv ∷ services)
unfolding insert_by
count-insert_by graph c s srv [] = refl
count-insert_by graph c s srv (t ∷ services) =
    ground (arith, count-insert_by graph c s srv services)

count-sort_services :
    (graph : List String) (c s : String) (services : List NodeService)
    → count c s (sort_services graph services) ≡ count c s services
unfolding sort_services
count-sort_services graph c s [] = refl
count-sort_services graph c s (srv ∷ services) =
    count-insert_by graph c s srv (sort_services graph services)
    ∙ ground (arith, count-sort_services graph c s services)

-- After the nodes are put in order: each registration is there once, in the order of the graph.
order_nodes-AreOnce :
    (graph : List String) (nodes : Map Node)
    → AreOnce nodes
    → AreOnce (order_nodes graph nodes)
      × AllEntries (λ _ n. IsSorted graph n.services) (order_nodes graph nodes)
unfolding order_nodes
order_nodes-AreOnce graph [] h = (tt, tt)
order_nodes-AreOnce graph ((k, n) ∷ nodes) h =
    let (once, sorted) = order_nodes-AreOnce graph nodes h.1 in
    (
      (λ c s. omega (arith, count-sort_services graph c s n.services, h.0 c s), once),
      ((sort_services_lem graph n.services).1, sorted),
    )

-- The nodes as the configuration gives them register each service at most once.
abbrev pub AreGivenOnce : Map NodeEntry → Type 0
AreGivenOnce entries = AllEntries (λ nname entry. IsOnce (node_defaults nname entry)) entries

normalize_nodes-AreOnce :
    (clusters : Map Cluster) (entries : Map NodeEntry) (nodes : Map Node)
    → AreGivenOnce entries
    → normalize_nodes clusters entries ≡ ok nodes
    → AreOnce nodes
unfolding normalize_nodes normalize_node
normalize_nodes-AreOnce clusters entries nodes once h =
    each_entry-All (normalize_node clusters) (λ nname entry. IsOnce (node_defaults nname entry)) _
      entries nodes
      (λ nname entry n given e.
        let d = node_defaults nname entry in
        let (_, checked, same) = >>=-eq-ok (check_registrations clusters d.id d.services) _ e in
        rw (← ok-injective same) given)
      once h

-- A configuration that is ready for the calls of `configure`.
pub record IsPrepared (config : Config) : Type 0 where
  pub placed : AllServices (IsPlaced config.graph) config.clusters
  pub local :
      AllServices
        (λ _ _ s. AllEntries (λ _ dep. IsLocal config.clusters s.instances dep) s.deps)
        config.clusters
  pub options : AllOptions config.nodes
  pub sorted : AllEntries (λ _ n. IsSorted config.graph n.services) config.nodes

IsPlaced-place_all :
    (keys : List String) (config config' : Config)
    → AllServices (IsPlaced config.graph) config.clusters
    → place_all keys config ≡ ok config'
    → AllServices (IsPlaced config'.graph) config'.clusters
IsPlaced-place_all keys config config' placed h =
    let (graph, deps) = place_all-deps keys config config' h in
    subst (λ g. AllServices (IsPlaced g) config'.clusters) (sym graph)
      (AllServices-deps
        (λ c s m.
          (contains config.graph (service_key c s) ≡ true)
          × AllEntries (λ _ dep. IsOrdered config.graph c s dep) m)
        config.clusters config'.clusters deps placed)

-- The passes behind the graph.
placed-IsPrepared :
    (ordered placed config : Config)
    → AreOnce ordered.nodes
    → AllServices (IsPlaced ordered.graph) ordered.clusters
    → place_all (reverse ordered.graph) ordered ≡ ok placed
    → check_locals (record placed { nodes = order_nodes placed.graph placed.nodes }) ≡ ok config
    → IsPrepared config
placed-IsPrepared ordered placed config once in_order done last =
    let final : Config = record placed { nodes = order_nodes placed.graph placed.nodes } in
    let (same, local) = check_locals-IsLocal final config last in
    let (nodes, sorted) =
      order_nodes-AreOnce placed.graph placed.nodes
        (place_all-AreOnce (reverse ordered.graph) ordered placed once done) in
    subst IsPrepared (sym same) (record {
      placed = IsPlaced-place_all (reverse ordered.graph) ordered placed in_order done;
      local = local;
      options = AllOptions-of_AreOnce (order_nodes placed.graph placed.nodes) nodes;
      sorted = sorted;
    })

-- If `tsort` sorts, the nodes that are given register each service at most once, and the passes
-- succeed, then after them the graph lists every service behind its enabled dependencies of another
-- name, every `local` and `required` dependency has an instance on each node of the service, the
-- options of each service on each node are known, and the services of each node stand in the order
-- of the graph.
pub prepare-IsPrepared :
    (tsort : List Call → Result (List String)) (given : Map (Map GivenService))
    (entries : Map NodeEntry) (config : Config)
    → IsSorter tsort
    → AreGivenOnce entries
    → prepare tsort given entries ≡ ok config
    → IsPrepared config
unfolding prepare order_graph
prepare-IsPrepared tsort given entries config sorts once h =
    let (clusters, _, h1) = >>=-eq-ok (normalize_services given) _ h in
    let (checked, _, h2) =
      >>=-eq-ok (check_deps (record { clusters = clusters; nodes = []; graph = [] })) _ h1 in
    let (nodes, normal, h3) = >>=-eq-ok (normalize_nodes checked.clusters entries) _ h2 in
    let base : Config = record checked { nodes = nodes } in
    let (ordered, sorted, h4) = >>=-eq-ok (order_graph tsort base) _ h3 in
    let (placed, done, last) = >>=-eq-ok (place_all (reverse ordered.graph) ordered) _ h4 in
    let (order, made, kept) = >>=-eq-ok (tsort (clusters_calls base.clusters)) _ sorted in
    placed-IsPrepared ordered placed config
      (subst (λ c. AreOnce c.nodes) (ok-injective kept)
        (normalize_nodes-AreOnce checked.clusters entries nodes once normal))
      (order_graph-IsPlaced tsort base ordered sorts sorted) done last

-- The documented behaviour of `tsort` that a result lists no node twice.
abbrev pub IsUniqueSorter : (List Call → Result (List String)) → Type 0
IsUniqueSorter tsort =
    (calls : List Call) (order : List String) → tsort calls ≡ ok order → IsUnique order

prepare-IsUnique :
    (tsort : List Call → Result (List String)) (given : Map (Map GivenService))
    (entries : Map NodeEntry) (config : Config)
    → IsUniqueSorter tsort
    → prepare tsort given entries ≡ ok config
    → IsUnique config.graph
unfolding prepare order_graph
prepare-IsUnique tsort given entries config unique h =
    let (clusters, _, h1) = >>=-eq-ok (normalize_services given) _ h in
    let (checked, _, h2) =
      >>=-eq-ok (check_deps (record { clusters = clusters; nodes = []; graph = [] })) _ h1 in
    let (nodes, normal, h3) = >>=-eq-ok (normalize_nodes checked.clusters entries) _ h2 in
    let base : Config = record checked { nodes = nodes } in
    let (ordered, sorted, h4) = >>=-eq-ok (order_graph tsort base) _ h3 in
    let (placed, done, last) = >>=-eq-ok (place_all (reverse ordered.graph) ordered) _ h4 in
    let (order, made, kept) = >>=-eq-ok (tsort (clusters_calls base.clusters)) _ sorted in
    let final : Config = record placed { nodes = order_nodes placed.graph placed.nodes } in
    let same : config.graph ≡ order =
      ap (λ c. c.graph) (check_locals-IsLocal final config last).0
      ∙ (place_all-deps (reverse ordered.graph) ordered placed done).0
      ∙ ap (λ c. c.graph) (sym (ok-injective kept)) in
    subst IsUnique (sym same) (unique (clusters_calls base.clusters) order made)

-- With all passes, where they succeed: if `tsort` sorts and lists nothing twice, the nodes that are
-- given register each service at most once, the graph holds keys that are read back, and the
-- functions that are called leave the outline of the configuration alone, then no service is
-- configured before an enabled dependency of another name.
pub normalize_config-AreOver :
    (tsort : List Call → Result (List String)) (merge : Value → Value → Value → Value)
    (load : String → Result Value) (call : ℕ → Inject → Config → Result Config)
    (given : Map (Map GivenService)) (entries : Map NodeEntry) (prepared config : Config)
    (calls : List Called)
    → IsSorter tsort
    → IsUniqueSorter tsort
    → AreGivenOnce entries
    → KeepsOutline call
    → prepare tsort given entries ≡ ok prepared
    → All IsKey prepared.graph
    → normalize_config tsort merge load call given entries ≡ ok (config, calls)
    → AreOver prepared.clusters calls
unfolding normalize_config
normalize_config-AreOver tsort merge load call given entries prepared config calls sorts unique once
      keeps done keys h =
    configure_all-AreOver merge load call prepared config calls keeps
      (prepare-IsUnique tsort given entries prepared unique done) keys
      (prepare-IsPrepared tsort given entries prepared sorts once done).placed
      (ap (λ r. r >>= configure_all merge load call) (sym done) ∙ h)
