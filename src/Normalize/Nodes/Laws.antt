-- ===== src/Normalize/Nodes/Laws.antt =====
-- After the pass every service that a node names exists, and a key `cluster:service` is read back.
use ryba.Base.{
  ◌⊎◌, Bool-cases, String, ◌==◌, ◌≡◌, inl, inr, Option-cases, refl, true, List, [], ◌∷◌, All, some,
  arith,
}
use ryba.Js.{Value, ok}
use ryba.Js.Laws.{>>=-eq-ok, ok-injective}
use ryba.Text.{colon, lacks, split-join}
use ryba.Assoc.{Map, find, names}
use ryba.Config.{Cluster, Service, Node, NodeService, service_key}
use ryba.Normalize.Each.{AllEntries, AllEntries-every, each_entry-All, names-each_entry}
use ryba.Normalize.Nodes.{
  NodeEntry, keyed_service, node_defaults, check_registration, check_registrations, normalize_node,
  normalize_nodes,
}

-- The entry names no service, or one that exists.
abbrev pub IsRegistered : Map Cluster → NodeService → Type 0
IsRegistered clusters s =
    ((s.service == "") ≡ true)
    ⊎ ((c : Cluster) × (v : Service) × (find s.cluster clusters ≡ some c)
        × (find s.service c.services ≡ some v))

check_registration-IsRegistered :
    (clusters : Map Cluster) (node : String) (s : NodeService) {u : Unit {0}}
    → check_registration clusters node s ≡ ok u
    → IsRegistered clusters s
unfolding check_registration
check_registration-IsRegistered clusters node s h = elim (Bool-cases (s.service == "")) [
  | inl unnamed ↦ inl unnamed
  | inr named ↦ inr (elim (Option-cases (find s.cluster clusters)) [
    | inl missing ↦ absurd (ground arith)
    | inr (c, found) ↦ elim (Option-cases (find s.service c.services)) [
      | inl missing ↦ absurd (ground arith)
      | inr (v, there) ↦ (c, v, found, there)
    ]
  ])
]

check_registrations-All :
    (clusters : Map Cluster) (node : String) (services : List NodeService) {u : Unit {0}}
    → check_registrations clusters node services ≡ ok u
    → All (IsRegistered clusters) services
unfolding check_registrations
check_registrations-All clusters node [] h = tt
check_registrations-All clusters node (s ∷ services) h =
    let (_, done, rest) = >>=-eq-ok (check_registration clusters node s) _ h in
    (
      check_registration-IsRegistered clusters node s done,
      check_registrations-All clusters node services rest,
    )

-- If the pass succeeds, the nodes stand under the same names in the same order, and each service that
-- an entry of a node names is a service of the cluster that the entry names.
pub normalize_nodes-All :
    (clusters : Map Cluster) (entries : Map NodeEntry) (nodes : Map Node)
    → normalize_nodes clusters entries ≡ ok nodes
    → (names nodes ≡ names entries)
      × AllEntries (λ _ n. All (IsRegistered clusters) n.services) nodes
unfolding normalize_nodes normalize_node
normalize_nodes-All clusters entries nodes h = (
  names-each_entry (normalize_node clusters) entries nodes h,
  each_entry-All (normalize_node clusters) (λ _ _. Unit) _ entries nodes
      (λ nname entry n _ e.
        let d = node_defaults nname entry in
        let (_, checked, same) = >>=-eq-ok (check_registrations clusters d.id d.services) _ e in
        rw (← ok-injective same) (check_registrations-All clusters d.id d.services checked))
      (AllEntries-every (λ _ _. Unit) entries (λ _ _. tt)) h,
)

-- For names without a colon, the key that the graph gives a service is read back as its cluster and
-- its name.
pub keyed_service-service_key :
    (c s : String) (options : Value)
    → lacks colon c ≡ true
    → lacks colon s ≡ true
    → ((keyed_service (service_key c s, options)).cluster ≡ c)
      × ((keyed_service (service_key c s, options)).service ≡ s)
unfolding keyed_service
keyed_service-service_key c s options h k = rw (split-join c s h k) (refl, refl)
