-- ===== src/Normalize/Ordering.antt =====
-- The pass "Re-order node services" of normalize.js: `node.services` in the order of the graph.
pub mod Laws
use ryba.Base.{
  ℕ, zero, suc, String, ◌==◌, Bool, true, false, List, [], ◌∷◌, ltb, ◌=ℕ◌, if◌then◌else◌,
}
use ryba.Config.{Config, Node, NodeService, service_key}
use ryba.Assoc.{Map}

-- `services.indexOf(key)`, plus one: zero where the key is not listed.
unfoldable pub index_of : String → List String → ℕ
index_of key [] = 0
index_of key (x ∷ xs) =
    if x == key then 1 else (if index_of key xs =ℕ 0 then 0 else suc (index_of key xs))

-- The rank by which two entries are compared.
abbrev pub rank : List String → NodeService → ℕ
rank graph s = index_of (service_key s.cluster s.service) graph

-- `Array.prototype.sort`, which is stable, as an insertion sort.
unfoldable pub insert_by : List String → NodeService → List NodeService → List NodeService
insert_by graph s [] = s ∷ []
insert_by graph s (t ∷ ts) =
    let later = insert_by graph s ts in
    if ltb (rank graph t) (rank graph s) then t ∷ later else s ∷ t ∷ ts

unfoldable pub sort_services : List String → List NodeService → List NodeService
sort_services graph [] = []
sort_services graph (s ∷ services) = insert_by graph s (sort_services graph services)

unfoldable pub order_nodes : List String → Map Node → Map Node
order_nodes graph [] = []
order_nodes graph ((nname, n) ∷ nodes) =
    (nname, record n { services = sort_services graph n.services }) ∷ order_nodes graph nodes
