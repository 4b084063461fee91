-- ===== src/Normalize/Run.antt =====
-- The whole of normalize.js behind the loading of the modules: its passes, one after the other.
pub mod Deps
pub mod Laws
pub mod Tests
use ryba.Base.{ℕ, String, List, [], ◌∷◌}
use mathlib.Core.List.{reverse}
use ryba.Js.{Value, Result, ok, ◌>>=◌}
use ryba.Assoc.{Map}
use ryba.Config.{Config}
use ryba.Normalize.Services.{GivenService, normalize_services}
use ryba.Normalize.Deps.{check_deps}
use ryba.Normalize.Nodes.{NodeEntry, normalize_nodes}
use ryba.Normalize.Graph.{Call, order_graph}
use ryba.Normalize.Placement.{place_all}
use ryba.Normalize.Ordering.{order_nodes}
use ryba.Normalize.Local.{check_locals}
use ryba.Normalize.Configure.{Inject, Called, configure_all}

-- All passes but the last one.
unfoldable pub prepare :
    (List Call → Result (List String)) → Map (Map GivenService) → Map NodeEntry → Result Config
prepare tsort given entries = do
  clusters ← normalize_services given
  checked ← check_deps (record { clusters = clusters; nodes = []; graph = [] })
  nodes ← normalize_nodes checked.clusters entries
  ordered ← order_graph tsort (record checked { nodes = nodes })
  placed ← place_all (reverse ordered.graph) ordered
  check_locals (record placed { nodes = order_nodes placed.graph placed.nodes })

module _ (tsort : List Call → Result (List String)) (merge : Value → Value → Value → Value)
    (load : String → Result Value) (call : ℕ → Inject → Config → Result Config) where
  unfoldable pub normalize_config :
      Map (Map GivenService) → Map NodeEntry → Result (Config × List Called)
  normalize_config given entries = prepare tsort given entries >>= configure_all merge load call
