-- ===== src/Normalize/Whole/Laws.antt =====
-- What the whole of normalize.js ensures.
use ryba.Base.{ℕ, String, ◌≡◌, sym, ap, ◌∙◌, List, All}
use ryba.Js.{Value, Fields, Result, ok, ◌>>=◌}
use ryba.Assoc.{Map}
use ryba.Config.{Config}
use ryba.Normalize.Services.{GivenService}
use ryba.Normalize.Nodes.{NodeEntry}
use ryba.Normalize.Graph.{Call}
use ryba.Normalize.Graph.Laws.{IsSorter}
use ryba.Normalize.Configure.{Inject, Called}
use ryba.Normalize.Configure.Outline.{KeepsOutline}
use ryba.Normalize.Configure.Order.{AreOver, IsKey}
use ryba.Normalize.Run.{prepare, normalize_config}
use ryba.Normalize.Run.Laws.{
  AreGivenOnce, IsUniqueSorter, IsPrepared, prepare-IsPrepared, normalize_config-AreOver,
}
use ryba.Normalize.Discover.Drafts.{Draft}
use ryba.Normalize.Whole.{GivenConfig, discovered, normalize_all}

-- From the configuration as it is given, where discovery and the passes succeed: if `tsort` sorts and
-- lists nothing twice, the nodes that are given register each service at most once, the graph holds keys
-- that are read back, and the functions that are called leave the outline of the configuration alone, then
-- before the calls the graph, the local dependencies, the options and the order on the nodes are as they
-- have to be, and no service is configured before an enabled dependency of another name.
pub normalize_all-IsPrepared :
    (load : String → Result Value) (mutate : Draft → Fields → Draft)
    (tsort : List Call → Result (List String)) (merge : Value → Value → Value → Value)
    (call : ℕ → Inject → Config → Result Config) (fuel : ℕ) (config : GivenConfig)
    (given : Map (Map GivenService)) (entries : Map NodeEntry) (prepared final : Config)
    (calls : List Called)
    → IsSorter tsort
    → IsUniqueSorter tsort
    → KeepsOutline call
    → discovered load mutate fuel config ≡ ok (given, entries)
    → AreGivenOnce entries
    → prepare tsort given entries ≡ ok prepared
    → All IsKey prepared.graph
    → normalize_all load mutate tsort merge call fuel config ≡ ok (final, calls)
    → IsPrepared prepared × AreOver prepared.clusters calls
unfolding normalize_all
normalize_all-IsPrepared load mutate tsort merge call fuel config given entries prepared final calls
      sorts unique keeps found once done keys h =
    (
      prepare-IsPrepared tsort given entries prepared sorts once done,
      normalize_config-AreOver tsort merge load call given entries prepared final calls sorts unique
          once keeps done keys
          (ap (λ r. r >>= λ (given, nodes). normalize_config tsort merge load call given nodes)
              (sym found)
            ∙ h),
    )
