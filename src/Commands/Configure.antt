-- ===== src/Commands/Configure.antt =====
-- legacy/masson/lib/commands/configure.js: what is printed, before `params.format` writes it out.
pub mod Laws
use ryba.Base.{String, ◌==◌, Bool, true, false, not, List, Option, none, if◌then◌else◌}
use ryba.Js.{Value, Result, ok, ◌>>=◌, ◌>>◌, guard, required_option}
use ryba.Config.{Config, Cluster, Service, Node}
use ryba.Store
use ryba.Store.{cluster_names, service_names}

-- A text that is not given is empty.
pub record Params : Type 0 where
  pub nodes : Bool
  pub node : String
  pub service : String
  pub cluster : String
  pub cluster_names : Bool
  pub service_names : Bool

pub data Printed : Type 0 where
  of_nodes : List Node → Printed
  of_node : Option Node → Printed
  of_service : Option Service → Printed
  of_cluster : Option Cluster → Printed
  of_names : List Value → Printed
  of_config : Config → Printed

module _ (minimatch : String → String → Bool) where
  unfoldable pub configure : Config → Params → Result Printed
  configure config params =
      if params.nodes
      then ok (of_nodes (Store.nodes config))
      else if not (params.node == "")
      then ok (of_node (Store.node config params.node))
      else if not (params.service == "")
      then (guard (not (params.cluster == "")) required_option
          >> (Store.service config params.cluster params.service >>= λ s. ok (of_service s)))
      else if not (params.cluster == "")
      then ok (of_cluster (Store.cluster config params.cluster))
      else if params.cluster_names
      then ok (of_names (cluster_names minimatch config none))
      else if params.service_names
      then ok (of_names (service_names minimatch config "*:**"))
      else ok (of_config config)
