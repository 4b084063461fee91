-- ===== src/Normalize/Whole.antt =====
-- The whole of normalize.js: the sections of the configuration are objects or missing, the services are
-- discovered, and the passes of Normalize/Run.antt follow.
pub mod Laws
mod Tests
use ryba.Base.{ℕ, String, [], List, Option, none, some}
use ryba.Js.{
  Value, Fields, Result, ok, err, ◌>>=◌, Error, type_error, invalid_clusters, invalid_services,
  invalid_nodes,
}
use ryba.Assoc.{Map, map_values}
use ryba.Config.{Config, Dep}
use ryba.Normalize.Each.{each_entry}
use ryba.Normalize.Services.{GivenService}
use ryba.Normalize.Nodes.{NodeEntry}
use ryba.Normalize.Graph.{Call}
use ryba.Normalize.Configure.{Inject, Called}
use ryba.Normalize.Run.{normalize_config}
use ryba.Normalize.Discover.Drafts.{
  Draft, Entry, default_service, draft, ClusterEntry, Clusters, or_no, services_of, module_of,
  given_dep_of,
}
use ryba.Normalize.Discover.Modules.{discover_all}

-- `config.clusters`, `config.services` or `config.nodes`.
pub data Section {ℓ} (V : Type ℓ) : Type ℓ where
  missing : Section V
  object : Map V → Section V
  no_object : Value → Section V

pub record GivenConfig : Type 0 where
  pub clusters : Section ClusterEntry
  pub services : Section Value
  pub nodes : Section NodeEntry

-- A section that is there is an object; one that is missing is made an empty one.
unfoldable pub read_section {ℓ} : {V : Type ℓ} → Error → Section V → Result (Map V)
read_section e missing = ok []
read_section e (object m) = ok m
read_section e (no_object v) = err e

-- A service as the passes behind discovery read it; the assignment of `id` throws on `true`.
unfoldable pub given_service_of : String → Entry → Result GivenService
given_service_of sname default_service = err type_error
given_service_of sname (draft d) = ok (record {
  module_name = module_of d.module_name sname;
  deps = map_values given_dep_of (or_no d.deps);
  affinity = d.affinity;
  commands = d.commands;
  nodes = d.nodes;
  options = d.options;
  configure = d.configure;
  plugin = d.plugin;
})

unfoldable pub given_services : Clusters → Result (Map (Map GivenService))
given_services = each_entry λ cname c. each_entry given_service_of (or_no (services_of c))

-- The checks of the three sections, before anything is loaded.
unfoldable pub read_sections : GivenConfig → Result (Clusters × Map NodeEntry)
read_sections config = do
  clusters ← read_section invalid_clusters config.clusters
  services ← read_section invalid_services config.services
  nodes ← read_section invalid_nodes config.nodes
  ok (clusters, nodes)

module _ (load : String → Result Value) (mutate : Draft → Fields → Draft) where
  -- The services with the definitions of their modules, and the nodes.
  unfoldable pub discovered : ℕ → GivenConfig → Result (Map (Map GivenService) × Map NodeEntry)
  discovered fuel config = read_sections config >>= λ (clusters, nodes).
      discover_all load mutate fuel clusters >>= given_services >>= λ given. ok (given, nodes)

  -- What the default export of normalize.js does.
  unfoldable pub normalize_all :
      (List Call → Result (List String))
      → (Value → Value → Value → Value)
      → (ℕ → Inject → Config → Result Config)
      → ℕ
      → GivenConfig
      → Result (Config × List Called)
  normalize_all tsort merge call fuel config = discovered fuel config >>= λ (given, nodes).
      normalize_config tsort merge load call given nodes
