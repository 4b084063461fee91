-- ===== src/Normalize/Configure.antt =====
-- The last loop of normalize.js: the services in the order of the graph, each with the options of its
-- instances and the calls of its `configure` function. The function belongs to the service's module
-- and may change any part of the configuration, since what it is given refers to it: it is a
-- parameter that takes the configuration and returns it.
pub mod Outline
pub mod Calls
pub mod Order
use ryba.Base.{ℕ, zero, suc, String, List, [], ◌∷◌, ◌++◌, Option, none, some, length, if◌then◌else◌}
use ryba.Js.{
  Value, str, func, Result, ok, err, ◌>>=◌, Error, type_error, traverse, truthy, in_service,
  not_configurable,
}
use ryba.Text.{split, colon}
use ryba.Assoc.{Map, find}
use ryba.Config.{Config, Cluster, Service, Node, Instance, service_key}
use ryba.Store.{pair_of, service_in}
use ryba.Normalize.Inject.{Injected, inject_deps, instance_options}
use ryba.Normalize.Placement.{set_service}

-- The argument of `configure`.
pub record Inject : Type 0 where
  pub cluster : String
  pub service : String
  pub options : Value
  pub instances : List Instance
  pub node : Node
  pub deps : Map (Option Injected)

-- A call of `configure`: the key of the service and the identifier of the instance.
abbrev pub Called : Type 0
Called = String × String

-- `config.clusters[cname].services[sname]`
unfoldable pub service_in_clusters : String → String → Map Cluster → Option Service
service_in_clusters cname sname clusters = service_in (find cname clusters) sname

-- A value of which a property is read: `undefined` throws.
abbrev pub required {ℓ} : {A : Type ℓ} → Option A → Result A
required none = err type_error
required (some a) = ok a

-- The same, with `[cname, sname] = service.split(":")`.
unfoldable pub service_under : String → Config → Result Service
service_under key config =
    let names = pair_of (split colon key) in
    required (service_in_clusters names.0 names.1 config.clusters)

unfoldable pub put_service : String → Service → Config → Config
put_service key s config =
    let names = pair_of (split colon key) in
    record config { clusters = set_service names.0 names.1 s config.clusters }

-- `config.nodes[instance.node.id]`, of which a property is read.
unfoldable pub node_under : String → Map Node → Result Node
node_under id nodes = required (find id nodes)

-- `service.instances[v]`
unfoldable pub instance_at : ℕ → List Instance → Result Instance
instance_at i [] = err type_error
instance_at zero (x ∷ instances) = ok x
instance_at (suc i) (x ∷ instances) = instance_at i instances

-- `merge` is the function of the package `mixme`.
module _ (merge : Value → Value → Value → Value) where
  -- The first loop over `service.instances`.
  unfoldable pub options_of_instance : Service → Map Node → Instance → Result Instance
  options_of_instance s nodes i = node_under i.node.id nodes >>= λ n. instance_options merge s n i

  unfoldable pub set_options : String → Config → Result Config
  set_options key config = do
    s ← service_under key config
    instances ← traverse (options_of_instance s config.nodes) s.instances
    ok (put_service key (record s { instances = instances }) config)

-- An exception of `load` gets the service in its message.
unfoldable pub loaded : Service → Result Value → Result Value
loaded s (ok v) = ok v
loaded s (err e) = err (in_service e s.id s.cluster)

unfoldable pub function_of : Value → Result ℕ
function_of (func f) = ok f
function_of v = err (not_configurable v)

-- `load` imports a module, and `call` calls a function.
module _ (load : String → Result Value) (call : ℕ → Inject → Config → Result Config) where
  -- `service.configure = await load(service.configure)`, for a text
  unfoldable pub load_configure : Service → Result Value
  load_configure s = elim s.configure [ str path ↦ loaded s (load path) | v ↦ ok v ]

  -- `if (service.configure)`, to the call, with the call that is made.
  unfoldable pub call_configure :
      String → Service → Instance → Inject → Config → Result (Config × List Called)
  call_configure key s i inject config =
      if truthy s.configure
      then (load_configure s >>= λ v. function_of v >>= λ f.
          call f inject (put_service key (record s { configure = v }) config) >>= λ config'.
          ok (config', (key, i.id) ∷ []))
      else ok (config, [])

  -- The body of the second loop.
  unfoldable pub configure_instance : String → ℕ → Config → Result (Config × List Called)
  configure_instance key index config = do
    s ← service_under key config
    i ← instance_at index s.instances
    n ← node_under i.node.id config.nodes
    deps ← inject_deps config.clusters n.id s.deps
    let inject : Inject = record {
      cluster = i.cluster;
      service = i.service;
      options = i.options;
      instances = s.instances;
      node = n;
      deps = deps;
    }
    call_configure key s i inject config

  -- The indexes from `index` on; their number is read at the start.
  unfoldable pub configure_from : String → ℕ → ℕ → Config → Result (Config × List Called)
  configure_from key index zero config = ok (config, [])
  configure_from key index (suc left) config =
      configure_instance key index config >>= λ (config', now).
      configure_from key (suc index) left config' >>= λ (config'', later).
      ok (config'', now ++ later)

module _ (merge : Value → Value → Value → Value) (load : String → Result Value)
    (call : ℕ → Inject → Config → Result Config) where
  -- The body of the loop over the services.
  unfoldable pub configure_key : String → Config → Result (Config × List Called)
  configure_key key config = do
    config' ← set_options merge key config
    s ← service_under key config'
    configure_from load call key 0 (length s.instances) config'

  unfoldable pub configure_keys : List String → Config → Result (Config × List Called)
  configure_keys [] config = ok (config, [])
  configure_keys (key ∷ keys) config = configure_key key config >>= λ (config', now).
      configure_keys keys config' >>= λ (config'', later). ok (config'', now ++ later)

  unfoldable pub configure_all : Config → Result (Config × List Called)
  configure_all config = configure_keys config.graph config
