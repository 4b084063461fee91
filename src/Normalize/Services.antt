-- ===== src/Normalize/Services.antt =====
-- The pass "Normalize service" of normalize.js: the affinities of a service, each by the handler of
-- its type, its commands, and the defaults of what it leaves out.
pub mod Laws
use ryba.Base.{ℕ, suc, String, Bool, true, false, List, [], ◌∷◌, Option, none, some, if◌then◌else◌}
use ryba.Js.{
  Value, undefined, null, obj, arr, str, func, Fields, Result, ok, err, ◌>>=◌, ◌>>◌, type_error,
  unsupported_type, values_not_array, values_not_found, invalid_command, in_service, traverse,
  elements, items, get,
}
use ryba.Assoc.{Map}
use ryba.Config.{Service, Cluster, Dep}
use ryba.Affinity.Normalize.{Kind, kind_of, default_type, normalize}
use ryba.Affinity.Normalize.Fuel.{size_fields}
use ryba.Normalize.Each.{each_entry}

-- A service as the configuration and its module give it, with its dependencies identified.
pub record GivenService : Type 0 where
  pub module_name : String
  pub deps : Map Dep
  pub affinity : Value
  pub commands : Option (Map Value)
  pub nodes : Option (Map Value)
  pub options : Value
  pub configure : Value
  pub plugin : Value

-- `service.affinity ?= []`, an object is put in an array, and the loop reads what is there.
unfoldable pub affinity_values : Value → Result (List Value)
affinity_values undefined = ok []
affinity_values null = ok []
affinity_values (obj fs) = ok (obj fs ∷ [])
affinity_values v = elements v

-- The `catch` around the handlers extends the message.
unfoldable pub located : String → String → Result Fields → Result Fields
located cname sname (ok affinity) = ok affinity
located cname sname (err e) = err (in_service e sname cname)

-- `affinities.handlers[affinity.type].normalize(affinity)`; the size of the affinity bounds its depth.
-- The rejection for an unknown type is returned, so that it is not caught.
unfoldable pub normalize_typed : String → String → Fields → Option Kind → Result Fields
normalize_typed cname sname affinity none = err (unsupported_type (get "type" affinity))
normalize_typed cname sname affinity (some k) =
    located cname sname (normalize (suc (size_fields affinity)) k affinity)

-- The body of the loop over the affinities. An array or a function can be given a `type`, and then is
-- refused by the handler; of any other value the assignment of `type` throws.
unfoldable pub normalize_affinity : String → String → Value → Result Fields
normalize_affinity cname sname (obj fs) =
    let typed = default_type fs in normalize_typed cname sname typed (kind_of (get "type" typed))
normalize_affinity cname sname (arr vs) = err (in_service values_not_array sname cname)
normalize_affinity cname sname (func n) = err (in_service values_not_found sname cname)
normalize_affinity cname sname _ = err type_error

-- `typeof mod` is "string" or "function", or `mod` is an object.
unfoldable pub is_module : Value → Bool
is_module (str s) = true
is_module (func n) = true
is_module (obj fs) = true
is_module _ = false

-- `if (!Array.isArray(command)) command = [command]`
unfoldable pub command_values : Value → List Value
command_values (arr vs) = items vs
command_values v = v ∷ []

-- The loop over the modules of a command.
unfoldable pub check_modules : String → List Value → Result (Unit {0})
check_modules cmdname [] = ok tt
check_modules cmdname (m ∷ mods) =
    let rest = check_modules cmdname mods in
    if is_module m then rest else err (invalid_command m cmdname)

unfoldable pub normalize_command : String → Value → Result (List Value)
normalize_command cmdname command =
    check_modules cmdname (command_values command) >>= λ _. ok (command_values command)

abbrev pub or_empty : Option (Map Value) → Map Value
or_empty none = []
or_empty (some m) = m

-- The body of the loop over the services of a cluster.
unfoldable pub normalize_service : String → String → GivenService → Result Service
normalize_service cname sname s = do
  given ← affinity_values s.affinity
  affinity ← traverse (normalize_affinity cname sname) given
  commands ← each_entry normalize_command (or_empty s.commands)
  ok (record {
    id = sname;
    cluster = cname;
    module_name = s.module_name;
    deps = s.deps;
    affinity = affinity;
    commands = commands;
    nodes = or_empty s.nodes;
    options = s.options;
    instances = [];
    configure = s.configure;
    plugin = s.plugin;
  })

unfoldable pub normalize_cluster : String → Map GivenService → Result Cluster
normalize_cluster cname services = each_entry (normalize_service cname) services >>= λ done.
    ok (record { id = cname; services = done })

unfoldable pub normalize_services : Map (Map GivenService) → Result (Map Cluster)
normalize_services clusters = each_entry normalize_cluster clusters
