-- ===== src/Commands/Clusters.antt =====
-- legacy/masson/lib/commands/clusters.js: a command of the services is run on the nodes. What is done
-- on a node is the list of what the code asks of nikita, in the order in which nikita does it; where an
-- exception is thrown on the way, the node's result is that exception. The nodes are independent.
pub mod Laws
use ryba.Base.{
  String, ◌==◌, Bool, true, false, not, List, [], ◌∷◌, ◌++◌, map, Option, none, some, length, ◌=ℕ◌,
  if◌then◌else◌,
}
use ryba.Js.{
  Value, undefined, bool, str, obj, arr, func, field, end, type_error, get, prop, truthy, strict_eq,
  Result, ok, err, ◌>>=◌, ◌>>◌, guard, traverse, filter_ok, invalid_usage,
}
use ryba.Text.{split}
use ryba.Assoc.{find}
use ryba.Util.{array_get}
use ryba.Config.{Config, Node, NodeService, Service, Instance}
use ryba.Store.{service, nodes}
use ryba.Normalize.Configure.{required}
use ryba.Commands.Filter.{equals, key_value, given, has_tags, option_match}

pub record Params : Type 0 where
  pub command : List String
  pub tags : Option (List String)
  pub nodes : Option (List String)
  pub modules : Option (List String)
  pub cluster : Option (List String)

-- What the code asks of nikita.
pub data Call : Type 0 where
  log_cli : (host : String) → Call
  log_md : (basename : String) → Call
  ssh_open : (host ssh : Value) → Call
  plugin command : (action options : Value) → Call

-- `params.command.slice(-1)[0]`, which is the key `undefined` of an object if there is none.
unfoldable pub last_of : List String → String
last_of [] = "undefined"
last_of (c ∷ []) = c
last_of (c ∷ d ∷ more) = last_of (d ∷ more)

abbrev pub has_value : Option String → Bool
has_value none = false
has_value (some value) = not (value == "")

-- The first loop over the tags.
unfoldable pub check_tags : List String → Result (Unit {0})
check_tags [] = ok tt
check_tags (tag ∷ tags) =
    guard (has_value (key_value (split equals tag)).1) invalid_usage >> check_tags tags

abbrev pub option_value : Option String → Value
option_value none = undefined
option_value (some s) = str s

abbrev pub is_present {ℓ} : {A : Type ℓ} → Option A → Bool
is_present none = false
is_present (some a) = true

-- `node.ip || node.fqdn`
unfoldable pub host_of : Node → Value
host_of n = if truthy (get "ip" n.others) then get "ip" n.others else str n.fqdn

-- `service.commands[command]`, which the code reads only where it is there.
unfoldable pub actions : Option (List Value) → List Value
actions none = []
actions (some vs) = vs

abbrev pub concat {ℓ} : {A : Type ℓ} → List (List A) → List A
concat [] = []
concat (xs ∷ more) = xs ++ concat more

-- `config.nikita.ssh.username === 'root' || !config.nikita.ssh.username`
unfoldable pub is_root : Value → Result Bool
is_root nikita = do
  ssh ← prop nikita "ssh"
  username ← prop ssh "username"
  ok (if strict_eq username (str "root") then true else not (truthy username))

-- `v.k = …` in strict mode, which throws on what is no object.
unfoldable pub can_assign : Value → Result (Unit {0})
can_assign (obj fs) = ok tt
can_assign (arr vs) = ok tt
can_assign (func f) = ok tt
can_assign v = err type_error

-- `s.service(service.cluster, service.service)`, of which a property is read.
unfoldable pub service_of : Config → NodeService → Result Service
service_of config ns = service config ns.cluster ns.service >>= required

unfoldable pub instance_on : Node → Service → Result Instance
instance_on n s = array_get s.instances (λ i. i.node.id == n.id)

unfoldable pub plugin_call : Config → Node → NodeService → Result (List Call)
plugin_call config n ns = do
  s ← service_of config ns
  if truthy s.plugin then (instance_on n s >>= λ i. ok (plugin s.plugin i.options ∷ [])) else ok []

-- `merge` is the function of the package `mixme`; `nikita` is `config.nikita`.
module _ (merge : Value → Value → Value) (nikita : Value) where
  unfoldable pub action_call : Instance → Value → Result Call
  action_call i action = is_root nikita >>= λ root.
      ok (command action (merge i.options (obj (field "sudo" (bool (not root)) end))))

  unfoldable pub command_calls : Config → String → Node → NodeService → Result (List Call)
  command_calls config name n ns = do
    s ← service_of config ns
    i ← instance_on n s
    traverse (action_call i) (actions (find name s.commands))

  -- From `log = {}` on.
  unfoldable pub run_services : Config → String → Node → List NodeService → Result (List Call)
  run_services config name n services = do
    can_assign nikita
    plugins ← traverse (plugin_call config n) n.services
    commands ← traverse (command_calls config name n) services
    ok (
        log_cli n.fqdn
          ∷ log_md n.hostname
          ∷ ssh_open (host_of n) (get "ssh" n.others)
          ∷ concat plugins
        ++ concat commands)

unfoldable pub has_command : Config → String → NodeService → Result Bool
has_command config name ns = service_of config ns >>= λ s. ok (is_present (find name s.commands))

module _ (minimatch : String → String → Bool) where
  -- The callback of the first filter over `node.services`.
  unfoldable pub is_kept : Params → NodeService → Result Bool
  is_kept params ns =
      option_match minimatch (option_value ns.module_name ∷ []) params.modules >>= λ kept.
      if kept then option_match minimatch (str ns.cluster ∷ []) params.cluster else ok false

  -- The tests on the node.
  unfoldable pub is_selected : Params → Node → Result Bool
  is_selected params n = has_tags minimatch n (given params.tags) >>= λ tagged.
      if tagged
      then option_match minimatch (get "ip" n.others ∷ str n.fqdn ∷ str n.hostname ∷ [])
          params.nodes
      else ok false

  unfoldable pub filtered : Config → Params → Node → Result (List NodeService)
  filtered config params n =
      filter_ok (is_kept params) n.services
      >>= filter_ok (has_command config (last_of params.command))

module _ (minimatch : String → String → Bool) (merge : Value → Value → Value) (nikita : Value) where
  unfoldable pub run_node : Config → Params → Node → Result (List Call)
  run_node config params n = is_selected minimatch params n >>= λ selected.
      if not selected
      then ok []
      else (filtered minimatch config params n >>= λ services.
          if length services =ℕ 0
          then ok []
          else run_services merge nikita config (last_of params.command) n services)

  -- One result for each node, or the exception for a tag without a value.
  unfoldable pub clusters : Config → Params → Result (List (Result (List Call)))
  clusters config params =
      check_tags (given params.tags) >> ok (map (run_node config params) (nodes config))
