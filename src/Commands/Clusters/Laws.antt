-- ===== src/Commands/Clusters/Laws.antt =====
-- What commands/clusters.js does on a node, against the list of the calls that are wanted there.
use ryba.Base.{
  String, ◌≡◌, inl, inr, refl, ap, ◌∙◌, Bool, true, false, not, ◌&&◌, List, [], ◌∷◌, ◌++◌, map,
  keep, All, Bool-cases, Option, none, some, length, ◌=ℕ◌, if◌then◌else◌,
}
use ryba.Js.{Value, undefined, bool, str, obj, field, end, get, prop, truthy, Result, ok, ◌>>=◌}
use ryba.Util.{multimatch}
use ryba.Assoc.{find}
use ryba.Config.{Config, Node, NodeService, Service, Instance}
use ryba.Store.{service}
use ryba.Commands.Filter.{given, option_match, any_match, is_match, text}
use ryba.Commands.Filter.Laws.{filter_ok-keep, traverse-map, All-keep}
use ryba.Commands.Clusters.{
  Params, Call, log_cli, log_md, ssh_open, plugin, command, last_of, option_value, is_present,
  host_of, actions, concat, is_root, can_assign, service_of, instance_on, plugin_call, action_call,
  command_calls, run_services, has_command, is_kept, is_selected, filtered, run_node,
}

-- What a list of patterns, if there is one, says of a text.
abbrev pub allows : (String → String → Bool) → Option (List String) → String → Bool
allows minimatch none s = true
allows minimatch (some patterns) s = is_match minimatch (s ∷ []) patterns

option_match-allows :
    (minimatch : String → String → Bool) (o : Option (List String)) (s : String)
    → option_match minimatch (str s ∷ []) o ≡ ok (allows minimatch o s)
unfolding option_match any_match text multimatch
option_match-allows minimatch none s = refl
option_match-allows minimatch (some []) s = refl
option_match-allows minimatch (some (pattern ∷ patterns)) s = refl

keep-keep {ℓ} :
    {A : Type ℓ} (p q : A → Bool) (xs : List A) → keep q (keep p xs) ≡ keep (λ x. p x && q x) xs
keep-keep p q [] = refl
keep-keep p q (x ∷ xs) = elim (Bool-cases (p x)) [
  | inl kept ↦ rw (kept, keep-keep p q xs) refl
  | inr dropped ↦ rw (dropped, keep-keep p q xs) refl
]

All-map {ℓ} :
    {A : Type ℓ} {P : A → Type 0} {Q : A → Type 0} (f : (x : A) → P x → Q x) (xs : List A)
    → All P xs
    → All Q xs
All-map f [] h = tt
All-map f (x ∷ xs) h = (f x h.0, All-map f xs h.1)

All-always {ℓ} : {A : Type ℓ} {P : A → Type 0} (f : (x : A) → P x) (xs : List A) → All P xs
All-always f [] = tt
All-always f (x ∷ xs) = (f x, All-always f xs)

if-ok_and :
    (a : Bool) {b : Bool} {m : Result Bool} → m ≡ ok b → (if a then m else ok false) ≡ ok (a && b)
if-ok_and true h = h
if-ok_and false h = refl

-- `config.nikita` is an object if `ssh.username` can be read.
is_root-can_assign :
    (nikita : Value) {root : Bool} → is_root nikita ≡ ok root → can_assign nikita ≡ ok tt
unfolding is_root can_assign prop
is_root-can_assign undefined h = cc
is_root-can_assign Value.null h = cc
is_root-can_assign (obj fs) h = refl
is_root-can_assign (bool b) h = cc
is_root-can_assign (str t) h = cc
is_root-can_assign (Value.num k) h = cc
is_root-can_assign (Value.arr vs) h = refl
is_root-can_assign (Value.func k) h = refl

module _ (minimatch : String → String → Bool) (merge : Value → Value → Value) (config : Config)
    (params : Params) (n : Node) (found_service : NodeService → Service)
    (found_instance : NodeService → Instance) (root : Bool) where
  -- The service of an entry of the node is in the configuration under the entry's module, with exactly one
  -- instance on the node.
  abbrev pub IsServed : NodeService → Type 0
  IsServed ns =
      (service config ns.cluster ns.service ≡ ok (some (found_service ns)))
      × (instance_on n (found_service ns) ≡ ok (found_instance ns))
      × (ns.module_name ≡ some (found_service ns).module_name)

  -- The filters allow the module and the cluster.
  abbrev pub is_allowed : NodeService → Bool
  is_allowed ns =
      allows minimatch params.modules (found_service ns).module_name
      && allows minimatch params.cluster ns.cluster

  -- They do, and the service has the command.
  abbrev pub is_wanted : NodeService → Bool
  is_wanted ns =
      is_allowed ns && is_present (find (last_of params.command) (found_service ns).commands)

  abbrev pub plugins_of : NodeService → List Call
  plugins_of ns =
      if truthy (found_service ns).plugin
      then plugin (found_service ns).plugin (found_instance ns).options ∷ []
      else []

  abbrev pub commands_of : NodeService → List Call
  commands_of ns =
      map
        (λ action.
          command action
            (merge (found_instance ns).options (obj (field "sudo" (bool (not root)) end))))
        (actions (find (last_of params.command) (found_service ns).commands))

  -- The logs, the connection, the plugins of all services, and the commands of those that are wanted.
  abbrev pub calls_on : List Call
  calls_on =
      let services = keep is_wanted n.services in
      if length services =ℕ 0
      then []
      else log_cli n.fqdn
          ∷ log_md n.hostname
          ∷ ssh_open (host_of n) (get "ssh" n.others)
          ∷ concat (map plugins_of n.services)
        ++ concat (map commands_of services)

  is_kept-allows :
      (ns : NodeService)
      → IsServed ns
      → is_kept minimatch params ns
        ≡ ok (
            allows minimatch params.modules (found_service ns).module_name
            && allows minimatch params.cluster ns.cluster)
  unfolding is_kept
  is_kept-allows ns h =
      ap
        (λ m. m >>= λ kept.
          if kept then option_match minimatch (str ns.cluster ∷ []) params.cluster else ok false)
        (ap (λ name. option_match minimatch (option_value name ∷ []) params.modules) h.2
          ∙ option_match-allows minimatch params.modules (found_service ns).module_name)
      ∙ if-ok_and (allows minimatch params.modules (found_service ns).module_name)
          (option_match-allows minimatch params.cluster ns.cluster)

  service_of-found : (ns : NodeService) → IsServed ns → service_of config ns ≡ ok (found_service ns)
  unfolding service_of
  service_of-found ns h = rw h.0 refl

  has_command-found :
      (ns : NodeService)
      → IsServed ns
      → has_command config (last_of params.command) ns
        ≡ ok (is_present (find (last_of params.command) (found_service ns).commands))
  unfolding has_command
  has_command-found ns h = rw (service_of-found ns h) refl

  plugin_call-found :
      (ns : NodeService) → IsServed ns → plugin_call config n ns ≡ ok (plugins_of ns)
  unfolding plugin_call
  plugin_call-found ns h = elim (Bool-cases (truthy (found_service ns).plugin)) [
    | inl given ↦ rw (service_of-found ns h, given, h.1) refl
    | inr missing ↦ rw (service_of-found ns h, missing) refl
  ]

  action_call-eq :
      (nikita : Value)
      → is_root nikita ≡ ok root
      → (ns : NodeService) (action : Value)
      → action_call merge nikita (found_instance ns) action
        ≡ ok (
            command action
              (merge (found_instance ns).options (obj (field "sudo" (bool (not root)) end))))
  unfolding action_call
  action_call-eq nikita r ns action = rw r refl

  command_calls-found :
      (nikita : Value)
      → is_root nikita ≡ ok root
      → (ns : NodeService) → IsServed ns
      → command_calls merge nikita config (last_of params.command) n ns ≡ ok (commands_of ns)
  unfolding command_calls
  command_calls-found nikita r ns h =
      rw (service_of-found ns h, h.1)
        (traverse-map (action_call merge nikita (found_instance ns))
          (λ action.
            command action
              (merge (found_instance ns).options (obj (field "sudo" (bool (not root)) end))))
          (actions (find (last_of params.command) (found_service ns).commands))
          (All-always (action_call-eq nikita r ns)
            (actions (find (last_of params.command) (found_service ns).commands))))

  filtered-wanted :
      All IsServed n.services → filtered minimatch config params n ≡ ok (keep is_wanted n.services)
  unfolding filtered
  filtered-wanted h =
      rw
        (filter_ok-keep (is_kept minimatch params) is_allowed n.services
          (All-map is_kept-allows n.services h))
        (filter_ok-keep (has_command config (last_of params.command))
            (λ ns. is_present (find (last_of params.command) (found_service ns).commands))
            (keep is_allowed n.services)
            (All-map has_command-found (keep is_allowed n.services)
              (All-keep IsServed is_allowed n.services h))
          ∙ ap ok (
              keep-keep is_allowed
                (λ ns. is_present (find (last_of params.command) (found_service ns).commands))
                n.services))

  -- On a node that passes the filters, where `config.nikita.ssh.username` can be read, and each
  -- entry of `node.services` names a service of the entry's module that has exactly one instance on
  -- the node: `run_node` succeeds and makes the wanted calls and no other.
  pub run_node-calls :
      (nikita : Value)
      → is_selected minimatch params n ≡ ok true
      → is_root nikita ≡ ok root
      → All IsServed n.services
      → run_node minimatch merge nikita config params n ≡ ok calls_on
  unfolding run_node run_services
  run_node-calls nikita selected r h = elim (Bool-cases (length (keep is_wanted n.services) =ℕ 0)) [
    | inl nothing ↦ rw (selected, filtered-wanted h, nothing) refl
    | inr something ↦
        rw
          (
            selected,
            filtered-wanted h,
            something,
            is_root-can_assign nikita r,
            traverse-map (plugin_call config n) plugins_of n.services
                (All-map plugin_call-found n.services h),
            traverse-map (command_calls merge nikita config (last_of params.command) n) commands_of
                (keep is_wanted n.services)
                (All-map (command_calls-found nikita r) (keep is_wanted n.services)
                  (All-keep IsServed is_wanted n.services h)),
          )
          refl
  ]
