-- ===== src/Commands/Exec/Selection.antt =====
-- The loop over the tags of exec.js beside that of clusters.js. Before its loop, clusters.js refuses a tag
-- without a value (`check_tags`); exec.js does not look.
use ryba.Base.{
  String, ◌≡◌, ◌↔◌, refl, Bool, true, false, not, List, [], ◌∷◌, length, ◌=ℕ◌, Option, none, some,
  if◌then◌else◌,
}
use ryba.Js.{Value, str, obj, field, end, get, prop, Result, ok, err, ◌>>=◌}
use ryba.Text.{split}
use ryba.Util.{multimatch, many}
use ryba.Config.{Node}
use ryba.Commands.Filter.{
  equals, key_value, tag_values, tag_patterns, given, has_tag, has_tags, option_match,
}
use ryba.Commands.Clusters.{Params, is_selected, host_of}
use ryba.Commands.Exec
use ryba.Commands.Exec.{passes_tags, exec_node}

-- One turn of a loop that goes on to `m` or ends with false.
turn :
    (a : Result Value) (b : Result (List String)) (fails : List String → List String → Bool)
    (m : Result Bool)
    → (a >>= λ found.
        tag_values found >>= λ list. b >>= λ patterns. if fails list patterns then ok false else m)
      ≡ (a >>= λ found.
          tag_values found >>= λ list. b >>= λ patterns. ok (not (fails list patterns)))
        >>= λ found. if found then m else ok false
turn (err e) b fails m = refl
turn (ok found) b fails m = of_list (tag_values found) b
  where
    of_test : (bad : Bool) → (if bad then ok false else m) ≡ (if not bad then m else ok false)
    of_test true = refl
    of_test false = refl

    of_list :
        (l b : Result (List String))
        → (l >>= λ list. b >>= λ patterns. if fails list patterns then ok false else m)
          ≡ (l >>= λ list. b >>= λ patterns. ok (not (fails list patterns))) >>= λ found.
              if found then m else ok false
    of_list (err e) b = refl
    of_list (ok list) (err e) = refl
    of_list (ok list) (ok patterns) = of_test (fails list patterns)

passes_tags-has_tags :
    (minimatch : String → String → Bool) (n : Node) (tags : List String)
    → passes_tags minimatch n tags ≡ has_tags minimatch n tags
unfolding passes_tags has_tags has_tag
passes_tags-has_tags minimatch n [] = refl
passes_tags-has_tags minimatch n (tag ∷ tags) =
    let (key, value) = key_value (split equals tag) in
    rw (passes_tags-has_tags minimatch n tags) (
      turn (prop (get "tags" n.others) key) (tag_patterns value)
        (λ list patterns. length (multimatch minimatch (many list) (many patterns)) =ℕ 0)
        (has_tags minimatch n tags))

tagged-match :
    (m : Result Bool) (match : Option (List String) → Result Bool) (o : Option (List String))
    → o ≡ none
    → match none ≡ ok true
    → ((m >>= λ tagged. if tagged then match o else ok false) ≡ ok true) ↔ (m ≡ ok true)
tagged-match (err e) match o h k = (λ same. cc, λ same. cc)
tagged-match (ok true) match o h k = (λ _. refl, λ _. rw h k)
tagged-match (ok false) match o h k = (λ same. cc, λ same. cc)

tagged-target :
    (m : Result Bool) (t : Exec.Target)
    → ((found : Exec.Target) × ((m >>= λ tagged. if not tagged then ok none else ok (some t))
          ≡ ok (some found)))
      ↔ (m ≡ ok true)
tagged-target (err e) t = (λ h. cc (h.1), λ same. cc)
tagged-target (ok true) t = (λ _. refl, λ _. (t, refl))
tagged-target (ok false) t = (λ h. cc (h.1), λ same. cc)

-- With no list of nodes for either command, the two loops over the tags choose the same nodes: the
-- callback of `exec` connects to a node exactly if the tests of `clusters` on the node
-- (`is_selected`) pass.
pub exec_node-is_selected :
    (minimatch : String → String → Bool) (merge : Value → Value → Value) (params : Params)
    (command : String) (n : Node)
    → params.nodes ≡ none
    → (is_selected minimatch params n ≡ ok true) ↔ (
        (t : Exec.Target) × (exec_node minimatch merge
            (record { subcommand = []; tags = params.tags; nodes = none })
            command
            n
          ≡ ok (some t)))
unfolding is_selected exec_node option_match
exec_node-is_selected minimatch merge params command n all_nodes =
    let selected =
      tagged-match (has_tags minimatch n (given params.tags))
        (option_match minimatch (get "ip" n.others ∷ str n.fqdn ∷ str n.hostname ∷ [])) params.nodes
        all_nodes refl in
    let target = tagged-target (has_tags minimatch n (given params.tags)) (record {
      ssh = merge (obj (field "host" (host_of n) end)) (get "ssh" n.others);
      command = command;
    }) in
    rw (passes_tags-has_tags minimatch n (given params.tags))
      (λ h. target.1 (selected.0 h), λ h. selected.1 (target.0 h))
