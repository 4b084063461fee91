-- ===== src/Commands/Tests.antt =====
-- The commands on the configuration of the samples, with tags on its node.
use ryba.Base.{◌==◌, ◌≡◌, ◌↔◌, refl, true, false, [], ◌∷◌, map, none, some}
use ryba.Js.{Value, undefined, bool, str, obj, field, end, get, prop, strict_eq, ok, ◌>>=◌}
use ryba.Text.{split}
use ryba.Assoc.{find}
use ryba.Util.{multimatch, array_get, only}
use ryba.Config.{Config, Node}
use ryba.Store.{service, service_in, cluster}
use ryba.Samples.{config, master, server, on_master, registered}
use ryba.Commands.Filter.{has_tag, has_tags, tag_values, tag_patterns, option_match, text}
use ryba.Commands.Clusters.{
  Params, log_cli, log_md, ssh_open, command, last_of, host_of, is_root, can_assign, instance_on,
  is_selected, run_node, actions, filtered, is_kept, has_command, service_of, run_services,
  plugin_call, command_calls, action_call,
}
use ryba.Commands.Clusters.Laws.{run_node-calls}
use ryba.Commands.Exec.Selection.{exec_node-is_selected}
use ryba.Commands.Exec
use ryba.Commands.Exec.{exec_node, quoted}
use ryba.Commands.Clusters.{concat}
use ryba.Commands.Graph.{graph_entries, graph_loop, graph_text, title, instance_lines}
use ryba.Commands.Graph.Laws.{render, graph_text-graph_entries}
use ryba.Commands.Discovered.{options, entry, discover, find-discover}
use ryba.Normalize.Configure.{service_under, service_in_clusters}

abbrev tagged : Node
tagged = record master {
  services = registered "nn" ∷ [];
  others = field "tags" (obj (field "env" (str "prod") end)) (field "ip" (str "10.0.0.1") end);
}

abbrev params : Params
params = record {
  command = "clusters" ∷ "check" ∷ [];
  tags = some ("env=test,prod" ∷ []);
  nodes = none;
  modules = none;
  cluster = none;
}

abbrev merge : Value → Value → Value
merge a b = b

abbrev nikita : Value
nikita = obj (field "ssh" (obj end) end)

quoted_test : quoted ("ls" ∷ "-l" ∷ []) ≡ "\"ls\" \"-l\""
unfolding quoted
quoted_test = refl

run_check :
    run_node ◌==◌ merge nikita config params tagged
    ≡ ok (
        log_cli "m1.ryba"
        ∷ log_md "m1"
        ∷ ssh_open (str "10.0.0.1") undefined
        ∷ command (str "hdfs/nn/check") (obj (field "sudo" (bool false) end))
        ∷ [])
unfolding is_selected has_tags has_tag tag_values tag_patterns option_match multimatch split get
    prop text is_root can_assign strict_eq service service_in cluster find array_get only last_of
    actions host_of run_node filtered is_kept has_command service_of instance_on run_services
    plugin_call command_calls action_call
run_check = refl

run_node-calls_example :
    run_node ◌==◌ merge nikita config params tagged
    ≡ ok (
        log_cli "m1.ryba"
        ∷ log_md "m1"
        ∷ ssh_open (str "10.0.0.1") undefined
        ∷ command (str "hdfs/nn/check") (obj (field "sudo" (bool false) end))
        ∷ [])
unfolding is_selected has_tags has_tag tag_values tag_patterns option_match multimatch split get
    prop text is_root can_assign strict_eq service service_in cluster find instance_on array_get
    only last_of actions host_of
run_node-calls_example =
    run_node-calls ◌==◌ merge config params tagged (λ ns. server) (λ ns. on_master "nn") true nikita
      refl refl ((refl, refl, refl), tt)

exec_node-is_selected_example : (is_selected ◌==◌ params tagged ≡ ok true) ↔ (
    (t : Exec.Target) × (exec_node ◌==◌ merge
        (record { subcommand = []; tags = params.tags; nodes = none })
        "ls"
        tagged
      ≡ ok (some t)))
exec_node-is_selected_example = exec_node-is_selected ◌==◌ merge params "ls" tagged refl

abbrev placed : Config
placed = record config { graph = "vagrant:nn" ∷ [] }

graph_test : graph_text placed ≡ ok ("* vagrant:nn (hdfs/nn)\n" ∷ "  * m1.ryba\n" ∷ "\n" ∷ [])
unfolding graph_text graph_loop service_under service_in_clusters service_in find split title
    instance_lines
graph_test = refl

graph_text-graph_entries_example :
    graph_text placed ≡ (graph_entries placed >>= λ entries. ok (concat (map render entries)))
graph_text-graph_entries_example = graph_text-graph_entries placed

find-discover_example :
    find "check" (discover config)
    ≡ some (record {
      description = "Run the check command on the clusters";
      route = "masson/lib/commands/clusters";
      options = options;
    })
unfolding entry
find-discover_example = find-discover config "check"
