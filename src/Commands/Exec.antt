-- ===== src/Commands/Exec.antt =====
-- legacy/masson/lib/commands/exec.js: a shell command is run on the nodes. `edited` is what the editor of
-- the given name leaves in the temporary file, and `merge` the function of the package `mixme`.
pub mod Output
pub mod Selection
mod Tests
use ryba.Base.{
  String, ◌==◌, Bool, true, false, length, ◌=ℕ◌, not, List, [], ◌∷◌, map, Option, none, some,
  if◌then◌else◌,
}
use ryba.Js.{Value, str, obj, field, end, get, prop, Result, ok, ◌>>=◌}
use ryba.Text.{◌^^◌, split}
use ryba.Util.{multimatch, many}
use ryba.Config.{Config, Node}
use ryba.Store.{nodes}
use ryba.Commands.Filter.{equals, key_value, tag_values, tag_patterns, given, option_match}
use ryba.Commands.Clusters.{host_of}

pub record Params : Type 0 where
  pub subcommand : List String
  pub tags : Option (List String)
  pub nodes : Option (List String)

-- The connection and the command of a node.
pub record Target : Type 0 where
  pub ssh : Value
  pub command : String

-- `.map(c => `"${c}"`).join(' ')`
unfoldable pub quoted : List String → String
quoted [] = ""
quoted (c ∷ []) = "\"" ^^ (c ^^ "\"")
quoted (c ∷ d ∷ more) = "\"" ^^ (c ^^ ("\" " ^^ quoted (d ∷ more)))

-- A property of the environment in a text.
abbrev pub env_text : Option String → String
env_text none = "undefined"
env_text (some s) = s

-- The command: what is given, or what the editor leaves; nothing if the name of the editor is empty.
-- The other test on the environment, `indexOf.call(process.env, !'EDITOR') >= 0`, is always false.
unfoldable pub command_of :
    (String → Result String) → Option String → List String → Result (Option String)
command_of edited editor [] =
    if env_text editor == "" then ok none else (edited (env_text editor) >>= λ c. ok (some c))
command_of edited editor (c ∷ more) = ok (some (quoted (c ∷ more)))

module _ (minimatch : String → String → Bool) where
  -- The loop over the tags, which leaves the node at the first tag that it has not.
  unfoldable pub passes_tags : Node → List String → Result Bool
  passes_tags n [] = ok true
  passes_tags n (tag ∷ tags) =
      let (key, value) = key_value (split equals tag) in
      let rest = passes_tags n tags in
      prop (get "tags" n.others) key >>= λ found. tag_values found >>= λ list.
      tag_patterns value >>= λ patterns.
      if length (multimatch minimatch (many list) (many patterns)) =ℕ 0 then ok false else rest

module _ (minimatch : String → String → Bool) (merge : Value → Value → Value) where
  -- The callback for a node: what it connects to, or nothing.
  unfoldable pub exec_node : Params → String → Node → Result (Option Target)
  exec_node params command n = option_match minimatch (str n.fqdn ∷ []) params.nodes >>= λ named.
      if not named
      then ok none
      else (passes_tags minimatch n (given params.tags) >>= λ tagged.
          if not tagged
          then ok none
          else ok (
              some (record {
                ssh = merge (obj (field "host" (host_of n) end)) (get "ssh" n.others);
                command = command;
              })))

  unfoldable pub exec_nodes : Config → Params → Option String → List (Result (Option Target))
  exec_nodes config params none = []
  exec_nodes config params (some command) = map (exec_node params command) (nodes config)

  unfoldable pub exec :
      (String → Result String)
      → Option String
      → Config
      → Params
      → Result (List (Result (Option Target)))
  exec edited editor config params = command_of edited editor params.subcommand >>= λ command.
      ok (exec_nodes config params command)
