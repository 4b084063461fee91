-- ===== src/Commands/Discovered.antt =====
-- legacy/masson/lib/index.js: the table `commands` that it makes of the commands of the services, before
-- `mutate` merges it with the options of the shell.
use ryba.Base.{
  String, eq_iff, ◌≡◌, refl, ap, ◌∙◌, List, [], ◌∷◌, any, none, some, contains, if◌then◌else◌,
  arith,
}
use ryba.Text.{◌^^◌}
use ryba.Assoc.{Map, find, insert, find-insert, contents, names}
use ryba.Config.{Config}
use ryba.Store.{commands}
use ryba.Store.Laws.{commands_lem}

pub record OptionEntry : Type 0 where
  pub shortcut : String
  pub kind : String
  pub description : String

-- What is registered for a command.
pub record Entry : Type 0 where
  pub description : String
  pub route : String
  pub options : Map OptionEntry

abbrev pub options : Map OptionEntry
options =
    (
      "cluster",
      record { shortcut = "c"; kind = "array"; description = "Limit to a list of clusters" },
    )
    ∷ (
      "nodes",
      record { shortcut = "n"; kind = "array"; description = "Limit to a list of server FQDNs" },
    )
    ∷ (
      "tags",
      record {
        shortcut = "t";
        kind = "array";
        description = "Limit to servers that honor a list of tags";
      },
    )
    ∷ (
      "modules",
      record { shortcut = "m"; kind = "array"; description = "Limit to a list of modules" },
    )
    ∷ (
      "resume",
      record { shortcut = "r"; kind = "boolean"; description = "Resume from previous run" },
    )
    ∷ []

unfoldable pub entry : String → Entry
entry command = record {
  description = "Run the " ^^ (command ^^ " command on the clusters");
  route = "masson/lib/commands/clusters";
  options = options;
}

-- `for (…) commands[command] = {…}`
unfoldable pub discover_loop : Map Entry → List String → Map Entry
discover_loop found [] = found
discover_loop found (command ∷ more) = discover_loop (insert command (entry command) found) more

unfoldable pub discover : Config → Map Entry
discover config = discover_loop [] (commands config)

find-discover_loop :
    (found : Map Entry) (names : List String) (c : String)
    → find c (discover_loop found names)
      ≡ (if contains names c then some (entry c) else find c found)
unfolding discover_loop
find-discover_loop found [] c = refl
find-discover_loop found (name ∷ more) c = ground (
  arith,
  find-discover_loop (insert name (entry name) found) more c,
  find-insert name c (entry name) found,
  eq_iff name c,
)

-- The table made of the services has a command exactly if some service of some cluster has it, and what
-- it holds for it is the entry of that command, with its description, its route and the options.
pub find-discover :
    (config : Config) (c : String)
    → find c (discover config) ≡ (
        if any
          (λ cl. any (λ s. contains (names s.commands) c) (contents cl.services))
          (contents config.clusters)
        then some (entry c)
        else none)
unfolding discover find
find-discover config c =
    find-discover_loop [] (commands config) c
    ∙ ap (λ b. if b then some (entry c) else none) ((commands_lem config).1 c)
