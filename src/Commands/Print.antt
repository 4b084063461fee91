-- ===== src/Commands/Print.antt =====
-- `print` of graph.js and configure.js, and the two commands with it. What `CSON`, `JSON` and `util.inspect`
-- make of a value, and `string.lines` of nikita, are parameters.
mod Tests
use ryba.Base.{String, ◌==◌, Bool, true, false, List, [], ◌∷◌, if◌then◌else◌}
use ryba.Js.{Result, ok, ◌>>=◌}
use ryba.Text.{◌^^◌}
use ryba.Config.{Config}
use ryba.Commands.Graph
use ryba.Commands.Graph.{graph_entries, graph_text}
use ryba.Commands.Configure.{Printed, configure}
use ryba.Commands.Configure

-- What is used of the packages, for a type of values.
pub record Printers {ℓ} (A : Type ℓ) : Type ℓ where
  pub cson : A → String
  pub json : A → String
  pub inspect : A → String

-- `texts.join(separator)`
unfoldable pub join : String → List String → String
join separator [] = ""
join separator (s ∷ []) = s
join separator (s ∷ t ∷ more) = s ^^ (separator ^^ join separator (t ∷ more))

-- The cases of `params.format`; a text that is not given is empty.
unfoldable pub in_format {ℓ} :
    {A : Type ℓ} → (String → List String) → Printers A → String → A → String
in_format lines printers format a =
    if format == "cson"
    then printers.cson a
    else if format == "json"
    then printers.json a
    else if format == "js"
    then "module.exports = " ^^ printers.json a
    else if format == "coffee"
    then "module.exports =\n  " ^^ join "\n  " (lines (printers.cson a))
    else printers.inspect a

module _ (lines : String → List String) where
  -- `masson graph`, by the option `nodes` and the format.
  unfoldable pub graph_command :
      Printers (List Graph.Entry) → Printers (List String) → Config → Bool → String → Result String
  graph_command entry_printers key_printers config false format =
      ok (in_format lines key_printers format config.graph)
  graph_command entry_printers key_printers config true format =
      if format == ""
      then (graph_text config >>= λ texts. ok (join "" texts))
      else (graph_entries config >>= λ entries. ok (in_format lines entry_printers format entries))

  -- `masson configure`
  unfoldable pub configure_command :
      Printers Printed
      → (String → String → Bool)
      → Config
      → Configure.Params
      → String
      → Result String
  configure_command printers minimatch config params format =
      configure minimatch config params >>= λ printed. ok (in_format lines printers format printed)
