-- ===== src/Commands/Print/Tests.antt =====
-- The formats of a list of keys.
use ryba.Base.{String, ◌≡◌, refl, false, List, [], ◌∷◌}
use ryba.Js.{ok}
use ryba.Config.{Config}
use ryba.Commands.Print.{Printers, join, in_format, graph_command}

abbrev printers : Printers (List String)
printers = record { cson = join "\n"; json = join ","; inspect = join " " }

abbrev keys : List String
keys = "vagrant:nn" ∷ "vagrant:dn" ∷ []

abbrev lines : String → List String
lines text = keys

as_coffee : in_format lines printers "coffee" keys ≡ "module.exports =\n  vagrant:nn\n  vagrant:dn"
unfolding in_format join
as_coffee = refl

as_js : in_format lines printers "js" keys ≡ "module.exports = vagrant:nn,vagrant:dn"
unfolding in_format join
as_js = refl

abbrev config : Config
config = record { clusters = []; nodes = []; graph = keys }

without_nodes :
    graph_command lines
      (record { cson = λ e. ""; json = λ e. ""; inspect = λ e. "" })
      printers
      config
      false
      ""
    ≡ ok "vagrant:nn vagrant:dn"
unfolding graph_command in_format join
without_nodes = refl
