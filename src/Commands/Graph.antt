-- ===== src/Commands/Graph.antt =====
-- legacy/masson/lib/commands/graph.js, with the option `nodes`: the services in the order of the graph with
-- their nodes, as a structure that `params.format` then prints, or as a text.
pub mod Laws
use ryba.Base.{
  String, ◌==◌, ◌≡◌, refl, ap, sym, ◌∙◌, inl, inr, Bool, true, false, List, [], ◌∷◌, ◌++◌, map,
  if◌then◌else◌,
}
use ryba.Js.{Result, ok, err, ◌>>=◌, traverse}
use ryba.Js.Laws.{Result-cases}
use ryba.Text.{◌^^◌}
use ryba.Config.{Config, Service, Instance}
use ryba.Normalize.Configure.{service_under}

-- The object that is made for a service.
pub record Entry : Type 0 where
  pub cluster : String
  pub id : String
  pub module_name : String
  pub nodes : List String

unfoldable pub entry_of : Service → Entry
entry_of s = record {
  cluster = s.cluster;
  id = s.id;
  module_name = s.module_name;
  nodes = map (λ i. i.node.id) s.instances;
}

unfoldable pub graph_entries : Config → Result (List Entry)
graph_entries config =
    traverse (λ key. service_under key config >>= λ s. ok (entry_of s)) config.graph

-- `data.push('  * …')` for each instance
unfoldable pub instance_lines : List Instance → List String
instance_lines [] = []
instance_lines (i ∷ instances) = ("  * " ^^ (i.node.id ^^ "\n")) ∷ instance_lines instances

unfoldable pub title : Service → String
title s =
    "* "
    ^^ (s.cluster
        ^^ (":"
            ^^ (s.id
                ^^ ((if s.id == s.module_name then "" else " (" ^^ (s.module_name ^^ ")"))
                    ^^ "\n"))))

-- The loop over the graph, with the texts that are in `data`.
unfoldable pub graph_loop : Config → List String → List String → Result (List String)
graph_loop config texts [] = ok texts
graph_loop config texts (key ∷ keys) = service_under key config >>= λ s.
    graph_loop config (texts ++ (title s ∷ instance_lines s.instances ++ "\n" ∷ [])) keys

unfoldable pub graph_text : Config → Result (List String)
graph_text config = graph_loop config [] config.graph
