-- ===== src/Commands/Graph/Laws.antt =====
-- The text of the graph is the structure, written out.
use ryba.Base.{
  String, ◌==◌, ◌≡◌, refl, ap, sym, ◌∙◌, inl, inr, List, [], ◌∷◌, ◌++◌, map, if◌then◌else◌,
}
use mathlib.Core.List.{append_assoc, append-nil}
use ryba.Js.{Result, ok, err, ◌>>=◌, traverse}
use ryba.Js.Laws.{Result-cases}
use ryba.Text.{◌^^◌}
use ryba.Config.{Config, Service, Instance}
use ryba.Normalize.Configure.{service_under}
use ryba.Commands.Clusters.{concat}
use ryba.Commands.Graph.{
  Entry, entry_of, graph_entries, instance_lines, title, graph_loop, graph_text,
}

-- The texts of an entry.
abbrev pub render : Entry → List String
render e =
    ("* "
        ^^ (e.cluster
            ^^ (":"
                ^^ (e.id
                    ^^ ((if e.id == e.module_name then "" else " (" ^^ (e.module_name ^^ ")"))
                        ^^ "\n")))))
      ∷ map (λ id. "  * " ^^ (id ^^ "\n")) e.nodes
    ++ "\n" ∷ []

instance_lines-map :
    (instances : List Instance)
    → instance_lines instances ≡ map (λ id. "  * " ^^ (id ^^ "\n")) (map (λ i. i.node.id) instances)
unfolding instance_lines
instance_lines-map [] = refl
instance_lines-map (i ∷ instances) =
    ap (λ l. ("  * " ^^ (i.node.id ^^ "\n")) ∷ l) (instance_lines-map instances)

render-entry_of :
    (s : Service) → title s ∷ instance_lines s.instances ++ "\n" ∷ [] ≡ render (entry_of s)
unfolding title entry_of
render-entry_of s = rw (instance_lines-map s.instances) refl

append-entry :
    (texts : List String) (s : Service) (m : Result (List Entry))
    → (m >>= λ entries. ok (
        (texts ++ (title s ∷ instance_lines s.instances ++ "\n" ∷ []))
        ++ concat (map render entries)))
      ≡ ((m >>= λ entries. ok (entry_of s ∷ entries)) >>= λ entries.
          ok (texts ++ concat (map render entries)))
append-entry texts s (err e) = refl
append-entry texts s (ok entries) = ap ok (
    append_assoc texts (title s ∷ instance_lines s.instances ++ "\n" ∷ [])
      (concat (map render entries))
    ∙ ap (λ l. texts ++ (l ++ concat (map render entries))) (render-entry_of s))

graph_loop-entries :
    (config : Config) (texts keys : List String)
    → graph_loop config texts keys ≡ (
        traverse (λ key. service_under key config >>= λ s. ok (entry_of s)) keys >>= λ entries.
        ok (texts ++ concat (map render entries)))
unfolding graph_loop
graph_loop-entries config texts [] = ap ok (sym (append-nil texts))
graph_loop-entries config texts (key ∷ keys) = elim (Result-cases (service_under key config)) [
  | inr (e, thrown) ↦ rw thrown refl
  | inl (s, found) ↦
      rw
        (
          found,
          graph_loop-entries config (texts ++ (title s ∷ instance_lines s.instances ++ "\n" ∷ []))
              keys,
        )
        (append-entry texts s
          (traverse (λ key. service_under key config >>= λ s. ok (entry_of s)) keys))
]

-- With the option `nodes`, the text is the entries of the structure, written one after the other; it throws
-- where the structure does.
pub graph_text-graph_entries :
    (config : Config)
    → graph_text config ≡ (graph_entries config >>= λ entries. ok (concat (map render entries)))
unfolding graph_text graph_entries
graph_text-graph_entries config = graph_loop-entries config [] config.graph
