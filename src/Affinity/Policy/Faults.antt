-- ===== src/Affinity/Policy/Faults.antt =====
-- Affinities that `normalize` accepts and on which `resolve` throws.
use ryba.Base.{
  ℕ, suc, ◌<◌, String, ◌≡◌, refl, ◌⊎◌, inl, inr, Bool, List, [], ◌∷◌, map, All, none, Option-cases,
}
use ryba.Js.{
  Value, undefined, str, obj, arr, Fields, cons, Result, ok, err, type_error, get, array, filter_ok,
  object_keys, prop, elements,
}
use ryba.Affinity.Match.{
  Mode, to_all, to_any, to_none, Test, test_of, none_test, none_loop, any_of, any_loop, includes,
  run, all_test, any_test, all_loop, some_loop,
}
use ryba.Affinity.Match.Laws.{match_by-mode_name}
use ryba.Affinity.Normalize.{kind_of, generic, tags}
use ryba.Affinity.Resolve.{
  tag_nodes, tags_nodes, tags_resolve, generic_value, generic_resolve, resolve_value,
  services_resolve, resolve,
}
use ryba.Affinity.Policy.{
  Node, IsNode, TagRule, Policies, tags_in, affinity_fields, rule_value, SupportsEach, encode,
  encodes, depths, denotes, rule_holds,
}
use ryba.Affinity.Policy.Table.{table, IsTable, IsTable-All}
use ryba.Affinity.Policy.Refinement.{
  selected, id_test, id_tests, tag_entry, tag_tests, keys-true_fields, values-eq, test_of-rule,
}

-- Some element of a list.
abbrev pub Some {ℓ} : {A : Type ℓ} → (A → Type 0) → List A → Type 0
Some P [] = ⊥
Some P (x ∷ xs) = P x ⊎ Some P xs

-- A filter whose callback either answers or throws one exception, and throws once.
filter_ok-err :
    {A B : Type 0} (f : A → B) (p : B → Result Bool) (Bad : A → Type 0) (xs : List A)
    → All (λ x. ((b : Bool) × (p (f x) ≡ ok b)) ⊎ (p (f x) ≡ err type_error)) xs
    → ((x : A) → Bad x → p (f x) ≡ err type_error)
    → Some Bad xs
    → filter_ok p (map f xs) ≡ err type_error
filter_ok-err f p Bad [] h bad some_bad = absurd some_bad
filter_ok-err f p Bad (x ∷ xs) h bad (inl now) = rw (bad x now)
filter_ok-err f p Bad (x ∷ xs) h bad (inr later) = elim h.0 [
  | inl (b, fine) ↦ rw (fine, filter_ok-err f p Bad xs h.1 bad later)
  | inr thrown ↦ rw thrown
]

none-undefined :
    (s : String) (ss : List String) (t : Test)
    → t.subject ≡ undefined
    → test_of to_none (map str (s ∷ ss)) t ≡ err type_error
unfolding test_of none_test none_loop any_of any_loop includes elements
none-undefined s ss t missing = rw missing

none_entry :
    (name s : String) (ss : List String) (n : Node)
    → IsNode n
    → ((b : Bool) × (test_of to_none (map str (s ∷ ss)) (tag_entry name n) ≡ ok b))
      ⊎ (test_of to_none (map str (s ∷ ss)) (tag_entry name n) ≡ err type_error)
none_entry name s ss n v = elim (Option-cases (n.tagged name)) [
  | inl missing ↦ inr (none-undefined s ss (tag_entry name n) (unfold tag_entry in rw missing))
  | inr (w, found) ↦ inl (
    rule_holds n (record { name = name; mode = to_none; wanted = s ∷ ss }),
    test_of-rule (record { name = name; mode = to_none; wanted = s ∷ ss }) n v (λ _ missing. cc),
  )
]

tag_nodes_throws :
    (name s : String) (ss : List String) (ns : List Node)
    → IsTable ns
    → Some (λ n. n.tagged name ≡ none) ns
    → tag_nodes
        (table ns)
        name
        (rule_value (record { name = name; mode = to_none; wanted = s ∷ ss }))
      ≡ err type_error
unfolding tag_nodes prop object_keys get run
tag_nodes_throws name s ss ns h untagged = rw (
  tag_tests name ns h,
  keys-true_fields ss,
  match_by-mode_name,
  filter_ok-err (tag_entry name) (test_of to_none (map str (s ∷ ss))) (λ n. n.tagged name ≡ none) ns
      (each ns (IsTable-All ns h))
      (λ n missing. none-undefined s ss (tag_entry name n) (unfold tag_entry in rw missing))
      untagged,
)
  where
    each :
        (ms : List Node)
        → All IsNode ms
        → All
            (λ n.
              ((b : Bool) × (test_of to_none (map str (s ∷ ss)) (tag_entry name n) ≡ ok b))
              ⊎ (test_of to_none (map str (s ∷ ss)) (tag_entry name n) ≡ err type_error))
            ms
    each [] a = tt
    each (n ∷ ms) a = (none_entry name s ss n a.0, each ms a.1)

-- For nodes with distinct identifiers, a `tags` affinity whose first tag is matched by `none`
-- against one text or more throws a TypeError as soon as one node does not set that tag.
pub resolve-none_untagged :
    (m : Mode) (name s : String) (ss : List String) (rules : List TagRule) (ns : List Node) (f : ℕ)
    → IsTable ns
    → Some (λ n. n.tagged name ≡ none) ns
    → resolve
        (suc f)
        (table ns)
        tags
        (encode (tags_in m (record { name = name; mode = to_none; wanted = s ∷ ss } ∷ rules)))
      ≡ err type_error
unfolding resolve tags_resolve tags_nodes encode get
resolve-none_untagged m name s ss rules ns f h untagged =
    rw (tag_nodes_throws name s ss ns h untagged)

run-undefined :
    (m : Mode) (vs : List Value) (n : Node) (ns : List Node)
    → IsNode n
    → run m (undefined ∷ vs) (map id_test (n ∷ ns)) ≡ err type_error
unfolding run test_of all_test any_test none_test all_loop some_loop none_loop any_of elements
run-undefined to_all vs n ns v = rw v.id_full
run-undefined to_any vs n ns v = rw v.id_full
run-undefined to_none vs n ns v = refl

generic_value-services :
    (f : ℕ) (config_nodes s : Fields)
    → get "type" s ≡ str "services"
    → generic_value (resolve (suc f) config_nodes) (obj s) ≡ ok undefined
unfolding generic_value prop resolve_value resolve services_resolve kind_of
generic_value-services f config_nodes s typed = rw typed

-- For nodes with distinct identifiers, a `generic` affinity that lists an affinity of the type
-- `services` first, before any policies that resolve, throws a TypeError as soon as there is a
-- node.
resolve-services :
    (m : Mode) (s : Fields) (ps : Policies) (n : Node) (ns : List Node) (f : ℕ)
    → get "type" s ≡ str "services"
    → depths ps < suc f
    → IsTable (n ∷ ns)
    → SupportsEach (n ∷ ns) ps
    → resolve
        (suc (suc f))
        (table (n ∷ ns))
        generic
        (affinity_fields "generic" m (arr (cons (obj s) (encodes ps))))
      ≡ err type_error
unfolding generic_resolve resolve get elements
resolve-services m s ps n ns f typed small h reads = rw (
  id_tests (n ∷ ns) h,
  generic_value-services f (table (n ∷ ns)) s typed,
  values-eq ps (suc f) (n ∷ ns) small h reads,
  match_by-mode_name,
  run-undefined m (map (λ p. array (selected p (n ∷ ns))) (denotes ps)) n ns h.0,
)
