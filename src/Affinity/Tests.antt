-- ===== src/Affinity/Tests.antt =====
-- The theorems on affinities at nodes tagged by environment.
use ryba.Base.{
  String, ◌==◌, ◌≡◌, refl, inl, true, List, [], ◌∷◌, none, some, if◌then◌else◌, arith, All,
}
use ryba.Js.{
  str, obj, arr, nil, cons, Fields, end, field, ok, err, type_error, array, get, truthy, bool, put,
  prop, object_keys, put_true,
}
use ryba.Affinity.Match.{to_all, to_none}
use ryba.Affinity.Match.Laws.{Wanted}
use ryba.Affinity.Normalize.{
  generic, tags, normalize, handler, generic_normalize, tags_normalize, nodes_normalize,
  default_type, array_items, generic_item, kind_of, normalize_by, normalize_value, texts_to_object,
  array_to_object, strings, need_match, tags_map, map_fields, tag_normalize, has_length,
}
use ryba.Affinity.Normalize.Laws.{normalize_idempotent}
use ryba.Affinity.Normalize.Fuel.{size_fields, size, size_items}
use ryba.Affinity.Resolve.{resolve, tag_value}
use ryba.Affinity.Policy.{
  Node, IsNode, TagRule, Policy, nodes_in, tags_in, combined, no_more, also, encode, encodes, depth,
  depths, denote, denotes, Supports, SupportsEach, IsRead,
}
use ryba.Affinity.Policy.Table.{table, IsTable}
use ryba.Affinity.Policy.Refinement.{resolve_refines}
use ryba.Affinity.Policy.Normal.{IsAccepted, AreAccepted}
use ryba.Affinity.Policy.Faults.{resolve-none_untagged}

program : Unit {0}
unfolding depth depths denote denotes Supports SupportsEach encode encodes get put size size_fields
    size_items IsAccepted AreAccepted normalize handler generic_normalize tags_normalize
    nodes_normalize default_type array_items generic_item kind_of normalize_by normalize_value
    texts_to_object array_to_object strings need_match tags_map map_fields tag_normalize has_length
    prop object_keys put_true tag_value
program = tt

-- A node with one tag.
abbrev machine : String → String → Node
machine id env = record {
  id = id;
  tagged = λ name. if "env" == name then some (Wanted.one env) else none;
  fields =
      field "id" (str id)
        (field "fqdn" (str id) (field "tags" (obj (field "env" (str env) end)) end));
}

machine-IsNode :
    (id env : String) → truthy (str id) ≡ true → truthy (str env) ≡ true → IsNode (machine id env)
unfolding program
machine-IsNode id env h k = record {
  has_id = refl;
  id_full = h;
  has_fqdn = refl;
  has_tags = λ name. ground arith;
  tags_full = λ name w e. ground arith;
}

abbrev machines : List Node
machines = machine "a" "dev" ∷ machine "b" "prod" ∷ machine "c" "prod" ∷ []

machines-IsTable : IsTable machines
machines-IsTable = (
  machine-IsNode "a" "dev" refl refl,
  refl,
  (machine-IsNode "b" "prod" refl refl, refl, (machine-IsNode "c" "prod" refl refl, refl, tt)),
)

abbrev not_dev : TagRule
not_dev = record { name = "env"; mode = to_none; wanted = "dev" ∷ [] }

machines-set : All (IsRead not_dev) machines
machines-set = (λ _ unset. cc, (λ _ unset. cc, (λ _ unset. cc, tt)))

abbrev policy : Policy
policy =
    combined to_all
      (also (tags_in to_all (not_dev ∷ [])) (also (nodes_in to_none ("b" ∷ [])) no_more))

resolve_refines_example :
    resolve 2 (table machines) generic (encode policy) ≡ ok (array (str "c" ∷ []))
unfolding program
resolve_refines_example =
    resolve_refines policy 2 machines (omega arith) machines-IsTable ((machines-set, tt), (tt, tt))

abbrev given_tags : Fields
given_tags =
    field "values"
      (arr (
        cons
          (obj
            (field "type" (str "tags") (field "values" (obj (field "env" (str "prod") end)) end)))
          nil))
      end

abbrev normal_tags : Fields
normal_tags =
    field "values"
      (arr (
        cons
          (obj (
            field "type" (str "tags") (
              field "values"
                (obj
                  (field "env" (obj (field "values" (obj (field "prod" (bool true) end)) end)) end))
                end)))
          nil))
      (field "type" (str "generic") end)

normalize_given : normalize 2 generic given_tags ≡ ok normal_tags
unfolding program
normalize_given = refl

normalize_idempotent_example : normalize 2 generic normal_tags ≡ ok normal_tags
normalize_idempotent_example = normalize_idempotent 2 generic given_tags normal_tags normalize_given

resolve-none_untagged_example :
    resolve 1
      (table machines)
      tags
      (encode (tags_in to_all (record { name = "rack"; mode = to_none; wanted = "r1" ∷ [] } ∷ [])))
    ≡ err type_error
resolve-none_untagged_example =
    resolve-none_untagged to_all "rack" "r1" [] [] machines 0 machines-IsTable (inl refl)

abbrev zookeeper : Fields
zookeeper =
    field "type" (str "services") (field "values" (obj (field "zookeeper" (bool true) end)) end)
