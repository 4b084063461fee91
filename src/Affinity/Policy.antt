-- ===== src/Affinity/Policy.antt =====
-- The abstract view of affinities.js: a policy is a predicate on nodes, built from tests by the
-- modes `all`, `any` and `none`. `encode` gives the normalised object that stands for it.
pub mod Table
pub mod Refinement
pub mod Normal
pub mod Faults
use ryba.Base.{
  ℕ, suc, ◌+◌, String, ◌==◌, ◌≡◌, Bool, true, false, List, [], ◌∷◌, map, contains, All, ◌≢◌, Option,
  none, some, ◌≢◌,
}
use ryba.Js.{
  Value, str, bool, undefined, arr, obj, Items, nil, cons, Fields, end, field, get, truthy,
}
use ryba.Affinity.Match.{Mode, to_none}
use ryba.Affinity.Match.Laws.{Wanted, as_value, members, combine, mode_name}
use ryba.Affinity.Normalize.{Kind, generic, tags, nodes}
use ryba.Affinity.Resolve.{tag_value}

-- A node: the object of the configuration, with what affinities read of it.
pub record Node : Type 0 where
  pub id : String
  pub tagged : String → Option Wanted
  pub fields : Fields

abbrev pub tag_subject : Option Wanted → Value
tag_subject none = undefined
tag_subject (some w) = as_value w

-- The object has this identifier, also as its `fqdn`, and these tags, none of them empty.
pub record IsNode (n : Node) : Type 0 where
  pub has_id : get "id" n.fields ≡ str n.id
  pub id_full : truthy (str n.id) ≡ true
  pub has_fqdn : get "fqdn" n.fields ≡ str n.id
  pub has_tags :
      (name : String) → tag_value name (get "tags" n.fields) ≡ tag_subject (n.tagged name)
  pub tags_full : (name : String) (w : Wanted) → n.tagged name ≡ some w → truthy (as_value w) ≡ true

-- One tag of a `tags` affinity.
pub record TagRule : Type 0 where
  pub name : String
  pub mode : Mode
  pub wanted : List String

mutual
  pub data Policy : Type 0 where
    nodes_in : Mode → List String → Policy
    tags_in : Mode → List TagRule → Policy
    combined : Mode → Policies → Policy

  pub data Policies : Type 0 where
    no_more : Policies
    also : Policy → Policies → Policies

abbrev pub rule_holds : Node → TagRule → Bool
rule_holds n r = elim (n.tagged r.name) [
  | none ↦ false
  | some w ↦ combine r.mode (contains (members w)) r.wanted
]

unfoldable mutual
  -- Whether a node is selected.
  pub denote : Policy → Node → Bool
  denote (nodes_in m ids) n = combine m (λ id. n.id == id) ids
  denote (tags_in m rules) n = combine m (rule_holds n) rules
  denote (combined m ps) n = combine m (λ p. p n) (denotes ps)

  pub denotes : Policies → List (Node → Bool)
  denotes no_more = []
  denotes (also p ps) = (λ n. denote p n) ∷ denotes ps

abbrev pub true_fields : List String → Fields
true_fields [] = end
true_fields (k ∷ ks) = field k (bool true) (true_fields ks)

abbrev pub affinity_fields : String → Mode → Value → Fields
affinity_fields type m values =
    field "type" (str type) (field "match" (str (mode_name m)) (field "values" values end))

abbrev pub rule_value : TagRule → Value
rule_value r =
    obj (field "match" (str (mode_name r.mode)) (field "values" (obj (true_fields r.wanted)) end))

abbrev pub rule_fields : List TagRule → Fields
rule_fields [] = end
rule_fields (r ∷ rs) = field r.name (rule_value r) (rule_fields rs)

abbrev pub kind : Policy → Kind
kind (nodes_in m ids) = nodes
kind (tags_in m rules) = tags
kind (combined m ps) = generic

unfoldable mutual
  pub encode : Policy → Fields
  encode (nodes_in m ids) = affinity_fields "nodes" m (obj (true_fields ids))
  encode (tags_in m rules) = affinity_fields "tags" m (obj (rule_fields rules))
  encode (combined m ps) = affinity_fields "generic" m (arr (encodes ps))

  pub encodes : Policies → Items
  encodes no_more = nil
  encodes (also p ps) = cons (obj (encode p)) (encodes ps)

unfoldable mutual
  pub depth : Policy → ℕ
  depth (nodes_in m ids) = 0
  depth (tags_in m rules) = 0
  depth (combined m ps) = suc (depths ps)

  -- A bound for the depth of each policy.
  pub depths : Policies → ℕ
  depths no_more = 0
  depths (also p ps) = depth p + depths ps

-- The mode `none` on a tag throws at a node without that tag, so it asks for the tag at every node.
abbrev pub IsRead : TagRule → Node → Type 0
IsRead r n = r.mode ≡ to_none → n.tagged r.name ≢ none

unfoldable mutual
  pub Supports : List Node → Policy → Type 0
  Supports ns (nodes_in m names) = Unit
  Supports ns (tags_in m rules) = All (λ r. All (IsRead r) ns) rules
  Supports ns (combined m ps) = SupportsEach ns ps

  pub SupportsEach : List Node → Policies → Type 0
  SupportsEach ns no_more = Unit
  SupportsEach ns (also p ps) = Supports ns p × SupportsEach ns ps
