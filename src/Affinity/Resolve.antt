-- ===== src/Affinity/Resolve.antt =====
-- `handlers.generic.resolve`, `.tags`, `.services` and `.nodes` of affinities.js: the nodes that an
-- affinity selects. Of the configuration only the object `config.nodes` is read.
use ryba.Base.{ℕ, zero, suc, String, List, [], ◌∷◌, map, none, some}
use ryba.Js.{
  Value, undefined, str, obj, Fields, end, field, type_error, out_of_fuel, Result, ok, err, ◌>>=◌,
  traverse, array, values, get, prop, object_keys, elements,
}
use ryba.Affinity.Match.{Test, match_by}
use ryba.Affinity.Normalize.{Kind, generic, tags, services, nodes, kind_of}

-- `function (node) { return { subject: node[k] } }`
unfoldable pub subject_test : String → Value → Result Test
subject_test k node = prop node k >>= λ v. ok (record { subject = v; output = undefined })

unfoldable pub nodes_resolve : Fields → Fields → Result Value
nodes_resolve config_nodes affinity = do
  fqdns ← traverse (subject_test "fqdn") (values config_nodes)
  ks ← object_keys (get "values" affinity)
  found ← match_by (get "match" affinity) (map str ks) fqdns
  ok (array found)

-- `config.nodes[id]`, for an identifier that is a text
unfoldable pub at_id : Value → Fields → Value
at_id (str s) config_nodes = get s config_nodes
at_id _ config_nodes = undefined

-- `ref1 != null ? ref1[name] : undefined`
unfoldable pub tag_value : String → Value → Value
tag_value name (obj fs) = get name fs
tag_value name _ = undefined

-- The callback that builds the tests of one tag: it reads the node again, by its identifier.
unfoldable pub tag_test : Fields → String → Value → Result Test
tag_test config_nodes name node = do
  id ← prop node "id"
  node_tags ← prop (at_id id config_nodes) "tags"
  ok (record { subject = tag_value name node_tags; output = id })

-- The body of the loop over the tags.
unfoldable pub tag_nodes : Fields → String → Value → Result Value
tag_nodes config_nodes name tag = do
  tag_values ← prop tag "values"
  ks ← object_keys tag_values
  tests ← traverse (tag_test config_nodes name) (values config_nodes)
  mode ← prop tag "match"
  found ← match_by mode (map str ks) tests
  ok (array found)

unfoldable pub tags_nodes : Fields → Fields → Result (List Value)
tags_nodes config_nodes end = ok []
tags_nodes config_nodes (field name tag rest) = tag_nodes config_nodes name tag >>= λ found.
    tags_nodes config_nodes rest >>= λ more. ok (found ∷ more)

-- What a `for … in` loop runs over; nothing where the value is no object.
abbrev pub own_fields : Value → Fields
own_fields (obj fs) = fs
own_fields _ = end

unfoldable pub tags_resolve : Fields → Fields → Result Value
tags_resolve config_nodes affinity = do
  matched ← tags_nodes config_nodes (own_fields (get "values" affinity))
  ids ← traverse (subject_test "id") (values config_nodes)
  found ← match_by (get "match" affinity) matched ids
  ok (array found)

-- `return console.log("todo")`
unfoldable pub services_resolve : Fields → Fields → Result Value
services_resolve config_nodes affinity = ok undefined

unfoldable pub resolve_value : (Kind → Fields → Result Value) → Kind → Value → Result Value
resolve_value rec k (obj fs) = rec k fs
resolve_value rec k _ = err type_error

-- `handlers[value.type].resolve(config, value)`
unfoldable pub generic_value : (Kind → Fields → Result Value) → Value → Result Value
generic_value rec value = do
  type ← prop value "type"
  elim (kind_of type) [ none ↦ err type_error | some k ↦ resolve_value rec k value ]

unfoldable pub generic_resolve : (Kind → Fields → Result Value) → Fields → Fields → Result Value
generic_resolve rec config_nodes affinity = do
  ids ← traverse (subject_test "id") (values config_nodes)
  given ← elements (get "values" affinity)
  matched ← traverse (generic_value rec) given
  found ← match_by (get "match" affinity) matched ids
  ok (array found)

-- `handlers[k].resolve(config, affinity)`. The fuel bounds the depth of nesting.
unfoldable pub resolve : ℕ → Fields → Kind → Fields → Result Value
resolve zero config_nodes k affinity = err out_of_fuel
resolve (suc f) config_nodes generic affinity =
    generic_resolve (resolve f config_nodes) config_nodes affinity
resolve (suc f) config_nodes tags affinity = tags_resolve config_nodes affinity
resolve (suc f) config_nodes services affinity = services_resolve config_nodes affinity
resolve (suc f) config_nodes nodes affinity = nodes_resolve config_nodes affinity
