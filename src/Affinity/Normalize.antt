-- ===== src/Affinity/Normalize.antt =====
-- `handlers.generic.normalize`, `.tags`, `.services` and `.nodes` of affinities.js. The source
-- changes its argument in place and returns it: here the new object is the result.
pub mod Laws
pub mod Fuel
use ryba.Base.{
  ℕ, zero, suc, String, ◌==◌, ltb, Bool, true, false, not, ◌&&◌, List, [], ◌∷◌, length, Option,
  none, some, if◌then◌else◌,
}
use ryba.Js.{
  Value, bool, num, str, arr, obj, cons, Fields, end, field, Error, out_of_fuel, type_error,
  values_not_found, values_not_array, values_not_object, type_required, unsupported_type,
  service_not_string, node_not_string, value_not_string, match_required_value,
  match_required_values, match_required_tags, value_must_be_true, Result, ok, err, ◌>>=◌, ◌>>◌,
  guard, traverse, items, array, truthy, is_nullish, get, put, prop, object_keys, put_true,
}

-- The keys of `handlers`.
pub data Kind : Type 0 where
  generic tags services nodes : Kind

abbrev pub kind_named : String → Option Kind
kind_named s =
    if s == "generic"
    then some generic
    else if s == "tags"
    then some tags
    else if s == "services"
    then some services
    else if s == "nodes"
    then some nodes
    else none

-- `handlers[v]`
unfoldable pub kind_of : Value → Option Kind
kind_of (str s) = kind_named s
kind_of _ = none

-- The loop over an array whose elements must be texts.
unfoldable pub strings : (Value → Error) → List Value → Result (List String)
strings e [] = ok []
strings e (str s ∷ vs) = strings e vs >>= λ ss. ok (s ∷ ss)
strings e (v ∷ vs) = err (e v)

-- An array of texts becomes an object whose keys they are; anything else stays.
unfoldable pub array_to_object : (Value → Error) → Value → Result Value
array_to_object e (arr vs) = strings e (items vs) >>= λ ss. ok (obj (put_true ss end))
array_to_object e v = ok v

-- `if (typeof values === "string") values = [values]`
unfoldable pub texts_to_object : (Value → Error) → Value → Result Value
texts_to_object e (str s) = array_to_object e (array (str s ∷ []))
texts_to_object e v = array_to_object e v

-- `throw e if Object.keys(values).length > 1 and not match`
unfoldable pub need_match : Error → Value → Value → Result (Unit {0})
need_match e values match =
    object_keys values >>= λ ks. guard (not (ltb 1 (length ks) && not (truthy match))) e

unfoldable pub services_normalize : Fields → Result Fields
services_normalize config = do
  guard (truthy (get "values" config)) values_not_found
  values ← texts_to_object (λ _. service_not_string) (get "values" config)
  ok (put "values" values config)

unfoldable pub nodes_normalize : Fields → Result Fields
nodes_normalize config = do
  guard (truthy (get "values" config)) values_not_found
  values ← texts_to_object (λ _. node_not_string) (get "values" config)
  need_match match_required_values values (get "match" config)
  ok (put "values" values config)

-- The first two tests on `tconfig`: a value or an array of values stands for an object.
abbrev pub tag_object : Value → Fields
tag_object (obj fs) = fs
tag_object (arr vs) = field "values" (arr vs) end
tag_object v = field "values" (array (v ∷ [])) end

-- `0 < v` (a text is taken for no number)
abbrev pub positive : Value → Bool
positive (num n) = ltb 0 n
positive (bool b) = b
positive _ = false

-- Whether the loop `for (k = 0, len1 = values.length; k < len1; k++)` has a first round, in which
-- it throws. Of an object `values.length` is the property of that name.
unfoldable pub has_length : Value → Bool
has_length (str s) = not (s == "")
has_length (arr (cons v vs)) = true
has_length (obj fs) = positive (get "length" fs)
has_length _ = false

-- The body of the loop over the tags.
unfoldable pub tag_normalize : Value → Result Value
tag_normalize tconfig = do
  let config = tag_object tconfig
  values ← array_to_object value_not_string (get "values" config)
  need_match match_required_value values (get "match" config)
  guard (not (has_length values)) value_must_be_true
  ok (obj (put "values" values config))

unfoldable pub map_fields : (Value → Result Value) → Fields → Result Fields
map_fields f end = ok end
map_fields f (field k v fs) = f v >>= λ w. map_fields f fs >>= λ gs. ok (field k w gs)

unfoldable pub tags_map : Value → Result Fields
tags_map (obj fs) = map_fields tag_normalize fs
tags_map _ = err values_not_object

unfoldable pub tags_normalize : Fields → Result Fields
tags_normalize config = do
  guard (truthy (get "values" config)) values_not_found
  values ← tags_map (get "values" config)
  need_match match_required_tags (obj values) (get "match" config)
  ok (put "values" (obj values) config)

-- `handlers[value.type].normalize(value)`, for a value that has a type
unfoldable pub normalize_value : (Kind → Fields → Result Fields) → Kind → Value → Result Value
normalize_value rec k (obj fs) = rec k fs >>= λ gs. ok (obj gs)
normalize_value rec k _ = err type_error

-- What the loop of `generic.normalize` does with a value, by the handler of its type.
unfoldable pub normalize_by :
    (Kind → Fields → Result Fields) → Value → Value → Option Kind → Result Value
normalize_by rec value type none = err (unsupported_type type)
normalize_by rec value type (some k) = normalize_value rec k value

-- The body of the loop of `generic.normalize`.
unfoldable pub generic_item : (Kind → Fields → Result Fields) → Value → Result Value
generic_item rec value = do
  type ← prop value "type"
  guard (truthy type) type_required
  normalize_by rec value type (kind_of type)

-- `config.type ?= "generic"`
unfoldable pub default_type : Fields → Fields
default_type config =
    if is_nullish (get "type" config) then put "type" (str "generic") config else config

unfoldable pub array_items : Value → Result (List Value)
array_items (arr vs) = ok (items vs)
array_items _ = err values_not_array

unfoldable pub generic_normalize : (Kind → Fields → Result Fields) → Fields → Result Fields
generic_normalize rec config = do
  let typed = default_type config
  guard (truthy (get "values" typed)) values_not_found
  given ← array_items (get "values" typed)
  values ← traverse (generic_item rec) given
  ok (put "values" (array values) typed)

unfoldable pub handler : (Kind → Fields → Result Fields) → Kind → Fields → Result Fields
handler rec generic config = generic_normalize rec config
handler rec tags config = tags_normalize config
handler rec services config = services_normalize config
handler rec nodes config = nodes_normalize config

-- `handlers[k].normalize(config)`. The fuel bounds the depth to which affinities are nested.
unfoldable pub normalize : ℕ → Kind → Fields → Result Fields
normalize zero k config = err out_of_fuel
normalize (suc f) k config = handler (normalize f) k config
