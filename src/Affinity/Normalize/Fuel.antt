-- ===== src/Affinity/Normalize/Fuel.antt =====
-- Fuel above the size of an affinity is enough to normalise it.
use ryba.Base.{
  ℕ, zero, suc, ◌+◌, ◌≤◌, ◌<◌, String, ◌≡◌, refl, ◌≢◌, Bool, true, false, not, List, [], ◌∷◌, arith,
  Option, none, some, Bool-cases, inl, inr,
}
use ryba.Js.{
  Value, undefined, null, bool, num, str, func, arr, obj, Items, nil, cons, Fields, end, field,
  Error, out_of_fuel, Result, ok, err, guard, traverse, items, truthy, is_nullish, get, prop, array,
  values_not_found, type_required, match_required_value, match_required_values, match_required_tags,
  value_must_be_true, value_not_string, service_not_string, node_not_string, object_keys,
}
use ryba.Js.Laws.{get-put_ne, >>=-ne-err, ok-injective}
use ryba.Affinity.Normalize.{
  Kind, generic, tags, services, nodes, kind_of, strings, array_to_object, texts_to_object,
  need_match, services_normalize, nodes_normalize, tag_object, has_length, tag_normalize,
  map_fields, tags_map, tags_normalize, normalize_value, normalize_by, generic_item, default_type,
  array_items, generic_normalize, handler, normalize,
}

unfoldable mutual
  -- The number of arrays and objects in a value.
  pub size : Value → ℕ
  size (arr vs) = suc (size_items vs)
  size (obj fs) = suc (size_fields fs)
  size undefined = 0
  size null = 0
  size (bool b) = 0
  size (num n) = 0
  size (str s) = 0
  size (func n) = 0

  pub size_items : Items → ℕ
  size_items nil = 0
  size_items (cons v vs) = size v + size_items vs

  pub size_fields : Fields → ℕ
  size_fields end = 0
  size_fields (field k v fs) = size v + size_fields fs

size-get : (k : String) (fs : Fields) → size (get k fs) ≤ size_fields fs
unfolding size get
size-get k end = omega arith
size-get k (field j v fs) = ground (arith, size-get k fs)

abbrev Ends {ℓ} : {A : Type ℓ} → Result A → Type ℓ
Ends m = m ≢ err out_of_fuel

guard-Ends : (b : Bool) (e : Error) → e ≢ out_of_fuel → Ends (guard b e)
guard-Ends true e h = λ same. cc
guard-Ends false e h = λ same. h (cc)

strings-Ends :
    (e : Value → Error) (vs : List Value) → ((v : Value) → e v ≢ out_of_fuel) → Ends (strings e vs)
unfolding strings
strings-Ends e [] h = λ same. cc
strings-Ends e (str s ∷ vs) h =
    >>=-ne-err (strings e vs) _ out_of_fuel (strings-Ends e vs h) (λ ss _ same. cc)
strings-Ends e (v ∷ vs) h = λ same. h v (cc)

array_to_object-Ends :
    (e : Value → Error) (v : Value) → ((v : Value) → e v ≢ out_of_fuel) → Ends (array_to_object e v)
unfolding array_to_object
array_to_object-Ends e (arr vs) h =
    >>=-ne-err (strings e (items vs)) _ out_of_fuel (strings-Ends e (items vs) h) (λ ss _ same. cc)
array_to_object-Ends e v h = λ same. cc

texts_to_object-Ends :
    (e : Value → Error) (v : Value) → ((v : Value) → e v ≢ out_of_fuel) → Ends (texts_to_object e v)
unfolding texts_to_object
texts_to_object-Ends e (str s) h = array_to_object-Ends e (array (str s ∷ [])) h
texts_to_object-Ends e v h = array_to_object-Ends e v h

object_keys-Ends : (v : Value) → Ends (object_keys v)
unfolding object_keys
object_keys-Ends undefined = λ same. cc
object_keys-Ends v = λ same. cc

need_match-Ends : (e : Error) (v m : Value) → e ≢ out_of_fuel → Ends (need_match e v m)
unfolding need_match
need_match-Ends e v m h =
    >>=-ne-err (object_keys v) _ out_of_fuel (object_keys-Ends v) (λ ks _. guard-Ends _ e h)

services_normalize-Ends : (c : Fields) → Ends (services_normalize c)
unfolding services_normalize
services_normalize-Ends c =
    >>=-ne-err (guard (truthy (get "values" c)) values_not_found) _ out_of_fuel
      (guard-Ends _ _ (λ same. cc))
      λ _ _.
        >>=-ne-err (texts_to_object (λ _. service_not_string) (get "values" c)) _ out_of_fuel
          (texts_to_object-Ends _ _ (λ _ same. cc)) (λ _ _ same. cc)

nodes_normalize-Ends : (c : Fields) → Ends (nodes_normalize c)
unfolding nodes_normalize
nodes_normalize-Ends c =
    >>=-ne-err (guard (truthy (get "values" c)) values_not_found) _ out_of_fuel
      (guard-Ends _ _ (λ same. cc))
      λ _ _.
        >>=-ne-err (texts_to_object (λ _. node_not_string) (get "values" c)) _ out_of_fuel
          (texts_to_object-Ends _ _ (λ _ same. cc))
          λ w _.
            >>=-ne-err (need_match match_required_values w (get "match" c)) _ out_of_fuel
              (need_match-Ends _ _ _ (λ same. cc)) (λ _ _ same. cc)

tag_normalize-Ends : (t : Value) → Ends (tag_normalize t)
unfolding tag_normalize
tag_normalize-Ends t =
    let c = tag_object t in
    >>=-ne-err (array_to_object value_not_string (get "values" c)) _ out_of_fuel
      (array_to_object-Ends _ _ (λ _ same. cc))
      λ w _.
        >>=-ne-err (need_match match_required_value w (get "match" c)) _ out_of_fuel
          (need_match-Ends _ _ _ (λ same. cc))
          λ _ _.
            >>=-ne-err (guard (not (has_length w)) value_must_be_true) _ out_of_fuel
              (guard-Ends _ _ (λ same. cc)) (λ _ _ same. cc)

map_fields-Ends : (fs : Fields) → Ends (map_fields tag_normalize fs)
unfolding map_fields
map_fields-Ends end = λ same. cc
map_fields-Ends (field k v fs) =
    >>=-ne-err (tag_normalize v) _ out_of_fuel (tag_normalize-Ends v) λ _ _.
      >>=-ne-err (map_fields tag_normalize fs) _ out_of_fuel (map_fields-Ends fs) (λ _ _ same. cc)

tags_map-Ends : (v : Value) → Ends (tags_map v)
unfolding tags_map
tags_map-Ends (obj fs) = map_fields-Ends fs
tags_map-Ends v = λ same. cc

tags_normalize-Ends : (c : Fields) → Ends (tags_normalize c)
unfolding tags_normalize
tags_normalize-Ends c =
    >>=-ne-err (guard (truthy (get "values" c)) values_not_found) _ out_of_fuel
      (guard-Ends _ _ (λ same. cc))
      λ _ _. >>=-ne-err (tags_map (get "values" c)) _ out_of_fuel (tags_map-Ends _) λ w _.
        >>=-ne-err (need_match match_required_tags (obj w) (get "match" c)) _ out_of_fuel
          (need_match-Ends _ _ _ (λ same. cc)) (λ _ _ same. cc)

get-default_type : (c : Fields) → get "values" (default_type c) ≡ get "values" c
unfolding default_type
get-default_type c = elim (Bool-cases (is_nullish (get "type" c))) [
  | inl missing ↦ rw (missing, get-put_ne "type" "values" (str "generic") c refl)
  | inr there ↦ rw there
]

module _ (f : ℕ) (rec : Kind → Fields → Result Fields)
    (ends : (k : Kind) (fs : Fields) → size_fields fs < f → Ends (rec k fs)) where
  generic_item-Ends : (v : Value) → size v ≤ f → Ends (generic_item rec v)
  unfolding generic_item normalize_by normalize_value prop size
  generic_item-Ends (obj fs) h =
      >>=-ne-err (guard (truthy (get "type" fs)) type_required) _ out_of_fuel
        (guard-Ends _ _ (λ same. cc)) (λ _ _. by (kind_of (get "type" fs)))
    where
      by : (o : Option Kind) → Ends (normalize_by rec (obj fs) (get "type" fs) o)
      by none = λ same. cc
      by (some k) = >>=-ne-err (rec k fs) _ out_of_fuel (ends k fs (omega arith)) (λ _ _ same. cc)
  generic_item-Ends undefined h = λ same. cc
  generic_item-Ends v h = λ same. cc

  items-Ends : (vs : Items) → size_items vs ≤ f → Ends (traverse (generic_item rec) (items vs))
  unfolding size
  items-Ends nil h = λ same. cc
  items-Ends (cons v vs) h =
      >>=-ne-err (generic_item rec v) _ out_of_fuel (generic_item-Ends v (omega arith)) λ _ _.
        >>=-ne-err (traverse (generic_item rec) (items vs)) _ out_of_fuel
          (items-Ends vs (omega arith)) (λ _ _ same. cc)

  values-Ends :
      (v : Value) (given : List Value)
      → size v ≤ suc f
      → array_items v ≡ ok given
      → Ends (traverse (generic_item rec) given)
  unfolding array_items size
  values-Ends (arr vs) given h same = rw (← ok-injective same) (items-Ends vs (omega arith))
  values-Ends v given h same = cc

  array_items-Ends : (v : Value) → Ends (array_items v)
  unfolding array_items
  array_items-Ends (arr vs) = λ same. cc
  array_items-Ends v = λ same. cc

  generic_normalize-Ends : (c : Fields) → size_fields c ≤ suc f → Ends (generic_normalize rec c)
  unfolding generic_normalize
  generic_normalize-Ends c h =
      >>=-ne-err (guard (truthy (get "values" (default_type c))) values_not_found) _ out_of_fuel
        (guard-Ends _ _ (λ same. cc))
        λ _ _.
          >>=-ne-err (array_items (get "values" (default_type c))) _ out_of_fuel
            (array_items-Ends _)
            λ given read.
              >>=-ne-err (traverse (generic_item rec) given) _ out_of_fuel
                (values-Ends _ given (rw (get-default_type c) (omega (arith, size-get "values" c)))
                  read)
                (λ _ _ same. cc)

  handler-Ends : (k : Kind) (c : Fields) → size_fields c ≤ suc f → Ends (handler rec k c)
  unfolding handler
  handler-Ends generic c h = generic_normalize-Ends c h
  handler-Ends tags c h = tags_normalize-Ends c
  handler-Ends services c h = services_normalize-Ends c
  handler-Ends nodes c h = nodes_normalize-Ends c

-- With fuel above the number of arrays and objects in an affinity, `normalize` does not run out.
pub normalize-ne-out_of_fuel :
    (f : ℕ) (k : Kind) (c : Fields) → size_fields c < f → normalize f k c ≢ err out_of_fuel
unfolding normalize
normalize-ne-out_of_fuel zero k c h = elim h [ ]
normalize-ne-out_of_fuel (suc f) k c h =
    handler-Ends f (normalize f) (normalize-ne-out_of_fuel f) k c (omega arith)
