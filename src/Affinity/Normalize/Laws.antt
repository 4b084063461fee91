-- ===== src/Affinity/Normalize/Laws.antt =====
-- Normalising an affinity a second time changes nothing.
use ryba.Base.{
  ℕ, zero, suc, String, ◌≡◌, refl, sym, ap, ◌⊎◌, true, false, not, List, [], ◌∷◌, Bool-cases,
  Option-cases, inl, inr,
}
use ryba.Js.{
  Value, undefined, null, str, arr, obj, Fields, end, field, Error, Result, ok, guard, traverse,
  items, array, truthy, is_nullish, is_array, get, put, prop, put_true, values_not_found,
  type_required, match_required_value, match_required_values, match_required_tags,
  value_must_be_true, value_not_string, service_not_string, node_not_string,
}
use ryba.Js.Laws.{get-put_self, get-put_ne, put-put, ok-injective, >>=-eq-ok, guard-eq-ok}
use ryba.Affinity.Match.Laws.{items-to_items}
use ryba.Affinity.Normalize.{
  Kind, generic, tags, services, nodes, kind_of, strings, array_to_object, texts_to_object,
  need_match, services_normalize, nodes_normalize, tag_object, has_length, tag_normalize,
  map_fields, tags_map, tags_normalize, normalize_value, normalize_by, generic_item, default_type,
  array_items, generic_normalize, handler, normalize,
}

-- An array becomes the object of its texts, and anything else stays.
array_to_object_cases :
    (e : Value → Error) (v w : Value)
    → array_to_object e v ≡ ok w
    → ((ss : List String) × (w ≡ obj (put_true ss end))) ⊎ ((w ≡ v) × (is_array v ≡ false))
unfolding array_to_object
array_to_object_cases e (arr vs) w h =
    let (ss, read, same) = >>=-eq-ok (strings e (items vs)) (λ ss. ok (obj (put_true ss end))) h in
    inl (ss, sym (ok-injective same))
array_to_object_cases e undefined w h = inr (sym (ok-injective h), refl)
array_to_object_cases e v w h = inr (sym (ok-injective h), refl)

array_to_object_idem :
    (e : Value → Error) (v w : Value) → array_to_object e v ≡ ok w → array_to_object e w ≡ ok w
unfolding array_to_object
array_to_object_idem e v w h = elim (array_to_object_cases e v w h) [
  | inl (ss, same) ↦ rw same
  | inr (same, plain) ↦ rw same (rw same at h)
]

texts_to_object_idem :
    (e : Value → Error) (v w : Value)
    → texts_to_object e v ≡ ok w
    → (texts_to_object e w ≡ ok w) × (truthy v ≡ true → truthy w ≡ true)
unfolding texts_to_object array_to_object
texts_to_object_idem e (str s) w h = elim (array_to_object_cases e (array (str s ∷ [])) w h) [
  | inl (ss, same) ↦ rw same (refl, λ _. refl)
  | inr (same, plain) ↦ absurd (cc)
]
texts_to_object_idem e (arr vs) w h = elim (array_to_object_cases e (arr vs) w h) [
  | inl (ss, same) ↦ rw same (refl, λ _. refl)
  | inr (same, plain) ↦ absurd (cc)
]
texts_to_object_idem e v w h = rw (← ok-injective h) (refl, λ full. full)

-- What an operation gives is left as it is by the operation.
abbrev pub IsStable {ℓ} : {A : Type ℓ} → (A → Result A) → A → Type ℓ
IsStable f a = f a ≡ ok a

services_normalize-IsStable :
    (c d : Fields) → services_normalize c ≡ ok d → IsStable services_normalize d
unfolding services_normalize
services_normalize-IsStable c d h =
    let v = get "values" c in
    let (_, full, rest) = >>=-eq-ok (guard (truthy v) values_not_found) _ h in
    let (w, read, same) = >>=-eq-ok (texts_to_object (λ _. service_not_string) v) _ rest in
    let (again, stays) = texts_to_object_idem (λ _. service_not_string) v w read in
    rw (← ok-injective same, get-put_self "values" w c, stays (guard-eq-ok _ _ full), again)
      (ap ok (put-put "values" w w c))

nodes_normalize-IsStable : (c d : Fields) → nodes_normalize c ≡ ok d → IsStable nodes_normalize d
unfolding nodes_normalize
nodes_normalize-IsStable c d h =
    let v = get "values" c in
    let (_, full, rest) = >>=-eq-ok (guard (truthy v) values_not_found) _ h in
    let (w, read, more) = >>=-eq-ok (texts_to_object (λ _. node_not_string) v) _ rest in
    let (_, matched, same) =
      >>=-eq-ok (need_match match_required_values w (get "match" c)) _ more in
    let (again, stays) = texts_to_object_idem (λ _. node_not_string) v w read in
    rw
      (
        ← ok-injective same,
        get-put_self "values" w c,
        stays (guard-eq-ok _ _ full),
        again,
        get-put_ne "values" "match" w c refl,
        matched,
      )
      (ap ok (put-put "values" w w c))

tag_normalize-IsStable : (t u : Value) → tag_normalize t ≡ ok u → IsStable tag_normalize u
unfolding tag_normalize
tag_normalize-IsStable t u h =
    let c = tag_object t in
    let v = get "values" c in
    let (w, read, rest) = >>=-eq-ok (array_to_object value_not_string v) _ h in
    let (_, matched, more) = >>=-eq-ok (need_match match_required_value w (get "match" c)) _ rest in
    let (_, short, same) = >>=-eq-ok (guard (not (has_length w)) value_must_be_true) _ more in
    rw
      (
        ← ok-injective same,
        get-put_self "values" w c,
        array_to_object_idem value_not_string v w read,
        get-put_ne "values" "match" w c refl,
        matched,
        short,
      )
      (ap (λ fs. ok (obj fs)) (put-put "values" w w c))

map_fields-IsStable :
    (fs gs : Fields) → map_fields tag_normalize fs ≡ ok gs → IsStable (map_fields tag_normalize) gs
unfolding map_fields
map_fields-IsStable end gs h = rw (← ok-injective h)
map_fields-IsStable (field k v fs) gs h =
    let (w, read, rest) = >>=-eq-ok (tag_normalize v) _ h in
    let (more, later, same) = >>=-eq-ok (map_fields tag_normalize fs) _ rest in
    rw (← ok-injective same, tag_normalize-IsStable v w read, map_fields-IsStable fs more later)

tags_map-IsStable : (v : Value) (gs : Fields) → tags_map v ≡ ok gs → tags_map (obj gs) ≡ ok gs
unfolding tags_map
tags_map-IsStable (obj fs) gs h = map_fields-IsStable fs gs h
tags_map-IsStable v gs h = cc

tags_normalize-IsStable : (c d : Fields) → tags_normalize c ≡ ok d → IsStable tags_normalize d
unfolding tags_normalize
tags_normalize-IsStable c d h =
    let v = get "values" c in
    let (_, full, rest) = >>=-eq-ok (guard (truthy v) values_not_found) _ h in
    let (w, read, more) = >>=-eq-ok (tags_map v) _ rest in
    let (_, matched, same) =
      >>=-eq-ok (need_match match_required_tags (obj w) (get "match" c)) _ more in
    rw
      (
        ← ok-injective same,
        get-put_self "values" (obj w) c,
        tags_map-IsStable v w read,
        get-put_ne "values" "match" (obj w) c refl,
        matched,
      )
      (ap ok (put-put "values" (obj w) (obj w) c))

-- Normalising keeps the kind of an affinity whose `type` is set.
abbrev pub KeepsType : (Kind → Fields → Result Fields) → Type 0
KeepsType rec =
    (k : Kind) (c d : Fields)
    → rec k c ≡ ok d
    → is_nullish (get "type" c) ≡ false
    → get "type" d ≡ get "type" c

abbrev AreStable : (Kind → Fields → Result Fields) → Type 0
AreStable rec = (k : Kind) (c d : Fields) → rec k c ≡ ok d → rec k d ≡ ok d

default_type_self : (c : Fields) → is_nullish (get "type" c) ≡ false → default_type c ≡ c
unfolding default_type
default_type_self c h = rw h

default_type-full : (c : Fields) → is_nullish (get "type" (default_type c)) ≡ false
unfolding default_type
default_type-full c = elim (Bool-cases (is_nullish (get "type" c))) [
  | inl missing ↦ rw (missing, get-put_self "type" (str "generic") c)
  | inr there ↦ rw there there
]

not_nullish : (v : Value) → truthy v ≡ true → is_nullish v ≡ false
not_nullish undefined h = cc
not_nullish null h = cc
not_nullish v h = refl

module _ (rec : Kind → Fields → Result Fields) (keeps : KeepsType rec)
    (stable : AreStable rec) where
  generic_item-IsStable : (v w : Value) → generic_item rec v ≡ ok w → IsStable (generic_item rec) w
  unfolding generic_item normalize_by normalize_value prop
  generic_item-IsStable (obj fs) w h =
      let t = get "type" fs in
      let (_, full, rest) = >>=-eq-ok (guard (truthy t) type_required) _ h in
      elim (Option-cases (kind_of t)) [
        | inl missing ↦ absurd (cc (rw (missing, normalize_by) at rest))
        | inr (k, found) ↦
            let (gs, done, same) =
              >>=-eq-ok (rec k fs) (λ gs. ok (obj gs)) (rw (found, normalize_by) at rest) in
            rw (
              ← ok-injective same,
              keeps k fs gs done (not_nullish t (guard-eq-ok _ _ full)),
              full,
              found,
              stable k fs gs done,
            )
      ]
  generic_item-IsStable undefined w h = cc
  generic_item-IsStable v w h = cc

  items-IsStable :
      (vs ws : List Value)
      → traverse (generic_item rec) vs ≡ ok ws
      → IsStable (traverse (generic_item rec)) ws
  items-IsStable [] ws h = rw (← ok-injective h)
  items-IsStable (v ∷ vs) ws h =
      let (w, read, rest) = >>=-eq-ok (generic_item rec v) _ h in
      let (more, later, same) = >>=-eq-ok (traverse (generic_item rec) vs) _ rest in
      rw (← ok-injective same, generic_item-IsStable v w read, items-IsStable vs more later)

  generic_normalize-IsStable :
      (c d : Fields) → generic_normalize rec c ≡ ok d → IsStable (generic_normalize rec) d
  unfolding generic_normalize array_items
  generic_normalize-IsStable c d h =
      let c' = default_type c in
      let v = get "values" c' in
      let (_, full, rest) = >>=-eq-ok (guard (truthy v) values_not_found) _ h in
      let (given, read, more) = >>=-eq-ok (array_items v) _ rest in
      let (ws, done, same) = >>=-eq-ok (traverse (generic_item rec) given) _ more in
      let e : default_type (put "values" (array ws) c') ≡ put "values" (array ws) c' =
        default_type_self _
          (rw (get-put_ne "values" "type" (array ws) c' refl) (default_type-full c)) in
      rw
        (
          ← ok-injective same,
          e,
          get-put_self "values" (array ws) c',
          items-to_items ws,
          items-IsStable given ws done,
        )
        (ap ok (put-put "values" (array ws) (array ws) c'))

  handler-IsStable : AreStable (handler rec)
  unfolding handler
  handler-IsStable generic c d h = generic_normalize-IsStable c d h
  handler-IsStable tags c d h = tags_normalize-IsStable c d h
  handler-IsStable services c d h = services_normalize-IsStable c d h
  handler-IsStable nodes c d h = nodes_normalize-IsStable c d h

  handler-KeepsType : KeepsType (handler rec)
  unfolding handler generic_normalize tags_normalize services_normalize nodes_normalize
  handler-KeepsType generic c d h set =
      let c' = default_type c in
      let v = get "values" c' in
      let (_, full, rest) = >>=-eq-ok (guard (truthy v) values_not_found) _ h in
      let (given, read, more) = >>=-eq-ok (array_items v) _ rest in
      let (ws, done, same) = >>=-eq-ok (traverse (generic_item rec) given) _ more in
      rw (← ok-injective same, get-put_ne "values" "type" (array ws) c' refl)
        (ap (get "type") (default_type_self c set))
  handler-KeepsType tags c d h set =
      let v = get "values" c in
      let (_, full, rest) = >>=-eq-ok (guard (truthy v) values_not_found) _ h in
      let (w, read, more) = >>=-eq-ok (tags_map v) _ rest in
      let (_, matched, same) =
        >>=-eq-ok (need_match match_required_tags (obj w) (get "match" c)) _ more in
      rw (← ok-injective same, get-put_ne "values" "type" (obj w) c refl)
  handler-KeepsType services c d h set =
      let v = get "values" c in
      let (_, full, rest) = >>=-eq-ok (guard (truthy v) values_not_found) _ h in
      let (w, read, same) = >>=-eq-ok (texts_to_object (λ _. service_not_string) v) _ rest in
      rw (← ok-injective same, get-put_ne "values" "type" w c refl)
  handler-KeepsType nodes c d h set =
      let v = get "values" c in
      let (_, full, rest) = >>=-eq-ok (guard (truthy v) values_not_found) _ h in
      let (w, read, more) = >>=-eq-ok (texts_to_object (λ _. node_not_string) v) _ rest in
      let (_, matched, same) =
        >>=-eq-ok (need_match match_required_values w (get "match" c)) _ more in
      rw (← ok-injective same, get-put_ne "values" "type" w c refl)

normalize_laws : (f : ℕ) → KeepsType (normalize f) × AreStable (normalize f)
unfolding normalize
normalize_laws zero = (λ k c d h. cc, λ k c d h. cc)
normalize_laws (suc f) =
    let (keeps, stable) = normalize_laws f in
    (handler-KeepsType (normalize f) keeps stable, handler-IsStable (normalize f) keeps stable)

-- Normalising an affinity of any kind a second time gives what the first time gave.
pub normalize_idempotent :
    (f : ℕ) (k : Kind) (c d : Fields) → normalize f k c ≡ ok d → normalize f k d ≡ ok d
normalize_idempotent f = (normalize_laws f).1

-- An affinity whose `type` is set keeps its type.
pub normalize-KeepsType : (f : ℕ) → KeepsType (normalize f)
normalize-KeepsType f = (normalize_laws f).0
