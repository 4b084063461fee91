-- ===== src/Affinity/Policy/Normal.antt =====
-- The object that encodes a policy is in the form that `handlers.*.normalize` gives.
use ryba.Base.{ℕ, zero, suc, ◌<◌, String, ◌≡◌, refl, ap, false, List, [], ◌∷◌, All, contains, arith}
use ryba.Js.{
  undefined, str, obj, arr, Fields, Items, nil, cons, Error, Result, ok, get, put, traverse, items,
  to_items, object_keys, prop, match_required_value,
}
use ryba.Affinity.Match.{Mode, to_all, to_any, to_none}
use ryba.Affinity.Match.Laws.{mode_name}
use ryba.Affinity.Normalize.{
  Kind, kind_of, array_to_object, texts_to_object, need_match, has_length, tag_normalize,
  map_fields, tags_map, tags_normalize, nodes_normalize, normalize_value, normalize_by,
  generic_item, default_type, array_items, generic_normalize, handler, normalize,
}
use ryba.Affinity.Policy.{
  TagRule, Policy, nodes_in, tags_in, combined, Policies, no_more, also, true_fields, rule_value,
  rule_fields, kind, encode, encodes, affinity_fields, depth, depths,
}

-- No tag asks for the text `length`: `normalize` refuses it.
unfoldable mutual
  pub IsAccepted : Policy → Type 0
  IsAccepted (nodes_in m names) = Unit
  IsAccepted (tags_in m rules) = All (λ r. contains r.wanted "length" ≡ false) rules
  IsAccepted (combined m ps) = AreAccepted ps

  pub AreAccepted : Policies → Type 0
  AreAccepted no_more = Unit
  AreAccepted (also p ps) = IsAccepted p × AreAccepted ps

to_items-items : (vs : Items) → to_items (items vs) ≡ vs
to_items-items nil = refl
to_items-items (cons v vs) = ap (λ l. cons v l) (to_items-items vs)

need_match-mode_name :
    (e : Error) (fs : Fields) (m : Mode) → need_match e (obj fs) (str (mode_name m)) ≡ ok tt
unfolding need_match object_keys
need_match-mode_name e fs to_all = ground arith
need_match-mode_name e fs to_any = ground arith
need_match-mode_name e fs to_none = ground arith

get-true_fields :
    (k : String) (ks : List String) → contains ks k ≡ false → get k (true_fields ks) ≡ undefined
unfolding get
get-true_fields k [] h = refl
get-true_fields k (j ∷ ks) h = ground (arith, get-true_fields k ks)

tag_normalize-rule_value :
    (r : TagRule)
    → contains r.wanted "length" ≡ false
    → tag_normalize (rule_value r) ≡ ok (rule_value r)
unfolding tag_normalize get put array_to_object has_length
tag_normalize-rule_value r h = rw (
  need_match-mode_name match_required_value (true_fields r.wanted) r.mode,
  get-true_fields "length" r.wanted h,
)

map_fields-rule_fields :
    (rules : List TagRule)
    → All (λ r. contains r.wanted "length" ≡ false) rules
    → map_fields tag_normalize (rule_fields rules) ≡ ok (rule_fields rules)
unfolding map_fields
map_fields-rule_fields [] h = refl
map_fields-rule_fields (r ∷ rules) h =
    rw (tag_normalize-rule_value r h.0, map_fields-rule_fields rules h.1)

generic_item-encode :
    (rec : Kind → Fields → Result Fields) (p : Policy)
    → rec (kind p) (encode p) ≡ ok (encode p)
    → generic_item rec (obj (encode p)) ≡ ok (obj (encode p))
unfolding generic_item normalize_by normalize_value prop encode get kind_of
generic_item-encode rec (nodes_in m names) h = rw h
generic_item-encode rec (tags_in m rules) h = rw h
generic_item-encode rec (combined m ps) h = rw h

mutual
  unfolding normalize handler depth encode IsAccepted nodes_normalize tags_normalize
      generic_normalize get put texts_to_object array_to_object tags_map default_type array_items

  normal-encode :
      (p : Policy) (f : ℕ)
      → depth p < f
      → IsAccepted p
      → normalize f (kind p) (encode p) ≡ ok (encode p)
  normal-encode p zero small h = elim small [ ]
  normal-encode (nodes_in m names) (suc f) small h =
      rw (need_match-mode_name _ (true_fields names) m)
  normal-encode (tags_in m rules) (suc f) small h =
      rw (map_fields-rule_fields rules h, need_match-mode_name _ (rule_fields rules) m)
  normal-encode (combined m ps) (suc f) small h =
      rw (normal-encodes ps f (omega arith) h)
        (ap (λ vs. ok (affinity_fields "generic" m (arr vs))) (to_items-items (encodes ps)))

  normal-encodes :
      (ps : Policies) (f : ℕ)
      → depths ps < f
      → AreAccepted ps
      → traverse (generic_item (normalize f)) (items (encodes ps)) ≡ ok (items (encodes ps))
  normal-encodes no_more f small h = refl
  normal-encodes (also p ps) f small h = rw (
    generic_item-encode (normalize f) p (normal-encode p f (omega arith) h.0),
    normal-encodes ps f (omega arith) h.1,
  )

-- `normalize` leaves the encoding of a policy as it is, with fuel above its depth, if no tag of it
-- asks for the text "length".
normalize-encode :
    (p : Policy) (f : ℕ)
    → depth p < f
    → IsAccepted p
    → normalize f (kind p) (encode p) ≡ ok (encode p)
normalize-encode = normal-encode
