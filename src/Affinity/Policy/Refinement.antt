-- ===== src/Affinity/Policy/Refinement.antt =====
-- `handlers.*.resolve` computes what the policy denotes.
use ryba.Base.{
  ℕ, zero, suc, ◌<◌, String, ◌≡◌, refl, sym, ap, ap₂, fun_ext, ◌∙◌, Bool, List, [], ◌∷◌, map, keep,
  All, contains, arith, Option-cases, inl, inr,
}
use ryba.Js.{
  Value, str, undefined, obj, Fields, Result, ok, array, get, values, items, traverse, keys, prop,
  elements, object_keys,
}
use ryba.Affinity.Match.{Mode, to_all, to_any, to_none, Test, test_of, run, outcome}
use ryba.Affinity.Match.Laws.{
  Wanted, one, many, as_value, members, meets, combine, test_of-texts, test_of-undefined, run-keep,
  traverse-map, match_by-mode_name, map-map,
}
use ryba.Affinity.Normalize.{Kind, kind_of}
use ryba.Affinity.Resolve.{
  subject_test, nodes_resolve, tag_test, tag_nodes, tags_nodes, tags_resolve, generic_value,
  resolve_value, generic_resolve, resolve, at_id,
}
use ryba.Affinity.Policy.{
  Node, IsNode, TagRule, Policy, nodes_in, tags_in, combined, Policies, no_more, also, rule_holds,
  denote, denotes, true_fields, rule_fields, kind, encode, encodes, depth, depths, tag_subject,
  IsRead, Supports, SupportsEach, rule_value,
}
use ryba.Affinity.Policy.Table.{
  node_value, table, ids, IsTable, All-map, IsTable-All, values-table, get-table, is_kept,
  is_kept-eq,
}

abbrev pub selected : (Node → Bool) → List Node → List Value
selected p ns = map (λ n. str n.id) (keep p ns)

abbrev pub id_test : Node → Test
id_test n = record { subject = str n.id; output = undefined }

-- Pointwise equal tests combine to the same.
pub combine_ext {ℓ} :
    {A : Type ℓ} (m : Mode) (p q : A → Bool) (xs : List A)
    → All (λ x. p x ≡ q x) xs
    → combine m p xs ≡ combine m q xs
combine_ext to_all p q [] h = refl
combine_ext to_any p q [] h = refl
combine_ext to_none p q [] h = refl
combine_ext to_all p q (x ∷ xs) h = ground (arith, combine_ext to_all p q xs h.1)
combine_ext to_any p q (x ∷ xs) h = ground (arith, combine_ext to_any p q xs h.1)
combine_ext to_none p q (x ∷ xs) h = ground (arith, combine_ext to_none p q xs h.1)

combine-map :
    {A B : Type 0} (m : Mode) (p : B → Bool) (f : A → B) (xs : List A)
    → combine m p (map f xs) ≡ combine m (λ x. p (f x)) xs
combine-map to_all p f [] = refl
combine-map to_any p f [] = refl
combine-map to_none p f [] = refl
combine-map to_all p f (x ∷ xs) = ground (arith, combine-map to_all p f xs)
combine-map to_any p f (x ∷ xs) = ground (arith, combine-map to_any p f xs)
combine-map to_none p f (x ∷ xs) = ground (arith, combine-map to_none p f xs)

All-every {ℓ κ} : {A : Type ℓ} {P : A → Type κ} (xs : List A) → ((x : A) → P x) → All P xs
All-every [] h = tt
All-every (x ∷ xs) h = (h x, All-every xs h)

All-swap {ℓ} :
    {A : Type ℓ} {B : Type 0} (P : A → B → Type 0) (xs : List B)
    → ((a : A) → All (P a) xs)
    → All (λ x. (a : A) → P a x) xs
All-swap P [] h = tt
All-swap P (x ∷ xs) h = (λ a. (h a).0, All-swap P xs (λ a. (h a).1))

-- A test of texts against the texts of an affinity.
combine-one :
    (m : Mode) (bs ss : List String)
    → combine m (meets bs) (map one ss) ≡ combine m (contains bs) ss
combine-one m bs ss =
    combine-map m (meets bs) one ss
    ∙ combine_ext m _ (contains bs) ss (All-every ss (λ s. ground arith))

map-one : (ss : List String) → map as_value (map one ss) ≡ map str ss
map-one ss = map-map as_value one ss

pub id_tests :
    (ns : List Node)
    → IsTable ns
    → traverse (subject_test "id") (values (table ns)) ≡ ok (map id_test ns)
unfolding subject_test prop
id_tests ns h = rw (values-table ns) (
    traverse-map node_value (subject_test "id") id_test ns
      (All-map ns (λ n v. rw v.has_id) (IsTable-All ns h)))

fqdn_tests :
    (ns : List Node)
    → IsTable ns
    → traverse (subject_test "fqdn") (values (table ns)) ≡ ok (map id_test ns)
unfolding subject_test prop
fqdn_tests ns h = rw (values-table ns) (
    traverse-map node_value (subject_test "fqdn") id_test ns
      (All-map ns (λ n v. rw v.has_fqdn) (IsTable-All ns h)))

-- The nodes whose identifier meets the given values.
run-id_test :
    (m : Mode) (ws : List Wanted) (q : Node → Bool) (ns : List Node)
    → IsTable ns
    → All (λ n. combine m (meets (n.id ∷ [])) ws ≡ q n) ns
    → run m (map as_value ws) (map id_test ns) ≡ ok (selected q ns)
run-id_test m ws q ns h same =
    run-keep m (map as_value ws) id_test q ns (both ns (IsTable-All ns h) same)
  where
    both :
        (ms : List Node)
        → All IsNode ms
        → All (λ n. combine m (meets (n.id ∷ [])) ws ≡ q n) ms
        → All (λ n. test_of m (map as_value ws) (id_test n) ≡ ok (q n)) ms
    both [] a b = tt
    both (n ∷ ms) a b =
        (test_of-texts m ws (id_test n) (one n.id) refl a.0.id_full ∙ ap ok b.0, both ms a.1 b.1)

-- Selections of the same nodes combine as their tests do.
run-selected :
    (m : Mode) (ps : List (Node → Bool)) (ns : List Node)
    → IsTable ns
    → run m (map (λ p. array (selected p ns)) ps) (map id_test ns)
      ≡ ok (selected (λ n. combine m (λ p. p n) ps) ns)
run-selected m ps ns h =
    let ws = map (λ (p : Node → Bool). many (ids (keep p ns))) ps in
    rw (← as_many ps) (
      run-id_test m ws _ ns h (
        All-map ns
          (λ n kept.
            combine-map m (meets (n.id ∷ [])) (λ p. many (ids (keep p ns))) ps
            ∙ combine_ext m _ (λ p. p n) ps (All-every ps kept))
          (All-swap (λ p n. is_kept p ns n ≡ p n) ns (λ p. is_kept-eq p ns h))))
  where
    as_many :
        (qs : List (Node → Bool))
        → map as_value (map (λ p. many (ids (keep p ns))) qs) ≡ map (λ p. array (selected p ns)) qs
    as_many [] = refl
    as_many (p ∷ qs) =
        ap₂ (λ (x : List Value) l. array x ∷ l) (map-map str (λ (n : Node). n.id) (keep p ns))
          (as_many qs)

pub keys-true_fields : (ks : List String) → keys (true_fields ks) ≡ ks
keys-true_fields [] = refl
keys-true_fields (k ∷ ks) = ap (λ l. k ∷ l) (keys-true_fields ks)

nodes_resolve-eq :
    (m : Mode) (names : List String) (ns : List Node)
    → IsTable ns
    → nodes_resolve (table ns) (encode (nodes_in m names))
      ≡ ok (array (selected (denote (nodes_in m names)) ns))
unfolding nodes_resolve encode denote object_keys get
nodes_resolve-eq m names ns h =
    rw (fqdn_tests ns h, keys-true_fields names, match_by-mode_name, ← map-one names)
      (rw (
        run-id_test m (map one names) (denote (nodes_in m names)) ns h (
          All-every ns (λ n.
            combine-one m (n.id ∷ []) names
            ∙ combine_ext m _ _ names (All-every names (λ s. ground arith))))))

-- The tests of one tag.
unfoldable pub tag_entry : String → Node → Test
tag_entry name n = record { subject = tag_subject (n.tagged name); output = str n.id }

pub tag_tests :
    (name : String) (ns : List Node)
    → IsTable ns
    → traverse (tag_test (table ns) name) (values (table ns)) ≡ ok (map (tag_entry name) ns)
unfolding tag_test prop at_id tag_entry
tag_tests name ns h = rw (values-table ns) (
    traverse-map node_value (tag_test (table ns) name) (tag_entry name) ns
      (each ns (IsTable-All ns h) (get-table ns h)))
  where
    each :
        (ms : List Node)
        → All IsNode ms
        → All (λ n. get n.id (table ns) ≡ node_value n) ms
        → All (λ n. tag_test (table ns) name (node_value n) ≡ ok (tag_entry name n)) ms
    each [] a b = tt
    each (n ∷ ms) a b = (rw (a.0.has_id, b.0, a.0.has_tags name), each ms a.1 b.1)

pub test_of-rule :
    (r : TagRule) (n : Node)
    → IsNode n
    → IsRead r n
    → test_of r.mode (map str r.wanted) (tag_entry r.name n) ≡ ok (rule_holds n r)
unfolding tag_entry
test_of-rule r n v read = elim (Option-cases (n.tagged r.name)) [
  | inl missing ↦
      test_of-undefined r.mode (map str r.wanted) (tag_entry r.name n) (rw missing)
        (λ e. read e missing)
      ∙ ap ok (sym (rw (missing, rule_holds)))
  | inr (w, found) ↦
      (rw (← map-one r.wanted) (
        test_of-texts r.mode (map one r.wanted) (tag_entry r.name n) w (rw found)
          (v.tags_full r.name w found)))
      ∙ ap ok (combine-one r.mode (members w) r.wanted)
      ∙ ap ok (sym (rw (found, rule_holds)))
]

outcomes :
    (name : String) (q : Node → Bool) (ns : List Node)
    → All IsNode ns
    → map (λ n. outcome (tag_entry name n)) (keep q ns) ≡ selected q ns
unfolding tag_entry
outcomes name q [] h = refl
outcomes name q (n ∷ ns) h = ground (arith, h.0.id_full, outcomes name q ns h.1)

tag_nodes-eq :
    (r : TagRule) (ns : List Node)
    → IsTable ns
    → All (IsRead r) ns
    → tag_nodes (table ns) r.name (rule_value r) ≡ ok (array (selected (λ n. rule_holds n r) ns))
unfolding tag_nodes prop object_keys get
tag_nodes-eq r ns h reads =
    rw
      (
        tag_tests r.name ns h,
        keys-true_fields r.wanted,
        match_by-mode_name,
        run-keep r.mode (map str r.wanted) (tag_entry r.name) (λ n. rule_holds n r) ns
            (each ns (IsTable-All ns h) reads),
      )
      (ap (λ l. ok (array l)) (outcomes r.name (λ n. rule_holds n r) ns (IsTable-All ns h)))
  where
    each :
        (ms : List Node)
        → All IsNode ms
        → All (IsRead r) ms
        → All (λ n. test_of r.mode (map str r.wanted) (tag_entry r.name n) ≡ ok (rule_holds n r)) ms
    each [] a b = tt
    each (n ∷ ms) a b = (test_of-rule r n a.0 b.0, each ms a.1 b.1)

tags_nodes-eq :
    (rules : List TagRule) (ns : List Node)
    → IsTable ns
    → All (λ r. All (IsRead r) ns) rules
    → tags_nodes (table ns) (rule_fields rules)
      ≡ ok (map (λ p. array (selected p ns)) (map (λ r n. rule_holds n r) rules))
unfolding tags_nodes
tags_nodes-eq [] ns h reads = refl
tags_nodes-eq (r ∷ rules) ns h reads =
    rw (tag_nodes-eq r ns h reads.0, tags_nodes-eq rules ns h reads.1)

tags_resolve-eq :
    (m : Mode) (rules : List TagRule) (ns : List Node)
    → IsTable ns
    → Supports ns (tags_in m rules)
    → tags_resolve (table ns) (encode (tags_in m rules))
      ≡ ok (array (selected (denote (tags_in m rules)) ns))
unfolding tags_resolve encode denote get Supports
tags_resolve-eq m rules ns h reads =
    rw
      (
        tags_nodes-eq rules ns h reads,
        id_tests ns h,
        match_by-mode_name,
        run-selected m (map (λ r n. rule_holds n r) rules) ns h,
      )
      (ap (λ q. ok (array (selected q ns)))
        (fun_ext (λ n. combine-map m (λ p. p n) (λ r n'. rule_holds n' r) rules)))

generic_value-encode :
    (rec : Kind → Fields → Result Value) (p : Policy)
    → generic_value rec (obj (encode p)) ≡ rec (kind p) (encode p)
unfolding generic_value resolve_value prop encode get kind_of
generic_value-encode rec (nodes_in m names) = refl
generic_value-encode rec (tags_in m rules) = refl
generic_value-encode rec (combined m ps) = refl

generic_resolve-eq :
    (rec : Kind → Fields → Result Value) (m : Mode) (ps : Policies) (ns : List Node)
    → IsTable ns
    → traverse (generic_value rec) (items (encodes ps))
      ≡ ok (map (λ p. array (selected p ns)) (denotes ps))
    → generic_resolve rec (table ns) (encode (combined m ps))
      ≡ ok (array (selected (denote (combined m ps)) ns))
unfolding generic_resolve encode denote get elements
generic_resolve-eq rec m ps ns h each =
    rw (id_tests ns h, each, match_by-mode_name, run-selected m (denotes ps) ns h)

mutual
  unfolding resolve depth Supports denote encode

  resolve-eq :
      (p : Policy) (f : ℕ) (ns : List Node)
      → depth p < f
      → IsTable ns
      → Supports ns p
      → resolve f (table ns) (kind p) (encode p) ≡ ok (array (selected (denote p) ns))
  resolve-eq p zero ns small h reads = elim small [ ]
  resolve-eq (nodes_in m names) (suc f) ns small h reads = nodes_resolve-eq m names ns h
  resolve-eq (tags_in m rules) (suc f) ns small h reads = tags_resolve-eq m rules ns h reads
  resolve-eq (combined m ps) (suc f) ns small h reads =
      generic_resolve-eq (resolve f (table ns)) m ps ns h (values-eq ps f ns (omega arith) h reads)

  pub values-eq :
      (ps : Policies) (f : ℕ) (ns : List Node)
      → depths ps < f
      → IsTable ns
      → SupportsEach ns ps
      → traverse (generic_value (resolve f (table ns))) (items (encodes ps))
        ≡ ok (map (λ p. array (selected p ns)) (denotes ps))
  values-eq no_more f ns small h reads = refl
  values-eq (also p ps) f ns small h reads = rw (
    generic_value-encode (resolve f (table ns)) p,
    resolve-eq p f ns (omega arith) h reads.0,
    values-eq ps f ns (omega arith) h reads.1,
  )

-- For nodes with distinct identifiers, which are their `fqdn` too, `resolve` of the object that
-- encodes a policy returns exactly the identifiers of the nodes that satisfy the policy, in the
-- order of the nodes, with any fuel above the depth of nesting; a tag that is matched by `none` has
-- to be set at every node.
pub resolve_refines :
    (p : Policy) (f : ℕ) (ns : List Node)
    → depth p < f
    → IsTable ns
    → Supports ns p
    → resolve f (table ns) (kind p) (encode p) ≡ ok (array (selected (denote p) ns))
resolve_refines = resolve-eq
