-- ===== src/Affinity/Policy/Table.antt =====
-- `config.nodes` with its nodes under distinct identifiers.
use ryba.Base.{
  String, ◌==◌, eq_iff, eq_refl, ◌≡◌, refl, ap, Bool, false, List, [], ◌∷◌, map, any, keep, All,
  contains, arith,
}
use ryba.Js.{Value, obj, Fields, end, field, get, values}
use ryba.Affinity.Match.Laws.{many, meets}
use ryba.Affinity.Policy.{Node, IsNode}

abbrev pub node_value : Node → Value
node_value n = obj n.fields

abbrev pub table : List Node → Fields
table [] = end
table (n ∷ ns) = field n.id (node_value n) (table ns)

abbrev pub ids : List Node → List String
ids ns = map (λ n. n.id) ns

abbrev pub IsTable : List Node → Type 0
IsTable [] = Unit
IsTable (n ∷ ns) = IsNode n × (contains (ids ns) n.id ≡ false) × IsTable ns

pub All-map {ℓ κ} :
    {A : Type ℓ} {P Q : A → Type κ} (xs : List A) → ((x : A) → P x → Q x) → All P xs → All Q xs
All-map [] f h = tt
All-map (x ∷ xs) f h = (f x h.0, All-map xs f h.1)

pub IsTable-All : (ns : List Node) → IsTable ns → All IsNode ns
IsTable-All [] h = tt
IsTable-All (n ∷ ns) h = (h.0, IsTable-All ns h.2)

pub values-table : (ns : List Node) → values (table ns) ≡ map node_value ns
values-table [] = refl
values-table (n ∷ ns) = ap (λ l. node_value n ∷ l) (values-table ns)

-- The identifiers differ from one that is not listed.
pub ids_ne :
    (ns : List Node) (s : String)
    → contains (ids ns) s ≡ false
    → All (λ n. ((n.id == s) ≡ false) × ((s == n.id) ≡ false)) ns
ids_ne [] s h = tt
ids_ne (n ∷ ns) s h =
    ((ground arith, ground (arith, eq_iff n.id s, eq_iff s n.id)), ids_ne ns s (ground arith))

-- A node is found under its identifier.
pub get-table : (ns : List Node) → IsTable ns → All (λ n. get n.id (table ns) ≡ node_value n) ns
unfolding get
get-table [] h = tt
get-table (n ∷ ns) h =
    (ground (arith, eq_refl n.id), later ns (get-table ns h.2) (ids_ne ns n.id h.1))
  where
    later :
        (ms : List Node)
        → All (λ m. get m.id (table ns) ≡ node_value m) ms
        → All (λ m. ((m.id == n.id) ≡ false) × ((n.id == m.id) ≡ false)) ms
        → All (λ m. get m.id (table (n ∷ ns)) ≡ node_value m) ms
    later [] a b = tt
    later (m ∷ ms) a b = (ground arith, later ms a.1 b.1)

-- Whether a node's identifier is among those kept: whether the node is.
abbrev pub is_kept : (Node → Bool) → List Node → Node → Bool
is_kept p ns n = meets (n.id ∷ []) (many (ids (keep p ns)))

not_kept :
    (p : Node → Bool) (ns : List Node) (s : String)
    → contains (ids ns) s ≡ false
    → any (contains (s ∷ [])) (ids (keep p ns)) ≡ false
not_kept p [] s h = refl
not_kept p (n ∷ ns) s h = ground (arith, not_kept p ns s, eq_iff n.id s, eq_iff s n.id)

pub is_kept-eq :
    (p : Node → Bool) (ns : List Node) → IsTable ns → All (λ n. is_kept p ns n ≡ p n) ns
is_kept-eq p [] h = tt
is_kept-eq p (n ∷ ns) h = (
  ground (arith, eq_refl n.id, not_kept p ns n.id h.1),
  later ns (is_kept-eq p ns h.2) (ids_ne ns n.id h.1),
)
  where
    later :
        (ms : List Node)
        → All (λ m. is_kept p ns m ≡ p m) ms
        → All (λ m. ((m.id == n.id) ≡ false) × ((n.id == m.id) ≡ false)) ms
        → All (λ m. is_kept p (n ∷ ns) m ≡ p m) ms
    later [] a b = tt
    later (m ∷ ms) a b = (ground arith, later ms a.1 b.1)
