-- ===== src/Normalize/Graph/Sample.antt =====
-- A sorter for the tests: it gives the nodes in the order of the calls, each once, where that is an
-- order that meets the calls.
use ryba.Base.{
  String, ◌≡◌, subst, Bool, true, not, ◌&&◌, List, [], ◌∷◌, all, contains, All, Bool-cases, inl,
  inr, arith, if◌then◌else◌,
}
use ryba.Js.{Result, ok, err, type_error}
use ryba.Js.Laws.{ok-injective}
use ryba.Util.Laws.{IsUnique}
use ryba.Normalize.Graph.{Call, add_node, add_edge}
use ryba.Normalize.Graph.Laws.{IsMet, IsSorter, precedes}

abbrev met : List String → Call → Bool
met order (add_node a) = contains order a
met order (add_edge a b) = precedes a b order

abbrev added : List Call → List String
added [] = []
added (add_node a ∷ calls) = a ∷ added calls
added (add_edge a b ∷ calls) = added calls

abbrev is_unique : List String → Bool
is_unique [] = true
is_unique (x ∷ xs) = not (contains xs x) && is_unique xs

abbrev pub tsort : List Call → Result (List String)
tsort calls =
    if is_unique (added calls) && all (met (added calls)) calls
    then ok (added calls)
    else err type_error

all-IsMet :
    (order : List String) (calls : List Call)
    → all (met order) calls ≡ true
    → All (IsMet order) calls
all-IsMet order [] h = tt
all-IsMet order (add_node a ∷ calls) h = (ground arith, all-IsMet order calls (ground arith))
all-IsMet order (add_edge a b ∷ calls) h = (ground arith, all-IsMet order calls (ground arith))

is_unique-IsUnique : (xs : List String) → is_unique xs ≡ true → IsUnique xs
is_unique-IsUnique [] h = tt
is_unique-IsUnique (x ∷ xs) h = (ground arith, is_unique-IsUnique xs (ground arith))

pub tsort-IsSorter : IsSorter tsort
tsort-IsSorter calls order h =
    elim (Bool-cases (is_unique (added calls) && all (met (added calls)) calls)) [
      | inl fine ↦
          subst (λ o. All (IsMet o) calls) (ok-injective (rw fine at h))
            (all-IsMet (added calls) calls (ground arith))
      | inr bad ↦ absurd (cc (rw bad at h))
    ]

pub tsort-IsUnique :
    (calls : List Call) (order : List String) → tsort calls ≡ ok order → IsUnique order
tsort-IsUnique calls order h =
    elim (Bool-cases (is_unique (added calls) && all (met (added calls)) calls)) [
      | inl fine ↦
          subst IsUnique (ok-injective (rw fine at h))
            (is_unique-IsUnique (added calls) (ground arith))
      | inr bad ↦ absurd (cc (rw bad at h))
    ]
