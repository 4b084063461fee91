-- ===== src/Normalize/Ordering/Laws.antt =====
-- The services of a node are reordered and nothing else, and they stand in the order of the graph.
use ryba.Base.{
  ℕ, ◌≤◌, String, ◌≡◌, refl, List, [], ◌∷◌, All, keep, arith, ltb, ◌=ℕ◌, Bool, true, false, not,
  ◌&&◌, ◌||◌, contains, ◌==◌, if◌then◌else◌, Bool-cases, inl, inr, ◌∙◌,
}
use mathlib.Core.List.{Perm}
use mathlib.Core.List.Perm
use ryba.Config.{NodeService, service_key}
use ryba.Normalize.Ordering.{index_of, rank, insert_by, sort_services}

-- Of two keys that are listed, the first one listed is `a`.
abbrev pub comes_first : String → String → List String → Bool
comes_first a b [] = false
comes_first a b (x ∷ xs) = if x == a then true else if x == b then false else comes_first a b xs

abbrev pub is_before : String → String → List String → Bool
is_before a b graph = not (contains graph a) || (contains graph b && comes_first a b graph)

index_of-contains :
    (key : String) (graph : List String) → (index_of key graph =ℕ 0) ≡ not (contains graph key)
unfolding index_of
index_of-contains key [] = refl
index_of-contains key (x ∷ xs) = ground (arith, index_of-contains key xs)

comes_first-index_of :
    (a b : String) (graph : List String)
    → contains graph a ≡ true
    → contains graph b ≡ true
    → index_of a graph ≤ index_of b graph
    → comes_first a b graph ≡ true
unfolding index_of
comes_first-index_of a b [] h k le = absurd (cc h)
comes_first-index_of a b (x ∷ xs) h k le =
    ground (arith, index_of-contains a xs, index_of-contains b xs, comes_first-index_of a b xs)

is_before-index_of :
    (a b : String) (graph : List String)
    → index_of a graph ≤ index_of b graph
    → is_before a b graph ≡ true
is_before-index_of a b graph le =
    ground
      (arith, index_of-contains a graph, index_of-contains b graph, comes_first-index_of a b graph)

module _ (graph : List String) where
  -- Each entry ranks before those behind it.
  abbrev IsRanked : List NodeService → Type 0
  IsRanked [] = Unit
  IsRanked (s ∷ services) = All (λ t. rank graph s ≤ rank graph t) services × IsRanked services

  -- Each entry is not listed in the graph, or is listed there before those behind it.
  abbrev pub IsSorted : List NodeService → Type 0
  IsSorted [] = Unit
  IsSorted (s ∷ services) =
      All
        (λ t.
          is_before (service_key s.cluster s.service) (service_key t.cluster t.service) graph
          ≡ true)
        services
      × IsSorted services

  -- The entries whose key stands at one place of the graph, or at none.
  abbrev pub ranked : ℕ → List NodeService → List NodeService
  ranked k services = keep (λ s. index_of (service_key s.cluster s.service) graph =ℕ k) services

  insert_by-perm : (s : NodeService) (ts : List NodeService) → Perm (insert_by graph s ts) (s ∷ ts)
  unfolding insert_by
  insert_by-perm s [] = Perm.rfl
  insert_by-perm s (t ∷ ts) = elim (Bool-cases (ltb (rank graph t) (rank graph s))) [
    | inl before ↦ rw before (Perm.trans (Perm.cons t (insert_by-perm s ts)) (Perm.swap s t ts))
    | inr behind ↦ rw behind Perm.rfl
  ]

  sort_services-perm : (services : List NodeService) → Perm (sort_services graph services) services
  unfolding sort_services
  sort_services-perm [] = Perm.rfl
  sort_services-perm (s ∷ services) =
      Perm.trans (insert_by-perm s (sort_services graph services))
        (Perm.cons s (sort_services-perm services))

  insert_by-All :
      (k : ℕ) (s : NodeService) (ts : List NodeService)
      → k ≤ rank graph s
      → All (λ t. k ≤ rank graph t) ts
      → All (λ t. k ≤ rank graph t) (insert_by graph s ts)
  unfolding insert_by
  insert_by-All k s [] h a = (h, tt)
  insert_by-All k s (t ∷ ts) h a = elim (Bool-cases (ltb (rank graph t) (rank graph s))) [
    | inl before ↦ rw before (a.0, insert_by-All k s ts h a.1)
    | inr behind ↦ rw behind (h, a)
  ]

  All-le :
      (j k : ℕ) (ts : List NodeService)
      → j ≤ k
      → All (λ t. k ≤ rank graph t) ts
      → All (λ t. j ≤ rank graph t) ts
  All-le j k [] h a = tt
  All-le j k (t ∷ ts) h a = (omega arith, All-le j k ts h a.1)

  insert_by-IsRanked :
      (s : NodeService) (ts : List NodeService) → IsRanked ts → IsRanked (insert_by graph s ts)
  unfolding insert_by
  insert_by-IsRanked s [] h = (tt, tt)
  insert_by-IsRanked s (t ∷ ts) h = elim (Bool-cases (ltb (rank graph t) (rank graph s))) [
    | inl before ↦
        rw before
          (insert_by-All (rank graph t) s ts (ground arith) h.0, insert_by-IsRanked s ts h.1)
    | inr behind ↦
        let le : rank graph s ≤ rank graph t = ground arith in
        rw behind ((le, All-le (rank graph s) (rank graph t) ts le h.0), h)
  ]

  sort_services-IsRanked : (services : List NodeService) → IsRanked (sort_services graph services)
  unfolding sort_services
  sort_services-IsRanked [] = tt
  sort_services-IsRanked (s ∷ services) =
      insert_by-IsRanked s (sort_services graph services) (sort_services-IsRanked services)

  All-is_before :
      (s : NodeService) (ts : List NodeService)
      → All (λ t. rank graph s ≤ rank graph t) ts
      → All
          (λ t.
            is_before (service_key s.cluster s.service) (service_key t.cluster t.service) graph
            ≡ true)
          ts
  All-is_before s [] h = tt
  All-is_before s (t ∷ ts) h = (
    is_before-index_of (service_key s.cluster s.service) (service_key t.cluster t.service) graph
        h.0,
    All-is_before s ts h.1,
  )

  IsSorted-IsRanked : (services : List NodeService) → IsRanked services → IsSorted services
  IsSorted-IsRanked [] h = tt
  IsSorted-IsRanked (s ∷ services) h =
      (All-is_before s services h.0, IsSorted-IsRanked services h.1)

  ranked-insert_by :
      (k : ℕ) (s : NodeService) (ts : List NodeService)
      → ranked k (insert_by graph s ts) ≡ ranked k (s ∷ ts)
  unfolding insert_by
  ranked-insert_by k s [] = refl
  ranked-insert_by k s (t ∷ ts) = ground (arith, ranked-insert_by k s ts)

  ranked-sort_services :
      (k : ℕ) (services : List NodeService)
      → ranked k (sort_services graph services) ≡ ranked k services
  unfolding sort_services
  ranked-sort_services k [] = refl
  ranked-sort_services k (s ∷ services) =
      ranked-insert_by k s (sort_services graph services)
      ∙ ground (arith, ranked-sort_services k services)

  -- The services of a node are put in the order of the graph: the same entries, first those that the graph
  -- does not list and then the others as it lists their keys, and entries of the same key, or that
  -- are not listed, in the order that they had.
  pub sort_services_lem :
      (services : List NodeService)
      → Perm (sort_services graph services) services
        × IsSorted (sort_services graph services)
        × ((k : ℕ) → ranked k (sort_services graph services) ≡ ranked k services)
  sort_services_lem services = (
    sort_services-perm services,
    IsSorted-IsRanked (sort_services graph services) (sort_services-IsRanked services),
    λ k. ranked-sort_services k services,
  )
