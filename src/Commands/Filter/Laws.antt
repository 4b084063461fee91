-- ===== src/Commands/Filter/Laws.antt =====
-- Loops whose callback does not throw.
use ryba.Base.{◌≡◌, inl, inr, refl, Bool, List, [], ◌∷◌, map, All, Bool-cases, keep}
use ryba.Js.{Result, ok, traverse, filter_ok}

module _ {ℓ} {A : Type ℓ} where
  pub filter_ok-keep :
      (p : A → Result Bool) (q : A → Bool) (xs : List A)
      → All (λ x. p x ≡ ok (q x)) xs
      → filter_ok p xs ≡ ok (keep q xs)
  filter_ok-keep p q [] h = refl
  filter_ok-keep p q (x ∷ xs) h = elim (Bool-cases (q x)) [
    | inl kept ↦ rw (h.0, kept, filter_ok-keep p q xs h.1) refl
    | inr dropped ↦ rw (h.0, dropped, filter_ok-keep p q xs h.1) refl
  ]

  pub traverse-map {κ} :
      {B : Type κ} (f : A → Result B) (g : A → B) (xs : List A)
      → All (λ x. f x ≡ ok (g x)) xs
      → traverse f xs ≡ ok (map g xs)
  traverse-map f g [] h = refl
  traverse-map f g (x ∷ xs) h = rw (h.0, traverse-map f g xs h.1) refl

  pub All-keep {κ} : (P : A → Type κ) (q : A → Bool) (xs : List A) → All P xs → All P (keep q xs)
  All-keep P q [] h = tt
  All-keep P q (x ∷ xs) h = elim (Bool-cases (q x)) [
    | inl kept ↦ rw kept (h.0, All-keep P q xs h.1)
    | inr dropped ↦ rw dropped (All-keep P q xs h.1)
  ]
