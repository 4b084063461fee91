-- ===== src/Affinity/Match/Laws.antt =====
-- What the functions of `match` compute where the values are texts or arrays of texts.
use ryba.Base.{
  String, ◌==◌, ◌≡◌, refl, ap, ◌≢◌, Bool, true, false, not, ◌&&◌, ◌||◌, List, [], ◌∷◌, map, any,
  all, keep, All, contains, arith,
}
use ryba.Js.{
  Value, str, undefined, Result, ok, array, truthy, strict_eq, elements, filter_ok, items, to_items,
  traverse,
}
use ryba.Affinity.Match.{
  Test, includes, includes, all_test, any_test, none_test, any_loop, any_of, all_test, any_test,
  none_test, wrap, all_loop, some_loop, none_loop, outcome, Mode, to_all, to_any, to_none, test_of,
  run, match_by,
}

-- A text, or an array of texts.
pub data Wanted : Type 0 where
  one : String → Wanted
  many : List String → Wanted

abbrev pub as_value : Wanted → Value
as_value (one s) = str s
as_value (many ss) = array (map str ss)

abbrev pub members : Wanted → List String
members (one s) = s ∷ []
members (many ss) = ss

-- Some member is among the given texts.
abbrev pub meets : List String → Wanted → Bool
meets bs w = any (contains bs) (members w)

-- The test of a mode, over the tests of the single values.
abbrev pub combine {ℓ} : {A : Type ℓ} → Mode → (A → Bool) → List A → Bool
combine to_all p xs = all p xs
combine to_any p xs = any p xs
combine to_none p xs = not (any p xs)

pub items-to_items : (vs : List Value) → items (to_items vs) ≡ vs
items-to_items [] = refl
items-to_items (v ∷ vs) = ap (λ l. v ∷ l) (items-to_items vs)

any-strict_eq :
    (bs : List String) (a : String) → any (λ x. strict_eq x (str a)) (map str bs) ≡ contains bs a
unfolding strict_eq
any-strict_eq [] a = refl
any-strict_eq (b ∷ bs) a = ap (λ h. (b == a) || h) (any-strict_eq bs a)

includes-texts :
    (bs : List String) (a : String) → includes (array (map str bs)) (str a) ≡ ok (contains bs a)
unfolding includes elements
includes-texts bs a = rw (items-to_items (map str bs)) (ap ok (any-strict_eq bs a))

any_loop-texts :
    (xs bs : List String) → any_loop (map str xs) (array (map str bs)) ≡ ok (any (contains bs) xs)
unfolding any_loop
any_loop-texts [] bs = refl
any_loop-texts (a ∷ xs) bs = rw (includes-texts bs a) (ground (arith, any_loop-texts xs bs))

any_of-texts :
    (w : Wanted) (bs : List String)
    → any_of (wrap (as_value w)) (array (map str bs)) ≡ ok (meets bs w)
unfolding any_of elements
any_of-texts (one s) bs = any_loop-texts (s ∷ []) bs
any_of-texts (many ss) bs = rw (items-to_items (map str ss)) (any_loop-texts ss bs)

module _ (bs : List String) where
  all_loop-texts :
      (ws : List Wanted) (hit : Bool)
      → all_loop (map as_value ws) (array (map str bs)) hit ≡ ok (hit && all (meets bs) ws)
  unfolding all_loop
  all_loop-texts [] true = refl
  all_loop-texts [] false = refl
  all_loop-texts (w ∷ ws) hit =
      rw (any_of-texts w bs) (ground (arith, all_loop-texts ws hit, all_loop-texts ws false))

  some_loop-texts :
      (ws : List Wanted) → some_loop (map as_value ws) (array (map str bs)) ≡ ok (any (meets bs) ws)
  unfolding some_loop
  some_loop-texts [] = refl
  some_loop-texts (w ∷ ws) = rw (any_of-texts w bs) (ground (arith, some_loop-texts ws))

  none_loop-texts :
      (ws : List Wanted)
      → none_loop (map as_value ws) (array (map str bs)) ≡ ok (not (any (meets bs) ws))
  unfolding none_loop
  none_loop-texts [] = refl
  none_loop-texts (w ∷ ws) = rw (any_of-texts w bs) (ground (arith, none_loop-texts ws))

wrap-as_value : (w : Wanted) → wrap (as_value w) ≡ array (map str (members w))
wrap-as_value (one s) = refl
wrap-as_value (many ss) = refl

-- A test whose subject is a text or an array of texts, in every mode.
pub test_of-texts :
    (m : Mode) (ws : List Wanted) (t : Test) (w : Wanted)
    → t.subject ≡ as_value w
    → truthy (as_value w) ≡ true
    → test_of m (map as_value ws) t ≡ ok (combine m (meets (members w)) ws)
unfolding test_of all_test any_test none_test
test_of-texts to_all ws t w same full =
    rw (same, full, wrap-as_value w) (all_loop-texts (members w) ws true)
test_of-texts to_any ws t w same full =
    rw (same, full, wrap-as_value w) (some_loop-texts (members w) ws)
test_of-texts to_none ws t w same full = rw (same, wrap-as_value w) (none_loop-texts (members w) ws)

-- With no subject the modes `all` and `any` are not met.
pub test_of-undefined :
    (m : Mode) (vs : List Value) (t : Test)
    → t.subject ≡ undefined
    → m ≢ to_none
    → test_of m vs t ≡ ok false
unfolding test_of all_test any_test
test_of-undefined to_all vs t same other = rw same
test_of-undefined to_any vs t same other = rw same
test_of-undefined to_none vs t same other = absurd (other refl)

module _ {A : Type 0} where
  filter_ok-map :
      {B : Type 0} (f : A → B) (p : B → Result Bool) (q : A → Bool) (xs : List A)
      → All (λ x. p (f x) ≡ ok (q x)) xs
      → filter_ok p (map f xs) ≡ ok (map f (keep q xs))
  filter_ok-map f p q [] h = refl
  filter_ok-map f p q (x ∷ xs) h = rw (h.0, filter_ok-map f p q xs h.1) (ground arith)

  pub map-map :
      {B C : Type 0} (g : B → C) (f : A → B) (xs : List A)
      → map g (map f xs) ≡ map (λ x. g (f x)) xs
  map-map g f [] = refl
  map-map g f (x ∷ xs) = ap (λ l. g (f x) ∷ l) (map-map g f xs)

  -- The functions of `match` keep the entries that meet their test, in order.
  pub run-keep :
      (m : Mode) (vs : List Value) (f : A → Test) (q : A → Bool) (xs : List A)
      → All (λ x. test_of m vs (f x) ≡ ok (q x)) xs
      → run m vs (map f xs) ≡ ok (map (λ x. outcome (f x)) (keep q xs))
  unfolding run
  run-keep m vs f q xs h =
      rw (filter_ok-map f (test_of m vs) q xs h) (ap ok (map-map outcome f (keep q xs)))

  pub traverse-map :
      {B C : Type 0} (f : A → B) (g : B → Result C) (k : A → C) (xs : List A)
      → All (λ x. g (f x) ≡ ok (k x)) xs
      → traverse g (map f xs) ≡ ok (map k xs)
  traverse-map f g k [] h = refl
  traverse-map f g k (x ∷ xs) h = rw (h.0, traverse-map f g k xs h.1)

abbrev pub mode_name : Mode → String
mode_name to_all = "all"
mode_name to_any = "any"
mode_name to_none = "none"

pub match_by-mode_name :
    (m : Mode) (vs : List Value) (ts : List Test) → match_by (str (mode_name m)) vs ts ≡ run m vs ts
unfolding match_by
match_by-mode_name to_all vs ts = refl
match_by-mode_name to_any vs ts = refl
match_by-mode_name to_none vs ts = refl
