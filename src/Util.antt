-- ===== src/Util.antt =====
-- legacy/masson/lib/utils: flatten.js, unique.js, multimatch.js and array_get.js.
pub mod Laws
use ryba.Base.{String, Bool, List, [], ◌∷◌, ◌++◌, any, keep}
use ryba.Js.{
  Value, arr, Items, nil, cons, Fields, end, keys, put_true, Result, ok, err, found_no_element,
  found_more_than_one,
}

-- flatten.js: the loop pushes on `ret` what is no array, and goes down into what is one.
unfoldable mutual
  pub flatten_value : Value → List Value → List Value
  flatten_value (arr vs) ret = flatten vs ret
  flatten_value v ret = ret ++ v ∷ []

  pub flatten : Items → List Value → List Value
  flatten nil ret = ret
  flatten (cons v vs) ret = flatten vs (flatten_value v ret)

-- unique.js
unfoldable pub unique : List String → List String
unique array = keys (put_true array end)

-- An argument that is an array or a single value.
pub data OneOrMany : Type 0 where
  one : String → OneOrMany
  many : List String → OneOrMany

-- `if (!Array.isArray(list)) list = [list]`
abbrev pub to_array : OneOrMany → List String
to_array (one s) = s ∷ []
to_array (many ss) = ss

-- multimatch.js. `minimatch el pattern` is the package of that name, with its options.
unfoldable pub multimatch : (String → String → Bool) → OneOrMany → OneOrMany → List String
multimatch minimatch list patterns =
    keep (λ el. any (λ pattern. minimatch el pattern) (to_array patterns)) (to_array list)

-- The tests of array_get.js on what it has found.
unfoldable pub only {ℓ} : {A : Type ℓ} → List A → Result A
only [] = err found_no_element
only (x ∷ []) = ok x
only (x ∷ y ∷ more) = err found_more_than_one

-- array_get.js, for an array and a function.
unfoldable pub array_get {ℓ} : {A : Type ℓ} → List A → (A → Bool) → Result A
array_get elements search = only (keep search elements)
