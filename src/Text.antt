-- ===== src/Text.antt =====
-- `text.split(separator)`, for a separator of one character, and its inverse on parts that do not
-- hold the separator.
use Prim.Native.Char.{Char, code}
use Prim.Native.String
use text.Mathlib.TextLemmas.{nil-append, cons-append}
use ryba.Base.{
  ℕ, String, ◌=ℕ◌, ◌≡◌, refl, ap, Bool, true, List, [], ◌∷◌, arith, if◌then◌else◌, ◌∙◌, ◌&&◌, not,
}

infixr 65 ◌^^◌
abbrev pub ◌^^◌ : String → String → String
s ^^ t = String.◌++◌ s t

-- A character in front of the first part.
abbrev on_first : Char → List String → List String
on_first c [] = []
on_first c (s ∷ parts) = String.◌∷◌ c s ∷ parts

unfoldable pub split : ℕ → String → List String
split sep String.[] = "" ∷ []
split sep (String.◌∷◌ c s) =
    let parts = split sep s in if code c =ℕ sep then "" ∷ parts else on_first c parts

-- The text does not hold the character.
abbrev pub lacks : ℕ → String → Bool
lacks sep String.[] = true
lacks sep (String.◌∷◌ c s) = not (code c =ℕ sep) && lacks sep s

pub split-lacks : (sep : ℕ) (s : String) → lacks sep s ≡ true → split sep s ≡ s ∷ []
unfolding split
split-lacks sep String.[] h = refl
split-lacks sep (String.◌∷◌ c s) h = ground (arith, split-lacks sep s)

-- The key of a service in the graph: `${cluster}:${service}`.
abbrev pub colon : ℕ
colon = b':'

colon_char : Char
colon_char = ":"

colon-append : (t : String) → ":" ^^ t ≡ String.◌∷◌ colon_char t
unfolding colon_char
colon-append t = cons-append colon_char String.[] t ∙ ap (String.◌∷◌ colon_char) (nil-append t)

pub split-join :
    (s t : String)
    → lacks colon s ≡ true
    → lacks colon t ≡ true
    → split colon (s ^^ (":" ^^ t)) ≡ s ∷ t ∷ []
unfolding split colon_char
split-join String.[] t h k =
    rw (nil-append (":" ^^ t), colon-append t) (ap (λ l. "" ∷ l) (split-lacks colon t k))
split-join (String.◌∷◌ c s) t h k = rw (cons-append c s (":" ^^ t)) (ground (arith, split-join s t))

-- `text.split(".")[0]`
abbrev pub dot : ℕ
dot = b'.'

abbrev first_of : List String → String
first_of [] = ""
first_of (s ∷ parts) = s

unfoldable pub first_label : String → String
first_label s = first_of (split dot s)
