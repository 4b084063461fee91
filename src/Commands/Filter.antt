-- ===== src/Commands/Filter.antt =====
-- The filters of commands/clusters.js, and what commands/exec.js has in common with them. `minimatch` is the package of that
-- name; it takes texts only, and throws on any other value.
pub mod Laws
use ryba.Base.{
  ℕ, String, ◌==◌, Bool, true, false, not, List, [], ◌∷◌, Option, none, some, length, ◌=ℕ◌,
  if◌then◌else◌,
}
use ryba.Js.{
  Value, str, arr, items, get, prop, truthy, Result, ok, err, ◌>>=◌, ◌>>◌, traverse, type_error,
}
use ryba.Text.{split}
use ryba.Util.{multimatch, many}
use ryba.Config.{Node}

abbrev pub equals : ℕ
equals = b'='

abbrev pub comma : ℕ
comma = b','

unfoldable pub text : Value → Result String
text (str s) = ok s
text v = err type_error

-- The texts of `node.tags[key] || []`: one text or an array of them.
unfoldable pub tag_values : Value → Result (List String)
tag_values (arr vs) = traverse text (items vs)
tag_values v = if truthy v then (text v >>= λ s. ok (s ∷ [])) else ok []

-- `[key, value] = tag.split('=')`
abbrev pub key_value : List String → String × Option String
key_value [] = ("", none)
key_value (key ∷ []) = (key, none)
key_value (key ∷ value ∷ more) = (key, some value)

-- `value.split(',')`
unfoldable pub tag_patterns : Option String → Result (List String)
tag_patterns none = err type_error
tag_patterns (some value) = ok (split comma value)

-- `params.tags || {}`, of which the elements are read.
abbrev pub given : Option (List String) → List String
given none = []
given (some texts) = texts

module _ (minimatch : String → String → Bool) where
  -- `multimatch(list, patterns).length`, tested
  abbrev pub is_match : List String → List String → Bool
  is_match list patterns = not (length (multimatch minimatch (many list) (many patterns)) =ℕ 0)

  -- The test of one tag in the loops over `params.tags`.
  unfoldable pub has_tag : Node → String → Result Bool
  has_tag n tag = do
    let (key, value) = key_value (split equals tag)
    found ← prop (get "tags" n.others) key
    list ← tag_values found
    patterns ← tag_patterns value
    ok (is_match list patterns)

  -- The loop, which leaves the node at the first tag that it has not.
  unfoldable pub has_tags : Node → List String → Result Bool
  has_tags n [] = ok true
  has_tags n (tag ∷ tags) = has_tag n tag >>= λ found. if found then has_tags n tags else ok false

  unfoldable pub any_match : List Value → List String → Result Bool
  any_match vs [] = ok false
  any_match vs (pattern ∷ patterns) =
      traverse text vs >>= λ list. ok (is_match list (pattern ∷ patterns))

  -- `!patterns || multimatch(values, patterns).length`
  unfoldable pub option_match : List Value → Option (List String) → Result Bool
  option_match vs none = ok true
  option_match vs (some patterns) = any_match vs patterns
