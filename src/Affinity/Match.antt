-- ===== src/Affinity/Match.antt =====
-- The functions `match.all`, `match.any`, `match.none` and `any` of affinities.js.
pub mod Laws
use ryba.Base.{
  String, ◌==◌, Bool, true, false, List, [], ◌∷◌, map, any, Option, none, some, if◌then◌else◌,
}
use ryba.Js.{
  Value, str, Result, ok, err, type_error, ◌>>=◌, array, truthy, strict_eq, elements, filter_ok,
}

-- An entry of `tests`; a missing `output` is `undefined`.
pub record Test : Type 0 where
  pub subject : Value
  pub output : Value

-- `indexOf.call(b, a) >= 0`
unfoldable pub includes : Value → Value → Result Bool
includes b a = elements b >>= λ bs. ok (any (λ x. strict_eq x a) bs)

-- The loop of `any` over the elements of `a`.
unfoldable pub any_loop : List Value → Value → Result Bool
any_loop [] b = ok false
any_loop (a ∷ more) b = includes b a >>= λ found. if found then ok true else any_loop more b

unfoldable pub any_of : Value → Value → Result Bool
any_of a b = elements a >>= λ vs. any_loop vs b

-- `if (typeof v === "string") v = [v]`
abbrev pub wrap : Value → Value
wrap (str s) = array (str s ∷ [])
wrap v = v

-- The loop of `all` goes on after a value that misses: a later value may still throw.
unfoldable pub all_loop : List Value → Value → Bool → Result Bool
all_loop [] subject hit = ok hit
all_loop (v ∷ vs) subject hit =
    any_of (wrap v) subject >>= λ found. all_loop vs subject (if found then hit else false)

unfoldable pub some_loop : List Value → Value → Result Bool
some_loop [] subject = ok false
some_loop (v ∷ vs) subject =
    any_of (wrap v) subject >>= λ found. if found then ok true else some_loop vs subject

unfoldable pub none_loop : List Value → Value → Result Bool
none_loop [] subject = ok true
none_loop (v ∷ vs) subject =
    any_of (wrap v) subject >>= λ found. if found then ok false else none_loop vs subject

-- `test.output || test.subject`
abbrev pub outcome : Test → Value
outcome t = if truthy t.output then t.output else t.subject

-- The callbacks of the three filters. `none` does not ask for a subject.
unfoldable pub all_test : List Value → Test → Result Bool
all_test vs t = if truthy t.subject then all_loop vs (wrap t.subject) true else ok false

unfoldable pub any_test : List Value → Test → Result Bool
any_test vs t = if truthy t.subject then some_loop vs (wrap t.subject) else ok false

unfoldable pub none_test : List Value → Test → Result Bool
none_test vs t = none_loop vs (wrap t.subject)

pub data Mode : Type 0 where
  to_all to_any to_none : Mode

unfoldable pub test_of : Mode → List Value → Test → Result Bool
test_of to_all = all_test
test_of to_any = any_test
test_of to_none = none_test

-- `match.all`, `match.any` and `match.none`
unfoldable pub run : Mode → List Value → List Test → Result (List Value)
run m vs tests = filter_ok (test_of m vs) tests >>= λ ts. ok (map outcome ts)

-- The key of `match[… || "all"]`; a name that `match` does not have is no function.
abbrev pub mode_named : String → Option Mode
mode_named s =
    if s == "all"
    then some to_all
    else if s == "any"
    then some to_any
    else if s == "none"
    then some to_none
    else none

abbrev pub mode_of : Value → Option Mode
mode_of (str s) = if s == "" then some to_all else mode_named s
mode_of v = if truthy v then none else some to_all

-- `match[m || "all"](vs, tests)`
unfoldable pub match_by : Value → List Value → List Test → Result (List Value)
match_by m vs tests = elim (mode_of m) [ none ↦ err type_error | some mode ↦ run mode vs tests ]
