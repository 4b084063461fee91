-- ===== src/Js.antt =====
-- The values of the language: configuration files are trees of these. `obj` keeps its keys in the
-- order of insertion (keys that read as array indexes, which JavaScript lists first, apart), and
-- `func` is a function known by a number.
use ryba.Base.{
  ℕ, suc, ◌+◌, ◌/◌, ◌%◌, zero, String, ◌==◌, ◌=ℕ◌, ltb, Bool, true, false, not, List, [], ◌∷◌,
  if◌then◌else◌, ◌++◌, length, map,
}
use Prim.Native.String
use Prim.Native.String.{count}
pub mod Laws

mutual
  pub data Value : Type 0 where
    undefined null : Value
    bool : Bool → Value
    num : ℕ → Value
    str : String → Value
    obj : Fields → Value
    arr : Items → Value
    func : ℕ → Value

  pub data Fields : Type 0 where
    end : Fields
    field : String → Value → Fields → Fields

  pub data Items : Type 0 where
    nil : Items
    cons : Value → Items → Items

-- What the program throws, by the place that throws it. `type_error` is the engine's own
-- exception, such as a property of `undefined`; `out_of_fuel` is no outcome of the program.
pub data Error : Type 0 where
  type_error out_of_fuel : Error
  values_not_found values_not_array values_not_object : Error
  type_required : Error
  unsupported_type : Value → Error
  service_not_string node_not_string : Error
  value_not_string : Value → Error
  match_required_value match_required_values match_required_tags value_must_be_true : Error
  argument_required : String → Error
  cluster_not_defined : (cluster : String) → Error
  service_not_defined : (dependency service cluster : String) → Error
  module_not_defined : (dependency cluster : String) → Error
  node_invalid_service : (node service cluster : String) → Error
  no_affinity_found : (node : String) → Error
  required_local : (service cluster node : String) → Error
  single_only : (found : ℕ) → Error
  should_never_happen : Error
  already_created not_initialized io_error : Error
  invalid_usage required_option : Error
  found_no_element found_more_than_one not_an_array not_a_function : Error
  unidentified_dependency : Error
  invalid_definition : (module_name : String) → Error
  not_sure reference_error : Error
  invalid_cluster invalid_clusters invalid_services invalid_nodes : Error
  not_configurable : (found : Value) → Error
  multiple_matches : (named cluster : String) → Error
  invalid_command : (found : Value) (command : String) → Error
  -- An exception whose message is extended by the service that it is about.
  in_service : Error → (service cluster : String) → Error

-- What a call returns, or the exception that it throws.
pub data Result {ℓ} (A : Type ℓ) : Type ℓ where
  err : (thrown : Error) → Result A
  ok : (value : A) → Result A

module _ {ℓ κ} {A : Type ℓ} {B : Type κ} where
  infixl 5 ◌>>=◌
  abbrev pub ◌>>=◌ : Result A → (A → Result B) → Result B
  err thrown >>= next = err thrown
  ok value >>= next = next value

module _ {ℓ} {B : Type ℓ} where
  infixl 5 ◌>>◌
  abbrev pub ◌>>◌ : Result (Unit {0}) → Result B → Result B
  check >> next = check >>= λ _. next

-- `throw e unless b`
abbrev pub guard : Bool → Error → Result (Unit {0})
guard false thrown = err thrown
guard true thrown = ok tt

module _ {ℓ κ} {A : Type ℓ} {B : Type κ} where
  -- A loop that collects its results, and ends at the first exception.
  abbrev pub traverse : (A → Result B) → List A → Result (List B)
  traverse f [] = ok []
  traverse f (x ∷ xs) = f x >>= λ y. traverse f xs >>= λ ys. ok (y ∷ ys)

-- `array.filter` with a callback that may throw.
abbrev pub filter_ok {ℓ} : {A : Type ℓ} → (A → Result Bool) → List A → Result (List A)
filter_ok p [] = ok []
filter_ok p (x ∷ xs) = p x >>= λ b. filter_ok p xs >>= λ ys. ok (if b then x ∷ ys else ys)

abbrev pub items : Items → List Value
items nil = []
items (cons v vs) = v ∷ items vs

abbrev pub to_items : List Value → Items
to_items [] = nil
to_items (v ∷ vs) = cons v (to_items vs)

abbrev pub array : List Value → Value
array vs = arr (to_items vs)

abbrev pub keys : Fields → List String
keys end = []
keys (field k v fs) = k ∷ keys fs

abbrev pub values : Fields → List Value
values end = []
values (field k v fs) = v ∷ values fs

-- `fs[k]`, and `fs[k] = v`: a key that is there keeps its place.
unfoldable pub get : String → Fields → Value
get k end = undefined
get k (field j v fs) = if j == k then v else get k fs

unfoldable pub put : String → Value → Fields → Fields
put k v end = field k v end
put k v (field j w fs) = if j == k then field j v fs else field j w (put k v fs)

abbrev pub truthy : Value → Bool
truthy undefined = false
truthy null = false
truthy (bool b) = b
truthy (num n) = not (n =ℕ 0)
truthy (str s) = not (s == "")
truthy _ = true

-- `v == null`
abbrev pub is_nullish : Value → Bool
is_nullish undefined = true
is_nullish null = true
is_nullish _ = false

abbrev pub is_array : Value → Bool
is_array (arr _) = true
is_array _ = false

-- `is_object` of the source: an object that is no array.
abbrev pub is_object : Value → Bool
is_object (obj _) = true
is_object _ = false

-- `v.k`
unfoldable pub prop : Value → String → Result Value
prop undefined k = err type_error
prop null k = err type_error
prop (obj fs) k = ok (get k fs)
prop _ k = ok undefined

-- `a === b`. Two arrays, objects or functions are the same only if they are one object in memory;
-- values that come from different places of a configuration are not.
unfoldable pub strict_eq : Value → Value → Bool
strict_eq undefined undefined = true
strict_eq null null = true
strict_eq (bool true) (bool b) = b
strict_eq (bool false) (bool b) = not b
strict_eq (num n) (num m) = n =ℕ m
strict_eq (str s) (str t) = s == t
strict_eq _ _ = false

abbrev digit : ℕ → String
digit n =
    if n =ℕ 0
    then "0"
    else if n =ℕ 1
    then "1"
    else if n =ℕ 2
    then "2"
    else if n =ℕ 3
    then "3"
    else if n =ℕ 4
    then "4"
    else if n =ℕ 5
    then "5"
    else if n =ℕ 6
    then "6"
    else if n =ℕ 7
    then "7"
    else if n =ℕ 8
    then "8"
    else "9"

-- A number in decimal; the fuel is the number itself, which has fewer digits.
decimal_from : ℕ → ℕ → String
decimal_from zero n = digit n
decimal_from (suc f) n =
    let more = String.◌++◌ (decimal_from f (n / 10)) (digit (n % 10)) in
    if ltb n 10 then digit n else more

indexes_from : ℕ → ℕ → List String
indexes_from i zero = []
indexes_from i (suc n) = decimal_from i i ∷ indexes_from (i + 1) n

-- `Object.keys`: of an array or a text, the indexes.
unfoldable pub object_keys : Value → Result (List String)
unfolding indexes_from decimal_from
object_keys undefined = err type_error
object_keys null = err type_error
object_keys (obj fs) = ok (keys fs)
object_keys (arr vs) = ok (indexes_from 0 (length (items vs)))
object_keys (str s) = ok (indexes_from 0 (count s))
object_keys _ = ok []

letters : String → List Value
letters String.[] = []
letters (String.◌∷◌ c s) = str (String.◌∷◌ c String.[]) ∷ letters s

-- `for (i = 0, len = v.length; i < len; i++) v[i]`: the elements of an array or the letters of a
-- text; nothing where `length` is not defined.
unfoldable pub elements : Value → Result (List Value)
unfolding letters
elements undefined = err type_error
elements null = err type_error
elements (arr vs) = ok (items vs)
elements (str s) = ok (letters s)
elements _ = ok []

-- The object with the given keys, each `true`, as a loop `o[k] = true` builds it.
unfoldable pub put_true : List String → Fields → Fields
put_true [] fs = fs
put_true (k ∷ ks) fs = put_true ks (put k (bool true) fs)
