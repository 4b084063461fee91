-- ===== src/Secrets/Options.antt =====
-- The options of a `Store` and the generator of passwords in secrets.js; the environment and
-- `generate-password` are parameters.
use ryba.Base.{String, ◌≡◌, refl, true, Option, none, some}
use ryba.Js.{bool, num, Fields, end, field, put}

-- `this.options` in the end; a variable of the environment may be missing.
pub record Options : Type 0 where
  pub store : String
  pub envpw : String
  pub password : Option String
  pub algorithm : String

-- The options as they are given.
pub record GivenOptions : Type 0 where
  pub store : Option String
  pub envpw : Option String
  pub password : Option String
  pub algorithm : Option String

-- `x ?= default`
abbrev pub or_default : String → Option String → String
or_default default none = default
or_default default (some s) = s

abbrev pub or_environment : Option String → Option String → Option String
or_environment value none = value
or_environment value (some s) = some s

-- The constructor: the password may come from the variable that `envpw` names.
unfoldable pub new_store : (String → Option String) → GivenOptions → Options
new_store environment given =
    let envpw = or_default "MASSON_SECRET_PW" given.envpw in
    record {
      store = or_default ".secrets" given.store;
      envpw = envpw;
      password = or_environment (environment envpw) given.password;
      algorithm = or_default "aes-256-ctr" given.algorithm;
    }

-- `Object.assign(target, source)`
unfoldable pub assign : Fields → Fields → Fields
assign target end = target
assign target (field k v source) = assign (put k v target) source

unfoldable pub generate_password : (Fields → String) → Fields → String
generate_password generate options =
    generate (assign (field "length" (num 10) (field "numbers" (bool true) end)) options)

-- A length that is given takes the place of the default.
assigned :
    assign (field "length" (num 10) (field "numbers" (bool true) end)) (field "length" (num 20) end)
    ≡ field "length" (num 20) (field "numbers" (bool true) end)
unfolding assign put
assigned = refl
