-- ===== src/Normalize/Discover.antt =====
-- The loop over `service.deps` in `discover_service` of normalize.js, up to the part on `auto`: it
-- finds the cluster and the service of each dependency. Two variables, `did` and `dcluster`, keep
-- their values from one dependency to the next.
pub mod Laws
pub mod Drafts
pub mod Modules
mod Tests
use ryba.Base.{
  String, ◌==◌, Bool, true, false, List, [], ◌∷◌, ◌++◌, Option, none, some, if◌then◌else◌,
}
use ryba.Js.{Result, ok, err, ◌>>=◌, type_error, unidentified_dependency, multiple_matches}
use ryba.Text.{split, colon}
use ryba.Assoc.{Map, find}
use ryba.Config.{Dep}

pub record GivenDep : Type 0 where
  pub module_name : Option String
  pub service : Option String
  pub cluster : Option String
  pub auto : Bool
  pub required : Bool
  pub local : Bool
  pub single : Bool
  pub disabled : Option Bool

-- A text stands for an object with that module.
pub data DepEntry : Type 0 where
  by_module : String → DepEntry
  given_dep : GivenDep → DepEntry

abbrev pub dep_object : DepEntry → GivenDep
dep_object (given_dep g) = g
dep_object (by_module m) = record {
  module_name = some m;
  service = none;
  cluster = none;
  auto = false;
  required = false;
  local = false;
  single = false;
  disabled = none;
}

-- What is read of the services of a cluster; both are missing where the service is `true`.
pub record Candidate : Type 0 where
  pub id : Option String
  pub module_name : Option String

-- A text that is missing or empty fails a test.
abbrev pub full : Option String → Option String
full none = none
full (some s) = if s == "" then none else some s

abbrev pub full_or : Option String → String → String
full_or o default = elim (full o) [ none ↦ default | some s ↦ s ]

-- `did` and `dcluster`
abbrev pub Last : Type 0
Last = Option String × Option String

abbrev pub first_two : List String → Last
first_two [] = (none, none)
first_two (s ∷ []) = (some s, none)
first_two (s ∷ c ∷ more) = (some s, some c)

abbrev pub reverse_on : List String → List String → List String
reverse_on [] acc = acc
reverse_on (s ∷ parts) acc = reverse_on parts (s ∷ acc)

-- `if (dservice.service) [did, dcluster] = dservice.service.split(":").reverse()`
unfoldable pub next_last : Option String → Last → Last
next_last service last = elim (full service) [
  | none ↦ last
  | some s ↦ first_two (reverse_on (split colon s) [])
]

-- `dservice.cluster ?= dcluster || cluster.id`
unfoldable pub cluster_of : Option String → Option String → String → String
cluster_of none dcluster own = full_or dcluster own
cluster_of (some c) dcluster own = c

-- `sids`, the services of the cluster that have the module.
unfoldable pub services_of_module : String → Map Candidate → List String
services_of_module m [] = []
services_of_module m ((name, s) ∷ services) =
    let rest = services_of_module m services in
    if full_or s.module_name name == m then full_or s.id name ∷ rest else rest

unfoldable pub the_service : String → String → List String → Result (Option String)
the_service m c [] = ok none
the_service m c (s ∷ []) = ok (some s)
the_service m c (s ∷ t ∷ more) = err (multiple_matches m c)

abbrev pub identified : GivenDep → String → Option String → Dep
identified g c s = record {
  module_name = g.module_name;
  service = s;
  cluster = c;
  auto = g.auto;
  required = g.required;
  local = g.local;
  single = g.single;
  disabled = g.disabled;
}

-- The search of a service by its module, where there is no `did`.
unfoldable pub search_module : Map (Map Candidate) → String → Option String → Result (Option String)
search_module clusters c none = err unidentified_dependency
search_module clusters c (some m) = elim (find c clusters) [
  | none ↦ err type_error
  | some services ↦ the_service m c (services_of_module m services)
]

-- The body of the loop, with the values that it leaves in `did` and `dcluster`.
unfoldable pub identify_dep : Map (Map Candidate) → String → Last → DepEntry → Result (Dep × Last)
identify_dep clusters own last entry =
    let g = dep_object entry in
    let now = next_last g.service last in
    let c = cluster_of g.cluster now.1 own in
    elim (full now.0) [
      | some s ↦ ok (identified g c (some s), now)
      | none ↦ search_module clusters c (full g.module_name) >>= λ s. ok (identified g c s, now)
    ]
