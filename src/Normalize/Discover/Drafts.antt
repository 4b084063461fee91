-- ===== src/Normalize/Discover/Drafts.antt =====
-- The clusters and services that `discover_service` of normalize.js works on, with what it reads and
-- writes of them.
use ryba.Base.{ℕ, suc, String, ◌=ℕ◌, Bool, true, false, [], Option, none, some, if◌then◌else◌}
use ryba.Js.{Value, obj, undefined, Fields, Result, ok, err, type_error, invalid_definition}
use ryba.Assoc.{Map, find, insert, map_values}
use ryba.Config.{Dep}
use ryba.Normalize.Discover.{DepEntry, given_dep, dep_object, identified, Candidate}

-- A service of the configuration, as it is on the way; `object` tells apart the objects that are put, one
-- after the other, under the same name.
pub record Draft : Type 0 where
  pub object : ℕ
  pub id : Option String
  pub module_name : Option String
  pub deps : Option (Map DepEntry)
  pub affinity : Value
  pub commands : Option (Map Value)
  pub nodes : Option (Map Value)
  pub options : Value
  pub configure : Value
  pub plugin : Value

-- `true` stands for an object with no property. Other values that are no objects are left apart.
pub data Entry : Type 0 where
  default_service : Entry
  draft : Draft → Entry

-- A cluster: `true`, an object with or without `services`, or a value that is neither (but not `null`).
pub data ClusterEntry : Type 0 where
  default_cluster : ClusterEntry
  cluster_with : Option (Map Entry) → ClusterEntry
  other_cluster : Value → ClusterEntry

-- `config.clusters`
abbrev pub Clusters : Type 0
Clusters = Map ClusterEntry

abbrev pub empty_draft : Draft
empty_draft = record {
  object = 0;
  id = none;
  module_name = none;
  deps = none;
  affinity = undefined;
  commands = none;
  nodes = none;
  options = undefined;
  configure = undefined;
  plugin = undefined;
}

abbrev pub or_no {ℓ} : {V : Type ℓ} → Option (Map V) → Map V
or_no none = []
or_no (some m) = m

-- `cluster.services`
abbrev pub services_of : ClusterEntry → Option (Map Entry)
services_of default_cluster = none
services_of (cluster_with services) = services
services_of (other_cluster v) = none

-- What the search by a module reads of a service.
abbrev pub candidate_of : Entry → Candidate
candidate_of default_service = record { id = none; module_name = none }
candidate_of (draft d) = record { id = d.id; module_name = d.module_name }

unfoldable pub candidates : Clusters → Map (Map Candidate)
candidates clusters = map_values (λ c. map_values candidate_of (or_no (services_of c))) clusters

-- `if (service === true) service = {}` and `if (service.module == null) service.module = sname`
abbrev pub module_of : Option String → String → String
module_of none sname = sname
module_of (some m) sname = m

unfoldable pub started : String → Entry → Draft
started sname default_service = record empty_draft { module_name = some sname }
started sname (draft d) = record d { module_name = some (module_of d.module_name sname) }

-- `await load(service.module)`, which must give an object.
unfoldable pub definition_of : String → Value → Result Fields
definition_of m (obj fs) = ok fs
definition_of m v = err (invalid_definition m)

unfoldable pub service_entry : Clusters → String → String → Option Entry
service_entry clusters cname sname = elim (find cname clusters) [
  | none ↦ none
  | some c ↦ find sname (or_no (services_of c))
]

-- `config.clusters[cname].services[sname] = …`
unfoldable pub put_entry : String → String → Entry → Clusters → Clusters
put_entry cname sname e clusters = elim (find cname clusters) [
  | none ↦ clusters
  | some c ↦ insert cname (cluster_with (some (insert sname e (or_no (services_of c))))) clusters
]

-- `config.clusters[cname].services`, of which a property is read.
unfoldable pub read_services : Clusters → String → Result (Map Entry)
read_services clusters cname = elim (find cname clusters) [
  | none ↦ err type_error
  | some c ↦ elim (services_of c) [ none ↦ err type_error | some services ↦ ok services ]
]

-- A dependency that has been identified, as an object of `service.deps`.
abbrev pub dep_entry : Dep → DepEntry
dep_entry dep = given_dep (record {
  module_name = dep.module_name;
  service = dep.service;
  cluster = some dep.cluster;
  auto = dep.auto;
  required = dep.required;
  local = dep.local;
  single = dep.single;
  disabled = dep.disabled;
})

-- The service holds it if it is still the object `self`, and not one that has taken its place.
abbrev pub with_dep : ℕ → String → Dep → Entry → Entry
with_dep self dname dep default_service = default_service
with_dep self dname dep (draft d) =
    if d.object =ℕ self
    then draft (record d { deps = some (insert dname (dep_entry dep) (or_no d.deps)) })
    else draft d

-- `service.deps[dname] = …`, in the service that is discovered.
unfoldable pub put_dep : ℕ → String → String → String → Dep → Clusters → Clusters
put_dep self cname sname dname dep clusters = elim (service_entry clusters cname sname) [
  | none ↦ clusters
  | some e ↦ put_entry cname sname (with_dep self dname dep e) clusters
]

-- What the passes behind discovery read of a dependency; `clusters[undefined]` is the property of that name.
abbrev pub given_cluster_of : Option String → String
given_cluster_of none = "undefined"
given_cluster_of (some c) = c

abbrev pub given_dep_of : DepEntry → Dep
given_dep_of entry = let g = dep_object entry in identified g (given_cluster_of g.cluster) g.service

-- A text as the name of a property.
abbrev pub name_text : Option String → String
name_text none = "null"
name_text (some s) = s

abbrev pub is_there : Option Entry → Bool
is_there none = false
is_there (some e) = true

-- `{ id, cluster, module }` of a service that is added; its cluster is set again by the next pass.
abbrev pub auto_draft : ℕ → String → Draft
auto_draft number m = record empty_draft { object = number; id = some m; module_name = some m }

-- A new object under a name, which may have had one.
abbrev pub next_object : Option Entry → ℕ
next_object none = 0
next_object (some default_service) = 0
next_object (some (draft d)) = suc d.object

abbrev pub put_added : String → String → Clusters → Clusters
put_added cname m clusters =
    put_entry cname m (draft (auto_draft (next_object (service_entry clusters cname m)) m)) clusters
