-- ===== src/Normalize/Inject.antt =====
-- The pass "Enrich configuration" of normalize.js: the options of each instance, and the dependencies
-- that are injected into the `configure` function of its service.
pub mod Laws
use ryba.Base.{
  ℕ, String, ◌==◌, Bool, true, false, ◌&&◌, List, [], ◌∷◌, length, keep, Option, none, some,
  if◌then◌else◌,
}
use ryba.Js.{
  Value, obj, end, undefined, Result, ok, err, ◌>>=◌, type_error, single_only, should_never_happen,
}
use ryba.Assoc.{Map, find}
use ryba.Config.{Config, Cluster, Service, Node, NodeService, Instance, Dep}
use ryba.Normalize.Each.{each_entry}
use ryba.Normalize.Deps.{service_of}
use ryba.Normalize.Graph.{is_disabled}
use ryba.Normalize.Placement.{is_entry}

-- What `inject.deps[dname]` is: an array of instances, one instance, or `null`.
pub data Injected : Type 0 where
  many : List Instance → Injected
  one : Instance → Injected
  null : Injected

-- `deps[dname][0] || null`
unfoldable pub first : List Instance → Injected
first [] = null
first (i ∷ instances) = one i

-- `if (dep.single)`: there has to be one instance.
unfoldable pub the_single : List Instance → Result (List Instance)
the_single (i ∷ []) = ok (i ∷ [])
the_single instances = err (single_only (length instances))

unfoldable pub on_node : String → List Instance → List Instance
on_node node instances = keep (λ i. i.id == node) instances

-- The three steps on `deps[dname]`. With `single` and `local` the one instance is put in an array again.
unfoldable pub narrow : Bool → Bool → String → List Instance → Result Injected
narrow false false node instances = ok (many instances)
narrow true false node instances = the_single instances >>= λ found. ok (first found)
narrow false true node instances = ok (first (on_node node instances))
narrow true true node instances = the_single instances >>= λ found. ok (first (on_node node found))

-- The body of the loop over `service.deps`; a disabled dependency is left out.
unfoldable pub inject_dep : Map Cluster → String → Dep → Result (Option Injected)
inject_dep clusters node dep =
    if is_disabled dep then ok none else elim (find dep.cluster clusters) [
      | none ↦ err type_error
      | some c ↦ elim (service_of c dep) [
        | none ↦ err type_error
        | some d ↦ narrow dep.single dep.local node d.instances >>= λ v. ok (some v)
      ]
    ]

unfoldable pub inject_deps : Map Cluster → String → Map Dep → Result (Map (Option Injected))
inject_deps clusters node deps = each_entry (λ dname dep. inject_dep clusters node dep) deps

abbrev or_undefined : Option Value → Value
or_undefined none = undefined
or_undefined (some v) = v

-- What the registrations of a service with a node give for options.
unfoldable pub options_by_count : List NodeService → Result Value
options_by_count [] = ok (obj end)
options_by_count (srv ∷ []) = ok srv.options
options_by_count (a ∷ b ∷ more) = err should_never_happen

-- The options of the registration with the node.
unfoldable pub node_options : String → String → List NodeService → Result Value
node_options cname sname services = options_by_count (keep (is_entry cname sname) services)

-- `merge` is the function of the package `mixme`.
unfoldable pub instance_options :
    (Value → Value → Value → Value) → Service → Node → Instance → Result Instance
instance_options merge s n i = node_options s.cluster s.id n.services >>= λ noptions.
    ok (record i { options = merge s.options noptions (or_undefined (find i.node.id s.nodes)) })
