-- ===== src/Normalize/Graph/Laws.antt =====
-- `config.graph` holds every service behind the services that it depends on.
use ryba.Base.{
  ◌||◌, String, ◌==◌, ◌≡◌, Bool, true, false, List, [], ◌∷◌, ◌++◌, All, arith, contains,
  if◌then◌else◌,
}
use ryba.Js.{Result, ok}
use ryba.Js.Laws.{>>=-eq-ok, ok-injective}
use ryba.Assoc.{Map}
use ryba.Config.{Config, Cluster, Service, Dep, service_key}
use ryba.Normalize.Each.{AllEntries, AllServices}
use ryba.Normalize.Graph.{
  Call, add_node, add_edge, is_some_of, is_disabled, service_text, dep_calls, deps_calls,
  services_calls, clusters_calls, order_graph,
}

-- `a` stands in the list, with `b` behind it.
abbrev pub precedes : String → String → List String → Bool
precedes a b [] = false
precedes a b (x ∷ xs) = if x == a then contains xs b else precedes a b xs

-- What a call asks of the order.
abbrev pub IsMet : List String → Call → Type 0
IsMet order (add_node a) = contains order a ≡ true
IsMet order (add_edge a b) = precedes a b order ≡ true

-- The documented behaviour of `tsort`: a result lists every node, and the first end of an edge before
-- the second.
abbrev pub IsSorter : (List Call → Result (List String)) → Type 0
IsSorter tsort =
    (calls : List Call) (order : List String) → tsort calls ≡ ok order → All (IsMet order) calls

-- A dependency that is enabled and is not on a service of the same name.
abbrev pub IsOrdered : List String → String → String → Dep → Type 0
IsOrdered order cname sname dep =
    (is_disabled dep
      || is_some_of dep.service sname
      || precedes (service_key dep.cluster (service_text dep.service)) (service_key cname sname)
          order)
    ≡ true

abbrev pub IsPlaced : List String → String → String → Service → Type 0
IsPlaced order cname sname s =
    (contains order (service_key cname sname) ≡ true)
    × AllEntries (λ _ dep. IsOrdered order cname sname dep) s.deps

All-split {ℓ} :
    {A : Type ℓ} (P : A → Type 0) (xs ys : List A) → All P (xs ++ ys) → All P xs × All P ys
All-split P [] ys h = (tt, h)
All-split P (x ∷ xs) ys h = let (a, b) = All-split P xs ys h.1 in ((h.0, a), b)

module _ (order : List String) where
  dep_calls-IsOrdered :
      (cname sname : String) (dep : Dep)
      → All (IsMet order) (dep_calls cname sname dep)
      → IsOrdered order cname sname dep
  unfolding dep_calls
  dep_calls-IsOrdered cname sname dep h = ground arith

  deps_calls-All :
      (cname sname : String) (deps : Map Dep)
      → All (IsMet order) (deps_calls cname sname deps)
      → AllEntries (λ _ dep. IsOrdered order cname sname dep) deps
  unfolding deps_calls
  deps_calls-All cname sname [] h = tt
  deps_calls-All cname sname ((dname, dep) ∷ deps) h =
      let (now, later) =
        All-split (IsMet order) (dep_calls cname sname dep) (deps_calls cname sname deps) h in
      (dep_calls-IsOrdered cname sname dep now, deps_calls-All cname sname deps later)

  services_calls-All :
      (cname : String) (services : Map Service)
      → All (IsMet order) (services_calls cname services)
      → AllEntries (IsPlaced order cname) services
  unfolding services_calls
  services_calls-All cname [] h = tt
  services_calls-All cname ((sname, s) ∷ services) (node, h) =
      let (now, later) =
        All-split (IsMet order) (deps_calls cname sname s.deps) (services_calls cname services) h in
      ((node, deps_calls-All cname sname s.deps now), services_calls-All cname services later)

  clusters_calls-All :
      (clusters : Map Cluster)
      → All (IsMet order) (clusters_calls clusters)
      → AllServices (IsPlaced order) clusters
  unfolding clusters_calls
  clusters_calls-All [] h = tt
  clusters_calls-All ((cname, c) ∷ clusters) h =
      let (now, later) =
        All-split (IsMet order) (services_calls cname c.services) (clusters_calls clusters) h in
      (services_calls-All cname c.services now, clusters_calls-All clusters later)

-- If `tsort` lists every node that it is given and the first end of each edge before the second,
-- then `config.graph` lists every service, and before it each enabled dependency that is on a
-- service of another name.
pub order_graph-IsPlaced :
    (tsort : List Call → Result (List String)) (config config' : Config)
    → IsSorter tsort
    → order_graph tsort config ≡ ok config'
    → AllServices (IsPlaced config'.graph) config'.clusters
unfolding order_graph
order_graph-IsPlaced tsort config config' sorts h =
    let (order, sorted, same) = >>=-eq-ok (tsort (clusters_calls config.clusters)) _ h in
    rw (← ok-injective same) (
      clusters_calls-All order config.clusters
        (sorts (clusters_calls config.clusters) order sorted))
