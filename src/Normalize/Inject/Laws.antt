-- ===== src/Normalize/Inject/Laws.antt =====
-- What `configure` is given for a `local` dependency.
use ryba.Base.{
  Bool, not, ◌&&◌, ◌⊎◌, String, ◌==◌, eq_iff, ◌≡◌, sym, subst, ◌∙◌, true, false, List, [], ◌∷◌, All,
  contains, some, arith, Bool-cases, Option-cases, inl, inr,
}
use ryba.Js.{ok}
use ryba.Assoc.{Map, find}
use ryba.Config.{Config, Cluster, Service, Dep, Instance}
use ryba.Normalize.Each.{AllEntries, AllServices, AllEntries-map}
use ryba.Normalize.Deps.{service_of}
use ryba.Normalize.Graph.{is_disabled}
use ryba.Normalize.Local.{node_ids, check_locals}
use ryba.Normalize.Local.Laws.{dep_nodes, check_locals-IsLocal, IsLocal}
use ryba.Normalize.Placement.Laws.{AllEntries-find}
use ryba.Normalize.Inject.{one, first, on_node, narrow, inject_dep}

-- An instance carries the identifier of its node.
abbrev pub HasNodeId : Instance → Type 0
HasNodeId i = i.id ≡ i.node.id

abbrev pub AllIdentified : Map Cluster → Type 0
AllIdentified clusters = AllServices (λ _ _ s. All HasNodeId s.instances) clusters

-- The instance on a node, if there is one.
first-on_node :
    (node : String) (instances : List Instance)
    → All HasNodeId instances
    → contains (node_ids instances) node ≡ true
    → (d : Instance) × (first (on_node node instances) ≡ one d) × (d.node.id ≡ node)
unfolding first on_node
first-on_node node [] h there = absurd (cc)
first-on_node node (i ∷ instances) h there = elim (Bool-cases (i.id == node)) [
  | inl same ↦ (i, rw same, sym h.0 ∙ (eq_iff i.id node).0 same)
  | inr other ↦
      let apart : (i.node.id == node) ≡ false = subst (λ x. (x == node) ≡ false) h.0 other in
      let (d, found, same) = first-on_node node instances h.1 (ground arith) in
      (d, rw other found, same)
]

-- The dependency is enabled, `local` and `required`, and not `single`.
abbrev pub is_colocated : Dep → Bool
is_colocated dep = not (is_disabled dep) && dep.local && dep.required && not dep.single

-- The dependency is injected as the instance on the given node.
abbrev pub IsInjected : Map Cluster → Dep → String → Type 0
IsInjected clusters dep node =
    (d : Instance) × (inject_dep clusters node dep ≡ ok (some (one d))) × (d.node.id ≡ node)

-- The service that a dependency names is one of the cluster.
service_of-All :
    (P : Service → Type 0) (c : Cluster) (dep : Dep) (d : Service)
    → AllEntries (λ _ s. P s) c.services
    → service_of c dep ≡ some d
    → P d
unfolding service_of
service_of-All P c dep d h found = elim (Option-cases dep.service) [
  | inl missing ↦ absurd (ground arith)
  | inr (s, named) ↦ AllEntries-find P s c.services d h (ground arith)
]

inject_dep-IsInjected :
    (clusters : Map Cluster) (dep : Dep) (node : String)
    → AllIdentified clusters
    → is_colocated dep ≡ true
    → contains (dep_nodes clusters dep) node ≡ true
    → IsInjected clusters dep node
unfolding inject_dep dep_nodes narrow
inject_dep-IsInjected clusters dep node ids colocated there =
    elim (Option-cases (find dep.cluster clusters)) [
      | inl missing ↦ absurd (ground arith)
      | inr (c, found) ↦ elim (Option-cases (service_of c dep)) [
        | inl missing ↦ absurd (ground arith)
        | inr (t, named) ↦
            let identified =
              service_of-All (λ s. All HasNodeId s.instances) c dep t
                (AllEntries-find (λ k. AllEntries (λ _ s. All HasNodeId s.instances) k.services)
                  dep.cluster clusters c ids found)
                named in
            let (d, is_first, same) = first-on_node node t.instances identified (ground arith) in
            (d, ground arith, same)
      ]
    ]

-- If the pass on local dependencies succeeds, and instances carry the identifiers of their nodes, then
-- every instance of a service is injected, for each dependency that is enabled, `local`, `required` and
-- not `single`, with one instance of that dependency on its own node.
pub inject_dep-check_locals :
    (config config' : Config)
    → AllIdentified config.clusters
    → check_locals config ≡ ok config'
    → AllServices
        (λ _ _ s.
          AllEntries
            (λ _ dep.
              (is_colocated dep ≡ false)
              ⊎ All (λ i. IsInjected config.clusters dep i.node.id) s.instances)
            s.deps)
        config.clusters
inject_dep-check_locals config config' ids h =
    let clusters = config.clusters in
    AllEntries-map _ _ clusters
      (λ cname c.
        AllEntries-map _ _ c.services (λ sname s.
          AllEntries-map _ _ s.deps (λ dname dep placed. chosen dep s.instances placed)))
      (check_locals-IsLocal config config' h).1
  where
    each :
        (dep : Dep)
        → is_colocated dep ≡ true
        → (instances : List Instance)
        → All (λ i. contains (dep_nodes config.clusters dep) i.node.id ≡ true) instances
        → All (λ i. IsInjected config.clusters dep i.node.id) instances
    each dep colocated [] a = tt
    each dep colocated (i ∷ instances) a = (
      inject_dep-IsInjected config.clusters dep i.node.id ids colocated a.0,
      each dep colocated instances a.1,
    )

    chosen :
        (dep : Dep) (instances : List Instance)
        → IsLocal config.clusters instances dep
        → (is_colocated dep ≡ false) ⊎ All (λ i. IsInjected config.clusters dep i.node.id) instances
    chosen dep instances (inl other) = inl (ground arith)
    chosen dep instances (inr placed) = elim (Bool-cases (is_colocated dep)) [
      | inl colocated ↦ inr (each dep colocated instances placed)
      | inr other ↦ inl other
    ]
