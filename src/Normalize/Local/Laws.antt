-- ===== src/Normalize/Local/Laws.antt =====
-- After the pass each instance has its `local` and `required` dependencies on its node.
use ryba.Base.{
  false, ◌&&◌, ◌⊎◌, Bool-cases, String, ◌≡◌, sym, true, List, [], ◌∷◌, All, contains, none, some,
  arith, Option-cases, inl, inr,
}
use ryba.Js.{ok}
use ryba.Js.Laws.{>>=-eq-ok, ok-injective}
use ryba.Assoc.{Map, find}
use ryba.Config.{Config, Cluster, Dep, Instance}
use ryba.Normalize.Each.{each_entry, AllEntries, AllServices, each_entry-given}
use ryba.Normalize.Deps.{service_of}
use ryba.Normalize.Local.{
  node_ids, check_instances, without_service, check_local, check_service_local, check_cluster_local,
  check_locals,
}

-- The nodes on which the service that a dependency names has an instance.
unfoldable pub dep_nodes : Map Cluster → Dep → List String
dep_nodes clusters dep = elim (find dep.cluster clusters) [
  | none ↦ []
  | some c ↦ elim (service_of c dep) [ none ↦ [] | some d ↦ node_ids d.instances ]
]

abbrev pub IsLocal : Map Cluster → List Instance → Dep → Type 0
IsLocal clusters instances dep =
    ((dep.local && dep.required) ≡ false)
    ⊎ All (λ i. contains (dep_nodes clusters dep) i.node.id ≡ true) instances

check_instances-All :
    (cname sname : String) (there : List String) (instances : List Instance) {u : Unit {0}}
    → check_instances cname sname there instances ≡ ok u
    → All (λ i. contains there i.node.id ≡ true) instances
unfolding check_instances
check_instances-All cname sname there [] h = tt
check_instances-All cname sname there (i ∷ instances) h =
    (ground arith, check_instances-All cname sname there instances (ground arith))

without_service-All :
    (P : Instance → Type 0) (instances : List Instance) {u : Unit {0}}
    → without_service instances ≡ ok u
    → All P instances
unfolding without_service
without_service-All P [] h = tt
without_service-All P (i ∷ instances) h = absurd (cc)

check_local-IsLocal :
    (clusters : Map Cluster) (cname sname : String) (instances : List Instance) (dep : Dep)
    {u : Unit {0}}
    → check_local clusters cname sname instances dep ≡ ok u
    → IsLocal clusters instances dep
unfolding check_local dep_nodes
check_local-IsLocal clusters cname sname instances dep h =
    elim (Bool-cases (dep.local && dep.required)) [
      | inr other ↦ inl other
      | inl needed ↦ inr (elim (Option-cases (find dep.cluster clusters)) [
        | inl missing ↦ absurd (ground arith)
        | inr (c, found) ↦ elim (Option-cases (service_of c dep)) [
          | inl missing ↦ without_service-All _ instances (ground arith)
          | inr (d, there) ↦
              rw (dep_nodes, found, there)
                (check_instances-All cname sname (node_ids d.instances) instances (ground arith))
        ]
      ])
    ]

-- If the pass succeeds, every instance of a service has on its node an instance of each dependency of
-- the service that is `local` and `required`; the configuration is not changed.
pub check_locals-IsLocal :
    (config config' : Config)
    → check_locals config ≡ ok config'
    → (config' ≡ config)
      × AllServices
          (λ _ _ s. AllEntries (λ _ dep. IsLocal config.clusters s.instances dep) s.deps)
          config.clusters
unfolding check_locals check_cluster_local check_service_local
check_locals-IsLocal config config' h =
    let clusters = config.clusters in
    let (_, e, same) = >>=-eq-ok (each_entry (check_cluster_local clusters) clusters) _ h in
    (
      sym (ok-injective same),
      each_entry-given (check_cluster_local clusters) _ clusters _
          (λ cname c c' ec.
            let (_, es, _) =
              >>=-eq-ok (each_entry (check_service_local clusters cname) c.services) _ ec in
            each_entry-given (check_service_local clusters cname) _ c.services _
              (λ sname s s' ed.
                let f =
                  λ (_ : String) (dep : Dep). check_local clusters cname sname s.instances dep in
                let (_, et, _) = >>=-eq-ok (each_entry f s.deps) _ ed in
                each_entry-given f _ s.deps _
                  (λ dname dep u el. check_local-IsLocal clusters cname sname s.instances dep el)
                  et)
              es)
          e,
    )
