-- ===== src/Normalize/Discover/Modules/Carried.antt =====
-- What the loop over the dependencies of a service carries over from one to the next.
use ryba.Base.{String, ◌==◌, ◌≡◌, refl, true, false, [], ◌∷◌, some, ℕ}
use ryba.Js.{ok}
use ryba.Text.{colon, lacks}
use ryba.Config.{Dep, service_key}
use ryba.Normalize.Discover.{
  GivenDep, by_module, given_dep, dep_object, identified, Last, cluster_of,
}
use ryba.Normalize.Discover.Drafts.{Clusters, candidates, put_dep}
use ryba.Normalize.Discover.Laws.{identify_dep-service_key, identify_dep-by_module}
use ryba.Normalize.Discover.Modules.{Again, add_auto, visit_deps}

add_auto-manual :
    (again : Again) (self : ℕ) (cname sname dname : String) (dep : Dep) (clusters : Clusters)
    → dep.auto ≡ false
    → add_auto again self cname sname dname dep clusters ≡ ok clusters
unfolding add_auto
add_auto-manual again self cname sname dname dep clusters manual = rw (manual, add_auto) refl

-- After a dependency on `cluster:service` that is not `auto`, of two names that are not empty and
-- hold no colon, one that is given by its module alone is put on that service too, whatever its
-- module and whatever services there are: `did` and `dcluster` are not reset.
pub visit_deps-carries :
    (again : Again) (self : ℕ) (own cname sname d1 d2 c s m : String) (last : Last) (g : GivenDep)
    (clusters : Clusters)
    → g.service ≡ some (service_key c s)
    → g.auto ≡ false
    → lacks colon c ≡ true
    → lacks colon s ≡ true
    → (c == "") ≡ false
    → (s == "") ≡ false
    → visit_deps again self own cname sname last
        ((d1, given_dep g) ∷ (d2, by_module m) ∷ [])
        clusters
      ≡ ok (
          put_dep self cname sname d2 (identified (dep_object (by_module m)) c (some s)) (
            put_dep self cname sname d1
              (identified g (cluster_of g.cluster (some c) own) (some s))
              clusters))
unfolding visit_deps add_auto
visit_deps-carries again self own cname sname d1 d2 c s m last g clusters named manual plain_c
      plain_s full_c full_s =
    let first = identified g (cluster_of g.cluster (some c) own) (some s) in
    let clusters' = put_dep self cname sname d1 first clusters in
    rw (identify_dep-service_key (candidates clusters) own c s last g named plain_c plain_s full_s)
      (rw (add_auto-manual again self cname sname d1 first clusters' manual)
        (rw (identify_dep-by_module (candidates clusters') own c s m full_c full_s) refl))
