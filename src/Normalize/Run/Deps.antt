-- ===== src/Normalize/Run/Deps.antt =====
-- The pass that places instances leaves the graph and the dependencies of the services as they are.
use ryba.Base.{
  String, ◌≡◌, refl, sym, ap, ◌∙◌, subst, List, [], ◌∷◌, ◌++◌, ◌&&◌, some, Option-cases, Bool-cases,
  inl, inr, arith, not,
}
use ryba.Js.{ok}
use ryba.Js.Laws.{>>=-eq-ok, ok-injective}
use ryba.Text.{split, colon}
use ryba.Assoc.{Map, find}
use ryba.Config.{Config, Cluster, Service, Instance, Dep}
use ryba.Store.{pair_of, service_in}
use ryba.Normalize.Each.{AllEntries, AllServices, AllEntries-map}
use ryba.Normalize.Deps.{service_of}
use ryba.Normalize.Graph.{is_disabled}
use ryba.Normalize.Placement.{
  place_all, place_key, place_service, set_service, enrich_dep, enrich_deps, service_instances,
  register_all, auto_affinity,
}
use ryba.Normalize.Configure.{service_in_clusters}
use ryba.Normalize.Configure.Outline.{outline_by, outline_by-set_service}
use ryba.Assoc.{map_values}

abbrev pub deps_outline : Map Cluster → Map (Map (Map Dep))
deps_outline clusters = outline_by (λ s. s.deps) clusters

module _ {V W : Type 0} (f : V → W) (P : String → W → Type 0) where
  AllEntries-map_values :
      (m : Map V) → AllEntries (λ k v. P k (f v)) m → AllEntries P (map_values f m)
  AllEntries-map_values [] h = tt
  AllEntries-map_values ((k, v) ∷ m) h = (h.0, AllEntries-map_values m h.1)

  AllEntries-of_map_values :
      (m : Map V) → AllEntries P (map_values f m) → AllEntries (λ k v. P k (f v)) m
  AllEntries-of_map_values [] h = tt
  AllEntries-of_map_values ((k, v) ∷ m) h = (h.0, AllEntries-of_map_values m h.1)

-- A property of the dependencies of the services, from one configuration to another one with the same.
pub AllServices-deps :
    (P : String → String → Map Dep → Type 0) (clusters clusters' : Map Cluster)
    → deps_outline clusters' ≡ deps_outline clusters
    → AllServices (λ c s service. P c s service.deps) clusters
    → AllServices (λ c s service. P c s service.deps) clusters'
AllServices-deps P clusters clusters' same h =
    AllEntries-map _ _ clusters'
      (λ cname c. AllEntries-of_map_values (λ s. s.deps) (P cname) c.services)
      (AllEntries-of_map_values (λ c. map_values (λ s. s.deps) c.services)
        (λ c m. AllEntries (P c) m) clusters'
        (subst (λ o. AllEntries (λ c m. AllEntries (P c) m) o) (sym same)
          (AllEntries-map_values (λ c. map_values (λ s. s.deps) c.services)
            (λ c m. AllEntries (P c) m) clusters
            (AllEntries-map _ _ clusters
              (λ cname c. AllEntries-map_values (λ s. s.deps) (P cname) c.services) h))))

enrich_dep-deps :
    (instances : List Instance) (dep : Dep) (clusters clusters' : Map Cluster)
    → enrich_dep instances dep clusters ≡ ok clusters'
    → deps_outline clusters' ≡ deps_outline clusters
unfolding enrich_dep service_of service_in_clusters service_in
enrich_dep-deps instances dep clusters clusters' h =
    elim (Bool-cases (dep.auto && not (is_disabled dep))) [
      | inr plain ↦ let e : clusters ≡ clusters' = ground arith in ap deps_outline (sym e)
      | inl auto ↦ elim (Option-cases (find dep.cluster clusters)) [
        | inl missing ↦ absurd (ground arith)
        | inr (c, found) ↦ elim (Option-cases dep.service) [
          | inl unnamed ↦ absurd (ground arith)
          | inr (s, named) ↦ elim (Option-cases (find s c.services)) [
            | inl missing ↦ absurd (ground arith)
            | inr (d, there) ↦
                let d' : Service = record d {
                  affinity = d.affinity ++ auto_affinity instances ∷ [];
                } in
                let e : set_service dep.cluster s d' clusters ≡ clusters' = ground arith in
                ap deps_outline (sym e)
                ∙ outline_by-set_service (λ s. s.deps) dep.cluster s clusters d d'
                    (rw (service_in_clusters, found, service_in) there) refl
          ]
        ]
      ]
    ]

enrich_deps-deps :
    (instances : List Instance) (deps : Map Dep) (clusters clusters' : Map Cluster)
    → enrich_deps instances deps clusters ≡ ok clusters'
    → deps_outline clusters' ≡ deps_outline clusters
unfolding enrich_deps
enrich_deps-deps instances [] clusters clusters' h = ap deps_outline (sym (ok-injective h))
enrich_deps-deps instances ((dname, dep) ∷ deps) clusters clusters' h =
    let (mid, one, rest) = >>=-eq-ok (enrich_dep instances dep clusters) _ h in
    enrich_deps-deps instances deps mid clusters' rest
    ∙ enrich_dep-deps instances dep clusters mid one

place_service-deps :
    (cname sname : String) (s : Service) (config config' : Config)
    → service_in_clusters cname sname config.clusters ≡ some s
    → place_service cname sname s config ≡ ok config'
    → (config'.graph ≡ config.graph)
      × (deps_outline config'.clusters ≡ deps_outline config.clusters)
unfolding place_service
place_service-deps cname sname s config config' found h =
    let (instances, _, rest) = >>=-eq-ok (service_instances s config.nodes) _ h in
    let ((placed, nodes), registered, more) =
      >>=-eq-ok (register_all cname sname s.module_name instances config.nodes) _ rest in
    let mid = set_service cname sname (record s { instances = placed }) config.clusters in
    let (clusters, enriched, same) = >>=-eq-ok (enrich_deps placed s.deps mid) _ more in
    (
      ap (λ c. c.graph) (sym (ok-injective same)),
      ap (λ c. deps_outline c.clusters) (sym (ok-injective same))
          ∙ enrich_deps-deps placed s.deps mid clusters enriched
          ∙ outline_by-set_service (λ s. s.deps) cname sname config.clusters s _ found refl,
    )

place_key-deps :
    (key : String) (config config' : Config)
    → place_key key config ≡ ok config'
    → (config'.graph ≡ config.graph)
      × (deps_outline config'.clusters ≡ deps_outline config.clusters)
unfolding place_key service_in_clusters service_in
place_key-deps key config config' h =
    let names = pair_of (split colon key) in
    elim (Option-cases (find names.0 config.clusters)) [
      | inl missing ↦ absurd (ground arith)
      | inr (c, found) ↦ elim (Option-cases (find names.1 c.services)) [
        | inl missing ↦ absurd (ground arith)
        | inr (s, there) ↦
            place_service-deps names.0 names.1 s config config'
              (rw (service_in_clusters, found, service_in) there) (ground arith)
      ]
    ]

pub place_all-deps :
    (keys : List String) (config config' : Config)
    → place_all keys config ≡ ok config'
    → (config'.graph ≡ config.graph)
      × (deps_outline config'.clusters ≡ deps_outline config.clusters)
unfolding place_all
place_all-deps [] config config' h = (
  ap (λ c. c.graph) (sym (ok-injective h)),
  ap (λ c. deps_outline c.clusters) (sym (ok-injective h)),
)
place_all-deps (key ∷ keys) config config' h =
    let (now, one, rest) = >>=-eq-ok (place_key key config) _ h in
    let (g, o) = place_all-deps keys now config' rest in
    let (g', o') = place_key-deps key config now one in (g ∙ g', o ∙ o')
