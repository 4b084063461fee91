-- ===== src/Normalize/Configure/Outline.antt =====
-- The outline of a configuration: what the calls of `configure` depend on.
use ryba.Base.{
  ℕ, String, ◌≡◌, refl, ap, ◌∙◌, Bool, List, map, Option, none, some, Option-cases, inl, inr,
}
use ryba.Js.{Result, ok, truthy}
use ryba.Text.{split, colon}
use ryba.Assoc.{map_values, map_some, find-map_values, map_values-insert, Map, find}
use ryba.Config.{Config, Cluster, Service, Instance, Dep}
use ryba.Store.{pair_of, service_in}
use ryba.Normalize.Placement.{set_service}
use ryba.Normalize.Configure.{Inject, service_in_clusters, service_under, put_service, required}

-- What the calls depend on: whether a service has a `configure`, the identifiers of its instances,
-- and its dependencies.
abbrev pub ServiceOutline : Type 0
ServiceOutline = Bool × List String × Map Dep

abbrev pub ids : List Instance → List String
ids instances = map (λ i. i.id) instances

abbrev pub outline_service : Service → ServiceOutline
outline_service s = (truthy s.configure, ids s.instances, s.deps)

abbrev pub Outline : Type 0
Outline = Map (Map ServiceOutline)

-- Each service of each cluster by what a function tells of it.
abbrev pub outline_by : {W : Type 0} → (Service → W) → Map Cluster → Map (Map W)
outline_by f clusters = map_values (λ c. map_values f c.services) clusters

abbrev pub outline : Map Cluster → Outline
outline clusters = outline_by outline_service clusters

abbrev pub outlined_in : Option (Map ServiceOutline) → String → Option ServiceOutline
outlined_in none sname = none
outlined_in (some c) sname = find sname c

abbrev pub outline_in : String → String → Outline → Option ServiceOutline
outline_in cname sname o = outlined_in (find cname o) sname

abbrev pub outline_under : String → Outline → Option ServiceOutline
outline_under key o = outline_in (pair_of (split colon key)).0 (pair_of (split colon key)).1 o

outlined_in-map_some :
    (o : Option Cluster) (sname : String)
    → outlined_in (map_some (λ c. map_values outline_service c.services) o) sname
      ≡ map_some outline_service (service_in o sname)
unfolding service_in
outlined_in-map_some none sname = refl
outlined_in-map_some (some c) sname = find-map_values outline_service sname c.services

pub outline_in-outline :
    (cname sname : String) (clusters : Map Cluster)
    → outline_in cname sname (outline clusters)
      ≡ map_some outline_service (service_in_clusters cname sname clusters)
unfolding service_in_clusters
outline_in-outline cname sname clusters =
    ap (λ o. outlined_in o sname)
      (find-map_values (λ c. map_values outline_service c.services) cname clusters)
    ∙ outlined_in-map_some (find cname clusters) sname

pub required-eq-ok : {A : Type 0} (o : Option A) {a : A} → required o ≡ ok a → o ≡ some a
required-eq-ok none h = cc
required-eq-ok (some a) h = cc

pub outline_under-outline :
    (key : String) (config : Config) (s : Service)
    → service_under key config ≡ ok s
    → outline_under key (outline config.clusters) ≡ some (outline_service s)
unfolding service_under
outline_under-outline key config s h =
    outline_in-outline _ _ config.clusters ∙ ap (map_some outline_service) (required-eq-ok _ h)

pub outline_by-set_service :
    {W : Type 0} (f : Service → W) (cname sname : String) (clusters : Map Cluster) (s s' : Service)
    → service_in_clusters cname sname clusters ≡ some s
    → f s' ≡ f s
    → outline_by f (set_service cname sname s' clusters) ≡ outline_by f clusters
unfolding service_in_clusters set_service service_in
outline_by-set_service f cname sname clusters s s' h same =
    elim (Option-cases (find cname clusters)) [
      | inl missing ↦ rw (set_service, missing)
      | inr (c, found) ↦
          rw (set_service, found)
            (map_values-insert (λ c. map_values f c.services) cname _ c clusters found
              (map_values-insert f sname s' s c.services (rw found at h) same))
    ]

pub outline-put_service :
    (key : String) (config : Config) (s s' : Service)
    → service_under key config ≡ ok s
    → outline_service s' ≡ outline_service s
    → outline (put_service key s' config).clusters ≡ outline config.clusters
unfolding service_under put_service
outline-put_service key config s s' h same =
    outline_by-set_service outline_service _ _ config.clusters s s' (required-eq-ok _ h) same

-- A function that leaves the outline alone; it may change everything else.
abbrev pub KeepsOutline : (ℕ → Inject → Config → Result Config) → Type 0
KeepsOutline call =
    (f : ℕ) (inject : Inject) (config config' : Config)
    → call f inject config ≡ ok config'
    → outline config'.clusters ≡ outline config.clusters
