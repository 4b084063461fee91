-- ===== src/Normalize/Discover/Modules/Identified.antt =====
-- What the identification of a dependency tells discovery.
use ryba.Base.{
  String, eq_iff, ◌≡◌, refl, sym, ap, ◌∙◌, inl, inr, false, [], ◌∷◌, List, Option, none, some,
  Option-cases, Bool-cases, arith,
}
use ryba.Js.{Result, ok, err, ◌>>=◌}
use ryba.Js.Laws.{>>=-eq-ok, ok-injective}
use ryba.Assoc.{Map, find}
use ryba.Config.{Dep}
use ryba.Normalize.Discover.{
  DepEntry, dep_object, Candidate, Last, full, next_last, cluster_of, identified,
  services_of_module, the_service, search_module, identify_dep,
}
use ryba.Normalize.Discover.Modules.Measure.{is_settled, settled-listed, unnamed-listed}
use ryba.Normalize.Discover.Modules.Invariant.{IsThrown}
use ryba.Normalize.Discover.Drafts.{name_text}

the_service-IsThrown : (m c : String) (found : List String) → IsThrown (the_service m c found)
unfolding the_service
the_service-IsThrown m c [] = tt
the_service-IsThrown m c (s ∷ []) = tt
the_service-IsThrown m c (s ∷ t ∷ more) = λ e. cc

search_module-IsThrown :
    (clusters : Map (Map Candidate)) (c : String) (m : Option String)
    → IsThrown (search_module clusters c m)
unfolding search_module
search_module-IsThrown clusters c none = λ e. cc
search_module-IsThrown clusters c (some m) = elim (Option-cases (find c clusters)) [
  | inl missing ↦ rw (missing, search_module) (λ e. cc)
  | inr (services, found) ↦
      rw (found, search_module) (the_service-IsThrown m c (services_of_module m services))
]

>>=-IsThrown {ℓ κ} :
    {A : Type ℓ} {B : Type κ} (r : Result A) (f : A → B)
    → IsThrown r
    → IsThrown (r >>= λ a. ok (f a))
>>=-IsThrown (ok a) f h = tt
>>=-IsThrown (err e) f h = h

pub identify_dep-IsThrown :
    (clusters : Map (Map Candidate)) (own : String) (last : Last) (entry : DepEntry)
    → IsThrown (identify_dep clusters own last entry)
unfolding identify_dep
identify_dep-IsThrown clusters own last entry =
    let g = dep_object entry in
    let now = next_last g.service last in
    let c = cluster_of g.cluster now.1 own in
    elim (Option-cases (full now.0)) [
      | inr (s, named) ↦ rw (identify_dep, named) tt
      | inl unnamed ↦
          rw (identify_dep, unnamed)
            (>>=-IsThrown (search_module clusters c (full g.module_name))
              (λ s. (identified g c s, now))
              (search_module-IsThrown clusters c (full g.module_name)))
    ]

full-some : (o : Option String) (s : String) → full o ≡ some s → full (some s) ≡ some s
full-some none s h = cc
full-some (some t) s h = ground arith

full-eq : (o : Option String) (s : String) → full o ≡ some s → o ≡ some s
full-eq none s h = cc
full-eq (some t) s h = ground arith

-- The module of a dependency stays.
pub identify_dep-module :
    (clusters : Map (Map Candidate)) (own : String) (last : Last) (entry : DepEntry) (dep : Dep)
    (now : Last)
    → identify_dep clusters own last entry ≡ ok (dep, now)
    → dep.module_name ≡ (dep_object entry).module_name
unfolding identify_dep
identify_dep-module clusters own last entry dep now h =
    let g = dep_object entry in
    elim (Option-cases (full (next_last g.service last).0)) [
      | inr (s, named) ↦ ground arith
      | inl unnamed ↦ ground arith
    ]

-- A dependency without a service has a module, by which the search found what it has.
pub identify_dep-search :
    (clusters : Map (Map Candidate)) (own : String) (last : Last) (entry : DepEntry) (dep : Dep)
    (now : Last)
    → identify_dep clusters own last entry ≡ ok (dep, now)
    → full dep.service ≡ none
    → (m : String) × (services : Map Candidate) × (dep.module_name ≡ some m)
      × (find dep.cluster clusters ≡ some services)
      × (the_service m dep.cluster (services_of_module m services) ≡ ok dep.service)
unfolding identify_dep search_module
identify_dep-search clusters own last entry dep now h unnamed =
    let g = dep_object entry in
    let last' = next_last g.service last in
    let c = cluster_of g.cluster last'.1 own in
    elim (Option-cases (full last'.0)) [
      | inr (s, named) ↦ absurd (ground (arith, full-some last'.0 s named))
      | inl none_named ↦ elim (Option-cases (full g.module_name)) [
        | inl missing ↦ absurd (ground arith)
        | inr (m, there) ↦ elim (Option-cases (find c clusters)) [
          | inl no_cluster ↦ absurd (ground arith)
          | inr (services, found) ↦
              let done : (the_service m c (services_of_module m services) >>= λ s.
              ok (identified g c s, last'))
                  ≡ ok (dep, now) =
                rw (identify_dep, none_named, there, search_module, found) at h in
              let (s, searched, same) =
                >>=-eq-ok (the_service m c (services_of_module m services)) _ done in
              let e : identified g c s ≡ dep = ap (λ r. r.0) (ok-injective same) in
              (
                m,
                services,
                ap (λ d. d.module_name) (sym e) ∙ full-eq g.module_name m there,
                ap (λ d. find d.cluster clusters) (sym e) ∙ found,
                ap (λ d. the_service m d.cluster (services_of_module m services)) (sym e)
                    ∙ searched
                    ∙ ap (λ d. ok d.service) e,
              )
        ]
      ]
    ]

not_found : (m c : String) (found : List String) → the_service m c found ≡ ok none → found ≡ []
unfolding the_service
not_found m c [] h = refl
not_found m c (s ∷ []) h = cc
not_found m c (s ∷ t ∷ more) h = cc

found_one :
    (m c s : String) (found : List String) → the_service m c found ≡ ok (some s) → found ≡ s ∷ []
unfolding the_service
found_one m c s [] h = cc
found_one m c s (t ∷ []) h = cc
found_one m c s (t ∷ u ∷ more) h = cc

-- If what the search found is not there under its name, no service of the module's name is.
pub the_service-is_settled :
    (m c : String) (services : Map Candidate) (o : Option String)
    → the_service m c (services_of_module m services) ≡ ok o
    → full o ≡ none
    → find (name_text o) services ≡ none
    → is_settled m (find m services) ≡ false
the_service-is_settled m c services none h e missing =
    elim (Bool-cases (is_settled m (find m services))) [
      | inr new ↦ new
      | inl there ↦
          absurd (settled-listed m services there (not_found m c (services_of_module m services) h))
    ]
the_service-is_settled m c services (some s) h e missing =
    let empty : s ≡ "" = ground (arith, eq_iff s "") in
    let (candidate, there) =
      unnamed-listed m services
        (found_one m c s (services_of_module m services) h ∙ ap (λ x. x ∷ []) empty) in
    absurd (cc (there, missing, empty))
