-- ===== src/Normalize/Configure/Order.antt =====
-- A service is configured after its dependencies.
use ryba.Base.{
  ℕ, String, ◌==◌, eq_iff, ◌≡◌, refl, sym, ◌∙◌, subst, Bool, true, false, not, ◌||◌, List, [], ◌∷◌,
  ◌++◌, any, contains, All, Option, none, some, Option-cases, Bool-cases, inl, inr, arith,
}
use mathlib.Core.List.{append_assoc}
use ryba.Js.{Value, Result, ok}
use ryba.Text.{split, colon}
use ryba.Assoc.{Map, find}
use ryba.Config.{Config, Cluster, Service, Dep, service_key}
use ryba.Store.{pair_of, service_in}
use ryba.Util.Laws.{IsUnique}
use ryba.Normalize.Each.{AllEntries, AllServices, AllEntries-map}
use ryba.Normalize.Graph.{is_disabled, is_some_of, service_text}
use ryba.Normalize.Graph.Laws.{precedes, IsOrdered, IsPlaced}
use ryba.Normalize.Configure.{Inject, Called, service_in_clusters, configure_all}
use ryba.Normalize.Configure.Outline.{KeepsOutline, ServiceOutline, Outline, outline, outline_under}
use ryba.Normalize.Configure.Calls.{calls_on, calls_of, all_calls, configure_all-calls}

-- Whether a service is called.
abbrev pub called : String → List Called → Bool
called key calls = any (λ c. c.0 == key) calls

-- The cluster and the name in a key.
abbrev pub key_names : String → String × String
key_names key = pair_of (split colon key)

-- A key that is read back.
abbrev pub IsKey : String → Type 0
IsKey key = service_key (key_names key).0 (key_names key).1 ≡ key

abbrev pub deps_of : Option Service → Map Dep
deps_of none = []
deps_of (some s) = s.deps

-- The dependencies of the service under a key.
abbrev pub deps_under : String → Map Cluster → Map Dep
deps_under key clusters = deps_of (service_in_clusters (key_names key).0 (key_names key).1 clusters)

-- The service of an enabled dependency, unless it has the name of the service itself, is not called.
abbrev pub IsOver : String → List Called → Dep → Type 0
IsOver key after dep =
    (is_disabled dep
      || is_some_of dep.service (key_names key).1
      || not (called (service_key dep.cluster (service_text dep.service)) after))
    ≡ true

-- For each call, the dependencies of its service are over.
abbrev pub AreOver : Map Cluster → List Called → Type 0
AreOver clusters [] = Unit
AreOver clusters (c ∷ after) =
    AllEntries (λ _ dep. IsOver c.0 after dep) (deps_under c.0 clusters) × AreOver clusters after

precedes-contains :
    (a b : String) (xs : List String) → precedes a b xs ≡ true → contains xs b ≡ true
precedes-contains a b [] h = cc
precedes-contains a b (x ∷ xs) h = ground (arith, precedes-contains a b xs)

contains-append :
    (xs ys : List String) (a : String) → contains (xs ++ ys) a ≡ (contains xs a || contains ys a)
contains-append [] ys a = refl
contains-append (x ∷ xs) ys a = ground (arith, contains-append xs ys a)

-- What precedes an entry does not stand at it or behind it.
precedes-ne :
    (a k : String) (before keys : List String)
    → IsUnique (before ++ k ∷ keys)
    → precedes a k (before ++ k ∷ keys) ≡ true
    → contains (k ∷ keys) a ≡ false
precedes-ne a k [] keys unique h = elim (Bool-cases (k == a)) [
  | inl same ↦ absurd (cc (unique.0, rw same at h))
  | inr other ↦ absurd (cc (unique.0, precedes-contains a k keys (rw other at h)))
]
precedes-ne a k (x ∷ before) keys unique h = elim (Bool-cases (x == a)) [
  | inl same ↦
      let e : x ≡ a = (eq_iff x a).0 same in
      let out : contains (before ++ k ∷ keys) a ≡ false =
        subst (λ y. contains (before ++ k ∷ keys) y ≡ false) e unique.0 in
      ground (arith, contains-append before (k ∷ keys) a)
  | inr other ↦ precedes-ne a k before keys unique.1 (rw other at h)
]

called-append :
    (key : String) (xs ys : List Called) → called key (xs ++ ys) ≡ (called key xs || called key ys)
called-append key [] ys = refl
called-append key (x ∷ xs) ys = ground (arith, called-append key xs ys)

called-calls_on :
    (key a : String) (is : List String) → (key == a) ≡ false → called a (calls_on key is) ≡ false
called-calls_on key a [] h = refl
called-calls_on key a (i ∷ is) h = ground (arith, called-calls_on key a is h)

called-calls_of :
    (key a : String) (o : Option ServiceOutline)
    → (key == a) ≡ false
    → called a (calls_of key o) ≡ false
called-calls_of key a none h = refl
called-calls_of key a (some (has_configure, is, deps)) h =
    ground (arith, called-calls_on key a is h)

called-all_calls :
    (keys : List String) (a : String) (o : Outline)
    → contains keys a ≡ false
    → called a (all_calls keys o) ≡ false
called-all_calls [] a o h = refl
called-all_calls (key ∷ keys) a o h =
    called-append a (calls_of key (outline_under key o)) (all_calls keys o)
    ∙ ground (arith, called-calls_of key a (outline_under key o), called-all_calls keys a o)

-- The dependency stands before the key and what follows it, unless it does not count.
abbrev IsBefore : String → List String → Dep → Type 0
IsBefore key keys dep =
    (is_disabled dep
      || is_some_of dep.service (key_names key).1
      || not (contains (key ∷ keys) (service_key dep.cluster (service_text dep.service))))
    ≡ true

IsOver-IsBefore :
    (key : String) (is keys : List String) (o : Outline) (dep : Dep)
    → IsBefore key keys dep
    → IsOver key (calls_on key is ++ all_calls keys o) dep
IsOver-IsBefore key is keys o dep h =
    let a = service_key dep.cluster (service_text dep.service) in
    ground (
      arith,
      called-append a (calls_on key is) (all_calls keys o),
      called-calls_on key a is,
      called-all_calls keys a o,
    )

AreOver-calls_on :
    (clusters : Map Cluster) (key : String) (is keys : List String) (o : Outline)
    → AllEntries (λ _ dep. IsBefore key keys dep) (deps_under key clusters)
    → AreOver clusters (all_calls keys o)
    → AreOver clusters (calls_on key is ++ all_calls keys o)
AreOver-calls_on clusters key [] keys o h later = later
AreOver-calls_on clusters key (i ∷ is) keys o h later = (
  AllEntries-map _ _ (deps_under key clusters) (λ dname dep. IsOver-IsBefore key is keys o dep) h,
  AreOver-calls_on clusters key is keys o h later,
)

AreOver-calls_of :
    (clusters : Map Cluster) (key : String) (out : Option ServiceOutline) (keys : List String)
    (o : Outline)
    → AllEntries (λ _ dep. IsBefore key keys dep) (deps_under key clusters)
    → AreOver clusters (all_calls keys o)
    → AreOver clusters (calls_of key out ++ all_calls keys o)
AreOver-calls_of clusters key none keys o h later = later
AreOver-calls_of clusters key (some (true, is, deps)) keys o h later =
    AreOver-calls_on clusters key is keys o h later
AreOver-calls_of clusters key (some (false, is, deps)) keys o h later = later

AllEntries-at :
    {V : Type 0} (P : String → V → Type 0) (k : String) (m : Map V) (v : V)
    → AllEntries P m
    → find k m ≡ some v
    → P k v
unfolding find
AllEntries-at P k [] v h found = cc
AllEntries-at P k ((j, w) ∷ m) v h found = elim (Bool-cases (j == k)) [
  | inl same ↦
      let e : some w ≡ some v = rw same at found in
      subst (λ x. P x v) ((eq_iff j k).0 same) (subst (P j) (cc) h.0)
  | inr other ↦ AllEntries-at P k m v h.1 (rw other at found)
]

-- What holds of every service holds of the one that is found.
deps-AllServices :
    (P : String → String → Dep → Type 0) (cname sname : String) (clusters : Map Cluster)
    → AllServices (λ c s service. AllEntries (λ _ dep. P c s dep) service.deps) clusters
    → AllEntries (λ _ dep. P cname sname dep) (deps_of (service_in_clusters cname sname clusters))
unfolding service_in_clusters service_in
deps-AllServices P cname sname clusters h = elim (Option-cases (find cname clusters)) [
  | inl missing ↦ rw (service_in_clusters, missing) tt
  | inr (c, found) ↦
      let in_c = AllEntries-at _ cname clusters c h found in
      elim (Option-cases (find sname c.services)) [
        | inl missing ↦ rw (service_in_clusters, found, service_in, missing) tt
        | inr (s, there) ↦
            rw (service_in_clusters, found, service_in, there)
              (AllEntries-at _ sname c.services s in_c there)
      ]
]

IsBefore-IsOrdered :
    (key : String) (before keys : List String) (dep : Dep)
    → IsKey key
    → IsUnique (before ++ key ∷ keys)
    → IsOrdered (before ++ key ∷ keys) (key_names key).0 (key_names key).1 dep
    → IsBefore key keys dep
IsBefore-IsOrdered key before keys dep is_key unique h =
    let a = service_key dep.cluster (service_text dep.service) in
    let h' : (is_disabled dep
          || is_some_of dep.service (key_names key).1
          || precedes a key (before ++ key ∷ keys))
        ≡ true =
      subst
        (λ k.
          (is_disabled dep
            || is_some_of dep.service (key_names key).1
            || precedes a k (before ++ key ∷ keys))
          ≡ true)
        is_key h in
    ground (arith, precedes-ne a key before keys unique)

all_calls-AreOver :
    (clusters : Map Cluster) (before keys : List String) (o : Outline)
    → IsUnique (before ++ keys)
    → All IsKey keys
    → AllServices (IsPlaced (before ++ keys)) clusters
    → AreOver clusters (all_calls keys o)
all_calls-AreOver clusters before [] o unique are_keys placed = tt
all_calls-AreOver clusters before (key ∷ keys) o unique are_keys placed =
    let same : (before ++ key ∷ []) ++ keys ≡ before ++ key ∷ keys =
      append_assoc before (key ∷ []) keys in
    AreOver-calls_of clusters key (outline_under key o) keys o
      (AllEntries-map _ _ (deps_under key clusters)
        (λ dname dep. IsBefore-IsOrdered key before keys dep are_keys.0 unique)
        (deps-AllServices (λ c s dep. IsOrdered (before ++ key ∷ keys) c s dep) (key_names key).0
          (key_names key).1 clusters
          (AllEntries-map _ _ clusters (λ cname c. AllEntries-map _ _ c.services (λ sname s p. p.1))
            placed)))
      (all_calls-AreOver clusters (before ++ key ∷ []) keys o (subst IsUnique (sym same) unique)
        are_keys.1 (subst (λ l. AllServices (IsPlaced l) clusters) (sym same) placed))

-- If the graph lists every service once, under keys that are read back, and each after its enabled
-- dependencies of another name, and if the functions that are called leave the outline alone, then no
-- service is configured before such a dependency: at each call, all calls for the services that its own
-- service depends on have been made.
pub configure_all-AreOver :
    (merge : Value → Value → Value → Value) (load : String → Result Value)
    (call : ℕ → Inject → Config → Result Config) (config config' : Config) (calls : List Called)
    → KeepsOutline call
    → IsUnique config.graph
    → All IsKey config.graph
    → AllServices (IsPlaced config.graph) config.clusters
    → configure_all merge load call config ≡ ok (config', calls)
    → AreOver config.clusters calls
configure_all-AreOver merge load call config config' calls keeps unique are_keys placed h =
    rw (configure_all-calls merge load call config config' calls keeps h).1 (
      all_calls-AreOver config.clusters [] config.graph (outline config.clusters) unique are_keys
        placed)
