-- ===== src/Normalize/Placement/Laws.antt =====
-- A service is registered at most once with a node, whatever the configuration and the affinities.
use ryba.Base.{
  ℕ, ◌≤◌, String, ◌==◌, eq_iff, eq_refl, ◌≡◌, ◌≢◌, subst, false, ◌&&◌, List, [], ◌∷◌, keep, length,
  some, arith, if◌then◌else◌, ◌=ℕ◌, Bool-cases, Option-cases, inl, inr,
}
use ryba.Js.{ok, err, should_never_happen}
use ryba.Js.Laws.{>>=-eq-ok, ok-injective}
use ryba.Assoc.{Map, find, insert}
use ryba.Config.{Config, Service, Node, NodeService, Instance}
use ryba.Text.{split, colon}
use ryba.Store.{pair_of}
use ryba.Normalize.Each.{AllEntries}
use ryba.Normalize.Inject.{node_options, options_by_count}
use ryba.Normalize.Placement.{
  is_entry, register, register_instance, register_all, service_instances, set_service, enrich_deps,
  place_service, place_key, place_all,
}

-- How often a service is registered.
abbrev pub count : String → String → List NodeService → ℕ
count cname sname services = length (keep (is_entry cname sname) services)

-- A service that is not registered is so now, once.
count-register_self :
    (cname sname m : String) (services : List NodeService)
    → count cname sname (register cname sname m services).0
      ≡ (if count cname sname services =ℕ 0 then 1 else count cname sname services)
unfolding register
count-register_self cname sname m [] = ground (arith, eq_refl cname, eq_refl sname)
count-register_self cname sname m (srv ∷ services) =
    ground (arith, count-register_self cname sname m services)

count-register_ne :
    (cname sname m c s : String) (services : List NodeService)
    → ((cname == c) && (sname == s)) ≡ false
    → count c s (register cname sname m services).0 ≡ count c s services
unfolding register
count-register_ne cname sname m c s [] h = ground arith
count-register_ne cname sname m c s (srv ∷ services) h =
    ground (arith, count-register_ne cname sname m c s services)

abbrev pub IsOnce : Node → Type 0
IsOnce n = (c s : String) → count c s n.services ≤ 1

-- Each service is registered at most once with each node.
abbrev pub AreOnce : Map Node → Type 0
AreOnce nodes = AllEntries (λ _ n. IsOnce n) nodes

register-le :
    (cname sname m : String) (services : List NodeService)
    → ((c s : String) → count c s services ≤ 1)
    → (c s : String) → count c s (register cname sname m services).0 ≤ 1
register-le cname sname m services h c s = elim (Bool-cases ((cname == c) && (sname == s))) [
  | inl same ↦
      let e : cname ≡ c = (eq_iff cname c).0 (ground arith) in
      let d : sname ≡ s = (eq_iff sname s).0 (ground arith) in
      rw (← e, ← d) (ground (arith, count-register_self cname sname m services, h cname sname))
  | inr other ↦ omega (arith, count-register_ne cname sname m c s services other, h c s)
]

pub AllEntries-find :
    {V : Type 0} (P : V → Type 0) (k : String) (m : Map V) (v : V)
    → AllEntries (λ _ w. P w) m
    → find k m ≡ some v
    → P v
unfolding find
AllEntries-find P k [] v h found = cc
AllEntries-find P k ((j, w) ∷ m) v h found = elim (Bool-cases (j == k)) [
  | inl same ↦ let e : some w ≡ some v = rw same at found in subst P (cc) h.0
  | inr other ↦ AllEntries-find P k m v h.1 (rw other at found)
]

AllEntries-insert :
    {V : Type 0} (P : V → Type 0) (k : String) (v : V) (m : Map V)
    → P v
    → AllEntries (λ _ w. P w) m
    → AllEntries (λ _ w. P w) (insert k v m)
unfolding insert
AllEntries-insert P k v [] p h = (p, tt)
AllEntries-insert P k v ((j, w) ∷ m) p h = elim (Bool-cases (j == k)) [
  | inl same ↦ rw same (p, h.1)
  | inr other ↦ rw other (h.0, AllEntries-insert P k v m p h.1)
]

module _ (cname sname m : String) where
  register_instance-AreOnce :
      (i : Instance) (nodes : Map Node) (r : Instance × Map Node)
      → AreOnce nodes
      → register_instance cname sname m i nodes ≡ ok r
      → AreOnce r.1
  unfolding register_instance
  register_instance-AreOnce i nodes r once h = elim (Option-cases (find i.node.id nodes)) [
    | inl missing ↦ absurd (ground arith)
    | inr (n, found) ↦
        let e = ok-injective (rw (found, register_instance) at h) in
        rw (← e) (
          AllEntries-insert IsOnce i.node.id
            (record n { services = (register cname sname m n.services).0 }) nodes
            (register-le cname sname m n.services
              (AllEntries-find IsOnce i.node.id nodes n once found))
            once)
  ]

  register_all-AreOnce :
      (instances : List Instance) (nodes : Map Node) (r : List Instance × Map Node)
      → AreOnce nodes
      → register_all cname sname m instances nodes ≡ ok r
      → AreOnce r.1
  unfolding register_all
  register_all-AreOnce [] nodes r once h = rw (← ok-injective h) once
  register_all-AreOnce (i ∷ instances) nodes r once h =
      let (now, done, rest) = >>=-eq-ok (register_instance cname sname m i nodes) _ h in
      let (later, more, same) = >>=-eq-ok (register_all cname sname m instances now.1) _ rest in
      rw (← ok-injective same) (
        register_all-AreOnce instances now.1 later (register_instance-AreOnce i nodes now once done)
          more)

place_service-AreOnce :
    (cname sname : String) (s : Service) (config config' : Config)
    → AreOnce config.nodes
    → place_service cname sname s config ≡ ok config'
    → AreOnce config'.nodes
unfolding place_service
place_service-AreOnce cname sname s config config' once h =
    let (instances, _, rest) = >>=-eq-ok (service_instances s config.nodes) _ h in
    let ((placed, nodes), registered, more) =
      >>=-eq-ok (register_all cname sname s.module_name instances config.nodes) _ rest in
    let (clusters, _, same) =
      >>=-eq-ok
        (enrich_deps placed s.deps
          (set_service cname sname (record s { instances = placed }) config.clusters))
        _ more in
    rw (← ok-injective same) (
      register_all-AreOnce cname sname s.module_name instances config.nodes (placed, nodes) once
        registered)

place_key-AreOnce :
    (key : String) (config config' : Config)
    → AreOnce config.nodes
    → place_key key config ≡ ok config'
    → AreOnce config'.nodes
unfolding place_key
place_key-AreOnce key config config' once h =
    let names = pair_of (split colon key) in
    elim (Option-cases (find names.0 config.clusters)) [
      | inl missing ↦ absurd (ground arith)
      | inr (c, found) ↦ elim (Option-cases (find names.1 c.services)) [
        | inl missing ↦ absurd (ground arith)
        | inr (s, there) ↦
            place_service-AreOnce names.0 names.1 s config config' once (ground arith)
      ]
    ]

pub place_all-AreOnce :
    (keys : List String) (config config' : Config)
    → AreOnce config.nodes
    → place_all keys config ≡ ok config'
    → AreOnce config'.nodes
unfolding place_all
place_all-AreOnce [] config config' once h = rw (← ok-injective h) once
place_all-AreOnce (key ∷ keys) config config' once h =
    let (now, done, rest) = >>=-eq-ok (place_key key config) _ h in
    place_all-AreOnce keys now config' (place_key-AreOnce key config now once done) rest

options-ne :
    (found : List NodeService) → length found ≤ 1 → options_by_count found ≢ err should_never_happen
unfolding options_by_count
options-ne [] h = λ e. cc
options-ne (a ∷ []) h = λ e. cc
options-ne (a ∷ b ∷ more) h = absurd (omega arith)

abbrev pub AllOptions : Map Node → Type 0
AllOptions nodes =
    AllEntries (λ _ n. (c s : String) → node_options c s n.services ≢ err should_never_happen) nodes

pub AllOptions-of_AreOnce : (nodes : Map Node) → AreOnce nodes → AllOptions nodes
unfolding node_options
AllOptions-of_AreOnce [] h = tt
AllOptions-of_AreOnce ((k, n) ∷ nodes) h =
    (λ c s. options-ne (keep (is_entry c s) n.services) (h.0 c s), AllOptions-of_AreOnce nodes h.1)

-- If at the start each service is registered at most once with each node, then after any number of
-- rounds of the pass that succeed, the error "Should never happen" of the next pass is not thrown
-- for any service on any node.
pub node_options-place_all :
    (keys : List String) (config config' : Config)
    → AreOnce config.nodes
    → place_all keys config ≡ ok config'
    → AllOptions config'.nodes
node_options-place_all keys config config' once h =
    AllOptions-of_AreOnce config'.nodes (place_all-AreOnce keys config config' once h)
