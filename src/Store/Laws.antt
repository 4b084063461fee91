-- ===== src/Store/Laws.antt =====
-- What the queries of the store return.
use ryba.Base.{
  String, ◌==◌, eq_iff, ◌≡◌, refl, sym, ap, ap₂, ◌∙◌, Bool, true, false, ◌||◌, ◌&&◌, List, [], ◌∷◌,
  ◌++◌, map, any, All, contains, some, arith, Bool-cases, inl, inr,
}
use ryba.Js.{Value, str, arr, to_items, ok}
use ryba.Text.{lacks, colon, split-join}
use ryba.Assoc.{Map, find, names, contents, AreDistinct, find-entries}
use ryba.Util.{multimatch, one}
use ryba.Util.Laws.{leaves, leaves_of, flatten_lem, IsUnique, unique_lem}
use ryba.Config.{Config, Cluster, Service, service_key}
use ryba.Store.{
  cluster, service_in, service, service_at, service_name, cluster_service_names, service_names,
  texts, service_commands, cluster_commands, commands, patterns,
}

texts-append : (xs ys : List Value) → texts (xs ++ ys) ≡ texts xs ++ texts ys
texts-append [] ys = refl
texts-append (str s ∷ xs) ys = ap (λ l. s ∷ l) (texts-append xs ys)
texts-append (arr vs ∷ xs) ys = texts-append xs ys
texts-append (v ∷ xs) ys = texts-append xs ys

contains-append :
    (xs ys : List String) (s : String) → contains (xs ++ ys) s ≡ (contains xs s || contains ys s)
contains-append [] ys s = refl
contains-append (x ∷ xs) ys s = ground (arith, contains-append xs ys s)

-- A text is among the leaves of an array exactly when it is among those of an element.
contains-leaves :
    {A : Type 0} (f : A → Value) (xs : List A) (s : String)
    → contains (texts (leaves (to_items (map f xs)))) s
      ≡ any (λ x. contains (texts (leaves_of (f x))) s) xs
unfolding leaves
contains-leaves f [] s = refl
contains-leaves f (x ∷ xs) s = rw (
  texts-append (leaves_of (f x)) (leaves (to_items (map f xs))),
  contains-append (texts (leaves_of (f x))) (texts (leaves (to_items (map f xs)))) s,
  contains-leaves f xs s,
)

texts-str : (ss : List String) → texts (leaves (to_items (map str ss))) ≡ ss
unfolding leaves
texts-str [] = refl
texts-str (s ∷ ss) = ap (λ l. s ∷ l) (texts-str ss)

any_ext {ℓ} :
    {A : Type ℓ} (p q : A → Bool) (xs : List A) → ((x : A) → p x ≡ q x) → any p xs ≡ any q xs
any_ext p q [] h = refl
any_ext p q (x ∷ xs) h = ground (arith, h x, any_ext p q xs h)

-- A command is listed by `commands` exactly when some service of some cluster has it, and it is
-- listed once.
pub commands_lem :
    (config : Config)
    → IsUnique (commands config)
      × ((c : String)
          → contains (commands config) c
            ≡ any
                (λ cl. any (λ s. contains (names s.commands) c) (contents cl.services))
                (contents config.clusters))
unfolding commands leaves
commands_lem config = (
  (unique_lem _).0,
  λ c.
      (unique_lem _).1 c
      ∙ ap (λ vs. contains (texts vs) c)
          (flatten_lem (to_items (map cluster_commands (contents config.clusters))) []).0
      ∙ contains-leaves cluster_commands (contents config.clusters) c
      ∙ any_ext _ _ (contents config.clusters) λ cl.
        contains-leaves service_commands (contents cl.services) c
        ∙ any_ext _ _ (contents cl.services)
            (λ s. ap (λ l. contains l c) (texts-str (names s.commands))),
)

contains-multimatch_one :
    (minimatch : String → String → Bool) (x pattern t : String) (f : String → String)
    → contains (map f (multimatch minimatch (one x) (one pattern))) t
      ≡ (minimatch x pattern && (f x == t))
unfolding multimatch
contains-multimatch_one minimatch x pattern t f = ground arith

module _ (minimatch : String → String → Bool) where
  -- The services that `service_names` lists: those whose names match, of the clusters whose names match.
  abbrev pub is_named : String → String → String → Cluster → Bool
  is_named cmatch smatch t c =
      minimatch c.id cmatch
      && any (λ s. minimatch s.id smatch && (service_key c.id s.id == t)) (contents c.services)

  contains-cluster :
      (cmatch smatch t : String) (c : Cluster)
      → contains (texts (leaves_of (cluster_service_names minimatch cmatch smatch c))) t
        ≡ is_named cmatch smatch t c
  unfolding cluster_service_names leaves multimatch service_name
  contains-cluster cmatch smatch t c = elim (Bool-cases (minimatch c.id cmatch)) [
    | inl hit ↦ rw hit (
        contains-leaves (service_name minimatch smatch c) (contents c.services) t
        ∙ any_ext _ _ (contents c.services) λ s.
          ap (λ l. contains l t) (texts-str _)
          ∙ contains-multimatch_one minimatch s.id smatch t (service_key c.id))
    | inr miss ↦ rw miss
  ]

  -- `service_names` lists `cluster:service` for exactly the services whose identifier matches the
  -- second part of the pattern, in the clusters whose identifier matches the first part.
  service_names-contains :
      (config : Config) (match t : String)
      → contains (texts (service_names minimatch config match)) t
        ≡ any (is_named (patterns match).0 (patterns match).1 t) (contents config.clusters)
  unfolding service_names
  service_names-contains config match t =
      ap (λ vs. contains (texts vs) t) (flatten_lem _ []).0
      ∙ contains-leaves _ (contents config.clusters) t
      ∙ any_ext _ _ (contents config.clusters)
          (contains-cluster (patterns match).0 (patterns match).1 t)

-- A name that can be written in a key.
abbrev pub IsName : String → Type 0
IsName s = (lacks colon s ≡ true) × ((s == "") ≡ false)

abbrev pub IsKeyedService : String → String × Service → Type 0
IsKeyedService c e = IsName e.0 × (e.1.id ≡ e.0) × (e.1.cluster ≡ c)

abbrev pub IsKeyedCluster : String × Cluster → Type 0
IsKeyedCluster e =
    IsName e.0 × (e.1.id ≡ e.0) × AreDistinct e.1.services × All (IsKeyedService e.0) e.1.services

-- Clusters and services stand under their identifiers, which are names.
abbrev pub IsKeyed : Config → Type 0
IsKeyed config = AreDistinct config.clusters × All IsKeyedCluster config.clusters

any_entry :
    {V : Type 0} (Q : String × V → Type 0) (p : V → Bool) (m : Map V)
    → All Q m
    → any p (contents m) ≡ true
    → (e : String × V) × Q e × (p e.1 ≡ true)
any_entry Q p [] h found = absurd (cc)
any_entry Q p ((k, v) ∷ m) h found = elim (Bool-cases (p v)) [
  | inl hit ↦ ((k, v), h.0, hit)
  | inr miss ↦ any_entry Q p m h.1 (rw miss at found)
]

All-both :
    {A : Type 0} (P Q : A → Type 0) (xs : List A) → All P xs → All Q xs → All (λ x. P x × Q x) xs
All-both P Q [] h k = tt
All-both P Q (x ∷ xs) h k = ((h.0, k.0), All-both P Q xs h.1 k.1)

-- The two ways to ask for a service agree, for names without a colon.
pub service_at-key :
    (config : Config) (c s : String)
    → lacks colon c ≡ true
    → lacks colon s ≡ true
    → service_at config (service_key c s) ≡ service config c s
unfolding service_at
service_at-key config c s h k = rw (split-join c s h k)

-- The text is the key of a service, which is found under it.
abbrev pub IsFound : Config → String → Type 0
IsFound config t =
    (s : Service) × (service_at config t ≡ ok (some s)) × (service_key s.cluster s.id ≡ t)

IsFound-service :
    (config : Config) (t : String) (e : String × Cluster) (g : String × Service)
    → find e.0 config.clusters ≡ some e.1
    → IsKeyedCluster e
    → find g.0 e.1.services ≡ some g.1
    → IsKeyedService e.0 g
    → (service_key e.1.id g.1.id == t) ≡ true
    → IsFound config t
unfolding service cluster service_in
IsFound-service config t e g c_found ((c_plain, c_full), c_id, _, _) s_found
      ((s_plain, s_full), s_id, s_cluster) same =
    let key : service_key e.0 g.0 ≡ t =
      ap₂ service_key (sym c_id) (sym s_id) ∙ (eq_iff _ _).0 same in
    (
      g.1,
      rw (← key, service_at-key config e.0 g.0 c_plain s_plain, c_full, s_full, c_found)
          (rw s_found),
      ap₂ service_key s_cluster s_id ∙ key,
    )

IsFound-cluster :
    (minimatch : String → String → Bool) (cmatch smatch t : String) (config : Config)
    (e : String × Cluster)
    → find e.0 config.clusters ≡ some e.1
    → IsKeyedCluster e
    → is_named minimatch cmatch smatch t e.1 ≡ true
    → IsFound config t
IsFound-cluster minimatch cmatch smatch t config e c_found keyed named =
    let (g, (s_found, s_keyed), hit) =
      any_entry (λ g. (find g.0 e.1.services ≡ some g.1) × IsKeyedService e.0 g)
        (λ s. minimatch s.id smatch && (service_key e.1.id s.id == t)) e.1.services
        (All-both _ _ e.1.services (find-entries e.1.services keyed.2) keyed.3) (ground arith) in
    IsFound-service config t e g c_found keyed s_found s_keyed (ground arith)

-- If clusters and services stand under their identifiers, which are distinct, not empty and without
-- a colon, then every name that `service_names` lists is the key of a service, and `service` finds
-- that service under it.
pub service_at-service_names :
    (minimatch : String → String → Bool) (config : Config) (match t : String)
    → IsKeyed config
    → contains (texts (service_names minimatch config match)) t ≡ true
    → IsFound config t
service_at-service_names minimatch config match t keyed listed =
    let (e, (c_found, c_keyed), named) =
      any_entry (λ e. (find e.0 config.clusters ≡ some e.1) × IsKeyedCluster e)
        (is_named minimatch (patterns match).0 (patterns match).1 t) config.clusters
        (All-both _ _ config.clusters (find-entries config.clusters keyed.0) keyed.1)
        (sym (service_names-contains minimatch config match t) ∙ listed) in
    IsFound-cluster minimatch (patterns match).0 (patterns match).1 t config e c_found c_keyed named
