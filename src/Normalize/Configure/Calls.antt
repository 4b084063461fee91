-- ===== src/Normalize/Configure/Calls.antt =====
-- Which calls the loop makes: those of the services of the graph, in its order, each instance once.
use ryba.Base.{
  ℕ, zero, suc, ◌+◌, String, ◌≡◌, refl, sym, ap, ◌∙◌, true, List, [], ◌∷◌, ◌++◌, map, Option, none,
  some, Bool-cases, inl, inr, arith, length, if◌then◌else◌,
}
use ryba.Js.{Value, str, func, Result, ok, truthy, traverse}
use ryba.Js.Laws.{>>=-eq-ok, ok-injective}
use ryba.Assoc.{Map}
use ryba.Config.{Config, Service, Node, Instance}
use ryba.Normalize.Inject.{instance_options, node_options, inject_deps}
use ryba.Normalize.Configure.{
  Inject, Called, service_under, put_service, node_under, instance_at, options_of_instance,
  set_options, load_configure, function_of, call_configure, configure_instance, configure_from,
  configure_key, configure_keys, configure_all,
}
use ryba.Normalize.Configure.Outline.{
  KeepsOutline, ServiceOutline, Outline, ids, outline, outline_service, outline_under,
  outline-put_service, outline_under-outline,
}

abbrev pub drop {ℓ} : {A : Type ℓ} → ℕ → List A → List A
drop zero xs = xs
drop (suc n) [] = []
drop (suc n) (x ∷ xs) = drop n xs

-- The calls of a service, one for each identifier.
abbrev pub calls_on : String → List String → List Called
calls_on key is = map (λ i. (key, i)) is

abbrev pub calls_of : String → Option ServiceOutline → List Called
calls_of key none = []
calls_of key (some (has_configure, is, deps)) = if has_configure then calls_on key is else []

abbrev pub all_calls : List String → Outline → List Called
all_calls [] o = []
all_calls (key ∷ keys) o = calls_of key (outline_under key o) ++ all_calls keys o

drop-instance_at :
    (n : ℕ) (instances : List Instance) (i : Instance)
    → instance_at n instances ≡ ok i
    → drop n (ids instances) ≡ i.id ∷ drop (suc n) (ids instances)
unfolding instance_at
drop-instance_at n [] i h = cc
drop-instance_at zero (x ∷ instances) i h = ground arith
drop-instance_at (suc n) (x ∷ instances) i h = drop-instance_at n instances i h

drop-length : (n : ℕ) (is : List String) → n ≡ length is → drop n is ≡ []
drop-length zero [] h = refl
drop-length zero (i ∷ is) h = absurd (omega arith)
drop-length (suc n) [] h = refl
drop-length (suc n) (i ∷ is) h = drop-length n is (omega arith)

length-ids : (instances : List Instance) → length (ids instances) ≡ length instances
length-ids [] = refl
length-ids (i ∷ instances) = ap suc (length-ids instances)

module _ (merge : Value → Value → Value → Value) where
  ids-set_options :
      (s : Service) (nodes : Map Node) (instances instances' : List Instance)
      → traverse (options_of_instance merge s nodes) instances ≡ ok instances'
      → ids instances' ≡ ids instances
  unfolding options_of_instance instance_options
  ids-set_options s nodes [] instances' h = rw (← ok-injective h)
  ids-set_options s nodes (i ∷ instances) instances' h =
      let (i', one, rest) = >>=-eq-ok (options_of_instance merge s nodes i) _ h in
      let (more, later, same) =
        >>=-eq-ok (traverse (options_of_instance merge s nodes) instances) _ rest in
      let (n, found, known) = >>=-eq-ok (node_under i.node.id nodes) _ one in
      let (v, options, made) = >>=-eq-ok (node_options s.cluster s.id n.services) _ known in
      rw (← ok-injective same, ← ok-injective made)
        (ap (λ l. i.id ∷ l) (ids-set_options s nodes instances more later))

  outline-set_options :
      (key : String) (config config' : Config)
      → set_options merge key config ≡ ok config'
      → outline config'.clusters ≡ outline config.clusters
  unfolding set_options
  outline-set_options key config config' h =
      let (s, found, rest) = >>=-eq-ok (service_under key config) _ h in
      let (instances, done, same) =
        >>=-eq-ok (traverse (options_of_instance merge s config.nodes) s.instances) _ rest in
      rw (← ok-injective same) (
        outline-put_service key config s _ found (
          ap (λ l. (truthy s.configure, l, s.deps))
            (ids-set_options s config.nodes s.instances instances done)))

truthy-load_configure :
    (s : Service) (v : Value) (f : ℕ)
    → truthy s.configure ≡ true
    → function_of v ≡ ok f
    → truthy v ≡ truthy s.configure
unfolding function_of
truthy-load_configure s (func g) f has e = rw has
truthy-load_configure s Value.undefined f has e = cc
truthy-load_configure s Value.null f has e = cc
truthy-load_configure s (Value.bool b) f has e = cc
truthy-load_configure s (Value.num n) f has e = cc
truthy-load_configure s (str t) f has e = cc
truthy-load_configure s (Value.arr vs) f has e = cc
truthy-load_configure s (Value.obj fs) f has e = cc

module _ (load : String → Result Value) (call : ℕ → Inject → Config → Result Config) where
  call_configure-calls :
      (key : String) (s : Service) (i : Instance) (inject : Inject) (config config' : Config)
      (calls : List Called)
      → KeepsOutline call
      → service_under key config ≡ ok s
      → call_configure load call key s i inject config ≡ ok (config', calls)
      → (outline config'.clusters ≡ outline config.clusters)
        × (calls ≡ (if truthy s.configure then (key, i.id) ∷ [] else []))
  unfolding call_configure
  call_configure-calls key s i inject config config' calls keeps found h =
      elim (Bool-cases (truthy s.configure)) [
        | inr plain ↦
            let e : ok (config, []) ≡ ok (config', calls) = rw plain at h in
            rw plain (
              ap (λ p. outline p.0.clusters) (sym (ok-injective e)),
              ap (λ p. p.1) (sym (ok-injective e)),
            )
        | inl has ↦
            let (v, got, rest) = >>=-eq-ok (load_configure load call s) _ (rw has at h) in
            let (f, is_function, more) = >>=-eq-ok (function_of v) _ rest in
            let (last, called, same) =
              >>=-eq-ok (call f inject (put_service key (record s { configure = v }) config)) _
                more in
            rw has (
              ap (λ p. outline p.0.clusters) (sym (ok-injective same))
                  ∙ keeps f inject _ last called
                  ∙ outline-put_service key config s (record s { configure = v }) found
                      (ap (λ b. (b, ids s.instances, s.deps))
                        (truthy-load_configure s v f has is_function)),
              ap (λ p. p.1) (sym (ok-injective same)),
            )
      ]

  -- One round: the call for the instance of that index.
  configure_instance-calls :
      (key : String) (n : ℕ) (config config' : Config) (calls : List Called) (o : ServiceOutline)
      → KeepsOutline call
      → outline_under key (outline config.clusters) ≡ some o
      → configure_instance load call key n config ≡ ok (config', calls)
      → (outline config'.clusters ≡ outline config.clusters)
        × (calls ++ (if o.0 then calls_on key (drop (suc n) o.1) else [])
            ≡ (if o.0 then calls_on key (drop n o.1) else []))
  unfolding configure_instance
  configure_instance-calls key n config config' calls o keeps known h =
      let (s, found, rest) = >>=-eq-ok (service_under key config) _ h in
      let (i, there, rest') = >>=-eq-ok (instance_at n s.instances) _ rest in
      let (node, at, rest'') = >>=-eq-ok (node_under i.node.id config.nodes) _ rest' in
      let (deps, injected, called) =
        >>=-eq-ok (inject_deps config.clusters node.id s.deps) _ rest'' in
      let (kept, made) = call_configure-calls key s i _ config config' calls keeps found called in
      let same : outline_service s ≡ o = cc (outline_under-outline key config s found, known) in
      (kept, rw (← same, made, drop-instance_at n s.instances i there) (ground arith))

  configure_from-calls :
      (key : String) (n left : ℕ) (config config' : Config) (calls : List Called)
      (o : ServiceOutline)
      → KeepsOutline call
      → outline_under key (outline config.clusters) ≡ some o
      → n + left ≡ length o.1
      → configure_from load call key n left config ≡ ok (config', calls)
      → (outline config'.clusters ≡ outline config.clusters)
        × (calls ≡ (if o.0 then calls_on key (drop n o.1) else []))
  unfolding configure_from
  configure_from-calls key n zero config config' calls o keeps known size h =
      let e = ok-injective h in
      (
        ap (λ p. outline p.0.clusters) (sym e),
        ap (λ p. p.1) (sym e) ∙ rw (drop-length n o.1 (omega arith)) (ground arith),
      )
  configure_from-calls key n (suc left) config config' calls o keeps known size h =
      let ((mid, now), one, rest) = >>=-eq-ok (configure_instance load call key n config) _ h in
      let ((last, later), more, same) =
        >>=-eq-ok (configure_from load call key (suc n) left mid) _ rest in
      let (kept, step) = configure_instance-calls key n config mid now o keeps known one in
      let (kept', steps) =
        configure_from-calls key (suc n) left mid last later o keeps
          (ap (outline_under key) kept ∙ known) (omega arith) more in
      (
        ap (λ p. outline p.0.clusters) (sym (ok-injective same)) ∙ kept' ∙ kept,
        ap (λ p. p.1) (sym (ok-injective same)) ∙ ap (λ l. now ++ l) steps ∙ step,
      )

module _ (merge : Value → Value → Value → Value) (load : String → Result Value)
    (call : ℕ → Inject → Config → Result Config) where
  configure_key-calls :
      (key : String) (config config' : Config) (calls : List Called)
      → KeepsOutline call
      → configure_key merge load call key config ≡ ok (config', calls)
      → (outline config'.clusters ≡ outline config.clusters)
        × (calls ≡ calls_of key (outline_under key (outline config.clusters)))
  unfolding configure_key
  configure_key-calls key config config' calls keeps h =
      let (mid, set, rest) = >>=-eq-ok (set_options merge key config) _ h in
      let (s, found, done) = >>=-eq-ok (service_under key mid) _ rest in
      let known = outline_under-outline key mid s found in
      let kept = outline-set_options merge key config mid set in
      let (kept', made) =
        configure_from-calls load call key 0 (length s.instances) mid config' calls
          (outline_service s) keeps known (omega (arith, length-ids s.instances)) done in
      (kept' ∙ kept, made ∙ sym (ap (calls_of key) (ap (outline_under key) (sym kept) ∙ known)))

  configure_keys-calls :
      (keys : List String) (config config' : Config) (calls : List Called)
      → KeepsOutline call
      → configure_keys merge load call keys config ≡ ok (config', calls)
      → (outline config'.clusters ≡ outline config.clusters)
        × (calls ≡ all_calls keys (outline config.clusters))
  unfolding configure_keys
  configure_keys-calls [] config config' calls keeps h =
      (ap (λ p. outline p.0.clusters) (sym (ok-injective h)), ap (λ p. p.1) (sym (ok-injective h)))
  configure_keys-calls (key ∷ keys) config config' calls keeps h =
      let ((mid, now), one, rest) = >>=-eq-ok (configure_key merge load call key config) _ h in
      let ((last, later), more, same) =
        >>=-eq-ok (configure_keys merge load call keys mid) _ rest in
      let (kept, made) = configure_key-calls key config mid now keeps one in
      let (kept', made') = configure_keys-calls keys mid last later keeps more in
      (
        ap (λ p. outline p.0.clusters) (sym (ok-injective same)) ∙ kept' ∙ kept,
        ap (λ p. p.1) (sym (ok-injective same))
            ∙ ap (λ l. now ++ l) (made' ∙ ap (all_calls keys) kept)
            ∙ ap (λ l. l ++ all_calls keys (outline config.clusters)) made,
      )

  -- If the functions that are called leave the outline of the configuration alone and the loop
  -- succeeds, then it leaves the outline alone, and it calls `configure` for each service of the
  -- graph that has one, in the order of the graph, once for each of its instances and in their
  -- order, and for nothing else.
  pub configure_all-calls :
      (config config' : Config) (calls : List Called)
      → KeepsOutline call
      → configure_all merge load call config ≡ ok (config', calls)
      → (outline config'.clusters ≡ outline config.clusters)
        × (calls ≡ all_calls config.graph (outline config.clusters))
  unfolding configure_all
  configure_all-calls config config' calls keeps h =
      configure_keys-calls config.graph config config' calls keeps h
