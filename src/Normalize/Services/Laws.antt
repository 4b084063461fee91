-- ===== src/Normalize/Services/Laws.antt =====
-- What the pass "Normalize service" ensures.
use ryba.Base.{
  ℕ, suc, String, ◌≡◌, ◌≢◌, refl, ap, ◌∙◌, inl, inr, true, false, List, [], ◌∷◌, All, some,
  Option-cases, arith,
}
use ryba.Js.{
  Value, undefined, null, bool, num, obj, arr, str, func, Fields, Result, ok, err, traverse, get,
  out_of_fuel, in_service, is_nullish,
}
use ryba.Js.Laws.{>>=-eq-ok, ok-injective, get-put_self}
use ryba.Assoc.{Map, names}
use ryba.Config.{Service, Cluster}
use ryba.Affinity.Normalize.{Kind, kind_of, default_type, normalize}
use ryba.Affinity.Normalize.Laws.{normalize_idempotent, normalize-KeepsType}
use ryba.Affinity.Normalize.Fuel.{size_fields, normalize-ne-out_of_fuel}
use ryba.Normalize.Each.{
  each_entry, AllEntries, AllServices, each_entry-All, AllEntries-every, names-each_entry,
}
use ryba.Normalize.Services.{
  GivenService, affinity_values, located, normalize_typed, normalize_affinity, is_module,
  command_values, check_modules, normalize_command, or_empty, normalize_service, normalize_cluster,
  normalize_services,
}

-- An affinity that its handler leaves as it is.
pub record IsNormal (a : Fields) : Type 0 where
  pub kind : Kind
  pub fuel : ℕ
  pub typed : kind_of (get "type" a) ≡ some kind
  pub stable : normalize fuel kind a ≡ ok a

-- A service after the pass.
pub record IsNormalService (cname sname : String) (s : Service) : Type 0 where
  pub named : s.id ≡ sname
  pub clustered : s.cluster ≡ cname
  pub empty : s.instances ≡ []
  pub affinities : All IsNormal s.affinity
  pub modules : AllEntries (λ _ mods. All (λ v. is_module v ≡ true) mods) s.commands

default_type-is_nullish : (a : Fields) → is_nullish (get "type" (default_type a)) ≡ false
unfolding default_type
default_type-is_nullish a = ground (arith, get-put_self "type" (str "generic") a)

located-ok :
    (cname sname : String) (m : Result Fields) (a : Fields)
    → located cname sname m ≡ ok a
    → m ≡ ok a
unfolding located
located-ok cname sname (ok c) a h = h
located-ok cname sname (err e) a h = cc

normalize_affinity-IsNormal :
    (cname sname : String) (v : Value) (a : Fields)
    → normalize_affinity cname sname v ≡ ok a
    → IsNormal a
unfolding normalize_affinity normalize_typed
normalize_affinity-IsNormal cname sname (obj fs) a h =
    let c = default_type fs in
    elim (Option-cases (kind_of (get "type" c))) [
      | inl unknown ↦ absurd (cc (rw unknown at h))
      | inr (k, known) ↦
          let e = located-ok cname sname (normalize (suc (size_fields c)) k c) a (rw known at h) in
          record {
            kind = k;
            fuel = suc (size_fields c);
            typed =
                ap kind_of
                  (normalize-KeepsType (suc (size_fields c)) k c a e (default_type-is_nullish fs))
                ∙ known;
            stable = normalize_idempotent (suc (size_fields c)) k c a e;
          }
    ]
normalize_affinity-IsNormal cname sname (arr vs) a h = cc
normalize_affinity-IsNormal cname sname (func n) a h = cc
normalize_affinity-IsNormal cname sname undefined a h = cc
normalize_affinity-IsNormal cname sname null a h = cc
normalize_affinity-IsNormal cname sname (bool b) a h = cc
normalize_affinity-IsNormal cname sname (num n) a h = cc
normalize_affinity-IsNormal cname sname (str s) a h = cc

traverse-All :
    {A B : Type 0} (f : A → Result B) (Q : B → Type 0) (xs : List A) (ys : List B)
    → ((x : A) (y : B) → f x ≡ ok y → Q y)
    → traverse f xs ≡ ok ys
    → All Q ys
traverse-All f Q [] ys h e = rw (← ok-injective e) tt
traverse-All f Q (x ∷ xs) ys h e =
    let (y, done, rest) = >>=-eq-ok (f x) _ e in
    let (more, later, same) = >>=-eq-ok (traverse f xs) _ rest in
    rw (← ok-injective same) (h x y done, traverse-All f Q xs more h later)

check_modules-All :
    (cmdname : String) (mods : List Value) {u : Unit {0}}
    → check_modules cmdname mods ≡ ok u
    → All (λ v. is_module v ≡ true) mods
unfolding check_modules
check_modules-All cmdname [] h = tt
check_modules-All cmdname (m ∷ mods) h = ground (arith, check_modules-All cmdname mods)

normalize_service-IsNormalService :
    (cname sname : String) (g : GivenService) (s : Service)
    → normalize_service cname sname g ≡ ok s
    → IsNormalService cname sname s
unfolding normalize_service normalize_command
normalize_service-IsNormalService cname sname g s h =
    let (given, read, rest) = >>=-eq-ok (affinity_values g.affinity) _ h in
    let (affinity, done, more) =
      >>=-eq-ok (traverse (normalize_affinity cname sname) given) _ rest in
    let (commands, checked, same) =
      >>=-eq-ok (each_entry normalize_command (or_empty g.commands)) _ more in
    rw (← ok-injective same) (record {
      named = refl;
      clustered = refl;
      empty = refl;
      affinities =
          traverse-All (normalize_affinity cname sname) IsNormal given affinity
            (normalize_affinity-IsNormal cname sname) done;
      modules =
          each_entry-All normalize_command (λ _ _. Unit) _ (or_empty g.commands) commands
            (λ cmdname v mods _ e.
              let (_, fine, eq) = >>=-eq-ok (check_modules cmdname (command_values v)) _ e in
              rw (← ok-injective eq) (check_modules-All cmdname (command_values v) fine))
            (AllEntries-every (λ _ _. Unit) (or_empty g.commands) (λ _ _. tt)) checked;
    })

-- If the pass succeeds, then under the same names every service carries its name and that of its
-- cluster and has no instance, each of its affinities has a known type and is left as it is by the
-- handler of that type, and its commands list nothing but texts, functions and objects.
pub normalize_services-IsNormalService :
    (given : Map (Map GivenService)) (clusters : Map Cluster)
    → normalize_services given ≡ ok clusters
    → (names clusters ≡ names given) × AllServices IsNormalService clusters
unfolding normalize_services normalize_cluster
normalize_services-IsNormalService given clusters h = (
  names-each_entry normalize_cluster given clusters h,
  each_entry-All normalize_cluster (λ _ _. Unit) _ given clusters
      (λ cname services c _ e.
        let (done, ed, same) = >>=-eq-ok (each_entry (normalize_service cname) services) _ e in
        rw (← ok-injective same) (
          each_entry-All (normalize_service cname) (λ _ _. Unit) _ services done
            (λ sname g s _ es. normalize_service-IsNormalService cname sname g s es)
            (AllEntries-every (λ _ _. Unit) services (λ _ _. tt)) ed))
      (AllEntries-every (λ _ _. Unit) given (λ _ _. tt)) h,
)

located-ne :
    (cname sname : String) (m : Result Fields)
    → m ≢ err out_of_fuel
    → located cname sname m ≢ err (in_service out_of_fuel sname cname)
unfolding located
located-ne cname sname (ok a) h = λ same. cc
located-ne cname sname (err e) h = λ same. h (cc)

-- The fuel that the pass gives the handlers is enough for every value that stands as an affinity.
pub normalize_affinity-ne-out_of_fuel :
    (cname sname : String) (v : Value)
    → normalize_affinity cname sname v ≢ err (in_service out_of_fuel sname cname)
unfolding normalize_affinity normalize_typed
normalize_affinity-ne-out_of_fuel cname sname (obj fs) =
    let c = default_type fs in
    elim (Option-cases (kind_of (get "type" c))) [
      | inl unknown ↦ rw unknown (λ same. cc)
      | inr (k, known) ↦ rw known (
          located-ne cname sname (normalize (suc (size_fields c)) k c)
            (normalize-ne-out_of_fuel (suc (size_fields c)) k c (omega arith)))
    ]
normalize_affinity-ne-out_of_fuel cname sname (arr vs) = λ same. cc
normalize_affinity-ne-out_of_fuel cname sname (func n) = λ same. cc
normalize_affinity-ne-out_of_fuel cname sname undefined = λ same. cc
normalize_affinity-ne-out_of_fuel cname sname null = λ same. cc
normalize_affinity-ne-out_of_fuel cname sname (bool b) = λ same. cc
normalize_affinity-ne-out_of_fuel cname sname (num n) = λ same. cc
normalize_affinity-ne-out_of_fuel cname sname (str s) = λ same. cc
