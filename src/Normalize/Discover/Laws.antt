-- ===== src/Normalize/Discover/Laws.antt =====
-- What the identification of a dependency carries over to the next one.
use ryba.Base.{
  Bool-cases, sym, ◌∙◌, eq_iff, String, ◌==◌, ◌≡◌, inl, inr, true, false, [], ◌∷◌, Option, none,
  some, ap,
}
use ryba.Js.{ok}
use ryba.Text.{split, colon, lacks, split-join}
use ryba.Assoc.{Map}
use ryba.Config.{service_key}
use ryba.Normalize.Discover.{
  identified, GivenDep, by_module, given_dep, dep_object, Candidate, full, full_or, Last, next_last,
  cluster_of, identify_dep,
}

service_key-full :
    (c s : String) → lacks colon c ≡ true → lacks colon s ≡ true → (service_key c s == "") ≡ false
unfolding split
service_key-full c s plain_c plain_s = elim (Bool-cases (service_key c s == "")) [
  | inr other ↦ other
  | inl same ↦
      let parts : c ∷ s ∷ [] ≡ split colon "" =
        sym (split-join c s plain_c plain_s)
        ∙ ap (split colon) ((eq_iff (service_key c s) "").0 same) in
      absurd (cc parts)
]

next_last-service_key :
    (c s : String) (o : Option String) (last : Last)
    → o ≡ some (service_key c s)
    → lacks colon c ≡ true
    → lacks colon s ≡ true
    → next_last o last ≡ (some s, some c)
unfolding next_last
next_last-service_key c s o last named plain_c plain_s =
    rw (named, next_last, service_key-full c s plain_c plain_s, split-join c s plain_c plain_s)

pub identify_dep-service_key :
    (clusters : Map (Map Candidate)) (own c s : String) (last : Last) (g : GivenDep)
    → g.service ≡ some (service_key c s)
    → lacks colon c ≡ true
    → lacks colon s ≡ true
    → (s == "") ≡ false
    → identify_dep clusters own last (given_dep g)
      ≡ ok (identified g (cluster_of g.cluster (some c) own) (some s), (some s, some c))
unfolding identify_dep
identify_dep-service_key clusters own c s last g named plain_c plain_s full_s =
    rw (identify_dep, next_last-service_key c s g.service last named plain_c plain_s, full_s)
      (ap (λ l. ok (identified g (cluster_of g.cluster l.1 own) (some s), l))
        (next_last-service_key c s g.service last named plain_c plain_s))

cluster_of-carried : (c own : String) → (c == "") ≡ false → cluster_of none (some c) own ≡ c
unfolding cluster_of
cluster_of-carried c own h = rw (cluster_of, full_or, full, h)

pub identify_dep-by_module :
    (clusters : Map (Map Candidate)) (own c s m : String)
    → (c == "") ≡ false
    → (s == "") ≡ false
    → identify_dep clusters own (some s, some c) (by_module m)
      ≡ ok (identified (dep_object (by_module m)) c (some s), (some s, some c))
unfolding identify_dep next_last cluster_of
identify_dep-by_module clusters own c s m full_c full_s =
    rw (identify_dep, full_s)
      (ap (λ x. ok (identified (dep_object (by_module m)) x (some s), (some s, some c)))
        (cluster_of-carried c own full_c))
