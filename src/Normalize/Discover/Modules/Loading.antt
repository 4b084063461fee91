-- ===== src/Normalize/Discover/Modules/Loading.antt =====
-- What is read on the way into a service: the definition of its module, its own module, and the services
-- of a cluster.
use ryba.Base.{
  ◌*◌, ◌≤◌, String, ◌==◌, ◌≡◌, ◌≢◌, refl, ap, subst, inl, inr, List, [], ◌∷◌, Option, none, some,
  Option-cases, Bool-cases, arith, length,
}
use ryba.Js.{
  Value, undefined, null, bool, num, str, obj, arr, func, Fields, Result, ok, err, ◌>>=◌,
  out_of_fuel,
}
use ryba.Js.Laws.{ok-injective}
use ryba.Assoc.{Map, find, insert, map_values, map_values-insert}
use ryba.Normalize.Discover.{Candidate, full, full_or}
use ryba.Normalize.Discover.Drafts.{
  Entry, default_service, draft, ClusterEntry, default_cluster, cluster_with, other_cluster,
  Clusters, or_no, services_of, candidate_of, candidates, module_of, started, definition_of,
}
use ryba.Normalize.Discover.Modules.{cluster_services, cluster_under}
use ryba.Normalize.Discover.Modules.Measure.{missing_in, missing}
use ryba.Normalize.Discover.Modules.Candidates.{cluster_candidates}
use ryba.Normalize.Discover.Modules.Invariant.{IsThrown, AreDepsIn, IsEntryIn, left}

pub definition_of-IsThrown : (m : String) (v : Value) → IsThrown (definition_of m v)
unfolding definition_of
definition_of-IsThrown m (obj fs) = tt
definition_of-IsThrown m undefined = λ e. cc
definition_of-IsThrown m null = λ e. cc
definition_of-IsThrown m (bool b) = λ e. cc
definition_of-IsThrown m (num n) = λ e. cc
definition_of-IsThrown m (str s) = λ e. cc
definition_of-IsThrown m (arr vs) = λ e. cc
definition_of-IsThrown m (func f) = λ e. cc

pub definition_of-obj :
    (m : String) (v : Value) (fs : Fields) → definition_of m v ≡ ok fs → v ≡ obj fs
unfolding definition_of
definition_of-obj m (obj gs) fs h = ap obj (ok-injective h)
definition_of-obj m undefined fs h = cc
definition_of-obj m null fs h = cc
definition_of-obj m (bool b) fs h = cc
definition_of-obj m (num n) fs h = cc
definition_of-obj m (str s) fs h = cc
definition_of-obj m (arr vs) fs h = cc
definition_of-obj m (func f) fs h = cc

pub IsThrown-bind {ℓ κ} :
    {A : Type ℓ} {B : Type κ} (r : Result A) (f : A → Result B)
    → IsThrown r
    → ((a : A) → IsThrown (f a))
    → IsThrown (r >>= f)
IsThrown-bind (ok a) f h k = k a
IsThrown-bind (err e) f h k = h

pub IsThrown-of_ne {ℓ} : {A : Type ℓ} (r : Result A) → r ≢ err out_of_fuel → IsThrown r
IsThrown-of_ne (ok a) h = tt
IsThrown-of_ne (err e) h = λ same. h (ap err same)

-- What a service stands for does not change where its missing module becomes its name.
pub full_or-module_of :
    (o : Option String) (sname : String)
    → full_or (some (module_of o sname)) sname ≡ full_or o sname
full_or-module_of none sname = elim (Bool-cases (sname == "")) [
  | inl empty ↦ rw (full_or, full, empty) refl
  | inr given ↦ rw (full_or, full, given) refl
]
full_or-module_of (some m) sname = refl

pub module_name-started :
    (sname : String) (e : Entry)
    → (started sname e).module_name ≡ some (module_of (candidate_of e).module_name sname)
unfolding started
module_name-started sname default_service = refl
module_name-started sname (draft d) = refl

pub started-AreDepsIn :
    (modules : List String) (sname : String) (e : Entry)
    → IsEntryIn modules e
    → AreDepsIn modules (started sname e).deps
unfolding started
started-AreDepsIn modules sname default_service h = tt
started-AreDepsIn modules sname (draft d) h = h

-- A cluster that is made an object has the services that it had.
abbrev IsOpened : ClusterEntry → Result (Map Entry) → Type 0
IsOpened c (ok services) = services ≡ or_no (services_of c)
IsOpened c (err e) = e ≢ out_of_fuel

cluster_services-IsOpened : (c : ClusterEntry) → IsOpened c (cluster_services c)
unfolding cluster_services
cluster_services-IsOpened default_cluster = refl
cluster_services-IsOpened (cluster_with o) = refl
cluster_services-IsOpened (other_cluster (obj fs)) = λ e. cc
cluster_services-IsOpened (other_cluster undefined) = λ e. cc
cluster_services-IsOpened (other_cluster null) = λ e. cc
cluster_services-IsOpened (other_cluster (bool b)) = λ e. cc
cluster_services-IsOpened (other_cluster (num n)) = λ e. cc
cluster_services-IsOpened (other_cluster (str s)) = λ e. cc
cluster_services-IsOpened (other_cluster (arr vs)) = λ e. cc
cluster_services-IsOpened (other_cluster (func f)) = λ e. cc

IsThrown-of_IsOpened : (c : ClusterEntry) (r : Result (Map Entry)) → IsOpened c r → IsThrown r
IsThrown-of_IsOpened c (ok services) h = tt
IsThrown-of_IsOpened c (err e) h = h

pub cluster_under-IsThrown :
    (cname : String) (clusters : Clusters) → IsThrown (cluster_under cname clusters)
cluster_under-IsThrown cname clusters = elim (Option-cases (find cname clusters)) [
  | inl none_there ↦ rw (none_there, cluster_under, IsThrown) (λ e. cc)
  | inr (c, found) ↦
      rw (found, cluster_under, IsThrown)
        (IsThrown-of_IsOpened c (cluster_services c) (cluster_services-IsOpened c))
]

pub cluster_under-found :
    (cname : String) (clusters : Clusters) (services : Map Entry)
    → cluster_under cname clusters ≡ ok services
    → (c : ClusterEntry) × (find cname clusters ≡ some c) × (services ≡ or_no (services_of c))
cluster_under-found cname clusters services h = elim (Option-cases (find cname clusters)) [
  | inl none_there ↦ absurd (cc (rw (none_there, cluster_under) at h))
  | inr (c, found) ↦
      (c, found, subst (IsOpened c) (rw (found, cluster_under) at h) (cluster_services-IsOpened c))
]

pub candidates-opened :
    (cname : String) (services : Map Entry) (clusters : Clusters) (c : ClusterEntry)
    → find cname clusters ≡ some c
    → services ≡ or_no (services_of c)
    → candidates (insert cname (cluster_with (some services)) clusters) ≡ candidates clusters
unfolding candidates
candidates-opened cname services clusters c found same =
    map_values-insert cluster_candidates cname (cluster_with (some services)) c clusters found
      (ap (map_values candidate_of) same)

missing_in-le-length : (ms : List String) (s : Map Candidate) → missing_in ms s ≤ length ms
unfolding missing_in
missing_in-le-length [] s = omega arith
missing_in-le-length (m ∷ ms) s = ground (arith, missing_in-le-length ms s)

pub left-le-length :
    (modules : List String) (clusters : Clusters)
    → left modules clusters ≤ length modules * length clusters
unfolding candidates missing
left-le-length modules [] = omega arith
left-le-length modules ((cname, c) ∷ clusters) =
    grind
      (arith, left-le-length modules clusters, missing_in-le-length modules (cluster_candidates c))
