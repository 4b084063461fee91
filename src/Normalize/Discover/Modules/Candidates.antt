-- ===== src/Normalize/Discover/Modules/Candidates.antt =====
-- What the writes of discovery do to what the search by a module reads.
use ryba.Base.{
  String, ◌==◌, ◌≡◌, refl, ap, ◌∙◌, inl, inr, some, Option-cases, Bool-cases, [], ◌∷◌, ◌=ℕ◌, ℕ,
}
use ryba.Assoc.{Map, find, insert, map_values, map_some, find-map_values, map_values-insert}
use ryba.Config.{Dep}
use ryba.Normalize.Discover.{Candidate}
use ryba.Normalize.Discover.Drafts.{
  Entry, default_service, draft, ClusterEntry, cluster_with, Clusters, or_no, services_of,
  candidate_of, candidates, service_entry, put_entry, with_dep, put_dep,
}

map_values-insert_eq :
    {V W : Type 0} (f : V → W) (k : String) (v : V) (m : Map V)
    → map_values f (insert k v m) ≡ insert k (f v) (map_values f m)
unfolding insert
map_values-insert_eq f k v [] = refl
map_values-insert_eq f k v ((j, w) ∷ m) = elim (Bool-cases (j == k)) [
  | inl same ↦ rw same refl
  | inr other ↦ rw other (ap (λ l. (j, f w) ∷ l) (map_values-insert_eq f k v m))
]

abbrev pub cluster_candidates : ClusterEntry → Map Candidate
cluster_candidates c = map_values candidate_of (or_no (services_of c))

pub candidates-put_entry :
    (cname sname : String) (e : Entry) (clusters : Clusters) (c : ClusterEntry)
    → find cname clusters ≡ some c
    → candidates (put_entry cname sname e clusters)
      ≡ insert cname (insert sname (candidate_of e) (cluster_candidates c)) (candidates clusters)
unfolding candidates put_entry
candidates-put_entry cname sname e clusters c found =
    rw (found, put_entry)
      (map_values-insert_eq cluster_candidates cname
          (cluster_with (some (insert sname e (or_no (services_of c))))) clusters
        ∙ ap (λ s. insert cname s (map_values cluster_candidates clusters))
            (map_values-insert_eq candidate_of sname e (or_no (services_of c))))

pub find-candidates :
    (cname : String) (clusters : Clusters) (c : ClusterEntry)
    → find cname clusters ≡ some c
    → find cname (candidates clusters) ≡ some (cluster_candidates c)
unfolding candidates
find-candidates cname clusters c found =
    find-map_values cluster_candidates cname clusters ∙ ap (map_some cluster_candidates) found

pub service_entry-found :
    (clusters : Clusters) (cname sname : String) (e : Entry)
    → service_entry clusters cname sname ≡ some e
    → (c : ClusterEntry) × (find cname clusters ≡ some c)
      × (find sname (or_no (services_of c)) ≡ some e)
unfolding service_entry
service_entry-found clusters cname sname e h = elim (Option-cases (find cname clusters)) [
  | inl missing ↦ absurd (cc (rw (missing, service_entry) at h))
  | inr (c, found) ↦ (c, found, rw (found, service_entry) at h)
]

candidate_of-with_dep :
    (self : ℕ) (dname : String) (dep : Dep) (e : Entry)
    → candidate_of (with_dep self dname dep e) ≡ candidate_of e
candidate_of-with_dep self dname dep default_service = refl
candidate_of-with_dep self dname dep (draft d) = elim (Bool-cases (d.object =ℕ self)) [
  | inl same ↦ rw same refl
  | inr other ↦ rw other refl
]

-- A dependency that is written is not read by the search.
pub candidates-put_dep :
    (self : ℕ) (cname sname dname : String) (dep : Dep) (clusters : Clusters)
    → candidates (put_dep self cname sname dname dep clusters) ≡ candidates clusters
unfolding put_dep candidates put_entry
candidates-put_dep self cname sname dname dep clusters =
    elim (Option-cases (service_entry clusters cname sname)) [
      | inl missing ↦ rw (missing, put_dep) refl
      | inr (e, there) ↦
          let (c, found, in_c) = service_entry-found clusters cname sname e there in
          rw (there, put_dep, found, put_entry)
            (map_values-insert cluster_candidates cname
              (cluster_with
                (some (insert sname (with_dep self dname dep e) (or_no (services_of c)))))
              c clusters found
              (map_values-insert candidate_of sname (with_dep self dname dep e) e
                (or_no (services_of c)) in_c (candidate_of-with_dep self dname dep e)))
    ]
