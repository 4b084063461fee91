-- ===== src/Normalize/Each.antt =====
-- The loops `for (cname in clusters) for (sname in cluster.services)` of normalize.js.
use ryba.Base.{String, ◌≡◌, refl, ap, [], ◌∷◌}
use ryba.Js.{Result, ok, ◌>>=◌}
use ryba.Js.Laws.{>>=-eq-ok, ok-injective}
use ryba.Assoc.{Map, names}
use ryba.Config.{Cluster, Service}

-- Runs a function on every entry, in order; the keys stay.
unfoldable pub each_entry {ℓ κ} :
    {V : Type ℓ} {W : Type κ} → (String → V → Result W) → Map V → Result (Map W)
each_entry f [] = ok []
each_entry f ((k, v) ∷ m) = f k v >>= λ w. each_entry f m >>= λ rest. ok ((k, w) ∷ rest)

-- Every service of every cluster, with the names of both.
unfoldable pub each_service :
    (String → String → Service → Result Service) → Map Cluster → Result (Map Cluster)
each_service f =
    each_entry λ cname c.
      each_entry (f cname) c.services >>= λ services. ok (record c { services = services })

-- A property of every entry of a table.
abbrev pub AllEntries {ℓ} : {V : Type ℓ} → (String → V → Type 0) → Map V → Type 0
AllEntries P [] = Unit
AllEntries P ((k, v) ∷ m) = P k v × AllEntries P m

abbrev pub AllServices : (String → String → Service → Type 0) → Map Cluster → Type 0
AllServices P clusters = AllEntries (λ cname c. AllEntries (P cname) c.services) clusters

module _ {V W : Type 0} (f : String → V → Result W) where
  -- What the function ensures of its result holds of every entry, and the keys are the same.
  pub each_entry-All :
      (P : String → V → Type 0) (Q : String → W → Type 0) (m : Map V) (m' : Map W)
      → ((k : String) (v : V) (w : W) → P k v → f k v ≡ ok w → Q k w)
      → AllEntries P m
      → each_entry f m ≡ ok m'
      → AllEntries Q m'
  unfolding each_entry
  each_entry-All P Q [] m' h p e = rw (← ok-injective e) tt
  each_entry-All P Q ((k, v) ∷ m) m' h p e =
      let (w, done, rest) = >>=-eq-ok (f k v) _ e in
      let (more, later, same) = >>=-eq-ok (each_entry f m) _ rest in
      rw (← ok-injective same) (h k v w p.0 done, each_entry-All P Q m more h p.1 later)

  pub names-each_entry : (m : Map V) (m' : Map W) → each_entry f m ≡ ok m' → names m' ≡ names m
  unfolding each_entry
  names-each_entry [] m' e = rw (← ok-injective e)
  names-each_entry ((k, v) ∷ m) m' e =
      let (w, done, rest) = >>=-eq-ok (f k v) _ e in
      let (more, later, same) = >>=-eq-ok (each_entry f m) _ rest in
      rw (← ok-injective same) (ap (λ l. k ∷ l) (names-each_entry m more later))

  -- It succeeds if it does so on every entry.
  pub each_entry-ok :
      (m : Map V)
      → AllEntries (λ k v. (w : W) × (f k v ≡ ok w)) m
      → (m' : Map W) × (each_entry f m ≡ ok m')
  unfolding each_entry
  each_entry-ok [] h = ([], refl)
  each_entry-ok ((k, v) ∷ m) h =
      let ((w, done), more) = h in
      let (m', later) = each_entry-ok m more in ((k, w) ∷ m', rw (done, later))

-- A property of all values holds of all entries.
pub AllEntries-every {ℓ} :
    {V : Type ℓ} (P : String → V → Type 0) (m : Map V)
    → ((k : String) (v : V) → P k v)
    → AllEntries P m
AllEntries-every P [] h = tt
AllEntries-every P ((k, v) ∷ m) h = (h k v, AllEntries-every P m h)

-- What the function needs to succeed holds of every entry that it has succeeded on.
pub each_entry-given :
    {V W : Type 0} (f : String → V → Result W) (P : String → V → Type 0) (m : Map V) (m' : Map W)
    → ((k : String) (v : V) (w : W) → f k v ≡ ok w → P k v)
    → each_entry f m ≡ ok m'
    → AllEntries P m
unfolding each_entry
each_entry-given f P [] m' h e = tt
each_entry-given f P ((k, v) ∷ m) m' h e =
    let (w, done, rest) = >>=-eq-ok (f k v) _ e in
    let (more, later, same) = >>=-eq-ok (each_entry f m) _ rest in
    (h k v w done, each_entry-given f P m more h later)

pub AllEntries-map :
    {V : Type 0} (P Q : String → V → Type 0) (m : Map V)
    → ((k : String) (v : V) → P k v → Q k v)
    → AllEntries P m
    → AllEntries Q m
AllEntries-map P Q [] h p = tt
AllEntries-map P Q ((k, v) ∷ m) h p = (h k v p.0, AllEntries-map P Q m h p.1)
