-- ===== src/Js/Laws.antt =====
-- Laws of property reads and writes.
use ryba.Base.{
  ◌⊎◌, inl, inr, true, Bool, String, ◌≡◌, refl, ◌≢◌, ◌==◌, eq_iff, eq_refl, arith, if◌then◌else◌,
  false,
}
use ryba.Js.{Value, Fields, end, field, get, put, Error, Result, ok, err, ◌>>=◌, guard}

pub get-put :
    (k j : String) (v : Value) (fs : Fields) → get j (put k v fs) ≡ (if k == j then v else get j fs)
unfolding get put
get-put k j v end = refl
get-put k j v (field i w fs) = ground (arith, eq_iff k j, eq_iff i k, eq_iff i j, get-put k j v fs)

pub get-put_self : (k : String) (v : Value) (fs : Fields) → get k (put k v fs) ≡ v
get-put_self k v fs = ground (arith, get-put k k v fs, eq_refl k)

pub get-put_ne :
    (k j : String) (v : Value) (fs : Fields) → (k == j) ≡ false → get j (put k v fs) ≡ get j fs
get-put_ne k j v fs h = ground (arith, get-put k j v fs)

-- A write of the value that is there changes nothing.
pub put-get :
    (k : String) (v : Value) (fs : Fields) → get k fs ≡ v → v ≢ Value.undefined → put k v fs ≡ fs
unfolding get put
put-get k v end h n = absurd (n (ground arith))
put-get k v (field j w fs) h n = ground (arith, put-get k v fs, eq_iff j k)

pub put-put : (k : String) (v w : Value) (fs : Fields) → put k w (put k v fs) ≡ put k w fs
unfolding put
put-put k v w end = ground (arith, eq_refl k)
put-put k v w (field j u fs) = ground (arith, put-put k v w fs)

-- Inversion of a chain that succeeds.
pub >>=-eq-ok {ℓ κ} :
    {A : Type ℓ} {B : Type κ} (call : Result A) (next : A → Result B) {last : B}
    → (call >>= next) ≡ ok last
    → (value : A) × (call ≡ ok value) × (next value ≡ ok last)
>>=-eq-ok (err thrown) next done = cc
>>=-eq-ok (ok value) next done = (value, refl, done)

pub guard-eq-ok : (b : Bool) (e : Error) {u : Unit {0}} → guard b e ≡ ok u → b ≡ true
guard-eq-ok true e h = refl
guard-eq-ok false e h = cc

-- A chain fails only where a part of it does.
pub >>=-ne-err {ℓ κ} :
    {A : Type ℓ} {B : Type κ} (call : Result A) (next : A → Result B) (e : Error)
    → call ≢ err e
    → ((a : A) → call ≡ ok a → next a ≢ err e)
    → (call >>= next) ≢ err e
>>=-ne-err (ok a) f e h k = k a refl
>>=-ne-err (err d) f e h k = λ same. h (cc)

pub ok-injective {ℓ} : {A : Type ℓ} {a b : A} → ok a ≡ ok b → a ≡ b
ok-injective h = cc

pub Result-cases {ℓ} :
    {A : Type ℓ} (m : Result A) → ((a : A) × (m ≡ ok a)) ⊎ ((e : Error) × (m ≡ err e))
Result-cases (ok a) = inl (a, refl)
Result-cases (err e) = inr (e, refl)
