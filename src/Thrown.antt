-- ===== src/Thrown.antt =====
-- src/inc/exception.h, and the outcome of code that may throw.
use bandchain_legacy.Common.{◌≡◌, refl, ◌⊎◌, inl, inr}

-- The exceptions by the types that the handlers of net/tmapp.cc tell apart; messages are not kept.
-- `error` is Error, `failure` is Failure, `runtime_error` is what the enums throw. Three are no
-- exceptions: `undefined`, where the C++ standard leaves the behaviour open, `terminated`, where a
-- destructor throws and the program ends, and `out_of_fuel`, which a recursion on fuel answers at
-- its end.
pub data Thrown : Type 0 where
  error failure overflow_error range_error runtime_error : Thrown
  undefined terminated out_of_fuel : Thrown

pub data Result {ℓ} (A : Type ℓ) : Type ℓ where
  ok : A → Result A
  err : Thrown → Result A

-- What threw is not continued.
infixl 5 ◌>>=◌
abbrev pub ◌>>=◌ {ℓ κ} : {A : Type ℓ} {B : Type κ} → Result A → (A → Result B) → Result B
◌>>=◌ (err thrown) go = err thrown
◌>>=◌ (ok value) go = go value

-- What a bind that returns went through.
pub >>=-eq-ok {ℓ κ} :
    {A : Type ℓ} {B : Type κ} {result : B} (first : Result A) (go : A → Result B)
    → (first >>= go) ≡ ok result
    → (value : A) × (first ≡ ok value) × (go value ≡ ok result)
>>=-eq-ok (err thrown) go returns = cc
>>=-eq-ok (ok value) go returns = (value, refl, returns)

pub ok_pair {ℓ κ} :
    {A : Type ℓ} {B : Type κ} {a a' : A} {b b' : B}
    → a ≡ a'
    → b ≡ b'
    → ◌≡◌ {A = Result (A × B)} (ok (a, b)) (ok (a', b'))
ok_pair p q = cc

pub Result-cases {ℓ} :
    {A : Type ℓ} (r : Result A) → ((a : A) × (r ≡ ok a)) ⊎ ((e : Thrown) × (r ≡ err e))
Result-cases (ok a) = inl (a, refl)
Result-cases (err e) = inr (e, refl)

-- Inversion of a bind that throws: the first part threw, or the second did.
pub >>=-eq-err {ℓ κ} :
    {A : Type ℓ} {B : Type κ} (m : Result A) (f : A → Result B) {e : Thrown}
    → (m >>= f) ≡ err e
    → (m ≡ err e) ⊎ ((a : A) × (m ≡ ok a) × (f a ≡ err e))
>>=-eq-err (ok a) f h = inr (a, refl, h)
>>=-eq-err (err x) f h = inl (cc)
