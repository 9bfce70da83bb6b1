-- ===== src/Prelude/Outcome.antt =====
-- The outcomes of a C++ call: a value, a failed `assert`, or the end of the process by `exit`.
use mathlib.Core.Path.{◌≡◌, refl}
use mathlib.Core.Logic.{◌⊎◌, inl, inr}
use mathlib.Core.Bool.{Bool, true, false}
use mathlib.Core.Option.{Option, none, some}

pub data Failure : Type 0 where
  assertion : Failure
  exit : Failure
  out_of_range : Failure

pub data Result {ℓ} (T : Type ℓ) : Type ℓ where
  err : Failure → Result T
  ok : T → Result T

abbrev pub or_fail {ℓ} : {T : Type ℓ} → Failure → Option T → Result T
or_fail failure (some value) = ok value
or_fail failure none = err failure

-- `assert(b)`
abbrev pub check : Bool → Result (Unit {0})
check false = err assertion
check true = ok tt

-- What is next runs on the value, and not at all after a failure.
infixl 5 ◌>>=◌
abbrev pub ◌>>=◌ {ℓ κ} : {T : Type ℓ} {U : Type κ} → Result T → (T → Result U) → Result U
err failure >>= next = err failure
ok value >>= next = next value

infixl 5 ◌>>◌
abbrev pub ◌>>◌ {κ} : {U : Type κ} → Result (Unit {0}) → Result U → Result U
first >> next = first >>= λ _. next

-- A postcondition of the value, if there is one.
abbrev pub Returns {ℓ κ} : {A : Type ℓ} → (A → Type κ) → Result A → Type κ
Returns P (ok a) = P a
Returns P (err e) = Unit

pub Result-cases {ℓ} :
    {A : Type ℓ} (r : Result A) → ((a : A) × (r ≡ ok a)) ⊎ ((e : Failure) × (r ≡ err e))
Result-cases (ok a) = inl (a, refl)
Result-cases (err e) = inr (e, refl)

-- Whatever succeeds has succeeded step by step.
pub >>=-eq-ok {ℓ κ} :
    {T : Type ℓ} {U : Type κ} (first : Result T) (next : T → Result U) {u : U}
    → (first >>= next) ≡ ok u
    → (t : T) × (first ≡ ok t) × (next t ≡ ok u)
>>=-eq-ok (err failure) next e = cc
>>=-eq-ok (ok t) next e = (t, refl, e)

pub some_inj {ℓ} : {A : Type ℓ} (x y : A) → some x ≡ some y → x ≡ y
some_inj x y e = cc

pub ok_inj {ℓ} : {A : Type ℓ} (x y : A) → ok x ≡ ok y → x ≡ y
ok_inj x y e = cc

-- What follows an `assert` runs only if it holds.
pub check-inv {ℓ} :
    {A : Type ℓ} (b : Bool) (m : Result A) {a : A} → (check b >> m) ≡ ok a → (b ≡ true) × (m ≡ ok a)
check-inv true m e = (refl, e)
check-inv false m e = cc

pub or_fail-inv {ℓ} :
    {A : Type ℓ} (failure : Failure) (o : Option A) (x : A) → or_fail failure o ≡ ok x → o ≡ some x
or_fail-inv failure none x e = cc
or_fail-inv failure (some y) x e = cc
