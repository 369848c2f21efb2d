-- ===== src/Prelude/Result.antt =====
-- Python exceptions as values: a call returns `ok`, or raises one of these.
use Prim.Native.String.{String}
use mathlib.Core.Path.{◌≡◌, refl}
use mathlib.Core.Logic.{◌≢◌, ◌⊎◌, inl, inr}
use mathlib.Core.Bool.{Bool, true, false}
use native.Mathlib.Omega.{arith}

pub data Error : Type 0 where
  -- ValueError(msg)
  value_message : String → Error
  value_error overflow_error index_error cloud_error update_failed machine_offline unknown_profile :
      Error

pub data Result {ℓ} (Value : Type ℓ) : Type ℓ where
  err : Error → Result Value
  ok : Value → Result Value

infixl 5 ◌>>=◌
abbrev pub ◌>>=◌ {ℓ κ} :
    {A : Type ℓ} {B : Type κ} (call : Result A) (next : A → Result B) → Result B
err raised >>= next = err raised
ok value >>= next = next value

-- A call for its exceptions alone, and then another.
infixl 5 ◌>>◌
abbrev pub ◌>>◌ {ℓ} : {B : Type ℓ} (call : Result (Unit {0})) (next : Result B) → Result B
err raised >> next = err raised
ok done >> next = next

-- if not b: raise e
abbrev pub guard : Bool → Error → Result (Unit {0})
guard true e = ok tt
guard false e = err e

-- The call returns, and what it returns satisfies `P`.
abbrev pub Returns {ℓ} : {A : Type ℓ} → (A → Type 0) → Result A → Type 0
Returns P (ok a) = P a
Returns P (err e) = ⊥

-- The call raises nothing.
abbrev pub IsSafe {ℓ} : {A : Type ℓ} → Result A → Type ℓ
IsSafe r = (e : Error) → r ≢ err e

pub IsSafe-ok {ℓ} : {A : Type ℓ} (r : Result A) → IsSafe r → (a : A) × (r ≡ ok a)
IsSafe-ok (ok a) safe = (a, refl)
IsSafe-ok (err e) safe = elim (safe e refl) [ ]

pub ok-IsSafe {ℓ} : {A : Type ℓ} (a : A) → IsSafe (ok a)
ok-IsSafe a e = ground arith

pub Result-cases {ℓ} :
    {A : Type ℓ} (r : Result A) → ((a : A) × (r ≡ ok a)) ⊎ ((e : Error) × (r ≡ err e))
Result-cases (ok a) = inl (a, refl)
Result-cases (err e) = inr (e, refl)

-- What the call returns, if it returns, satisfies `P`.
abbrev pub Passes {ℓ} : {A : Type ℓ} → (A → Type 0) → Result A → Type 0
Passes P (ok a) = P a
Passes P (err e) = Unit

pub Passes-bind {ℓ κ} :
    {A : Type ℓ} {B : Type κ} (P : B → Type 0) (r : Result A) (f : A → Result B)
    → ((a : A) → Passes P (f a))
    → Passes P (r >>= f)
Passes-bind P (ok a) f h = h a
Passes-bind P (err e) f h = tt

pub Passes-Returns {ℓ} :
    {A : Type ℓ} (P : A → Type 0) (r : Result A) → IsSafe r → Passes P r → Returns P r
Passes-Returns P (ok a) safe h = h
Passes-Returns P (err e) safe h = elim (safe e refl) [ ]

-- The same where the rest goes by what the first call returns.
pub Passes-step {ℓ κ} :
    {A : Type ℓ} {B : Type κ} (P : A → Type 0) (Q : B → Type 0) (r : Result A) (f : A → Result B)
    → Passes P r
    → ((a : A) → P a → Passes Q (f a))
    → Passes Q (r >>= f)
Passes-step P Q (ok a) f h k = k a h
Passes-step P Q (err e) f h k = tt
