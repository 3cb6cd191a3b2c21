-- ===== src/Prelude/Errors.antt =====
-- Python's exceptions, one constructor for each class that the program raises, with its message.
use mathlib.Core.Path.{◌≡◌, refl, subst}
use mathlib.Core.Bool.{Bool, true, false}
use mathlib.Core.Option.{Option, none, some}
use Prim.Native.String.{String}

pub data Exception : Type 0 where
  value_error type_error key_error lookup_error runtime_error permission_error : String → Exception
  zero_division : Exception
  no_eligible_route plan_not_executable plan_not_found rtt_not_found : String → Exception
  concurrent_plan_update plan_conflict : String → Exception
  idempotency_conflict quote_already_accepted utt_not_found : String → Exception
  submission_not_found concurrent_submission_update not_dispatchable : String → Exception

-- A call that returns or raises.
pub data Result {ℓ} (A : Type ℓ) : Type ℓ where
  ok : A → Result A
  err : Exception → Result A

module _ {ℓ} {A : Type ℓ} where
  -- The value of an optional, or the exception.
  abbrev pub or_raise : Option A → Exception → Result A
  or_raise none e = err e
  or_raise (some a) e = ok a

pub or_raise-eq_ok {ℓ} :
    {A : Type ℓ} (o : Option A) (e : Exception) {a : A} → or_raise o e ≡ ok a → o ≡ some a
or_raise-eq_ok none e h = cc
or_raise-eq_ok (some b) e h = cc

-- `if test: raise e`
abbrev pub raise_if : Bool → Exception → Result (Unit {0})
raise_if true e = err e
raise_if false e = ok tt

module _ {ℓ κ} {A : Type ℓ} {B : Type κ} where
  abbrev pub and_then : Result A → (A → Result B) → Result B
  and_then (ok a) f = f a
  and_then (err e) f = err e

  pub and_then-eq_ok :
      (m : Result A) (f : A → Result B) {b : B}
      → and_then m f ≡ ok b
      → (a : A) × (m ≡ ok a) × (f a ≡ ok b)
  and_then-eq_ok (ok a) f h = (a, refl, h)
  and_then-eq_ok (err e) f h = cc

pub ok-injective {ℓ} : {A : Type ℓ} {a b : A} → ok a ≡ ok b → a ≡ b
ok-injective h = cc

pub some-injective {ℓ} : {A : Type ℓ} {a b : A} → some a ≡ some b → a ≡ b
some-injective h = cc

pub raise_if-eq_ok : (b : Bool) (e : Exception) → raise_if b e ≡ ok tt → b ≡ false
raise_if-eq_ok true e h = cc
raise_if-eq_ok false e h = refl

-- What a call returns, if it returns, satisfies a predicate.
abbrev pub Returns {ℓ κ} : {A : Type ℓ} → (A → Type κ) → Result A → Type κ
Returns P (ok a) = P a
Returns P (err e) = Unit

module _ {ℓ κ μ} {A : Type ℓ} {B : Type κ} (P : B → Type μ) where
  pub and_then-Returns :
      (m : Result A) (f : A → Result B)
      → ((a : A) → m ≡ ok a → Returns P (f a))
      → Returns P (and_then m f)
  and_then-Returns (ok a) f h = h a refl
  and_then-Returns (err e) f h = tt

pub Returns-eq_ok {ℓ κ} :
    {A : Type ℓ} (P : A → Type κ) (m : Result A) {a : A} → Returns P m → m ≡ ok a → P a
Returns-eq_ok P (ok b) h e = subst P (ok-injective e) h
Returns-eq_ok P (err x) h e = cc
