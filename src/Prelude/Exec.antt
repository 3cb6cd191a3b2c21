-- ===== src/Prelude/Exec.antt =====
-- Methods that change an object and may raise. What was written before a raise stays written.
pub mod Branches
use mathlib.Core.Bool.{Bool, true, false}
use mathlib.Core.Option.{Option, none, some}
use railone_core.Prelude.Errors.{Exception, Result, ok, err}

abbrev pub Exec {ℓ κ} : Type ℓ → Type κ → Type (ℓ ⊔ κ)
Exec S A = S → Result A × S

module _ {ℓ κ} {S : Type ℓ} {A : Type κ} where
  abbrev pub pure : A → Exec S A
  pure a s = (ok a, s)

  abbrev pub raise : Exception → Exec S A
  raise e s = (err e, s)

  -- A call that reads nothing of the object.
  abbrev pub lift : Result A → Exec S A
  lift r s = (r, s)

  -- A call that reads the object.
  abbrev pub reads : (S → Result A) → Exec S A
  reads f s = (f s, s)

-- `if key in d: raise e`
abbrev pub ok_if_free {ℓ} : {A : Type ℓ} → Option A → Exception → Result (Unit {0})
ok_if_free none e = ok tt
ok_if_free (some a) e = err e

module _ {ℓ} {S : Type ℓ} where
  abbrev pub raise_when : Bool → Exception → Exec S (Unit {0})
  raise_when true e s = (err e, s)
  raise_when false e s = (ok tt, s)

  abbrev pub modify : (S → S) → Exec S (Unit {0})
  modify f s = (ok tt, f s)

module _ {ℓ κ μ} {S : Type ℓ} {A : Type κ} {B : Type μ} where
  abbrev pub continue : Result A → S → (A → Exec S B) → Result B × S
  continue (ok a) s f = f a s
  continue (err e) s f = (err e, s)

  infixl 5 ◌>>=◌ ◌>>◌
  abbrev pub ◌>>=◌ : Exec S A → (A → Exec S B) → Exec S B
  ◌>>=◌ m f s = let (r, s') = m s in continue r s' f

  abbrev pub ◌>>◌ : Exec S A → Exec S B → Exec S B
  m >> n = m >>= λ _. n

-- A call on a part of the object.
module _ {ℓ κ μ} {S : Type ℓ} {T : Type κ} {A : Type μ} where
  abbrev pub put_part : (S → T → S) → S → Result A × T → Result A × S
  put_part put s (r, t) = (r, put s t)

  abbrev pub on_part : (S → T) → (S → T → S) → Exec T A → Exec S A
  on_part get put m s = put_part put s (m (get s))
