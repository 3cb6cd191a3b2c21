-- ===== src/Prelude/Exec/Branches.antt =====
-- How a stateful call branches: one rule for each step that only reads, so that a property of an
-- operation is proved where it raises, with the state as it was, and where every guard has passed.
use mathlib.Core.Path.{◌≡◌, refl}
use mathlib.Core.Bool.{Bool, true, false}
use railone_core.Prelude.Errors.{Exception, Result, ok, err}
use railone_core.Prelude.Exec.{Exec, lift, reads, raise_when, on_part, continue, ◌>>=◌, ◌>>◌}

module _ {ℓ κ μ ν} {S : Type ℓ} {A : Type κ} {B : Type μ} (P : Result B × S → Type ν) where
  continue_branches :
      (r : Result A) (f : A → Exec S B) (s : S)
      → ((e : Exception) → P (err e, s))
      → ((a : A) → r ≡ ok a → P (f a s))
      → P (continue r s f)
  continue_branches (ok a) f s raised passed = passed a refl
  continue_branches (err e) f s raised passed = raised e

  pub reads_branches :
      (g : S → Result A) (f : A → Exec S B) (s : S)
      → ((e : Exception) → P (err e, s))
      → ((a : A) → g s ≡ ok a → P (f a s))
      → P ((reads g >>= f) s)
  reads_branches g f s raised passed = continue_branches (g s) f s raised passed

  pub lift_branches :
      (r : Result A) (f : A → Exec S B) (s : S)
      → ((e : Exception) → P (err e, s))
      → ((a : A) → r ≡ ok a → P (f a s))
      → P ((lift r >>= f) s)
  lift_branches r f s raised passed = continue_branches r f s raised passed

module _ {ℓ μ ν} {S : Type ℓ} {B : Type μ} (P : Result B × S → Type ν) where
  pub guard_branches :
      (b : Bool) (e : Exception) (n : Exec S B) (s : S)
      → ((e : Exception) → P (err e, s))
      → (b ≡ false → P (n s))
      → P ((raise_when b e >> n) s)
  guard_branches true e n s raised passed = raised e
  guard_branches false e n s raised passed = passed refl

-- The same for a call that may change the object: what it returns and leaves is kept as an equation.
module _ {ℓ κ μ ν} {S : Type ℓ} {A : Type κ} {B : Type μ} (P : Result B × S → Type ν) where
  pub bind_branches :
      (m : Exec S A) (f : A → Exec S B) (s : S)
      → ((e : Exception) (t : S) → m s ≡ (err e, t) → P (err e, t))
      → ((a : A) (t : S) → m s ≡ (ok a, t) → P (f a t))
      → P ((m >>= f) s)
  bind_branches m f s raised passed = go (m s).0 (m s).1 refl
    where
      go : (r : Result A) (t : S) → m s ≡ (r, t) → P (continue r t f)
      go (ok a) t h = passed a t h
      go (err e) t h = raised e t h

-- A call on a part of the object.
module _ {ℓ κ ι μ ν} {S : Type ℓ} {T : Type κ} {A : Type ι} {B : Type μ} (P : Result B × S → Type ν)
    (get : S → T) (put : S → T → S) where
  pub part_branches :
      (m : Exec T A) (f : A → Exec S B) (s : S)
      → ((e : Exception) (t : T) → m (get s) ≡ (err e, t) → P (err e, put s t))
      → ((a : A) (t : T) → m (get s) ≡ (ok a, t) → P (f a (put s t)))
      → P ((on_part get put m >>= f) s)
  part_branches m f s raised passed = go (m (get s)).0 (m (get s)).1 refl
    where
      go : (r : Result A) (t : T) → m (get s) ≡ (r, t) → P (continue r (put s t) f)
      go (ok a) t h = passed a t h
      go (err e) t h = raised e t h
