-- ===== src/Prelude/Results.antt =====
-- `do` blocks of calls that may raise and change nothing.
use railone_core.Prelude.Errors.{Result, and_then}

infixl 5 ◌>>=◌ ◌>>◌
abbrev pub ◌>>=◌ {ℓ κ} : {A : Type ℓ} {B : Type κ} → Result A → (A → Result B) → Result B
m >>= f = and_then m f

abbrev pub ◌>>◌ {ℓ κ} : {A : Type ℓ} {B : Type κ} → Result A → Result B → Result B
m >> n = and_then m λ _. n
