-- ===== src/Prelude/Equality.antt =====
-- `==` on the types whose values the program compares: the keys of its dictionaries and its counters.
use mathlib.Core.Logic.{◌↔◌}
use mathlib.Core.Path.{◌≡◌}
use mathlib.Core.Bool.{Bool, true, ◌&&◌}
use Prim.Native.String.{String}
use Prim.Native.Nat.{ℕ}
use railone_core.Prelude.Tests.{nat_beq, nat_beq_iff}
use native.Mathlib.Omega.{arith}
use text.Mathlib.TextEquality.{eq_iff}
use text.Mathlib.Text.{◌==◌ as same_text}

pub record Comparable {ℓ} (K : Type ℓ) : Type ℓ where
  pub same : K → K → Bool
  pub same_iff : (x y : K) → (same x y ≡ true) ↔ (x ≡ y)

instance abbrev pub string_eq : Comparable String
string_eq = record { same = same_text; same_iff = eq_iff }

infix 50 ◌==◌
abbrev pub ◌==◌ {ℓ} : {K : Type ℓ} ⦃c : Comparable K⦄ → K → K → Bool
◌==◌ ⦃c⦄ x y = c.same x y

instance abbrev pub nat_eq : Comparable ℕ
nat_eq = record { same = nat_beq; same_iff = nat_beq_iff }

-- Pairs, the keys of some dictionaries.
abbrev pub pair_same : String × String → String × String → Bool
pair_same (a, b) (c, d) = same_text a c && same_text b d

pub pair_same_iff : (x y : String × String) → (pair_same x y ≡ true) ↔ (x ≡ y)
pair_same_iff (a, b) (c, d) = ground (arith, eq_iff a c, eq_iff b d)

instance abbrev pub pair_eq : Comparable (String × String)
pair_eq = record { same = pair_same; same_iff = pair_same_iff }
