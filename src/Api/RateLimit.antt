-- ===== src/Api/RateLimit.antt =====
-- railone_api/guard.py: `InMemoryRateLimitStore`, and what a window lets through.
pub mod Capped
use railone_core.Prelude.{
  ℕ, suc, String, ◌≡◌, refl, sym, ap, Bool, true, false, not, ◌&&◌, List, [], ◌∷◌, Option, none,
  some, Exception, Result, ok, err, value_error, if◌then◌else◌, leb, ◌+◌, ◌-◌, ◌*◌, ◌≤◌, ◌<◌, All,
  Bool-cases, inl, inr, ◌⊎◌, arith,
}
use railone_core.Prelude.Int.{ℤ, pos, pos_part, leb_ℤ}
use railone_core.Prelude.Equality.{◌==◌, string_eq}
use text.Mathlib.TextEquality.{eq_iff}
use railone_core.Prelude.Dict.{Dict, lookup, insert, lookup-insert}
use railone_core.Prelude.Exec.{Exec, pure, raise_when, reads, modify, ◌>>=◌, ◌>>◌}

-- The tuple that is kept for a scope: when its window began, the requests in it, and its length.
pub record Window : Type 0 where
  pub started_at : ℕ
  pub count : ℕ
  pub seconds : ℕ

pub record RateLimitStore : Type 0 where
  pub windows : Dict String Window

pub record RateLimitDecision : Type 0 where
  pub allowed : Bool
  pub limit : ℕ
  pub remaining : ℕ
  pub reset_at : ℕ

-- `timedelta(seconds=n)` in microseconds
abbrev pub timedelta : ℕ → ℕ
timedelta seconds = 1000000 * seconds

-- `1 <= value <= most`
abbrev pub in_policy : ℤ → ℕ → Bool
in_policy value most = leb_ℤ (pos 1) value && leb_ℤ value (pos most)

-- There is no window, or it has run out.
abbrev pub is_over : Option Window → ℕ → Bool
is_over none at = true
is_over (some current) at = leb (current.started_at + timedelta current.seconds) at

abbrev pub opened : ℕ → ℕ → Window
opened at seconds = record { started_at = at; count = 1; seconds = seconds }

unfoldable pub next_window : Option Window → ℕ → ℕ → Window
next_window none at seconds = opened at seconds
next_window (some current) at seconds =
    if is_over (some current) at
    then opened at seconds
    else record { started_at = current.started_at; count = current.count + 1; seconds = seconds }

abbrev pub decide : ℕ → ℕ → Window → RateLimitDecision
decide limit seconds w = record {
  allowed = leb w.count limit;
  limit = limit;
  remaining = limit - w.count;
  reset_at = w.started_at + timedelta seconds;
}

unfoldable pub consume : String → ℤ → ℤ → ℕ → Exec RateLimitStore RateLimitDecision
unfolding next_window
consume scope_key limit window_seconds at = do
  raise_when (not (in_policy limit 10000)) (value_error "rate limit must be between 1 and 10000")
  raise_when (not (in_policy window_seconds 3600))
      (value_error "rate-limit window must be between 1 and 3600 seconds")
  w ← reads (λ s. ok (next_window (lookup scope_key s.windows) at (pos_part window_seconds)))
  modify (λ s. record { windows = insert scope_key w s.windows })
  pure (decide (pos_part limit) (pos_part window_seconds) w)

-- A request: its scope and its instant.
pub record Call : Type 0 where
  pub scope : String
  pub at : ℕ

abbrev pub let_through : Result RateLimitDecision → Bool
let_through (ok decision) = decision.allowed
let_through (err e) = false

-- How many requests of a scope are let through.
unfoldable pub let_through_in : String → ℤ → ℤ → List Call → RateLimitStore → ℕ
let_through_in k limit seconds [] s = 0
let_through_in k limit seconds (call ∷ calls) s =
    (if (call.scope == k) && let_through (consume call.scope limit seconds call.at s).0
      then 1
      else 0)
    + let_through_in k limit seconds calls (consume call.scope limit seconds call.at s).1
