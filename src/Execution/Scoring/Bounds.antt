-- ===== src/Execution/Scoring/Bounds.antt =====
-- The scores of railone_execution/scoring.py are basis points.
use railone_core.Prelude.{
  ℕ, zero, suc, ◌-◌, ◌*◌, ◌/◌, ◌≤◌, String, ◌≡◌, refl, true, false, ok, and_then-eq_ok,
  ok-injective, raise_if, arith,
}
use railone_core.Prelude.Int.{ℤ, pos, negsuc, ltb_ℤ, max_ℤ, min_ℤ, floor_div, ◌-ℤ◌, ◌≤ℤ◌}
use railone_core.Prelude.Int.Laws.{pos-sub, pos-mul}
use railone_core.Contracts.Validation.{require_minor_units}
use railone_core.Execution.Models.{
  RouteCandidate, normalized, route_texts, route_numbers, require_bps, units_check, ComponentScores,
  LinkStatus,
}
use railone_core.Execution.Scoring.{liquidity_score, cost_score, link_score}

-- The number is one of basis points.
abbrev pub IsBps : ℤ → Type 0
IsBps z = (pos 0 ≤ℤ z) × (z ≤ℤ pos 10000)

require_bps-IsBps : (name : String) (z : ℤ) (u : Unit {0}) → require_bps name z ≡ ok u → IsBps z
unfolding require_bps
require_bps-IsBps name (pos n) u h = ground arith
require_bps-IsBps name (negsuc n) u h = ground arith

units_check-pos :
    (name : String) (z : ℤ) (u : Unit {0}) → units_check name z true ≡ ok u → (n : ℕ) × (z ≡ pos n)
unfolding require_minor_units
units_check-pos name (pos n) u h = (n, refl)
units_check-pos name (negsuc n) u h = cc

-- What a candidate that has passed `normalized` is known to hold.
pub record IsBounded (c : RouteCandidate) : Type 0 where
  pub congestion : IsBps c.congestion_bps
  pub throughput : IsBps c.throughput_headroom_bps
  pub speed : IsBps c.speed_bps
  pub latency : (n : ℕ) × (c.latency_ms ≡ pos n)
  pub cost : (n : ℕ) × (c.estimated_cost_minor ≡ pos n)
  pub capacity : (n : ℕ) × (c.liquidity_capacity_minor ≡ pos n)

route_numbers-IsBounded : (c : RouteCandidate) (u : Unit {0}) → route_numbers c ≡ ok u → IsBounded c
unfolding route_numbers
route_numbers-IsBounded c u h =
    let (_, _, h₁) = and_then-eq_ok (units_check "min_amount_minor" c.min_amount_minor true) _ h in
    let (_, _, h₂) =
      and_then-eq_ok (units_check "max_amount_minor" c.max_amount_minor false) _ h₁ in
    let (_, _, h₃) =
      and_then-eq_ok (raise_if (ltb_ℤ c.max_amount_minor c.min_amount_minor) _) _ h₂ in
    let (u₄, latency, h₄) = and_then-eq_ok (units_check "latency_ms" c.latency_ms true) _ h₃ in
    let (u₅, congestion, h₅) =
      and_then-eq_ok (require_bps "congestion_bps" c.congestion_bps) _ h₄ in
    let (u₆, capacity, h₆) =
      and_then-eq_ok (units_check "liquidity_capacity_minor" c.liquidity_capacity_minor true) _
        h₅ in
    let (u₇, throughput, h₇) =
      and_then-eq_ok (require_bps "throughput_headroom_bps" c.throughput_headroom_bps) _ h₆ in
    let (u₈, speed, h₈) = and_then-eq_ok (require_bps "speed_bps" c.speed_bps) _ h₇ in
    let (u₉, cost, h₉) =
      and_then-eq_ok (units_check "estimated_cost_minor" c.estimated_cost_minor true) _ h₈ in
    record {
      congestion = require_bps-IsBps "congestion_bps" _ u₅ congestion;
      throughput = require_bps-IsBps "throughput_headroom_bps" _ u₇ throughput;
      speed = require_bps-IsBps "speed_bps" _ u₈ speed;
      latency = units_check-pos _ _ u₄ latency;
      cost = units_check-pos _ _ u₉ cost;
      capacity = units_check-pos _ _ u₆ capacity;
    }

pub normalized-IsBounded : (c d : RouteCandidate) → normalized c ≡ ok d → IsBounded c
unfolding normalized
normalized-IsBounded c d h =
    let (_, _, h₁) = and_then-eq_ok (route_texts c) _ h in
    let (u, numbers, _) = and_then-eq_ok (route_numbers c) _ h₁ in
    route_numbers-IsBounded c u numbers

-- Each component is one of basis points.
pub record AreBps (s : ComponentScores) : Type 0 where
  pub latency : IsBps s.latency
  pub congestion : IsBps s.congestion
  pub liquidity : IsBps s.liquidity
  pub throughput : IsBps s.throughput
  pub speed : IsBps s.speed
  pub cost : IsBps s.cost
  pub link : IsBps s.link

pub below-IsBps : (z : ℤ) → IsBps z → IsBps (pos 10000 -ℤ z)
unfolding ◌-ℤ◌
below-IsBps (pos n) h = ground arith
below-IsBps (negsuc n) h = ground arith

pub latency-IsBps : (n : ℕ) → IsBps (max_ℤ (pos 0) (pos 10000 -ℤ min_ℤ (pos n) (pos 10000)))
unfolding ◌-ℤ◌
latency-IsBps n = ground arith

pub link-IsBps : (l : LinkStatus) → IsBps (link_score l)
link-IsBps LinkStatus.up = (omega arith, omega arith)
link-IsBps LinkStatus.degraded = (omega arith, omega arith)
link-IsBps LinkStatus.down = (omega arith, omega arith)

min-IsBps : (n : ℕ) → IsBps (min_ℤ (pos 10000) (pos n))
min-IsBps n = ground arith

max-IsBps : (n : ℕ) → IsBps (max_ℤ (pos 0) (pos 10000 -ℤ pos n))
unfolding ◌-ℤ◌
max-IsBps n = ground arith

-- A liquidity score of a capacity that covers the amount.
pub liquidity-IsBps :
    (amount capacity : ℕ) (z : ℤ)
    → amount ≤ capacity
    → liquidity_score amount (pos capacity) ≡ ok z
    → IsBps z
unfolding liquidity_score floor_div
liquidity-IsBps zero capacity z h e = cc
liquidity-IsBps (suc n) capacity z h e =
    rw (← ok-injective e, pos-sub capacity (suc n) h, pos-mul (capacity - suc n) 10000)
      (min-IsBps ((capacity - suc n) * 10000 / suc n))

pub cost-IsBps : (budget cost : ℕ) → IsBps (cost_score budget (pos cost))
unfolding cost_score floor_div
cost-IsBps zero cost = (omega arith, omega arith)
cost-IsBps (suc n) cost = rw (pos-mul cost 10000) (max-IsBps (cost * 10000 / suc n))
