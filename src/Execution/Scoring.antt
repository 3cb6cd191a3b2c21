-- ===== src/Execution/Scoring.antt =====
-- railone_execution/scoring.py: which candidates may carry a payment, and in which order.
pub mod Bounds
pub mod Weighted
pub mod Ranking
pub mod Specified
pub mod Ranked
use railone_core.Prelude.{
  ℕ, zero, suc, String, Bool, true, false, not, ◌||◌, ◌&&◌, List, [], ◌∷◌, map, Result, ok, err,
  value_error, zero_division, raise_if, and_then, if◌then◌else◌, ltb, leb, some_of,
}
use railone_core.Prelude.Equality.{◌==◌, string_eq, nat_eq}
use railone_core.Prelude.Int.{
  ℤ, pos, negsuc, ltb_ℤ, leb_ℤ, max_ℤ, min_ℤ, floor_div, ◌+ℤ◌, ◌-ℤ◌, ◌*ℤ◌,
}
use railone_core.Prelude.Order.{text_leb}
use railone_core.Prelude.Sort.{sort}
use railone_core.Prelude.Text.{upper}
use railone_core.Execution.Models.{
  Datetime, require_aware, LinkStatus, RouteCandidate, normalized, ComponentScores, RankedRoute,
}

pub record RouteScoreWeights : Type 0 where
  pub latency : ℤ
  pub congestion : ℤ
  pub liquidity : ℤ
  pub throughput : ℤ
  pub speed : ℤ
  pub cost : ℤ
  pub link : ℤ

abbrev pub default_weights : RouteScoreWeights
default_weights = record {
  latency = pos 1600;
  congestion = pos 1200;
  liquidity = pos 1700;
  throughput = pos 1200;
  speed = pos 1200;
  cost = pos 1800;
  link = pos 1300;
}

abbrev pub weight_list : RouteScoreWeights → List ℤ
weight_list w =
    w.latency ∷ w.congestion ∷ w.liquidity ∷ w.throughput ∷ w.speed ∷ w.cost ∷ w.link ∷ []

unfoldable pub sum_ℤ : List ℤ → ℤ
sum_ℤ [] = pos 0
sum_ℤ (x ∷ xs) = x +ℤ sum_ℤ xs

-- `RouteScoreWeights.__post_init__`
unfoldable pub checked_weights : RouteScoreWeights → Result RouteScoreWeights
unfolding sum_ℤ ◌+ℤ◌
checked_weights w =
    let total = sum_ℤ (weight_list w) in
    and_then
      (raise_if
        (some_of (λ v. ltb_ℤ v (pos 0)) (weight_list w)
          || not (leb_ℤ total (pos 10000) && leb_ℤ (pos 10000) total))
        (value_error "route weights must be non-negative and sum to 10000"))
      λ _. ok w

-- What a planning request asks for: the keyword arguments of `rank`.
pub record RankRequest : Type 0 where
  pub amount_minor : ℕ
  pub currency_from : String
  pub currency_to : String
  pub routing_budget_minor : ℕ
  pub source_institution_id : String
  pub destination_institution_id : String

abbrev pub is_down : LinkStatus → Bool
is_down LinkStatus.down = true
is_down _ = false

-- `_eligible`
unfoldable pub eligible : RankRequest → ℕ → RouteCandidate → Bool
eligible q at c =
    not (is_down c.link_status)
    && leb c.telemetry_observed_at.micros at
    && ltb at c.telemetry_expires_at.micros
    && upper c.currency_from == upper q.currency_from
    && upper c.currency_to == upper q.currency_to
    && leb_ℤ c.min_amount_minor (pos q.amount_minor)
    && leb_ℤ (pos q.amount_minor) c.max_amount_minor
    && leb_ℤ (pos q.amount_minor) c.liquidity_capacity_minor
    && leb_ℤ c.estimated_cost_minor (pos q.routing_budget_minor)
    && c.source_institution_id == q.source_institution_id
    && c.destination_institution_id == q.destination_institution_id

abbrev pub link_score : LinkStatus → ℤ
link_score LinkStatus.up = pos 10000
link_score _ = pos 4000

-- The liquidity score divides by the amount.
unfoldable pub liquidity_score : ℕ → ℤ → Result ℤ
liquidity_score zero capacity = err zero_division
liquidity_score (suc n) capacity =
    ok (min_ℤ (pos 10000) (floor_div ((capacity -ℤ pos (suc n)) *ℤ pos 10000) (suc n)))

unfoldable pub cost_score : ℕ → ℤ → ℤ
cost_score zero estimated = pos 10000
cost_score (suc n) estimated =
    max_ℤ (pos 0) (pos 10000 -ℤ floor_div (estimated *ℤ pos 10000) (suc n))

-- `_components`
unfoldable pub components : RankRequest → RouteCandidate → Result ComponentScores
unfolding liquidity_score cost_score
components q c = and_then (liquidity_score q.amount_minor c.liquidity_capacity_minor) λ liquidity.
    ok (record {
      latency = max_ℤ (pos 0) (pos 10000 -ℤ min_ℤ c.latency_ms (pos 10000));
      congestion = pos 10000 -ℤ c.congestion_bps;
      liquidity = liquidity;
      throughput = c.throughput_headroom_bps;
      speed = c.speed_bps;
      cost = cost_score q.routing_budget_minor c.estimated_cost_minor;
      link = link_score c.link_status;
    })

unfoldable pub weighted : RouteScoreWeights → ComponentScores → ℤ
unfolding floor_div
weighted w s =
    floor_div
      (s.latency *ℤ w.latency
        +ℤ s.congestion *ℤ w.congestion
        +ℤ s.liquidity *ℤ w.liquidity
        +ℤ s.throughput *ℤ w.throughput
        +ℤ s.speed *ℤ w.speed
        +ℤ s.cost *ℤ w.cost
        +ℤ s.link *ℤ w.link)
      10000

-- One entry of `scored`.
pub record ScoredRoute : Type 0 where
  pub candidate : RouteCandidate
  pub score : ℤ
  pub scores : ComponentScores

-- `len(ids) == len(set(ids))`
unfoldable pub distinct : List String → Bool
distinct [] = true
distinct (x ∷ xs) = not (some_of (λ y. x == y) xs) && distinct xs

abbrev pub route_ids : List RouteCandidate → List String
route_ids cs = map (λ c. c.route_id) cs

abbrev pub score_one : RouteScoreWeights → RankRequest → RouteCandidate → Result ScoredRoute
score_one w q c =
    and_then (components q c) λ s. ok (record { candidate = c; score = weighted w s; scores = s })

-- The loop over the candidates: an invalid one raises, one that is not eligible is skipped.
unfoldable pub score_all :
    RouteScoreWeights → RankRequest → ℕ → List RouteCandidate → Result (List ScoredRoute)
score_all w q at [] = ok []
score_all w q at (c ∷ cs) = and_then (normalized c) λ _.
    let rest = score_all w q at cs in
    if eligible q at c
    then and_then (score_one w q c) (λ x. and_then rest (λ xs. ok (x ∷ xs)))
    else rest

-- The sort key `(-score, route_id)`.
unfoldable pub before : ScoredRoute → ScoredRoute → Bool
before a b =
    if ltb_ℤ b.score a.score
    then true
    else if ltb_ℤ a.score b.score
    then false
    else text_leb a.candidate.route_id b.candidate.route_id

-- `enumerate(scored, start)`
unfoldable pub number_from : ℕ → List ScoredRoute → List RankedRoute
number_from start [] = []
number_from start (x ∷ xs) =
    record {
      candidate = x.candidate;
      score_bps = x.score;
      component_scores = x.scores;
      rank = start;
    }
    ∷ number_from (suc start) xs

-- `DeterministicRouteScorer.rank`
unfoldable pub rank :
    RouteScoreWeights → RankRequest → Datetime → List RouteCandidate → Result (List RankedRoute)
unfolding require_aware
rank w q at cs = and_then (require_aware "ranking timestamp" at) λ instant.
    and_then
      (raise_if (not (distinct (route_ids cs)))
        (value_error "route_id must be unique within a planning request"))
      λ _. and_then (score_all w q instant cs) λ scored. ok (number_from 1 (sort before scored))
