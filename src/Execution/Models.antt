-- ===== src/Execution/Models.antt =====
-- railone_execution/models.py. A `datetime` is its microseconds since 1970 in UTC, with the mark that it has a time zone.
use Prim.Native.String.{◌++◌ as append}
use railone_core.Prelude.{
  ℕ, ◌-◌, ◌/◌, String, Bool, true, false, not, ◌&&◌, List, [], ◌∷◌, Option, Result, ok, err,
  value_error, raise_if, and_then, if◌then◌else◌, leb,
}
use railone_core.Prelude.Int.{ℤ, pos, ltb_ℤ, leb_ℤ}
use railone_core.Prelude.Text.{upper}
use railone_core.Crypto.Json.{Json, int, text, object, fields_of}
use railone_core.Crypto.Signatures.{SignatureEnvelope}
use railone_core.Contracts.Validation.{require_text, require_minor_units}

pub record Datetime : Type 0 where
  pub has_zone : Bool
  pub micros : ℕ

unfoldable pub require_aware : String → Datetime → Result ℕ
require_aware name value =
    if value.has_zone
    then ok value.micros
    else err (value_error (append name " must be timezone-aware"))

-- `int(value.timestamp())`
abbrev pub epoch_seconds : ℕ → ℕ
epoch_seconds micros = micros / 1000000

unfoldable pub require_bps : String → ℤ → Result (Unit {0})
require_bps name value =
    raise_if (not (leb_ℤ (pos 0) value && leb_ℤ value (pos 10000)))
      (value_error (append name " must be between 0 and 10000"))

pub data LinkStatus : Type 0 where
  up degraded down : LinkStatus

pub data PlanStatus : Type 0 where
  active reconciliation_required failed exhausted finalized : PlanStatus

pub data AttemptState : Type 0 where
  created failed succeeded reconciliation_required : AttemptState

pub data FailureDisposition : Type 0 where
  retryable terminal reconciliation_required : FailureDisposition

abbrev pub is_active : PlanStatus → Bool
is_active PlanStatus.active = true
is_active _ = false

abbrev pub is_created : AttemptState → Bool
is_created AttemptState.created = true
is_created _ = false

abbrev pub awaits_reconciliation : AttemptState → Bool
awaits_reconciliation AttemptState.reconciliation_required = true
awaits_reconciliation _ = false

pub record RouteCandidate : Type 0 where
  pub route_id : String
  pub source_institution_id : String
  pub destination_institution_id : String
  pub rail : String
  pub provider : String
  pub adapter : String
  pub currency_from : String
  pub currency_to : String
  pub min_amount_minor : ℤ
  pub max_amount_minor : ℤ
  pub latency_ms : ℤ
  pub congestion_bps : ℤ
  pub liquidity_capacity_minor : ℤ
  pub throughput_headroom_bps : ℤ
  pub speed_bps : ℤ
  pub estimated_cost_minor : ℤ
  pub link_status : LinkStatus
  pub telemetry_observed_at : Datetime
  pub telemetry_expires_at : Datetime

abbrev pub checks : List (Result (Unit {0})) → Result (Unit {0})
checks [] = ok tt
checks (c ∷ rest) = and_then c (λ _. checks rest)

abbrev pub text_check : String → String → Result (Unit {0})
text_check name value = and_then (require_text name value) (λ _. ok tt)

abbrev pub units_check : String → ℤ → Bool → Result (Unit {0})
units_check name value allow_zero =
    and_then (require_minor_units name value allow_zero) (λ _. ok tt)

-- The texts that `normalized` requires.
unfoldable pub route_texts : RouteCandidate → Result (Unit {0})
route_texts c = checks (
    text_check "route_id" c.route_id
    ∷ text_check "source_institution_id" c.source_institution_id
    ∷ text_check "destination_institution_id" c.destination_institution_id
    ∷ text_check "rail" c.rail
    ∷ text_check "provider" c.provider
    ∷ text_check "adapter" c.adapter
    ∷ text_check "currency_from" c.currency_from
    ∷ text_check "currency_to" c.currency_to
    ∷ [])

-- The numbers that `normalized` bounds.
unfoldable pub route_numbers : RouteCandidate → Result (Unit {0})
unfolding require_bps
route_numbers c = checks (
    units_check "min_amount_minor" c.min_amount_minor true
    ∷ units_check "max_amount_minor" c.max_amount_minor false
    ∷ raise_if (ltb_ℤ c.max_amount_minor c.min_amount_minor)
        (value_error "min_amount_minor cannot exceed max_amount_minor")
    ∷ units_check "latency_ms" c.latency_ms true
    ∷ require_bps "congestion_bps" c.congestion_bps
    ∷ units_check "liquidity_capacity_minor" c.liquidity_capacity_minor true
    ∷ require_bps "throughput_headroom_bps" c.throughput_headroom_bps
    ∷ require_bps "speed_bps" c.speed_bps
    ∷ units_check "estimated_cost_minor" c.estimated_cost_minor true
    ∷ [])

-- The telemetry window that `normalized` requires.
unfoldable pub route_window : RouteCandidate → Result (Unit {0})
unfolding require_aware
route_window c =
    and_then (require_aware "telemetry_observed_at" c.telemetry_observed_at) λ observed.
      and_then (require_aware "telemetry_expires_at" c.telemetry_expires_at) λ expires.
        raise_if (leb expires observed) (value_error "telemetry expiry must be after observation")

-- `RouteCandidate.normalized`: the candidate itself, once every check has passed.
unfoldable pub normalized : RouteCandidate → Result RouteCandidate
unfolding route_texts route_numbers route_window
normalized c =
    and_then (route_texts c)
      λ _. and_then (route_numbers c) λ _. and_then (route_window c) λ _. ok c

abbrev pub link_value : LinkStatus → String
link_value LinkStatus.up = "UP"
link_value LinkStatus.degraded = "DEGRADED"
link_value LinkStatus.down = "DOWN"

-- `RouteCandidate.to_payload`
unfoldable pub candidate_payload : RouteCandidate → Result Json
unfolding normalized fields_of upper require_aware
candidate_payload c = and_then (normalized c) λ _.
    and_then (require_aware "telemetry_observed_at" c.telemetry_observed_at) λ observed.
      and_then (require_aware "telemetry_expires_at" c.telemetry_expires_at) λ expires. ok (
        object (
          fields_of (
            ("route_id", text c.route_id)
            ∷ ("source_institution_id", text c.source_institution_id)
            ∷ ("destination_institution_id", text c.destination_institution_id)
            ∷ ("rail", text c.rail)
            ∷ ("provider", text c.provider)
            ∷ ("adapter", text c.adapter)
            ∷ ("currency_from", text (upper c.currency_from))
            ∷ ("currency_to", text (upper c.currency_to))
            ∷ ("min_amount_minor", int c.min_amount_minor)
            ∷ ("max_amount_minor", int c.max_amount_minor)
            ∷ ("latency_ms", int c.latency_ms)
            ∷ ("congestion_bps", int c.congestion_bps)
            ∷ ("liquidity_capacity_minor", int c.liquidity_capacity_minor)
            ∷ ("throughput_headroom_bps", int c.throughput_headroom_bps)
            ∷ ("speed_bps", int c.speed_bps)
            ∷ ("estimated_cost_minor", int c.estimated_cost_minor)
            ∷ ("link_status", text (link_value c.link_status))
            ∷ ("telemetry_observed_at", int (pos (epoch_seconds observed)))
            ∷ ("telemetry_expires_at", int (pos (epoch_seconds expires)))
            ∷ [])))

-- The seven named scores that `_components` returns.
pub record ComponentScores : Type 0 where
  pub latency : ℤ
  pub congestion : ℤ
  pub liquidity : ℤ
  pub throughput : ℤ
  pub speed : ℤ
  pub cost : ℤ
  pub link : ℤ

unfoldable pub scores_payload : ComponentScores → Json
unfolding fields_of
scores_payload s = object (
    fields_of (
      ("latency", int s.latency)
      ∷ ("congestion", int s.congestion)
      ∷ ("liquidity", int s.liquidity)
      ∷ ("throughput", int s.throughput)
      ∷ ("speed", int s.speed)
      ∷ ("cost", int s.cost)
      ∷ ("link", int s.link)
      ∷ []))

pub record RankedRoute : Type 0 where
  pub candidate : RouteCandidate
  pub score_bps : ℤ
  pub component_scores : ComponentScores
  pub rank : ℕ

-- `RankedRoute.to_payload`
unfoldable pub ranked_payload : RankedRoute → Result Json
unfolding candidate_payload scores_payload fields_of
ranked_payload r = and_then (candidate_payload r.candidate) λ route. ok (
    object (
      fields_of (
        ("rank", int (pos r.rank))
        ∷ ("score_bps", int r.score_bps)
        ∷ ("component_scores", scores_payload r.component_scores)
        ∷ ("route", route)
        ∷ [])))

pub record RouteFailure : Type 0 where
  pub rtt_id : String
  pub route_id : String
  pub failure_code : String
  pub disposition : FailureDisposition
  pub recorded_at : ℕ

pub record ExecutionPlan : Type 0 where
  pub plan_id : String
  pub utt_id : String
  pub ranked_routes : List RankedRoute
  pub remaining_route_ids : List String
  pub failures : List RouteFailure
  pub attempts_used : ℕ
  pub max_attempts : ℕ
  pub routing_budget_minor : ℕ
  pub routing_cost_spent_minor : ℕ
  pub current_rtt_id : Option String
  pub previous_rtt_id : Option String
  pub previous_route_id : Option String
  pub status : PlanStatus
  pub successful_route_id : Option String
  pub version : ℕ
  pub created_at : ℕ
  pub updated_at : ℕ

-- `max(0, budget - spent)`: `-` on ℕ stops at 0.
abbrev pub routing_budget_remaining : ExecutionPlan → ℕ
routing_budget_remaining p = p.routing_budget_minor - p.routing_cost_spent_minor

pub record RttAttemptRecord : Type 0 where
  pub rtt_id : String
  pub utt_id : String
  pub plan_id : String
  pub attempt_number : ℕ
  pub route_id : String
  pub signed_rtt : SignatureEnvelope
  pub state : AttemptState
  pub failure_code : Option String
  pub actual_cost_minor : Option ℕ
  pub created_at : ℕ
  pub updated_at : ℕ
