-- ===== src/Execution/Tests.antt =====
-- The services of railone_execution/service.py on a small payment: two routes, of which the first fails.
mod Witnesses
mod Outcomes
mod Rankings
use railone_core.Prelude.{
  ℕ, String, ◌≡◌, refl, Bool, true, false, List, [], ◌∷◌, Option, none, some, Result, ok, err, All,
}
use railone_core.Prelude.Int.{ℤ, pos}
use railone_core.Prelude.Text.{strip}
use railone_core.Prelude.Equality.{string_eq}
use railone_core.Prelude.Dict.{lookup}
use railone_core.Crypto.Json.{Json, int, text, object, fields_of}
use railone_core.Crypto.Signatures.{SignatureEnvelope, SignatureService}
use railone_core.Execution.Models.{
  AttemptState, PlanStatus, Datetime, LinkStatus, RouteCandidate, FailureDisposition, ExecutionPlan,
  RttAttemptRecord,
}
use railone_core.Execution.Scoring.{RouteScoreWeights, default_weights}
use railone_core.Execution.Store.{ExecutionStore}
use railone_core.Execution.Lifecycle.Calls.{
  Call, build, start, fail, succeed, resolve, IsTrimmed, Services, serve, step, empty_store,
  empty_store-IsValid, serve-IsValid,
}
use railone_core.Execution.Lifecycle.Invariant.{StoreIsValid}

abbrev pub noon : Datetime
noon = record { has_zone = true; micros = 7000000 }

abbrev pub later : Datetime
later = record { has_zone = true; micros = 9000000 }

abbrev pub party : String → Json
party institution = object (
    fields_of (
      ("actor_id", text "A")
      ∷ ("endpoint", object (fields_of (("institution_id", text institution) ∷ [])))
      ∷ []))

abbrev pub terms : Json
terms = object (
    fields_of (
      ("amount_minor", int (pos 8))
      ∷ ("currency_from", text "KES")
      ∷ ("currency_to", text "KES")
      ∷ ("routing_budget_minor", int (pos 9))
      ∷ ("max_attempts", int (pos 2))
      ∷ ("routing_policy_id", text "P")
      ∷ ("endpoint_model_version", int (pos 1))
      ∷ ("payer", party "I1")
      ∷ ("beneficiary", party "I2")
      ∷ []))

abbrev pub header : Json
header = object (fields_of (("payload_sha256", text "H") ∷ []))

abbrev pub utt : SignatureEnvelope
utt = record { protected = header; payload = terms; signature = "S" }

abbrev pub signer : SignatureService
signer = record {
  sign_artifact =
      λ _ payload _ _. ok (record { protected = header; payload = payload; signature = "S" });
  verify_artifact = λ _ _. record { valid = true; reason = "ok" };
  sha256_hex = λ s. s;
}

abbrev pub services : Services
services = record {
  signatures = signer;
  require_utt = λ _. ok utt;
  endpoints = none;
  allow_unverified = true;
  signing_key_id = "K";
}

abbrev pub route : String → ℤ → RouteCandidate
route route_id cost = record {
  route_id = route_id;
  source_institution_id = "I1";
  destination_institution_id = "I2";
  rail = "R";
  provider = "P";
  adapter = "D";
  currency_from = "KES";
  currency_to = "KES";
  min_amount_minor = pos 1;
  max_amount_minor = pos 9;
  latency_ms = pos 3;
  congestion_bps = pos 2;
  liquidity_capacity_minor = pos 9;
  throughput_headroom_bps = pos 5;
  speed_bps = pos 6;
  estimated_cost_minor = cost;
  link_status = LinkStatus.up;
  telemetry_observed_at = record { has_zone = true; micros = 1000000 };
  telemetry_expires_at = record { has_zone = true; micros = 20000000 };
}

abbrev pub routes : List RouteCandidate
routes = route "R1" (pos 2) ∷ route "R2" (pos 1) ∷ []

abbrev pub first_rtt : String
first_rtt = "RTT-{\"ATTEMPT_NUMBER\":1,\"CREATED_AT\""

abbrev pub calls : List Call
calls =
    build default_weights "U" routes noon
    ∷ start "U" noon
    ∷ fail first_rtt "late" FailureDisposition.retryable (pos 1) later
    ∷ start "U" later
    ∷ []

-- After the plan, after the first start, and at the end.
abbrev pub planned : ExecutionStore
planned = serve services empty_store (build default_weights "U" routes noon ∷ [])

abbrev pub started : ExecutionStore
started = serve services planned (start "U" noon ∷ [])

abbrev pub final : ExecutionStore
final = serve services empty_store calls

-- The first attempt ends with an unknown outcome.
abbrev pub unknown_calls : List Call
unknown_calls =
    build default_weights "U" routes noon
    ∷ start "U" noon
    ∷ fail first_rtt "lost" FailureDisposition.reconciliation_required (pos 1) later
    ∷ []

abbrev pub unknown : ExecutionStore
unknown = serve services empty_store unknown_calls

abbrev pub second_rtt : String
second_rtt = "RTT-{\"ATTEMPT_NUMBER\":2,\"CREATED_AT\""

abbrev pub no_attempt : RttAttemptRecord
no_attempt = record {
  rtt_id = "";
  utt_id = "";
  plan_id = "";
  attempt_number = 0;
  route_id = "";
  signed_rtt = utt;
  state = AttemptState.failed;
  failure_code = none;
  actual_cost_minor = none;
  created_at = 0;
  updated_at = 0;
}

abbrev pub no_plan : ExecutionPlan
no_plan = record {
  plan_id = "";
  utt_id = "";
  ranked_routes = [];
  remaining_route_ids = [];
  failures = [];
  attempts_used = 0;
  max_attempts = 0;
  routing_budget_minor = 0;
  routing_cost_spent_minor = 0;
  current_rtt_id = none;
  previous_rtt_id = none;
  previous_route_id = none;
  status = PlanStatus.failed;
  successful_route_id = none;
  version = 0;
  created_at = 0;
  updated_at = 0;
}

abbrev pub plan_id : String
plan_id = "PLAN-{\"CREATED_AT\":7,\"RANKED_ROUTES\":"

abbrev pub found {ℓ} : {A : Type ℓ} → A → Option A → A
found a none = a
found a (some b) = b

unfoldable pub attempt_at : ExecutionStore → String → RttAttemptRecord
attempt_at s k = found no_attempt (lookup k s.attempts)

unfoldable pub stored_plan_of : ExecutionStore → String → ExecutionPlan
stored_plan_of s k = found no_plan (lookup k s.plans)
