-- ===== src/Execution/Attempts/Start.antt =====
-- `RttAttemptService.start_next`: the next route of a plan is tried.
use railone_core.Prelude.{
  ℕ, ◌+◌, String, Bool, true, false, not, List, [], ◌∷◌, Option, none, some, Result, ok, err,
  key_error, runtime_error, plan_not_executable, and_then, raise_if, or_raise, if◌then◌else◌, leb,
  select, nat_beq,
}
use Prim.Native.String.{◌++◌ as append}
use railone_core.Prelude.Equality.{◌==◌, string_eq}
use railone_core.Prelude.Int.{pos, leb_ℤ}
use railone_core.Prelude.Dict.{Dict, lookup, insert}
use railone_core.Prelude.Exec.{Exec, pure, lift, reads, ◌>>=◌, ◌>>◌}
use railone_core.Crypto.Json.{
  Json, bool, int, text, object, fields_of, optional_text, item, text_at,
}
use railone_core.Crypto.Canonical.{content_id}
use railone_core.Crypto.Signatures.{SignatureEnvelope, SignatureService, ArtifactType}
use railone_core.Contracts.Validation.{require_text}
use railone_core.Contracts.Endpoints.{
  AccountRole, debit, credit, EndpointValidator, endpoint_from_payload,
}
use railone_core.Execution.Models.{
  Datetime, require_aware, epoch_seconds, PlanStatus, is_active, AttemptState, RankedRoute,
  candidate_payload, scores_payload, ExecutionPlan, routing_budget_remaining, RttAttemptRecord,
}
use railone_core.Execution.Planning.{verified_utt}
use railone_core.Execution.Store.{ExecutionStore, require_plan_for_utt, commit_start, is_some}

-- `{route.candidate.route_id: route for route in ranked_routes}`
unfoldable pub index_routes : Dict String RankedRoute → List RankedRoute → Dict String RankedRoute
index_routes d [] = d
index_routes d (r ∷ rs) = index_routes (insert r.candidate.route_id r d) rs

-- The first remaining route whose estimated cost the remaining budget covers.
unfoldable pub select_route :
    Dict String RankedRoute → ℕ → List String → Result (Option RankedRoute)
select_route by_id budget [] = ok none
select_route by_id budget (route_id ∷ rest) =
    let later = select_route by_id budget rest in
    elim (lookup route_id by_id) [
      | none ↦ err (key_error route_id)
      | some r ↦ if leb_ℤ r.candidate.estimated_cost_minor (pos budget) then ok (some r) else later
    ]

abbrev pub status_value : PlanStatus → String
status_value PlanStatus.active = "ACTIVE"
status_value PlanStatus.reconciliation_required = "RECONCILIATION_REQUIRED"
status_value PlanStatus.failed = "FAILED"
status_value PlanStatus.exhausted = "EXHAUSTED"
status_value PlanStatus.finalized = "FINALIZED"

-- The guards on the plan, and the route that they leave.
unfoldable pub next_route : ExecutionPlan → Result RankedRoute
unfolding index_routes select_route
next_route plan =
    and_then
      (raise_if (not (is_active plan.status))
        (plan_not_executable (append "plan is " (status_value plan.status))))
      λ _.
        and_then
          (raise_if (is_some plan.current_rtt_id)
            (plan_not_executable "an RTT is already in flight"))
          λ _.
            and_then
              (raise_if (leb plan.max_attempts plan.attempts_used)
                (plan_not_executable "attempt limit exhausted"))
              λ _.
                and_then
                  (select_route (index_routes [] plan.ranked_routes) (routing_budget_remaining plan)
                    plan.remaining_route_ids)
                  λ selected. or_raise selected (plan_not_executable "no affordable route remains")

-- The plan once the attempt has been born.
unfoldable pub started_plan : ExecutionPlan → RankedRoute → String → ℕ → ExecutionPlan
started_plan plan selected rtt_id instant = record plan {
  remaining_route_ids =
      select (λ route_id. not (route_id == selected.candidate.route_id)) plan.remaining_route_ids;
  attempts_used = plan.attempts_used + 1;
  current_rtt_id = some rtt_id;
  version = plan.version + 1;
  updated_at = instant;
}

-- The signed material of the attempt's identifier.
unfoldable pub rtt_material : String → ExecutionPlan → RankedRoute → ℕ → Json
rtt_material utt_id plan selected instant = object (
    fields_of (
      ("utt_id", text utt_id)
      ∷ ("plan_id", text plan.plan_id)
      ∷ ("attempt_number", int (pos (plan.attempts_used + 1)))
      ∷ ("route_id", text selected.candidate.route_id)
      ∷ ("previous_rtt_id", optional_text plan.previous_rtt_id)
      ∷ ("created_at", int (pos (epoch_seconds instant)))
      ∷ []))

-- The payload of the RTT: `rtt_id`, the UTT's hash and the route's payload are computed before.
unfoldable pub rtt_payload : String → String → Json → Json → ExecutionPlan → RankedRoute → ℕ → Json
rtt_payload rtt_id utt_id hash route plan selected instant = object (
    fields_of (
      ("rtt_id", text rtt_id)
      ∷ ("utt_id", text utt_id)
      ∷ ("utt_payload_sha256", hash)
      ∷ ("plan_id", text plan.plan_id)
      ∷ ("attempt_number", int (pos (plan.attempts_used + 1)))
      ∷ ("route", route)
      ∷ ("route_score_bps", int selected.score_bps)
      ∷ ("route_component_scores", scores_payload selected.component_scores)
      ∷ ("previous_rtt_id", optional_text plan.previous_rtt_id)
      ∷ ("previous_route_id", optional_text plan.previous_route_id)
      ∷ ("replay_generation", int (pos plan.attempts_used))
      ∷ ("birth_state", text "CREATED")
      ∷ ("created_at", int (pos (epoch_seconds instant)))
      ∷ ("custody_model", text "NON_CUSTODIAL")
      ∷ []))

-- The record of a new attempt.
unfoldable pub born_attempt :
    String → String → ExecutionPlan → RankedRoute → SignatureEnvelope → ℕ → RttAttemptRecord
born_attempt rtt_id utt_id plan selected signed_rtt instant = record {
  rtt_id = rtt_id;
  utt_id = utt_id;
  plan_id = plan.plan_id;
  attempt_number = plan.attempts_used + 1;
  route_id = selected.candidate.route_id;
  signed_rtt = signed_rtt;
  state = AttemptState.created;
  failure_code = none;
  actual_cost_minor = none;
  created_at = instant;
  updated_at = instant;
}

-- `utt.get("endpoint_model_version") == 1`, which a true value satisfies too
abbrev pub is_version_one : Result Json → Bool
is_version_one (ok (int (pos n))) = nat_beq n 1
is_version_one (ok (bool true)) = true
is_version_one _ = false

module _ (signatures : SignatureService) (require_utt : String → Result SignatureEnvelope)
    (endpoints : Option EndpointValidator) (allow_unverified : Bool) (signing_key_id : String) where
  abbrev check_party : EndpointValidator → Json → String → AccountRole → String → Result (Unit {0})
  check_party validator utt party role currency_key = and_then (item party utt) λ p.
      and_then (text_at "actor_id" p) λ actor.
        and_then (and_then (item "endpoint" p) endpoint_from_payload) λ endpoint.
          and_then (text_at currency_key utt)
            λ currency. validator.validate_endpoint actor endpoint role currency

  -- The two endpoints are validated again, unless a test has switched that off.
  unfoldable pub check_endpoints : Json → Result (Unit {0})
  check_endpoints utt = elim endpoints [
    | none ↦
        raise_if (not allow_unverified)
          (runtime_error "partner endpoint validator is required for RTT start")
    | some validator ↦
        and_then (check_party validator utt "payer" debit "currency_from")
          λ _. check_party validator utt "beneficiary" credit "currency_to"
  ]

  -- The UTT, once it is verified and its endpoints are eligible, and its signed header.
  unfoldable pub executable_utt : String → Result (Json × Json)
  executable_utt utt_id = and_then (require_text "utt_id" utt_id) λ key.
      and_then (require_utt key) λ signed. and_then (verified_utt signatures signed) λ utt.
        and_then
          (raise_if (not (is_version_one (item "endpoint_model_version" utt)))
            (plan_not_executable "UTT uses an unsupported endpoint model"))
          λ _. and_then (check_endpoints utt) λ _. ok (utt, signed.protected)

  -- The attempt that a plan and its next route determine.
  unfoldable pub draft_attempt :
      String → Json → ExecutionPlan → RankedRoute → ℕ → Result RttAttemptRecord
  draft_attempt utt_id protected plan selected instant =
      let rtt_id =
        content_id signatures.sha256_hex "RTT" (rtt_material utt_id plan selected instant) in
      and_then (item "payload_sha256" protected) λ hash.
        and_then (candidate_payload selected.candidate) λ route.
          and_then
            (signatures.sign_artifact ArtifactType.rtt
              (rtt_payload rtt_id utt_id hash route plan selected instant) signing_key_id instant)
            λ signed_rtt. ok (born_attempt rtt_id utt_id plan selected signed_rtt instant)

  unfoldable pub start_next : String → Datetime → Exec ExecutionStore RttAttemptRecord
  start_next utt_id at = do
    instant ← lift (require_aware "attempt timestamp" at)
    verified ← lift (executable_utt utt_id)
    plan ← reads (require_plan_for_utt utt_id)
    selected ← lift (next_route plan)
    attempt ← lift (draft_attempt utt_id verified.1 plan selected instant)
    commit_start require_utt plan.version (started_plan plan selected attempt.rtt_id instant)
        attempt
    pure attempt
