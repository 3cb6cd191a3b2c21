-- ===== src/Execution/Attempts/Outcomes.antt =====
-- `record_failure`, `record_success` and `resolve_reconciliation` of `RttAttemptService`.
use railone_core.Prelude.{
  ℕ, ◌+◌, ◌-◌, String, Bool, true, false, not, ◌&&◌, ◌||◌, [], ◌∷◌, ◌++◌, Option, none, some,
  Result, ok, value_error, plan_not_executable, and_then, raise_if, leb, some_of, if◌then◌else◌,
}
use railone_core.Prelude.Equality.{◌==◌, string_eq}
use railone_core.Prelude.Int.{ℤ, pos, leb_ℤ}
use railone_core.Prelude.Text.{upper, is_empty}
use railone_core.Prelude.Exec.{Exec, pure, lift, reads, raise_when, ◌>>=◌, ◌>>◌}
use railone_core.Contracts.Validation.{require_text, require_minor_units}
use railone_core.Execution.Models.{
  Datetime, require_aware, PlanStatus, AttemptState, is_created, awaits_reconciliation,
  FailureDisposition, RouteFailure, ExecutionPlan, RttAttemptRecord,
}
use railone_core.Execution.Store.{
  ExecutionStore, require_plan, require_attempt, commit_transition, is_current,
}

-- Some remaining route costs no more than what the budget leaves after `spent`.
unfoldable pub affordable_remains : ExecutionPlan → ℕ → Bool
affordable_remains plan spent =
    some_of
      (λ r.
        some_of (λ route_id. route_id == r.candidate.route_id) plan.remaining_route_ids
        && leb_ℤ r.candidate.estimated_cost_minor (pos (plan.routing_budget_minor - spent)))
      plan.ranked_routes

-- The status after a failure that may be retried.
unfoldable pub retry_status : ExecutionPlan → ℕ → PlanStatus
unfolding affordable_remains
retry_status plan spent =
    if leb plan.max_attempts plan.attempts_used || not (affordable_remains plan spent)
    then PlanStatus.exhausted
    else PlanStatus.active

unfoldable pub failure_status : FailureDisposition → ExecutionPlan → ℕ → PlanStatus
unfolding retry_status
failure_status FailureDisposition.reconciliation_required plan spent =
    PlanStatus.reconciliation_required
failure_status FailureDisposition.terminal plan spent = PlanStatus.failed
failure_status FailureDisposition.retryable plan spent = retry_status plan spent

abbrev pub failure_current : FailureDisposition → String → Option String
failure_current FailureDisposition.reconciliation_required rtt_id = some rtt_id
failure_current _ rtt_id = none

abbrev pub failure_state : FailureDisposition → AttemptState
failure_state FailureDisposition.reconciliation_required = AttemptState.reconciliation_required
failure_state _ = AttemptState.failed

-- What one report of a failure holds.
pub record FailureReport : Type 0 where
  pub rtt_id : String
  pub code : String
  pub disposition : FailureDisposition
  pub cost : ℕ
  pub instant : ℕ

abbrev pub route_failure : FailureReport → RttAttemptRecord → RouteFailure
route_failure f attempt = record {
  rtt_id = f.rtt_id;
  route_id = attempt.route_id;
  failure_code = f.code;
  disposition = f.disposition;
  recorded_at = f.instant;
}

unfoldable pub failed_plan : FailureReport → ExecutionPlan → RttAttemptRecord → ExecutionPlan
unfolding failure_status
failed_plan f plan attempt =
    let spent = plan.routing_cost_spent_minor + f.cost in
    record plan {
      failures = plan.failures ++ route_failure f attempt ∷ [];
      routing_cost_spent_minor = spent;
      current_rtt_id = failure_current f.disposition f.rtt_id;
      previous_rtt_id = some f.rtt_id;
      previous_route_id = some attempt.route_id;
      status = failure_status f.disposition plan spent;
      version = plan.version + 1;
      updated_at = f.instant;
    }

unfoldable pub failed_attempt : FailureReport → RttAttemptRecord → RttAttemptRecord
failed_attempt f attempt = record attempt {
  state = failure_state f.disposition;
  failure_code = some f.code;
  actual_cost_minor = some f.cost;
  updated_at = f.instant;
}

-- `record_failure`, once its arguments have been validated; `key` is the stripped identifier.
unfoldable pub apply_failure : String → FailureReport → Exec ExecutionStore ExecutionPlan
apply_failure key f = do
  attempt ← reads (require_attempt key)
  raise_when (not (is_created attempt.state))
      (plan_not_executable "RTT has already reached an operational outcome")
  plan ← reads (require_plan attempt.plan_id)
  commit_transition plan.version (failed_plan f plan attempt) (failed_attempt f attempt)
  pure (failed_plan f plan attempt)

unfoldable pub record_failure :
    String → String → FailureDisposition → ℤ → Datetime → Exec ExecutionStore ExecutionPlan
unfolding require_aware
record_failure rtt_id failure_code disposition actual_cost at = do
  instant ← lift (require_aware "failure timestamp" at)
  cost ← lift (require_minor_units "actual_cost_minor" actual_cost true)
  code ← lift (require_text "failure_code" failure_code)
  key ← lift (require_text "rtt_id" rtt_id)
  apply_failure key (record {
    rtt_id = rtt_id;
    code = upper code;
    disposition = disposition;
    cost = cost;
    instant = instant;
  })

-- What one report of a success holds.
pub record SuccessReport : Type 0 where
  pub rtt_id : String
  pub cost : ℕ
  pub instant : ℕ

unfoldable pub finalized_plan : SuccessReport → ExecutionPlan → RttAttemptRecord → ExecutionPlan
finalized_plan r plan attempt = record plan {
  routing_cost_spent_minor = plan.routing_cost_spent_minor + r.cost;
  current_rtt_id = none;
  previous_rtt_id = some r.rtt_id;
  previous_route_id = some attempt.route_id;
  status = PlanStatus.finalized;
  successful_route_id = some attempt.route_id;
  version = plan.version + 1;
  updated_at = r.instant;
}

unfoldable pub succeeded_attempt : SuccessReport → RttAttemptRecord → RttAttemptRecord
succeeded_attempt r attempt = record attempt {
  state = AttemptState.succeeded;
  actual_cost_minor = some r.cost;
  updated_at = r.instant;
}

unfoldable pub apply_success : String → SuccessReport → Exec ExecutionStore ExecutionPlan
apply_success key r = do
  attempt ← reads (require_attempt key)
  raise_when (not (is_created attempt.state))
      (plan_not_executable "RTT has already reached an operational outcome")
  plan ← reads (require_plan attempt.plan_id)
  commit_transition plan.version (finalized_plan r plan attempt) (succeeded_attempt r attempt)
  pure (finalized_plan r plan attempt)

unfoldable pub record_success : String → ℤ → Datetime → Exec ExecutionStore ExecutionPlan
unfolding require_aware
record_success rtt_id actual_cost at = do
  instant ← lift (require_aware "success timestamp" at)
  cost ← lift (require_minor_units "actual_cost_minor" actual_cost true)
  key ← lift (require_text "rtt_id" rtt_id)
  apply_success key (record { rtt_id = rtt_id; cost = cost; instant = instant })

-- How a reconciliation ends: a success, or a failure with its optional code and its disposition.
pub data Resolution : Type 0 where
  confirmed_success : Resolution
  confirmed_failure : Option String → FailureDisposition → Resolution

-- `failure_code or "PROVIDER_CONFIRMED_FAILURE"`
abbrev pub resolution_code : Option String → String
resolution_code none = "PROVIDER_CONFIRMED_FAILURE"
resolution_code (some code) = if is_empty code then "PROVIDER_CONFIRMED_FAILURE" else code

abbrev pub is_reconciliation : FailureDisposition → Bool
is_reconciliation FailureDisposition.reconciliation_required = true
is_reconciliation _ = false

-- The plan and the attempt that a resolution leaves.
unfoldable pub resolved :
    Resolution
    → SuccessReport
    → ExecutionPlan
    → RttAttemptRecord
    → Result (ExecutionPlan × RttAttemptRecord)
unfolding finalized_plan succeeded_attempt failed_plan failed_attempt
resolved confirmed_success r plan attempt =
    ok (finalized_plan r plan attempt, succeeded_attempt r attempt)
resolved (confirmed_failure failure_code disposition) r plan attempt =
    and_then (require_text "failure_code" (resolution_code failure_code)) λ code.
      and_then
        (raise_if (is_reconciliation disposition)
          (value_error "reconciliation resolution must be success or confirmed failure"))
        λ _.
          let f : FailureReport = record {
            rtt_id = r.rtt_id;
            code = upper code;
            disposition = disposition;
            cost = r.cost;
            instant = r.instant;
          } in
          ok (failed_plan f plan attempt, failed_attempt f attempt)

abbrev pub is_awaiting : PlanStatus → Bool
is_awaiting PlanStatus.reconciliation_required = true
is_awaiting _ = false

unfoldable pub apply_resolution :
    String → Resolution → SuccessReport → Exec ExecutionStore ExecutionPlan
apply_resolution key how r = do
  attempt ← reads (require_attempt key)
  raise_when (not (awaits_reconciliation attempt.state))
      (plan_not_executable "RTT is not awaiting reconciliation")
  plan ← reads (require_plan attempt.plan_id)
  raise_when (not (is_awaiting plan.status) || not (is_current plan.current_rtt_id r.rtt_id))
      (plan_not_executable "execution plan is not awaiting this RTT")
  updated ← lift (resolved how r plan attempt)
  commit_transition plan.version updated.0 updated.1
  pure updated.0

unfoldable pub resolve_reconciliation :
    String → Resolution → ℤ → Datetime → Exec ExecutionStore ExecutionPlan
unfolding require_aware
resolve_reconciliation rtt_id how actual_cost at = do
  instant ← lift (require_aware "reconciliation timestamp" at)
  cost ← lift (require_minor_units "actual_cost_minor" actual_cost true)
  key ← lift (require_text "rtt_id" rtt_id)
  apply_resolution key how (record { rtt_id = rtt_id; cost = cost; instant = instant })
