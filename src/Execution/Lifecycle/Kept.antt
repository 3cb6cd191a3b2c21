-- ===== src/Execution/Lifecycle/Kept.antt =====
-- Each call of railone_execution/service.py leaves a later store: nothing is lost or reopened.
use mathlib.Core.Path.{subst}
use railone_core.Prelude.{String, ◌≡◌, refl, sym, true, some, ok, arith}
use railone_core.Prelude.Int.{ℤ}
use railone_core.Prelude.Equality.{string_eq}
use railone_core.Prelude.Text.{strip}
use railone_core.Prelude.Dict.{Dict}
use railone_core.Execution.Models.{
  Datetime, PlanStatus, AttemptState, FailureDisposition, ExecutionPlan, RttAttemptRecord,
  is_created, awaits_reconciliation,
}
use railone_core.Execution.Store.{ExecutionStore, write_both}
use railone_core.Execution.Attempts.{
  FailureReport, failed_plan, failed_attempt, record_failure, SuccessReport, finalized_plan,
  succeeded_attempt, record_success, Resolution, confirmed_success, confirmed_failure, resolved,
  resolve_reconciliation,
}
use railone_core.Execution.Lifecycle.Reports.{
  resolved-success, resolved-failure, record_failure_branches, record_success_branches,
  resolve_reconciliation_branches,
}
use railone_core.Execution.Lifecycle.Branches.{
  Reported, apply_failure_branches, apply_success_branches, apply_resolution_branches,
}
use railone_core.Execution.Lifecycle.Invariant.{InPhase, is_open, StoreIsValid}
use railone_core.Execution.Lifecycle.History.{
  LaterAttempt, LaterAttempt-refl, has_ended, LaterPlan, LaterPlan-refl, Keeps-insert, LaterStore,
  LaterStore-refl,
}

pub created-is_open : (s : AttemptState) → is_created s ≡ true → is_open s ≡ true
created-is_open AttemptState.created h = refl
created-is_open AttemptState.failed h = cc
created-is_open AttemptState.succeeded h = cc
created-is_open AttemptState.reconciliation_required h = cc

pub awaits-is_open : (s : AttemptState) → awaits_reconciliation s ≡ true → is_open s ≡ true
awaits-is_open AttemptState.created h = cc
awaits-is_open AttemptState.failed h = cc
awaits-is_open AttemptState.succeeded h = cc
awaits-is_open AttemptState.reconciliation_required h = refl

-- A plan with a current attempt has not ended.
InPhase-not_ended :
    (k r : String) (d : Dict String RttAttemptRecord) (status : PlanStatus)
    → InPhase k d status (some r)
    → has_ended status ≡ true
    → ⊥
InPhase-not_ended k r d PlanStatus.active h e = cc
InPhase-not_ended k r d PlanStatus.reconciliation_required h e = cc
InPhase-not_ended k r d PlanStatus.failed h e = h
InPhase-not_ended k r d PlanStatus.exhausted h e = h
InPhase-not_ended k r d PlanStatus.finalized h e = h

module _ (key : String) (s : ExecutionStore) (attempt : RttAttemptRecord) (plan : ExecutionPlan)
    (v : StoreIsValid s) (reported : Reported key s attempt plan) where
  reported-not_ended : has_ended plan.status ≡ true → ⊥
  reported-not_ended =
      let valid = v.plan_valid attempt.plan_id plan reported.plan_held in
      let current : plan.current_rtt_id ≡ some attempt.rtt_id =
        cc (valid.own_id, reported.old_held, reported.plan_held, reported.in_flight) in
      InPhase-not_ended attempt.plan_id attempt.rtt_id s.attempts plan.status
        (rw current at valid.phase)

  -- A report that writes a later attempt and a later plan leaves a later store.
  settle-Later :
      (plan' : ExecutionPlan) (attempt' : RttAttemptRecord)
      → plan'.plan_id ≡ plan.plan_id
      → attempt'.rtt_id ≡ attempt.rtt_id
      → LaterAttempt attempt attempt'
      → LaterPlan plan plan'
      → LaterStore s (write_both plan' attempt' s)
  settle-Later plan' attempt' same_plan same_rtt later_attempt later_plan =
      let own_key = (v.attempt_valid key attempt reported.attempt_held).own_id in
      let own_plan = (v.plan_valid attempt.plan_id plan reported.plan_held).own_id in
      record {
        attempts_kept =
            Keeps-insert LaterAttempt attempt'.rtt_id attempt' s.attempts LaterAttempt-refl
              λ a held.
                let same : attempt ≡ a = cc (same_rtt, own_key, reported.attempt_held, held) in
                subst (λ x. LaterAttempt x attempt') same later_attempt;
        plans_kept = Keeps-insert LaterPlan plan'.plan_id plan' s.plans LaterPlan-refl λ p held.
            let same : plan ≡ p = cc (same_plan, own_plan, reported.plan_held, held) in
            subst (λ x. LaterPlan x plan') same later_plan;
      }

  failed-Later :
      (f : FailureReport)
      → is_open attempt.state ≡ true
      → LaterStore s (write_both (failed_plan f plan attempt) (failed_attempt f attempt) s)
  unfolding failed_plan failed_attempt
  failed-Later f opened =
      settle-Later (failed_plan f plan attempt) (failed_attempt f attempt) refl refl
        (record {
          same_utt = refl;
          same_plan = refl;
          same_number = refl;
          same_route = refl;
          same_signed = refl;
          same_birth = refl;
          ended = λ e. cc (opened, e);
        })
        (record {
          same_utt = refl;
          same_routes = refl;
          same_limit = refl;
          same_budget = refl;
          used_grows = omega arith;
          spent_grows = omega arith;
          version_grows = omega arith;
          ended = λ e. absurd (reported-not_ended e);
        })

  finalized-Later :
      (r : SuccessReport)
      → is_open attempt.state ≡ true
      → LaterStore s (write_both (finalized_plan r plan attempt) (succeeded_attempt r attempt) s)
  unfolding finalized_plan succeeded_attempt
  finalized-Later r opened =
      settle-Later (finalized_plan r plan attempt) (succeeded_attempt r attempt) refl refl
        (record {
          same_utt = refl;
          same_plan = refl;
          same_number = refl;
          same_route = refl;
          same_signed = refl;
          same_birth = refl;
          ended = λ e. cc (opened, e);
        })
        (record {
          same_utt = refl;
          same_routes = refl;
          same_limit = refl;
          same_budget = refl;
          used_grows = omega arith;
          spent_grows = omega arith;
          version_grows = omega arith;
          ended = λ e. absurd (reported-not_ended e);
        })

  resolved-Later :
      (how : Resolution) (r : SuccessReport) (u : ExecutionPlan × RttAttemptRecord)
      → is_open attempt.state ≡ true
      → resolved how r plan attempt ≡ ok u
      → LaterStore s (write_both u.0 u.1 s)
  resolved-Later confirmed_success r u opened made =
      subst (λ x. LaterStore s (write_both x.0 x.1 s)) (resolved-success r plan attempt u made)
        (finalized-Later r opened)
  resolved-Later (confirmed_failure code d) r u opened made =
      let (f, _, _, _, _, is) = resolved-failure code d r plan attempt u made in
      subst (λ x. LaterStore s (write_both x.0 x.1 s)) (sym is) (failed-Later f opened)

module _ (s : ExecutionStore) (v : StoreIsValid s) (rtt_id : String) where
  pub record_failure-Later :
      (code : String) (d : FailureDisposition) (cost : ℤ) (at : Datetime)
      → LaterStore s (record_failure rtt_id code d cost at s).1
  record_failure-Later code d cost at =
      record_failure_branches (λ o. LaterStore s o.1) s rtt_id (λ e. LaterStore-refl s) code d cost
        at
        λ f _ _.
          apply_failure_branches (λ o. LaterStore s o.1) (strip rtt_id) s (λ e. LaterStore-refl s) f
            λ attempt plan reported opened.
              failed-Later (strip rtt_id) s attempt plan v reported f
                (created-is_open attempt.state opened)

  pub record_success-Later :
      (cost : ℤ) (at : Datetime) → LaterStore s (record_success rtt_id cost at s).1
  record_success-Later cost at =
      record_success_branches (λ o. LaterStore s o.1) s rtt_id (λ e. LaterStore-refl s) cost at
        λ r _.
          apply_success_branches (λ o. LaterStore s o.1) (strip rtt_id) s (λ e. LaterStore-refl s) r
            λ attempt plan reported opened.
              finalized-Later (strip rtt_id) s attempt plan v reported r
                (created-is_open attempt.state opened)

  pub resolve_reconciliation-Later :
      (how : Resolution) (cost : ℤ) (at : Datetime)
      → LaterStore s (resolve_reconciliation rtt_id how cost at s).1
  resolve_reconciliation-Later how cost at =
      resolve_reconciliation_branches (λ o. LaterStore s o.1) s rtt_id (λ e. LaterStore-refl s) how
        cost at
        λ r _.
          apply_resolution_branches (λ o. LaterStore s o.1) (strip rtt_id) s
            (λ e. LaterStore-refl s) how r
            λ attempt plan u reported waits _ _ made.
              resolved-Later (strip rtt_id) s attempt plan v reported how r u
                (awaits-is_open attempt.state waits) made
