-- ===== src/Execution/Lifecycle/Accepted.antt =====
-- The calls of `RttAttemptService` that are accepted, and what they leave.
use railone_core.Prelude.{ℕ, String, ◌≡◌, refl, true, false, none, some, ok}
use railone_core.Prelude.Int.{pos}
use railone_core.Prelude.Equality.{string_eq, nat_eq}
use railone_core.Prelude.Text.{strip, upper, is_empty}
use railone_core.Prelude.Dict.{lookup, lookup-insert_self}
use railone_core.Contracts.Validation.{require_text, require_minor_units}
use railone_core.Execution.Models.{
  Datetime, require_aware, PlanStatus, AttemptState, FailureDisposition, ExecutionPlan,
  RttAttemptRecord, is_created,
}
use railone_core.Execution.Store.{ExecutionStore, write_both}
use railone_core.Execution.Attempts.{
  FailureReport, failed_plan, failed_attempt, record_failure, failure_state, SuccessReport,
  finalized_plan, succeeded_attempt, record_success,
}
use railone_core.Execution.Lifecycle.Invariant.{StoreIsValid}
use railone_core.Execution.Lifecycle.Effects.{
  IsCharged, FollowsDisposition, apply_failure-written, apply_success-written,
  failed_plan-IsCharged, finalized_plan-IsCharged, failed_plan-FollowsDisposition,
}

-- The stored plan and attempt, once a report is answered with the plan.
pub record Settled (s t : ExecutionStore) (a : RttAttemptRecord) (state : AttemptState) (cost : ℕ)
    (p q : ExecutionPlan) : Type 0 where
  pub plan_before : lookup a.plan_id s.plans ≡ some p
  pub plan_after : lookup q.plan_id t.plans ≡ some q
  pub attempt_after :
      (b : RttAttemptRecord) × (lookup a.rtt_id t.attempts ≡ some b)
      × (b.state ≡ state)
      × (b.actual_cost_minor ≡ some cost)
  pub charge : IsCharged cost p q

module _ (s : ExecutionStore) (rtt_id : String) (a : RttAttemptRecord) (at : Datetime) (cost : ℕ)
    (v : StoreIsValid s) (held : lookup (strip rtt_id) s.attempts ≡ some a)
    (created : is_created a.state ≡ true) (named : is_empty (strip rtt_id) ≡ false)
    (aware : at.has_zone ≡ true) where
  -- A failure of an attempt that is under way, on a valid store, with an aware timestamp, a cost that
  -- is not negative and a code that is not blank, is accepted: the attempt gets its state and cost,
  -- the plan is charged once, and its status follows the disposition.
  pub record_failure-accepted :
      (code : String) (d : FailureDisposition)
      → is_empty (strip code) ≡ false
      → (p : ExecutionPlan) × (q : ExecutionPlan) × (t : ExecutionStore) × (record_failure rtt_id
            code d
            (pos cost)
            at
            s
          ≡ (ok q, t))
        × Settled s t a (failure_state d) cost p q
        × FollowsDisposition d rtt_id p q
  unfolding record_failure require_text require_minor_units require_aware failed_plan failed_attempt
  record_failure-accepted code d coded =
      let f : FailureReport = record {
        rtt_id = rtt_id;
        code = upper (strip code);
        disposition = d;
        cost = cost;
        instant = at.micros;
      } in
      let (p, before, is) = apply_failure-written s (strip rtt_id) a v held created f in
      (
        p,
        failed_plan f p a,
        write_both (failed_plan f p a) (failed_attempt f a) s,
        rw (aware, coded, named) is,
        record {
          plan_before = before;
          plan_after = lookup-insert_self (failed_plan f p a).plan_id (failed_plan f p a) s.plans;
          attempt_after = (
            failed_attempt f a,
            lookup-insert_self (failed_attempt f a).rtt_id (failed_attempt f a) s.attempts,
            refl,
            refl,
          );
          charge = failed_plan-IsCharged f p a;
        },
        failed_plan-FollowsDisposition d f p a refl,
      )

  -- A success of an attempt that is under way, on a valid store, with an aware timestamp and a cost
  -- that is not negative, is accepted: the attempt succeeds with its cost, and the plan is charged
  -- once, finalized on the attempt's route, and has no current attempt.
  pub record_success-accepted :
      (p : ExecutionPlan) × (q : ExecutionPlan) × (t : ExecutionStore) × (record_success rtt_id
          (pos cost)
          at
          s
        ≡ (ok q, t))
      × Settled s t a AttemptState.succeeded cost p q
      × (q.status ≡ PlanStatus.finalized)
      × (q.successful_route_id ≡ some a.route_id)
      × (q.current_rtt_id ≡ none)
  unfolding record_success require_text require_minor_units require_aware finalized_plan
      succeeded_attempt
  record_success-accepted =
      let r : SuccessReport = record { rtt_id = rtt_id; cost = cost; instant = at.micros } in
      let (p, before, is) = apply_success-written s (strip rtt_id) a v held created r in
      (
        p,
        finalized_plan r p a,
        write_both (finalized_plan r p a) (succeeded_attempt r a) s,
        rw (aware, named) is,
        record {
          plan_before = before;
          plan_after =
              lookup-insert_self (finalized_plan r p a).plan_id (finalized_plan r p a) s.plans;
          attempt_after = (
            succeeded_attempt r a,
            lookup-insert_self (succeeded_attempt r a).rtt_id (succeeded_attempt r a) s.attempts,
            refl,
            refl,
          );
          charge = finalized_plan-IsCharged r p a;
        },
        refl,
        refl,
        refl,
      )
