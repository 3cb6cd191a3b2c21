-- ===== src/Execution/Lifecycle/Padded.antt =====
-- `record_failure` with an identifier that has surrounding blanks, in railone_execution/service.py.
use mathlib.Core.Path.{◌∙◌}
use railone_core.Prelude.{ℕ, String, ◌≡◌, refl, sym, true, false, ◌≢◌, some, ok}
use railone_core.Prelude.Int.{ℤ, pos}
use railone_core.Prelude.Equality.{string_eq}
use railone_core.Prelude.Text.{strip, upper, is_empty}
use railone_core.Prelude.Dict.{lookup, lookup-insert_self}
use railone_core.Contracts.Validation.{require_text, require_minor_units}
use railone_core.Execution.Models.{
  Datetime, require_aware, PlanStatus, FailureDisposition, ExecutionPlan, RttAttemptRecord,
  is_created,
}
use railone_core.Execution.Store.{ExecutionStore, write_both}
use railone_core.Execution.Attempts.{
  FailureReport, Resolution, failed_plan, failed_attempt, record_failure, resolve_reconciliation,
}
use railone_core.Execution.Lifecycle.Branches.{apply_resolution_branches}
use railone_core.Execution.Lifecycle.Invariant.{StoreIsValid}
use railone_core.Execution.Lifecycle.Reports.{resolve_reconciliation_branches}
use railone_core.Execution.Lifecycle.Effects.{apply_failure-written}
use railone_core.Execution.Lifecycle.Refusals.{Refused}

-- A store in which the attempt's plan names another identifier than the attempt's as its current one.
record IsMisnamed (t : ExecutionStore) (key : String) : Type 0 where
  pub attempt : RttAttemptRecord
  pub plan : ExecutionPlan
  pub current : String
  pub attempt_held : lookup key t.attempts ≡ some attempt
  pub own_id : attempt.rtt_id ≡ key
  pub plan_held : lookup attempt.plan_id t.plans ≡ some plan
  pub same_plan : plan.plan_id ≡ attempt.plan_id
  pub names : plan.current_rtt_id ≡ some current
  pub misnamed : current ≢ key

misnamed-Refused :
    (t : ExecutionStore) (rtt_id : String) (how : Resolution) (cost : ℤ) (at : Datetime)
    → IsMisnamed t (strip rtt_id)
    → Refused t (resolve_reconciliation rtt_id how cost at t)
misnamed-Refused t rtt_id how cost at m =
    resolve_reconciliation_branches (Refused t) t rtt_id (λ e. (e, refl)) how cost at
      λ r _.
        apply_resolution_branches (Refused t) (strip rtt_id) t (λ e. (e, refl)) how r
          λ attempt plan u reported _ _ _ _.
            let same : attempt ≡ m.attempt = cc (reported.attempt_held, m.attempt_held) in
            let found : plan ≡ m.plan = cc (same, reported.plan_held, m.plan_held) in
            let old_is : reported.old ≡ m.plan =
              cc (found, m.same_plan, m.plan_held, reported.old_held) in
            absurd (m.misnamed (cc (old_is, m.names, reported.in_flight, same, m.own_id)))

-- On a valid store, a failure that needs reconciliation and is reported under the identifier of an
-- attempt that is under way, with blanks around it, is accepted and leaves a plan that awaits
-- reconciliation and whose current identifier has the blanks; a resolution of that attempt that follows directly, however its identifier is
-- written, raises and changes nothing.
pub padded_failure-never_resolved :
    (s : ExecutionStore) (rtt_id code : String) (a : RttAttemptRecord) (at : Datetime) (cost : ℕ)
    → StoreIsValid s
    → lookup (strip rtt_id) s.attempts ≡ some a
    → is_created a.state ≡ true
    → is_empty (strip rtt_id) ≡ false
    → is_empty (strip code) ≡ false
    → at.has_zone ≡ true
    → rtt_id ≢ strip rtt_id
    → (q : ExecutionPlan) × (t : ExecutionStore) × (record_failure rtt_id code
          FailureDisposition.reconciliation_required
          (pos cost)
          at
          s
        ≡ (ok q, t))
      × (q.current_rtt_id ≡ some rtt_id)
      × (q.status ≡ PlanStatus.reconciliation_required)
      × ((other : String) (how : Resolution) (paid : ℤ) (later : Datetime)
          → strip other ≡ strip rtt_id
          → Refused t (resolve_reconciliation other how paid later t))
unfolding record_failure require_text require_minor_units require_aware failed_plan failed_attempt
padded_failure-never_resolved s rtt_id code a at cost v held created named coded aware padded =
    let f : FailureReport = record {
      rtt_id = rtt_id;
      code = upper (strip code);
      disposition = FailureDisposition.reconciliation_required;
      cost = cost;
      instant = at.micros;
    } in
    let (p, before, is) = apply_failure-written s (strip rtt_id) a v held created f in
    let own_id = (v.attempt_valid (strip rtt_id) a held).own_id in
    let own_plan = (v.plan_valid a.plan_id p before).own_id in
    (
      failed_plan f p a,
      write_both (failed_plan f p a) (failed_attempt f a) s,
      rw (aware, coded, named) is,
      refl,
      refl,
      λ other how paid later same.
          misnamed-Refused (write_both (failed_plan f p a) (failed_attempt f a) s) other how paid
            later
            (record {
              attempt = failed_attempt f a;
              plan = failed_plan f p a;
              current = rtt_id;
              attempt_held =
                  rw (same, ← own_id) (lookup-insert_self a.rtt_id (failed_attempt f a) s.attempts);
              own_id = own_id ∙ sym same;
              plan_held =
                  rw (← own_plan) (lookup-insert_self p.plan_id (failed_plan f p a) s.plans);
              same_plan = own_plan;
              names = refl;
              misnamed = λ h. padded (h ∙ same);
            }),
    )
