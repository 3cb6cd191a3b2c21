-- ===== src/Execution/Lifecycle/Reports.antt =====
-- `record_failure`, `record_success` and `resolve_reconciliation` keep the invariant, for identifiers
-- without surrounding blanks.
use mathlib.Core.Path.{subst}
use railone_core.Prelude.{
  ℕ, String, ◌≡◌, refl, sym, ap, true, false, Option, none, some, Exception, Result, ok, err,
  ok-injective, and_then-eq_ok, raise_if, raise_if-eq_ok, arith, ◌∙◌,
}
use railone_core.Prelude.Equality.{string_eq}
use railone_core.Prelude.Int.{ℤ}
use railone_core.Prelude.Text.{strip, upper}
use railone_core.Prelude.Dict.{Dict, lookup, insert, lookup-insert_self}
use railone_core.Prelude.Exec.Branches.{lift_branches}
use railone_core.Contracts.Validation.{require_text, require_minor_units}
use railone_core.Execution.Models.{
  Datetime, require_aware, FailureDisposition, ExecutionPlan, RttAttemptRecord,
}
use railone_core.Execution.Store.{ExecutionStore, write_both}
use railone_core.Execution.Attempts.{
  FailureReport, failed_plan, failed_attempt, apply_failure, record_failure, failure_status,
  failure_current, failure_state, retry_status, SuccessReport, finalized_plan, succeeded_attempt,
  apply_success, record_success, Resolution, confirmed_success, confirmed_failure, resolved,
  apply_resolution, resolve_reconciliation, is_reconciliation,
}
use railone_core.Execution.Lifecycle.Branches.{
  Reported, apply_failure_branches, apply_success_branches, apply_resolution_branches,
}
use railone_core.Execution.Lifecycle.Invariant.{
  InPhase, is_open, StoreIsValid, WriteIsSound, write_both-IsValid,
}

-- A validated text is the stripped one.
pub require_text-eq : (name v k : String) → require_text name v ≡ ok k → k ≡ strip v
unfolding require_text
require_text-eq name v k h = ground arith

-- What a resolution that is accepted makes of the plan and the attempt.
pub resolved-success :
    (r : SuccessReport) (plan : ExecutionPlan) (attempt : RttAttemptRecord)
    (u : ExecutionPlan × RttAttemptRecord)
    → resolved confirmed_success r plan attempt ≡ ok u
    → (finalized_plan r plan attempt, succeeded_attempt r attempt) ≡ u
unfolding resolved
resolved-success r plan attempt u made = ok-injective made

pub resolved-failure :
    (code : Option String) (d : FailureDisposition) (r : SuccessReport) (plan : ExecutionPlan)
    (attempt : RttAttemptRecord) (u : ExecutionPlan × RttAttemptRecord)
    → resolved (confirmed_failure code d) r plan attempt ≡ ok u
    → (f : FailureReport) × (f.rtt_id ≡ r.rtt_id)
      × (f.disposition ≡ d)
      × (f.cost ≡ r.cost)
      × (is_reconciliation d ≡ false)
      × (u ≡ (failed_plan f plan attempt, failed_attempt f attempt))
unfolding resolved
resolved-failure code d r plan attempt u made =
    let (text, given, rest) = and_then-eq_ok (require_text _ _) _ made in
    let (_, allowed, is) = and_then-eq_ok (raise_if (is_reconciliation d) _) _ rest in
    (
      record {
        rtt_id = r.rtt_id;
        code = upper text;
        disposition = d;
        cost = r.cost;
        instant = r.instant;
      },
      refl,
      refl,
      refl,
      raise_if-eq_ok _ _ allowed,
      sym (ok-injective is),
    )

module _ (key : String) (s : ExecutionStore) (attempt : RttAttemptRecord) (plan : ExecutionPlan)
    (v : StoreIsValid s) (reported : Reported key s attempt plan) where
  attempt_key : attempt.rtt_id ≡ key
  attempt_key = (v.attempt_valid key attempt reported.attempt_held).own_id

  plan_key : attempt.plan_id ≡ plan.plan_id
  plan_key = sym (v.plan_valid attempt.plan_id plan reported.plan_held).own_id

  -- A write that settles the reported attempt is sound, if the new plan and attempt fit each other.
  settle_sound :
      (plan' : ExecutionPlan) (attempt' : RttAttemptRecord)
      → plan'.plan_id ≡ plan.plan_id
      → plan'.attempts_used ≡ plan.attempts_used
      → plan'.max_attempts ≡ plan.max_attempts
      → attempt'.rtt_id ≡ attempt.rtt_id
      → attempt'.plan_id ≡ attempt.plan_id
      → InPhase plan'.plan_id
          (insert attempt'.rtt_id attempt' s.attempts)
          plan'.status
          plan'.current_rtt_id
      → (is_open attempt'.state ≡ true → plan'.current_rtt_id ≡ some attempt'.rtt_id)
      → WriteIsSound s reported.old plan' attempt'
  settle_sound plan' attempt' same_id same_used same_max same_rtt same_plan phase current = record {
    old_held = rw same_id reported.old_held;
    old_current = λ r e. cc (reported.in_flight, same_rtt, e);
    lineage = λ a held.
        let known : lookup attempt'.rtt_id s.attempts ≡ some attempt =
          cc (same_rtt, attempt_key, reported.attempt_held) in
        cc (known, held, plan_key, same_id);
    within_limit =
        rw (same_used, same_max)
          ((v.plan_valid attempt.plan_id plan reported.plan_held).within_limit);
    phase = phase;
    same_plan = same_plan ∙ plan_key ∙ sym same_id;
    open_is_current = current;
  }

  -- Whatever a retryable failure leaves of the plan, it has no current attempt.
  retry-phase :
      (d : Dict String RttAttemptRecord) (spent : ℕ)
      → InPhase plan.plan_id d (retry_status plan spent) none
  unfolding retry_status
  retry-phase d spent = ground arith

  failure-phase :
      (d : FailureDisposition) (attempt' : RttAttemptRecord) (rtt_id : String) (spent : ℕ)
      → rtt_id ≡ attempt'.rtt_id
      → attempt'.plan_id ≡ plan.plan_id
      → attempt'.state ≡ failure_state d
      → InPhase plan.plan_id
          (insert attempt'.rtt_id attempt' s.attempts)
          (failure_status d plan spent)
          (failure_current d rtt_id)
  unfolding failure_status
  failure-phase FailureDisposition.reconciliation_required attempt' rtt_id spent same own state =
      rw (same, lookup-insert_self attempt'.rtt_id attempt' s.attempts) (own, state)
  failure-phase FailureDisposition.terminal attempt' rtt_id spent same own state = tt
  failure-phase FailureDisposition.retryable attempt' rtt_id spent same own state =
      retry-phase _ spent

  failure-current :
      (d : FailureDisposition) (rtt_id : String)
      → is_open (failure_state d) ≡ true
      → failure_current d rtt_id ≡ some rtt_id
  failure-current FailureDisposition.reconciliation_required rtt_id h = refl
  failure-current FailureDisposition.terminal rtt_id h = cc
  failure-current FailureDisposition.retryable rtt_id h = cc

  failed-IsValid :
      (f : FailureReport)
      → f.rtt_id ≡ key
      → StoreIsValid (write_both (failed_plan f plan attempt) (failed_attempt f attempt) s)
  unfolding failed_plan failed_attempt
  failed-IsValid f same =
      let own : f.rtt_id ≡ attempt.rtt_id = same ∙ sym attempt_key in
      write_both-IsValid s reported.old (failed_plan f plan attempt) (failed_attempt f attempt) v (
        settle_sound (failed_plan f plan attempt) (failed_attempt f attempt) refl refl refl refl
          refl (failure-phase f.disposition (failed_attempt f attempt) f.rtt_id _ own plan_key refl)
          (λ opened. failure-current f.disposition f.rtt_id opened ∙ ap some own))

  finalized-IsValid :
      (r : SuccessReport)
      → StoreIsValid (write_both (finalized_plan r plan attempt) (succeeded_attempt r attempt) s)
  unfolding finalized_plan succeeded_attempt
  finalized-IsValid r =
      write_both-IsValid s reported.old (finalized_plan r plan attempt)
        (succeeded_attempt r attempt) v
        (settle_sound (finalized_plan r plan attempt) (succeeded_attempt r attempt) refl refl refl
          refl refl tt (λ opened. cc))

  resolved-IsValid :
      (how : Resolution) (r : SuccessReport) (u : ExecutionPlan × RttAttemptRecord)
      → r.rtt_id ≡ key
      → resolved how r plan attempt ≡ ok u
      → StoreIsValid (write_both u.0 u.1 s)
  resolved-IsValid confirmed_success r u same made =
      subst (λ x. StoreIsValid (write_both x.0 x.1 s)) (resolved-success r plan attempt u made)
        (finalized-IsValid r)
  resolved-IsValid (confirmed_failure code d) r u same made =
      let (f, about, _, _, _, is) = resolved-failure code d r plan attempt u made in
      subst (λ x. StoreIsValid (write_both x.0 x.1 s)) (sym is) (failed-IsValid f (about ∙ same))

-- Each report on a valid store keeps it valid, whether it raises or not.
pub apply_failure-IsValid :
    (key : String) (f : FailureReport) (s : ExecutionStore)
    → f.rtt_id ≡ key
    → StoreIsValid s
    → StoreIsValid (apply_failure key f s).1
apply_failure-IsValid key f s same v =
    apply_failure_branches (λ o. StoreIsValid o.1) key s (λ e. v) f
      λ attempt plan reported open_attempt. failed-IsValid key s attempt plan v reported f same

pub apply_success-IsValid :
    (key : String) (r : SuccessReport) (s : ExecutionStore)
    → StoreIsValid s
    → StoreIsValid (apply_success key r s).1
apply_success-IsValid key r s v =
    apply_success_branches (λ o. StoreIsValid o.1) key s (λ e. v) r
      λ attempt plan reported open_attempt. finalized-IsValid key s attempt plan v reported r

pub apply_resolution-IsValid :
    (key : String) (how : Resolution) (r : SuccessReport) (s : ExecutionStore)
    → r.rtt_id ≡ key
    → StoreIsValid s
    → StoreIsValid (apply_resolution key how r s).1
apply_resolution-IsValid key how r s same v =
    apply_resolution_branches (λ o. StoreIsValid o.1) key s (λ e. v) how r
      λ attempt plan u reported waits awaiting current made.
        resolved-IsValid key s attempt plan v reported how r u same made

-- The validation of the arguments raises with the store as it was, or passes the stripped identifier.
module _ {ℓ} (P : Result ExecutionPlan × ExecutionStore → Type ℓ) (s : ExecutionStore)
    (rtt_id : String) (raised : (e : Exception) → P (err e, s)) where
  pub record_failure_branches :
      (code : String) (d : FailureDisposition) (cost : ℤ) (at : Datetime)
      → ((f : FailureReport)
          → f.rtt_id ≡ rtt_id
          → f.disposition ≡ d
          → P (apply_failure (strip rtt_id) f s))
      → P (record_failure rtt_id code d cost at s)
  unfolding record_failure
  record_failure_branches code d cost at passed =
      lift_branches P (require_aware "failure timestamp" at) _ s raised λ instant aware.
        lift_branches P (require_minor_units "actual_cost_minor" cost true) _ s raised λ units fits.
          lift_branches P (require_text "failure_code" code) _ s raised λ text given.
            lift_branches P (require_text "rtt_id" rtt_id) _ s raised
              λ key named. rw (require_text-eq "rtt_id" rtt_id key named) (passed _ refl refl)

  pub record_success_branches :
      (cost : ℤ) (at : Datetime)
      → ((r : SuccessReport) → r.rtt_id ≡ rtt_id → P (apply_success (strip rtt_id) r s))
      → P (record_success rtt_id cost at s)
  unfolding record_success
  record_success_branches cost at passed =
      lift_branches P (require_aware "success timestamp" at) _ s raised λ instant aware.
        lift_branches P (require_minor_units "actual_cost_minor" cost true) _ s raised λ units fits.
          lift_branches P (require_text "rtt_id" rtt_id) _ s raised
            λ key named. rw (require_text-eq "rtt_id" rtt_id key named) (passed _ refl)

  pub resolve_reconciliation_branches :
      (how : Resolution) (cost : ℤ) (at : Datetime)
      → ((r : SuccessReport) → r.rtt_id ≡ rtt_id → P (apply_resolution (strip rtt_id) how r s))
      → P (resolve_reconciliation rtt_id how cost at s)
  unfolding resolve_reconciliation
  resolve_reconciliation_branches how cost at passed =
      lift_branches P (require_aware "reconciliation timestamp" at) _ s raised λ instant aware.
        lift_branches P (require_minor_units "actual_cost_minor" cost true) _ s raised λ units fits.
          lift_branches P (require_text "rtt_id" rtt_id) _ s raised
            λ key named. rw (require_text-eq "rtt_id" rtt_id key named) (passed _ refl)

module _ (s : ExecutionStore) (rtt_id : String) (trimmed : strip rtt_id ≡ rtt_id)
    (v : StoreIsValid s) where
  pub record_failure-IsValid :
      (code : String) (d : FailureDisposition) (cost : ℤ) (at : Datetime)
      → StoreIsValid (record_failure rtt_id code d cost at s).1
  record_failure-IsValid code d cost at =
      record_failure_branches (λ o. StoreIsValid o.1) s rtt_id (λ e. v) code d cost at
        λ f about _. apply_failure-IsValid (strip rtt_id) f s (about ∙ sym trimmed) v

  pub record_success-IsValid :
      (cost : ℤ) (at : Datetime) → StoreIsValid (record_success rtt_id cost at s).1
  record_success-IsValid cost at =
      record_success_branches (λ o. StoreIsValid o.1) s rtt_id (λ e. v) cost at
        λ r about. apply_success-IsValid (strip rtt_id) r s v

  pub resolve_reconciliation-IsValid :
      (how : Resolution) (cost : ℤ) (at : Datetime)
      → StoreIsValid (resolve_reconciliation rtt_id how cost at s).1
  resolve_reconciliation-IsValid how cost at =
      resolve_reconciliation_branches (λ o. StoreIsValid o.1) s rtt_id (λ e. v) how cost at
        λ r about. apply_resolution-IsValid (strip rtt_id) how r s (about ∙ sym trimmed) v
