-- ===== src/Execution/Lifecycle/Refusals.antt =====
-- What railone_execution/service.py refuses, with the store as it was.
use railone_core.Prelude.{
  String, ◌≡◌, refl, Bool, true, false, ◌⊎◌, Option, some, Exception, Result, ok, err, inl, inr,
  leb,
}
use railone_core.Prelude.Int.{ℤ}
use railone_core.Prelude.Equality.{string_eq}
use railone_core.Prelude.Text.{strip}
use railone_core.Prelude.Dict.{lookup}
use railone_core.Crypto.Signatures.{SignatureEnvelope, SignatureService}
use railone_core.Contracts.Endpoints.{EndpointValidator}
use railone_core.Execution.Models.{
  Datetime, FailureDisposition, AttemptState, ExecutionPlan, RttAttemptRecord, is_active,
  is_created, awaits_reconciliation,
}
use railone_core.Execution.Store.{ExecutionStore, require_plan_for_utt, is_some}
use railone_core.Execution.Attempts.{
  Resolution, start_next, record_failure, record_success, resolve_reconciliation,
}
use railone_core.Execution.Lifecycle.Branches.{
  apply_failure_branches, apply_success_branches, apply_resolution_branches,
}
use railone_core.Execution.Lifecycle.Invariant.{is_open, StoreIsValid}
use railone_core.Execution.Lifecycle.Reports.{
  record_failure_branches, record_success_branches, resolve_reconciliation_branches,
}
use railone_core.Execution.Lifecycle.Birth.{require_plan_for_utt-stored, start_next_branches}
use railone_core.Execution.Lifecycle.Kept.{created-is_open, awaits-is_open}

-- The call raises and leaves the store as it was.
abbrev pub Refused {ℓ} : {A : Type ℓ} → ExecutionStore → Result A × ExecutionStore → Type ℓ
Refused s o = (e : Exception) × (o ≡ (err e, s))

-- A report of any kind on an attempt that has failed or succeeded raises and changes nothing.
pub ended-Refused :
    (s : ExecutionStore) (rtt_id : String) (a : RttAttemptRecord)
    → lookup (strip rtt_id) s.attempts ≡ some a
    → is_open a.state ≡ false
    → ((code : String) (d : FailureDisposition) (cost : ℤ) (at : Datetime)
        → Refused s (record_failure rtt_id code d cost at s))
      × ((cost : ℤ) (at : Datetime) → Refused s (record_success rtt_id cost at s))
      × ((how : Resolution) (cost : ℤ) (at : Datetime)
          → Refused s (resolve_reconciliation rtt_id how cost at s))
ended-Refused s rtt_id a held ended = (
  (λ code d cost at.
      record_failure_branches (Refused s) s rtt_id (λ e. (e, refl)) code d cost at
        λ f _ _.
          apply_failure_branches (Refused s) (strip rtt_id) s (λ e. (e, refl)) f
            λ b plan reported state.
              absurd (clash b reported.attempt_held (created-is_open b.state state))),
  (λ cost at.
      record_success_branches (Refused s) s rtt_id (λ e. (e, refl)) cost at
        λ r _.
          apply_success_branches (Refused s) (strip rtt_id) s (λ e. (e, refl)) r
            λ b plan reported state.
              absurd (clash b reported.attempt_held (created-is_open b.state state))),
  (λ how cost at.
      resolve_reconciliation_branches (Refused s) s rtt_id (λ e. (e, refl)) how cost at
        λ r _.
          apply_resolution_branches (Refused s) (strip rtt_id) s (λ e. (e, refl)) how r
            λ b plan u reported state _ _ _.
              absurd (clash b reported.attempt_held (awaits-is_open b.state state))),
)
  where
    clash :
        (b : RttAttemptRecord)
        → lookup (strip rtt_id) s.attempts ≡ some b
        → is_open b.state ≡ true
        → ⊥
    clash b found opened = cc (held, found, ended, opened)

awaits-not_created : (s : AttemptState) → awaits_reconciliation s ≡ true → is_created s ≡ true → ⊥
awaits-not_created AttemptState.created h c = cc
awaits-not_created AttemptState.failed h c = cc
awaits-not_created AttemptState.succeeded h c = cc
awaits-not_created AttemptState.reconciliation_required h c = cc

-- An attempt that awaits reconciliation is settled by a reconciliation only: reports of a failure or a
-- success raise and change nothing.
pub awaiting-Refused :
    (s : ExecutionStore) (rtt_id : String) (a : RttAttemptRecord)
    → lookup (strip rtt_id) s.attempts ≡ some a
    → awaits_reconciliation a.state ≡ true
    → ((code : String) (d : FailureDisposition) (cost : ℤ) (at : Datetime)
        → Refused s (record_failure rtt_id code d cost at s))
      × ((cost : ℤ) (at : Datetime) → Refused s (record_success rtt_id cost at s))
awaiting-Refused s rtt_id a held waits = (
  (λ code d cost at.
      record_failure_branches (Refused s) s rtt_id (λ e. (e, refl)) code d cost at
        λ f _ _.
          apply_failure_branches (Refused s) (strip rtt_id) s (λ e. (e, refl)) f
            λ b plan reported state. absurd (clash b reported.attempt_held state)),
  (λ cost at.
      record_success_branches (Refused s) s rtt_id (λ e. (e, refl)) cost at
        λ r _.
          apply_success_branches (Refused s) (strip rtt_id) s (λ e. (e, refl)) r
            λ b plan reported state. absurd (clash b reported.attempt_held state)),
)
  where
    clash :
        (b : RttAttemptRecord)
        → lookup (strip rtt_id) s.attempts ≡ some b
        → is_created b.state ≡ true
        → ⊥
    clash b found state = awaits-not_created a.state waits (cc (held, found, state))

module _ (signatures : SignatureService) (require_utt : String → Result SignatureEnvelope)
    (endpoints : Option EndpointValidator) (allow_unverified : Bool) (key_id : String) where
  -- The start of an attempt raises and changes a valid store in nothing, if the UTT's plan is not
  -- active, has a current attempt, or has used its attempts.
  pub start_next-Refused :
      (s : ExecutionStore) (utt_id : String) (at : Datetime) (plan : ExecutionPlan)
      → StoreIsValid s
      → require_plan_for_utt utt_id s ≡ ok plan
      → (is_active plan.status ≡ false)
        ⊎ ((is_some plan.current_rtt_id ≡ true) ⊎ (leb plan.max_attempts plan.attempts_used ≡ true))
      → Refused s (start_next signatures require_utt endpoints allow_unverified key_id utt_id at s)
  start_next-Refused s utt_id at plan v found why =
      start_next_branches signatures require_utt endpoints allow_unverified key_id (Refused s) s
        utt_id at v (λ e. (e, refl))
        λ instant p selected a started.
          let same : p ≡ plan = cc (started.plan_found, found) in
          absurd (elim why [
            | inl idle ↦ cc (started.may_start.active, same, idle)
            | inr (inl flying) ↦ cc (started.may_start.idle, same, flying)
            | inr (inr spent) ↦ cc (started.may_start.below_limit, same, spent)
          ])

  -- While an attempt of the UTT's plan is under way or awaits reconciliation, on a valid store, the
  -- start of another raises and changes nothing: there is no blind retry.
  pub open_attempt-blocks_start :
      (s : ExecutionStore) (utt_id : String) (at : Datetime) (plan : ExecutionPlan) (k : String)
      (a : RttAttemptRecord)
      → StoreIsValid s
      → require_plan_for_utt utt_id s ≡ ok plan
      → lookup k s.attempts ≡ some a
      → a.plan_id ≡ plan.plan_id
      → is_open a.state ≡ true
      → Refused s (start_next signatures require_utt endpoints allow_unverified key_id utt_id at s)
  open_attempt-blocks_start s utt_id at plan k a v found held same opened =
      let stored =
        require_plan_for_utt-stored signatures require_utt endpoints allow_unverified key_id s
          utt_id plan v found in
      let current : plan.current_rtt_id ≡ some k =
        rw (same, stored) at ((v.attempt_valid k a held).open_is_current opened) in
      start_next-Refused s utt_id at plan v found (inr (inl (rw current refl)))
