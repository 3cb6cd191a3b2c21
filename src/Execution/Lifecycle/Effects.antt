-- ===== src/Execution/Lifecycle/Effects.antt =====
-- What the accepted calls of railone_execution/service.py do to the store.
use railone_core.Prelude.{
  ℕ, ◌+◌, ◌<◌, ◌≤◌, ◌⊎◌, String, ◌≡◌, refl, true, false, none, some, ok, leb, inl, inr, arith,
  Option-cases, Bool-cases, leb→le,
}
use railone_core.Prelude.Equality.{◌==◌, string_eq, nat_eq}
use text.Mathlib.TextEquality.{eq_iff}
use railone_core.Prelude.Dict.{lookup}
use railone_core.Execution.Models.{
  PlanStatus, FailureDisposition, ExecutionPlan, RttAttemptRecord, is_created,
}
use railone_core.Execution.Store.{
  ExecutionStore, require_attempt, require_plan, current_plan, commit_transition, write_both,
}
use railone_core.Execution.Attempts.{
  FailureReport, failed_plan, failed_attempt, apply_failure, SuccessReport, finalized_plan,
  succeeded_attempt, apply_success, affordable_remains, failure_status, retry_status,
}
use railone_core.Execution.Lifecycle.Invariant.{is_open, StoreIsValid}
use railone_core.Execution.Lifecycle.Kept.{created-is_open}

-- A transition of the current attempt, from the stored version, is written.
pub commit_transition-written :
    (plan old : ExecutionPlan) (attempt prior : RttAttemptRecord) (s : ExecutionStore)
    → lookup plan.plan_id s.plans ≡ some old
    → lookup attempt.rtt_id s.attempts ≡ some prior
    → old.current_rtt_id ≡ some attempt.rtt_id
    → commit_transition old.version plan attempt s ≡ (ok tt, write_both plan attempt s)
unfolding commit_transition current_plan require_attempt
commit_transition-written plan old attempt prior s held known flight =
    let same_version : (old.version == old.version) ≡ true = ground arith in
    let same_rtt : (attempt.rtt_id == attempt.rtt_id) ≡ true =
      (eq_iff attempt.rtt_id attempt.rtt_id).1 refl in
    rw (held, current_plan, same_version, known, flight, same_rtt) refl

-- The plan of an attempt that is under way, in a valid store: it is stored, active, and has the attempt
-- as its current one.
pub record Current (s : ExecutionStore) (a : RttAttemptRecord) : Type 0 where
  pub plan : ExecutionPlan
  pub held : lookup a.plan_id s.plans ≡ some plan
  pub own_id : plan.plan_id ≡ a.plan_id
  pub flight : plan.current_rtt_id ≡ some a.rtt_id
  pub own_rtt : lookup a.rtt_id s.attempts ≡ some a

pub open-Current :
    (s : ExecutionStore) (k : String) (a : RttAttemptRecord)
    → StoreIsValid s
    → lookup k s.attempts ≡ some a
    → is_open a.state ≡ true
    → Current s a
open-Current s k a v held opened = elim (Option-cases (lookup a.plan_id s.plans)) [
  | inl missing ↦ absurd (rw missing at ((v.attempt_valid k a held).open_is_current opened))
  | inr (plan, found) ↦
      let valid = v.attempt_valid k a held in
      let current : plan.current_rtt_id ≡ some k = rw found at (valid.open_is_current opened) in
      record {
        plan = plan;
        held = found;
        own_id = (v.plan_valid a.plan_id plan found).own_id;
        flight = cc (current, valid.own_id);
        own_rtt = cc (held, valid.own_id);
      }
]

module _ (s : ExecutionStore) (k : String) (a : RttAttemptRecord) (v : StoreIsValid s)
    (held : lookup k s.attempts ≡ some a) (created : is_created a.state ≡ true) where
  own-Current : Current s a
  own-Current = open-Current s k a v held (created-is_open a.state created)

  pub apply_failure-written :
      (f : FailureReport)
      → (p : ExecutionPlan) × (lookup a.plan_id s.plans ≡ some p)
        × (apply_failure k f s
            ≡ (ok (failed_plan f p a), write_both (failed_plan f p a) (failed_attempt f a) s))
  unfolding apply_failure require_attempt require_plan failed_plan failed_attempt
  apply_failure-written f =
      let c = own-Current in
      (
        c.plan,
        c.held,
        rw
            (
              held,
              created,
              c.held,
              commit_transition-written (failed_plan f c.plan a) c.plan (failed_attempt f a) a s
                  (cc (c.own_id, c.held)) c.own_rtt c.flight,
            )
            refl,
      )

  pub apply_success-written :
      (r : SuccessReport)
      → (p : ExecutionPlan) × (lookup a.plan_id s.plans ≡ some p)
        × (apply_success k r s ≡ (
          ok (finalized_plan r p a),
          write_both (finalized_plan r p a) (succeeded_attempt r a) s,
        ))
  unfolding apply_success require_attempt require_plan finalized_plan succeeded_attempt
  apply_success-written r =
      let c = own-Current in
      (
        c.plan,
        c.held,
        rw
            (
              held,
              created,
              c.held,
              commit_transition-written (finalized_plan r c.plan a) c.plan (succeeded_attempt r a) a
                  s (cc (c.own_id, c.held)) c.own_rtt c.flight,
            )
            refl,
      )

-- A retry stays possible exactly while attempts are left and a remaining route is affordable.
unfoldable pub RetryStatus : ExecutionPlan → ℕ → PlanStatus → Type 0
RetryStatus p spent status =
    ((p.attempts_used < p.max_attempts)
      × (affordable_remains p spent ≡ true)
      × (status ≡ PlanStatus.active))
    ⊎ ((status ≡ PlanStatus.exhausted)
        × ((p.max_attempts ≤ p.attempts_used) ⊎ (affordable_remains p spent ≡ false)))

-- What a failure makes of the plan's status and current attempt, by its disposition.
abbrev pub FollowsDisposition : FailureDisposition → String → ExecutionPlan → ExecutionPlan → Type 0
FollowsDisposition FailureDisposition.reconciliation_required rtt_id p q =
    (q.status ≡ PlanStatus.reconciliation_required) × (q.current_rtt_id ≡ some rtt_id)
FollowsDisposition FailureDisposition.terminal rtt_id p q =
    (q.status ≡ PlanStatus.failed) × (q.current_rtt_id ≡ none)
FollowsDisposition FailureDisposition.retryable rtt_id p q =
    (q.current_rtt_id ≡ none) × RetryStatus p q.routing_cost_spent_minor q.status

-- The cost is charged once, the version advances, and no route or attempt is given back.
pub record IsCharged (cost : ℕ) (p q : ExecutionPlan) : Type 0 where
  pub charged : q.routing_cost_spent_minor ≡ p.routing_cost_spent_minor + cost
  pub advanced : q.version ≡ p.version + 1
  pub same_used : q.attempts_used ≡ p.attempts_used
  pub same_left : q.remaining_route_ids ≡ p.remaining_route_ids

pub failed_plan-IsCharged :
    (f : FailureReport) (p : ExecutionPlan) (a : RttAttemptRecord)
    → IsCharged f.cost p (failed_plan f p a)
unfolding failed_plan
failed_plan-IsCharged f p a = record {
  charged = refl;
  advanced = refl;
  same_used = refl;
  same_left = refl;
}

pub finalized_plan-IsCharged :
    (r : SuccessReport) (p : ExecutionPlan) (a : RttAttemptRecord)
    → IsCharged r.cost p (finalized_plan r p a)
unfolding finalized_plan
finalized_plan-IsCharged r p a = record {
  charged = refl;
  advanced = refl;
  same_used = refl;
  same_left = refl;
}

retry_status-RetryStatus :
    (p : ExecutionPlan) (spent : ℕ) → RetryStatus p spent (retry_status p spent)
unfolding RetryStatus retry_status
retry_status-RetryStatus p spent = elim (Bool-cases (leb p.max_attempts p.attempts_used)) [
  | inl full ↦ inr (rw full refl, inl (leb→le p.max_attempts p.attempts_used full))
  | inr below ↦ elim (Bool-cases (affordable_remains p spent)) [
    | inl affordable ↦ inl (ground arith, affordable, rw (below, affordable) refl)
    | inr dear ↦ inr (rw (below, dear) refl, inr dear)
  ]
]

pub failed_plan-FollowsDisposition :
    (d : FailureDisposition) (f : FailureReport) (p : ExecutionPlan) (a : RttAttemptRecord)
    → f.disposition ≡ d
    → FollowsDisposition d f.rtt_id p (failed_plan f p a)
unfolding failed_plan failure_status
failed_plan-FollowsDisposition FailureDisposition.reconciliation_required f p a is =
    (rw is refl, rw is refl)
failed_plan-FollowsDisposition FailureDisposition.terminal f p a is = (rw is refl, rw is refl)
failed_plan-FollowsDisposition FailureDisposition.retryable f p a is =
    (rw is refl, rw is (retry_status-RetryStatus p (p.routing_cost_spent_minor + f.cost)))
