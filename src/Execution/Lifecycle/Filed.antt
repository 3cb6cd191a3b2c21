-- ===== src/Execution/Lifecycle/Filed.antt =====
-- A UTT has one plan in the store of railone_execution/store.py, and its attempts are that plan's.
use mathlib.Core.Path.{◌∙◌, subst, subst₂}
use railone_core.Prelude.{String, ◌≡◌, refl, sym, ap, Option, none, some, ok, inl, inr, Bool-cases}
use railone_core.Prelude.Equality.{◌==◌, string_eq}
use railone_core.Prelude.Dict.{lookup, lookup-insert_self, lookup-insert_cases, lookup-insert_other}
use railone_core.Prelude.Exec.{pure, modify, ◌>>◌}
use railone_core.Prelude.Exec.Branches.{guard_branches}
use railone_core.Execution.Models.{ExecutionPlan, RttAttemptRecord}
use railone_core.Execution.Store.{ExecutionStore, write_both, adopt_plan, with_plan, is_some}
use railone_core.Execution.Attempts.{
  FailureReport, failed_plan, failed_attempt, SuccessReport, finalized_plan, succeeded_attempt,
  Resolution, confirmed_success, confirmed_failure, resolved,
}
use railone_core.Execution.Lifecycle.Branches.{Reported}
use railone_core.Execution.Lifecycle.Invariant.{StoreIsValid}
use railone_core.Execution.Lifecycle.Reports.{resolved-success, resolved-failure}

-- Each stored plan is the one that its UTT has, and each stored attempt is one of the plan of its UTT.
pub record IsFiled (s : ExecutionStore) : Type 0 where
  pub filed :
      (k : String) (p : ExecutionPlan)
      → lookup k s.plans ≡ some p
      → lookup p.utt_id s.plan_by_utt ≡ some k
  pub owned :
      (k : String) (a : RttAttemptRecord)
      → lookup k s.attempts ≡ some a
      → lookup a.utt_id s.plan_by_utt ≡ some a.plan_id

pub write_both-IsFiled :
    (s : ExecutionStore) (plan : ExecutionPlan) (attempt : RttAttemptRecord)
    → IsFiled s
    → lookup plan.utt_id s.plan_by_utt ≡ some plan.plan_id
    → lookup attempt.utt_id s.plan_by_utt ≡ some attempt.plan_id
    → IsFiled (write_both plan attempt s)
write_both-IsFiled s plan attempt f own_plan own_attempt = record {
  filed = λ k p held. elim (lookup-insert_cases plan.plan_id k plan p s.plans held) [
    | inl (same, written) ↦
        subst₂ (λ x (y : ExecutionPlan). lookup y.utt_id s.plan_by_utt ≡ some x) same written
          own_plan
    | inr (other, before) ↦ f.filed k p before
  ];
  owned = λ k a held. elim (lookup-insert_cases attempt.rtt_id k attempt a s.attempts held) [
    | inl (same, written) ↦
        subst (λ (y : RttAttemptRecord). lookup y.utt_id s.plan_by_utt ≡ some y.plan_id) written
          own_attempt
    | inr (other, before) ↦ f.owned k a before
  ];
}

-- An UTT without a plan gets one.
with_plan-IsFiled :
    (s : ExecutionStore) (plan : ExecutionPlan)
    → lookup plan.utt_id s.plan_by_utt ≡ none
    → IsFiled s
    → IsFiled (with_plan plan s)
with_plan-IsFiled s plan free f = record {
  filed = λ k p held. elim (lookup-insert_cases plan.plan_id k plan p s.plans held) [
    | inl (same, written) ↦
        subst₂ (λ x (y : ExecutionPlan). lookup y.utt_id (with_plan plan s).plan_by_utt ≡ some x)
          same written (lookup-insert_self plan.utt_id plan.plan_id s.plan_by_utt)
    | inr (other, before) ↦ still p.utt_id k (f.filed k p before)
  ];
  owned = λ k a held. still a.utt_id a.plan_id (f.owned k a held);
}
  where
    still :
        (utt_id k : String)
        → lookup utt_id s.plan_by_utt ≡ some k
        → lookup utt_id (with_plan plan s).plan_by_utt ≡ some k
    still utt_id k known =
        lookup-insert_other plan.utt_id utt_id plan.plan_id s.plan_by_utt
          (λ q. cc (ap (λ u. lookup u s.plan_by_utt) q, free, known))
        ∙ known

module _ (key : String) (s : ExecutionStore) (attempt : RttAttemptRecord) (plan : ExecutionPlan)
    (v : StoreIsValid s) (f : IsFiled s) (reported : Reported key s attempt plan) where
  -- A report changes neither the UTT of its plan nor that of its attempt.
  settle-IsFiled :
      (plan' : ExecutionPlan) (attempt' : RttAttemptRecord)
      → plan'.plan_id ≡ plan.plan_id
      → plan'.utt_id ≡ plan.utt_id
      → attempt'.plan_id ≡ attempt.plan_id
      → attempt'.utt_id ≡ attempt.utt_id
      → IsFiled (write_both plan' attempt' s)
  settle-IsFiled plan' attempt' same_id same_utt same_plan same_payment =
      let own_plan = (v.plan_valid attempt.plan_id plan reported.plan_held).own_id in
      write_both-IsFiled s plan' attempt' f
        (rw (same_utt, same_id, own_plan) (f.filed attempt.plan_id plan reported.plan_held))
        (rw (same_payment, same_plan) (f.owned key attempt reported.attempt_held))

  pub failed-IsFiled :
      (r : FailureReport)
      → IsFiled (write_both (failed_plan r plan attempt) (failed_attempt r attempt) s)
  unfolding failed_plan failed_attempt
  failed-IsFiled r =
      settle-IsFiled (failed_plan r plan attempt) (failed_attempt r attempt) refl refl refl refl

  pub finalized-IsFiled :
      (r : SuccessReport)
      → IsFiled (write_both (finalized_plan r plan attempt) (succeeded_attempt r attempt) s)
  unfolding finalized_plan succeeded_attempt
  finalized-IsFiled r =
      settle-IsFiled (finalized_plan r plan attempt) (succeeded_attempt r attempt) refl refl refl
        refl

  pub resolved-IsFiled :
      (how : Resolution) (r : SuccessReport) (u : ExecutionPlan × RttAttemptRecord)
      → resolved how r plan attempt ≡ ok u
      → IsFiled (write_both u.0 u.1 s)
  resolved-IsFiled confirmed_success r u made =
      subst (λ x. IsFiled (write_both x.0 x.1 s)) (resolved-success r plan attempt u made)
        (finalized-IsFiled r)
  resolved-IsFiled (confirmed_failure code d) r u made =
      let (report, _, _, _, _, is) = resolved-failure code d r plan attempt u made in
      subst (λ x. IsFiled (write_both x.0 x.1 s)) (sym is) (failed-IsFiled report)

pub adopt_plan-IsFiled :
    (plan : ExecutionPlan) (existing : Option String) (s : ExecutionStore)
    → lookup plan.utt_id s.plan_by_utt ≡ existing
    → IsFiled s
    → IsFiled (adopt_plan plan existing s).1
unfolding adopt_plan
adopt_plan-IsFiled plan (some existing_id) s found f =
    elim (Bool-cases (existing_id == plan.plan_id)) [
      | inl same ↦ rw (same, adopt_plan) f
      | inr other ↦ rw (other, adopt_plan) f
    ]
adopt_plan-IsFiled plan none s found f =
    guard_branches (λ o. IsFiled o.1) (is_some (lookup plan.plan_id s.plans)) _
      (modify (with_plan plan) >> pure plan) s (λ e. f) λ _. with_plan-IsFiled s plan found f
