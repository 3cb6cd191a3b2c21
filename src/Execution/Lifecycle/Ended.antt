-- ===== src/Execution/Lifecycle/Ended.antt =====
-- After any calls, started attempts and ended plans are as they were.
use mathlib.Core.Path.{subst}
use railone_core.Prelude.{
  ℕ, String, ◌≡◌, refl, true, Option, none, some, Result, List, [], ◌∷◌, All, inl, inr, arith,
  Bool-cases,
}
use railone_core.Prelude.Equality.{◌==◌, string_eq}
use railone_core.Prelude.Dict.{lookup}
use railone_core.Prelude.Exec.{pure, modify, ◌>>◌}
use railone_core.Prelude.Exec.Branches.{lift_branches, guard_branches}
use railone_core.Crypto.Signatures.{SignatureEnvelope, SignatureService}
use railone_core.Execution.Models.{
  Datetime, PlanStatus, RouteCandidate, ExecutionPlan, RttAttemptRecord, is_active,
}
use railone_core.Execution.Scoring.{RouteScoreWeights}
use railone_core.Execution.Store.{
  ExecutionStore, write_both, with_plan, create_plan, adopt_plan, is_some,
}
use railone_core.Execution.Planning.{draft_plan, build_plan}
use railone_core.Execution.Attempts.{started_plan}
use railone_core.Execution.Lifecycle.Invariant.{StoreIsValid}
use railone_core.Execution.Lifecycle.Birth.{Started, start_next_branches}
use railone_core.Execution.Lifecycle.Plans.{is_some-eq_false}
use railone_core.Execution.Lifecycle.Calls.{
  Call, build, start, fail, succeed, resolve, IsTrimmed, Services, step, step-IsValid, serve,
}
use railone_core.Execution.Lifecycle.History.{
  LaterAttempt, LaterAttempt-refl, has_ended, LaterPlan, LaterPlan-refl, Keeps-insert, LaterStore,
  LaterStore-refl, LaterStore-trans,
}
use railone_core.Execution.Lifecycle.Kept.{
  record_failure-Later, record_success-Later, resolve_reconciliation-Later,
}

with_plan-Later :
    (s : ExecutionStore) (plan : ExecutionPlan)
    → lookup plan.plan_id s.plans ≡ none
    → LaterStore s (with_plan plan s)
with_plan-Later s plan fresh = record {
  attempts_kept = λ k a h. (a, h, LaterAttempt-refl a);
  plans_kept =
      Keeps-insert LaterPlan plan.plan_id plan s.plans LaterPlan-refl
        λ p held. absurd (cc (fresh, held));
}

adopt_plan-Later :
    (plan : ExecutionPlan) (existing : Option String) (s : ExecutionStore)
    → LaterStore s (adopt_plan plan existing s).1
unfolding adopt_plan
adopt_plan-Later plan (some existing_id) s = elim (Bool-cases (existing_id == plan.plan_id)) [
  | inl same ↦ rw (same, adopt_plan) (LaterStore-refl s)
  | inr other ↦ rw (other, adopt_plan) (LaterStore-refl s)
]
adopt_plan-Later plan none s =
    guard_branches (λ o. LaterStore s o.1) (is_some (lookup plan.plan_id s.plans)) _
      (modify (with_plan plan) >> pure plan) s (λ e. LaterStore-refl s)
      λ free. with_plan-Later s plan (is_some-eq_false _ free)

build_plan-Later :
    (signatures : SignatureService) (require_utt : String → Result SignatureEnvelope)
    (weights : RouteScoreWeights) (s : ExecutionStore) (utt_id : String) (cs : List RouteCandidate)
    (at : Datetime)
    → LaterStore s (build_plan signatures require_utt weights utt_id cs at s).1
unfolding build_plan create_plan
build_plan-Later signatures require_utt weights s utt_id cs at =
    lift_branches (λ o. LaterStore s o.1) (draft_plan signatures require_utt weights utt_id cs at)
      (create_plan require_utt) s (λ e. LaterStore-refl s)
      λ plan drafted.
        lift_branches (λ o. LaterStore s o.1) (require_utt plan.utt_id)
          (λ _ s. adopt_plan plan (lookup plan.utt_id s.plan_by_utt) s) s (λ e. LaterStore-refl s)
          λ utt known. adopt_plan-Later plan (lookup plan.utt_id s.plan_by_utt) s

active-not_ended : (status : PlanStatus) → is_active status ≡ true → has_ended status ≡ true → ⊥
active-not_ended PlanStatus.active h e = cc
active-not_ended PlanStatus.reconciliation_required h e = cc
active-not_ended PlanStatus.failed h e = cc
active-not_ended PlanStatus.exhausted h e = cc
active-not_ended PlanStatus.finalized h e = cc

module _ (services : Services) where
  open services use {signatures, require_utt, endpoints, allow_unverified, signing_key_id}

  Started-Later :
      (s : ExecutionStore) (utt_id : String) (plan : ExecutionPlan) (selected : _)
      (a : RttAttemptRecord) (instant : ℕ)
      → Started signatures require_utt endpoints allow_unverified signing_key_id s utt_id plan
          selected a
      → LaterStore s (write_both (started_plan plan selected a.rtt_id instant) a s)
  unfolding started_plan
  Started-Later s utt_id plan selected a instant started = record {
    attempts_kept =
        Keeps-insert LaterAttempt a.rtt_id a s.attempts LaterAttempt-refl
          λ b held. absurd (cc (started.fresh, held));
    plans_kept =
        Keeps-insert LaterPlan plan.plan_id (started_plan plan selected a.rtt_id instant) s.plans
          LaterPlan-refl
          λ p held.
            let same : plan ≡ p = cc (started.stored, held) in
            subst (λ x. LaterPlan x (started_plan plan selected a.rtt_id instant)) same
              (record {
                same_utt = refl;
                same_routes = refl;
                same_limit = refl;
                same_budget = refl;
                used_grows = omega arith;
                spent_grows = omega arith;
                version_grows = omega arith;
                ended = λ e. absurd (active-not_ended plan.status started.may_start.active e);
              });
  }

  step-Later : (s : ExecutionStore) (c : Call) → StoreIsValid s → LaterStore s (step services s c)
  unfolding step
  step-Later s (build weights utt_id cs at) v =
      build_plan-Later signatures require_utt weights s utt_id cs at
  step-Later s (start utt_id at) v =
      start_next_branches signatures require_utt endpoints allow_unverified signing_key_id
        (λ o. LaterStore s o.1) s utt_id at v (λ e. LaterStore-refl s)
        λ instant plan selected a started. Started-Later s utt_id plan selected a instant started
  step-Later s (fail rtt_id code d cost at) v = record_failure-Later s v rtt_id code d cost at
  step-Later s (succeed rtt_id cost at) v = record_success-Later s v rtt_id cost at
  step-Later s (resolve rtt_id how cost at) v = resolve_reconciliation-Later s v rtt_id how cost at

  -- Whatever the calls on a valid store, with reports that name attempts without surrounding blanks:
  -- every stored attempt is still stored with the UTT, plan, number, route, signed token and birth
  -- that it had, and is unchanged once it has failed or succeeded; every stored plan is still stored
  -- with its UTT, routes, limit and budget, its used attempts, spent cost and version never shrink, and
  -- it is unchanged once it has failed, is exhausted or is finalized.
  pub serve-Later :
      (s : ExecutionStore) (cs : List Call)
      → All IsTrimmed cs
      → StoreIsValid s
      → LaterStore s (serve services s cs)
  unfolding serve
  serve-Later s [] h v = LaterStore-refl s
  serve-Later s (c ∷ cs) h v =
      LaterStore-trans s (step services s c) (serve services s (c ∷ cs)) (step-Later s c v)
        (serve-Later (step services s c) cs h.1 (step-IsValid services s c h.0 v))
