-- ===== src/Execution/Lifecycle/Plans.antt =====
-- `create_plan` and `build_plan` keep the invariant, and an UTT keeps the plan that it has.
use mathlib.Core.Path.{subst₂}
use railone_core.Prelude.{
  String, ◌≡◌, refl, sym, ap, false, List, Option, none, some, Result, ok, ok-injective,
  and_then-eq_ok, inl, inr, arith, Bool-cases,
}
use railone_core.Prelude.Equality.{◌==◌, string_eq}
use text.Mathlib.TextEquality.{eq_iff}
use railone_core.Prelude.Dict.{Dict, lookup, insert, lookup-insert, lookup-insert_cases}
use railone_core.Prelude.Exec.{pure, modify, ◌>>◌}
use railone_core.Prelude.Exec.Branches.{lift_branches, guard_branches}
use railone_core.Crypto.Json.{item, text_at, natural_at}
use railone_core.Crypto.Signatures.{SignatureEnvelope, SignatureService}
use railone_core.Contracts.Validation.{require_text}
use railone_core.Execution.Models.{
  Datetime, require_aware, PlanStatus, RouteCandidate, ExecutionPlan, RttAttemptRecord,
}
use railone_core.Execution.Scoring.{RouteScoreWeights, rank}
use railone_core.Execution.Store.{ExecutionStore, create_plan, adopt_plan, with_plan, is_some}
use railone_core.Execution.Planning.{
  verified_utt, rank_request, require_some_route, payloads, new_plan, draft_plan, build_plan,
}
use railone_core.Execution.Lifecycle.Invariant.{InPhase, PlanIsValid, IsCurrentOf, StoreIsValid}

-- A plan as `build_plan` makes it: active, with no attempt yet.
pub record IsNew (plan : ExecutionPlan) : Type 0 where
  pub unused : plan.attempts_used ≡ 0
  pub idle : plan.current_rtt_id ≡ none
  pub active : plan.status ≡ PlanStatus.active

module _ (s : ExecutionStore) (plan : ExecutionPlan) (v : StoreIsValid s) (new : IsNew plan)
    (fresh : lookup plan.plan_id s.plans ≡ none) where
  new-phase :
      (d : Dict String RttAttemptRecord) → InPhase plan.plan_id d plan.status plan.current_rtt_id
  new-phase d = rw (new.active, new.idle) tt

  with_plan-current :
      (k : String) (a : RttAttemptRecord)
      → IsCurrentOf k (lookup a.plan_id s.plans)
      → IsCurrentOf k (lookup a.plan_id (insert plan.plan_id plan s.plans))
  with_plan-current k a current = rw lookup-insert (elim (Bool-cases (plan.plan_id == a.plan_id)) [
    | inl same ↦ absurd (rw (← (eq_iff plan.plan_id a.plan_id).0 same, fresh) at current)
    | inr apart ↦ rw apart current
  ])

  with_plan-IsValid : StoreIsValid (with_plan plan s)
  with_plan-IsValid = record {
    plan_valid = λ k q held. elim (lookup-insert_cases plan.plan_id k plan q s.plans held) [
      | inl (same, written) ↦
          subst₂ (λ x y. PlanIsValid x s.attempts y) same written
            (record {
              own_id = refl;
              within_limit = rw new.unused (omega arith);
              phase = new-phase s.attempts;
            })
      | inr (other, before) ↦ v.plan_valid k q before
    ];
    attempt_valid = λ k a held.
        let valid = v.attempt_valid k a held in
        record {
          own_id = valid.own_id;
          open_is_current = λ opened. with_plan-current k a (valid.open_is_current opened);
        };
  }

pub is_some-eq_false {ℓ} : {A : Type ℓ} (o : Option A) → is_some o ≡ false → o ≡ none
is_some-eq_false none h = refl
is_some-eq_false (some a) h = cc

adopt_plan-IsValid :
    (plan : ExecutionPlan) (existing : Option String) (s : ExecutionStore)
    → IsNew plan
    → StoreIsValid s
    → StoreIsValid (adopt_plan plan existing s).1
unfolding adopt_plan
adopt_plan-IsValid plan (some existing_id) s new v =
    elim (Bool-cases (existing_id == plan.plan_id)) [
      | inl same ↦ rw (same, adopt_plan) v
      | inr other ↦ rw (other, adopt_plan) v
    ]
adopt_plan-IsValid plan none s new v =
    guard_branches (λ o. StoreIsValid o.1) (is_some (lookup plan.plan_id s.plans)) _
      (modify (with_plan plan) >> pure plan) s (λ e. v)
      λ free. with_plan-IsValid s plan v new (is_some-eq_false _ free)

module _ (require_utt : String → Result SignatureEnvelope) where
  pub create_plan-IsValid :
      (plan : ExecutionPlan) (s : ExecutionStore)
      → IsNew plan
      → StoreIsValid s
      → StoreIsValid (create_plan require_utt plan s).1
  unfolding create_plan
  create_plan-IsValid plan s new v =
      lift_branches (λ o. StoreIsValid o.1) (require_utt plan.utt_id)
        (λ _ s. adopt_plan plan (lookup plan.utt_id s.plan_by_utt) s) s (λ e. v)
        λ utt known. adopt_plan-IsValid plan (lookup plan.utt_id s.plan_by_utt) s new v

  module _ (signatures : SignatureService) (weights : RouteScoreWeights) where
    draft_plan-IsNew :
        (utt_id : String) (cs : List RouteCandidate) (at : Datetime) (plan : ExecutionPlan)
        → draft_plan signatures require_utt weights utt_id cs at ≡ ok plan
        → IsNew plan
    unfolding draft_plan new_plan
    draft_plan-IsNew utt_id cs at plan h =
        let (instant, _, h₁) = and_then-eq_ok (require_aware _ at) _ h in
        let (key, _, h₂) = and_then-eq_ok (require_text _ utt_id) _ h₁ in
        let (signed, _, h₃) = and_then-eq_ok (require_utt key) _ h₂ in
        let (utt, _, h₄) = and_then-eq_ok (verified_utt signatures signed) _ h₃ in
        let (q, _, h₅) = and_then-eq_ok (rank_request utt) _ h₄ in
        let (ranked, _, h₆) = and_then-eq_ok (rank weights q at cs) _ h₅ in
        let (_, _, h₇) = and_then-eq_ok (require_some_route ranked) _ h₆ in
        let (hash, _, h₈) = and_then-eq_ok (text_at _ signed.protected) _ h₇ in
        let (policy, _, h₉) = and_then-eq_ok (item _ utt) _ h₈ in
        let (routes, _, h₁₀) = and_then-eq_ok (payloads ranked) _ h₉ in
        let (limit, _, h₁₁) = and_then-eq_ok (natural_at _ utt) _ h₁₀ in
        let is = ok-injective h₁₁ in
        record {
          unused = sym (ap (λ (p : ExecutionPlan). p.attempts_used) is);
          idle = sym (ap (λ (p : ExecutionPlan). p.current_rtt_id) is);
          active = sym (ap (λ (p : ExecutionPlan). p.status) is);
        }

    pub build_plan-IsValid :
        (s : ExecutionStore) (utt_id : String) (cs : List RouteCandidate) (at : Datetime)
        → StoreIsValid s
        → StoreIsValid (build_plan signatures require_utt weights utt_id cs at s).1
    unfolding build_plan
    build_plan-IsValid s utt_id cs at v =
        lift_branches (λ o. StoreIsValid o.1)
          (draft_plan signatures require_utt weights utt_id cs at) (create_plan require_utt) s
          (λ e. v)
          λ plan drafted. create_plan-IsValid plan s (draft_plan-IsNew utt_id cs at plan drafted) v
