-- ===== src/Execution/Lifecycle/Birth.antt =====
-- `build_plan` and `start_next` keep the invariant; what a started attempt and its plan are.
use mathlib.Core.Path.{◌∙◌}
use railone_core.Prelude.{
  or_raise-eq_ok, not-eq_false, ℕ, ◌+◌, String, ◌≡◌, refl, sym, ap, Bool, true, false, not, [],
  Option, none, some, Exception, Result, ok, err, ok-injective, and_then-eq_ok, raise_if,
  raise_if-eq_ok, inl, inr, leb, arith, Option-cases,
}
use railone_core.Prelude.Equality.{string_eq}
use railone_core.Prelude.Dict.{lookup, insert, lookup-insert_self}
use railone_core.Prelude.Exec.{pure, continue}
use railone_core.Prelude.Exec.Branches.{lift_branches, reads_branches}
use railone_core.Crypto.Json.{Json, item}
use railone_core.Crypto.Signatures.{SignatureEnvelope, SignatureService}
use railone_core.Contracts.Endpoints.{EndpointValidator}
use railone_core.Execution.Models.{
  Datetime, require_aware, PlanStatus, is_active, candidate_payload, AttemptState, RankedRoute,
  ExecutionPlan, routing_budget_remaining, RttAttemptRecord,
}
use railone_core.Execution.Store.{ExecutionStore, require_plan_for_utt, write_both, is_some}
use railone_core.Execution.Attempts.{
  index_routes, select_route, next_route, started_plan, executable_utt, draft_attempt, born_attempt,
  start_next,
}
use railone_core.Execution.Lifecycle.Branches.{commit_start_branches}
use railone_core.Execution.Lifecycle.Invariant.{
  InPhase, StoreIsValid, WriteIsSound, write_both-IsValid,
}

-- What the guards of `start_next` have found of a plan.
pub record MayStart (plan : ExecutionPlan) (selected : RankedRoute) : Type 0 where
  pub active : is_active plan.status ≡ true
  pub idle : is_some plan.current_rtt_id ≡ false
  pub below_limit : leb plan.max_attempts plan.attempts_used ≡ false
  pub chosen :
      select_route
        (index_routes [] plan.ranked_routes)
        (routing_budget_remaining plan)
        plan.remaining_route_ids
      ≡ ok (some selected)

pub next_route-MayStart :
    (plan : ExecutionPlan) (selected : RankedRoute)
    → next_route plan ≡ ok selected
    → MayStart plan selected
unfolding next_route
next_route-MayStart plan selected h =
    let (_, active, h₁) = and_then-eq_ok (raise_if (not (is_active plan.status)) _) _ h in
    let (_, idle, h₂) = and_then-eq_ok (raise_if (is_some plan.current_rtt_id) _) _ h₁ in
    let (_, below, h₃) =
      and_then-eq_ok (raise_if (leb plan.max_attempts plan.attempts_used) _) _ h₂ in
    let (found, chosen, h₄) = and_then-eq_ok (select_route _ _ _) _ h₃ in
    record {
      active = not-eq_false _ (raise_if-eq_ok _ _ active);
      idle = raise_if-eq_ok _ _ idle;
      below_limit = raise_if-eq_ok _ _ below;
      chosen = chosen ∙ ap ok (or_raise-eq_ok found _ h₄);
    }

-- The attempt that `start_next` returns is a new one of the plan, on the selected route.
pub record IsBorn (plan : ExecutionPlan) (selected : RankedRoute) (a : RttAttemptRecord)
    : Type 0 where
  pub lineage : a.plan_id ≡ plan.plan_id
  pub state : a.state ≡ AttemptState.created
  pub number : a.attempt_number ≡ plan.attempts_used + 1
  pub route : a.route_id ≡ selected.candidate.route_id

module _ (signatures : SignatureService) (require_utt : String → Result SignatureEnvelope)
    (endpoints : Option EndpointValidator) (allow_unverified : Bool) (key_id : String) where
  draft_attempt-IsBorn :
      (utt_id : String) (protected : Json) (plan : ExecutionPlan) (selected : RankedRoute)
      (instant : ℕ) (a : RttAttemptRecord)
      → draft_attempt signatures require_utt endpoints allow_unverified key_id utt_id protected plan
          selected instant
        ≡ ok a
      → IsBorn plan selected a
  unfolding draft_attempt born_attempt
  draft_attempt-IsBorn utt_id protected plan selected instant a h =
      let (hash, _, h₁) = and_then-eq_ok (item "payload_sha256" protected) _ h in
      let (route, _, h₂) = and_then-eq_ok (candidate_payload selected.candidate) _ h₁ in
      let (signed, _, h₃) = and_then-eq_ok (signatures.sign_artifact _ _ _ _) _ h₂ in
      let is = ok-injective h₃ in
      record {
        lineage = sym (ap (λ (x : RttAttemptRecord). x.plan_id) is);
        state = sym (ap (λ (x : RttAttemptRecord). x.state) is);
        number = sym (ap (λ (x : RttAttemptRecord). x.attempt_number) is);
        route = sym (ap (λ (x : RttAttemptRecord). x.route_id) is);
      }

  -- What a start that does not raise has found, and what it writes.
  pub record Started (s : ExecutionStore) (utt_id : String) (plan : ExecutionPlan)
      (selected : RankedRoute) (attempt : RttAttemptRecord) : Type 0 where
    pub plan_found : require_plan_for_utt utt_id s ≡ ok plan
    pub may_start : MayStart plan selected
    pub born : IsBorn plan selected attempt
    pub stored : lookup plan.plan_id s.plans ≡ some plan
    pub fresh : lookup attempt.rtt_id s.attempts ≡ none
    pub payment : attempt.utt_id ≡ plan.utt_id

  pub require_plan_for_utt-stored :
      (s : ExecutionStore) (utt_id : String) (plan : ExecutionPlan)
      → StoreIsValid s
      → require_plan_for_utt utt_id s ≡ ok plan
      → lookup plan.plan_id s.plans ≡ some plan
  unfolding require_plan_for_utt
  require_plan_for_utt-stored s utt_id plan v h =
      elim (Option-cases (lookup utt_id s.plan_by_utt)) [
        | inl missing ↦ cc (rw (missing, require_plan_for_utt) at h)
        | inr (plan_id, known) ↦
            let held : lookup plan_id s.plans ≡ some plan = ground arith in
            cc ((v.plan_valid plan_id plan held).own_id, held)
      ]

  pub start_next_branches {ℓ} :
      (P : Result RttAttemptRecord × ExecutionStore → Type ℓ) (s : ExecutionStore) (utt_id : String)
      (at : Datetime)
      → StoreIsValid s
      → ((e : Exception) → P (err e, s))
      → ((instant : ℕ) (plan : ExecutionPlan) (selected : RankedRoute) (a : RttAttemptRecord)
          → Started s utt_id plan selected a
          → P (ok a, write_both (started_plan plan selected a.rtt_id instant) a s))
      → P (start_next signatures require_utt endpoints allow_unverified key_id utt_id at s)
  unfolding start_next started_plan
  start_next_branches P s utt_id at v raised written =
      lift_branches P (require_aware "attempt timestamp" at) _ s raised λ instant aware.
        lift_branches P
          (executable_utt signatures require_utt endpoints allow_unverified key_id utt_id) _ s
          raised
          λ verified known. reads_branches P (require_plan_for_utt utt_id) _ s raised λ plan found.
            lift_branches P (next_route plan) _ s raised λ selected next.
              lift_branches P
                (draft_attempt signatures require_utt endpoints allow_unverified key_id utt_id
                  verified.1 plan selected instant)
                _ s raised
                λ a drafted.
                  commit_start_branches (λ o. P (continue o.0 o.1 (λ _. pure a))) require_utt
                    plan.version (started_plan plan selected a.rtt_id instant) a s raised
                    λ old held idle fresh payment lineage. written instant plan selected a (record {
                      plan_found = found;
                      may_start = next_route-MayStart plan selected next;
                      born = draft_attempt-IsBorn utt_id verified.1 plan selected instant a drafted;
                      stored = require_plan_for_utt-stored s utt_id plan v found;
                      fresh = fresh;
                      payment = payment;
                    })

  Started-sound :
      (s : ExecutionStore) (utt_id : String) (plan : ExecutionPlan) (selected : RankedRoute)
      (a : RttAttemptRecord) (instant : ℕ)
      → StoreIsValid s
      → Started s utt_id plan selected a
      → WriteIsSound s plan (started_plan plan selected a.rtt_id instant) a
  unfolding started_plan
  Started-sound s utt_id plan selected a instant v started = record {
    old_held = started.stored;
    old_current = λ r e. cc (started.may_start.idle, e);
    lineage = λ b held. cc (started.fresh, held);
    within_limit = ground (arith, started.may_start.below_limit);
    phase = started-phase plan.status started.may_start.active;
    same_plan = started.born.lineage;
    open_is_current = λ opened. refl;
  }
    where
      started-phase :
          (status : PlanStatus)
          → is_active status ≡ true
          → InPhase plan.plan_id (insert a.rtt_id a s.attempts) status (some a.rtt_id)
      started-phase PlanStatus.active h =
          rw (lookup-insert_self a.rtt_id a s.attempts) (started.born.lineage, started.born.state)
      started-phase PlanStatus.reconciliation_required h = cc
      started-phase PlanStatus.failed h = cc
      started-phase PlanStatus.exhausted h = cc
      started-phase PlanStatus.finalized h = cc

  pub start_next-IsValid :
      (s : ExecutionStore) (utt_id : String) (at : Datetime)
      → StoreIsValid s
      → StoreIsValid
          (start_next signatures require_utt endpoints allow_unverified key_id utt_id at s).1
  start_next-IsValid s utt_id at v =
      start_next_branches (λ o. StoreIsValid o.1) s utt_id at v (λ e. v)
        λ instant plan selected a started.
          write_both-IsValid s plan (started_plan plan selected a.rtt_id instant) a v
            (Started-sound s utt_id plan selected a instant v started)
