-- ===== src/Execution/Lifecycle/Distinct.antt =====
-- Every call of railone_execution/service.py keeps the routes and numbers of a plan's attempts apart.
use mathlib.Core.Path.{subst, ◌∙◌}
use railone_core.Prelude.{
  ℕ, String, ◌≡◌, refl, sym, true, Option, none, some, ok, List, [], ◌∷◌, All, inl, inr, arith,
  Bool-cases,
}
use railone_core.Prelude.Equality.{◌==◌, string_eq}
use railone_core.Prelude.Text.{strip}
use railone_core.Prelude.Dict.{lookup}
use railone_core.Prelude.Exec.{pure, modify, ◌>>◌}
use railone_core.Prelude.Exec.Branches.{lift_branches, guard_branches}
use railone_core.Execution.Models.{
  Datetime, RouteCandidate, RankedRoute, ExecutionPlan, RttAttemptRecord, routing_budget_remaining,
}
use railone_core.Execution.Scoring.{RouteScoreWeights}
use railone_core.Execution.Store.{
  ExecutionStore, write_both, create_plan, adopt_plan, with_plan, is_some,
}
use railone_core.Execution.Planning.{draft_plan, build_plan}
use railone_core.Execution.Attempts.{
  FailureReport, failed_plan, failed_attempt, SuccessReport, finalized_plan, succeeded_attempt,
  Resolution, confirmed_success, confirmed_failure, resolved, index_routes, started_plan,
}
use railone_core.Execution.Lifecycle.Branches.{
  Reported, apply_failure_branches, apply_success_branches, apply_resolution_branches,
}
use railone_core.Execution.Lifecycle.Invariant.{StoreIsValid}
use railone_core.Execution.Lifecycle.Reports.{
  resolved-success, resolved-failure, record_failure_branches, record_success_branches,
  resolve_reconciliation_branches,
}
use railone_core.Execution.Lifecycle.Birth.{MayStart, Started, start_next_branches}
use railone_core.Execution.Lifecycle.Plans.{is_some-eq_false}
use railone_core.Execution.Lifecycle.Calls.{
  Call, build, start, fail, succeed, resolve, IsTrimmed, Services, step, step-IsValid, serve,
  empty_store, empty_store-IsValid,
}
use railone_core.Execution.Lifecycle.Routes.{
  among, among-middle, among-select, among-select_self, select_route-first, index_routes-own,
}
use railone_core.Execution.Lifecycle.Tried.{
  IsCounted, Clash, TriedIsValid, write_both-Tried, with_plan-Tried,
}

module _ (key : String) (s : ExecutionStore) (attempt : RttAttemptRecord) (plan : ExecutionPlan)
    (v : StoreIsValid s) (t : TriedIsValid s) (reported : Reported key s attempt plan) where
  reported-IsCounted : IsCounted attempt (some plan)
  reported-IsCounted = rw reported.plan_held at (t.counted key attempt reported.attempt_held)

  -- A report changes neither the routes of its plan nor those of its attempt.
  settle-Tried :
      (plan' : ExecutionPlan) (attempt' : RttAttemptRecord)
      → plan'.plan_id ≡ plan.plan_id
      → plan'.remaining_route_ids ≡ plan.remaining_route_ids
      → plan'.attempts_used ≡ plan.attempts_used
      → attempt'.rtt_id ≡ attempt.rtt_id
      → attempt'.plan_id ≡ attempt.plan_id
      → attempt'.route_id ≡ attempt.route_id
      → attempt'.attempt_number ≡ attempt.attempt_number
      → TriedIsValid (write_both plan' attempt' s)
  settle-Tried plan' attempt' same_id same_left same_used same_rtt same_plan same_route
        same_number =
      let own_key = (v.attempt_valid key attempt reported.attempt_held).own_id in
      let own_plan = (v.plan_valid attempt.plan_id plan reported.plan_held).own_id in
      write_both-Tried s plan plan' attempt' t (record {
        old_held = cc (same_id, own_plan, reported.plan_held);
        same_plan = cc (same_id, own_plan, same_plan);
        shrinks = λ r h. rw same_left h;
        used_grows = rw same_used (omega arith);
        route_taken = rw (same_left, same_route) (reported-IsCounted).0;
        number_fits = rw (same_used, same_number) (reported-IsCounted).1;
        others_apart = λ k b held other clash.
            same_rtt
            ∙ own_key
            ∙ t.apart key k attempt b reported.attempt_held held (cc (other, same_id, own_plan))
                (like_before b clash);
      })
    where
      like_before : (b : RttAttemptRecord) → Clash attempt' b → Clash attempt b
      like_before b (inl h) = inl (sym same_route ∙ h)
      like_before b (inr h) = inr (sym same_number ∙ h)

  failed-Tried :
      (f : FailureReport)
      → TriedIsValid (write_both (failed_plan f plan attempt) (failed_attempt f attempt) s)
  unfolding failed_plan failed_attempt
  failed-Tried f =
      settle-Tried (failed_plan f plan attempt) (failed_attempt f attempt) refl refl refl refl refl
        refl refl

  finalized-Tried :
      (r : SuccessReport)
      → TriedIsValid (write_both (finalized_plan r plan attempt) (succeeded_attempt r attempt) s)
  unfolding finalized_plan succeeded_attempt
  finalized-Tried r =
      settle-Tried (finalized_plan r plan attempt) (succeeded_attempt r attempt) refl refl refl refl
        refl refl refl

  resolved-Tried :
      (how : Resolution) (r : SuccessReport) (u : ExecutionPlan × RttAttemptRecord)
      → resolved how r plan attempt ≡ ok u
      → TriedIsValid (write_both u.0 u.1 s)
  resolved-Tried confirmed_success r u made =
      subst (λ x. TriedIsValid (write_both x.0 x.1 s)) (resolved-success r plan attempt u made)
        (finalized-Tried r)
  resolved-Tried (confirmed_failure code d) r u made =
      let (f, _, _, _, _, is) = resolved-failure code d r plan attempt u made in
      subst (λ x. TriedIsValid (write_both x.0 x.1 s)) (sym is) (failed-Tried f)

adopt_plan-Tried :
    (plan : ExecutionPlan) (existing : Option String) (s : ExecutionStore)
    → TriedIsValid s
    → TriedIsValid (adopt_plan plan existing s).1
unfolding adopt_plan
adopt_plan-Tried plan (some existing_id) s t = elim (Bool-cases (existing_id == plan.plan_id)) [
  | inl same ↦ rw (same, adopt_plan) t
  | inr other ↦ rw (other, adopt_plan) t
]
adopt_plan-Tried plan none s t =
    guard_branches (λ o. TriedIsValid o.1) (is_some (lookup plan.plan_id s.plans)) _
      (modify (with_plan plan) >> pure plan) s (λ e. t)
      λ free. with_plan-Tried s plan (is_some-eq_false _ free) t

module _ (services : Services) where
  open services use {signatures, require_utt, endpoints, allow_unverified, signing_key_id}

  build_plan-Tried :
      (weights : RouteScoreWeights) (s : ExecutionStore) (utt_id : String)
      (cs : List RouteCandidate) (at : Datetime)
      → TriedIsValid s
      → TriedIsValid (build_plan signatures require_utt weights utt_id cs at s).1
  unfolding build_plan create_plan
  build_plan-Tried weights s utt_id cs at t =
      lift_branches (λ o. TriedIsValid o.1) (draft_plan signatures require_utt weights utt_id cs at)
        (create_plan require_utt) s (λ e. t)
        λ plan drafted.
          lift_branches (λ o. TriedIsValid o.1) (require_utt plan.utt_id)
            (λ _ s. adopt_plan plan (lookup plan.utt_id s.plan_by_utt) s) s (λ e. t)
            λ utt known. adopt_plan-Tried plan (lookup plan.utt_id s.plan_by_utt) s t

  -- The selected route was still to be tried.
  selected-among :
      (plan : ExecutionPlan) (selected : RankedRoute)
      → MayStart plan selected
      → among selected.candidate.route_id plan.remaining_route_ids ≡ true
  selected-among plan selected may =
      let first =
        select_route-first (index_routes [] plan.ranked_routes) (routing_budget_remaining plan)
          plan.remaining_route_ids selected may.chosen in
      let (own, _) = index_routes-own plan.ranked_routes first.route_id selected first.known in
      rw (own, first.split) (among-middle first.route_id first.skipped first.later)

  Started-Tried :
      (s : ExecutionStore) (utt_id : String) (plan : ExecutionPlan) (selected : RankedRoute)
      (a : RttAttemptRecord) (instant : ℕ)
      → TriedIsValid s
      → Started signatures require_utt endpoints allow_unverified signing_key_id s utt_id plan
          selected a
      → TriedIsValid (write_both (started_plan plan selected a.rtt_id instant) a s)
  unfolding started_plan
  Started-Tried s utt_id plan selected a instant t started =
      write_both-Tried s plan (started_plan plan selected a.rtt_id instant) a t (record {
        old_held = started.stored;
        same_plan = started.born.lineage;
        shrinks = λ r h. among-select selected.candidate.route_id r plan.remaining_route_ids h;
        used_grows = omega arith;
        route_taken =
            rw started.born.route
              (among-select_self selected.candidate.route_id plan.remaining_route_ids);
        number_fits = rw started.born.number (omega arith);
        others_apart = λ k b held same clash.
            let counted : IsCounted b (some plan) =
              rw (same, started.stored) at (t.counted k b held) in
            absurd (no_clash b counted clash);
      })
    where
      no_clash : (b : RttAttemptRecord) → IsCounted b (some plan) → Clash a b → ⊥
      no_clash b counted (inl h) =
          cc (selected-among plan selected started.may_start, started.born.route, h, counted.0)
      no_clash b counted (inr h) = omega (arith, started.born.number, h, counted.1)

  step-Tried :
      (s : ExecutionStore) (c : Call)
      → StoreIsValid s
      → TriedIsValid s
      → TriedIsValid (step services s c)
  unfolding step
  step-Tried s (build weights utt_id cs at) v t = build_plan-Tried weights s utt_id cs at t
  step-Tried s (start utt_id at) v t =
      start_next_branches signatures require_utt endpoints allow_unverified signing_key_id
        (λ o. TriedIsValid o.1) s utt_id at v (λ e. t)
        λ instant plan selected a started. Started-Tried s utt_id plan selected a instant t started
  step-Tried s (fail rtt_id code d cost at) v t =
      record_failure_branches (λ o. TriedIsValid o.1) s rtt_id (λ e. t) code d cost at
        λ f _ _.
          apply_failure_branches (λ o. TriedIsValid o.1) (strip rtt_id) s (λ e. t) f
            λ attempt plan reported _. failed-Tried (strip rtt_id) s attempt plan v t reported f
  step-Tried s (succeed rtt_id cost at) v t =
      record_success_branches (λ o. TriedIsValid o.1) s rtt_id (λ e. t) cost at
        λ r _.
          apply_success_branches (λ o. TriedIsValid o.1) (strip rtt_id) s (λ e. t) r
            λ attempt plan reported _. finalized-Tried (strip rtt_id) s attempt plan v t reported r
  step-Tried s (resolve rtt_id how cost at) v t =
      resolve_reconciliation_branches (λ o. TriedIsValid o.1) s rtt_id (λ e. t) how cost at
        λ r _.
          apply_resolution_branches (λ o. TriedIsValid o.1) (strip rtt_id) s (λ e. t) how r
            λ attempt plan u reported _ _ _ made.
              resolved-Tried (strip rtt_id) s attempt plan v t reported how r u made

  serve-Tried :
      (s : ExecutionStore) (cs : List Call)
      → All IsTrimmed cs
      → StoreIsValid s
      → TriedIsValid s
      → TriedIsValid (serve services s cs)
  unfolding serve
  serve-Tried s [] h v t = t
  serve-Tried s (c ∷ cs) h v t =
      serve-Tried (step services s c) cs h.1 (step-IsValid services s c h.0 v) (step-Tried s c v t)

  empty_store-Tried : TriedIsValid empty_store
  unfolding lookup
  empty_store-Tried = record { counted = λ k a h. cc; apart = λ j k a b h. cc }

  -- After any calls, from an empty store, whose reports name attempts without surrounding blanks: two
  -- stored attempts of one plan that take the same route, or that have the same number, are the same
  -- attempt. So no plan tries a route twice.
  pub route_tried_once :
      (cs : List Call) (j k : String) (a b : RttAttemptRecord)
      → All IsTrimmed cs
      → lookup j (serve services empty_store cs).attempts ≡ some a
      → lookup k (serve services empty_store cs).attempts ≡ some b
      → a.plan_id ≡ b.plan_id
      → Clash a b
      → j ≡ k
  route_tried_once cs j k a b trimmed held_a held_b =
      (serve-Tried empty_store cs trimmed empty_store-IsValid empty_store-Tried).apart j k a b
        held_a held_b
