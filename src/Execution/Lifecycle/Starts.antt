-- ===== src/Execution/Lifecycle/Starts.antt =====
-- What `RttAttemptService.start_next` starts, and who wins the compare-and-set of the store.
use mathlib.Core.Path.{subst}
use railone_core.Prelude.{
  ℕ, ◌+◌, ◌-◌, ◌<◌, String, ◌≡◌, refl, sym, ap, Bool, not, select, ◌≢◌, [], Option, none, some,
  Result, ok, ok-injective, arith,
}
use railone_core.Prelude.Equality.{◌==◌, string_eq, nat_eq}
use railone_core.Prelude.Dict.{lookup, insert, lookup-insert_self}
use railone_core.Crypto.Signatures.{SignatureEnvelope, SignatureService}
use railone_core.Contracts.Endpoints.{EndpointValidator}
use railone_core.Execution.Models.{
  Datetime, AttemptState, RankedRoute, ExecutionPlan, RttAttemptRecord, routing_budget_remaining,
}
use railone_core.Execution.Store.{
  ExecutionStore, require_plan_for_utt, commit_start, commit_transition, write_both,
}
use railone_core.Execution.Attempts.{start_next, index_routes, started_plan}
use railone_core.Execution.Lifecycle.Branches.{commit_start_branches, commit_transition_branches}
use railone_core.Execution.Lifecycle.Invariant.{StoreIsValid}
use railone_core.Execution.Lifecycle.Birth.{Started, start_next_branches}
use railone_core.Execution.Lifecycle.Routes.{
  IsRanked, IsFirstAffordable, select_route-first, index_routes-own,
}
use railone_core.Execution.Lifecycle.Refusals.{Refused}

-- The plan that a start leaves: it has the attempt as its current one, has counted it, and keeps the other
-- remaining routes in their order.
pub record HasStarted (a : RttAttemptRecord) (p q : ExecutionPlan) : Type 0 where
  pub current : q.current_rtt_id ≡ some a.rtt_id
  pub counted : q.attempts_used ≡ p.attempts_used + 1
  pub advanced : q.version ≡ p.version + 1
  pub route_taken :
      q.remaining_route_ids
      ≡ select (λ route_id. not (route_id == a.route_id)) p.remaining_route_ids

-- What a start of an attempt for an UTT did to the store.
pub record TookRoute (s t : ExecutionStore) (utt_id : String) (a : RttAttemptRecord) : Type 0 where
  pub plan : ExecutionPlan
  pub selected : RankedRoute
  pub plan_found : require_plan_for_utt utt_id s ≡ ok plan
  pub below_limit : plan.attempts_used < plan.max_attempts
  pub first :
      IsFirstAffordable
        (index_routes [] plan.ranked_routes)
        (plan.routing_budget_minor - plan.routing_cost_spent_minor)
        plan.remaining_route_ids
        selected
  pub ranked : IsRanked selected plan.ranked_routes
  pub on_route : a.route_id ≡ selected.candidate.route_id
  pub next_number : a.attempt_number ≡ plan.attempts_used + 1
  pub created : a.state ≡ AttemptState.created
  pub new_id : lookup a.rtt_id s.attempts ≡ none
  pub attempt_after : lookup a.rtt_id t.attempts ≡ some a
  pub plan_after :
      (q : ExecutionPlan) × (lookup plan.plan_id t.plans ≡ some q) × HasStarted a plan q

started_plan-written :
    (s : ExecutionStore) (plan : ExecutionPlan) (selected : RankedRoute) (rtt_id : String)
    (instant : ℕ)
    → lookup plan.plan_id (
        insert
          (started_plan plan selected rtt_id instant).plan_id
          (started_plan plan selected rtt_id instant)
          s.plans)
      ≡ some (started_plan plan selected rtt_id instant)
unfolding started_plan
started_plan-written s plan selected rtt_id instant =
    lookup-insert_self plan.plan_id (started_plan plan selected rtt_id instant) s.plans

module _ (signatures : SignatureService) (require_utt : String → Result SignatureEnvelope)
    (endpoints : Option EndpointValidator) (allow_unverified : Bool) (key_id : String) where
  Started-HasStarted :
      (s : ExecutionStore) (utt_id : String) (plan : ExecutionPlan) (selected : RankedRoute)
      (a : RttAttemptRecord) (instant : ℕ)
      → Started signatures require_utt endpoints allow_unverified key_id s utt_id plan selected a
      → HasStarted a plan (started_plan plan selected a.rtt_id instant)
  unfolding started_plan
  Started-HasStarted s utt_id plan selected a instant started = record {
    current = refl;
    counted = refl;
    advanced = refl;
    route_taken =
        ap (λ taken. select (λ route_id. not (route_id == taken)) plan.remaining_route_ids)
          (sym started.born.route);
  }

  Started-TookRoute :
      (s : ExecutionStore) (utt_id : String) (plan : ExecutionPlan) (selected : RankedRoute)
      (a : RttAttemptRecord) (instant : ℕ)
      → Started signatures require_utt endpoints allow_unverified key_id s utt_id plan selected a
      → TookRoute s (write_both (started_plan plan selected a.rtt_id instant) a s) utt_id a
  Started-TookRoute s utt_id plan selected a instant started =
      let first =
        select_route-first (index_routes [] plan.ranked_routes) (routing_budget_remaining plan)
          plan.remaining_route_ids selected started.may_start.chosen in
      record {
        plan = plan;
        selected = selected;
        plan_found = started.plan_found;
        below_limit = ground (arith, started.may_start.below_limit);
        first = first;
        ranked = (index_routes-own plan.ranked_routes first.route_id selected first.known).1;
        on_route = started.born.route;
        next_number = started.born.number;
        created = started.born.state;
        new_id = started.fresh;
        attempt_after = lookup-insert_self a.rtt_id a s.attempts;
        plan_after = (
          started_plan plan selected a.rtt_id instant,
          started_plan-written s plan selected a.rtt_id instant,
          Started-HasStarted s utt_id plan selected a instant started,
        );
      }

  -- An attempt that `start_next` returns, on a valid store, has a fresh identifier and takes the first
  -- of the plan's remaining routes whose estimated cost is within the routing budget less the cost
  -- spent; the plan was below its attempt limit, and is left with the attempt counted and current, and
  -- with the other remaining routes as they were.
  pub start_next-TookRoute :
      (s t : ExecutionStore) (utt_id : String) (at : Datetime) (a : RttAttemptRecord)
      → StoreIsValid s
      → start_next signatures require_utt endpoints allow_unverified key_id utt_id at s ≡ (ok a, t)
      → TookRoute s t utt_id a
  start_next-TookRoute s t utt_id at a v =
      start_next_branches signatures require_utt endpoints allow_unverified key_id
        (λ o. o ≡ (ok a, t) → TookRoute s t utt_id a) s utt_id at v
        (λ e h. absurd (cc (ap (λ o. o.0) h)))
        λ instant plan selected b started h.
          subst (λ x. TookRoute s x utt_id a) (ap (λ o. o.1) h)
            (subst
              (λ x.
                TookRoute s (write_both (started_plan plan selected b.rtt_id instant) b s) utt_id x)
              (ok-injective (ap (λ o. o.0) h))
              (Started-TookRoute s utt_id plan selected b instant started))

module _ (require_utt : String → Result SignatureEnvelope) where
  -- A commit from a version that the stored plan no longer has raises and changes nothing.
  stale-Refused :
      (v : ℕ) (plan old : ExecutionPlan) (attempt : RttAttemptRecord) (s : ExecutionStore)
      → lookup plan.plan_id s.plans ≡ some old
      → old.version ≢ v
      → Refused s (commit_transition v plan attempt s)
        × Refused s (commit_start require_utt v plan attempt s)
  stale-Refused v plan old attempt s held stale = (
    commit_transition_branches (Refused s) v plan attempt s (λ e. (e, refl))
        λ found same _. absurd (stale (cc (held, same.stored, same.unchanged))),
    commit_start_branches (Refused s) require_utt v plan attempt s (λ e. (e, refl))
        λ found same _ _ _ _. absurd (stale (cc (held, same.stored, same.unchanged))),
  )

  -- Of two writers that read the same version of a plan, only the first can write: once a transition
  -- has advanced the version, any transition and any start of the same plan from the version before
  -- raises and changes nothing.
  pub one_writer_wins :
      (v : ℕ) (p q : ExecutionPlan) (a b : RttAttemptRecord) (s t : ExecutionStore)
      → commit_transition v p a s ≡ (ok tt, t)
      → p.version ≡ v + 1
      → q.plan_id ≡ p.plan_id
      → Refused t (commit_transition v q b t) × Refused t (commit_start require_utt v q b t)
  one_writer_wins v p q a b s t wrote next same =
      stale-Refused v q p b t (rw same (written wrote)) (λ h. omega (arith, next, h))
    where
      written : commit_transition v p a s ≡ (ok tt, t) → lookup p.plan_id t.plans ≡ some p
      written =
          commit_transition_branches (λ o. o ≡ (ok tt, t) → lookup p.plan_id t.plans ≡ some p) v p a
            s (λ e h. absurd (cc (ap (λ o. o.0) h)))
            λ old found _ h. rw (← ap (λ o. o.1) h) (lookup-insert_self p.plan_id p s.plans)
