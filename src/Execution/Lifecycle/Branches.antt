-- ===== src/Execution/Lifecycle/Branches.antt =====
-- Every operation of railone_execution's store and services either raises and changes nothing, or
-- passes its guards and writes one plan and one attempt.
use railone_core.Prelude.{
  not-eq_false, ℕ, String, ◌≡◌, refl, Bool, true, false, not, ◌||◌, Option, none, some, Exception,
  Result, ok, err, arith, value_error,
}
use railone_core.Prelude.Equality.{◌==◌, string_eq, nat_eq}
use railone_core.Prelude.Dict.{lookup}
use railone_core.Prelude.Exec.{pure, modify, continue, ◌>>◌}
use railone_core.Prelude.Exec.Branches.{reads_branches, lift_branches, guard_branches}
use text.Mathlib.TextEquality.{eq_iff}
use railone_core.Crypto.Signatures.{SignatureEnvelope}
use railone_core.Execution.Models.{
  ExecutionPlan, RttAttemptRecord, is_created, awaits_reconciliation,
}
use railone_core.Execution.Store.{
  ExecutionStore, require_plan, require_attempt, commit_start, commit_transition, write_both,
  is_current, is_some, current_plan,
}
use railone_core.Execution.Attempts.{
  FailureReport, failed_plan, failed_attempt, apply_failure, SuccessReport, finalized_plan,
  succeeded_attempt, apply_success, Resolution, resolved, is_awaiting, apply_resolution,
}

-- What the compare-and-set has found.
pub record Held (v : ℕ) (plan : ExecutionPlan) (s : ExecutionStore) (old : ExecutionPlan)
    : Type 0 where
  pub stored : lookup plan.plan_id s.plans ≡ some old
  pub unchanged : old.version ≡ v

current_plan-Held :
    (v : ℕ) (plan old : ExecutionPlan) (s : ExecutionStore)
    → current_plan v plan s ≡ ok old
    → Held v plan s old
unfolding current_plan
current_plan-Held v plan old s h = ground arith

is_current-eq : (o : Option String) (r : String) → not (is_current o r) ≡ false → o ≡ some r
is_current-eq none r h = cc
is_current-eq (some x) r h = ground (arith, eq_iff x r)

lineage-eq : (b : Bool) (x y : String) → (b || not (x == y)) ≡ false → x ≡ y
lineage-eq b x y h = ground (arith, eq_iff x y)

nor-eq_false : (b c : Bool) → (not b || not c) ≡ false → (b ≡ true) × (not c ≡ false)
nor-eq_false true c h = (refl, h)
nor-eq_false false c h = cc

pub commit_transition_branches {ℓ} :
    (P : Result (Unit {0}) × ExecutionStore → Type ℓ) (v : ℕ) (plan : ExecutionPlan)
    (attempt : RttAttemptRecord) (s : ExecutionStore)
    → ((e : Exception) → P (err e, s))
    → ((old : ExecutionPlan)
        → Held v plan s old
        → old.current_rtt_id ≡ some attempt.rtt_id
        → P (ok tt, write_both plan attempt s))
    → P (commit_transition v plan attempt s)
unfolding commit_transition
commit_transition_branches P v plan attempt s raised written =
    reads_branches P (current_plan v plan) _ s raised λ old found.
      reads_branches P (require_attempt attempt.rtt_id) _ s raised λ prior held.
        guard_branches P _ _ _ s raised λ flight.
          written old (current_plan-Held v plan old s found)
            (is_current-eq old.current_rtt_id attempt.rtt_id flight)

payment-eq : (x y : String) (b : Bool) → not (x == y) || b ≡ false → x ≡ y
payment-eq x y b h = ground (arith, eq_iff x y)

pub commit_start_branches {ℓ} :
    (P : Result (Unit {0}) × ExecutionStore → Type ℓ)
    (require_utt : String → Result SignatureEnvelope) (v : ℕ) (plan : ExecutionPlan)
    (attempt : RttAttemptRecord) (s : ExecutionStore)
    → ((e : Exception) → P (err e, s))
    → ((old : ExecutionPlan)
        → Held v plan s old
        → old.current_rtt_id ≡ none
        → lookup attempt.rtt_id s.attempts ≡ none
        → attempt.utt_id ≡ plan.utt_id
        → attempt.plan_id ≡ plan.plan_id
        → P (ok tt, write_both plan attempt s))
    → P (commit_start require_utt v plan attempt s)
unfolding commit_start
commit_start_branches P require_utt v plan attempt s raised written =
    lift_branches P (require_utt plan.utt_id) _ s raised λ utt known.
      reads_branches P (current_plan v plan) _ s raised λ old found.
        guard_branches P _ _ _ s raised λ idle. guard_branches P _ _ _ s raised λ fresh.
          guard_branches P
            (not (attempt.utt_id == plan.utt_id) || not (attempt.plan_id == plan.plan_id))
            (value_error "RTT lineage does not match execution plan")
            (modify (write_both plan attempt)) s raised
            λ lineage.
              written old (current_plan-Held v plan old s found) (not_some old.current_rtt_id idle)
                (not_some (lookup attempt.rtt_id s.attempts) fresh)
                (payment-eq attempt.utt_id plan.utt_id _ lineage)
                (lineage-eq _ attempt.plan_id plan.plan_id lineage)
  where
    not_some : {A : Type 0} (o : Option A) → is_some o ≡ false → o ≡ none
    not_some none h = refl
    not_some (some a) h = cc

-- The attempt and the plan that a report of an outcome is about.
pub record Reported (key : String) (s : ExecutionStore) (attempt : RttAttemptRecord)
    (plan : ExecutionPlan) : Type 0 where
  pub attempt_held : lookup key s.attempts ≡ some attempt
  pub plan_held : lookup attempt.plan_id s.plans ≡ some plan
  pub old : ExecutionPlan
  pub old_held : lookup plan.plan_id s.plans ≡ some old
  pub in_flight : old.current_rtt_id ≡ some attempt.rtt_id

require_attempt-eq :
    (key : String) (s : ExecutionStore) (a : RttAttemptRecord)
    → require_attempt key s ≡ ok a
    → lookup key s.attempts ≡ some a
unfolding require_attempt
require_attempt-eq key s a h = ground arith

require_plan-eq :
    (key : String) (s : ExecutionStore) (p : ExecutionPlan)
    → require_plan key s ≡ ok p
    → lookup key s.plans ≡ some p
unfolding require_plan
require_plan-eq key s p h = ground arith

module _ {ℓ} (P : Result ExecutionPlan × ExecutionStore → Type ℓ) (key : String)
    (s : ExecutionStore) (raised : (e : Exception) → P (err e, s)) where
  -- The write that ends each report.
  settle_branches :
      (attempt attempt' : RttAttemptRecord) (plan plan' : ExecutionPlan)
      → require_attempt key s ≡ ok attempt
      → require_plan attempt.plan_id s ≡ ok plan
      → attempt'.rtt_id ≡ attempt.rtt_id
      → plan'.plan_id ≡ plan.plan_id
      → (Reported key s attempt plan → P (ok plan', write_both plan' attempt' s))
      → P ((commit_transition plan.version plan' attempt' >> pure plan') s)
  settle_branches attempt attempt' plan plan' found held same_attempt same_plan written =
      commit_transition_branches (λ o. P (continue o.0 o.1 (λ _. pure plan'))) plan.version plan'
        attempt' s raised
        λ old stored flight. written (record {
          attempt_held = require_attempt-eq key s attempt found;
          plan_held = require_plan-eq attempt.plan_id s plan held;
          old = old;
          old_held = rw (← same_plan) stored.stored;
          in_flight = rw (← same_attempt) flight;
        })

  pub apply_failure_branches :
      (f : FailureReport)
      → ((attempt : RttAttemptRecord) (plan : ExecutionPlan)
          → Reported key s attempt plan
          → is_created attempt.state ≡ true
          → P (
            ok (failed_plan f plan attempt),
            write_both (failed_plan f plan attempt) (failed_attempt f attempt) s,
          ))
      → P (apply_failure key f s)
  unfolding apply_failure failed_plan failed_attempt
  apply_failure_branches f written =
      reads_branches P (require_attempt key) _ s raised λ attempt found.
        guard_branches P _ _ _ s raised λ open_attempt.
          reads_branches P (require_plan attempt.plan_id) _ s raised λ plan held.
            settle_branches attempt _ plan _ found held refl refl
              λ reported. written attempt plan reported (not-eq_false _ open_attempt)

  pub apply_success_branches :
      (r : SuccessReport)
      → ((attempt : RttAttemptRecord) (plan : ExecutionPlan)
          → Reported key s attempt plan
          → is_created attempt.state ≡ true
          → P (
            ok (finalized_plan r plan attempt),
            write_both (finalized_plan r plan attempt) (succeeded_attempt r attempt) s,
          ))
      → P (apply_success key r s)
  unfolding apply_success finalized_plan succeeded_attempt
  apply_success_branches r written =
      reads_branches P (require_attempt key) _ s raised λ attempt found.
        guard_branches P _ _ _ s raised λ open_attempt.
          reads_branches P (require_plan attempt.plan_id) _ s raised λ plan held.
            settle_branches attempt _ plan _ found held refl refl
              λ reported. written attempt plan reported (not-eq_false _ open_attempt)

  resolved-ids :
      (how : Resolution) (r : SuccessReport) (plan : ExecutionPlan) (attempt : RttAttemptRecord)
      (u : ExecutionPlan × RttAttemptRecord)
      → resolved how r plan attempt ≡ ok u
      → (u.0.plan_id ≡ plan.plan_id) × (u.1.rtt_id ≡ attempt.rtt_id)
  unfolding resolved
  resolved-ids how r plan attempt u h = ground arith

  pub apply_resolution_branches :
      (how : Resolution) (r : SuccessReport)
      → ((attempt : RttAttemptRecord) (plan : ExecutionPlan) (u : ExecutionPlan × RttAttemptRecord)
          → Reported key s attempt plan
          → awaits_reconciliation attempt.state ≡ true
          → is_awaiting plan.status ≡ true
          → plan.current_rtt_id ≡ some r.rtt_id
          → resolved how r plan attempt ≡ ok u
          → P (ok u.0, write_both u.0 u.1 s))
      → P (apply_resolution key how r s)
  unfolding apply_resolution
  apply_resolution_branches how r written =
      reads_branches P (require_attempt key) _ s raised λ attempt found.
        guard_branches P _ _ _ s raised λ open_attempt.
          reads_branches P (require_plan attempt.plan_id) _ s raised λ plan held.
            guard_branches P _ _ _ s raised λ awaiting.
              lift_branches P (resolved how r plan attempt) _ s raised λ u made.
                let (same_plan, same_attempt) = resolved-ids how r plan attempt u made in
                settle_branches attempt u.1 plan u.0 found held same_attempt same_plan λ reported.
                  let (waits, current) = nor-eq_false _ _ awaiting in
                  written attempt plan u reported (not-eq_false _ open_attempt) waits
                    (is_current-eq plan.current_rtt_id r.rtt_id current) made
