-- ===== src/Execution/Lifecycle/Invariant.antt =====
-- The invariant of execution plans and their attempts, under one write of a plan with an attempt.
use mathlib.Core.Path.{subst₂, ◌∙◌}
use railone_core.Prelude.{
  ◌≤◌, String, ◌≡◌, refl, sym, Bool, true, false, ◌≢◌, Option, none, some, inl, inr, Bool-cases,
  Option-cases, arith,
}
use railone_core.Prelude.Equality.{◌==◌, string_eq}
use railone_core.Prelude.Dict.{
  Dict, lookup, insert, lookup-insert, lookup-insert_self, lookup-insert_cases,
}
use text.Mathlib.TextEquality.{eq_iff}
use railone_core.Execution.Models.{PlanStatus, AttemptState, ExecutionPlan, RttAttemptRecord}
use railone_core.Execution.Store.{ExecutionStore, write_both}

-- The attempt is stored, belongs to the plan and is in the state.
abbrev pub StandsAs : AttemptState → String → Option RttAttemptRecord → Type 0
StandsAs state plan_id none = ⊥
StandsAs state plan_id (some a) = (a.plan_id ≡ plan_id) × (a.state ≡ state)

-- What the status of a plan says of its current attempt: an active plan has none or one that is
-- under way, a plan that awaits reconciliation has the attempt to reconcile, any other has none.
abbrev pub InPhase : String → Dict String RttAttemptRecord → PlanStatus → Option String → Type 0
InPhase plan_id d PlanStatus.active none = Unit
InPhase plan_id d PlanStatus.active (some r) = StandsAs AttemptState.created plan_id (lookup r d)
InPhase plan_id d PlanStatus.reconciliation_required none = ⊥
InPhase plan_id d PlanStatus.reconciliation_required (some r) =
    StandsAs AttemptState.reconciliation_required plan_id (lookup r d)
InPhase plan_id d PlanStatus.failed none = Unit
InPhase plan_id d PlanStatus.failed (some r) = ⊥
InPhase plan_id d PlanStatus.exhausted none = Unit
InPhase plan_id d PlanStatus.exhausted (some r) = ⊥
InPhase plan_id d PlanStatus.finalized none = Unit
InPhase plan_id d PlanStatus.finalized (some r) = ⊥

pub record PlanIsValid (plan_id : String) (d : Dict String RttAttemptRecord) (p : ExecutionPlan)
    : Type 0 where
  pub own_id : p.plan_id ≡ plan_id
  pub within_limit : p.attempts_used ≤ p.max_attempts
  pub phase : InPhase plan_id d p.status p.current_rtt_id

-- The attempt's outcome is still open: it is under way or awaits reconciliation.
abbrev pub is_open : AttemptState → Bool
is_open AttemptState.created = true
is_open AttemptState.reconciliation_required = true
is_open _ = false

abbrev pub IsCurrentOf : String → Option ExecutionPlan → Type 0
IsCurrentOf rtt_id none = ⊥
IsCurrentOf rtt_id (some p) = p.current_rtt_id ≡ some rtt_id

pub record AttemptIsValid (rtt_id : String) (d : Dict String ExecutionPlan) (a : RttAttemptRecord)
    : Type 0 where
  pub own_id : a.rtt_id ≡ rtt_id
  pub open_is_current : is_open a.state ≡ true → IsCurrentOf rtt_id (lookup a.plan_id d)

-- Plans and attempts stand under their own identifiers; a plan's attempts stay within its limit and
-- its status fits its current attempt; an attempt with an open outcome is the current one of its
-- plan, so no plan has two of them.
pub record StoreIsValid (s : ExecutionStore) : Type 0 where
  pub plan_valid :
      (k : String) (p : ExecutionPlan) → lookup k s.plans ≡ some p → PlanIsValid k s.attempts p
  pub attempt_valid :
      (k : String) (a : RttAttemptRecord)
      → lookup k s.attempts ≡ some a
      → AttemptIsValid k s.plans a

-- Another attempt is written: the phase of a plan that has it not as its current one stays.
InPhase-insert :
    (k r : String) (a : RttAttemptRecord) (d : Dict String RttAttemptRecord) (status : PlanStatus)
    (current : Option String)
    → (current ≡ some r → ⊥)
    → InPhase k d status current
    → InPhase k (insert r a d) status current
InPhase-insert k r a d PlanStatus.active none other h = tt
InPhase-insert k r a d PlanStatus.active (some c) other h =
    ground (arith, lookup-insert r c a d, eq_iff r c, other)
InPhase-insert k r a d PlanStatus.reconciliation_required none other h = h
InPhase-insert k r a d PlanStatus.reconciliation_required (some c) other h =
    ground (arith, lookup-insert r c a d, eq_iff r c, other)
InPhase-insert k r a d PlanStatus.failed none other h = tt
InPhase-insert k r a d PlanStatus.failed (some c) other h = h
InPhase-insert k r a d PlanStatus.exhausted none other h = tt
InPhase-insert k r a d PlanStatus.exhausted (some c) other h = h
InPhase-insert k r a d PlanStatus.finalized none other h = tt
InPhase-insert k r a d PlanStatus.finalized (some c) other h = h

-- A current attempt is stored and belongs to its plan.
InPhase-stored :
    (k r : String) (d : Dict String RttAttemptRecord) (status : PlanStatus)
    → InPhase k d status (some r)
    → (a : RttAttemptRecord) × (lookup r d ≡ some a) × (a.plan_id ≡ k)
InPhase-stored k r d PlanStatus.active h = elim (Option-cases (lookup r d)) [
  | inl e ↦ absurd (rw e at h)
  | inr (a, e) ↦ (a, e, ground arith)
]
InPhase-stored k r d PlanStatus.reconciliation_required h = elim (Option-cases (lookup r d)) [
  | inl e ↦ absurd (rw e at h)
  | inr (a, e) ↦ (a, e, ground arith)
]
InPhase-stored k r d PlanStatus.failed h = absurd h
InPhase-stored k r d PlanStatus.exhausted h = absurd h
InPhase-stored k r d PlanStatus.finalized h = absurd h

-- What a write of `plan` with `attempt` over `old` must bring along.
pub record WriteIsSound (s : ExecutionStore) (old plan : ExecutionPlan) (attempt : RttAttemptRecord)
    : Type 0 where
  pub old_held : lookup plan.plan_id s.plans ≡ some old
  -- the plan's only open attempt is the one that is written
  pub old_current : (r : String) → old.current_rtt_id ≡ some r → r ≡ attempt.rtt_id
  -- no other plan has this attempt
  pub lineage :
      (a : RttAttemptRecord) → lookup attempt.rtt_id s.attempts ≡ some a → a.plan_id ≡ plan.plan_id
  pub within_limit : plan.attempts_used ≤ plan.max_attempts
  pub phase :
      InPhase plan.plan_id
        (insert attempt.rtt_id attempt s.attempts)
        plan.status
        plan.current_rtt_id
  pub same_plan : attempt.plan_id ≡ plan.plan_id
  pub open_is_current : is_open attempt.state ≡ true → plan.current_rtt_id ≡ some attempt.rtt_id

module _ (s : ExecutionStore) (old plan : ExecutionPlan) (attempt : RttAttemptRecord)
    (v : StoreIsValid s) (w : WriteIsSound s old plan attempt) where
  not_elsewhere :
      (k : String) (q : ExecutionPlan)
      → lookup k s.plans ≡ some q
      → plan.plan_id ≢ k
      → q.current_rtt_id ≡ some attempt.rtt_id
      → ⊥
  not_elsewhere k q held other current =
      let (a, stored, belongs) =
        InPhase-stored k attempt.rtt_id s.attempts q.status
          (rw current at ((v.plan_valid k q held).phase)) in
      other (sym (w.lineage a stored) ∙ belongs)

  write_both-plan :
      (k : String) (q : ExecutionPlan)
      → lookup k (write_both plan attempt s).plans ≡ some q
      → PlanIsValid k (write_both plan attempt s).attempts q
  write_both-plan k q held = elim (lookup-insert_cases plan.plan_id k plan q s.plans held) [
    | inl (same, written) ↦
        subst₂ (λ x y. PlanIsValid x (write_both plan attempt s).attempts y) same written
          (record { own_id = refl; within_limit = w.within_limit; phase = w.phase })
    | inr (other, before) ↦
        let valid = v.plan_valid k q before in
        record {
          own_id = valid.own_id;
          within_limit = valid.within_limit;
          phase =
              InPhase-insert k attempt.rtt_id attempt s.attempts q.status q.current_rtt_id
                (not_elsewhere k q before other) valid.phase;
        }
  ]

  -- The new attempt, if its outcome is open, is the plan's current one.
  written_is_current :
      is_open attempt.state ≡ true
      → IsCurrentOf attempt.rtt_id (lookup attempt.plan_id (insert plan.plan_id plan s.plans))
  written_is_current opened =
      rw (w.same_plan, lookup-insert_self plan.plan_id plan s.plans) (w.open_is_current opened)

  -- Any other open attempt belongs to another plan.
  others_are_current :
      (k : String) (a : RttAttemptRecord)
      → attempt.rtt_id ≢ k
      → IsCurrentOf k (lookup a.plan_id s.plans)
      → IsCurrentOf k (lookup a.plan_id (insert plan.plan_id plan s.plans))
  others_are_current k a other current =
      rw lookup-insert (elim (Bool-cases (plan.plan_id == a.plan_id)) [
        | inl same ↦ absurd (
            other (
              sym (
                w.old_current k
                  (rw (← (eq_iff plan.plan_id a.plan_id).0 same, w.old_held) at current))))
        | inr apart ↦ rw apart current
      ])

  write_both-attempt :
      (k : String) (a : RttAttemptRecord)
      → lookup k (write_both plan attempt s).attempts ≡ some a
      → AttemptIsValid k (write_both plan attempt s).plans a
  write_both-attempt k a held =
      elim (lookup-insert_cases attempt.rtt_id k attempt a s.attempts held) [
        | inl (same, written) ↦
            subst₂ (λ x y. AttemptIsValid x (write_both plan attempt s).plans y) same written
              (record { own_id = refl; open_is_current = written_is_current })
        | inr (other, before) ↦
            let valid = v.attempt_valid k a before in
            record {
              own_id = valid.own_id;
              open_is_current =
                  λ opened. others_are_current k a other (valid.open_is_current opened);
            }
      ]

  pub write_both-IsValid : StoreIsValid (write_both plan attempt s)
  write_both-IsValid = record { plan_valid = write_both-plan; attempt_valid = write_both-attempt }
