-- ===== src/Execution/Lifecycle/Tried.antt =====
-- A plan tries no route twice and numbers its attempts apart: the invariant under one write.
use mathlib.Core.Path.{subst, ◌∙◌}
use railone_core.Prelude.{
  ◌≤◌, String, ◌≡◌, sym, false, ◌⊎◌, Option, none, some, inl, inr, arith, Bool-cases,
}
use railone_core.Prelude.Equality.{◌==◌, string_eq}
use text.Mathlib.TextEquality.{eq_iff}
use railone_core.Prelude.Dict.{
  lookup, insert, lookup-insert, lookup-insert_self, lookup-insert_cases,
}
use railone_core.Execution.Models.{ExecutionPlan, RttAttemptRecord}
use railone_core.Execution.Store.{ExecutionStore, write_both, with_plan}
use railone_core.Execution.Lifecycle.Routes.{among}

-- The attempt is counted by its plan, and its route is no longer to be tried.
abbrev pub IsCounted : RttAttemptRecord → Option ExecutionPlan → Type 0
IsCounted a none = ⊥
IsCounted a (some p) =
    (among a.route_id p.remaining_route_ids ≡ false) × (a.attempt_number ≤ p.attempts_used)

-- Two attempts take the same route, or have the same number.
abbrev pub Clash : RttAttemptRecord → RttAttemptRecord → Type 0
Clash a b = (a.route_id ≡ b.route_id) ⊎ (a.attempt_number ≡ b.attempt_number)

pub record TriedIsValid (s : ExecutionStore) : Type 0 where
  pub counted :
      (k : String) (a : RttAttemptRecord)
      → lookup k s.attempts ≡ some a
      → IsCounted a (lookup a.plan_id s.plans)
  pub apart :
      (j k : String) (a b : RttAttemptRecord)
      → lookup j s.attempts ≡ some a
      → lookup k s.attempts ≡ some b
      → a.plan_id ≡ b.plan_id
      → Clash a b
      → j ≡ k

-- What a write of `plan` with `attempt` over `old` must bring along.
pub record WriteIsFair (s : ExecutionStore) (old plan : ExecutionPlan) (attempt : RttAttemptRecord)
    : Type 0 where
  pub old_held : lookup plan.plan_id s.plans ≡ some old
  pub same_plan : attempt.plan_id ≡ plan.plan_id
  pub shrinks :
      (r : String)
      → among r old.remaining_route_ids ≡ false
      → among r plan.remaining_route_ids ≡ false
  pub used_grows : old.attempts_used ≤ plan.attempts_used
  pub route_taken : among attempt.route_id plan.remaining_route_ids ≡ false
  pub number_fits : attempt.attempt_number ≤ plan.attempts_used
  pub others_apart :
      (k : String) (b : RttAttemptRecord)
      → lookup k s.attempts ≡ some b
      → b.plan_id ≡ plan.plan_id
      → Clash attempt b
      → attempt.rtt_id ≡ k

Clash-sym : (a b : RttAttemptRecord) → Clash a b → Clash b a
Clash-sym a b (inl h) = inl (sym h)
Clash-sym a b (inr h) = inr (sym h)

module _ (s : ExecutionStore) (old plan : ExecutionPlan) (attempt : RttAttemptRecord)
    (v : TriedIsValid s) (w : WriteIsFair s old plan attempt) where
  written-IsCounted : IsCounted attempt (lookup attempt.plan_id (insert plan.plan_id plan s.plans))
  written-IsCounted =
      rw (w.same_plan, lookup-insert_self plan.plan_id plan s.plans) (w.route_taken, w.number_fits)

  others-IsCounted :
      (a : RttAttemptRecord)
      → IsCounted a (lookup a.plan_id s.plans)
      → IsCounted a (lookup a.plan_id (insert plan.plan_id plan s.plans))
  others-IsCounted a h = rw lookup-insert (elim (Bool-cases (plan.plan_id == a.plan_id)) [
    | inl same ↦
        let before : IsCounted a (some old) =
          rw (← (eq_iff plan.plan_id a.plan_id).0 same, w.old_held) at h in
        rw same (w.shrinks a.route_id before.0, omega (arith, before.1, w.used_grows))
    | inr other ↦ rw other h
  ])

  write_both-IsCounted :
      (k : String) (a : RttAttemptRecord)
      → lookup k (insert attempt.rtt_id attempt s.attempts) ≡ some a
      → IsCounted a (lookup a.plan_id (insert plan.plan_id plan s.plans))
  write_both-IsCounted k a held =
      elim (lookup-insert_cases attempt.rtt_id k attempt a s.attempts held) [
        | inl (same, written) ↦
            subst (λ x. IsCounted x (lookup x.plan_id (insert plan.plan_id plan s.plans))) written
              written-IsCounted
        | inr (other, before) ↦ others-IsCounted a (v.counted k a before)
      ]

  write_both-apart :
      (j k : String) (a b : RttAttemptRecord)
      → lookup j (insert attempt.rtt_id attempt s.attempts) ≡ some a
      → lookup k (insert attempt.rtt_id attempt s.attempts) ≡ some b
      → a.plan_id ≡ b.plan_id
      → Clash a b
      → j ≡ k
  write_both-apart j k a b held_a held_b same clash =
      elim (lookup-insert_cases attempt.rtt_id j attempt a s.attempts held_a) [
        | inl (at_j, is_a) ↦
            elim (lookup-insert_cases attempt.rtt_id k attempt b s.attempts held_b) [
              | inl (at_k, is_b) ↦ sym at_j ∙ at_k
              | inr (_, before) ↦
                  sym at_j
                  ∙ w.others_apart k b before (cc (same, is_a, w.same_plan))
                      (subst (λ x. Clash x b) (sym is_a) clash)
            ]
        | inr (_, before_a) ↦
            elim (lookup-insert_cases attempt.rtt_id k attempt b s.attempts held_b) [
              | inl (at_k, is_b) ↦
                  sym (
                    w.others_apart j a before_a (cc (same, is_b, w.same_plan))
                      (Clash-sym a attempt (subst (λ x. Clash a x) (sym is_b) clash)))
                  ∙ at_k
              | inr (_, before_b) ↦ v.apart j k a b before_a before_b same clash
            ]
      ]

  pub write_both-Tried : TriedIsValid (write_both plan attempt s)
  write_both-Tried = record { counted = write_both-IsCounted; apart = write_both-apart }

-- A new plan takes no identifier that an attempt names.
pub with_plan-Tried :
    (s : ExecutionStore) (plan : ExecutionPlan)
    → lookup plan.plan_id s.plans ≡ none
    → TriedIsValid s
    → TriedIsValid (with_plan plan s)
with_plan-Tried s plan fresh v = record {
  counted = λ k a held. rw lookup-insert (elim (Bool-cases (plan.plan_id == a.plan_id)) [
    | inl same ↦
        absurd (rw (← (eq_iff plan.plan_id a.plan_id).0 same, fresh) at (v.counted k a held))
    | inr other ↦ rw other (v.counted k a held)
  ]);
  apart = v.apart;
}
