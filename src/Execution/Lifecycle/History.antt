-- ===== src/Execution/Lifecycle/History.antt =====
-- What the services of railone_execution/service.py never undo: attempts and plans are kept, what
-- identifies them stays, and what has ended stays as it ended.
use mathlib.Core.Path.{◌∙◌}
use railone_core.Prelude.{
  ◌≤◌, String, ◌≡◌, refl, ap, Bool, true, false, some, inl, inr, arith, Bool-cases,
}
use railone_core.Prelude.Equality.{◌==◌, string_eq}
use text.Mathlib.TextEquality.{eq_iff}
use railone_core.Prelude.Dict.{Dict, lookup, insert, lookup-insert}
use railone_core.Execution.Models.{PlanStatus, ExecutionPlan, RttAttemptRecord}
use railone_core.Execution.Store.{ExecutionStore}
use railone_core.Execution.Lifecycle.Invariant.{is_open}

-- An attempt as it may be found later: the same birth, and the same record once it has ended.
pub record LaterAttempt (a b : RttAttemptRecord) : Type 0 where
  pub same_utt : b.utt_id ≡ a.utt_id
  pub same_plan : b.plan_id ≡ a.plan_id
  pub same_number : b.attempt_number ≡ a.attempt_number
  pub same_route : b.route_id ≡ a.route_id
  pub same_signed : b.signed_rtt ≡ a.signed_rtt
  pub same_birth : b.created_at ≡ a.created_at
  pub ended : is_open a.state ≡ false → b ≡ a

-- The plan has ended: no attempt will follow.
abbrev pub has_ended : PlanStatus → Bool
has_ended PlanStatus.active = false
has_ended PlanStatus.reconciliation_required = false
has_ended _ = true

-- A plan as it may be found later.
pub record LaterPlan (p q : ExecutionPlan) : Type 0 where
  pub same_utt : q.utt_id ≡ p.utt_id
  pub same_routes : q.ranked_routes ≡ p.ranked_routes
  pub same_limit : q.max_attempts ≡ p.max_attempts
  pub same_budget : q.routing_budget_minor ≡ p.routing_budget_minor
  pub used_grows : p.attempts_used ≤ q.attempts_used
  pub spent_grows : p.routing_cost_spent_minor ≤ q.routing_cost_spent_minor
  pub version_grows : p.version ≤ q.version
  pub ended : has_ended p.status ≡ true → q ≡ p

pub LaterAttempt-refl : (a : RttAttemptRecord) → LaterAttempt a a
LaterAttempt-refl a = record {
  same_utt = refl;
  same_plan = refl;
  same_number = refl;
  same_route = refl;
  same_signed = refl;
  same_birth = refl;
  ended = λ _. refl;
}

pub LaterAttempt-trans :
    (a b c : RttAttemptRecord) → LaterAttempt a b → LaterAttempt b c → LaterAttempt a c
LaterAttempt-trans a b c h k = record {
  same_utt = k.same_utt ∙ h.same_utt;
  same_plan = k.same_plan ∙ h.same_plan;
  same_number = k.same_number ∙ h.same_number;
  same_route = k.same_route ∙ h.same_route;
  same_signed = k.same_signed ∙ h.same_signed;
  same_birth = k.same_birth ∙ h.same_birth;
  ended = λ e. k.ended (ap (λ (x : RttAttemptRecord). is_open x.state) (h.ended e) ∙ e) ∙ h.ended e;
}

pub LaterPlan-refl : (p : ExecutionPlan) → LaterPlan p p
LaterPlan-refl p = record {
  same_utt = refl;
  same_routes = refl;
  same_limit = refl;
  same_budget = refl;
  used_grows = omega arith;
  spent_grows = omega arith;
  version_grows = omega arith;
  ended = λ _. refl;
}

pub LaterPlan-trans : (p q r : ExecutionPlan) → LaterPlan p q → LaterPlan q r → LaterPlan p r
LaterPlan-trans p q r h k = record {
  same_utt = k.same_utt ∙ h.same_utt;
  same_routes = k.same_routes ∙ h.same_routes;
  same_limit = k.same_limit ∙ h.same_limit;
  same_budget = k.same_budget ∙ h.same_budget;
  used_grows = omega (arith, h.used_grows, k.used_grows);
  spent_grows = omega (arith, h.spent_grows, k.spent_grows);
  version_grows = omega (arith, h.version_grows, k.version_grows);
  ended = λ e. k.ended (ap (λ (x : ExecutionPlan). has_ended x.status) (h.ended e) ∙ e) ∙ h.ended e;
}

-- Everything that one dictionary holds is in the other, as it may be found later.
abbrev pub Keeps {ℓ κ} :
    {V : Type ℓ} → (V → V → Type κ) → Dict String V → Dict String V → Type (ℓ ⊔ κ)
Keeps R d e = (k : String) (v : _) → lookup k d ≡ some v → (w : _) × (lookup k e ≡ some w) × R v w

-- The second store is a later one.
pub record LaterStore (s t : ExecutionStore) : Type 0 where
  pub attempts_kept : Keeps LaterAttempt s.attempts t.attempts
  pub plans_kept : Keeps LaterPlan s.plans t.plans

pub LaterStore-refl : (s : ExecutionStore) → LaterStore s s
LaterStore-refl s = record {
  attempts_kept = λ k a h. (a, h, LaterAttempt-refl a);
  plans_kept = λ k p h. (p, h, LaterPlan-refl p);
}

pub LaterStore-trans : (s t u : ExecutionStore) → LaterStore s t → LaterStore t u → LaterStore s u
LaterStore-trans s t u h g = record {
  attempts_kept = λ k a held.
      let (b, found, first) = h.attempts_kept k a held in
      let (c, there, second) = g.attempts_kept k b found in
      (c, there, LaterAttempt-trans a b c first second);
  plans_kept = λ k p held.
      let (q, found, first) = h.plans_kept k p held in
      let (r, there, second) = g.plans_kept k q found in
      (r, there, LaterPlan-trans p q r first second);
}

-- A write keeps what a dictionary holds, if it replaces a value only by a later one.
pub Keeps-insert {ℓ κ} :
    {V : Type ℓ} (R : V → V → Type κ) (k : String) (w : V) (d : Dict String V)
    → ((v : V) → R v v)
    → ((v : V) → lookup k d ≡ some v → R v w)
    → Keeps R d (insert k w d)
Keeps-insert R k w d same later j v held = elim (Bool-cases (k == j)) [
  | inl at_key ↦
      (w, lookup-insert k j w d ∙ rw at_key refl, later v (rw ((eq_iff k j).0 at_key) held))
  | inr apart ↦ (v, lookup-insert k j w d ∙ rw apart held, same v)
]
