-- ===== src/Execution/Store.antt =====
-- railone_execution/store.py: `InMemoryExecutionStore`. `require_utt` is the contract store's.
use Prim.Native.String.{◌++◌ as append}
use railone_core.Prelude.{
  ℕ, String, Bool, true, false, not, ◌||◌, Option, none, some, Result, ok, err, value_error,
  runtime_error, key_error, plan_not_found, rtt_not_found, concurrent_plan_update, plan_conflict,
  or_raise, if◌then◌else◌,
}
use railone_core.Prelude.Equality.{◌==◌, string_eq, nat_eq}
use railone_core.Prelude.Dict.{Dict, lookup, insert}
use railone_core.Prelude.Exec.{Exec, pure, raise, lift, reads, raise_when, modify, ◌>>=◌, ◌>>◌}
use railone_core.Crypto.Signatures.{SignatureEnvelope}
use railone_core.Execution.Models.{ExecutionPlan, RttAttemptRecord}

pub record ExecutionStore : Type 0 where
  pub plans : Dict String ExecutionPlan
  pub plan_by_utt : Dict String String
  pub attempts : Dict String RttAttemptRecord

abbrev pub is_some {ℓ} : {A : Type ℓ} → Option A → Bool
is_some none = false
is_some (some a) = true

unfoldable pub require_plan : String → ExecutionStore → Result ExecutionPlan
require_plan plan_id s =
    or_raise (lookup plan_id s.plans) (plan_not_found (append "execution plan not found: " plan_id))

unfoldable pub require_attempt : String → ExecutionStore → Result RttAttemptRecord
require_attempt rtt_id s =
    or_raise (lookup rtt_id s.attempts) (rtt_not_found (append "RTT attempt not found: " rtt_id))

-- `self._plans[plan_id]`
unfoldable pub plan_at : String → ExecutionStore → Result ExecutionPlan
plan_at plan_id s = or_raise (lookup plan_id s.plans) (key_error plan_id)

unfoldable pub require_plan_for_utt : String → ExecutionStore → Result ExecutionPlan
unfolding plan_at
require_plan_for_utt utt_id s = elim (lookup utt_id s.plan_by_utt) [
  | none ↦ err (plan_not_found (append "execution plan not found for " utt_id))
  | some plan_id ↦ plan_at plan_id s
]

abbrev pub with_plan : ExecutionPlan → ExecutionStore → ExecutionStore
with_plan plan s = record s {
  plans = insert plan.plan_id plan s.plans;
  plan_by_utt = insert plan.utt_id plan.plan_id s.plan_by_utt;
}

-- What `create_plan` does with the plan identifier that the UTT has, if it has one.
unfoldable pub adopt_plan : ExecutionPlan → Option String → Exec ExecutionStore ExecutionPlan
unfolding plan_at
adopt_plan plan (some existing_id) =
    if existing_id == plan.plan_id
    then reads (plan_at existing_id)
    else raise (plan_conflict "UTT already has a different execution plan")
adopt_plan plan none = do
  held ← reads (λ s. ok (lookup plan.plan_id s.plans))
  raise_when (is_some held) (runtime_error "execution plan identifier collision")
  modify (with_plan plan)
  pure plan

module _ (require_utt : String → Result SignatureEnvelope) where
  -- An UTT keeps its first plan: the same plan again is answered from the store.
  unfoldable pub create_plan : ExecutionPlan → Exec ExecutionStore ExecutionPlan
  unfolding adopt_plan
  create_plan plan = do
    lift (require_utt plan.utt_id)
    existing ← reads (λ s. ok (lookup plan.utt_id s.plan_by_utt))
    adopt_plan plan existing

-- The plan that the compare-and-set replaces.
unfoldable pub current_plan : ℕ → ExecutionPlan → ExecutionStore → Result ExecutionPlan
current_plan previous_version plan s = elim (lookup plan.plan_id s.plans) [
  | none ↦ err (concurrent_plan_update "execution plan changed concurrently")
  | some current ↦
      if current.version == previous_version
      then ok current
      else err (concurrent_plan_update "execution plan changed concurrently")
]

abbrev pub write_both : ExecutionPlan → RttAttemptRecord → ExecutionStore → ExecutionStore
write_both plan attempt s = record s {
  attempts = insert attempt.rtt_id attempt s.attempts;
  plans = insert plan.plan_id plan s.plans;
}

module _ (require_utt : String → Result SignatureEnvelope) where
  unfoldable pub commit_start :
      ℕ → ExecutionPlan → RttAttemptRecord → Exec ExecutionStore (Unit {0})
  unfolding current_plan
  commit_start previous_version plan attempt = do
    lift (require_utt plan.utt_id)
    current ← reads (current_plan previous_version plan)
    raise_when (is_some current.current_rtt_id) (runtime_error "an RTT is already in flight")
    held ← reads (λ s. ok (lookup attempt.rtt_id s.attempts))
    raise_when (is_some held) (runtime_error "RTT identifier collision")
    raise_when (not (attempt.utt_id == plan.utt_id) || not (attempt.plan_id == plan.plan_id))
        (value_error "RTT lineage does not match execution plan")
    modify (write_both plan attempt)

-- `a != some b`, for an optional text
abbrev pub is_current : Option String → String → Bool
is_current none rtt_id = false
is_current (some r) rtt_id = r == rtt_id

unfoldable pub commit_transition :
    ℕ → ExecutionPlan → RttAttemptRecord → Exec ExecutionStore (Unit {0})
unfolding require_attempt current_plan
commit_transition previous_version plan attempt = do
  current ← reads (current_plan previous_version plan)
  reads (require_attempt attempt.rtt_id)
  raise_when (not (is_current current.current_rtt_id attempt.rtt_id))
      (runtime_error "RTT is not the current in-flight attempt")
  modify (write_both plan attempt)
