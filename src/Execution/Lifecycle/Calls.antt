-- ===== src/Execution/Lifecycle/Calls.antt =====
-- Any sequence of calls of the two services of railone_execution/service.py, each of which may raise.
use railone_core.Prelude.{
  String, ◌≡◌, Bool, true, List, [], ◌∷◌, Option, some, Result, All, inl, inr, Option-cases,
}
use railone_core.Prelude.Int.{ℤ}
use railone_core.Prelude.Text.{strip}
use railone_core.Prelude.Equality.{string_eq}
use railone_core.Prelude.Dict.{lookup}
use railone_core.Crypto.Signatures.{SignatureEnvelope, SignatureService}
use railone_core.Contracts.Endpoints.{EndpointValidator}
use railone_core.Execution.Models.{Datetime, RouteCandidate, FailureDisposition, RttAttemptRecord}
use railone_core.Execution.Scoring.{RouteScoreWeights}
use railone_core.Execution.Store.{ExecutionStore}
use railone_core.Execution.Planning.{build_plan}
use railone_core.Execution.Attempts.{
  Resolution, start_next, record_failure, record_success, resolve_reconciliation,
}
use railone_core.Execution.Lifecycle.Invariant.{is_open, StoreIsValid}
use railone_core.Execution.Lifecycle.Reports.{
  record_failure-IsValid, record_success-IsValid, resolve_reconciliation-IsValid,
}
use railone_core.Execution.Lifecycle.Birth.{start_next-IsValid}
use railone_core.Execution.Lifecycle.Plans.{build_plan-IsValid}

pub data Call : Type 0 where
  build : RouteScoreWeights → String → List RouteCandidate → Datetime → Call
  start : String → Datetime → Call
  fail : String → String → FailureDisposition → ℤ → Datetime → Call
  succeed : String → ℤ → Datetime → Call
  resolve : String → Resolution → ℤ → Datetime → Call

-- A report names its attempt without surrounding blanks.
abbrev pub IsTrimmed : Call → Type 0
IsTrimmed (fail rtt_id _ _ _ _) = strip rtt_id ≡ rtt_id
IsTrimmed (succeed rtt_id _ _) = strip rtt_id ≡ rtt_id
IsTrimmed (resolve rtt_id _ _ _) = strip rtt_id ≡ rtt_id
IsTrimmed _ = Unit

abbrev pub empty_store : ExecutionStore
empty_store = record { plans = []; plan_by_utt = []; attempts = [] }

-- What the services are built with.
pub record Services : Type 0 where
  pub signatures : SignatureService
  pub require_utt : String → Result SignatureEnvelope
  pub endpoints : Option EndpointValidator
  pub allow_unverified : Bool
  pub signing_key_id : String

module _ (services : Services) where
  open services use {signatures, require_utt, endpoints, allow_unverified, signing_key_id}

  -- The store after one call: a call that raises leaves what it had written.
  unfoldable pub step : ExecutionStore → Call → ExecutionStore
  step s (build weights utt_id candidates at) =
      (build_plan signatures require_utt weights utt_id candidates at s).1
  step s (start utt_id at) =
      (start_next signatures require_utt endpoints allow_unverified signing_key_id utt_id at s).1
  step s (fail rtt_id code disposition cost at) =
      (record_failure rtt_id code disposition cost at s).1
  step s (succeed rtt_id cost at) = (record_success rtt_id cost at s).1
  step s (resolve rtt_id how cost at) = (resolve_reconciliation rtt_id how cost at s).1

  unfoldable pub serve : ExecutionStore → List Call → ExecutionStore
  unfolding step
  serve s [] = s
  serve s (c ∷ cs) = serve (step s c) cs

  pub step-IsValid :
      (s : ExecutionStore) (c : Call) → IsTrimmed c → StoreIsValid s → StoreIsValid (step s c)
  unfolding step
  step-IsValid s (build weights utt_id cs at) h v =
      build_plan-IsValid require_utt signatures weights s utt_id cs at v
  step-IsValid s (start utt_id at) h v =
      start_next-IsValid signatures require_utt endpoints allow_unverified signing_key_id s utt_id
        at v
  step-IsValid s (fail rtt_id code d cost at) h v =
      record_failure-IsValid s rtt_id h v code d cost at
  step-IsValid s (succeed rtt_id cost at) h v = record_success-IsValid s rtt_id h v cost at
  step-IsValid s (resolve rtt_id how cost at) h v =
      resolve_reconciliation-IsValid s rtt_id h v how cost at

  -- Whatever the calls, in whatever order and with whatever outcomes, they keep a valid store valid,
  -- if every report names its attempt without surrounding blanks: each plan and attempt stands under
  -- its own identifier, no plan passes its attempt limit, a plan's status fits its current attempt,
  -- and every attempt with an open outcome is the current one of its plan.
  pub serve-IsValid :
      (s : ExecutionStore) (cs : List Call)
      → All IsTrimmed cs
      → StoreIsValid s
      → StoreIsValid (serve s cs)
  unfolding serve
  serve-IsValid s [] h v = v
  serve-IsValid s (c ∷ cs) h v = serve-IsValid (step s c) cs h.1 (step-IsValid s c h.0 v)

pub empty_store-IsValid : StoreIsValid empty_store
unfolding lookup
empty_store-IsValid = record { plan_valid = λ k p h. cc; attempt_valid = λ k a h. cc }

-- In a valid store two attempts of one plan whose outcomes are both open are the same attempt.
pub open_attempt_unique :
    (s : ExecutionStore) (j k : String) (a b : RttAttemptRecord)
    → StoreIsValid s
    → lookup j s.attempts ≡ some a
    → lookup k s.attempts ≡ some b
    → a.plan_id ≡ b.plan_id
    → is_open a.state ≡ true
    → is_open b.state ≡ true
    → j ≡ k
open_attempt_unique s j k a b v held_a held_b same open_a open_b =
    elim (Option-cases (lookup a.plan_id s.plans)) [
      | inl missing ↦ absurd (rw missing at ((v.attempt_valid j a held_a).open_is_current open_a))
      | inr (p, found) ↦
          let first : p.current_rtt_id ≡ some j =
            rw found at ((v.attempt_valid j a held_a).open_is_current open_a) in
          let second : p.current_rtt_id ≡ some k =
            rw (← same, found) at ((v.attempt_valid k b held_b).open_is_current open_b) in
          cc (first, second)
    ]
