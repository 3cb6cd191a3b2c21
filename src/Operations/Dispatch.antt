-- ===== src/Operations/Dispatch.antt =====
-- `ProviderSubmissionCoordinator.dispatch` and `_complete` of railone_operations/service.py. An adapter
-- answers a request or raises; the requests that adapters were given are kept beside the store.
pub mod Once
pub mod Sends
pub mod AtMostOnce
pub mod Outcomes
pub mod Final
mod Tests
use railone_core.Prelude.{
  ℕ, ◌+◌, String, Bool, true, false, not, List, [], ◌∷◌, Option, none, some, Result, ok, err,
  value_error, not_dispatchable, and_then, raise_if,
}
use railone_core.Prelude.Int.{pos}
use railone_core.Prelude.Equality.{◌==◌, string_eq}
use railone_core.Prelude.Text.{upper}
use railone_core.Prelude.Exec.{Exec, pure, lift, raise_when, modify, on_part, ◌>>=◌, ◌>>◌}
use railone_core.Crypto.Json.{
  Json, null, bool, int, text, object, Fields, end, field, fields_of, optional_text,
}
use railone_core.Contracts.Validation.{require_text}
use railone_core.Execution.Models.{Datetime, require_aware}
use railone_core.Operations.Models.{
  ProviderOutcome, RejectionDisposition, ProviderExecutionRequest, ProviderSubmissionResult,
  ProviderSubmissionRecord, ProviderSubmissionState, OutboxRecord,
}
use railone_core.Operations.Store.{OperationsStore, transition}
use railone_core.Operations.Context.{provider_context}
use railone_core.Operations.Events.{submission_event}
use railone_core.Operations.Preparation.{Collaborators, prepare_submission}

pub record ProviderAdapter : Type 0 where
  pub provider_id : String
  pub supports_idempotency : Bool
  -- `submit`, which may raise
  pub submit : ProviderExecutionRequest → Option ProviderSubmissionResult

pub record Operation : Type 0 where
  pub operations : OperationsStore
  pub sent : List ProviderExecutionRequest

abbrev pub with_operations : Operation → OperationsStore → Operation
with_operations o s = record o { operations = s }

abbrev pub in_store {κ} : {A : Type κ} → Exec OperationsStore A → Exec Operation A
in_store m = on_part (λ o. o.operations) with_operations m

-- The state and the event of an outcome; only a rejection has a disposition.
unfoldable pub settled_state :
    ProviderOutcome → Option RejectionDisposition → Result (ProviderSubmissionState × String)
settled_state ProviderOutcome.rejected none =
    err (value_error "rejected provider outcome requires a disposition")
settled_state ProviderOutcome.rejected (some d) =
    ok (ProviderSubmissionState.rejected, "PROVIDER_SUBMISSION_REJECTED")
settled_state ProviderOutcome.accepted none =
    ok (ProviderSubmissionState.accepted, "PROVIDER_SUBMISSION_ACCEPTED")
settled_state ProviderOutcome.accepted (some d) =
    err (value_error "accepted provider outcome cannot have rejection disposition")
settled_state ProviderOutcome.unknown none =
    ok (ProviderSubmissionState.unknown, "PROVIDER_SUBMISSION_OUTCOME_UNKNOWN")
settled_state ProviderOutcome.unknown (some d) =
    err (value_error "unknown provider outcome cannot have rejection disposition")

abbrev pub outcome_value : ProviderOutcome → String
outcome_value ProviderOutcome.accepted = "ACCEPTED"
outcome_value ProviderOutcome.rejected = "REJECTED"
outcome_value ProviderOutcome.unknown = "UNKNOWN"

abbrev pub disposition_value : Option RejectionDisposition → Json
disposition_value none = null
disposition_value (some RejectionDisposition.retryable) = text "RETRYABLE"
disposition_value (some RejectionDisposition.terminal) = text "TERMINAL"

abbrev pub text_fields : List (String × String) → Fields
text_fields [] = end
text_fields ((k, v) ∷ rest) = field k (text v) (text_fields rest)

-- The submission once its outcome is known.
unfoldable pub completed_submission :
    ProviderSubmissionRecord
    → ProviderSubmissionResult
    → ProviderSubmissionState
    → String
    → List (String × String)
    → ℕ
    → ProviderSubmissionRecord
completed_submission r result state code context at = record r {
  state = state;
  normalized_code = some code;
  external_reference = result.external_reference;
  rejection_disposition = result.rejection_disposition;
  provider_context = context;
  version = r.version + 1;
  updated_at = at;
}

unfoldable pub completion_details :
    ProviderSubmissionResult → String → List (String × String) → Fields
unfolding fields_of
completion_details result code context = fields_of (
    ("outcome", text (outcome_value result.outcome))
    ∷ ("code", text code)
    ∷ ("external_reference", optional_text result.external_reference)
    ∷ ("rejection_disposition", disposition_value result.rejection_disposition)
    ∷ ("provider_context", object (text_fields context))
    ∷ [])

unfoldable pub dispatching_submission : ProviderSubmissionRecord → ℕ → ProviderSubmissionRecord
dispatching_submission r at = record r {
  state = ProviderSubmissionState.dispatching;
  dispatch_attempts = r.dispatch_attempts + 1;
  version = r.version + 1;
  updated_at = at;
}

abbrev pub is_final : ProviderSubmissionState → Bool
is_final ProviderSubmissionState.prepared = false
is_final ProviderSubmissionState.dispatching = false
is_final _ = true

abbrev pub is_dispatching : ProviderSubmissionState → Bool
is_dispatching ProviderSubmissionState.dispatching = true
is_dispatching _ = false

-- An answer that says nothing of what the provider did.
abbrev pub unknown_outcome : String → ProviderSubmissionResult
unknown_outcome code = record {
  outcome = ProviderOutcome.unknown;
  code = code;
  external_reference = none;
  rejection_disposition = none;
  provider_context = [];
}

-- The answer of an adapter; an exception leaves the outcome unknown.
abbrev pub answer_of : Option ProviderSubmissionResult → ProviderSubmissionResult
answer_of none = unknown_outcome "ADAPTER_EXCEPTION_OUTCOME_UNKNOWN"
answer_of (some result) = result

module _ (v : Collaborators) where
  -- The submission that an outcome makes, and the event that announces it.
  unfoldable pub drafted_completion :
      ProviderSubmissionRecord
      → ProviderSubmissionResult
      → ℕ
      → Result (ProviderSubmissionRecord × OutboxRecord)
  unfolding provider_context settled_state completed_submission completion_details
  drafted_completion r result at =
      and_then (require_text "provider result code" result.code) λ given.
        and_then (provider_context result.provider_context) λ context.
          and_then (settled_state result.outcome result.rejection_disposition) λ settled.
            let code = upper given in
            let updated = completed_submission r result settled.0 code context at in
            and_then
              (submission_event v.signatures v.event_signing_key_id updated settled.1
                (completion_details result code context) at)
              λ event. ok (updated, event)

  -- `_complete`
  unfoldable pub complete :
      ProviderSubmissionRecord
      → ProviderSubmissionResult
      → ℕ
      → Exec OperationsStore ProviderSubmissionRecord
  unfolding drafted_completion transition
  complete r result at = do
    drafted ← lift (drafted_completion r result at)
    transition r.version drafted.0 drafted.1
    pure drafted.0

  module _ (adapter : ProviderAdapter) where
    abbrev pub dispatch_details : ProviderSubmissionRecord → Fields
    dispatch_details r =
        field "dispatch_attempt" (int (pos r.dispatch_attempts))
          (field "provider_idempotency_supported" (bool adapter.supports_idempotency) end)

    -- The submission is marked as under way, and the request is handed to the adapter.
    unfoldable pub send :
        ProviderSubmissionRecord
        → ProviderExecutionRequest
        → ℕ
        → Exec Operation ProviderSubmissionResult
    unfolding dispatching_submission transition
    send r request at = do
      event ← lift (
          submission_event v.signatures v.event_signing_key_id (dispatching_submission r at)
            "PROVIDER_DISPATCH_STARTED" (dispatch_details (dispatching_submission r at)) at)
      in_store (transition r.version (dispatching_submission r at) event)
      modify (λ o. record o { sent = request ∷ o.sent })
      pure (answer_of (adapter.submit request))

    unfoldable pub send_and_complete :
        ProviderSubmissionRecord
        → ProviderExecutionRequest
        → ℕ
        → Exec Operation ProviderSubmissionRecord
    unfolding send complete
    send_and_complete r request at = do
      result ← send r request at
      in_store (complete (dispatching_submission r at) result at)

    -- A dispatch that was cut short is not repeated with a provider that might execute it twice.
    unfoldable pub resume :
        Bool
        → ProviderSubmissionRecord
        → ProviderExecutionRequest
        → ℕ
        → Exec Operation ProviderSubmissionRecord
    unfolding send_and_complete
    resume true r request at = send_and_complete r request at
    resume false r request at =
        in_store (complete r (unknown_outcome "NON_IDEMPOTENT_RECOVERY_BLOCKED") at)

    unfoldable pub proceed :
        ProviderSubmissionState
        → ProviderSubmissionRecord
        → ProviderExecutionRequest
        → ℕ
        → Exec Operation ProviderSubmissionRecord
    unfolding resume
    proceed ProviderSubmissionState.prepared r request at = send_and_complete r request at
    proceed ProviderSubmissionState.dispatching r request at =
        resume adapter.supports_idempotency r request at
    proceed _ r request at = pure r

    -- `dispatch`
    unfoldable pub dispatch : String → Datetime → Exec Operation ProviderSubmissionRecord
    unfolding prepare_submission proceed
    dispatch rtt_id at = do
      instant ← lift (require_aware "provider-operation timestamp" at)
      prepared ← in_store (prepare_submission v rtt_id at)
      raise_when (not (upper adapter.provider_id == prepared.0.provider_id))
          (not_dispatchable "adapter provider does not match RTT route")
      proceed prepared.0.state prepared.0 prepared.1 instant
