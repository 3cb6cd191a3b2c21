-- ===== src/Operations/Models.antt =====
-- railone_operations/models.py. Instants are microseconds since 1970 in UTC.
use railone_core.Prelude.{ℕ, String, Bool, true, false, List, Option}
use railone_core.Crypto.Signatures.{SignatureEnvelope}

pub data ProviderSubmissionState : Type 0 where
  prepared dispatching accepted rejected unknown : ProviderSubmissionState

pub data ProviderOutcome : Type 0 where
  accepted rejected unknown : ProviderOutcome

pub data RejectionDisposition : Type 0 where
  retryable terminal : RejectionDisposition

pub data OutboxDeliveryState : Type 0 where
  pending in_flight published dead_letter : OutboxDeliveryState

abbrev pub is_pending : OutboxDeliveryState → Bool
is_pending OutboxDeliveryState.pending = true
is_pending _ = false

abbrev pub is_in_flight : OutboxDeliveryState → Bool
is_in_flight OutboxDeliveryState.in_flight = true
is_in_flight _ = false

pub record ProviderExecutionRequest : Type 0 where
  pub idempotency_key : String
  pub request_sha256 : String
  pub utt_id : String
  pub rtt_id : String
  pub attempt_number : ℕ
  pub provider_id : String
  pub adapter_binding_ref : String
  pub rail : String
  pub amount_minor : ℕ
  pub currency_from : String
  pub receive_amount_minor : ℕ
  pub currency_to : String
  pub source_institution_id : String
  pub destination_institution_id : String
  pub payer_account_reference : String
  pub beneficiary_account_reference : String

pub record ProviderSubmissionResult : Type 0 where
  pub outcome : ProviderOutcome
  pub code : String
  pub external_reference : Option String
  pub rejection_disposition : Option RejectionDisposition
  pub provider_context : List (String × String)

pub record ProviderSubmissionRecord : Type 0 where
  pub submission_id : String
  pub idempotency_key : String
  pub request_sha256 : String
  pub utt_id : String
  pub rtt_id : String
  pub provider_id : String
  pub state : ProviderSubmissionState
  pub dispatch_attempts : ℕ
  pub normalized_code : Option String
  pub external_reference : Option String
  pub rejection_disposition : Option RejectionDisposition
  pub provider_context : List (String × String)
  pub version : ℕ
  pub created_at : ℕ
  pub updated_at : ℕ

pub record OutboxRecord : Type 0 where
  pub event_id : String
  pub aggregate_type : String
  pub aggregate_id : String
  pub event_type : String
  pub signed_event : SignatureEnvelope
  pub delivery_state : OutboxDeliveryState
  pub delivery_attempts : ℕ
  pub available_at : ℕ
  pub lease_owner : Option String
  pub lease_until : Option ℕ
  pub last_error : Option String
  pub published_at : Option ℕ
  pub version : ℕ
  pub created_at : ℕ
  pub updated_at : ℕ
