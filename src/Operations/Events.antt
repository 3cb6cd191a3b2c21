-- ===== src/Operations/Events.antt =====
-- `ProviderSubmissionCoordinator._event` of railone_operations/service.py.
use railone_core.Prelude.{ℕ, String, [], ◌∷◌, none, Result, ok, and_then}
use railone_core.Prelude.Int.{pos}
use railone_core.Crypto.Json.{int, text, object, Fields, field, fields_of}
use railone_core.Crypto.Canonical.{content_id}
use railone_core.Crypto.Signatures.{SignatureEnvelope, SignatureService, ArtifactType}
use railone_core.Execution.Models.{epoch_seconds}
use railone_core.Operations.Models.{ProviderSubmissionRecord, OutboxRecord, OutboxDeliveryState}

-- The members of an event, but for its identifier.
unfoldable pub event_core : ProviderSubmissionRecord → String → Fields → ℕ → Fields
unfolding fields_of
event_core r event_type details at = fields_of (
    ("event_type", text event_type)
    ∷ ("aggregate_type", text "PROVIDER_SUBMISSION")
    ∷ ("aggregate_id", text r.submission_id)
    ∷ ("utt_id", text r.utt_id)
    ∷ ("rtt_id", text r.rtt_id)
    ∷ ("provider_id", text r.provider_id)
    ∷ ("submission_version", int (pos r.version))
    ∷ ("data", object details)
    ∷ ("occurred_at", int (pos (epoch_seconds at)))
    ∷ [])

unfoldable pub outbox_row :
    String → ProviderSubmissionRecord → String → SignatureEnvelope → ℕ → OutboxRecord
outbox_row event_id r event_type signed at = record {
  event_id = event_id;
  aggregate_type = "PROVIDER_SUBMISSION";
  aggregate_id = r.submission_id;
  event_type = event_type;
  signed_event = signed;
  delivery_state = OutboxDeliveryState.pending;
  delivery_attempts = 0;
  available_at = at;
  lease_owner = none;
  lease_until = none;
  last_error = none;
  published_at = none;
  version = 1;
  created_at = at;
  updated_at = at;
}

module _ (signatures : SignatureService) (event_signing_key_id : String) where
  -- `_event`
  unfoldable pub submission_event :
      ProviderSubmissionRecord → String → Fields → ℕ → Result OutboxRecord
  unfolding event_core outbox_row
  submission_event r event_type details at =
      let core = event_core r event_type details at in
      let event_id = content_id signatures.sha256_hex "EVT" (object core) in
      and_then
        (signatures.sign_artifact ArtifactType.execution_event
          (object (field "event_id" (text event_id) core)) event_signing_key_id at)
        λ signed. ok (outbox_row event_id r event_type signed at)
