-- ===== src/Operations/Preparation.antt =====
-- `ProviderSubmissionCoordinator.prepare` of railone_operations/service.py. The contract store, the
-- execution store and the endpoint resolver are arguments, as the coordinator is given them.
use Prim.Native.String.{◌++◌ as append}
use railone_core.Prelude.{
  ℕ, String, not, [], ◌∷◌, none, Result, ok, runtime_error, permission_error, not_dispatchable,
  raise_if, and_then,
}
use railone_core.Prelude.Int.{pos}
use railone_core.Prelude.Equality.{◌==◌, string_eq}
use railone_core.Prelude.Text.{upper}
use railone_core.Prelude.Exec.{Exec, pure, lift, raise_when, ◌>>=◌, ◌>>◌}
use railone_core.Crypto.Json.{
  Json, int, text, object, field, end, fields_of, item, text_at, natural_at,
}
use railone_core.Crypto.Canonical.{canonical_json, same_json, content_id}
use railone_core.Crypto.Signatures.{SignatureEnvelope, SignatureService, ArtifactType}
use railone_core.Contracts.Validation.{require_text}
use railone_core.Execution.Models.{
  Datetime, require_aware, is_created, ExecutionPlan, RttAttemptRecord,
}
use railone_core.Execution.Store.{is_current}
use railone_core.Operations.Models.{
  ProviderExecutionRequest, ProviderSubmissionRecord, ProviderSubmissionState, OutboxRecord,
}
use railone_core.Operations.Store.{OperationsStore, prepare}
use railone_core.Operations.Events.{submission_event}

-- What the coordinator is given.
pub record Collaborators : Type 0 where
  pub signatures : SignatureService
  pub require_utt : String → Result SignatureEnvelope
  pub require_attempt : String → Result RttAttemptRecord
  pub require_plan : String → Result ExecutionPlan
  pub resolve_endpoint : String → String → Result String
  pub event_signing_key_id : String

-- `request_material`, the request without its hash.
unfoldable pub request_material : ProviderExecutionRequest → Json
unfolding fields_of
request_material q = object (
    fields_of (
      ("idempotency_key", text q.idempotency_key)
      ∷ ("utt_id", text q.utt_id)
      ∷ ("rtt_id", text q.rtt_id)
      ∷ ("attempt_number", int (pos q.attempt_number))
      ∷ ("provider_id", text q.provider_id)
      ∷ ("adapter_binding_ref", text q.adapter_binding_ref)
      ∷ ("rail", text q.rail)
      ∷ ("amount_minor", int (pos q.amount_minor))
      ∷ ("currency_from", text q.currency_from)
      ∷ ("receive_amount_minor", int (pos q.receive_amount_minor))
      ∷ ("currency_to", text q.currency_to)
      ∷ ("source_institution_id", text q.source_institution_id)
      ∷ ("destination_institution_id", text q.destination_institution_id)
      ∷ ("payer_account_reference", text q.payer_account_reference)
      ∷ ("beneficiary_account_reference", text q.beneficiary_account_reference)
      ∷ []))

-- The submission of a request that is stored first.
unfoldable pub new_submission : String → ProviderExecutionRequest → ℕ → ProviderSubmissionRecord
new_submission submission_id q at = record {
  submission_id = submission_id;
  idempotency_key = q.idempotency_key;
  request_sha256 = q.request_sha256;
  utt_id = q.utt_id;
  rtt_id = q.rtt_id;
  provider_id = q.provider_id;
  state = ProviderSubmissionState.prepared;
  dispatch_attempts = 0;
  normalized_code = none;
  external_reference = none;
  rejection_disposition = none;
  provider_context = [];
  version = 1;
  created_at = at;
  updated_at = at;
}

-- The stored submission with the request, if it was prepared for it.
unfoldable pub checked_request :
    ProviderExecutionRequest
    → ProviderSubmissionRecord
    → Exec OperationsStore (ProviderSubmissionRecord × ProviderExecutionRequest)
checked_request request stored = do
  raise_when (not (stored.request_sha256 == request.request_sha256))
      (runtime_error "prepared provider request does not match stored record")
  pure (stored, request)

module _ (v : Collaborators) where
  -- The attempt that may be submitted: created, and the current one of its plan.
  unfoldable pub submittable_attempt : String → Result RttAttemptRecord
  submittable_attempt rtt_id = and_then (require_text "rtt_id" rtt_id) λ key.
      and_then (v.require_attempt key) λ attempt.
        and_then
          (raise_if (not (is_created attempt.state))
            (not_dispatchable "only a current CREATED RTT can be prepared"))
          λ _. and_then (v.require_plan attempt.plan_id) λ plan.
            and_then
              (raise_if (not (is_current plan.current_rtt_id rtt_id))
                (not_dispatchable "RTT is not the current plan attempt"))
              λ _. ok attempt

  -- The payload of the attempt's UTT, once both signatures hold and the RTT binds the UTT.
  unfoldable pub bound_utt : RttAttemptRecord → Result Json
  unfolding same_json
  bound_utt attempt =
      let rtt_check = v.signatures.verify_artifact attempt.signed_rtt ArtifactType.rtt in
      and_then
        (raise_if (not rtt_check.valid)
          (permission_error (append "RTT rejected: " rtt_check.reason)))
        λ _. and_then (v.require_utt attempt.utt_id) λ signed_utt.
          let utt_check = v.signatures.verify_artifact signed_utt ArtifactType.utt in
          and_then
            (raise_if (not utt_check.valid)
              (permission_error (append "UTT rejected: " utt_check.reason)))
            λ _. and_then (item "utt_payload_sha256" attempt.signed_rtt.payload) λ bound.
              and_then (item "payload_sha256" signed_utt.protected) λ persisted.
                and_then
                  (raise_if (not (same_json bound persisted))
                    (permission_error "RTT does not bind the persisted UTT payload"))
                  λ _. ok signed_utt.payload

  -- The institution and the binding of an endpoint, and the reference that they resolve to.
  abbrev pub resolved_party : Json → Result (String × String)
  resolved_party endpoint = and_then (text_at "institution_id" endpoint) λ institution.
      and_then (text_at "account_binding_id" endpoint) λ binding.
        and_then (v.resolve_endpoint institution binding) λ reference. ok (institution, reference)

  abbrev pub endpoint_of_party : String → Json → Result Json
  endpoint_of_party party utt = and_then (item party utt) (item "endpoint")

  abbrev with_hash : ProviderExecutionRequest → ProviderExecutionRequest
  with_hash q = record q {
    request_sha256 = v.signatures.sha256_hex (canonical_json (request_material q));
  }

  -- The request that an attempt and its UTT determine.
  unfoldable pub execution_request :
      String → RttAttemptRecord → Json → Result ProviderExecutionRequest
  unfolding request_material fields_of upper
  execution_request rtt_id attempt utt = and_then (item "route" attempt.signed_rtt.payload) λ route.
      and_then (text_at "provider" route) λ given.
        and_then (require_text "provider" given) λ stripped.
          let provider_id = upper stripped in
          let key = content_id v.signatures.sha256_hex "R1IDEM" (
            object (
              fields_of (
                ("domain", text "RAILONE-PROVIDER-SUBMISSION-V1")
                ∷ ("provider_id", text provider_id)
                ∷ ("rtt_id", text rtt_id)
                ∷ []))) in
          and_then (endpoint_of_party "payer" utt) λ payer_endpoint.
            and_then (endpoint_of_party "beneficiary" utt) λ beneficiary_endpoint.
              and_then (resolved_party payer_endpoint) λ payer.
                and_then (resolved_party beneficiary_endpoint) λ beneficiary.
                  and_then (text_at "adapter" route) λ adapter.
                    and_then (text_at "rail" route) λ rail.
                      and_then (natural_at "amount_minor" utt) λ amount.
                        and_then (text_at "currency_from" utt) λ currency_from.
                          and_then (natural_at "receive_amount_minor" utt) λ receive.
                            and_then (text_at "currency_to" utt) λ currency_to. ok (
                              with_hash (record {
                                idempotency_key = key;
                                request_sha256 = "";
                                utt_id = attempt.utt_id;
                                rtt_id = rtt_id;
                                attempt_number = attempt.attempt_number;
                                provider_id = provider_id;
                                adapter_binding_ref = adapter;
                                rail = rail;
                                amount_minor = amount;
                                currency_from = currency_from;
                                receive_amount_minor = receive;
                                currency_to = currency_to;
                                source_institution_id = payer.0;
                                destination_institution_id = beneficiary.0;
                                payer_account_reference = payer.1;
                                beneficiary_account_reference = beneficiary.1;
                              }))

  unfoldable pub submission_id_of : ProviderExecutionRequest → String
  unfolding fields_of
  submission_id_of q = content_id v.signatures.sha256_hex "SUB" (
      object
        (fields_of (("rtt_id", text q.rtt_id) ∷ ("request_sha256", text q.request_sha256) ∷ [])))

  -- The submission and the event that announces it.
  unfoldable pub drafted_submission :
      ProviderExecutionRequest → ℕ → Result (ProviderSubmissionRecord × OutboxRecord)
  unfolding new_submission submission_id_of
  drafted_submission q at =
      let r = new_submission (submission_id_of q) q at in
      and_then
        (submission_event v.signatures v.event_signing_key_id r "PROVIDER_SUBMISSION_PREPARED"
          (field "request_sha256" (text q.request_sha256) end) at)
        λ event. ok (r, event)

  -- `prepare`
  unfoldable pub prepare_submission :
      String → Datetime → Exec OperationsStore (ProviderSubmissionRecord × ProviderExecutionRequest)
  unfolding submittable_attempt bound_utt execution_request drafted_submission prepare
      checked_request
  prepare_submission rtt_id at = do
    instant ← lift (require_aware "provider-operation timestamp" at)
    attempt ← lift (submittable_attempt rtt_id)
    utt ← lift (bound_utt attempt)
    request ← lift (execution_request rtt_id attempt utt)
    drafted ← lift (drafted_submission request instant)
    stored ← prepare drafted.0 drafted.1
    checked_request request stored
