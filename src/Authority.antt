-- ===== src/Authority.antt =====
-- railone_authority: signed execution authority of the sender, and participation of the receiver.
-- Instants are microseconds since 1970 in UTC, as `astimezone` makes them.
pub mod Windows
mod Tests
use railone_core.Prelude.{
  ℕ, ◌-◌, String, Bool, true, false, not, List, [], ◌∷◌, Result, ok, err, value_error,
  permission_error, raise_if, and_then, leb, ltb,
}
use Prim.Native.String.{◌++◌ as append}
use railone_core.Prelude.Int.{ℤ, pos, leb_ℤ, pos_part}
use railone_core.Prelude.Text.{upper}
use railone_core.Prelude.Results.{◌>>=◌, ◌>>◌}
use railone_core.Crypto.Json.{
  Json, bool, int, text, object, Fields, field, fields_of, item, natural_at,
}
use railone_core.Crypto.Canonical.{content_id}
use railone_core.Crypto.Signatures.{SignatureEnvelope, SignatureService, ArtifactType}
use railone_core.Contracts.Validation.{require_text}
use railone_core.Execution.Models.{epoch_seconds}

pub data ReceiverParticipationMode : Type 0 where
  active_acceptance beneficiary_preauthorized directory_resolution : ReceiverParticipationMode
  internal_merchant_authority passive_credit : ReceiverParticipationMode

abbrev pub mode_value : ReceiverParticipationMode → String
mode_value active_acceptance = "ACTIVE_ACCEPTANCE"
mode_value beneficiary_preauthorized = "BENEFICIARY_PREAUTHORIZED"
mode_value directory_resolution = "DIRECTORY_RESOLUTION"
mode_value internal_merchant_authority = "INTERNAL_MERCHANT_AUTHORITY"
mode_value passive_credit = "PASSIVE_CREDIT"

abbrev pub receiver_confirmed : ReceiverParticipationMode → Bool
receiver_confirmed active_acceptance = true
receiver_confirmed _ = false

-- `MAX_AUTHORITY_SECONDS`
abbrev pub max_authority_seconds : ℕ
max_authority_seconds = 900

-- `_validate_window`, once both instants have a time zone.
unfoldable pub validate_window : ℕ → ℕ → Result (Unit {0})
validate_window issued expiry = do
  raise_if (leb expiry issued) (value_error "authority expiry must be after issuance")
  raise_if (ltb 900000000 (expiry - issued)) (value_error "authority window exceeds maximum TTL")

-- What `issue_sender_authority` is asked for.
pub record SenderAuthorization : Type 0 where
  pub utt_id : String
  pub quote_id : String
  pub sender_actor_type : String
  pub sender_reference : String
  pub amount_minor : ℤ
  pub currency : String
  pub origin_context : Json
  pub authorization_method : String
  pub authorization_reference : String
  pub signing_key_id : String
  pub authorized_at : ℕ
  pub expires_at : ℕ

-- What `issue_receiver_participation` is asked for.
pub record ReceiverParticipation : Type 0 where
  pub sender_authority : SignatureEnvelope
  pub receiver_actor_type : String
  pub receiver_reference : String
  pub participation_mode : ReceiverParticipationMode
  pub evidence_reference : String
  pub signing_key_id : String
  pub attested_at : ℕ
  pub expires_at : ℕ

unfoldable pub sender_core : SenderAuthorization → Result Fields
unfolding fields_of upper
sender_core a = do
  utt_id ← require_text "utt_id" a.utt_id
  quote_id ← require_text "quote_id" a.quote_id
  actor_type ← require_text "sender_actor_type" a.sender_actor_type
  reference ← require_text "sender_reference" a.sender_reference
  currency ← require_text "currency" a.currency
  method ← require_text "authorization_method" a.authorization_method
  authorization ← require_text "authorization_reference" a.authorization_reference
  ok (
      fields_of (
        ("utt_id", text utt_id)
        ∷ ("quote_id", text quote_id)
        ∷ ("sender_actor_type", text actor_type)
        ∷ ("sender_reference", text reference)
        ∷ ("amount_minor", int a.amount_minor)
        ∷ ("currency", text (upper currency))
        ∷ ("origin_context", a.origin_context)
        ∷ ("authorization_method", text method)
        ∷ ("authorization_reference", text authorization)
        ∷ ("authorized_at", int (pos (epoch_seconds a.authorized_at)))
        ∷ ("expires_at", int (pos (epoch_seconds a.expires_at)))
        ∷ ("authority_scope", text "EXECUTE_UTT")
        ∷ ("custody_model", text "NON_CUSTODIAL")
        ∷ ("status", text "ACTIVE")
        ∷ []))

unfoldable pub receiver_core : ReceiverParticipation → Result Fields
unfolding fields_of
receiver_core p = do
  let sender = p.sender_authority.payload
  utt_id ← item "utt_id" sender
  etk_s_id ← item "etk_s_id" sender
  actor_type ← require_text "receiver_actor_type" p.receiver_actor_type
  reference ← require_text "receiver_reference" p.receiver_reference
  evidence ← require_text "evidence_reference" p.evidence_reference
  amount ← item "amount_minor" sender
  currency ← item "currency" sender
  ok (
      fields_of (
        ("utt_id", utt_id)
        ∷ ("etk_s_id", etk_s_id)
        ∷ ("receiver_actor_type", text actor_type)
        ∷ ("receiver_reference", text reference)
        ∷ ("participation_mode", text (mode_value p.participation_mode))
        ∷ ("receiver_confirmed", bool (receiver_confirmed p.participation_mode))
        ∷ ("evidence_reference", text evidence)
        ∷ ("amount_minor", amount)
        ∷ ("currency", currency)
        ∷ ("attested_at", int (pos (epoch_seconds p.attested_at)))
        ∷ ("expires_at", int (pos (epoch_seconds p.expires_at)))
        ∷ ("custody_model", text "NON_CUSTODIAL")
        ∷ ("status", text "ACTIVE")
        ∷ []))

module _ (signatures : SignatureService) where
  -- The payload `{name: <id>, **core}`, signed.
  unfoldable pub sign_core :
      ArtifactType → String → String → Fields → String → ℕ → Result SignatureEnvelope
  sign_core kind name label core key_id at =
      signatures.sign_artifact kind
        (object (field name (text (content_id signatures.sha256_hex label (object core))) core))
        key_id at

  unfoldable pub issue_sender_authority : SenderAuthorization → Result SignatureEnvelope
  unfolding validate_window sender_core sign_core
  issue_sender_authority a = do
    validate_window a.authorized_at a.expires_at
    raise_if (leb_ℤ a.amount_minor (pos 0)) (value_error "amount_minor must be positive")
    core ← sender_core a
    sign_core ArtifactType.etk_s "etk_s_id" "ETKS" core a.signing_key_id a.authorized_at

  unfoldable pub issue_receiver_participation : ReceiverParticipation → Result SignatureEnvelope
  unfolding validate_window receiver_core sign_core
  issue_receiver_participation p = do
    let check = signatures.verify_artifact p.sender_authority ArtifactType.etk_s
    raise_if (not check.valid)
        (permission_error (append "sender authority rejected: " check.reason))
    validate_window p.attested_at p.expires_at
    sender_expiry ← natural_at "expires_at" p.sender_authority.payload
    raise_if (ltb sender_expiry (epoch_seconds p.expires_at))
        (value_error "ETK-R cannot outlive ETK-S")
    core ← receiver_core p
    sign_core ArtifactType.etk_r "etk_r_id" "ETKR" core p.signing_key_id p.attested_at
