-- ===== src/Crypto/Signing.antt =====
-- `SignatureService` of railone_crypto/signature_service.py over the key provider. An `iat` that is no
-- instant of a `datetime` is not told from one outside a key's validity.
pub mod Verified
pub mod Accepted
mod Tests
use Prim.Native.String.{◌++◌ as append}
use railone_core.Prelude.{
  ℕ, ◌*◌, String, Bool, true, false, not, ◌&&◌, ◌||◌, List, [], ◌∷◌, Option, none, some, Result, ok,
  err, key_error, permission_error, raise_if, or_raise, and_then, leb, ltb, nat_beq,
}
use railone_core.Prelude.Int.{ℤ, pos, negsuc}
use railone_core.Prelude.Text.{is_empty}
use railone_core.Prelude.Equality.{◌==◌, string_eq}
use railone_core.Prelude.Dict.{Dict, lookup}
use railone_core.Crypto.Json.{Json, int, text, object, fields_of, claim, claimed_text, claimed_int}
use railone_core.Crypto.Canonical.{canonical_json}
use railone_core.Crypto.Signatures.{
  ArtifactType, SignatureEnvelope, VerificationResult, SignatureService,
}
use railone_core.Crypto.Keys.{
  KeyPurpose, purpose_name, is_revoked_key, KeyRecord, permits_signing_at, Ed25519, KeyProvider,
  sign_message,
}
use railone_core.Execution.Models.{epoch_seconds}

abbrev pub artifact_value : ArtifactType → String
artifact_value ArtifactType.quote = "railone.quote"
artifact_value ArtifactType.utt = "railone.utt"
artifact_value ArtifactType.rtt = "railone.rtt"
artifact_value ArtifactType.etk_s = "railone.etk_s"
artifact_value ArtifactType.etk_r = "railone.etk_r"
artifact_value ArtifactType.execution_event = "railone.execution_event"
artifact_value ArtifactType.identity_attestation = "railone.identity_attestation"
artifact_value ArtifactType.settlement_evidence = "railone.settlement_evidence"
artifact_value ArtifactType.replay_checkpoint = "railone.replay_checkpoint"
artifact_value ArtifactType.api_request_audit = "railone.api_request_audit"
artifact_value ArtifactType.institution_capability_manifest =
    "railone.institution_capability_manifest"
artifact_value ArtifactType.partner_certification_report = "railone.partner_certification_report"

abbrev artifacts : List ArtifactType → Dict String ArtifactType
artifacts [] = []
artifacts (a ∷ rest) = (artifact_value a, a) ∷ artifacts rest

-- `ArtifactType(value)`, nothing where it raises
unfoldable pub artifact_of : String → Option ArtifactType
unfolding lookup
artifact_of value = lookup value (
    artifacts (
      ArtifactType.quote ∷ ArtifactType.utt ∷ ArtifactType.rtt ∷ ArtifactType.etk_s
      ∷ ArtifactType.etk_r ∷ ArtifactType.execution_event ∷ ArtifactType.identity_attestation
      ∷ ArtifactType.settlement_evidence ∷ ArtifactType.replay_checkpoint
      ∷ ArtifactType.api_request_audit ∷ ArtifactType.institution_capability_manifest
      ∷ ArtifactType.partner_certification_report ∷ []))

-- `_PURPOSE_BY_ARTIFACT`
abbrev pub required_purpose : ArtifactType → KeyPurpose
required_purpose ArtifactType.quote = KeyPurpose.quote_signing
required_purpose ArtifactType.identity_attestation = KeyPurpose.identity_signing
required_purpose ArtifactType.settlement_evidence = KeyPurpose.settlement_signing
required_purpose ArtifactType.replay_checkpoint = KeyPurpose.replay_signing
required_purpose ArtifactType.api_request_audit = KeyPurpose.api_audit_signing
required_purpose _ = KeyPurpose.execution_signing

abbrev pub has_purpose : KeyRecord → ArtifactType → Bool
has_purpose r kind = purpose_name r.purpose == purpose_name (required_purpose kind)

-- `_signing_input`
unfoldable pub signing_input : Json → Json → String
unfolding fields_of canonical_json
signing_input protected payload =
    append "RAILONE-SIGNED-ARTIFACT-V1\0"
      (canonical_json (object (fields_of (("protected", protected) ∷ ("payload", payload) ∷ []))))

abbrev pub is_text : String → Option Json → Bool
is_text expected (some (text s)) = s == expected
is_text expected _ = false

abbrev pub is_one : Option ℤ → Bool
is_one (some (pos n)) = nat_beq n 1
is_one _ = false

abbrev pub is_expected : Option ArtifactType → ArtifactType → Bool
is_expected none kind = true
is_expected (some expected) kind = artifact_value kind == artifact_value expected

abbrev pub is_valid_at : KeyRecord → ℤ → Bool
is_valid_at r (pos seconds) =
    leb r.not_before (seconds * 1000000) && ltb (seconds * 1000000) r.not_after
is_valid_at r (negsuc _) = false

abbrev pub refused : String → VerificationResult
refused reason = record { valid = false; reason = reason }

-- `if test: return VerificationResult(False, reason)`
abbrev pub refuse_if : Bool → String → VerificationResult → VerificationResult
refuse_if true reason rest = refused reason
refuse_if false reason rest = rest

module _ (curve : Ed25519) (sha256_hex : String → String) (keys : KeyProvider) where
  unfoldable pub protected_header : KeyRecord → ArtifactType → Json → ℕ → Json
  unfolding fields_of canonical_json
  protected_header r kind payload at = object (
      fields_of (
        ("alg", text "EdDSA")
        ∷ ("crv", text "Ed25519")
        ∷ ("kid", text r.key_id)
        ∷ ("iss", text r.owner_id)
        ∷ ("typ", text (artifact_value kind))
        ∷ ("v", int (pos 1))
        ∷ ("iat", int (pos (epoch_seconds at)))
        ∷ ("payload_sha256", text (sha256_hex (canonical_json payload)))
        ∷ []))

  unfoldable pub sign_artifact : ArtifactType → Json → String → ℕ → Result SignatureEnvelope
  unfolding protected_header signing_input sign_message
  sign_artifact kind payload key_id at =
      and_then
        (or_raise (lookup key_id keys.records) (key_error (append "unknown signing key: " key_id)))
        λ r.
          and_then
            (raise_if (not (has_purpose r kind)) (
              permission_error (
                append "key purpose " (
                  append (purpose_name r.purpose) (append " cannot sign " (artifact_value kind))))))
            λ _.
              and_then
                (raise_if (not (permits_signing_at r at))
                  (permission_error "key is not active for the requested issue time"))
                λ _.
                  let protected = protected_header r kind payload at in
                  and_then (sign_message curve keys key_id (signing_input protected payload))
                    λ signature.
                      ok
                        (record { protected = protected; payload = payload; signature = signature })

  -- The checks from the instant of issuance on.
  unfoldable pub verify_issued : SignatureEnvelope → KeyRecord → Option ℤ → VerificationResult
  unfolding signing_input
  verify_issued e r none = refused "ISSUED_AT_INVALID"
  verify_issued e r (some issued) =
      refuse_if (not (is_valid_at r issued)) "KEY_NOT_VALID_AT_ISSUANCE" (
        refuse_if
          (not
            (is_text (sha256_hex (canonical_json e.payload)) (claim "payload_sha256" e.protected)))
          "PAYLOAD_HASH_MISMATCH"
          (refuse_if
            (not (curve.verify_with r.public_key e.signature (signing_input e.protected e.payload)))
            "SIGNATURE_INVALID" (record { valid = true; reason = "VALID" })))

  -- The checks of a header against its key.
  unfoldable pub verify_signed :
      Bool → SignatureEnvelope → ArtifactType → Option KeyRecord → VerificationResult
  unfolding verify_issued
  verify_signed accept_revoked e kind none = refused "KEY_NOT_FOUND"
  verify_signed accept_revoked e kind (some r) =
      refuse_if (not (is_text r.owner_id (claim "iss" e.protected))) "ISSUER_MISMATCH" (
        refuse_if (not (has_purpose r kind)) "KEY_PURPOSE_MISMATCH" (
          refuse_if (is_revoked_key r.status && not accept_revoked) "KEY_REVOKED"
            (verify_issued e r (claimed_int (claim "iat" e.protected)))))

  unfoldable pub verify_kind :
      Bool → Option ArtifactType → SignatureEnvelope → Option ArtifactType → VerificationResult
  unfolding verify_signed
  verify_kind accept_revoked expected e none = refused "ARTIFACT_TYPE_INVALID"
  verify_kind accept_revoked expected e (some kind) =
      refuse_if (not (is_expected expected kind)) "ARTIFACT_TYPE_MISMATCH" (
        verify_signed accept_revoked e kind
          (lookup (claimed_text (claim "kid" e.protected)) keys.records))

  unfoldable pub verify_artifact :
      Bool → Option ArtifactType → SignatureEnvelope → VerificationResult
  unfolding verify_kind artifact_of
  verify_artifact accept_revoked expected e =
      refuse_if
        (not (
          is_text "EdDSA" (claim "alg" e.protected) && is_text "Ed25519" (claim "crv" e.protected)))
        "UNSUPPORTED_ALGORITHM"
        (refuse_if (not (is_one (claimed_int (claim "v" e.protected))))
          "UNSUPPORTED_SIGNATURE_VERSION"
          (refuse_if (is_empty (claimed_text (claim "kid" e.protected))) "KEY_ID_MISSING" (
            verify_kind accept_revoked expected e
              (artifact_of (claimed_text (claim "typ" e.protected))))))

  -- The service as its clients use it.
  abbrev pub signature_service : SignatureService
  signature_service = record {
    sign_artifact = sign_artifact;
    verify_artifact = λ e kind. verify_artifact false (some kind) e;
    sha256_hex = sha256_hex;
  }
