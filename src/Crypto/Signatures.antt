-- ===== src/Crypto/Signatures.antt =====
-- The signature boundary of railone_crypto/signature_service.py, as its clients use it.
use railone_core.Prelude.{ℕ, String, Bool, Result}
use railone_core.Crypto.Json.{Json}

pub data ArtifactType : Type 0 where
  quote utt rtt etk_s etk_r execution_event identity_attestation settlement_evidence : ArtifactType
  replay_checkpoint api_request_audit institution_capability_manifest : ArtifactType
  partner_certification_report : ArtifactType

pub record SignatureEnvelope : Type 0 where
  pub protected : Json
  pub payload : Json
  pub signature : String

pub record VerificationResult : Type 0 where
  pub valid : Bool
  pub reason : String

-- `sign_artifact` takes the payload, the key and the instant; `verify_artifact` the expected type.
pub record SignatureService : Type 0 where
  pub sign_artifact : ArtifactType → Json → String → ℕ → Result SignatureEnvelope
  pub verify_artifact : SignatureEnvelope → ArtifactType → VerificationResult
  -- `hashlib.sha256(...).hexdigest()` of a text's UTF-8 bytes
  pub sha256_hex : String → String
