-- ===== src/Crypto/Signing/Accepted.antt =====
-- What an envelope is that railone_crypto/signature_service.py accepts.
use mathlib.Core.Path.{◌∙◌, subst}
use railone_core.Prelude.{
  some-injective, sym, ap, String, ◌≡◌, refl, Bool, true, false, not, ◌&&◌, Option, none, some,
  not-eq_false,
}
use railone_core.Prelude.Int.{ℤ}
use railone_core.Prelude.Equality.{string_eq}
use railone_core.Prelude.Dict.{lookup}
use railone_core.Crypto.Json.{claim, claimed_text, claimed_int}
use railone_core.Crypto.Canonical.{canonical_json}
use railone_core.Crypto.Signatures.{ArtifactType, SignatureEnvelope, VerificationResult}
use railone_core.Crypto.Keys.{is_revoked_key, KeyRecord, Ed25519, KeyProvider}
use railone_core.Crypto.Signing.Verified.{artifact_of-value}
use railone_core.Prelude.Text.{is_empty}
use railone_core.Crypto.Signing.{
  is_one, artifact_value, artifact_of, has_purpose, signing_input, is_text, is_expected,
  is_valid_at, refuse_if, verify_issued, verify_signed, verify_kind, verify_artifact,
}

refuse_if-valid :
    (b : Bool) (reason : String) (rest : VerificationResult)
    → (refuse_if b reason rest).valid ≡ true
    → (b ≡ false) × (rest.valid ≡ true)
refuse_if-valid true reason rest h = cc
refuse_if-valid false reason rest h = (refl, h)

module _ (curve : Ed25519) (sha256_hex : String → String) (keys : KeyProvider) where
  -- The key that the header names is of the issuer and for the type, is not revoked and was valid at the
  -- issuance; the header holds the payload's hash, and the signature is of both.
  pub record IsAccepted (kind : ArtifactType) (e : SignatureEnvelope) : Type 0 where
    pub key : KeyRecord
    pub issued : ℤ
    pub typ : artifact_of (claimed_text (claim "typ" e.protected)) ≡ some kind
    pub found : lookup (claimed_text (claim "kid" e.protected)) keys.records ≡ some key
    pub issuer : is_text key.owner_id (claim "iss" e.protected) ≡ true
    pub purpose : has_purpose key kind ≡ true
    pub not_revoked : is_revoked_key key.status ≡ false
    pub issued_at : claimed_int (claim "iat" e.protected) ≡ some issued
    pub valid_then : is_valid_at key issued ≡ true
    pub hash :
        is_text (sha256_hex (canonical_json e.payload)) (claim "payload_sha256" e.protected) ≡ true
    pub signed :
        curve.verify_with key.public_key e.signature (signing_input e.protected e.payload) ≡ true

  and_not-false : (b : Bool) → (b && not false) ≡ false → b ≡ false
  and_not-false true h = cc
  and_not-false false h = refl

  same_kind :
      (expected kind : ArtifactType) → is_expected (some expected) kind ≡ true → kind ≡ expected
  same_kind expected kind h = some-injective (
      sym (artifact_of-value kind)
      ∙ ap artifact_of ((string_eq.same_iff (artifact_value kind) (artifact_value expected)).0 h)
      ∙ artifact_of-value expected)

  module _ (expected : ArtifactType) (e : SignatureEnvelope) where
    verify_signed-IsAccepted :
        (kind : ArtifactType) (r : Option KeyRecord) (issued : Option ℤ)
        → artifact_of (claimed_text (claim "typ" e.protected)) ≡ some kind
        → lookup (claimed_text (claim "kid" e.protected)) keys.records ≡ r
        → claimed_int (claim "iat" e.protected) ≡ issued
        → (verify_signed curve sha256_hex keys false e kind r).valid ≡ true
        → IsAccepted kind e
    unfolding verify_signed verify_issued
    verify_signed-IsAccepted kind none issued typ found at h = cc
    verify_signed-IsAccepted kind (some r) issued typ found at h =
        let (issuer, h₁) =
          refuse_if-valid (not (is_text r.owner_id (claim "iss" e.protected))) _ _ h in
        let (purpose, h₂) = refuse_if-valid (not (has_purpose r kind)) _ _ h₁ in
        let (alive, h₃) = refuse_if-valid (is_revoked_key r.status && not false) _ _ h₂ in
        at_issuance issued at (rw (← at) h₃) issuer purpose (and_not-false _ alive)
      where
        at_issuance :
            (issued : Option ℤ)
            → claimed_int (claim "iat" e.protected) ≡ issued
            → (verify_issued curve sha256_hex keys e r issued).valid ≡ true
            → not (is_text r.owner_id (claim "iss" e.protected)) ≡ false
            → not (has_purpose r kind) ≡ false
            → is_revoked_key r.status ≡ false
            → IsAccepted kind e
        at_issuance none at h issuer purpose alive = cc
        at_issuance (some i) at h issuer purpose alive =
            let (valid, h₁) = refuse_if-valid (not (is_valid_at r i)) _ _ h in
            let (hash, h₂) =
              refuse_if-valid
                (not (
                  is_text (sha256_hex (canonical_json e.payload))
                    (claim "payload_sha256" e.protected)))
                _ _ h₁ in
            let (signed, _) =
              refuse_if-valid
                (not (
                  curve.verify_with r.public_key e.signature (signing_input e.protected e.payload)))
                _ _ h₂ in
            record {
              key = r;
              issued = i;
              typ = typ;
              found = found;
              issuer = not-eq_false _ issuer;
              purpose = not-eq_false _ purpose;
              not_revoked = alive;
              issued_at = at;
              valid_then = not-eq_false _ valid;
              hash = not-eq_false _ hash;
              signed = not-eq_false _ signed;
            }

    verify_kind-IsAccepted :
        (kind : Option ArtifactType)
        → artifact_of (claimed_text (claim "typ" e.protected)) ≡ kind
        → (verify_kind curve sha256_hex keys false (some expected) e kind).valid ≡ true
        → IsAccepted expected e
    unfolding verify_kind
    verify_kind-IsAccepted none typ h = cc
    verify_kind-IsAccepted (some kind) typ h =
        let r = lookup (claimed_text (claim "kid" e.protected)) keys.records in
        let (same, h₁) = refuse_if-valid (not (is_expected (some expected) kind)) _ _ h in
        subst (λ k. IsAccepted k e) (same_kind expected kind (not-eq_false _ same))
          (verify_signed-IsAccepted kind r (claimed_int (claim "iat" e.protected)) typ refl refl h₁)

    -- An envelope is accepted for a type only if its header names a key of the issuer, for that purpose, that
    -- is not revoked and was valid at the second of issuance, if the header holds the hash of the payload,
    -- and if the signature verifies under that key.
    pub verify_artifact-IsAccepted :
        (verify_artifact curve sha256_hex keys false (some expected) e).valid ≡ true
        → IsAccepted expected e
    unfolding verify_artifact
    verify_artifact-IsAccepted h =
        let (_, h₁) =
          refuse_if-valid
            (not (
              is_text "EdDSA" (claim "alg" e.protected)
              && is_text "Ed25519" (claim "crv" e.protected)))
            _ _ h in
        let (_, h₂) = refuse_if-valid (not (is_one (claimed_int (claim "v" e.protected)))) _ _ h₁ in
        let (_, h₃) = refuse_if-valid (is_empty (claimed_text (claim "kid" e.protected))) _ _ h₂ in
        verify_kind-IsAccepted (artifact_of (claimed_text (claim "typ" e.protected))) refl h₃
