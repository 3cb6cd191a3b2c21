-- ===== src/Crypto/Signing/Verified.antt =====
-- What railone_crypto/signature_service.py says of the envelopes that it signs.
use mathlib.Core.Path.{◌∙◌, subst}
use railone_core.Prelude.{
  some-injective, ℕ, ◌*◌, String, ◌≡◌, refl, sym, ap, Bool, true, false, not, ◌&&◌, List, some, ok,
  raise_if, or_raise, and_then-eq_ok, raise_if-eq_ok, or_raise-eq_ok, not-eq_false, ok-injective,
  if◌then◌else◌, leb, ltb, arith,
}
use railone_core.Prelude.Text.{is_empty}
use railone_core.Prelude.Equality.{◌==◌, string_eq}
use railone_core.Prelude.Dict.{lookup}
use railone_core.Crypto.Json.{Json, fields_of, find_field}
use railone_core.Crypto.Canonical.{canonical_json}
use railone_core.Crypto.Signatures.{ArtifactType, SignatureEnvelope, VerificationResult}
use railone_core.Crypto.Keys.{
  KeyStatus, is_active_key, is_revoked_key, KeyRecord, permits_signing_at, Ed25519, KeyProvider,
  sign_message,
}
use railone_core.Crypto.Keys.Paired.{Reached, Reached-IsPaired}
use railone_core.Crypto.Signing.{
  artifact_value, artifact_of, has_purpose, signing_input, refused, refuse_if, protected_header,
  sign_artifact, verify_signed, verify_kind, verify_issued, verify_artifact,
}
use railone_core.Execution.Models.{epoch_seconds}

pub artifact_of-value : (kind : ArtifactType) → artifact_of (artifact_value kind) ≡ some kind
unfolding artifact_of lookup
artifact_of-value ArtifactType.quote = refl
artifact_of-value ArtifactType.utt = refl
artifact_of-value ArtifactType.rtt = refl
artifact_of-value ArtifactType.etk_s = refl
artifact_of-value ArtifactType.etk_r = refl
artifact_of-value ArtifactType.execution_event = refl
artifact_of-value ArtifactType.identity_attestation = refl
artifact_of-value ArtifactType.settlement_evidence = refl
artifact_of-value ArtifactType.replay_checkpoint = refl
artifact_of-value ArtifactType.api_request_audit = refl
artifact_of-value ArtifactType.institution_capability_manifest = refl
artifact_of-value ArtifactType.partner_certification_report = refl

same_text : (s : String) → (s == s) ≡ true
same_text s = (string_eq.same_iff s s).1 refl

active-not_revoked : (s : KeyStatus) → is_active_key s ≡ true → is_revoked_key s ≡ false
active-not_revoked KeyStatus.active h = refl
active-not_revoked KeyStatus.retired h = refl
active-not_revoked KeyStatus.revoked h = cc

module _ (curve : Ed25519) (sha256_hex : String → String) (keys : KeyProvider) where
  -- What was looked up and checked of a key that has signed.
  record IsSigned (kind : ArtifactType) (payload : Json) (key_id : String) (at : ℕ)
      (e : SignatureEnvelope) : Type 0 where
    pub key : KeyRecord
    pub private : List ℕ
    pub found : lookup key_id keys.records ≡ some key
    pub held : lookup key_id keys.private_keys ≡ some private
    pub purpose : has_purpose key kind ≡ true
    pub permitted : permits_signing_at key at ≡ true
    pub made :
        let protected = protected_header curve sha256_hex keys key kind payload at in
        e ≡ record {
          protected = protected;
          payload = payload;
          signature = curve.sign_with private (signing_input protected payload);
        }

  sign_artifact-IsSigned :
      (kind : ArtifactType) (payload : Json) (key_id : String) (at : ℕ) (e : SignatureEnvelope)
      → sign_artifact curve sha256_hex keys kind payload key_id at ≡ ok e
      → IsSigned kind payload key_id at e
  unfolding sign_artifact sign_message
  sign_artifact-IsSigned kind payload key_id at e h =
      let (r, found, h₁) = and_then-eq_ok (or_raise (lookup key_id keys.records) _) _ h in
      let (_, purpose, h₂) = and_then-eq_ok (raise_if (not (has_purpose r kind)) _) _ h₁ in
      let (_, permitted, h₃) = and_then-eq_ok (raise_if (not (permits_signing_at r at)) _) _ h₂ in
      let protected = protected_header curve sha256_hex keys r kind payload at in
      let (_, signed, h₄) =
        and_then-eq_ok (sign_message curve keys key_id (signing_input protected payload)) _ h₃ in
      let (private, held, h₅) =
        and_then-eq_ok (or_raise (lookup key_id keys.private_keys) _) _ signed in
      record {
        key = r;
        private = private;
        found = or_raise-eq_ok _ _ found;
        held = or_raise-eq_ok _ _ held;
        purpose = not-eq_false _ (raise_if-eq_ok _ _ purpose);
        permitted = not-eq_false _ (raise_if-eq_ok _ _ permitted);
        made =
            sym (ok-injective h₄)
            ∙ ap (λ s. record { protected = protected; payload = payload; signature = s })
                (sym (ok-injective h₅));
      }

  answered :
      (b : Bool)
      → refuse_if
          (not (b && true))
          "KEY_NOT_VALID_AT_ISSUANCE"
          (record { valid = true; reason = "VALID" })
        ≡ (if b
            then record { valid = true; reason = "VALID" }
            else refused "KEY_NOT_VALID_AT_ISSUANCE")
  answered true = refl
  answered false = refl

  -- The answer to an envelope that was just signed.
  abbrev pub fresh_answer : KeyRecord → ℕ → VerificationResult
  fresh_answer r at =
      if leb r.not_before (epoch_seconds at * 1000000)
      then record { valid = true; reason = "VALID" }
      else refused "KEY_NOT_VALID_AT_ISSUANCE"

  permitted-active :
      (r : KeyRecord) (at : ℕ) → permits_signing_at r at ≡ true → is_active_key r.status ≡ true
  permitted-active r at h = ground arith

  seconds-before :
      (r : KeyRecord) (at : ℕ)
      → permits_signing_at r at ≡ true
      → ltb (epoch_seconds at * 1000000) r.not_after ≡ true
  seconds-before r at h = ground arith

  module _ (kind : ArtifactType) (payload : Json) (key_id : String) (at : ℕ) (r : KeyRecord)
      (private : List ℕ) where
    abbrev envelope : SignatureEnvelope
    envelope =
        let protected = protected_header curve sha256_hex keys r kind payload at in
        record {
          protected = protected;
          payload = payload;
          signature = curve.sign_with private (signing_input protected payload);
        }

    verify_artifact-fresh :
        (is_empty r.key_id ≡ false)
        → lookup r.key_id keys.records ≡ some r
        → has_purpose r kind ≡ true
        → permits_signing_at r at ≡ true
        → ((message : String)
            → curve.verify_with r.public_key (curve.sign_with private message) message ≡ true)
        → verify_artifact curve sha256_hex keys false (some kind) envelope ≡ fresh_answer r at
    unfolding verify_artifact verify_kind verify_signed verify_issued protected_header fields_of
        find_field
    verify_artifact-fresh named found purpose permitted honest =
        rw
          (
            named,
            artifact_of-value kind,
            same_text (artifact_value kind),
            found,
            same_text r.owner_id,
            purpose,
            active-not_revoked r.status (permitted-active r at permitted),
            seconds-before r at permitted,
            same_text (sha256_hex (canonical_json payload)),
            honest _,
          )
          (answered (leb r.not_before (epoch_seconds at * 1000000)))

module _ (curve : Ed25519) (sha256_hex : String → String)
    (honest : (private : List ℕ) (message : String)
      → curve.verify_with (curve.public_of private) (curve.sign_with private message) message
        ≡ true) where
  -- With an Ed25519 whose signatures verify, the service takes an envelope that it has just signed with a
  -- named key of a provider that calls have built, for the artifact type that was signed: but for a key
  -- whose validity starts within the second of the signature, which it calls not yet valid, since the
  -- envelope holds whole seconds.
  pub verify-sign :
      {keys : KeyProvider}
      → Reached curve keys
      → (kind : ArtifactType) (payload : Json) (key_id : String) (at : ℕ) (e : SignatureEnvelope)
      → is_empty key_id ≡ false
      → sign_artifact curve sha256_hex keys kind payload key_id at ≡ ok e
      → (r : KeyRecord) × (lookup key_id keys.records ≡ some r)
        × (verify_artifact curve sha256_hex keys false (some kind) e
            ≡ fresh_answer curve sha256_hex keys r at)
  verify-sign {keys} reached kind payload key_id at e named h =
      let s = sign_artifact-IsSigned curve sha256_hex keys kind payload key_id at e h in
      let paired = Reached-IsPaired curve reached in
      let own = paired.own key_id s.key s.found in
      let (q, held, public) = paired.paired key_id s.private s.held in
      let is_q : q ≡ s.key = some-injective (sym held ∙ s.found) in
      (
        s.key,
        s.found,
        subst
            (λ e.
              verify_artifact curve sha256_hex keys false (some kind) e
              ≡ fresh_answer curve sha256_hex keys s.key at)
            (sym s.made)
            (verify_artifact-fresh curve sha256_hex keys kind payload key_id at s.key s.private
              (ap is_empty own ∙ named) (ap (λ k. lookup k keys.records) own ∙ s.found) s.purpose
              s.permitted
              λ message.
                subst
                  (λ public.
                    curve.verify_with public (curve.sign_with s.private message) message ≡ true)
                  (sym public ∙ ap (λ (y : KeyRecord). y.public_key) is_q)
                  (honest s.private message)),
      )
