-- ===== src/Identity/Attestation.antt =====
-- `IdentityAttestationVerifier` of railone_identity/attestation.py.
use Prim.Native.Char.{code}
use Prim.Native.String.{◌++◌ as append}
use railone_core.Prelude.{
  ℕ, String, Bool, true, false, not, ◌&&◌, ◌||◌, List, [], ◌∷◌, Option, none, some, leb, nat_beq,
}
use railone_core.Prelude.Int.{ℤ, pos, leb_ℤ, ltb_ℤ}
use railone_core.Prelude.Equality.{◌==◌, string_eq}
use railone_core.Prelude.Text.{is_empty, strip, upper, text_length}
use railone_core.Crypto.Json.{claim, claimed_text, claimed_int, Json, text}
use railone_core.Crypto.Signatures.{SignatureEnvelope, SignatureService, ArtifactType}
use railone_core.Identity.Models.{trust_tier_of}
use railone_core.Execution.Models.{epoch_seconds}

pub record AttestationValidationResult : Type 0 where
  pub valid : Bool
  pub reason : String
  pub claims : Option Json

abbrev pub rejected : String → AttestationValidationResult
rejected reason = record { valid = false; reason = reason; claims = none }

-- `if test: return AttestationValidationResult(False, reason)`
abbrev pub reject_if : Bool → String → AttestationValidationResult → AttestationValidationResult
reject_if true reason rest = rejected reason
reject_if false reason rest = rest

abbrev pub is_missing_text : Option Json → Bool
is_missing_text v = is_empty (strip (claimed_text v))

abbrev pub is_hex : String → Bool
is_hex String.[] = true
is_hex (String.◌∷◌ c s) =
    ((leb 48 (code c) && leb (code c) 57) || (leb 97 (code c) && leb (code c) 102)) && is_hex s

-- `_SHA256_PATTERN`
unfoldable pub is_sha256 : String → Bool
is_sha256 s = nat_beq (text_length s) 64 && is_hex s

abbrev pub required_strings : List String
required_strings =
    "attestation_id" ∷ "provider_id" ∷ "provider_subject_reference" ∷ "verification_reference"
    ∷ "country_code" ∷ "verification_result" ∷ "trust_tier" ∷ "evidence_sha256" ∷ []

unfoldable pub reject_missing :
    List String → Json → AttestationValidationResult → AttestationValidationResult
reject_missing [] claims rest = rest
reject_missing (name ∷ names) claims rest =
    reject_if (is_missing_text (claim name claims)) (append (upper name) "_INVALID")
      (reject_missing names claims rest)

abbrev pub no_tier : String → Bool
no_tier value = elim (trust_tier_of value) [ none ↦ true | some tier ↦ false ]

abbrev pub is_issuer : String → Option Json → Bool
is_issuer provider (some (text s)) = provider == s
is_issuer provider _ = false

-- The claims hold from `issued_at` on and before `expires_at`.
unfoldable pub check_window :
    Option ℤ → Option ℤ → ℤ → AttestationValidationResult → AttestationValidationResult
check_window (some issued) (some expires) instant rest =
    reject_if (leb_ℤ expires issued) "ATTESTATION_WINDOW_INVALID" (
      reject_if (ltb_ℤ instant issued) "ATTESTATION_NOT_YET_VALID"
        (reject_if (leb_ℤ expires instant) "ATTESTATION_EXPIRED" rest))
check_window _ _ instant rest = rejected "ATTESTATION_TIME_INVALID"

unfoldable pub verify_claims : SignatureEnvelope → String → ℕ → AttestationValidationResult
unfolding reject_missing check_window is_sha256
verify_claims envelope expected at =
    let claims = envelope.payload in
    let provider = claimed_text (claim "provider_id" claims) in
    reject_missing required_strings claims (
      reject_if (not (provider == expected)) "PROVIDER_MISMATCH" (
        reject_if (not (is_issuer provider (claim "iss" envelope.protected)))
          "ATTESTATION_ISSUER_MISMATCH"
          (reject_if (not (claimed_text (claim "verification_result" claims) == "VERIFIED"))
            "IDENTITY_NOT_VERIFIED"
            (reject_if (no_tier (claimed_text (claim "trust_tier" claims))) "TRUST_TIER_INVALID" (
              reject_if (not (is_sha256 (claimed_text (claim "evidence_sha256" claims))))
                "EVIDENCE_HASH_INVALID"
                (check_window (claimed_int (claim "issued_at" claims))
                  (claimed_int (claim "expires_at" claims)) (pos (epoch_seconds at))
                  (record { valid = true; reason = "VALID"; claims = some claims })))))))

unfoldable pub verify_attestation :
    SignatureService → SignatureEnvelope → String → ℕ → AttestationValidationResult
unfolding verify_claims
verify_attestation signatures envelope expected at =
    let check = signatures.verify_artifact envelope ArtifactType.identity_attestation in
    reject_if (not check.valid) check.reason (verify_claims envelope expected at)
