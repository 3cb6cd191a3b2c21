-- ===== src/Identity/Bundles.antt =====
-- What `IdentityContinuityService` of railone_identity/continuity.py makes of a seed and its attestation.
-- The secret provider and the Unicode normal form NFKC are arguments.
use Prim.Native.String.{◌++◌ as append}
use railone_core.Prelude.{
  ℕ, zero, suc, ◌+◌, String, not, List, [], ◌∷◌, none, some, Result, ok, err, value_error,
  permission_error, raise_if, or_raise, and_then, if◌then◌else◌, take,
}
use railone_core.Prelude.Equality.{◌==◌, string_eq}
use railone_core.Prelude.Text.{is_empty, strip, upper}
use railone_core.Crypto.Json.{Json, text, object, fields_of, text_at}
use railone_core.Crypto.Canonical.{canonical_json, decimal}
use railone_core.Crypto.Signatures.{SignatureEnvelope, SignatureService}
use railone_core.Identity.Models.{TrustTier, trust_tier_of, IdentityStatus, IdentityBundle}
use railone_core.Identity.Attestation.{AttestationValidationResult, verify_attestation}
use railone_core.Identity.Digests.{hex, base32}

pub record IdentitySeed : Type 0 where
  pub provider_id : String
  pub provider_subject_reference : String
  pub country_code : String

-- The normalized seed, `canonical_payload`
pub record SeedPayload : Type 0 where
  pub provider : String
  pub subject : String
  pub country : String

abbrev pub seed_json : SeedPayload → Json
seed_json p = object (
    fields_of (
      ("provider_id", text p.provider)
      ∷ ("provider_subject_reference", text p.subject)
      ∷ ("country_code", text p.country)
      ∷ []))

-- The claims that a bundle is made of.
pub record IdentityClaims : Type 0 where
  pub attestation_id : String
  pub verification_reference : String
  pub evidence_sha256 : String
  pub trust_tier : TrustTier

-- `s[n:]`
unfoldable pub drop_text : ℕ → String → String
drop_text zero s = s
drop_text (suc n) String.[] = String.[]
drop_text (suc n) (String.◌∷◌ c s) = drop_text n s

-- What the service is made with.
pub record ContinuityServices : Type 0 where
  pub continuity_key_id : String
  pub signatures : SignatureService
  pub derive : String → String → Result (List ℕ)
  pub nfkc : String → String

module _ (services : ContinuityServices) where
  unfoldable pub normalize : String → Result String
  normalize value =
      let normalized = upper (strip (services.nfkc value)) in
      if is_empty normalized
      then err (value_error "identity seed value cannot be empty")
      else ok normalized

  unfoldable pub canonical_payload : IdentitySeed → Result SeedPayload
  unfolding normalize
  canonical_payload seed = and_then (normalize seed.provider_id) λ provider.
      and_then (normalize seed.provider_subject_reference) λ subject.
        and_then (normalize seed.country_code)
          λ country. ok (record { provider = provider; subject = subject; country = country })

  -- The claims of a valid attestation.
  abbrev pub accepted : AttestationValidationResult → Result Json
  accepted v = elim v.claims [
    | none ↦ err (permission_error (append "identity attestation rejected: " v.reason))
    | some claims ↦
        if not v.valid
        then err (permission_error (append "identity attestation rejected: " v.reason))
        else ok claims
  ]

  -- The checks of an attestation against a seed, which `onboard` and `revise` share.
  unfoldable pub attested_claims : SeedPayload → SignatureEnvelope → ℕ → Result Json
  unfolding verify_attestation normalize
  attested_claims seed attestation instant =
      and_then (accepted (verify_attestation services.signatures attestation seed.provider instant))
        λ claims.
          and_then (and_then (text_at "provider_subject_reference" claims) normalize) λ subject.
            and_then
              (raise_if (not (subject == seed.subject))
                (permission_error "identity attestation subject mismatch"))
              λ _. and_then (and_then (text_at "country_code" claims) normalize) λ country.
                and_then
                  (raise_if (not (country == seed.country))
                    (permission_error "identity attestation country mismatch"))
                  λ _. ok claims

  unfoldable pub identity_claims : Json → Result IdentityClaims
  identity_claims claims = and_then (text_at "trust_tier" claims) λ tier.
      and_then
        (or_raise (trust_tier_of tier) (value_error (append tier " is not a valid TrustTier")))
        λ trust_tier. and_then (text_at "verification_reference" claims) λ reference.
          and_then (text_at "evidence_sha256" claims) λ evidence.
            and_then (text_at "attestation_id" claims) λ attestation. ok (record {
              attestation_id = attestation;
              verification_reference = reference;
              evidence_sha256 = evidence;
              trust_tier = trust_tier;
            })

  -- `derive` of the seed under the domain of the service.
  unfoldable pub seed_digest : SeedPayload → Result (List ℕ)
  seed_digest seed =
      services.derive services.continuity_key_id
        (append "RAILONE-IDENTITY-CONTINUITY-V1\0" (canonical_json (seed_json seed)))

  -- `digest[:20]` as a segment of identifiers
  unfoldable pub continuity_segment : List ℕ → String
  unfolding base32
  continuity_segment digest = base32 (take 20 digest)

  unfoldable pub new_bundle : SeedPayload → IdentityClaims → List ℕ → String → ℕ → IdentityBundle
  unfolding continuity_segment hex
  new_bundle seed claims digest corridor instant =
      let segment = continuity_segment digest in
      let continuity_uid = append "CUID-" segment in
      let rig_id = append "RIG-" segment in
      let rio_id = append "RIO-" segment in
      let riv_id = append "RIV-" (append segment "-R1") in
      record {
        genesis = record {
          rig_id = rig_id;
          continuity_uid = continuity_uid;
          continuity_key_id = services.continuity_key_id;
          identity_fingerprint = hex digest;
          verification_provider_id = seed.provider;
          verification_reference = claims.verification_reference;
          evidence_sha256 = claims.evidence_sha256;
          attestation_id = claims.attestation_id;
          created_at = instant;
        };
        identity = record {
          rio_id = rio_id;
          railone_id = append "R1-" (append corridor (append "-" segment));
          continuity_uid = continuity_uid;
          rig_id = rig_id;
          active_riv_id = riv_id;
          corridor = corridor;
          status = IdentityStatus.active;
          created_at = instant;
        };
        active_revision = record {
          riv_id = riv_id;
          rio_id = rio_id;
          continuity_uid = continuity_uid;
          revision = 1;
          trust_tier = claims.trust_tier;
          status = IdentityStatus.active;
          reason = "INITIAL_VERIFIED_ONBOARDING";
          attestation_id = claims.attestation_id;
          created_at = instant;
        };
      }

  unfoldable pub revised_bundle :
      IdentityBundle → IdentityClaims → IdentityStatus → String → ℕ → IdentityBundle
  unfolding drop_text
  revised_bundle current claims status reason instant =
      let number = current.active_revision.revision + 1 in
      let uid = current.identity.continuity_uid in
      let riv_id = append "RIV-" (append (drop_text 5 uid) (append "-R" (decimal number))) in
      record {
        genesis = current.genesis;
        identity = record current.identity { active_riv_id = riv_id; status = status };
        active_revision = record {
          riv_id = riv_id;
          rio_id = current.identity.rio_id;
          continuity_uid = uid;
          revision = number;
          trust_tier = claims.trust_tier;
          status = status;
          reason = reason;
          attestation_id = claims.attestation_id;
          created_at = instant;
        };
      }
