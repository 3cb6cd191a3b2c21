-- ===== src/Identity/Attested.antt =====
-- On what attestations railone_identity/continuity.py makes and revises identities.
use mathlib.Core.Path.{◌∙◌, subst}
use railone_core.Prelude.{
  ℕ, String, ◌≡◌, ◌≢◌, refl, sym, ap, Bool, true, false, not, List, [], ◌∷◌, Option, none, some, ok,
  and_then-eq_ok, raise_if, raise_if-eq_ok, not-eq_false, and_then, some-injective, arith,
}
use railone_core.Prelude.Int.{ℤ, pos, leb_ℤ, ltb_ℤ}
use railone_core.Prelude.Equality.{◌==◌, string_eq}
use railone_core.Prelude.Exec.Branches.{lift_branches}
use railone_core.Crypto.Json.{Json, claim, claimed_text, claimed_int, text_at}
use railone_core.Crypto.Signatures.{SignatureEnvelope, SignatureService, ArtifactType}
use railone_core.Execution.Models.{Datetime, require_aware, epoch_seconds}
use railone_core.Identity.Attestation.{
  AttestationValidationResult, reject_if, required_strings, reject_missing, is_issuer, no_tier,
  is_sha256, check_window, verify_claims, verify_attestation,
}
use railone_core.Identity.Repository.{IdentityRepository}
use railone_core.Identity.Calls.{Call, onboarding, revision, serve}
use railone_core.Identity.Bundles.{
  IdentitySeed, SeedPayload, ContinuityServices, normalize, canonical_payload, accepted,
  attested_claims,
}
use railone_core.Identity.Continuity.{onboard, revise}

reject_if-claims :
    (b : Bool) (reason : String) (rest : AttestationValidationResult) {c : Json}
    → (reject_if b reason rest).claims ≡ some c
    → (b ≡ false) × (rest.claims ≡ some c)
reject_if-claims true reason rest h = cc
reject_if-claims false reason rest h = (refl, h)

reject_missing-claims :
    (names : List String) (claims : Json) (rest : AttestationValidationResult) {c : Json}
    → (reject_missing names claims rest).claims ≡ some c
    → rest.claims ≡ some c
unfolding reject_missing
reject_missing-claims [] claims rest h = h
reject_missing-claims (name ∷ names) claims rest h =
    reject_missing-claims names claims rest (reject_if-claims _ _ _ h).1

-- An instant in the window of an attestation.
pub record IsCurrent (e : SignatureEnvelope) (at : ℕ) : Type 0 where
  pub issued : ℤ
  pub expires : ℤ
  pub issued_at : claimed_int (claim "issued_at" e.payload) ≡ some issued
  pub expires_at : claimed_int (claim "expires_at" e.payload) ≡ some expires
  pub from_then : leb_ℤ issued (pos (epoch_seconds at)) ≡ true
  pub before : ltb_ℤ (pos (epoch_seconds at)) expires ≡ true

check_window-IsCurrent :
    (e : SignatureEnvelope) (at : ℕ) (rest : AttestationValidationResult) {c : Json}
    (i x : Option ℤ)
    → claimed_int (claim "issued_at" e.payload) ≡ i
    → claimed_int (claim "expires_at" e.payload) ≡ x
    → (check_window i x (pos (epoch_seconds at)) rest).claims ≡ some c
    → IsCurrent e at × (rest.claims ≡ some c)
unfolding check_window
check_window-IsCurrent e at rest none x hi hx h = cc
check_window-IsCurrent e at rest (some i) none hi hx h = cc
check_window-IsCurrent e at rest (some i) (some x) hi hx h =
    let (_, h₁) = reject_if-claims (leb_ℤ x i) _ _ h in
    let (started, h₂) = reject_if-claims (ltb_ℤ (pos (epoch_seconds at)) i) _ _ h₁ in
    let (open_yet, h₃) = reject_if-claims (leb_ℤ x (pos (epoch_seconds at))) _ _ h₂ in
    (
      record {
        issued = i;
        expires = x;
        issued_at = hi;
        expires_at = hx;
        from_then = ground arith;
        before = ground arith;
      },
      h₃,
    )

-- A signed statement of the provider that the identity is verified, in its window.
pub record IsAttestation (signatures : SignatureService) (e : SignatureEnvelope) (provider : String)
    (at : ℕ) : Type 0 where
  pub signed : (signatures.verify_artifact e ArtifactType.identity_attestation).valid ≡ true
  pub own : claimed_text (claim "provider_id" e.payload) ≡ provider
  pub issuer :
      is_issuer (claimed_text (claim "provider_id" e.payload)) (claim "iss" e.protected) ≡ true
  pub verified : claimed_text (claim "verification_result" e.payload) ≡ "VERIFIED"
  pub tier : no_tier (claimed_text (claim "trust_tier" e.payload)) ≡ false
  pub evidence : is_sha256 (claimed_text (claim "evidence_sha256" e.payload)) ≡ true
  pub current : IsCurrent e at

verify_attestation-IsAttestation :
    (signatures : SignatureService) (e : SignatureEnvelope) (provider : String) (at : ℕ) (c : Json)
    → (verify_attestation signatures e provider at).claims ≡ some c
    → IsAttestation signatures e provider at × (e.payload ≡ c)
unfolding verify_attestation verify_claims
verify_attestation-IsAttestation signatures e provider at c h =
    let own = claimed_text (claim "provider_id" e.payload) in
    let (signed, h₁) =
      reject_if-claims (not (signatures.verify_artifact e ArtifactType.identity_attestation).valid)
        _ _ h in
    let h₂ = reject_missing-claims required_strings e.payload _ h₁ in
    let (same, h₃) = reject_if-claims (not (own == provider)) _ _ h₂ in
    let (issuer, h₄) = reject_if-claims (not (is_issuer own (claim "iss" e.protected))) _ _ h₃ in
    let (verified, h₅) =
      reject_if-claims (not (claimed_text (claim "verification_result" e.payload) == "VERIFIED")) _
        _ h₄ in
    let (tier, h₆) =
      reject_if-claims (no_tier (claimed_text (claim "trust_tier" e.payload))) _ _ h₅ in
    let (evidence, h₇) =
      reject_if-claims (not (is_sha256 (claimed_text (claim "evidence_sha256" e.payload)))) _ _
        h₆ in
    let (current, h₈) =
      check_window-IsCurrent e at _ (claimed_int (claim "issued_at" e.payload))
        (claimed_int (claim "expires_at" e.payload)) refl refl h₇ in
    (
      record {
        signed = not-eq_false _ signed;
        own = (string_eq.same_iff own provider).0 (not-eq_false _ same);
        issuer = not-eq_false _ issuer;
        verified = (string_eq.same_iff _ "VERIFIED").0 (not-eq_false _ verified);
        tier = tier;
        evidence = not-eq_false _ evidence;
        current = current;
      },
      some-injective h₈,
    )

module _ (services : ContinuityServices) (seed : IdentitySeed) (e : SignatureEnvelope)
    (at : Datetime) where
  -- The attestation is the provider's, and of the subject and the country of the seed.
  pub record IsAttested : Type 0 where
    pub payload : SeedPayload
    pub normalized : canonical_payload services seed ≡ ok payload
    pub attestation : IsAttestation services.signatures e payload.provider at.micros
    pub subject : String
    pub country : String
    pub claimed_subject : text_at "provider_subject_reference" e.payload ≡ ok subject
    pub claimed_country : text_at "country_code" e.payload ≡ ok country
    pub same_subject : normalize services subject ≡ ok payload.subject
    pub same_country : normalize services country ≡ ok payload.country

  accepted-claims :
      (v : AttestationValidationResult) (c : Json) → accepted services v ≡ ok c → v.claims ≡ some c
  accepted-claims v c h = ground arith

  attested_claims-IsAttested :
      (instant : ℕ) (payload : SeedPayload) (c : Json)
      → require_aware "identity timestamp" at ≡ ok instant
      → canonical_payload services seed ≡ ok payload
      → attested_claims services payload e instant ≡ ok c
      → IsAttested
  unfolding attested_claims require_aware
  attested_claims-IsAttested instant payload c aware made h =
      let is_at : at.micros ≡ instant = ground arith in
      let (claims, valid, h₁) =
        and_then-eq_ok
          (accepted services (verify_attestation services.signatures e payload.provider instant)) _
          h in
      let (attestation, is_claims) =
        verify_attestation-IsAttestation services.signatures e payload.provider instant claims
          (accepted-claims _ claims valid) in
      let (subject, is_subject, h₂) =
        and_then-eq_ok (and_then (text_at "provider_subject_reference" claims) (normalize services))
          _ h₁ in
      let (_, same, h₃) = and_then-eq_ok (raise_if (not (subject == payload.subject)) _) _ h₂ in
      let (country, is_country, h₄) =
        and_then-eq_ok (and_then (text_at "country_code" claims) (normalize services)) _ h₃ in
      let (_, same_place, _) =
        and_then-eq_ok (raise_if (not (country == payload.country)) _) _ h₄ in
      let (written, read, normal) =
        and_then-eq_ok (text_at "provider_subject_reference" claims) _ is_subject in
      let (place, read_place, normal_place) =
        and_then-eq_ok (text_at "country_code" claims) _ is_country in
      record {
        payload = payload;
        normalized = made;
        attestation =
            subst (λ i. IsAttestation services.signatures e payload.provider i) (sym is_at)
              attestation;
        subject = written;
        country = place;
        claimed_subject = ap (text_at "provider_subject_reference") is_claims ∙ read;
        claimed_country = ap (text_at "country_code") is_claims ∙ read_place;
        same_subject =
            normal
            ∙ ap ok (
                (string_eq.same_iff subject payload.subject).0
                  (not-eq_false _ (raise_if-eq_ok _ _ same)));
        same_country =
            normal_place
            ∙ ap ok (
                (string_eq.same_iff country payload.country).0
                  (not-eq_false _ (raise_if-eq_ok _ _ same_place)));
      }

-- What a call is given.
abbrev pub seed_in : Call → IdentitySeed
seed_in (onboarding seed e corridor at) = seed
seed_in (revision seed e status reason at) = seed

abbrev pub attestation_in : Call → SignatureEnvelope
attestation_in (onboarding seed e corridor at) = e
attestation_in (revision seed e status reason at) = e

abbrev pub instant_in : Call → Datetime
instant_in (onboarding seed e corridor at) = at
instant_in (revision seed e status reason at) = at

module _ (services : ContinuityServices) where
  -- A call that changes the repository was given an attestation that its provider has signed, that says
  -- the identity is verified, that is in its window, and whose subject and country are the seed's.
  pub change-IsAttested :
      (c : Call) (s : IdentityRepository)
      → serve services c s ≢ s
      → IsAttested services (seed_in c) (attestation_in c) (instant_in c)
  unfolding serve onboard revise
  change-IsAttested (onboarding seed e corridor at) s =
      lift_branches (λ o. o.1 ≢ s → IsAttested services seed e at)
        (require_aware "identity timestamp" at) _ s (λ _ n. absurd (n refl))
        λ instant aware.
          lift_branches (λ o. o.1 ≢ s → IsAttested services seed e at)
            (canonical_payload services seed) _ s (λ _ n. absurd (n refl))
            λ payload made.
              lift_branches (λ o. o.1 ≢ s → IsAttested services seed e at)
                (attested_claims services payload e instant) _ s (λ _ n. absurd (n refl))
                λ c claims _.
                  attested_claims-IsAttested services seed e at instant payload c aware made claims
  change-IsAttested (revision seed e status reason at) s =
      lift_branches (λ o. o.1 ≢ s → IsAttested services seed e at)
        (require_aware "identity timestamp" at) _ s (λ _ n. absurd (n refl))
        λ instant aware.
          lift_branches (λ o. o.1 ≢ s → IsAttested services seed e at) (normalize services reason) _
            s (λ _ n. absurd (n refl))
            λ _ _.
              lift_branches (λ o. o.1 ≢ s → IsAttested services seed e at)
                (canonical_payload services seed) _ s (λ _ n. absurd (n refl))
                λ payload made.
                  lift_branches (λ o. o.1 ≢ s → IsAttested services seed e at)
                    (attested_claims services payload e instant) _ s (λ _ n. absurd (n refl))
                    λ c claims _.
                      attested_claims-IsAttested services seed e at instant payload c aware made
                        claims
