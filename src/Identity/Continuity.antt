-- ===== src/Identity/Continuity.antt =====
-- `IdentityContinuityService` of railone_identity/continuity.py.
use Prim.Native.String.{◌++◌ as append}
use railone_core.Prelude.{
  ℕ, String, Bool, true, false, List, Option, none, some, Result, ok, lookup_error,
  permission_error, raise_if, or_raise, and_then,
}
use railone_core.Prelude.Equality.{string_eq}
use railone_core.Prelude.Exec.{Exec, pure, raise, lift, reads, ◌>>=◌, ◌>>◌}
use railone_core.Crypto.Json.{Json}
use railone_core.Crypto.Signatures.{SignatureEnvelope}
use railone_core.Execution.Models.{Datetime, require_aware}
use railone_core.Identity.Models.{IdentityStatus, is_revoked, IdentityRevision, IdentityBundle}
use railone_core.Identity.Digests.{hex}
use railone_core.Identity.Repository.{
  IdentityRepository, get_by_fingerprint, get_by_continuity_uid, list_revisions, save,
  append_revision,
}
use railone_core.Identity.Bundles.{
  IdentitySeed, SeedPayload, ContinuityServices, normalize, canonical_payload, attested_claims,
  identity_claims, seed_digest, new_bundle, revised_bundle,
}

pub record OnboardingResult : Type 0 where
  pub bundle : IdentityBundle
  pub existing : Bool

module _ (services : ContinuityServices) where
  -- The end of `onboard`, with the bundle that is there already.
  unfoldable pub onboard_over :
      SeedPayload
      → Json
      → List ℕ
      → String
      → ℕ
      → Option IdentityBundle
      → Exec IdentityRepository OnboardingResult
  unfolding normalize identity_claims new_bundle save
  onboard_over seed claims digest corridor instant (some b) =
      pure (record { bundle = b; existing = true })
  onboard_over seed claims digest corridor instant none = do
    normalized ← lift (normalize services corridor)
    made ← lift (identity_claims services claims)
    save (new_bundle services seed made digest normalized instant)
    pure (record {
      bundle = new_bundle services seed made digest normalized instant;
      existing = false;
    })

  unfoldable pub onboard :
      IdentitySeed
      → SignatureEnvelope
      → String
      → Datetime
      → Exec IdentityRepository OnboardingResult
  unfolding canonical_payload attested_claims seed_digest get_by_fingerprint onboard_over
  onboard seed attestation corridor at = do
    instant ← lift (require_aware "identity timestamp" at)
    payload ← lift (canonical_payload services seed)
    claims ← lift (attested_claims services payload attestation instant)
    digest ← lift (seed_digest services payload)
    existing ← reads (λ s. ok (get_by_fingerprint (hex digest) s))
    onboard_over payload claims digest corridor instant existing

  abbrev pub found_identity : String → Option IdentityBundle → Result IdentityBundle
  found_identity uid b = or_raise b (lookup_error (append "continuity identity not found: " uid))

  -- `get`
  unfoldable pub get_identity : String → IdentityRepository → Result IdentityBundle
  unfolding normalize get_by_continuity_uid
  get_identity uid s =
      and_then (normalize services uid)
        λ normalized. found_identity normalized (get_by_continuity_uid normalized s)

  unfoldable pub history : String → IdentityRepository → Result (List IdentityRevision)
  unfolding get_identity list_revisions
  history uid s = and_then (get_identity uid s) λ b. ok (list_revisions b.identity.continuity_uid s)

  unfoldable pub revise_over :
      Json
      → IdentityStatus
      → String
      → ℕ
      → Option IdentityBundle
      → Exec IdentityRepository IdentityBundle
  unfolding identity_claims revised_bundle append_revision
  revise_over claims status reason instant none =
      raise (lookup_error "identity must be onboarded before it can be revised")
  revise_over claims status reason instant (some current) = do
    lift (
        raise_if (is_revoked current.identity.status)
          (permission_error "revoked identity cannot be revised"))
    made ← lift (identity_claims services claims)
    append_revision current.active_revision.revision
        (revised_bundle services current made status reason instant)
    pure (revised_bundle services current made status reason instant)

  unfoldable pub revise :
      IdentitySeed
      → SignatureEnvelope
      → IdentityStatus
      → String
      → Datetime
      → Exec IdentityRepository IdentityBundle
  unfolding canonical_payload attested_claims seed_digest get_by_fingerprint revise_over
  revise seed attestation status reason at = do
    instant ← lift (require_aware "identity timestamp" at)
    normalized ← lift (normalize services reason)
    payload ← lift (canonical_payload services seed)
    claims ← lift (attested_claims services payload attestation instant)
    digest ← lift (seed_digest services payload)
    existing ← reads (λ s. ok (get_by_fingerprint (hex digest) s))
    revise_over claims status normalized instant existing
