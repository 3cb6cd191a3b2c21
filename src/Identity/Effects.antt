-- ===== src/Identity/Effects.antt =====
-- What a call of `IdentityContinuityService` does to its repository (railone_identity/continuity.py).
use mathlib.Core.Path.{subst}
use railone_core.Prelude.{
  ℕ, ◌+◌, String, ◌≡◌, refl, Bool, true, false, not, ◌&&◌, List, Option, none, some, Exception,
  Result, ok, err, raise_if, or_raise, or_raise-eq_ok, key_error, raise_if-eq_ok, not-eq_false,
  and_then-eq_ok, value_error, runtime_error, permission_error, nat_beq, nat_beq_iff, some_of,
  arith,
}
use railone_core.Prelude.Equality.{◌==◌, string_eq}
use railone_core.Prelude.Dict.{lookup}
use railone_core.Prelude.Exec.{Exec, ok_if_free, pure, modify}
use railone_core.Prelude.Exec.Branches.{lift_branches, reads_branches, bind_branches}
use railone_core.Crypto.Json.{Json}
use railone_core.Crypto.Signatures.{SignatureEnvelope}
use railone_core.Execution.Models.{Datetime, require_aware}
use railone_core.Identity.Models.{IdentityRevision, IdentityStatus, IdentityBundle, is_revoked}
use railone_core.Identity.Repository.{
  IdentityRepository, get_by_fingerprint, uid_of, fingerprint_of, rests_on, saved, save,
  same_genesis, same_anchor, check_revision, extended, append_over, append_revision,
}
use railone_core.Identity.Digests.{hex}
use railone_core.Identity.Bundles.{
  SeedPayload, IdentitySeed, ContinuityServices, normalize, canonical_payload, attested_claims,
  identity_claims, seed_digest, new_bundle, revised_bundle,
}
use railone_core.Identity.Continuity.{onboard_over, onboard, revise_over, revise}
use railone_core.Identity.Histories.{IsValid}

-- A call keeps the repository, saves a new bundle, or appends a revision of one that is not revoked.
pub data IsServed (s t : IdentityRepository) : Type 0 where
  kept : t ≡ s → IsServed s t
  made :
      (b : IdentityBundle)
      → lookup (fingerprint_of b) s.by_fingerprint ≡ none
      → lookup (uid_of b) s.by_continuity_uid ≡ none
      → b.active_revision.revision ≡ 1
      → t ≡ saved b s
      → IsServed s t
  revised :
      (current b : IdentityBundle) (rs : List IdentityRevision)
      → lookup (uid_of b) s.by_continuity_uid ≡ some current
      → is_revoked current.identity.status ≡ false
      → fingerprint_of current ≡ fingerprint_of b
      → b.active_revision.revision ≡ current.active_revision.revision + 1
      → lookup (uid_of b) s.revisions ≡ some rs
      → some_of (rests_on b.active_revision.attestation_id) rs ≡ false
      → t ≡ extended current b rs s
      → IsServed s t

ok_if_free-eq_none {ℓ} :
    {A : Type ℓ} (o : Option A) (e : Exception) → ok_if_free o e ≡ ok tt → o ≡ none
ok_if_free-eq_none none e h = refl
ok_if_free-eq_none (some a) e h = cc

and_true : (a b : Bool) → (a && b) ≡ true → a ≡ true
and_true a b h = ground arith

same_anchor-fingerprint :
    (a b : IdentityBundle) → same_anchor a b ≡ true → fingerprint_of a ≡ fingerprint_of b
unfolding same_anchor same_genesis
same_anchor-fingerprint a b h = (string_eq.same_iff (fingerprint_of a) (fingerprint_of b)).0 (
    and_true (fingerprint_of a == fingerprint_of b) _
      (and_true (same_genesis a.genesis b.genesis) _ h))

check_revision-IsNext :
    (expected : ℕ) (current b : IdentityBundle)
    → check_revision expected current b ≡ ok tt
    → (b.active_revision.revision ≡ expected + 1) × (fingerprint_of current ≡ fingerprint_of b)
unfolding check_revision
check_revision-IsNext expected current b h =
    let (_, _, h₁) =
      and_then-eq_ok
        (raise_if (not (nat_beq current.active_revision.revision expected))
          (runtime_error "identity revision changed concurrently"))
        _ h in
    let (_, next, h₂) =
      and_then-eq_ok
        (raise_if (not (nat_beq b.active_revision.revision (expected + 1)))
          (value_error "identity revision must advance exactly once"))
        _ h₁ in
    let (_, anchor, _) =
      and_then-eq_ok
        (raise_if (not (same_anchor current b))
          (value_error "immutable identity anchor fields cannot change"))
        _ h₂ in
    (
      (nat_beq_iff b.active_revision.revision (expected + 1)).0
          (not-eq_false _ (raise_if-eq_ok _ _ next)),
      same_anchor-fingerprint current b (not-eq_false _ (raise_if-eq_ok _ _ anchor)),
    )

save-IsServed :
    (b : IdentityBundle) (s : IdentityRepository)
    → b.active_revision.revision ≡ 1
    → IsServed s (save b s).1
unfolding save
save-IsServed b s first =
    reads_branches (λ o. IsServed s o.1)
      (λ s.
        ok_if_free (lookup (fingerprint_of b) s.by_fingerprint)
          (value_error "identity fingerprint already exists"))
      _ s (λ _. kept refl)
      λ _ free.
        reads_branches (λ o. IsServed s o.1)
          (λ s.
            ok_if_free (lookup (uid_of b) s.by_continuity_uid)
              (value_error "continuity UID already exists"))
          (λ _. modify (saved b)) s (λ _. kept refl)
          λ _ unknown.
            made b (ok_if_free-eq_none _ _ free) (ok_if_free-eq_none _ _ unknown) first refl

append_over-IsServed :
    (current b : IdentityBundle) (s : IdentityRepository)
    → lookup (uid_of b) s.by_continuity_uid ≡ some current
    → is_revoked current.identity.status ≡ false
    → IsServed s (append_over current.active_revision.revision b (some current) s).1
unfolding append_over
append_over-IsServed current b s held alive =
    lift_branches (λ o. IsServed s o.1) (check_revision current.active_revision.revision current b)
      _ s (λ _. kept refl)
      λ _ checked.
        reads_branches (λ o. IsServed s o.1)
          (λ s. or_raise (lookup (uid_of b) s.revisions) (key_error (uid_of b))) _ s
          (λ _. kept refl)
          λ rs written.
            lift_branches (λ o. IsServed s o.1)
              (raise_if (some_of (rests_on b.active_revision.attestation_id) rs)
                (value_error "identity attestation was already used by a revision"))
              (λ _. modify (extended current b rs)) s (λ _. kept refl)
              λ _ fresh.
                let next =
                  check_revision-IsNext current.active_revision.revision current b checked in
                revised current b rs held alive next.1 next.0 (or_raise-eq_ok _ _ written)
                  (raise_if-eq_ok _ _ fresh) refl

append_revision-IsServed :
    (current b : IdentityBundle) (s : IdentityRepository)
    → lookup (uid_of b) s.by_continuity_uid ≡ some current
    → is_revoked current.identity.status ≡ false
    → IsServed s (append_revision current.active_revision.revision b s).1
unfolding append_revision
append_revision-IsServed current b s held alive =
    rw (held) (append_over-IsServed current b s held alive)

-- The effect of a call whose answer is then returned.
effect_of :
    {A : Type 0} (m : Exec IdentityRepository A) (s t : IdentityRepository) (r : Result A)
    → IsServed s (m s).1
    → m s ≡ (r, t)
    → IsServed s t
effect_of m s t r served h = subst (λ o. IsServed s o.1) h served

module _ (services : ContinuityServices) where
  onboard_over-IsServed :
      (seed : SeedPayload) (claims : Json) (digest : List ℕ) (corridor : String) (instant : ℕ)
      (existing : Option IdentityBundle) (s : IdentityRepository)
      → IsServed s (onboard_over services seed claims digest corridor instant existing s).1
  unfolding onboard_over new_bundle
  onboard_over-IsServed seed claims digest corridor instant (some b) s = kept refl
  onboard_over-IsServed seed claims digest corridor instant none s =
      lift_branches (λ o. IsServed s o.1) (normalize services corridor) _ s (λ _. kept refl)
        λ normalized _.
          lift_branches (λ o. IsServed s o.1) (identity_claims services claims) _ s (λ _. kept refl)
            λ c _.
              let b = new_bundle services seed c digest normalized instant in
              bind_branches (λ o. IsServed s o.1) (save b)
                (λ _. pure (record { bundle = b; existing = false })) s
                (λ e t. effect_of (save b) s t (err e) (save-IsServed b s refl))
                λ x t. effect_of (save b) s t (ok x) (save-IsServed b s refl)

  pub onboard-IsServed :
      (seed : IdentitySeed) (attestation : SignatureEnvelope) (corridor : String) (at : Datetime)
      (s : IdentityRepository)
      → IsServed s (onboard services seed attestation corridor at s).1
  unfolding onboard
  onboard-IsServed seed attestation corridor at s =
      lift_branches (λ o. IsServed s o.1) (require_aware "identity timestamp" at) _ s
        (λ _. kept refl)
        λ instant _.
          lift_branches (λ o. IsServed s o.1) (canonical_payload services seed) _ s (λ _. kept refl)
            λ payload _.
              lift_branches (λ o. IsServed s o.1)
                (attested_claims services payload attestation instant) _ s (λ _. kept refl)
                λ claims _.
                  lift_branches (λ o. IsServed s o.1) (seed_digest services payload) _ s
                    (λ _. kept refl)
                    λ digest _.
                      onboard_over-IsServed payload claims digest corridor instant
                        (get_by_fingerprint (hex digest) s) s

  revise_over-IsServed :
      (claims : Json) (status : IdentityStatus) (reason : String) (instant : ℕ)
      (fingerprint : String) (s : IdentityRepository) (valid : IsValid s)
      (existing : Option IdentityBundle)
      → lookup fingerprint s.by_fingerprint ≡ existing
      → IsServed s (revise_over services claims status reason instant existing s).1
  unfolding revise_over revised_bundle
  revise_over-IsServed claims status reason instant fingerprint s valid none h = kept refl
  revise_over-IsServed claims status reason instant fingerprint s valid (some current) h =
      lift_branches (λ o. IsServed s o.1)
        (raise_if (is_revoked current.identity.status)
          (permission_error "revoked identity cannot be revised"))
        _ s (λ _. kept refl)
        λ _ alive.
          lift_branches (λ o. IsServed s o.1) (identity_claims services claims) _ s (λ _. kept refl)
            λ c _.
              let b = revised_bundle services current c status reason instant in
              let n = current.active_revision.revision in
              let served : IsServed s (append_revision n b s).1 =
                append_revision-IsServed current b s ((valid.indexed fingerprint current h).by_uid)
                  (raise_if-eq_ok _ _ alive) in
              bind_branches (λ o. IsServed s o.1) (append_revision n b) (λ _. pure b) s
                (λ e t. effect_of (append_revision n b) s t (err e) served)
                λ x t. effect_of (append_revision n b) s t (ok x) served

  pub revise-IsServed :
      (seed : IdentitySeed) (attestation : SignatureEnvelope) (status : IdentityStatus)
      (reason : String) (at : Datetime) (s : IdentityRepository)
      → IsValid s
      → IsServed s (revise services seed attestation status reason at s).1
  unfolding revise get_by_fingerprint
  revise-IsServed seed attestation status reason at s valid =
      lift_branches (λ o. IsServed s o.1) (require_aware "identity timestamp" at) _ s
        (λ _. kept refl)
        λ instant _.
          lift_branches (λ o. IsServed s o.1) (normalize services reason) _ s (λ _. kept refl)
            λ normalized _.
              lift_branches (λ o. IsServed s o.1) (canonical_payload services seed) _ s
                (λ _. kept refl)
                λ payload _.
                  lift_branches (λ o. IsServed s o.1)
                    (attested_claims services payload attestation instant) _ s (λ _. kept refl)
                    λ claims _.
                      lift_branches (λ o. IsServed s o.1) (seed_digest services payload) _ s
                        (λ _. kept refl)
                        λ digest _.
                          revise_over-IsServed claims status normalized instant (hex digest) s valid
                            (lookup (hex digest) s.by_fingerprint) refl
