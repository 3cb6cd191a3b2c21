-- ===== src/Identity/Repository.antt =====
-- `InMemoryIdentityRepository` of railone_identity/continuity.py. Each method holds its lock throughout.
use Prim.Native.String.{◌++◌ as append}
use railone_core.Prelude.{
  ℕ, ◌+◌, String, Bool, true, not, ◌&&◌, ◌||◌, List, [], ◌∷◌, ◌++◌, Option, none, some, Result, ok,
  value_error, lookup_error, runtime_error, key_error, raise_if, or_raise, and_then, nat_beq,
  some_of,
}
use railone_core.Prelude.Equality.{◌==◌, string_eq}
use railone_core.Prelude.Dict.{Dict, lookup, insert}
use railone_core.Prelude.Exec.{Exec, ok_if_free, raise, lift, reads, modify, ◌>>=◌, ◌>>◌}
use railone_core.Identity.Models.{IdentityGenesis, IdentityRevision, IdentityBundle, same_status}

pub record IdentityRepository : Type 0 where
  pub by_fingerprint : Dict String IdentityBundle
  pub by_continuity_uid : Dict String IdentityBundle
  pub revisions : Dict String (List IdentityRevision)

unfoldable pub get_by_fingerprint : String → IdentityRepository → Option IdentityBundle
get_by_fingerprint fingerprint s = lookup fingerprint s.by_fingerprint

unfoldable pub get_by_continuity_uid : String → IdentityRepository → Option IdentityBundle
get_by_continuity_uid uid s = lookup uid s.by_continuity_uid

abbrev pub or_empty : Option (List IdentityRevision) → List IdentityRevision
or_empty none = []
or_empty (some rs) = rs

unfoldable pub list_revisions : String → IdentityRepository → List IdentityRevision
list_revisions uid s = or_empty (lookup uid s.revisions)

abbrev pub uid_of : IdentityBundle → String
uid_of b = b.identity.continuity_uid

abbrev pub fingerprint_of : IdentityBundle → String
fingerprint_of b = b.genesis.identity_fingerprint

abbrev pub saved : IdentityBundle → IdentityRepository → IdentityRepository
saved b s = record {
  by_fingerprint = insert (fingerprint_of b) b s.by_fingerprint;
  by_continuity_uid = insert (uid_of b) b s.by_continuity_uid;
  revisions = insert (uid_of b) (b.active_revision ∷ []) s.revisions;
}

unfoldable pub save : IdentityBundle → Exec IdentityRepository (Unit {0})
save b = do
  reads (λ s.
      ok_if_free (lookup (fingerprint_of b) s.by_fingerprint)
        (value_error "identity fingerprint already exists"))
  reads (λ s.
      ok_if_free (lookup (uid_of b) s.by_continuity_uid)
        (value_error "continuity UID already exists"))
  modify (saved b)

-- Tuples are equal member by member.
abbrev pub all_true : List Bool → Bool
all_true [] = true
all_true (b ∷ bs) = b && all_true bs

unfoldable pub same_genesis : IdentityGenesis → IdentityGenesis → Bool
same_genesis a b = all_true (
    (a.identity_fingerprint == b.identity_fingerprint)
    ∷ (a.rig_id == b.rig_id)
    ∷ (a.continuity_uid == b.continuity_uid)
    ∷ (a.continuity_key_id == b.continuity_key_id)
    ∷ (a.verification_provider_id == b.verification_provider_id)
    ∷ (a.verification_reference == b.verification_reference)
    ∷ (a.evidence_sha256 == b.evidence_sha256)
    ∷ (a.attestation_id == b.attestation_id)
    ∷ nat_beq a.created_at b.created_at
    ∷ [])

-- `stable_before == stable_after`
unfoldable pub same_anchor : IdentityBundle → IdentityBundle → Bool
unfolding same_genesis
same_anchor a b = all_true (
    same_genesis a.genesis b.genesis
    ∷ (a.identity.rio_id == b.identity.rio_id)
    ∷ (a.identity.railone_id == b.identity.railone_id)
    ∷ (a.identity.continuity_uid == b.identity.continuity_uid)
    ∷ (a.identity.rig_id == b.identity.rig_id)
    ∷ (a.identity.corridor == b.identity.corridor)
    ∷ nat_beq a.identity.created_at b.identity.created_at
    ∷ [])

-- The guards on a revision that read only the two bundles.
unfoldable pub check_revision : ℕ → IdentityBundle → IdentityBundle → Result (Unit {0})
unfolding same_anchor
check_revision expected current b =
    and_then
      (raise_if (not (nat_beq current.active_revision.revision expected))
        (runtime_error "identity revision changed concurrently"))
      λ _.
        and_then
          (raise_if (not (nat_beq b.active_revision.revision (expected + 1)))
            (value_error "identity revision must advance exactly once"))
          λ _.
            and_then
              (raise_if (not (same_anchor current b))
                (value_error "immutable identity anchor fields cannot change"))
              λ _.
                and_then
                  (raise_if (not (b.identity.active_riv_id == b.active_revision.riv_id))
                    (value_error "identity projection must point to the active revision"))
                  λ _.
                    and_then
                      (raise_if (not (same_status b.identity.status b.active_revision.status))
                        (value_error "identity projection status must match active revision"))
                      λ _.
                        raise_if
                          (not (b.active_revision.rio_id == b.identity.rio_id)
                            || not (b.active_revision.continuity_uid == uid_of b))
                          (value_error "identity revision lineage does not match projection")

-- A revision rests on an attestation.
abbrev pub rests_on : String → IdentityRevision → Bool
rests_on attestation_id r = r.attestation_id == attestation_id

abbrev pub extended :
    IdentityBundle
    → IdentityBundle
    → List IdentityRevision
    → IdentityRepository
    → IdentityRepository
extended current b rs s = record {
  by_fingerprint = insert (fingerprint_of current) b s.by_fingerprint;
  by_continuity_uid = insert (uid_of b) b s.by_continuity_uid;
  revisions = insert (uid_of b) (rs ++ (b.active_revision ∷ [])) s.revisions;
}

unfoldable pub append_over :
    ℕ → IdentityBundle → Option IdentityBundle → Exec IdentityRepository (Unit {0})
unfolding check_revision
append_over expected b none =
    raise (lookup_error (append "continuity identity not found: " (uid_of b)))
append_over expected b (some current) = do
  lift (check_revision expected current b)
  rs ← reads (λ s. or_raise (lookup (uid_of b) s.revisions) (key_error (uid_of b)))
  lift (
      raise_if (some_of (rests_on b.active_revision.attestation_id) rs)
        (value_error "identity attestation was already used by a revision"))
  modify (extended current b rs)

unfoldable pub append_revision : ℕ → IdentityBundle → Exec IdentityRepository (Unit {0})
unfolding append_over
append_revision expected b = do
  current ← reads (λ s. ok (lookup (uid_of b) s.by_continuity_uid))
  append_over expected b current
