-- ===== src/Identity/Models.antt =====
-- railone_identity/models.py: the records of an identity.
use railone_core.Prelude.{ℕ, String, Bool, true, false, Option, none, some, if◌then◌else◌}
use railone_core.Prelude.Equality.{◌==◌, string_eq}

pub data TrustTier : Type 0 where
  t0 t1 t2 t3 t4 t5 : TrustTier

-- `TrustTier(value)`, nothing where it raises
unfoldable pub trust_tier_of : String → Option TrustTier
trust_tier_of value =
    if value == "T0"
    then some t0
    else if value == "T1"
    then some t1
    else if value == "T2"
    then some t2
    else if value == "T3"
    then some t3
    else if value == "T4"
    then some t4
    else if value == "T5"
    then some t5
    else none

pub data IdentityStatus : Type 0 where
  active reverification_required suspended revoked : IdentityStatus

abbrev pub is_revoked : IdentityStatus → Bool
is_revoked revoked = true
is_revoked _ = false

-- `a is b`
abbrev pub same_status : IdentityStatus → IdentityStatus → Bool
same_status active active = true
same_status reverification_required reverification_required = true
same_status suspended suspended = true
same_status revoked revoked = true
same_status _ _ = false

pub record IdentityGenesis : Type 0 where
  pub rig_id : String
  pub continuity_uid : String
  pub continuity_key_id : String
  pub identity_fingerprint : String
  pub verification_provider_id : String
  pub verification_reference : String
  pub evidence_sha256 : String
  pub attestation_id : String
  pub created_at : ℕ

pub record IdentityRevision : Type 0 where
  pub riv_id : String
  pub rio_id : String
  pub continuity_uid : String
  pub revision : ℕ
  pub trust_tier : TrustTier
  pub status : IdentityStatus
  pub reason : String
  pub attestation_id : String
  pub created_at : ℕ

pub record IdentityObject : Type 0 where
  pub rio_id : String
  pub railone_id : String
  pub continuity_uid : String
  pub rig_id : String
  pub active_riv_id : String
  pub corridor : String
  pub status : IdentityStatus
  pub created_at : ℕ

pub record IdentityBundle : Type 0 where
  pub genesis : IdentityGenesis
  pub identity : IdentityObject
  pub active_revision : IdentityRevision
