-- ===== src/Crypto/Keys.antt =====
-- railone_crypto/key_provider.py: key records and `InMemoryEd25519KeyProvider`. Instants are microseconds
-- since 1970 in UTC. Ed25519 is an argument, with signatures as the base64 texts that envelopes hold; the
-- private key that `generate` draws is given to it.
pub mod Paired
use Prim.Native.String.{◌++◌ as append}
use railone_core.Prelude.{
  ℕ, String, Bool, true, false, not, ◌&&◌, List, [], ◌∷◌, Option, none, some, Exception, Result, ok,
  err, value_error, key_error, raise_if, or_raise, and_then, if◌then◌else◌, leb, ltb, nat_beq,
  length,
}
use railone_core.Prelude.Text.{is_empty, strip}
use railone_core.Prelude.Equality.{◌==◌, string_eq}
use railone_core.Prelude.Dict.{Dict, lookup, insert, remove}
use railone_core.Prelude.Exec.{Exec, ok_if_free, pure, lift, reads, modify, ◌>>=◌, ◌>>◌}

pub data KeyPurpose : Type 0 where
  quote_signing execution_signing identity_signing settlement_signing : KeyPurpose
  replay_signing access_token_signing api_audit_signing : KeyPurpose

abbrev pub purpose_name : KeyPurpose → String
purpose_name quote_signing = "QUOTE_SIGNING"
purpose_name execution_signing = "EXECUTION_SIGNING"
purpose_name identity_signing = "IDENTITY_SIGNING"
purpose_name settlement_signing = "SETTLEMENT_SIGNING"
purpose_name replay_signing = "REPLAY_SIGNING"
purpose_name access_token_signing = "ACCESS_TOKEN_SIGNING"
purpose_name api_audit_signing = "API_AUDIT_SIGNING"

pub data KeyStatus : Type 0 where
  active retired revoked : KeyStatus

abbrev pub is_active_key : KeyStatus → Bool
is_active_key active = true
is_active_key _ = false

abbrev pub is_revoked_key : KeyStatus → Bool
is_revoked_key revoked = true
is_revoked_key _ = false

pub record KeyRecord : Type 0 where
  pub key_id : String
  pub owner_id : String
  pub purpose : KeyPurpose
  pub public_key : List ℕ
  pub status : KeyStatus
  pub not_before : ℕ
  pub not_after : ℕ
  pub created_at : ℕ
  pub rotation_parent_id : Option String
  pub revoked_at : Option ℕ
  pub revocation_reason : Option String

abbrev pub lacks_instant : KeyRecord → Bool
lacks_instant r = elim r.revoked_at [ none ↦ is_revoked_key r.status | some at ↦ false ]

-- `KeyRecord.__post_init__`
unfoldable pub made_record : KeyRecord → Result KeyRecord
made_record r =
    and_then
      (raise_if (leb r.not_after r.not_before)
        (value_error "not_after must be later than not_before"))
      λ _.
        and_then
          (raise_if (not (nat_beq (length r.public_key) 32))
            (value_error "Ed25519 public key must contain 32 raw bytes"))
          λ _.
            and_then (raise_if (lacks_instant r) (value_error "revoked keys require revoked_at"))
              λ _. ok r

abbrev pub permits_signing_at : KeyRecord → ℕ → Bool
permits_signing_at r instant =
    is_active_key r.status && leb r.not_before instant && ltb instant r.not_after

pub record Ed25519 : Type 0 where
  pub public_of : List ℕ → List ℕ
  pub sign_with : List ℕ → String → String
  pub verify_with : List ℕ → String → String → Bool

pub record KeyProvider : Type 0 where
  pub records : Dict String KeyRecord
  pub private_keys : Dict String (List ℕ)

unfoldable pub require_record : String → KeyProvider → Result KeyRecord
require_record key_id p =
    or_raise (lookup key_id p.records) (key_error (append "key record not found: " key_id))

-- `self._records[key_id] = updated` without its private key
abbrev pub put_away : String → KeyRecord → KeyProvider → KeyProvider
put_away key_id r p = record {
  records = insert key_id r p.records;
  private_keys = remove key_id p.private_keys;
}

abbrev pub retired_record : KeyRecord → KeyRecord
retired_record r = record r { status = retired }

abbrev pub revoked_record : String → ℕ → KeyRecord → KeyRecord
revoked_record reason at r = record r {
  status = revoked;
  revoked_at = some at;
  revocation_reason = some reason;
}

unfoldable pub retire : String → Exec KeyProvider KeyRecord
unfolding require_record made_record
retire key_id = do
  r ← reads (require_record key_id)
  updated ← lift (made_record (retired_record r))
  modify (put_away key_id updated)
  pure updated

unfoldable pub revoke : String → String → ℕ → Exec KeyProvider KeyRecord
unfolding require_record made_record
revoke key_id reason at = do
  lift (raise_if (is_empty (strip reason)) (value_error "revocation reason is required"))
  r ← reads (require_record key_id)
  updated ← lift (made_record (revoked_record reason at r))
  modify (put_away key_id updated)
  pure updated

-- What `generate` is asked for, with the private key and the instant.
pub record KeyRequest : Type 0 where
  pub key_id : String
  pub owner_id : String
  pub purpose : KeyPurpose
  pub not_before : ℕ
  pub not_after : ℕ
  pub rotation_parent_id : Option String
  pub private : List ℕ
  pub now : ℕ

module _ (curve : Ed25519) where
  -- What `generate` adds.
  abbrev pub with_key : KeyRecord → List ℕ → KeyProvider → KeyProvider
  with_key r private p = record {
    records = insert r.key_id r p.records;
    private_keys = insert r.key_id private p.private_keys;
  }

  abbrev pub new_record : KeyRequest → KeyRecord
  new_record q = record {
    key_id = q.key_id;
    owner_id = q.owner_id;
    purpose = q.purpose;
    public_key = curve.public_of q.private;
    status = active;
    not_before = q.not_before;
    not_after = q.not_after;
    created_at = q.now;
    rotation_parent_id = q.rotation_parent_id;
    revoked_at = none;
    revocation_reason = none;
  }

  unfoldable pub generate : KeyRequest → Exec KeyProvider KeyRecord
  unfolding made_record
  generate q = do
    reads (λ p.
        ok_if_free (lookup q.key_id p.records) (value_error (append "duplicate key_id: " q.key_id)))
    r ← lift (made_record (new_record q))
    modify (with_key r q.private)
    pure r

  -- `sign`
  unfoldable pub sign_message : KeyProvider → String → String → Result String
  sign_message p key_id message =
      and_then
        (or_raise (lookup key_id p.private_keys)
          (key_error (append "signing key not found: " key_id)))
        λ private. ok (curve.sign_with private message)
