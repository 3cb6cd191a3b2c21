-- ===== src/Identity/Histories.antt =====
-- What a repository of railone_identity/continuity.py promises: histories that are only appended to.
use railone_core.Prelude.{
  ◌+◌, String, ◌≡◌, ◌≢◌, false, List, [], ◌∷◌, ◌++◌, Option, none, some, length, some_of,
}
use railone_core.Prelude.Equality.{string_eq}
use railone_core.Prelude.Dict.{lookup}
use railone_core.Identity.Models.{IdentityRevision, IdentityBundle}
use railone_core.Identity.Repository.{IdentityRepository, uid_of, fingerprint_of, rests_on}

-- Revisions are numbered from one, and none rests on an attestation that an earlier one rests on.
pub data IsHistory : List IdentityRevision → Type 0 where
  begun : (r : IdentityRevision) → r.revision ≡ 1 → IsHistory (r ∷ [])
  continued :
      {rs : List IdentityRevision} (r : IdentityRevision)
      → IsHistory rs
      → r.revision ≡ length rs + 1
      → some_of (rests_on r.attestation_id) rs ≡ false
      → IsHistory (rs ++ (r ∷ []))

-- The history of each identity, and nothing else of a repository.
abbrev pub Ledger : Type 0
Ledger = String → Option (List IdentityRevision)

abbrev pub ledger_of : IdentityRepository → Ledger
ledger_of s uid = lookup uid s.revisions

abbrev pub AgreeBut : String → Ledger → Ledger → Type 0
AgreeBut uid l m = (k : String) → k ≢ uid → m k ≡ l k

-- One step of an append-only ledger.
pub data IsStep (l m : Ledger) : Type 0 where
  unchanged : ((k : String) → m k ≡ l k) → IsStep l m
  registered :
      (uid : String) (r : IdentityRevision)
      → l uid ≡ none
      → IsHistory (r ∷ [])
      → m uid ≡ some (r ∷ [])
      → AgreeBut uid l m
      → IsStep l m
  appended :
      (uid : String) (rs : List IdentityRevision) (r : IdentityRevision)
      → l uid ≡ some rs
      → IsHistory (rs ++ (r ∷ []))
      → m uid ≡ some (rs ++ (r ∷ []))
      → AgreeBut uid l m
      → IsStep l m

-- A bundle is found by both of its keys, and its history ends in its active revision.
pub record IsHeld (s : IdentityRepository) (k : String) (b : IdentityBundle) : Type 0 where
  pub own : uid_of b ≡ k
  pub by_fingerprint : lookup (fingerprint_of b) s.by_fingerprint ≡ some b
  pub older : List IdentityRevision
  pub history : lookup k s.revisions ≡ some (older ++ (b.active_revision ∷ []))
  pub is_history : IsHistory (older ++ (b.active_revision ∷ []))
  pub number : b.active_revision.revision ≡ length older + 1

pub record IsIndexed (s : IdentityRepository) (f : String) (b : IdentityBundle) : Type 0 where
  pub own : fingerprint_of b ≡ f
  pub by_uid : lookup (uid_of b) s.by_continuity_uid ≡ some b

pub record IsValid (s : IdentityRepository) : Type 0 where
  pub held :
      (k : String) (b : IdentityBundle) → lookup k s.by_continuity_uid ≡ some b → IsHeld s k b
  pub indexed :
      (f : String) (b : IdentityBundle) → lookup f s.by_fingerprint ≡ some b → IsIndexed s f b
  pub unknown : (k : String) → lookup k s.by_continuity_uid ≡ none → lookup k s.revisions ≡ none
