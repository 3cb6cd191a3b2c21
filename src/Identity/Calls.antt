-- ===== src/Identity/Calls.antt =====
-- Sequences of calls of `IdentityContinuityService` (railone_identity/continuity.py), whether they return
-- or raise.
use mathlib.Core.Path.{◌∙◌}
use railone_core.Prelude.{
  String, ◌≡◌, ◌≢◌, refl, sym, ap, Bool, true, false, List, [], ◌∷◌, Option, none, some,
}
use railone_core.Prelude.Equality.{string_eq}
use railone_core.Prelude.Dict.{lookup, lookup-insert_other}
use railone_core.Crypto.Signatures.{SignatureEnvelope}
use railone_core.Execution.Models.{Datetime}
use railone_core.Identity.Models.{IdentityStatus, IdentityBundle, is_revoked}
use railone_core.Identity.Repository.{IdentityRepository, uid_of}
use railone_core.Identity.Bundles.{IdentitySeed, ContinuityServices}
use railone_core.Identity.Continuity.{onboard, revise}
use railone_core.Identity.Histories.{IsStep, ledger_of, IsValid}
use railone_core.Identity.Effects.{IsServed, kept, made, revised, onboard-IsServed, revise-IsServed}
use railone_core.Identity.Indexes.{IsServed-IsValid}
use railone_core.Identity.Appended.{IsServed-IsStep}

pub data Call : Type 0 where
  onboarding : IdentitySeed → SignatureEnvelope → String → Datetime → Call
  revision : IdentitySeed → SignatureEnvelope → IdentityStatus → String → Datetime → Call

abbrev pub empty : IdentityRepository
empty = record { by_fingerprint = []; by_continuity_uid = []; revisions = [] }

pub empty-IsValid : IsValid empty
unfolding lookup
empty-IsValid = record {
  held = λ k b h. absurd (cc h);
  indexed = λ f b h. absurd (cc h);
  unknown = λ k h. refl;
}

module _ (services : ContinuityServices) where
  unfoldable pub serve : Call → IdentityRepository → IdentityRepository
  unfolding onboard revise
  serve (onboarding seed attestation corridor at) s =
      (onboard services seed attestation corridor at s).1
  serve (revision seed attestation status reason at) s =
      (revise services seed attestation status reason at s).1

  unfoldable pub serve_all : List Call → IdentityRepository → IdentityRepository
  unfolding serve
  serve_all [] s = s
  serve_all (c ∷ cs) s = serve_all cs (serve c s)

  serve-IsServed : (c : Call) (s : IdentityRepository) → IsValid s → IsServed s (serve c s)
  unfolding serve
  serve-IsServed (onboarding seed attestation corridor at) s valid =
      onboard-IsServed services seed attestation corridor at s
  serve-IsServed (revision seed attestation status reason at) s valid =
      revise-IsServed services seed attestation status reason at s valid

  -- Seen as histories of identities, a call on a valid repository is one step of an append-only ledger:
  -- it changes nothing, opens the history of a new identity at revision one, or appends the next revision
  -- to one history, on an attestation that this history has not used.
  pub serve-IsStep :
      (c : Call) (s : IdentityRepository) → IsValid s → IsStep (ledger_of s) (ledger_of (serve c s))
  serve-IsStep c s valid = IsServed-IsStep valid (serve-IsServed c s valid)

  pub serve_all-IsValid :
      (cs : List Call) (s : IdentityRepository) → IsValid s → IsValid (serve_all cs s)
  unfolding serve_all
  serve_all-IsValid [] s valid = valid
  serve_all-IsValid (c ∷ cs) s valid =
      serve_all-IsValid cs (serve c s) (IsServed-IsValid valid (serve-IsServed c s valid))

  -- After any calls on an empty repository, both indexes agree: an identity that is found by its
  -- identifier is found by its fingerprint, and one that is found by a fingerprint is found by its
  -- identifier and has that fingerprint. Its history ends in its active revision, revisions are
  -- numbered from one, no two of them rest on the same attestation, and an unknown identifier has no
  -- history.
  pub called-IsValid : (cs : List Call) → IsValid (serve_all cs empty)
  called-IsValid cs = serve_all-IsValid cs empty empty-IsValid

  IsServed-keeps_revoked :
      {s t : IdentityRepository} (k : String) (b : IdentityBundle)
      → is_revoked b.identity.status ≡ true
      → lookup k s.by_continuity_uid ≡ some b
      → IsServed s t
      → lookup k t.by_continuity_uid ≡ some b
  IsServed-keeps_revoked k b ended h (kept same) = ap (λ u. lookup k u.by_continuity_uid) same ∙ h
  IsServed-keeps_revoked {s} k b ended h (made c free new first same) =
      ap (λ u. lookup k u.by_continuity_uid) same
      ∙ lookup-insert_other (uid_of c) k c s.by_continuity_uid
          (λ q. cc (ap (λ u. lookup u s.by_continuity_uid) q, new, h))
      ∙ h
  IsServed-keeps_revoked {s} k b ended h
        (revised current c rs held alive anchor next written fresh same) =
      ap (λ u. lookup k u.by_continuity_uid) same
      ∙ lookup-insert_other (uid_of c) k c s.by_continuity_uid (λ q.
        let is_b : some current ≡ some b =
          sym held ∙ ap (λ u. lookup u s.by_continuity_uid) q ∙ h in
        still_alive is_b)
      ∙ h
    where
      still_alive : some current ≢ some b
      still_alive q = cc (ap revoked_one q, alive, ended)
        where
          revoked_one : Option IdentityBundle → Bool
          revoked_one none = false
          revoked_one (some x) = is_revoked x.identity.status

  -- A revoked identity stays as it is through any calls on a valid repository.
  pub revoked-IsFinal :
      (cs : List Call) (s : IdentityRepository) (k : String) (b : IdentityBundle)
      → IsValid s
      → lookup k s.by_continuity_uid ≡ some b
      → b.identity.status ≡ IdentityStatus.revoked
      → lookup k (serve_all cs s).by_continuity_uid ≡ some b
  unfolding serve_all
  revoked-IsFinal [] s k b valid h ended = h
  revoked-IsFinal (c ∷ cs) s k b valid h ended =
      let served = serve-IsServed c s valid in
      revoked-IsFinal cs (serve c s) k b (IsServed-IsValid valid served)
        (IsServed-keeps_revoked k b (ap is_revoked ended) h served) ended
