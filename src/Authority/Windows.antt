-- ===== src/Authority/Windows.antt =====
-- How long the authority lasts that railone_authority/service.py signs.
use railone_core.Prelude.{
  ℕ, ◌+◌, ◌≤◌, ◌<◌, ◌≡◌, true, not, ok, and_then-eq_ok, raise_if, raise_if-eq_ok, not-eq_false,
  value_error, permission_error, ltb, arith,
}
use Prim.Native.String.{◌++◌ as append}
use railone_core.Crypto.Json.{natural_at}
use railone_core.Crypto.Signatures.{SignatureEnvelope, SignatureService, ArtifactType}
use railone_core.Execution.Models.{epoch_seconds}
use railone_core.Authority.{ReceiverParticipation, validate_window, issue_receiver_participation}

pub validate_window-le :
    (issued expiry : ℕ)
    → validate_window issued expiry ≡ ok tt
    → (issued < expiry) × (expiry ≤ issued + 900000000)
unfolding validate_window
validate_window-le issued expiry h = ground arith

module _ (signatures : SignatureService) (p : ReceiverParticipation) where
  -- The participation of a receiver is signed only under an authority of the sender whose signature holds;
  -- it lasts some time, at most a quarter of an hour, and not past the authority's own expiry.
  pub receiver-within_sender :
      (signed : SignatureEnvelope)
      → issue_receiver_participation signatures p ≡ ok signed
      → ((signatures.verify_artifact p.sender_authority ArtifactType.etk_s).valid ≡ true)
        × (p.attested_at < p.expires_at)
        × (p.expires_at ≤ p.attested_at + 900000000)
        × ((limit : ℕ) × (natural_at "expires_at" p.sender_authority.payload ≡ ok limit)
            × (epoch_seconds p.expires_at ≤ limit))
  unfolding issue_receiver_participation
  receiver-within_sender signed h =
      let check = signatures.verify_artifact p.sender_authority ArtifactType.etk_s in
      let (_, valid, h₁) =
        and_then-eq_ok
          (raise_if (not check.valid)
            (permission_error (append "sender authority rejected: " check.reason)))
          _ h in
      let (_, window, h₂) = and_then-eq_ok (validate_window p.attested_at p.expires_at) _ h₁ in
      let (limit, read, h₃) =
        and_then-eq_ok (natural_at "expires_at" p.sender_authority.payload) _ h₂ in
      let (_, inside, _) =
        and_then-eq_ok
          (raise_if (ltb limit (epoch_seconds p.expires_at))
            (value_error "ETK-R cannot outlive ETK-S"))
          _ h₃ in
      let lasts = validate_window-le p.attested_at p.expires_at window in
      (
        not-eq_false check.valid (raise_if-eq_ok _ _ valid),
        lasts.0,
        lasts.1,
        (
          limit,
          read,
          ground (arith, raise_if-eq_ok (ltb limit (epoch_seconds p.expires_at)) _ inside),
        ),
      )
