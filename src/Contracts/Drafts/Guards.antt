-- ===== src/Contracts/Drafts/Guards.antt =====
-- What holds of a contract that railone_contracts/acceptance_service.py signs.
use Prim.Native.String.{◌++◌ as append}
use railone_core.Prelude.{
  ℕ, ◌≤◌, ◌<◌, String, ◌≡◌, refl, true, not, ok, Returns, and_then-Returns, and_then-eq_ok,
  raise_if, raise_if-eq_ok, not-eq_false, permission_error, leb, ltb, arith,
}
use railone_core.Crypto.Json.{Json, object, field, text, item, text_at, natural_at}
use railone_core.Crypto.Canonical.{same_json, content_id}
use railone_core.Crypto.Signatures.{SignatureService, ArtifactType}
use railone_core.Execution.Models.{epoch_seconds}
use railone_core.Contracts.Store.{AcceptedContract}
use railone_core.Contracts.Drafts.{
  QuoteAcceptanceCommand, check_quote, commercial_core, sender_authority, drafted_contract,
}

-- The quote is valid at an instant, and for the purpose of the origin.
pub record IsOpen (quote origin : Json) (epoch : ℕ) : Type 0 where
  pub issued : ℕ
  pub expires : ℕ
  pub issued_at : natural_at "issued_at" quote ≡ ok issued
  pub expires_at : natural_at "expires_at" quote ≡ ok expires
  pub from_then : issued ≤ epoch
  pub before : epoch < expires
  pub quoted : Json
  pub purpose : Json
  pub quoted_purpose : item "purpose" quote ≡ ok quoted
  pub own_purpose : item "purpose" origin ≡ ok purpose
  pub same_purpose : same_json quoted purpose ≡ true

check_quote-IsOpen :
    (c : QuoteAcceptanceCommand) (origin : Json) (epoch : ℕ)
    → check_quote c origin epoch ≡ ok tt
    → IsOpen c.signed_quote.payload origin epoch
unfolding check_quote
check_quote-IsOpen c origin epoch h =
    let quote = c.signed_quote.payload in
    let (issued, is_issued, h₁) = and_then-eq_ok (natural_at "issued_at" quote) _ h in
    let (_, started, h₂) =
      and_then-eq_ok
        (raise_if (ltb epoch issued) (permission_error "quote rejected: QUOTE_NOT_YET_VALID")) _
        h₁ in
    let (expires, is_expires, h₃) = and_then-eq_ok (natural_at "expires_at" quote) _ h₂ in
    let (_, open_yet, h₄) =
      and_then-eq_ok
        (raise_if (leb expires epoch) (permission_error "quote rejected: QUOTE_EXPIRED")) _ h₃ in
    let (quoted, is_quoted, h₅) = and_then-eq_ok (item "purpose" quote) _ h₄ in
    let (purpose, is_purpose, h₆) = and_then-eq_ok (item "purpose" origin) _ h₅ in
    let (_, same, _) =
      and_then-eq_ok
        (raise_if (not (same_json quoted purpose))
          (permission_error "quote purpose does not match origin purpose"))
        _ h₆ in
    record {
      issued = issued;
      expires = expires;
      issued_at = is_issued;
      expires_at = is_expires;
      from_then = ground (arith, raise_if-eq_ok (ltb epoch issued) _ started);
      before = ground (arith, raise_if-eq_ok (leb expires epoch) _ open_yet);
      quoted = quoted;
      purpose = purpose;
      quoted_purpose = is_quoted;
      own_purpose = is_purpose;
      same_purpose = not-eq_false (same_json quoted purpose) (raise_if-eq_ok _ _ same);
    }

module _ (signatures : SignatureService) (utt_key_id authority_key_id : String)
    (c : QuoteAcceptanceCommand) (origin : Json) (request_sha256 : String) (at : ℕ) where
  pub record IsGuarded (d : AcceptedContract) : Type 0 where
    pub request : d.request_sha256 ≡ request_sha256
    pub instant : d.accepted_at ≡ at
    pub quote : text_at "quote_id" c.signed_quote.payload ≡ ok d.quote_id
    pub signed : (signatures.verify_artifact c.signed_quote ArtifactType.quote).valid ≡ true
    pub is_open : IsOpen c.signed_quote.payload origin (epoch_seconds at)

  pub drafted_contract-IsGuarded :
      Returns IsGuarded
        (drafted_contract signatures utt_key_id authority_key_id c origin request_sha256 at)
  unfolding drafted_contract
  drafted_contract-IsGuarded =
      let check = signatures.verify_artifact c.signed_quote ArtifactType.quote in
      and_then-Returns IsGuarded
        (raise_if (not check.valid) (permission_error (append "quote rejected: " check.reason))) _
        λ _ valid.
          and_then-Returns IsGuarded (check_quote c origin (epoch_seconds at)) _ λ _ checked.
            and_then-Returns IsGuarded
              (commercial_core signatures c origin request_sha256 (epoch_seconds at)) _
              λ core _.
                let utt_id = content_id signatures.sha256_hex "UTT" (object core) in
                and_then-Returns IsGuarded
                  (sender_authority signatures c origin utt_id authority_key_id at) _
                  λ authority _.
                    and_then-Returns IsGuarded (item "etk_s_id" authority.payload) _ λ etk_s_id _.
                      and_then-Returns IsGuarded
                        (signatures.sign_artifact ArtifactType.utt
                          (object (
                            field "utt_id" (text utt_id) (
                              field "etk_s_id" etk_s_id
                                (field "commercial_state" (text "ACCEPTED") core))))
                          utt_key_id at)
                        _
                        λ signed_utt _.
                          and_then-Returns IsGuarded (text_at "quote_id" c.signed_quote.payload) _
                            λ quote_id is_quote. record {
                              request = refl;
                              instant = refl;
                              quote = is_quote;
                              signed = not-eq_false check.valid (raise_if-eq_ok _ _ valid);
                              is_open = check_quote-IsOpen c origin (epoch_seconds at) checked;
                            }
