-- ===== src/Contracts/Acceptance/Tests.antt =====
-- Acceptances of railone_contracts/acceptance_service.py: a merchant accepts a quote, and repeats the command
-- after the quote has expired.
use railone_core.Prelude.{◌≡◌, refl, true, false, [], ◌∷◌, none, some, ok, Result, err}
use railone_core.Prelude.Int.{pos}
use railone_core.Prelude.Dict.{lookup, insert}
use railone_core.Prelude.Order.{text_leb}
use railone_core.Crypto.Json.{
  Json, int, text, object, fields_of, items_of, find_field, item, as_text, as_natural, text_at,
  natural_at,
}
use railone_core.Crypto.Canonical.{
  digit, decimal_from, decimal, decimal_ℤ, escape_char, escape, quote, join_comma, member,
  write_object, same_json, content_id, canonical_json, canonical_items, canonical_fields,
}
use railone_core.Prelude.Text.{
  text_length, is_space, lstrip, rstrip, strip, nth_char, upper_char, upper, take_text,
}
use railone_core.Crypto.Signatures.{SignatureEnvelope, SignatureService}
use railone_core.Contracts.Validation.{require_text}
use railone_core.Execution.Models.{Datetime, require_aware}
use railone_core.Authority.{validate_window, sender_core, sign_core, issue_sender_authority}
use railone_core.Contracts.Terms.{
  ContextType, PaymentPurpose, OriginContext, check_context, context_payload,
}
use railone_core.Contracts.Store.{
  ContractStore, replayed, replayed_of, resolve_idempotency, commit_over, commit_acceptance,
}
use railone_core.Contracts.Drafts.{
  QuoteAcceptanceCommand, acceptance_material, check_payer, check_quote, copied, commercial_core,
  sender_authority, drafted_contract,
}
use railone_core.Contracts.Acceptance.{QuoteAcceptanceResult, accept_over, accept}
use railone_core.Contracts.Acceptance.Replay.{accept_replayed}
use railone_core.Contracts.Acceptance.Window.{IsNew, accept-IsNew}

abbrev signed : Json → SignatureEnvelope
signed payload = record { protected = object (fields_of []); payload = payload; signature = "S" }

abbrev signer : SignatureService
signer = record {
  sign_artifact = λ _ payload _ _. ok (signed payload);
  verify_artifact = λ _ _. record { valid = true; reason = "ok" };
  sha256_hex = λ s. decimal (text_length s);
}

abbrev merchant : OriginContext
merchant = record {
  origin_system = "pos";
  origin_intent_id = "I1";
  context_type = ContextType.merchant;
  purpose = PaymentPurpose.supplier_payment;
  continuity_uid = none;
  merchant_id = some "M1";
  branch_id = none;
  partner_id = none;
}

abbrev quoted : Json
quoted = object (
    fields_of (
      ("quote_id", text "Q1")
      ∷ ("issued_at", int (pos 5))
      ∷ ("expires_at", int (pos 300))
      ∷ ("purpose", text "SUPPLIER_PAYMENT")
      ∷ (
        "payer",
        object (fields_of (("actor_type", text "MERCHANT") ∷ ("actor_id", text "M1") ∷ [])),
      )
      ∷ ("beneficiary", object (fields_of []))
      ∷ ("amount_minor", int (pos 8))
      ∷ ("currency_from", text "KES")
      ∷ ("receive_amount_minor", int (pos 7))
      ∷ ("currency_to", text "KES")
      ∷ ("total_fee_minor", int (pos 1))
      ∷ ("routing_budget_minor", int (pos 1))
      ∷ ("fx_rate", text "1")
      ∷ ("corridor_id", text "C")
      ∷ ("service_level", text "S")
      ∷ ("routing_policy_id", text "P")
      ∷ ("pricing_version", text "V")
      ∷ ("max_attempts", int (pos 2))
      ∷ ("endpoint_model_version", int (pos 1))
      ∷ []))

abbrev command : QuoteAcceptanceCommand
command = record {
  signed_quote = signed quoted;
  origin = merchant;
  authorization_method = "PIN";
  authorization_reference = "X";
  idempotency_key = "key";
  authority_ttl_seconds = pos 600;
}

abbrev early : Datetime
early = record { has_zone = true; micros = 7000000 }

-- The quote has expired.
abbrev late : Datetime
late = record { has_zone = true; micros = 900000000 }

abbrev empty : ContractStore
empty = record { idempotency = []; quote_to_utt = []; utts = [] }

unfoldable answer : QuoteAcceptanceResult
answer = result_in (accept signer "K1" "K2" command early empty).0
  where
    result_in : Result QuoteAcceptanceResult → QuoteAcceptanceResult
    result_in (ok r) = r
    result_in (err _) = record {
      contract = record {
        signed_utt = signed quoted;
        sender_authority = signed quoted;
        quote_id = "";
        utt_id = "";
        request_sha256 = "";
        accepted_at = 0;
      };
      replayed = true;
    }

unfoldable after : ContractStore
after = (accept signer "K1" "K2" command early empty).1

record Run : Type 0 where
  pub accepted : accept signer "K1" "K2" command early empty ≡ (ok answer, after)
  pub fresh : answer.replayed ≡ false

run : Run
unfolding lookup insert fields_of items_of find_field item as_text as_natural text_at natural_at
    digit decimal_from decimal decimal_ℤ escape_char escape quote join_comma member write_object
    same_json content_id canonical_json canonical_items canonical_fields is_space lstrip rstrip
    strip nth_char upper_char upper take_text require_text require_aware validate_window sender_core
    sign_core issue_sender_authority check_context context_payload replayed replayed_of
    resolve_idempotency commit_over commit_acceptance acceptance_material check_payer check_quote
    copied commercial_core sender_authority drafted_contract accept_over accept answer after
    text_leb
run = record { accepted = refl; fresh = refl }

accept_replayed_example :
    accept signer "K1" "K2" command late after
    ≡ (ok (record { contract = answer.contract; replayed = true }), after)
accept_replayed_example =
    accept_replayed signer "K1" "K2" command early late answer empty after run.accepted

accept-IsNew_example : IsNew signer "K1" "K2" command early answer empty after
accept-IsNew_example =
    accept-IsNew signer "K1" "K2" command early answer empty after run.accepted run.fresh
