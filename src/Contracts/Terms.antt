-- ===== src/Contracts/Terms.antt =====
-- The quoted terms of railone_contracts/models.py and the payloads that are signed. `Decimal(text)` is an
-- argument: nothing if the text is no decimal, else whether the number is positive.
pub mod Bounds
pub mod Signed
use railone_core.Prelude.{
  ℕ, String, Bool, true, false, not, ◌&&◌, List, [], ◌∷◌, ◌++◌, Option, none, some, Result, ok, err,
  value_error, raise_if, and_then, if◌then◌else◌, ltb,
}
use railone_core.Prelude.Int.{ℤ, pos, leb_ℤ}
use railone_core.Prelude.Text.{is_empty, upper, title_from, take_text}
use railone_core.Crypto.Json.{Json, int, text, object, fields_of}
use railone_core.Contracts.Validation.{require_text, require_minor_units}
use railone_core.Contracts.Endpoints.{
  AccountRole, debit, credit, AccountType, bank_account, mobile_money, wallet, card_account,
  AccountEndpoint,
}

pub data ContextType : Type 0 where
  p2p merchant partner : ContextType

pub data PaymentPurpose : Type 0 where
  person_to_person supplier_payment branch_fund_transfer merchant_to_merchant : PaymentPurpose
  refund expense_settlement bulk_disbursement : PaymentPurpose

abbrev pub context_value : ContextType → String
context_value p2p = "P2P"
context_value merchant = "MERCHANT"
context_value partner = "PARTNER"

abbrev pub purpose_value : PaymentPurpose → String
purpose_value person_to_person = "PERSON_TO_PERSON"
purpose_value supplier_payment = "SUPPLIER_PAYMENT"
purpose_value branch_fund_transfer = "BRANCH_FUND_TRANSFER"
purpose_value merchant_to_merchant = "MERCHANT_TO_MERCHANT"
purpose_value refund = "REFUND"
purpose_value expense_settlement = "EXPENSE_SETTLEMENT"
purpose_value bulk_disbursement = "BULK_DISBURSEMENT"

abbrev pub role_value : AccountRole → String
role_value debit = "DEBIT"
role_value credit = "CREDIT"

abbrev pub account_type_value : AccountType → String
account_type_value bank_account = "BANK_ACCOUNT"
account_type_value mobile_money = "MOBILE_MONEY"
account_type_value wallet = "WALLET"
account_type_value card_account = "CARD_ACCOUNT"

-- `AccountEndpoint.to_payload`
unfoldable pub endpoint_payload : AccountEndpoint → Result Json
unfolding fields_of
endpoint_payload e = and_then (require_text "institution_id" e.institution_id) λ institution.
    and_then (require_text "institution_display_name" e.institution_display_name) λ name.
      and_then (require_text "account_binding_id" e.account_binding_id) λ binding.
        and_then (require_text "display_hint" e.display_hint) λ hint.
          and_then (require_text "contact_binding_id" e.contact_binding_id) λ contact.
            and_then (require_text "attestation_reference" e.attestation_reference) λ attestation.
              ok (
                object (
                  fields_of (
                    ("institution_id", text institution)
                    ∷ ("institution_display_name", text (take_text 48 name))
                    ∷ ("account_binding_id", text binding)
                    ∷ ("role", text (role_value e.role))
                    ∷ ("account_type", text (account_type_value e.account_type))
                    ∷ ("display_hint", text (take_text 32 hint))
                    ∷ ("contact_binding_id", text contact)
                    ∷ ("attestation_reference", text attestation)
                    ∷ [])))

pub record ActorReference : Type 0 where
  pub actor_type : String
  pub actor_id : String
  pub endpoint : AccountEndpoint
  pub display_name : Option String

-- `self.display_name or require_text("actor_type", self.actor_type).title()`
unfoldable pub display_of : ActorReference → Result String
unfolding title_from
display_of a = elim a.display_name [
  | none ↦ and_then (require_text "actor_type" a.actor_type) λ t. ok (title_from false t)
  | some name ↦
      if is_empty name
      then and_then (require_text "actor_type" a.actor_type) (λ t. ok (title_from false t))
      else ok name
]

-- `ActorReference.to_payload`
unfoldable pub actor_payload : ActorReference → Result Json
unfolding fields_of display_of endpoint_payload
actor_payload a = and_then (display_of a) λ display.
    and_then (require_text "actor_type" a.actor_type) λ actor_type.
      and_then (require_text "actor_id" a.actor_id) λ actor_id.
        and_then (require_text "display_name" display) λ name.
          and_then (endpoint_payload a.endpoint) λ endpoint. ok (
            object (
              fields_of (
                ("actor_type", text (upper actor_type))
                ∷ ("actor_id", text actor_id)
                ∷ ("display_name", text (take_text 48 name))
                ∷ ("endpoint", endpoint)
                ∷ [])))

pub record QuoteTerms : Type 0 where
  pub request_id : String
  pub payer : ActorReference
  pub beneficiary : ActorReference
  pub purpose : PaymentPurpose
  pub amount_minor : ℤ
  pub currency_from : String
  pub receive_amount_minor : ℤ
  pub currency_to : String
  pub total_fee_minor : ℤ
  pub routing_budget_minor : ℤ
  pub fx_rate : String
  pub corridor_id : String
  pub service_level : String
  pub routing_policy_id : String
  pub pricing_version : String
  pub max_attempts : ℤ

abbrev pub is_debit : AccountRole → Bool
is_debit debit = true
is_debit credit = false

abbrev pub is_credit : AccountRole → Bool
is_credit debit = false
is_credit credit = true

-- The amounts of the terms, once they are valid.
pub record TermAmounts : Type 0 where
  pub amount : ℕ
  pub receive : ℕ
  pub fee : ℕ
  pub budget : ℕ

-- The checks on numbers that `QuoteTerms.to_payload` starts with.
unfoldable pub term_amounts : QuoteTerms → Result TermAmounts
term_amounts t = and_then (require_minor_units "amount_minor" t.amount_minor false) λ amount.
    and_then (require_minor_units "receive_amount_minor" t.receive_amount_minor false) λ receive.
      and_then (require_minor_units "total_fee_minor" t.total_fee_minor true) λ fee.
        and_then (require_minor_units "routing_budget_minor" t.routing_budget_minor true) λ budget.
          and_then
            (raise_if (not (leb_ℤ (pos 1) t.max_attempts && leb_ℤ t.max_attempts (pos 10)))
              (value_error "max_attempts must be between 1 and 10"))
            λ _.
              and_then
                (raise_if (ltb fee budget)
                  (value_error "routing budget cannot exceed the customer fee"))
                λ _. ok (record { amount = amount; receive = receive; fee = fee; budget = budget })

module _ (decimal : String → Option Bool) where
  unfoldable pub check_rate : String → Result String
  check_rate rate = and_then (require_text "fx_rate" rate) λ fx_rate. elim (decimal fx_rate) [
    | none ↦ err (value_error "fx_rate must be a decimal string")
    | some positive ↦ if positive then ok fx_rate else err (value_error "fx_rate must be positive")
  ]

  -- `QuoteTerms.to_payload`
  unfoldable pub terms_payload : QuoteTerms → Result Json
  unfolding fields_of term_amounts check_rate actor_payload
  terms_payload t = and_then (term_amounts t) λ amounts. and_then (check_rate t.fx_rate) λ fx_rate.
      and_then
        (raise_if (not (is_debit t.payer.endpoint.role))
          (value_error "payer endpoint must be a DEBIT binding"))
        λ _.
          and_then
            (raise_if (not (is_credit t.beneficiary.endpoint.role))
              (value_error "beneficiary endpoint must be a CREDIT binding"))
            λ _. assemble amounts fx_rate
    where
      assemble : TermAmounts → String → Result Json
      assemble amounts fx_rate = and_then (require_text "request_id" t.request_id) λ request.
          and_then (actor_payload t.payer) λ payer.
            and_then (actor_payload t.beneficiary) λ beneficiary.
              and_then (require_text "currency_from" t.currency_from) λ currency_from.
                and_then (require_text "currency_to" t.currency_to) λ currency_to.
                  and_then (require_text "corridor_id" t.corridor_id) λ corridor.
                    and_then (require_text "service_level" t.service_level) λ service.
                      and_then (require_text "routing_policy_id" t.routing_policy_id) λ policy.
                        and_then (require_text "pricing_version" t.pricing_version) λ pricing. ok (
                          object (
                            fields_of (
                              ("request_id", text request)
                              ∷ ("payer", payer)
                              ∷ ("beneficiary", beneficiary)
                              ∷ ("purpose", text (purpose_value t.purpose))
                              ∷ ("amount_minor", int (pos amounts.amount))
                              ∷ ("currency_from", text (upper currency_from))
                              ∷ ("receive_amount_minor", int (pos amounts.receive))
                              ∷ ("currency_to", text (upper currency_to))
                              ∷ ("total_fee_minor", int (pos amounts.fee))
                              ∷ ("routing_budget_minor", int (pos amounts.budget))
                              ∷ ("fx_rate", text fx_rate)
                              ∷ ("corridor_id", text corridor)
                              ∷ ("service_level", text service)
                              ∷ ("routing_policy_id", text policy)
                              ∷ ("pricing_version", text pricing)
                              ∷ ("pricing_model", text "PER_INTENT")
                              ∷ ("max_attempts", int t.max_attempts)
                              ∷ ("custody_model", text "NON_CUSTODIAL")
                              ∷ ("endpoint_model_version", int (pos 1))
                              ∷ [])))

-- `OriginContext`
pub record OriginContext : Type 0 where
  pub origin_system : String
  pub origin_intent_id : String
  pub context_type : ContextType
  pub purpose : PaymentPurpose
  pub continuity_uid : Option String
  pub merchant_id : Option String
  pub branch_id : Option String
  pub partner_id : Option String

-- `not value`
abbrev pub is_missing : Option String → Bool
is_missing none = true
is_missing (some s) = is_empty s

abbrev pub is_p2p_purpose : PaymentPurpose → Bool
is_p2p_purpose person_to_person = true
is_p2p_purpose _ = false

-- What each context requires.
unfoldable pub check_context : OriginContext → ContextType → Result (Unit {0})
check_context o merchant =
    raise_if (is_missing o.merchant_id) (value_error "merchant_id is required for merchant context")
check_context o partner =
    raise_if (is_missing o.partner_id) (value_error "partner_id is required for partner context")
check_context o p2p =
    and_then
      (raise_if (not (is_p2p_purpose o.purpose))
        (value_error "P2P context requires PERSON_TO_PERSON purpose"))
      λ _.
        raise_if (is_missing o.continuity_uid)
          (value_error "continuity_uid is required for P2P context")

-- A member that is written only if there is a value.
abbrev pub optional_member : String → Option String → Result (List (String × Json))
optional_member name none = ok []
optional_member name (some value) =
    and_then (require_text name value) λ given. ok ((name, text given) ∷ [])

-- `OriginContext.to_payload`
unfoldable pub context_payload : OriginContext → Result Json
unfolding fields_of check_context
context_payload o = and_then (check_context o o.context_type) λ _.
    and_then (require_text "origin_system" o.origin_system) λ system.
      and_then (require_text "origin_intent_id" o.origin_intent_id) λ intent.
        and_then (optional_member "continuity_uid" o.continuity_uid) λ uid.
          and_then (optional_member "merchant_id" o.merchant_id) λ merchant_id.
            and_then (optional_member "branch_id" o.branch_id) λ branch.
              and_then (optional_member "partner_id" o.partner_id) λ partner_id. ok (
                object (
                  fields_of (
                    (("origin_system", text (upper system))
                      ∷ ("origin_intent_id", text intent)
                      ∷ ("context_type", text (context_value o.context_type))
                      ∷ ("purpose", text (purpose_value o.purpose))
                      ∷ [])
                    ++ uid
                    ++ merchant_id
                    ++ branch
                    ++ partner_id)))
