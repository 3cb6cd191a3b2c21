-- ===== src/Contracts/Terms/Bounds.antt =====
-- What the terms that railone_contracts/models.py signs satisfy.
use railone_core.Prelude.{
  ℕ, String, ◌≡◌, refl, Bool, true, false, not, ◌&&◌, Option, ok, value_error, raise_if,
  raise_if-eq_ok, and_then-eq_ok, ltb, not-eq_false, ◌≤◌, arith,
}
use railone_core.Prelude.Int.{ℤ, pos, negsuc, leb_ℤ, ◌≤ℤ◌}
use railone_core.Crypto.Json.{Json}
use railone_core.Contracts.Validation.{require_minor_units}
use railone_core.Contracts.Endpoints.{AccountRole, debit, credit}
use railone_core.Contracts.Terms.{
  QuoteTerms, TermAmounts, is_debit, is_credit, term_amounts, check_rate, terms_payload,
}

pub minor_units-eq :
    (name : String) (v : ℤ) (zero_too : Bool) (n : ℕ)
    → require_minor_units name v zero_too ≡ ok n
    → v ≡ pos n
unfolding require_minor_units
minor_units-eq name (negsuc m) true n h = cc
minor_units-eq name (negsuc m) false n h = cc
minor_units-eq name (pos m) true n h = cc
minor_units-eq name (pos m) false n h = ground arith

positive : (name : String) (v : ℤ) (n : ℕ) → require_minor_units name v false ≡ ok n → pos 1 ≤ℤ v
unfolding require_minor_units
positive name (negsuc m) n h = cc
positive name (pos m) n h = ground arith

debit_only : (r : AccountRole) → is_debit r ≡ true → r ≡ debit
debit_only debit h = refl
debit_only credit h = cc

credit_only : (r : AccountRole) → is_credit r ≡ true → r ≡ credit
credit_only debit h = cc
credit_only credit h = refl

-- The numbers of the terms are within their bounds.
pub record AreBounded (t : QuoteTerms) : Type 0 where
  pub amount : pos 1 ≤ℤ t.amount_minor
  pub receive : pos 1 ≤ℤ t.receive_amount_minor
  pub budget : t.routing_budget_minor ≤ℤ t.total_fee_minor
  pub some_attempt : pos 1 ≤ℤ t.max_attempts
  pub few_attempts : t.max_attempts ≤ℤ pos 10

attempts_within :
    (v : ℤ)
    → raise_if
        (not (leb_ℤ (pos 1) v && leb_ℤ v (pos 10)))
        (value_error "max_attempts must be between 1 and 10")
      ≡ ok tt
    → (pos 1 ≤ℤ v) × (v ≤ℤ pos 10)
attempts_within (pos n) h = ground arith
attempts_within (negsuc n) h = ground arith

term_amounts-AreBounded :
    (t : QuoteTerms) (amounts : TermAmounts) → term_amounts t ≡ ok amounts → AreBounded t
unfolding term_amounts
term_amounts-AreBounded t amounts h =
    let (amount, is_amount, h₁) =
      and_then-eq_ok (require_minor_units "amount_minor" t.amount_minor false) _ h in
    let (receive, is_receive, h₂) =
      and_then-eq_ok (require_minor_units "receive_amount_minor" t.receive_amount_minor false) _
        h₁ in
    let (fee, is_fee, h₃) =
      and_then-eq_ok (require_minor_units "total_fee_minor" t.total_fee_minor true) _ h₂ in
    let (budget, is_budget, h₄) =
      and_then-eq_ok (require_minor_units "routing_budget_minor" t.routing_budget_minor true) _
        h₃ in
    let (_, few, h₅) =
      and_then-eq_ok
        (raise_if (not (leb_ℤ (pos 1) t.max_attempts && leb_ℤ t.max_attempts (pos 10)))
          (value_error "max_attempts must be between 1 and 10"))
        _ h₄ in
    let (_, covered, _) =
      and_then-eq_ok
        (raise_if (ltb fee budget) (value_error "routing budget cannot exceed the customer fee")) _
        h₅ in
    let attempts = attempts_within t.max_attempts few in
    record {
      amount = positive "amount_minor" t.amount_minor amount is_amount;
      receive = positive "receive_amount_minor" t.receive_amount_minor receive is_receive;
      budget =
          let fits : budget ≤ fee = ground (arith, raise_if-eq_ok (ltb fee budget) _ covered) in
          rw
            (
              minor_units-eq "total_fee_minor" t.total_fee_minor true fee is_fee,
              minor_units-eq "routing_budget_minor" t.routing_budget_minor true budget is_budget,
            )
            (omega (arith, fits));
      some_attempt = attempts.0;
      few_attempts = attempts.1;
    }

module _ (decimal : String → Option Bool) where
  -- Terms that are signed have positive amounts on both sides, a routing budget within the fee, between
  -- one and ten attempts, a payer whose endpoint is for debit and a beneficiary whose endpoint is for
  -- credit.
  pub terms_payload-AreBounded :
      (t : QuoteTerms) (payload : Json)
      → terms_payload decimal t ≡ ok payload
      → AreBounded t × (t.payer.endpoint.role ≡ debit) × (t.beneficiary.endpoint.role ≡ credit)
  unfolding terms_payload
  terms_payload-AreBounded t payload h =
      let (amounts, are_amounts, h₁) = and_then-eq_ok (term_amounts t) _ h in
      let (rate, _, h₂) = and_then-eq_ok (check_rate decimal t.fx_rate) _ h₁ in
      let (_, pays, h₃) =
        and_then-eq_ok
          (raise_if (not (is_debit t.payer.endpoint.role))
            (value_error "payer endpoint must be a DEBIT binding"))
          _ h₂ in
      let (_, earns, _) =
        and_then-eq_ok
          (raise_if (not (is_credit t.beneficiary.endpoint.role))
            (value_error "beneficiary endpoint must be a CREDIT binding"))
          _ h₃ in
      (
        term_amounts-AreBounded t amounts are_amounts,
        debit_only t.payer.endpoint.role
            (not-eq_false (is_debit t.payer.endpoint.role) (raise_if-eq_ok _ _ pays)),
        credit_only t.beneficiary.endpoint.role
            (not-eq_false (is_credit t.beneficiary.endpoint.role) (raise_if-eq_ok _ _ earns)),
      )
