-- ===== src/Contracts/Terms/Signed.antt =====
-- What the payload that railone_contracts/models.py signs for quoted terms carries.
use mathlib.Core.Path.{◌∙◌}
use railone_core.Prelude.{
  ℕ, String, ◌≡◌, sym, ap, Bool, true, false, not, ◌&&◌, ltb, refl, Option, ok, ok-injective,
  raise_if, and_then, and_then-eq_ok, ◌≤◌, ◌<◌, arith,
}
use railone_core.Prelude.Equality.{string_eq}
use railone_core.Prelude.Int.{ℤ, pos, negsuc, leb_ℤ, ◌≤ℤ◌}
use railone_core.Crypto.Json.{Json, int, fields_of, find_field, item, as_natural, natural_at}
use railone_core.Contracts.Validation.{require_text, require_minor_units}
use railone_core.Contracts.Terms.{
  QuoteTerms, TermAmounts, is_debit, is_credit, actor_payload, term_amounts, check_rate,
  terms_payload,
}
use railone_core.Contracts.Terms.Bounds.{minor_units-eq, terms_payload-AreBounded}

-- The amounts of the terms, as numbers.
record Amounts (t : QuoteTerms) (a : TermAmounts) : Type 0 where
  pub amount : t.amount_minor ≡ pos a.amount
  pub receive : t.receive_amount_minor ≡ pos a.receive
  pub fee : t.total_fee_minor ≡ pos a.fee
  pub budget : t.routing_budget_minor ≡ pos a.budget

term_amounts-Amounts : (t : QuoteTerms) (a : TermAmounts) → term_amounts t ≡ ok a → Amounts t a
unfolding term_amounts
term_amounts-Amounts t a h =
    let (amount, is_amount, h₁) =
      and_then-eq_ok (require_minor_units "amount_minor" t.amount_minor false) _ h in
    let (receive, is_receive, h₂) =
      and_then-eq_ok (require_minor_units "receive_amount_minor" t.receive_amount_minor false) _
        h₁ in
    let (fee, is_fee, h₃) =
      and_then-eq_ok (require_minor_units "total_fee_minor" t.total_fee_minor true) _ h₂ in
    let (budget, is_budget, h₄) =
      and_then-eq_ok (require_minor_units "routing_budget_minor" t.routing_budget_minor true) _
        h₃ in
    let (_, _, h₅) =
      and_then-eq_ok
        (raise_if (not (leb_ℤ (pos 1) t.max_attempts && leb_ℤ t.max_attempts (pos 10))) _) _ h₄ in
    let (_, _, h₆) = and_then-eq_ok (raise_if (ltb fee budget) _) _ h₅ in
    let is = ok-injective h₆ in
    record {
      amount =
          minor_units-eq "amount_minor" t.amount_minor false amount is_amount
          ∙ ap (λ (x : TermAmounts). pos x.amount) is;
      receive =
          minor_units-eq "receive_amount_minor" t.receive_amount_minor false receive is_receive
          ∙ ap (λ (x : TermAmounts). pos x.receive) is;
      fee =
          minor_units-eq "total_fee_minor" t.total_fee_minor true fee is_fee
          ∙ ap (λ (x : TermAmounts). pos x.fee) is;
      budget =
          minor_units-eq "routing_budget_minor" t.routing_budget_minor true budget is_budget
          ∙ ap (λ (x : TermAmounts). pos x.budget) is;
    }

-- The numbers that are read back from the payload are those of the terms, and are within bounds.
pub record IsSigned (t : QuoteTerms) (payload : Json) : Type 0 where
  pub amount : ℕ
  pub receive : ℕ
  pub fee : ℕ
  pub budget : ℕ
  pub attempts : ℕ
  pub read_amount : natural_at "amount_minor" payload ≡ ok amount
  pub read_receive : natural_at "receive_amount_minor" payload ≡ ok receive
  pub read_fee : natural_at "total_fee_minor" payload ≡ ok fee
  pub read_budget : natural_at "routing_budget_minor" payload ≡ ok budget
  pub read_attempts : natural_at "max_attempts" payload ≡ ok attempts
  pub own_amount : t.amount_minor ≡ pos amount
  pub own_receive : t.receive_amount_minor ≡ pos receive
  pub own_fee : t.total_fee_minor ≡ pos fee
  pub own_budget : t.routing_budget_minor ≡ pos budget
  pub own_attempts : t.max_attempts ≡ pos attempts
  pub some_amount : 0 < amount
  pub some_receive : 0 < receive
  pub covered : budget ≤ fee
  pub some_attempt : 0 < attempts
  pub few_attempts : attempts ≤ 10

-- The numbers that a payload carries.
record Carries (payload : Json) (a : TermAmounts) (attempts : ℤ) : Type 0 where
  pub amount : natural_at "amount_minor" payload ≡ ok a.amount
  pub receive : natural_at "receive_amount_minor" payload ≡ ok a.receive
  pub fee : natural_at "total_fee_minor" payload ≡ ok a.fee
  pub budget : natural_at "routing_budget_minor" payload ≡ ok a.budget
  pub limit : item "max_attempts" payload ≡ ok (int attempts)

limit-pos : (v : ℤ) → pos 1 ≤ℤ v → (n : ℕ) × (v ≡ pos n)
limit-pos (pos n) h = (n, refl)
limit-pos (negsuc n) h = absurd (omega (arith, h))

module _ (decimal : String → Option Bool) where
  terms_payload-Carries :
      (t : QuoteTerms) (payload : Json)
      → terms_payload decimal t ≡ ok payload
      → (a : TermAmounts) × (term_amounts t ≡ ok a) × Carries payload a t.max_attempts
  unfolding terms_payload natural_at as_natural item find_field fields_of
  terms_payload-Carries t payload h =
      let (a, are, h₁) = and_then-eq_ok (term_amounts t) _ h in
      let (rate, _, h₂) = and_then-eq_ok (check_rate decimal t.fx_rate) _ h₁ in
      let (_, _, h₃) = and_then-eq_ok (raise_if (not (is_debit t.payer.endpoint.role)) _) _ h₂ in
      let (_, _, h₄) =
        and_then-eq_ok (raise_if (not (is_credit t.beneficiary.endpoint.role)) _) _ h₃ in
      let (_, _, h₅) = and_then-eq_ok (require_text "request_id" t.request_id) _ h₄ in
      let (_, _, h₆) = and_then-eq_ok (actor_payload t.payer) _ h₅ in
      let (_, _, h₇) = and_then-eq_ok (actor_payload t.beneficiary) _ h₆ in
      let (_, _, h₈) = and_then-eq_ok (require_text "currency_from" t.currency_from) _ h₇ in
      let (_, _, h₉) = and_then-eq_ok (require_text "currency_to" t.currency_to) _ h₈ in
      let (_, _, h₁₀) = and_then-eq_ok (require_text "corridor_id" t.corridor_id) _ h₉ in
      let (_, _, h₁₁) = and_then-eq_ok (require_text "service_level" t.service_level) _ h₁₀ in
      let (_, _, h₁₂) =
        and_then-eq_ok (require_text "routing_policy_id" t.routing_policy_id) _ h₁₁ in
      let (_, _, is) = and_then-eq_ok (require_text "pricing_version" t.pricing_version) _ h₁₂ in
      (
        a,
        are,
        record {
          amount = ap (λ r. and_then r (natural_at "amount_minor")) (sym is);
          receive = ap (λ r. and_then r (natural_at "receive_amount_minor")) (sym is);
          fee = ap (λ r. and_then r (natural_at "total_fee_minor")) (sym is);
          budget = ap (λ r. and_then r (natural_at "routing_budget_minor")) (sym is);
          limit = ap (λ r. and_then r (item "max_attempts")) (sym is);
        },
      )

  -- The payload of quoted terms carries, under their names, the amount, the receive
  -- amount, the fee, the routing budget and the attempt limit of the terms. Read back from it, both
  -- amounts are positive, the routing budget is within the fee, and the limit is between one and ten.
  pub terms_payload-IsSigned :
      (t : QuoteTerms) (payload : Json) → terms_payload decimal t ≡ ok payload → IsSigned t payload
  unfolding natural_at as_natural
  terms_payload-IsSigned t payload h =
      let (a, are, carries) = terms_payload-Carries t payload h in
      let own = term_amounts-Amounts t a are in
      let bounded = (terms_payload-AreBounded decimal t payload h).0 in
      let (attempts, own_attempts) = limit-pos t.max_attempts bounded.some_attempt in
      let some_amount = rw own.amount at bounded.amount in
      let some_receive = rw own.receive at bounded.receive in
      let covered = rw (own.fee, own.budget) at bounded.budget in
      let some_attempt = rw own_attempts at bounded.some_attempt in
      let few_attempts = rw own_attempts at bounded.few_attempts in
      record {
        amount = a.amount;
        receive = a.receive;
        fee = a.fee;
        budget = a.budget;
        attempts = attempts;
        read_amount = carries.amount;
        read_receive = carries.receive;
        read_fee = carries.fee;
        read_budget = carries.budget;
        read_attempts = rw (carries.limit, own_attempts) refl;
        own_amount = own.amount;
        own_receive = own.receive;
        own_fee = own.fee;
        own_budget = own.budget;
        own_attempts = own_attempts;
        some_amount = omega (arith, some_amount);
        some_receive = omega (arith, some_receive);
        covered = omega (arith, covered);
        some_attempt = omega (arith, some_attempt);
        few_attempts = omega (arith, few_attempts);
      }
