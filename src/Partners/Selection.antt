-- ===== src/Partners/Selection.antt =====
-- An endpoint that railone_partners/store.py selects is one that it validates.
use mathlib.Core.Path.{◌∙◌, subst}
use railone_core.Prelude.{
  String, ◌≡◌, refl, sym, ap, true, not, some, ok, key_error, permission_error, or_raise, raise_if,
  and_then-eq_ok, ok-injective, arith,
}
use railone_core.Prelude.Equality.{◌==◌, string_eq}
use text.Mathlib.TextEquality.{eq_iff}
use railone_core.Prelude.Text.{upper}
use railone_core.Prelude.Dict.{lookup}
use railone_core.Contracts.Endpoints.{
  AccountRole, debit, credit, AccountType, bank_account, mobile_money, wallet, card_account,
  AccountEndpoint,
}
use railone_core.Partners.Models.{AccountBinding}
use railone_core.Partners.Directory.{
  PartnerDirectory, require_binding, is_active_binding, is_active_institution, same_role, same_type,
  select_endpoint, same_binding_material, validate_endpoint,
}

same_role_refl : (r : AccountRole) → same_role r r ≡ true
same_role_refl debit = refl
same_role_refl credit = refl

same_type_refl : (t : AccountType) → same_type t t ≡ true
same_type_refl bank_account = refl
same_type_refl mobile_money = refl
same_type_refl wallet = refl
same_type_refl card_account = refl

text_refl : (s : String) → (s == s) ≡ true
text_refl s = (eq_iff s s).1 refl

same_binding_material_refl : (e : AccountEndpoint) → same_binding_material e e ≡ true
unfolding same_binding_material
same_binding_material_refl e =
    rw
      (
        text_refl e.institution_id,
        text_refl e.account_binding_id,
        same_role_refl e.role,
        same_type_refl e.account_type,
        text_refl e.display_hint,
        text_refl e.contact_binding_id,
        text_refl e.attestation_reference,
      )
      refl

pub require_binding-eq :
    (k : String) (s : PartnerDirectory) (b : AccountBinding)
    → require_binding k s ≡ ok b
    → lookup k s.bindings ≡ some b
unfolding require_binding
require_binding-eq k s b h = ground arith

selected-id :
    (actor k : String) (role : AccountRole) (s : PartnerDirectory) (e : AccountEndpoint)
    (b : AccountBinding)
    → lookup k s.bindings ≡ some b
    → select_endpoint actor k role s ≡ ok e
    → e.account_binding_id ≡ b.account_binding_id
unfolding select_endpoint
selected-id actor k role s e b held h =
    let (b', found, h₁) = and_then-eq_ok (require_binding k s) _ h in
    let (i, _, h₂) =
      and_then-eq_ok
        (or_raise (lookup b'.institution_id s.institutions) (key_error b'.institution_id)) _ h₁ in
    let (_, _, h₃) =
      and_then-eq_ok
        (raise_if (not (b'.actor_id == actor))
          (permission_error "account binding belongs to another actor"))
        _ h₂ in
    let (_, _, h₄) =
      and_then-eq_ok
        (raise_if (not (is_active_binding b'.status))
          (permission_error "account binding is not active"))
        _ h₃ in
    let (_, _, h₅) =
      and_then-eq_ok
        (raise_if (not (is_active_institution i.status))
          (permission_error "partner institution is not active"))
        _ h₄ in
    let (_, _, h₆) =
      and_then-eq_ok
        (raise_if (not (same_role b'.role role))
          (permission_error "account binding has the wrong execution role"))
        _ h₅ in
    let both : some b' ≡ some b = sym (require_binding-eq k s b' found) ∙ held in
    let same : b' ≡ b = cc both in
    let own : b'.account_binding_id ≡ e.account_binding_id =
      ap (λ (x : AccountEndpoint). x.account_binding_id) (ok-injective h₆) in
    sym own ∙ ap (λ (x : AccountBinding). x.account_binding_id) same

-- An endpoint that the directory selects for an actor, a role and a binding that stands under its own
-- identifier passes the directory's validation for them, in a currency that is the binding's up to the
-- case of its letters.
pub select_endpoint-validates :
    (actor k currency : String) (role : AccountRole) (s : PartnerDirectory) (e : AccountEndpoint)
    (b : AccountBinding)
    → lookup k s.bindings ≡ some b
    → b.account_binding_id ≡ k
    → select_endpoint actor k role s ≡ ok e
    → upper b.currency ≡ upper currency
    → validate_endpoint actor e role currency s ≡ ok tt
unfolding validate_endpoint
select_endpoint-validates actor k currency role s e b held own h same =
    let at : e.account_binding_id ≡ k = selected-id actor k role s e b held h ∙ own in
    let selected : select_endpoint actor e.account_binding_id role s ≡ ok e =
      subst (λ x. select_endpoint actor x role s ≡ ok e) (sym at) h in
    let bound : lookup e.account_binding_id s.bindings ≡ some b =
      subst (λ x. lookup x s.bindings ≡ some b) (sym at) held in
    rw (selected, bound, same_binding_material_refl e, same, text_refl (upper currency)) refl
