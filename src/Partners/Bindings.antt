-- ===== src/Partners/Bindings.antt =====
-- What holds of every directory that the methods of railone_partners/store.py build.
use railone_core.Prelude.{
  not-eq_false, String, ◌≡◌, refl, sym, ap, true, not, [], some, value_error, lookup_error,
  Bool-cases, inl, inr,
}
use mathlib.Core.Path.{◌∙◌}
use railone_core.Partners.Selection.{require_binding-eq}
use railone_core.Prelude.Equality.{◌==◌, string_eq}
use railone_core.Prelude.Dict.{lookup, insert, lookup-insert, lookup-insert_cases}
use railone_core.Prelude.Exec.Branches.{guard_branches, lift_branches, reads_branches}
use railone_core.Partners.Models.{
  AccountBinding, AccountBindingStatus, PartnerInstitution, check_institution, check_binding,
}
use railone_core.Partners.Directory.{
  PartnerDirectory, is_known, add_institution, add_binding, require_binding, set_binding_status,
}

-- A binding stands under its own identifier, and its institution is a partner.
pub record IsBound (s : PartnerDirectory) (k : String) (b : AccountBinding) : Type 0 where
  pub own : b.account_binding_id ≡ k
  pub partner : is_known (lookup b.institution_id s.institutions) ≡ true

-- The same of every binding that a directory holds.
unfoldable AreBound : PartnerDirectory → Type 0
AreBound s = (k : String) (b : AccountBinding) → lookup k s.bindings ≡ some b → IsBound s k b

-- The directories that calls build from an empty one, whether they return or raise.
pub data Reached : PartnerDirectory → Type 0 where
  created : Reached (record { institutions = []; bindings = [] })
  institution_added :
      {s : PartnerDirectory} (i : PartnerInstitution) → Reached s → Reached (add_institution i s).1
  binding_added :
      {s : PartnerDirectory} (b : AccountBinding) → Reached s → Reached (add_binding b s).1
  status_set :
      {s : PartnerDirectory} (k : String) (status : AccountBindingStatus)
      → Reached s
      → Reached (set_binding_status k status s).1

known-insert :
    (k j : String) (i : PartnerInstitution) (s : PartnerDirectory)
    → is_known (lookup j s.institutions) ≡ true
    → is_known (lookup j (insert k i s.institutions)) ≡ true
known-insert k j i s h = elim (Bool-cases (k == j)) [
  | inl same ↦ rw (lookup-insert k j i s.institutions, same) refl
  | inr other ↦ rw (lookup-insert k j i s.institutions, other) h
]

module _ (s : PartnerDirectory) (bound : AreBound s) where
  add_institution-AreBound : (i : PartnerInstitution) → AreBound (add_institution i s).1
  unfolding add_institution AreBound
  add_institution-AreBound i =
      lift_branches (λ o. AreBound o.1) (check_institution i) _ s (λ _. bound)
        λ _ _.
          guard_branches (λ o. AreBound o.1) (is_known (lookup i.institution_id s.institutions))
            (value_error "partner institution already exists") _ s (λ _. bound)
            λ _ k b held. record {
              own = (bound k b held).own;
              partner = known-insert i.institution_id b.institution_id i s (bound k b held).partner;
            }

  add_binding-AreBound : (b : AccountBinding) → AreBound (add_binding b s).1
  unfolding add_binding AreBound
  add_binding-AreBound b =
      lift_branches (λ o. AreBound o.1) (check_binding b) _ s (λ _. bound)
        λ _ _.
          guard_branches (λ o. AreBound o.1)
            (not (is_known (lookup b.institution_id s.institutions)))
            (lookup_error "account binding institution is not a partner") _ s (λ _. bound)
            λ known.
              guard_branches (λ o. AreBound o.1) (is_known (lookup b.account_binding_id s.bindings))
                (value_error "account binding already exists") _ s (λ _. bound)
                λ _ k c held.
                  elim (lookup-insert_cases b.account_binding_id k b c s.bindings held) [
                    | inl (same, is_b) ↦ record {
                      own = cc (same, is_b, ap (λ (x : AccountBinding). x.account_binding_id) is_b);
                      partner =
                          rw (← is_b) (
                            not-eq_false (is_known (lookup b.institution_id s.institutions)) known);
                    }
                    | inr (_, old) ↦ record {
                      own = (bound k c old).own;
                      partner = (bound k c old).partner;
                    }
                  ]

  set_binding_status-AreBound :
      (k : String) (status : AccountBindingStatus) → AreBound (set_binding_status k status s).1
  unfolding set_binding_status AreBound require_binding
  set_binding_status-AreBound k status =
      reads_branches (λ o. AreBound o.1) (require_binding k) _ s (λ _. bound)
        λ b found j c held.
          let old : lookup k s.bindings ≡ some b = require_binding-eq k s b found in
          elim (lookup-insert_cases k j (record b { status = status }) c s.bindings held) [
            | inl (same, is_c) ↦ record {
              own =
                  sym (ap (λ (x : AccountBinding). x.account_binding_id) is_c)
                  ∙ (bound k b old).own
                  ∙ same;
              partner = rw (← is_c) (bound k b old).partner;
            }
            | inr (_, kept) ↦ record {
              own = (bound j c kept).own;
              partner = (bound j c kept).partner;
            }
          ]

Reached-AreBound : {s : PartnerDirectory} → Reached s → AreBound s
unfolding AreBound lookup
Reached-AreBound created = λ k b held. absurd (cc held)
Reached-AreBound (institution_added {s} i r) = add_institution-AreBound s (Reached-AreBound r) i
Reached-AreBound (binding_added {s} b r) = add_binding-AreBound s (Reached-AreBound r) b
Reached-AreBound (status_set {s} k status r) =
    set_binding_status-AreBound s (Reached-AreBound r) k status

-- In every directory that calls build, a binding that is held stands under its own identifier, and its
-- institution is a partner.
pub Reached-IsBound :
    {s : PartnerDirectory}
    → Reached s
    → (k : String) (b : AccountBinding) → lookup k s.bindings ≡ some b
    → IsBound s k b
unfolding AreBound
Reached-IsBound r k b held = Reached-AreBound r k b held
