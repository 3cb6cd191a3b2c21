-- ===== src/Identity/Appended.antt =====
-- Repositories of railone_identity/continuity.py refine a ledger that is only appended to.
use mathlib.Core.Path.{◌∙◌}
use railone_core.Prelude.{sym, ap, [], ◌∷◌, ◌++◌}
use railone_core.Prelude.Equality.{string_eq}
use railone_core.Prelude.Dict.{lookup-insert_self, lookup-insert_other}
use railone_core.Identity.Repository.{IdentityRepository, uid_of}
use railone_core.Identity.Histories.{
  ledger_of, IsStep, unchanged, registered, appended, begun, IsValid,
}
use railone_core.Identity.Effects.{IsServed, kept, made, revised}
use railone_core.Identity.Indexes.{extended-IsHistory}

pub IsServed-IsStep :
    {s t : IdentityRepository} → IsValid s → IsServed s t → IsStep (ledger_of s) (ledger_of t)
IsServed-IsStep valid (kept same) = unchanged λ k. ap (λ u. ledger_of u k) same
IsServed-IsStep {s} {t} valid (made b free new first same) =
    registered (uid_of b) b.active_revision (valid.unknown (uid_of b) new)
      (begun b.active_revision first)
      (ap (λ u. ledger_of u (uid_of b)) same
        ∙ lookup-insert_self (uid_of b) (b.active_revision ∷ []) s.revisions)
      λ k other.
        ap (λ u. ledger_of u k) same
        ∙ lookup-insert_other (uid_of b) k (b.active_revision ∷ []) s.revisions λ q. other (sym q)
IsServed-IsStep {s} {t} valid (revised current b rs held alive anchor next written fresh same) =
    appended (uid_of b) rs b.active_revision written
      (extended-IsHistory s valid b current rs held anchor next written fresh)
      (ap (λ u. ledger_of u (uid_of b)) same
        ∙ lookup-insert_self (uid_of b) (rs ++ (b.active_revision ∷ [])) s.revisions)
      λ k other.
        ap (λ u. ledger_of u k) same
        ∙ lookup-insert_other (uid_of b) k (rs ++ (b.active_revision ∷ [])) s.revisions
            λ q. other (sym q)
