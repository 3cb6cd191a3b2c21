-- ===== src/Identity/Indexes.antt =====
-- The two indexes and the histories of a repository of railone_identity/continuity.py stay in step.
use mathlib.Core.Path.{◌∙◌, subst}
use railone_core.Prelude.{
  some-injective, ◌+◌, ◌≡◌, refl, sym, ap, false, List, [], ◌∷◌, ◌++◌, none, some, inl, inr, length,
  length-append, some_of, arith,
}
use railone_core.Prelude.Equality.{string_eq}
use railone_core.Prelude.Dict.{
  lookup, insert, lookup-insert_self, lookup-insert_cases, lookup-insert_other, lookup-insert-none,
}
use railone_core.Identity.Models.{IdentityRevision, IdentityBundle}
use railone_core.Identity.Repository.{
  IdentityRepository, uid_of, fingerprint_of, rests_on, saved, extended,
}
use railone_core.Identity.Histories.{IsHistory, begun, continued, IsHeld, IsValid}
use railone_core.Identity.Effects.{IsServed, kept, made, revised}

module _ (s : IdentityRepository) (valid : IsValid s) (b : IdentityBundle) where
  module _ (free : lookup (fingerprint_of b) s.by_fingerprint ≡ none)
      (new : lookup (uid_of b) s.by_continuity_uid ≡ none)
      (first : b.active_revision.revision ≡ 1) where
    saved-IsHeld : IsHeld (saved b s) (uid_of b) b
    saved-IsHeld = record {
      own = refl;
      by_fingerprint = lookup-insert_self (fingerprint_of b) b s.by_fingerprint;
      older = [];
      history = lookup-insert_self (uid_of b) (b.active_revision ∷ []) s.revisions;
      is_history = begun b.active_revision first;
      number = first;
    }

    saved-IsValid : IsValid (saved b s)
    saved-IsValid = record {
      held = λ k c h. elim (lookup-insert_cases (uid_of b) k b c s.by_continuity_uid h) [
        | inl (same, is_b) ↦
            subst (λ k. IsHeld (saved b s) k c) same
              (subst (λ c. IsHeld (saved b s) (uid_of b) c) is_b saved-IsHeld)
        | inr (other, old) ↦
            let was = valid.held k c old in
            record {
              own = was.own;
              by_fingerprint =
                  lookup-insert_other (fingerprint_of b) (fingerprint_of c) b s.by_fingerprint
                    (λ q. cc (ap (λ f. lookup f s.by_fingerprint) q, free, was.by_fingerprint))
                  ∙ was.by_fingerprint;
              older = was.older;
              history =
                  lookup-insert_other (uid_of b) k (b.active_revision ∷ []) s.revisions other
                  ∙ was.history;
              is_history = was.is_history;
              number = was.number;
            }
      ];
      indexed = λ f c h. elim (lookup-insert_cases (fingerprint_of b) f b c s.by_fingerprint h) [
        | inl (same, is_b) ↦ record {
          own = sym (ap fingerprint_of is_b) ∙ same;
          by_uid = rw (← is_b) (lookup-insert_self (uid_of b) b s.by_continuity_uid);
        }
        | inr (other, old) ↦
            let was = valid.indexed f c old in
            record {
              own = was.own;
              by_uid =
                  lookup-insert_other (uid_of b) (uid_of c) b s.by_continuity_uid
                    (λ q. cc (ap (λ u. lookup u s.by_continuity_uid) q, new, was.by_uid))
                  ∙ was.by_uid;
            }
      ];
      unknown = λ k h.
          let (other, old) = lookup-insert-none (uid_of b) k b s.by_continuity_uid h in
          lookup-insert_other (uid_of b) k (b.active_revision ∷ []) s.revisions other
          ∙ valid.unknown k old;
    }

  module _ (current : IdentityBundle) (rs : List IdentityRevision)
      (held : lookup (uid_of b) s.by_continuity_uid ≡ some current)
      (anchor : fingerprint_of current ≡ fingerprint_of b)
      (next : b.active_revision.revision ≡ current.active_revision.revision + 1)
      (written : lookup (uid_of b) s.revisions ≡ some rs)
      (fresh : some_of (rests_on b.active_revision.attestation_id) rs ≡ false) where
    before : IsHeld s (uid_of b) current
    before = valid.held (uid_of b) current held

    is_all : before.older ++ (current.active_revision ∷ []) ≡ rs
    is_all = some-injective (sym before.history ∙ written)

    longer : b.active_revision.revision ≡ length rs + 1
    longer = ground (
      arith,
      next,
      before.number,
      length-append before.older (current.active_revision ∷ []),
      ap length is_all,
    )

    pub extended-IsHistory : IsHistory (rs ++ (b.active_revision ∷ []))
    extended-IsHistory =
        continued b.active_revision (subst IsHistory is_all before.is_history) longer fresh

    extended-IsHeld : IsHeld (extended current b rs s) (uid_of b) b
    extended-IsHeld = record {
      own = refl;
      by_fingerprint =
          subst (λ f. lookup f (insert (fingerprint_of current) b s.by_fingerprint) ≡ some b) anchor
            (lookup-insert_self (fingerprint_of current) b s.by_fingerprint);
      older = rs;
      history = lookup-insert_self (uid_of b) (rs ++ (b.active_revision ∷ [])) s.revisions;
      is_history = extended-IsHistory;
      number = longer;
    }

    extended-IsValid : IsValid (extended current b rs s)
    extended-IsValid = record {
      held = λ k c h. elim (lookup-insert_cases (uid_of b) k b c s.by_continuity_uid h) [
        | inl (same, is_b) ↦
            subst (λ k. IsHeld (extended current b rs s) k c) same
              (subst (λ c. IsHeld (extended current b rs s) (uid_of b) c) is_b extended-IsHeld)
        | inr (other, old) ↦
            let was = valid.held k c old in
            record {
              own = was.own;
              by_fingerprint =
                  lookup-insert_other (fingerprint_of current) (fingerprint_of c) b s.by_fingerprint
                    (λ q.
                      let is_c : current ≡ c = some-injective (
                        sym before.by_fingerprint
                        ∙ ap (λ f. lookup f s.by_fingerprint) q
                        ∙ was.by_fingerprint) in
                      other (sym before.own ∙ ap uid_of is_c ∙ was.own))
                  ∙ was.by_fingerprint;
              older = was.older;
              history =
                  lookup-insert_other (uid_of b) k (rs ++ (b.active_revision ∷ [])) s.revisions
                    other
                  ∙ was.history;
              is_history = was.is_history;
              number = was.number;
            }
      ];
      indexed = λ f c h.
          elim (lookup-insert_cases (fingerprint_of current) f b c s.by_fingerprint h) [
            | inl (same, is_b) ↦ record {
              own = sym (ap fingerprint_of is_b) ∙ sym anchor ∙ same;
              by_uid = rw (← is_b) (lookup-insert_self (uid_of b) b s.by_continuity_uid);
            }
            | inr (other, old) ↦
                let was = valid.indexed f c old in
                record {
                  own = was.own;
                  by_uid =
                      lookup-insert_other (uid_of b) (uid_of c) b s.by_continuity_uid (λ q.
                        let is_c : current ≡ c =
                          some-injective
                            (sym held ∙ ap (λ u. lookup u s.by_continuity_uid) q ∙ was.by_uid) in
                        other (ap fingerprint_of is_c ∙ was.own))
                      ∙ was.by_uid;
                }
          ];
      unknown = λ k h.
          let (other, old) = lookup-insert-none (uid_of b) k b s.by_continuity_uid h in
          lookup-insert_other (uid_of b) k (rs ++ (b.active_revision ∷ [])) s.revisions other
          ∙ valid.unknown k old;
    }

pub IsServed-IsValid : {s t : IdentityRepository} → IsValid s → IsServed s t → IsValid t
IsServed-IsValid valid (kept same) = subst IsValid (sym same) valid
IsServed-IsValid {s} valid (made b free new first same) =
    subst IsValid (sym same) (saved-IsValid s valid b free new first)
IsServed-IsValid {s} valid (revised current b rs held alive anchor next written fresh same) =
    subst IsValid (sym same) (extended-IsValid s valid b current rs held anchor next written fresh)
