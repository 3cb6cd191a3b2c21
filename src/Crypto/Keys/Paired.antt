-- ===== src/Crypto/Keys/Paired.antt =====
-- Providers that calls of railone_crypto/key_provider.py build: private keys belong to their records.
use mathlib.Core.Path.{◌∙◌, subst}
use Prim.Native.String.{◌++◌ as append}
use railone_core.Prelude.{
  ℕ, String, ◌≡◌, sym, ap, List, [], some, Result, ok, value_error, not, raise_if, and_then-eq_ok,
  ok-injective, or_raise-eq_ok, leb, nat_beq, length, inl, inr,
}
use railone_core.Prelude.Text.{is_empty, strip}
use railone_core.Prelude.Equality.{string_eq}
use railone_core.Prelude.Dict.{
  lookup, lookup-insert_cases, lookup-insert_self, lookup-insert_other, lookup-remove_cases,
}
use railone_core.Prelude.Exec.{ok_if_free, pure, lift, modify, ◌>>=◌, ◌>>◌}
use railone_core.Prelude.Exec.Branches.{lift_branches, reads_branches}
use railone_core.Crypto.Keys.{
  KeyRecord, lacks_instant, made_record, Ed25519, KeyProvider, KeyRequest, new_record,
  retired_record, revoked_record, require_record, put_away, retire, revoke, with_key, generate,
}

made_record-same : (r x : KeyRecord) → made_record r ≡ ok x → x ≡ r
unfolding made_record
made_record-same r x h =
    let (_, _, h₁) = and_then-eq_ok (raise_if (leb r.not_after r.not_before) _) _ h in
    let (_, _, h₂) = and_then-eq_ok (raise_if (not (nat_beq (length r.public_key) 32)) _) _ h₁ in
    let (_, _, h₃) = and_then-eq_ok (raise_if (lacks_instant r) _) _ h₂ in sym (ok-injective h₃)

module _ (curve : Ed25519) where
  -- The providers that calls build from an empty one, whether they return or raise.
  pub data Reached : KeyProvider → Type 0 where
    created : Reached (record { records = []; private_keys = [] })
    generated : {p : KeyProvider} (q : KeyRequest) → Reached p → Reached (generate curve q p).1
    was_retired : {p : KeyProvider} (key_id : String) → Reached p → Reached (retire key_id p).1
    was_revoked :
        {p : KeyProvider} (key_id reason : String) (at : ℕ)
        → Reached p
        → Reached (revoke key_id reason at p).1

  pub record IsPaired (p : KeyProvider) : Type 0 where
    pub own : (k : String) (r : KeyRecord) → lookup k p.records ≡ some r → r.key_id ≡ k
    pub paired :
        (k : String) (private : List ℕ)
        → lookup k p.private_keys ≡ some private
        → (r : KeyRecord) × (lookup k p.records ≡ some r) × (r.public_key ≡ curve.public_of private)

  with_key-IsPaired :
      (p : KeyProvider) (r : KeyRecord) (private : List ℕ)
      → IsPaired p
      → r.public_key ≡ curve.public_of private
      → IsPaired (with_key curve r private p)
  with_key-IsPaired p r private sound public = record {
    own = λ k x h. elim (lookup-insert_cases r.key_id k r x p.records h) [
      | inl (same, is_r) ↦ sym (ap (λ (y : KeyRecord). y.key_id) is_r) ∙ same
      | inr (_, old) ↦ sound.own k x old
    ];
    paired = λ k x h. elim (lookup-insert_cases r.key_id k private x p.private_keys h) [
      | inl (same, is_x) ↦
          subst
            (λ k.
              (q : KeyRecord) × (lookup k (with_key curve r private p).records ≡ some q)
              × (q.public_key ≡ curve.public_of x))
            same (r, lookup-insert_self r.key_id r p.records, public ∙ ap curve.public_of is_x)
      | inr (other, old) ↦
          let (q, held, is_public) = sound.paired k x old in
          (q, lookup-insert_other r.key_id k r p.records other ∙ held, is_public)
    ];
  }

  put_away-IsPaired :
      (p : KeyProvider) (key_id : String) (r : KeyRecord)
      → IsPaired p
      → r.key_id ≡ key_id
      → IsPaired (put_away key_id r p)
  put_away-IsPaired p key_id r sound own = record {
    own = λ k x h. elim (lookup-insert_cases key_id k r x p.records h) [
      | inl (same, is_r) ↦ sym (ap (λ (y : KeyRecord). y.key_id) is_r) ∙ own ∙ same
      | inr (_, old) ↦ sound.own k x old
    ];
    paired = λ k x h.
        let (other, old) = lookup-remove_cases key_id k x p.private_keys h in
        let (q, held, is_public) = sound.paired k x old in
        (q, lookup-insert_other key_id k r p.records other ∙ held, is_public);
  }

  -- The end of `retire` and `revoke`.
  replaced :
      (p : KeyProvider) (key_id : String) (r : KeyRecord)
      → IsPaired p
      → r.key_id ≡ key_id
      → IsPaired ((lift (made_record r) >>= λ x. modify (put_away key_id x) >> pure x) p).1
  replaced p key_id r sound own =
      lift_branches (λ (o : Result KeyRecord × KeyProvider). IsPaired o.1) (made_record r)
        (λ x. modify (put_away key_id x) >> pure x) p (λ _. sound)
        λ x made.
          put_away-IsPaired p key_id x sound
            (ap (λ (y : KeyRecord). y.key_id) (made_record-same r x made) ∙ own)

  pub Reached-IsPaired : {p : KeyProvider} → Reached p → IsPaired p
  unfolding lookup generate retire revoke require_record
  Reached-IsPaired created = record {
    own = λ k r h. absurd (cc h);
    paired = λ k x h. absurd (cc h);
  }
  Reached-IsPaired (generated {p} q reached) =
      let sound = Reached-IsPaired reached in
      reads_branches (λ (o : Result KeyRecord × KeyProvider). IsPaired o.1)
        (λ p.
          ok_if_free (lookup q.key_id p.records)
            (value_error (append "duplicate key_id: " q.key_id)))
        _ p (λ _. sound)
        λ _ _.
          lift_branches (λ (o : Result KeyRecord × KeyProvider). IsPaired o.1)
            (made_record (new_record curve q)) _ p (λ _. sound)
            λ r made.
              with_key-IsPaired p r q.private sound (
                ap (λ (y : KeyRecord). y.public_key) (made_record-same (new_record curve q) r made))
  Reached-IsPaired (was_retired {p} key_id reached) =
      let sound = Reached-IsPaired reached in
      reads_branches (λ (o : Result KeyRecord × KeyProvider). IsPaired o.1) (require_record key_id)
        _ p (λ _. sound)
        λ r found.
          replaced p key_id (retired_record r) sound (sound.own key_id r (or_raise-eq_ok _ _ found))
  Reached-IsPaired (was_revoked {p} key_id reason at reached) =
      let sound = Reached-IsPaired reached in
      lift_branches (λ (o : Result KeyRecord × KeyProvider). IsPaired o.1)
        (raise_if (is_empty (strip reason)) (value_error "revocation reason is required")) _ p
        (λ _. sound)
        λ _ _.
          reads_branches (λ (o : Result KeyRecord × KeyProvider). IsPaired o.1)
            (require_record key_id) _ p (λ _. sound)
            λ r found.
              replaced p key_id (revoked_record reason at r) sound
                (sound.own key_id r (or_raise-eq_ok _ _ found))
