-- ===== src/Contracts/Acceptance/Window.antt =====
-- When railone_contracts/acceptance_service.py makes a new contract.
use mathlib.Core.Path.{◌∙◌, subst}
use railone_core.Prelude.{
  ℕ, String, ◌≡◌, refl, sym, ap, Bool, true, false, Option, none, some, Result, ok, ok-injective,
  Returns-eq_ok, arith,
}
use railone_core.Prelude.Equality.{string_eq}
use railone_core.Prelude.Dict.{lookup}
use railone_core.Prelude.Exec.{pure}
use railone_core.Prelude.Exec.Branches.{lift_branches, reads_branches, bind_branches}
use railone_core.Crypto.Json.{Json}
use railone_core.Crypto.Signatures.{SignatureService}
use railone_core.Contracts.Validation.{require_text}
use railone_core.Contracts.Terms.{context_payload}
use railone_core.Contracts.Store.{
  AcceptedContract, ContractStore, resolve_idempotency, commit_acceptance, IsWritten,
  commit_over-IsWritten,
}
use railone_core.Contracts.Drafts.{
  QuoteAcceptanceCommand, acceptance_material, sha256_of, drafted_contract,
}
use railone_core.Contracts.Drafts.Guards.{IsGuarded, drafted_contract-IsGuarded}
use railone_core.Contracts.Acceptance.{
  QuoteAcceptanceResult, acceptance_result, accept_over, accept,
}
use railone_core.Execution.Models.{Datetime, require_aware}

commit-IsWritten :
    (key : String) (d : AcceptedContract) (x : AcceptedContract × Bool) (s u : ContractStore)
    → commit_acceptance key d s ≡ (ok x, u)
    → x.1 ≡ false
    → IsWritten key d x.0 u
unfolding commit_acceptance
commit-IsWritten key d x s u h fresh =
    commit_over-IsWritten key d x.0 s u (lookup key s.idempotency)
      (subst (λ b. commit_acceptance key d s ≡ (ok (x.0, b), u)) fresh h)

module _ (signatures : SignatureService) (utt_key_id authority_key_id : String)
    (c : QuoteAcceptanceCommand) (at : Datetime) (res : QuoteAcceptanceResult)
    (s t : ContractStore) where
  -- A new contract: what was checked of its quote at that instant, and what is stored.
  pub record IsNew : Type 0 where
    pub key : String
    pub origin : Json
    pub request_sha256 : String
    pub own_key : require_text "idempotency_key" c.idempotency_key ≡ ok key
    pub material : Json
    pub own_material : acceptance_material c origin ≡ ok material
    pub own_request : request_sha256 ≡ sha256_of signatures material
    pub own_origin : context_payload c.origin ≡ ok origin
    pub aware : at.has_zone ≡ true
    pub guarded :
        IsGuarded signatures utt_key_id authority_key_id c origin request_sha256 at.micros
          res.contract
    pub written : IsWritten key res.contract res.contract t

  aware-micros :
      (instant : ℕ)
      → require_aware "acceptance timestamp" at ≡ ok instant
      → (at.has_zone ≡ true) × (at.micros ≡ instant)
  unfolding require_aware
  aware-micros instant h = (ground arith, ground arith)

  accept_over-IsNew :
      (key : String) (origin material : Json) (existing : Option AcceptedContract)
      → require_text "idempotency_key" c.idempotency_key ≡ ok key
      → context_payload c.origin ≡ ok origin
      → acceptance_material c origin ≡ ok material
      → res.replayed ≡ false
      → accept_over signatures utt_key_id authority_key_id c key origin
          (sha256_of signatures material)
          at
          existing
          s
        ≡ (ok res, t)
      → IsNew
  unfolding accept_over commit_acceptance
  accept_over-IsNew key origin material (some d) keyed made drawn fresh = λ h.
      let replay =
        ap (λ (x : QuoteAcceptanceResult). x.replayed) (ok-injective (ap (λ o. o.0) h)) in
      absurd (cc (replay, fresh))
  accept_over-IsNew key origin material none keyed made drawn fresh =
      lift_branches (λ o. o ≡ (ok res, t) → IsNew) (require_aware "acceptance timestamp" at) _ s
        (λ e h. absurd (cc (ap (λ o. o.0) h)))
        λ instant aware.
          lift_branches (λ o. o ≡ (ok res, t) → IsNew)
            (drafted_contract signatures utt_key_id authority_key_id c origin
              (sha256_of signatures material) instant)
            _ s (λ e h. absurd (cc (ap (λ o. o.0) h)))
            λ d drafted.
              bind_branches (λ o. o ≡ (ok res, t) → IsNew) (commit_acceptance key d)
                (λ committed. pure (acceptance_result committed)) s
                (λ e u _ h. absurd (cc (ap (λ o. o.0) h)))
                λ x u committed h.
                  let is_res = ok-injective (ap (λ o. o.0) h) in
                  let contract = ap (λ (y : QuoteAcceptanceResult). y.contract) is_res in
                  let raced = ap (λ (y : QuoteAcceptanceResult). y.replayed) is_res in
                  let w = commit-IsWritten key d x s u committed (raced ∙ fresh) in
                  let is_d : d ≡ res.contract = sym w.answered ∙ contract in
                  let since = aware-micros instant aware in
                  record {
                    key = key;
                    origin = origin;
                    request_sha256 = sha256_of signatures material;
                    own_key = keyed;
                    material = material;
                    own_material = drawn;
                    own_request = refl;
                    own_origin = made;
                    aware = since.0;
                    guarded =
                        subst
                          (IsGuarded signatures utt_key_id authority_key_id c origin
                            (sha256_of signatures material) at.micros)
                          is_d (guarded_at d (subst (λ i. drafts i ≡ ok d) (sym since.1) drafted));
                    written =
                        subst (λ v. IsWritten key res.contract res.contract v) (ap (λ o. o.1) h)
                          (subst (λ y. IsWritten key y res.contract u) is_d
                            (subst (λ y. IsWritten key d y u) contract w));
                  }
    where
      drafts : ℕ → Result AcceptedContract
      drafts i =
          drafted_contract signatures utt_key_id authority_key_id c origin
            (sha256_of signatures material) i

      guarded_at :
          (d : AcceptedContract)
          → drafts at.micros ≡ ok d
          → IsGuarded signatures utt_key_id authority_key_id c origin
              (sha256_of signatures material)
              at.micros
              d
      guarded_at d drafted =
          Returns-eq_ok
            (IsGuarded signatures utt_key_id authority_key_id c origin
              (sha256_of signatures material) at.micros)
            (drafts at.micros)
            (drafted_contract-IsGuarded signatures utt_key_id authority_key_id c origin
              (sha256_of signatures material) at.micros)
            drafted

  -- An acceptance that makes a new contract has checked the quote's signature, that the instant lies
  -- in the quote's validity, and that its purpose is the origin's; the contract is made for the hash of
  -- the command's material, and is stored under the command's idempotency key, its quote and its UTT.
  pub accept-IsNew :
      accept signatures utt_key_id authority_key_id c at s ≡ (ok res, t)
      → res.replayed ≡ false
      → IsNew
  unfolding accept
  accept-IsNew h fresh =
      lift_branches (λ o. o ≡ (ok res, t) → IsNew)
        (require_text "idempotency_key" c.idempotency_key) _ s
        (λ e h. absurd (cc (ap (λ o. o.0) h)))
        (λ key keyed.
          lift_branches (λ o. o ≡ (ok res, t) → IsNew) (context_payload c.origin) _ s
            (λ e h. absurd (cc (ap (λ o. o.0) h)))
            λ origin made.
              lift_branches (λ o. o ≡ (ok res, t) → IsNew) (acceptance_material c origin) _ s
                (λ e h. absurd (cc (ap (λ o. o.0) h)))
                λ material drawn.
                  reads_branches (λ o. o ≡ (ok res, t) → IsNew)
                    (resolve_idempotency key (sha256_of signatures material)) _ s
                    (λ e h. absurd (cc (ap (λ o. o.0) h)))
                    λ existing _.
                      accept_over-IsNew key origin material existing keyed made drawn fresh)
        h
