-- ===== src/Contracts/Acceptance/Replay.antt =====
-- What a second acceptance finds, of railone_contracts/acceptance_service.py.
use mathlib.Core.Path.{◌∙◌, subst}
use railone_core.Prelude.{
  String, ◌≡◌, refl, ap, Bool, true, false, Option, none, some, ok, ok-injective, and_then-eq_ok,
  Returns-eq_ok, arith,
}
use railone_core.Prelude.Equality.{string_eq}
use package.text.Mathlib.TextEquality.{eq_iff}
use railone_core.Prelude.Dict.{lookup, lookup-insert_self}
use railone_core.Prelude.Exec.{pure, modify, ◌>>◌}
use railone_core.Prelude.Exec.Branches.{lift_branches, reads_branches, bind_branches}
use railone_core.Crypto.Json.{Json}
use railone_core.Crypto.Signatures.{SignatureService}
use railone_core.Contracts.Validation.{require_text}
use railone_core.Contracts.Terms.{context_payload}
use railone_core.Contracts.Store.{
  AcceptedContract, ContractStore, replayed, replayed_of, resolve_idempotency, write_contract,
  refuse_accepted, refuse_collision, commit_over, commit_acceptance,
}
use railone_core.Contracts.Drafts.{
  QuoteAcceptanceCommand, acceptance_material, sha256_of, drafted_contract,
}
use railone_core.Contracts.Drafts.Guards.{IsGuarded, drafted_contract-IsGuarded}
use railone_core.Contracts.Acceptance.{
  QuoteAcceptanceResult, acceptance_result, accept_over, accept,
}
use railone_core.Execution.Models.{Datetime, require_aware}

-- The contract that a key stands for, made for a request.
record IsAnswer (key request_sha256 : String) (d : AcceptedContract) (t : ContractStore)
    : Type 0 where
  pub held : lookup key t.idempotency ≡ some d
  pub same_request : d.request_sha256 ≡ request_sha256

replayed-same :
    (request_sha256 : String) (existing stored : AcceptedContract)
    → replayed request_sha256 existing ≡ ok stored
    → (existing ≡ stored) × (existing.request_sha256 ≡ request_sha256)
unfolding replayed
replayed-same request_sha256 existing stored h = (
  ground (arith, eq_iff existing.request_sha256 request_sha256),
  ground (arith, eq_iff existing.request_sha256 request_sha256),
)

module _ (key : String) (s t : ContractStore) where
  commit_over-IsAnswer :
      (c : AcceptedContract) (x : AcceptedContract × Bool) (existing : Option AcceptedContract)
      → lookup key s.idempotency ≡ existing
      → commit_over key c existing s ≡ (ok x, t)
      → IsAnswer key c.request_sha256 x.0 t
  unfolding commit_over
  commit_over-IsAnswer c x (some existing) is =
      lift_branches (λ o. o ≡ (ok x, t) → IsAnswer key c.request_sha256 x.0 t)
        (replayed c.request_sha256 existing) (λ stored. pure (stored, true)) s
        (λ e h. absurd (cc (ap (λ o. o.0) h)))
        λ stored found h.
          let (same, request) = replayed-same c.request_sha256 existing stored found in
          let is_x : stored ≡ x.0 = ap (λ y. y.0) (ok-injective (ap (λ o. o.0) h)) in
          rw (← ap (λ o. o.1) h, ← is_x, ← same) (record { held = is; same_request = request })
  commit_over-IsAnswer c x none is =
      lift_branches (λ o. o ≡ (ok x, t) → IsAnswer key c.request_sha256 x.0 t)
        (refuse_accepted (lookup c.quote_id s.quote_to_utt)) _ s
        (λ e h. absurd (cc (ap (λ o. o.0) h)))
        λ _ _.
          lift_branches (λ o. o ≡ (ok x, t) → IsAnswer key c.request_sha256 x.0 t)
            (refuse_collision (lookup c.utt_id s.utts))
            (λ _. modify (write_contract key c) >> pure (c, false)) s
            (λ e h. absurd (cc (ap (λ o. o.0) h)))
            λ _ _ h.
              let is_x : c ≡ x.0 = ap (λ y. y.0) (ok-injective (ap (λ o. o.0) h)) in
              rw (← ap (λ o. o.1) h, ← is_x)
                (record { held = lookup-insert_self key c s.idempotency; same_request = refl })

commit_acceptance-IsAnswer :
    (key : String) (s t : ContractStore) (c : AcceptedContract) (x : AcceptedContract × Bool)
    → commit_acceptance key c s ≡ (ok x, t)
    → IsAnswer key c.request_sha256 x.0 t
unfolding commit_acceptance
commit_acceptance-IsAnswer key s t c x =
    commit_over-IsAnswer key s t c x (lookup key s.idempotency) refl

replayed_of-some :
    (request_sha256 : String) (o : Option AcceptedContract) (d : AcceptedContract)
    → replayed_of request_sha256 o ≡ ok (some d)
    → (o ≡ some d) × (d.request_sha256 ≡ request_sha256)
unfolding replayed_of
replayed_of-some request_sha256 none d h = cc
replayed_of-some request_sha256 (some existing) d h =
    let (stored, found, h₁) = and_then-eq_ok (replayed request_sha256 existing) _ h in
    let (same, request) = replayed-same request_sha256 existing stored found in
    let both : some stored ≡ some d = ok-injective h₁ in
    let is_d : existing ≡ d = same ∙ cc both in
    (ap some is_d, subst (λ x. x.request_sha256 ≡ request_sha256) is_d request)

resolved-IsAnswer :
    (key request_sha256 : String) (s : ContractStore) (d : AcceptedContract)
    → resolve_idempotency key request_sha256 s ≡ ok (some d)
    → IsAnswer key request_sha256 d s
unfolding resolve_idempotency
resolved-IsAnswer key request_sha256 s d h =
    let found = replayed_of-some request_sha256 (lookup key s.idempotency) d h in
    record { held = found.0; same_request = found.1 }

IsAnswer-resolved :
    (key request_sha256 : String) (s : ContractStore) (d : AcceptedContract)
    → IsAnswer key request_sha256 d s
    → resolve_idempotency key request_sha256 s ≡ ok (some d)
unfolding resolve_idempotency replayed_of replayed
IsAnswer-resolved key request_sha256 s d a =
    rw (a.held, replayed_of, replayed, (eq_iff d.request_sha256 request_sha256).1 a.same_request)
      refl

module _ (signatures : SignatureService) (utt_key_id authority_key_id : String)
    (c : QuoteAcceptanceCommand) where
  accept_over-IsAnswer :
      (key : String) (origin : Json) (request_sha256 : String) (at : Datetime)
      (existing : Option AcceptedContract) (res : QuoteAcceptanceResult) (s t : ContractStore)
      → resolve_idempotency key request_sha256 s ≡ ok existing
      → accept_over signatures utt_key_id authority_key_id c key origin request_sha256 at existing s
        ≡ (ok res, t)
      → IsAnswer key request_sha256 res.contract t
  unfolding accept_over
  accept_over-IsAnswer key origin request_sha256 at (some d) res s t is = λ h.
      let is_res =
        ap (λ (x : QuoteAcceptanceResult). x.contract) (ok-injective (ap (λ o. o.0) h)) in
      rw (← ap (λ o. o.1) h, ← is_res) (resolved-IsAnswer key request_sha256 s d is)
  accept_over-IsAnswer key origin request_sha256 at none res s t is =
      lift_branches (λ o. o ≡ (ok res, t) → IsAnswer key request_sha256 res.contract t)
        (require_aware "acceptance timestamp" at) _ s (λ e h. absurd (cc (ap (λ o. o.0) h)))
        λ instant _.
          lift_branches (λ o. o ≡ (ok res, t) → IsAnswer key request_sha256 res.contract t)
            (drafted_contract signatures utt_key_id authority_key_id c origin request_sha256
              instant)
            _ s (λ e h. absurd (cc (ap (λ o. o.0) h)))
            λ d drafted.
              bind_branches (λ o. o ≡ (ok res, t) → IsAnswer key request_sha256 res.contract t)
                (commit_acceptance key d) (λ committed. pure (acceptance_result committed)) s
                (λ e u _ h. absurd (cc (ap (λ o. o.0) h)))
                λ x u committed h.
                  let answer = commit_acceptance-IsAnswer key s u d x committed in
                  let guarded =
                    Returns-eq_ok
                      (IsGuarded signatures utt_key_id authority_key_id c origin request_sha256
                        instant)
                      (drafted_contract signatures utt_key_id authority_key_id c origin
                        request_sha256 instant)
                      (drafted_contract-IsGuarded signatures utt_key_id authority_key_id c origin
                        request_sha256 instant)
                      drafted in
                  let is_res =
                    ap (λ (y : QuoteAcceptanceResult). y.contract)
                      (ok-injective (ap (λ o. o.0) h)) in
                  rw (← ap (λ o. o.1) h, ← is_res, ← guarded.request) answer

  -- Once an acceptance has returned, the same command at any later instant is answered with the same
  -- contract, marked as a replay, and changes nothing: also when the quote has expired by then.
  pub accept_replayed :
      (at later : Datetime) (res : QuoteAcceptanceResult) (s t : ContractStore)
      → accept signatures utt_key_id authority_key_id c at s ≡ (ok res, t)
      → accept signatures utt_key_id authority_key_id c later t
        ≡ (ok (record { contract = res.contract; replayed = true }), t)
  unfolding accept accept_over
  accept_replayed at later res s t =
      lift_branches (λ o. o ≡ (ok res, t) → Again)
        (require_text "idempotency_key" c.idempotency_key) _ s
        (λ e h. absurd (cc (ap (λ o. o.0) h)))
        λ key keyed.
          lift_branches (λ o. o ≡ (ok res, t) → Again) (context_payload c.origin) _ s
            (λ e h. absurd (cc (ap (λ o. o.0) h)))
            λ origin made.
              lift_branches (λ o. o ≡ (ok res, t) → Again) (acceptance_material c origin) _ s
                (λ e h. absurd (cc (ap (λ o. o.0) h)))
                λ material drawn.
                  reads_branches (λ o. o ≡ (ok res, t) → Again)
                    (resolve_idempotency key (sha256_of signatures material)) _ s
                    (λ e h. absurd (cc (ap (λ o. o.0) h)))
                    λ existing found h.
                      let answer =
                        accept_over-IsAnswer key origin (sha256_of signatures material) at existing
                          res s t found h in
                      rw
                        (
                          keyed,
                          made,
                          drawn,
                          IsAnswer-resolved key (sha256_of signatures material) t res.contract
                              answer,
                        )
                        refl
    where
      Again : Type 0
      Again =
          accept signatures utt_key_id authority_key_id c later t
          ≡ (ok (record { contract = res.contract; replayed = true }), t)
