-- ===== src/Contracts/Store.antt =====
-- railone_contracts/store.py: `InMemoryContractStore`, and what an acceptance leaves.
use Prim.Native.String.{◌++◌ as append}
use railone_core.Prelude.{
  ℕ, String, ◌≡◌, refl, sym, ap, Bool, true, false, not, Option, none, some, Exception, Result, ok,
  err, idempotency_conflict, quote_already_accepted, utt_not_found, runtime_error, or_raise,
  and_then, if◌then◌else◌, ok-injective,
}
use railone_core.Prelude.Equality.{◌==◌, string_eq}
use text.Mathlib.TextEquality.{eq_iff}
use railone_core.Prelude.Dict.{Dict, lookup, insert, lookup-insert_self}
use railone_core.Prelude.Exec.{Exec, pure, lift, reads, modify, ◌>>=◌, ◌>>◌}
use railone_core.Prelude.Exec.Branches.{lift_branches}
use railone_core.Crypto.Signatures.{SignatureEnvelope}

pub record AcceptedContract : Type 0 where
  pub signed_utt : SignatureEnvelope
  pub sender_authority : SignatureEnvelope
  pub quote_id : String
  pub utt_id : String
  pub request_sha256 : String
  pub accepted_at : ℕ

pub record ContractStore : Type 0 where
  pub idempotency : Dict String AcceptedContract
  pub quote_to_utt : Dict String String
  pub utts : Dict String SignatureEnvelope

-- The stored contract answers a request with the same material only.
unfoldable pub replayed : String → AcceptedContract → Result AcceptedContract
replayed request_sha256 existing =
    if not (existing.request_sha256 == request_sha256)
    then err
        (idempotency_conflict "idempotency key was already used for different request material")
    else ok existing

unfoldable pub replayed_of : String → Option AcceptedContract → Result (Option AcceptedContract)
unfolding replayed
replayed_of request_sha256 none = ok none
replayed_of request_sha256 (some existing) =
    and_then (replayed request_sha256 existing) λ c. ok (some c)

unfoldable pub resolve_idempotency :
    String → String → ContractStore → Result (Option AcceptedContract)
unfolding replayed_of
resolve_idempotency key request_sha256 s = replayed_of request_sha256 (lookup key s.idempotency)

abbrev pub write_contract : String → AcceptedContract → ContractStore → ContractStore
write_contract key c s = record s {
  utts = insert c.utt_id c.signed_utt s.utts;
  quote_to_utt = insert c.quote_id c.utt_id s.quote_to_utt;
  idempotency = insert key c s.idempotency;
}

abbrev pub refuse_accepted : Option String → Result (Unit {0})
refuse_accepted none = ok tt
refuse_accepted (some prior_utt) =
    err (quote_already_accepted (append "quote already accepted as " prior_utt))

abbrev pub refuse_collision : Option SignatureEnvelope → Result (Unit {0})
refuse_collision none = ok tt
refuse_collision (some utt) = err (runtime_error "UTT identifier collision")

unfoldable pub commit_over :
    String
    → AcceptedContract
    → Option AcceptedContract
    → Exec ContractStore (AcceptedContract × Bool)
unfolding replayed
commit_over key c (some existing) = do
  stored ← lift (replayed c.request_sha256 existing)
  pure (stored, true)
commit_over key c none = do
  reads (λ s. refuse_accepted (lookup c.quote_id s.quote_to_utt))
  reads (λ s. refuse_collision (lookup c.utt_id s.utts))
  modify (write_contract key c)
  pure (c, false)

unfoldable pub commit_acceptance :
    String → AcceptedContract → Exec ContractStore (AcceptedContract × Bool)
unfolding commit_over
commit_acceptance key c = do
  existing ← reads (λ s. ok (lookup key s.idempotency))
  commit_over key c existing

unfoldable pub require_utt : String → ContractStore → Result SignatureEnvelope
require_utt utt_id s =
    or_raise (lookup utt_id s.utts) (utt_not_found (append "persisted UTT not found: " utt_id))

-- A contract that a commit has written.
pub record IsWritten (key : String) (c d : AcceptedContract) (t : ContractStore) : Type 0 where
  pub answered : d ≡ c
  pub by_key : lookup key t.idempotency ≡ some c
  pub by_quote : lookup c.quote_id t.quote_to_utt ≡ some c.utt_id
  pub by_utt : lookup c.utt_id t.utts ≡ some c.signed_utt

module _ (key : String) (c d : AcceptedContract) (s t : ContractStore) where
  pub commit_over-IsWritten :
      (existing : Option AcceptedContract)
      → commit_over key c existing s ≡ (ok (d, false), t)
      → IsWritten key c d t
  unfolding commit_over
  commit_over-IsWritten (some existing) =
      lift_branches (λ o. o ≡ (ok (d, false), t) → IsWritten key c d t)
        (replayed c.request_sha256 existing) (λ stored. pure (stored, true)) s
        (λ e h. absurd (cc (ap (λ o. o.0) h)))
        λ stored _ h. absurd (cc (ap (λ x. x.1) (ok-injective (ap (λ o. o.0) h))))
  commit_over-IsWritten none =
      lift_branches (λ o. o ≡ (ok (d, false), t) → IsWritten key c d t)
        (refuse_accepted (lookup c.quote_id s.quote_to_utt)) _ s
        (λ e h. absurd (cc (ap (λ o. o.0) h)))
        λ _ _.
          lift_branches (λ o. o ≡ (ok (d, false), t) → IsWritten key c d t)
            (refuse_collision (lookup c.utt_id s.utts))
            (λ _. modify (write_contract key c) >> pure (c, false)) s
            (λ e h. absurd (cc (ap (λ o. o.0) h)))
            λ _ _ h.
              let is_t : write_contract key c s ≡ t = ap (λ o. o.1) h in
              record {
                answered = sym (ap (λ x. x.0) (ok-injective (ap (λ o. o.0) h)));
                by_key = rw (← is_t) (lookup-insert_self key c s.idempotency);
                by_quote = rw (← is_t) (lookup-insert_self c.quote_id c.utt_id s.quote_to_utt);
                by_utt = rw (← is_t) (lookup-insert_self c.utt_id c.signed_utt s.utts);
              }

  -- Once a new contract has been committed: its UTT is found, the same request under the same key is
  -- answered with it and marked as a replay, and the same quote under a key that is not in use raises;
  -- the latter two change nothing.
  pub accepted_once :
      commit_acceptance key c s ≡ (ok (d, false), t)
      → (require_utt c.utt_id t ≡ ok c.signed_utt)
        × ((again : AcceptedContract)
            → again.request_sha256 ≡ c.request_sha256
            → commit_acceptance key again t ≡ (ok (c, true), t))
        × ((other : String) (again : AcceptedContract)
            → lookup other t.idempotency ≡ none
            → again.quote_id ≡ c.quote_id
            → (e : Exception) × (commit_acceptance other again t ≡ (err e, t)))
  unfolding commit_acceptance commit_over replayed require_utt
  accepted_once h =
      let w = commit_over-IsWritten (lookup key s.idempotency) h in
      (
        rw w.by_utt refl,
        (λ again same.
            rw
              (
                w.by_key,
                commit_over,
                replayed,
                (eq_iff c.request_sha256 again.request_sha256).1 (sym same),
              )
              refl),
        (λ other again unused same_quote. (
          quote_already_accepted (append "quote already accepted as " c.utt_id),
          rw (unused, commit_over, same_quote, w.by_quote) refl,
        )),
      )
