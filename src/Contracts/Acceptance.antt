-- ===== src/Contracts/Acceptance.antt =====
-- `QuoteAcceptanceService.accept` of railone_contracts/acceptance_service.py.
pub mod Replay
pub mod Window
mod Tests
use railone_core.Prelude.{String, Bool, true, false, Option, none, some, Result, ok}
use railone_core.Prelude.Exec.{Exec, pure, lift, reads, ◌>>=◌}
use railone_core.Crypto.Signatures.{SignatureService}
use railone_core.Contracts.Validation.{require_text}
use railone_core.Contracts.Terms.{context_payload}
use railone_core.Contracts.Store.{
  AcceptedContract, ContractStore, resolve_idempotency, commit_acceptance,
}
use railone_core.Contracts.Drafts.{
  QuoteAcceptanceCommand, acceptance_material, sha256_of, drafted_contract,
}
use railone_core.Crypto.Json.{Json}
use railone_core.Execution.Models.{Datetime, require_aware}

pub record QuoteAcceptanceResult : Type 0 where
  pub contract : AcceptedContract
  pub replayed : Bool

abbrev pub acceptance_result : AcceptedContract × Bool → QuoteAcceptanceResult
acceptance_result (c, b) = record { contract = c; replayed = b }

module _ (signatures : SignatureService) (utt_key_id authority_key_id : String) where
  -- A request that is known is answered without a look at its quote.
  unfoldable pub accept_over :
      QuoteAcceptanceCommand
      → String
      → Json
      → String
      → Datetime
      → Option AcceptedContract
      → Exec ContractStore QuoteAcceptanceResult
  unfolding drafted_contract commit_acceptance
  accept_over c key origin request_sha256 at (some existing) =
      pure (record { contract = existing; replayed = true })
  accept_over c key origin request_sha256 at none = do
    instant ← lift (require_aware "acceptance timestamp" at)
    contract ←
        lift
          (drafted_contract signatures utt_key_id authority_key_id c origin request_sha256 instant)
    committed ← commit_acceptance key contract
    pure (acceptance_result committed)

  unfoldable pub accept :
      QuoteAcceptanceCommand → Datetime → Exec ContractStore QuoteAcceptanceResult
  unfolding acceptance_material resolve_idempotency accept_over
  accept c at = do
    key ← lift (require_text "idempotency_key" c.idempotency_key)
    origin ← lift (context_payload c.origin)
    material ← lift (acceptance_material c origin)
    existing ← reads (resolve_idempotency key (sha256_of signatures material))
    accept_over c key origin (sha256_of signatures material) at existing
