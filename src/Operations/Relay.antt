-- ===== src/Operations/Relay.antt =====
-- `OutboxRelay` of railone_operations/service.py. The publisher is an argument: what it does with one
-- event, nothing or an exception of the class that it names.
use railone_core.Prelude.{
  ℕ, ◌+◌, ◌*◌, ◌^◌, String, List, [], ◌∷◌, Option, none, some, if◌then◌else◌, leb,
}
use railone_core.Prelude.Int.{ℤ}
use railone_core.Prelude.Exec.{Exec, pure, lift, ◌>>=◌}
use railone_core.Crypto.Signatures.{SignatureEnvelope}
use railone_core.Execution.Models.{Datetime, require_aware}
use railone_core.Operations.Models.{OutboxRecord}
use railone_core.Operations.Store.{OperationsStore, claim_outbox, mark_published, reschedule}

abbrev pub lesser : ℕ → ℕ → ℕ
lesser a b = if leb a b then a else b

-- `min(300, 2 ** min(attempts, 8))`
unfoldable pub delay_seconds : ℕ → ℕ
delay_seconds attempts = lesser 300 (2 ^ lesser attempts 8)

module _ (publish : String → SignatureEnvelope → Option String) (worker_id : String)
    (lease_seconds max_attempts : ℤ) where
  -- What the relay does once the publisher has returned, or has raised.
  unfoldable pub settle_event : ℕ → OutboxRecord → Option String → Exec OperationsStore OutboxRecord
  unfolding delay_seconds
  settle_event at event (some error) =
      reschedule event.event_id worker_id at (at + delay_seconds event.delivery_attempts * 1000000)
        error max_attempts
  settle_event at event none = mark_published event.event_id worker_id at

  -- The loop over the claimed events.
  unfoldable pub settle_events : ℕ → List OutboxRecord → Exec OperationsStore (List OutboxRecord)
  unfolding settle_event
  settle_events at [] = pure []
  settle_events at (event ∷ events) = do
    outcome ← settle_event at event (publish event.event_id event.signed_event)
    outcomes ← settle_events at events
    pure (outcome ∷ outcomes)

  unfoldable pub publish_batch : ℤ → Datetime → Exec OperationsStore (List OutboxRecord)
  unfolding settle_events require_aware
  publish_batch limit at = do
    instant ← lift (require_aware "provider-operation timestamp" at)
    claimed ← claim_outbox worker_id instant lease_seconds limit
    settle_events instant claimed
