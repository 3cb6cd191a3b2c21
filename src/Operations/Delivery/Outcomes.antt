-- ===== src/Operations/Delivery/Outcomes.antt =====
-- What a batch of the relay of railone_operations/service.py leaves of each event that was due.
use railone_core.Prelude.{
  ℕ, ◌+◌, ◌*◌, ◌^◌, ◌≤◌, String, ◌≡◌, ◌≢◌, ◌⊎◌, ◌<◌, refl, true, false, List, [], ◌∷◌, Option, none,
  some, ok, All, inl, inr, arith, Bool-cases, map, leb,
}
use railone_core.Prelude.Int.{ℤ, pos_part}
use railone_core.Prelude.Equality.{string_eq}
use text.Mathlib.TextEquality.{eq_iff}
use railone_core.Prelude.Text.{strip, is_empty}
use railone_core.Prelude.Dict.{Dict, lookup}
use railone_core.Prelude.Sort.Order.{IsApart}
use railone_core.Crypto.Signatures.{SignatureEnvelope}
use railone_core.Execution.Models.{Datetime, require_aware}
use railone_core.Operations.Models.{OutboxRecord, OutboxDeliveryState}
use railone_core.Operations.Store.{
  OperationsStore, within, claimed_row, claimed_rows, claim_rows, claim_outbox, due_rows,
  published_row, rescheduled_row,
}
use railone_core.Operations.Relay.{delay_seconds, publish_batch}
use railone_core.Operations.Outbox.{IsKeyed, due_rows-IsDue}
use railone_core.Operations.Outbox.Claims.{claim_rows-written}
use railone_core.Operations.Outbox.Leases.{due-IsFound}
use railone_core.Operations.Delivery.{
  event_key, due_rows-IsApart, IsMine, settled_as, settled, settle_all, IsNamed,
}
use native.Mathlib.Nat.{one-le-pow}
use railone_core.Operations.Relay.{lesser}
use railone_core.Operations.Delivery.Batches.{settle_events-settled, settle_all-written}

-- What the publisher's answer leaves of an event that was due: it is published; or it failed, and is
-- dead once its attempts have reached the limit, and is otherwise due again in 1 to 300 seconds.
abbrev pub HasOutcome : ℕ → ℕ → OutboxRecord → OutboxRecord → Option String → Type 0
HasOutcome at most row r none =
    (r.delivery_state ≡ OutboxDeliveryState.published) × (r.published_at ≡ some at)
HasOutcome at most row r (some error) =
    ((r.delivery_state ≡ OutboxDeliveryState.dead_letter) × (most ≤ row.delivery_attempts + 1))
    ⊎ ((r.delivery_state ≡ OutboxDeliveryState.pending)
        × (row.delivery_attempts + 1 < most)
        × (at + 1000000 ≤ r.available_at)
        × (r.available_at ≤ at + 300 * 1000000))

pub record IsDelivered (at most : ℕ) (answer : Option String) (row r : OutboxRecord) : Type 0 where
  pub same_event : r.event_id ≡ row.event_id
  pub same_signed : r.signed_event ≡ row.signed_event
  pub counted : r.delivery_attempts ≡ row.delivery_attempts + 1
  pub released : r.lease_owner ≡ none
  pub outcome : HasOutcome at most row r answer

lesser-within : (n : ℕ) → 1 ≤ n → (1 ≤ lesser 300 n) × (lesser 300 n ≤ 300)
lesser-within n h = ground arith

delay_seconds-within : (n : ℕ) → (1 ≤ delay_seconds n) × (delay_seconds n ≤ 300)
unfolding delay_seconds
delay_seconds-within n = lesser-within (2 ^ lesser n 8) (one-le-pow (lesser n 8) 2 (omega arith))

module _ (publish : String → SignatureEnvelope → Option String) (w : String) (lease most : ℤ) where
  settled_as-IsDelivered :
      (at : ℕ) (row : OutboxRecord) (answer : Option String)
      → IsDelivered at
          (pos_part most)
          answer
          row
          (settled_as publish w at lease most (claimed_row w at (pos_part lease) row) answer)
  unfolding published_row rescheduled_row claimed_row
  settled_as-IsDelivered at row none = record {
    same_event = refl;
    same_signed = refl;
    counted = refl;
    released = refl;
    outcome = (refl, refl);
  }
  settled_as-IsDelivered at row (some error) = record {
    same_event = refl;
    same_signed = refl;
    counted = refl;
    released = refl;
    outcome =
        let (least, greatest) = delay_seconds-within (row.delivery_attempts + 1) in
        elim (Bool-cases (leb (pos_part most) (row.delivery_attempts + 1))) [
          | inl spent ↦ inl (rw spent refl, ground (arith, spent))
          | inr left ↦
              inr
                (rw left refl, ground (arith, left), omega (arith, least), omega (arith, greatest))
        ];
  }

  claimed-IsMine :
      (at : ℕ) (d : Dict String OutboxRecord) (rows : List OutboxRecord)
      → All
          (λ (row : OutboxRecord).
            lookup row.event_id d ≡ some (claimed_row w at (pos_part lease) row))
          rows
      → All (IsMine w d) (claimed_rows w at (pos_part lease) rows)
  unfolding claimed_row
  claimed-IsMine at d [] h = tt
  claimed-IsMine at d (row ∷ rows) h = (
    record { found = h.0; in_flight = refl; owner = (eq_iff w w).1 refl },
    claimed-IsMine at d rows h.1,
  )

  claimed-All-apart :
      (at : ℕ) (k : String) (rows : List OutboxRecord)
      → All (λ (row : OutboxRecord). k ≢ row.event_id) rows
      → All (λ (row : OutboxRecord). k ≢ row.event_id) (claimed_rows w at (pos_part lease) rows)
  unfolding claimed_row
  claimed-All-apart at k [] h = tt
  claimed-All-apart at k (row ∷ rows) h = (h.0, claimed-All-apart at k rows h.1)

  claimed-IsApart :
      (at : ℕ) (rows : List OutboxRecord)
      → IsApart event_key rows
      → IsApart event_key (claimed_rows w at (pos_part lease) rows)
  unfolding claimed_row
  claimed-IsApart at [] h = tt
  claimed-IsApart at (row ∷ rows) h =
      (claimed-All-apart at row.event_id rows h.0, claimed-IsApart at rows h.1)

  -- The row stands as the publisher's answer leaves it.
  abbrev pub StandsDelivered : ℕ → OperationsStore → OutboxRecord → Type 0
  StandsDelivered at t row =
      (r : OutboxRecord) × (lookup row.event_id t.outbox ≡ some r)
      × IsDelivered at (pos_part most) (publish row.event_id row.signed_event) row r

  written-StandsDelivered :
      (at : ℕ) (t : OperationsStore) (rows : List OutboxRecord)
      → All
          (λ (e : OutboxRecord).
            lookup e.event_id t.outbox ≡ some (settled publish w at lease most e))
          (claimed_rows w at (pos_part lease) rows)
      → All (StandsDelivered at t) rows
  unfolding claimed_row
  written-StandsDelivered at t [] h = tt
  written-StandsDelivered at t (row ∷ rows) h = (
    (
      settled publish w at lease most (claimed_row w at (pos_part lease) row),
      h.0,
      settled_as-IsDelivered at row (publish row.event_id row.signed_event),
    ),
    written-StandsDelivered at t rows h.1,
  )

  -- A batch, with an aware timestamp, a worker's name that is not blank, a lease of 1 to 300 seconds,
  -- 1 to 100 attempts and a limit of 1 to 1000, on a store whose rows stand under their own
  -- identifiers, and with a publisher whose exceptions have names, does not raise, and every due
  -- event that it takes, at most as many as the limit says, is delivered: published if the publisher accepted it, and otherwise dead once its
  -- attempts have reached the limit, or due again in 1 to 300 seconds; no lease is left on it.
  pub publish_batch-delivers :
      (limit : ℤ) (at : Datetime) (s : OperationsStore)
      → at.has_zone ≡ true
      → is_empty (strip w) ≡ false
      → within lease 300 ≡ true
      → within limit 1000 ≡ true
      → within most 100 ≡ true
      → IsNamed publish w at.micros lease most
      → IsKeyed s.outbox
      → (rs : List OutboxRecord) × (t : OperationsStore) × (publish_batch publish w lease most limit
            at s
          ≡ (ok rs, t))
        × All (StandsDelivered at.micros t) (due_rows at.micros (pos_part limit) s)
  unfolding publish_batch require_aware claim_outbox
  publish_batch-delivers limit at s aware worker leased limited fits named keyed =
      let rows = due_rows at.micros (pos_part limit) s in
      let events = claimed_rows w at.micros (pos_part lease) rows in
      let d = claim_rows w at.micros (pos_part lease) rows s.outbox in
      let apart : IsApart event_key events =
        claimed-IsApart at.micros rows (due_rows-IsApart at.micros (pos_part limit) s keyed) in
      let mine : All (IsMine w d) events = claimed-IsMine at.micros d rows (
        claim_rows-written w at.micros (pos_part lease) s.outbox rows s.outbox (
          due-IsFound at.micros s.outbox rows
            (due_rows-IsDue at.micros (pos_part limit) s keyed))) in
      let t = record s { outbox = settle_all publish w at.micros lease most events d } in
      (
        map (settled publish w at.micros lease most) events,
        t,
        rw (aware, worker, leased, limited)
            (settle_events-settled publish w lease most at.micros (record s { outbox = d }) events
              fits named apart mine),
        written-StandsDelivered at.micros t rows
            (settle_all-written publish w lease most at.micros events d apart),
      )
