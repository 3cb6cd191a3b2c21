-- ===== src/Operations/Delivery/Batches.antt =====
-- One batch of `OutboxRelay.publish_batch`: every due event that it claims is published, or is put off
-- by at most five minutes, or is dead.
use mathlib.Core.Path.{◌∙◌}
use railone_core.Prelude.{
  ℕ, String, ◌≡◌, ◌≢◌, refl, sym, true, false, List, [], ◌∷◌, Option, some, ok, All, arith, map,
}
use railone_core.Prelude.Int.{ℤ}
use railone_core.Prelude.Equality.{◌==◌, string_eq}
use text.Mathlib.TextEquality.{eq_iff}
use railone_core.Prelude.Dict.{Dict, lookup, insert, lookup-insert, lookup-insert_self}
use railone_core.Prelude.Sort.Order.{IsApart}
use railone_core.Crypto.Signatures.{SignatureEnvelope}
use railone_core.Operations.Models.{OutboxRecord}
use railone_core.Operations.Store.{OperationsStore, within}
use railone_core.Operations.Relay.{settle_events}
use railone_core.Operations.Delivery.{
  event_key, IsMine, settled, settle_all, IsNamed, settle_event-settled,
}

module _ (publish : String → SignatureEnvelope → Option String) (w : String) (lease most : ℤ) where
  IsMine-insert :
      (d : Dict String OutboxRecord) (event row : OutboxRecord) (events : List OutboxRecord)
      → All (λ (e : OutboxRecord). event.event_id ≢ e.event_id) events
      → All (IsMine w d) events
      → All (IsMine w (insert event.event_id row d)) events
  IsMine-insert d event row [] apart h = tt
  IsMine-insert d event row (e ∷ events) apart h = (
    record {
      found =
          lookup-insert event.event_id e.event_id row d
          ∙ rw (differ event.event_id e.event_id apart.0) h.0.found;
      in_flight = h.0.in_flight;
      owner = h.0.owner;
    },
    IsMine-insert d event row events apart.1 h.1,
  )
    where
      differ : (x y : String) → x ≢ y → (x == y) ≡ false
      differ x y n = ground (arith, eq_iff x y, n)

  pub settle_events-settled :
      (at : ℕ) (s : OperationsStore) (events : List OutboxRecord)
      → within most 100 ≡ true
      → IsNamed publish w at lease most
      → IsApart event_key events
      → All (IsMine w s.outbox) events
      → settle_events publish w lease most at events s ≡ (
        ok (map (settled publish w at lease most) events),
        record s { outbox = settle_all publish w at lease most events s.outbox },
      )
  unfolding settle_events settle_all
  settle_events-settled at s [] fits named apart mine = refl
  settle_events-settled at s (event ∷ events) fits named apart mine =
      let first = settled publish w at lease most event in
      let s' = record s { outbox = insert event.event_id first s.outbox } in
      rw
        (
          settle_event-settled publish w at lease most s event
              (publish event.event_id event.signed_event) fits
              (named event.event_id event.signed_event) mine.0,
          settle_events-settled at s' events fits named apart.1
              (IsMine-insert s.outbox event first events apart.0 mine.1),
        )
        refl

  settle_all-other :
      (at : ℕ) (k : String) (events : List OutboxRecord) (d : Dict String OutboxRecord)
      → All (λ (e : OutboxRecord). k ≢ e.event_id) events
      → lookup k (settle_all publish w at lease most events d) ≡ lookup k d
  unfolding settle_all
  settle_all-other at k [] d h = refl
  settle_all-other at k (event ∷ events) d h =
      settle_all-other at k events (insert event.event_id (settled publish w at lease most event) d)
        h.1
      ∙ lookup-insert event.event_id k (settled publish w at lease most event) d
      ∙ rw (differ k event.event_id h.0) refl
    where
      differ : (x y : String) → x ≢ y → (y == x) ≡ false
      differ x y n = ground (arith, eq_iff y x, λ (e : y ≡ x). n (sym e))

  pub settle_all-written :
      (at : ℕ) (events : List OutboxRecord) (d : Dict String OutboxRecord)
      → IsApart event_key events
      → All
          (λ (e : OutboxRecord).
            lookup e.event_id (settle_all publish w at lease most events d)
            ≡ some (settled publish w at lease most e))
          events
  unfolding settle_all
  settle_all-written at [] d apart = tt
  settle_all-written at (event ∷ events) d apart =
      let first = settled publish w at lease most event in
      let d' = insert event.event_id first d in
      (
        settle_all-other at event.event_id events d' apart.0
            ∙ lookup-insert_self event.event_id first d,
        settle_all-written at events d' apart.1,
      )
