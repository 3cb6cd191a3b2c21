-- ===== src/Operations/Delivery.antt =====
-- What one batch of `OutboxRelay` of railone_operations/service.py does to the events that are due.
pub mod Batches
pub mod Outcomes
use mathlib.Core.Path.{◌∙◌}
use railone_core.Prelude.{
  ℕ, ◌+◌, ◌*◌, ◌≤◌, String, ◌≡◌, ◌≢◌, refl, sym, ap, Bool, true, false, not, List, [], ◌∷◌, Option,
  none, some, Result, ok, err, All, All-implies, inl, inr, arith, Bool-cases, if◌then◌else◌, select,
  take, map,
}
use railone_core.Prelude.Int.{ℤ, pos, pos_part}
use railone_core.Prelude.Equality.{◌==◌, string_eq}
use text.Mathlib.TextEquality.{eq_iff}
use railone_core.Prelude.Text.{strip, is_empty}
use railone_core.Prelude.Dict.{Dict, lookup, insert, values, lookup-insert, lookup-insert_self}
use railone_core.Prelude.Sort.{sort}
use railone_core.Prelude.Sort.Order.{IsApart, IsApart-select, sort-IsApart, take-IsApart}
use railone_core.Crypto.Signatures.{SignatureEnvelope}
use railone_core.Operations.Models.{OutboxRecord, OutboxDeliveryState, is_in_flight}
use railone_core.Operations.Store.{
  OperationsStore, within, claimable, claimed_row, claimed_rows, claim_rows, due_rows, row_leb,
  is_owner, require_owned_event, mark_published, published_row, reschedule, rescheduled_row,
}
use railone_core.Operations.Relay.{delay_seconds, settle_event, settle_events}
use railone_core.Operations.Outbox.{IsKeyed, IsFound}

abbrev pub event_key : OutboxRecord → String
event_key row = row.event_id

none-apart :
    (k : String) (d : Dict String OutboxRecord)
    → IsKeyed d
    → lookup k d ≡ none
    → All (λ (row : OutboxRecord). k ≢ row.event_id) (values d)
unfolding lookup
none-apart k [] keyed h = tt
none-apart k ((j, row) ∷ d) keyed h = (
  (λ same. ground (arith, keyed.0, same, eq_iff j k, h)),
  none-apart k d keyed.2 (ground (arith, h)),
)

values-IsApart : (d : Dict String OutboxRecord) → IsKeyed d → IsApart event_key (values d)
values-IsApart [] h = tt
values-IsApart ((k, row) ∷ d) h = (rw h.0 (none-apart k d h.2 h.1), values-IsApart d h.2)

pub due_rows-IsApart :
    (at limit : ℕ) (s : OperationsStore)
    → IsKeyed s.outbox
    → IsApart event_key (due_rows at limit s)
unfolding due_rows
due_rows-IsApart at limit s h =
    take-IsApart event_key limit (sort row_leb (select (claimable at) (values s.outbox))) (
      sort-IsApart event_key row_leb (select (claimable at) (values s.outbox))
        (IsApart-select event_key (claimable at) (values s.outbox) (values-IsApart s.outbox h)))

-- The worker owns the event, which stands as it was claimed.
pub record IsMine (w : String) (d : Dict String OutboxRecord) (event : OutboxRecord) : Type 0 where
  pub found : IsFound d event
  pub in_flight : is_in_flight event.delivery_state ≡ true
  pub owner : is_owner event.lease_owner w ≡ true

require_owned_event-mine :
    (w : String) (s : OperationsStore) (event : OutboxRecord)
    → IsMine w s.outbox event
    → require_owned_event event.event_id w s ≡ ok event
unfolding require_owned_event
require_owned_event-mine w s event m =
    rw (require_owned_event, m.found, require_owned_event, m.in_flight, m.owner) refl

module _ (publish : String → SignatureEnvelope → Option String) (w : String) (at : ℕ)
    (lease most : ℤ) where
  -- What the publisher's answer makes of an event.
  abbrev pub settled_as : OutboxRecord → Option String → OutboxRecord
  settled_as event none = published_row at event
  settled_as event (some error) =
      rescheduled_row at (at + delay_seconds event.delivery_attempts * 1000000) error
        (pos_part most) event

  abbrev pub settled : OutboxRecord → OutboxRecord
  settled event = settled_as event (publish event.event_id event.signed_event)

  unfoldable pub settle_all :
      List OutboxRecord → Dict String OutboxRecord → Dict String OutboxRecord
  settle_all [] d = d
  settle_all (event ∷ events) d = settle_all events (insert event.event_id (settled event) d)

  -- Every exception of the publisher has a name.
  abbrev pub IsNamed : Type 0
  IsNamed =
      (event_id : String) (signed : SignatureEnvelope) (error : String)
      → publish event_id signed ≡ some error
      → is_empty (strip error) ≡ false

  pub settle_event-settled :
      (s : OperationsStore) (event : OutboxRecord) (answer : Option String)
      → within most 100 ≡ true
      → ((error : String) → answer ≡ some error → is_empty (strip error) ≡ false)
      → IsMine w s.outbox event
      → settle_event publish w lease most at event answer s ≡ (
        ok (settled_as event answer),
        record s { outbox = insert event.event_id (settled_as event answer) s.outbox },
      )
  unfolding settle_event mark_published reschedule
  settle_event-settled s event none fits named m = rw (require_owned_event-mine w s event m) refl
  settle_event-settled s event (some error) fits named m =
      rw (fits, named error refl, require_owned_event-mine w s event m) refl
