-- ===== src/Operations/Outbox/Leases.antt =====
-- The leases of railone_operations/store.py: a claimed event belongs to one worker until it runs out.
use railone_core.Prelude.{
  ℕ, ◌+◌, ◌*◌, ◌<◌, String, ◌≡◌, ◌≢◌, refl, sym, ap, false, List, [], ◌∷◌, some, ok, ok-injective,
  All, All-implies, arith,
}
use railone_core.Prelude.Int.{ℤ, pos_part}
use railone_core.Prelude.Equality.{string_eq}
use railone_core.Prelude.Dict.{Dict, lookup}
use railone_core.Operations.Models.{OutboxRecord, OutboxDeliveryState}
use railone_core.Operations.Store.{
  OperationsStore, claimable, claimed_row, claim_rows, claimed_rows, due_rows, claim_outbox,
}
use railone_core.Operations.Outbox.{IsKeyed, IsFound, IsDue, due_rows-IsDue}
use railone_core.Operations.Outbox.Claims.{
  claim_rows-IsKeyed, claim_rows-written, claim_outbox_branches,
}

-- What a claim that does not raise did.
record Claimed (w : String) (at lease limit : ℕ) (s t : OperationsStore) (rows : List OutboxRecord)
    : Type 0 where
  pub rows_are : rows ≡ claimed_rows w at lease (due_rows at limit s)
  pub store_is : t ≡ record s { outbox = claim_rows w at lease (due_rows at limit s) s.outbox }

claim_outbox-Claimed :
    (w : String) (at : ℕ) (lease limit : ℤ) (s t : OperationsStore) (rows : List OutboxRecord)
    → claim_outbox w at lease limit s ≡ (ok rows, t)
    → Claimed w at (pos_part lease) (pos_part limit) s t rows
claim_outbox-Claimed w at lease limit s t rows =
    claim_outbox_branches
      (λ o. o ≡ (ok rows, t) → Claimed w at (pos_part lease) (pos_part limit) s t rows) w at lease
      limit s (λ e h. absurd (cc (ap (λ o. o.0) h)))
      λ h. record {
        rows_are = sym (ok-injective (ap (λ o. o.0) h));
        store_is = sym (ap (λ o. o.1) h);
      }

-- A row that is leased to a worker until an instant.
pub record IsLeased (w : String) (until : ℕ) (d : Dict String OutboxRecord) (event_id : String)
    : Type 0 where
  pub row : OutboxRecord
  pub held : lookup event_id d ≡ some row
  pub in_flight : row.delivery_state ≡ OutboxDeliveryState.in_flight
  pub owner : row.lease_owner ≡ some w
  pub lease : row.lease_until ≡ some until

claimed-IsLeased :
    (w : String) (at lease : ℕ) (d : Dict String OutboxRecord) (rows : List OutboxRecord)
    → All (λ (row : OutboxRecord). lookup row.event_id d ≡ some (claimed_row w at lease row)) rows
    → All
        (λ (row : OutboxRecord). IsLeased w (at + lease * 1000000) d row.event_id)
        (claimed_rows w at lease rows)
unfolding claimed_row
claimed-IsLeased w at lease d [] h = tt
claimed-IsLeased w at lease d (row ∷ rows) h = (
  record {
    row = claimed_row w at lease row;
    held = h.0;
    in_flight = refl;
    owner = refl;
    lease = refl;
  },
  claimed-IsLeased w at lease d rows h.1,
)

pub due-IsFound :
    (at : ℕ) (d : Dict String OutboxRecord) (rows : List OutboxRecord)
    → All (IsDue at d) rows
    → All (IsFound d) rows
due-IsFound at d [] h = tt
due-IsFound at d (row ∷ rows) h = (h.0.found, due-IsFound at d rows h.1)

-- Every row that a claim returns, from a store whose rows stand under their own identifiers, is leased
-- to the worker in the store that the claim leaves, until the lease's end.
pub claim_outbox-IsLeased :
    (w : String) (at : ℕ) (lease limit : ℤ) (s t : OperationsStore) (rows : List OutboxRecord)
    → IsKeyed s.outbox
    → claim_outbox w at lease limit s ≡ (ok rows, t)
    → All
        (λ (row : OutboxRecord). IsLeased w (at + pos_part lease * 1000000) t.outbox row.event_id)
        rows
claim_outbox-IsLeased w at lease limit s t rows keyed h =
    let c = claim_outbox-Claimed w at lease limit s t rows h in
    let due = due_rows at (pos_part limit) s in
    rw (c.rows_are, c.store_is)
      (claimed-IsLeased w at (pos_part lease) (claim_rows w at (pos_part lease) due s.outbox) due (
        claim_rows-written w at (pos_part lease) s.outbox due s.outbox
          (due-IsFound at s.outbox due (due_rows-IsDue at (pos_part limit) s keyed))))

leased-not_claimable :
    (at until : ℕ) (row : OutboxRecord)
    → row.delivery_state ≡ OutboxDeliveryState.in_flight
    → row.lease_until ≡ some until
    → at < until
    → claimable at row ≡ false
unfolding claimable
leased-not_claimable at until row state lease early = rw (state, lease) (ground (arith, early))

due-apart :
    (w : String) (until at : ℕ) (v : String) (lease : ℕ) (event_id : String)
    (d : Dict String OutboxRecord) (rows : List OutboxRecord)
    → IsLeased w until d event_id
    → at < until
    → All (IsDue at d) rows
    → All (λ (q : OutboxRecord). q.event_id ≢ event_id) (claimed_rows v at lease rows)
unfolding claimed_row
due-apart w until at v lease event_id d [] l early h = tt
due-apart w until at v lease event_id d (row ∷ rows) l early h = (
  (λ same.
      let is : row ≡ l.row = cc (same, h.0.found, l.held) in
      cc (
        h.0.due,
        leased-not_claimable at until row (cc (is, l.in_flight)) (cc (is, l.lease)) early,
      )),
  due-apart w until at v lease event_id d rows l early h.1,
)

-- Two claims, of any workers, one after the other: what the first one returned is not returned by the
-- second, if that comes before the first one's lease has run out, and rows stood under their own
-- identifiers to begin with.
pub lease_is_exclusive :
    (w v : String) (at later : ℕ) (lease lease₂ limit limit₂ : ℤ) (s t u : OperationsStore)
    (rows rows₂ : List OutboxRecord)
    → IsKeyed s.outbox
    → claim_outbox w at lease limit s ≡ (ok rows, t)
    → claim_outbox v later lease₂ limit₂ t ≡ (ok rows₂, u)
    → later < at + pos_part lease * 1000000
    → All (λ (row : OutboxRecord). All (λ (q : OutboxRecord). q.event_id ≢ row.event_id) rows₂) rows
lease_is_exclusive w v at later lease lease₂ limit limit₂ s t u rows rows₂ keyed first second
      early =
    let c = claim_outbox-Claimed w at lease limit s t rows first in
    let c₂ = claim_outbox-Claimed v later lease₂ limit₂ t u rows₂ second in
    let keyed₂ : IsKeyed t.outbox =
      rw c.store_is (
        claim_rows-IsKeyed w at (pos_part lease) (due_rows at (pos_part limit) s) s.outbox keyed) in
    All-implies
      (λ (row : OutboxRecord). IsLeased w (at + pos_part lease * 1000000) t.outbox row.event_id)
      (λ (row : OutboxRecord). All (λ (q : OutboxRecord). q.event_id ≢ row.event_id) rows₂) rows
      (λ row leased. rw c₂.rows_are (
        due-apart w (at + pos_part lease * 1000000) later v (pos_part lease₂) row.event_id t.outbox
          (due_rows later (pos_part limit₂) t) leased early
          (due_rows-IsDue later (pos_part limit₂) t keyed₂)))
      (claim_outbox-IsLeased w at lease limit s t rows keyed first)
