-- ===== src/Operations/Outbox/Final.antt =====
-- What no operation of railone_operations/store.py undoes: an event that has been published, or that is
-- dead, stays as it is; and only the owner of a lease settles its event.
use mathlib.Core.Path.{◌∙◌}
use railone_core.Prelude.{
  ℕ, String, ◌≡◌, ◌≢◌, refl, Bool, true, false, List, [], ◌∷◌, some, All, All-implies, inl, inr,
  arith, Bool-cases,
}
use railone_core.Prelude.Int.{ℤ, pos_part}
use railone_core.Prelude.Equality.{◌==◌, string_eq, nat_eq}
use text.Mathlib.TextEquality.{eq_iff}
use railone_core.Prelude.Dict.{Dict, lookup, insert, lookup-insert}
use railone_core.Operations.Models.{
  ProviderSubmissionRecord, OutboxRecord, OutboxDeliveryState, is_in_flight,
}
use railone_core.Operations.Store.{
  OperationsStore, claimable, due_rows, claim_outbox, published_row, rescheduled_row,
  mark_published, reschedule, prepare, transition,
}
use railone_core.Operations.Outbox.{IsKeyed, insert-IsKeyed, IsDue, due_rows-IsDue}
use railone_core.Operations.Outbox.Branches.{
  IsOwned, mark_published_branches, reschedule_branches, prepare_branches, transition_branches,
}
use railone_core.Operations.Outbox.Claims.{
  claim_rows-IsKeyed, claim_rows-other, claim_outbox_branches,
}

pub data Operation : Type 0 where
  preparing : ProviderSubmissionRecord → OutboxRecord → Operation
  moving : ℕ → ProviderSubmissionRecord → OutboxRecord → Operation
  claiming : String → ℕ → ℤ → ℤ → Operation
  publishing : String → String → ℕ → Operation
  rescheduling : String → String → ℕ → ℕ → String → ℤ → Operation

-- The store after an operation, whether it raises or not.
unfoldable pub operate : OperationsStore → Operation → OperationsStore
operate s (preparing submission row) = (prepare submission row s).1
operate s (moving version submission row) = (transition version submission row s).1
operate s (claiming worker_id at lease limit) = (claim_outbox worker_id at lease limit s).1
operate s (publishing event_id worker_id at) = (mark_published event_id worker_id at s).1
operate s (rescheduling event_id worker_id at available_at error most) =
    (reschedule event_id worker_id at available_at error most s).1

unfoldable pub operate_all : OperationsStore → List Operation → OperationsStore
unfolding operate
operate_all s [] = s
operate_all s (o ∷ os) = operate_all (operate s o) os

-- The event is published or dead.
abbrev pub is_final : OutboxDeliveryState → Bool
is_final OutboxDeliveryState.published = true
is_final OutboxDeliveryState.dead_letter = true
is_final _ = false

final-not_claimable :
    (at : ℕ) (row : OutboxRecord) → is_final row.delivery_state ≡ true → claimable at row ≡ false
unfolding claimable
final-not_claimable at row h = ground arith

final-not_in_flight : (d : OutboxDeliveryState) → is_final d ≡ true → is_in_flight d ≡ true → ⊥
final-not_in_flight OutboxDeliveryState.pending h f = cc
final-not_in_flight OutboxDeliveryState.in_flight h f = cc
final-not_in_flight OutboxDeliveryState.published h f = cc
final-not_in_flight OutboxDeliveryState.dead_letter h f = cc

-- The event stands under its identifier.
abbrev StandsFinal : String → OutboxRecord → OperationsStore → Type 0
StandsFinal k r t = lookup k t.outbox ≡ some r

-- The final event is not overwritten by one that is written elsewhere.
insert-StandsFinal :
    (k j : String) (r row : OutboxRecord) (d : Dict String OutboxRecord)
    → lookup k d ≡ some r
    → j ≢ k
    → lookup k (insert j row d) ≡ some r
insert-StandsFinal k j r row d held apart = ground (arith, lookup-insert j k row d, eq_iff j k)

module _ (s : OperationsStore) (k : String) (r : OutboxRecord) (held : lookup k s.outbox ≡ some r)
    (final : is_final r.delivery_state ≡ true) where
  owned-apart : (event_id w : String) (row : OutboxRecord) → IsOwned event_id w s row → event_id ≢ k
  owned-apart event_id w row owned same =
      final-not_in_flight r.delivery_state final (cc (owned.held, owned.in_flight, held, same))

  due-apart :
      (at : ℕ) (rows : List OutboxRecord)
      → All (IsDue at s.outbox) rows
      → All (λ (row : OutboxRecord). row.event_id ≢ k) rows
  due-apart at rows h =
      All-implies (IsDue at s.outbox) (λ (row : OutboxRecord). row.event_id ≢ k) rows
        (λ row due same. cc (final-not_claimable at r final, due.due, due.found, held, same)) h

  operate-StandsFinal : (o : Operation) → IsKeyed s.outbox → StandsFinal k r (operate s o)
  unfolding operate
  operate-StandsFinal (preparing submission row) keyed =
      prepare_branches (λ o. StandsFinal k r o.1) submission row s (λ _. held)
        λ _ _ fresh.
          insert-StandsFinal k row.event_id r row s.outbox held (λ same. cc (fresh, held, same))
  operate-StandsFinal (moving version submission row) keyed =
      transition_branches (λ o. StandsFinal k r o.1) version submission row s (λ _. held)
        λ _ _ _ _ fresh.
          insert-StandsFinal k row.event_id r row s.outbox held (λ same. cc (fresh, held, same))
  operate-StandsFinal (claiming w at lease limit) keyed =
      claim_outbox_branches (λ o. StandsFinal k r o.1) w at lease limit s (λ _. held)
        (claim_rows-other w at (pos_part lease) k (due_rows at (pos_part limit) s) s.outbox (
            due-apart at (due_rows at (pos_part limit) s)
              (due_rows-IsDue at (pos_part limit) s keyed))
          ∙ held)
  operate-StandsFinal (publishing event_id w at) keyed =
      mark_published_branches (λ o. StandsFinal k r o.1) event_id w at s (λ _. held)
        λ row owned.
          insert-StandsFinal k event_id r (published_row at row) s.outbox held
            (owned-apart event_id w row owned)
  operate-StandsFinal (rescheduling event_id w at available_at error most) keyed =
      reschedule_branches (λ o. StandsFinal k r o.1) event_id w at s (λ _. held) available_at error
        most
        λ row owned.
          insert-StandsFinal k event_id r
            (rescheduled_row at available_at error (pos_part most) row) s.outbox held
            (owned-apart event_id w row owned)

found_id :
    (d : Dict String OutboxRecord) (k : String) (row : OutboxRecord)
    → IsKeyed d
    → lookup k d ≡ some row
    → row.event_id ≡ k
unfolding lookup
found_id [] k row h held = cc
found_id ((j, r) ∷ d) k row h held = elim (Bool-cases (j == k)) [
  | inl same ↦ ground (arith, h.0, (eq_iff j k).0 same, held)
  | inr apart ↦ found_id d k row h.2 (rw apart at held)
]

pub operate-IsKeyed :
    (s : OperationsStore) (o : Operation) → IsKeyed s.outbox → IsKeyed (operate s o).outbox
unfolding operate published_row rescheduled_row
operate-IsKeyed s (preparing submission row) h =
    prepare_branches (λ o. IsKeyed o.1.outbox) submission row s (λ _. h)
      λ _ _ _. insert-IsKeyed row.event_id row s.outbox refl h
operate-IsKeyed s (moving version submission row) h =
    transition_branches (λ o. IsKeyed o.1.outbox) version submission row s (λ _. h)
      λ _ _ _ _ _. insert-IsKeyed row.event_id row s.outbox refl h
operate-IsKeyed s (claiming w at lease limit) h =
    claim_outbox_branches (λ o. IsKeyed o.1.outbox) w at lease limit s (λ _. h)
      (claim_rows-IsKeyed w at (pos_part lease) (due_rows at (pos_part limit) s) s.outbox h)
operate-IsKeyed s (publishing event_id w at) h =
    mark_published_branches (λ o. IsKeyed o.1.outbox) event_id w at s (λ _. h)
      λ row owned.
        insert-IsKeyed event_id (published_row at row) s.outbox
          (found_id s.outbox event_id row h owned.held) h
operate-IsKeyed s (rescheduling event_id w at available_at error most) h =
    reschedule_branches (λ o. IsKeyed o.1.outbox) event_id w at s (λ _. h) available_at error most
      λ row owned.
        insert-IsKeyed event_id (rescheduled_row at available_at error (pos_part most) row) s.outbox
          (found_id s.outbox event_id row h owned.held) h

-- Whatever operations follow, in whatever order and with whatever outcomes, on a store whose rows
-- stand under their own identifiers: an event that is published or dead stays exactly as it is.
pub final_event-unchanged :
    (s : OperationsStore) (os : List Operation) (k : String) (r : OutboxRecord)
    → IsKeyed s.outbox
    → lookup k s.outbox ≡ some r
    → is_final r.delivery_state ≡ true
    → lookup k (operate_all s os).outbox ≡ some r
unfolding operate_all
final_event-unchanged s [] k r keyed held final = held
final_event-unchanged s (o ∷ os) k r keyed held final =
    final_event-unchanged (operate s o) os k r (operate-IsKeyed s o keyed)
      (operate-StandsFinal s k r held final o keyed) final
