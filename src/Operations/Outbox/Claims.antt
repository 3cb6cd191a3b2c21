-- ===== src/Operations/Outbox/Claims.antt =====
-- What `claim_outbox` of railone_operations/store.py writes and returns.
use mathlib.Core.Path.{◌∙◌}
use railone_core.Prelude.{
  ℕ, String, ◌≡◌, ◌≢◌, refl, ap, false, not, List, [], ◌∷◌, some, Exception, Result, ok, err, All,
  inl, inr, arith, Bool-cases, value_error,
}
use railone_core.Prelude.Int.{ℤ, pos_part}
use railone_core.Prelude.Equality.{◌==◌, string_eq}
use text.Mathlib.TextEquality.{eq_iff}
use railone_core.Prelude.Text.{strip, is_empty}
use railone_core.Prelude.Dict.{Dict, lookup, insert, lookup-insert}
use railone_core.Prelude.Exec.Branches.{guard_branches}
use railone_core.Operations.Models.{OutboxRecord}
use railone_core.Operations.Store.{
  OperationsStore, within, claimed_row, claim_rows, claimed_rows, due_rows, claim_outbox,
}
use railone_core.Operations.Outbox.{IsKeyed, insert-IsKeyed, IsFound}

module _ (w : String) (at lease : ℕ) where
  pub claim_rows-IsKeyed :
      (rows : List OutboxRecord) (d : Dict String OutboxRecord)
      → IsKeyed d
      → IsKeyed (claim_rows w at lease rows d)
  unfolding claim_rows claimed_row
  claim_rows-IsKeyed [] d h = h
  claim_rows-IsKeyed (row ∷ rows) d h =
      claim_rows-IsKeyed rows (insert row.event_id (claimed_row w at lease row) d)
        (insert-IsKeyed row.event_id (claimed_row w at lease row) d refl h)

  -- A row that no claimed row stands in place of is as it was.
  pub claim_rows-other :
      (k : String) (rows : List OutboxRecord) (d : Dict String OutboxRecord)
      → All (λ (row : OutboxRecord). row.event_id ≢ k) rows
      → lookup k (claim_rows w at lease rows d) ≡ lookup k d
  unfolding claim_rows
  claim_rows-other k [] d h = refl
  claim_rows-other k (row ∷ rows) d h =
      claim_rows-other k rows (insert row.event_id (claimed_row w at lease row) d) h.1
      ∙ lookup-insert row.event_id k (claimed_row w at lease row) d
      ∙ rw (apart row.event_id k h.0) refl
    where
      apart : (x y : String) → x ≢ y → (x == y) ≡ false
      apart x y n = ground (arith, eq_iff x y, n)

  -- A claimed row that is already written stays, whatever else is claimed.
  claim_rows-kept :
      (r : OutboxRecord) (d₀ : Dict String OutboxRecord) (rows : List OutboxRecord)
      (d : Dict String OutboxRecord)
      → IsFound d₀ r
      → All (IsFound d₀) rows
      → lookup r.event_id d ≡ some (claimed_row w at lease r)
      → lookup r.event_id (claim_rows w at lease rows d) ≡ some (claimed_row w at lease r)
  unfolding claim_rows
  claim_rows-kept r d₀ [] d found h held = held
  claim_rows-kept r d₀ (row ∷ rows) d found h held =
      claim_rows-kept r d₀ rows (insert row.event_id (claimed_row w at lease row) d) found h.1 (
        lookup-insert row.event_id r.event_id (claimed_row w at lease row) d
        ∙ elim (Bool-cases (row.event_id == r.event_id)) [
          | inl same ↦
              let equal : row ≡ r = cc (found, h.0, (eq_iff row.event_id r.event_id).0 same) in
              rw same (ap (λ x. some (claimed_row w at lease x)) equal)
          | inr apart ↦ rw apart held
        ])

  pub claim_rows-written :
      (d₀ : Dict String OutboxRecord) (rows : List OutboxRecord) (d : Dict String OutboxRecord)
      → All (IsFound d₀) rows
      → All
          (λ (row : OutboxRecord).
            lookup row.event_id (claim_rows w at lease rows d) ≡ some (claimed_row w at lease row))
          rows
  unfolding claim_rows
  claim_rows-written d₀ [] d h = tt
  claim_rows-written d₀ (row ∷ rows) d h = (
    claim_rows-kept row d₀ rows (insert row.event_id (claimed_row w at lease row) d) h.0 h.1 (
        lookup-insert row.event_id row.event_id (claimed_row w at lease row) d
        ∙ rw ((eq_iff row.event_id row.event_id).1 refl) refl),
    claim_rows-written d₀ rows (insert row.event_id (claimed_row w at lease row) d) h.1,
  )

-- A claim raises and changes nothing, or claims the rows that are due.
pub claim_outbox_branches {ℓ} :
    (P : Result (List OutboxRecord) × OperationsStore → Type ℓ) (w : String) (at : ℕ)
    (lease limit : ℤ) (s : OperationsStore)
    → ((e : Exception) → P (err e, s))
    → P (
      ok (claimed_rows w at (pos_part lease) (due_rows at (pos_part limit) s)),
      record s {
        outbox = claim_rows w at (pos_part lease) (due_rows at (pos_part limit) s) s.outbox;
      },
    )
    → P (claim_outbox w at lease limit s)
unfolding claim_outbox
claim_outbox_branches P w at lease limit s raised claimed =
    guard_branches P (is_empty (strip w)) (value_error "outbox worker_id is required") _ s raised
      λ _.
        guard_branches P (not (within lease 300))
          (value_error "outbox lease_seconds must be between 1 and 300") _ s raised
          λ _.
            guard_branches P (not (within limit 1000))
              (value_error "outbox claim limit must be between 1 and 1000") _ s raised λ _. claimed
