-- ===== src/Operations/Outbox.antt =====
-- Proofs about the outbox of railone_operations/store.py: rows stand under their own identifiers, and
-- a claim finds each of its rows where it will write it.
pub mod Branches
pub mod Claims
pub mod Leases
pub mod Final
use mathlib.Core.Path.{◌∙◌}
use railone_core.Prelude.{
  ℕ, String, ◌≡◌, ◌≢◌, refl, sym, Bool, true, false, ◌||◌, List, [], ◌∷◌, Option, none, some, All,
  select, take, inl, inr, arith, Bool-cases, if◌then◌else◌, All-take, All-implies,
}
use railone_core.Prelude.Equality.{◌==◌, string_eq}
use text.Mathlib.TextEquality.{eq_iff}
use railone_core.Prelude.Dict.{Dict, lookup, insert, values, lookup-insert}
use railone_core.Prelude.Sort.{sort, sort-All}
use railone_core.Prelude.Sort.Order.{All-select}
use railone_core.Operations.Models.{OutboxRecord}
use railone_core.Operations.Store.{OperationsStore, claimable, row_leb, due_rows}

-- Every row stands under its own identifier, and no identifier twice.
abbrev pub IsKeyed : Dict String OutboxRecord → Type 0
IsKeyed [] = Unit
IsKeyed ((k, row) ∷ d) = (row.event_id ≡ k) × (lookup k d ≡ none) × IsKeyed d

pub insert-IsKeyed :
    (k : String) (row : OutboxRecord) (d : Dict String OutboxRecord)
    → row.event_id ≡ k
    → IsKeyed d
    → IsKeyed (insert k row d)
unfolding lookup insert
insert-IsKeyed k row [] own h = (own, refl, tt)
insert-IsKeyed k row ((j, r) ∷ d) own h = elim (Bool-cases (j == k)) [
  | inl same ↦ rw same (own ∙ sym ((eq_iff j k).0 same), h.1, h.2)
  | inr apart ↦
      let other : (k == j) ≡ false = ground (arith, eq_iff j k, eq_iff k j) in
      rw apart (h.0, lookup-insert k j row d ∙ rw other h.1, insert-IsKeyed k row d own h.2)
]

-- The row is found under its own identifier.
abbrev pub IsFound : Dict String OutboxRecord → OutboxRecord → Type 0
IsFound d row = lookup row.event_id d ≡ some row

IsFound-later :
    (k : String) (row u : OutboxRecord) (d : Dict String OutboxRecord)
    → lookup k d ≡ none
    → IsFound d u
    → IsFound ((k, row) ∷ d) u
unfolding lookup
IsFound-later k row u d fresh found = elim (Bool-cases (k == u.event_id)) [
  | inl same ↦ absurd (cc (fresh, found, (eq_iff k u.event_id).0 same))
  | inr apart ↦ rw apart found
]

values-IsFound : (d : Dict String OutboxRecord) → IsKeyed d → All (IsFound d) (values d)
unfolding lookup
values-IsFound [] h = tt
values-IsFound ((k, row) ∷ d) h =
    let here : (k == row.event_id) ≡ true = (eq_iff k row.event_id).1 (sym h.0) in
    (
      rw here refl,
      All-implies (IsFound d) (IsFound ((k, row) ∷ d)) (values d) (λ u. IsFound-later k row u d h.1)
          (values-IsFound d h.2),
    )

-- A row that a claim takes: found where it stands, and due at the instant.
pub record IsDue (at : ℕ) (d : Dict String OutboxRecord) (row : OutboxRecord) : Type 0 where
  pub found : IsFound d row
  pub due : claimable at row ≡ true

select-IsDue :
    (at : ℕ) (d : Dict String OutboxRecord) (rows : List OutboxRecord)
    → All (IsFound d) rows
    → All (IsDue at d) (select (claimable at) rows)
select-IsDue at d [] h = tt
select-IsDue at d (row ∷ rows) h = elim (Bool-cases (claimable at row)) [
  | inl due ↦ rw due (record { found = h.0; due = due }, select-IsDue at d rows h.1)
  | inr not_due ↦ rw not_due (select-IsDue at d rows h.1)
]

pub due_rows-IsDue :
    (at limit : ℕ) (s : OperationsStore)
    → IsKeyed s.outbox
    → All (IsDue at s.outbox) (due_rows at limit s)
unfolding due_rows
due_rows-IsDue at limit s h =
    All-take (IsDue at s.outbox) limit (sort row_leb (select (claimable at) (values s.outbox))) (
      sort-All (IsDue at s.outbox) row_leb (select (claimable at) (values s.outbox))
        (select-IsDue at s.outbox (values s.outbox) (values-IsFound s.outbox h)))
