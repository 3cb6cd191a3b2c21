-- ===== src/Prelude/Dict.antt =====
-- Python's `dict` as an association list in insertion order.
use mathlib.Core.Path.{◌≡◌, refl}
use mathlib.Core.Option.{Option, none, some}
use mathlib.Core.List.{List, [], ◌∷◌}
use native.Mathlib.Omega.{arith}
use mathlib.Core.Logic.{◌≢◌, ◌⊎◌, inl, inr}
use railone_core.Prelude.Tests.{if◌then◌else◌, Bool-cases}
use railone_core.Prelude.Equality.{Comparable, ◌==◌}

abbrev pub Dict {ℓ κ} : Type ℓ → Type κ → Type (ℓ ⊔ κ)
Dict K V = List (K × V)

module _ {ℓ κ} {K : Type ℓ} {V : Type κ} ⦃e : Comparable K⦄ where
  -- `d.get(k)`
  unfoldable pub lookup : K → Dict K V → Option V
  lookup k [] = none
  lookup k ((j, v) ∷ d) = if j == k then some v else lookup k d

  -- `d[k] = v`: an old key keeps its place.
  unfoldable pub insert : K → V → Dict K V → Dict K V
  insert k v [] = (k, v) ∷ []
  insert k v ((j, w) ∷ d) = if j == k then (j, v) ∷ d else (j, w) ∷ insert k v d

  -- `d.pop(k, None)`
  unfoldable pub remove : K → Dict K V → Dict K V
  remove k [] = []
  remove k ((j, w) ∷ d) = let rest = remove k d in if j == k then rest else (j, w) ∷ rest

  -- `list(d.values())`
  abbrev pub values : Dict K V → List V
  values [] = []
  values ((j, v) ∷ d) = v ∷ values d

  pub lookup-insert :
      (k j : K) (v : V) (d : Dict K V)
      → lookup j (insert k v d) ≡ (if k == j then some v else lookup j d)
  unfolding lookup insert
  lookup-insert k j v [] = refl
  lookup-insert k j v ((i, w) ∷ d) =
      ground (arith, e.same_iff k j, e.same_iff i k, e.same_iff i j, lookup-insert k j v d)

  pub lookup-insert_self : (k : K) (v : V) (d : Dict K V) → lookup k (insert k v d) ≡ some v
  lookup-insert_self k v d = ground (arith, lookup-insert k k v d, e.same_iff k k)

  -- What is found after an insertion is the inserted value, or what was there under another key.
  pub lookup-insert_cases :
      (k j : K) (v w : V) (d : Dict K V)
      → lookup j (insert k v d) ≡ some w
      → ((k ≡ j) × (v ≡ w)) ⊎ ((k ≢ j) × (lookup j d ≡ some w))
  lookup-insert_cases k j v w d h = elim (Bool-cases (k == j)) [
    | inl same ↦ inl ((e.same_iff k j).0 same, ground (arith, lookup-insert k j v d))
    | inr other ↦ inr ((λ q. ground (arith, e.same_iff k j)), ground (arith, lookup-insert k j v d))
  ]

  pub lookup-insert_other :
      (k j : K) (v : V) (d : Dict K V) → k ≢ j → lookup j (insert k v d) ≡ lookup j d
  lookup-insert_other k j v d other = ground (arith, lookup-insert k j v d, e.same_iff k j)

  -- What is not found after an insertion was not there, and is not what was inserted.
  pub lookup-insert-none :
      (k j : K) (v : V) (d : Dict K V)
      → lookup j (insert k v d) ≡ none
      → (k ≢ j) × (lookup j d ≡ none)
  lookup-insert-none k j v d h = elim (Bool-cases (k == j)) [
    | inl same ↦ absurd (ground (arith, lookup-insert k j v d))
    | inr other ↦ ((λ q. ground (arith, e.same_iff k j)), ground (arith, lookup-insert k j v d))
  ]

  -- A removal leaves the values of the other keys.
  pub lookup-remove_cases :
      (k j : K) (w : V) (d : Dict K V)
      → lookup j (remove k d) ≡ some w
      → (k ≢ j) × (lookup j d ≡ some w)
  unfolding lookup remove
  lookup-remove_cases k j w [] h = cc
  lookup-remove_cases k j w ((i, v) ∷ d) h = elim (Bool-cases (i == k)) [
    | inl same ↦
        let (other, old) = lookup-remove_cases k j w d (ground (arith, h, same)) in
        (other, ground (arith, e.same_iff i k, e.same_iff i j, other, old))
    | inr kept ↦ elim (Bool-cases (i == j)) [
      | inl here ↦
          ((λ q. ground (arith, e.same_iff i k, e.same_iff i j, q)), ground (arith, h, kept, here))
      | inr not_here ↦
          let (other, old) = lookup-remove_cases k j w d (ground (arith, h, kept, not_here)) in
          (other, ground (arith, not_here, old))
    ]
  ]
