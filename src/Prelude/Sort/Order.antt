-- ===== src/Prelude/Sort/Order.antt =====
-- Sorting by a total order: the result is sorted, and does not depend on the order of the input.
use Prim.Native.Nat.{ℕ, zero, suc}
use mathlib.Core.Path.{◌≡◌, refl, sym, ap, ap₂, subst, ◌∙◌}
use mathlib.Core.Logic.{inl, inr, ◌≢◌}
use mathlib.Core.Bool.{Bool, true, false}
use mathlib.Core.List.{List, [], ◌∷◌}
use mathlib.Core.List.{Permᴰ}
use mathlib.Core.List.Permᴰ
use railone_core.Prelude.Tests.{Bool-cases}
use railone_core.Prelude.Lists.{All, All-take, select, take}
use railone_core.Prelude.Sort.{insert_sorted, sort, IsSorted, insert_sorted-All, sort-All}

module _ {ℓ κ} {A : Type ℓ} (P : A → Type κ) where
  pub All-Permᴰ : {xs ys : List A} → Permᴰ xs ys → All P xs → All P ys
  All-Permᴰ Permᴰ.nil h = tt
  All-Permᴰ (Permᴰ.cons e p) h = (subst P e h.0, All-Permᴰ p h.1)
  All-Permᴰ (Permᴰ.swap e f) h = (subst P f h.1.0, (subst P e h.0, h.1.1))
  All-Permᴰ (Permᴰ.trans p q) h = All-Permᴰ q (All-Permᴰ p h)

  pub All-select : (test : A → Bool) (xs : List A) → All P xs → All P (select test xs)
  All-select test [] h = tt
  All-select test (x ∷ xs) h = elim (Bool-cases (test x)) [
    | inl e ↦ rw e (h.0, All-select test xs h.1)
    | inr e ↦ rw e (All-select test xs h.1)
  ]

module _ {ℓ κ} {A : Type ℓ} {K : Type κ} (key : A → K) where
  -- No two elements have the same key.
  abbrev pub IsApart : List A → Type (ℓ ⊔ κ)
  IsApart [] = Unit
  IsApart (x ∷ xs) = All (λ y. key x ≢ key y) xs × IsApart xs

  pub IsApart-Permᴰ : {xs ys : List A} → Permᴰ xs ys → IsApart xs → IsApart ys
  IsApart-Permᴰ Permᴰ.nil h = tt
  IsApart-Permᴰ (Permᴰ.cons {b = b} {l₁ = l₁} e p) h = (
    All-Permᴰ (λ y. key b ≢ key y) p (subst (λ x. All (λ y. key x ≢ key y) l₁) e h.0),
    IsApart-Permᴰ p h.1,
  )
  IsApart-Permᴰ (Permᴰ.swap {l = l} e f) h = (
    (
      (λ k. h.0.0 (ap key e ∙ sym k ∙ sym (ap key f))),
      subst (λ x. All (λ y. key x ≢ key y) l) f h.1.0,
    ),
    (subst (λ x. All (λ y. key x ≢ key y) l) e h.0.1, h.1.1),
  )
  IsApart-Permᴰ (Permᴰ.trans p q) h = IsApart-Permᴰ q (IsApart-Permᴰ p h)

  pub IsApart-select : (test : A → Bool) (xs : List A) → IsApart xs → IsApart (select test xs)
  IsApart-select test [] h = tt
  IsApart-select test (x ∷ xs) h = elim (Bool-cases (test x)) [
    | inl e ↦ rw e (All-select (λ y. key x ≢ key y) test xs h.0, IsApart-select test xs h.1)
    | inr e ↦ rw e (IsApart-select test xs h.1)
  ]

  insert_sorted-IsApart :
      (le : A → A → Bool) (x : A) (l : List A)
      → All (λ y. key x ≢ key y) l
      → IsApart l
      → IsApart (insert_sorted le x l)
  unfolding insert_sorted
  insert_sorted-IsApart le x [] h a = (tt, tt)
  insert_sorted-IsApart le x (y ∷ l) h a = elim (Bool-cases (le x y)) [
    | inl e ↦ rw e (h, a)
    | inr e ↦ rw e (
      insert_sorted-All (λ z. key y ≢ key z) le x l (λ k. h.0 (sym k)) a.0,
      insert_sorted-IsApart le x l h.1 a.1,
    )
  ]

  pub sort-IsApart : (le : A → A → Bool) (l : List A) → IsApart l → IsApart (sort le l)
  unfolding sort
  sort-IsApart le [] a = tt
  sort-IsApart le (x ∷ l) a =
      insert_sorted-IsApart le x (sort le l) (sort-All (λ y. key x ≢ key y) le l a.0)
        (sort-IsApart le l a.1)

  pub take-IsApart : (n : ℕ) (l : List A) → IsApart l → IsApart (take n l)
  take-IsApart zero l a = tt
  take-IsApart (suc n) [] a = tt
  take-IsApart (suc n) (x ∷ l) a = (All-take (λ y. key x ≢ key y) n l a.0, take-IsApart n l a.1)

module _ {ℓ} {A : Type ℓ} where
  pub select-Permᴰ :
      (test : A → Bool) {xs ys : List A} → Permᴰ xs ys → Permᴰ (select test xs) (select test ys)
  select-Permᴰ test Permᴰ.nil = Permᴰ.nil
  select-Permᴰ test (Permᴰ.cons {a = a} {b = b} e p) = elim (Bool-cases (test a)) [
    | inl t ↦
        let same : test b ≡ true = ap test (sym e) ∙ t in
        rw (t, same) (Permᴰ.cons e (select-Permᴰ test p))
    | inr t ↦ let same : test b ≡ false = ap test (sym e) ∙ t in rw (t, same) (select-Permᴰ test p)
  ]
  select-Permᴰ test (Permᴰ.swap {a = a} {b = b} {a' = c} {b' = d} {l = l} e f) =
      elim (Bool-cases (test a)) [
        | inl t ↦
            let same : test d ≡ true = ap test (sym e) ∙ t in
            elim (Bool-cases (test b)) [
              | inl u ↦
                  let like : test c ≡ true = ap test (sym f) ∙ u in
                  rw (t, u, same, like) (Permᴰ.swap e f)
              | inr u ↦
                  let like : test c ≡ false = ap test (sym f) ∙ u in
                  rw (t, u, same, like) (Permᴰ.cons e (Permᴰ.refl _))
            ]
        | inr t ↦
            let same : test d ≡ false = ap test (sym e) ∙ t in
            elim (Bool-cases (test b)) [
              | inl u ↦
                  let like : test c ≡ true = ap test (sym f) ∙ u in
                  rw (t, u, same, like) (Permᴰ.cons f (Permᴰ.refl _))
              | inr u ↦
                  let like : test c ≡ false = ap test (sym f) ∙ u in
                  rw (t, u, same, like) (Permᴰ.refl _)
            ]
      ]
  select-Permᴰ test (Permᴰ.trans p q) = Permᴰ.trans (select-Permᴰ test p) (select-Permᴰ test q)

module _ {ℓ} {A : Type ℓ} (le : A → A → Bool) (total : (a b : A) → le a b ≡ false → le b a ≡ true)
    (trans : (a b c : A) → le a b ≡ true → le b c ≡ true → le a c ≡ true) where
  All-below :
      (x y : A) (l : List A)
      → le x y ≡ true
      → All (λ z. le y z ≡ true) l
      → All (λ z. le x z ≡ true) l
  All-below x y [] h b = tt
  All-below x y (z ∷ l) h b = (trans x y z h b.0, All-below x y l h b.1)

  insert_sorted-IsSorted : (x : A) (l : List A) → IsSorted le l → IsSorted le (insert_sorted le x l)
  unfolding insert_sorted
  insert_sorted-IsSorted x [] s = (tt, tt)
  insert_sorted-IsSorted x (y ∷ l) s = elim (Bool-cases (le x y)) [
    | inl e ↦ rw e ((e, All-below x y l e s.0), s)
    | inr e ↦ rw e (
      insert_sorted-All (λ z. le y z ≡ true) le x l (total x y e) s.0,
      insert_sorted-IsSorted x l s.1,
    )
  ]

  pub sort-IsSorted : (l : List A) → IsSorted le (sort le l)
  unfolding sort
  sort-IsSorted [] = tt
  sort-IsSorted (x ∷ l) = insert_sorted-IsSorted x (sort le l) (sort-IsSorted l)

  -- Two elements that the order tells apart may be inserted in either order.
  insert_sorted-swap :
      (x y : A) (l : List A)
      → le x y ≡ true
      → le y x ≡ false
      → insert_sorted le x (insert_sorted le y l) ≡ insert_sorted le y (insert_sorted le x l)
  unfolding insert_sorted
  insert_sorted-swap x y [] h n = rw (h, n) refl
  insert_sorted-swap x y (z ∷ l) h n = elim (Bool-cases (le y z)) [
    | inl yz ↦ let xz = trans x y z h yz in rw (yz, insert_sorted, h, xz, insert_sorted, n, yz) refl
    | inr yz ↦ elim (Bool-cases (le x z)) [
      | inl xz ↦ rw (yz, xz, insert_sorted, n, yz) refl
      | inr xz ↦ rw (yz, xz, insert_sorted, yz) (ap (λ t. z ∷ t) (insert_sorted-swap x y l h n))
    ]
  ]

  module _ {κ} {K : Type κ} (key : A → K)
      (antisymm : (a b : A) → le a b ≡ true → le b a ≡ true → key a ≡ key b) where
    insert_sorted_comm :
        (x y : A) (l : List A)
        → key x ≢ key y
        → insert_sorted le x (insert_sorted le y l) ≡ insert_sorted le y (insert_sorted le x l)
    insert_sorted_comm x y l apart = elim (Bool-cases (le x y)) [
      | inl xy ↦ elim (Bool-cases (le y x)) [
        | inl yx ↦ absurd (apart (antisymm x y xy yx))
        | inr yx ↦ insert_sorted-swap x y l xy yx
      ]
      | inr xy ↦ sym (insert_sorted-swap y x l (total x y xy) xy)
    ]

    -- Lists with the same elements, no two of one key, sort to the same list.
    pub sort-Permᴰ : {xs ys : List A} → Permᴰ xs ys → IsApart key xs → sort le xs ≡ sort le ys
    unfolding sort
    sort-Permᴰ Permᴰ.nil h = refl
    sort-Permᴰ (Permᴰ.cons e p) h = ap₂ (insert_sorted le) e (sort-Permᴰ p h.1)
    sort-Permᴰ (Permᴰ.swap {a = a} {b = b} {l = l} e f) h =
        insert_sorted_comm a b (sort le l) h.0.0
        ∙ ap₂ (λ x y. insert_sorted le x (insert_sorted le y (sort le l))) f e
    sort-Permᴰ (Permᴰ.trans p q) h = sort-Permᴰ p h ∙ sort-Permᴰ q (IsApart-Permᴰ key p h)
