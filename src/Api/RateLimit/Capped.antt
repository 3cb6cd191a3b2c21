-- ===== src/Api/RateLimit/Capped.antt =====
-- What a window of railone_api/guard.py lets through.
use railone_core.Prelude.{
  ℕ, String, ◌≡◌, refl, true, List, [], ◌∷◌, Option, none, some, Exception, ok, err, value_error,
  ◌+◌, ◌-◌, ◌≤◌, ◌<◌, All, Bool-cases, inl, inr, ◌⊎◌, arith,
}
use railone_core.Prelude.Int.{ℤ, pos_part}
use railone_core.Prelude.Equality.{◌==◌, string_eq}
use text.Mathlib.TextEquality.{eq_iff}
use railone_core.Prelude.Dict.{lookup, insert, lookup-insert, lookup-insert_self}
use railone_core.Api.RateLimit.{
  Window, RateLimitStore, timedelta, in_policy, is_over, opened, next_window, decide, consume, Call,
  let_through_in,
}

-- The policy refuses every request.
IsRefusing : ℤ → ℤ → Type 0
IsRefusing limit seconds =
    (k : String) (at : ℕ) (s : RateLimitStore)
    → (e : Exception) × (consume k limit seconds at s ≡ (err e, s))

-- All requests are refused by the policy, or one is counted in a window of its scope.
consume_cases :
    (k : String) (limit seconds : ℤ) (at : ℕ) (s : RateLimitStore)
    → IsRefusing limit seconds
      ⊎ (consume k limit seconds at s ≡ (
        ok (
            decide
              (pos_part limit)
              (pos_part seconds)
              (next_window (lookup k s.windows) at (pos_part seconds))),
        record {
          windows = insert k (next_window (lookup k s.windows) at (pos_part seconds)) s.windows;
        },
      ))
unfolding consume IsRefusing
consume_cases k limit seconds at s = elim (Bool-cases (in_policy limit 10000)) [
  | inl fits ↦ elim (Bool-cases (in_policy seconds 3600)) [
    | inl long ↦ inr (rw (fits, long) refl)
    | inr wrong ↦ inl λ _ _ _.
        (value_error "rate-limit window must be between 1 and 3600 seconds", rw (fits, wrong) refl)
  ]
  | inr wrong ↦ inl λ _ _ _. (value_error "rate limit must be between 1 and 10000", rw wrong refl)
]

module _ (k : String) (limit seconds : ℤ) where
  -- Every request comes before an instant.
  abbrev IsBefore : ℕ → Call → Type 0
  IsBefore reset call = call.at < reset

  abbrev count_one : Window → Window
  count_one w = record {
    started_at = w.started_at;
    count = w.count + 1;
    seconds = pos_part seconds;
  }

  next-opened :
      (o : Option Window) (at : ℕ)
      → is_over o at ≡ true
      → next_window o at (pos_part seconds) ≡ opened at (pos_part seconds)
  unfolding next_window
  next-opened none at over = refl
  next-opened (some w) at over = rw over refl

  counted :
      (w : Window) (at : ℕ)
      → w.seconds ≡ pos_part seconds
      → at < w.started_at + timedelta (pos_part seconds)
      → next_window (some w) at (pos_part seconds) ≡ count_one w
  unfolding next_window
  counted w at long before = ground arith

  counted_call :
      (call : Call) (s : RateLimitStore) (w : Window)
      → (call.scope == k) ≡ true
      → lookup k s.windows ≡ some w
      → w.seconds ≡ pos_part seconds
      → call.at < w.started_at + timedelta (pos_part seconds)
      → next_window (lookup call.scope s.windows) call.at (pos_part seconds) ≡ count_one w
  counted_call call s w same held long now =
      let scope : call.scope ≡ k = (eq_iff call.scope k).0 same in
      rw (scope, held) (counted w call.at long now)

  let_through_in-refused :
      IsRefusing limit seconds
      → (calls : List Call) (s : RateLimitStore) → let_through_in k limit seconds calls s ≡ 0
  unfolding let_through_in IsRefusing
  let_through_in-refused refusing [] s = refl
  let_through_in-refused refusing (call ∷ calls) s =
      let (e, h) = refusing call.scope call.at s in
      rw h (ground (arith, let_through_in-refused refusing calls s))

  let_through_in-rest :
      (calls : List Call) (s : RateLimitStore) (w : Window)
      → lookup k s.windows ≡ some w
      → w.seconds ≡ pos_part seconds
      → All (IsBefore (w.started_at + timedelta (pos_part seconds))) calls
      → let_through_in k limit seconds calls s ≤ pos_part limit - w.count
  unfolding let_through_in
  let_through_in-rest [] s w held long before = omega arith
  let_through_in-rest (call ∷ calls) s w held long (now, before) =
      elim (consume_cases call.scope limit seconds call.at s) [
        | inl refusing ↦
            let none_through = let_through_in-refused refusing (call ∷ calls) s in
            omega (arith, none_through)
        | inr h ↦ rw h (elim (Bool-cases (call.scope == k)) [
          | inl same ↦
              let more = count_one w in
              let is_more = counted_call call s w same held long now in
              let rest =
                let_through_in-rest calls (record { windows = insert call.scope more s.windows })
                  more (rw (lookup-insert call.scope k more s.windows, same) refl) refl before in
              rw (is_more, same) (ground (arith, rest))
          | inr other ↦
              let next = next_window (lookup call.scope s.windows) call.at (pos_part seconds) in
              let rest =
                let_through_in-rest calls (record { windows = insert call.scope next s.windows }) w
                  (rw (lookup-insert call.scope k next s.windows, other) held) long before in
              rw other (omega arith)
        ])
      ]

  -- The requests of a scope that come while the window lasts which the first of them opens, are let
  -- through at most `limit` times, whatever requests of other scopes come between.
  pub window_is_capped :
      (at : ℕ) (calls : List Call) (s : RateLimitStore)
      → is_over (lookup k s.windows) at ≡ true
      → All (λ call. call.at < at + timedelta (pos_part seconds)) calls
      → let_through_in k limit seconds (record { scope = k; at = at } ∷ calls) s ≤ pos_part limit
  unfolding let_through_in
  window_is_capped at calls s over before = elim (consume_cases k limit seconds at s) [
    | inl refusing ↦
        let none_through =
          let_through_in-refused refusing (record { scope = k; at = at } ∷ calls) s in
        omega (arith, none_through)
    | inr h ↦
        let rest =
          let_through_in-rest calls
            (record { windows = insert k (opened at (pos_part seconds)) s.windows })
            (opened at (pos_part seconds))
            (lookup-insert_self k (opened at (pos_part seconds)) s.windows) refl before in
        rw (h, next-opened (lookup k s.windows) at over, (eq_iff k k).1 refl) (ground (arith, rest))
  ]
