-- ===== src/Api/Tests.antt =====
-- The rate limiter of railone_api at four requests in two scopes.
use railone_core.Prelude.{◌≡◌, ◌≤◌, refl, true, [], ◌∷◌, arith}
use railone_core.Prelude.Int.{pos}
use railone_core.Prelude.Equality.{string_eq}
use railone_core.Prelude.Dict.{lookup, insert}
use railone_core.Api.RateLimit.{RateLimitStore, is_over, next_window, consume, let_through_in}
use railone_core.Api.RateLimit.Capped.{window_is_capped}

abbrev old_window : RateLimitStore
old_window = record { windows = ("A", record { started_at = 0; count = 9; seconds = 1 }) ∷ [] }

two_pass :
    let_through_in "A"
      (pos 2)
      (pos 1)
      (record { scope = "A"; at = 1000000 }
        ∷ record { scope = "B"; at = 1000001 }
        ∷ record { scope = "A"; at = 1000002 }
        ∷ record { scope = "A"; at = 1000003 }
        ∷ [])
      old_window
    ≡ 2
unfolding lookup insert next_window consume let_through_in
two_pass = refl

is_over_then : is_over (lookup "A" old_window.windows) 1000000 ≡ true
unfolding lookup
is_over_then = refl

window_is_capped_example :
    let_through_in "A"
      (pos 2)
      (pos 1)
      (record { scope = "A"; at = 1000000 }
        ∷ record { scope = "B"; at = 1000001 }
        ∷ record { scope = "A"; at = 1000002 }
        ∷ record { scope = "A"; at = 1000003 }
        ∷ [])
      old_window
    ≤ 2
window_is_capped_example =
    window_is_capped "A" (pos 2) (pos 1) 1000000
      (record { scope = "B"; at = 1000001 }
        ∷ record { scope = "A"; at = 1000002 }
        ∷ record { scope = "A"; at = 1000003 }
        ∷ [])
      old_window is_over_then (omega arith, (omega arith, (omega arith, tt)))
