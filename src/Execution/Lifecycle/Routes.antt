-- ===== src/Execution/Lifecycle/Routes.antt =====
-- Which route `RttAttemptService.start_next` takes: the first remaining one within the budget.
use mathlib.Core.Path.{◌∙◌}
use railone_core.Prelude.{
  ℕ, String, ◌≡◌, refl, sym, ap, Bool, true, false, not, List, [], ◌∷◌, ◌++◌, some, ok, All,
  some_of, select, inl, inr, arith, Bool-cases, Option-cases,
}
use railone_core.Prelude.Equality.{◌==◌, string_eq}
use text.Mathlib.TextEquality.{eq_iff}
use railone_core.Prelude.Int.{pos, leb_ℤ}
use railone_core.Prelude.Dict.{Dict, lookup, insert, lookup-insert_cases}
use railone_core.Execution.Models.{RankedRoute}
use railone_core.Execution.Attempts.{index_routes, select_route}

-- The text is one of the list.
abbrev pub among : String → List String → Bool
among x ids = some_of (λ y. y == x) ids

pub among-middle : (x : String) (xs ys : List String) → among x (xs ++ x ∷ ys) ≡ true
among-middle x [] ys = ground (arith, eq_iff x x)
among-middle x (z ∷ xs) ys = ground (arith, among-middle x xs ys)

-- What is removed is no longer there, and nothing new is.
pub among-select_self :
    (x : String) (ids : List String) → among x (select (λ y. not (y == x)) ids) ≡ false
among-select_self x [] = refl
among-select_self x (y ∷ ids) = elim (Bool-cases (y == x)) [
  | inl same ↦ rw same (among-select_self x ids)
  | inr apart ↦ rw (apart, apart) (among-select_self x ids)
]

pub among-select :
    (x z : String) (ids : List String)
    → among z ids ≡ false
    → among z (select (λ y. not (y == x)) ids) ≡ false
among-select x z [] h = refl
among-select x z (y ∷ ids) h = elim (Bool-cases (y == x)) [
  | inl same ↦ rw same (among-select x z ids (ground arith))
  | inr apart ↦
      let here : (y == z) ≡ false = ground arith in
      rw (apart, here) (among-select x z ids (ground arith))
]

-- The route is one of the ranked ones.
abbrev pub IsRanked : RankedRoute → List RankedRoute → Type 0
IsRanked r rs = (xs : List RankedRoute) × (ys : List RankedRoute) × (rs ≡ xs ++ r ∷ ys)

-- Every entry of the dictionary is a ranked route, under its own identifier.
abbrev IsIndexOf : Dict String RankedRoute → List RankedRoute → Type 0
IsIndexOf d rs =
    (k : String) (r : RankedRoute)
    → lookup k d ≡ some r
    → (r.candidate.route_id ≡ k) × IsRanked r rs

++-assoc_one :
    (xs : List RankedRoute) (r : RankedRoute) (ys : List RankedRoute)
    → (xs ++ r ∷ []) ++ ys ≡ xs ++ r ∷ ys
++-assoc_one [] r ys = refl
++-assoc_one (x ∷ xs) r ys = ap (λ l. x ∷ l) (++-assoc_one xs r ys)

index_routes-IsIndexOf :
    (d : Dict String RankedRoute) (seen rs : List RankedRoute)
    → IsIndexOf d (seen ++ rs)
    → IsIndexOf (index_routes d rs) (seen ++ rs)
unfolding index_routes
index_routes-IsIndexOf d seen [] h = h
index_routes-IsIndexOf d seen (r ∷ rs) h = rw (← ++-assoc_one seen r rs) (
    index_routes-IsIndexOf (insert r.candidate.route_id r d) (seen ++ r ∷ []) rs (
      rw (++-assoc_one seen r rs) λ k q held.
        elim (lookup-insert_cases r.candidate.route_id k r q d held) [
          | inl (same, is) ↦ (
            ap (λ (x : RankedRoute). x.candidate.route_id) (sym is) ∙ same,
            (seen, rs, ap (λ x. seen ++ x ∷ rs) is),
          )
          | inr (other, before) ↦ h k q before
        ]))

pub index_routes-own :
    (rs : List RankedRoute) (k : String) (r : RankedRoute)
    → lookup k (index_routes [] rs) ≡ some r
    → (r.candidate.route_id ≡ k) × IsRanked r rs
unfolding lookup
index_routes-own rs k r h = index_routes-IsIndexOf [] [] rs (λ j q held. cc) k r h

-- The route is known, and costs more than the budget.
abbrev pub IsTooDear : Dict String RankedRoute → ℕ → String → Type 0
IsTooDear by_id budget route_id =
    (r : RankedRoute) × (lookup route_id by_id ≡ some r)
    × (leb_ℤ r.candidate.estimated_cost_minor (pos budget) ≡ false)

-- The route is the first of the list that the budget covers.
pub record IsFirstAffordable (by_id : Dict String RankedRoute) (budget : ℕ) (ids : List String)
    (r : RankedRoute) : Type 0 where
  pub route_id : String
  pub skipped : List String
  pub later : List String
  pub split : ids ≡ skipped ++ route_id ∷ later
  pub known : lookup route_id by_id ≡ some r
  pub affordable : leb_ℤ r.candidate.estimated_cost_minor (pos budget) ≡ true
  pub too_dear : All (IsTooDear by_id budget) skipped

pub select_route-first :
    (by_id : Dict String RankedRoute) (budget : ℕ) (ids : List String) (r : RankedRoute)
    → select_route by_id budget ids ≡ ok (some r)
    → IsFirstAffordable by_id budget ids r
unfolding select_route
select_route-first by_id budget [] r h = cc
select_route-first by_id budget (route_id ∷ rest) r h =
    elim (Option-cases (lookup route_id by_id)) [
      | inl missing ↦ cc (rw (missing, select_route) at h)
      | inr (q, known) ↦ elim (Bool-cases (leb_ℤ q.candidate.estimated_cost_minor (pos budget))) [
        | inl affordable ↦
            let is : q ≡ r = ground arith in
            record {
              route_id = route_id;
              skipped = [];
              later = rest;
              split = refl;
              known = known ∙ ap some is;
              affordable = rw (← is) affordable;
              too_dear = tt;
            }
        | inr dear ↦
            let found = select_route-first by_id budget rest r (ground arith) in
            record {
              route_id = found.route_id;
              skipped = route_id ∷ found.skipped;
              later = found.later;
              split = ap (λ l. route_id ∷ l) found.split;
              known = found.known;
              affordable = found.affordable;
              too_dear = ((q, known, dear), found.too_dear);
            }
      ]
    ]
