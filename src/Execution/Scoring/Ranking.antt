-- ===== src/Execution/Scoring/Ranking.antt =====
-- The order in which `DeterministicRouteScorer.rank` puts the eligible candidates.
use mathlib.Core.Path.{◌∙◌}
use railone_core.Prelude.{
  ℕ, String, ◌≡◌, ◌≢◌, refl, sym, ap, true, false, not, List, [], ◌∷◌, map, Result, ok, err,
  and_then-eq_ok, ok-injective, All, select, some_of, inl, inr, arith, Bool-cases,
}
use railone_core.Prelude.Equality.{◌==◌, string_eq}
use text.Mathlib.TextEquality.{eq_iff}
use railone_core.Prelude.Int.{pos}
use railone_core.Prelude.Order.{text_leb_total, text_leb_trans, text_leb_antisymm}
use railone_core.Prelude.Sort.Order.{IsApart}
use railone_core.Execution.Models.{
  RouteCandidate, normalized, route_texts, route_numbers, route_window, ComponentScores,
}
use railone_core.Execution.Scoring.{
  RouteScoreWeights, RankRequest, eligible, components, weighted, ScoredRoute, distinct, route_ids,
  score_one, score_all, before,
}

abbrev pub id_of : ScoredRoute → String
id_of x = x.candidate.route_id

pub before-total : (a b : ScoredRoute) → before a b ≡ false → before b a ≡ true
unfolding before
before-total a b h = ground (arith, text_leb_total (id_of a) (id_of b))

pub before_trans : (a b c : ScoredRoute) → before a b ≡ true → before b c ≡ true → before a c ≡ true
unfolding before
before_trans a b c h k = ground (arith, text_leb_trans (id_of a) (id_of b) (id_of c))

pub before_antisymm :
    (a b : ScoredRoute) → before a b ≡ true → before b a ≡ true → id_of a ≡ id_of b
unfolding before
before_antisymm a b h k = ground (arith, text_leb_antisymm (id_of a) (id_of b))

-- The score of a candidate that scoring accepts.
abbrev pub no_scores : ComponentScores
no_scores = record {
  latency = pos 0;
  congestion = pos 0;
  liquidity = pos 0;
  throughput = pos 0;
  speed = pos 0;
  cost = pos 0;
  link = pos 0;
}

abbrev pub scored_with : RouteScoreWeights → RouteCandidate → Result ComponentScores → ScoredRoute
scored_with w c (ok s) = record { candidate = c; score = weighted w s; scores = s }
scored_with w c (err e) = record { candidate = c; score = pos 0; scores = no_scores }

abbrev pub scored : RouteScoreWeights → RankRequest → RouteCandidate → ScoredRoute
scored w q c = scored_with w c (components q c)

-- Scoring accepts the candidate.
pub record IsScorable (w : RouteScoreWeights) (q : RankRequest) (at : ℕ) (c : RouteCandidate)
    : Type 0 where
  pub valid : normalized c ≡ ok c
  pub scorable : eligible q at c ≡ true → score_one w q c ≡ ok (scored w q c)

pub score_one-scored :
    (w : RouteScoreWeights) (q : RankRequest) (c : RouteCandidate) (x : ScoredRoute)
    → score_one w q c ≡ ok x
    → x ≡ scored w q c
score_one-scored w q c x h =
    let (s, is, h₁) = and_then-eq_ok (components q c) _ h in
    sym (ok-injective h₁) ∙ ap (scored_with w c) (sym is)

normalized-same : (c d : RouteCandidate) → normalized c ≡ ok d → normalized c ≡ ok c
unfolding normalized
normalized-same c d h =
    let (_, texts, h₁) = and_then-eq_ok (route_texts c) _ h in
    let (_, numbers, h₂) = and_then-eq_ok (route_numbers c) _ h₁ in
    let (_, window, h₃) = and_then-eq_ok (route_window c) _ h₂ in h ∙ ap ok (sym (ok-injective h₃))

pub score_all-ok :
    (w : RouteScoreWeights) (q : RankRequest) (at : ℕ) (cs : List RouteCandidate)
    → All (IsScorable w q at) cs
    → score_all w q at cs ≡ ok (map (scored w q) (select (eligible q at) cs))
unfolding score_all
score_all-ok w q at [] h = refl
score_all-ok w q at (c ∷ cs) h = elim (Bool-cases (eligible q at c)) [
  | inl e ↦ rw (h.0.valid, e, h.0.scorable e, score_all-ok w q at cs h.1) refl
  | inr e ↦ rw (h.0.valid, e) (score_all-ok w q at cs h.1)
]

pub score_all-IsScorable :
    (w : RouteScoreWeights) (q : RankRequest) (at : ℕ) (cs : List RouteCandidate)
    (xs : List ScoredRoute)
    → score_all w q at cs ≡ ok xs
    → All (IsScorable w q at) cs
unfolding score_all
score_all-IsScorable w q at [] xs h = tt
score_all-IsScorable w q at (c ∷ cs) xs h =
    let (d, valid, h₁) = and_then-eq_ok (normalized c) _ h in
    elim (Bool-cases (eligible q at c)) [
      | inl e ↦
          let (x, one, h₂) = and_then-eq_ok (score_one w q c) _ (rw e at h₁) in
          let (ys, rest, _) = and_then-eq_ok (score_all w q at cs) _ h₂ in
          (
            record {
              valid = normalized-same c d valid;
              scorable = λ _. one ∙ ap ok (score_one-scored w q c x one);
            },
            score_all-IsScorable w q at cs ys rest,
          )
      | inr e ↦ (
        record { valid = normalized-same c d valid; scorable = λ t. absurd (cc (e, t)) },
        score_all-IsScorable w q at cs xs (rw e at h₁),
      )
    ]

-- `distinct` decides that no identifier occurs twice.
not-eq_false : (x y : String) → not (x == y) ≡ true → x ≢ y
not-eq_false x y h e = ground (arith, eq_iff x y)

distinct-All :
    (x : RouteCandidate) (cs : List RouteCandidate)
    → some_of (λ y. x.route_id == y) (route_ids cs) ≡ false
    → All (λ c. x.route_id ≢ c.route_id) cs
distinct-All x [] h = tt
distinct-All x (c ∷ cs) h =
    ((λ e. ground (arith, eq_iff x.route_id c.route_id)), distinct-All x cs (ground arith))

pub distinct-IsApart :
    (cs : List RouteCandidate)
    → distinct (route_ids cs) ≡ true
    → IsApart (λ (c : RouteCandidate). c.route_id) cs
unfolding distinct
distinct-IsApart [] h = tt
distinct-IsApart (c ∷ cs) h = (distinct-All c cs (ground arith), distinct-IsApart cs (ground arith))

All-distinct :
    (x : RouteCandidate) (cs : List RouteCandidate)
    → All (λ c. x.route_id ≢ c.route_id) cs
    → some_of (λ y. x.route_id == y) (route_ids cs) ≡ false
All-distinct x [] h = refl
All-distinct x (c ∷ cs) h =
    let rest = All-distinct x cs h.1 in ground (arith, eq_iff x.route_id c.route_id, h.0)

pub IsApart-distinct :
    (cs : List RouteCandidate)
    → IsApart (λ (c : RouteCandidate). c.route_id) cs
    → distinct (route_ids cs) ≡ true
unfolding distinct
IsApart-distinct [] h = refl
IsApart-distinct (c ∷ cs) h = rw (All-distinct c cs h.0, IsApart-distinct cs h.1) refl
