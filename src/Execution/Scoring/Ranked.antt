-- ===== src/Execution/Scoring/Ranked.antt =====
-- What `DeterministicRouteScorer.rank` of railone_execution/scoring.py returns.
use mathlib.Core.Path.{subst, ◌∙◌}
use mathlib.Core.Logic.{∥∥₁_elim}
use text.Mathlib.TextEquality.{IsScalar-prop}
use mathlib.Core.List.{Permᴰ, Perm}
use mathlib.Core.List.Permᴰ
use railone_core.Prelude.{
  not-eq_false, arith, ℕ, String, ◌≡◌, ◌≢◌, refl, sym, ap, true, not, List, [], ◌∷◌, map, Result,
  ok, err, and_then-eq_ok, ok-injective, raise_if, raise_if-eq_ok, All, select,
}
use railone_core.Prelude.Sort.{sort, sort-perm}
use railone_core.Prelude.Sort.Order.{
  All-Permᴰ, IsApart, IsApart-Permᴰ, IsApart-select, select-Permᴰ, sort-IsSorted, sort-Permᴰ,
}
use railone_core.Execution.Models.{
  Datetime, require_aware, RouteCandidate, ComponentScores, RankedRoute,
}
use railone_core.Execution.Scoring.{
  RouteScoreWeights, RankRequest, eligible, components, distinct, route_ids, score_all, before,
  number_from, rank,
}
use railone_core.Execution.Scoring.Ranking.{
  id_of, before-total, before_trans, before_antisymm, scored_with, scored, IsScorable, score_all-ok,
  score_all-IsScorable, distinct-IsApart, IsApart-distinct,
}
use railone_core.Execution.Scoring.Specified.{IsRanking, number_from-IsRanking}

-- What a ranking that does not raise has checked.
record Ranked (w : RouteScoreWeights) (q : RankRequest) (at : Datetime) (cs : List RouteCandidate)
    (rs : List RankedRoute) : Type 0 where
  pub aware : require_aware "ranking timestamp" at ≡ ok at.micros
  pub apart : distinct (route_ids cs) ≡ true
  pub scorable : All (IsScorable w q at.micros) cs
  pub result :
      rs ≡ number_from 1 (sort before (map (scored w q) (select (eligible q at.micros) cs)))

require_aware-eq :
    (name : String) (at : Datetime) (n : ℕ) → require_aware name at ≡ ok n → at.micros ≡ n
unfolding require_aware
require_aware-eq name at n h = ground arith

rank-Ranked :
    (w : RouteScoreWeights) (q : RankRequest) (at : Datetime) (cs : List RouteCandidate)
    (rs : List RankedRoute)
    → rank w q at cs ≡ ok rs
    → Ranked w q at cs rs
unfolding rank
rank-Ranked w q at cs rs h =
    let (n, aware, h₁) = and_then-eq_ok (require_aware "ranking timestamp" at) _ h in
    let (_, unique, h₂) = and_then-eq_ok (raise_if (not (distinct (route_ids cs))) _) _ h₁ in
    let (xs, all, h₃) = and_then-eq_ok (score_all w q n cs) _ h₂ in
    let instant = require_aware-eq "ranking timestamp" at n aware in
    let known : score_all w q at.micros cs ≡ ok xs =
      subst (λ m. score_all w q m cs ≡ ok xs) (sym instant) all in
    let scorable = score_all-IsScorable w q at.micros cs xs known in
    record {
      aware = aware ∙ ap ok (sym instant);
      apart = not-eq_false _ (raise_if-eq_ok _ _ unique);
      scorable = scorable;
      result =
          sym (ok-injective h₃)
          ∙ ap (λ l. number_from 1 (sort before l))
              (ok-injective (sym known ∙ score_all-ok w q at.micros cs scorable));
    }

-- A ranking that does not raise lists the candidates that are eligible at its timestamp, each once and
-- with its own score, higher scores before lower ones and equal scores by route identifier, with the
-- ranks 1, 2 and so on. A candidate is eligible when its link is not down, its telemetry was observed
-- by then and has not expired, its currencies and institutions are those of the request, the amount
-- lies between its limits and within its liquidity, and its cost is within the routing budget.
pub rank-IsRanking :
    (w : RouteScoreWeights) (q : RankRequest) (at : Datetime) (cs : List RouteCandidate)
    (rs : List RankedRoute)
    → rank w q at cs ≡ ok rs
    → IsRanking w q at.micros cs rs
rank-IsRanking w q at cs rs h =
    let ranked = rank-Ranked w q at cs rs h in
    let xs = map (scored w q) (select (eligible q at.micros) cs) in
    subst (IsRanking w q at.micros cs) (sym ranked.result) (
      number_from-IsRanking w q at.micros cs (sort before xs)
        (sort-IsSorted before before-total before_trans xs) (sort-perm before xs))

scored_with-id :
    (w : RouteScoreWeights) (c : RouteCandidate) (r : Result ComponentScores)
    → id_of (scored_with w c r) ≡ c.route_id
scored_with-id w c (ok s) = refl
scored_with-id w c (err e) = refl

IsApart-scored :
    (w : RouteScoreWeights) (q : RankRequest) (cs : List RouteCandidate)
    → IsApart (λ (c : RouteCandidate). c.route_id) cs
    → IsApart id_of (map (scored w q) cs)
IsApart-scored w q [] h = tt
IsApart-scored w q (c ∷ cs) h = (go cs h.0, IsApart-scored w q cs h.1)
  where
    go :
        (ds : List RouteCandidate)
        → All (λ (d : RouteCandidate). c.route_id ≢ d.route_id) ds
        → All (λ y. id_of (scored w q c) ≢ id_of y) (map (scored w q) ds)
    go [] h = tt
    go (d ∷ ds) h = (
      (λ e.
          h.0
            (sym (scored_with-id w c (components q c)) ∙ e ∙ scored_with-id w d (components q d))),
      go ds h.1,
    )

rank-ok :
    (w : RouteScoreWeights) (q : RankRequest) (at : Datetime) (cs : List RouteCandidate)
    → require_aware "ranking timestamp" at ≡ ok at.micros
    → distinct (route_ids cs) ≡ true
    → All (IsScorable w q at.micros) cs
    → rank w q at cs
      ≡ ok (number_from 1 (sort before (map (scored w q) (select (eligible q at.micros) cs))))
unfolding rank
rank-ok w q at cs aware apart scorable =
    rw (aware, apart, score_all-ok w q at.micros cs scorable) refl

rank-Permᴰ :
    (w : RouteScoreWeights) (q : RankRequest) (at : Datetime) (cs ds : List RouteCandidate)
    (rs : List RankedRoute)
    → rank w q at cs ≡ ok rs
    → Permᴰ cs ds
    → rank w q at ds ≡ ok rs
rank-Permᴰ w q at cs ds rs h p =
    let ranked = rank-Ranked w q at cs rs h in
    let apart = distinct-IsApart cs ranked.apart in
    let test = eligible q at.micros in
    rank-ok w q at ds ranked.aware
      (IsApart-distinct ds (IsApart-Permᴰ (λ (c : RouteCandidate). c.route_id) p apart))
      (All-Permᴰ (IsScorable w q at.micros) p ranked.scorable)
    ∙ ap (λ l. ok (number_from 1 l))
        (sym (
          sort-Permᴰ before before-total before_trans id_of before_antisymm
            (Permᴰ.map (scored w q) (select-Permᴰ test p))
            (IsApart-scored w q (select test cs)
              (IsApart-select (λ (c : RouteCandidate). c.route_id) test cs apart))))
    ∙ ap ok (sym ranked.result)

Rankings-set : IsSet (Result (List RankedRoute))
Rankings-set = hlevel IsScalar-prop

-- A ranking does not depend on the order in which the candidates are given.
pub rank_order_free :
    (w : RouteScoreWeights) (q : RankRequest) (at : Datetime) (cs ds : List RouteCandidate)
    (rs : List RankedRoute)
    → rank w q at cs ≡ ok rs
    → Perm cs ds
    → rank w q at ds ≡ ok rs
rank_order_free w q at cs ds rs h p = ∥∥₁_elim p (Rankings-set _ _) (rank-Permᴰ w q at cs ds rs h)
