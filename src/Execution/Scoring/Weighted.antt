-- ===== src/Execution/Scoring/Weighted.antt =====
-- A score of `DeterministicRouteScorer` is a weighted mean, so it is one of basis points.
use mathlib.Core.Path.{subst}
use native.Mathlib.Nat.{mul-le-mul_right, div-le_of_le-mul}
use railone_core.Prelude.{
  ℕ, ◌+◌, ◌*◌, ◌/◌, ◌≤◌, ◌≡◌, refl, Bool, true, false, not, ◌||◌, ◌&&◌, List, [], ◌∷◌, ok,
  value_error, and_then-eq_ok, ok-injective, raise_if, raise_if-eq_ok, some_of, arith, All,
}
use railone_core.Prelude.Int.{ℤ, pos, negsuc, ltb_ℤ, leb_ℤ, floor_div, ◌≤ℤ◌}
use railone_core.Prelude.Int.Laws.{pos-add, pos-mul, pos_of}
use railone_core.Execution.Models.{RouteCandidate, normalized, ComponentScores}
use railone_core.Execution.Scoring.{
  RouteScoreWeights, weight_list, sum_ℤ, checked_weights, RankRequest, eligible, components,
  liquidity_score, weighted,
}
use railone_core.Execution.Scoring.Bounds.{
  IsBps, IsBounded, normalized-IsBounded, AreBps, below-IsBps, latency-IsBps, link-IsBps,
  liquidity-IsBps, cost-IsBps,
}

components-AreBps :
    (q : RankRequest) (at : ℕ) (c : RouteCandidate) (s : ComponentScores)
    → IsBounded c
    → eligible q at c ≡ true
    → components q c ≡ ok s
    → AreBps s
unfolding components eligible
components-AreBps q at c s b e h =
    let (liquidity, made, is) =
      and_then-eq_ok (liquidity_score q.amount_minor c.liquidity_capacity_minor) _ h in
    subst AreBps (ok-injective is) (record {
      latency = rw b.latency.1 (latency-IsBps b.latency.0);
      congestion = below-IsBps c.congestion_bps b.congestion;
      liquidity =
          liquidity-IsBps q.amount_minor b.capacity.0 liquidity (covers b.capacity.0 b.capacity.1)
            (subst (λ z. liquidity_score q.amount_minor z ≡ ok liquidity) b.capacity.1 made);
      throughput = b.throughput;
      speed = b.speed;
      cost = rw b.cost.1 (cost-IsBps q.routing_budget_minor b.cost.0);
      link = link-IsBps c.link_status;
    })
  where
    covers : (n : ℕ) → c.liquidity_capacity_minor ≡ pos n → q.amount_minor ≤ n
    covers n is = ground (arith, e, is)

-- The weights as natural numbers, which sum to 10000.
record AreWeights (w : RouteScoreWeights) : Type 0 where
  pub latency : pos 0 ≤ℤ w.latency
  pub congestion : pos 0 ≤ℤ w.congestion
  pub liquidity : pos 0 ≤ℤ w.liquidity
  pub throughput : pos 0 ≤ℤ w.throughput
  pub speed : pos 0 ≤ℤ w.speed
  pub cost : pos 0 ≤ℤ w.cost
  pub link : pos 0 ≤ℤ w.link
  pub total : sum_ℤ (weight_list w) ≡ pos 10000

weights-nonneg :
    (vs : List ℤ) → some_of (λ v. ltb_ℤ v (pos 0)) vs ≡ false → All (λ v. pos 0 ≤ℤ v) vs
weights-nonneg [] h = tt
weights-nonneg (v ∷ vs) h = (ground arith, weights-nonneg vs (ground arith))

guard-eq_false :
    (b c d : Bool) → (b || not (c && d)) ≡ false → (b ≡ false) × (c ≡ true) × (d ≡ true)
guard-eq_false b c d h = ground arith

total-eq : (z : ℤ) → leb_ℤ z (pos 10000) ≡ true → leb_ℤ (pos 10000) z ≡ true → z ≡ pos 10000
total-eq (pos n) h k = ground arith
total-eq (negsuc n) h k = ground arith

checked_weights-AreWeights : (w u : RouteScoreWeights) → checked_weights w ≡ ok u → AreWeights w
unfolding checked_weights
checked_weights-AreWeights w u h =
    let vs = weight_list w in
    let total = sum_ℤ vs in
    let (_, guard, _) =
      and_then-eq_ok
        (raise_if
          (some_of (λ v. ltb_ℤ v (pos 0)) vs
            || not (leb_ℤ total (pos 10000) && leb_ℤ (pos 10000) total))
          (value_error "route weights must be non-negative and sum to 10000"))
        (λ _. ok w) h in
    let (signs, above, below) = guard-eq_false _ _ _ (raise_if-eq_ok _ _ guard) in
    let (latency, (congestion, (liquidity, (throughput, (speed, (cost, (link, _))))))) =
      weights-nonneg vs signs in
    record {
      latency = latency;
      congestion = congestion;
      liquidity = liquidity;
      throughput = throughput;
      speed = speed;
      cost = cost;
      link = link;
      total = total-eq total above below;
    }

-- A mean of seven values below 10000, whose weights sum to 10000, is below 10000.
mean_le :
    (a b c d e f g i j k l m n o : ℕ)
    → a ≤ 10000
    → b ≤ 10000
    → c ≤ 10000
    → d ≤ 10000
    → e ≤ 10000
    → f ≤ 10000
    → g ≤ 10000
    → i + (j + (k + (l + (m + (n + (o + 0)))))) ≡ 10000
    → (a * i + b * j + c * k + d * l + e * m + f * n + g * o) / 10000 ≤ 10000
mean_le a b c d e f g i j k l m n o ha hb hc hd he hf hg total = div-le_of_le-mul 10000 (
    omega (
      arith,
      mul-le-mul_right i ha,
      mul-le-mul_right j hb,
      mul-le-mul_right k hc,
      mul-le-mul_right l hd,
      mul-le-mul_right m he,
      mul-le-mul_right n hf,
      mul-le-mul_right o hg,
      total,
    ))

weighted-pos :
    (a b c d e f g i j k l m n o : ℕ) (w : RouteScoreWeights) (s : ComponentScores)
    → s.latency ≡ pos a
    → s.congestion ≡ pos b
    → s.liquidity ≡ pos c
    → s.throughput ≡ pos d
    → s.speed ≡ pos e
    → s.cost ≡ pos f
    → s.link ≡ pos g
    → w.latency ≡ pos i
    → w.congestion ≡ pos j
    → w.liquidity ≡ pos k
    → w.throughput ≡ pos l
    → w.speed ≡ pos m
    → w.cost ≡ pos n
    → w.link ≡ pos o
    → weighted w s ≡ pos ((a * i + b * j + c * k + d * l + e * m + f * n + g * o) / 10000)
unfolding weighted floor_div
weighted-pos a b c d e f g i j k l m n o w s h₁ h₂ h₃ h₄ h₅ h₆ h₇ k₁ k₂ k₃ k₄ k₅ k₆ k₇ =
    rw (h₁, h₂, h₃, h₄, h₅, h₆, h₇, k₁, k₂, k₃, k₄, k₅, k₆, k₇) (simp (pos-mul, pos-add) refl)

bps_of : (z : ℤ) → IsBps z → (n : ℕ) × (z ≡ pos n) × (n ≤ 10000)
bps_of (pos n) h = (n, refl, omega (arith, h.1))
bps_of (negsuc n) h = absurd (omega (arith, h.0))

total-pos :
    (i j k l m n o : ℕ) (w : RouteScoreWeights)
    → w.latency ≡ pos i
    → w.congestion ≡ pos j
    → w.liquidity ≡ pos k
    → w.throughput ≡ pos l
    → w.speed ≡ pos m
    → w.cost ≡ pos n
    → w.link ≡ pos o
    → sum_ℤ (weight_list w) ≡ pos 10000
    → i + (j + (k + (l + (m + (n + (o + 0)))))) ≡ 10000
unfolding sum_ℤ
total-pos i j k l m n o w k₁ k₂ k₃ k₄ k₅ k₆ k₇ h =
    let sums : pos (i + (j + (k + (l + (m + (n + (o + 0))))))) ≡ pos 10000 =
      simp pos-add at (rw (k₁, k₂, k₃, k₄, k₅, k₆, k₇) at h) in
    cc sums

weighted-IsBps :
    (w : RouteScoreWeights) (s : ComponentScores) → AreWeights w → AreBps s → IsBps (weighted w s)
weighted-IsBps w s v b =
    let (a, sa, la) = bps_of s.latency b.latency in
    let (c, sc, lc) = bps_of s.congestion b.congestion in
    let (d, sd, ld) = bps_of s.liquidity b.liquidity in
    let (e, se, le) = bps_of s.throughput b.throughput in
    let (f, sf, lf) = bps_of s.speed b.speed in
    let (g, sg, lg) = bps_of s.cost b.cost in
    let (h, sh, lh) = bps_of s.link b.link in
    let (i, wi) = pos_of w.latency v.latency in
    let (j, wj) = pos_of w.congestion v.congestion in
    let (k, wk) = pos_of w.liquidity v.liquidity in
    let (l, wl) = pos_of w.throughput v.throughput in
    let (m, wm) = pos_of w.speed v.speed in
    let (n, wn) = pos_of w.cost v.cost in
    let (o, wo) = pos_of w.link v.link in
    let total = total-pos i j k l m n o w wi wj wk wl wm wn wo v.total in
    rw (weighted-pos a c d e f g h i j k l m n o w s sa sc sd se sf sg sh wi wj wk wl wm wn wo)
      (omega arith, omega (arith, mean_le a c d e f g h i j k l m n o la lc ld le lf lg lh total))

-- With weights that the scorer accepts, a valid and eligible candidate whose components are computed has
-- a score between 0 and 10000.
pub score-IsBps :
    (w : RouteScoreWeights) (q : RankRequest) (at : ℕ) (c : RouteCandidate) (s : ComponentScores)
    → checked_weights w ≡ ok w
    → normalized c ≡ ok c
    → eligible q at c ≡ true
    → components q c ≡ ok s
    → IsBps (weighted w s)
score-IsBps w q at c s accepted valid e made =
    weighted-IsBps w s (checked_weights-AreWeights w w accepted)
      (components-AreBps q at c s (normalized-IsBounded c c valid) e made)
