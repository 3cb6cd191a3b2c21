-- ===== src/Execution/Scoring/Specified.antt =====
-- What a ranking of railone_execution/scoring.py is, said without the code's own order, numbering and
-- eligibility test.
use mathlib.Core.Path.{◌∙◌, subst}
use mathlib.Core.List.{Perm}
use railone_core.Prelude.{
  ℕ, suc, ◌≡◌, ◌≢◌, refl, sym, ap, true, false, not, List, [], ◌∷◌, map, All, select, ◌≤◌, ◌<◌, ◌⊎◌,
  inl, inr, arith, Bool-cases,
}
use railone_core.Prelude.Equality.{string_eq}
use text.Mathlib.TextEquality.{eq_iff}
use railone_core.Prelude.Int.{ℤ, pos, ltb_ℤ, ◌≤ℤ◌, eq_of_parts}
use railone_core.Prelude.Order.{text_leb}
use railone_core.Prelude.Text.{upper}
use railone_core.Prelude.Sort.{IsSorted}
use railone_core.Execution.Models.{LinkStatus, RouteCandidate, RankedRoute}
use railone_core.Execution.Scoring.{
  RouteScoreWeights, RankRequest, is_down, eligible, ScoredRoute, before, number_from,
}
use railone_core.Execution.Scoring.Ranking.{scored}

-- A higher score precedes a lower one, and of equal scores the lesser route identifier.
abbrev pub Precedes : ScoredRoute → ScoredRoute → Type 0
Precedes a b =
    ((b.score ≤ℤ a.score) × (a.score ≢ b.score))
    ⊎ ((a.score ≡ b.score) × (text_leb a.candidate.route_id b.candidate.route_id ≡ true))

-- Each entry precedes all that follow it.
abbrev pub IsOrdered : List ScoredRoute → Type 0
IsOrdered [] = Unit
IsOrdered (x ∷ xs) = All (Precedes x) xs × IsOrdered xs

-- The ranks are n, n + 1, and so on.
abbrev pub IsNumbered : ℕ → List RankedRoute → Type 0
IsNumbered n [] = Unit
IsNumbered n (r ∷ rs) = (r.rank ≡ n) × IsNumbered (suc n) rs

-- A ranked route without its rank.
abbrev pub entry_of : RankedRoute → ScoredRoute
entry_of r = record { candidate = r.candidate; score = r.score_bps; scores = r.component_scores }

-- The candidate can carry the payment: its link is not down, its telemetry was observed by then and has
-- not expired, its currencies and institutions are the asked ones, the amount lies between its limits
-- and within its liquidity, and its estimated cost within the routing budget.
pub record IsEligible (q : RankRequest) (at : ℕ) (c : RouteCandidate) : Type 0 where
  pub alive : c.link_status ≢ LinkStatus.down
  pub observed : c.telemetry_observed_at.micros ≤ at
  pub unexpired : at < c.telemetry_expires_at.micros
  pub from : upper c.currency_from ≡ upper q.currency_from
  pub to : upper c.currency_to ≡ upper q.currency_to
  pub least : c.min_amount_minor ≤ℤ pos q.amount_minor
  pub most : pos q.amount_minor ≤ℤ c.max_amount_minor
  pub liquid : pos q.amount_minor ≤ℤ c.liquidity_capacity_minor
  pub cheap : c.estimated_cost_minor ≤ℤ pos q.routing_budget_minor
  pub source : c.source_institution_id ≡ q.source_institution_id
  pub destination : c.destination_institution_id ≡ q.destination_institution_id

is_down_iff :
    (l : LinkStatus)
    → (not (is_down l) ≡ true → l ≢ LinkStatus.down)
      × (l ≢ LinkStatus.down → not (is_down l) ≡ true)
is_down_iff LinkStatus.up = ((λ _ e. cc e), λ _. refl)
is_down_iff LinkStatus.degraded = ((λ _ e. cc e), λ _. refl)
is_down_iff LinkStatus.down = ((λ h. absurd (cc h)), λ h. absurd (h refl))

eligible-IsEligible :
    (q : RankRequest) (at : ℕ) (c : RouteCandidate) → eligible q at c ≡ true → IsEligible q at c
unfolding eligible
eligible-IsEligible q at c h = record {
  alive = (is_down_iff c.link_status).0 (ground arith);
  observed = ground arith;
  unexpired = ground arith;
  from = (eq_iff (upper c.currency_from) (upper q.currency_from)).0 (ground arith);
  to = (eq_iff (upper c.currency_to) (upper q.currency_to)).0 (ground arith);
  least = ground arith;
  most = ground arith;
  liquid = ground arith;
  cheap = ground arith;
  source = (eq_iff c.source_institution_id q.source_institution_id).0 (ground arith);
  destination = (eq_iff c.destination_institution_id q.destination_institution_id).0 (ground arith);
}

IsEligible-eligible :
    (q : RankRequest) (at : ℕ) (c : RouteCandidate) → IsEligible q at c → eligible q at c ≡ true
unfolding eligible
IsEligible-eligible q at c h =
    let alive = (is_down_iff c.link_status).1 h.alive in
    let from = (eq_iff (upper c.currency_from) (upper q.currency_from)).1 h.from in
    let to = (eq_iff (upper c.currency_to) (upper q.currency_to)).1 h.to in
    let source = (eq_iff c.source_institution_id q.source_institution_id).1 h.source in
    let destination =
      (eq_iff c.destination_institution_id q.destination_institution_id).1 h.destination in
    rw (alive, from, to, source, destination)
      (ground (arith, h.observed, h.unexpired, h.least, h.most, h.liquid, h.cheap))

pub record IsRanking (w : RouteScoreWeights) (q : RankRequest) (at : ℕ) (cs : List RouteCandidate)
    (rs : List RankedRoute) : Type 0 where
  pub ordered : IsOrdered (map entry_of rs)
  pub numbered : IsNumbered 1 rs
  pub complete : Perm (map entry_of rs) (map (scored w q) (select (eligible q at) cs))
  pub tested : (c : RouteCandidate) → eligible q at c ≡ true → IsEligible q at c
  pub kept : (c : RouteCandidate) → IsEligible q at c → eligible q at c ≡ true

not_less : (x : ℤ) → ltb_ℤ x x ≢ true
not_less x h = ground (arith, h)

before-Precedes : (a b : ScoredRoute) → before a b ≡ true → Precedes a b
unfolding before
before-Precedes a b h = elim (Bool-cases (ltb_ℤ b.score a.score)) [
  | inl higher ↦
      inl (ground (arith, higher), λ e. not_less a.score (ap (λ s. ltb_ℤ s a.score) e ∙ higher))
  | inr other ↦
      let no_less : ltb_ℤ a.score b.score ≡ false = ground (arith, h, other) in
      inr (
        eq_of_parts a.score b.score (ground (arith, other, no_less)),
        ground (arith, h, other, no_less),
      )
]

sorted-IsOrdered : (xs : List ScoredRoute) → IsSorted before xs → IsOrdered xs
sorted-IsOrdered [] h = tt
sorted-IsOrdered (x ∷ xs) h = (All_before x xs h.0, sorted-IsOrdered xs h.1)
  where
    All_before :
        (x : ScoredRoute) (ys : List ScoredRoute)
        → All (λ y. before x y ≡ true) ys
        → All (Precedes x) ys
    All_before x [] h = tt
    All_before x (y ∷ ys) h = (before-Precedes x y h.0, All_before x ys h.1)

number_from-IsNumbered : (n : ℕ) (xs : List ScoredRoute) → IsNumbered n (number_from n xs)
unfolding number_from
number_from-IsNumbered n [] = tt
number_from-IsNumbered n (x ∷ xs) = (refl, number_from-IsNumbered (suc n) xs)

number_from-entries : (n : ℕ) (xs : List ScoredRoute) → map entry_of (number_from n xs) ≡ xs
unfolding number_from
number_from-entries n [] = refl
number_from-entries n (x ∷ xs) = ap (λ l. x ∷ l) (number_from-entries (suc n) xs)

pub number_from-IsRanking :
    (w : RouteScoreWeights) (q : RankRequest) (at : ℕ) (cs : List RouteCandidate)
    (order : List ScoredRoute)
    → IsSorted before order
    → Perm order (map (scored w q) (select (eligible q at) cs))
    → IsRanking w q at cs (number_from 1 order)
number_from-IsRanking w q at cs order sorted complete =
    let same = sym (number_from-entries 1 order) in
    record {
      ordered = subst IsOrdered same (sorted-IsOrdered order sorted);
      numbered = number_from-IsNumbered 1 order;
      complete = subst (λ xs. Perm xs (map (scored w q) (select (eligible q at) cs))) same complete;
      tested = eligible-IsEligible q at;
      kept = IsEligible-eligible q at;
    }
