-- ===== src/Market/Clearing/Best.antt =====
-- The tick that the search of `BatchMarket::clear` ends with, against the demand and supply of every
-- tick.
use native.Mathlib.Nat.{zero-add}
use market_sim.Prelude.{
  ℕ, zero, suc, ◌+◌, ◌≤◌, ◌<◌, ◌≡◌, refl, ap, ap₂, subst₂, sym, ◌∙◌, subst, inl, inr, dec_lt, Bool,
  true, false, List, [], ◌∷◌, arith, if◌then◌else◌, Bool-cases,
}
use market_sim.Prelude.Sort.{weigh}
use market_sim.Core.Status.{success, >>=-eq-success, success-injective}
use market_sim.Core.CheckedMath.{u64_max}
use market_sim.Market.{ClearingCandidate}
use market_sim.Market.Orders.{Order, buy_eligible, sell_eligible}
use market_sim.Market.Clearing.{
  better_clearing_candidate, side_total, candidate_at, no_incumbent, better_of, try_tick,
  search_ticks,
}

-- The quantity of the orders that an eligibility admits.
abbrev pub eligible_quantity : (Order → Bool) → Order → ℕ
eligible_quantity eligible o = if eligible o then o.quantity else 0

abbrev pub volume : (Order → Bool) → List Order → ℕ
volume eligible os = weigh (eligible_quantity eligible) os

pub better_irrefl : (c : ClearingCandidate) → better_clearing_candidate c c ≡ false
unfolding better_clearing_candidate
better_irrefl c = ground arith

-- What the incumbent beats, its successor beats.
pub better_trans :
    (a b c : ClearingCandidate)
    → better_clearing_candidate a b ≡ false
    → better_clearing_candidate c b ≡ true
    → better_clearing_candidate a c ≡ false
unfolding better_clearing_candidate
better_trans a b c h k = ground arith

pub side_total_exact :
    (eligible : Order → Bool) (total : ℕ) (os : List Order) (t : ℕ)
    → side_total eligible total os ≡ success t
    → t ≡ total + volume eligible os
unfolding side_total weigh
side_total_exact eligible total [] t h = ground arith
side_total_exact eligible total (o ∷ os) t h = ground (
  arith,
  side_total_exact eligible (total + o.quantity) os t,
  side_total_exact eligible total os t,
)

pub side_total_fits :
    (eligible : Order → Bool) (total : ℕ) (os : List Order)
    → total + volume eligible os ≤ u64_max
    → side_total eligible total os ≡ success (total + volume eligible os)
unfolding side_total weigh
side_total_fits eligible total [] h = ground arith
side_total_fits eligible total (o ∷ os) h =
    ground
      (arith, side_total_fits eligible (total + o.quantity) os, side_total_fits eligible total os)

volume-le :
    (eligible : Order → Bool) (os : List Order) → volume eligible os ≤ weigh (λ o. o.quantity) os
unfolding weigh
volume-le eligible [] = omega arith
volume-le eligible (o ∷ os) = ground (arith, volume-le eligible os)

better_of_first : (c best : ClearingCandidate) → best.tick ≡ 0 → better_of c best ≡ c
better_of_first c best h = ground arith

better_of_better :
    (c best : ClearingCandidate) → better_clearing_candidate c best ≡ true → better_of c best ≡ c
better_of_better c best h = ground arith

better_of_worse :
    (c best : ClearingCandidate)
    → 1 ≤ best.tick
    → better_clearing_candidate c best ≡ false
    → better_of c best ≡ best
better_of_worse c best p h = ground arith

-- The search over any family of candidates, one for each tick.
module _ (cand : ℕ → ClearingCandidate) where
  -- The candidate of one of the ticks from 1 to below `end`, and none of them is better.
  pub record IsBest (best : ClearingCandidate) (end : ℕ) : Type 0 where
    pub positive : 1 ≤ best.tick
    pub below : best.tick < end
    pub is_candidate : best ≡ cand best.tick
    pub optimal : (t : ℕ) → 1 ≤ t → t < end → better_clearing_candidate (cand t) best ≡ false

  module _ (cand-tick : (t : ℕ) → (cand t).tick ≡ t) where
    first-IsBest : IsBest (cand 1) 2
    first-IsBest = record {
      positive = omega (arith, cand-tick 1);
      below = omega (arith, cand-tick 1);
      is_candidate = sym (ap cand (cand-tick 1));
      optimal = λ t p q.
          let e : t ≡ 1 = omega arith in
          subst (λ k. better_clearing_candidate (cand k) (cand 1) ≡ false) (sym e)
            (better_irrefl (cand 1));
    }

    extend_optimal :
        (tick : ℕ) (best : ClearingCandidate)
        → ((t : ℕ) → 1 ≤ t → t < tick → better_clearing_candidate (cand t) best ≡ false)
        → better_clearing_candidate (cand tick) best ≡ false
        → (t : ℕ) → 1 ≤ t
        → t < tick + 1
        → better_clearing_candidate (cand t) best ≡ false
    extend_optimal tick best old new t p q = elim (dec_lt t tick) [
      | yes h ↦ old t p h
      | no h ↦
          let e : t ≡ tick = omega arith in
          subst (λ k. better_clearing_candidate (cand k) best ≡ false) (sym e) new
    ]

    next-IsBest :
        (tick : ℕ) (best : ClearingCandidate)
        → IsBest best tick
        → IsBest (better_of (cand tick) best) (tick + 1)
    next-IsBest tick best b = elim (Bool-cases (better_clearing_candidate (cand tick) best)) [
      | inl better ↦
          subst (λ c. IsBest c (tick + 1)) (sym (better_of_better (cand tick) best better))
            (record {
              positive = omega (arith, cand-tick tick, b.positive, b.below);
              below = omega (arith, cand-tick tick);
              is_candidate = sym (ap cand (cand-tick tick));
              optimal =
                  extend_optimal tick (cand tick)
                    (λ t p q. better_trans (cand t) best (cand tick) (b.optimal t p q) better)
                    (better_irrefl (cand tick));
            })
      | inr worse ↦
          subst (λ c. IsBest c (tick + 1)) (sym (better_of_worse (cand tick) best b.positive worse))
            (record {
              positive = b.positive;
              below = omega (arith, b.below);
              is_candidate = b.is_candidate;
              optimal = extend_optimal tick best b.optimal worse;
            })
    ]

module _ (buys sells : List Order) (last : ℕ) where
  abbrev pub candidate : ℕ → ClearingCandidate
  candidate t = candidate_at last t (volume (buy_eligible t) buys) (volume (sell_eligible t) sells)

  try_tick_exact :
      (tick : ℕ) (best best' : ClearingCandidate)
      → try_tick buys sells last tick best ≡ success best'
      → best' ≡ better_of (candidate tick) best
  unfolding try_tick
  try_tick_exact tick best best' h =
      let (demand, d, h') = >>=-eq-success (side_total (buy_eligible tick) 0 buys) _ h in
      let (supply, s, h'') = >>=-eq-success (side_total (sell_eligible tick) 0 sells) _ h' in
      let dx = side_total_exact (buy_eligible tick) 0 buys demand d in
      let sx = side_total_exact (sell_eligible tick) 0 sells supply s in
      sym (success-injective h'')
      ∙ ap₂ (λ d s. better_of (candidate_at last tick d s) best) (omega arith) (omega arith)

  try_tick_total :
      (tick : ℕ) (best : ClearingCandidate)
      → weigh (λ o. o.quantity) buys ≤ u64_max
      → weigh (λ o. o.quantity) sells ≤ u64_max
      → try_tick buys sells last tick best ≡ success (better_of (candidate tick) best)
  unfolding try_tick
  try_tick_total tick best p q = rw (
    side_total_fits (buy_eligible tick) 0 buys (omega (arith, volume-le (buy_eligible tick) buys)),
    side_total_fits (sell_eligible tick) 0 sells
        (omega (arith, volume-le (sell_eligible tick) sells)),
    zero-add,
    zero-add,
  )

  search_ticks-IsBest :
      (rounds tick : ℕ) (best b : ClearingCandidate)
      → IsBest candidate best tick
      → search_ticks buys sells last rounds tick best ≡ success b
      → IsBest candidate b (tick + rounds)
  unfolding search_ticks
  search_ticks-IsBest zero tick best b v h =
      subst₂ (IsBest candidate) (success-injective h) (omega arith) v
  search_ticks-IsBest (suc rounds) tick best b v h =
      let (best', e, h') =
        >>=-eq-success (try_tick buys sells last tick best)
          (λ best'. search_ticks buys sells last rounds (tick + 1) best') h in
      let step =
        subst (λ c. IsBest candidate c (tick + 1)) (sym (try_tick_exact tick best best' e))
          (next-IsBest candidate (λ t. refl) tick best v) in
      subst (IsBest candidate b) (omega arith)
        (search_ticks-IsBest rounds (tick + 1) best' b step h')

  -- A search that starts at tick 1 with no incumbent ends with the best of the ticks looked at.
  pub search_ticks-IsBest' :
      (rounds : ℕ) (b : ClearingCandidate)
      → search_ticks buys sells last (suc rounds) 1 no_incumbent ≡ success b
      → IsBest candidate b (2 + rounds)
  unfolding search_ticks
  search_ticks-IsBest' rounds b h =
      let (best', e, h') =
        >>=-eq-success (try_tick buys sells last 1 no_incumbent)
          (λ best'. search_ticks buys sells last rounds (1 + 1) best') h in
      let first =
        subst (λ c. IsBest candidate c 2)
          (sym (
            try_tick_exact 1 no_incumbent best' e
            ∙ better_of_first (candidate 1) no_incumbent refl))
          (first-IsBest candidate (λ t. refl)) in
      search_ticks-IsBest rounds 2 best' b first h'

  -- With fewer than 2 ^ 64 units on each side the search for a tick ends with a candidate: its sums
  -- cannot overflow.
  pub search_ticks_total :
      (rounds tick : ℕ) (best : ClearingCandidate)
      → weigh (λ o. o.quantity) buys ≤ u64_max
      → weigh (λ o. o.quantity) sells ≤ u64_max
      → (b : ClearingCandidate) × (search_ticks buys sells last rounds tick best ≡ success b)
  unfolding search_ticks
  search_ticks_total zero tick best p q = (best, refl)
  search_ticks_total (suc rounds) tick best p q =
      rw (try_tick_total tick best p q)
        (search_ticks_total rounds (tick + 1) (better_of (candidate tick) best) p q)
