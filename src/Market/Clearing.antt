-- ===== src/Market/Clearing.antt =====
-- src/market/batch_market.cpp: the search for the clearing tick in `BatchMarket::clear`.
pub mod Best
use market_sim.Prelude.{
  ℕ, zero, suc, ◌+◌, ◌-◌, Bool, ◌||◌, ◌&&◌, List, [], ◌∷◌, ltb, leb, ◌==◌, if◌then◌else◌, min,
}
use market_sim.Core.Status.{Result, success, ◌>>=◌}
use market_sim.Core.CheckedMath.{u32_max, u64_max, overflow}
use market_sim.Market.{ClearingCandidate}
use market_sim.Market.Orders.{Order, buy_eligible, sell_eligible}

unfoldable pub better_clearing_candidate : ClearingCandidate → ClearingCandidate → Bool
better_clearing_candidate c i =
    ltb i.matched_quantity c.matched_quantity
    || (c.matched_quantity == i.matched_quantity
        && (ltb c.imbalance i.imbalance
            || (c.imbalance == i.imbalance
                && (ltb c.reference_distance i.reference_distance
                    || (c.reference_distance == i.reference_distance && ltb c.tick i.tick)))))

-- One round of the loops that add up demand and supply.
add_eligible : (Order → Bool) → ℕ → Order → Result ℕ
add_eligible eligible total o =
    if eligible o
    then (if ltb (u64_max - o.quantity) total then overflow else success (total + o.quantity))
    else success total

unfoldable pub side_total : (Order → Bool) → ℕ → List Order → Result ℕ
unfolding add_eligible
side_total eligible total [] = success total
side_total eligible total (o ∷ os) = do
  total' ← add_eligible eligible total o
  side_total eligible total' os

abbrev pub distance : ℕ → ℕ → ℕ
distance a b = if leb b a then a - b else b - a

abbrev pub candidate_at : ℕ → ℕ → ℕ → ℕ → ClearingCandidate
candidate_at last tick demand supply = record {
  matched_quantity = min demand supply;
  imbalance = distance demand supply;
  reference_distance = distance tick last;
  tick = tick;
}

-- The incumbent: `best_matched`, `best_imbalance`, `best_distance` and `clearing_tick`.
abbrev pub no_incumbent : ClearingCandidate
no_incumbent = record {
  matched_quantity = 0;
  imbalance = u64_max;
  reference_distance = u32_max;
  tick = 0;
}

abbrev pub better_of : ClearingCandidate → ClearingCandidate → ClearingCandidate
better_of c best = if best.tick == 0 || better_clearing_candidate c best then c else best

unfoldable pub try_tick :
    List Order → List Order → ℕ → ℕ → ClearingCandidate → Result ClearingCandidate
unfolding side_total better_clearing_candidate
try_tick buys sells last tick best = do
  demand ← side_total (buy_eligible tick) 0 buys
  supply ← side_total (sell_eligible tick) 0 sells
  success (better_of (candidate_at last tick demand supply) best)

-- `rounds` ticks from `tick` on. The source's loop has 99 rounds from tick 1.
unfoldable pub search_ticks :
    List Order → List Order → ℕ → ℕ → ℕ → ClearingCandidate → Result ClearingCandidate
unfolding try_tick
search_ticks buys sells last zero tick best = success best
search_ticks buys sells last (suc rounds) tick best = do
  best' ← try_tick buys sells last tick best
  search_ticks buys sells last rounds (tick + 1) best'
