-- ===== src/Market/Tests.antt =====
-- Runs of the market and its theorems at concrete batches.
use mathlib.Core.List.{Perm}
use market_sim.Prelude.{ℕ, ◌+◌, ◌-◌, ◌≡◌, ◌≤◌, ◌<◌, ◌⊎◌, refl, true, false, List, [], ◌∷◌, arith}
use market_sim.Prelude.Int.{pos, ◌-ℤ◌, ◌+ℤ◌}
use market_sim.Prelude.Sort.{All, weigh}
use market_sim.Core.Status.{success, failure, status_failure, insufficient_resources}
use market_sim.Core.CheckedMath.{u64_max}
use market_sim.Grammar.Action.{buy_yes, sell_yes, IsValid}
use market_sim.Market.{Account, AgentAction, BatchResult, BatchMarket, ClearingCandidate}
use market_sim.Market.Orders.{Order, Book, empty_book, collect, collect_one, sell_eligible}
use market_sim.Market.Orders.Collected.{IsCollected, empty_book-IsCollected, collect-IsCollected}
use market_sim.Market.Clearing.{search_ticks, no_incumbent}
use market_sim.Market.Clearing.Best.{IsBest, candidate, search_ticks_total, volume}
use market_sim.Market.Settlement.{allocate, checked_add_cash}
use market_sim.Market.Settlement.Fills.{
  IsOpen, IsFair, RespectsPriority, filled, allocate_total, allocate-IsFair,
  allocate-RespectsPriority,
}
use market_sim.Market.Settlement.Solvency.{IsSolvent}
use market_sim.Market.Batch.{clear, create, no_trade}
use market_sim.Market.Batch.Totals.{SameTotals, clear-SameTotals}
use market_sim.Market.Batch.Accounts.{IsWellFormed, clear-IsWellFormed}
use market_sim.Market.Batch.Creation.{Fits, create-IsWellFormed}
use market_sim.Market.Batch.Trades.{Trades}
use market_sim.Market.Batch.Clearings.{IsRefusal, clear-IsBest, clear_failure}

abbrev account : ℕ → ℕ → ℕ → Account
account id cash shares = record { id = id; cash = pos cash; yes_shares = shares }

abbrev buy : ℕ → ℕ → ℕ → AgentAction
buy agent quantity tick = record {
  agent = agent;
  action = record { kind = buy_yes; quantity = quantity; price_tick = tick };
}

abbrev sell : ℕ → ℕ → ℕ → AgentAction
sell agent quantity tick = record {
  agent = agent;
  action = record { kind = sell_yes; quantity = quantity; price_tick = tick };
}

abbrev market : BatchMarket
market = record {
  accounts = account 1 10000000 0 ∷ account 2 10000000 8 ∷ account 3 10000000 8 ∷ [];
  last_traded_tick = 50;
}

abbrev batch : List AgentAction
batch = sell 3 4 40 ∷ buy 1 5 60 ∷ sell 2 3 55 ∷ []

-- The market and the report after the batch.
abbrev cleared : BatchMarket
cleared = record {
  accounts = account 1 7250000 5 ∷ account 2 10550000 7 ∷ account 3 12200000 4 ∷ [];
  last_traded_tick = 55;
}

abbrev report : BatchResult
report = record {
  traded = true;
  clearing_tick = 55;
  matched_quantity = 5;
  fills =
      record { agent = 1; side = buy_yes; quantity = 5 }
      ∷ record { agent = 2; side = sell_yes; quantity = 1 }
      ∷ record { agent = 3; side = sell_yes; quantity = 4 }
      ∷ [];
}

clear-batch_test : clear false market batch ≡ (cleared, success report)
unfolding clear collect_one search_ticks checked_add_cash ◌-ℤ◌ ◌+ℤ◌
clear-batch_test = refl

-- An agent who sells more than it has.
clear_short_test :
    clear false market (sell 1 4 40 ∷ [])
    ≡ (market, failure (status_failure insufficient_resources))
unfolding clear collect_one
clear_short_test = refl

batch-IsValid : All (λ (s : AgentAction). IsValid s.action) batch
batch-IsValid = ground arith

short-IsValid : All (λ (s : AgentAction). IsValid s.action) (sell 1 4 40 ∷ [])
short-IsValid = ground arith

clear-SameTotals_example : SameTotals market (clear false market batch).0
clear-SameTotals_example = clear-SameTotals false market batch batch-IsValid

account-IsSolvent :
    (id cash shares : ℕ) → cash ≤ 10000000 → shares ≤ 8 → IsSolvent (account id cash shares)
account-IsSolvent id cash shares h k = record {
  no_debt = ground arith;
  cash_fits = ground arith;
  shares_fit = omega arith;
}

market-IsWellFormed : IsWellFormed market
market-IsWellFormed = record {
  solvent = (
    account-IsSolvent 1 10000000 0 (omega arith) (omega arith),
    (
      account-IsSolvent 2 10000000 8 (omega arith) (omega arith),
      (account-IsSolvent 3 10000000 8 (omega arith) (omega arith), tt),
    ),
  );
  sorted = ground arith;
  least_tick = omega arith;
  most_tick = omega arith;
}

clear-IsWellFormed_example : IsWellFormed (clear false market batch).0
clear-IsWellFormed_example = clear-IsWellFormed false market batch batch-IsValid market-IsWellFormed

clear-IsBest_example :
    (book : Book) × (best : ClearingCandidate) × (collect market.accounts empty_book batch
      ≡ success book)
    × IsBest (candidate book.buys book.sells 50) best 100
    × (5 ≡ best.matched_quantity)
    × (((best.matched_quantity ≡ 0) × (report ≡ no_trade) × (cleared ≡ market))
        ⊎ ((0 < best.matched_quantity) × Trades market best cleared report))
clear-IsBest_example =
    clear-IsBest market cleared batch report batch-IsValid market-IsWellFormed.sorted
      clear-batch_test

clear_failure_example : (market ≡ market) × IsRefusal (status_failure insufficient_resources)
clear_failure_example =
    clear_failure false market market (sell 1 4 40 ∷ []) short-IsValid clear_short_test

-- Accounts in another order than that of their ids.
abbrev unsorted : List Account
unsorted = account 3 10000000 8 ∷ account 1 10000000 0 ∷ account 2 10000000 8 ∷ []

create_test : create false unsorted 50 ≡ success market
unfolding create
create_test = refl

unsorted-Fits : All Fits unsorted
unsorted-Fits = ground arith

create-IsWellFormed_example :
    IsWellFormed market × Perm market.accounts unsorted × (market.last_traded_tick ≡ 50)
create-IsWellFormed_example = create-IsWellFormed false unsorted 50 unsorted-Fits create_test

abbrev order : ℕ → ℕ → ℕ → Order
order agent quantity limit = record {
  account_index = agent - 1;
  agent = agent;
  side = sell_yes;
  quantity = quantity;
  limit = limit;
  fill = 0;
}

abbrev sellers : List Order
sellers = order 3 4 40 ∷ order 2 3 55 ∷ order 4 2 70 ∷ []

sellers-IsOpen : All IsOpen sellers
sellers-IsOpen = ground arith

sell_eligible-blind :
    (tick : ℕ) (o : Order) (f : ℕ)
    → sell_eligible tick (record o { fill = f }) ≡ sell_eligible tick o
sell_eligible-blind tick o f = refl

allocate-RespectsPriority_example :
    RespectsPriority (sell_eligible 55) (allocate (sell_eligible 55) 5 sellers).0
allocate-RespectsPriority_example =
    allocate-RespectsPriority (sell_eligible 55) (sell_eligible-blind 55) 5 sellers sellers-IsOpen

allocate_total_example :
    (filled (allocate (sell_eligible 55) 9 sellers).0 + (allocate (sell_eligible 55) 9 sellers).1
      ≡ 9)
    × ((allocate (sell_eligible 55) 9 sellers).1 ≡ 9 - volume (sell_eligible 55) sellers)
allocate_total_example =
    allocate_total (sell_eligible 55) (sell_eligible-blind 55) 9 sellers sellers-IsOpen

allocate-IsFair_example : All (IsFair (sell_eligible 55)) (allocate (sell_eligible 55) 5 sellers).0
allocate-IsFair_example =
    allocate-IsFair (sell_eligible 55) (sell_eligible-blind 55) 5 sellers sellers-IsOpen

abbrev buyers : List Order
buyers = order 1 5 60 ∷ []

buyers_units : weigh (λ (o : Order). o.quantity) buyers ≤ u64_max
unfolding weigh
buyers_units = omega arith

sellers_units : weigh (λ (o : Order). o.quantity) sellers ≤ u64_max
unfolding weigh
sellers_units = omega arith

search_ticks_total_example :
    (b : ClearingCandidate) × (search_ticks buyers sellers 50 99 1 no_incumbent ≡ success b)
search_ticks_total_example =
    search_ticks_total buyers sellers 50 99 1 no_incumbent buyers_units sellers_units

-- The book of the batch.
abbrev collected : Book
collected = record {
  submitted = 2 ∷ 1 ∷ 3 ∷ [];
  buys = record (order 1 5 60) { side = buy_yes } ∷ [];
  sells = order 3 4 40 ∷ order 2 3 55 ∷ [];
}

collect_test : collect market.accounts empty_book batch ≡ success collected
unfolding collect collect_one
collect_test = refl

collect-IsCollected_example : IsCollected market.accounts collected
collect-IsCollected_example =
    collect-IsCollected market.accounts empty_book collected batch batch-IsValid
      (empty_book-IsCollected market.accounts) collect_test
