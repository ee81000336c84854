-- ===== src/Market/Orders.antt =====
-- src/market/batch_market.cpp: the orders of a batch, and the first loop of `BatchMarket::clear`.
pub mod Collected
use market_sim.Prelude.{
  ℕ, zero, suc, ◌+◌, ◌*◌, Bool, true, false, ◌||◌, ◌&&◌, not, List, [], ◌∷◌, ◌++◌, Option, none,
  some, ltb, leb, ◌==◌, if◌then◌else◌, get_elem?,
}
use market_sim.Prelude.Int.{ℤ, pos, ltb_ℤ}
use market_sim.Core.Status.{Result, success, fails, ◌>>=◌, invalid_argument, insufficient_resources}
use market_sim.Grammar.Action.{Action, ActionKind, hold, buy_yes, sell_yes}
use market_sim.Market.{Account, AgentAction, cash_units_per_tick}

pub record Order : Type 0 where
  pub account_index : ℕ
  pub agent : ℕ
  pub side : ActionKind
  pub quantity : ℕ  -- uint8
  pub limit : ℕ  -- uint8
  pub fill : ℕ  -- uint8

-- `std::set<agent_id_t> submitted`, the orders of the two sides.
pub record Book : Type 0 where
  pub submitted : List ℕ
  pub buys : List Order
  pub sells : List Order

abbrev pub empty_book : Book
empty_book = record { submitted = []; buys = []; sells = [] }

abbrev pub contains : ℕ → List ℕ → Bool
contains a [] = false
contains a (x ∷ xs) = a == x || contains a xs

-- `std::lower_bound` over accounts sorted by id: the first that does not stand before the id.
abbrev pub lower_bound : ℕ → List Account → ℕ
lower_bound id [] = 0
lower_bound id (a ∷ rest) = if ltb a.id id then suc (lower_bound id rest) else 0

-- The cash that an order can cost at most.
abbrev pub limit_notional : Action → ℤ
limit_notional a = pos (a.quantity * a.price_tick * cash_units_per_tick)

abbrev pub order_of : ℕ → AgentAction → Order
order_of index s = record {
  account_index = index;
  agent = s.agent;
  side = s.action.kind;
  quantity = s.action.quantity;
  limit = s.action.price_tick;
  fill = 0;
}

-- The end of the loop's body, for an account that was found.
unfoldable pub place : ActionKind → ℕ → Account → Book → AgentAction → Result Book
place hold index account b s = success b
place buy_yes index account b s =
    if ltb_ℤ account.cash (limit_notional s.action)
    then fails insufficient_resources
    else success (record b { buys = b.buys ++ order_of index s ∷ [] })
place sell_yes index account b s =
    if ltb account.yes_shares s.action.quantity
    then fails insufficient_resources
    else success (record b { sells = b.sells ++ order_of index s ∷ [] })

-- One submission.
unfoldable pub collect_one : List Account → Book → AgentAction → Result Book
unfolding place
collect_one accounts b s =
    if contains s.agent b.submitted
    then fails invalid_argument
    else elim (get_elem? accounts (lower_bound s.agent accounts)) [
      | none ↦ fails invalid_argument
      | some account ↦
          if not (account.id == s.agent)
          then fails invalid_argument
          else place s.action.kind (lower_bound s.agent accounts) account
              (record b { submitted = s.agent ∷ b.submitted }) s
    ]

unfoldable pub collect : List Account → Book → List AgentAction → Result Book
collect accounts b [] = success b
collect accounts b (s ∷ ss) = do b' ← collect_one accounts b s; collect accounts b' ss

-- The two orders of `std::sort`. No agent has two orders, so the sorted list is unique.
abbrev pub buys_before : Order → Order → Bool
buys_before l r = ltb r.limit l.limit || (l.limit == r.limit && ltb l.agent r.agent)

abbrev pub sells_before : Order → Order → Bool
sells_before l r = ltb l.limit r.limit || (l.limit == r.limit && ltb l.agent r.agent)

-- Whether an order takes part in a trade at a tick.
abbrev pub buy_eligible : ℕ → Order → Bool
buy_eligible tick o = leb tick o.limit

abbrev pub sell_eligible : ℕ → Order → Bool
sell_eligible tick o = leb o.limit tick
