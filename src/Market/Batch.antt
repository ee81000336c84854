-- ===== src/Market/Batch.antt =====
-- src/market/batch_market.cpp: `BatchMarket::create` and `BatchMarket::clear`.
pub mod Trade
pub mod Effects
pub mod Trades
pub mod Totals
pub mod Accounts
pub mod Creation
pub mod Clearings
use market_sim.Prelude.{
  ℕ, zero, suc, Bool, true, false, ◌||◌, ◌&&◌, not, List, [], ◌∷◌, ◌++◌, Option, none, some, ltb,
  leb, ◌==◌, if◌then◌else◌,
}
use market_sim.Prelude.Int.{pos, ltb_ℤ}
use market_sim.Prelude.Sort.{sort_by}
use market_sim.Core.Status.{
  Result, success, failure, fails, invalid_argument, arithmetic_overflow, invalid_format,
  allocation_failed, ◌>>=◌, ErrorCode,
}
use market_sim.Core.CheckedMath.{u32_max}
use market_sim.Market.{Account, AgentAction, Fill, BatchResult, BatchMarket, ClearingCandidate}
use market_sim.Market.Orders.{
  Order, Book, empty_book, collect, buys_before, sells_before, buy_eligible, sell_eligible,
}
use market_sim.Market.Clearing.{search_ticks, no_incumbent}
use market_sim.Market.Settlement.{allocate, apply_all, Settlement}

-- The loop of `create` over the sorted accounts, with the id before.
pub check_accounts : Option ℕ → List Account → Bool
check_accounts before [] = true
check_accounts before (a ∷ rest) =
    not (ltb_ℤ a.cash (pos 0) || elim before [ none ↦ false | some id ↦ id == a.id ])
    && check_accounts (some a.id) rest

abbrev pub is_empty {ℓ} : {A : Type ℓ} → List A → Bool
is_empty [] = true
is_empty _ = false

abbrev pub id_before : Account → Account → Bool
id_before l r = ltb l.id r.id

-- `exhausted`: whether the copy of the accounts throws `std::bad_alloc`.
unfoldable pub create : Bool → List Account → ℕ → Result BatchMarket
unfolding check_accounts sort_by
create exhausted accounts reference_tick =
    if is_empty accounts || ltb reference_tick 1 || ltb 99 reference_tick
    then fails invalid_argument
    else if exhausted
    then fails allocation_failed
    else if check_accounts none (sort_by id_before accounts)
    then success
        (record { accounts = sort_by id_before accounts; last_traded_tick = reference_tick })
    else fails invalid_argument

abbrev pub fill_before : Fill → Fill → Bool
fill_before l r = ltb l.agent r.agent

abbrev pub no_trade : BatchResult
no_trade = record { traded = false; clearing_tick = 0; matched_quantity = 0; fills = [] }

abbrev pub or_fail {ℓ} : {A : Type ℓ} → Option A → ErrorCode → Result A
or_fail none e = fails e
or_fail (some a) e = success a

-- The two loops that call `apply`, and the commit. It returns the new market.
pub post :
    BatchMarket → ClearingCandidate → List Order → List Order → Result (BatchMarket × BatchResult)
unfolding sort_by apply_all
post m best buys sells = do
  s ←
      or_fail (apply_all best.tick (record { updated = m.accounts; fills = [] }) buys)
        arithmetic_overflow
  s' ← or_fail (apply_all best.tick s sells) arithmetic_overflow
  success (
    record { accounts = s'.updated; last_traded_tick = best.tick },
    record {
      traded = true;
      clearing_tick = best.tick;
      matched_quantity = best.matched_quantity;
      fills = sort_by fill_before s'.fills;
    },
  )

-- The sharing out of the match, and its test.
pub settle : BatchMarket → Book → ClearingCandidate → Result (BatchMarket × BatchResult)
unfolding sort_by allocate post
settle m book best =
    let (buys, left) =
      allocate (buy_eligible best.tick) best.matched_quantity (sort_by buys_before book.buys) in
    let (sells, left') =
      allocate (sell_eligible best.tick) best.matched_quantity (sort_by sells_before book.sells) in
    if not (left == 0) || not (left' == 0) then fails invalid_format else post m best buys sells

-- The end of `clear`, from the test of `best_matched` on.
pub finish : BatchMarket → Book → ClearingCandidate → Result (BatchMarket × BatchResult)
unfolding settle
finish m book best =
    if best.matched_quantity == 0
    then success (m, no_trade)
    else if ltb u32_max best.matched_quantity
    then fails arithmetic_overflow
    else settle m book best

-- `clear` up to its commit: the market after it and the result, or the failure.
unfoldable pub clear_batch : BatchMarket → List AgentAction → Result (BatchMarket × BatchResult)
unfolding finish collect
clear_batch m actions = do
  book ← collect m.accounts empty_book actions
  best ← search_ticks book.buys book.sells m.last_traded_tick 99 1 no_incumbent
  finish m book best

-- `BatchMarket::clear`: the market after the call, and what it returns. `exhausted` tells whether the
-- call throws `std::bad_alloc`; nothing is written before its last allocation.
unfoldable pub clear : Bool → BatchMarket → List AgentAction → BatchMarket × Result BatchResult
unfolding clear_batch
clear true m actions = (m, fails allocation_failed)
clear false m actions = elim (clear_batch m actions) [
  | success (m', r) ↦ (m', success r)
  | failure s ↦ (m, failure s)
]
