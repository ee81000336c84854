-- ===== src/Market.antt =====
-- include/marketforge/market/batch_market.hpp: the data of the call market.
-- Agents' cash is a signed 64-bit count of units, 10000 to a tick of price.
pub mod Orders
pub mod Clearing
pub mod Settlement
pub mod Batch
mod Tests
use market_sim.Prelude.{ℕ, suc, ◌+◌, ◌*◌, ◌-◌, ◌≤◌, ◌≡◌, Bool, List, arith}
use market_sim.Prelude.Int.{ℤ, pos}
use market_sim.Grammar.Action.{Action, ActionKind}

pub record Account : Type 0 where
  pub id : ℕ  -- uint32
  pub cash : ℤ  -- int64
  pub yes_shares : ℕ  -- uint32

pub record AgentAction : Type 0 where
  pub agent : ℕ  -- uint32
  pub action : Action

pub record Fill : Type 0 where
  pub agent : ℕ
  pub side : ActionKind
  pub quantity : ℕ  -- uint8

pub record BatchResult : Type 0 where
  pub traded : Bool
  pub clearing_tick : ℕ  -- uint8
  pub matched_quantity : ℕ  -- uint32
  pub fills : List Fill

pub record ClearingCandidate : Type 0 where
  pub matched_quantity : ℕ  -- uint64
  pub imbalance : ℕ  -- uint64
  pub reference_distance : ℕ  -- uint32
  pub tick : ℕ  -- uint8

pub record BatchMarket : Type 0 where
  pub accounts : List Account
  pub last_traded_tick : ℕ  -- uint8

abbrev pub cash_units_per_tick : ℕ
cash_units_per_tick = 10000
