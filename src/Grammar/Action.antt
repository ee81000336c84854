-- ===== src/Grammar/Action.antt =====
-- include/marketforge/grammar/action.hpp and src/grammar/action.cpp.
use market_sim.Prelude.{ℕ, ◌≤◌, ◌≡◌, Bool, ◌||◌, arith, ltb, if◌then◌else◌}
use market_sim.Core.Status.{Result, success, fails, invalid_argument}

pub data ActionKind : Type 0 where
  hold buy_yes sell_yes : ActionKind

pub record Action : Type 0 where
  pub kind : ActionKind
  pub quantity : ℕ  -- uint8
  pub price_tick : ℕ  -- uint8

abbrev pub hold_action : Action
hold_action = record { kind = hold; quantity = 0; price_tick = 0 }

-- The test that the two factories share, and the value that they return past it.
out_of_range : ℕ → ℕ → Bool
out_of_range quantity tick = ltb quantity 1 || ltb 8 quantity || ltb tick 1 || ltb 99 tick

unfoldable pub buy_yes_action : ℕ → ℕ → Result Action
unfolding out_of_range
buy_yes_action quantity tick =
    if out_of_range quantity tick
    then fails invalid_argument
    else success (record { kind = buy_yes; quantity = quantity; price_tick = tick })

unfoldable pub sell_yes_action : ℕ → ℕ → Result Action
unfolding out_of_range
sell_yes_action quantity tick =
    if out_of_range quantity tick
    then fails invalid_argument
    else success (record { kind = sell_yes; quantity = quantity; price_tick = tick })

-- What the class keeps of every action: its constructor is private.
abbrev pub HasGoodSize : ActionKind → ℕ → ℕ → Type 0
HasGoodSize hold quantity tick = (quantity ≡ 0) × (tick ≡ 0)
HasGoodSize _ quantity tick = (1 ≤ quantity) × (quantity ≤ 8) × (1 ≤ tick) × (tick ≤ 99)

abbrev pub IsValid : Action → Type 0
IsValid a = HasGoodSize a.kind a.quantity a.price_tick

-- The actions that the factories return are valid.
pub buy_yes_action-IsValid :
    (quantity tick : ℕ) (a : Action) → buy_yes_action quantity tick ≡ success a → IsValid a
unfolding buy_yes_action
buy_yes_action-IsValid quantity tick a h = ground arith

pub sell_yes_action-IsValid :
    (quantity tick : ℕ) (a : Action) → sell_yes_action quantity tick ≡ success a → IsValid a
unfolding sell_yes_action
sell_yes_action-IsValid quantity tick a h = ground arith
