-- ===== src/Market/Settlement.antt =====
-- src/market/batch_market.cpp: `allocate` and `apply`, which share the matched quantity out and book
-- it on the accounts.
pub mod Fills
pub mod Conservation
pub mod Solvency
use market_sim.Prelude.{
  ℕ, zero, suc, ◌+◌, ◌-◌, ◌*◌, ◌%◌, Bool, ◌||◌, ◌&&◌, not, List, [], ◌∷◌, ◌++◌, Option, none, some,
  ltb, leb, ◌==◌, if◌then◌else◌, min, get_elem?, set,
}
use market_sim.Prelude.Int.{ℤ, pos, negsuc, ltb_ℤ, ◌+ℤ◌, ◌-ℤ◌}
use market_sim.Core.CheckedMath.{u32_max}
use market_sim.Grammar.Action.{ActionKind, hold, buy_yes, sell_yes}
use market_sim.Market.{Account, Fill, cash_units_per_tick}
use market_sim.Market.Orders.{Order}

-- The body of `allocate`'s loop: the order with its fill, and what remains.
fill_order : (Order → Bool) → ℕ → Order → Order × ℕ
fill_order eligible remaining o =
    let fill = min o.quantity remaining % 256 in
    if not (eligible o) || remaining == 0
    then (o, remaining)
    else (record o { fill = fill }, remaining - fill)

-- The orders with their fills, and what remains at the end.
unfoldable pub allocate : (Order → Bool) → ℕ → List Order → List Order × ℕ
unfolding fill_order
allocate eligible remaining [] = ([], remaining)
allocate eligible remaining (o ∷ os) =
    let (o', remaining') = fill_order eligible remaining o in
    let (os', rest) = allocate eligible remaining' os in (o' ∷ os', rest)

abbrev pub cash_max : ℤ
cash_max = pos 9223372036854775807

abbrev pub cash_min : ℤ
cash_min = negsuc 9223372036854775807

unfoldable pub checked_add_cash : ℤ → ℤ → Option ℤ
checked_add_cash value delta =
    if (ltb_ℤ (pos 0) delta && ltb_ℤ (cash_max -ℤ delta) value)
      || (ltb_ℤ delta (pos 0) && ltb_ℤ value (cash_min -ℤ delta))
    then none
    else some (value +ℤ delta)

pub record Settlement : Type 0 where
  pub updated : List Account
  pub fills : List Fill

abbrev pub notional : ℕ → Order → ℕ
notional tick o = o.fill * tick * cash_units_per_tick

-- The account after a fill, or the failure of `apply`.
pub book_fill : ActionKind → ℕ → Order → Account → Option Account
book_fill buy_yes tick o a = elim (checked_add_cash a.cash (pos 0 -ℤ pos (notional tick o))) [
  | none ↦ none
  | some cash ↦
      if ltb (u32_max - o.fill) a.yes_shares
      then none
      else some (record a { cash = cash; yes_shares = a.yes_shares + o.fill })
]
book_fill _ tick o a = elim (checked_add_cash a.cash (pos (notional tick o))) [
  | none ↦ none
  | some cash ↦
      if ltb a.yes_shares o.fill
      then none
      else some (record a { cash = cash; yes_shares = a.yes_shares - o.fill })
]

-- `apply`. Its index comes from `lower_bound`; one out of range would be undefined behaviour.
unfoldable pub apply_order : ℕ → Settlement → Order → Option Settlement
unfolding book_fill
apply_order tick s o = if o.fill == 0 then some s else elim (get_elem? s.updated o.account_index) [
  | none ↦ none
  | some a ↦ elim (book_fill o.side tick o a) [
    | none ↦ none
    | some a' ↦ some (record {
      updated = set s.updated o.account_index a';
      fills = s.fills ++ record { agent = o.agent; side = o.side; quantity = o.fill } ∷ [];
    })
  ]
]

unfoldable pub apply_all : ℕ → Settlement → List Order → Option Settlement
unfolding apply_order
apply_all tick s [] = some s
apply_all tick s (o ∷ os) = elim (apply_order tick s o) [
  | none ↦ none
  | some s' ↦ apply_all tick s' os
]
