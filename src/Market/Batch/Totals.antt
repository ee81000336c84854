-- ===== src/Market/Batch/Totals.antt =====
-- Cash and shares over a call of `clear`: what one agent pays another receives.
use market_sim.Prelude.{◌*◌, ◌≡◌, refl, ap, sym, ◌∙◌, Bool, List, arith}
use market_sim.Prelude.Int.{parts, int_laws}
use market_sim.Prelude.Sort.{All, All-map, All-sort_by}
use market_sim.Grammar.Action.{buy_yes, sell_yes, IsValid}
use market_sim.Market.{
  Account, AgentAction, BatchMarket, BatchResult, ClearingCandidate, cash_units_per_tick,
}
use market_sim.Market.Orders.{
  Book, empty_book, buys_before, sells_before, buy_eligible, sell_eligible,
}
use market_sim.Market.Orders.Collected.{
  IsPlaced, IsCollected, collect-IsCollected, empty_book-IsCollected,
}
use market_sim.Market.Settlement.Fills.{
  IsOpen, filled, SameOrders, All-SameOrders, allocate_total, allocate-SameOrders,
}
use market_sim.Market.Settlement.Conservation.{
  total_cash, total_shares, paid, paid-filled, buys-total, sells-total,
}
use market_sim.Market.Batch.{clear}
use market_sim.Market.Batch.Trade.{
  Settled, quiet, trade, clear_cases, opening, queued_buys, queued_sells, share_buys, share_sells,
}

module _ {accounts : List Account} {book : Book} (c : IsCollected accounts book)
    (best : ClearingCandidate) where
  pub queued_buys-IsPlaced : All (IsPlaced accounts buy_yes) (queued_buys book)
  queued_buys-IsPlaced = All-sort_by (IsPlaced accounts buy_yes) buys_before book.buys c.buys_placed

  pub queued_sells-IsPlaced : All (IsPlaced accounts sell_yes) (queued_sells book)
  queued_sells-IsPlaced =
      All-sort_by (IsPlaced accounts sell_yes) sells_before book.sells c.sells_placed

  pub queued_buys-IsOpen : All IsOpen (queued_buys book)
  queued_buys-IsOpen =
      All-map (queued_buys book) (λ o p. (p.unfilled, omega (arith, p.most))) queued_buys-IsPlaced

  pub queued_sells-IsOpen : All IsOpen (queued_sells book)
  queued_sells-IsOpen =
      All-map (queued_sells book) (λ o p. (p.unfilled, omega (arith, p.most))) queued_sells-IsPlaced

  pub share_buys-SameOrders : SameOrders (queued_buys book) (share_buys book best).0
  share_buys-SameOrders =
      allocate-SameOrders (buy_eligible best.tick) (λ o f. refl) best.matched_quantity
        (queued_buys book) queued_buys-IsOpen

  pub share_sells-SameOrders : SameOrders (queued_sells book) (share_sells book best).0
  share_sells-SameOrders =
      allocate-SameOrders (sell_eligible best.tick) (λ o f. refl) best.matched_quantity
        (queued_sells book) queued_sells-IsOpen

  pub share_buys-side : All (λ o. o.side ≡ buy_yes) (share_buys book best).0
  share_buys-side =
      All-SameOrders (λ o. o.side ≡ buy_yes) _ _ (λ o f p. p) share_buys-SameOrders
        (All-map (queued_buys book) (λ o p. p.one_way) queued_buys-IsPlaced)

  pub share_sells-side : All (λ o. o.side ≡ sell_yes) (share_sells book best).0
  share_sells-side =
      All-SameOrders (λ o. o.side ≡ sell_yes) _ _ (λ o f p. p) share_sells-SameOrders
        (All-map (queued_sells book) (λ o p. p.one_way) queued_sells-IsPlaced)

-- The two sides of a trade fill the matched quantity each.
pub Settled-filled :
    {m m' : BatchMarket} {book : Book} {best : ClearingCandidate} {r : BatchResult}
    → IsCollected m.accounts book
    → Settled m book best m' r
    → (filled (share_buys book best).0 ≡ best.matched_quantity)
      × (filled (share_sells book best).0 ≡ best.matched_quantity)
Settled-filled {book} {best} c s =
    let buys =
      allocate_total (buy_eligible best.tick) (λ o f. refl) best.matched_quantity (queued_buys book)
        (queued_buys-IsOpen c best) in
    let sells =
      allocate_total (sell_eligible best.tick) (λ o f. refl) best.matched_quantity
        (queued_sells book) (queued_sells-IsOpen c best) in
    (omega (arith, s.all_bought), omega (arith, s.all_sold))

abbrev pub SameTotals : BatchMarket → BatchMarket → Type 0
SameTotals m m' =
    (total_cash m'.accounts ≡ total_cash m.accounts)
    × (total_shares m'.accounts ≡ total_shares m.accounts)

Settled-SameTotals :
    {m m' : BatchMarket} {book : Book} {best : ClearingCandidate} {r : BatchResult}
    → IsCollected m.accounts book
    → Settled m book best m' r
    → SameTotals m m'
Settled-SameTotals {m} {m'} {book} {best} c s =
    let buys = (share_buys book best).0 in
    let sells = (share_sells book best).0 in
    let (bought, sold) = Settled-filled c s in
    let (cash, shares) =
      buys-total best.tick (opening m) buys s.after_buys (share_buys-side c best) s.bought in
    let (cash', shares') =
      sells-total best.tick s.after_buys sells s.after_sells (share_sells-side c best) s.sold in
    let even : paid best.tick buys ≡ paid best.tick sells =
      paid-filled best.tick buys
      ∙ ap (λ f. f * best.tick * cash_units_per_tick) (bought ∙ sym sold)
      ∙ sym (paid-filled best.tick sells) in
    rw s.accounts (omega (int_laws, parts cash, parts cash', even), omega arith)

-- Whatever a batch of valid actions does, and whether or not the call fails, the accounts together
-- keep their cash and their shares.
pub clear-SameTotals :
    (exhausted : Bool) (m : BatchMarket) (actions : List AgentAction)
    → All (λ s. IsValid s.action) actions
    → SameTotals m (clear exhausted m actions).0
clear-SameTotals exhausted m actions v =
    clear_cases (SameTotals m) exhausted m actions (refl, refl)
      λ m' r c. elim c.finished [
        | quiet _ same _ ↦ rw same (refl, refl)
        | trade _ _ s ↦
            Settled-SameTotals
              (collect-IsCollected m.accounts empty_book c.book actions v
                (empty_book-IsCollected m.accounts) c.collected)
              s
      ]
