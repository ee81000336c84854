-- ===== src/Market/Batch/Trades.antt =====
-- The trade that a call of `clear` makes, as it reports it and as its accounts show it.
use market_sim.Prelude.{
  ℕ, ◌+◌, ◌≡◌, refl, ap, sym, ◌∙◌, true, List, [], ◌∷◌, ◌++◌, arith, some, some-injective,
}
use market_sim.Prelude.Int.{int_laws}
use market_sim.Prelude.Sort.{sort_by, All, All-append, weigh, weigh-sort_by}
use market_sim.Grammar.Action.{buy_yes, sell_yes}
use market_sim.Market.{Account, Fill, BatchMarket, BatchResult, ClearingCandidate}
use market_sim.Market.Orders.{Order, Book}
use market_sim.Market.Orders.Collected.{IsCollected}
use market_sim.Market.Settlement.{Settlement, apply_all}
use market_sim.Market.Settlement.Fills.{filled}
use market_sim.Market.Settlement.Conservation.{skipped, booked, apply_all-cons}
use market_sim.Market.Settlement.Solvency.{IsCovered, ids, apply_all-append}
use market_sim.Market.Batch.{fill_before}
use market_sim.Market.Batch.Totals.{share_buys-side, share_sells-side, Settled-filled}
use market_sim.Market.Batch.Accounts.{Rises, share_buys-IsCovered, share_sells-IsCovered}
use market_sim.Market.Batch.Trade.{Settled, opening, share_buys, share_sells}
use market_sim.Market.Batch.Effects.{
  all_bought, all_sold, AllBooked, apply_all-AllBooked, buy_of, sale_of, bought_by, sold_by,
  fill_of, last_fill,
}

-- What a side's fills add to the report.
buys-reported :
    (tick : ℕ) (s : Settlement) (os : List Order) (t : Settlement)
    → All (λ o. o.side ≡ buy_yes) os
    → apply_all tick s os ≡ some t
    → (all_bought t.fills ≡ all_bought s.fills + filled os) × (all_sold t.fills ≡ all_sold s.fills)
unfolding apply_all weigh
buys-reported tick s [] t sides h =
    let same : t ≡ s = sym (some-injective _ _ h) in rw same (omega arith, refl)
buys-reported tick s (o ∷ os) t sides h =
    let (s', applied, rest) = apply_all-cons tick s o os t h in
    let (b, d) = buys-reported tick s' os t sides.1 rest in
    elim applied [
      | skipped z e ↦
          let x = ap (λ (u : Settlement). all_bought u.fills) e in
          let y = ap (λ (u : Settlement). all_sold u.fills) e in (omega (arith, b, x, z), d ∙ y)
      | booked a a' p at bf up fs ↦
          let one : buy_of (fill_of o) ≡ o.fill = rw (sides.0) refl in
          let none_sold : sale_of (fill_of o) ≡ 0 = rw (sides.0) refl in
          let x = ap all_bought fs ∙ last_fill buy_of s.fills (fill_of o) in
          let y = ap all_sold fs ∙ last_fill sale_of s.fills (fill_of o) in
          (omega (arith, b, x, one), omega (arith, d, y, none_sold))
    ]

sells-reported :
    (tick : ℕ) (s : Settlement) (os : List Order) (t : Settlement)
    → All (λ o. o.side ≡ sell_yes) os
    → apply_all tick s os ≡ some t
    → (all_sold t.fills ≡ all_sold s.fills + filled os) × (all_bought t.fills ≡ all_bought s.fills)
unfolding apply_all weigh
sells-reported tick s [] t sides h =
    let same : t ≡ s = sym (some-injective _ _ h) in rw same (omega arith, refl)
sells-reported tick s (o ∷ os) t sides h =
    let (s', applied, rest) = apply_all-cons tick s o os t h in
    let (b, d) = sells-reported tick s' os t sides.1 rest in
    elim applied [
      | skipped z e ↦
          let x = ap (λ (u : Settlement). all_sold u.fills) e in
          let y = ap (λ (u : Settlement). all_bought u.fills) e in (omega (arith, b, x, z), d ∙ y)
      | booked a a' p at bf up fs ↦
          let one : sale_of (fill_of o) ≡ o.fill = rw (sides.0) refl in
          let none_bought : buy_of (fill_of o) ≡ 0 = rw (sides.0) refl in
          let x = ap all_sold fs ∙ last_fill sale_of s.fills (fill_of o) in
          let y = ap all_bought fs ∙ last_fill buy_of s.fills (fill_of o) in
          (omega (arith, b, x, one), omega (arith, d, y, none_bought))
    ]

-- A trade at the best tick: each side's fills are the matched quantity, and every account has paid, been
-- paid and moved its shares as the fills say.
pub record Trades (m : BatchMarket) (best : ClearingCandidate) (m' : BatchMarket) (r : BatchResult)
    : Type 0 where
  pub reported : r.traded ≡ true
  pub at_best : r.clearing_tick ≡ best.tick
  pub reference : m'.last_traded_tick ≡ best.tick
  pub bought_whole : all_bought r.fills ≡ best.matched_quantity
  pub sold_whole : all_sold r.fills ≡ best.matched_quantity
  pub settled : AllBooked best.tick r.fills m.accounts m'.accounts

AllBooked-start : (tick : ℕ) (accounts : List Account) → AllBooked tick [] accounts accounts
unfolding weigh
AllBooked-start tick accounts i a found = (a, found, (refl, omega int_laws, omega arith))

-- The same sums over the report, which is sorted by agent.
AllBooked-sorted :
    (tick : ℕ) (fs : List Fill) (accounts accounts' : List Account)
    → AllBooked tick fs accounts accounts'
    → AllBooked tick (sort_by fill_before fs) accounts accounts'
AllBooked-sorted tick fs accounts accounts' h i a found =
    rw (weigh-sort_by fill_before (bought_by a.id) fs, weigh-sort_by fill_before (sold_by a.id) fs)
      (h i a found)

pub Settled-Trades :
    {m m' : BatchMarket} {book : Book} {best : ClearingCandidate} {r : BatchResult}
    → IsCollected m.accounts book
    → Rises (ids m.accounts)
    → Settled m book best m' r
    → Trades m best m' r
unfolding weigh
Settled-Trades {m} {m'} {book} {best} {r} c rises s =
    let buys = (share_buys book best).0 in
    let sells = (share_sells book best).0 in
    let (bought_all, sold_all) = Settled-filled c s in
    let (b, d) =
      buys-reported best.tick (opening m) buys s.after_buys (share_buys-side c best) s.bought in
    let (d', b') =
      sells-reported best.tick s.after_buys sells s.after_sells (share_sells-side c best) s.sold in
    let fs = s.after_sells.fills in
    let listed : r.fills ≡ sort_by fill_before fs = ap (λ (q : BatchResult). q.fills) s.result in
    let followed =
      apply_all-AllBooked best.tick m.accounts (opening m) (buys ++ sells) s.after_sells rises
        (All-append (IsCovered m.accounts best.tick) buys sells (share_buys-IsCovered c best)
          (share_sells-IsCovered c best))
        (apply_all-append best.tick (opening m) buys sells s.after_buys s.after_sells s.bought
          s.sold)
        (AllBooked-start best.tick m.accounts) in
    record {
      reported = ap (λ (q : BatchResult). q.traded) s.result;
      at_best = ap (λ (q : BatchResult). q.clearing_tick) s.result;
      reference = s.reference;
      bought_whole =
          ap all_bought listed
          ∙ weigh-sort_by fill_before buy_of fs
          ∙ omega (arith, b, b', bought_all);
      sold_whole =
          ap all_sold listed
          ∙ weigh-sort_by fill_before sale_of fs
          ∙ omega (arith, d, d', sold_all);
      settled =
          rw (listed, s.accounts)
            (AllBooked-sorted best.tick fs m.accounts s.after_sells.updated followed);
    }
