-- ===== src/Market/Batch/Accounts.antt =====
-- The invariant of a market, and that `create` establishes it and `clear` keeps it.
use market_sim.Prelude.{
  ℕ, ◌+◌, ◌≤◌, ◌<◌, ◌≡◌, refl, ap, sym, ◌∙◌, subst, Bool, List, [], ◌∷◌, ◌++◌, arith, Option,
  get_elem?,
}
use market_sim.Prelude.Sort.{All, All-map, All-zip, All-append, weigh-append, weigh-sort_by}
use market_sim.Grammar.Action.{sell_yes, IsValid}
use market_sim.Market.{Account, AgentAction, BatchMarket, BatchResult, ClearingCandidate}
use market_sim.Market.Orders.{
  Order, Book, empty_book, buys_before, sells_before, buy_eligible, sell_eligible,
}
use market_sim.Market.Orders.Collected.{
  IsCollected, collect-IsCollected, empty_book-IsCollected, OneOrderEach, is_of, orders_of,
}
use market_sim.Market.Clearing.Best.{search_ticks-IsBest'}
use market_sim.Market.Settlement.Fills.{IsFair, All-SameOrders, weigh-SameOrders, allocate-IsFair}
use market_sim.Market.Settlement.Solvency.{
  IsSolvent, IsBacked, IsCovered, IsPlaced-IsBacked, IsBacked-fill, ids, apply_all-IsSolvent,
  apply_all-append,
}
use market_sim.Market.Batch.{clear}
use market_sim.Market.Batch.Totals.{
  queued_buys-IsPlaced, queued_sells-IsPlaced, queued_buys-IsOpen, queued_sells-IsOpen,
  share_buys-SameOrders, share_sells-SameOrders, share_sells-side,
}
use market_sim.Market.Batch.Trade.{
  Settled, quiet, trade, clear_cases, opening, queued_buys, queued_sells, share_buys, share_sells,
}

-- The ids rise along the accounts.
abbrev pub Rises : List ℕ → Type 0
Rises [] = Unit {0}
Rises (x ∷ []) = Unit {0}
Rises (x ∷ y ∷ rest) = (x < y) × Rises (y ∷ rest)

pub record IsWellFormed (m : BatchMarket) : Type 0 where
  pub solvent : All IsSolvent m.accounts
  pub sorted : Rises (ids m.accounts)
  pub least_tick : 1 ≤ m.last_traded_tick
  pub most_tick : m.last_traded_tick ≤ 99

abbrev IsFairSell : List Account → ℕ → Order → Type 0
IsFairSell accounts tick o = IsBacked accounts o × IsFair (sell_eligible tick) o

module _ {accounts : List Account} {book : Book} (c : IsCollected accounts book)
    (best : ClearingCandidate) where
  pub share_buys-IsCovered : All (IsCovered accounts best.tick) (share_buys book best).0
  share_buys-IsCovered =
      let backed =
        All-SameOrders (IsBacked accounts) _ _ (λ o f b. IsBacked-fill o f b)
          (share_buys-SameOrders c best)
          (All-map _ (λ o p. IsPlaced-IsBacked o p) (queued_buys-IsPlaced c best)) in
      let fair =
        allocate-IsFair (buy_eligible best.tick) (λ o f. refl) best.matched_quantity
          (queued_buys book) (queued_buys-IsOpen c best) in
      All-map (share_buys book best).0
        (λ o p. record {
          backed = p.0;
          within = p.1.0;
          bought_within_limit = λ k h. ground (arith, p.1.1);
        })
        (All-zip (IsBacked accounts) (IsFair (buy_eligible best.tick)) _ backed fair)

  pub share_sells-IsCovered : All (IsCovered accounts best.tick) (share_sells book best).0
  share_sells-IsCovered =
      let backed =
        All-SameOrders (IsBacked accounts) _ _ (λ o f b. IsBacked-fill o f b)
          (share_sells-SameOrders c best)
          (All-map _ (λ o p. IsPlaced-IsBacked o p) (queued_sells-IsPlaced c best)) in
      let fair =
        allocate-IsFair (sell_eligible best.tick) (λ o f. refl) best.matched_quantity
          (queued_sells book) (queued_sells-IsOpen c best) in
      All-map (share_sells book best).0
        (λ o p. record { backed = p.0.0; within = p.0.1.0; bought_within_limit = λ k h. cc (p.1) })
        (All-zip (IsFairSell accounts best.tick) (λ o. o.side ≡ sell_yes) _
          (All-zip (IsBacked accounts) (IsFair (sell_eligible best.tick)) _ backed fair)
          (share_sells-side c best))

  share-OneOrderEach : OneOrderEach ((share_buys book best).0 ++ (share_sells book best).0)
  share-OneOrderEach a =
      let buys = (share_buys book best).0 in
      let sells = (share_sells book best).0 in
      let e = weigh-append (is_of a) buys sells in
      let b =
        weigh-SameOrders (is_of a) (queued_buys book) buys (λ o f. refl)
          (share_buys-SameOrders c best) in
      let b' = weigh-sort_by buys_before (is_of a) book.buys in
      let s =
        weigh-SameOrders (is_of a) (queued_sells book) sells (λ o f. refl)
          (share_sells-SameOrders c best) in
      let s' = weigh-sort_by sells_before (is_of a) book.sells in
      let o : orders_of a book.buys + orders_of a book.sells ≤ 1 = ground (arith, c.once a) in
      omega arith

All-untouched :
    (accounts : List Account) (os : List Order)
    → All
        (λ o.
          ◌≡◌ {A = Option Account}
            (get_elem? accounts o.account_index)
            (get_elem? accounts o.account_index))
        os
All-untouched accounts [] = tt
All-untouched accounts (o ∷ os) = (refl, All-untouched accounts os)

Settled-IsWellFormed :
    {m m' : BatchMarket} {book : Book} {best : ClearingCandidate} {r : BatchResult}
    → IsCollected m.accounts book
    → 1 ≤ best.tick
    → best.tick ≤ 99
    → Settled m book best m' r
    → IsWellFormed m
    → IsWellFormed m'
Settled-IsWellFormed {m} {m'} {book} {best} c low high s v =
    let buys = (share_buys book best).0 in
    let sells = (share_sells book best).0 in
    let (solvent, same) =
      apply_all-IsSolvent best.tick m.accounts (opening m) (buys ++ sells) s.after_sells
        (All-append (IsCovered m.accounts best.tick) buys sells (share_buys-IsCovered c best)
          (share_sells-IsCovered c best))
        (share-OneOrderEach c best) (All-untouched m.accounts (buys ++ sells)) v.solvent
        (apply_all-append best.tick (opening m) buys sells s.after_buys s.after_sells s.bought
          s.sold) in
    record {
      solvent = subst (All IsSolvent) (sym s.accounts) solvent;
      sorted = subst Rises (sym same ∙ ap ids (sym s.accounts)) v.sorted;
      least_tick = rw s.reference low;
      most_tick = rw s.reference high;
    }

-- Any call of `clear` with valid actions keeps a well-formed market well formed: nobody owes cash or shares,
-- nothing has wrapped, the accounts stay sorted by id, and the reference tick stays in range.
pub clear-IsWellFormed :
    (exhausted : Bool) (m : BatchMarket) (actions : List AgentAction)
    → All (λ s. IsValid s.action) actions
    → IsWellFormed m
    → IsWellFormed (clear exhausted m actions).0
clear-IsWellFormed exhausted m actions v w =
    clear_cases IsWellFormed exhausted m actions w λ m' r c. elim c.finished [
      | quiet _ same _ ↦ rw same w
      | trade _ _ s ↦
          let b =
            search_ticks-IsBest' c.book.buys c.book.sells m.last_traded_tick 98 c.best c.searched in
          Settled-IsWellFormed
            (collect-IsCollected m.accounts empty_book c.book actions v
              (empty_book-IsCollected m.accounts) c.collected)
            b.positive (omega (arith, b.below)) s w
    ]
