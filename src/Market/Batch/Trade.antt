-- ===== src/Market/Batch/Trade.antt =====
-- How a call of `clear` can end: `clear_batch` taken apart along its steps.
use market_sim.Prelude.{
  ℕ, ◌≤◌, ◌<◌, ◌≡◌, refl, ap, sym, inl, inr, Bool, true, false, List, [], Option, none, some, arith,
  Bool-cases, ◌==◌, ltb, ◌||◌, not,
}
use market_sim.Prelude.Sort.{sort_by}
use market_sim.Core.Status.{
  Result, success, failure, >>=-eq-success, success-injective, arithmetic_overflow,
}
use market_sim.Core.CheckedMath.{u32_max}
use market_sim.Market.{AgentAction, BatchMarket, BatchResult, ClearingCandidate}
use market_sim.Market.Orders.{
  Order, Book, empty_book, collect, buys_before, sells_before, buy_eligible, sell_eligible,
}
use market_sim.Market.Clearing.{search_ticks, no_incumbent}
use market_sim.Market.Settlement.{Settlement, allocate, apply_all}
use market_sim.Market.Batch.{clear, clear_batch, settle, finish, or_fail, no_trade, fill_before}

-- The two sides in the order of priority, and with their fills.
abbrev pub queued_buys : Book → List Order
queued_buys book = sort_by buys_before book.buys

abbrev pub queued_sells : Book → List Order
queued_sells book = sort_by sells_before book.sells

abbrev pub share_buys : Book → ClearingCandidate → List Order × ℕ
share_buys book best = allocate (buy_eligible best.tick) best.matched_quantity (queued_buys book)

abbrev pub share_sells : Book → ClearingCandidate → List Order × ℕ
share_sells book best = allocate (sell_eligible best.tick) best.matched_quantity (queued_sells book)

abbrev pub opening : BatchMarket → Settlement
opening m = record { updated = m.accounts; fills = [] }

-- The second half of the call, when it succeeds.
pub record Settled (m : BatchMarket) (book : Book) (best : ClearingCandidate) (m' : BatchMarket)
    (r : BatchResult) : Type 0 where
  pub all_bought : (share_buys book best).1 ≡ 0
  pub all_sold : (share_sells book best).1 ≡ 0
  pub after_buys : Settlement
  pub after_sells : Settlement
  pub bought : apply_all best.tick (opening m) (share_buys book best).0 ≡ some after_buys
  pub sold : apply_all best.tick after_buys (share_sells book best).0 ≡ some after_sells
  pub accounts : m'.accounts ≡ after_sells.updated
  pub reference : m'.last_traded_tick ≡ best.tick
  pub result : r ≡ record {
    traded = true;
    clearing_tick = best.tick;
    matched_quantity = best.matched_quantity;
    fills = sort_by fill_before after_sells.fills;
  }

or_fail-eq-success {ℓ} :
    {A : Type ℓ} (o : Option A) (a : A) → or_fail o arithmetic_overflow ≡ success a → o ≡ some a
or_fail-eq-success none a h = cc
or_fail-eq-success (some b) a h = cc

settle-Settled :
    (m : BatchMarket) (book : Book) (best : ClearingCandidate) (m' : BatchMarket) (r : BatchResult)
    → settle m book best ≡ success (m', r)
    → Settled m book best m' r
unfolding settle
settle-Settled m book best m' r h =
    elim (Bool-cases
      (not ((share_buys book best).1 == 0) || not ((share_sells book best).1 == 0))) [
        | inl short ↦ cc (rw short at h)
        | inr enough ↦
            let (s, e, h') = >>=-eq-success (or_fail _ arithmetic_overflow) _ (rw enough at h) in
            let (s', e', h'') = >>=-eq-success (or_fail _ arithmetic_overflow) _ h' in
            let done = success-injective h'' in
            record {
              all_bought = ground arith;
              all_sold = ground arith;
              after_buys = s;
              after_sells = s';
              bought = or_fail-eq-success _ s e;
              sold = or_fail-eq-success _ s' e';
              accounts = sym (ap (λ p. p.0.accounts) done);
              reference = sym (ap (λ p. p.0.last_traded_tick) done);
              result = sym (ap (λ p. p.1) done);
            }
      ]

-- A call that clears the batch: nothing can be matched, or a trade is made.
pub data Finished (m : BatchMarket) (book : Book) (best : ClearingCandidate) (m' : BatchMarket)
    (r : BatchResult) : Type 0 where
  quiet : best.matched_quantity ≡ 0 → m' ≡ m → r ≡ no_trade → Finished m book best m' r
  trade :
      0 < best.matched_quantity
      → best.matched_quantity ≤ u32_max
      → Settled m book best m' r
      → Finished m book best m' r

finish-Finished :
    (m : BatchMarket) (book : Book) (best : ClearingCandidate) (m' : BatchMarket) (r : BatchResult)
    → finish m book best ≡ success (m', r)
    → Finished m book best m' r
unfolding finish
finish-Finished m book best m' r h = elim (Bool-cases (best.matched_quantity == 0)) [
  | inl e ↦
      let done = success-injective (rw e at h) in
      quiet (ground arith) (sym (ap (λ p. p.0) done)) (sym (ap (λ p. p.1) done))
  | inr e ↦ elim (Bool-cases (ltb u32_max best.matched_quantity)) [
    | inl big ↦ cc (rw (e, big) at h)
    | inr small ↦
        trade (ground arith) (ground arith) (settle-Settled m book best m' r (rw (e, small) at h))
  ]
]

pub record Cleared (m : BatchMarket) (actions : List AgentAction) (m' : BatchMarket)
    (r : BatchResult) : Type 0 where
  pub book : Book
  pub best : ClearingCandidate
  pub collected : collect m.accounts empty_book actions ≡ success book
  pub searched :
      search_ticks book.buys book.sells m.last_traded_tick 99 1 no_incumbent ≡ success best
  pub finished : Finished m book best m' r

pub clear_batch-Cleared :
    (m : BatchMarket) (actions : List AgentAction) (m' : BatchMarket) (r : BatchResult)
    → clear_batch m actions ≡ success (m', r)
    → Cleared m actions m' r
unfolding clear_batch
clear_batch-Cleared m actions m' r h =
    let (book, c, h') = >>=-eq-success (collect m.accounts empty_book actions) _ h in
    let (best, b, h'') =
      >>=-eq-success (search_ticks book.buys book.sells m.last_traded_tick 99 1 no_incumbent)
        (λ best. finish m book best) h' in
    record {
      book = book;
      best = best;
      collected = c;
      searched = b;
      finished = finish-Finished m book best m' r h'';
    }

-- A property of the market that holds before a call and after one that clears holds after any call.
pub clear_cases {ℓ} :
    (P : BatchMarket → Type ℓ) (exhausted : Bool) (m : BatchMarket) (actions : List AgentAction)
    → P m
    → ((m' : BatchMarket) (r : BatchResult) → Cleared m actions m' r → P m')
    → P (clear exhausted m actions).0
unfolding clear
clear_cases P true m actions same cleared = same
clear_cases P false m actions same cleared = go (clear_batch m actions) refl
  where
    go :
        (c : Result (BatchMarket × BatchResult))
        → clear_batch m actions ≡ c
        → P (clear false m actions).0
    go (success (m', r)) e = rw (e, clear) (cleared m' r (clear_batch-Cleared m actions m' r e))
    go (failure s) e = rw (e, clear) same
