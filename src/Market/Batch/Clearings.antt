-- ===== src/Market/Batch/Clearings.antt =====
-- What a call of `clear` returns: the best tick of the batch, and the errors that it can report.
use market_sim.Prelude.{
  ℕ, zero, suc, ◌+◌, ◌<◌, ◌≡◌, ◌⊎◌, refl, ap, ap₂, sym, subst, inl, inr, Bool, true, false, List,
  [], ◌∷◌, arith, Option, none, some, ltb, ◌==◌, ◌||◌, not, if◌then◌else◌, get_elem?,
}
use market_sim.Prelude.Sort.{All, weigh-sort_by}
use market_sim.Core.Status.{
  Result, Status, success, failure, fails, ◌>>=◌, status_failure, invalid_argument,
  insufficient_resources, arithmetic_overflow, allocation_failed,
}
use market_sim.Core.CheckedMath.{u32_max}
use market_sim.Grammar.Action.{ActionKind, hold, buy_yes, sell_yes, IsValid}
use market_sim.Market.{Account, AgentAction, BatchMarket, BatchResult, ClearingCandidate}
use market_sim.Market.Orders.{
  Order, Book, empty_book, collect, collect_one, place, buys_before, sells_before, buy_eligible,
  sell_eligible, contains, lower_bound,
}
use market_sim.Market.Orders.Collected.{IsCollected, collect-IsCollected, empty_book-IsCollected}
use market_sim.Market.Clearing.{search_ticks, try_tick, side_total, no_incumbent}
use market_sim.Market.Clearing.Best.{IsBest, candidate, search_ticks-IsBest', eligible_quantity}
use market_sim.Market.Settlement.{apply_all}
use market_sim.Market.Settlement.Fills.{allocate_total}
use market_sim.Market.Batch.{clear, clear_batch, finish, settle, post, no_trade, or_fail}
use market_sim.Market.Batch.Totals.{queued_buys-IsOpen, queued_sells-IsOpen}
use market_sim.Market.Settlement.Solvency.{ids}
use market_sim.Market.Batch.Accounts.{Rises}
use market_sim.Market.Batch.Trades.{Trades, Settled-Trades}
use market_sim.Market.Batch.Trade.{
  quiet, trade, clear_batch-Cleared, queued_buys, queued_sells, share_buys, share_sells, opening,
}

-- A status that a batch can be refused with.
abbrev pub IsRefusal : Status → Type 0
IsRefusal s =
    (s ≡ status_failure invalid_argument)
    ⊎ (s ≡ status_failure insufficient_resources)
    ⊎ (s ≡ status_failure arithmetic_overflow)
    ⊎ (s ≡ status_failure allocation_failed)

-- A result whose failure, if it is one, is one of those.
pub data Refuses {ℓ} {A : Type ℓ} : Result A → Type ℓ where
  fine : (a : A) → Refuses (success a)
  refused : {s : Status} → IsRefusal s → Refuses (failure s)

pub >>=-Refuses {ℓ κ} :
    {A : Type ℓ} {B : Type κ} (m : Result A) (f : A → Result B)
    → Refuses m
    → ((a : A) → m ≡ success a → Refuses (f a))
    → Refuses (m >>= f)
>>=-Refuses (success a) f h k = k a refl
>>=-Refuses (failure s) f (refused r) k = refused r

Refuses-if {ℓ} :
    {A : Type ℓ} (b : Bool) (x y : Result A) → Refuses x → Refuses y → Refuses (if b then x else y)
Refuses-if true x y h k = h
Refuses-if false x y h k = k

place-Refuses :
    (k : ActionKind) (i : ℕ) (a : Account) (b : Book) (s : AgentAction) → Refuses (place k i a b s)
unfolding place
place-Refuses hold i a b s = fine b
place-Refuses buy_yes i a b s = Refuses-if _ _ _ (refused (inr (inl refl))) (fine _)
place-Refuses sell_yes i a b s = Refuses-if _ _ _ (refused (inr (inl refl))) (fine _)

collect_one-Refuses :
    (accounts : List Account) (b : Book) (s : AgentAction) → Refuses (collect_one accounts b s)
unfolding collect_one
collect_one-Refuses accounts b s =
    Refuses-if (contains s.agent b.submitted) _ _ (refused (inl refl))
      (found (get_elem? accounts (lower_bound s.agent accounts)))
  where
    found :
        (o : Option Account)
        → Refuses (elim o as (λ _. Result Book) [
          | none ↦ fails invalid_argument
          | some account ↦
              if not (account.id == s.agent)
              then fails invalid_argument
              else place s.action.kind
                  (lower_bound s.agent accounts)
                  account
                  (record b { submitted = s.agent ∷ b.submitted })
                  s
        ])
    found none = refused (inl refl)
    found (some account) =
        Refuses-if (not (account.id == s.agent)) _ _ (refused (inl refl))
          (place-Refuses s.action.kind (lower_bound s.agent accounts) account _ s)

collect-Refuses :
    (accounts : List Account) (b : Book) (ss : List AgentAction) → Refuses (collect accounts b ss)
unfolding collect
collect-Refuses accounts b [] = fine b
collect-Refuses accounts b (s ∷ ss) =
    >>=-Refuses (collect_one accounts b s) _ (collect_one-Refuses accounts b s)
      λ b' _. collect-Refuses accounts b' ss

side_total-Refuses :
    (eligible : Order → Bool) (total : ℕ) (os : List Order) → Refuses (side_total eligible total os)
unfolding side_total
side_total-Refuses eligible total [] = fine total
side_total-Refuses eligible total (o ∷ os) =
    >>=-Refuses _ _
      (Refuses-if (eligible o) _ _ (Refuses-if _ _ _ (refused (inr (inr (inl refl)))) (fine _))
        (fine _))
      λ total' _. side_total-Refuses eligible total' os

search_ticks-Refuses :
    (buys sells : List Order) (last rounds tick : ℕ) (best : ClearingCandidate)
    → Refuses (search_ticks buys sells last rounds tick best)
unfolding search_ticks
search_ticks-Refuses buys sells last zero tick best = fine best
search_ticks-Refuses buys sells last (suc rounds) tick best =
    >>=-Refuses (try_tick buys sells last tick best) _
      (>>=-Refuses (side_total (buy_eligible tick) 0 buys) _
        (side_total-Refuses (buy_eligible tick) 0 buys)
        λ demand _.
          >>=-Refuses (side_total (sell_eligible tick) 0 sells) _
            (side_total-Refuses (sell_eligible tick) 0 sells) λ supply _. fine _)
      λ best' _. search_ticks-Refuses buys sells last rounds (tick + 1) best'

-- What the best tick matches, both sides can fill: `allocate` never falls short.
share_complete :
    (accounts : List Account) (book : Book) (last : ℕ) (best : ClearingCandidate)
    → IsCollected accounts book
    → IsBest (candidate book.buys book.sells last) best 100
    → ((share_buys book best).1 ≡ 0) × ((share_sells book best).1 ≡ 0)
share_complete accounts book last best c b =
    let tick = best.tick in
    let matched = ap (λ x. x.matched_quantity) b.is_candidate in
    let buys =
      allocate_total (buy_eligible tick) (λ o f. refl) best.matched_quantity (queued_buys book)
        (queued_buys-IsOpen c best) in
    let sells =
      allocate_total (sell_eligible tick) (λ o f. refl) best.matched_quantity (queued_sells book)
        (queued_sells-IsOpen c best) in
    let demand = weigh-sort_by buys_before (eligible_quantity (buy_eligible tick)) book.buys in
    let supply = weigh-sort_by sells_before (eligible_quantity (sell_eligible tick)) book.sells in
    (omega arith, omega arith)

or_fail-Refuses {ℓ} : {A : Type ℓ} (o : Option A) → Refuses (or_fail o arithmetic_overflow)
or_fail-Refuses none = refused (inr (inr (inl refl)))
or_fail-Refuses (some a) = fine a

post-Refuses :
    (m : BatchMarket) (best : ClearingCandidate) (buys sells : List Order)
    → Refuses (post m best buys sells)
unfolding post
post-Refuses m best buys sells =
    >>=-Refuses (or_fail (apply_all best.tick (opening m) buys) arithmetic_overflow) _
      (or_fail-Refuses (apply_all best.tick (opening m) buys))
      λ s _.
        >>=-Refuses (or_fail (apply_all best.tick s sells) arithmetic_overflow) _
          (or_fail-Refuses (apply_all best.tick s sells)) λ s' _. fine _

settle-Refuses :
    (m : BatchMarket) (book : Book) (best : ClearingCandidate)
    → (share_buys book best).1 ≡ 0
    → (share_sells book best).1 ≡ 0
    → Refuses (settle m book best)
unfolding settle
settle-Refuses m book best p q =
    let e : (not ((share_buys book best).1 == 0) || not ((share_sells book best).1 == 0)) ≡ false =
      ground arith in
    rw e (post-Refuses m best (share_buys book best).0 (share_sells book best).0)

finish-Refuses :
    (m : BatchMarket) (book : Book) (best : ClearingCandidate)
    → (share_buys book best).1 ≡ 0
    → (share_sells book best).1 ≡ 0
    → Refuses (finish m book best)
unfolding finish
finish-Refuses m book best p q = Refuses-if (best.matched_quantity == 0) _ _ (fine (m, no_trade)) (
    Refuses-if (ltb u32_max best.matched_quantity) _ _ (refused (inr (inr (inl refl))))
      (settle-Refuses m book best p q))

clear_batch-Refuses :
    (m : BatchMarket) (actions : List AgentAction)
    → All (λ s. IsValid s.action) actions
    → Refuses (clear_batch m actions)
unfolding clear_batch
clear_batch-Refuses m actions v =
    >>=-Refuses (collect m.accounts empty_book actions) _
      (collect-Refuses m.accounts empty_book actions)
      λ book c.
        >>=-Refuses (search_ticks book.buys book.sells m.last_traded_tick 99 1 no_incumbent)
          (λ best. finish m book best)
          (search_ticks-Refuses book.buys book.sells m.last_traded_tick 99 1 no_incumbent)
          λ best b.
            let good =
              collect-IsCollected m.accounts empty_book book actions v
                (empty_book-IsCollected m.accounts) c in
            let (p, q) =
              share_complete m.accounts book m.last_traded_tick best good
                (search_ticks-IsBest' book.buys book.sells m.last_traded_tick 98 best b) in
            finish-Refuses m book best p q

-- The last step of `clear`.
failed_batch :
    (m : BatchMarket) (c : Result (BatchMarket × BatchResult)) {m' : BatchMarket} {s : Status}
    → Refuses c
    → ◌≡◌ {A = BatchMarket × Result BatchResult}
        (elim c [ success (m1, r) ↦ (m1, success r) | failure t ↦ (m, failure t) ])
        (m', failure s)
    → (m' ≡ m) × IsRefusal s
failed_batch m (success (m1, r)) (fine _) h = cc (ap (λ p. p.1) h)
failed_batch m (failure t) {s = s} (refused q) h =
    let e : t ≡ s = cc (ap (λ p. p.1) h) in (sym (ap (λ p. p.0) h), subst IsRefusal e q)

-- A call of `clear` with valid actions that fails leaves the market as it was and reports one of four
-- errors; in particular the match is always shared out whole, so `invalid_format` never comes.
pub clear_failure :
    (exhausted : Bool) (m m' : BatchMarket) (actions : List AgentAction) {s : Status}
    → All (λ a. IsValid a.action) actions
    → clear exhausted m actions ≡ (m', failure s)
    → (m' ≡ m) × IsRefusal s
unfolding clear
clear_failure true m m' actions v h = ground arith
clear_failure false m m' actions v h =
    failed_batch m (clear_batch m actions) (clear_batch-Refuses m actions v) h

cleared_batch :
    (m : BatchMarket) (c : Result (BatchMarket × BatchResult)) {m' : BatchMarket} {r : BatchResult}
    → ◌≡◌ {A = BatchMarket × Result BatchResult}
        (elim c [ success (m1, q) ↦ (m1, success q) | failure t ↦ (m, failure t) ])
        (m', success r)
    → c ≡ success (m', r)
cleared_batch m (success (m1, q)) {r = r} h =
    let e : q ≡ r = cc (ap (λ p. p.1) h) in ap₂ (λ m1 r. success (m1, r)) (ap (λ p. p.0) h) e
cleared_batch m (failure t) h = cc (ap (λ p. p.1) h)

-- A call of `clear` with valid actions that succeeds, in a market whose accounts are sorted by distinct ids,
-- finds the best of the ticks 1 to 99 for the batch's orders, as `better_clearing_candidate` compares them.
-- With nothing to match there it reports no trade and changes nothing. Otherwise it reports a trade at that
-- tick in which the fills of each side are the matched quantity, the tick is the new reference, and every
-- account has paid for what its agent's fills buy, been paid for what they sell, and moved the shares.
pub clear-IsBest :
    (m m' : BatchMarket) (actions : List AgentAction) (r : BatchResult)
    → All (λ s. IsValid s.action) actions
    → Rises (ids m.accounts)
    → clear false m actions ≡ (m', success r)
    → (book : Book) × (best : ClearingCandidate) × (collect m.accounts empty_book actions
        ≡ success book)
      × IsBest (candidate book.buys book.sells m.last_traded_tick) best 100
      × (r.matched_quantity ≡ best.matched_quantity)
      × (((best.matched_quantity ≡ 0) × (r ≡ no_trade) × (m' ≡ m))
          ⊎ ((0 < best.matched_quantity) × Trades m best m' r))
unfolding clear
clear-IsBest m m' actions r v rises h =
    let c = clear_batch-Cleared m actions m' r (cleared_batch m (clear_batch m actions) h) in
    let good =
      collect-IsCollected m.accounts empty_book c.book actions v (empty_book-IsCollected m.accounts)
        c.collected in
    (
      c.book,
      c.best,
      c.collected,
      search_ticks-IsBest' c.book.buys c.book.sells m.last_traded_tick 98 c.best c.searched,
      elim c.finished [
        | quiet none_matched same e ↦ rw (e, none_matched) refl
        | trade _ _ s ↦ rw s.result refl
      ],
      elim c.finished [
        | quiet none_matched same e ↦ inl (none_matched, e, same)
        | trade some_matched _ s ↦ inr (some_matched, Settled-Trades good rises s)
      ],
    )
