-- ===== src/Market/Orders/Collected.antt =====
-- The book that the first loop of `BatchMarket::clear` builds.
use market_sim.Prelude.{
  ℕ, ◌+◌, ◌*◌, ◌≤◌, ◌≡◌, refl, subst, inl, inr, false, List, [], ◌∷◌, ◌++◌, some, arith, get_elem?,
  Option-cases, Bool-cases, ◌==◌, ltb, if◌then◌else◌,
}
use market_sim.Prelude.Int.{pos, ltb_ℤ, ◌≤ℤ◌}
use market_sim.Prelude.Sort.{All, All-append, weigh, weigh-append}
use market_sim.Core.Status.{success, >>=-eq-success, success-injective}
use market_sim.Grammar.Action.{ActionKind, hold, buy_yes, sell_yes, IsValid, HasGoodSize}
use market_sim.Market.{Account, AgentAction, cash_units_per_tick}
use market_sim.Market.Orders.{
  Order, Book, empty_book, contains, lower_bound, order_of, limit_notional, place, collect_one,
  collect,
}

-- What the account of an order must hold.
abbrev pub IsFunded : ActionKind → Order → Account → Type 0
IsFunded hold o a = ⊥
IsFunded buy_yes o a = pos (o.quantity * o.limit * cash_units_per_tick) ≤ℤ a.cash
IsFunded sell_yes o a = o.quantity ≤ a.yes_shares

-- An order of one side, for an account that has the means for it.
pub record IsPlaced (accounts : List Account) (side : ActionKind) (o : Order) : Type 0 where
  pub account : Account
  pub indexed : get_elem? accounts o.account_index ≡ some account
  pub owned : account.id ≡ o.agent
  pub one_way : o.side ≡ side
  pub funded : IsFunded side o account
  pub unfilled : o.fill ≡ 0
  pub least : 1 ≤ o.quantity
  pub most : o.quantity ≤ 8

-- How often an agent has an order.
abbrev pub is_of : ℕ → Order → ℕ
is_of agent o = if o.agent == agent then 1 else 0

abbrev pub orders_of : ℕ → List Order → ℕ
orders_of agent os = weigh (is_of agent) os

pub record IsCollected (accounts : List Account) (b : Book) : Type 0 where
  pub buys_placed : All (IsPlaced accounts buy_yes) b.buys
  pub sells_placed : All (IsPlaced accounts sell_yes) b.sells
  pub once :
      (agent : ℕ)
      → orders_of agent b.buys + orders_of agent b.sells
        ≤ (if contains agent b.submitted then 1 else 0)

-- Every agent has at most one order.
abbrev pub OneOrderEach : List Order → Type 0
OneOrderEach os = (agent : ℕ) → orders_of agent os ≤ 1

pub empty_book-IsCollected : (accounts : List Account) → IsCollected accounts empty_book
unfolding weigh
empty_book-IsCollected accounts = record {
  buys_placed = tt;
  sells_placed = tt;
  once = λ agent. omega arith;
}

-- The submitted agents grow by one that was not among them.
once-submitted :
    (agents : ℕ → ℕ) (xs : List ℕ) (x : ℕ)
    → ((a : ℕ) → agents a ≤ (if contains a xs then 1 else 0))
    → (a : ℕ) → agents a ≤ (if contains a (x ∷ xs) then 1 else 0)
once-submitted agents xs x h a = ground (arith, h a)

orders_of-append_one :
    (a : ℕ) (os : List Order) (o : Order) → orders_of a (os ++ o ∷ []) ≡ orders_of a os + is_of a o
unfolding weigh
orders_of-append_one a os o = omega (arith, weigh-append (is_of a) os (o ∷ []))

place-IsCollected :
    (accounts : List Account) (kind : ActionKind) (index : ℕ) (account : Account) (b b' : Book)
    (s : AgentAction)
    → s.action.kind ≡ kind
    → IsValid s.action
    → get_elem? accounts index ≡ some account
    → account.id ≡ s.agent
    → contains s.agent b.submitted ≡ false
    → IsCollected accounts b
    → place kind index account (record b { submitted = s.agent ∷ b.submitted }) s ≡ success b'
    → IsCollected accounts b'
unfolding place
place-IsCollected accounts hold index account b b' s k v at id new c h =
    subst (IsCollected accounts) (success-injective h) (record {
      buys_placed = c.buys_placed;
      sells_placed = c.sells_placed;
      once = λ a. ground (arith, c.once a);
    })
place-IsCollected accounts buy_yes index account b b' s k v at id new c h =
    let size = subst (λ q. HasGoodSize q s.action.quantity s.action.price_tick) k v in
    elim (Bool-cases (ltb_ℤ account.cash (limit_notional s.action))) [
      | inl poor ↦ absurd (ground arith)
      | inr rich ↦ subst (IsCollected accounts) (success-injective (rw rich at h)) (record {
        buys_placed =
            All-append (IsPlaced accounts buy_yes) b.buys (order_of index s ∷ []) c.buys_placed (
              record {
                account = account;
                indexed = at;
                owned = id;
                one_way = k;
                funded = ground arith;
                unfilled = refl;
                least = size.0;
                most = size.1;
              },
              tt,
            );
        sells_placed = c.sells_placed;
        once = λ a. ground (arith, c.once a, orders_of-append_one a b.buys (order_of index s));
      })
    ]
place-IsCollected accounts sell_yes index account b b' s k v at id new c h =
    let size = subst (λ q. HasGoodSize q s.action.quantity s.action.price_tick) k v in
    elim (Bool-cases (ltb account.yes_shares s.action.quantity)) [
      | inl poor ↦ absurd (ground arith)
      | inr rich ↦ subst (IsCollected accounts) (success-injective (rw rich at h)) (record {
        buys_placed = c.buys_placed;
        sells_placed =
            All-append (IsPlaced accounts sell_yes) b.sells (order_of index s ∷ []) c.sells_placed (
              record {
                account = account;
                indexed = at;
                owned = id;
                one_way = k;
                funded = ground arith;
                unfilled = refl;
                least = size.0;
                most = size.1;
              },
              tt,
            );
        once = λ a. ground (arith, c.once a, orders_of-append_one a b.sells (order_of index s));
      })
    ]

collect_one-IsCollected :
    (accounts : List Account) (b b' : Book) (s : AgentAction)
    → IsValid s.action
    → IsCollected accounts b
    → collect_one accounts b s ≡ success b'
    → IsCollected accounts b'
unfolding collect_one
collect_one-IsCollected accounts b b' s v c h =
    elim (Option-cases (get_elem? accounts (lower_bound s.agent accounts))) [
      | inl missing ↦ absurd (ground arith)
      | inr (account, at) ↦
          place-IsCollected accounts s.action.kind (lower_bound s.agent accounts) account b b' s
            refl v at (ground arith) (ground arith) c (ground arith)
    ]

-- Collecting valid actions into a book keeps what holds of the empty one: each order belongs to the
-- account that it indexes, which can pay for it or has the shares, and no agent has two orders.
pub collect-IsCollected :
    (accounts : List Account) (b b' : Book) (ss : List AgentAction)
    → All (λ s. IsValid s.action) ss
    → IsCollected accounts b
    → collect accounts b ss ≡ success b'
    → IsCollected accounts b'
unfolding collect
collect-IsCollected accounts b b' [] v c h = subst (IsCollected accounts) (success-injective h) c
collect-IsCollected accounts b b' (s ∷ ss) v c h =
    let (b1, e, h') = >>=-eq-success (collect_one accounts b s) (λ x. collect accounts x ss) h in
    collect-IsCollected accounts b1 b' ss v.1 (collect_one-IsCollected accounts b b1 s v.0 c e) h'
