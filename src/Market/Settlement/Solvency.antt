-- ===== src/Market/Settlement/Solvency.antt =====
-- `apply` keeps every account within its bounds: no debt, no wrap, and the same ids.
use native.Mathlib.Nat.{mul-le-mul_left, mul-le-mul_right}
use market_sim.Prelude.{
  ℕ, zero, suc, ◌*◌, ◌≤◌, ◌<◌, ◌≡◌, ◌≢◌, refl, ap, ap₂, sym, subst₂, ◌∙◌, subst, inl, inr, List, [],
  ◌∷◌, ◌++◌, map, some, some-injective, arith, get_elem?, set, get_elem?-set_ne, Option-cases,
}
use market_sim.Prelude.Int.{pos, ◌≤ℤ◌, parts, int_laws}
use market_sim.Prelude.Sort.{All, weigh}
use market_sim.Core.CheckedMath.{u32_max}
use market_sim.Grammar.Action.{ActionKind, hold, buy_yes, sell_yes}
use market_sim.Market.{Account, cash_units_per_tick}
use market_sim.Market.Orders.{Order}
use market_sim.Market.Orders.Collected.{IsPlaced, IsFunded, OneOrderEach, orders_of}
use market_sim.Market.Settlement.{Settlement, book_fill, apply_order, apply_all, notional, cash_max}
use market_sim.Market.Settlement.Conservation.{
  Applied, skipped, booked, apply_all-cons, book_fill_buy, book_fill_sell,
}

pub record IsSolvent (a : Account) : Type 0 where
  pub no_debt : pos 0 ≤ℤ a.cash
  pub cash_fits : a.cash ≤ℤ cash_max
  pub shares_fit : a.yes_shares ≤ u32_max

-- An order placed on an account that has the means for it.
pub record IsBacked (accounts : List Account) (o : Order) : Type 0 where
  pub account : Account
  pub indexed : get_elem? accounts o.account_index ≡ some account
  pub owned : account.id ≡ o.agent
  pub funded : IsFunded o.side o account
  pub most : o.quantity ≤ 8

-- Such an order with a fill within its quantity and its limit.
pub record IsCovered (accounts : List Account) (tick : ℕ) (o : Order) : Type 0 where
  pub backed : IsBacked accounts o
  pub open backed use *
  pub within : o.fill ≤ o.quantity
  pub bought_within_limit : o.side ≡ buy_yes → 0 < o.fill → tick ≤ o.limit

pub IsPlaced-IsBacked :
    {accounts : List Account} {side : ActionKind} (o : Order)
    → IsPlaced accounts side o
    → IsBacked accounts o
IsPlaced-IsBacked o p = record {
  account = p.account;
  indexed = p.indexed;
  owned = p.owned;
  funded = subst (λ k. IsFunded k o p.account) (sym p.one_way) p.funded;
  most = p.most;
}

-- The means do not depend on the fill.
IsFunded-fill :
    (k : ActionKind) (o : Order) (f : ℕ) (a : Account)
    → IsFunded k o a
    → IsFunded k (record o { fill = f }) a
IsFunded-fill hold o f a h = h
IsFunded-fill buy_yes o f a h = h
IsFunded-fill sell_yes o f a h = h

pub IsBacked-fill :
    {accounts : List Account} (o : Order) (f : ℕ)
    → IsBacked accounts o
    → IsBacked accounts (record o { fill = f })
IsBacked-fill o f b = record {
  account = b.account;
  indexed = b.indexed;
  owned = b.owned;
  funded = IsFunded-fill o.side o f b.account b.funded;
  most = b.most;
}

notional-le :
    (tick : ℕ) (o : Order)
    → o.fill ≤ o.quantity
    → tick ≤ o.limit
    → notional tick o ≤ o.quantity * o.limit * cash_units_per_tick
notional-le tick o h k =
    let p : o.fill * tick ≤ o.quantity * tick = mul-le-mul_right tick h in
    let q : o.quantity * tick ≤ o.quantity * o.limit = mul-le-mul_left o.quantity k in omega arith

-- A fill that `book_fill` accepts leaves a covered account solvent.
buy-IsSolvent :
    (tick : ℕ) (o : Order) (a b : Account)
    → IsSolvent a
    → IsFunded buy_yes o a
    → o.fill ≤ o.quantity
    → o.quantity ≤ 8
    → tick ≤ o.limit
    → book_fill buy_yes tick o a ≡ some b
    → IsSolvent b
buy-IsSolvent tick o a b v f w m l h =
    let (cash, shares, _, room) = book_fill_buy tick o a b h in
    let n = notional-le tick o w l in
    record {
      no_debt = omega (int_laws, parts cash);
      cash_fits = omega (int_laws, parts cash);
      shares_fit = omega arith;
    }

sell-IsSolvent :
    (tick : ℕ) (o : Order) (a b : Account)
    → IsSolvent a
    → book_fill sell_yes tick o a ≡ some b
    → IsSolvent b
sell-IsSolvent tick o a b v h =
    let (cash, shares, _, fits) = book_fill_sell tick o a b h in
    record {
      no_debt = omega (int_laws, parts cash, v.no_debt);
      cash_fits = fits v.cash_fits;
      shares_fit = omega (arith, v.shares_fit);
    }

-- Nobody owes, nothing wraps, and the ids stay in their places.
abbrev pub ids : List Account → List ℕ
ids accounts = map (λ a. a.id) accounts

All-set :
    (xs : List Account) (i : ℕ) (b : Account)
    → All IsSolvent xs
    → IsSolvent b
    → All IsSolvent (set xs i b)
All-set [] i b v w = tt
All-set (x ∷ xs) zero b v w = (w, v.1)
All-set (x ∷ xs) (suc i) b v w = (v.0, All-set xs i b v.1 w)

All-get_elem? :
    (xs : List Account) (i : ℕ) (a : Account)
    → All IsSolvent xs
    → get_elem? xs i ≡ some a
    → IsSolvent a
All-get_elem? [] i a v h = cc
All-get_elem? (x ∷ xs) zero a v h = subst IsSolvent (some-injective _ _ h) v.0
All-get_elem? (x ∷ xs) (suc i) a v h = All-get_elem? xs i a v.1 h

ids-set :
    (xs : List Account) (i : ℕ) (a b : Account)
    → get_elem? xs i ≡ some a
    → b.id ≡ a.id
    → ids (set xs i b) ≡ ids xs
ids-set [] i a b h e = refl
ids-set (x ∷ xs) zero a b h e =
    ap₂ (λ h t. h ∷ t) (e ∙ ap (λ c. c.id) (sym (some-injective _ _ h))) refl
ids-set (x ∷ xs) (suc i) a b h e = ap (λ t. x.id ∷ t) (ids-set xs i a b h e)

-- No later order of the list is of the first one's agent.
orders_of-zero :
    (agent : ℕ) (os : List Order) → orders_of agent os ≡ 0 → All (λ o. o.agent ≢ agent) os
unfolding weigh
orders_of-zero agent [] h = tt
orders_of-zero agent (o ∷ os) h = (λ e. ground arith, orders_of-zero agent os (ground arith))

-- The accounts that the orders ahead index are those at the start of the settlement.
abbrev Untouched : List Account → List Account → List Order → Type 0
Untouched accounts updated os =
    All (λ o. get_elem? updated o.account_index ≡ get_elem? accounts o.account_index) os

-- An order of another agent indexes another account.
Untouched-set :
    (accounts updated : List Account) (tick i : ℕ) (agent : ℕ) (a b : Account) (os : List Order)
    → get_elem? accounts i ≡ some a
    → a.id ≡ agent
    → All (λ o. o.agent ≢ agent) os
    → All (IsCovered accounts tick) os
    → Untouched accounts updated os
    → Untouched accounts (set updated i b) os
Untouched-set accounts updated tick i agent a b [] at id other c u = tt
Untouched-set accounts updated tick i agent a b (o ∷ os) at id other c u =
    let apart : i ≢ o.account_index = λ e.
      let same = some-injective _ _ (sym at ∙ ap (get_elem? accounts) e ∙ c.0.indexed) in
      other.0 (sym c.0.owned ∙ ap (λ x. x.id) (sym same) ∙ id) in
    (
      get_elem?-set_ne updated b apart ∙ u.0,
      Untouched-set accounts updated tick i agent a b os at id other.1 c.1 u.1,
    )

-- One booked order.
booked-IsSolvent :
    (tick : ℕ) (accounts : List Account) (o : Order) (a b : Account) (kind : ActionKind)
    → o.side ≡ kind
    → IsSolvent a
    → (c : IsCovered accounts tick o) → c.account ≡ a
    → 0 < o.fill
    → book_fill o.side tick o a ≡ some b
    → IsSolvent b × (b.id ≡ a.id)
booked-IsSolvent tick accounts o a b hold k v c e p h =
    absurd (subst (λ x. IsFunded x o c.account) k c.funded)
booked-IsSolvent tick accounts o a b buy_yes k v c e p h =
    let h' : book_fill buy_yes tick o a ≡ some b = subst (λ x. book_fill x tick o a ≡ some b) k h in
    let f : IsFunded buy_yes o a = subst₂ (λ x y. IsFunded x o y) k e c.funded in
    (
      buy-IsSolvent tick o a b v f c.within c.most (c.bought_within_limit k p) h',
      (book_fill_buy tick o a b h').2,
    )
booked-IsSolvent tick accounts o a b sell_yes k v c e p h =
    let h' : book_fill sell_yes tick o a ≡ some b =
      subst (λ x. book_fill x tick o a ≡ some b) k h in
    (sell-IsSolvent tick o a b v h', (book_fill_sell tick o a b h').2)

OneOrderEach-tail : (o : Order) (os : List Order) → OneOrderEach (o ∷ os) → OneOrderEach os
unfolding weigh
OneOrderEach-tail o os one a = omega (arith, one a)

OneOrderEach-apart :
    (o : Order) (os : List Order) → OneOrderEach (o ∷ os) → All (λ p. p.agent ≢ o.agent) os
unfolding weigh
OneOrderEach-apart o os one = orders_of-zero o.agent os (ground (arith, one o.agent))

-- What one round of the loop keeps.
Applied-IsSolvent :
    (tick : ℕ) (accounts : List Account) (s : Settlement) (o : Order) (os : List Order)
    (s' : Settlement)
    → All (IsCovered accounts tick) (o ∷ os)
    → OneOrderEach (o ∷ os)
    → Untouched accounts s.updated (o ∷ os)
    → All IsSolvent s.updated
    → Applied tick s o s'
    → All IsSolvent s'.updated × (ids s'.updated ≡ ids s.updated) × Untouched accounts s'.updated os
Applied-IsSolvent tick accounts s o os s' c one u v (skipped z e) = rw e (v, refl, u.1)
Applied-IsSolvent tick accounts s o os s' c one u v (booked a b p at bf up _) =
    let origin = sym u.0 ∙ at in
    let same = some-injective _ _ (sym c.0.indexed ∙ origin) in
    let (w, id) =
      booked-IsSolvent tick accounts o a b o.side refl
        (All-get_elem? s.updated o.account_index a v at) c.0 same p bf in
    rw up (
      All-set s.updated o.account_index b v w,
      ids-set s.updated o.account_index a b at id,
      Untouched-set accounts s.updated tick o.account_index o.agent a b os origin
          (ap (λ x. x.id) (sym same) ∙ c.0.owned) (OneOrderEach-apart o os one) c.1 u.1,
    )

-- The whole settlement, over orders of different agents.
pub apply_all-IsSolvent :
    (tick : ℕ) (accounts : List Account) (s : Settlement) (os : List Order) (t : Settlement)
    → All (IsCovered accounts tick) os
    → OneOrderEach os
    → Untouched accounts s.updated os
    → All IsSolvent s.updated
    → apply_all tick s os ≡ some t
    → All IsSolvent t.updated × (ids t.updated ≡ ids s.updated)
unfolding apply_all
apply_all-IsSolvent tick accounts s [] t c one u v h = rw (some-injective _ _ (sym h)) (v, refl)
apply_all-IsSolvent tick accounts s (o ∷ os) t c one u v h =
    let (s', applied, rest) = apply_all-cons tick s o os t h in
    let (v', id, u') = Applied-IsSolvent tick accounts s o os s' c one u v applied in
    let (v'', id') =
      apply_all-IsSolvent tick accounts s' os t c.1 (OneOrderEach-tail o os one) u' v' rest in
    (v'', id' ∙ id)

pub apply_all-append :
    (tick : ℕ) (s : Settlement) (xs ys : List Order) (t u : Settlement)
    → apply_all tick s xs ≡ some t
    → apply_all tick t ys ≡ some u
    → apply_all tick s (xs ++ ys) ≡ some u
unfolding apply_all
apply_all-append tick s [] ys t u h k = rw (some-injective _ _ h) k
apply_all-append tick s (x ∷ xs) ys t u h k = elim (Option-cases (apply_order tick s x)) [
  | inl e ↦ cc (rw (e, apply_all) at h)
  | inr (s', e) ↦ rw (e, apply_all) (apply_all-append tick s' xs ys t u (rw (e, apply_all) at h) k)
]
