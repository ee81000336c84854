-- ===== src/Market/Settlement/Conservation.antt =====
-- What `apply` does to the cash and the shares of all accounts together.
use market_sim.Prelude.{
  ℕ, zero, suc, ◌+◌, ◌-◌, ◌*◌, ◌≤◌, ◌<◌, ◌≡◌, ap, sym, ◌∙◌, subst, inl, inr, List, [], ◌∷◌, ◌++◌,
  some, arith, get_elem?, set, Option-cases, Bool-cases, ◌==◌,
}
use market_sim.Prelude.Int.{ℤ, parts, pos, ◌+ℤ◌, ◌-ℤ◌, ◌≤ℤ◌, int_laws, +ℤ_parts, -ℤ_parts}
use market_sim.Prelude.Sort.{All, weigh}
use market_sim.Core.CheckedMath.{u32_max}
use market_sim.Grammar.Action.{buy_yes, sell_yes}
use market_sim.Market.{Account, cash_units_per_tick}
use market_sim.Market.Orders.{Order}
use market_sim.Market.Settlement.{
  Settlement, checked_add_cash, book_fill, apply_order, apply_all, notional, cash_max,
}
use market_sim.Market.Settlement.Fills.{filled}

pub total_cash : List Account → ℤ
total_cash [] = pos 0
total_cash (a ∷ rest) = a.cash +ℤ total_cash rest

abbrev pub total_shares : List Account → ℕ
total_shares accounts = weigh (λ a. a.yes_shares) accounts

total_cash-set :
    (xs : List Account) (i : ℕ) (a b : Account)
    → get_elem? xs i ≡ some a
    → total_cash (set xs i b) +ℤ a.cash ≡ total_cash xs +ℤ b.cash
unfolding total_cash
total_cash-set [] i a b h = cc
total_cash-set (x ∷ xs) zero a b h =
    let e : x.cash ≡ a.cash = ground arith in omega (int_laws, parts e)
total_cash-set (x ∷ xs) (suc i) a b h =
    let ih = total_cash-set xs i a b h in omega (int_laws, parts ih)

total_shares-set :
    (xs : List Account) (i : ℕ) (a b : Account)
    → get_elem? xs i ≡ some a
    → total_shares (set xs i b) + a.yes_shares ≡ total_shares xs + b.yes_shares
unfolding weigh
total_shares-set [] i a b h = cc
total_shares-set (x ∷ xs) zero a b h = ground arith
total_shares-set (x ∷ xs) (suc i) a b h = omega (arith, total_shares-set xs i a b h)

checked_add_cash_exact : (v d c : ℤ) → checked_add_cash v d ≡ some c → c ≡ v +ℤ d
unfolding checked_add_cash
checked_add_cash_exact v d c h = ground arith

checked_add_cash_bound :
    (v : ℤ) (n : ℕ) (c : ℤ) → checked_add_cash v (pos n) ≡ some c → v ≤ℤ cash_max → c ≤ℤ cash_max
unfolding checked_add_cash
checked_add_cash_bound v n c h k = ground (arith, -ℤ_parts cash_max (pos n), +ℤ_parts v (pos n))

-- A filled purchase takes its cost from the account and adds its shares.
pub book_fill_buy :
    (tick : ℕ) (o : Order) (a b : Account)
    → book_fill buy_yes tick o a ≡ some b
    → (b.cash ≡ a.cash +ℤ (pos 0 -ℤ pos (notional tick o)))
      × (b.yes_shares ≡ a.yes_shares + o.fill)
      × (b.id ≡ a.id)
      × (a.yes_shares ≤ u32_max - o.fill)
unfolding book_fill
book_fill_buy tick o a b h =
    elim (Option-cases (checked_add_cash a.cash (pos 0 -ℤ pos (notional tick o)))) [
      | inl e ↦ absurd (ground (arith, e))
      | inr (c, e) ↦ ground (arith, checked_add_cash_exact _ _ c e)
    ]

pub book_fill_sell :
    (tick : ℕ) (o : Order) (a b : Account)
    → book_fill sell_yes tick o a ≡ some b
    → (b.cash ≡ a.cash +ℤ pos (notional tick o))
      × (b.yes_shares + o.fill ≡ a.yes_shares)
      × (b.id ≡ a.id)
      × (a.cash ≤ℤ cash_max → b.cash ≤ℤ cash_max)
unfolding book_fill
book_fill_sell tick o a b h =
    elim (Option-cases (checked_add_cash a.cash (pos (notional tick o)))) [
      | inl e ↦ absurd (ground (arith, e))
      | inr (c, e) ↦
          let same : b.cash ≡ c = ground arith in
          let exact = checked_add_cash_exact _ _ c e in
          let bound = checked_add_cash_bound a.cash (notional tick o) c e in
          (
            same ∙ exact,
            ground arith,
            ground arith,
            λ k. subst (λ x. x ≤ℤ cash_max) (sym same) (bound k),
          )
    ]

-- What a call of `apply` that succeeds has done.
pub data Applied (tick : ℕ) (s : Settlement) (o : Order) (s' : Settlement) : Type 0 where
  skipped : o.fill ≡ 0 → s' ≡ s → Applied tick s o s'
  booked :
      (a b : Account)
      → 0 < o.fill
      → get_elem? s.updated o.account_index ≡ some a
      → book_fill o.side tick o a ≡ some b
      → s'.updated ≡ set s.updated o.account_index b
      → s'.fills ≡ s.fills ++ record { agent = o.agent; side = o.side; quantity = o.fill } ∷ []
      → Applied tick s o s'

pub apply_order-Applied :
    (tick : ℕ) (s : Settlement) (o : Order) (s' : Settlement)
    → apply_order tick s o ≡ some s'
    → Applied tick s o s'
unfolding apply_order
apply_order-Applied tick s o s' h = elim (Bool-cases (o.fill == 0)) [
  | inl e ↦ skipped (ground arith) (ground arith)
  | inr e ↦ elim (Option-cases (get_elem? s.updated o.account_index)) [
    | inl f ↦ absurd (ground arith)
    | inr (a, f) ↦ elim (Option-cases (book_fill o.side tick o a)) [
      | inl g ↦ absurd (ground arith)
      | inr (b, g) ↦ booked a b (ground arith) f g (ground arith) (ground arith)
    ]
  ]
]

-- A side whose orders all go one way: what the accounts pay or gain, and the shares that move.
buy-total :
    (tick : ℕ) (s : Settlement) (o : Order) (s' : Settlement)
    → o.side ≡ buy_yes
    → Applied tick s o s'
    → (total_cash s'.updated +ℤ pos (notional tick o) ≡ total_cash s.updated)
      × (total_shares s'.updated ≡ total_shares s.updated + o.fill)
buy-total tick s o s' side (skipped z e) =
    let n : notional tick o ≡ 0 = omega (arith, ap (λ (t : ℕ). t * tick * cash_units_per_tick) z) in
    rw e (omega (int_laws, n), omega arith)
buy-total tick s o s' side (booked a b p at bf up _) =
    let bf' : book_fill buy_yes tick o a ≡ some b =
      subst (λ k. book_fill k tick o a ≡ some b) side bf in
    let (cash, shares, _, _) = book_fill_buy tick o a b bf' in
    let c = total_cash-set s.updated o.account_index a b at in
    let n = total_shares-set s.updated o.account_index a b at in
    rw up (omega (int_laws, parts c, parts cash), omega arith)

sell-total :
    (tick : ℕ) (s : Settlement) (o : Order) (s' : Settlement)
    → o.side ≡ sell_yes
    → Applied tick s o s'
    → (total_cash s'.updated ≡ total_cash s.updated +ℤ pos (notional tick o))
      × (total_shares s'.updated + o.fill ≡ total_shares s.updated)
sell-total tick s o s' side (skipped z e) =
    let n : notional tick o ≡ 0 = omega (arith, ap (λ (t : ℕ). t * tick * cash_units_per_tick) z) in
    rw e (omega (int_laws, n), omega arith)
sell-total tick s o s' side (booked a b p at bf up _) =
    let bf' : book_fill sell_yes tick o a ≡ some b =
      subst (λ k. book_fill k tick o a ≡ some b) side bf in
    let (cash, shares, _, _) = book_fill_sell tick o a b bf' in
    let c = total_cash-set s.updated o.account_index a b at in
    let n = total_shares-set s.updated o.account_index a b at in
    rw up (omega (int_laws, parts c, parts cash), omega arith)

-- What the filled orders of a side cost together.
abbrev pub paid : ℕ → List Order → ℕ
paid tick os = weigh (notional tick) os

pub paid-filled :
    (tick : ℕ) (os : List Order) → paid tick os ≡ filled os * tick * cash_units_per_tick
unfolding weigh
paid-filled tick [] = omega arith
paid-filled tick (o ∷ os) = omega (arith, paid-filled tick os)

-- A call of `apply` for the first order, and then the rest of the loop.
pub apply_all-cons :
    (tick : ℕ) (s : Settlement) (o : Order) (os : List Order) (t : Settlement)
    → apply_all tick s (o ∷ os) ≡ some t
    → (s' : Settlement) × Applied tick s o s' × (apply_all tick s' os ≡ some t)
unfolding apply_all
apply_all-cons tick s o os t h = elim (Option-cases (apply_order tick s o)) [
  | inl e ↦ absurd (ground arith)
  | inr (s', e) ↦ (s', apply_order-Applied tick s o s' e, ground arith)
]

pub buys-total :
    (tick : ℕ) (s : Settlement) (os : List Order) (t : Settlement)
    → All (λ o. o.side ≡ buy_yes) os
    → apply_all tick s os ≡ some t
    → (total_cash t.updated +ℤ pos (paid tick os) ≡ total_cash s.updated)
      × (total_shares t.updated ≡ total_shares s.updated + filled os)
unfolding apply_all weigh
buys-total tick s [] t sides h = let e : t ≡ s = ground arith in rw e (omega int_laws, omega arith)
buys-total tick s (o ∷ os) t sides h =
    let (s', one, rest) = apply_all-cons tick s o os t h in
    let (cash, shares) = buy-total tick s o s' sides.0 one in
    let (cash', shares') = buys-total tick s' os t sides.1 rest in
    (omega (int_laws, parts cash, parts cash'), omega arith)

pub sells-total :
    (tick : ℕ) (s : Settlement) (os : List Order) (t : Settlement)
    → All (λ o. o.side ≡ sell_yes) os
    → apply_all tick s os ≡ some t
    → (total_cash t.updated ≡ total_cash s.updated +ℤ pos (paid tick os))
      × (total_shares t.updated + filled os ≡ total_shares s.updated)
unfolding apply_all weigh
sells-total tick s [] t sides h = let e : t ≡ s = ground arith in rw e (omega int_laws, omega arith)
sells-total tick s (o ∷ os) t sides h =
    let (s', one, rest) = apply_all-cons tick s o os t h in
    let (cash, shares) = sell-total tick s o s' sides.0 one in
    let (cash', shares') = sells-total tick s' os t sides.1 rest in
    (omega (int_laws, parts cash, parts cash'), omega arith)
