-- ===== src/Market/Settlement/Fills.antt =====
-- How `allocate` shares the matched quantity out over a sorted side.
use market_sim.Prelude.{
  ℕ, ◌+◌, ◌-◌, ◌%◌, ◌≤◌, ◌<◌, ◌≡◌, refl, ap, sym, subst, Bool, true, false, List, [], ◌∷◌, arith,
  min,
}
use market_sim.Prelude.Sort.{All, weigh}
use market_sim.Market.Orders.{Order}
use market_sim.Market.Clearing.Best.{volume, eligible_quantity}
use market_sim.Market.Settlement.{allocate, fill_order}

-- An order as the first loop of `clear` makes it: nothing filled, and a quantity of one byte.
abbrev pub IsOpen : Order → Type 0
IsOpen o = (o.fill ≡ 0) × (o.quantity < 256)

abbrev pub filled : List Order → ℕ
filled os = weigh (λ o. o.fill) os

-- A fill stays within its order, and only an eligible order has one.
abbrev pub IsFair : (Order → Bool) → Order → Type 0
IsFair eligible o = (o.fill ≤ o.quantity) × (eligible o ≡ false → o.fill ≡ 0)

-- Priority: behind an eligible order that is not filled whole, nothing is filled.
abbrev pub RespectsPriority : (Order → Bool) → List Order → Type 0
RespectsPriority eligible [] = Unit {0}
RespectsPriority eligible (o ∷ os) =
    (eligible o ≡ true → o.fill < o.quantity → filled os ≡ 0) × RespectsPriority eligible os

-- The two lists have the same orders, but for the fills.
abbrev pub SameOrders : List Order → List Order → Type 0
SameOrders [] [] = Unit {0}
SameOrders (o ∷ os) (p ∷ ps) = (p ≡ record o { fill = p.fill }) × SameOrders os ps
SameOrders _ _ = ⊥

module _ (eligible : Order → Bool)
    (blind : (o : Order) (f : ℕ) → eligible (record o { fill = f }) ≡ eligible o) where
  fill_order_lem :
      (r : ℕ) (o : Order)
      → IsOpen o
      → ((fill_order eligible r o).0.fill ≡ min (eligible_quantity eligible o) r)
        × ((fill_order eligible r o).1 + (fill_order eligible r o).0.fill ≡ r)
        × ((fill_order eligible r o).0 ≡ record o { fill = (fill_order eligible r o).0.fill })
  unfolding fill_order
  fill_order_lem r o h = ground arith

  fill_order-eligible : (r : ℕ) (o : Order) → eligible (fill_order eligible r o).0 ≡ eligible o
  unfolding fill_order
  fill_order-eligible r o = ground (arith, blind o (min o.quantity r % 256))

  fill_order-quantity : (r : ℕ) (o : Order) → (fill_order eligible r o).0.quantity ≡ o.quantity
  unfolding fill_order
  fill_order-quantity r o = ground arith

  -- For orders that are not filled yet, and a test of eligibility that does not look at the fill: what
  -- is filled and what remains add up to the quantity shared out, and what remains is what the
  -- eligible orders cannot take.
  pub allocate_total :
      (r : ℕ) (os : List Order)
      → All IsOpen os
      → (filled (allocate eligible r os).0 + (allocate eligible r os).1 ≡ r)
        × ((allocate eligible r os).1 ≡ r - volume eligible os)
  unfolding allocate weigh
  allocate_total r [] h = ground arith
  allocate_total r (o ∷ os) h =
      let (fill, kept, _) = fill_order_lem r o h.0 in
      let (total, left) = allocate_total (fill_order eligible r o).1 os h.1 in
      (omega arith, omega arith)

  pub allocate-SameOrders :
      (r : ℕ) (os : List Order) → All IsOpen os → SameOrders os (allocate eligible r os).0
  unfolding allocate
  allocate-SameOrders r [] h = tt
  allocate-SameOrders r (o ∷ os) h =
      ((fill_order_lem r o h.0).2, allocate-SameOrders (fill_order eligible r o).1 os h.1)

  -- For such orders and such a test, no fill exceeds its order, and an order that is not eligible has
  -- none.
  pub allocate-IsFair :
      (r : ℕ) (os : List Order) → All IsOpen os → All (IsFair eligible) (allocate eligible r os).0
  unfolding allocate
  allocate-IsFair r [] h = tt
  allocate-IsFair r (o ∷ os) h = (
    let (fill, _, _) = fill_order_lem r o h.0 in
        let q = fill_order-quantity r o in
        let e = fill_order-eligible r o in (ground arith, λ n. ground arith),
    allocate-IsFair (fill_order eligible r o).1 os h.1,
  )

  -- For such orders and such a test, nothing is filled behind an eligible order that is not filled
  -- whole.
  pub allocate-RespectsPriority :
      (r : ℕ) (os : List Order)
      → All IsOpen os
      → RespectsPriority eligible (allocate eligible r os).0
  unfolding allocate
  allocate-RespectsPriority r [] h = tt
  allocate-RespectsPriority r (o ∷ os) h = (
    let (fill, kept, _) = fill_order_lem r o h.0 in
        let (total, left) = allocate_total (fill_order eligible r o).1 os h.1 in
        let q = fill_order-quantity r o in
        let e = fill_order-eligible r o in
        λ n l.
          let fill' : (fill_order eligible r o).0.fill ≡ min o.quantity r = ground arith in
          omega arith,
    allocate-RespectsPriority (fill_order eligible r o).1 os h.1,
  )

-- What does not depend on the fill carries over to the orders with their fills.
pub All-SameOrders {κ} :
    (P : Order → Type κ) (os ps : List Order)
    → ((o : Order) (f : ℕ) → P o → P (record o { fill = f }))
    → SameOrders os ps
    → All P os
    → All P ps
All-SameOrders P [] [] keep s a = tt
All-SameOrders P [] (p ∷ ps) keep s a = elim s [ ]
All-SameOrders P (o ∷ os) [] keep s a = elim s [ ]
All-SameOrders P (o ∷ os) (p ∷ ps) keep s a =
    (subst P (sym s.0) (keep o p.fill a.0), All-SameOrders P os ps keep s.1 a.1)

pub weigh-SameOrders :
    (w : Order → ℕ) (os ps : List Order)
    → ((o : Order) (f : ℕ) → w (record o { fill = f }) ≡ w o)
    → SameOrders os ps
    → weigh w ps ≡ weigh w os
unfolding weigh
weigh-SameOrders w [] [] keep s = refl
weigh-SameOrders w [] (p ∷ ps) keep s = elim s [ ]
weigh-SameOrders w (o ∷ os) [] keep s = elim s [ ]
weigh-SameOrders w (o ∷ os) (p ∷ ps) keep s =
    omega (arith, ap w s.0, keep o p.fill, weigh-SameOrders w os ps keep s.1)
