-- ===== src/Market/Batch/Creation.antt =====
-- What `BatchMarket::create` accepts and builds.
use mathlib.Core.List.{Perm}
use market_sim.Prelude.{
  ℕ, ◌≤◌, ◌≡◌, refl, inl, inr, Bool, true, List, [], ◌∷◌, arith, none, some, Bool-cases, ltb,
}
use market_sim.Prelude.Int.{pos, ◌≤ℤ◌}
use market_sim.Prelude.Sort.{All, All-map, All-zip, All-sort_by, sort_by, sort_by-perm, insert_by}
use market_sim.Core.Status.{success}
use market_sim.Core.CheckedMath.{u32_max}
use market_sim.Market.{Account, BatchMarket}
use market_sim.Market.Settlement.{cash_max}
use market_sim.Market.Settlement.Solvency.{ids}
use market_sim.Market.Batch.{create, check_accounts, id_before}
use market_sim.Market.Batch.Accounts.{Rises, IsWellFormed}

-- What the fields' types bound.
abbrev pub Fits : Account → Type 0
Fits a = (a.cash ≤ℤ cash_max) × (a.yes_shares ≤ u32_max)

abbrev Ascends : ℕ → List Account → Type 0
Ascends low [] = Unit {0}
Ascends low (a ∷ rest) = (low ≤ a.id) × Ascends a.id rest

insert-Ascends :
    (low : ℕ) (a : Account) (xs : List Account)
    → low ≤ a.id
    → Ascends low xs
    → Ascends low (insert_by id_before a xs)
unfolding insert_by
insert-Ascends low a [] h s = (h, tt)
insert-Ascends low a (x ∷ xs) h s = elim (Bool-cases (ltb x.id a.id)) [
  | inl e ↦ rw e (s.0, insert-Ascends x.id a xs (ground arith) s.1)
  | inr e ↦ rw e (h, (ground arith, s.1))
]

sort-Ascends : (xs : List Account) → Ascends 0 (sort_by id_before xs)
unfolding sort_by
sort-Ascends [] = tt
sort-Ascends (x ∷ xs) = insert-Ascends 0 x (sort_by id_before xs) (omega arith) (sort-Ascends xs)

-- What the loop of `create` has found of accounts in ascending order.
check_accounts-Rises :
    (x : ℕ) (xs : List Account)
    → Ascends x xs
    → check_accounts (some x) xs ≡ true
    → Rises (x ∷ ids xs) × All (λ a. pos 0 ≤ℤ a.cash) xs
unfolding check_accounts
check_accounts-Rises x [] s h = (tt, tt)
check_accounts-Rises x (a ∷ xs) s h =
    let (rises, rest) = check_accounts-Rises a.id xs s.1 (ground arith) in
    ((ground arith, rises), (ground arith, rest))

check_accounts_lem :
    (xs : List Account)
    → Ascends 0 xs
    → check_accounts none xs ≡ true
    → Rises (ids xs) × All (λ a. pos 0 ≤ℤ a.cash) xs
unfolding check_accounts
check_accounts_lem [] s h = (tt, tt)
check_accounts_lem (a ∷ xs) s h =
    let (rises, rest) = check_accounts-Rises a.id xs s.1 (ground arith) in
    (rises, (ground arith, rest))

-- For accounts whose cash fits 64 bits and whose shares fit 32, a market that `create` returns is
-- well formed, has the reference tick given, and its accounts are those given, in another order.
pub create-IsWellFormed :
    (exhausted : Bool) (accounts : List Account) (tick : ℕ) {m : BatchMarket}
    → All Fits accounts
    → create exhausted accounts tick ≡ success m
    → IsWellFormed m × Perm m.accounts accounts × (m.last_traded_tick ≡ tick)
unfolding create
create-IsWellFormed exhausted accounts tick {m} f h =
    let sorted = sort_by id_before accounts in
    let e : m ≡ record { accounts = sorted; last_traded_tick = tick } = ground arith in
    let good : check_accounts none sorted ≡ true = ground arith in
    let (rises, rich) = check_accounts_lem sorted (sort-Ascends accounts) good in
    let fits = All-sort_by Fits id_before accounts f in
    rw e (
      record {
        solvent =
            All-map sorted (λ a p. record { no_debt = p.0; cash_fits = p.1.0; shares_fit = p.1.1 })
              (All-zip (λ a. pos 0 ≤ℤ a.cash) Fits sorted rich fits);
        sorted = rises;
        least_tick = ground arith;
        most_tick = ground arith;
      },
      sort_by-perm id_before accounts,
      refl,
    )
