-- ===== src/Market/Batch/Effects.antt =====
-- What a trade of `clear` does to each account: what the fills that it reports say.
use market_sim.Prelude.{
  ℕ, zero, suc, ◌+◌, ◌*◌, ◌<◌, ◌≡◌, ◌≢◌, refl, ap, sym, ◌∙◌, subst, Bool, true, false, ◌&&◌, ◌==◌,
  if◌then◌else◌, List, [], ◌∷◌, ◌++◌, arith, some, some-injective, get_elem?, set,
  get_elem?-set-some, get_elem?-set_ne, ℕ_discrete,
}
use market_sim.Prelude.Int.{parts, pos, ◌+ℤ◌, int_laws}
use market_sim.Prelude.Sort.{All, weigh, weigh-append}
use market_sim.Grammar.Action.{ActionKind, hold, buy_yes, sell_yes}
use market_sim.Market.{Account, Fill, cash_units_per_tick}
use market_sim.Market.Orders.{Order}
use market_sim.Market.Orders.Collected.{IsFunded}
use market_sim.Market.Settlement.{Settlement, apply_all, book_fill}
use market_sim.Market.Settlement.Conservation.{
  Applied, skipped, booked, apply_all-cons, book_fill_buy, book_fill_sell,
}
use market_sim.Market.Settlement.Solvency.{IsCovered, ids}
use market_sim.Market.Batch.Accounts.{Rises}

abbrev pub is_buy : ActionKind → Bool
is_buy buy_yes = true
is_buy _ = false

abbrev pub is_sell : ActionKind → Bool
is_sell sell_yes = true
is_sell _ = false

-- What an agent has bought and sold, by a list of fills, and what all have.
abbrev pub bought : ℕ → List Fill → ℕ
bought agent fs =
    weigh (λ (f : Fill). if f.agent == agent && is_buy f.side then f.quantity else 0) fs

abbrev pub sold : ℕ → List Fill → ℕ
sold agent fs =
    weigh (λ (f : Fill). if f.agent == agent && is_sell f.side then f.quantity else 0) fs

abbrev pub all_bought : List Fill → ℕ
all_bought fs = weigh (λ (f : Fill). if is_buy f.side then f.quantity else 0) fs

abbrev pub all_sold : List Fill → ℕ
all_sold fs = weigh (λ (f : Fill). if is_sell f.side then f.quantity else 0) fs

-- An account after its agent's fills at a tick: it pays for what is bought and is paid for what is sold.
abbrev pub IsBooked : ℕ → List Fill → Account → Account → Type 0
IsBooked tick fs a a' =
    (a'.id ≡ a.id)
    × (a'.cash +ℤ pos (bought a.id fs * tick * cash_units_per_tick)
        ≡ a.cash +ℤ pos (sold a.id fs * tick * cash_units_per_tick))
    × (a'.yes_shares + sold a.id fs ≡ a.yes_shares + bought a.id fs)

abbrev pub AllBooked : ℕ → List Fill → List Account → List Account → Type 0
AllBooked tick fs accounts accounts' =
    (i : ℕ) (a : Account)
    → get_elem? accounts i ≡ some a
    → (a' : Account) × (get_elem? accounts' i ≡ some a') × IsBooked tick fs a a'

-- Where the ids rise, they are those of one account each.
Rises-above :
    (x : ℕ) (xs : List Account) (j : ℕ) (b : Account)
    → Rises (x ∷ ids xs)
    → get_elem? xs j ≡ some b
    → x < b.id
Rises-above x [] j b r h = cc
Rises-above x (y ∷ ys) zero b r h =
    let same : y ≡ b = some-injective _ _ h in subst (λ (z : Account). x < z.id) same r.0
Rises-above x (y ∷ ys) (suc j) b r h =
    let next = Rises-above y.id ys j b r.1 h in omega (arith, r.0)

Rises-tail : (x : ℕ) (xs : List ℕ) → Rises (x ∷ xs) → Rises xs
Rises-tail x [] r = tt
Rises-tail x (y ∷ ys) r = r.1

Rises-injective :
    (xs : List Account) (i j : ℕ) (a b : Account)
    → Rises (ids xs)
    → get_elem? xs i ≡ some a
    → get_elem? xs j ≡ some b
    → a.id ≡ b.id
    → i ≡ j
Rises-injective [] i j a b r h k e = cc
Rises-injective (x ∷ xs) zero zero a b r h k e = refl
Rises-injective (x ∷ xs) zero (suc j) a b r h k e =
    let above = Rises-above x.id xs j b r k in
    let same : x ≡ a = some-injective _ _ h in
    absurd (omega (arith, ap (λ (y : Account). y.id) same))
Rises-injective (x ∷ xs) (suc i) zero a b r h k e =
    let above = Rises-above x.id xs i a r h in
    let same : x ≡ b = some-injective _ _ k in
    absurd (omega (arith, ap (λ (y : Account). y.id) same))
Rises-injective (x ∷ xs) (suc i) (suc j) a b r h k e =
    ap suc (Rises-injective xs i j a b (Rises-tail x.id (ids xs) r) h k e)

abbrev pub fill_of : Order → Fill
fill_of o = record { agent = o.agent; side = o.side; quantity = o.fill }

pub last_fill :
    (w : Fill → ℕ) (fs : List Fill) (f : Fill) → weigh w (fs ++ f ∷ []) ≡ weigh w fs + w f
unfolding weigh
last_fill w fs f = omega (arith, weigh-append w fs (f ∷ []))

abbrev pub bought_by : ℕ → Fill → ℕ
bought_by agent f = if f.agent == agent && is_buy f.side then f.quantity else 0

abbrev pub sold_by : ℕ → Fill → ℕ
sold_by agent f = if f.agent == agent && is_sell f.side then f.quantity else 0

abbrev pub buy_of : Fill → ℕ
buy_of f = if is_buy f.side then f.quantity else 0

abbrev pub sale_of : Fill → ℕ
sale_of f = if is_sell f.side then f.quantity else 0

-- One fill more, of another agent or of the account's.
IsBooked-other :
    (tick : ℕ) (fs : List Fill) (o : Order) (a a' : Account)
    → a.id ≢ o.agent
    → IsBooked tick fs a a'
    → IsBooked tick (fs ++ fill_of o ∷ []) a a'
IsBooked-other tick fs o a a' apart h =
    let other : (o.agent == a.id) ≡ false = ground arith in
    let no_buy : bought_by a.id (fill_of o) ≡ 0 = rw other refl in
    let no_sale : sold_by a.id (fill_of o) ≡ 0 = rw other refl in
    let b : bought a.id (fs ++ fill_of o ∷ []) ≡ bought a.id fs =
      omega (arith, last_fill (bought_by a.id) fs (fill_of o), no_buy) in
    let s : sold a.id (fs ++ fill_of o ∷ []) ≡ sold a.id fs =
      omega (arith, last_fill (sold_by a.id) fs (fill_of o), no_sale) in
    rw (b, s) h

IsBooked-buy :
    (tick : ℕ) (fs : List Fill) (o : Order) (a a' b : Account)
    → a.id ≡ o.agent
    → o.side ≡ buy_yes
    → book_fill buy_yes tick o a' ≡ some b
    → IsBooked tick fs a a'
    → IsBooked tick (fs ++ fill_of o ∷ []) a b
IsBooked-buy tick fs o a a' b owner side bf (id, cash, shares) =
    let (cash', shares', id', _) = book_fill_buy tick o a' b bf in
    let own : (o.agent == a.id) ≡ true = ground arith in
    let more : bought_by a.id (fill_of o) ≡ o.fill = rw (own, side) refl in
    let no_sale : sold_by a.id (fill_of o) ≡ 0 = rw (own, side) refl in
    let x : bought a.id (fs ++ fill_of o ∷ []) ≡ bought a.id fs + o.fill =
      omega (arith, last_fill (bought_by a.id) fs (fill_of o), more) in
    let y : sold a.id (fs ++ fill_of o ∷ []) ≡ sold a.id fs =
      omega (arith, last_fill (sold_by a.id) fs (fill_of o), no_sale) in
    rw (x, y) (id' ∙ id, omega (int_laws, parts cash, parts cash'), omega (arith, shares, shares'))

IsBooked-sell :
    (tick : ℕ) (fs : List Fill) (o : Order) (a a' b : Account)
    → a.id ≡ o.agent
    → o.side ≡ sell_yes
    → book_fill sell_yes tick o a' ≡ some b
    → IsBooked tick fs a a'
    → IsBooked tick (fs ++ fill_of o ∷ []) a b
IsBooked-sell tick fs o a a' b owner side bf (id, cash, shares) =
    let (cash', shares', id', _) = book_fill_sell tick o a' b bf in
    let own : (o.agent == a.id) ≡ true = ground arith in
    let no_buy : bought_by a.id (fill_of o) ≡ 0 = rw (own, side) refl in
    let more : sold_by a.id (fill_of o) ≡ o.fill = rw (own, side) refl in
    let x : bought a.id (fs ++ fill_of o ∷ []) ≡ bought a.id fs =
      omega (arith, last_fill (bought_by a.id) fs (fill_of o), no_buy) in
    let y : sold a.id (fs ++ fill_of o ∷ []) ≡ sold a.id fs + o.fill =
      omega (arith, last_fill (sold_by a.id) fs (fill_of o), more) in
    rw (x, y) (id' ∙ id, omega (int_laws, parts cash, parts cash'), omega (arith, shares, shares'))

-- The account that a fill is booked on.
IsBooked-fill_of :
    (kind : ActionKind) (tick : ℕ) (fs : List Fill) (o : Order) (accounts : List Account)
    (a a' b : Account)
    → o.side ≡ kind
    → (c : IsCovered accounts tick o) → a.id ≡ o.agent
    → book_fill o.side tick o a' ≡ some b
    → IsBooked tick fs a a'
    → IsBooked tick (fs ++ fill_of o ∷ []) a b
IsBooked-fill_of hold tick fs o accounts a a' b side c owner bf h =
    absurd (subst (λ (k : ActionKind). IsFunded k o c.account) side c.funded)
IsBooked-fill_of buy_yes tick fs o accounts a a' b side c owner bf h =
    IsBooked-buy tick fs o a a' b owner side
      (subst (λ (k : ActionKind). book_fill k tick o a' ≡ some b) side bf) h
IsBooked-fill_of sell_yes tick fs o accounts a a' b side c owner bf h =
    IsBooked-sell tick fs o a a' b owner side
      (subst (λ (k : ActionKind). book_fill k tick o a' ≡ some b) side bf) h

Applied-AllBooked :
    (tick : ℕ) (accounts : List Account) (s : Settlement) (o : Order) (s' : Settlement)
    → Rises (ids accounts)
    → IsCovered accounts tick o
    → Applied tick s o s'
    → AllBooked tick s.fills accounts s.updated
    → AllBooked tick s'.fills accounts s'.updated
Applied-AllBooked tick accounts s o s' r c (skipped z e) h =
    subst (λ (t : Settlement). AllBooked tick t.fills accounts t.updated) (sym e) h
Applied-AllBooked tick accounts s o s' r c (booked a0 b p at bf up fs) h =
    rw (up, fs)
      λ i a found.
        let (a', here, done) = h i a found in
        elim (ℕ_discrete o.account_index i) [
          | yes e ↦
              let at' : get_elem? s.updated i ≡ some a0 = ap (get_elem? s.updated) (sym e) ∙ at in
              let same : a0 ≡ a' = some-injective _ _ (sym at' ∙ here) in
              let account : c.account ≡ a =
                some-injective _ _ (sym c.indexed ∙ ap (get_elem? accounts) e ∙ found) in
              let owner : a.id ≡ o.agent = ap (λ (y : Account). y.id) (sym account) ∙ c.owned in
              let bf' = subst (λ (y : Account). book_fill o.side tick o y ≡ some b) same bf in
              (
                b,
                subst (λ (j : ℕ). get_elem? (set s.updated j b) i ≡ some b) (sym e)
                    (get_elem?-set-some s.updated i a0 b at'),
                IsBooked-fill_of o.side tick s.fills o accounts a a' b refl c owner bf' done,
              )
          | no n ↦
              let apart : a.id ≢ o.agent = λ e. n (
                Rises-injective accounts o.account_index i c.account a r c.indexed found
                  (c.owned ∙ sym e)) in
              (
                a',
                get_elem?-set_ne s.updated b n ∙ here,
                IsBooked-other tick s.fills o a a' apart done,
              )
        ]

pub apply_all-AllBooked :
    (tick : ℕ) (accounts : List Account) (s : Settlement) (os : List Order) (t : Settlement)
    → Rises (ids accounts)
    → All (IsCovered accounts tick) os
    → apply_all tick s os ≡ some t
    → AllBooked tick s.fills accounts s.updated
    → AllBooked tick t.fills accounts t.updated
unfolding apply_all
apply_all-AllBooked tick accounts s [] t r c h k =
    subst (λ (u : Settlement). AllBooked tick u.fills accounts u.updated) (some-injective _ _ h) k
apply_all-AllBooked tick accounts s (o ∷ os) t r c h k =
    let (s', applied, rest) = apply_all-cons tick s o os t h in
    apply_all-AllBooked tick accounts s' os t r c.1 rest
      (Applied-AllBooked tick accounts s o s' r c.0 applied k)
