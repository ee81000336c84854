-- ===== src/Serving/Scheduler/Fairness.antt =====
-- The round robin of `schedule`: a runnable sequence that a batch leaves out is nearer to the start of
-- the next scan.
use native.Mathlib.Nat.{mod-eq_of_lt, mod-eq-sub-mod, mod-lt}
use market_sim.Prelude.{
  ℕ, zero, suc, ◌+◌, ◌-◌, ◌%◌, ◌≤◌, ◌<◌, ◌≡◌, ◌⊎◌, inl, inr, refl, ap, sym, ◌∙◌, subst, Bool, true,
  false, ◌||◌, List, [], ◌∷◌, ◌++◌, arith, length, ltb, ◌==◌, Bool-cases, min, dec_lt, ℕ_discrete,
}
use market_sim.Serving.Scheduler.{SequenceScheduler, Entry}
use market_sim.Serving.Scheduler.Selected.{runnable_at-lt}
use market_sim.Serving.Scheduler.Batching.{select, selection, runnable_at, last, is_nil}

abbrev pub holds : ℕ → List ℕ → Bool
holds i [] = false
holds i (j ∷ js) = i == j || holds i js

holds-append_left : (i : ℕ) (xs ys : List ℕ) → holds i xs ≡ true → holds i (xs ++ ys) ≡ true
holds-append_left i [] ys h = cc
holds-append_left i (x ∷ xs) ys h = ground (arith, holds-append_left i xs ys)

holds-append_last : (i : ℕ) (xs : List ℕ) → holds i (xs ++ i ∷ []) ≡ true
holds-append_last i [] = ground arith
holds-append_last i (x ∷ xs) = ground (arith, holds-append_last i xs)

is_nil-append : (xs : List ℕ) (x : ℕ) → is_nil (xs ++ x ∷ []) ≡ false
is_nil-append [] x = refl
is_nil-append (y ∷ xs) x = refl

last-append : (xs : List ℕ) (x : ℕ) → last (xs ++ x ∷ []) ≡ x
last-append [] x = refl
last-append (y ∷ []) x = refl
last-append (y ∷ z ∷ xs) x = last-append (z ∷ xs) x

-- The remainder of a number below twice the divisor.
mod-cases : (x n : ℕ) → x < n + n → ((x < n) × (x % n ≡ x)) ⊎ ((n ≤ x) × (x % n ≡ x - n))
mod-cases x n h = elim (dec_lt x n) [
  | yes p ↦ inl (p, mod-eq_of_lt p)
  | no p ↦ inr (omega arith, mod-eq-sub-mod (omega arith) ∙ mod-eq_of_lt (omega arith))
]

module _ (es : List Entry) (size start limit : ℕ) where
  select-holds :
      (rounds offset : ℕ) (selected : List ℕ) (i : ℕ)
      → holds i selected ≡ true
      → holds i (select es size start limit rounds offset selected) ≡ true
  unfolding select
  select-holds zero offset selected i h = h
  select-holds (suc rounds) offset selected i h = ground (
    arith,
    select-holds rounds (offset + 1) selected i h,
    select-holds rounds (offset + 1) (selected ++ (start + offset) % size ∷ []) i
        (holds-append_left i selected ((start + offset) % size ∷ []) h),
  )

  -- Nothing is selected yet, or the last one stands before an offset.
  abbrev Behind : ℕ → List ℕ → Type 0
  Behind offset selected =
      (selected ≡ [])
      ⊎ ((o : ℕ) × (o < offset) × (last selected ≡ (start + o) % size) × (is_nil selected ≡ false))

  stop :
      (offset target : ℕ) (selected : List ℕ)
      → ltb (length selected) limit ≡ false
      → 0 < limit
      → offset ≤ target
      → Behind offset selected
      → (holds ((start + target) % size) selected ≡ true)
        ⊎ ((o : ℕ) × (o < target)
            × (last selected ≡ (start + o) % size)
            × (is_nil selected ≡ false))
  stop offset target selected full l p (inl e) = absurd (ground (arith, ap length e))
  stop offset target selected full l p (inr (o, q, e, some_yet)) = inr (o, omega arith, e, some_yet)

  further : (offset : ℕ) (selected : List ℕ) → Behind offset selected → Behind (offset + 1) selected
  further offset selected (inl e) = inl e
  further offset selected (inr (o, q, e, some_yet)) = inr (o, omega arith, e, some_yet)

  -- The scan selects the entry at an offset, or it is full before it comes there.
  select_reaches :
      (rounds offset target : ℕ) (selected : List ℕ)
      → 0 < limit
      → offset ≤ target
      → target < offset + rounds
      → runnable_at es ((start + target) % size) ≡ true
      → Behind offset selected
      → (holds ((start + target) % size) (select es size start limit rounds offset selected) ≡ true)
        ⊎ ((o : ℕ) × (o < target)
            × (last (select es size start limit rounds offset selected) ≡ (start + o) % size)
            × (is_nil (select es size start limit rounds offset selected) ≡ false))
  unfolding select
  select_reaches zero offset target selected l p q r b = absurd (omega arith)
  select_reaches (suc rounds) offset target selected l p q r b =
      let index = (start + offset) % size in
      elim (Bool-cases (ltb (length selected) limit)) [
        | inr full ↦ rw full (stop offset target selected full l p b)
        | inl room ↦ elim (ℕ_discrete offset target) [
          | yes e ↦
              let ready : runnable_at es index ≡ true =
                subst (λ t. runnable_at es ((start + t) % size) ≡ true) (sym e) r in
              let h : holds ((start + target) % size) (selected ++ index ∷ []) ≡ true =
                subst (λ t. holds ((start + t) % size) (selected ++ index ∷ []) ≡ true) e
                  (holds-append_last index selected) in
              rw (room, ready) (inl (select-holds rounds (offset + 1) (selected ++ index ∷ []) _ h))
          | no far ↦ elim (Bool-cases (runnable_at es index)) [
            | inr busy ↦
                rw (room, busy)
                  (select_reaches rounds (offset + 1) target selected l (omega arith) (omega arith)
                    r (further offset selected b))
            | inl ready ↦
                rw (room, ready)
                  (select_reaches rounds (offset + 1) target (selected ++ index ∷ []) l
                    (omega arith) (omega arith) r
                    (inr (
                      offset,
                      omega arith,
                      last-append selected index,
                      is_nil-append selected index,
                    )))
          ]
        ]
      ]

-- How many entries the next scan looks at before the one at an index.
abbrev pub wait : SequenceScheduler → ℕ → ℕ
wait s i = let n = length s.entries in (i + n - s.next_scan_index % n) % n

-- The arithmetic of the ring: `start + o` is `o` places behind the start of the scan.
ring_offset : (n start i : ℕ) → start < n → i < n → (start + (i + n - start) % n) % n ≡ i
ring_offset n start i p q = elim (mod-cases (i + n - start) n (omega arith)) [
  | inl (h, e) ↦ elim (mod-cases (start + (i + n - start)) n (omega arith)) [
    | inl (k, f) ↦ absurd (omega arith)
    | inr (k, f) ↦ rw e (f ∙ omega arith)
  ]
  | inr (h, e) ↦ rw e (mod-eq_of_lt (omega arith) ∙ omega arith)
]

-- A number reduced once.
abbrev Reduced : ℕ → ℕ → ℕ → Type 0
Reduced x n r = ((x < n) × (r ≡ x)) ⊎ ((n ≤ x) × (r ≡ x - n))

ring_core :
    (n start o i far a c near : ℕ)
    → start < n
    → i < n
    → o < far
    → Reduced (i + n - start) n far
    → Reduced (start + o) n a
    → Reduced (a + 1) n c
    → Reduced (i + n - c) n near
    → near < far
ring_core n start o i far a c near p q h r1 r2 r3 r4 = omega arith

-- A scan that starts behind an offset before the target's has less far to go.
ring_closer :
    (n start o i : ℕ)
    → start < n
    → i < n
    → o < (i + n - start) % n
    → (i + n - ((start + o) % n + 1) % n) % n < (i + n - start) % n
ring_closer n start o i p q h =
    let far : (i + n - start) % n < n = mod-lt (i + n - start) (omega arith) in
    let a : (start + o) % n < n = mod-lt (start + o) (omega arith) in
    let c : ((start + o) % n + 1) % n < n = mod-lt ((start + o) % n + 1) (omega arith) in
    ring_core n start o i ((i + n - start) % n) ((start + o) % n) (((start + o) % n + 1) % n)
      ((i + n - ((start + o) % n + 1) % n) % n) p q h (mod-cases (i + n - start) n (omega arith))
      (mod-cases (start + o) n (omega arith)) (mod-cases ((start + o) % n + 1) n (omega arith))
      (mod-cases (i + n - ((start + o) % n + 1) % n) n (omega arith))

-- A call that asks for a batch either selects a runnable entry, or it moves the start of the next
-- scan past an entry that stands before it, so that the next scan reaches it sooner.
pub selection_reaches :
    (s : SequenceScheduler) (maximum i : ℕ)
    → 0 < maximum
    → runnable_at s.entries i ≡ true
    → (holds i (selection s maximum) ≡ true)
      ⊎ ((is_nil (selection s maximum) ≡ false)
          × ((i + length s.entries - (last (selection s maximum) + 1) % length s.entries)
                % length s.entries
              < wait s i))
selection_reaches s maximum i p r =
    let n = length s.entries in
    let start = s.next_scan_index % n in
    let below = runnable_at-lt s.entries i r in
    let first : start < n = mod-lt s.next_scan_index (omega arith) in
    let near : wait s i < n = mod-lt (i + n - start) (omega arith) in
    let back = ring_offset n start i first below in
    elim (select_reaches s.entries n start (min maximum n) n 0 (wait s i) [] (omega arith)
      (omega arith) (omega (arith, near)) (subst (λ j. runnable_at s.entries j ≡ true) (sym back) r)
      (inl refl)) [
        | inl h ↦ inl (subst (λ j. holds j (selection s maximum) ≡ true) back h)
        | inr (o, q, e, some_yet) ↦ inr (some_yet, rw e (ring_closer n start o i first below q))
      ]
