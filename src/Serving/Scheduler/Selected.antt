-- ===== src/Serving/Scheduler/Selected.antt =====
-- What `schedule` selects, and what setting it in flight does to the entries.
use market_sim.Prelude.{
  ℕ, zero, suc, ◌+◌, ◌%◌, ◌<◌, ◌≡◌, inl, inr, refl, ◌∙◌, subst, Bool, true, false, List, [], ◌∷◌,
  ◌++◌, none, some, arith, length, length-set, ltb, Bool-cases, Option-cases, get_elem?, set,
}
use market_sim.Prelude.Sort.{All, All-append}
use market_sim.Serving.Scheduler.{Entry, is_active}
use market_sim.Serving.Scheduler.Batching.{mark_all, launched, select, runnable_at}
use market_sim.Serving.Scheduler.Entries.{IsGoodEntry, of_id}

-- The phase of an entry that is selected.
abbrev pub active_at : List Entry → ℕ → Bool
active_at es i = elim (get_elem? es i) [ none ↦ false | some e ↦ is_active e.phase ]

active_at-set :
    (es : List Entry) (i j : ℕ) (e : Entry)
    → get_elem? es i ≡ some e
    → active_at (set es i (launched e)) j ≡ active_at es j
active_at-set [] i j e h = refl
active_at-set (x ∷ es) zero zero e h = ground arith
active_at-set (x ∷ es) zero (suc j) e h = refl
active_at-set (x ∷ es) (suc i) zero e h = refl
active_at-set (x ∷ es) (suc i) (suc j) e h = active_at-set es i j e h

set-IsGoodEntry :
    (es : List Entry) (i : ℕ) (e : Entry)
    → All IsGoodEntry es
    → get_elem? es i ≡ some e
    → is_active e.phase ≡ true
    → All IsGoodEntry (set es i (launched e))
      × ((id : ℕ) → of_id id (set es i (launched e)) ≡ of_id id es)
set-IsGoodEntry [] i e g h a = (tt, λ id. refl)
set-IsGoodEntry (x ∷ es) zero e g h a =
    let same : x ≡ e = ground arith in
    let ge = subst IsGoodEntry same g.0 in ((ground arith, g.1), λ id. ground arith)
set-IsGoodEntry (x ∷ es) (suc i) e g h a =
    let (rest, once) = set-IsGoodEntry es i e g.1 h a in ((g.0, rest), λ id. omega (arith, once id))

pub All-active_at-set :
    (es : List Entry) (i : ℕ) (e : Entry) (is : List ℕ)
    → get_elem? es i ≡ some e
    → All (λ j. active_at es j ≡ true) is
    → All (λ j. active_at (set es i (launched e)) j ≡ true) is
All-active_at-set es i e [] h a = tt
All-active_at-set es i e (j ∷ is) h a =
    (active_at-set es i j e h ∙ a.0, All-active_at-set es i e is h a.1)

pub mark_all-Inv :
    (es : List Entry) (is : List ℕ)
    → All IsGoodEntry es
    → All (λ i. active_at es i ≡ true) is
    → All IsGoodEntry (mark_all es is)
      × (length (mark_all es is) ≡ length es)
      × ((id : ℕ) → of_id id (mark_all es is) ≡ of_id id es)
unfolding mark_all
mark_all-Inv es [] g r = (g, refl, λ id. refl)
mark_all-Inv es (i ∷ is) g r = elim (Option-cases (get_elem? es i)) [
  | inl missing ↦ rw (missing, mark_all) (mark_all-Inv es is g r.1)
  | inr (e, at) ↦
      let (g', once) = set-IsGoodEntry es i e g at (ground arith) in
      let (good, size, once') =
        mark_all-Inv (set es i (launched e)) is g' (All-active_at-set es i e is at r.1) in
      rw (at, mark_all) (good, size ∙ length-set es i (launched e), λ id. once' id ∙ once id)
]

-- The scan keeps only entries that are runnable.
pub select-runnable :
    (es : List Entry) (size start limit rounds offset : ℕ) (selected : List ℕ)
    → All (λ i. runnable_at es i ≡ true) selected
    → All (λ i. runnable_at es i ≡ true) (select es size start limit rounds offset selected)
unfolding select
select-runnable es size start limit zero offset selected h = h
select-runnable es size start limit (suc rounds) offset selected h =
    elim (Bool-cases (ltb (length selected) limit)) [
      | inr full ↦ rw full h
      | inl room ↦ elim (Bool-cases (runnable_at es ((start + offset) % size))) [
        | inr busy ↦
            rw (room, busy) (select-runnable es size start limit rounds (offset + 1) selected h)
        | inl ready ↦
            rw (room, ready)
              (select-runnable es size start limit rounds (offset + 1)
                (selected ++ (start + offset) % size ∷ [])
                (All-append (λ i. runnable_at es i ≡ true) selected _ h (ready, tt)))
      ]
    ]

pub runnable-active : (es : List Entry) (i : ℕ) → runnable_at es i ≡ true → active_at es i ≡ true
runnable-active es i h = ground arith

pub runnable_at-lt : (es : List Entry) (i : ℕ) → runnable_at es i ≡ true → i < length es
runnable_at-lt [] i h = cc
runnable_at-lt (e ∷ es) zero h = omega arith
runnable_at-lt (e ∷ es) (suc i) h = omega (arith, runnable_at-lt es i h)
