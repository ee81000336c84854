-- ===== src/Serving/Scheduler/Batches.antt =====
-- The entries that `schedule` sets in flight, and what a call does for one that is runnable.
use native.Mathlib.Nat.{mod-eq_of_lt, mod-lt}
use market_sim.Prelude.{
  ℕ, ◌+◌, ◌-◌, ◌%◌, ◌≤◌, ◌<◌, ◌≡◌, ◌⊎◌, inl, inr, refl, ap, sym, ◌∙◌, subst, Bool, true, false,
  List, [], ◌∷◌, Option, none, some, arith, length, ◌==◌, if◌then◌else◌, Bool-cases, Option-cases,
  get_elem?, set, ℕ_discrete, get_elem?-set-some, get_elem?-set_ne, length-set,
}
use market_sim.Core.Status.{granted}
use market_sim.Core.CheckedMath.{u64_max}
use market_sim.Serving.Scheduler.{SequenceScheduler, Entry}
use market_sim.Serving.Scheduler.Batching.{
  schedule, launch, selection, runnable_at, last, is_nil, mark_all, launched,
}
use market_sim.Serving.Scheduler.Selected.{runnable_at-lt}
use market_sim.Serving.Scheduler.Fairness.{holds, wait, selection_reaches}

abbrev launched_option : Option Entry → Option Entry
launched_option none = none
launched_option (some e) = some (launched e)

-- The entries after `mark_all`: those that are listed are launched, the others are as before.
mark_all-get :
    (es : List Entry) (is : List ℕ) (j : ℕ)
    → get_elem? (mark_all es is) j
      ≡ (if holds j is then launched_option (get_elem? es j) else get_elem? es j)
unfolding mark_all
mark_all-get es [] j = refl
mark_all-get es (i ∷ is) j = elim (Option-cases (get_elem? es i)) [
  | inl missing ↦
      rw (missing, mark_all)
        (elim (ℕ_discrete j i) [
          | yes e ↦
              let gone : get_elem? es j ≡ none = ap (get_elem? es) e ∙ missing in
              ground (arith, mark_all-get es is j)
          | no e ↦ ground (arith, mark_all-get es is j)
        ])
  | inr (x, at) ↦
      rw (at, mark_all)
        (elim (ℕ_discrete j i) [
          | yes e ↦
              let here : get_elem? es j ≡ some x = ap (get_elem? es) e ∙ at in
              let new : get_elem? (set es i (launched x)) j ≡ some (launched x) =
                ap (get_elem? (set es i (launched x))) e
                ∙ get_elem?-set-some es i x (launched x) at in
              ground (arith, mark_all-get (set es i (launched x)) is j)
          | no e ↦
              let old : get_elem? (set es i (launched x)) j ≡ get_elem? es j =
                get_elem?-set_ne es (launched x) (λ q. e (sym q)) in
              ground (arith, mark_all-get (set es i (launched x)) is j)
        ])
]

-- An entry in flight.
abbrev pub in_flight_at : List Entry → ℕ → Bool
in_flight_at es i = elim (get_elem? es i) [ none ↦ false | some e ↦ e.in_flight ]

mark_all-in_flight :
    (es : List Entry) (is : List ℕ) (i : ℕ)
    → holds i is ≡ true
    → runnable_at es i ≡ true
    → in_flight_at (mark_all es is) i ≡ true
mark_all-in_flight es is i h p = ground (arith, mark_all-get es is i)

mark_all-unlisted :
    (es : List Entry) (is : List ℕ) (i : ℕ)
    → holds i is ≡ false
    → get_elem? (mark_all es is) i ≡ get_elem? es i
mark_all-unlisted es is i h = ground (arith, mark_all-get es is i)

holds-is_nil : (i : ℕ) (is : List ℕ) → holds i is ≡ true → is_nil is ≡ false
holds-is_nil i [] h = cc
holds-is_nil i (j ∷ is) h = refl

-- The scheduler after a selection that is not empty is launched.
abbrev after_launch : List ℕ → SequenceScheduler → SequenceScheduler
after_launch selected s = record {
  entries = mark_all s.entries selected;
  next_scan_index = (last selected + 1) % length s.entries;
  generation = s.generation + 1;
}

runnable_at-busy : (es : List Entry) (i : ℕ) → runnable_at es i ≡ true → is_nil es ≡ false
runnable_at-busy [] i r = cc
runnable_at-busy (e ∷ es) i r = refl

schedule-launches :
    (s : SequenceScheduler) (maximum i : ℕ)
    → 0 < maximum
    → s.generation < u64_max
    → runnable_at s.entries i ≡ true
    → is_nil (selection s maximum) ≡ false
    → (schedule granted maximum s).0 ≡ after_launch (selection s maximum) s
unfolding schedule launch
schedule-launches s maximum i p g r n =
    let busy = runnable_at-busy s.entries i r in
    let asked : (maximum == 0) ≡ false = ground arith in
    let room : (s.generation == u64_max) ≡ false = ground arith in rw (asked, busy, n, room) refl

-- What a call does for an entry: it is in flight afterwards, or it is as before and the next
-- scan is nearer to it.
abbrev pub Nearer : SequenceScheduler → SequenceScheduler → ℕ → Type 0
Nearer before after i =
    (in_flight_at after.entries i ≡ true)
    ⊎ ((get_elem? after.entries i ≡ get_elem? before.entries i) × (wait after i < wait before i))

-- The length does not change.
length-mark_all : (es : List Entry) (is : List ℕ) → length (mark_all es is) ≡ length es
unfolding mark_all
length-mark_all es [] = refl
length-mark_all es (i ∷ is) = elim (Option-cases (get_elem? es i)) [
  | inl missing ↦ rw (missing, mark_all) (length-mark_all es is)
  | inr (x, at) ↦
      rw (at, mark_all) (length-mark_all (set es i (launched x)) is ∙ length-set es i (launched x))
]

after_launch-wait :
    (s : SequenceScheduler) (selected : List ℕ) (i : ℕ)
    → i < length s.entries
    → wait (after_launch selected s) i
      ≡ (i + length s.entries - (last selected + 1) % length s.entries) % length s.entries
after_launch-wait s selected i h =
    let n = length s.entries in
    let first : (last selected + 1) % n < n = mod-lt (last selected + 1) (omega arith) in
    rw (length-mark_all s.entries selected, mod-eq_of_lt first) refl

pub schedule_progress :
    (s : SequenceScheduler) (maximum i : ℕ)
    → 0 < maximum
    → s.generation < u64_max
    → runnable_at s.entries i ≡ true
    → Nearer s (schedule granted maximum s).0 i
schedule_progress s maximum i p g r =
    let chosen = selection s maximum in
    elim (Bool-cases (holds i chosen)) [
      | inl h ↦
          let e = schedule-launches s maximum i p g r (holds-is_nil i chosen h) in
          subst (λ t. Nearer s t i) (sym e) (inl (mark_all-in_flight s.entries chosen i h r))
      | inr h ↦ elim (selection_reaches s maximum i p r) [
        | inl k ↦ absurd (cc)
        | inr (n, k) ↦
            let e = schedule-launches s maximum i p g r n in
            subst (λ t. Nearer s t i) (sym e)
              (inr (
                mark_all-unlisted s.entries chosen i h,
                rw (after_launch-wait s chosen i (runnable_at-lt s.entries i r)) k,
              ))
      ]
    ]

pub schedule-generation :
    (s : SequenceScheduler) (maximum : ℕ)
    → (schedule granted maximum s).0.generation ≤ s.generation + 1
unfolding schedule launch
schedule-generation s maximum = ground arith
