-- ===== src/Serving/Scheduler/Turns.antt =====
-- The round robin of `schedule`, with other calls in between: a sequence that is runnable gets its turn.
use native.Mathlib.Nat.{mod-lt}
use market_sim.Prelude.{
  ℕ, zero, suc, ◌+◌, ◌-◌, ◌%◌, ◌≤◌, ◌<◌, ◌≡◌, ◌⊎◌, inl, inr, refl, ap, sym, ◌∙◌, subst, Bool, true,
  false, not, List, [], ◌∷◌, some, some-injective, arith, length, ◌==◌, if◌then◌else◌, Bool-cases,
  Option-cases, get_elem?,
}
use market_sim.Prelude.Sort.{All}
use market_sim.Core.Status.{
  Allocation, granted, bad_alloc, length_error, Result, success, Result-cases,
}
use market_sim.Core.CheckedMath.{u64_max}
use market_sim.Serving.Scheduler.{
  SequenceScheduler, Entry, is_runnable, find, replace, on_entry, complete, pause, resume, cancel,
  complete_entry, pause_entry, resume_entry, cancel_entry,
}
use market_sim.Serving.Scheduler.Batching.{schedule, runnable_at}
use market_sim.Serving.Scheduler.Invariant.{
  Call, enqueues, schedules, completes, pauses, resumes, cancels, step,
}
use market_sim.Serving.Scheduler.Selected.{runnable_at-lt}
use market_sim.Serving.Scheduler.Fairness.{wait}
use market_sim.Serving.Scheduler.Batches.{
  in_flight_at, Nearer, schedule_progress, schedule-generation,
}

-- The entry at a place is in flight at some time in a run.
abbrev pub Flies : SequenceScheduler → List Call → ℕ → Type 0
Flies s [] i = in_flight_at s.entries i ≡ true
Flies s (c ∷ cs) i = (in_flight_at s.entries i ≡ true) ⊎ Flies (step s c) cs i

-- A call of `schedule` that asks for a batch and finds memory.
abbrev pub is_turn : Call → Bool
is_turn (schedules granted maximum) = not (maximum == 0)
is_turn _ = false

abbrev pub turns : List Call → ℕ
turns [] = 0
turns (c ∷ cs) = (if is_turn c then 1 else 0) + turns cs

-- A call that neither adds a sequence nor pauses or cancels the one with an id.
abbrev pub Spares : ℕ → Call → Type 0
Spares id (enqueues memory r) = ⊥
Spares id (schedules memory maximum) = Unit
Spares id (completes other emitted terminal) = Unit
Spares id (pauses other) = ¬ (id ≡ other)
Spares id (resumes other) = Unit
Spares id (cancels other) = ¬ (id ≡ other)

replace-get :
    (id : ℕ) (e' : Entry) (es : List Entry) (i : ℕ)
    → (get_elem? (replace id e' es) i ≡ get_elem? es i) ⊎ (get_elem? es i ≡ find id es)
unfolding replace find
replace-get id e' [] i = inl refl
replace-get id e' (x ∷ es) zero = elim (Bool-cases (x.id == id)) [
  | inl hit ↦ inr (rw hit refl)
  | inr miss ↦ inl (rw miss refl)
]
replace-get id e' (x ∷ es) (suc i) = elim (Bool-cases (x.id == id)) [
  | inl hit ↦ inl (rw hit refl)
  | inr miss ↦ rw miss (replace-get id e' es i)
]

length-replace : (id : ℕ) (e' : Entry) (es : List Entry) → length (replace id e' es) ≡ length es
unfolding replace
length-replace id e' [] = refl
length-replace id e' (x ∷ es) = ground (arith, length-replace id e' es)

find-id : (id : ℕ) (es : List Entry) (x : Entry) → find id es ≡ some x → x.id ≡ id
unfolding find
find-id id [] x h = cc
find-id id (y ∷ es) x h = ground (arith, find-id id es x)

-- What a call leaves, for the entry at a place: the entry, and how far the next scan is from it.
abbrev Waits : SequenceScheduler → SequenceScheduler → ℕ → Entry → Type 0
Waits before after i e =
    (get_elem? after.entries i ≡ some e)
    × (wait after i ≡ wait before i)
    × (after.generation ≡ before.generation)

on_entry-Waits :
    (id : ℕ) (body : Entry → Result Entry) (s : SequenceScheduler) (i : ℕ) (e : Entry)
    → get_elem? s.entries i ≡ some e
    → ((e' : Entry) → e.id ≡ id → ¬ (body e ≡ success e'))
    → Waits s (on_entry id body s).0 i e
unfolding on_entry
on_entry-Waits id body s i e at refuses = elim (Option-cases (find id s.entries)) [
  | inl missing ↦ rw (missing, on_entry) (at, refl, refl)
  | inr (x, f) ↦ elim (Result-cases (body x)) [
    | inr (status, g) ↦ rw (f, on_entry, g) (at, refl, refl)
    | inl (x', g) ↦
        let size = length-replace id x' s.entries in
        rw (f, on_entry, g)
          (elim (replace-get id x' s.entries i) [
            | inl same ↦ (same ∙ at, rw size refl, refl)
            | inr found ↦
                let one : x ≡ e = some-injective _ _ (sym f ∙ sym found ∙ at) in
                absurd (
                  refuses x' (ap (λ (y : Entry). y.id) (sym one) ∙ find-id id s.entries x f)
                    (subst (λ (y : Entry). body y ≡ success x') one g))
          ])
  ]
]

complete_entry-refuses :
    (emitted : ℕ) (terminal : Bool) (e e' : Entry)
    → is_runnable e ≡ true
    → ¬ (complete_entry emitted terminal e ≡ success e')
unfolding complete_entry
complete_entry-refuses emitted terminal e e' r h = ground arith

resume_entry-refuses : (e e' : Entry) → is_runnable e ≡ true → ¬ (resume_entry e ≡ success e')
unfolding resume_entry
resume_entry-refuses e e' r h = ground arith

schedule-idle :
    (memory : Allocation) (maximum : ℕ) (s : SequenceScheduler)
    → is_turn (schedules memory maximum) ≡ false
    → (schedule memory maximum s).0 ≡ s
unfolding schedule
schedule-idle granted maximum s h =
    let none_asked : (maximum == 0) ≡ true = ground arith in rw none_asked refl
schedule-idle bad_alloc maximum s h = ground arith
schedule-idle length_error maximum s h = ground arith

-- A call that is no turn leaves a runnable sequence that it spares as it is.
step-Waits :
    (s : SequenceScheduler) (c : Call) (i : ℕ) (e : Entry)
    → get_elem? s.entries i ≡ some e
    → is_runnable e ≡ true
    → Spares e.id c
    → is_turn c ≡ false
    → Waits s (step s c) i e
unfolding step complete pause resume cancel
step-Waits s (enqueues memory r) i e at ready spared idle = absurd spared
step-Waits s (schedules memory maximum) i e at ready spared idle =
    subst (λ (t : SequenceScheduler). Waits s t i e) (sym (schedule-idle memory maximum s idle))
      (at, refl, refl)
step-Waits s (completes id emitted terminal) i e at ready spared idle =
    on_entry-Waits id (complete_entry emitted terminal) s i e at
      λ e' _. complete_entry-refuses emitted terminal e e' ready
step-Waits s (pauses id) i e at ready spared idle =
    on_entry-Waits id pause_entry s i e at λ e' same _. spared same
step-Waits s (resumes id) i e at ready spared idle =
    on_entry-Waits id resume_entry s i e at λ e' _. resume_entry-refuses e e' ready
step-Waits s (cancels id) i e at ready spared idle =
    on_entry-Waits id cancel_entry s i e at λ e' same _. spared same

Flies-now :
    (s : SequenceScheduler) (cs : List Call) (i : ℕ)
    → in_flight_at s.entries i ≡ true
    → Flies s cs i
Flies-now s [] i h = h
Flies-now s (c ∷ cs) i h = inl h

-- A turn brings a runnable sequence in flight or nearer.
turn_progress :
    (s : SequenceScheduler) (c : Call) (i : ℕ)
    → is_turn c ≡ true
    → s.generation < u64_max
    → runnable_at s.entries i ≡ true
    → Nearer s (step s c) i × ((step s c).generation ≤ s.generation + 1)
unfolding step
turn_progress s (schedules granted maximum) i turn g r =
    (schedule_progress s maximum i (ground arith) g r, schedule-generation s maximum)
turn_progress s (schedules bad_alloc maximum) i turn g r = cc
turn_progress s (schedules length_error maximum) i turn g r = cc
turn_progress s (enqueues memory r) i turn g k = cc
turn_progress s (completes id emitted terminal) i turn g k = cc
turn_progress s (pauses id) i turn g k = cc
turn_progress s (resumes id) i turn g k = cc
turn_progress s (cancels id) i turn g k = cc

turns-Flies :
    (cs : List Call) (s : SequenceScheduler) (i : ℕ) (e : Entry)
    → get_elem? s.entries i ≡ some e
    → is_runnable e ≡ true
    → All (Spares e.id) cs
    → s.generation + turns cs ≤ u64_max
    → wait s i < turns cs
    → Flies s cs i
turns-Flies [] s i e at ready spared g w = absurd (omega (arith, w))
turns-Flies (c ∷ cs) s i e at ready spared g w = elim (Bool-cases (is_turn c)) [
  | inr idle ↦
      let (at', same, generation) = step-Waits s c i e at ready spared.0 idle in
      let rest : turns (c ∷ cs) ≡ turns cs = ground arith in
      inr (turns-Flies cs (step s c) i e at' ready spared.1 (omega arith) (omega (arith, same)))
  | inl turn ↦
      let rest : turns (c ∷ cs) ≡ suc (turns cs) = ground arith in
      let now : runnable_at s.entries i ≡ true = ground arith in
      let (nearer, generation) = turn_progress s c i turn (omega arith) now in
      inr (elim nearer [
        | inl flying ↦ Flies-now (step s c) cs i flying
        | inr (same, closer) ↦
            turns-Flies cs (step s c) i e (same ∙ at) ready spared.1 (omega arith)
              (omega (arith, closer))
      ])
]

-- No sequence starves: one that is runnable is in flight at some time in a run that has as many turns as
-- there are sequences, each a call of `schedule` for a number above 0 that finds memory, with any calls in
-- between that complete, pause, resume or cancel sequences, but do not pause or cancel this one or add a
-- new one, when the generations do not run out.
pub run-Flies :
    (s : SequenceScheduler) (cs : List Call) (i : ℕ) (e : Entry)
    → get_elem? s.entries i ≡ some e
    → is_runnable e ≡ true
    → All (Spares e.id) cs
    → length s.entries ≤ turns cs
    → s.generation + turns cs ≤ u64_max
    → Flies s cs i
run-Flies s cs i e at ready spared enough g =
    let now : runnable_at s.entries i ≡ true = ground arith in
    let n = length s.entries in
    let below = runnable_at-lt s.entries i now in
    let near : wait s i < n = mod-lt (i + n - s.next_scan_index % n) (omega arith) in
    turns-Flies cs s i e at ready spared g (omega (arith, near, enough))
