-- ===== src/Serving/Scheduler/Invariant.antt =====
-- The invariant of the scheduler over any sequence of calls.
use market_sim.Prelude.{
  ℕ, ◌-◌, ◌≤◌, ◌≡◌, inl, inr, ◌∙◌, subst, Bool, true, false, ◌||◌, List, [], ◌∷◌, ◌++◌, none, arith,
  length, length-append, ltb, ◌==◌, Bool-cases, Option-cases,
}
use market_sim.Prelude.Sort.{All, All-append, All-map}
use market_sim.Core.Status.{
  Result, fails, Allocation, granted, bad_alloc, length_error, try_block, Result-cases,
}
use market_sim.Core.CheckedMath.{u32_max, u64_max}
use market_sim.Serving.Scheduler.{
  SequenceScheduler, SequenceRequest, Entry, find, on_entry, enqueue, complete, pause, resume,
  cancel, new_entry, is_some,
}
use market_sim.Serving.Scheduler.Batching.{
  schedule, launch, selection, is_nil, runnable_at, InferenceBatch,
}
use market_sim.Serving.Scheduler.Entries.{
  IsGoodEntry, Keeps, pause_entry-Keeps, resume_entry-Keeps, cancel_entry-Keeps,
  complete_entry-Keeps, of_id, find-exact, find-none-count, All-replace, of_id-replace,
  length-replace, count-append,
}
use market_sim.Serving.Scheduler.Selected.{
  mark_all-Inv, select-runnable, runnable-active, runnable_at-lt,
}

pub record Inv (s : SequenceScheduler) : Type 0 where
  pub good : All IsGoodEntry s.entries
  -- No two sequences share an id.
  pub unique : (id : ℕ) → of_id id s.entries ≤ 1
  pub scan : s.next_scan_index ≤ length s.entries
  pub generation_fits : s.generation ≤ u64_max

abbrev pub new_scheduler : SequenceScheduler
new_scheduler = record { entries = []; next_scan_index = 0; generation = 0 }

pub new_scheduler-Inv : Inv new_scheduler
new_scheduler-Inv = record {
  good = tt;
  unique = λ id. omega arith;
  scan = omega arith;
  generation_fits = omega arith;
}

on_entry-Inv :
    (id : ℕ) (body : Entry → Result Entry) (s : SequenceScheduler)
    → Keeps body
    → Inv s
    → Inv (on_entry id body s).0
unfolding on_entry
on_entry-Inv id body s keeps v = elim (Option-cases (find id s.entries)) [
  | inl e ↦ rw (e, on_entry) v
  | inr (x, e) ↦ elim (Result-cases (body x)) [
    | inr (t, f) ↦ rw (e, on_entry, f) v
    | inl (x', f) ↦
        let (gx, idx) = find-exact id s.entries x v.good e in
        let (g, idx') = keeps x x' gx f in
        rw (e, on_entry, f)
          (record {
            good = All-replace id x' s.entries g v.good;
            unique = λ k. omega (arith, v.unique k, of_id-replace k id x' s.entries (idx' ∙ idx));
            scan = omega (arith, v.scan, length-replace id x' s.entries);
            generation_fits = v.generation_fits;
          })
  ]
]

-- The test that `enqueue` begins with.
abbrev refused : SequenceRequest → SequenceScheduler → Bool
refused r s =
    r.id == 0
    || r.prompt_tokens == 0
    || r.max_output_tokens == 0
    || ltb (u32_max - r.max_output_tokens) r.prompt_tokens
    || is_some (find r.id s.entries)

new_entry-IsGoodEntry :
    (r : SequenceRequest) (s : SequenceScheduler) → refused r s ≡ false → IsGoodEntry (new_entry r)
new_entry-IsGoodEntry r s h = ground arith

once_more :
    (r : SequenceRequest) (s : SequenceScheduler)
    → refused r s ≡ false
    → ((k : ℕ) → of_id k s.entries ≤ 1)
    → (k : ℕ) → of_id k (s.entries ++ new_entry r ∷ []) ≤ 1
once_more r s h u k =
    let missing : find r.id s.entries ≡ none = ground arith in
    let none_yet = find-none-count r.id s.entries missing in
    let split = count-append (λ e. e.id == k) s.entries (new_entry r ∷ []) in
    elim (Bool-cases (r.id == k)) [
      | inl e ↦
          let same : of_id k s.entries ≡ 0 =
            subst (λ i. of_id i s.entries ≡ 0) (let q : r.id ≡ k = ground arith in q) none_yet in
          ground (arith, split)
      | inr e ↦ ground (arith, split, u k)
    ]

enqueue-Inv :
    (memory : Allocation) (r : SequenceRequest) (s : SequenceScheduler)
    → Inv s
    → Inv (enqueue memory r s).0
unfolding enqueue
enqueue-Inv granted r s v = elim (Bool-cases (refused r s)) [
  | inl e ↦ rw (e, enqueue) v
  | inr e ↦
      rw (e, enqueue)
        (record {
          good =
              All-append IsGoodEntry s.entries (new_entry r ∷ []) v.good
                (new_entry-IsGoodEntry r s e, tt);
          unique = once_more r s e v.unique;
          scan = omega (arith, v.scan, length-append s.entries (new_entry r ∷ []));
          generation_fits = v.generation_fits;
        })
]
enqueue-Inv bad_alloc r s v = elim (Bool-cases (refused r s)) [
  | inl e ↦ rw (e, enqueue) v
  | inr e ↦ rw (e, enqueue) v
]
enqueue-Inv length_error r s v = elim (Bool-cases (refused r s)) [
  | inl e ↦ rw (e, enqueue) v
  | inr e ↦ rw (e, enqueue) v
]

launch-Inv :
    (selected : List ℕ) (s : SequenceScheduler)
    → All (λ i. runnable_at s.entries i ≡ true) selected
    → Inv s
    → Inv (launch selected s).0
unfolding launch
launch-Inv [] s r v = v
launch-Inv (i ∷ is) s r v = elim (Bool-cases (s.generation == u64_max)) [
  | inl full ↦ rw (full, launch) v
  | inr room ↦
      let (good, size, once) =
        mark_all-Inv s.entries (i ∷ is) v.good
          (All-map (i ∷ is) (λ j h. runnable-active s.entries j h) r) in
      rw (room, launch)
        (record {
          good = good;
          unique = λ id. omega (arith, once id, v.unique id);
          scan = omega (arith, size, runnable_at-lt s.entries i r.0);
          generation_fits = ground arith;
        })
]

schedule-Inv :
    (memory : Allocation) (maximum : ℕ) (s : SequenceScheduler)
    → Inv s
    → Inv (schedule memory maximum s).0
unfolding schedule
schedule-Inv memory maximum s v =
    let launched =
      launch-Inv (selection s maximum) s
        (select-runnable s.entries _ _ _ (length s.entries) 0 [] tt) v in
    elim (Bool-cases (maximum == 0)) [
      | inl none_asked ↦ rw (none_asked, schedule) v
      | inr some_asked ↦ elim (Bool-cases (is_nil s.entries)) [
        | inl idle ↦ rw (some_asked, idle, schedule) v
        | inr busy ↦ rw (some_asked, busy, schedule) (attempt memory launched)
      ]
    ]
  where
    attempt :
        (memory : Allocation)
        → Inv (launch (selection s maximum) s).0
        → Inv
            (try_block {A = SequenceScheduler × Result InferenceBatch} memory
              (λ code. (s, fails code))
              (launch (selection s maximum) s)).0
    attempt granted l = l
    attempt bad_alloc l = v
    attempt length_error l = v

-- The calls of a client, with the outcome of the allocations of each.
pub data Call : Type 0 where
  enqueues : Allocation → SequenceRequest → Call
  schedules : Allocation → ℕ → Call
  completes : ℕ → ℕ → Bool → Call
  pauses resumes cancels : ℕ → Call

unfoldable pub step : SequenceScheduler → Call → SequenceScheduler
unfolding enqueue schedule complete pause resume cancel
step s (enqueues memory r) = (enqueue memory r s).0
step s (schedules memory maximum) = (schedule memory maximum s).0
step s (completes id emitted terminal) = (complete id emitted terminal s).0
step s (pauses id) = (pause id s).0
step s (resumes id) = (resume id s).0
step s (cancels id) = (cancel id s).0

unfoldable pub run : SequenceScheduler → List Call → SequenceScheduler
unfolding step
run s [] = s
run s (c ∷ cs) = run (step s c) cs

pub step-Inv : (s : SequenceScheduler) (c : Call) → Inv s → Inv (step s c)
unfolding step
step-Inv s (enqueues memory r) v = enqueue-Inv memory r s v
step-Inv s (schedules memory maximum) v = schedule-Inv memory maximum s v
step-Inv s (completes id emitted terminal) v =
    on_entry-Inv id _ s (complete_entry-Keeps emitted terminal) v
step-Inv s (pauses id) v = on_entry-Inv id _ s pause_entry-Keeps v
step-Inv s (resumes id) v = on_entry-Inv id _ s resume_entry-Keeps v
step-Inv s (cancels id) v = on_entry-Inv id _ s cancel_entry-Keeps v

-- Any calls, whatever fails on the way, keep the invariant, which a new scheduler satisfies: no two sequences share an id, and
-- every sequence satisfies `IsGoodEntry`: only an active one is in flight, a pending cancellation
-- waits for one in flight, and no token budget is overrun.
pub run-Inv : (s : SequenceScheduler) (cs : List Call) → Inv s → Inv (run s cs)
unfolding run
run-Inv s [] v = v
run-Inv s (c ∷ cs) v = run-Inv (step s c) cs (step-Inv s c v)
