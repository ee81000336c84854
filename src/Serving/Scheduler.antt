-- ===== src/Serving/Scheduler.antt =====
-- include/marketforge/serving/sequence_scheduler.hpp and the operations on one sequence of
-- src/serving/sequence_scheduler.cpp. `Entry*` is the first entry with the id; a write through it
-- replaces that entry. A call returns the scheduler after it.
pub mod Batching
pub mod Entries
pub mod Selected
pub mod Invariant
pub mod Fairness
pub mod Batches
pub mod Turns
pub mod Snapshot
pub mod Terminal
mod Tests
use market_sim.Prelude.{
  ℕ, suc, ◌+◌, ◌-◌, ◌%◌, ◌≡◌, Bool, true, false, not, ◌&&◌, ◌||◌, List, [], ◌∷◌, ◌++◌, Option, none,
  some, length, ltb, ◌==◌, if◌then◌else◌,
}
use market_sim.Core.Status.{
  Status, Result, success, failure, fails, status_success, status_failure, invalid_argument,
  Allocation, try_block,
}
use market_sim.Core.CheckedMath.{u32_max}

pub data SequencePhase : Type 0 where
  queued decoding paused finished cancelled : SequencePhase

pub data WorkKind : Type 0 where
  prefill decode : WorkKind

pub record SequenceRequest : Type 0 where
  pub id : ℕ  -- uint64
  pub prompt_tokens : ℕ  -- uint32
  pub max_output_tokens : ℕ  -- uint32

pub record SequenceState : Type 0 where
  pub id : ℕ
  pub phase : SequencePhase
  pub prompt_tokens : ℕ
  pub generated_tokens : ℕ
  pub max_output_tokens : ℕ
  pub in_flight : Bool
  pub cancel_pending : Bool

pub record SchedulerSnapshot : Type 0 where
  pub generation : ℕ  -- uint64
  pub sequence_count : ℕ  -- size_t, as the others
  pub resident_count : ℕ
  pub runnable_count : ℕ
  pub in_flight_count : ℕ
  pub paused_count : ℕ
  pub finished_count : ℕ
  pub cancelled_count : ℕ

pub record Entry : Type 0 where
  pub request : SequenceRequest
  pub open request use *
  pub phase : SequencePhase
  pub resume_phase : SequencePhase
  pub in_flight_work : WorkKind
  pub generated_tokens : ℕ  -- uint32
  pub in_flight : Bool
  pub cancel_pending : Bool

pub record SequenceScheduler : Type 0 where
  pub entries : List Entry
  pub next_scan_index : ℕ  -- size_t
  pub generation : ℕ  -- uint64

abbrev pub is_queued : SequencePhase → Bool
is_queued queued = true
is_queued _ = false

abbrev pub is_paused : SequencePhase → Bool
is_paused paused = true
is_paused _ = false

abbrev pub is_finished : SequencePhase → Bool
is_finished finished = true
is_finished _ = false

abbrev pub is_cancelled : SequencePhase → Bool
is_cancelled cancelled = true
is_cancelled _ = false

abbrev pub is_terminal : SequencePhase → Bool
is_terminal phase = is_finished phase || is_cancelled phase

-- `phase == queued || phase == decoding`.
abbrev pub is_active : SequencePhase → Bool
is_active queued = true
is_active decoding = true
is_active _ = false

abbrev pub is_runnable : Entry → Bool
is_runnable e = not e.in_flight && not e.cancel_pending && is_active e.phase

unfoldable pub find : ℕ → List Entry → Option Entry
find id [] = none
find id (e ∷ rest) = if e.id == id then some e else find id rest

-- A write through the pointer that `find` returns.
unfoldable pub replace : ℕ → Entry → List Entry → List Entry
replace id e' [] = []
replace id e' (e ∷ rest) = if e.id == id then e' ∷ rest else e ∷ replace id e' rest

abbrev pub is_some {ℓ} : {A : Type ℓ} → Option A → Bool
is_some none = false
is_some (some _) = true

-- The defaults of `Entry{request}`.
abbrev pub new_entry : SequenceRequest → Entry
new_entry r = record {
  request = r;
  phase = queued;
  resume_phase = queued;
  in_flight_work = prefill;
  generated_tokens = 0;
  in_flight = false;
  cancel_pending = false;
}

unfoldable pub enqueue :
    Allocation → SequenceRequest → SequenceScheduler → SequenceScheduler × Status
unfolding find
enqueue memory r s =
    if r.id == 0
      || r.prompt_tokens == 0
      || r.max_output_tokens == 0
      || ltb (u32_max - r.max_output_tokens) r.prompt_tokens
      || is_some (find r.id s.entries)
    then (s, status_failure invalid_argument)
    else try_block memory (λ code. (s, status_failure code))
        (record s { entries = s.entries ++ new_entry r ∷ [] }, status_success)

-- What an operation does to the entry that it found: the new entry, or the status of the refusal.
pub on_entry : ℕ → (Entry → Result Entry) → SequenceScheduler → SequenceScheduler × Status
unfolding find replace
on_entry id body s = elim (find id s.entries) [
  | none ↦ (s, status_failure invalid_argument)
  | some e ↦ elim (body e) [
    | success e' ↦ (record s { entries = replace id e' s.entries }, status_success)
    | failure status ↦ (s, status)
  ]
]

-- A difference of uint32.
abbrev pub remaining_tokens : Entry → ℕ
remaining_tokens e = (e.max_output_tokens + 4294967296 - e.generated_tokens) % 4294967296

-- A refusal for too many tokens restores `in_flight`, which was set.
pub complete_entry : ℕ → Bool → Entry → Result Entry
complete_entry emitted terminal e =
    let landed = record e { in_flight = false } in
    let generated = (e.generated_tokens + emitted) % 4294967296 in
    if not e.in_flight || (emitted == 0 && not terminal)
    then fails invalid_argument
    else if e.cancel_pending
    then success (record landed { cancel_pending = false; phase = cancelled })
    else if ltb (remaining_tokens e) emitted
    then fails invalid_argument
    else success (record landed {
      generated_tokens = generated;
      phase = if terminal || generated == e.max_output_tokens then finished else decoding;
    })

pub pause_entry : Entry → Result Entry
pause_entry e =
    if e.in_flight || is_terminal e.phase
    then fails invalid_argument
    else if is_paused e.phase
    then success e
    else success (record e { resume_phase = e.phase; phase = paused })

pub resume_entry : Entry → Result Entry
resume_entry e =
    if not (is_paused e.phase)
    then fails invalid_argument
    else success (record e { phase = e.resume_phase })

pub cancel_entry : Entry → Result Entry
cancel_entry e =
    if is_finished e.phase
    then fails invalid_argument
    else if is_cancelled e.phase
    then success e
    else if e.in_flight
    then success (record e { cancel_pending = true })
    else success (record e { phase = cancelled })

unfoldable pub complete : ℕ → ℕ → Bool → SequenceScheduler → SequenceScheduler × Status
unfolding on_entry complete_entry
complete id emitted terminal s = on_entry id (complete_entry emitted terminal) s

unfoldable pub pause : ℕ → SequenceScheduler → SequenceScheduler × Status
unfolding on_entry pause_entry
pause id s = on_entry id pause_entry s

unfoldable pub resume : ℕ → SequenceScheduler → SequenceScheduler × Status
unfolding on_entry resume_entry
resume id s = on_entry id resume_entry s

unfoldable pub cancel : ℕ → SequenceScheduler → SequenceScheduler × Status
unfolding on_entry cancel_entry
cancel id s = on_entry id cancel_entry s

unfoldable pub state : ℕ → SequenceScheduler → Result SequenceState
unfolding find
state id s = elim (find id s.entries) [
  | none ↦ fails invalid_argument
  | some e ↦ success (record {
    id = e.id;
    phase = e.phase;
    prompt_tokens = e.prompt_tokens;
    generated_tokens = e.generated_tokens;
    max_output_tokens = e.max_output_tokens;
    in_flight = e.in_flight;
    cancel_pending = e.cancel_pending;
  })
]

-- A counter of `snapshot`, which adds 1 for each entry that passes its test.
abbrev pub count : (Entry → Bool) → List Entry → ℕ
count test [] = 0
count test (e ∷ rest) = (if test e then 1 else 0) + count test rest

unfoldable pub snapshot : SequenceScheduler → SchedulerSnapshot
snapshot s = record {
  generation = s.generation;
  sequence_count = length s.entries;
  resident_count = count (λ e. not (is_terminal e.phase)) s.entries;
  runnable_count = count is_runnable s.entries;
  in_flight_count = count (λ e. e.in_flight) s.entries;
  paused_count = count (λ e. is_paused e.phase) s.entries;
  finished_count = count (λ e. is_finished e.phase) s.entries;
  cancelled_count = count (λ e. is_cancelled e.phase) s.entries;
}
