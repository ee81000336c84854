-- ===== src/Serving/Scheduler/Batching.antt =====
-- src/serving/sequence_scheduler.cpp: `SequenceScheduler::schedule`.
use market_sim.Prelude.{
  ℕ, zero, suc, ◌+◌, ◌%◌, Bool, true, false, List, [], ◌∷◌, ◌++◌, none, some, length, get_elem?,
  set, min, ltb, ◌==◌, if◌then◌else◌,
}
use market_sim.Core.Status.{
  Result, success, fails, invalid_argument, arithmetic_overflow, Allocation, try_block,
}
use market_sim.Core.CheckedMath.{u64_max}
use market_sim.Serving.Scheduler.{
  WorkKind, prefill, decode, Entry, SequenceScheduler, is_queued, is_runnable,
}

pub record BatchItem : Type 0 where
  pub id : ℕ
  pub work : WorkKind
  pub context_tokens : ℕ  -- uint32
  pub slot : ℕ  -- size_t

pub record InferenceBatch : Type 0 where
  pub generation : ℕ
  pub items : List BatchItem

-- `is_runnable(entries_[index])`; the scan's index stays in range.
abbrev pub runnable_at : List Entry → ℕ → Bool
runnable_at es i = elim (get_elem? es i) [ none ↦ false | some e ↦ is_runnable e ]

-- The scan, with `rounds` offsets ahead; `size` is the number of entries.
unfoldable pub select : List Entry → ℕ → ℕ → ℕ → ℕ → ℕ → List ℕ → List ℕ
select es size start limit zero offset selected = selected
select es size start limit (suc rounds) offset selected =
    let index = (start + offset) % size in
    let selected' = if runnable_at es index then selected ++ index ∷ [] else selected in
    if ltb (length selected) limit
    then select es size start limit rounds (offset + 1) selected'
    else selected

abbrev pub work_of : Entry → WorkKind
work_of e = if is_queued e.phase then prefill else decode

-- A uint32 sum.
abbrev pub item_of : Entry → ℕ → BatchItem
item_of e slot = record {
  id = e.id;
  work = work_of e;
  context_tokens = (e.prompt_tokens + e.generated_tokens) % 4294967296;
  slot = slot;
}

unfoldable pub items_from : List Entry → ℕ → List ℕ → List BatchItem
items_from es slot [] = []
items_from es slot (i ∷ is) = elim (get_elem? es i) [
  | none ↦ items_from es (slot + 1) is
  | some e ↦ item_of e slot ∷ items_from es (slot + 1) is
]

abbrev pub launched : Entry → Entry
launched e = record e { in_flight = true; in_flight_work = work_of e }

-- The loop that sets the entries in flight. A phase does not change in it, so the work is that of the
-- batch's item.
unfoldable pub mark_all : List Entry → List ℕ → List Entry
mark_all es [] = es
mark_all es (i ∷ is) = elim (get_elem? es i) [
  | none ↦ mark_all es is
  | some e ↦ mark_all (set es i (launched e)) is
]

abbrev pub last : List ℕ → ℕ
last [] = 0
last (i ∷ []) = i
last (i ∷ j ∷ is) = last (j ∷ is)

abbrev pub is_nil {ℓ} : {A : Type ℓ} → List A → Bool
is_nil [] = true
is_nil _ = false

abbrev pub selection : SequenceScheduler → ℕ → List ℕ
selection s maximum =
    let n = length s.entries in select s.entries n (s.next_scan_index % n) (min maximum n) n 0 []

abbrev pub no_batch : SequenceScheduler → InferenceBatch
no_batch s = record { generation = s.generation; items = [] }

-- The end of `schedule`: the batch of what was selected, and the scheduler's new state.
unfoldable pub launch : List ℕ → SequenceScheduler → SequenceScheduler × Result InferenceBatch
unfolding items_from mark_all
launch selected s =
    if is_nil selected
    then (s, success (no_batch s))
    else if s.generation == u64_max
    then (s, fails arithmetic_overflow)
    else (
      record {
        entries = mark_all s.entries selected;
        next_scan_index = (last selected + 1) % length s.entries;
        generation = s.generation + 1;
      },
      success (record { generation = s.generation + 1; items = items_from s.entries 0 selected }),
    )

unfoldable pub schedule :
    Allocation → ℕ → SequenceScheduler → SequenceScheduler × Result InferenceBatch
unfolding launch select
schedule memory maximum s =
    if maximum == 0
    then (s, fails invalid_argument)
    else if is_nil s.entries
    then (s, success (no_batch s))
    else try_block memory (λ code. (s, fails code)) (launch (selection s maximum) s)
