-- ===== src/Serving/Scheduler/Snapshot.antt =====
-- The counters of `snapshot`.
use market_sim.Prelude.{◌+◌, ◌≡◌, refl, not, List, [], ◌∷◌, arith, length, if◌then◌else◌}
use market_sim.Prelude.Sort.{All}
use market_sim.Serving.Scheduler.{
  SequenceScheduler, Entry, count, snapshot, is_terminal, is_runnable, is_paused, is_finished,
  is_cancelled,
}
use market_sim.Serving.Scheduler.Entries.{IsGoodEntry}
use market_sim.Serving.Scheduler.Invariant.{Inv}

one_entry :
    (e : Entry)
    → IsGoodEntry e
    → ((if is_runnable e then 1 else 0)
          + (if e.in_flight then 1 else 0)
          + (if is_paused e.phase then 1 else 0)
        ≡ (if not (is_terminal e.phase) then 1 else 0))
one_entry e g = let a = g.flies_active in let b = g.cancels_in_flight in ground arith

residents :
    (es : List Entry)
    → All IsGoodEntry es
    → (count is_runnable es + count (λ e. e.in_flight) es + count (λ e. is_paused e.phase) es
        ≡ count (λ e. not (is_terminal e.phase)) es)
residents [] a = refl
residents (e ∷ es) a = omega (arith, one_entry e a.0, residents es a.1)

over_or_not :
    (es : List Entry)
    → (count (λ e. not (is_terminal e.phase)) es
          + count (λ e. is_finished e.phase) es
          + count (λ e. is_cancelled e.phase) es
        ≡ length es)
over_or_not [] = refl
over_or_not (e ∷ es) = ground (arith, over_or_not es)

-- In a scheduler that satisfies the invariant, the counters of `snapshot` add up: every sequence is
-- resident, finished or cancelled, and every resident one is runnable, in flight or paused.
pub snapshot-Inv :
    (s : SequenceScheduler)
    → Inv s
    → ((snapshot s).resident_count + (snapshot s).finished_count + (snapshot s).cancelled_count
        ≡ (snapshot s).sequence_count)
      × ((snapshot s).runnable_count + (snapshot s).in_flight_count + (snapshot s).paused_count
          ≡ (snapshot s).resident_count)
unfolding snapshot
snapshot-Inv s v = (over_or_not s.entries, residents s.entries v.good)
