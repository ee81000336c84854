-- ===== src/Serving/Scheduler/Tests.antt =====
-- The theorems on the scheduler at concrete calls.
use market_sim.Prelude.{
  ℕ, ◌+◌, ◌≤◌, ◌≡◌, refl, false, List, [], ◌∷◌, some, arith, length, get_elem?,
}
use market_sim.Prelude.Sort.{All}
use market_sim.Core.Status.{granted, bad_alloc}
use market_sim.Core.CheckedMath.{u64_max}
use market_sim.Serving.Scheduler.{
  SequenceScheduler, SequenceRequest, Entry, find, snapshot, enqueue, finished, queued, prefill,
}
use market_sim.Serving.Scheduler.Batching.{schedule}
use market_sim.Serving.Scheduler.Invariant.{
  Inv, Call, enqueues, schedules, completes, pauses, resumes, cancels, run, new_scheduler,
  new_scheduler-Inv, run-Inv,
}
use market_sim.Serving.Scheduler.Turns.{Flies, Spares, run-Flies}
use market_sim.Serving.Scheduler.Snapshot.{snapshot-Inv}
use market_sim.Serving.Scheduler.Terminal.{run-terminal}

abbrev request : ℕ → SequenceRequest
request id = record { id = id; prompt_tokens = 10; max_output_tokens = 2 }

-- Three sequences; the first runs to its end.
abbrev calls : List Call
calls =
    enqueues granted (request 7)
    ∷ enqueues granted (request 8)
    ∷ enqueues bad_alloc (request 5)
    ∷ enqueues granted (request 9)
    ∷ schedules granted 1
    ∷ completes 7 2 false
    ∷ pauses 8
    ∷ resumes 8
    ∷ []

abbrev served : SequenceScheduler
served = run new_scheduler calls

run-Inv_example : Inv (run new_scheduler calls)
run-Inv_example = run-Inv new_scheduler calls new_scheduler-Inv

snapshot-Inv_example :
    ((snapshot served).resident_count
        + (snapshot served).finished_count
        + (snapshot served).cancelled_count
      ≡ (snapshot served).sequence_count)
    × ((snapshot served).runnable_count
          + (snapshot served).in_flight_count
          + (snapshot served).paused_count
        ≡ (snapshot served).resident_count)
snapshot-Inv_example = snapshot-Inv served run-Inv_example

served_size : length served.entries ≤ 3
unfolding run enqueue schedule
served_size = omega arith

served_generation : served.generation ≡ 1
unfolding run enqueue schedule
served_generation = refl

-- The second sequence is served first and completes between the turns.
abbrev round : List Call
round = schedules granted 1 ∷ completes 8 1 false ∷ schedules granted 1 ∷ schedules granted 2 ∷ []

-- The third sequence, which waits.
abbrev waiting : Entry
waiting = record {
  request = request 9;
  phase = queued;
  resume_phase = queued;
  in_flight_work = prefill;
  generated_tokens = 0;
  in_flight = false;
  cancel_pending = false;
}

waiting_test : get_elem? served.entries 2 ≡ some waiting
unfolding run enqueue schedule
waiting_test = refl

round-Spares : All (Spares 9) round
round-Spares = (tt, (tt, (tt, (tt, tt))))

few_generations : served.generation + 3 ≤ u64_max
few_generations = omega (arith, served_generation)

run-Flies_example : Flies served round 2
run-Flies_example =
    run-Flies served round 2 waiting waiting_test refl round-Spares served_size few_generations

-- The first sequence, which is finished.
abbrev over : Entry
over = record {
  request = request 7;
  phase = finished;
  resume_phase = queued;
  in_flight_work = prefill;
  generated_tokens = 2;
  in_flight = false;
  cancel_pending = false;
}

over_test : find 7 served.entries ≡ some over
unfolding run enqueue schedule
over_test = refl

run-terminal_example :
    find 7 (run served (cancels 7 ∷ resumes 7 ∷ schedules granted 4 ∷ [])).entries ≡ some over
run-terminal_example =
    run-terminal served (cancels 7 ∷ resumes 7 ∷ schedules granted 4 ∷ []) 7 over run-Inv_example
      over_test refl
