-- ===== src/Serving/KvCache/Tests.antt =====
-- The theorems on the key-value cache at concrete calls.
use market_sim.Prelude.{
  ℕ, ◌<◌, none, length, ◌+◌, ◌%◌, ◌<◌, ◌≡◌, ◌⊎◌, refl, false, List, [], ◌∷◌, some, arith, length,
}
use market_sim.Core.Status.{status_success, success, fails, insufficient_memory, granted}
use market_sim.Core.CheckedMath.{checked_add, checked_multiply}
use market_sim.Serving.KvCache.{
  find_reservation, PagedKvCache, Sequence, KvReservation, new_cache, create, find_sequence,
}
use market_sim.Serving.KvCache.Reservations.{reserve, rollback, book}
use market_sim.Serving.KvCache.Ledger.{Ledger}
use market_sim.Serving.KvCache.Reserving.{free_count}
use market_sim.Serving.KvCache.Outcome.{reserve_outcome, reserve_refused, Grants, Lacks}
use market_sim.Serving.KvCache.Runs.{
  Call, creates_sequence, reserves, commits, rolls_back, publishes, run, run-Ledger,
}
use market_sim.Serving.KvCache.Views.{KvCacheMetrics, metrics}
use market_sim.Serving.KvCache.Metrics.{Reports, metrics_totals}
use market_sim.Serving.KvCache.Fresh.{run-rollback-reserve}

-- A cache of 6 pages of 4 tokens, in which a sequence's pages become a prefix that another shares.
abbrev cache : PagedKvCache
cache = new_cache 6 4

abbrev uses : List Call
uses =
    creates_sequence granted 7 0
    ∷ reserves granted 7 6
    ∷ commits granted 1
    ∷ publishes granted 3 7
    ∷ creates_sequence granted 8 3
    ∷ reserves granted 8 9
    ∷ rolls_back 2
    ∷ []

cache_made : create granted 6 4 ≡ success cache
unfolding create
cache_made = refl

run-Ledger_example : Ledger (run cache uses)
run-Ledger_example = run-Ledger granted 6 4 cache uses (omega arith) cache_made

-- The cache after the calls.
abbrev used : PagedKvCache
used = run cache uses

-- Eleven tokens more for the sequence with the prefix.
abbrev given : KvReservation
given = record { id = 3; sequence_id = 8; target_token_count = 17; new_pages = 2 ∷ 3 ∷ 4 ∷ [] }

reserve_test : reserve granted 8 17 used ≡ ((book 8 17 (2 ∷ 3 ∷ 4 ∷ []) used).0, success given)
unfolding run reserve
reserve_test = refl

run-rollback-reserve_example : rollback 3 (book 8 17 (2 ∷ 3 ∷ 4 ∷ []) used).0 ≡ (
  record used { next_reservation_id = (used.next_reservation_id + 1) % 18446744073709551616 },
  status_success,
)
run-rollback-reserve_example =
    run-rollback-reserve 6 4 uses granted 8 17 (book 8 17 (2 ∷ 3 ∷ 4 ∷ []) used).0 given
      (omega arith) reserve_test

abbrev sharer : Sequence
sharer = record { id = 8; prefix_id = 3; prefix_tokens = 6; total_tokens = 6; suffix_pages = [] }

sharer_test : find_sequence used 8 ≡ some sharer
unfolding run
sharer_test = refl

sharer_fine : reserve_refused used sharer 17 ≡ false
unfolding run
sharer_fine = refl

unused_test : find_reservation used used.next_reservation_id ≡ none
unfolding run reserve
unused_test = refl

few_pages_test : length used.pages ≡ 6
unfolding run reserve
few_pages_test = refl

page_size_test : used.tokens_per_page ≡ 4
unfolding run reserve
page_size_test = refl

reserve_outcome_example :
    ((c' : PagedKvCache) × (r : KvReservation) × (reserve granted 8 17 used ≡ (c', success r))
      × Grants used sharer 17 c' r)
    ⊎ ((k : ℕ) × Lacks used sharer 17 k
        × (free_count used.pages < k)
        × (reserve granted 8 17 used ≡ (used, fails insufficient_memory)))
reserve_outcome_example =
    reserve_outcome used sharer 17 sharer_test sharer_fine unused_test
      (omega (arith, page_size_test)) (omega arith) (omega arith) (omega (arith, few_pages_test))

-- The report on the cache after the calls.
abbrev metrics_seen : KvCacheMetrics
metrics_seen = record {
  total_pages = 6;
  free_pages = 4;
  pending_pages = 0;
  mutable_pages = 0;
  shared_prefix_pages = 2;
  sequence_count = 2;
  prefix_count = 1;
  prefix_attachments = 2;
  logical_payload_tokens = 12;
  logical_reserved_tokens = 16;
  logical_fragmentation_tokens = 4;
  physical_committed_tokens = 8;
}

metrics_test : metrics used ≡ success metrics_seen
unfolding run reserve metrics checked_add checked_multiply
metrics_test = refl

metrics_totals_example : Reports used metrics_seen
metrics_totals_example = metrics_totals used metrics_seen metrics_test
