-- ===== src/Serving/KvCache/Reservations.antt =====
-- src/serving/paged_kv_cache.cpp: `reserve`, `commit` and `rollback`.
use market_sim.Prelude.{
  ℕ, zero, suc, ◌+◌, ◌-◌, ◌%◌, not, ◌||◌, List, [], ◌∷◌, ◌++◌, none, some, length, ltb, ◌==◌,
  if◌then◌else◌, erase_first,
}
use market_sim.Core.Status.{
  Status, Result, success, fails, status_success, status_failure, invalid_argument,
  insufficient_memory, Allocation, try_block,
}
use market_sim.Serving.KvCache.{
  PagedKvCache, Page, Sequence, PendingReservation, KvReservation, free_page, page_of, reserved,
  mutable_sequence, find_sequence, find_reservation, find_sequence_reservation, is_none, is_free,
  all_owned, assign_pages, pages_for,
}
use market_sim.Serving.KvCache.Sequences.{refuse, corrupt, put_sequence}

-- The scan for free pages, from a page index on, with `wanted` pages still to select. A page id is
-- the index cut to 32 bits.
unfoldable pub select_free : List Page → ℕ → ℕ → List ℕ
select_free [] index wanted = []
select_free (p ∷ ps) index zero = []
select_free (p ∷ ps) index (suc wanted) =
    let rest = select_free ps (index + 1) (if is_free p then wanted else suc wanted) in
    if is_free p then index % 4294967296 ∷ rest else rest

-- How many pages a sequence lacks for a number of tokens. The difference is a uint32.
abbrev pub new_page_count : PagedKvCache → Sequence → ℕ → ℕ
new_page_count c s target =
    pages_for ((target + 4294967296 - s.prefix_tokens) % 4294967296) c.tokens_per_page
    - length s.suffix_pages

abbrev pub pending : ℕ → ℕ → ℕ → List ℕ → PendingReservation
pending id sequence_id target pages = record {
  id = id;
  sequence_id = sequence_id;
  target_token_count = target;
  pages = pages;
}

-- The end of `reserve`, for the pages that were selected.
abbrev pub book : ℕ → ℕ → List ℕ → PagedKvCache → PagedKvCache × Result KvReservation
book sequence_id target selected c =
    let id = c.next_reservation_id in
    (
      record c {
        reservations = c.reservations ++ pending id sequence_id target selected ∷ [];
        pages = assign_pages c.pages (page_of reserved id) selected;
        next_reservation_id = (id + 1) % 18446744073709551616;
      },
      success (record {
        id = id;
        sequence_id = sequence_id;
        target_token_count = target;
        new_pages = selected;
      }),
    )

unfoldable pub reserve : Allocation → ℕ → ℕ → PagedKvCache → PagedKvCache × Result KvReservation
unfolding select_free
reserve memory sequence_id target c = elim (find_sequence c sequence_id) [
  | none ↦ (c, fails invalid_argument)
  | some s ↦
      if not (is_none (find_sequence_reservation c sequence_id))
        || ltb target s.total_tokens
        || c.next_reservation_id == 0
      then (c, fails invalid_argument)
      else let wanted = new_page_count c s target in
        let selected = select_free c.pages 0 wanted in
        try_block memory (λ code. (c, fails code))
          (if length selected == wanted
            then book sequence_id target selected c
            else (c, fails insufficient_memory))
]

abbrev pub erase_reservation : ℕ → List PendingReservation → List PendingReservation
erase_reservation id reservations =
    erase_first (λ (r : PendingReservation). r.id == id) reservations

unfoldable pub commit : Allocation → ℕ → PagedKvCache → PagedKvCache × Status
commit memory id c = elim (find_reservation c id) [
  | none ↦ refuse c
  | some r ↦ elim (find_sequence c r.sequence_id) [
    | none ↦ corrupt c
    | some s ↦
        if not (all_owned c.pages (page_of reserved id) r.pages)
        then corrupt c
        else try_block memory (λ code. (c, status_failure code))
            (
              record c {
                sequences =
                    put_sequence
                      (record s {
                        suffix_pages = s.suffix_pages ++ r.pages;
                        total_tokens = r.target_token_count;
                      })
                      c.sequences;
                pages = assign_pages c.pages (page_of mutable_sequence s.id) r.pages;
                reservations = erase_reservation id c.reservations;
              },
              status_success,
            )
  ]
]

unfoldable pub rollback : ℕ → PagedKvCache → PagedKvCache × Status
rollback id c = elim (find_reservation c id) [
  | none ↦ refuse c
  | some r ↦ if not (all_owned c.pages (page_of reserved id) r.pages) then corrupt c else (
    record c {
      pages = assign_pages c.pages free_page r.pages;
      reservations = erase_reservation id c.reservations;
    },
    status_success,
  )
]
