-- ===== src/Serving/KvCache/Fresh.antt =====
-- The ids of reservations over any sequence of calls.
use native.Mathlib.Nat.{mod-eq_of_lt}
use market_sim.Prelude.{
  ℕ, ◌+◌, ◌%◌, ◌≤◌, ◌<◌, ◌≡◌, inl, inr, refl, not, ◌||◌, List, [], ◌∷◌, arith, length, ltb, ◌==◌,
  Bool-cases, Option-cases, ℕ_discrete,
}
use market_sim.Prelude.Sort.{All-append, All-map}
use market_sim.Prelude.Found.{erase_first-All}
use market_sim.Core.Status.{
  status_success, Allocation, granted, bad_alloc, length_error, try_block-keeps, success, fails,
  insufficient_memory,
}
use market_sim.Core.CheckedMath.{u32_max, u64_max}
use market_sim.Serving.KvCache.{
  PagedKvCache, PendingReservation, find_sequence, find_reservation, all_owned, page_of, reserved,
  is_none, find_sequence_reservation, KvReservation, new_cache,
}
use market_sim.Serving.KvCache.Sequences.{
  create_sequence, destroy_sequence, publish_prefix, destroy_prefix,
}
use market_sim.Serving.KvCache.Reservations.{
  reserve, commit, rollback, book, pending, erase_reservation, select_free, new_page_count,
}
use market_sim.Serving.KvCache.Runs.{
  Call, creates_sequence, destroys_sequence, reserves, commits, rolls_back, publishes,
  destroys_prefix, step, run, run_keeps-Ledger, new_cache-Ledger,
}
use market_sim.Serving.KvCache.Rollback.{Fresh, rollback-reserve}

-- An operation that gives no reservation and takes none.
abbrev SameReservations : PagedKvCache → PagedKvCache → Type 0
SameReservations c c' =
    (c'.reservations ≡ c.reservations) × (c'.next_reservation_id ≡ c.next_reservation_id)

Same-Fresh : (c c' : PagedKvCache) → SameReservations c c' → Fresh c → Fresh c'
Same-Fresh c c' (a, b) f = rw (a, b) f

create_sequence-Same :
    (memory : Allocation) (id prefix_id : ℕ) (c : PagedKvCache)
    → SameReservations c (create_sequence memory id prefix_id c).0
unfolding create_sequence
create_sequence-Same granted id prefix_id c = (ground arith, ground arith)
create_sequence-Same bad_alloc id prefix_id c = (ground arith, ground arith)
create_sequence-Same length_error id prefix_id c = (ground arith, ground arith)

destroy_sequence-Same : (id : ℕ) (c : PagedKvCache) → SameReservations c (destroy_sequence id c).0
unfolding destroy_sequence
destroy_sequence-Same id c = (ground arith, ground arith)

publish_prefix-Same :
    (memory : Allocation) (prefix_id id : ℕ) (c : PagedKvCache)
    → SameReservations c (publish_prefix memory prefix_id id c).0
unfolding publish_prefix
publish_prefix-Same granted prefix_id id c = (ground arith, ground arith)
publish_prefix-Same bad_alloc prefix_id id c = (ground arith, ground arith)
publish_prefix-Same length_error prefix_id id c = (ground arith, ground arith)

destroy_prefix-Same : (id : ℕ) (c : PagedKvCache) → SameReservations c (destroy_prefix id c).0
unfolding destroy_prefix
destroy_prefix-Same id c = (ground arith, ground arith)

-- Erasing a reservation.
erased-Fresh :
    (id : ℕ) (c : PagedKvCache)
    → Fresh c
    → Fresh (record c { reservations = erase_reservation id c.reservations })
erased-Fresh id c (b, inl z) = (b, inl z)
erased-Fresh id c (b, inr a) = (
  b,
  inr (
      erase_first-All (λ (r : PendingReservation). r.id == id)
        (λ (r : PendingReservation). r.id < c.next_reservation_id) c.reservations a),
)

rollback-Fresh : (id : ℕ) (c : PagedKvCache) → Fresh c → Fresh (rollback id c).0
unfolding rollback
rollback-Fresh id c f = elim (Option-cases (find_reservation c id)) [
  | inl missing ↦ rw (missing, rollback) f
  | inr (r, e) ↦ elim (Bool-cases (all_owned c.pages (page_of reserved id) r.pages)) [
    | inl own ↦ rw (e, rollback, own) (erased-Fresh id c f)
    | inr bad ↦ rw (e, rollback, bad) f
  ]
]

commit-Fresh :
    (memory : Allocation) (id : ℕ) (c : PagedKvCache) → Fresh c → Fresh (commit memory id c).0
unfolding commit
commit-Fresh memory id c f = elim (Option-cases (find_reservation c id)) [
  | inl missing ↦ rw (missing, commit) f
  | inr (r, e) ↦ elim (Option-cases (find_sequence c r.sequence_id)) [
    | inl gone ↦ rw (e, commit, gone) f
    | inr (s, g) ↦ elim (Bool-cases (all_owned c.pages (page_of reserved id) r.pages)) [
      | inr bad ↦ rw (e, commit, g, bad) f
      | inl own ↦
          rw (e, commit, g, own)
            (try_block-keeps Fresh memory _ c (_, status_success) f (erased-Fresh id c f))
    ]
  ]
]

booked-Fresh :
    (sequence_id target : ℕ) (selected : List ℕ) (c : PagedKvCache)
    → 1 ≤ c.next_reservation_id
    → Fresh c
    → Fresh (book sequence_id target selected c).0
booked-Fresh sequence_id target selected c p (b, inl z) = absurd (omega arith)
booked-Fresh sequence_id target selected c p (b, inr a) =
    elim (ℕ_discrete c.next_reservation_id u64_max) [
      | yes last ↦
          let over : (c.next_reservation_id + 1) % 18446744073709551616 ≡ 0 = rw last refl in
          (omega (arith, over), inl over)
      | no more ↦
          let id = c.next_reservation_id in
          let up : (id + 1) % 18446744073709551616 ≡ id + 1 = mod-eq_of_lt (omega arith) in
          (
            omega (arith, up),
            inr (
                rw up (
                  All-append (λ (r : PendingReservation). r.id < id + 1) c.reservations
                    (pending id sequence_id target selected ∷ [])
                    (All-map c.reservations (λ r q. omega (arith, q)) a) (omega arith, tt))),
          )
    ]

reserve-Fresh :
    (memory : Allocation) (id target : ℕ) (c : PagedKvCache)
    → Fresh c
    → Fresh (reserve memory id target c).0
unfolding reserve
reserve-Fresh memory id target c f = elim (Option-cases (find_sequence c id)) [
  | inl missing ↦ rw (missing, reserve) f
  | inr (s, e) ↦
      elim (Bool-cases (
        not (is_none (find_sequence_reservation c id))
        || ltb target s.total_tokens
        || c.next_reservation_id == 0)) [
          | inl bad ↦ rw (e, reserve, bad) f
          | inr fine ↦
              let wanted = new_page_count c s target in
              let selected = select_free c.pages 0 wanted in
              elim (Bool-cases (length selected == wanted)) [
                | inl enough ↦
                    rw (e, reserve, fine, enough)
                      (try_block-keeps Fresh memory fails c (book id target selected c) f
                        (booked-Fresh id target selected c (ground arith) f))
                | inr few ↦
                    rw (e, reserve, fine, few)
                      (try_block-keeps Fresh memory fails c (c, fails insufficient_memory) f f)
              ]
        ]
]

step-Fresh : (c : PagedKvCache) (x : Call) → Fresh c → Fresh (step c x)
unfolding step
step-Fresh c (creates_sequence memory id prefix_id) f =
    Same-Fresh c (create_sequence memory id prefix_id c).0
      (create_sequence-Same memory id prefix_id c) f
step-Fresh c (destroys_sequence id) f =
    Same-Fresh c (destroy_sequence id c).0 (destroy_sequence-Same id c) f
step-Fresh c (reserves memory id target) f = reserve-Fresh memory id target c f
step-Fresh c (commits memory id) f = commit-Fresh memory id c f
step-Fresh c (rolls_back id) f = rollback-Fresh id c f
step-Fresh c (publishes memory prefix_id id) f =
    Same-Fresh c (publish_prefix memory prefix_id id c).0
      (publish_prefix-Same memory prefix_id id c) f
step-Fresh c (destroys_prefix id) f =
    Same-Fresh c (destroy_prefix id c).0 (destroy_prefix-Same id c) f

run-Fresh : (c : PagedKvCache) (xs : List Call) → Fresh c → Fresh (run c xs)
unfolding run
run-Fresh c [] f = f
run-Fresh c (x ∷ xs) f = run-Fresh (step c x) xs (step-Fresh c x f)

-- After any calls to a cache that `create` returned, whatever they refuse and whatever allocations
-- fail: if `reserve` then gives a reservation, rolling it back leaves the cache as it was before
-- `reserve`, apart from the next reservation's id, which goes up by 1 (modulo 2 ^ 64).
pub run-rollback-reserve :
    (page_count tokens_per_page : ℕ) (xs : List Call) (memory : Allocation) (sequence_id target : ℕ)
    (c' : PagedKvCache) (r : KvReservation)
    → page_count ≤ u32_max
    → reserve memory sequence_id target (run (new_cache page_count tokens_per_page) xs)
      ≡ (c', success r)
    → rollback r.id c' ≡ (
      record (run (new_cache page_count tokens_per_page) xs) {
        next_reservation_id =
            ((run (new_cache page_count tokens_per_page) xs).next_reservation_id + 1)
            % 18446744073709551616;
      },
      status_success,
    )
run-rollback-reserve page_count tokens_per_page xs memory sequence_id target c' r h e =
    let c = new_cache page_count tokens_per_page in
    rollback-reserve memory sequence_id target (run c xs) c' r
      (run_keeps-Ledger c xs (new_cache-Ledger page_count tokens_per_page h))
      (run-Fresh c xs (omega arith, inr tt)) e
