-- ===== src/Serving/KvCache/Rollback.antt =====
-- `rollback` undoes `reserve`.
use market_sim.Prelude.{
  ℕ, suc, ◌+◌, ◌%◌, ◌≤◌, ◌<◌, ◌≡◌, ◌⊎◌, inl, inr, refl, ap, ap₂, sym, ◌∙◌, subst, true, List, [],
  ◌∷◌, ◌++◌, none, some, arith, ◌==◌, Bool-cases, Option-cases, find_if, get_elem?, ℕ_discrete,
  some-injective,
}
use market_sim.Prelude.Sort.{All}
use market_sim.Core.Status.{
  status_success, Allocation, granted, bad_alloc, length_error, Result, success,
}
use market_sim.Core.CheckedMath.{u64_max}
use market_sim.Serving.KvCache.{
  PagedKvCache, Page, PendingReservation, KvReservation, free_page, page_of, reserved,
  find_sequence, find_reservation, all_owned, assign_pages, same_page,
}
use market_sim.Serving.KvCache.Reservations.{
  reserve, rollback, select_free, book, pending, new_page_count, erase_reservation,
}
use market_sim.Serving.KvCache.Pages.{
  times, all_owned-at, assign_pages-owned, assign_pages-other, assign_pages-named,
}
use market_sim.Serving.KvCache.Ledger.{Ledger}
use market_sim.Serving.KvCache.Reserving.{selected-Aside}

list_ext {ℓ} : {A : Type ℓ} (xs ys : List A) → ((i : ℕ) → get_elem? xs i ≡ get_elem? ys i) → xs ≡ ys
list_ext [] [] h = refl
list_ext [] (y ∷ ys) h = let e = h 0 in cc
list_ext (x ∷ xs) [] h = let e = h 0 in cc
list_ext (x ∷ xs) (y ∷ ys) h =
    ap₂ (λ z zs. z ∷ zs) (some-injective _ _ (h 0)) (list_ext xs ys (λ i. h (suc i)))

same_page-free_page : (q : Page) → same_page q free_page ≡ true → q ≡ free_page
same_page-free_page q h = ground arith

-- Freeing pages that were free and then reserved leaves the records as they were.
assign_pages-undo :
    (pages : List Page) (p : Page) (is : List ℕ)
    → all_owned pages free_page is ≡ true
    → assign_pages (assign_pages pages p is) free_page is ≡ pages
assign_pages-undo pages p is own =
    list_ext (assign_pages (assign_pages pages p is) free_page is) pages (λ i.
      elim (ℕ_discrete (times i is) 0) [
        | yes z ↦
            assign_pages-other (assign_pages pages p is) free_page is i z
            ∙ assign_pages-other pages p is i z
        | no n ↦
            let (q, at, same) = all_owned-at pages free_page is i own (omega arith) in
            assign_pages-named (assign_pages pages p is) free_page p is i (omega arith)
              (assign_pages-named pages p q is i (omega arith) at)
            ∙ sym (at ∙ ap some (same_page-free_page q same))
      ])

find_if-append_new :
    (id : ℕ) (rs : List PendingReservation) (r : PendingReservation)
    → find_if (λ (t : PendingReservation). t.id == id) rs ≡ none
    → (r.id == id) ≡ true
    → (find_if (λ (t : PendingReservation). t.id == id) (rs ++ r ∷ []) ≡ some r)
      × (erase_reservation id (rs ++ r ∷ []) ≡ rs)
find_if-append_new id [] r h e = (rw e refl, rw e refl)
find_if-append_new id (t ∷ rs) r h e = elim (Bool-cases (t.id == id)) [
  | inl same ↦ absurd (ground arith)
  | inr other ↦
      let (found, erased) = find_if-append_new id rs r (ground arith) e in
      (rw other found, rw other (ap (λ ts. t ∷ ts) erased))
]

rollback-book :
    (sequence_id target : ℕ) (selected : List ℕ) (c : PagedKvCache)
    → find_reservation c c.next_reservation_id ≡ none
    → all_owned c.pages free_page selected ≡ true
    → rollback c.next_reservation_id (book sequence_id target selected c).0 ≡ (
      record c { next_reservation_id = (c.next_reservation_id + 1) % 18446744073709551616 },
      status_success,
    )
unfolding rollback
rollback-book sequence_id target selected c fresh own =
    let id = c.next_reservation_id in
    let r = pending id sequence_id target selected in
    let (found, erased) = find_if-append_new id c.reservations r fresh (ground arith) in
    let mine = assign_pages-owned c.pages free_page (page_of reserved id) selected own in
    rw (found, rollback, mine, erased, assign_pages-undo c.pages (page_of reserved id) selected own)
      refl

-- A reservation that is given is the one that `book` makes.
reserve-success :
    (memory : Allocation) (sequence_id target : ℕ) (c c' : PagedKvCache) (r : KvReservation)
    → reserve memory sequence_id target c ≡ (c', success r)
    → (wanted : ℕ) × (book sequence_id target (select_free c.pages 0 wanted) c ≡ (c', success r))
      × (1 ≤ c.next_reservation_id)
unfolding reserve
reserve-success granted sequence_id target c c' r h =
    elim (Option-cases (find_sequence c sequence_id)) [
      | inl missing ↦ absurd (ground arith)
      | inr (s, e) ↦ (new_page_count c s target, ground arith, ground arith)
    ]
reserve-success bad_alloc sequence_id target c c' r h = absurd (ground arith)
reserve-success length_error sequence_id target c c' r h = absurd (ground arith)

-- Reservations have ids below the next one, which is 0 once the ids have run out.
abbrev pub Fresh : PagedKvCache → Type 0
Fresh c =
    (c.next_reservation_id ≤ u64_max)
    × ((c.next_reservation_id ≡ 0)
        ⊎ All (λ (r : PendingReservation). r.id < c.next_reservation_id) c.reservations)

below-missing :
    (n : ℕ) (rs : List PendingReservation)
    → All (λ (r : PendingReservation). r.id < n) rs
    → find_if (λ (t : PendingReservation). t.id == n) rs ≡ none
below-missing n [] a = refl
below-missing n (r ∷ rs) a = ground (arith, a.0, below-missing n rs a.1)

-- Rolling back a reservation that was just given leaves the cache as it was before, apart from the
-- next reservation's id, which goes up by 1 (modulo 2 ^ 64).
pub rollback-reserve :
    (memory : Allocation) (sequence_id target : ℕ) (c c' : PagedKvCache) (r : KvReservation)
    → Ledger c
    → Fresh c
    → reserve memory sequence_id target c ≡ (c', success r)
    → rollback r.id c' ≡ (
      record c { next_reservation_id = (c.next_reservation_id + 1) % 18446744073709551616 },
      status_success,
    )
rollback-reserve memory sequence_id target c c' r v fresh h =
    let (wanted, made, some_id) = reserve-success memory sequence_id target c c' r h in
    let selected = select_free c.pages 0 wanted in
    let missing : find_reservation c c.next_reservation_id ≡ none = elim fresh.1 [
      | inl z ↦ absurd (omega arith)
      | inr below ↦ below-missing c.next_reservation_id c.reservations below
    ] in
    let undone =
      rollback-book sequence_id target selected c missing (selected-Aside c wanted v).aside in
    let state : (book sequence_id target selected c).0 ≡ c' =
      ap (λ (x : PagedKvCache × Result KvReservation). x.0) made in
    let given : c.next_reservation_id ≡ r.id = ground arith in
    subst
      (λ k. rollback k c' ≡ (
        record c { next_reservation_id = (c.next_reservation_id + 1) % 18446744073709551616 },
        status_success,
      ))
      given
      (subst
        (λ x. rollback c.next_reservation_id x ≡ (
          record c { next_reservation_id = (c.next_reservation_id + 1) % 18446744073709551616 },
          status_success,
        ))
        state undone)
