-- ===== src/Serving/KvCache/Ledger.antt =====
-- The ledger of the cache: the record of each page against the lists of the sequences, prefixes and
-- reservations that hold it.
use market_sim.Prelude.{
  ℕ, ◌+◌, ◌*◌, ◌≤◌, ◌≡◌, inl, inr, refl, subst, true, List, some, arith, length, ◌==◌, Option-cases,
}
use market_sim.Prelude.Sort.{All, weigh}
use market_sim.Prelude.Found.{find_if-passes, find_if-All, erase_first-All, erase_first-weigh}
use market_sim.Core.CheckedMath.{u32_max}
use market_sim.Serving.KvCache.{
  PagedKvCache, Page, Sequence, Prefix, PendingReservation, free_page, page_of, reserved,
  mutable_sequence, immutable_prefix, find_reservation, all_owned, assign_pages,
}
use market_sim.Serving.KvCache.Reservations.{rollback, erase_reservation}
use market_sim.Serving.KvCache.Pages.{
  times, taken, taken_at, IsTidy, assign_pages-owned, taken_at-assign_pages, assign_pages-All,
  length-assign_pages, assign_pages-All_owned,
}

-- How often the holders of each kind list a page.
abbrev pub in_sequences : ℕ → List Sequence → ℕ
in_sequences i sequences = weigh (λ (s : Sequence). times i s.suffix_pages) sequences

abbrev pub in_prefixes : ℕ → List Prefix → ℕ
in_prefixes i prefixes = weigh (λ (p : Prefix). times i p.pages) prefixes

abbrev pub in_reservations : ℕ → List PendingReservation → ℕ
in_reservations i reservations = weigh (λ (r : PendingReservation). times i r.pages) reservations

-- The pages of a holder are recorded as its own.
abbrev pub SequenceOwns : List Page → Sequence → Type 0
SequenceOwns pages s = all_owned pages (page_of mutable_sequence s.id) s.suffix_pages ≡ true

abbrev pub PrefixOwns : List Page → Prefix → Type 0
PrefixOwns pages p = all_owned pages (page_of immutable_prefix p.id) p.pages ≡ true

abbrev pub ReservationOwns : List Page → PendingReservation → Type 0
ReservationOwns pages r = all_owned pages (page_of reserved r.id) r.pages ≡ true

pub record Ledger (c : PagedKvCache) : Type 0 where
  pub sequences_own : All (SequenceOwns c.pages) c.sequences
  pub prefixes_own : All (PrefixOwns c.pages) c.prefixes
  pub reservations_own : All (ReservationOwns c.pages) c.reservations
  -- A page that is not free is listed once in all, and a free one never.
  pub accounted :
      (i : ℕ)
      → in_sequences i c.sequences + in_prefixes i c.prefixes + in_reservations i c.reservations
        ≡ taken_at c.pages i
  pub tidy : All IsTidy c.pages
  -- A page id fits 32 bits.
  pub numbered : length c.pages ≤ u32_max

pub at_most_one : (pages : List Page) (i : ℕ) → taken_at pages i ≤ 1
at_most_one pages i = ground arith

-- Holders that list the taken pages, those of `js` aside, for which the loop that gives `js` to an
-- owner `q` is still to run, or has run.
pub record Aside (pages : List Page) (ss : List Sequence) (ps : List Prefix)
    (rs : List PendingReservation) (js : List ℕ) (p : Page) : Type 0 where
  pub sequences_own : All (SequenceOwns pages) ss
  pub prefixes_own : All (PrefixOwns pages) ps
  pub reservations_own : All (ReservationOwns pages) rs
  pub accounted :
      (i : ℕ)
      → in_sequences i ss + in_prefixes i ps + in_reservations i rs + taken p * times i js
        ≡ taken_at pages i
  pub apart : (i : ℕ) → in_sequences i ss + in_prefixes i ps + in_reservations i rs + times i js ≤ 1
  pub aside : all_owned pages p js ≡ true
  pub tidy : All IsTidy pages
  pub numbered : length pages ≤ u32_max

pub reassign :
    (pages : List Page) (ss : List Sequence) (ps : List Prefix) (rs : List PendingReservation)
    (js : List ℕ) (p q : Page)
    → IsTidy q
    → Aside pages ss ps rs js p
    → Aside (assign_pages pages q js) ss ps rs js q
reassign pages ss ps rs js p q t a = record {
  sequences_own =
      assign_pages-All_owned pages q js (λ s. s.suffix_pages) (λ s. page_of mutable_sequence s.id)
        ss a.sequences_own (λ i. omega (arith, a.apart i));
  prefixes_own =
      assign_pages-All_owned pages q js (λ s. s.pages) (λ s. page_of immutable_prefix s.id) ps
        a.prefixes_own (λ i. omega (arith, a.apart i));
  reservations_own =
      assign_pages-All_owned pages q js (λ s. s.pages) (λ s. page_of reserved s.id) rs
        a.reservations_own (λ i. omega (arith, a.apart i));
  accounted = λ i.
      let moved = taken_at-assign_pages pages p q js i a.aside (omega (arith, a.apart i)) in
      omega (arith, a.accounted i, moved);
  apart = a.apart;
  aside = assign_pages-owned pages p q js a.aside;
  tidy = assign_pages-All pages q js t a.tidy;
  numbered = omega (arith, a.numbered, length-assign_pages pages q js);
}

-- Pages of an owner whose list is taken out of the holders.
pub taken_out :
    (c : PagedKvCache) (ss : List Sequence) (ps : List Prefix) (rs : List PendingReservation)
    (js : List ℕ) (p : Page)
    → Ledger c
    → taken p ≡ 1
    → All (SequenceOwns c.pages) ss
    → All (PrefixOwns c.pages) ps
    → All (ReservationOwns c.pages) rs
    → all_owned c.pages p js ≡ true
    → ((i : ℕ)
        → in_sequences i ss + in_prefixes i ps + in_reservations i rs + times i js
          ≡ in_sequences i c.sequences
            + in_prefixes i c.prefixes
            + in_reservations i c.reservations)
    → Aside c.pages ss ps rs js p
taken_out c ss ps rs js p v one a1 a2 a3 own sum = record {
  sequences_own = a1;
  prefixes_own = a2;
  reservations_own = a3;
  accounted = λ i. rw one (omega (arith, sum i, v.accounted i));
  apart = λ i. omega (arith, sum i, v.accounted i, at_most_one c.pages i);
  aside = own;
  tidy = v.tidy;
  numbered = v.numbered;
}

-- A reservation that is found: its pages, apart from the other holders'.
pub found_reservation :
    (id : ℕ) (c : PagedKvCache) (r : PendingReservation)
    → Ledger c
    → find_reservation c id ≡ some r
    → Aside c.pages c.sequences c.prefixes
        (erase_reservation id c.reservations)
        r.pages
        (page_of reserved id)
found_reservation id c r v e =
    let test = λ (q : PendingReservation). q.id == id in
    let same : r.id ≡ id = let p = find_if-passes test c.reservations r e in ground arith in
    taken_out c c.sequences c.prefixes (erase_reservation id c.reservations) r.pages
      (page_of reserved id) v refl v.sequences_own v.prefixes_own
      (erase_first-All test (ReservationOwns c.pages) c.reservations v.reservations_own)
      (subst (λ k. all_owned c.pages (page_of reserved k) r.pages ≡ true) same
        (find_if-All test (ReservationOwns c.pages) c.reservations r v.reservations_own e))
      (λ i. omega (
        arith,
        erase_first-weigh test (λ (q : PendingReservation). times i q.pages) c.reservations r e,
      ))

-- Freed pages leave the holders that are left.
pub freed :
    (c : PagedKvCache) (ss : List Sequence) (ps : List Prefix) (rs : List PendingReservation)
    (js : List ℕ) (p : Page)
    → Aside c.pages ss ps rs js p
    → Ledger (record c {
      pages = assign_pages c.pages free_page js;
      sequences = ss;
      prefixes = ps;
      reservations = rs;
    })
freed c ss ps rs js p a =
    let b = reassign c.pages ss ps rs js p free_page (λ q. refl) a in
    record {
      sequences_own = b.sequences_own;
      prefixes_own = b.prefixes_own;
      reservations_own = b.reservations_own;
      accounted = λ i. omega (arith, b.accounted i);
      tidy = b.tidy;
      numbered = b.numbered;
    }

pub rollback-Ledger : (id : ℕ) (c : PagedKvCache) → Ledger c → Ledger (rollback id c).0
unfolding rollback
rollback-Ledger id c v = elim (Option-cases (find_reservation c id)) [
  | inl missing ↦ rw (missing, rollback) v
  | inr (r, e) ↦
      let a = found_reservation id c r v e in
      rw (e, rollback, a.aside)
        (freed c c.sequences c.prefixes (erase_reservation id c.reservations) r.pages
          (page_of reserved id) a)
]
