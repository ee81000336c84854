-- ===== src/Serving/KvCache/Reserving.antt =====
-- The selection of free pages by `reserve`, and what `reserve` does to the ledger.
use native.Mathlib.Nat.{mod-eq_of_lt}
use market_sim.Prelude.{
  ℕ, zero, suc, ◌+◌, ◌-◌, ◌%◌, ◌≤◌, ◌<◌, ◌≡◌, inl, inr, ap, sym, subst, true, not, ◌||◌, List, [],
  ◌∷◌, some, arith, length, ltb, ◌==◌, if◌then◌else◌, Bool-cases, Option-cases, get_elem?, min,
  ℕ_discrete,
}
use market_sim.Prelude.Sort.{All, All-append, weigh, weigh-append}
use market_sim.Core.Status.{Allocation, try_block-keeps, fails, insufficient_memory}
use market_sim.Core.CheckedMath.{u32_max}
use market_sim.Serving.KvCache.{
  PagedKvCache, Page, PendingReservation, free_page, page_of, reserved, find_sequence,
  find_sequence_reservation, is_none, is_free, assign_pages,
}
use market_sim.Serving.KvCache.Reservations.{reserve, select_free, book, pending, new_page_count}
use market_sim.Serving.KvCache.Pages.{times, taken_at, IsTidy, all_owned-from}
use market_sim.Serving.KvCache.Ledger.{Ledger, Aside, reassign, ReservationOwns, at_most_one}

-- How many pages are free.
abbrev pub free_count : List Page → ℕ
free_count [] = 0
free_count (p ∷ ps) = (if is_free p then 1 else 0) + free_count ps

-- The scan selects as many free pages as there are, up to the number wanted.
pub length-select_free :
    (ps : List Page) (index wanted : ℕ)
    → length (select_free ps index wanted) ≡ min wanted (free_count ps)
unfolding select_free
length-select_free [] index wanted = omega arith
length-select_free (p ∷ ps) index zero = omega arith
length-select_free (p ∷ ps) index (suc wanted) = ground (
  arith,
  length-select_free ps (index + 1) wanted,
  length-select_free ps (index + 1) (suc wanted),
)

-- It selects no page twice, and none before its start.
pub select_free-times :
    (ps : List Page) (index wanted i : ℕ)
    → index + length ps ≤ u32_max
    → (times i (select_free ps index wanted) ≤ 1)
      × (1 ≤ times i (select_free ps index wanted) → index ≤ i)
unfolding select_free
select_free-times [] index wanted i h = (omega arith, λ t. omega arith)
select_free-times (p ∷ ps) index zero i h = (omega arith, λ t. omega arith)
select_free-times (p ∷ ps) index (suc wanted) i h =
    let id : index % 4294967296 ≡ index = mod-eq_of_lt (omega arith) in
    let rest = λ (w : ℕ). select_free-times ps (index + 1) w i (omega arith) in
    elim (Bool-cases (is_free p)) [
      | inr busy ↦
          rw (id, busy) ((rest (suc wanted)).0, λ t. omega (arith, (rest (suc wanted)).1 t))
      | inl ready ↦
          rw (id, ready)
            (elim (ℕ_discrete i index) [
              | yes e ↦ (ground (arith, (rest wanted).0, (rest wanted).1), λ t. omega arith)
              | no n ↦ (ground (arith, (rest wanted).0), λ t. ground (arith, (rest wanted).1))
            ])
    ]

-- A page that is free, at an index.
abbrev pub FreeAt : List Page → ℕ → Type 0
FreeAt ps k = (q : Page) × (get_elem? ps k ≡ some q) × (is_free q ≡ true)

later :
    (p : Page) (ps : List Page) (i index : ℕ)
    → index < i
    → FreeAt ps (i - (index + 1))
    → FreeAt (p ∷ ps) (i - index)
later p ps i index h (q, at, r) =
    let shift : i - index ≡ suc (i - (index + 1)) = omega arith in
    (q, subst (λ k. get_elem? (p ∷ ps) k ≡ some q) (sym shift) at, r)

-- What it selects is free.
select_free-free :
    (ps : List Page) (index wanted i : ℕ)
    → index + length ps ≤ u32_max
    → 1 ≤ times i (select_free ps index wanted)
    → FreeAt ps (i - index)
unfolding select_free
select_free-free [] index wanted i h t = absurd (omega arith)
select_free-free (p ∷ ps) index zero i h t = absurd (omega arith)
select_free-free (p ∷ ps) index (suc wanted) i h t =
    let id : index % 4294967296 ≡ index = mod-eq_of_lt (omega arith) in
    let next = λ (w : ℕ) (u : 1 ≤ times i (select_free ps (index + 1) w)).
      later p ps i index (omega (arith, (select_free-times ps (index + 1) w i (omega arith)).1 u))
        (select_free-free ps (index + 1) w i (omega arith) u) in
    elim (Bool-cases (is_free p)) [
      | inr busy ↦ next (suc wanted) (ground arith)
      | inl ready ↦ elim (ℕ_discrete i index) [
        | yes e ↦
            let none_before : i - index ≡ 0 = omega arith in
            (p, ap (get_elem? (p ∷ ps)) none_before, ready)
        | no n ↦ next wanted (ground arith)
      ]
    ]

free_at-IsTidy :
    (ps : List Page) (k : ℕ) (q : Page) → All IsTidy ps → get_elem? ps k ≡ some q → IsTidy q
free_at-IsTidy [] k q a h = cc
free_at-IsTidy (p ∷ ps) zero q a h = let same : p ≡ q = ground arith in subst IsTidy same a.0
free_at-IsTidy (p ∷ ps) (suc k) q a h = free_at-IsTidy ps k q a.1 h

-- The same for the scan of all pages.
pub select_free-FreeAt :
    (ps : List Page) (wanted i : ℕ)
    → length ps ≤ u32_max
    → 1 ≤ times i (select_free ps 0 wanted)
    → FreeAt ps i
select_free-FreeAt ps wanted i h t =
    let same : i - 0 ≡ i = omega arith in
    subst (FreeAt ps) same (select_free-free ps 0 wanted i (omega (arith, h)) t)

-- The pages that `reserve` selects are recorded as free, and no holder lists them.
pub selected-Aside :
    (c : PagedKvCache) (wanted : ℕ)
    → Ledger c
    → Aside c.pages c.sequences c.prefixes c.reservations (select_free c.pages 0 wanted) free_page
selected-Aside c wanted v =
    let sel = select_free c.pages 0 wanted in
    let numbered : 0 + length c.pages ≤ u32_max = omega (arith, v.numbered) in
    record {
      sequences_own = v.sequences_own;
      prefixes_own = v.prefixes_own;
      reservations_own = v.reservations_own;
      accounted = λ i. omega (arith, v.accounted i);
      apart = λ i.
          let once = (select_free-times c.pages 0 wanted i numbered).0 in
          elim (ℕ_discrete (times i sel) 0) [
            | yes z ↦ omega (arith, z, v.accounted i, at_most_one c.pages i)
            | no n ↦
                let (q, at, r) = select_free-FreeAt c.pages wanted i v.numbered (omega arith) in
                let untaken : taken_at c.pages i ≡ 0 = ground arith in
                omega (arith, once, v.accounted i, untaken)
          ];
      aside = all_owned-from c.pages free_page sel (λ i t.
          let (q, at, r) = select_free-FreeAt c.pages wanted i v.numbered t in
          (q, at, let no_owner = free_at-IsTidy c.pages i q v.tidy at r in ground arith));
      tidy = v.tidy;
      numbered = v.numbered;
    }

booked :
    (sequence_id target wanted : ℕ) (c : PagedKvCache)
    → Ledger c
    → Ledger (book sequence_id target (select_free c.pages 0 wanted) c).0
unfolding weigh
booked sequence_id target wanted c v =
    let sel = select_free c.pages 0 wanted in
    let id = c.next_reservation_id in
    let r = pending id sequence_id target sel in
    let b =
      reassign c.pages c.sequences c.prefixes c.reservations sel free_page (page_of reserved id)
        (λ h. cc) (selected-Aside c wanted v) in
    record {
      sequences_own = b.sequences_own;
      prefixes_own = b.prefixes_own;
      reservations_own =
          All-append (ReservationOwns (assign_pages c.pages (page_of reserved id) sel))
            c.reservations (r ∷ []) b.reservations_own (b.aside, tt);
      accounted = λ i. omega (
        arith,
        b.accounted i,
        weigh-append (λ (t : PendingReservation). times i t.pages) c.reservations (r ∷ []),
      );
      tidy = b.tidy;
      numbered = b.numbered;
    }

pub reserve-Ledger :
    (memory : Allocation) (sequence_id target : ℕ) (c : PagedKvCache)
    → Ledger c
    → Ledger (reserve memory sequence_id target c).0
unfolding reserve
reserve-Ledger memory sequence_id target c v = elim (Option-cases (find_sequence c sequence_id)) [
  | inl missing ↦ rw (missing, reserve) v
  | inr (s, e) ↦
      elim (Bool-cases (
        not (is_none (find_sequence_reservation c sequence_id))
        || ltb target s.total_tokens
        || c.next_reservation_id == 0)) [
          | inl bad ↦ rw (e, reserve, bad) v
          | inr fine ↦
              let wanted = new_page_count c s target in
              elim (Bool-cases (length (select_free c.pages 0 wanted) == wanted)) [
                | inl enough ↦
                    rw (e, reserve, fine, enough)
                      (try_block-keeps Ledger memory fails c
                        (book sequence_id target (select_free c.pages 0 wanted) c) v
                        (booked sequence_id target wanted c v))
                | inr few ↦
                    rw (e, reserve, fine, few)
                      (try_block-keeps Ledger memory fails c (c, fails insufficient_memory) v v)
              ]
        ]
]
