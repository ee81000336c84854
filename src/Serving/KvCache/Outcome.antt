-- ===== src/Serving/KvCache/Outcome.antt =====
-- What `reserve` gives: the pages that are lacking, or the refusal for too few free ones.
use native.Mathlib.Nat.{mod-lt, div-add-mod'}
use market_sim.Prelude.{
  ℕ, ◌+◌, ◌-◌, ◌*◌, ◌/◌, ◌%◌, ◌++◌, none, find_if, ◌≤◌, ◌<◌, ◌≡◌, ◌⊎◌, inl, inr, refl, sym, subst,
  Bool, false, not, ◌||◌, List, [], ◌∷◌, some, arith, length, ltb, ◌==◌, Bool-cases, get_elem?,
}
use market_sim.Core.Status.{success, granted, fails, insufficient_memory}
use market_sim.Core.CheckedMath.{u32_max}
use market_sim.Serving.KvCache.{
  PagedKvCache, Sequence, PendingReservation, page_of, reserved, find_sequence,
  find_sequence_reservation, find_reservation, KvReservation, pages_for, is_none,
}
use market_sim.Serving.KvCache.Reservations.{reserve, select_free, book, pending, new_page_count}
use market_sim.Serving.KvCache.Pages.{times, assign_pages-named, assign_pages-other}
use market_sim.Serving.KvCache.Reserving.{
  free_count, FreeAt, length-select_free, select_free-times, select_free-FreeAt,
}

-- What refuses a reservation before the pages are looked at.
abbrev pub reserve_refused : PagedKvCache → Sequence → ℕ → Bool
reserve_refused c s target =
    not (is_none (find_sequence_reservation c s.id))
    || ltb target s.total_tokens
    || c.next_reservation_id == 0

-- The least number of pages that a sequence lacks for the tokens behind its prefix.
abbrev pub Lacks : PagedKvCache → Sequence → ℕ → ℕ → Type 0
Lacks c s target k =
    (target - s.prefix_tokens ≤ (length s.suffix_pages + k) * c.tokens_per_page)
    × ((fewer : ℕ)
        → fewer < k
        → (length s.suffix_pages + fewer) * c.tokens_per_page < target - s.prefix_tokens)

-- The quotient that is rounded up.
pages_for_lem :
    (n t : ℕ) → 0 < t → (n ≤ pages_for n t * t) × ((q : ℕ) → q < pages_for n t → q * t < n)
pages_for_lem n t p =
    let whole = div-add-mod' (n + t - 1) t in
    let part : (n + t - 1) % t < t = mod-lt (n + t - 1) p in
    (
      omega (arith, whole, part),
      λ q h.
          let scaled : (q + 1) * t ≤ (n + t - 1) / t * t = grind arith in
          omega (arith, scaled, whole),
    )

new_page_count-Lacks :
    (c : PagedKvCache) (s : Sequence) (target : ℕ)
    → 0 < c.tokens_per_page
    → s.prefix_tokens ≤ target
    → target ≤ u32_max
    → Lacks c s target (new_page_count c s target)
new_page_count-Lacks c s target p low high =
    let n = target - s.prefix_tokens in
    let t = c.tokens_per_page in
    let held = length s.suffix_pages in
    let cut : (target + 4294967296 - s.prefix_tokens) % 4294967296 ≡ n = omega arith in
    let (enough, least) = pages_for_lem n t p in
    let q = pages_for n t in
    let reached : q ≤ held + (q - held) = omega arith in
    let covered : q * t ≤ (held + (q - held)) * t = grind arith in
    subst (λ (m : ℕ). Lacks c s target (pages_for m t - held)) (sym cut)
      (omega (arith, enough, covered), λ fewer h. least (held + fewer) (omega arith))

-- What a reservation that is granted says, and what it does to the pages.
pub record Grants (c : PagedKvCache) (s : Sequence) (target : ℕ) (c' : PagedKvCache)
    (r : KvReservation) : Type 0 where
  pub target_kept : r.target_token_count ≡ target
  pub as_needed : Lacks c s target (length r.new_pages)
  pub once : (i : ℕ) → times i r.new_pages ≤ 1
  pub were_free : (i : ℕ) → 1 ≤ times i r.new_pages → FreeAt c.pages i
  pub recorded :
      (i : ℕ) → 1 ≤ times i r.new_pages → get_elem? c'.pages i ≡ some (page_of reserved r.id)
  pub others : (i : ℕ) → times i r.new_pages ≡ 0 → get_elem? c'.pages i ≡ get_elem? c.pages i
  pub waits : find_reservation c' r.id ≡ some (pending r.id s.id target r.new_pages)

-- The reservation that `book` returns.
abbrev given : PagedKvCache → Sequence → ℕ → List ℕ → KvReservation
given c s target selected = record {
  id = c.next_reservation_id;
  sequence_id = s.id;
  target_token_count = target;
  new_pages = selected;
}

find_if-fresh :
    (id : ℕ) (rs : List PendingReservation) (r : PendingReservation)
    → r.id ≡ id
    → find_if (λ (x : PendingReservation). x.id == id) rs ≡ none
    → find_if (λ (x : PendingReservation). x.id == id) (rs ++ r ∷ []) ≡ some r
find_if-fresh id [] r e h = ground arith
find_if-fresh id (x ∷ rs) r e h = ground (arith, find_if-fresh id rs r e)

-- For a sequence that is present and a request that is not refused, with memory granted, in a cache
-- whose reservations have other ids than the next: the reservation lists as many pages as the sequence
-- lacks for the target and no more, each once and each free before, which become reserved for it while
-- all others stay; or fewer pages are free than the sequence lacks, and then the cache is unchanged and
-- the error is insufficient_memory.
pub reserve_outcome :
    (c : PagedKvCache) (s : Sequence) (target : ℕ)
    → find_sequence c s.id ≡ some s
    → reserve_refused c s target ≡ false
    → find_reservation c c.next_reservation_id ≡ none
    → 0 < c.tokens_per_page
    → s.prefix_tokens ≤ target
    → target ≤ u32_max
    → length c.pages ≤ u32_max
    → ((c' : PagedKvCache) × (r : KvReservation) × (reserve granted s.id target c ≡ (c', success r))
        × Grants c s target c' r)
      ⊎ ((k : ℕ) × Lacks c s target k
          × (free_count c.pages < k)
          × (reserve granted s.id target c ≡ (c, fails insufficient_memory)))
unfolding reserve
reserve_outcome c s target e fine unused p low high small =
    let wanted = new_page_count c s target in
    let selected = select_free c.pages 0 wanted in
    let size = length-select_free c.pages 0 wanted in
    let lacks = new_page_count-Lacks c s target p low high in
    let numbered : 0 + length c.pages ≤ u32_max = omega (arith, small) in
    elim (Bool-cases (length selected == wanted)) [
      | inl enough ↦
          let exact : length selected ≡ wanted = ground arith in
          inl (
            (book s.id target selected c).0,
            given c s target selected,
            rw (e, reserve, fine, enough) refl,
            record {
              target_kept = refl;
              as_needed = subst (Lacks c s target) (sym exact) lacks;
              once = λ i. (select_free-times c.pages 0 wanted i numbered).0;
              were_free = λ i h. select_free-FreeAt c.pages wanted i small h;
              recorded = λ i h.
                  let (q, at, _) = select_free-FreeAt c.pages wanted i small h in
                  assign_pages-named c.pages _ q selected i h at;
              others = λ i h. assign_pages-other c.pages _ selected i h;
              waits =
                  find_if-fresh c.next_reservation_id c.reservations
                    (pending c.next_reservation_id s.id target selected) refl unused;
            },
          )
      | inr few ↦ inr (wanted, lacks, ground (arith, size), rw (e, reserve, fine, few) refl)
    ]
