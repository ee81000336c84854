-- ===== src/Serving/KvCache/Runs.antt =====
-- The ledger over any sequence of calls of the cache.
use market_sim.Prelude.{
  ℕ, zero, suc, ◌≤◌, ◌≡◌, inl, inr, refl, ap, sym, ◌∙◌, subst, true, not, ◌||◌, List, [], ◌∷◌, ◌++◌,
  some, arith, ◌==◌, Bool-cases, Option-cases, replicate, length-replicate,
}
use market_sim.Prelude.Sort.{All, All-append, weigh, weigh-append}
use market_sim.Prelude.Found.{find_if-passes, find_if-All, replace_first-All, replace_first-weigh}
use market_sim.Core.Status.{
  status_success, Allocation, granted, bad_alloc, length_error, try_block-keeps, success,
  success-injective,
}
use market_sim.Core.CheckedMath.{u32_max}
use market_sim.Serving.KvCache.{
  PagedKvCache, Sequence, Prefix, free_page, page_of, mutable_sequence, immutable_prefix,
  find_sequence, find_prefix, find_sequence_reservation, is_none, all_owned, assign_pages, create,
  new_cache,
}
use market_sim.Serving.KvCache.Sequences.{
  create_sequence, destroy_sequence, publish_prefix, destroy_prefix, put_sequence, is_empty,
}
use market_sim.Serving.KvCache.Reservations.{reserve, commit, rollback}
use market_sim.Serving.KvCache.Pages.{times, taken_at, IsTidy}
use market_sim.Serving.KvCache.Ledger.{
  Ledger, Aside, reassign, taken_out, rollback-Ledger, SequenceOwns, PrefixOwns,
}
use market_sim.Serving.KvCache.Lifetimes.{create_sequence-Ledger, destroy_sequence-Ledger}
use market_sim.Serving.KvCache.Steps.{destroy_prefix-Ledger, commit-Ledger}
use market_sim.Serving.KvCache.Reserving.{reserve-Ledger}

-- The sequence whose pages became a prefix, and the prefix.
abbrev attached : ℕ → Sequence → Sequence
attached prefix_id s = record s {
  prefix_id = prefix_id;
  prefix_tokens = s.total_tokens;
  suffix_pages = [];
}

abbrev new_prefix : ℕ → Sequence → Prefix
new_prefix prefix_id s = record {
  id = prefix_id;
  token_count = s.total_tokens;
  attachments = 1;
  pages = s.suffix_pages;
}

found_pages :
    (prefix_id id : ℕ) (c : PagedKvCache) (s : Sequence)
    → Ledger c
    → find_sequence c id ≡ some s
    → Aside c.pages
        (put_sequence (attached prefix_id s) c.sequences)
        c.prefixes
        c.reservations
        s.suffix_pages
        (page_of mutable_sequence id)
unfolding weigh
found_pages prefix_id id c s v e =
    let test = λ (t : Sequence). t.id == s.id in
    let same : s.id ≡ id =
      let p = find_if-passes (λ (t : Sequence). t.id == id) c.sequences s e in ground arith in
    let found : find_sequence c s.id ≡ some s = ap (find_sequence c) same ∙ e in
    let s' = attached prefix_id s in
    taken_out c (put_sequence s' c.sequences) c.prefixes c.reservations s.suffix_pages
      (page_of mutable_sequence id) v refl
      (replace_first-All test (SequenceOwns c.pages) s' c.sequences refl v.sequences_own)
      v.prefixes_own v.reservations_own
      (subst (λ k. all_owned c.pages (page_of mutable_sequence k) s.suffix_pages ≡ true) same
        (find_if-All test (SequenceOwns c.pages) c.sequences s v.sequences_own found))
      (λ i. omega (
        arith,
        replace_first-weigh test (λ (t : Sequence). times i t.suffix_pages) s' c.sequences s found,
      ))

published :
    (prefix_id id : ℕ) (c : PagedKvCache) (s : Sequence)
    → Ledger c
    → find_sequence c id ≡ some s
    → Ledger (record c {
      prefixes = c.prefixes ++ new_prefix prefix_id s ∷ [];
      pages = assign_pages c.pages (page_of immutable_prefix prefix_id) s.suffix_pages;
      sequences = put_sequence (attached prefix_id s) c.sequences;
    })
unfolding weigh
published prefix_id id c s v e =
    let q = page_of immutable_prefix prefix_id in
    let b =
      reassign c.pages (put_sequence (attached prefix_id s) c.sequences) c.prefixes c.reservations
        s.suffix_pages (page_of mutable_sequence id) q (λ h. cc)
        (found_pages prefix_id id c s v e) in
    record {
      sequences_own = b.sequences_own;
      prefixes_own =
          All-append (PrefixOwns (assign_pages c.pages q s.suffix_pages)) c.prefixes
            (new_prefix prefix_id s ∷ []) b.prefixes_own (b.aside, tt);
      reservations_own = b.reservations_own;
      accounted = λ i. omega (
        arith,
        b.accounted i,
        weigh-append (λ (t : Prefix). times i t.pages) c.prefixes (new_prefix prefix_id s ∷ []),
      );
      tidy = b.tidy;
      numbered = b.numbered;
    }

publish_prefix-Ledger :
    (memory : Allocation) (prefix_id id : ℕ) (c : PagedKvCache)
    → Ledger c
    → Ledger (publish_prefix memory prefix_id id c).0
unfolding publish_prefix
publish_prefix-Ledger memory prefix_id id c v = elim (Option-cases (find_sequence c id)) [
  | inl missing ↦ rw (missing, publish_prefix) v
  | inr (s, e) ↦
      elim (Bool-cases (
        prefix_id == 0
        || not (is_none (find_prefix c prefix_id))
        || not (s.prefix_id == 0)
        || s.total_tokens == 0
        || is_empty s.suffix_pages
        || not (is_none (find_sequence_reservation c id)))) [
          | inl bad ↦ rw (e, publish_prefix, bad) v
          | inr fine ↦
              let a = found_pages prefix_id id c s v e in
              rw (e, publish_prefix, fine, a.aside)
                (try_block-keeps Ledger memory _ c (_, status_success) v
                  (published prefix_id id c s v e))
        ]
]

-- A new cache.
taken_at-replicate : (n i : ℕ) → taken_at (replicate n free_page) i ≡ 0
taken_at-replicate zero i = refl
taken_at-replicate (suc n) zero = refl
taken_at-replicate (suc n) (suc i) = taken_at-replicate n i

replicate-IsTidy : (n : ℕ) → All IsTidy (replicate n free_page)
replicate-IsTidy zero = tt
replicate-IsTidy (suc n) = (λ h. refl, replicate-IsTidy n)

pub new_cache-Ledger :
    (page_count tokens_per_page : ℕ)
    → page_count ≤ u32_max
    → Ledger (new_cache page_count tokens_per_page)
unfolding weigh
new_cache-Ledger page_count tokens_per_page h = record {
  sequences_own = tt;
  prefixes_own = tt;
  reservations_own = tt;
  accounted = λ i. sym (taken_at-replicate page_count i);
  tidy = replicate-IsTidy page_count;
  numbered = omega (arith, h, length-replicate page_count free_page);
}

-- The calls of a client that may change the cache, with the outcome of the allocations of each.
pub data Call : Type 0 where
  creates_sequence : Allocation → ℕ → ℕ → Call
  destroys_sequence : ℕ → Call
  reserves : Allocation → ℕ → ℕ → Call
  commits : Allocation → ℕ → Call
  rolls_back : ℕ → Call
  publishes : Allocation → ℕ → ℕ → Call
  destroys_prefix : ℕ → Call

unfoldable pub step : PagedKvCache → Call → PagedKvCache
unfolding create_sequence destroy_sequence reserve commit rollback publish_prefix destroy_prefix
step c (creates_sequence memory id prefix_id) = (create_sequence memory id prefix_id c).0
step c (destroys_sequence id) = (destroy_sequence id c).0
step c (reserves memory id target) = (reserve memory id target c).0
step c (commits memory id) = (commit memory id c).0
step c (rolls_back id) = (rollback id c).0
step c (publishes memory prefix_id id) = (publish_prefix memory prefix_id id c).0
step c (destroys_prefix id) = (destroy_prefix id c).0

unfoldable pub run : PagedKvCache → List Call → PagedKvCache
unfolding step
run c [] = c
run c (x ∷ xs) = run (step c x) xs

step-Ledger : (c : PagedKvCache) (x : Call) → Ledger c → Ledger (step c x)
unfolding step
step-Ledger c (creates_sequence memory id prefix_id) v =
    create_sequence-Ledger memory id prefix_id c v
step-Ledger c (destroys_sequence id) v = destroy_sequence-Ledger id c v
step-Ledger c (reserves memory id target) v = reserve-Ledger memory id target c v
step-Ledger c (commits memory id) v = commit-Ledger memory id c v
step-Ledger c (rolls_back id) v = rollback-Ledger id c v
step-Ledger c (publishes memory prefix_id id) v = publish_prefix-Ledger memory prefix_id id c v
step-Ledger c (destroys_prefix id) v = destroy_prefix-Ledger id c v

pub run_keeps-Ledger : (c : PagedKvCache) (xs : List Call) → Ledger c → Ledger (run c xs)
unfolding run
run_keeps-Ledger c [] v = v
run_keeps-Ledger c (x ∷ xs) v = run_keeps-Ledger (step c x) xs (step-Ledger c x v)

-- After any calls to a cache that `create` returned, whatever they refuse and whatever allocations
-- fail, the ledger holds: every page that is not free stands once in the list of one sequence, prefix
-- or reservation, its record names that holder, and a free page stands in no list and has no owner.
pub run-Ledger :
    (memory : Allocation) (page_count tokens_per_page : ℕ) (c : PagedKvCache) (xs : List Call)
    → page_count ≤ u32_max
    → create memory page_count tokens_per_page ≡ success c
    → Ledger (run c xs)
unfolding create
run-Ledger granted page_count tokens_per_page c xs h e =
    run_keeps-Ledger c xs (elim (Bool-cases (page_count == 0 || tokens_per_page == 0)) [
      | inl bad ↦ absurd (ground arith)
      | inr fine ↦
          let made : create granted page_count tokens_per_page
              ≡ success (new_cache page_count tokens_per_page) =
            rw (fine, create) refl in
          subst Ledger (success-injective (sym made ∙ e))
            (new_cache-Ledger page_count tokens_per_page h)
    ])
run-Ledger bad_alloc page_count tokens_per_page c xs h e = absurd (ground arith)
run-Ledger length_error page_count tokens_per_page c xs h e = absurd (ground arith)
