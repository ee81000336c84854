-- ===== src/Serving/KvCache/Metrics.antt =====
-- The totals that `metrics` reports.
use market_sim.Prelude.{
  ℕ, ◌+◌, ◌-◌, ◌*◌, ◌%◌, ◌≡◌, inl, inr, ap, sym, subst, ◌∙◌, List, [], ◌∷◌, arith, length, ltb, ap₂,
  refl, ◌==◌, if◌then◌else◌, Bool-cases,
}
use market_sim.Prelude.Sort.{weigh}
use market_sim.Core.Status.{Result, success, failure, ◌>>=◌, >>=-eq-success, success-injective}
use market_sim.Core.CheckedMath.{checked_add, checked_multiply, checked_multiply_exact}
use market_sim.Serving.KvCache.{
  free, reserved, mutable_sequence, immutable_prefix, PageState, state_value, PagedKvCache, Page,
  Sequence, Prefix,
}
use market_sim.Serving.KvCache.Views.{
  KvCacheMetrics, count_page, owner_is_valid, scan_pages, scan_prefixes, scan_sequences,
  shared_pages, no_metrics, finish_metrics, metrics,
}

-- How many pages are in a state.
abbrev pub in_state : PageState → List Page → ℕ
in_state state ps =
    weigh (λ (p : Page). if state_value p.state == state_value state then 1 else 0) ps

-- How many pages a sequence reads, its own and those of its prefix.
abbrev pub pages_read : PagedKvCache → Sequence → ℕ
pages_read c s =
    length s.suffix_pages
    + elim (shared_pages c s) [ failure _ ↦ 0 | success shared ↦ length shared ]

-- The counters of pages.
record Tallies (ps : List Page) (m m' : KvCacheMetrics) : Type 0 where
  total : m'.total_pages ≡ m.total_pages
  free_ones : m'.free_pages ≡ m.free_pages + in_state free ps
  pending_ones : m'.pending_pages ≡ m.pending_pages + in_state reserved ps
  mutable_ones : m'.mutable_pages ≡ m.mutable_pages + in_state mutable_sequence ps
  shared_ones : m'.shared_prefix_pages ≡ m.shared_prefix_pages + in_state immutable_prefix ps

-- The sums over prefixes and sequences.
record Sums (c : PagedKvCache) (qs : List Prefix) (ss : List Sequence) (m m' : KvCacheMetrics)
    : Type 0 where
  same_pages : Tallies [] m m'
  attached : m'.prefix_attachments ≡ m.prefix_attachments + weigh (λ (q : Prefix). q.attachments) qs
  payload :
      m'.logical_payload_tokens
      ≡ m.logical_payload_tokens + weigh (λ (s : Sequence). s.total_tokens) ss
  capacity :
      m'.logical_reserved_tokens
      ≡ m.logical_reserved_tokens + weigh (λ (s : Sequence). pages_read c s * c.tokens_per_page) ss

checked_add_sum : (a b n : ℕ) → checked_add a b ≡ success n → n ≡ a + b
unfolding checked_add
checked_add_sum a b n h = ground arith

one_page :
    (p : Page) (ps : List Page) (m m' : KvCacheMetrics)
    → Tallies ps (count_page p m) m'
    → Tallies (p ∷ ps) m m'
unfolding weigh
one_page p ps m m' t = record {
  total = ground arith;
  free_ones = ground arith;
  pending_ones = ground arith;
  mutable_ones = ground arith;
  shared_ones = ground arith;
}

none_counted : (m m' : KvCacheMetrics) → m ≡ m' → Tallies [] m m'
unfolding weigh
none_counted m m' e =
    subst (λ (x : KvCacheMetrics). Tallies [] m x) e
      (record {
        total = refl;
        free_ones = omega arith;
        pending_ones = omega arith;
        mutable_ones = omega arith;
        shared_ones = omega arith;
      })

none_summed : (c : PagedKvCache) (m m' : KvCacheMetrics) → m ≡ m' → Sums c [] [] m m'
unfolding weigh
none_summed c m m' e =
    subst (λ (x : KvCacheMetrics). Sums c [] [] m x) e
      (record {
        same_pages = none_counted m m refl;
        attached = omega arith;
        payload = omega arith;
        capacity = omega arith;
      })

scan_pages-Tallies :
    (c : PagedKvCache) (i : ℕ) (ps : List Page) (m m' : KvCacheMetrics)
    → scan_pages c i ps m ≡ success m'
    → Tallies ps m m'
unfolding scan_pages
scan_pages-Tallies c i [] m m' h = none_counted m m' (success-injective h)
scan_pages-Tallies c i (p ∷ ps) m m' h = elim (Bool-cases (owner_is_valid c (i % 4294967296) p)) [
  | inr bad ↦ absurd (ground arith)
  | inl good ↦
      one_page p ps m m' (scan_pages-Tallies c (i + 1) ps (count_page p m) m' (rw good at h))
]

-- The sums that this loop does not touch.
abbrev SameSums : KvCacheMetrics → KvCacheMetrics → Type 0
SameSums m m' =
    (m'.prefix_attachments ≡ m.prefix_attachments)
    × (m'.logical_payload_tokens ≡ m.logical_payload_tokens)
    × (m'.logical_reserved_tokens ≡ m.logical_reserved_tokens)

scan_pages-SameSums :
    (c : PagedKvCache) (i : ℕ) (ps : List Page) (m m' : KvCacheMetrics)
    → scan_pages c i ps m ≡ success m'
    → SameSums m m'
unfolding scan_pages
scan_pages-SameSums c i [] m m' h =
    subst (λ (x : KvCacheMetrics). SameSums m x) (success-injective h) (refl, refl, refl)
scan_pages-SameSums c i (p ∷ ps) m m' h = elim (Bool-cases (owner_is_valid c (i % 4294967296) p)) [
  | inr bad ↦ absurd (ground arith)
  | inl good ↦
      let (x, y, z) = scan_pages-SameSums c (i + 1) ps (count_page p m) m' (rw good at h) in
      (ground arith, ground arith, ground arith)
]

scan_prefixes-Sums :
    (c : PagedKvCache) (ps : List Prefix) (m m' : KvCacheMetrics)
    → scan_prefixes ps m ≡ success m'
    → Sums c ps [] m m'
unfolding scan_prefixes weigh
scan_prefixes-Sums c [] m m' h = none_summed c m m' (success-injective h)
scan_prefixes-Sums c (p ∷ ps) m m' h =
    let (sum, added, rest) =
      >>=-eq-success (checked_add m.prefix_attachments p.attachments)
        (λ sum. scan_prefixes ps (record m { prefix_attachments = sum })) h in
    let below = scan_prefixes-Sums c ps (record m { prefix_attachments = sum }) m' rest in
    let exact = checked_add_sum m.prefix_attachments p.attachments sum added in
    let pages = below.same_pages in
    record {
      same_pages = record {
        total = pages.total;
        free_ones = pages.free_ones;
        pending_ones = pages.pending_ones;
        mutable_ones = pages.mutable_ones;
        shared_ones = pages.shared_ones;
      };
      attached = omega (arith, below.attached, exact);
      payload = below.payload;
      capacity = below.capacity;
    }

scan_sequences-Sums :
    (c : PagedKvCache) (ss : List Sequence) (m m' : KvCacheMetrics)
    → scan_sequences c ss m ≡ success m'
    → Sums c [] ss m m'
unfolding scan_sequences weigh
scan_sequences-Sums c [] m m' h = none_summed c m m' (success-injective h)
scan_sequences-Sums c (s ∷ ss) m m' h =
    let (payload, paid, r1) =
      >>=-eq-success (checked_add m.logical_payload_tokens s.total_tokens)
        (λ payload. shared_pages c s >>= λ shared.
          checked_multiply (length s.suffix_pages + length shared) c.tokens_per_page >>= λ capacity.
          checked_add m.logical_reserved_tokens capacity >>= λ logical.
          scan_sequences c ss
            (record m { logical_payload_tokens = payload; logical_reserved_tokens = logical }))
        h in
    let (shared, found, r2) =
      >>=-eq-success (shared_pages c s)
        (λ shared.
          checked_multiply (length s.suffix_pages + length shared) c.tokens_per_page >>= λ capacity.
          checked_add m.logical_reserved_tokens capacity >>= λ logical.
          scan_sequences c ss
            (record m { logical_payload_tokens = payload; logical_reserved_tokens = logical }))
        r1 in
    let (capacity, sized, r3) =
      >>=-eq-success (checked_multiply (length s.suffix_pages + length shared) c.tokens_per_page)
        (λ capacity. checked_add m.logical_reserved_tokens capacity >>= λ logical.
          scan_sequences c ss
            (record m { logical_payload_tokens = payload; logical_reserved_tokens = logical }))
        r2 in
    let (logical, added, r4) =
      >>=-eq-success (checked_add m.logical_reserved_tokens capacity)
        (λ logical.
          scan_sequences c ss
            (record m { logical_payload_tokens = payload; logical_reserved_tokens = logical }))
        r3 in
    let below =
      scan_sequences-Sums c ss
        (record m { logical_payload_tokens = payload; logical_reserved_tokens = logical }) m' r4 in
    let exact = checked_add_sum m.logical_payload_tokens s.total_tokens payload paid in
    let read : pages_read c s ≡ length s.suffix_pages + length shared =
      ap
        (λ (r : Result (List ℕ)).
          length s.suffix_pages + elim r [ failure _ ↦ 0 | success shared ↦ length shared ])
        found in
    let held : capacity ≡ pages_read c s * c.tokens_per_page =
      (checked_multiply_exact (length s.suffix_pages + length shared) c.tokens_per_page capacity
        sized).0
      ∙ ap (λ (n : ℕ). n * c.tokens_per_page) (sym read) in
    let sum = checked_add_sum m.logical_reserved_tokens capacity logical added in
    let pages = below.same_pages in
    record {
      same_pages = record {
        total = pages.total;
        free_ones = pages.free_ones;
        pending_ones = pages.pending_ones;
        mutable_ones = pages.mutable_ones;
        shared_ones = pages.shared_ones;
      };
      attached = below.attached;
      payload = omega (arith, below.payload, exact);
      capacity = omega (arith, below.capacity, sum, held);
    }

-- What a report says of the cache.
pub record Reports (c : PagedKvCache) (m : KvCacheMetrics) : Type 0 where
  pub total : m.total_pages ≡ length c.pages
  pub free_ones : m.free_pages ≡ in_state free c.pages
  pub pending_ones : m.pending_pages ≡ in_state reserved c.pages
  pub mutable_ones : m.mutable_pages ≡ in_state mutable_sequence c.pages
  pub shared_ones : m.shared_prefix_pages ≡ in_state immutable_prefix c.pages
  pub attached : m.prefix_attachments ≡ weigh (λ (q : Prefix). q.attachments) c.prefixes
  pub payload : m.logical_payload_tokens ≡ weigh (λ (s : Sequence). s.total_tokens) c.sequences
  pub capacity :
      m.logical_reserved_tokens
      ≡ weigh (λ (s : Sequence). pages_read c s * c.tokens_per_page) c.sequences
  pub fragmentation :
      m.logical_payload_tokens + m.logical_fragmentation_tokens ≡ m.logical_reserved_tokens
  pub committed :
      m.physical_committed_tokens
      ≡ (in_state mutable_sequence c.pages + in_state immutable_prefix c.pages) * c.tokens_per_page

finish_metrics-Reports :
    (c : PagedKvCache) (m1 m2 m3 m : KvCacheMetrics)
    → Tallies c.pages (no_metrics c) m1
    → SameSums (no_metrics c) m1
    → Sums c c.prefixes [] m1 m2
    → Sums c [] c.sequences m2 m3
    → finish_metrics c m3 ≡ success m
    → Reports c m
unfolding weigh
finish_metrics-Reports c m1 m2 m3 m t (t1, t2, t3) a b h =
    elim (Bool-cases (ltb m3.logical_reserved_tokens m3.logical_payload_tokens)) [
      | inl bad ↦ absurd (ground arith)
      | inr fine ↦
          let (committed, product, last) =
            >>=-eq-success
              (checked_multiply (m3.mutable_pages + m3.shared_prefix_pages) c.tokens_per_page)
              (λ committed. success (record m3 {
                logical_fragmentation_tokens =
                    m3.logical_reserved_tokens - m3.logical_payload_tokens;
                physical_committed_tokens = committed;
              }))
              (rw fine at h) in
          let exact =
            (checked_multiply_exact (m3.mutable_pages + m3.shared_prefix_pages) c.tokens_per_page
              committed product).0 in
          let p = a.same_pages in
          let q = b.same_pages in
          let mutables : m3.mutable_pages ≡ in_state mutable_sequence c.pages =
            omega (arith, t.mutable_ones, p.mutable_ones, q.mutable_ones) in
          let shared : m3.shared_prefix_pages ≡ in_state immutable_prefix c.pages =
            omega (arith, t.shared_ones, p.shared_ones, q.shared_ones) in
          subst (Reports c) (success-injective last) (record {
            total = omega (arith, t.total, p.total, q.total);
            free_ones = omega (arith, t.free_ones, p.free_ones, q.free_ones);
            pending_ones = omega (arith, t.pending_ones, p.pending_ones, q.pending_ones);
            mutable_ones = mutables;
            shared_ones = shared;
            attached = omega (arith, a.attached, b.attached, t1);
            payload = omega (arith, a.payload, b.payload, t2);
            capacity = omega (arith, a.capacity, b.capacity, t3);
            fragmentation = ground arith;
            committed = exact ∙ ap₂ (λ (x y : ℕ). (x + y) * c.tokens_per_page) mutables shared;
          })
    ]

-- When `metrics` reports: its four counters of pages are the numbers of pages in the four states, the
-- attachments and the payload are the sums over the prefixes and the sequences, the tokens reserved are
-- those of the pages that the sequences read, shared ones once for each, payload and fragmentation add up
-- to them, and the tokens committed are those of the pages in the states mutable_sequence and
-- immutable_prefix.
pub metrics_totals : (c : PagedKvCache) (m : KvCacheMetrics) → metrics c ≡ success m → Reports c m
unfolding metrics
metrics_totals c m h =
    let (m1, pages, r1) =
      >>=-eq-success (scan_pages c 0 c.pages (no_metrics c))
        (λ m. scan_prefixes c.prefixes m >>= λ m.
          scan_sequences c c.sequences m >>= λ m. finish_metrics c m)
        h in
    let (m2, prefixes, r2) =
      >>=-eq-success (scan_prefixes c.prefixes m1)
        (λ m. scan_sequences c c.sequences m >>= λ m. finish_metrics c m) r1 in
    let (m3, sequences, r3) =
      >>=-eq-success (scan_sequences c c.sequences m2) (λ m. finish_metrics c m) r2 in
    finish_metrics-Reports c m1 m2 m3 m (scan_pages-Tallies c 0 c.pages (no_metrics c) m1 pages)
      (scan_pages-SameSums c 0 c.pages (no_metrics c) m1 pages)
      (scan_prefixes-Sums c c.prefixes m1 m2 prefixes)
      (scan_sequences-Sums c c.sequences m2 m3 sequences) r3
