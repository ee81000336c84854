-- ===== src/Serving/KvCache/Views.antt =====
-- src/serving/paged_kv_cache.cpp: `page_table` and `metrics`.
use market_sim.Prelude.{
  ℕ, ◌+◌, ◌-◌, ◌%◌, Bool, false, List, [], ◌∷◌, ◌++◌, none, some, length, ltb, ◌==◌, if◌then◌else◌,
}
use market_sim.Core.Status.{
  Result, success, fails, invalid_argument, invalid_format, ◌>>=◌, Allocation, try_block,
}
use market_sim.Core.CheckedMath.{checked_add, checked_multiply}
use market_sim.Serving.KvCache.{
  PagedKvCache, Page, Sequence, Prefix, free, reserved, mutable_sequence, immutable_prefix,
  find_sequence, find_prefix, find_reservation, contains_page,
}

pub record KvPageTable : Type 0 where
  pub sequence_id : ℕ
  pub prefix_id : ℕ
  pub prefix_tokens : ℕ
  pub total_tokens : ℕ
  pub shared_prefix_pages : ℕ  -- uint32
  pub pages : List ℕ

-- The result for a sequence, with the pages of its prefix.
abbrev pub table_of : ℕ → Sequence → List ℕ → KvPageTable
table_of sequence_id s shared = record {
  sequence_id = sequence_id;
  prefix_id = s.prefix_id;
  prefix_tokens = s.prefix_tokens;
  total_tokens = s.total_tokens;
  shared_prefix_pages = length shared % 4294967296;
  pages = shared ++ s.suffix_pages;
}

-- The pages of the prefix of a sequence, none for a sequence that has no prefix.
abbrev pub shared_pages : PagedKvCache → Sequence → Result (List ℕ)
shared_pages c s =
    if s.prefix_id == 0
    then success []
    else elim (find_prefix c s.prefix_id) [ none ↦ fails invalid_format | some p ↦ success p.pages ]

unfoldable pub page_table : Allocation → ℕ → PagedKvCache → Result KvPageTable
page_table memory id c = elim (find_sequence c id) [
  | none ↦ fails invalid_argument
  | some s ↦ shared_pages c s >>= λ shared. try_block memory fails (success (table_of id s shared))
]

pub record KvCacheMetrics : Type 0 where
  pub total_pages : ℕ  -- uint64, as the others
  pub free_pages : ℕ
  pub pending_pages : ℕ
  pub mutable_pages : ℕ
  pub shared_prefix_pages : ℕ
  pub sequence_count : ℕ
  pub prefix_count : ℕ
  pub prefix_attachments : ℕ
  pub logical_payload_tokens : ℕ
  pub logical_reserved_tokens : ℕ
  pub logical_fragmentation_tokens : ℕ
  pub physical_committed_tokens : ℕ

-- The counter of a page's state goes up.
abbrev pub count_page : Page → KvCacheMetrics → KvCacheMetrics
count_page p m = elim p.state [
  | free ↦ record m { free_pages = m.free_pages + 1 }
  | reserved ↦ record m { pending_pages = m.pending_pages + 1 }
  | mutable_sequence ↦ record m { mutable_pages = m.mutable_pages + 1 }
  | immutable_prefix ↦ record m { shared_prefix_pages = m.shared_prefix_pages + 1 }
]

-- `owner_is_valid`.
abbrev pub owner_is_valid : PagedKvCache → ℕ → Page → Bool
owner_is_valid c i p = elim p.state [
  | free ↦ p.owner == 0
  | reserved ↦ elim (find_reservation c p.owner) [ none ↦ false | some r ↦ contains_page i r.pages ]
  | mutable_sequence ↦ elim (find_sequence c p.owner) [
    | none ↦ false
    | some s ↦ contains_page i s.suffix_pages
  ]
  | immutable_prefix ↦ elim (find_prefix c p.owner) [
    | none ↦ false
    | some q ↦ contains_page i q.pages
  ]
]

-- The three loops, each over what is left of its list.
unfoldable pub scan_pages : PagedKvCache → ℕ → List Page → KvCacheMetrics → Result KvCacheMetrics
scan_pages c i [] m = success m
scan_pages c i (p ∷ ps) m =
    let rest = scan_pages c (i + 1) ps (count_page p m) in
    if owner_is_valid c (i % 4294967296) p then rest else fails invalid_format

unfoldable pub scan_prefixes : List Prefix → KvCacheMetrics → Result KvCacheMetrics
scan_prefixes [] m = success m
scan_prefixes (p ∷ ps) m = checked_add m.prefix_attachments p.attachments >>= λ sum.
    scan_prefixes ps (record m { prefix_attachments = sum })

unfoldable pub scan_sequences :
    PagedKvCache → List Sequence → KvCacheMetrics → Result KvCacheMetrics
scan_sequences c [] m = success m
scan_sequences c (s ∷ ss) m = checked_add m.logical_payload_tokens s.total_tokens >>= λ payload.
    shared_pages c s >>= λ shared.
    checked_multiply (length s.suffix_pages + length shared) c.tokens_per_page >>= λ capacity.
    checked_add m.logical_reserved_tokens capacity >>= λ logical.
    scan_sequences c ss
      (record m { logical_payload_tokens = payload; logical_reserved_tokens = logical })

-- The result as `metrics` fills it before its loops.
abbrev pub no_metrics : PagedKvCache → KvCacheMetrics
no_metrics c = record {
  total_pages = length c.pages;
  free_pages = 0;
  pending_pages = 0;
  mutable_pages = 0;
  shared_prefix_pages = 0;
  sequence_count = length c.sequences;
  prefix_count = length c.prefixes;
  prefix_attachments = 0;
  logical_payload_tokens = 0;
  logical_reserved_tokens = 0;
  logical_fragmentation_tokens = 0;
  physical_committed_tokens = 0;
}

-- What follows the loops.
abbrev pub finish_metrics : PagedKvCache → KvCacheMetrics → Result KvCacheMetrics
finish_metrics c m =
    if ltb m.logical_reserved_tokens m.logical_payload_tokens
    then fails invalid_format
    else checked_multiply (m.mutable_pages + m.shared_prefix_pages) c.tokens_per_page
      >>= λ committed. success (record m {
        logical_fragmentation_tokens = m.logical_reserved_tokens - m.logical_payload_tokens;
        physical_committed_tokens = committed;
      })

unfoldable pub metrics : PagedKvCache → Result KvCacheMetrics
unfolding scan_pages scan_prefixes scan_sequences
metrics c = scan_pages c 0 c.pages (no_metrics c) >>= λ m.
    scan_prefixes c.prefixes m >>= λ m. scan_sequences c c.sequences m >>= λ m. finish_metrics c m
