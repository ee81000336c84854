-- ===== src/Serving/KvCache/Sequences.antt =====
-- src/serving/paged_kv_cache.cpp: the operations on sequences and on the prefixes that they share. Each
-- returns the cache after it and its status.
use market_sim.Prelude.{
  ℕ, ◌+◌, ◌-◌, Bool, true, false, not, ◌||◌, List, [], ◌∷◌, ◌++◌, none, some, ◌==◌, if◌then◌else◌,
  erase_first, replace_first,
}
use market_sim.Core.Status.{
  Status, status_success, status_failure, invalid_argument, invalid_format, Allocation, try_block,
}
use market_sim.Core.CheckedMath.{u64_max}
use market_sim.Serving.KvCache.{
  PagedKvCache, Sequence, Prefix, free_page, page_of, mutable_sequence, immutable_prefix,
  find_sequence, find_prefix, find_sequence_reservation, is_none, all_owned, assign_pages,
}

abbrev pub refuse : PagedKvCache → PagedKvCache × Status
refuse c = (c, status_failure invalid_argument)

abbrev pub corrupt : PagedKvCache → PagedKvCache × Status
corrupt c = (c, status_failure invalid_format)

-- A write through the pointer to a prefix.
abbrev pub put_prefix : Prefix → List Prefix → List Prefix
put_prefix p prefixes = replace_first (λ (q : Prefix). q.id == p.id) p prefixes

abbrev pub put_sequence : Sequence → List Sequence → List Sequence
put_sequence s sequences = replace_first (λ (q : Sequence). q.id == s.id) s sequences

abbrev pub erase_sequence : ℕ → List Sequence → List Sequence
erase_sequence id sequences = erase_first (λ (q : Sequence). q.id == id) sequences

-- `Sequence{id, prefix_id, tokens, tokens, {}}`.
abbrev pub new_sequence : ℕ → ℕ → ℕ → Sequence
new_sequence id prefix_id tokens = record {
  id = id;
  prefix_id = prefix_id;
  prefix_tokens = tokens;
  total_tokens = tokens;
  suffix_pages = [];
}

-- The push of the new sequence; `prefixes` has the prefix with one attachment more.
abbrev pub push_sequence :
    Allocation → ℕ → ℕ → ℕ → List Prefix → PagedKvCache → PagedKvCache × Status
push_sequence memory id prefix_id tokens prefixes c =
    try_block {A = PagedKvCache × Status} memory (λ code. (c, status_failure code))
      (
        record c {
          sequences = c.sequences ++ new_sequence id prefix_id tokens ∷ [];
          prefixes = prefixes;
        },
        status_success,
      )

unfoldable pub create_sequence : Allocation → ℕ → ℕ → PagedKvCache → PagedKvCache × Status
create_sequence memory id prefix_id c =
    if id == 0 || not (is_none (find_sequence c id))
    then refuse c
    else if prefix_id == 0
    then push_sequence memory id prefix_id 0 c.prefixes c
    else elim (find_prefix c prefix_id) [
      | none ↦ refuse c
      | some p ↦
          if p.attachments == u64_max
          then refuse c
          else push_sequence memory id prefix_id p.token_count
              (put_prefix (record p { attachments = p.attachments + 1 }) c.prefixes) c
    ]

-- The end of `destroy_sequence`, once the prefix is found: the pages are checked and freed.
abbrev pub release_sequence : ℕ → Sequence → List Prefix → PagedKvCache → PagedKvCache × Status
release_sequence id s prefixes c =
    if all_owned c.pages (page_of mutable_sequence id) s.suffix_pages
    then (
      record c {
        pages = assign_pages c.pages free_page s.suffix_pages;
        prefixes = prefixes;
        sequences = erase_sequence id c.sequences;
      },
      status_success,
    )
    else corrupt c

unfoldable pub destroy_sequence : ℕ → PagedKvCache → PagedKvCache × Status
destroy_sequence id c = elim (find_sequence c id) [
  | none ↦ refuse c
  | some s ↦
      if not (is_none (find_sequence_reservation c id))
      then refuse c
      else if s.prefix_id == 0
      then release_sequence id s c.prefixes c
      else elim (find_prefix c s.prefix_id) [
        | none ↦ corrupt c
        | some p ↦
            if p.attachments == 0
            then corrupt c
            else release_sequence id s
                (put_prefix (record p { attachments = p.attachments - 1 }) c.prefixes) c
      ]
]

abbrev pub is_empty : List ℕ → Bool
is_empty [] = true
is_empty _ = false

unfoldable pub publish_prefix : Allocation → ℕ → ℕ → PagedKvCache → PagedKvCache × Status
publish_prefix memory prefix_id sequence_id c = elim (find_sequence c sequence_id) [
  | none ↦ refuse c
  | some s ↦
      if prefix_id == 0
        || not (is_none (find_prefix c prefix_id))
        || not (s.prefix_id == 0)
        || s.total_tokens == 0
        || is_empty s.suffix_pages
        || not (is_none (find_sequence_reservation c sequence_id))
      then refuse c
      else if not (all_owned c.pages (page_of mutable_sequence sequence_id) s.suffix_pages)
      then corrupt c
      else try_block memory (λ code. (c, status_failure code))
          (
            record c {
              prefixes =
                  c.prefixes
                  ++ record {
                    id = prefix_id;
                    token_count = s.total_tokens;
                    attachments = 1;
                    pages = s.suffix_pages;
                  }
                    ∷ [];
              pages = assign_pages c.pages (page_of immutable_prefix prefix_id) s.suffix_pages;
              sequences =
                  put_sequence
                    (record s {
                      prefix_id = prefix_id;
                      prefix_tokens = s.total_tokens;
                      suffix_pages = [];
                    })
                    c.sequences;
            },
            status_success,
          )
]

unfoldable pub destroy_prefix : ℕ → PagedKvCache → PagedKvCache × Status
destroy_prefix id c = elim (find_prefix c id) [
  | none ↦ refuse c
  | some p ↦
      if not (p.attachments == 0)
      then refuse c
      else if not (all_owned c.pages (page_of immutable_prefix id) p.pages)
      then corrupt c
      else (
        record c {
          pages = assign_pages c.pages free_page p.pages;
          prefixes = erase_first (λ (q : Prefix). q.id == id) c.prefixes;
        },
        status_success,
      )
]
