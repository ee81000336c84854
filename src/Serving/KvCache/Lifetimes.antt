-- ===== src/Serving/KvCache/Lifetimes.antt =====
-- The operations that create and destroy a sequence keep the ledger.
use market_sim.Prelude.{
  ℕ, ◌+◌, ◌-◌, ◌≡◌, inl, inr, refl, ap, ◌∙◌, subst, true, not, ◌||◌, List, [], ◌∷◌, some, arith,
  ◌==◌, Bool-cases, Option-cases,
}
use market_sim.Prelude.Sort.{All, All-append, weigh, weigh-append}
use market_sim.Prelude.Found.{
  find_if-passes, find_if-All, erase_first-All, replace_first-All, erase_first-weigh,
  replace_first-weigh,
}
use market_sim.Core.Status.{status_success, Allocation, try_block-keeps}
use market_sim.Core.CheckedMath.{u64_max}
use market_sim.Serving.KvCache.{
  PagedKvCache, Sequence, Prefix, page_of, mutable_sequence, find_sequence, find_prefix,
  find_sequence_reservation, is_none, all_owned,
}
use market_sim.Serving.KvCache.Sequences.{
  create_sequence, destroy_sequence, put_prefix, erase_sequence, new_sequence, push_sequence,
  release_sequence,
}
use market_sim.Serving.KvCache.Pages.{times}
use market_sim.Serving.KvCache.Ledger.{
  Ledger, Aside, taken_out, freed, SequenceOwns, PrefixOwns, in_prefixes,
}

-- A prefix that gets another number of attachments lists the same pages.
put_prefix-Owns :
    (c : PagedKvCache) (id n : ℕ) (p : Prefix)
    → Ledger c
    → find_prefix c id ≡ some p
    → All (PrefixOwns c.pages) (put_prefix (record p { attachments = n }) c.prefixes)
      × ((i : ℕ)
          → in_prefixes i (put_prefix (record p { attachments = n }) c.prefixes)
            ≡ in_prefixes i c.prefixes)
put_prefix-Owns c id n p v e =
    let test = λ (t : Prefix). t.id == p.id in
    let same : p.id ≡ id =
      let h = find_if-passes (λ (t : Prefix). t.id == id) c.prefixes p e in ground arith in
    let found : find_prefix c p.id ≡ some p = ap (find_prefix c) same ∙ e in
    let p' : Prefix = record p { attachments = n } in
    (
      replace_first-All test (PrefixOwns c.pages) p' c.prefixes
          (find_if-All test (PrefixOwns c.pages) c.prefixes p v.prefixes_own found) v.prefixes_own,
      λ i.
          omega (
            arith,
            replace_first-weigh test (λ (t : Prefix). times i t.pages) p' c.prefixes p found,
          ),
    )

-- A sequence that is found: its pages, apart from the other holders'.
pub found_sequence :
    (id : ℕ) (c : PagedKvCache) (s : Sequence) (ps : List Prefix)
    → Ledger c
    → find_sequence c id ≡ some s
    → All (PrefixOwns c.pages) ps
    → ((i : ℕ) → in_prefixes i ps ≡ in_prefixes i c.prefixes)
    → Aside c.pages
        (erase_sequence id c.sequences)
        ps
        c.reservations
        s.suffix_pages
        (page_of mutable_sequence id)
found_sequence id c s ps v e own sum =
    let test = λ (q : Sequence). q.id == id in
    let same : s.id ≡ id = let p = find_if-passes test c.sequences s e in ground arith in
    taken_out c (erase_sequence id c.sequences) ps c.reservations s.suffix_pages
      (page_of mutable_sequence id) v refl
      (erase_first-All test (SequenceOwns c.pages) c.sequences v.sequences_own) own
      v.reservations_own
      (subst (λ k. all_owned c.pages (page_of mutable_sequence k) s.suffix_pages ≡ true) same
        (find_if-All test (SequenceOwns c.pages) c.sequences s v.sequences_own e))
      (λ i. omega (
        arith,
        sum i,
        erase_first-weigh test (λ (q : Sequence). times i q.suffix_pages) c.sequences s e,
      ))

release_sequence-Ledger :
    (id : ℕ) (c : PagedKvCache) (s : Sequence) (ps : List Prefix)
    → Ledger c
    → find_sequence c id ≡ some s
    → All (PrefixOwns c.pages) ps
    → ((i : ℕ) → in_prefixes i ps ≡ in_prefixes i c.prefixes)
    → Ledger (release_sequence id s ps c).0
release_sequence-Ledger id c s ps v e own sum =
    let a = found_sequence id c s ps v e own sum in
    rw a.aside (
      freed c (erase_sequence id c.sequences) ps c.reservations s.suffix_pages
        (page_of mutable_sequence id) a)

pub destroy_sequence-Ledger :
    (id : ℕ) (c : PagedKvCache) → Ledger c → Ledger (destroy_sequence id c).0
unfolding destroy_sequence
destroy_sequence-Ledger id c v = elim (Option-cases (find_sequence c id)) [
  | inl missing ↦ rw (missing, destroy_sequence) v
  | inr (s, e) ↦ elim (Bool-cases (is_none (find_sequence_reservation c id))) [
    | inr held ↦ rw (e, destroy_sequence, held) v
    | inl clear ↦ elim (Bool-cases (s.prefix_id == 0)) [
      | inl plain ↦
          rw (e, destroy_sequence, clear, plain)
            (release_sequence-Ledger id c s c.prefixes v e v.prefixes_own (λ i. refl))
      | inr shares ↦ elim (Option-cases (find_prefix c s.prefix_id)) [
        | inl gone ↦ rw (e, destroy_sequence, clear, shares, gone) v
        | inr (p, f) ↦ elim (Bool-cases (p.attachments == 0)) [
          | inl none_left ↦ rw (e, destroy_sequence, clear, shares, f, none_left) v
          | inr some_left ↦
              let (own, sum) = put_prefix-Owns c s.prefix_id (p.attachments - 1) p v f in
              rw (e, destroy_sequence, clear, shares, f, some_left)
                (release_sequence-Ledger id c s _ v e own sum)
        ]
      ]
    ]
  ]
]

pushed :
    (memory : Allocation) (id prefix_id tokens : ℕ) (ps : List Prefix) (c : PagedKvCache)
    → Ledger c
    → All (PrefixOwns c.pages) ps
    → ((i : ℕ) → in_prefixes i ps ≡ in_prefixes i c.prefixes)
    → Ledger (push_sequence memory id prefix_id tokens ps c).0
unfolding weigh
pushed memory id prefix_id tokens ps c v own sum =
    let s = new_sequence id prefix_id tokens in
    try_block-keeps Ledger memory _ c (_, status_success) v
      (record {
        sequences_own =
            All-append (SequenceOwns c.pages) c.sequences (s ∷ []) v.sequences_own (refl, tt);
        prefixes_own = own;
        reservations_own = v.reservations_own;
        accounted = λ i. omega (
          arith,
          sum i,
          v.accounted i,
          weigh-append (λ (t : Sequence). times i t.suffix_pages) c.sequences (s ∷ []),
        );
        tidy = v.tidy;
        numbered = v.numbered;
      })

pub create_sequence-Ledger :
    (memory : Allocation) (id prefix_id : ℕ) (c : PagedKvCache)
    → Ledger c
    → Ledger (create_sequence memory id prefix_id c).0
unfolding create_sequence
create_sequence-Ledger memory id prefix_id c v =
    elim (Bool-cases (id == 0 || not (is_none (find_sequence c id)))) [
      | inl bad ↦ rw (bad, create_sequence) v
      | inr new ↦ elim (Bool-cases (prefix_id == 0)) [
        | inl plain ↦
            rw (new, create_sequence, plain)
              (pushed memory id prefix_id 0 c.prefixes c v v.prefixes_own (λ i. refl))
        | inr shares ↦ elim (Option-cases (find_prefix c prefix_id)) [
          | inl gone ↦ rw (new, create_sequence, shares, gone) v
          | inr (p, f) ↦ elim (Bool-cases (p.attachments == u64_max)) [
            | inl full ↦ rw (new, create_sequence, shares, f, full) v
            | inr room ↦
                let (own, sum) = put_prefix-Owns c prefix_id (p.attachments + 1) p v f in
                rw (new, create_sequence, shares, f, room)
                  (pushed memory id prefix_id p.token_count _ c v own sum)
          ]
        ]
      ]
    ]
