-- ===== src/Serving/KvCache/Steps.antt =====
-- Every operation of the cache keeps the ledger.
use market_sim.Prelude.{
  ℕ, ◌≡◌, inl, inr, refl, ap, ◌∙◌, subst, true, List, [], ◌∷◌, ◌++◌, some, arith, ◌==◌, Bool-cases,
  Option-cases, erase_first,
}
use market_sim.Prelude.Found.{
  find_if-passes, find_if-All, erase_first-All, replace_first-All, erase_first-weigh,
  replace_first-weigh,
}
use market_sim.Core.Status.{status_success, Allocation, try_block-keeps}
use market_sim.Serving.KvCache.{
  PagedKvCache, Page, Sequence, Prefix, PendingReservation, page_of, reserved, mutable_sequence,
  immutable_prefix, find_sequence, find_prefix, find_reservation, all_owned, assign_pages,
}
use market_sim.Serving.KvCache.Sequences.{destroy_prefix, put_sequence}
use market_sim.Serving.KvCache.Reservations.{commit, erase_reservation}
use market_sim.Serving.KvCache.Pages.{times, times-append}
use market_sim.Serving.KvCache.Ledger.{
  Ledger, reassign, taken_out, found_reservation, freed, SequenceOwns, PrefixOwns,
}

-- Two lists of an owner, together.
all_owned-append :
    (pages : List Page) (p : Page) (is js : List ℕ)
    → all_owned pages p is ≡ true
    → all_owned pages p js ≡ true
    → all_owned pages p (is ++ js) ≡ true
all_owned-append pages p [] js a b = b
all_owned-append pages p (i ∷ is) js a b = ground (arith, all_owned-append pages p is js)

-- `commit` hands the pages of the reservation to the sequence.
committed :
    (id : ℕ) (c : PagedKvCache) (r : PendingReservation) (s : Sequence)
    → Ledger c
    → find_reservation c id ≡ some r
    → find_sequence c r.sequence_id ≡ some s
    → Ledger (record c {
      sequences =
          put_sequence
            (record s {
              suffix_pages = s.suffix_pages ++ r.pages;
              total_tokens = r.target_token_count;
            })
            c.sequences;
      pages = assign_pages c.pages (page_of mutable_sequence s.id) r.pages;
      reservations = erase_reservation id c.reservations;
    })
committed id c r s v e f =
    let q = page_of mutable_sequence s.id in
    let s' : Sequence = record s {
      suffix_pages = s.suffix_pages ++ r.pages;
      total_tokens = r.target_token_count;
    } in
    let test = λ (t : Sequence). t.id == s.id in
    let same : s.id ≡ r.sequence_id =
      let p = find_if-passes (λ (t : Sequence). t.id == r.sequence_id) c.sequences s f in
      ground arith in
    let found : find_sequence c s.id ≡ some s = ap (find_sequence c) same ∙ f in
    let pages' = assign_pages c.pages q r.pages in
    let b =
      reassign c.pages c.sequences c.prefixes (erase_reservation id c.reservations) r.pages
        (page_of reserved id) q (λ h. cc) (found_reservation id c r v e) in
    let mine = find_if-All test (SequenceOwns pages') c.sequences s b.sequences_own found in
    let split = λ (i : ℕ).
      replace_first-weigh test (λ (t : Sequence). times i t.suffix_pages) s' c.sequences s found in
    record {
      sequences_own =
          replace_first-All test (SequenceOwns pages') s' c.sequences
            (all_owned-append pages' q s.suffix_pages r.pages mine b.aside) b.sequences_own;
      prefixes_own = b.prefixes_own;
      reservations_own = b.reservations_own;
      accounted = λ i. omega (arith, b.accounted i, split i, times-append i s.suffix_pages r.pages);
      tidy = b.tidy;
      numbered = b.numbered;
    }

pub commit-Ledger :
    (memory : Allocation) (id : ℕ) (c : PagedKvCache) → Ledger c → Ledger (commit memory id c).0
unfolding commit
commit-Ledger memory id c v = elim (Option-cases (find_reservation c id)) [
  | inl missing ↦ rw (missing, commit) v
  | inr (r, e) ↦ elim (Option-cases (find_sequence c r.sequence_id)) [
    | inl gone ↦ rw (e, commit, gone) v
    | inr (s, f) ↦
        let a = found_reservation id c r v e in
        rw (e, commit, f, a.aside)
          (try_block-keeps Ledger memory _ c (_, status_success) v (committed id c r s v e f))
  ]
]

pub destroy_prefix-Ledger : (id : ℕ) (c : PagedKvCache) → Ledger c → Ledger (destroy_prefix id c).0
unfolding destroy_prefix
destroy_prefix-Ledger id c v = elim (Option-cases (find_prefix c id)) [
  | inl missing ↦ rw (missing, destroy_prefix) v
  | inr (p, e) ↦ elim (Bool-cases (p.attachments == 0)) [
    | inr attached ↦ rw (e, destroy_prefix, attached) v
    | inl alone ↦
        let test = λ (q : Prefix). q.id == id in
        let same : p.id ≡ id = let h = find_if-passes test c.prefixes p e in ground arith in
        let rest = erase_first test c.prefixes in
        let a =
          taken_out c c.sequences rest c.reservations p.pages (page_of immutable_prefix id) v refl
            v.sequences_own (erase_first-All test (PrefixOwns c.pages) c.prefixes v.prefixes_own)
            v.reservations_own
            (subst (λ k. all_owned c.pages (page_of immutable_prefix k) p.pages ≡ true) same
              (find_if-All test (PrefixOwns c.pages) c.prefixes p v.prefixes_own e))
            (λ i.
              omega
                (arith, erase_first-weigh test (λ (q : Prefix). times i q.pages) c.prefixes p e)) in
        rw (e, destroy_prefix, alone, a.aside)
          (freed c c.sequences rest c.reservations p.pages (page_of immutable_prefix id) a)
  ]
]
