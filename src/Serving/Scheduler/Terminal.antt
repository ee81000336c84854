-- ===== src/Serving/Scheduler/Terminal.antt =====
-- A sequence that is over stays as it is.
use market_sim.Prelude.{
  ℕ, zero, suc, ◌≡◌, inl, inr, refl, ap, sym, ◌∙◌, subst, Bool, true, List, [], ◌∷◌, ◌++◌, some,
  some-injective, arith, length, ◌==◌, Bool-cases, Option-cases, get_elem?, set,
}
use market_sim.Prelude.Sort.{All, All-map}
use market_sim.Core.Status.{
  Result, success, Allocation, granted, bad_alloc, length_error, Result-cases,
}
use market_sim.Serving.Scheduler.{
  SequenceScheduler, SequenceRequest, Entry, find, replace, on_entry, enqueue, new_entry,
  is_terminal, is_active, complete_entry, pause_entry, resume_entry, cancel_entry,
}
use market_sim.Serving.Scheduler.Batching.{schedule, launch, mark_all, launched, selection}
use market_sim.Serving.Scheduler.Entries.{
  IsGoodEntry, find-exact, find-replace, complete_entry-Keeps, pause_entry-Keeps,
  resume_entry-Keeps, cancel_entry-Keeps,
}
use market_sim.Serving.Scheduler.Invariant.{
  Inv, Call, enqueues, schedules, completes, pauses, resumes, cancels, step, run, step-Inv,
}
use market_sim.Serving.Scheduler.Selected.{
  active_at, All-active_at-set, runnable-active, select-runnable,
}

-- An entry that is over refuses every operation, or stays as it is.
abbrev Stays : (Entry → Result Entry) → Type 0
Stays body =
    (e e' : Entry) → IsGoodEntry e → is_terminal e.phase ≡ true → body e ≡ success e' → e' ≡ e

complete_entry-Stays :
    (emitted : ℕ) (terminal : Bool) (e e' : Entry)
    → IsGoodEntry e
    → is_terminal e.phase ≡ true
    → complete_entry emitted terminal e ≡ success e'
    → e' ≡ e
unfolding complete_entry
complete_entry-Stays emitted terminal e e' g t h = let a = g.flies_active in absurd (ground arith)

pause_entry-Stays :
    (e e' : Entry)
    → IsGoodEntry e
    → is_terminal e.phase ≡ true
    → pause_entry e ≡ success e'
    → e' ≡ e
unfolding pause_entry
pause_entry-Stays e e' g t h = absurd (ground arith)

resume_entry-Stays :
    (e e' : Entry)
    → IsGoodEntry e
    → is_terminal e.phase ≡ true
    → resume_entry e ≡ success e'
    → e' ≡ e
unfolding resume_entry
resume_entry-Stays e e' g t h = absurd (ground arith)

cancel_entry-Stays :
    (e e' : Entry)
    → IsGoodEntry e
    → is_terminal e.phase ≡ true
    → cancel_entry e ≡ success e'
    → e' ≡ e
unfolding cancel_entry
cancel_entry-Stays e e' g t h = ground arith

replace_self :
    (k id : ℕ) (e : Entry) (es : List Entry)
    → find id es ≡ some e
    → find k (replace id e es) ≡ find k es
unfolding find replace
replace_self k id e [] h = refl
replace_self k id e (x ∷ es) h = elim (Bool-cases (x.id == id)) [
  | inl hit ↦ let same : x ≡ e = ground arith in rw (hit, same) refl
  | inr miss ↦ ground (arith, replace_self k id e es)
]

module _ (k : ℕ) (e : Entry) (t : is_terminal e.phase ≡ true) where
  on_entry-Stays :
      (id : ℕ) (body : Entry → Result Entry) (s : SequenceScheduler)
      → ((x x' : Entry) → IsGoodEntry x → body x ≡ success x' → x'.id ≡ x.id)
      → Stays body
      → Inv s
      → find k s.entries ≡ some e
      → find k (on_entry id body s).0.entries ≡ some e
  unfolding on_entry
  on_entry-Stays id body s same stays v h = elim (Option-cases (find id s.entries)) [
    | inl missing ↦ rw (missing, on_entry) h
    | inr (x, f) ↦ elim (Result-cases (body x)) [
      | inr (status, g) ↦ rw (f, on_entry, g) h
      | inl (x', g) ↦
          let (good, idx) = find-exact id s.entries x v.good f in
          let idx' = same x x' good g ∙ idx in
          rw (f, on_entry, g)
            (elim (Bool-cases (k == id)) [
              | inl hit ↦
                  let ids : k ≡ id = ground arith in
                  let one : x ≡ e =
                    some-injective _ _ (sym f ∙ ap (λ i. find i s.entries) (sym ids) ∙ h) in
                  let kept : x' ≡ e =
                    stays x x' good (subst (λ y. is_terminal y.phase ≡ true) (sym one) t) g ∙ one in
                  find-replace k id x x' s.entries f idx' ∙ rw hit (ap some kept)
              | inr miss ↦ find-replace k id x x' s.entries f idx' ∙ rw miss h
            ])
    ]
  ]

  find-append :
      (es : List Entry) (r : SequenceRequest)
      → find k es ≡ some e
      → find k (es ++ new_entry r ∷ []) ≡ some e
  unfolding find
  find-append [] r h = cc
  find-append (x ∷ es) r h = ground (arith, find-append es r)

  enqueue-Stays :
      (memory : Allocation) (r : SequenceRequest) (s : SequenceScheduler)
      → find k s.entries ≡ some e
      → find k (enqueue memory r s).0.entries ≡ some e
  unfolding enqueue
  enqueue-Stays granted r s h = ground (arith, find-append s.entries r h)
  enqueue-Stays bad_alloc r s h = ground arith
  enqueue-Stays length_error r s h = ground arith

  set-Stays :
      (es : List Entry) (i : ℕ) (x : Entry)
      → get_elem? es i ≡ some x
      → is_active x.phase ≡ true
      → find k es ≡ some e
      → find k (set es i (launched x)) ≡ some e
  unfolding find
  set-Stays [] i x at r h = cc
  set-Stays (y ∷ es) zero x at r h = let same : y ≡ x = some-injective _ _ at in ground (arith)
  set-Stays (y ∷ es) (suc i) x at r h = ground (arith, set-Stays es i x at r)

  mark_all-Stays :
      (es : List Entry) (is : List ℕ)
      → All (λ i. active_at es i ≡ true) is
      → find k es ≡ some e
      → find k (mark_all es is) ≡ some e
  unfolding mark_all
  mark_all-Stays es [] a h = h
  mark_all-Stays es (i ∷ is) a h = elim (Option-cases (get_elem? es i)) [
    | inl missing ↦ rw (missing, mark_all) (mark_all-Stays es is a.1 h)
    | inr (x, at) ↦
        let active : is_active x.phase ≡ true = ground arith in
        rw (at, mark_all)
          (mark_all-Stays (set es i (launched x)) is (All-active_at-set es i x is at a.1)
            (set-Stays es i x at active h))
  ]

  schedule-Stays :
      (memory : Allocation) (maximum : ℕ) (s : SequenceScheduler)
      → find k s.entries ≡ some e
      → find k (schedule memory maximum s).0.entries ≡ some e
  unfolding schedule launch
  schedule-Stays memory maximum s h =
      let runnable = select-runnable s.entries _ _ _ (length s.entries) 0 [] tt in
      let marked =
        mark_all-Stays s.entries (selection s maximum)
          (All-map (selection s maximum) (λ i r. runnable-active s.entries i r) runnable) h in
      attempt memory marked
    where
      attempt :
          (memory : Allocation)
          → find k (mark_all s.entries (selection s maximum)) ≡ some e
          → find k (schedule memory maximum s).0.entries ≡ some e
      attempt granted m = ground arith
      attempt bad_alloc m = ground arith
      attempt length_error m = ground arith

  step-Stays :
      (s : SequenceScheduler) (c : Call)
      → Inv s
      → find k s.entries ≡ some e
      → find k (step s c).entries ≡ some e
  unfolding step
  step-Stays s (enqueues memory r) v h = enqueue-Stays memory r s h
  step-Stays s (schedules memory maximum) v h = schedule-Stays memory maximum s h
  step-Stays s (completes id emitted terminal) v h =
      on_entry-Stays id _ s (λ x x' g q. (complete_entry-Keeps emitted terminal x x' g q).1)
        (complete_entry-Stays emitted terminal) v h
  step-Stays s (pauses id) v h =
      on_entry-Stays id _ s (λ x x' g q. (pause_entry-Keeps x x' g q).1) pause_entry-Stays v h
  step-Stays s (resumes id) v h =
      on_entry-Stays id _ s (λ x x' g q. (resume_entry-Keeps x x' g q).1) resume_entry-Stays v h
  step-Stays s (cancels id) v h =
      on_entry-Stays id _ s (λ x x' g q. (cancel_entry-Keeps x x' g q).1) cancel_entry-Stays v h

-- A sequence that is finished or cancelled in a scheduler that satisfies the invariant is the same
-- after any calls: no call brings it back or changes its tokens.
pub run-terminal :
    (s : SequenceScheduler) (cs : List Call) (k : ℕ) (e : Entry)
    → Inv s
    → find k s.entries ≡ some e
    → is_terminal e.phase ≡ true
    → find k (run s cs).entries ≡ some e
unfolding run
run-terminal s [] k e v h t = h
run-terminal s (c ∷ cs) k e v h t =
    run-terminal (step s c) cs k e (step-Inv s c v) (step-Stays k e t s c v h) t
