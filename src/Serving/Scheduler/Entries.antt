-- ===== src/Serving/Scheduler/Entries.antt =====
-- What one entry of the scheduler always satisfies, and how an operation may change it.
use market_sim.Prelude.{
  ℕ, ◌+◌, ◌≤◌, ◌<◌, ◌≡◌, inl, inr, refl, subst, Bool, true, false, List, [], ◌∷◌, ◌++◌, none, some,
  arith, length, ◌==◌, if◌then◌else◌, Bool-cases,
}
use market_sim.Prelude.Sort.{All}
use market_sim.Core.Status.{Result, success}
use market_sim.Core.CheckedMath.{u32_max}
use market_sim.Serving.Scheduler.{
  Entry, is_queued, is_paused, is_terminal, is_active, find, replace, complete_entry, pause_entry,
  resume_entry, cancel_entry, count,
}

pub record IsGoodEntry (e : Entry) : Type 0 where
  pub identified : 1 ≤ e.id
  pub prompted : 1 ≤ e.prompt_tokens
  pub fits : e.prompt_tokens + e.max_output_tokens ≤ u32_max
  pub budgeted : e.generated_tokens ≤ e.max_output_tokens
  -- Only a sequence that is queued or decoding is in flight, and only one in flight waits to be
  -- cancelled.
  pub flies_active : e.in_flight ≡ true → is_active e.phase ≡ true
  pub cancels_in_flight : e.cancel_pending ≡ true → e.in_flight ≡ true
  -- A paused sequence goes back to be queued or decoding.
  pub resumes_active : is_paused e.phase ≡ true → is_active e.resume_phase ≡ true
  -- A sequence that is not over has tokens left, and a queued one has none yet.
  pub unfinished : is_terminal e.phase ≡ false → e.generated_tokens < e.max_output_tokens
  pub fresh : is_queued e.phase ≡ true → e.generated_tokens ≡ 0
  pub fresh_paused :
      is_paused e.phase ≡ true → is_queued e.resume_phase ≡ true → e.generated_tokens ≡ 0

-- An operation on an entry that keeps it good, and its id.
abbrev pub Keeps : (Entry → Result Entry) → Type 0
Keeps body = (e e' : Entry) → IsGoodEntry e → body e ≡ success e' → IsGoodEntry e' × (e'.id ≡ e.id)

pub pause_entry-Keeps : Keeps pause_entry
unfolding pause_entry
pause_entry-Keeps e e' g h = ground arith

pub resume_entry-Keeps : Keeps resume_entry
unfolding resume_entry
resume_entry-Keeps e e' g h = ground arith

pub cancel_entry-Keeps : Keeps cancel_entry
unfolding cancel_entry
cancel_entry-Keeps e e' g h = ground arith

pub complete_entry-Keeps : (emitted : ℕ) (terminal : Bool) → Keeps (complete_entry emitted terminal)
unfolding complete_entry
complete_entry-Keeps emitted terminal e e' g h = ground arith

-- How often an id occurs.
abbrev pub of_id : ℕ → List Entry → ℕ
of_id id es = count (λ e. e.id == id) es

pub find-exact :
    (id : ℕ) (es : List Entry) (e : Entry)
    → All IsGoodEntry es
    → find id es ≡ some e
    → IsGoodEntry e × (e.id ≡ id)
unfolding find
find-exact id [] e g h = cc
find-exact id (x ∷ es) e g h = elim (Bool-cases (x.id == id)) [
  | inl hit ↦
      let same : x ≡ e = ground arith in
      (subst IsGoodEntry same g.0, subst (λ y. y.id ≡ id) same (ground arith))
  | inr miss ↦ find-exact id es e g.1 (ground arith)
]

pub find-none-count : (id : ℕ) (es : List Entry) → find id es ≡ none → of_id id es ≡ 0
unfolding find
find-none-count id [] h = refl
find-none-count id (x ∷ es) h = ground (arith, find-none-count id es)

pub All-replace :
    (id : ℕ) (e' : Entry) (es : List Entry)
    → IsGoodEntry e'
    → All IsGoodEntry es
    → All IsGoodEntry (replace id e' es)
unfolding replace
All-replace id e' [] g h = tt
All-replace id e' (x ∷ es) g h = elim (Bool-cases (x.id == id)) [
  | inl e ↦ rw e (g, h.1)
  | inr e ↦ rw e (h.0, All-replace id e' es g h.1)
]

pub of_id-replace :
    (k id : ℕ) (e' : Entry) (es : List Entry) → e'.id ≡ id → of_id k (replace id e' es) ≡ of_id k es
unfolding replace
of_id-replace k id e' [] h = refl
of_id-replace k id e' (x ∷ es) h = ground (arith, of_id-replace k id e' es h)

pub length-replace : (id : ℕ) (e' : Entry) (es : List Entry) → length (replace id e' es) ≡ length es
unfolding replace
length-replace id e' [] = refl
length-replace id e' (x ∷ es) = ground (arith, length-replace id e' es)

pub find-replace :
    (k id : ℕ) (e e' : Entry) (es : List Entry)
    → find id es ≡ some e
    → e'.id ≡ id
    → find k (replace id e' es) ≡ (if k == id then some e' else find k es)
unfolding find replace
find-replace k id e e' [] h p = cc
find-replace k id e e' (x ∷ es) h p = ground (arith, find-replace k id e e' es)

pub count-append :
    (test : Entry → Bool) (xs ys : List Entry)
    → count test (xs ++ ys) ≡ count test xs + count test ys
count-append test [] ys = omega arith
count-append test (x ∷ xs) ys = omega (arith, count-append test xs ys)
