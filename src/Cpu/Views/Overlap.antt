-- ===== src/Cpu/Views/Overlap.antt =====
-- What the checks of src/cpu/operators.cpp on the memory of two views decide.
use market_sim.Prelude.{
  ℕ, ◌+◌, ◌-◌, ◌≤◌, ◌<◌, ◌≡◌, ◌⊎◌, ◌↔◌, inl, inr, refl, Bool, true, false, not, ◌&&◌, ◌||◌, arith,
  ltb, ◌==◌, if◌then◌else◌, Bool-cases, both_branches, subst, sym, ◌∙◌,
}
use market_sim.Core.Status.{
  Yields, Result, success, failure, Status, is_ok, status_success, status_failure, invalid_argument,
  >>=-eq-success, success-injective,
}
use market_sim.Core.Shape.{checked_nbytes}
use market_sim.Core.CheckedMath.{u64_max}
use market_sim.Core.TensorView.{TensorView, Fails, Fails-bind, checked_nbytes-Fails}
use market_sim.Cpu.Views.{
  MemoryRange, range_of, memory_range, overlaps, exactly_aliases, alias_status,
  validate_output_alias, validate_no_overlap,
}

-- A byte at an address belongs to a view.
abbrev pub Holds : TensorView → ℕ → Type 0
Holds view x =
    (bytes : ℕ) × (checked_nbytes view.shape view.dtype ≡ success bytes)
    × (view.address ≤ x)
    × (x < view.address + bytes)

abbrev Covers : MemoryRange → ℕ → Type 0
Covers r x = (r.begin ≤ x) × (x < r.end)

-- What a range has to do with a view of some bytes at an address.
abbrev IsRangeOf : ℕ → ℕ → MemoryRange → Type 0
IsRangeOf address bytes r =
    (r.begin ≤ r.end)
    × ((x : ℕ) → Covers r x → (address ≤ x) × (x < address + bytes))
    × ((x : ℕ) → address ≤ x → x < address + bytes → Covers r x)

range_of-IsRangeOf : (address bytes : ℕ) → Yields (IsRangeOf address bytes) (range_of address bytes)
unfolding range_of
range_of-IsRangeOf address bytes =
    let P = Yields (IsRangeOf address bytes) in
    both_branches P (bytes == 0) _ _
      (λ e. (omega arith, λ x h. absurd (omega arith), λ x h k. absurd (ground arith)))
      λ e.
        both_branches P (address == 0 || ltb u64_max bytes) _ _ (λ _. tt)
          λ _.
            both_branches P (ltb (u64_max - bytes) address) _ _ (λ _. tt)
              λ _. (omega arith, λ x h. h, λ x h k. (h, k))

overlaps_lem :
    (a b : MemoryRange)
    → a.begin ≤ a.end
    → b.begin ≤ b.end
    → overlaps a b ≡ false
    → (x : ℕ) → Covers a x
    → ¬ Covers b x
unfolding overlaps
overlaps_lem a b p q h x s t = ground arith

overlaps_shared :
    (a b : MemoryRange)
    → a.begin ≤ a.end
    → b.begin ≤ b.end
    → overlaps a b ≡ true
    → (x : ℕ) × Covers a x × Covers b x
unfolding overlaps
overlaps_shared a b p q h = elim (Bool-cases (ltb a.begin b.begin)) [
  | inl e ↦ (b.begin, ground arith, ground arith)
  | inr e ↦ (a.begin, ground arith, ground arith)
]

memory_range-IsRangeOf :
    (view : TensorView) (r : MemoryRange)
    → memory_range view ≡ success r
    → (bytes : ℕ) × (checked_nbytes view.shape view.dtype ≡ success bytes)
      × IsRangeOf view.address bytes r
unfolding memory_range
memory_range-IsRangeOf view r h =
    let (bytes, sized, ranged) = >>=-eq-success (checked_nbytes view.shape view.dtype) _ h in
    (
      bytes,
      sized,
      subst (Yields (IsRangeOf view.address bytes)) ranged (range_of-IsRangeOf view.address bytes),
    )

Covers→Holds :
    (view : TensorView) (r : MemoryRange) (x : ℕ)
    → memory_range view ≡ success r
    → Covers r x ↔ Holds view x
Covers→Holds view r x h =
    let (bytes, sized, (_, into, back)) = memory_range-IsRangeOf view r h in
    (
      λ c. let (from, below) = into x c in (bytes, sized, from, below),
      λ (n, sized', from, below).
          let same : n ≡ bytes = success-injective (sym sized' ∙ sized) in
          back x from (omega (arith, below, same)),
    )

-- An overlap passes the check of the ranges where it is an exact alias that is allowed.
passes_iff :
    (overlap excused : Bool)
    → ((if overlap && not excused then status_failure invalid_argument else status_success)
        ≡ status_success)
      ↔ ((overlap ≡ false) ⊎ (excused ≡ true))
passes_iff false excused = (λ _. inl refl, λ _. refl)
passes_iff true false = (λ h. cc, λ h. elim h [ inl e ↦ cc | inr e ↦ cc ])
passes_iff true true = (λ _. inr refl, λ _. refl)

excused_iff :
    (allow : Bool) (a b : MemoryRange)
    → ((allow && exactly_aliases a b) ≡ true)
      ↔ ((allow ≡ true) × (a.begin ≡ b.begin) × (a.end ≡ b.end))
unfolding exactly_aliases
excused_iff allow a b = (λ h. (ground arith, ground arith, ground arith), λ h. ground arith)

-- Of two views whose memory ranges are known, validate_output_alias lets pass exactly those that have no
-- byte in common and, where an exact alias is allowed, those with the same range.
pub validate_output_alias_iff :
    (input output : TensorView) (allow_exact_alias : Bool) (a b : MemoryRange)
    → memory_range input ≡ success a
    → memory_range output ≡ success b
    → (validate_output_alias input output allow_exact_alias ≡ status_success) ↔ (
        ((x : ℕ) → Holds input x → ¬ Holds output x)
        ⊎ ((allow_exact_alias ≡ true) × (a.begin ≡ b.begin) × (a.end ≡ b.end)))
unfolding validate_output_alias alias_status
validate_output_alias_iff input output allow a b h k =
    let (p, _, _) = (memory_range-IsRangeOf input a h).2 in
    let (q, _, _) = (memory_range-IsRangeOf output b k).2 in
    let test = passes_iff (overlaps a b) (allow && exactly_aliases a b) in
    rw (h, k)
      (
        λ passed. elim (test.0 passed) [
          | inl e ↦ inl λ x s t.
              overlaps_lem a b p q e x ((Covers→Holds input a x h).1 s)
                ((Covers→Holds output b x k).1 t)
          | inr e ↦ inr ((excused_iff allow a b).0 e)
        ],
        λ fine. test.1 (elim fine [
          | inl apart ↦ elim (Bool-cases (overlaps a b)) [
            | inl e ↦
                let (x, s, t) = overlaps_shared a b p q e in
                absurd (apart x ((Covers→Holds input a x h).0 s) ((Covers→Holds output b x k).0 t))
            | inr e ↦ inl e
          ]
          | inr same ↦ inr ((excused_iff allow a b).1 same)
        ]),
      )

range_of-Fails : (address bytes : ℕ) → Fails (range_of address bytes)
unfolding range_of
range_of-Fails address bytes =
    both_branches Fails (bytes == 0) _ _ (λ _. tt)
      λ _.
        both_branches Fails (address == 0 || ltb u64_max bytes) _ _ (λ _. refl)
          λ _. both_branches Fails (ltb (u64_max - bytes) address) _ _ (λ _. refl) (λ _. tt)

memory_range-Fails : (view : TensorView) → Fails (memory_range view)
unfolding memory_range
memory_range-Fails view =
    Fails-bind (checked_nbytes view.shape view.dtype) _ (checked_nbytes-Fails view.shape view.dtype)
      (range_of-Fails view.address)

alias_status-ranges :
    (allow : Bool) (input output : Result MemoryRange)
    → Fails input
    → Fails output
    → is_ok (alias_status allow input output) ≡ true
    → (a b : MemoryRange) × (input ≡ success a)
      × (output ≡ success b)
      × (alias_status allow input output ≡ status_success)
unfolding alias_status
alias_status-ranges allow (failure s) output f g h = cc
alias_status-ranges allow (success a) (failure s) f g h = cc
alias_status-ranges allow (success a) (success b) f g h = (
  a,
  b,
  refl,
  refl,
  both_branches (λ (s : Status). is_ok s ≡ true → s ≡ status_success)
      (overlaps a b && not (allow && exactly_aliases a b)) _ _ (λ _ h. cc) (λ _ _. refl) h,
)

-- Two views that must not overlap have no byte in common where the check passes.
pub validate_no_overlap_apart :
    (left right : TensorView)
    → is_ok (validate_no_overlap left right) ≡ true
    → (x : ℕ) → Holds left x
    → ¬ Holds right x
unfolding validate_no_overlap validate_output_alias
validate_no_overlap_apart left right h x =
    let (a, b, e, f, passed) =
      alias_status-ranges false (memory_range left) (memory_range right) (memory_range-Fails left)
        (memory_range-Fails right) h in
    elim ((validate_output_alias_iff left right false a b e f).0 passed) [
      | inl apart ↦ apart x
      | inr (impossible, _, _) ↦ cc
    ]
