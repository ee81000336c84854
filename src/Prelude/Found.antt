-- ===== src/Prelude/Found.antt =====
-- Lemmas on the first element that passes a test: its weight, and what holds of all elements.
use market_sim.Prelude.{
  ℕ, ◌+◌, ◌≡◌, inl, inr, Bool, true, List, [], ◌∷◌, some, arith, Bool-cases, find_if, erase_first,
  replace_first, subst,
}
use market_sim.Prelude.Sort.{weigh, All}

module _ {ℓ} {A : Type ℓ} (test : A → Bool) where
  pub find_if-passes : (xs : List A) (x : A) → find_if test xs ≡ some x → test x ≡ true
  find_if-passes [] x h = cc
  find_if-passes (y ∷ xs) x h = elim (Bool-cases (test y)) [
    | inl e ↦ ground (arith)
    | inr e ↦ find_if-passes xs x (ground arith)
  ]

  pub find_if-All {κ} :
      (P : A → Type κ) (xs : List A) (x : A) → All P xs → find_if test xs ≡ some x → P x
  find_if-All P [] x a h = cc
  find_if-All P (y ∷ xs) x a h = elim (Bool-cases (test y)) [
    | inl e ↦ let same : y ≡ x = ground arith in subst P same a.0
    | inr e ↦ find_if-All P xs x a.1 (ground arith)
  ]

  pub erase_first-All {κ} : (P : A → Type κ) (xs : List A) → All P xs → All P (erase_first test xs)
  erase_first-All P [] a = tt
  erase_first-All P (y ∷ xs) a = elim (Bool-cases (test y)) [
    | inl e ↦ rw e a.1
    | inr e ↦ rw e (a.0, erase_first-All P xs a.1)
  ]

  pub replace_first-All {κ} :
      (P : A → Type κ) (v : A) (xs : List A) → P v → All P xs → All P (replace_first test v xs)
  replace_first-All P v [] p a = tt
  replace_first-All P v (y ∷ xs) p a = elim (Bool-cases (test y)) [
    | inl e ↦ rw e (p, a.1)
    | inr e ↦ rw e (a.0, replace_first-All P v xs p a.1)
  ]

  pub erase_first-weigh :
      (f : A → ℕ) (xs : List A) (x : A)
      → find_if test xs ≡ some x
      → weigh f (erase_first test xs) + f x ≡ weigh f xs
  unfolding weigh
  erase_first-weigh f [] x h = cc
  erase_first-weigh f (y ∷ xs) x h = elim (Bool-cases (test y)) [
    | inl e ↦ let same : y ≡ x = ground arith in rw (e, same) (omega arith)
    | inr e ↦ let below = erase_first-weigh f xs x (ground arith) in rw e (omega (arith, below))
  ]

  pub replace_first-weigh :
      (f : A → ℕ) (v : A) (xs : List A) (x : A)
      → find_if test xs ≡ some x
      → weigh f (replace_first test v xs) + f x ≡ weigh f xs + f v
  unfolding weigh
  replace_first-weigh f v [] x h = cc
  replace_first-weigh f v (y ∷ xs) x h = elim (Bool-cases (test y)) [
    | inl e ↦ let same : y ≡ x = ground arith in rw (e, same) (omega arith)
    | inr e ↦ let below = replace_first-weigh f v xs x (ground arith) in rw e (omega (arith, below))
  ]
