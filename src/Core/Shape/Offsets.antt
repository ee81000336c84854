-- ===== src/Core/Shape/Offsets.antt =====
-- What the element count and the row-major offset of a shape compute.
use native.Mathlib.Nat.{mul_assoc, mul-le-mul_left, div-eq_of_lt, mul-add-div_right}
use market_sim.Prelude.{
  ℕ, zero, suc, ◌+◌, ◌*◌, ◌/◌, ◌≤◌, ◌<◌, ◌≡◌, refl, List, [], ◌∷◌, arith, length, ltb, ap, ◌∙◌, inl,
  inr, Bool-cases, leb-eq_false,
}
use market_sim.Core.Status.{success, >>=-eq-success}
use market_sim.Core.CheckedMath.{
  checked_multiply_fits, checked_add_fits, checked_multiply_exact, checked_add, checked_multiply,
  checked_multiply_lem, fits_u64, u64_max,
}
use market_sim.Core.Shape.{numel_from, offset_from}

abbrev pub product : List ℕ → ℕ
product [] = 1
product (e ∷ es) = e * product es

-- The value of an index vector in the mixed radix of the extents.
abbrev pub horner : ℕ → List ℕ → List ℕ → ℕ
horner offset (e ∷ es) (i ∷ is) = horner (offset * e + i) es is
horner offset _ _ = offset

-- Each index lies below its extent, and there are as many of them.
abbrev pub InRange : List ℕ → List ℕ → Type 0
InRange [] [] = Unit {0}
InRange (e ∷ es) (i ∷ is) = (i < e) × InRange es is
InRange _ _ = ⊥

InRange-product : (es is : List ℕ) → InRange es is → 0 < product es
InRange-product [] [] h = omega arith
InRange-product [] (i ∷ is) h = elim h [ ]
InRange-product (e ∷ es) [] h = elim h [ ]
InRange-product (e ∷ es) (i ∷ is) h = let p = InRange-product es is h.1 in grind arith

-- One axis more in the weight of an offset.
step_bound : (o e i p : ℕ) → i < e → 0 < p → (o * e + i + 1) * p ≤ (o + 1) * (e * p)
step_bound o e i p h k = let q : (i + 1) * p ≤ e * p = grind arith in omega arith

pub numel_from_lem :
    (acc : ℕ) (es : List ℕ) (n : ℕ)
    → acc ≤ u64_max
    → numel_from acc es ≡ success n
    → (acc * product es ≡ n) × (n ≤ u64_max)
unfolding numel_from
numel_from_lem acc [] n u h = ground arith
numel_from_lem acc (e ∷ es) n u h =
    let (m, first, rest) = >>=-eq-success (checked_multiply acc e) (λ m. numel_from m es) h in
    let (exact, small) = checked_multiply_exact acc e m first in
    let (whole, fits) = numel_from_lem m es n small rest in
    (omega (arith, ap (λ (t : ℕ). t * product es) exact), fits)

pub InRange-length : (es is : List ℕ) → InRange es is → length is ≡ length es
InRange-length [] [] h = refl
InRange-length [] (i ∷ is) h = elim h [ ]
InRange-length (e ∷ es) [] h = elim h [ ]
InRange-length (e ∷ es) (i ∷ is) h = ap suc (InRange-length es is h.1)

pub offset_from_lem :
    (axis o : ℕ) (es is : List ℕ)
    → InRange es is
    → (o + 1) * product es ≤ u64_max
    → (offset_from axis o es is ≡ success (horner o es is))
      × (horner o es is < (o + 1) * product es)
unfolding offset_from
offset_from_lem axis o [] [] h k = (refl, omega arith)
offset_from_lem axis o [] (i ∷ is) h k = elim h [ ]
offset_from_lem axis o (e ∷ es) [] h k = elim h [ ]
offset_from_lem axis o (e ∷ es) (i ∷ is) h k =
    let next : ℕ = o * e + i in
    let p : 0 < product es = InRange-product es is h.1 in
    let b : (next + 1) * product es ≤ (o + 1) * (e * product es) =
      step_bound o e i (product es) h.0 p in
    let l : next + 1 ≤ (next + 1) * product es = grind arith in
    let rest = offset_from_lem (axis + 1) next es is h.1 (omega arith) in
    (
      rw
          (
            leb-eq_false e i h.0,
            checked_multiply_fits o e (omega arith),
            checked_add_fits (o * e) i (omega arith),
          )
          rest.0,
      omega (arith, rest.1),
    )

-- A running product of positive extents is checked at every step, and that is a check of the whole.
pos_of_mul-pos : (a b : ℕ) → 0 < a * b → 0 < b
pos_of_mul-pos a zero h = absurd (omega arith)
pos_of_mul-pos a (suc b) h = omega arith

pub numel_from_positive :
    (acc : ℕ) (es : List ℕ)
    → 0 < acc
    → acc ≤ u64_max
    → 0 < product es
    → numel_from acc es ≡ fits_u64 (acc * product es)
unfolding numel_from
numel_from_positive acc [] a b p = ground arith
numel_from_positive acc (e ∷ es) a b p =
    let q : 0 < product es = pos_of_mul-pos e (product es) p in
    elim (Bool-cases (ltb u64_max (acc * e))) [
      | inl wraps ↦
          let big : acc * e * 1 ≤ acc * e * product es = mul-le-mul_left (acc * e) q in
          rw (checked_multiply_lem acc e, wraps) (ground arith)
      | inr fits ↦
          let r : 0 < e = grind arith in
          rw (checked_multiply_lem acc e, fits)
            (numel_from_positive (acc * e) es (grind arith) (ground arith) q
              ∙ ap fits_u64 (mul_assoc acc e (product es)))
    ]

pub offset_from-InRange :
    (axis o : ℕ) (es is : List ℕ) (k : ℕ)
    → length es ≡ length is
    → offset_from axis o es is ≡ success k
    → InRange es is × (k ≡ horner o es is)
unfolding offset_from checked_add checked_multiply
offset_from-InRange axis o [] [] k l h = (tt, ground arith)
offset_from-InRange axis o [] (i ∷ is) k l h = absurd (omega arith)
offset_from-InRange axis o (e ∷ es) [] k l h = absurd (omega arith)
offset_from-InRange axis o (e ∷ es) (i ∷ is) k l h =
    ground (arith, offset_from-InRange (axis + 1) (o * e + i) es is k (omega arith))

digit_unique : (o o' e i j : ℕ) → i < e → j < e → o * e + i ≡ o' * e + j → (o ≡ o') × (i ≡ j)
digit_unique o o' e i j h k q =
    let p : 0 < e = omega arith in
    let low : i / e ≡ 0 = div-eq_of_lt h in
    let low' : j / e ≡ 0 = div-eq_of_lt k in
    let left = mul-add-div_right p o i in
    let right = mul-add-div_right p o' j in
    let same : o ≡ o' = omega (arith, left, right, low, low', ap (λ (t : ℕ). t / e) q) in
    (same, omega (arith, ap (λ (t : ℕ). t * e) same))

pub horner-injective :
    (o o' : ℕ) (es is js : List ℕ)
    → InRange es is
    → InRange es js
    → horner o es is ≡ horner o' es js
    → (o ≡ o') × (is ≡ js)
horner-injective o o' [] [] [] h k e = (e, refl)
horner-injective o o' (e ∷ es) (i ∷ is) (j ∷ js) h k q =
    let (same, rest) = horner-injective (o * e + i) (o' * e + j) es is js h.1 k.1 q in
    let (high, low) = digit_unique o o' e i j h.0 k.0 same in (high, cc)
horner-injective o o' [] (i ∷ is) js h k e = elim h [ ]
horner-injective o o' (e ∷ es) [] js h k q = elim h [ ]
horner-injective o o' [] [] (j ∷ js) h k e = elim k [ ]
horner-injective o o' (e ∷ es) (i ∷ is) [] h k q = elim k [ ]
