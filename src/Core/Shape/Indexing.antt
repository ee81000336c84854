-- ===== src/Core/Shape/Indexing.antt =====
-- The operations on a whole shape: what `make_shape` builds, and its row-major layout.
use native.Mathlib.Nat.{one-mul}
use market_sim.Prelude.{
  ℕ, zero, suc, ◌+◌, ◌-◌, ◌≤◌, ◌<◌, ◌≡◌, refl, List, [], ◌∷◌, ◌++◌, arith, length, take, drop,
  replicate, length-take, ap, sym, ◌∙◌, true,
}
use market_sim.Core.Status.{success, is_ok, status_success}
use market_sim.Core.CheckedMath.{fits_u64, u64_max}
use market_sim.Core.Shape.{
  Shape, IsArray, make_shape, validate_shape, check_unused, checked_numel, row_major_offset,
}
use market_sim.Core.Shape.Offsets.{
  product, horner, InRange, InRange-length, numel_from_lem, numel_from_positive, offset_from_lem,
  offset_from-InRange, horner-injective,
}

take-append_length {ℓ} : {A : Type ℓ} (xs ys : List A) → take (length xs) (xs ++ ys) ≡ xs
take-append_length [] ys = refl
take-append_length (x ∷ xs) ys = ap (◌∷◌ x) (take-append_length xs ys)

drop-append_length {ℓ} : {A : Type ℓ} (xs ys : List A) → drop (length xs) (xs ++ ys) ≡ ys
drop-append_length [] ys = refl
drop-append_length (x ∷ xs) ys = drop-append_length xs ys

check_unused-replicate : (i n : ℕ) → check_unused i (replicate n 0) ≡ status_success
unfolding check_unused
check_unused-replicate i zero = refl
check_unused-replicate i (suc n) = check_unused-replicate (i + 1) n

-- A shape that `make_shape` returns passes `validate_shape`, and its extents in use are those given.
pub make_shape-validate_shape :
    (es : List ℕ) {s : Shape}
    → make_shape es ≡ success s
    → (validate_shape s ≡ status_success) × (take s.rank s.extents ≡ es)
unfolding make_shape validate_shape
make_shape-validate_shape es h = ground (
  arith,
  drop-append_length es (replicate (6 - length es) 0),
  take-append_length es (replicate (6 - length es) 0),
  check_unused-replicate (length es) (6 - length es),
)

-- Of an array with a good rank the extents in use are as many as the rank says.
length-in_use :
    (s : Shape)
    → IsArray s
    → is_ok (validate_shape s) ≡ true
    → length (take s.rank s.extents) ≡ s.rank
unfolding validate_shape
length-in_use s a v = ground (arith, length-take s.rank s.extents)

-- For positive extents the element count is their product where it fits 64 bits, and the overflow
-- error where it does not.
pub checked_numel_made :
    (es : List ℕ) {s : Shape}
    → 0 < product es
    → make_shape es ≡ success s
    → checked_numel s ≡ fits_u64 (product es)
unfolding checked_numel
checked_numel_made es p h =
    let (v, e) = make_shape-validate_shape es h in
    rw (v, e) (numel_from_positive 1 es (omega arith) (omega arith) p ∙ ap fits_u64 (one-mul _))

-- In a shape whose elements can be counted, every index vector in range has an offset, the value of
-- its digits in the mixed radix of the extents, and it lies below the count: no axis overflows.
pub row_major_offset_bound :
    (s : Shape) (is : List ℕ) (n : ℕ)
    → IsArray s
    → checked_numel s ≡ success n
    → InRange (take s.rank s.extents) is
    → (row_major_offset s is ≡ success (horner 0 (take s.rank s.extents) is))
      × (horner 0 (take s.rank s.extents) is < n)
unfolding row_major_offset checked_numel
row_major_offset_bound s is n a h r =
    let e : is_ok (validate_shape s) ≡ true = ground arith in
    let (whole, fits) = numel_from_lem 1 (take s.rank s.extents) n (omega arith) (ground arith) in
    let (value, below) = offset_from_lem 0 0 (take s.rank s.extents) is r (omega arith) in
    let l : length is ≡ s.rank = InRange-length _ is r ∙ length-in_use s a e in
    (ground arith, omega arith)

-- Only an index vector in range has an offset, and two of them with the same offset are the same.
pub row_major_offset-injective :
    (s : Shape) (is js : List ℕ) (k : ℕ)
    → IsArray s
    → row_major_offset s is ≡ success k
    → row_major_offset s js ≡ success k
    → (is ≡ js) × InRange (take s.rank s.extents) is
unfolding row_major_offset
row_major_offset-injective s is js k a h h' =
    let e : is_ok (validate_shape s) ≡ true = ground arith in
    let u = length-in_use s a e in
    let (r, p) =
      offset_from-InRange 0 0 (take s.rank s.extents) is k (ground arith) (ground arith) in
    let (r', p') =
      offset_from-InRange 0 0 (take s.rank s.extents) js k (ground arith) (ground arith) in
    ((horner-injective 0 0 _ is js r r' (sym p ∙ p')).1, r)

-- A count fits 64 bits.
pub checked_numel_fits : (s : Shape) (n : ℕ) → checked_numel s ≡ success n → n ≤ u64_max
unfolding checked_numel
checked_numel_fits s n h =
    (numel_from_lem 1 (take s.rank s.extents) n (omega arith) (ground arith)).1
