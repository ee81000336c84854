-- ===== src/Cpu/Views/Guards.antt =====
-- What follows where the checks of src/cpu/operators.cpp pass.
use market_sim.Prelude.{
  take, sym, ◌*◌, ◌∙◌, subst, ℕ, ◌≤◌, ◌≡◌, Bool, true, false, ◌||◌, refl, List, [], ◌∷◌, length,
  arith, both_branches, ap, not, if◌then◌else◌,
}
use market_sim.Core.CheckedMath.{u64_max, checked_multiply, checked_multiply_exact}
use market_sim.Core.Status.{
  >>=-eq-success, ◌>>=◌, Status, success, is_ok, is_ok_code, ErrorCode, unsupported_dtype,
  status_failure, invalid_argument,
}
use market_sim.Core.Shape.Offsets.{numel_from_lem, product as factors}
use market_sim.Core.Shape.{
  Shape, IsArray, max_rank, DType, f32, f16, bf16, i8, i32, u32, dtype_size, checked_nbytes,
  checked_numel,
}
use market_sim.Core.TensorView.{TensorView, validate_tensor_view_sized}
use market_sim.Cpu.Views.{extent_in, validate_f32_host, extent, is_f32, is_host}

pub guard_passes :
    (test : Bool) (s behind : Status)
    → is_ok s ≡ false
    → is_ok (if test then s else behind) ≡ true
    → (test ≡ false) × (is_ok behind ≡ true)
guard_passes true s behind e h = cc
guard_passes false s behind e h = (refl, h)

pub ok_passes :
    (b : Bool) (s behind : Status)
    → is_ok s ≡ b
    → is_ok (if not b then s else behind) ≡ true
    → (is_ok s ≡ true) × (is_ok behind ≡ true)
ok_passes true s behind e h = (e, h)
ok_passes false s behind e h = cc

is_f32-eq : (d : DType) → is_f32 d ≡ true → d ≡ f32
is_f32-eq f32 h = refl
is_f32-eq f16 h = cc
is_f32-eq bf16 h = cc
is_f32-eq i8 h = cc
is_f32-eq i32 h = cc
is_f32-eq u32 h = cc

-- A view that passes has a count of elements, and four bytes for each.
pub validate_f32_host_sized :
    (view : TensorView)
    → is_ok (validate_f32_host view) ≡ true
    → (n : ℕ) × (checked_numel view.shape ≡ success n)
      × (checked_nbytes view.shape view.dtype ≡ success (n * 4))
unfolding validate_f32_host checked_nbytes dtype_size
validate_f32_host_sized view h =
    let code = if not (is_f32 view.dtype) then unsupported_dtype else invalid_argument in
    let wrong =
      both_branches (λ (c : ErrorCode). is_ok_code c ≡ false) (not (is_f32 view.dtype)) _ _
        (λ _. refl) (λ _. refl) in
    let (typed, valid) =
      guard_passes (not (is_f32 view.dtype) || not (is_host view.memory)) (status_failure code) _
        wrong h in
    let (bytes, sized) = validate_tensor_view_sized view valid in
    let f32_view = is_f32-eq view.dtype (ground arith) in
    let (n, counted, rest) = >>=-eq-success (checked_numel view.shape) _ sized in
    let scaled =
      subst (λ (d : DType). (dtype_size d >>= checked_multiply n) ≡ success bytes) f32_view rest in
    let (exact, _) = checked_multiply_exact n 4 bytes scaled in
    (n, counted, sized ∙ ap success exact)

pub validate_f32_host_counts :
    (view : TensorView)
    → is_ok (validate_f32_host view) ≡ true
    → (n : ℕ) × (checked_numel view.shape ≡ success n)
validate_f32_host_counts view h =
    let (n, counted, _) = validate_f32_host_sized view h in (n, counted)

pub take_four :
    (es : List ℕ)
    → length es ≡ max_rank
    → take 4 es ≡ extent_in es 0 ∷ extent_in es 1 ∷ extent_in es 2 ∷ extent_in es 3 ∷ []
take_four [] h = absurd (omega arith)
take_four (a ∷ []) h = absurd (omega arith)
take_four (a ∷ b ∷ []) h = absurd (omega arith)
take_four (a ∷ b ∷ c ∷ []) h = absurd (omega arith)
take_four (a ∷ b ∷ c ∷ d ∷ es) h = refl

-- In a shape of rank four the count is the product of the extents.
pub four_counts :
    (s : Shape) (n : ℕ)
    → IsArray s
    → s.rank ≡ 4
    → checked_numel s ≡ success n
    → (1 * (extent s 0 * (extent s 1 * (extent s 2 * (extent s 3 * 1)))) ≡ n) × (n ≤ u64_max)
unfolding checked_numel
four_counts s n a r h =
    let (whole, fits) = numel_from_lem 1 (take s.rank s.extents) n (omega arith) (ground arith) in
    let shape = ap (λ (m : ℕ). take m s.extents) r ∙ take_four s.extents a in
    (ap (λ (es : List ℕ). 1 * factors es) (sym shape) ∙ whole, fits)
