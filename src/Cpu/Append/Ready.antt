-- ===== src/Cpu/Append/Ready.antt =====
-- What the checks of `append_kv_f32` in src/cpu/operators.cpp establish.
use market_sim.Prelude.{
  ℕ, zero, suc, ◌*◌, ◌%◌, ◌^◌, ◌<◌, ◌≡◌, ◌⊎◌, inl, inr, refl, Bool, true, false, not, ◌||◌, List,
  [], ◌∷◌, length, get_elem?, some, arith, leb, ◌==◌, sym, ap, ◌∙◌,
}
use market_sim.Core.Status.{
  success-injective, Status, success, status_failure, is_ok, invalid_argument, invalid_shape,
}
use market_sim.Core.Shape.{checked_numel, checked_nbytes}
use market_sim.Core.TensorView.{TensorView}
use market_sim.Model.Weights.{same_shape}
use market_sim.Model.Weights.Bound.{same_shape-eq}
use market_sim.Cpu.Views.{validate_f32_host, validate_no_overlap, extent}
use market_sim.Cpu.Views.Overlap.{Holds, validate_no_overlap_apart}
use market_sim.Cpu.Views.Guards.{guard_passes, ok_passes, validate_f32_host_sized}
use market_sim.Cpu.Append.{CpuKvView, check_positions, append_status}

check_positions_lem :
    (maximum : ℕ) (positions : List ℕ) (behind : Status) (i position : ℕ)
    → is_ok (check_positions maximum positions behind) ≡ true
    → get_elem? positions i ≡ some position
    → position < maximum
unfolding check_positions
check_positions_lem maximum [] behind i position h e = cc
check_positions_lem maximum (p ∷ ps) behind zero position h e =
    let (fits, _) = guard_passes (leb maximum p) (status_failure invalid_argument) _ refl h in
    let same : p ≡ position = cc in ground arith
check_positions_lem maximum (p ∷ ps) behind (suc i) position h e =
    let (_, rest) = guard_passes (leb maximum p) (status_failure invalid_argument) _ refl h in
    check_positions_lem maximum ps behind i position rest e

-- What the checks establish.
pub record IsReady (key value : TensorView) (positions : List ℕ) (cache : CpuKvView) : Type 0 where
  pub n : ℕ
  pub counted : checked_numel cache.key.shape ≡ success n
  pub key_sized : checked_nbytes cache.key.shape cache.key.dtype ≡ success (n * 4)
  pub value_sized : checked_nbytes cache.value.shape cache.value.dtype ≡ success (n * 4)
  pub rank : cache.key.shape.rank ≡ 4
  pub batches : extent key.shape 0 ≡ extent cache.key.shape 0
  pub heads : extent key.shape 2 ≡ extent cache.key.shape 2
  pub width : extent key.shape 3 ≡ extent cache.key.shape 3
  pub placed :
      (i position : ℕ) → get_elem? positions i ≡ some position → position < extent cache.key.shape 1

abbrev wrong_append :
    (rank rank' : ℕ) (same same' : Bool) (batch batch' heads heads' width width' count expected : ℕ)
    → Bool
wrong_append rank rank' same same' batch batch' heads heads' width width' count expected =
    not (rank == 4)
    || not same
    || not (rank' == 4)
    || not same'
    || not (batch == batch')
    || not (heads == heads')
    || not (width == width')
    || not (count == expected)

wrong_append_lem :
    (rank rank' : ℕ) (same same' : Bool) (batch batch' heads heads' width width' count expected : ℕ)
    → wrong_append rank rank' same same' batch batch' heads heads' width width' count expected
      ≡ false
    → (rank' ≡ 4) × (same' ≡ true) × (batch ≡ batch') × (heads ≡ heads') × (width ≡ width')
wrong_append_lem rank rank' same same' batch batch' heads heads' width width' count expected h =
    (ground arith, ground arith, ground arith, ground arith, ground arith)

check_positions-behind :
    (maximum : ℕ) (positions : List ℕ) (behind : Status)
    → is_ok (check_positions maximum positions behind) ≡ true
    → is_ok behind ≡ true
unfolding check_positions
check_positions-behind maximum [] behind h = h
check_positions-behind maximum (p ∷ ps) behind h =
    let (_, rest) = guard_passes (leb maximum p) (status_failure invalid_argument) _ refl h in
    check_positions-behind maximum ps behind rest

-- The inputs have no byte in common with the cache.
unfoldable pub IsApart : TensorView → TensorView → CpuKvView → Type 0
IsApart key value cache =
    (x : ℕ) → Holds key x ⊎ Holds value x → (¬ Holds cache.key x) × (¬ Holds cache.value x)

pub append_status-IsReady :
    (key value : TensorView) (positions : List ℕ) (cache : CpuKvView)
    → is_ok (append_status key value positions cache) ≡ true
    → IsReady key value positions cache × IsApart key value cache
unfolding append_status IsApart
append_status-IsReady key value positions cache h =
    let (_, h₁) = ok_passes _ (validate_f32_host key) _ refl h in
    let (_, h₂) = ok_passes _ (validate_f32_host value) _ refl h₁ in
    let (k_ok, h₃) = ok_passes _ (validate_f32_host cache.key) _ refl h₂ in
    let (v_ok, h₄) = ok_passes _ (validate_f32_host cache.value) _ refl h₃ in
    let (right, h₅) =
      guard_passes
        (wrong_append key.shape.rank cache.key.shape.rank (same_shape value.shape key.shape)
          (same_shape cache.value.shape cache.key.shape) (extent key.shape 0)
          (extent cache.key.shape 0) (extent key.shape 2) (extent cache.key.shape 2)
          (extent key.shape 3) (extent cache.key.shape 3) (length positions)
          (extent key.shape 0 * extent key.shape 1 % 2 ^ 64))
        (status_failure invalid_shape) _ refl h₄ in
    let (rank, same, batches, heads, width) =
      wrong_append_lem key.shape.rank cache.key.shape.rank _ _ _ _ _ _ _ _ _ _ right in
    let h₆ = check_positions-behind (extent cache.key.shape 1) positions _ h₅ in
    let (kk, h₇) = ok_passes _ (validate_no_overlap key cache.key) _ refl h₆ in
    let (kv, h₈) = ok_passes _ (validate_no_overlap key cache.value) _ refl h₇ in
    let (vk, h₉) = ok_passes _ (validate_no_overlap value cache.key) _ refl h₈ in
    let (vv, _) = ok_passes _ (validate_no_overlap value cache.value) _ refl h₉ in
    let (n, counted, key_sized) = validate_f32_host_sized cache.key k_ok in
    let (m, counted', value_sized) = validate_f32_host_sized cache.value v_ok in
    let shapes = same_shape-eq cache.value.shape cache.key.shape same in
    let equal : m ≡ n = success-injective (sym counted' ∙ ap checked_numel shapes ∙ counted) in
    (
      record {
        n = n;
        counted = counted;
        key_sized = key_sized;
        value_sized = value_sized ∙ ap (λ (k : ℕ). success (k * 4)) equal;
        rank = rank;
        batches = batches;
        heads = heads;
        width = width;
        placed = λ i position e.
            check_positions_lem (extent cache.key.shape 1) positions _ i position h₅ e;
      },
      λ x input. elim input [
        | inl held ↦ (
          validate_no_overlap_apart key cache.key kk x held,
          validate_no_overlap_apart key cache.value kv x held,
        )
        | inr held ↦ (
          validate_no_overlap_apart value cache.key vk x held,
          validate_no_overlap_apart value cache.value vv x held,
        )
      ],
    )
