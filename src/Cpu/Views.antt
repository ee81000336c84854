-- ===== src/Cpu/Views.antt =====
-- src/cpu/operators.cpp: what the operators ask of the tensors that they are called with.
pub mod Overlap
pub mod Guards
use market_sim.Prelude.{
  ℕ, zero, suc, ◌+◌, ◌-◌, ◌≡◌, Bool, true, false, not, ◌&&◌, ◌||◌, List, [], ◌∷◌, length, ltb, ◌==◌,
  if◌then◌else◌,
}
use market_sim.Core.Status.{
  Status, Result, success, failure, fails, status_success, status_failure, status_failure_at, is_ok,
  ◌>>=◌, invalid_argument, invalid_shape, unsupported_dtype, arithmetic_overflow,
}
use market_sim.Core.CheckedMath.{u64_max}
use market_sim.Core.Shape.{Shape, DType, f32, checked_nbytes, numel_from}
use market_sim.Core.TensorView.{TensorView, MemoryKind, host, validate_tensor_view}

pub record MemoryRange : Type 0 where
  pub begin : ℕ  -- uintptr
  pub end : ℕ

-- The range of a view whose size is known.
unfoldable range_of : ℕ → ℕ → Result MemoryRange
range_of address bytes =
    if bytes == 0
    then success (record { begin = 0; end = 0 })
    else if address == 0 || ltb u64_max bytes
    then fails invalid_argument
    else if ltb (u64_max - bytes) address
    then fails arithmetic_overflow
    else success (record { begin = address; end = address + bytes })

unfoldable pub memory_range : TensorView → Result MemoryRange
unfolding range_of checked_nbytes
memory_range view = checked_nbytes view.shape view.dtype >>= λ bytes. range_of view.address bytes

unfoldable overlaps : MemoryRange → MemoryRange → Bool
overlaps left right =
    if left.begin == left.end || right.begin == right.end
    then false
    else ltb left.begin right.end && ltb right.begin left.end

unfoldable exactly_aliases : MemoryRange → MemoryRange → Bool
exactly_aliases left right = left.begin == right.begin && left.end == right.end

abbrev is_f32 : DType → Bool
is_f32 f32 = true
is_f32 _ = false

abbrev is_host : MemoryKind → Bool
is_host host = true
is_host _ = false

unfoldable pub validate_f32_host : TensorView → Status
unfolding validate_tensor_view
validate_f32_host view =
    if not (is_f32 view.dtype) || not (is_host view.memory)
    then status_failure (if not (is_f32 view.dtype) then unsupported_dtype else invalid_argument)
    else validate_tensor_view view

-- The loop of `require_shape` from an axis on; where the lists differ in length it is not reached.
unfoldable same_extents : ℕ → List ℕ → List ℕ → Status
same_extents axis (s ∷ ss) (e ∷ es) =
    if not (s == e) then status_failure_at invalid_shape axis else same_extents (axis + 1) ss es
same_extents axis _ _ = status_success

unfoldable pub require_shape : Shape → ℕ → List ℕ → Status
unfolding same_extents
require_shape shape rank extents =
    if not (shape.rank == rank) || not (length extents == rank)
    then status_failure invalid_shape
    else same_extents 0 shape.extents extents

-- The ranges of an input and an output, where both are known.
unfoldable alias_status : Bool → Result MemoryRange → Result MemoryRange → Status
unfolding overlaps exactly_aliases
alias_status allow_exact_alias (failure s) output = s
alias_status allow_exact_alias (success input) (failure s) = s
alias_status allow_exact_alias (success input) (success output) =
    if overlaps input output && not (allow_exact_alias && exactly_aliases input output)
    then status_failure invalid_argument
    else status_success

unfoldable pub validate_output_alias : TensorView → TensorView → Bool → Status
unfolding alias_status memory_range
validate_output_alias input output allow_exact_alias =
    alias_status allow_exact_alias (memory_range input) (memory_range output)

unfoldable pub validate_no_overlap : TensorView → TensorView → Status
unfolding validate_output_alias
validate_no_overlap left right = validate_output_alias left right false

-- The source's loop is that of `checked_numel`.
unfoldable pub product : List ℕ → Result ℕ
unfolding numel_from
product factors = numel_from 1 factors

-- `for (const auto status : {...}) if (!status.ok()) return status;`, and what comes behind.
abbrev pub first_failure : List Status → Status → Status
first_failure [] behind = behind
first_failure (s ∷ ss) behind = if not (is_ok s) then s else first_failure ss behind

-- `shape.extents[axis]`; the axes asked for lie in the array.
abbrev pub extent_in : List ℕ → ℕ → ℕ
extent_in [] axis = 0
extent_in (e ∷ es) zero = e
extent_in (e ∷ es) (suc axis) = extent_in es axis

abbrev pub extent : Shape → ℕ → ℕ
extent shape axis = extent_in shape.extents axis
