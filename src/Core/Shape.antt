-- ===== src/Core/Shape.antt =====
-- include/marketforge/core/dtype.hpp, include/marketforge/core/shape.hpp and src/core/shape.cpp.
-- The source's `std::array<uint64_t, 6>` is a list; `IsArray` says that it has its six elements.
pub mod Offsets
pub mod Indexing
use market_sim.Prelude.{
  ℕ, zero, suc, ◌+◌, ◌-◌, ◌≡◌, Bool, List, [], ◌∷◌, ◌++◌, ◌||◌, not, length, take, drop, replicate,
  ltb, leb, ◌==◌, if◌then◌else◌,
}
use market_sim.Core.Status.{
  Status, Result, success, failure, fails, status_success, status_failure, status_failure_at, is_ok,
  ◌>>=◌, invalid_shape, invalid_argument,
}
use market_sim.Core.CheckedMath.{checked_add, checked_multiply}

pub data DType : Type 0 where
  f32 f16 bf16 i8 i32 u32 : DType

-- The source's last `return` is for values outside the enumeration.
unfoldable pub dtype_size : DType → Result ℕ
dtype_size f32 = success 4
dtype_size i32 = success 4
dtype_size u32 = success 4
dtype_size f16 = success 2
dtype_size bf16 = success 2
dtype_size i8 = success 1

abbrev pub max_rank : ℕ
max_rank = 6

pub record Shape : Type 0 where
  pub extents : List ℕ  -- max_rank values of uint64
  pub rank : ℕ  -- uint8

abbrev pub IsArray : Shape → Type 0
IsArray s = length s.extents ≡ max_rank

unfoldable pub make_shape : List ℕ → Result Shape
make_shape es =
    if ltb max_rank (length es)
    then fails invalid_shape
    else success (record { extents = es ++ replicate (max_rank - length es) 0; rank = length es })

-- The loop over the extents behind the rank, which starts at `index`.
pub check_unused : ℕ → List ℕ → Status
check_unused index [] = status_success
check_unused index (e ∷ es) =
    if not (e == 0) then status_failure_at invalid_shape index else check_unused (index + 1) es

unfoldable pub validate_shape : Shape → Status
unfolding check_unused
validate_shape s =
    if ltb max_rank s.rank
    then status_failure invalid_shape
    else check_unused s.rank (drop s.rank s.extents)

-- The loop of `checked_numel` over the extents in use.
unfoldable pub numel_from : ℕ → List ℕ → Result ℕ
unfolding checked_multiply
numel_from elements [] = success elements
numel_from elements (e ∷ es) = do product ← checked_multiply elements e; numel_from product es

unfoldable pub checked_numel : Shape → Result ℕ
unfolding numel_from validate_shape
checked_numel s =
    let validation = validate_shape s in
    if not (is_ok validation) then failure validation else numel_from 1 (take s.rank s.extents)

unfoldable pub checked_nbytes : Shape → DType → Result ℕ
unfolding checked_numel dtype_size checked_multiply
checked_nbytes s dtype = do
  elements ← checked_numel s
  bytes_per_element ← dtype_size dtype
  checked_multiply elements bytes_per_element

-- The loop of `row_major_offset`: an axis, the offset so far, the extents and indices ahead.
pub offset_from : ℕ → ℕ → List ℕ → List ℕ → Result ℕ
offset_from axis offset (e ∷ es) (i ∷ is) =
    if leb e i then failure (status_failure_at invalid_argument axis) else do
      scaled ← checked_multiply offset e
      next ← checked_add scaled i
      offset_from (axis + 1) next es is
offset_from axis offset _ _ = success offset

unfoldable pub row_major_offset : Shape → List ℕ → Result ℕ
unfolding offset_from
row_major_offset s indices =
    if not (is_ok (validate_shape s)) || not (length indices == s.rank)
    then fails invalid_shape
    else offset_from 0 0 (take s.rank s.extents) indices
