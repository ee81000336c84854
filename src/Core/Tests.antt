-- ===== src/Core/Tests.antt =====
-- The theorems on shapes and on checked arithmetic at concrete shapes.
use market_sim.Prelude.{ℕ, ◌<◌, ◌≡◌, refl, List, [], ◌∷◌, arith, take}
use market_sim.Core.Status.{success, status_success}
use market_sim.Core.CheckedMath.{checked_add, checked_multiply, fits_u64}
use market_sim.Core.Shape.{Shape, make_shape, validate_shape, checked_numel, row_major_offset}
use market_sim.Core.Shape.Offsets.{horner, InRange}
use market_sim.Core.Shape.Indexing.{
  make_shape-validate_shape, checked_numel_made, row_major_offset_bound, row_major_offset-injective,
}

abbrev cube : Shape
cube = record { extents = 2 ∷ 3 ∷ 4 ∷ 0 ∷ 0 ∷ 0 ∷ []; rank = 3 }

cube_made : make_shape (2 ∷ 3 ∷ 4 ∷ []) ≡ success cube
unfolding make_shape
cube_made = refl

cube_numel : checked_numel cube ≡ success 24
unfolding checked_numel validate_shape checked_multiply
cube_numel = refl

cube_offset : row_major_offset cube (1 ∷ 2 ∷ 3 ∷ []) ≡ success 23
unfolding row_major_offset validate_shape checked_multiply checked_add
cube_offset = refl

make_shape-validate_shape_example :
    (validate_shape cube ≡ status_success) × (take 3 cube.extents ≡ 2 ∷ 3 ∷ 4 ∷ [])
make_shape-validate_shape_example = make_shape-validate_shape (2 ∷ 3 ∷ 4 ∷ []) cube_made

checked_numel_made_example : checked_numel cube ≡ fits_u64 24
checked_numel_made_example = checked_numel_made (2 ∷ 3 ∷ 4 ∷ []) (omega arith) cube_made

row_major_offset_bound_example :
    (row_major_offset cube (1 ∷ 2 ∷ 3 ∷ []) ≡ success (horner 0 (2 ∷ 3 ∷ 4 ∷ []) (1 ∷ 2 ∷ 3 ∷ [])))
    × (horner 0 (2 ∷ 3 ∷ 4 ∷ []) (1 ∷ 2 ∷ 3 ∷ []) < 24)
row_major_offset_bound_example =
    row_major_offset_bound cube (1 ∷ 2 ∷ 3 ∷ []) 24 refl cube_numel
      (omega arith, (omega arith, (omega arith, tt)))

abbrev last_index : List ℕ
last_index = 1 ∷ 2 ∷ 3 ∷ []

row_major_offset-injective_example :
    (last_index ≡ last_index) × InRange (2 ∷ 3 ∷ 4 ∷ []) (1 ∷ 2 ∷ 3 ∷ [])
row_major_offset-injective_example =
    row_major_offset-injective cube (1 ∷ 2 ∷ 3 ∷ []) (1 ∷ 2 ∷ 3 ∷ []) 23 refl cube_offset
      cube_offset
