-- ===== src/Cpu/Tests.antt =====
-- The checks of src/cpu/operators.cpp at a batch of one sequence, with two tokens and four query heads
-- over a cache of three places and two heads.
use market_sim.Prelude.{ℕ, ◌≡◌, ◌⊎◌, ◌↔◌, refl, true, false, List, [], ◌∷◌, ◌+◌, ◌<◌, ◌≤◌, arith}
use market_sim.Core.Status.{
  Status, success, status_success, status_failure, status_failure_at, fails, invalid_argument,
  invalid_shape, unsupported_dtype,
}
use market_sim.Core.Shape.{f32, f16}
use market_sim.Core.TensorView.{TensorView, host}
use market_sim.Cpu.Views.{
  MemoryRange, memory_range, validate_output_alias, validate_f32_host, require_shape,
}
use market_sim.Cpu.Views.Overlap.{Holds, validate_output_alias_iff}
use market_sim.Cpu.Append.{CpuKvView, Memory, append_kv_f32}
use market_sim.Cpu.Append.Frame.{KeepsAllBut, append_kv_f32-KeepsAllBut}
use market_sim.Cpu.Attention.{
  validate_attention_shapes, required_attention_workspace_floats, query_offset, key_offset,
  scratch_offset, valid_keys, kv_head_of,
}
use market_sim.Cpu.Attention.Offsets.{IsElement, attention_impl-IsElement}

abbrev floats : ℕ → List ℕ → TensorView
floats address extents = record {
  address = address;
  shape = record { extents = extents; rank = 4 };
  dtype = f32;
  memory = host;
}

abbrev query_at : ℕ → TensorView
query_at address = floats address (1 ∷ 2 ∷ 4 ∷ 2 ∷ 0 ∷ 0 ∷ [])

abbrev cache_at : ℕ → TensorView
cache_at address = floats address (1 ∷ 3 ∷ 2 ∷ 2 ∷ 0 ∷ 0 ∷ [])

abbrev bytes : ℕ → ℕ → MemoryRange
bytes begin end = record { begin = begin; end = end }

range_test : memory_range (query_at 1000) ≡ success (bytes 1000 1064)
unfolding memory_range
range_test = refl

range-behind_test : memory_range (query_at 1064) ≡ success (bytes 1064 1128)
unfolding memory_range
range-behind_test = refl

null_test : memory_range (query_at 0) ≡ fails invalid_argument
unfolding memory_range
null_test = refl

half_test :
    validate_f32_host (record (query_at 1000) { dtype = f16 }) ≡ status_failure unsupported_dtype
unfolding validate_f32_host
half_test = refl

alias_test :
    (validate_output_alias (query_at 1000) (query_at 1000) true ≡ status_success)
    × (validate_output_alias (query_at 1000) (query_at 1000) false
        ≡ status_failure invalid_argument)
    × (validate_output_alias (query_at 1000) (query_at 1032) true ≡ status_failure invalid_argument)
unfolding validate_output_alias
alias_test = (refl, refl, refl)

require_shape_test :
    require_shape (query_at 1000).shape 4 (1 ∷ 2 ∷ 4 ∷ 3 ∷ []) ≡ status_failure_at invalid_shape 3
unfolding require_shape
require_shape_test = refl

shapes_test :
    validate_attention_shapes
      (query_at 1000)
      (cache_at 2000)
      (cache_at 3000)
      (query_at 4000)
      (3 ∷ [])
    ≡ status_success
unfolding validate_attention_shapes
shapes_test = refl

short-context_test :
    validate_attention_shapes
      (query_at 1000)
      (cache_at 2000)
      (cache_at 3000)
      (query_at 4000)
      (1 ∷ [])
    ≡ status_failure invalid_argument
unfolding validate_attention_shapes
short-context_test = refl

workspace_test : required_attention_workspace_floats (query_at 1000) (cache_at 2000) ≡ success 24
unfolding required_attention_workspace_floats
workspace_test = refl

last_key : 2 < valid_keys 3 2 1
unfolding valid_keys
last_key = omega arith

validate_output_alias_iff_example :
    (validate_output_alias (query_at 1000) (query_at 1064) true ≡ status_success) ↔ (
      ((x : ℕ) → Holds (query_at 1000) x → ¬ Holds (query_at 1064) x)
      ⊎ ((true ≡ true)
          × ((bytes 1000 1064).begin ≡ (bytes 1064 1128).begin)
          × ((bytes 1000 1064).end ≡ (bytes 1064 1128).end)))
validate_output_alias_iff_example =
    validate_output_alias_iff (query_at 1000) (query_at 1064) true (bytes 1000 1064)
      (bytes 1064 1128) range_test range-behind_test

attention_impl-IsElement_example :
    IsElement
      (query_at 1000).shape
      (0 ∷ 1 ∷ 3 ∷ 1 ∷ [])
      (query_offset (query_at 1000).shape 0 1 3 1)
    × IsElement
        (query_at 4000).shape
        (0 ∷ 1 ∷ 3 ∷ 1 ∷ [])
        (query_offset (query_at 1000).shape 0 1 3 1)
    × IsElement
        (cache_at 2000).shape
        (0 ∷ 2 ∷ 1 ∷ 1 ∷ [])
        (key_offset (cache_at 2000).shape 0 2 1 1)
    × IsElement
        (cache_at 3000).shape
        (0 ∷ 2 ∷ 1 ∷ 1 ∷ [])
        (key_offset (cache_at 2000).shape 0 2 1 1)
    × (2 < 3)
    × (scratch_offset (query_at 1000).shape (cache_at 2000).shape 0 1 3 + 3 ≤ 24)
unfolding kv_head_of
attention_impl-IsElement_example =
    attention_impl-IsElement (query_at 1000) (cache_at 2000) (cache_at 3000) (query_at 4000)
      (3 ∷ []) 24 3 0 1 3 2 1 refl refl shapes_test workspace_test (omega arith) (omega arith)
      (omega arith) (omega arith) refl (omega arith) last_key

-- A token whose bytes say where they lie goes to the second place of a cache.
abbrev token_at : ℕ → TensorView
token_at address = floats address (1 ∷ 1 ∷ 1 ∷ 1 ∷ 0 ∷ 0 ∷ [])

abbrev places_at : ℕ → TensorView
places_at address = floats address (1 ∷ 2 ∷ 1 ∷ 1 ∷ 0 ∷ 0 ∷ [])

abbrev small_cache : CpuKvView
small_cache = record { key = places_at 300; value = places_at 400 }

abbrev addresses : Memory
addresses x = x

abbrev appended : Memory × Status
appended = append_kv_f32 (token_at 100) (token_at 200) (1 ∷ []) small_cache addresses

append_test :
    (appended.1 ≡ status_success)
    × (appended.0 303 ≡ 303)
    × (appended.0 304 ≡ 100)
    × (appended.0 307 ≡ 103)
    × (appended.0 308 ≡ 308)
    × (appended.0 405 ≡ 201)
unfolding append_kv_f32
append_test = (refl, refl, refl, refl, refl, refl)

append-late_test :
    (append_kv_f32 (token_at 100) (token_at 200) (2 ∷ []) small_cache addresses).1
    ≡ status_failure invalid_argument
unfolding append_kv_f32
append-late_test = refl

append_kv_f32-KeepsAllBut_example :
    KeepsAllBut
      (token_at 100)
      (token_at 200)
      small_cache
      addresses
      (append_kv_f32 (token_at 100) (token_at 200) (1 ∷ []) small_cache addresses).0
append_kv_f32-KeepsAllBut_example =
    append_kv_f32-KeepsAllBut (token_at 100) (token_at 200) (1 ∷ []) small_cache addresses refl
