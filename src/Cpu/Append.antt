-- ===== src/Cpu/Append.antt =====
-- src/cpu/operators.cpp: `append_kv_f32`, which copies keys and values into a cache. It moves floats
-- and computes with none, so the memory is one of bytes.
pub mod Ready
pub mod Frame
use market_sim.Prelude.{
  ℕ, zero, suc, ◌+◌, ◌-◌, ◌*◌, ◌%◌, ◌^◌, ◌≡◌, Bool, true, false, not, ◌||◌, ◌&&◌, List, [], ◌∷◌,
  length, get_elem?, Option, none, some, ltb, leb, ◌==◌, if◌then◌else◌,
}
use market_sim.Core.Status.{
  Status, status_success, status_failure, is_ok, invalid_argument, invalid_shape,
}
use market_sim.Core.TensorView.{TensorView}
use market_sim.Model.Weights.{same_shape}
use market_sim.Cpu.Views.{validate_f32_host, validate_no_overlap, first_failure, extent}

pub record CpuKvView : Type 0 where
  pub key : TensorView
  pub value : TensorView

-- The byte at each address.
abbrev pub Memory : Type 0
Memory = ℕ → ℕ

-- `std::memcpy` of ranges that do not overlap.
unfoldable memcpy : ℕ → ℕ → ℕ → Memory → Memory
memcpy destination source bytes m x =
    if leb destination x && ltb x (destination + bytes) then m (source + (x - destination)) else m x

-- The loop over the positions, and what comes behind it.
unfoldable check_positions : ℕ → List ℕ → Status → Status
check_positions maximum_context [] behind = behind
check_positions maximum_context (position ∷ positions) behind =
    if leb maximum_context position
    then status_failure invalid_argument
    else check_positions maximum_context positions behind

-- Everything in front of the loops.
unfoldable append_status : TensorView → TensorView → List ℕ → CpuKvView → Status
unfolding validate_f32_host validate_no_overlap check_positions same_shape
append_status key value positions cache =
    first_failure
      (validate_f32_host key
        ∷ validate_f32_host value
        ∷ validate_f32_host cache.key
        ∷ validate_f32_host cache.value
        ∷ [])
      (if not (key.shape.rank == 4)
          || not (same_shape value.shape key.shape)
          || not (cache.key.shape.rank == 4)
          || not (same_shape cache.value.shape cache.key.shape)
          || not (extent key.shape 0 == extent cache.key.shape 0)
          || not (extent key.shape 2 == extent cache.key.shape 2)
          || not (extent key.shape 3 == extent cache.key.shape 3)
          || not (length positions == extent key.shape 0 * extent key.shape 1 % 2 ^ 64)
        then status_failure invalid_shape
        else check_positions (extent cache.key.shape 1) positions (
            first_failure
              (validate_no_overlap key cache.key
                ∷ validate_no_overlap key cache.value
                ∷ validate_no_overlap value cache.key
                ∷ validate_no_overlap value cache.value
                ∷ [])
              status_success))

module _ (key value : TensorView) (positions : List ℕ) (cache : CpuKvView) where
  abbrev token_width : ℕ
  token_width = extent key.shape 2 * extent key.shape 3 % 2 ^ 64

  unfoldable source_offset : ℕ → ℕ → ℕ
  source_offset batch_index token =
      (batch_index * extent key.shape 1 + token) * token_width % 2 ^ 64

  unfoldable destination_offset : ℕ → ℕ → ℕ
  destination_offset batch_index position =
      (batch_index * extent cache.key.shape 1 + position) * token_width % 2 ^ 64

  -- The two copies of a token.
  unfoldable copy_token : ℕ → ℕ → ℕ → Memory → Memory
  unfolding memcpy source_offset destination_offset
  copy_token batch_index token position m =
      let to = 4 * destination_offset batch_index position in
      let from = 4 * source_offset batch_index token in
      let bytes = token_width * 4 % 2 ^ 64 in
      memcpy (cache.value.address + to) (value.address + from) bytes
        (memcpy (cache.key.address + to) (key.address + from) bytes m)

  -- There is a position for each token, so it is always found.
  unfoldable copy_found : ℕ → ℕ → Option ℕ → Memory → Memory
  unfolding copy_token
  copy_found batch_index token none m = m
  copy_found batch_index token (some position) m = copy_token batch_index token position m

  -- A round of the inner loop.
  unfoldable append_token : ℕ → ℕ → Memory → Memory
  unfolding copy_found
  append_token batch_index token m =
      copy_found batch_index token
        (get_elem? positions ((batch_index * extent key.shape 1 + token) % 2 ^ 64)) m

  -- The inner loop from a token on.
  unfoldable append_tokens : ℕ → ℕ → ℕ → Memory → Memory
  unfolding append_token
  append_tokens zero batch_index token m = m
  append_tokens (suc rounds) batch_index token m =
      append_tokens rounds batch_index (token + 1) (append_token batch_index token m)

  -- The outer loop from a sequence on.
  unfoldable append_batches : ℕ → ℕ → Memory → Memory
  unfolding append_tokens
  append_batches zero batch_index m = m
  append_batches (suc rounds) batch_index m =
      append_batches rounds (batch_index + 1) (append_tokens (extent key.shape 1) batch_index 0 m)

  unfoldable pub append_kv_f32 : Memory → Memory × Status
  unfolding append_status append_batches
  append_kv_f32 m =
      let status = append_status key value positions cache in
      if not (is_ok status)
      then (m, status)
      else (append_batches (extent key.shape 0) 0 m, status_success)
