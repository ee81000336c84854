-- ===== src/Cpu/Attention.antt =====
-- src/cpu/operators.cpp: the attention over a cache of keys and values, its checks and where its loops
-- read and write. The sums and exponentials of floats are not modelled.
pub mod Checks
pub mod Offsets
use market_sim.Prelude.{
  ℕ, ◌+◌, ◌-◌, ◌*◌, ◌/◌, ◌%◌, ◌^◌, ◌≡◌, not, ◌||◌, List, [], ◌∷◌, length, ltb, ◌==◌, if◌then◌else◌,
}
use market_sim.Core.Status.{Status, Result, fails, status_failure, invalid_argument, invalid_shape}
use market_sim.Core.Shape.{Shape}
use market_sim.Core.TensorView.{TensorView}
use market_sim.Model.Weights.{same_shape}
use market_sim.Cpu.Views.{validate_f32_host, validate_no_overlap, product, first_failure, extent}

-- The loop over the context lengths, and what comes behind it.
unfoldable check_contexts : ℕ → ℕ → List ℕ → Status → Status
check_contexts tokens maximum_context [] behind = behind
check_contexts tokens maximum_context (context ∷ contexts) behind =
    if ltb context tokens || ltb maximum_context context
    then status_failure invalid_argument
    else check_contexts tokens maximum_context contexts behind

unfoldable pub validate_attention_shapes :
    TensorView → TensorView → TensorView → TensorView → List ℕ → Status
unfolding validate_f32_host validate_no_overlap check_contexts same_shape
validate_attention_shapes query key_cache value_cache output context_lengths =
    let batch = extent query.shape 0 in
    let tokens = extent query.shape 1 in
    let query_heads = extent query.shape 2 in
    let head_dim = extent query.shape 3 in
    let maximum_context = extent key_cache.shape 1 in
    let kv_heads = extent key_cache.shape 2 in
    first_failure
      (validate_f32_host query
        ∷ validate_f32_host key_cache
        ∷ validate_f32_host value_cache
        ∷ validate_f32_host output
        ∷ [])
      (if not (query.shape.rank == 4)
          || not (key_cache.shape.rank == 4)
          || not (same_shape value_cache.shape key_cache.shape)
          || not (same_shape output.shape query.shape)
        then status_failure invalid_shape
        else if batch == 0
            || tokens == 0
            || query_heads == 0
            || head_dim == 0
            || maximum_context == 0
            || kv_heads == 0
            || not (extent key_cache.shape 0 == batch)
            || not (extent key_cache.shape 3 == head_dim)
            || not (query_heads % kv_heads == 0)
            || not (length context_lengths == batch)
        then status_failure invalid_shape
        else check_contexts tokens maximum_context context_lengths (
            first_failure
              (validate_no_overlap query output ∷ validate_no_overlap key_cache output ∷ [])
              (validate_no_overlap value_cache output)))

unfoldable pub required_attention_workspace_floats : TensorView → TensorView → Result ℕ
unfolding product
required_attention_workspace_floats query key_cache =
    if not (query.shape.rank == 4) || not (key_cache.shape.rank == 4)
    then fails invalid_shape
    else product (
        extent query.shape 0
        ∷ extent query.shape 1
        ∷ extent query.shape 2
        ∷ extent key_cache.shape 1
        ∷ [])

-- Where `attention_impl` reads a query and writes an output.
unfoldable pub query_offset : Shape → ℕ → ℕ → ℕ → ℕ → ℕ
query_offset query batch_index token query_head dimension =
    (((batch_index * extent query 1 + token) * extent query 2 + query_head) * extent query 3
      + dimension)
    % 2 ^ 64

-- Where it reads a key and a value.
unfoldable pub key_offset : Shape → ℕ → ℕ → ℕ → ℕ → ℕ
key_offset key_cache batch_index key_token kv_head dimension =
    (((batch_index * extent key_cache 1 + key_token) * extent key_cache 2 + kv_head)
        * extent key_cache 3
      + dimension)
    % 2 ^ 64

-- Where the logits of a query start in the workspace.
unfoldable pub scratch_offset : Shape → Shape → ℕ → ℕ → ℕ → ℕ
scratch_offset query key_cache batch_index token query_head =
    (((batch_index * extent query 1 + token) * extent query 2 + query_head) * extent key_cache 1)
    % 2 ^ 64

-- How many keys a token sees.
unfoldable pub valid_keys : ℕ → ℕ → ℕ → ℕ
valid_keys context tokens token = (context + (2 ^ 64 - tokens) + token + 1) % 2 ^ 64

-- Which head of the cache a query head reads.
unfoldable pub kv_head_of : Shape → Shape → ℕ → ℕ
kv_head_of query key_cache query_head = query_head / (extent query 2 / extent key_cache 2)
