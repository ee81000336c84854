-- ===== src/Model/Spec.antt =====
-- include/marketforge/model/model_spec.hpp and src/model/model_spec.cpp. The two floating-point fields
-- are of a type that stands for the machine's `float`, with the two tests that the source makes on it.
pub mod Count
pub mod Footprint
use market_sim.Prelude.{
  ℕ, zero, suc, ◌+◌, ◌*◌, ◌/◌, ◌%◌, ◌≡◌, Bool, true, false, not, ◌&&◌, ◌||◌, leb, ◌==◌,
  if◌then◌else◌,
}
use market_sim.Core.Status.{
  Status, Result, success, failure, fails, status_success, status_failure, status, is_ok, ◌>>=◌,
  invalid_model, unsupported_dtype,
}
use market_sim.Core.CheckedMath.{checked_add, checked_multiply}
use market_sim.Core.Shape.{DType, dtype_size}

pub data Architecture : Type 0 where
  smollm2_llama qwen2 : Architecture

-- The numbers are uint32.
pub record ModelSpec (F : Type 0) : Type 0 where
  pub architecture : Architecture
  pub layers : ℕ
  pub hidden_size : ℕ
  pub intermediate_size : ℕ
  pub query_heads : ℕ
  pub kv_heads : ℕ
  pub head_dim : ℕ
  pub vocabulary_size : ℕ
  pub max_positions : ℕ
  pub rms_norm_epsilon : F
  pub rope_theta : F
  pub qkv_bias : Bool
  pub tied_embeddings : Bool

-- The tests of `validate` on a float, which IEEE 754 defines.
pub record FloatTests (F : Type 0) : Type 0 where
  pub is_finite : F → Bool
  pub at_most_zero : F → Bool

pub record ModelFootprint : Type 0 where
  pub parameter_count : ℕ
  pub source_weight_bytes : ℕ
  pub materialized_weight_bytes : ℕ
  pub peak_cpu_weight_bytes : ℕ
  pub kv_bytes_per_token : ℕ

pub record RuntimeMemoryPlan : Type 0 where
  pub resident_kv_tokens : ℕ
  pub workspace_bytes : ℕ
  pub reserve_bytes : ℕ

-- The specifications of the two profiles, whose floats the source writes as literals.
abbrev pub smollm2_135m_spec : {F : Type 0} → F → F → ModelSpec F
smollm2_135m_spec epsilon theta = record {
  architecture = smollm2_llama;
  layers = 30;
  hidden_size = 576;
  intermediate_size = 1536;
  query_heads = 9;
  kv_heads = 3;
  head_dim = 64;
  vocabulary_size = 49152;
  max_positions = 8192;
  rms_norm_epsilon = epsilon;
  rope_theta = theta;
  qkv_bias = false;
  tied_embeddings = true;
}

abbrev pub qwen2_5_0_5b_spec : {F : Type 0} → F → F → ModelSpec F
qwen2_5_0_5b_spec epsilon theta = record {
  architecture = qwen2;
  layers = 24;
  hidden_size = 896;
  intermediate_size = 4864;
  query_heads = 14;
  kv_heads = 2;
  head_dim = 64;
  vocabulary_size = 151936;
  max_positions = 32768;
  rms_norm_epsilon = epsilon;
  rope_theta = theta;
  qkv_bias = true;
  tied_embeddings = true;
}

-- `add_to`, and the lambda `add_matrix` of the parameter count, given what the layer has so far.
unfoldable pub add_to : ℕ → Result ℕ → Result ℕ
add_to total value = value >>= λ v. checked_add total v

abbrev pub matrix_parameters : ℕ → ℕ → Result ℕ
matrix_parameters rows columns = checked_multiply rows columns

unfoldable pub add_matrix : ℕ → ℕ → ℕ → Result ℕ
unfolding add_to
add_matrix per_layer rows columns = add_to per_layer (matrix_parameters rows columns)

-- What a layer's matrices, norms and biases count.
unfoldable pub layer_parameters : ℕ → ℕ → ℕ → ℕ → Bool → Result ℕ
unfolding add_to add_matrix
layer_parameters hidden intermediate query_width kv_width qkv_bias = do
  a ← add_matrix 0 hidden query_width
  b ← add_matrix a hidden kv_width
  c ← add_matrix b hidden kv_width
  d ← add_matrix c query_width hidden
  e ← add_matrix d hidden intermediate
  f ← add_matrix e hidden intermediate
  g ← add_matrix f intermediate hidden
  per_layer ← add_to g (checked_multiply hidden 2)
  elim qkv_bias [
    | false ↦ success per_layer
    | true ↦ checked_multiply kv_width 2 >>= λ two_kv_biases.
        add_to per_layer (checked_add query_width two_kv_biases)
  ]

-- The values that a footprint asks for, and its one error for them.
unfoldable pub supported : Result ℕ → Result ℕ
supported (success n) = success n
supported (failure _) = fails unsupported_dtype

module _ {F : Type 0} where
  -- The guards that the parameter count and `validate` share, up to the maximum of positions.
  abbrev pub has_zero : ModelSpec F → Bool
  has_zero s =
      s.layers == 0
      || s.hidden_size == 0
      || s.intermediate_size == 0
      || s.query_heads == 0
      || s.kv_heads == 0
      || s.head_dim == 0
      || s.vocabulary_size == 0

  -- Behind the guards.
  unfoldable pub sum_parameters : ModelSpec F → ℕ → ℕ → Result ℕ
  unfolding layer_parameters add_to
  sum_parameters s query_width kv_width = do
    embedding ← matrix_parameters s.vocabulary_size s.hidden_size
    per_layer ← layer_parameters s.hidden_size s.intermediate_size query_width kv_width s.qkv_bias
    stacked ← add_to embedding (checked_multiply per_layer s.layers)
    total ← checked_add stacked s.hidden_size
    elim s.tied_embeddings [
      | true ↦ success total
      | false ↦ add_to total (matrix_parameters s.vocabulary_size s.hidden_size)
    ]

  unfoldable pub estimate_parameter_count : ModelSpec F → Result ℕ
  unfolding sum_parameters
  estimate_parameter_count s =
      if has_zero s
      then fails invalid_model
      else if not (s.query_heads % s.kv_heads == 0)
      then fails invalid_model
      else do
        query_width ← checked_multiply s.query_heads s.head_dim
        kv_width ← checked_multiply s.kv_heads s.head_dim
        if not (query_width == s.hidden_size)
            then fails invalid_model
            else sum_parameters s query_width kv_width

  -- `validate`'s check of the width: a product that overflows is refused as well.
  abbrev pub width_is_hidden : ModelSpec F → Result ℕ → Bool
  width_is_hidden s (success width) = width == s.hidden_size
  width_is_hidden s (failure _) = false

  unfoldable pub validate : FloatTests F → ModelSpec F → Status
  unfolding estimate_parameter_count
  validate t s =
      if has_zero s || s.max_positions == 0
      then status_failure invalid_model
      else if not (s.query_heads % s.kv_heads == 0)
      then status_failure invalid_model
      else if not (width_is_hidden s (checked_multiply s.query_heads s.head_dim))
      then status_failure invalid_model
      else if not (t.is_finite s.rms_norm_epsilon)
          || t.at_most_zero s.rms_norm_epsilon
          || not (t.is_finite s.rope_theta)
          || t.at_most_zero s.rope_theta
      then status_failure invalid_model
      else status (estimate_parameter_count s)

  -- Behind the check of the specification.
  unfoldable pub footprint_of : ModelSpec F → DType → DType → DType → Result ModelFootprint
  unfolding estimate_parameter_count supported
  footprint_of s source_weight_dtype materialized_weight_dtype kv_dtype = do
    parameters ← supported (estimate_parameter_count s)
    source_size ← supported (dtype_size source_weight_dtype)
    materialized_size ← supported (dtype_size materialized_weight_dtype)
    kv_size ← supported (dtype_size kv_dtype)
    source_bytes ← checked_multiply parameters source_size
    materialized_bytes ← checked_multiply parameters materialized_size
    peak_weights ← checked_add source_bytes materialized_bytes
    both ← checked_multiply 2 s.layers
    heads ← checked_multiply both s.kv_heads
    values ← checked_multiply heads s.head_dim
    kv_bytes ← checked_multiply values kv_size
    success (record {
      parameter_count = parameters;
      source_weight_bytes = source_bytes;
      materialized_weight_bytes = materialized_bytes;
      peak_cpu_weight_bytes = peak_weights;
      kv_bytes_per_token = kv_bytes;
    })

  unfoldable pub estimate_model_footprint :
      FloatTests F → ModelSpec F → DType → DType → DType → Result ModelFootprint
  unfolding validate footprint_of
  estimate_model_footprint t s source_weight_dtype materialized_weight_dtype kv_dtype =
      if not (is_ok (validate t s))
      then failure (validate t s)
      else footprint_of s source_weight_dtype materialized_weight_dtype kv_dtype

unfoldable pub estimate_peak_runtime_bytes : ModelFootprint → RuntimeMemoryPlan → Result ℕ
estimate_peak_runtime_bytes footprint plan = do
  kv_bytes ← checked_multiply footprint.kv_bytes_per_token plan.resident_kv_tokens
  weights ← checked_add footprint.peak_cpu_weight_bytes kv_bytes
  working ← checked_add weights plan.workspace_bytes
  checked_add working plan.reserve_bytes

unfoldable pub fits_memory_budget : ModelFootprint → RuntimeMemoryPlan → ℕ → Result Bool
unfolding estimate_peak_runtime_bytes
fits_memory_budget footprint plan available_bytes = do
  required ← estimate_peak_runtime_bytes footprint plan
  success (leb required available_bytes)
