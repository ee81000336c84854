-- ===== src/Model/Weights/Tests.antt =====
-- Specifications, a configuration and a weight file of src/model, and the theorems about them.
use market_sim.Prelude.{ℕ, ◌+◌, ◌≡◌, refl, true, false, ◌==◌, List, [], ◌∷◌, some, arith, replicate}
use market_sim.Core.Status.{success}
use market_sim.Core.CheckedMath.{fits_u64, checked_add, checked_multiply}
use market_sim.Core.Shape.{Shape, f32, bf16, make_shape, dtype_size}
use market_sim.Model.Text.{parse_string, parse_number}
use market_sim.Model.Json.{parse_json}
use market_sim.Core.TensorView.{host}
use market_sim.Model.Safetensors.{TensorRecord, SafeTensorFile, ConstTensorView}
use market_sim.Model.Spec.{
  ModelSpec, FloatTests, ModelFootprint, smollm2_llama, smollm2_135m_spec, qwen2_5_0_5b_spec,
  estimate_parameter_count, estimate_model_footprint, fits_memory_budget,
}
use market_sim.Model.Spec.Count.{estimate_parameter_count_lem}
use market_sim.Model.Spec.Footprint.{
  IsFootprint, fits_memory_budget_lem, estimate_model_footprint-IsFootprint,
}
use market_sim.Model.Config.{FloatReader, parse_model_config}
use market_sim.Model.Config.Accepted.{IsAccepted, parse_model_config-IsAccepted}
use market_sim.Model.Weights.{
  LoadedWeights, embedding_name, norm_name, layer_name, input_norm_suffix, query_suffix, key_suffix,
  value_suffix, output_suffix, post_norm_suffix, gate_suffix, up_suffix, down_suffix, bind,
}
use market_sim.Model.Weights.Bound.{IsBound, bind-IsBound}

-- Floats that are numbers in units of 10 ^ -6: each is finite, and 0 is the one that is refused.
abbrev plain_tests : FloatTests ℕ
plain_tests = record { is_finite = λ _. true; at_most_zero = λ x. x == 0 }

abbrev smollm2 : ModelSpec ℕ
smollm2 = smollm2_135m_spec 10 100000000000

smollm2-estimate_parameter_count_test : estimate_parameter_count smollm2 ≡ success 134515008
unfolding estimate_parameter_count checked_add checked_multiply
smollm2-estimate_parameter_count_test = refl

qwen-estimate_parameter_count_test :
    estimate_parameter_count {F = ℕ} (qwen2_5_0_5b_spec 1 1000000000000) ≡ success 494032768
unfolding estimate_parameter_count checked_add checked_multiply
qwen-estimate_parameter_count_test = refl

estimate_parameter_count_lem_example : estimate_parameter_count smollm2 ≡ fits_u64 134515008
estimate_parameter_count_lem_example =
    estimate_parameter_count_lem smollm2 (refl, refl, refl, omega arith, omega arith, omega arith)

abbrev footprint : ModelFootprint
footprint = record {
  parameter_count = 134515008;
  source_weight_bytes = 269030016;
  materialized_weight_bytes = 538060032;
  peak_cpu_weight_bytes = 807090048;
  kv_bytes_per_token = 46080;
}

smollm2-estimate_model_footprint_test :
    estimate_model_footprint plain_tests smollm2 bf16 f32 f32 ≡ success footprint
unfolding estimate_model_footprint checked_add checked_multiply dtype_size
smollm2-estimate_model_footprint_test = refl

estimate_model_footprint-IsFootprint_example : IsFootprint smollm2 bf16 f32 f32 footprint
estimate_model_footprint-IsFootprint_example =
    estimate_model_footprint-IsFootprint plain_tests smollm2 bf16 f32 f32 footprint
      (omega arith, omega arith, omega arith) smollm2-estimate_model_footprint_test

fits_memory_budget_lem_example :
    fits_memory_budget footprint
      (record { resident_kv_tokens = 1000; workspace_bytes = 4096; reserve_bytes = 1024 })
      900000000
    ≡ success true
fits_memory_budget_lem_example =
    fits_memory_budget_lem footprint
      (record { resident_kv_tokens = 1000; workspace_bytes = 4096; reserve_bytes = 1024 }) 900000000
      (omega arith)

-- A reader that takes each text for 1.
abbrev plain_reader : FloatReader ℕ ℕ
plain_reader = record {
  read = λ _. some 1;
  is_finite_double = λ _. true;
  above_float = λ _. false;
  below_float = λ _. false;
  narrow = λ x. x;
  tests = plain_tests;
}

-- `{"model_type":"llama", "architectures":["LlamaForCausalLM"], "attention_bias":…`
abbrev configuration : List ℕ
configuration =
    123 ∷ 34 ∷ 109 ∷ 111 ∷ 100 ∷ 101 ∷ 108 ∷ 95 ∷ 116 ∷ 121 ∷ 112 ∷ 101 ∷ 34 ∷ 58 ∷ 34 ∷ 108 ∷ 108
    ∷ 97 ∷ 109 ∷ 97 ∷ 34 ∷ 44 ∷ 34 ∷ 97 ∷ 114 ∷ 99 ∷ 104 ∷ 105 ∷ 116 ∷ 101 ∷ 99 ∷ 116 ∷ 117 ∷ 114
    ∷ 101 ∷ 115 ∷ 34 ∷ 58 ∷ 91 ∷ 34 ∷ 76 ∷ 108 ∷ 97 ∷ 109 ∷ 97 ∷ 70 ∷ 111 ∷ 114 ∷ 67 ∷ 97 ∷ 117
    ∷ 115 ∷ 97 ∷ 108 ∷ 76 ∷ 77 ∷ 34 ∷ 93 ∷ 44 ∷ 34 ∷ 97 ∷ 116 ∷ 116 ∷ 101 ∷ 110 ∷ 116 ∷ 105 ∷ 111
    ∷ 110 ∷ 95 ∷ 98 ∷ 105 ∷ 97 ∷ 115 ∷ 34 ∷ 58 ∷ 102 ∷ 97 ∷ 108 ∷ 115 ∷ 101 ∷ 44 ∷ 34 ∷ 110 ∷ 117
    ∷ 109 ∷ 95 ∷ 104 ∷ 105 ∷ 100 ∷ 100 ∷ 101 ∷ 110 ∷ 95 ∷ 108 ∷ 97 ∷ 121 ∷ 101 ∷ 114 ∷ 115 ∷ 34 ∷ 58
    ∷ 50 ∷ 44 ∷ 34 ∷ 104 ∷ 105 ∷ 100 ∷ 100 ∷ 101 ∷ 110 ∷ 95 ∷ 115 ∷ 105 ∷ 122 ∷ 101 ∷ 34 ∷ 58 ∷ 56
    ∷ 44 ∷ 34 ∷ 105 ∷ 110 ∷ 116 ∷ 101 ∷ 114 ∷ 109 ∷ 101 ∷ 100 ∷ 105 ∷ 97 ∷ 116 ∷ 101 ∷ 95 ∷ 115
    ∷ 105 ∷ 122 ∷ 101 ∷ 34 ∷ 58 ∷ 49 ∷ 54 ∷ 44 ∷ 34 ∷ 110 ∷ 117 ∷ 109 ∷ 95 ∷ 97 ∷ 116 ∷ 116 ∷ 101
    ∷ 110 ∷ 116 ∷ 105 ∷ 111 ∷ 110 ∷ 95 ∷ 104 ∷ 101 ∷ 97 ∷ 100 ∷ 115 ∷ 34 ∷ 58 ∷ 52 ∷ 44 ∷ 34 ∷ 110
    ∷ 117 ∷ 109 ∷ 95 ∷ 107 ∷ 101 ∷ 121 ∷ 95 ∷ 118 ∷ 97 ∷ 108 ∷ 117 ∷ 101 ∷ 95 ∷ 104 ∷ 101 ∷ 97 ∷ 100
    ∷ 115 ∷ 34 ∷ 58 ∷ 50 ∷ 44 ∷ 34 ∷ 118 ∷ 111 ∷ 99 ∷ 97 ∷ 98 ∷ 95 ∷ 115 ∷ 105 ∷ 122 ∷ 101 ∷ 34 ∷ 58
    ∷ 51 ∷ 50 ∷ 44 ∷ 34 ∷ 109 ∷ 97 ∷ 120 ∷ 95 ∷ 112 ∷ 111 ∷ 115 ∷ 105 ∷ 116 ∷ 105 ∷ 111 ∷ 110 ∷ 95
    ∷ 101 ∷ 109 ∷ 98 ∷ 101 ∷ 100 ∷ 100 ∷ 105 ∷ 110 ∷ 103 ∷ 115 ∷ 34 ∷ 58 ∷ 54 ∷ 52 ∷ 44 ∷ 34 ∷ 114
    ∷ 109 ∷ 115 ∷ 95 ∷ 110 ∷ 111 ∷ 114 ∷ 109 ∷ 95 ∷ 101 ∷ 112 ∷ 115 ∷ 34 ∷ 58 ∷ 49 ∷ 101 ∷ 45 ∷ 53
    ∷ 44 ∷ 34 ∷ 114 ∷ 111 ∷ 112 ∷ 101 ∷ 95 ∷ 116 ∷ 104 ∷ 101 ∷ 116 ∷ 97 ∷ 34 ∷ 58 ∷ 49 ∷ 48 ∷ 48
    ∷ 48 ∷ 48 ∷ 46 ∷ 48 ∷ 44 ∷ 34 ∷ 116 ∷ 105 ∷ 101 ∷ 95 ∷ 119 ∷ 111 ∷ 114 ∷ 100 ∷ 95 ∷ 101 ∷ 109
    ∷ 98 ∷ 101 ∷ 100 ∷ 100 ∷ 105 ∷ 110 ∷ 103 ∷ 115 ∷ 34 ∷ 58 ∷ 116 ∷ 114 ∷ 117 ∷ 101 ∷ 125 ∷ []

abbrev configured_spec : ModelSpec ℕ
configured_spec = record {
  architecture = smollm2_llama;
  layers = 2;
  hidden_size = 8;
  intermediate_size = 16;
  query_heads = 4;
  kv_heads = 2;
  head_dim = 2;
  vocabulary_size = 32;
  max_positions = 64;
  rms_norm_epsilon = 1;
  rope_theta = 1;
  qkv_bias = false;
  tied_embeddings = true;
}

configuration-parse_model_config_test :
    parse_model_config plain_reader configuration ≡ success configured_spec
unfolding parse_model_config parse_json parse_string parse_number checked_add checked_multiply
configuration-parse_model_config_test = refl

parse_model_config-IsAccepted_example : IsAccepted plain_reader configured_spec
parse_model_config-IsAccepted_example =
    parse_model_config-IsAccepted plain_reader configuration configured_spec
      configuration-parse_model_config_test

-- A model of one layer, with width 1.
abbrev tiny : ModelSpec ℕ
tiny = record {
  architecture = smollm2_llama;
  layers = 1;
  hidden_size = 1;
  intermediate_size = 1;
  query_heads = 1;
  kv_heads = 1;
  head_dim = 1;
  vocabulary_size = 1;
  max_positions = 1;
  rms_norm_epsilon = 1;
  rope_theta = 1;
  qkv_bias = false;
  tied_embeddings = true;
}

abbrev vector : Shape
vector = record { extents = 1 ∷ 0 ∷ 0 ∷ 0 ∷ 0 ∷ 0 ∷ []; rank = 1 }

abbrev matrix : Shape
matrix = record { extents = 1 ∷ 1 ∷ 0 ∷ 0 ∷ 0 ∷ 0 ∷ []; rank = 2 }

abbrev stored : List ℕ → Shape → ℕ → TensorRecord
stored name shape begin = record {
  name = name;
  dtype = bf16;
  shape = shape;
  begin = begin;
  end = begin + 2;
}

abbrev tiny_file : SafeTensorFile
unfolding layer_name
tiny_file = record {
  mapping = replicate 30 0;
  metadata = record {
    data_start = 8;
    records =
        stored norm_name vector 0
        ∷ stored embedding_name matrix 2
        ∷ stored (layer_name 0 down_suffix) matrix 4
        ∷ stored (layer_name 0 gate_suffix) matrix 6
        ∷ stored (layer_name 0 up_suffix) matrix 8
        ∷ stored (layer_name 0 query_suffix) matrix 10
        ∷ stored (layer_name 0 key_suffix) matrix 12
        ∷ stored (layer_name 0 value_suffix) matrix 14
        ∷ stored (layer_name 0 output_suffix) matrix 16
        ∷ stored (layer_name 0 input_norm_suffix) vector 18
        ∷ stored (layer_name 0 post_norm_suffix) vector 20
        ∷ [];
  };
}

abbrev viewed : Shape → ℕ → ConstTensorView
viewed shape offset = record { data_offset = offset; shape = shape; dtype = bf16; memory = host }

abbrev tiny_weights : LoadedWeights
tiny_weights = record {
  file = tiny_file;
  embedding = viewed matrix 10;
  final_norm = viewed vector 8;
  output_head = viewed matrix 10;
  output_head_aliases_embedding = true;
  layers =
      record {
        input_norm = viewed vector 26;
        attention = record {
          query = viewed matrix 18;
          key = viewed matrix 20;
          value = viewed matrix 22;
          output = viewed matrix 24;
        };
        post_attention_norm = viewed vector 28;
        mlp = record { gate = viewed matrix 14; up = viewed matrix 16; down = viewed matrix 12 };
      }
      ∷ [];
}

tiny-bind_test : bind plain_tests tiny_file tiny ≡ success tiny_weights
unfolding bind checked_add checked_multiply make_shape layer_name tiny_file
tiny-bind_test = refl

bind-IsBound_example : IsBound tiny_file tiny tiny_weights
bind-IsBound_example = bind-IsBound plain_tests tiny_file tiny tiny_weights tiny-bind_test
