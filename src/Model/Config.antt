-- ===== src/Model/Config.antt =====
-- include/marketforge/model/model_config.hpp and src/model/model_config.cpp. What the library's streams
-- and the machine's floats do is a parameter.
pub mod Accepted
use market_sim.Prelude.{
  ℕ, zero, suc, ◌+◌, ◌*◌, ◌/◌, ◌%◌, ◌≡◌, Bool, true, false, not, ◌&&◌, ◌||◌, ltb, ◌==◌, List, [],
  ◌∷◌, length, Option, none, some, if◌then◌else◌,
}
use market_sim.Core.Status.{
  Status, Result, success, failure, fails, is_ok, ◌>>=◌, invalid_model, arithmetic_overflow,
}
use market_sim.Core.CheckedMath.{u32_max}
use market_sim.Model.Text.{head_passes, same_bytes}
use market_sim.Model.Json.{
  JsonValue, number, string, boolean, array, object, element, no_elements, find,
}
use market_sim.Model.Safetensors.{from_chars, has_real, parse_header}
use market_sim.Model.Spec.{ModelSpec, Architecture, smollm2_llama, qwen2, FloatTests, validate}

-- How a number's text becomes a float: `std::istringstream >> double` over the whole text, or none
-- where it fails or leaves a byte, the tests on the double, and the cast.
pub record FloatReader (D F : Type 0) : Type 0 where
  pub read : List ℕ → Option D
  pub is_finite_double : D → Bool
  pub above_float : D → Bool
  pub below_float : D → Bool
  pub narrow : D → F
  pub tests : FloatTests F

abbrev config_failure {ℓ} : {A : Type ℓ} → Result A
config_failure = fails invalid_model

-- `if (!value) return config_failure();`.
unfoldable pub configured {ℓ} : {A : Type ℓ} → Result A → Result A
configured (success a) = success a
configured (failure _) = config_failure

unfoldable pub narrow_u32 : Option (ℕ × List ℕ) → Result ℕ
narrow_u32 none = fails arithmetic_overflow
narrow_u32 (some (parsed, [])) =
    if ltb u32_max parsed then fails arithmetic_overflow else success parsed
narrow_u32 (some (parsed, _ ∷ _)) = fails arithmetic_overflow

unfoldable pub u32_of : Option JsonValue → Result ℕ
unfolding from_chars has_real narrow_u32
u32_of (some (number text)) =
    if length text == 0 || head_passes (λ x. x == 45) text || has_real text
    then config_failure
    else narrow_u32 (from_chars text)
u32_of _ = config_failure

unfoldable pub required_u32 : JsonValue → List ℕ → Result ℕ
unfolding u32_of find
required_u32 root key = u32_of (find root key)

unfoldable pub bool_of : Option JsonValue → Result Bool
bool_of (some (boolean b)) = success b
bool_of _ = config_failure

unfoldable pub required_bool : JsonValue → List ℕ → Result Bool
unfolding bool_of find
required_bool root key = bool_of (find root key)

unfoldable pub string_of : Option JsonValue → Result (List ℕ)
string_of (some (string text)) = success text
string_of _ = config_failure

unfoldable pub required_string : JsonValue → List ℕ → Result (List ℕ)
unfolding string_of find
required_string root key = string_of (find root key)

-- The keys and the names of a configuration, as bytes.
abbrev pub model_type_key : List ℕ
model_type_key = 109 ∷ 111 ∷ 100 ∷ 101 ∷ 108 ∷ 95 ∷ 116 ∷ 121 ∷ 112 ∷ 101 ∷ []

abbrev pub architectures_key : List ℕ
architectures_key = 97 ∷ 114 ∷ 99 ∷ 104 ∷ 105 ∷ 116 ∷ 101 ∷ 99 ∷ 116 ∷ 117 ∷ 114 ∷ 101 ∷ 115 ∷ []

abbrev pub attention_bias_key : List ℕ
attention_bias_key =
    97 ∷ 116 ∷ 116 ∷ 101 ∷ 110 ∷ 116 ∷ 105 ∷ 111 ∷ 110 ∷ 95 ∷ 98 ∷ 105 ∷ 97 ∷ 115 ∷ []

abbrev pub layers_key : List ℕ
layers_key =
    110 ∷ 117 ∷ 109 ∷ 95 ∷ 104 ∷ 105 ∷ 100 ∷ 100 ∷ 101 ∷ 110 ∷ 95 ∷ 108 ∷ 97 ∷ 121 ∷ 101 ∷ 114 ∷ 115
    ∷ []

abbrev pub hidden_key : List ℕ
hidden_key = 104 ∷ 105 ∷ 100 ∷ 100 ∷ 101 ∷ 110 ∷ 95 ∷ 115 ∷ 105 ∷ 122 ∷ 101 ∷ []

abbrev pub intermediate_key : List ℕ
intermediate_key =
    105 ∷ 110 ∷ 116 ∷ 101 ∷ 114 ∷ 109 ∷ 101 ∷ 100 ∷ 105 ∷ 97 ∷ 116 ∷ 101 ∷ 95 ∷ 115 ∷ 105 ∷ 122
    ∷ 101 ∷ []

abbrev pub query_heads_key : List ℕ
query_heads_key =
    110 ∷ 117 ∷ 109 ∷ 95 ∷ 97 ∷ 116 ∷ 116 ∷ 101 ∷ 110 ∷ 116 ∷ 105 ∷ 111 ∷ 110 ∷ 95 ∷ 104 ∷ 101 ∷ 97
    ∷ 100 ∷ 115 ∷ []

abbrev pub kv_heads_key : List ℕ
kv_heads_key =
    110 ∷ 117 ∷ 109 ∷ 95 ∷ 107 ∷ 101 ∷ 121 ∷ 95 ∷ 118 ∷ 97 ∷ 108 ∷ 117 ∷ 101 ∷ 95 ∷ 104 ∷ 101 ∷ 97
    ∷ 100 ∷ 115 ∷ []

abbrev pub vocabulary_key : List ℕ
vocabulary_key = 118 ∷ 111 ∷ 99 ∷ 97 ∷ 98 ∷ 95 ∷ 115 ∷ 105 ∷ 122 ∷ 101 ∷ []

abbrev pub positions_key : List ℕ
positions_key =
    109 ∷ 97 ∷ 120 ∷ 95 ∷ 112 ∷ 111 ∷ 115 ∷ 105 ∷ 116 ∷ 105 ∷ 111 ∷ 110 ∷ 95 ∷ 101 ∷ 109 ∷ 98 ∷ 101
    ∷ 100 ∷ 100 ∷ 105 ∷ 110 ∷ 103 ∷ 115 ∷ []

abbrev pub epsilon_key : List ℕ
epsilon_key = 114 ∷ 109 ∷ 115 ∷ 95 ∷ 110 ∷ 111 ∷ 114 ∷ 109 ∷ 95 ∷ 101 ∷ 112 ∷ 115 ∷ []

abbrev pub theta_key : List ℕ
theta_key = 114 ∷ 111 ∷ 112 ∷ 101 ∷ 95 ∷ 116 ∷ 104 ∷ 101 ∷ 116 ∷ 97 ∷ []

abbrev pub tied_key : List ℕ
tied_key =
    116 ∷ 105 ∷ 101 ∷ 95 ∷ 119 ∷ 111 ∷ 114 ∷ 100 ∷ 95 ∷ 101 ∷ 109 ∷ 98 ∷ 101 ∷ 100 ∷ 100 ∷ 105 ∷ 110
    ∷ 103 ∷ 115 ∷ []

abbrev pub llama : List ℕ
llama = 108 ∷ 108 ∷ 97 ∷ 109 ∷ 97 ∷ []

abbrev pub llama_name : List ℕ
llama_name =
    76 ∷ 108 ∷ 97 ∷ 109 ∷ 97 ∷ 70 ∷ 111 ∷ 114 ∷ 67 ∷ 97 ∷ 117 ∷ 115 ∷ 97 ∷ 108 ∷ 76 ∷ 77 ∷ []

abbrev pub qwen : List ℕ
qwen = 113 ∷ 119 ∷ 101 ∷ 110 ∷ 50 ∷ []

abbrev pub qwen_name : List ℕ
qwen_name =
    81 ∷ 119 ∷ 101 ∷ 110 ∷ 50 ∷ 70 ∷ 111 ∷ 114 ∷ 67 ∷ 97 ∷ 117 ∷ 115 ∷ 97 ∷ 108 ∷ 76 ∷ 77 ∷ []

unfoldable pub names_architecture : Option JsonValue → List ℕ → Bool
unfolding same_bytes
names_architecture (some (array (element (string text) no_elements))) expected =
    same_bytes text expected
names_architecture _ expected = false

-- `validate_architecture_name`.
unfoldable pub validate_architecture_name : JsonValue → List ℕ → Result (Unit {0})
unfolding names_architecture find
validate_architecture_name root expected =
    if not (names_architecture (find root architectures_key) expected)
    then config_failure
    else success tt

-- The two architectures, and whether their projections have biases.
unfoldable pub llama_model : JsonValue → Result (Architecture × Bool)
unfolding validate_architecture_name required_bool configured
llama_model root = do
  _ ← validate_architecture_name root llama_name
  attention_bias ← configured (required_bool root attention_bias_key)
  success (smollm2_llama, attention_bias)

unfoldable pub qwen_model : JsonValue → Result (Architecture × Bool)
unfolding validate_architecture_name
qwen_model root = do _ ← validate_architecture_name root qwen_name; success (qwen2, true)

unfoldable pub architecture_of : JsonValue → List ℕ → Result (Architecture × Bool)
unfolding llama_model qwen_model same_bytes
architecture_of root model_type =
    if same_bytes model_type llama
    then llama_model root
    else if same_bytes model_type qwen
    then qwen_model root
    else config_failure

module _ {D F : Type 0} (floats : FloatReader D F) where
  unfoldable pub narrow_float : Option D → Result F
  narrow_float none = config_failure
  narrow_float (some parsed) =
      if not (floats.is_finite_double parsed)
        || floats.above_float parsed
        || floats.below_float parsed
      then config_failure
      else success (floats.narrow parsed)

  unfoldable pub float_of : Option JsonValue → Result F
  unfolding narrow_float
  float_of (some (number text)) = narrow_float (floats.read text)
  float_of _ = config_failure

  unfoldable pub required_float : JsonValue → List ℕ → Result F
  unfolding float_of find
  required_float root key = float_of (find root key)

  -- The last check of `parse_model_config`.
  unfoldable pub validated : ModelSpec F → Result (ModelSpec F)
  unfolding validate
  validated spec =
      if not (is_ok (validate floats.tests spec))
      then failure (validate floats.tests spec)
      else success spec

  -- Behind the check that the root is an object.
  unfoldable pub spec_of : JsonValue → Result (ModelSpec F)
  unfolding configured required_string architecture_of required_u32 required_float required_bool
      validated
  spec_of root = do
    model_type ← configured (required_string root model_type_key)
    (architecture, qkv_bias) ← architecture_of root model_type
    layers ← configured (required_u32 root layers_key)
    hidden ← configured (required_u32 root hidden_key)
    intermediate ← configured (required_u32 root intermediate_key)
    query_heads ← configured (required_u32 root query_heads_key)
    kv_heads ← configured (required_u32 root kv_heads_key)
    vocabulary ← configured (required_u32 root vocabulary_key)
    max_positions ← configured (required_u32 root positions_key)
    epsilon ← configured (required_float root epsilon_key)
    rope_theta ← configured (required_float root theta_key)
    tied ← configured (required_bool root tied_key)
    if query_heads == 0 || not (hidden % query_heads == 0)
        then config_failure
        else validated (record {
          architecture = architecture;
          layers = layers;
          hidden_size = hidden;
          intermediate_size = intermediate;
          query_heads = query_heads;
          kv_heads = kv_heads;
          head_dim = hidden / query_heads;
          vocabulary_size = vocabulary;
          max_positions = max_positions;
          rms_norm_epsilon = epsilon;
          rope_theta = rope_theta;
          qkv_bias = qkv_bias;
          tied_embeddings = tied;
        })

  unfoldable pub object_spec : JsonValue → Result (ModelSpec F)
  unfolding spec_of
  object_spec (object ms) = spec_of (object ms)
  object_spec _ = config_failure

  unfoldable pub parse_model_config : List ℕ → Result (ModelSpec F)
  unfolding parse_header object_spec
  parse_model_config json_text = parse_header json_text >>= object_spec
