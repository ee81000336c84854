-- ===== src/Model/Weights.antt =====
-- include/marketforge/model/loaded_weights.hpp and src/model/loaded_weights.cpp: the tensors that a
-- SmolLM2 model asks for, and their views in a weight file.
pub mod Bound
mod Tests
use market_sim.Prelude.{
  ℕ, zero, suc, ◌+◌, ◌*◌, ◌/◌, ◌%◌, ◌^◌, ◌≡◌, Bool, true, false, not, ◌&&◌, ◌||◌, ltb, ◌==◌, List,
  [], ◌∷◌, ◌++◌, length, Option, none, some, if◌then◌else◌,
}
use market_sim.Core.Status.{
  Status, Result, success, failure, fails, status_failure_at, is_ok, ◌>>=◌, invalid_model,
  missing_tensor, invalid_tensor, unexpected_tensor,
}
use market_sim.Core.Shape.{DType, bf16, Shape, make_shape}
use market_sim.Model.Text.{same_bytes}
use market_sim.Model.Json.{contains}
use market_sim.Core.TensorView.{host}
use market_sim.Model.Safetensors.{
  TensorRecord, SafeTensorFile, ConstTensorView, find_record, tensor,
}
use market_sim.Model.Spec.{ModelSpec, Architecture, smollm2_llama, qwen2, FloatTests, validate}

pub record AttentionWeights : Type 0 where
  pub query : ConstTensorView
  pub key : ConstTensorView
  pub value : ConstTensorView
  pub output : ConstTensorView

pub record MlpWeights : Type 0 where
  pub gate : ConstTensorView
  pub up : ConstTensorView
  pub down : ConstTensorView

pub record LayerWeights : Type 0 where
  pub input_norm : ConstTensorView
  pub attention : AttentionWeights
  pub post_attention_norm : ConstTensorView
  pub mlp : MlpWeights

pub record LoadedWeights : Type 0 where
  pub file : SafeTensorFile
  pub embedding : ConstTensorView
  pub final_norm : ConstTensorView
  pub output_head : ConstTensorView
  pub output_head_aliases_embedding : Bool
  pub layers : List LayerWeights

pub record ExpectedTensor : Type 0 where
  pub name : List ℕ
  pub shape : Shape

-- `std::to_string`, in decimal; a digit for each round, so that as many rounds as the number suffice.
unfoldable pub decimal_digits : ℕ → ℕ → List ℕ
decimal_digits zero n = []
decimal_digits (suc fuel) n =
    let leading = decimal_digits fuel (n / 10) in
    if ltb n 10 then (48 + n) ∷ [] else leading ++ (48 + n % 10) ∷ []

unfoldable pub to_string : ℕ → List ℕ
unfolding decimal_digits
to_string n = decimal_digits (suc n) n

-- The names of the tensors, as bytes; a layer's are built from its number.
abbrev pub embedding_name : List ℕ
embedding_name =
    109 ∷ 111 ∷ 100 ∷ 101 ∷ 108 ∷ 46 ∷ 101 ∷ 109 ∷ 98 ∷ 101 ∷ 100 ∷ 95 ∷ 116 ∷ 111 ∷ 107 ∷ 101 ∷ 110
    ∷ 115 ∷ 46 ∷ 119 ∷ 101 ∷ 105 ∷ 103 ∷ 104 ∷ 116 ∷ []

abbrev pub norm_name : List ℕ
norm_name =
    109 ∷ 111 ∷ 100 ∷ 101 ∷ 108 ∷ 46 ∷ 110 ∷ 111 ∷ 114 ∷ 109 ∷ 46 ∷ 119 ∷ 101 ∷ 105 ∷ 103 ∷ 104
    ∷ 116 ∷ []

abbrev pub head_name : List ℕ
head_name = 108 ∷ 109 ∷ 95 ∷ 104 ∷ 101 ∷ 97 ∷ 100 ∷ 46 ∷ 119 ∷ 101 ∷ 105 ∷ 103 ∷ 104 ∷ 116 ∷ []

abbrev pub layers_prefix : List ℕ
layers_prefix = 109 ∷ 111 ∷ 100 ∷ 101 ∷ 108 ∷ 46 ∷ 108 ∷ 97 ∷ 121 ∷ 101 ∷ 114 ∷ 115 ∷ 46 ∷ []

abbrev pub input_norm_suffix : List ℕ
input_norm_suffix =
    46 ∷ 105 ∷ 110 ∷ 112 ∷ 117 ∷ 116 ∷ 95 ∷ 108 ∷ 97 ∷ 121 ∷ 101 ∷ 114 ∷ 110 ∷ 111 ∷ 114 ∷ 109 ∷ 46
    ∷ 119 ∷ 101 ∷ 105 ∷ 103 ∷ 104 ∷ 116 ∷ []

abbrev pub query_suffix : List ℕ
query_suffix =
    46 ∷ 115 ∷ 101 ∷ 108 ∷ 102 ∷ 95 ∷ 97 ∷ 116 ∷ 116 ∷ 110 ∷ 46 ∷ 113 ∷ 95 ∷ 112 ∷ 114 ∷ 111 ∷ 106
    ∷ 46 ∷ 119 ∷ 101 ∷ 105 ∷ 103 ∷ 104 ∷ 116 ∷ []

abbrev pub key_suffix : List ℕ
key_suffix =
    46 ∷ 115 ∷ 101 ∷ 108 ∷ 102 ∷ 95 ∷ 97 ∷ 116 ∷ 116 ∷ 110 ∷ 46 ∷ 107 ∷ 95 ∷ 112 ∷ 114 ∷ 111 ∷ 106
    ∷ 46 ∷ 119 ∷ 101 ∷ 105 ∷ 103 ∷ 104 ∷ 116 ∷ []

abbrev pub value_suffix : List ℕ
value_suffix =
    46 ∷ 115 ∷ 101 ∷ 108 ∷ 102 ∷ 95 ∷ 97 ∷ 116 ∷ 116 ∷ 110 ∷ 46 ∷ 118 ∷ 95 ∷ 112 ∷ 114 ∷ 111 ∷ 106
    ∷ 46 ∷ 119 ∷ 101 ∷ 105 ∷ 103 ∷ 104 ∷ 116 ∷ []

abbrev pub output_suffix : List ℕ
output_suffix =
    46 ∷ 115 ∷ 101 ∷ 108 ∷ 102 ∷ 95 ∷ 97 ∷ 116 ∷ 116 ∷ 110 ∷ 46 ∷ 111 ∷ 95 ∷ 112 ∷ 114 ∷ 111 ∷ 106
    ∷ 46 ∷ 119 ∷ 101 ∷ 105 ∷ 103 ∷ 104 ∷ 116 ∷ []

abbrev pub post_norm_suffix : List ℕ
post_norm_suffix =
    46 ∷ 112 ∷ 111 ∷ 115 ∷ 116 ∷ 95 ∷ 97 ∷ 116 ∷ 116 ∷ 101 ∷ 110 ∷ 116 ∷ 105 ∷ 111 ∷ 110 ∷ 95 ∷ 108
    ∷ 97 ∷ 121 ∷ 101 ∷ 114 ∷ 110 ∷ 111 ∷ 114 ∷ 109 ∷ 46 ∷ 119 ∷ 101 ∷ 105 ∷ 103 ∷ 104 ∷ 116 ∷ []

abbrev pub gate_suffix : List ℕ
gate_suffix =
    46 ∷ 109 ∷ 108 ∷ 112 ∷ 46 ∷ 103 ∷ 97 ∷ 116 ∷ 101 ∷ 95 ∷ 112 ∷ 114 ∷ 111 ∷ 106 ∷ 46 ∷ 119 ∷ 101
    ∷ 105 ∷ 103 ∷ 104 ∷ 116 ∷ []

abbrev pub up_suffix : List ℕ
up_suffix =
    46 ∷ 109 ∷ 108 ∷ 112 ∷ 46 ∷ 117 ∷ 112 ∷ 95 ∷ 112 ∷ 114 ∷ 111 ∷ 106 ∷ 46 ∷ 119 ∷ 101 ∷ 105 ∷ 103
    ∷ 104 ∷ 116 ∷ []

abbrev pub down_suffix : List ℕ
down_suffix =
    46 ∷ 109 ∷ 108 ∷ 112 ∷ 46 ∷ 100 ∷ 111 ∷ 119 ∷ 110 ∷ 95 ∷ 112 ∷ 114 ∷ 111 ∷ 106 ∷ 46 ∷ 119 ∷ 101
    ∷ 105 ∷ 103 ∷ 104 ∷ 116 ∷ []

unfoldable pub layer_name : ℕ → List ℕ → List ℕ
unfolding to_string
layer_name layer suffix = layers_prefix ++ to_string layer ++ suffix

-- The six shapes of a model.
pub record Shapes : Type 0 where
  pub embedding : Shape
  pub norm : Shape
  pub query : Shape
  pub key_value : Shape
  pub gate_up : Shape
  pub down : Shape

abbrev pub expects : List ℕ → Shape → ExpectedTensor
expects name shape = record { name = name; shape = shape }

-- One round of the loop over the layers.
unfoldable pub layer_tensors : Shapes → ℕ → List ExpectedTensor → List ExpectedTensor
unfolding layer_name
layer_tensors s layer behind =
    expects (layer_name layer input_norm_suffix) s.norm
    ∷ expects (layer_name layer query_suffix) s.query
    ∷ expects (layer_name layer key_suffix) s.key_value
    ∷ expects (layer_name layer value_suffix) s.key_value
    ∷ expects (layer_name layer output_suffix) s.query
    ∷ expects (layer_name layer post_norm_suffix) s.norm
    ∷ expects (layer_name layer gate_suffix) s.gate_up
    ∷ expects (layer_name layer up_suffix) s.gate_up
    ∷ expects (layer_name layer down_suffix) s.down
    ∷ behind

unfoldable pub tensors_from : Shapes → ℕ → ℕ → List ExpectedTensor
unfolding layer_tensors
tensors_from s layer zero = expects norm_name s.norm ∷ []
tensors_from s layer (suc layers) = layer_tensors s layer (tensors_from s (layer + 1) layers)

-- `if (!embedding || …) return invalid_model;`.
unfoldable pub shaped : Result Shape → Result Shape
shaped (success s) = success s
shaped (failure _) = fails invalid_model

module _ {F : Type 0} where
  unfoldable pub shapes_of : ModelSpec F → Result Shapes
  unfolding shaped
  shapes_of s = do
    let kv_width = s.kv_heads * s.head_dim % 2 ^ 64
    embedding ← shaped (make_shape (s.vocabulary_size ∷ s.hidden_size ∷ []))
    norm ← shaped (make_shape (s.hidden_size ∷ []))
    query ← shaped (make_shape (s.hidden_size ∷ s.hidden_size ∷ []))
    key_value ← shaped (make_shape (kv_width ∷ s.hidden_size ∷ []))
    gate_up ← shaped (make_shape (s.intermediate_size ∷ s.hidden_size ∷ []))
    down ← shaped (make_shape (s.hidden_size ∷ s.intermediate_size ∷ []))
    success (record {
      embedding = embedding;
      norm = norm;
      query = query;
      key_value = key_value;
      gate_up = gate_up;
      down = down;
    })

  unfoldable pub expected_from : ModelSpec F → Shapes → List ExpectedTensor
  unfolding tensors_from
  expected_from s shapes = expects embedding_name shapes.embedding ∷ tensors_from shapes 0 s.layers

-- The comparison of two shapes' members, and the test for the one type of weights.
unfoldable pub same_shape : Shape → Shape → Bool
unfolding same_bytes
same_shape a b = same_bytes a.extents b.extents && a.rank == b.rank

unfoldable pub is_bf16 : DType → Bool
is_bf16 bf16 = true
is_bf16 _ = false

unfoldable pub require_record :
    SafeTensorFile → ExpectedTensor → ℕ → Option TensorRecord → Result ConstTensorView
unfolding same_shape is_bf16 tensor
require_record file expected detail none = failure (status_failure_at missing_tensor detail)
require_record file expected detail (some r) =
    if not (same_shape r.shape expected.shape) || not (is_bf16 r.dtype)
    then failure (status_failure_at invalid_tensor detail)
    else tensor file expected.name

unfoldable pub require_tensor_of : SafeTensorFile → ExpectedTensor → ℕ → Result ConstTensorView
unfolding require_record find_record
require_tensor_of file expected detail =
    require_record file expected detail (find_record file expected.name)

-- The loop over the expected tensors.
unfoldable pub views_from : SafeTensorFile → ℕ → List ExpectedTensor → Result (List ConstTensorView)
unfolding require_tensor_of
views_from file index [] = success []
views_from file index (e ∷ es) = do
  view ← require_tensor_of file e ((index + 1) % 2 ^ 32)
  views ← views_from file (index + 1) es
  success (view ∷ views)

-- The loop that refuses a record whose name is not allowed.
unfoldable pub check_names : ℕ → List (List ℕ) → List TensorRecord → Result (Unit {0})
unfolding contains
check_names index allowed [] = success tt
check_names index allowed (r ∷ rs) =
    if not (contains allowed r.name)
    then failure (status_failure_at unexpected_tensor ((index + 1) % 2 ^ 32))
    else check_names (index + 1) allowed rs

unfoldable pub names_of : List ExpectedTensor → List (List ℕ)
names_of [] = head_name ∷ []
names_of (e ∷ es) = e.name ∷ names_of es

-- `views[cursor++]`: the views ahead of the cursor are a list. There are as many as are read, so that
-- the view for an empty list stands for no read of the source.
abbrev no_view : ConstTensorView
no_view = record {
  data_offset = 0;
  shape = record { extents = []; rank = 0 };
  dtype = bf16;
  memory = host;
}

unfoldable pub next_view : List ConstTensorView → ConstTensorView × List ConstTensorView
next_view [] = (no_view, [])
next_view (v ∷ vs) = (v, vs)

unfoldable pub next_layer : List ConstTensorView → LayerWeights × List ConstTensorView
unfolding next_view
next_layer views =
    let (input_norm, v₁) = next_view views in
    let (query, v₂) = next_view v₁ in
    let (key, v₃) = next_view v₂ in
    let (value, v₄) = next_view v₃ in
    let (output, v₅) = next_view v₄ in
    let (post_norm, v₆) = next_view v₅ in
    let (gate, v₇) = next_view v₆ in
    let (up, v₈) = next_view v₇ in
    let (down, v₉) = next_view v₈ in
    (
      record {
        input_norm = input_norm;
        attention = record { query = query; key = key; value = value; output = output };
        post_attention_norm = post_norm;
        mlp = record { gate = gate; up = up; down = down };
      },
      v₉,
    )

unfoldable pub layers_of : ℕ → List ConstTensorView → List LayerWeights × List ConstTensorView
unfolding next_layer
layers_of zero views = ([], views)
layers_of (suc layers) views =
    let (layer, behind) = next_layer views in
    let (more, rest) = layers_of layers behind in (layer ∷ more, rest)

-- The output head of its own, or the embedding. The source takes the `.value()` of the tensor that it
-- has just found; the failure that is passed on here does not come up in a file that was parsed.
unfoldable pub output_head_of :
    SafeTensorFile
    → Shape
    → ℕ
    → ConstTensorView
    → Option TensorRecord
    → Result (ConstTensorView × Bool)
unfolding same_shape is_bf16 tensor
output_head_of file shape detail embedding none = success (embedding, true)
output_head_of file shape detail embedding (some r) =
    if not (same_shape r.shape shape) || not (is_bf16 r.dtype)
    then failure (status_failure_at invalid_tensor detail)
    else tensor file head_name >>= λ view. success (view, false)

abbrev pub is_llama : Architecture → Bool
is_llama smollm2_llama = true
is_llama qwen2 = false

module _ {F : Type 0} where
  -- `LoadedWeights::bind`, behind its guard.
  unfoldable pub bind_expected : SafeTensorFile → ModelSpec F → Result LoadedWeights
  unfolding shapes_of expected_from check_names names_of views_from next_view layers_of find_record
      output_head_of
  bind_expected file s = do
    shapes ← shapes_of s
    let expected = expected_from s shapes
    _ ← check_names 0 (names_of expected) file.metadata.records
    views ← views_from file 0 expected
    let first = next_view views
    let stacked = layers_of s.layers first.1
    head ←
        output_head_of file shapes.embedding ((length expected + 1) % 2 ^ 32) first.0
          (find_record file head_name)
    success (record {
      file = file;
      embedding = first.0;
      final_norm = (next_view stacked.1).0;
      output_head = head.0;
      output_head_aliases_embedding = head.1;
      layers = stacked.0;
    })

  unfoldable pub bind : FloatTests F → SafeTensorFile → ModelSpec F → Result LoadedWeights
  unfolding bind_expected validate
  bind t file s =
      if not (is_llama s.architecture)
        || s.qkv_bias
        || not s.tied_embeddings
        || not (is_ok (validate t s))
      then fails invalid_model
      else bind_expected file s
