-- ===== src/Model/Weights/Bound.antt =====
-- What `LoadedWeights::bind` of src/model/loaded_weights.cpp binds: each field to the view of its tensor.
use market_sim.Prelude.{
  ℕ, zero, suc, ◌+◌, ◌%◌, ◌^◌, ◌≡◌, refl, Bool, true, false, not, ◌||◌, arith, List, [], ◌∷◌,
  length, Option, none, some, if◌then◌else◌, ap, ap₂, subst,
}
use market_sim.Prelude.Sort.{All}
use market_sim.Core.Status.{
  Status, Result, success, failure, >>=-eq-success, success-injective, if_fails-success,
  invalid_model, is_ok,
}
use market_sim.Core.Shape.{DType, bf16, f32, f16, i8, i32, u32, Shape}
use market_sim.Model.Text.{same_bytes}
use market_sim.Model.Json.{contains}
use market_sim.Model.Safetensors.{
  TensorRecord, SafeTensorFile, ConstTensorView, find_record, tensor,
}
use market_sim.Model.Spec.{ModelSpec, FloatTests, validate}
use market_sim.Model.Weights.{
  LayerWeights, LoadedWeights, ExpectedTensor, Shapes, layer_name, layer_tensors, tensors_from,
  shapes_of, expected_from, same_shape, is_bf16, require_record, require_tensor_of, views_from,
  check_names, names_of, next_view, next_layer, layers_of, output_head_of, bind_expected, bind,
  is_llama, embedding_name, norm_name, head_name, input_norm_suffix, query_suffix, key_suffix,
  value_suffix, output_suffix, post_norm_suffix, gate_suffix, up_suffix, down_suffix,
}

-- A view of the file's tensor of that name, which has the shape, and the one type of weights.
abbrev pub Views : SafeTensorFile → List ℕ → Shape → ConstTensorView → Type 0
Views file name shape view =
    (r : TensorRecord) × (find_record file name ≡ some r)
    × (r.shape ≡ shape)
    × (r.dtype ≡ bf16)
    × (tensor file name ≡ success view)

same_bytes-eq : (xs ys : List ℕ) → same_bytes xs ys ≡ true → xs ≡ ys
unfolding same_bytes
same_bytes-eq [] [] h = refl
same_bytes-eq [] (y ∷ ys) h = cc
same_bytes-eq (x ∷ xs) [] h = cc
same_bytes-eq (x ∷ xs) (y ∷ ys) h =
    let first : x ≡ y = ground arith in
    ap₂ (λ (z : ℕ) (zs : List ℕ). z ∷ zs) first (same_bytes-eq xs ys (ground arith))

pub same_shape-eq : (a b : Shape) → same_shape a b ≡ true → a ≡ b
unfolding same_shape
same_shape-eq a b h =
    let extents = same_bytes-eq a.extents b.extents (ground arith) in
    let rank : a.rank ≡ b.rank = ground arith in
    ap₂ (λ (e : List ℕ) (n : ℕ). record { extents = e; rank = n }) extents rank

is_bf16-eq : (d : DType) → is_bf16 d ≡ true → d ≡ bf16
unfolding is_bf16
is_bf16-eq f32 h = cc
is_bf16-eq f16 h = cc
is_bf16-eq bf16 h = refl
is_bf16-eq i8 h = cc
is_bf16-eq i32 h = cc
is_bf16-eq u32 h = cc

-- A guard whose failure has a detail.
guarded_at {ℓ} :
    {A : Type ℓ} (test : Bool) (s : Status) (r : Result A) {a : A}
    → (if test then failure s else r) ≡ success a
    → (test ≡ false) × (r ≡ success a)
guarded_at true s r h = cc
guarded_at false s r h = (refl, h)

require_record-Views :
    (file : SafeTensorFile) (e : ExpectedTensor) (detail : ℕ) (o : Option TensorRecord)
    (v : ConstTensorView)
    → find_record file e.name ≡ o
    → require_record file e detail o ≡ success v
    → Views file e.name e.shape v
unfolding require_record
require_record-Views file e detail none v found h = cc
require_record-Views file e detail (some r) v found h =
    let (fits, view) =
      guarded_at (not (same_shape r.shape e.shape) || not (is_bf16 r.dtype)) _ _ h in
    (
      r,
      found,
      same_shape-eq r.shape e.shape (ground arith),
      is_bf16-eq r.dtype (ground arith),
      view,
    )

-- A view for each expected tensor, in their order.
unfoldable Matches : SafeTensorFile → List ExpectedTensor → List ConstTensorView → Type 0
Matches file [] [] = Unit {0}
Matches file (e ∷ es) (v ∷ vs) = Views file e.name e.shape v × Matches file es vs
Matches file _ _ = ⊥

views_from-Matches :
    (file : SafeTensorFile) (index : ℕ) (es : List ExpectedTensor) (vs : List ConstTensorView)
    → views_from file index es ≡ success vs
    → Matches file es vs
unfolding views_from require_tensor_of Matches
views_from-Matches file index [] vs h =
    subst (λ (ws : List ConstTensorView). Matches file [] ws) (success-injective h) tt
views_from-Matches file index (e ∷ es) vs h =
    let (v, view, h₁) = >>=-eq-success (require_tensor_of file e ((index + 1) % 2 ^ 32)) _ h in
    let (ws, more, h₂) = >>=-eq-success (views_from file (index + 1) es) _ h₁ in
    subst (λ (ws : List ConstTensorView). Matches file (e ∷ es) ws) (success-injective h₂)
      (
        require_record-Views file e _ (find_record file e.name) v refl view,
        views_from-Matches file (index + 1) es ws more,
      )

next_view-Matches :
    (file : SafeTensorFile) (e : ExpectedTensor) (es : List ExpectedTensor)
    (vs : List ConstTensorView)
    → Matches file (e ∷ es) vs
    → Views file e.name e.shape (next_view vs).0 × Matches file es (next_view vs).1
unfolding next_view Matches
next_view-Matches file e es [] h = absurd h
next_view-Matches file e es (v ∷ vs) h = h

-- A layer's nine fields are the views of the layer's nine tensors.
unfoldable pub IsLayer : SafeTensorFile → Shapes → ℕ → LayerWeights → Type 0
IsLayer file s layer w =
    Views file (layer_name layer input_norm_suffix) s.norm w.input_norm
    × Views file (layer_name layer query_suffix) s.query w.attention.query
    × Views file (layer_name layer key_suffix) s.key_value w.attention.key
    × Views file (layer_name layer value_suffix) s.key_value w.attention.value
    × Views file (layer_name layer output_suffix) s.query w.attention.output
    × Views file (layer_name layer post_norm_suffix) s.norm w.post_attention_norm
    × Views file (layer_name layer gate_suffix) s.gate_up w.mlp.gate
    × Views file (layer_name layer up_suffix) s.gate_up w.mlp.up
    × Views file (layer_name layer down_suffix) s.down w.mlp.down

-- The layers from a number on.
unfoldable pub AreLayers : SafeTensorFile → Shapes → ℕ → List LayerWeights → Type 0
unfolding IsLayer
AreLayers file s layer [] = Unit {0}
AreLayers file s layer (w ∷ ws) = IsLayer file s layer w × AreLayers file s (layer + 1) ws

next_layer-IsLayer :
    (file : SafeTensorFile) (s : Shapes) (layer : ℕ) (es : List ExpectedTensor)
    (vs : List ConstTensorView)
    → Matches file (layer_tensors s layer es) vs
    → IsLayer file s layer (next_layer vs).0 × Matches file es (next_layer vs).1
unfolding next_layer layer_tensors IsLayer
next_layer-IsLayer file s layer es vs h =
    let (a, h₁) = next_view-Matches file _ _ vs h in
    let (b, h₂) = next_view-Matches file _ _ _ h₁ in
    let (c, h₃) = next_view-Matches file _ _ _ h₂ in
    let (d, h₄) = next_view-Matches file _ _ _ h₃ in
    let (e, h₅) = next_view-Matches file _ _ _ h₄ in
    let (f, h₆) = next_view-Matches file _ _ _ h₅ in
    let (g, h₇) = next_view-Matches file _ _ _ h₆ in
    let (k, h₈) = next_view-Matches file _ _ _ h₇ in
    let (l, h₉) = next_view-Matches file _ _ _ h₈ in ((a, b, c, d, e, f, g, k, l), h₉)

layers_of-AreLayers :
    (file : SafeTensorFile) (s : Shapes) (layer layers : ℕ) (vs : List ConstTensorView)
    → Matches file (tensors_from s layer layers) vs
    → (length (layers_of layers vs).0 ≡ layers)
      × AreLayers file s layer (layers_of layers vs).0
      × Views file norm_name s.norm (next_view (layers_of layers vs).1).0
unfolding layers_of tensors_from AreLayers
layers_of-AreLayers file s layer zero vs h = (refl, tt, (next_view-Matches file _ _ vs h).0)
layers_of-AreLayers file s layer (suc layers) vs h =
    let (bound, behind) =
      next_layer-IsLayer file s layer (tensors_from s (layer + 1) layers) vs h in
    let (count, more, norm) =
      layers_of-AreLayers file s (layer + 1) layers (next_layer vs).1 behind in
    (ap suc count, (bound, more), norm)

check_names-All :
    (index : ℕ) (allowed : List (List ℕ)) (rs : List TensorRecord) (u : Unit {0})
    → check_names index allowed rs ≡ success u
    → All (λ r. contains allowed r.name ≡ true) rs
unfolding check_names
check_names-All index allowed [] u h = tt
check_names-All index allowed (r ∷ rs) u h =
    let (known, rest) = guarded_at (not (contains allowed r.name)) _ _ h in
    (ground arith, check_names-All (index + 1) allowed rs u rest)

-- The output head is the embedding where the file has none of its own.
unfoldable pub IsHead : SafeTensorFile → Shape → ConstTensorView → ConstTensorView → Bool → Type 0
IsHead file shape embedding head true = (find_record file head_name ≡ none) × (head ≡ embedding)
IsHead file shape embedding head false = Views file head_name shape head

output_head_of-IsHead :
    (file : SafeTensorFile) (shape : Shape) (detail : ℕ) (embedding : ConstTensorView)
    (o : Option TensorRecord) (head : ConstTensorView × Bool)
    → find_record file head_name ≡ o
    → output_head_of file shape detail embedding o ≡ success head
    → IsHead file shape embedding head.0 head.1
unfolding output_head_of IsHead
output_head_of-IsHead file shape detail embedding none head found h =
    subst (λ (k : ConstTensorView × Bool). IsHead file shape embedding k.0 k.1)
      (success-injective h) (found, refl)
output_head_of-IsHead file shape detail embedding (some r) head found h =
    let (fits, h₁) = guarded_at (not (same_shape r.shape shape) || not (is_bf16 r.dtype)) _ _ h in
    let (view, opened, h₂) = >>=-eq-success (tensor file head_name) _ h₁ in
    subst (λ (k : ConstTensorView × Bool). IsHead file shape embedding k.0 k.1)
      (success-injective h₂)
      (
        r,
        found,
        same_shape-eq r.shape shape (ground arith),
        is_bf16-eq r.dtype (ground arith),
        opened,
      )

module _ {F : Type 0} where
  -- What the weights of a specification have in common with their file: every tensor of the file is one
  -- that the specification asks for, and every field is the view of the tensor that it is named for.
  unfoldable pub IsBound : SafeTensorFile → ModelSpec F → LoadedWeights → Type 0
  unfolding AreLayers IsHead
  IsBound file s w =
      (shapes : Shapes) × (shapes_of s ≡ success shapes)
      × All (λ r. contains (names_of (expected_from s shapes)) r.name ≡ true) file.metadata.records
      × Views file embedding_name shapes.embedding w.embedding
      × (length w.layers ≡ s.layers)
      × AreLayers file shapes 0 w.layers
      × Views file norm_name shapes.norm w.final_norm
      × IsHead file shapes.embedding w.embedding w.output_head w.output_head_aliases_embedding

  bind_expected-IsBound :
      (file : SafeTensorFile) (s : ModelSpec F) (w : LoadedWeights)
      → bind_expected file s ≡ success w
      → IsBound file s w
  unfolding bind_expected IsBound expected_from
  bind_expected-IsBound file s w h =
      let (shapes, shaped, h₁) = >>=-eq-success (shapes_of s) _ h in
      let expected = expected_from s shapes in
      let (_, named, h₂) =
        >>=-eq-success (check_names 0 (names_of expected) file.metadata.records) _ h₁ in
      let (views, viewed, h₃) = >>=-eq-success (views_from file 0 expected) _ h₂ in
      let first = next_view views in
      let (head, headed, h₄) =
        >>=-eq-success
          (output_head_of file shapes.embedding ((length expected + 1) % 2 ^ 32) first.0
            (find_record file head_name))
          _ h₃ in
      let (embedding, behind) =
        next_view-Matches file _ _ views (views_from-Matches file 0 expected views viewed) in
      let (count, layers, norm) = layers_of-AreLayers file shapes 0 s.layers first.1 behind in
      subst (λ (v : LoadedWeights). IsBound file s v) (success-injective h₄)
        (
          shapes,
          shaped,
          check_names-All 0 (names_of expected) file.metadata.records tt named,
          embedding,
          count,
          layers,
          norm,
          output_head_of-IsHead file shapes.embedding _ first.0 _ head refl headed,
        )

  -- Weights that are bound hold, in each of their fields, the view of the tensor with the field's name
  -- and shape, layer by layer, and the file has no tensor that is not asked for.
  pub bind-IsBound :
      (t : FloatTests F) (file : SafeTensorFile) (s : ModelSpec F) (w : LoadedWeights)
      → bind t file s ≡ success w
      → IsBound file s w
  unfolding bind
  bind-IsBound t file s w h =
      bind_expected-IsBound file s w
        (if_fails-success
          (not (is_llama s.architecture)
            || s.qkv_bias
            || not s.tied_embeddings
            || not (is_ok (validate t s)))
          invalid_model (bind_expected file s) h).1
