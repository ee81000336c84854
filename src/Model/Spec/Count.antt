-- ===== src/Model/Spec/Count.antt =====
-- What the parameter count and the footprint of src/model/model_spec.cpp compute.
use native.Mathlib.Nat.{mul-le-mul_left, mul-le-mul}
use market_sim.Prelude.{
  ℕ, ◌+◌, ◌*◌, ◌%◌, ◌≤◌, ◌≡◌, inl, inr, refl, Bool, true, false, not, arith, ltb, ◌==◌,
  if◌then◌else◌, Bool-cases, ap, ◌∙◌,
}
use market_sim.Core.Status.{Result, success, fails, ◌>>=◌, invalid_model}
use market_sim.Core.CheckedMath.{
  checked_add, checked_multiply, checked_add_lem, checked_multiply_lem, fits_u64, u64_max, u32_max,
  checked_multiply_fits,
}
use market_sim.Model.Spec.{
  ModelSpec, add_to, add_matrix, matrix_parameters, layer_parameters, sum_parameters,
  estimate_parameter_count, has_zero,
}

-- A chain of checked operations, each of which gives a larger number, gives the last where it fits.
pub fits-bind :
    (a b : ℕ) (r : Result ℕ) (f : ℕ → Result ℕ)
    → r ≡ fits_u64 a
    → a ≤ b
    → (a ≤ u64_max → f a ≡ fits_u64 b)
    → (r >>= f) ≡ fits_u64 b
fits-bind a b r f e le h = elim (Bool-cases (ltb u64_max a)) [
  | inl big ↦
      let above : ltb u64_max b ≡ true = ground arith in
      ap (λ (m : Result ℕ). m >>= f) e ∙ rw (big, above) refl
  | inr small ↦ ap (λ (m : Result ℕ). m >>= f) e ∙ rw small (h (ground arith))
]

add_to_lem :
    (total n : ℕ) (r : Result ℕ)
    → r ≡ fits_u64 n
    → total ≤ u64_max
    → add_to total r ≡ fits_u64 (total + n)
unfolding add_to
add_to_lem total n r e h =
    fits-bind n (total + n) r _ e (omega arith) (λ _. checked_add_lem total n h)

add_matrix_lem :
    (per_layer rows columns : ℕ)
    → per_layer ≤ u64_max
    → add_matrix per_layer rows columns ≡ fits_u64 (per_layer + rows * columns)
unfolding add_matrix
add_matrix_lem p r c h = add_to_lem p (r * c) (checked_multiply r c) (checked_multiply_lem r c) h

-- The parameters of a layer, and of a model.
abbrev pub bias_count : Bool → ℕ → ℕ → ℕ
bias_count true query_width kv_width = query_width + kv_width * 2
bias_count false query_width kv_width = 0

abbrev pub layer_count : ℕ → ℕ → ℕ → ℕ → Bool → ℕ
layer_count hidden intermediate query_width kv_width qkv_bias =
    hidden * query_width
    + hidden * kv_width
    + hidden * kv_width
    + query_width * hidden
    + hidden * intermediate
    + hidden * intermediate
    + intermediate * hidden
    + hidden * 2
    + bias_count qkv_bias query_width kv_width

biased :
    (n query_width kv_width : ℕ) (qkv_bias : Bool)
    → query_width ≤ u64_max
    → n ≤ u64_max
    → (elim qkv_bias [
      | false ↦ success n
      | true ↦ checked_multiply kv_width 2 >>= λ two_kv_biases.
          add_to n (checked_add query_width two_kv_biases)
    ])
      ≡ fits_u64 (n + bias_count qkv_bias query_width kv_width)
biased n q k false small l = ground arith
biased n q k true small l =
    fits-bind (k * 2) (n + (q + k * 2)) (checked_multiply k 2) _ (checked_multiply_lem k 2)
      (omega arith) λ l₁. add_to_lem n (q + k * 2) _ (checked_add_lem q (k * 2) small) l

layer_parameters_lem :
    (hidden intermediate query_width kv_width : ℕ) (qkv_bias : Bool)
    → query_width ≤ u64_max
    → layer_parameters hidden intermediate query_width kv_width qkv_bias
      ≡ fits_u64 (layer_count hidden intermediate query_width kv_width qkv_bias)
unfolding layer_parameters
layer_parameters_lem h i q k bias small =
    let a = 0 + h * q in
    let b = a + h * k in
    let c = b + h * k in
    let d = c + q * h in
    let e = d + h * i in
    let f = e + h * i in
    let g = f + i * h in
    let n = g + h * 2 in
    let all = n + bias_count bias q k in
    let whole : all ≡ layer_count h i q k bias = omega arith in
    (fits-bind a all (add_matrix 0 h q) _ (add_matrix_lem 0 h q (omega arith)) (omega arith) λ l₁.
      fits-bind b all (add_matrix a h k) _ (add_matrix_lem a h k l₁) (omega arith) λ l₂.
        fits-bind c all (add_matrix b h k) _ (add_matrix_lem b h k l₂) (omega arith) λ l₃.
          fits-bind d all (add_matrix c q h) _ (add_matrix_lem c q h l₃) (omega arith) λ l₄.
            fits-bind e all (add_matrix d h i) _ (add_matrix_lem d h i l₄) (omega arith) λ l₅.
              fits-bind f all (add_matrix e h i) _ (add_matrix_lem e h i l₅) (omega arith) λ l₆.
                fits-bind g all (add_matrix f i h) _ (add_matrix_lem f i h l₆) (omega arith) λ l₇.
                  fits-bind n all (add_to g (checked_multiply h 2)) _
                    (add_to_lem g (h * 2) _ (checked_multiply_lem h 2) l₇) (omega arith)
                    λ l₈. biased n q k bias small l₈)
    ∙ ap fits_u64 whole

tied :
    (n rows columns : ℕ) (tied_embeddings : Bool)
    → n ≤ u64_max
    → (elim tied_embeddings [
      | true ↦ success n
      | false ↦ add_to n (matrix_parameters rows columns)
    ])
      ≡ fits_u64 (n + (if tied_embeddings then 0 else rows * columns))
tied n r c true l = ground arith
tied n r c false l = add_to_lem n (r * c) (checked_multiply r c) (checked_multiply_lem r c) l

product_small : (a b : ℕ) → a ≤ u32_max → b ≤ u32_max → a * b ≤ u64_max
product_small a b h g = omega (arith, mul-le-mul h g)

module _ {F : Type 0} where
  -- The parameters of a model: the embedding, the layers, the last norm, and an output matrix of its
  -- own where the embeddings are not tied.
  abbrev pub parameter_total : ModelSpec F → ℕ
  parameter_total s =
      let hidden = s.hidden_size in
      s.vocabulary_size * hidden
      + layer_count hidden s.intermediate_size (s.query_heads * s.head_dim)
          (s.kv_heads * s.head_dim) s.qkv_bias
        * s.layers
      + hidden
      + (if s.tied_embeddings then 0 else s.vocabulary_size * hidden)

  -- What the guards ask for, of fields of uint32.
  abbrev pub IsSound : ModelSpec F → Type 0
  IsSound s =
      (has_zero s ≡ false)
      × (s.query_heads % s.kv_heads ≡ 0)
      × (s.query_heads * s.head_dim ≡ s.hidden_size)
      × (s.query_heads ≤ u32_max)
      × (s.kv_heads ≤ u32_max)
      × (s.head_dim ≤ u32_max)

  sum_parameters_lem :
      (s : ModelSpec F) (query_width kv_width : ℕ)
      → 1 ≤ s.layers
      → query_width ≤ u64_max
      → sum_parameters s query_width kv_width
        ≡ fits_u64 (
            s.vocabulary_size * s.hidden_size
            + layer_count s.hidden_size s.intermediate_size query_width kv_width s.qkv_bias
              * s.layers
            + s.hidden_size
            + (if s.tied_embeddings then 0 else s.vocabulary_size * s.hidden_size))
  unfolding sum_parameters
  sum_parameters_lem s q k some_layer small =
      let embedding = s.vocabulary_size * s.hidden_size in
      let layer = layer_count s.hidden_size s.intermediate_size q k s.qkv_bias in
      let stacked = layer * s.layers in
      let untied = if s.tied_embeddings then 0 else embedding in
      let all = embedding + stacked + s.hidden_size + untied in
      let grows : layer ≤ stacked = omega (arith, mul-le-mul_left layer some_layer) in
      fits-bind embedding all (checked_multiply s.vocabulary_size s.hidden_size) _
        (checked_multiply_lem s.vocabulary_size s.hidden_size) (omega arith)
        λ l₁.
          fits-bind layer all (layer_parameters s.hidden_size s.intermediate_size q k s.qkv_bias) _
            (layer_parameters_lem s.hidden_size s.intermediate_size q k s.qkv_bias small)
            (omega (arith, grows))
            λ l₂.
              fits-bind (embedding + stacked) all
                (add_to embedding (checked_multiply layer s.layers)) _
                (add_to_lem embedding stacked _ (checked_multiply_lem layer s.layers) l₁)
                (omega arith)
                λ l₃.
                  fits-bind (embedding + stacked + s.hidden_size) all
                    (checked_add (embedding + stacked) s.hidden_size) _
                    (checked_add_lem (embedding + stacked) s.hidden_size l₃) (omega arith)
                    λ l₄.
                      tied (embedding + stacked + s.hidden_size) s.vocabulary_size s.hidden_size
                        s.tied_embeddings l₄

  -- The parameter count of a specification with sound fields is that of its model where it fits 64
  -- bits, and the overflow error where not.
  pub estimate_parameter_count_lem :
      (s : ModelSpec F) → IsSound s → estimate_parameter_count s ≡ fits_u64 (parameter_total s)
  unfolding estimate_parameter_count sum_parameters
  estimate_parameter_count_lem s (nonzero, divides, width, small_q, small_k, small_d) =
      let query_width = s.query_heads * s.head_dim in
      let kv_width = s.kv_heads * s.head_dim in
      let divided : s.query_heads % s.kv_heads == 0 ≡ true = ground arith in
      let same : query_width == s.hidden_size ≡ true = ground arith in
      let fits_q = product_small s.query_heads s.head_dim small_q small_d in
      let q = checked_multiply_fits s.query_heads s.head_dim fits_q in
      let k =
        checked_multiply_fits s.kv_heads s.head_dim
          (product_small s.kv_heads s.head_dim small_k small_d) in
      rw (nonzero, divided)
        (ap
            (λ m. m >>= λ w. checked_multiply s.kv_heads s.head_dim >>= λ k.
              if not (w == s.hidden_size) then fails invalid_model else sum_parameters s w k)
            q
          ∙ ap
              (λ m. m >>= λ k.
                if not (query_width == s.hidden_size)
                then fails invalid_model
                else sum_parameters s query_width k)
              k
          ∙ rw same (sum_parameters_lem s query_width kv_width (ground arith) fits_q))
