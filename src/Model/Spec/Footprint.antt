-- ===== src/Model/Spec/Footprint.antt =====
-- What `validate` of src/model/model_spec.cpp accepts, and what its memory estimates are.
use market_sim.Prelude.{
  ℕ, ◌+◌, ◌*◌, ◌%◌, ◌≤◌, ◌≡◌, inl, inr, refl, Bool, true, false, not, ◌||◌, arith, ltb, leb, ◌==◌,
  if◌then◌else◌, Bool-cases, ap, ap₂, sym, subst, ◌∙◌,
}
use market_sim.Core.Status.{
  Status, Result, success, failure, ◌>>=◌, >>=-eq-success, is_ok, status, status_failure,
  invalid_model, success-injective,
}
use market_sim.Core.CheckedMath.{
  checked_add, checked_multiply, checked_add_lem, checked_multiply_lem, checked_multiply_exact,
  fits_u64, u64_max, u32_max,
}
use market_sim.Core.Shape.{DType, dtype_size}
use market_sim.Model.Spec.{
  ModelSpec, FloatTests, ModelFootprint, RuntimeMemoryPlan, estimate_parameter_count, has_zero,
  validate, width_is_hidden, supported, footprint_of, estimate_model_footprint,
  estimate_peak_runtime_bytes, fits_memory_budget,
}
use market_sim.Model.Spec.Count.{fits-bind, parameter_total, IsSound, estimate_parameter_count_lem}

peak :
    (f : ModelFootprint) (plan : RuntimeMemoryPlan)
    → f.peak_cpu_weight_bytes ≤ u64_max
    → estimate_peak_runtime_bytes f plan
      ≡ fits_u64 (
          f.peak_cpu_weight_bytes
          + f.kv_bytes_per_token * plan.resident_kv_tokens
          + plan.workspace_bytes
          + plan.reserve_bytes)
unfolding estimate_peak_runtime_bytes
peak f plan h =
    let kv = f.kv_bytes_per_token * plan.resident_kv_tokens in
    let weights = f.peak_cpu_weight_bytes + kv in
    let working = weights + plan.workspace_bytes in
    let all = working + plan.reserve_bytes in
    fits-bind kv all (checked_multiply f.kv_bytes_per_token plan.resident_kv_tokens) _
      (checked_multiply_lem f.kv_bytes_per_token plan.resident_kv_tokens) (omega arith)
      λ _.
        fits-bind weights all (checked_add f.peak_cpu_weight_bytes kv) _
          (checked_add_lem f.peak_cpu_weight_bytes kv h) (omega arith)
          λ l₁.
            fits-bind working all (checked_add weights plan.workspace_bytes) _
              (checked_add_lem weights plan.workspace_bytes l₁) (omega arith)
              λ l₂. checked_add_lem working plan.reserve_bytes l₂

-- The plan fits exactly where the weights, the cache, the workspace and the reserve together are at
-- most the memory there is; the estimate overflows exactly where their sum does.
pub fits_memory_budget_lem :
    (f : ModelFootprint) (plan : RuntimeMemoryPlan) (available : ℕ)
    → f.peak_cpu_weight_bytes ≤ u64_max
    → fits_memory_budget f plan available ≡ (
        fits_u64 (
          f.peak_cpu_weight_bytes
          + f.kv_bytes_per_token * plan.resident_kv_tokens
          + plan.workspace_bytes
          + plan.reserve_bytes)
        >>= λ n. success (leb n available))
unfolding fits_memory_budget
fits_memory_budget_lem f plan available h =
    ap (λ m. m >>= λ n. success (leb n available)) (peak f plan h)

guarded :
    (test : Bool) (r : Status)
    → is_ok (if test then status_failure invalid_model else r) ≡ true
    → (test ≡ false) × (is_ok r ≡ true)
guarded true r h = cc
guarded false r h = (refl, h)

fits-is_ok : (n : ℕ) → is_ok (status (fits_u64 n)) ≡ true → n ≤ u64_max
fits-is_ok n h = elim (Bool-cases (ltb u64_max n)) [
  | inl e ↦ absurd (ground (arith))
  | inr e ↦ ground arith
]

supported-success : (r : Result ℕ) (n : ℕ) → supported r ≡ success n → r ≡ success n
unfolding supported
supported-success (success m) n h = h
supported-success (failure e) n h = cc

checked_add_exact : (a b n : ℕ) → a ≤ u64_max → checked_add a b ≡ success n → n ≡ a + b
checked_add_exact a b n l h = ground (arith, checked_add_lem a b l)

per_token :
    (a b c d e p q r t : ℕ) → p ≡ a * b → q ≡ p * c → r ≡ q * d → t ≡ r * e → t ≡ a * b * c * d * e
per_token a b c d e p q r t h₁ h₂ h₃ h₄ =
    h₄ ∙ ap (λ (n : ℕ). n * e) (h₃ ∙ ap (λ (n : ℕ). n * d) (h₂ ∙ ap (λ (n : ℕ). n * c) h₁))

module _ {F : Type 0} where
  width_exact :
      (s : ModelSpec F) (r : Result ℕ) → width_is_hidden s r ≡ true → r ≡ success s.hidden_size
  width_exact s (success w) h = ap success (ground arith)
  width_exact s (failure e) h = cc

  -- The fields of uint32 that the sums are made of.
  abbrev pub IsU32 : ModelSpec F → Type 0
  IsU32 s = (s.query_heads ≤ u32_max) × (s.kv_heads ≤ u32_max) × (s.head_dim ≤ u32_max)

  pub validate-IsSound :
      (t : FloatTests F) (s : ModelSpec F)
      → IsU32 s
      → is_ok (validate t s) ≡ true
      → IsSound s × (parameter_total s ≤ u64_max)
  unfolding validate
  validate-IsSound t s (q, k, d) h =
      let hidden_is = checked_multiply s.query_heads s.head_dim in
      let (a, h₁) = guarded (has_zero s || s.max_positions == 0) _ h in
      let (b, h₂) = guarded (not (s.query_heads % s.kv_heads == 0)) _ h₁ in
      let (c, h₃) = guarded (not (width_is_hidden s hidden_is)) _ h₂ in
      let floats =
        not (t.is_finite s.rms_norm_epsilon)
        || t.at_most_zero s.rms_norm_epsilon
        || not (t.is_finite s.rope_theta)
        || t.at_most_zero s.rope_theta in
      let (_, h₄) = guarded floats (status (estimate_parameter_count s)) h₃ in
      let width =
        checked_multiply_exact s.query_heads s.head_dim s.hidden_size
          (width_exact s hidden_is (ground arith)) in
      let sound : IsSound s = (ground arith, ground arith, sym width.0, q, k, d) in
      let counted : is_ok (status (fits_u64 (parameter_total s))) ≡ true =
        subst (λ (r : Result ℕ). is_ok (status r) ≡ true) (estimate_parameter_count_lem s sound)
          h₄ in
      (sound, fits-is_ok (parameter_total s) counted)

  -- The footprint of a specification counts its parameters once in each of the two types, and for each
  -- token a key and a value in every layer and head.
  abbrev pub IsFootprint : ModelSpec F → DType → DType → DType → ModelFootprint → Type 0
  IsFootprint s source materialized kv f =
      (a : ℕ) × (b : ℕ) × (c : ℕ) × (dtype_size source ≡ success a)
      × (dtype_size materialized ≡ success b)
      × (dtype_size kv ≡ success c)
      × (f.parameter_count ≡ parameter_total s)
      × (f.source_weight_bytes ≡ parameter_total s * a)
      × (f.materialized_weight_bytes ≡ parameter_total s * b)
      × (f.peak_cpu_weight_bytes ≡ parameter_total s * a + parameter_total s * b)
      × (f.kv_bytes_per_token ≡ 2 * s.layers * s.kv_heads * s.head_dim * c)

  counted :
      (s : ModelSpec F) (n : ℕ)
      → IsSound s
      → estimate_parameter_count s ≡ success n
      → n ≡ parameter_total s
  counted s n sound h = ground (arith, estimate_parameter_count_lem s sound)

  footprint_of-IsFootprint :
      (s : ModelSpec F) (source materialized kv : DType) (f : ModelFootprint)
      → IsSound s
      → footprint_of s source materialized kv ≡ success f
      → IsFootprint s source materialized kv f
  unfolding footprint_of
  footprint_of-IsFootprint s source materialized kv f sound h =
      let (n, e₁, h₁) = >>=-eq-success (supported (estimate_parameter_count s)) _ h in
      let (a, e₂, h₂) = >>=-eq-success (supported (dtype_size source)) _ h₁ in
      let (b, e₃, h₃) = >>=-eq-success (supported (dtype_size materialized)) _ h₂ in
      let (c, e₄, h₄) = >>=-eq-success (supported (dtype_size kv)) _ h₃ in
      let (x, e₅, h₅) = >>=-eq-success (checked_multiply n a) _ h₄ in
      let (y, e₆, h₆) = >>=-eq-success (checked_multiply n b) _ h₅ in
      let (z, e₇, h₇) = >>=-eq-success (checked_add x y) _ h₆ in
      let (p, e₈, h₈) = >>=-eq-success (checked_multiply 2 s.layers) _ h₇ in
      let (q, e₉, h₉) = >>=-eq-success (checked_multiply p s.kv_heads) _ h₈ in
      let (r, e₁₀, h₁₀) = >>=-eq-success (checked_multiply q s.head_dim) _ h₉ in
      let (t, e₁₁, made) = >>=-eq-success (checked_multiply r c) _ h₁₀ in
      let total : n ≡ parameter_total s = counted s n sound (supported-success _ n e₁) in
      let X = checked_multiply_exact n a x e₅ in
      let Y = checked_multiply_exact n b y e₆ in
      let Z = checked_add_exact x y z X.1 e₇ in
      let token : t ≡ 2 * s.layers * s.kv_heads * s.head_dim * c =
        per_token 2 s.layers s.kv_heads s.head_dim c p q r t
          (checked_multiply_exact 2 s.layers p e₈).0 (checked_multiply_exact p s.kv_heads q e₉).0
          (checked_multiply_exact q s.head_dim r e₁₀).0 (checked_multiply_exact r c t e₁₁).0 in
      let source_is : x ≡ parameter_total s * a = X.0 ∙ ap (λ (m : ℕ). m * a) total in
      let materialized_is : y ≡ parameter_total s * b = Y.0 ∙ ap (λ (m : ℕ). m * b) total in
      subst (λ (g : ModelFootprint). IsFootprint s source materialized kv g)
        (success-injective made)
        (
          a,
          b,
          c,
          supported-success _ a e₂,
          supported-success _ b e₃,
          supported-success _ c e₄,
          total,
          source_is,
          materialized_is,
          Z ∙ ap₂ (λ (v w : ℕ). v + w) source_is materialized_is,
          token,
        )

  -- The footprint that a valid specification of uint32 gets is exact: no sum or product in it wraps.
  pub estimate_model_footprint-IsFootprint :
      (t : FloatTests F) (s : ModelSpec F) (source materialized kv : DType) (f : ModelFootprint)
      → IsU32 s
      → estimate_model_footprint t s source materialized kv ≡ success f
      → IsFootprint s source materialized kv f
  unfolding estimate_model_footprint
  estimate_model_footprint-IsFootprint t s source materialized kv f small h =
      elim (Bool-cases (is_ok (validate t s))) [
        | inl e ↦
            footprint_of-IsFootprint s source materialized kv f (validate-IsSound t s small e).0
              (ground arith)
        | inr e ↦ absurd (ground arith)
      ]
