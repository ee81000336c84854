-- ===== src/Cpu/Attention/Checks.antt =====
-- What the checks of src/cpu/operators.cpp establish before the attention runs.
use market_sim.Prelude.{
  ℕ, zero, suc, ◌%◌, ◌≤◌, ◌<◌, ◌≡◌, Bool, true, false, ◌||◌, refl, List, [], ◌∷◌, length, arith,
  get_elem?, some, ltb, ◌==◌, ap, not,
}
use market_sim.Core.Status.{
  Status, success, is_ok, status_success, status_failure, invalid_shape, invalid_argument,
}
use market_sim.Core.Shape.{checked_numel}
use market_sim.Core.TensorView.{TensorView}
use market_sim.Model.Weights.{same_shape}
use market_sim.Model.Weights.Bound.{same_shape-eq}
use market_sim.Cpu.Views.{validate_f32_host, extent}
use market_sim.Cpu.Views.Guards.{guard_passes, ok_passes, validate_f32_host_counts}
use market_sim.Cpu.Attention.{check_contexts, validate_attention_shapes}

check_contexts_lem :
    (tokens maximum_context : ℕ) (contexts : List ℕ) (behind : Status) (i context : ℕ)
    → is_ok (check_contexts tokens maximum_context contexts behind) ≡ true
    → get_elem? contexts i ≡ some context
    → (tokens ≤ context) × (context ≤ maximum_context)
unfolding check_contexts
check_contexts_lem tokens maximum [] behind i context h e = cc
check_contexts_lem tokens maximum (c ∷ cs) behind zero context h e =
    let (fits, _) =
      guard_passes (ltb c tokens || ltb maximum c) (status_failure invalid_argument) _ refl h in
    let same : c ≡ context = cc in ground arith
check_contexts_lem tokens maximum (c ∷ cs) behind (suc i) context h e =
    let (_, rest) =
      guard_passes (ltb c tokens || ltb maximum c) (status_failure invalid_argument) _ refl h in
    check_contexts_lem tokens maximum cs behind i context rest e

-- The tests on ranks and on extents, and what follows where they fail.
abbrev wrong_ranks : ℕ → ℕ → Bool → Bool → Bool
wrong_ranks query key same_cache same_output =
    not (query == 4) || not (key == 4) || not same_cache || not same_output

ranks_lem :
    (query key : ℕ) (same_cache same_output : Bool)
    → wrong_ranks query key same_cache same_output ≡ false
    → (query ≡ 4) × (key ≡ 4) × (same_cache ≡ true) × (same_output ≡ true)
ranks_lem query key same_cache same_output h =
    (ground arith, ground arith, ground arith, ground arith)

abbrev wrong_extents : (batch tokens heads dim maximum kv batch' dim' contexts : ℕ) → Bool
wrong_extents batch tokens heads dim maximum kv batch' dim' contexts =
    batch == 0
    || tokens == 0
    || heads == 0
    || dim == 0
    || maximum == 0
    || kv == 0
    || not (batch' == batch)
    || not (dim' == dim)
    || not (heads % kv == 0)
    || not (contexts == batch)

extents_lem :
    (batch tokens heads dim maximum kv batch' dim' contexts : ℕ)
    → wrong_extents batch tokens heads dim maximum kv batch' dim' contexts ≡ false
    → (0 < kv) × (batch' ≡ batch) × (dim' ≡ dim) × (heads % kv ≡ 0)
extents_lem batch tokens heads dim maximum kv batch' dim' contexts h =
    (ground arith, ground arith, ground arith, ground arith)

-- What the checks establish of the shapes.
pub record IsSound (query key_cache value_cache output : TensorView) (contexts : List ℕ)
    : Type 0 where
  pub query_counts : (n : ℕ) × (checked_numel query.shape ≡ success n)
  pub key_counts : (n : ℕ) × (checked_numel key_cache.shape ≡ success n)
  pub query_rank : query.shape.rank ≡ 4
  pub key_rank : key_cache.shape.rank ≡ 4
  pub same_cache : value_cache.shape ≡ key_cache.shape
  pub same_output : output.shape ≡ query.shape
  pub same_batch : extent key_cache.shape 0 ≡ extent query.shape 0
  pub same_width : extent key_cache.shape 3 ≡ extent query.shape 3
  pub kv_positive : 0 < extent key_cache.shape 2
  pub grouped : extent query.shape 2 % extent key_cache.shape 2 ≡ 0
  pub contexts_fit :
      (i context : ℕ)
      → get_elem? contexts i ≡ some context
      → (extent query.shape 1 ≤ context) × (context ≤ extent key_cache.shape 1)

pub validate_attention_shapes-IsSound :
    (query key_cache value_cache output : TensorView) (contexts : List ℕ)
    → validate_attention_shapes query key_cache value_cache output contexts ≡ status_success
    → IsSound query key_cache value_cache output contexts
unfolding validate_attention_shapes
validate_attention_shapes-IsSound q k v o cs h =
    let (q_ok, h₁) = ok_passes _ (validate_f32_host q) _ refl (ap is_ok h) in
    let (k_ok, h₂) = ok_passes _ (validate_f32_host k) _ refl h₁ in
    let (v_ok, h₃) = ok_passes _ (validate_f32_host v) _ refl h₂ in
    let (o_ok, h₄) = ok_passes _ (validate_f32_host o) _ refl h₃ in
    let (ranks, h₅) =
      guard_passes
        (wrong_ranks q.shape.rank k.shape.rank (same_shape v.shape k.shape)
          (same_shape o.shape q.shape))
        (status_failure invalid_shape) _ refl h₄ in
    let (query_rank, key_rank, cache, output) = ranks_lem q.shape.rank k.shape.rank _ _ ranks in
    let (sizes, h₆) =
      guard_passes
        (wrong_extents (extent q.shape 0) (extent q.shape 1) (extent q.shape 2) (extent q.shape 3)
          (extent k.shape 1) (extent k.shape 2) (extent k.shape 0) (extent k.shape 3) (length cs))
        (status_failure invalid_shape) _ refl h₅ in
    let (kv_positive, same_batch, same_width, grouped) =
      extents_lem (extent q.shape 0) (extent q.shape 1) (extent q.shape 2) (extent q.shape 3)
        (extent k.shape 1) (extent k.shape 2) (extent k.shape 0) (extent k.shape 3) (length cs)
        sizes in
    record {
      query_counts = validate_f32_host_counts q q_ok;
      key_counts = validate_f32_host_counts k k_ok;
      query_rank = query_rank;
      key_rank = key_rank;
      same_cache = same_shape-eq v.shape k.shape cache;
      same_output = same_shape-eq o.shape q.shape output;
      same_batch = same_batch;
      same_width = same_width;
      kv_positive = kv_positive;
      grouped = grouped;
      contexts_fit = λ i context e.
          check_contexts_lem (extent q.shape 1) (extent k.shape 1) cs _ i context h₆ e;
    }
