-- ===== src/Cpu/Attention/Offsets.antt =====
-- The loops of `attention_impl` in src/cpu/operators.cpp stay in the tensors that its checks let pass.
use native.Mathlib.Nat.{div-lt_iff_lt-mul, div-add-mod'}
use market_sim.Prelude.{
  ℕ, ◌+◌, ◌-◌, ◌*◌, ◌/◌, ◌%◌, ◌≤◌, ◌<◌, ◌≡◌, ◌||◌, ◌^◌, List, [], ◌∷◌, take, arith, get_elem?, some,
  ◌==◌, ap, sym, ◌∙◌, subst, not,
}
use market_sim.Core.Status.{success, status_success, invalid_shape, if_fails-success}
use market_sim.Core.CheckedMath.{u32_max}
use market_sim.Core.Shape.{Shape, IsArray, checked_numel, row_major_offset}
use market_sim.Core.Shape.Indexing.{row_major_offset_bound, checked_numel_fits}
use market_sim.Core.Shape.Offsets.{numel_from_lem, InRange, horner, offset_from_lem}
use market_sim.Core.TensorView.{TensorView}
use market_sim.Cpu.Views.{extent, product}
use market_sim.Cpu.Views.Guards.{take_four}
use market_sim.Cpu.Attention.Checks.{validate_attention_shapes-IsSound}
use market_sim.Cpu.Attention.{
  validate_attention_shapes, required_attention_workspace_floats, query_offset, key_offset,
  scratch_offset, valid_keys, kv_head_of,
}

-- An index vector of rank four in a shape: its row-major offset, which is an element's.
abbrev pub IsElement : Shape → List ℕ → ℕ → Type 0
IsElement s indices offset =
    (n : ℕ) × (checked_numel s ≡ success n)
    × (row_major_offset s indices ≡ success offset)
    × (offset < n)

IsElement-four :
    (s : Shape) (n i j k l : ℕ)
    → IsArray s
    → s.rank ≡ 4
    → checked_numel s ≡ success n
    → i < extent s 0
    → j < extent s 1
    → k < extent s 2
    → l < extent s 3
    → IsElement s
        (i ∷ j ∷ k ∷ l ∷ [])
        ((((i * extent s 1 + j) * extent s 2 + k) * extent s 3 + l) % 2 ^ 64)
IsElement-four s n i j k l a r h p q u v =
    let is = i ∷ j ∷ k ∷ l ∷ [] in
    let shape = ap (λ (m : ℕ). take m s.extents) r ∙ take_four s.extents a in
    let range = subst (λ (es : List ℕ). InRange es is) (sym shape) (p, (q, (u, (v, tt)))) in
    let (found, below) = row_major_offset_bound s is n a h range in
    let value = ap (λ (es : List ℕ). horner 0 es is) shape in
    let fits = checked_numel_fits s n h in
    let same : horner 0 (take s.rank s.extents) is
        ≡ (((i * extent s 1 + j) * extent s 2 + k) * extent s 3 + l) % 2 ^ 64 =
      omega (arith, value, below, fits) in
    (n, h, found ∙ ap success same, omega (arith, same, below))

kv_head_lem : (heads kv h : ℕ) → 0 < kv → heads % kv ≡ 0 → h < heads → h / (heads / kv) < kv
kv_head_lem heads kv h p e q =
    let whole = div-add-mod' heads kv in
    let groups : 0 < heads / kv = grind arith in
    (div-lt_iff_lt-mul {k = heads / kv} {x = h} {y = kv} groups).1 (grind arith)

scratch_lem :
    (batch tokens heads maximum b t h required : ℕ)
    → product (batch ∷ tokens ∷ heads ∷ maximum ∷ []) ≡ success required
    → b < batch
    → t < tokens
    → h < heads
    → 0 < maximum
    → (((b * tokens + t) * heads + h) * maximum) % 2 ^ 64 + maximum ≤ required
unfolding product
scratch_lem batch tokens heads maximum b t h required e p q u v =
    let es = batch ∷ tokens ∷ heads ∷ maximum ∷ [] in
    let is = b ∷ t ∷ h ∷ (maximum - 1) ∷ [] in
    let (whole, fits) = numel_from_lem 1 es required (omega arith) e in
    let (_, below) =
      offset_from_lem 0 0 es is (p, (q, (u, (omega arith, tt)))) (omega (arith, whole, fits)) in
    let inside : ((b * tokens + t) * heads + h) * maximum + (maximum - 1) < required =
      omega (arith, whole, below) in
    omega (arith, inside, fits)

valid_keys_lem :
    (context tokens token j : ℕ)
    → context ≤ u32_max
    → tokens ≤ context
    → token < tokens
    → j < valid_keys context tokens token
    → j < context
unfolding valid_keys
valid_keys_lem context tokens token j c p q h = omega arith

-- After the checks, at every step of the loops, what attention_impl reads of a query and writes of the
-- output, and what it reads of a key and a value, are elements of those tensors at the row-major offsets
-- of the loop's indices, and the logits of a query, as many as the cache has places, lie in the
-- workspace that is asked for.
pub attention_impl-IsElement :
    (query key_cache value_cache output : TensorView) (contexts : List ℕ)
    (required context batch_index token query_head key_token dimension : ℕ)
    → IsArray query.shape
    → IsArray key_cache.shape
    → validate_attention_shapes query key_cache value_cache output contexts ≡ status_success
    → required_attention_workspace_floats query key_cache ≡ success required
    → batch_index < extent query.shape 0
    → token < extent query.shape 1
    → query_head < extent query.shape 2
    → dimension < extent query.shape 3
    → get_elem? contexts batch_index ≡ some context
    → context ≤ u32_max
    → key_token < valid_keys context (extent query.shape 1) token
    → IsElement query.shape
        (batch_index ∷ token ∷ query_head ∷ dimension ∷ [])
        (query_offset query.shape batch_index token query_head dimension)
      × IsElement output.shape
          (batch_index ∷ token ∷ query_head ∷ dimension ∷ [])
          (query_offset query.shape batch_index token query_head dimension)
      × IsElement key_cache.shape
          (batch_index
            ∷ key_token
            ∷ kv_head_of query.shape key_cache.shape query_head
            ∷ dimension
            ∷ [])
          (key_offset key_cache.shape batch_index key_token
            (kv_head_of query.shape key_cache.shape query_head)
            dimension)
      × IsElement value_cache.shape
          (batch_index
            ∷ key_token
            ∷ kv_head_of query.shape key_cache.shape query_head
            ∷ dimension
            ∷ [])
          (key_offset key_cache.shape batch_index key_token
            (kv_head_of query.shape key_cache.shape query_head)
            dimension)
      × (key_token < extent key_cache.shape 1)
      × (scratch_offset query.shape key_cache.shape batch_index token query_head
            + extent key_cache.shape 1
          ≤ required)
unfolding query_offset key_offset scratch_offset kv_head_of required_attention_workspace_floats
attention_impl-IsElement q k v o cs required context b t h j d qa ka valid asked in_batch in_tokens
      in_heads in_width found small in_keys =
    let sound = validate_attention_shapes-IsSound q k v o cs valid in
    let (n, counted) = sound.query_counts in
    let (m, key_counted) = sound.key_counts in
    let (from, to) = sound.contexts_fit b context found in
    let seen = valid_keys_lem context (extent q.shape 1) t j small from in_tokens in_keys in
    let head =
      kv_head_lem (extent q.shape 2) (extent k.shape 2) h sound.kv_positive sound.grouped
        in_heads in
    let read =
      IsElement-four q.shape n b t h d qa sound.query_rank counted in_batch in_tokens in_heads
        in_width in
    let cached =
      IsElement-four k.shape m b j (h / (extent q.shape 2 / extent k.shape 2)) d ka sound.key_rank
        key_counted (omega (arith, sound.same_batch)) (omega arith) head
        (omega (arith, sound.same_width)) in
    (
      read,
      subst (λ (s : Shape). IsElement s (b ∷ t ∷ h ∷ d ∷ []) (query_offset q.shape b t h d))
          (sym sound.same_output) read,
      cached,
      subst
          (λ (s : Shape).
            IsElement s (b ∷ j ∷ kv_head_of q.shape k.shape h ∷ d ∷ [])
              (key_offset k.shape b j (kv_head_of q.shape k.shape h) d))
          (sym sound.same_cache) cached,
      omega arith,
      scratch_lem (extent q.shape 0) (extent q.shape 1) (extent q.shape 2) (extent k.shape 1) b t h
          required
          (if_fails-success (not (q.shape.rank == 4) || not (k.shape.rank == 4)) invalid_shape _
            asked).1
          in_batch in_tokens in_heads (omega arith),
    )
