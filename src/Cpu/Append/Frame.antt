-- ===== src/Cpu/Append/Frame.antt =====
-- What `append_kv_f32` of src/cpu/operators.cpp leaves as it is.
use market_sim.Prelude.{
  ℕ, zero, suc, ◌+◌, ◌*◌, ◌%◌, ◌^◌, ◌≤◌, ◌<◌, ◌≡◌, ◌⊎◌, refl, Bool, true, false, not, ◌&&◌, List,
  Option, none, some, arith, ltb, leb, both_branches, subst₂, sym, ◌∙◌,
}
use market_sim.Core.Status.{Status, success, is_ok}
use market_sim.Core.CheckedMath.{u64_max}
use market_sim.Core.Shape.{IsArray, checked_nbytes}
use market_sim.Core.TensorView.{TensorView}
use market_sim.Cpu.Views.{extent}
use market_sim.Cpu.Views.Overlap.{Holds}
use market_sim.Cpu.Views.Guards.{four_counts}
use market_sim.Cpu.Append.Ready.{IsReady, IsApart, append_status-IsReady}
use market_sim.Cpu.Append.{
  CpuKvView, Memory, memcpy, append_status, token_width, source_offset, destination_offset,
  copy_token, copy_found, append_token, append_tokens, append_batches, append_kv_f32,
}

memcpy_frame :
    (destination source bytes : ℕ) (m : Memory) (x : ℕ)
    → ¬ ((destination ≤ x) × (x < destination + bytes))
    → memcpy destination source bytes m x ≡ m x
unfolding memcpy
memcpy_frame destination source bytes m x out =
    both_branches (λ (v : ℕ). v ≡ m x) (leb destination x && ltb x (destination + bytes)) _ _
      (λ h. absurd (out (ground arith, ground arith))) (λ _. refl)

-- A place in the cache ends within it.
row_lem :
    (batch maximum w n b p : ℕ)
    → batch * maximum * w ≡ n
    → b < batch
    → p < maximum
    → (b * maximum + p) * w + w ≤ n
row_lem batch maximum w n b p e q r =
    let rows : (b + 1) * maximum ≤ batch * maximum = grind arith in
    let row : b * maximum + p + 1 ≤ batch * maximum = omega arith in
    let scaled : (b * maximum + p + 1) * w ≤ batch * maximum * w = grind arith in
    omega (arith, scaled, e)

place_lem :
    (batch maximum heads width n b p : ℕ)
    → 1 * (batch * (maximum * (heads * (width * 1)))) ≡ n
    → n ≤ u64_max
    → b < batch
    → p < maximum
    → ((b * maximum + p) * (heads * width % 2 ^ 64)) % 2 ^ 64 + heads * width % 2 ^ 64 ≤ n
place_lem batch maximum heads width n b p e fits q r =
    let whole : batch * maximum * (heads * width) ≡ n = omega arith in
    let ends = row_lem batch maximum (heads * width) n b p whole q r in
    let small : heads * width % 2 ^ 64 ≡ heads * width = omega (arith, ends, fits) in
    rw small (omega (arith, ends, fits))

outside_lem :
    (view : TensorView) (n place w x : ℕ)
    → checked_nbytes view.shape view.dtype ≡ success (n * 4)
    → place + w ≤ n
    → ¬ Holds view x
    → ¬ ((view.address + 4 * place ≤ x) × (x < view.address + 4 * place + w * 4 % 2 ^ 64))
outside_lem view n place w x sized ends out (from, below) =
    out (n * 4, sized, omega arith, omega arith)

copy_token_frame :
    (key value : TensorView) (positions : List ℕ) (cache : CpuKvView) (b t position : ℕ)
    (m : Memory) (x : ℕ)
    → IsArray cache.key.shape
    → IsReady key value positions cache
    → b < extent key.shape 0
    → position < extent cache.key.shape 1
    → ¬ Holds cache.key x
    → ¬ Holds cache.value x
    → copy_token key value positions cache b t position m x ≡ m x
unfolding copy_token destination_offset source_offset
copy_token_frame key value positions cache b t position m x a ready p q out out' =
    let (whole, fits) = four_counts cache.key.shape ready.n a ready.rank ready.counted in
    let inside =
      place_lem (extent cache.key.shape 0) (extent cache.key.shape 1) (extent cache.key.shape 2)
        (extent cache.key.shape 3) ready.n b position whole fits (omega (arith, ready.batches)) q in
    let ends =
      subst₂
        (λ (h d : ℕ).
          ((b * extent cache.key.shape 1 + position) * (h * d % 2 ^ 64)) % 2 ^ 64 + h * d % 2 ^ 64
          ≤ ready.n)
        (sym ready.heads) (sym ready.width) inside in
    let to = 4 * destination_offset key value positions cache b position in
    let from = 4 * source_offset key value positions cache b t in
    let bytes = token_width key value positions cache * 4 % 2 ^ 64 in
    let keyed = memcpy (cache.key.address + to) (key.address + from) bytes m in
    memcpy_frame (cache.value.address + to) (value.address + from) bytes keyed x
      (outside_lem cache.value ready.n _ _ x ready.value_sized ends out')
    ∙ memcpy_frame (cache.key.address + to) (key.address + from) bytes m x
        (outside_lem cache.key ready.n _ _ x ready.key_sized ends out)

copy_found_frame :
    (key value : TensorView) (positions : List ℕ) (cache : CpuKvView) (b t : ℕ) (found : Option ℕ)
    (m : Memory) (x : ℕ)
    → IsArray cache.key.shape
    → IsReady key value positions cache
    → b < extent key.shape 0
    → ((position : ℕ) → found ≡ some position → position < extent cache.key.shape 1)
    → ¬ Holds cache.key x
    → ¬ Holds cache.value x
    → copy_found key value positions cache b t found m x ≡ m x
unfolding copy_found
copy_found_frame key value positions cache b t none m x a ready p q out out' = refl
copy_found_frame key value positions cache b t (some position) m x a ready p q out out' =
    copy_token_frame key value positions cache b t position m x a ready p (q position refl) out out'

append_tokens_frame :
    (key value : TensorView) (positions : List ℕ) (cache : CpuKvView) (rounds b t : ℕ) (m : Memory)
    (x : ℕ)
    → IsArray cache.key.shape
    → IsReady key value positions cache
    → b < extent key.shape 0
    → ¬ Holds cache.key x
    → ¬ Holds cache.value x
    → append_tokens key value positions cache rounds b t m x ≡ m x
unfolding append_tokens append_token
append_tokens_frame key value positions cache zero b t m x a ready p out out' = refl
append_tokens_frame key value positions cache (suc rounds) b t m x a ready p out out' =
    append_tokens_frame key value positions cache rounds b (t + 1) _ x a ready p out out'
    ∙ copy_found_frame key value positions cache b t _ m x a ready p (ready.placed _) out out'

append_batches_frame :
    (key value : TensorView) (positions : List ℕ) (cache : CpuKvView) (rounds b : ℕ) (m : Memory)
    (x : ℕ)
    → IsArray cache.key.shape
    → IsReady key value positions cache
    → b + rounds ≤ extent key.shape 0
    → ¬ Holds cache.key x
    → ¬ Holds cache.value x
    → append_batches key value positions cache rounds b m x ≡ m x
unfolding append_batches
append_batches_frame key value positions cache zero b m x a ready p out out' = refl
append_batches_frame key value positions cache (suc rounds) b m x a ready p out out' =
    append_batches_frame key value positions cache rounds (b + 1) _ x a ready (omega arith) out out'
    ∙ append_tokens_frame key value positions cache (extent key.shape 1) b 0 m x a ready
        (omega arith) out out'

not-false : (b : Bool) → not b ≡ false → b ≡ true
not-false true h = refl
not-false false h = cc

-- What a memory and a memory after a call have in common.
abbrev pub KeepsAllBut : TensorView → TensorView → CpuKvView → Memory → Memory → Type 0
KeepsAllBut key value cache m m' =
    ((x : ℕ) → ¬ Holds cache.key x → ¬ Holds cache.value x → m' x ≡ m x)
    × ((x : ℕ) → Holds key x ⊎ Holds value x → m' x ≡ m x)

-- A call of append_kv_f32, successful or not, writes no byte outside the two tensors of the cache, and
-- leaves the bytes of the keys and values that it is given as they are.
pub append_kv_f32-KeepsAllBut :
    (key value : TensorView) (positions : List ℕ) (cache : CpuKvView) (m : Memory)
    → IsArray cache.key.shape
    → KeepsAllBut key value cache m (append_kv_f32 key value positions cache m).0
unfolding append_kv_f32 IsApart
append_kv_f32-KeepsAllBut key value positions cache m a =
    both_branches (λ (r : Memory × Status). KeepsAllBut key value cache m r.0)
      (not (is_ok (append_status key value positions cache))) _ _
      (λ _. (λ x out out'. refl, λ x held. refl))
      λ e.
        let (ready, apart) = append_status-IsReady key value positions cache (not-false _ e) in
        let frame : (x : ℕ)
            → ¬ Holds cache.key x
            → ¬ Holds cache.value x
            → append_batches key value positions cache (extent key.shape 0) 0 m x ≡ m x =
          λ x.
            append_batches_frame key value positions cache (extent key.shape 0) 0 m x a ready
              (omega arith) in
        (frame, λ x held. let (out, out') = apart x held in frame x out out')
