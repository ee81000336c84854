-- ===== src/Core/TensorView.antt =====
-- include/marketforge/core/tensor_view.hpp. The two views differ in whether their memory may be
-- written; here one record has both. A pointer is an address, and the null pointer is 0.
use market_sim.Prelude.{
  ℕ, ◌/◌, ◌≡◌, true, false, not, ◌&&◌, refl, List, [], ◌∷◌, take, arith, ltb, ◌==◌, if◌then◌else◌,
  both_branches,
}
use market_sim.Core.Status.{
  Status, Result, success, failure, status_success, status_failure, is_ok, invalid_argument, ◌>>=◌,
}
use market_sim.Core.Shape.{
  Shape, DType, f32, f16, bf16, i8, i32, u32, checked_nbytes, checked_numel, validate_shape,
  numel_from, dtype_size,
}
use market_sim.Core.CheckedMath.{checked_multiply, u64_max}

pub data MemoryKind : Type 0 where
  host device : MemoryKind

pub record TensorView : Type 0 where
  pub address : ℕ  -- the field `data`
  pub shape : Shape
  pub dtype : DType
  pub memory : MemoryKind

-- What the checks of a view's size and its pointer say.
unfoldable data_status : ℕ → Result ℕ → Status
data_status address (failure s) = s
data_status address (success bytes) =
    if not (bytes == 0) && address == 0 then status_failure invalid_argument else status_success

unfoldable pub validate_tensor_view : TensorView → Status
unfolding data_status checked_nbytes
validate_tensor_view view = data_status view.address (checked_nbytes view.shape view.dtype)

-- A failure has a status that is not ok.
abbrev pub Fails {ℓ} : {A : Type ℓ} → Result A → Type 0
Fails (success _) = Unit
Fails (failure s) = is_ok s ≡ false

pub Fails-bind {ℓ κ} :
    {A : Type ℓ} {B : Type κ} (m : Result A) (f : A → Result B)
    → Fails m
    → ((a : A) → Fails (f a))
    → Fails (m >>= f)
Fails-bind (success a) f h k = k a
Fails-bind (failure s) f h k = h

checked_multiply-Fails : (a b : ℕ) → Fails (checked_multiply a b)
unfolding checked_multiply
checked_multiply-Fails a b =
    both_branches Fails (not (a == 0) && ltb (u64_max / a) b) _ _ (λ _. refl) (λ _. tt)

numel_from-Fails : (elements : ℕ) (es : List ℕ) → Fails (numel_from elements es)
unfolding numel_from
numel_from-Fails elements [] = tt
numel_from-Fails elements (e ∷ es) =
    Fails-bind (checked_multiply elements e) _ (checked_multiply-Fails elements e)
      λ product. numel_from-Fails product es

checked_numel-Fails : (s : Shape) → Fails (checked_numel s)
unfolding checked_numel
checked_numel-Fails s =
    both_branches Fails (not (is_ok (validate_shape s))) _ _ (λ bad. ground arith)
      (λ _. numel_from-Fails 1 (take s.rank s.extents))

dtype_size-Fails : (d : DType) → Fails (dtype_size d)
unfolding dtype_size
dtype_size-Fails f32 = tt
dtype_size-Fails f16 = tt
dtype_size-Fails bf16 = tt
dtype_size-Fails i8 = tt
dtype_size-Fails i32 = tt
dtype_size-Fails u32 = tt

pub checked_nbytes-Fails : (s : Shape) (d : DType) → Fails (checked_nbytes s d)
unfolding checked_nbytes
checked_nbytes-Fails s d =
    Fails-bind (checked_numel s) _ (checked_numel-Fails s)
      λ elements. Fails-bind (dtype_size d) _ (dtype_size-Fails d) (checked_multiply-Fails elements)

data_status-sized :
    (address : ℕ) (r : Result ℕ)
    → Fails r
    → is_ok (data_status address r) ≡ true
    → (n : ℕ) × (r ≡ success n)
unfolding data_status
data_status-sized address (success n) f h = (n, refl)
data_status-sized address (failure s) f h = cc

-- A valid view has a size.
pub validate_tensor_view_sized :
    (view : TensorView)
    → is_ok (validate_tensor_view view) ≡ true
    → (bytes : ℕ) × (checked_nbytes view.shape view.dtype ≡ success bytes)
unfolding validate_tensor_view
validate_tensor_view_sized view h =
    data_status-sized view.address (checked_nbytes view.shape view.dtype)
      (checked_nbytes-Fails view.shape view.dtype) h
