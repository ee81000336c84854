-- ===== src/Core/Status.antt =====
-- include/marketforge/core/status.hpp and include/marketforge/core/result.hpp.
use market_sim.Prelude.{ℕ, ◌≡◌, ◌⊎◌, inl, inr, refl, Bool, true, false, if◌then◌else◌}

pub data ErrorCode : Type 0 where
  ok invalid_argument unsupported_dtype invalid_shape invalid_model : ErrorCode
  arithmetic_overflow invalid_alignment allocation_failed insufficient_memory : ErrorCode
  insufficient_resources io_error invalid_format invalid_utf8 invalid_json : ErrorCode
  duplicate_key resource_limit truncated_data invalid_tensor missing_tensor : ErrorCode
  unexpected_tensor hash_mismatch cuda_backend_failure cuda_runtime_failure : ErrorCode

pub record Status : Type 0 where
  pub code : ErrorCode
  pub detail : ℕ  -- uint32

-- `Status::success` and `Status::failure`, whose second argument is 0 by default.
abbrev pub status_success : Status
status_success = record { code = ok; detail = 0 }

abbrev pub status_failure_at : ErrorCode → ℕ → Status
status_failure_at c d = record { code = c; detail = d }

abbrev pub status_failure : ErrorCode → Status
status_failure c = status_failure_at c 0

abbrev pub is_ok_code : ErrorCode → Bool
is_ok_code ok = true
is_ok_code _ = false

-- `Status::ok`.
abbrev pub is_ok : Status → Bool
is_ok s = is_ok_code s.code

-- `Result<T>`: a value, or the status of the failure.
pub data Result {ℓ} (A : Type ℓ) : Type ℓ where
  success : A → Result A
  failure : Status → Result A

abbrev pub has_value {ℓ} : {A : Type ℓ} → Result A → Bool
has_value (success _) = true
has_value (failure _) = false

-- `Result::status`.
abbrev pub status {ℓ} : {A : Type ℓ} → Result A → Status
status (success _) = status_success
status (failure s) = s

-- `Result<T>::failure(Status::failure(code))`.
abbrev pub fails {ℓ} : {A : Type ℓ} → ErrorCode → Result A
fails c = failure (status_failure c)

-- The source's `if (!r) return r.status();` before a use of `r.value()`.
infixl 5 ◌>>=◌
abbrev pub ◌>>=◌ {ℓ κ} : {A : Type ℓ} {B : Type κ} → Result A → (A → Result B) → Result B
success a >>= f = f a
failure s >>= f = failure s

-- How a `try` block ends: it runs through, or it throws one of the two exceptions that the
-- library's containers throw. An operation with such a block takes the outcome as an argument.
pub data Allocation : Type 0 where
  granted bad_alloc length_error : Allocation

-- The handlers that the operations share. What a block writes to the object's fields comes after
-- its last allocation, so a block that throws has changed nothing.
abbrev pub try_block {ℓ} : {A : Type ℓ} → Allocation → (ErrorCode → A) → A → A
try_block granted fail body = body
try_block bad_alloc fail body = fail allocation_failed
try_block length_error fail body = fail resource_limit

-- Inversion of a chain that succeeds.
pub >>=-eq-success {ℓ κ} :
    {A : Type ℓ} {B : Type κ} (m : Result A) (f : A → Result B) {b : B}
    → (m >>= f) ≡ success b
    → (a : A) × (m ≡ success a) × (f a ≡ success b)
>>=-eq-success (success a) f h = (a, refl, h)
>>=-eq-success (failure s) f h = cc

pub success-injective {ℓ} : {A : Type ℓ} {a b : A} → success a ≡ success b → a ≡ b
success-injective h = cc

-- To split on a computed result and keep the equation.
pub Result-cases {ℓ} :
    {A : Type ℓ} (r : Result A) → ((a : A) × (r ≡ success a)) ⊎ ((s : Status) × (r ≡ failure s))
Result-cases (success a) = inl (a, refl)
Result-cases (failure s) = inr (s, refl)

-- A block that throws leaves the state, so what holds before it and after it holds in each case.
pub try_block-keeps {ℓ κ μ} :
    {S : Type ℓ} {X : Type κ} (P : S → Type μ) (memory : Allocation) (fail : ErrorCode → X) (s : S)
    (body : S × X)
    → P s
    → P body.0
    → P (try_block memory (λ code. (s, fail code)) body).0
try_block-keeps P granted fail s body old new = new
try_block-keeps P bad_alloc fail s body old new = old
try_block-keeps P length_error fail s body old new = old

-- What holds of the value of a result that is a success.
abbrev pub Yields {ℓ} : {A : Type ℓ} → (A → Type 0) → Result A → Type 0
Yields P (success a) = P a
Yields P (failure s) = Unit

pub Yields-bind {ℓ κ} :
    {A : Type ℓ} {B : Type κ} (P : A → Type 0) (Q : B → Type 0) (m : Result A) (f : A → Result B)
    → Yields P m
    → ((a : A) → P a → Yields Q (f a))
    → Yields Q (m >>= f)
Yields-bind P Q (success a) f h g = g a h
Yields-bind P Q (failure s) f h g = tt

-- The value with the equation that gives it.
pub Yields-any {ℓ} : {A : Type ℓ} (m : Result A) → Yields (λ a. Unit) m
Yields-any (success a) = tt
Yields-any (failure s) = tt

-- A guard that returns early has not been taken where the result is a success.
pub if_fails-success {ℓ} :
    {A : Type ℓ} (test : Bool) (c : ErrorCode) (r : Result A) {a : A}
    → (if test then fails c else r) ≡ success a
    → (test ≡ false) × (r ≡ success a)
if_fails-success true c r h = cc
if_fails-success false c r h = (refl, h)

pub Yields-map {ℓ} :
    {A : Type ℓ} (P Q : A → Type 0) (m : Result A) → Yields P m → ((a : A) → P a → Q a) → Yields Q m
Yields-map P Q (success a) h f = f a h
Yields-map P Q (failure s) h f = tt
