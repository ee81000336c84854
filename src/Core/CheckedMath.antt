-- ===== src/Core/CheckedMath.antt =====
-- include/marketforge/core/checked_math.hpp: additions and products of uint64 that detect a wrap.
use native.Mathlib.Nat.{div-lt_iff_lt-mul}
use market_sim.Prelude.{
  ℕ, zero, suc, ◌+◌, ◌-◌, ◌*◌, ◌/◌, ◌≤◌, ◌≡◌, ◌&&◌, not, arith, ltb, ◌==◌, if◌then◌else◌,
}
use market_sim.Core.Status.{Result, success, fails, arithmetic_overflow}

abbrev pub u32_max : ℕ
u32_max = 4294967295

abbrev pub u64_max : ℕ
u64_max = 18446744073709551615

abbrev pub overflow {ℓ} : {A : Type ℓ} → Result A
overflow = fails arithmetic_overflow

unfoldable pub checked_add : ℕ → ℕ → Result ℕ
checked_add lhs rhs = if ltb (u64_max - lhs) rhs then overflow else success (lhs + rhs)

unfoldable pub checked_multiply : ℕ → ℕ → Result ℕ
checked_multiply lhs rhs =
    if not (lhs == 0) && ltb (u64_max / lhs) rhs then overflow else success (lhs * rhs)

-- An independent description: the exact value where it fits 64 bits, and the error where not.
abbrev pub fits_u64 : ℕ → Result ℕ
fits_u64 n = if ltb u64_max n then overflow else success n

-- The sum of two uint64 is returned exactly when it fits, and the error otherwise.
pub checked_add_lem : (a b : ℕ) → a ≤ u64_max → checked_add a b ≡ fits_u64 (a + b)
unfolding checked_add
checked_add_lem a b h = ground arith

-- The product of two uint64 is returned exactly when it fits 64 bits, and the error otherwise.
pub checked_multiply_lem : (a b : ℕ) → checked_multiply a b ≡ fits_u64 (a * b)
unfolding checked_multiply
checked_multiply_lem zero b = ground arith
checked_multiply_lem (suc a) b =
    ground (arith, div-lt_iff_lt-mul {k = suc a} {x = u64_max} {y = b} (omega arith))

pub checked_multiply_fits : (a b : ℕ) → a * b ≤ u64_max → checked_multiply a b ≡ success (a * b)
checked_multiply_fits a b h = rw (checked_multiply_lem a b) (ground arith)

pub checked_add_fits : (a b : ℕ) → a + b ≤ u64_max → checked_add a b ≡ success (a + b)
checked_add_fits a b h = rw (checked_add_lem a b (omega arith)) (ground arith)

pub checked_multiply_exact :
    (a b n : ℕ) → checked_multiply a b ≡ success n → (n ≡ a * b) × (n ≤ u64_max)
checked_multiply_exact a b n h = ground (arith, checked_multiply_lem a b)
