-- ===== src/Model/Text/Ahead.antt =====
-- How far the scanning functions of src/model/json_parser.cpp go ahead, and the positions that their
-- failures name.
pub mod Numbers
pub mod Strings
use market_sim.Prelude.{
  ℕ, zero, suc, ◌+◌, ◌≤◌, ◌≡◌, inl, inr, refl, Bool, true, not, List, [], ◌∷◌, ◌++◌, length, take,
  Option, some, none, arith, Bool-cases, Option-cases, length-drop, length-take, if◌then◌else◌, ltb,
  ◌==◌, ◌||◌, both_branches, subst, ap,
}
use market_sim.Model.Utf8.{between}
use market_sim.Core.Status.{
  fails, status_failure, ErrorCode, invalid_json, Result, success, failure, ◌>>=◌,
}
use market_sim.Model.Text.{
  Cursor, Scanner, string_round, at, move, head_passes, starts, failure_at, fail, skip_while,
  skip_whitespace, consume, same_bytes, consume_literal, skip_digits, number_unsigned,
  number_integer, some_digits, number_fraction, number_exponent, parse_number, hex_digits,
  parse_hex_quad, low_surrogate, unicode_escape, surrogate_pair, append_code_point, escape_at,
  escape_step, string_step, string_rounds, parse_string, StringStep, finished, refused, appended,
  is_digit,
}

-- The whole input's size, at any position in it.
abbrev pub size : Cursor → ℕ
size c = c.position + length c.rest

-- From a cursor to another of the same input, `n` bytes or more ahead.
abbrev pub Ahead : ℕ → Cursor → Cursor → Type 0
Ahead n c d = (c.position + n ≤ d.position) × (size d ≡ size c)

-- What a result promises: of its value, or a position in the input where it is a failure.
abbrev pub Settled {ℓ} : {A : Type ℓ} → (A → Type 0) → ℕ → Result A → Type 0
Settled P n (success a) = P a
Settled P n (failure s) = s.detail ≤ n

-- A scan goes ahead, or it fails with a position inside the input.
abbrev pub Scans {ℓ} : {A : Type ℓ} → ℕ → Cursor → Result (A × Cursor) → Type 0
Scans n c r = Settled (λ r. Ahead n c r.1) (size c) r

abbrev Moves : ℕ → Cursor → Result Cursor → Type 0
Moves n c r = Settled (λ d. Ahead n c d) (size c) r

abbrev Steps : Cursor → StringStep → Type 0
Steps c (finished d) = Ahead 1 c d
Steps c (refused s) = s.detail ≤ size c
Steps c (appended bytes d) = Ahead 1 c d

module _ {ℓ κ} {A : Type ℓ} {B : Type κ} (P : A → Type 0) (Q : B → Type 0) where
  Settled-bind :
      (n : ℕ) (m : Result A) (f : A → Result B)
      → Settled P n m
      → ((a : A) → P a → Settled Q n (f a))
      → Settled Q n (m >>= f)
  Settled-bind n (success a) f h g = g a h
  Settled-bind n (failure s) f h g = h

Settled-map {ℓ} :
    {A : Type ℓ} (P Q : A → Type 0) (n m : ℕ) (r : Result A)
    → Settled P n r
    → n ≤ m
    → ((a : A) → P a → Q a)
    → Settled Q m r
Settled-map P Q n m (success a) h e g = g a h
Settled-map P Q n m (failure s) h e g = omega arith

pub Ahead-trans : (c d e : Cursor) (n k m : ℕ) → Ahead n c d → Ahead k d e → m ≤ n + k → Ahead m c e
Ahead-trans c d e n k m h g le = (omega arith, omega arith)

Ahead-move : (n : ℕ) (c : Cursor) → n ≤ length c.rest → Ahead n c (move n c)
Ahead-move n c h = (omega arith, omega (arith, length-drop n c.rest))

head_passes-length : (test : ℕ → Bool) (xs : List ℕ) → head_passes test xs ≡ true → 1 ≤ length xs
head_passes-length test [] h = cc
head_passes-length test (x ∷ xs) h = omega arith

skip_while-Ahead :
    (test : ℕ → Bool) (p : ℕ) (xs : List ℕ) → Ahead 0 (at p xs) (skip_while test p xs)
unfolding skip_while
skip_while-Ahead test p [] = (omega arith, refl)
skip_while-Ahead test p (x ∷ xs) = elim (Bool-cases (test x)) [
  | inl e ↦
      let below = skip_while-Ahead test (p + 1) xs in
      rw e (omega (arith, below.0), omega (arith, below.1))
  | inr e ↦ rw e (omega arith, refl)
]

pub skip_whitespace-Ahead : (c : Cursor) → Ahead 0 c (skip_whitespace c)
unfolding skip_whitespace
skip_whitespace-Ahead c = skip_while-Ahead _ c.position c.rest

skip_digits-Ahead : (c : Cursor) → Ahead 0 c (skip_digits c)
unfolding skip_digits
skip_digits-Ahead c = skip_while-Ahead _ c.position c.rest

pub consume-Ahead : (byte : ℕ) (c : Cursor) → Ahead 0 c (consume byte c).1
unfolding consume
consume-Ahead byte c =
    let s = skip_whitespace c in
    let skipped = skip_whitespace-Ahead c in
    elim (Bool-cases (starts byte s)) [
      | inl e ↦ rw e (
          Ahead-trans c s _ 0 1 0 skipped
            (Ahead-move 1 s (head_passes-length (λ x. x == byte) s.rest e)) (omega arith))
      | inr e ↦ rw e skipped
    ]

pub consumed-Ahead :
    (byte : ℕ) (c : Cursor) → (consume byte c).0 ≡ true → Ahead 1 c (consume byte c).1
unfolding consume
consumed-Ahead byte c h =
    let s = skip_whitespace c in
    elim (Bool-cases (starts byte s)) [
      | inl e ↦ rw e (
          Ahead-trans c s _ 0 1 1 (skip_whitespace-Ahead c)
            (Ahead-move 1 s (head_passes-length (λ x. x == byte) s.rest e)) (omega arith))
      | inr e ↦ absurd (cc)
    ]

same_bytes-length : (xs ys : List ℕ) → same_bytes xs ys ≡ true → length xs ≡ length ys
unfolding same_bytes
same_bytes-length [] [] h = refl
same_bytes-length [] (y ∷ ys) h = cc
same_bytes-length (x ∷ xs) [] h = cc
same_bytes-length (x ∷ xs) (y ∷ ys) h = ap suc (same_bytes-length xs ys (ground arith))

pub consume_literal-Ahead :
    (literal : List ℕ) (c : Cursor)
    → (consume_literal literal c).0 ≡ true
    → Ahead (length literal) c (consume_literal literal c).1
unfolding consume_literal
consume_literal-Ahead literal c h =
    elim (Bool-cases (same_bytes (take (length literal) c.rest) literal)) [
      | inl e ↦ rw e (
          Ahead-move (length literal) c
            (omega (arith, same_bytes-length _ literal e, length-take (length literal) c.rest)))
      | inr e ↦ absurd (cc)
    ]

pub consume_literal_any-Ahead :
    (literal : List ℕ) (c : Cursor) → Ahead 0 c (consume_literal literal c).1
unfolding consume_literal
consume_literal_any-Ahead literal c =
    elim (Bool-cases (same_bytes (take (length literal) c.rest) literal)) [
      | inl e ↦ rw e (
          Ahead-trans c _ _ (length literal) 0 0
            (Ahead-move (length literal) c
              (omega (arith, same_bytes-length _ literal e, length-take (length literal) c.rest)))
            (omega arith, refl) (omega arith))
      | inr e ↦ rw e (omega arith, refl)
    ]

pub failure_at-detail : (code : ErrorCode) (c : Cursor) → (failure_at code c).detail ≤ size c
unfolding failure_at
failure_at-detail code c = omega arith

-- A move from a cursor further ahead.
Moves-behind :
    (n k m : ℕ) (c d : Cursor) (r : Result Cursor)
    → Ahead n c d
    → Moves k d r
    → m ≤ n + k
    → Moves m c r
Moves-behind n k m c d r a h le =
    Settled-map (λ e. Ahead k d e) (λ e. Ahead m c e) (size d) (size c) r h (omega (arith, a.1))
      λ e b. Ahead-trans c d e n k m a b le

fail-Moves : (code : ErrorCode) (n : ℕ) (c d : Cursor) → Ahead 0 c d → Moves n c (fail code d)
unfolding fail
fail-Moves code n c d a = omega (arith, a.1, failure_at-detail code d)

starts-Ahead :
    (test : ℕ → Bool) (c : Cursor) → head_passes test c.rest ≡ true → Ahead 1 c (move 1 c)
starts-Ahead test c e = Ahead-move 1 c (head_passes-length test c.rest e)

Ahead-refl : (c : Cursor) → Ahead 0 c c
Ahead-refl c = (omega arith, refl)
