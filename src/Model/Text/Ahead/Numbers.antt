-- ===== src/Model/Text/Ahead/Numbers.antt =====
-- How far the scanner of src/model/json_parser.cpp goes ahead in a number.
use market_sim.Prelude.{
  ℕ, ◌+◌, ◌≤◌, ◌≡◌, Bool, true, List, [], ◌∷◌, length, arith, if◌then◌else◌, ◌==◌, ◌||◌,
  both_branches,
}
use market_sim.Model.Utf8.{between}
use market_sim.Core.Status.{invalid_json, success}
use market_sim.Model.Text.{
  Cursor, at, move, head_passes, starts, fail, skip_while, skip_digits, number_unsigned,
  number_integer, some_digits, number_fraction, number_exponent, parse_number, is_digit,
}
use market_sim.Model.Text.Ahead.{
  Ahead, Ahead-move, Ahead-refl, Ahead-trans, Moves, Moves-behind, Scans, fail-Moves, size,
  skip_digits-Ahead, skip_while-Ahead, starts-Ahead, Settled-bind,
}

sign-Ahead :
    (test : Bool) (c : Cursor)
    → (test ≡ true → Ahead 1 c (move 1 c))
    → Ahead 0 c (if test then move 1 c else c)
sign-Ahead test c h =
    both_branches (λ d. Ahead 0 c d) test (move 1 c) c
      (λ e. Ahead-trans c _ _ 1 0 0 (h e) (Ahead-refl _) (omega arith)) (λ e. Ahead-refl c)

some_digits-Moves : (c : Cursor) → Moves 1 c (some_digits c)
unfolding some_digits
some_digits-Moves c =
    let stop = skip_digits c in
    let a = skip_digits-Ahead c in
    both_branches (λ r. Moves 1 c r) (c.position == stop.position) (fail invalid_json stop)
      (success stop) (λ e. fail-Moves invalid_json 1 c stop a) (λ e. (ground (arith, a.0), a.1))

skip_while_some :
    (p : ℕ) (xs : List ℕ)
    → head_passes (λ x. between 49 57 x) xs ≡ true
    → Ahead 1 (at p xs) (skip_while is_digit p xs)
unfolding skip_while
skip_while_some p [] e = cc
skip_while_some p (x ∷ xs) e =
    let digit : is_digit x ≡ true = ground arith in
    let b = skip_while-Ahead is_digit (p + 1) xs in
    rw digit (omega (arith, b.0), omega (arith, b.1))

skip_digits_some :
    (c : Cursor) → head_passes (λ x. between 49 57 x) c.rest ≡ true → Ahead 1 c (skip_digits c)
unfolding skip_digits
skip_digits_some c = skip_while_some c.position c.rest

number_unsigned-Moves : (c : Cursor) → Moves 1 c (number_unsigned c)
unfolding number_unsigned
number_unsigned-Moves c =
    both_branches (λ r. Moves 1 c r) (starts 48 c) _ _
      (λ e.
        both_branches (λ r. Moves 1 c r) (head_passes is_digit (move 1 c).rest)
          (fail invalid_json (move 1 c)) (success (move 1 c))
          (λ f.
            fail-Moves invalid_json 1 c _
              (Ahead-trans c _ _ 1 0 0 (starts-Ahead _ c e) (Ahead-refl _) (omega arith)))
          (λ f. starts-Ahead _ c e))
      (λ e.
        both_branches (λ r. Moves 1 c r) (head_passes (λ x. between 49 57 x) c.rest)
          (success (skip_digits c)) (fail invalid_json c) (skip_digits_some c)
          (λ f. fail-Moves invalid_json 1 c c (Ahead-refl c)))

number_integer-Moves : (c : Cursor) → Moves 1 c (number_integer c)
unfolding number_integer
number_integer-Moves c =
    let signed = if starts 45 c then move 1 c else c in
    Moves-behind 0 1 1 c signed _ (sign-Ahead (starts 45 c) c (starts-Ahead _ c))
      (number_unsigned-Moves signed) (omega arith)

either-length :
    (p q : ℕ → Bool) (xs : List ℕ) → (head_passes p xs || head_passes q xs) ≡ true → 1 ≤ length xs
either-length p q [] h = cc
either-length p q (x ∷ xs) h = omega arith

number_fraction-Moves : (c : Cursor) → Moves 0 c (number_fraction c)
unfolding number_fraction
number_fraction-Moves c =
    both_branches (λ r. Moves 0 c r) (starts 46 c) (some_digits (move 1 c)) (success c)
      (λ e.
        Moves-behind 1 1 0 c (move 1 c) _ (starts-Ahead _ c e) (some_digits-Moves (move 1 c))
          (omega arith))
      (λ e. Ahead-refl c)

number_exponent-Moves : (c : Cursor) → Moves 0 c (number_exponent c)
unfolding number_exponent
number_exponent-Moves c =
    let unsigned = move 1 c in
    let signed = starts 43 unsigned || starts 45 unsigned in
    let digits = if signed then move 1 unsigned else unsigned in
    both_branches (λ r. Moves 0 c r) (starts 101 c || starts 69 c) (some_digits digits) (success c)
      (λ e.
        Moves-behind 1 1 0 c unsigned _ (Ahead-move 1 c (either-length _ _ c.rest e))
          (Moves-behind 0 1 1 unsigned digits _
            (sign-Ahead signed unsigned
              (λ f. Ahead-move 1 unsigned (either-length _ _ unsigned.rest f)))
            (some_digits-Moves digits) (omega arith))
          (omega arith))
      (λ e. Ahead-refl c)

pub parse_number-Scans : (c : Cursor) → Scans 1 c (parse_number c)
unfolding parse_number
parse_number-Scans c =
    Settled-bind (Ahead 1 c) _ (size c) (number_integer c) _ (number_integer-Moves c) λ d a.
      Settled-bind (Ahead 1 c) _ (size c) (number_fraction d) _
        (Moves-behind 1 0 1 c d _ a (number_fraction-Moves d) (omega arith))
        λ e b.
          Settled-bind (Ahead 1 c) _ (size c) (number_exponent e) _
            (Moves-behind 1 0 1 c e _ b (number_exponent-Moves e) (omega arith)) λ f h. h
