-- ===== src/Model/Text/Written.antt =====
-- How the scanner of src/model/json_parser.cpp reads a string or an integer that is written for it.
use mathlib.Core.List.{append-nil, append_assoc}
use market_sim.Prelude.{
  ℕ, zero, suc, ◌+◌, ◌-◌, ◌*◌, ◌/◌, ◌%◌, ◌<◌, ◌≡◌, ◌⊎◌, inl, inr, refl, Bool, true, false, ◌||◌,
  List, [], ◌∷◌, ◌++◌, length, take, Option, some, none, arith, Bool-cases, both_branches, ltb,
  ◌==◌, if◌then◌else◌, ap, sym, ◌∙◌,
}
use market_sim.Prelude.Sort.{All}
use market_sim.Core.Status.{success, ◌>>=◌}
use market_sim.Model.Utf8.{between}
use market_sim.Model.Utf8.Encoding.{bytes_one}
use market_sim.Model.Text.{
  string_round, Cursor, at, head_passes, is_digit, skip_while, number_unsigned, number_integer,
  number_fraction, number_exponent, parse_number, string_step, string_rounds, parse_string,
  hex_digits, hex_value, is_hex, parse_hex_quad, unicode_escape, append_code_point, escape_step,
  simple_escape, StringStep, appended,
}

-- The bytes of a hexadecimal digit.
unfoldable pub hex_byte : ℕ → ℕ
hex_byte n = if ltb n 10 then 48 + n else 87 + n

-- A string's text, in front of what follows: the quotes, the backslashes and the control characters
-- are escaped.
unfoldable pub escape_onto : ℕ → List ℕ → List ℕ
unfolding hex_byte
escape_onto b behind =
    if b == 34
    then 92 ∷ 34 ∷ behind
    else if b == 92
    then 92 ∷ 92 ∷ behind
    else if ltb b 32
    then 92 ∷ 117 ∷ 48 ∷ 48 ∷ hex_byte (b / 16) ∷ hex_byte (b % 16) ∷ behind
    else b ∷ behind

unfoldable pub text_onto : List ℕ → List ℕ → List ℕ
unfolding escape_onto
text_onto [] behind = 34 ∷ behind
text_onto (b ∷ text) behind = escape_onto b (text_onto text behind)

hex_byte_lem : (n : ℕ) → n < 16 → (is_hex (hex_byte n) ≡ true) × (hex_value (hex_byte n) ≡ n)
unfolding hex_byte is_hex hex_value
hex_byte_lem n h = ground arith

hex_step :
    (n value x : ℕ) (behind : List ℕ)
    → is_hex x ≡ true
    → hex_digits (suc n) value (x ∷ behind) ≡ hex_digits n (value * 16 + hex_value x) behind
unfolding hex_digits
hex_step n value x behind e =
    ap
      (λ (t : Bool). elim t [
        | true ↦ hex_digits n (value * 16 + hex_value x) behind
        | false ↦ none
      ])
      e

-- The escape of a control character names it.
hex_digits_lem :
    (b : ℕ) (behind : List ℕ)
    → b < 32
    → hex_digits 4 0 (48 ∷ 48 ∷ hex_byte (b / 16) ∷ hex_byte (b % 16) ∷ behind) ≡ some b
unfolding hex_digits
hex_digits_lem b behind h =
    let (t, v) = hex_byte_lem (b / 16) (omega arith) in
    let (u, w) = hex_byte_lem (b % 16) (omega arith) in
    hex_step 1 0 (hex_byte (b / 16)) (hex_byte (b % 16) ∷ behind) t
    ∙ hex_step 0 _ (hex_byte (b % 16)) behind u
    ∙ ap (λ (n : ℕ). some n) (omega (arith, v, w))

parse_hex_quad_lem :
    (p b : ℕ) (behind : List ℕ)
    → b < 32
    → parse_hex_quad (at p (48 ∷ 48 ∷ hex_byte (b / 16) ∷ hex_byte (b % 16) ∷ behind))
      ≡ some (b, at (p + 4) behind)
unfolding parse_hex_quad
parse_hex_quad_lem p b behind h =
    let long : ltb (length (48 ∷ 48 ∷ hex_byte (b / 16) ∷ hex_byte (b % 16) ∷ behind)) 4 ≡ false =
      ground arith in
    rw long (
      ap (λ (o : Option ℕ). elim o [ none ↦ none | some value ↦ some (value, at (p + 4) behind) ])
        (hex_digits_lem b behind h))

unicode_escape_lem :
    (b : ℕ) (c : Cursor)
    → b < 32
    → append_code_point (unicode_escape (some (b, c))) ≡ appended (b ∷ []) c
unfolding unicode_escape append_code_point
unicode_escape_lem b c h =
    let low : between 55296 56319 b ≡ false = ground arith in
    let high : between 56320 57343 b ≡ false = ground arith in
    rw (low, high) (ap (λ (bs : List ℕ). appended bs c) (bytes_one b (omega arith)))

plain_step :
    (p b : ℕ) (behind : List ℕ)
    → (b == 34) ≡ false
    → (b == 92) ≡ false
    → ltb b 32 ≡ false
    → string_step (at p (b ∷ behind)) (b ∷ behind) ≡ appended (b ∷ []) (at (p + 1) behind)
unfolding string_step
plain_step p b behind e f g = rw (e, f, g) refl

string_step-escape_onto :
    (p b : ℕ) (behind : List ℕ)
    → (q : ℕ) × (string_step (at p (escape_onto b behind)) (escape_onto b behind)
        ≡ appended (b ∷ []) (at q behind))
unfolding escape_onto string_step escape_step simple_escape
string_step-escape_onto p b behind = elim (Bool-cases (b == 34)) [
  | inl e ↦ let same : b ≡ 34 = ground arith in rw same (p + 1 + 1, refl)
  | inr e ↦ elim (Bool-cases (b == 92)) [
    | inl f ↦ let same : b ≡ 92 = ground arith in rw same (p + 1 + 1, refl)
    | inr f ↦ elim (Bool-cases (ltb b 32)) [
      | inl g ↦
          rw (e, f, g)
            (
              p + 1 + 1 + 4,
              ap (λ (o : Option (ℕ × Cursor)). append_code_point (unicode_escape o))
                    (parse_hex_quad_lem (p + 1 + 1) b behind (ground arith))
                  ∙ unicode_escape_lem b _ (ground arith),
            )
      | inr g ↦ rw (e, f, g) (p + 1, plain_step p b behind e f g)
    ]
  ]
]

string_rounds-text_onto :
    (fuel p : ℕ) (output text behind : List ℕ)
    → length text < fuel
    → (q : ℕ) × (string_rounds fuel output (at p (text_onto text behind))
        ≡ success (output ++ text, at q behind))
unfolding string_rounds text_onto string_step
string_rounds-text_onto zero p output text behind h = absurd (omega arith)
string_rounds-text_onto (suc fuel) p output [] behind h =
    (p + 1, ap (λ (o : List ℕ). success (o, at (p + 1) behind)) (sym (append-nil output)))
string_rounds-text_onto (suc fuel) p output (b ∷ text) behind h =
    let (r, step) = string_step-escape_onto p b (text_onto text behind) in
    let (q, rest) = string_rounds-text_onto fuel r (output ++ b ∷ []) text behind (omega arith) in
    (
      q,
      ap (λ (s : StringStep). string_round (λ o d. string_rounds fuel o d) output s) step
          ∙ rest
          ∙ ap (λ (o : List ℕ). success (o, at q behind)) (append_assoc output (b ∷ []) text),
    )

pub length-text_onto :
    (text behind : List ℕ) → length text + length behind < length (text_onto text behind)
unfolding text_onto escape_onto
length-text_onto [] behind = omega arith
length-text_onto (b ∷ text) behind =
    let rest = length-text_onto text behind in
    both_branches (λ (bs : List ℕ). suc (length text) + length behind < length bs) (b == 34) _ _
      (λ _. omega arith)
      λ _.
        both_branches (λ (bs : List ℕ). suc (length text) + length behind < length bs) (b == 92) _ _
          (λ _. omega arith)
          λ _.
            both_branches (λ (bs : List ℕ). suc (length text) + length behind < length bs)
              (ltb b 32) _ _ (λ _. omega arith) (λ _. omega arith)

-- A string that is written with its escapes is read as it was.
pub parse_string-text_onto :
    (p : ℕ) (text behind : List ℕ)
    → (q : ℕ) × (parse_string (at p (34 ∷ text_onto text behind)) ≡ success (text, at q behind))
unfolding parse_string
parse_string-text_onto p text behind =
    string_rounds-text_onto (length (34 ∷ text_onto text behind)) (p + 1) [] text behind
      (omega (arith, length-text_onto text behind))

-- A number without a sign that is written without a leading zero.
abbrev pub IsUnsigned : List ℕ → Type 0
IsUnsigned [] = ⊥
IsUnsigned (d ∷ []) = is_digit d ≡ true
IsUnsigned (d ∷ ds) = (between 49 57 d ≡ true) × All (λ d. is_digit d ≡ true) ds

-- An integer: such a number, or the minus sign in front of one.
abbrev pub IsInteger : List ℕ → Type 0
IsInteger text = IsUnsigned text ⊎ ((ds : List ℕ) × (text ≡ 45 ∷ ds) × IsUnsigned ds)

-- A byte that goes on with a number.
abbrev pub continues : ℕ → Bool
continues x = is_digit x || x == 46 || x == 101 || x == 69

skip_while-All :
    (test : ℕ → Bool) (p : ℕ) (xs behind : List ℕ)
    → All (λ x. test x ≡ true) xs
    → head_passes test behind ≡ false
    → skip_while test p (xs ++ behind) ≡ at (p + length xs) behind
unfolding skip_while
skip_while-All test p [] [] a h = ap (λ (n : ℕ). at n []) (omega arith)
skip_while-All test p [] (y ∷ behind) a h = rw h (ap (λ (n : ℕ). at n (y ∷ behind)) (omega arith))
skip_while-All test p (x ∷ xs) behind a h =
    let end : p + 1 + length xs ≡ p + suc (length xs) = omega arith in
    rw (a.0) (skip_while-All test (p + 1) xs behind a.1 h ∙ ap (λ (n : ℕ). at n behind) end)

stops :
    (test : ℕ → Bool) (behind : List ℕ)
    → ((x : ℕ) → continues x ≡ false → test x ≡ false)
    → head_passes continues behind ≡ false
    → head_passes test behind ≡ false
stops test [] f h = refl
stops test (x ∷ behind) f h = f x h

number_unsigned-IsUnsigned :
    (p : ℕ) (text behind : List ℕ)
    → IsUnsigned text
    → head_passes continues behind ≡ false
    → number_unsigned (at p (text ++ behind)) ≡ success (at (p + length text) behind)
unfolding number_unsigned
number_unsigned-IsUnsigned p [] behind i h = absurd i
number_unsigned-IsUnsigned p (d ∷ []) behind i h =
    let stop = stops is_digit behind (λ x e. ground arith) h in
    elim (Bool-cases (d == 48)) [
      | inl e ↦ rw (e, stop) refl
      | inr e ↦
          let first : between 49 57 d ≡ true = ground arith in
          rw (e, first)
            (ap (λ (c : Cursor). success c)
              (skip_while-All is_digit p (d ∷ []) behind (i, tt) stop))
    ]
number_unsigned-IsUnsigned p (d ∷ e ∷ ds) behind i h =
    let stop = stops is_digit behind (λ x e. ground arith) h in
    let nonzero : d == 48 ≡ false = ground arith in
    let digit : is_digit d ≡ true = ground arith in
    rw (nonzero, i.0)
      (ap (λ (c : Cursor). success c)
        (skip_while-All is_digit p (d ∷ e ∷ ds) behind (digit, i.1) stop))

-- No unsigned number starts with the minus sign.
IsUnsigned-head :
    (text behind : List ℕ) → IsUnsigned text → head_passes (λ x. x == 45) (text ++ behind) ≡ false
IsUnsigned-head [] behind i = absurd i
IsUnsigned-head (d ∷ []) behind i = ground arith
IsUnsigned-head (d ∷ e ∷ ds) behind i = let first = i.0 in ground arith

number_integer-IsInteger :
    (p : ℕ) (text behind : List ℕ)
    → IsInteger text
    → head_passes continues behind ≡ false
    → number_integer (at p (text ++ behind)) ≡ success (at (p + length text) behind)
unfolding number_integer
number_integer-IsInteger p text behind (inl i) h =
    rw (IsUnsigned-head text behind i) (number_unsigned-IsUnsigned p text behind i h)
number_integer-IsInteger p text behind (inr (ds, e, i)) h = rw e (
    number_unsigned-IsUnsigned (p + 1) ds behind i h
    ∙ ap (λ (n : ℕ). success (at n behind)) (omega arith))

fraction_none : (c : Cursor) → head_passes continues c.rest ≡ false → number_fraction c ≡ success c
unfolding number_fraction
fraction_none c h = rw (stops (λ x. x == 46) c.rest (λ x e. ground arith) h) refl

exponent_none : (c : Cursor) → head_passes continues c.rest ≡ false → number_exponent c ≡ success c
unfolding number_exponent
exponent_none c h =
    rw
      (
        stops (λ x. x == 101) c.rest (λ x e. ground arith) h,
        stops (λ x. x == 69) c.rest (λ x e. ground arith) h,
      )
      refl

take_all : (xs ys : List ℕ) → take (length xs) (xs ++ ys) ≡ xs
take_all [] ys = refl
take_all (x ∷ xs) ys = ap (λ (t : List ℕ). x ∷ t) (take_all xs ys)

-- An integer in front of what does not go on with it is read as it was.
pub parse_number-IsInteger :
    (p : ℕ) (text behind : List ℕ)
    → IsInteger text
    → head_passes continues behind ≡ false
    → parse_number (at p (text ++ behind)) ≡ success (text, at (p + length text) behind)
unfolding parse_number
parse_number-IsInteger p text behind i h =
    let stop = at (p + length text) behind in
    let size : p + length text - p ≡ length text = omega arith in
    let cut : take (p + length text - p) (text ++ behind) ≡ text = rw size (take_all text behind) in
    ap
      (λ r. r >>= λ c. number_fraction c >>= λ d.
        number_exponent d >>= λ s. success (take (s.position - p) (text ++ behind), s))
      (number_integer-IsInteger p text behind i h)
    ∙ ap
        (λ r.
          r >>= λ d. number_exponent d >>= λ s. success (take (s.position - p) (text ++ behind), s))
        (fraction_none stop h)
    ∙ ap (λ r. r >>= λ s. success (take (s.position - p) (text ++ behind), s))
        (exponent_none stop h)
    ∙ ap (λ (t : List ℕ). success (t, stop)) cut
