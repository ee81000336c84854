-- ===== src/Model/Text.antt =====
-- The scanner of src/model/json_parser.cpp: white space, literals, numbers and strings. The parser's
-- position is a cursor, which holds the bytes that lie ahead of it.
pub mod Ahead
pub mod Written
use market_sim.Prelude.{
  ℕ, zero, suc, ◌+◌, ◌-◌, ◌*◌, ◌%◌, ◌^◌, min, Bool, true, false, List, [], ◌∷◌, ◌++◌, ◌&&◌, ◌||◌,
  not, length, take, drop, ltb, leb, ◌==◌, if◌then◌else◌, Option, none, some,
}
use market_sim.Core.Status.{
  Status, Result, success, failure, fails, status_failure, status_failure_at, ErrorCode,
  invalid_json, ◌>>=◌,
}
use market_sim.Core.CheckedMath.{u32_max}
use market_sim.Model.Utf8.{between, utf8_bytes}

pub record Cursor : Type 0 where
  pub position : ℕ
  pub rest : List ℕ

abbrev pub at : ℕ → List ℕ → Cursor
at p bytes = record { position = p; rest = bytes }

abbrev pub move : ℕ → Cursor → Cursor
move n c = at (c.position + n) (drop n c.rest)

-- The byte at the position passes a test; none does at the end.
abbrev pub head_passes : (ℕ → Bool) → List ℕ → Bool
head_passes test [] = false
head_passes test (x ∷ xs) = test x

abbrev pub starts : ℕ → Cursor → Bool
starts byte c = head_passes (λ x. x == byte) c.rest

-- `Parser::fail`.
unfoldable pub failure_at : ErrorCode → Cursor → Status
failure_at code c = status_failure_at code (min c.position u32_max)

abbrev pub fail {ℓ} : {A : Type ℓ} → ErrorCode → Cursor → Result A
unfolding failure_at
fail code c = failure (failure_at code c)

unfoldable pub skip_while : (ℕ → Bool) → ℕ → List ℕ → Cursor
skip_while test p [] = at p []
skip_while test p (x ∷ xs) = if test x then skip_while test (p + 1) xs else at p (x ∷ xs)

unfoldable pub is_space : ℕ → Bool
is_space x = x == 32 || x == 10 || x == 13 || x == 9

unfoldable pub skip_whitespace : Cursor → Cursor
unfolding skip_while is_space
skip_whitespace c = skip_while is_space c.position c.rest

-- Whether the byte is there behind the white space, and where the parser then is.
unfoldable pub consume : ℕ → Cursor → Bool × Cursor
unfolding skip_whitespace
consume expected c =
    let s = skip_whitespace c in if starts expected s then (true, move 1 s) else (false, s)

unfoldable pub same_bytes : List ℕ → List ℕ → Bool
same_bytes [] [] = true
same_bytes (x ∷ xs) (y ∷ ys) = x == y && same_bytes xs ys
same_bytes _ _ = false

unfoldable pub consume_literal : List ℕ → Cursor → Bool × Cursor
unfolding same_bytes
consume_literal literal c =
    if same_bytes (take (length literal) c.rest) literal
    then (true, move (length literal) c)
    else (false, c)

abbrev pub is_digit : ℕ → Bool
is_digit x = between 48 57 x

unfoldable pub skip_digits : Cursor → Cursor
unfolding skip_while
skip_digits c = skip_while is_digit c.position c.rest

-- The three parts of `parse_number`: sign and integer, fraction, exponent.
unfoldable pub number_unsigned : Cursor → Result Cursor
unfolding skip_digits
number_unsigned c =
    if starts 48 c
    then if head_passes is_digit (move 1 c).rest
      then fail invalid_json (move 1 c)
      else success (move 1 c)
    else if head_passes (λ x. between 49 57 x) c.rest
    then success (skip_digits c)
    else fail invalid_json c

unfoldable pub number_integer : Cursor → Result Cursor
unfolding number_unsigned
number_integer c = number_unsigned (if starts 45 c then move 1 c else c)

-- The digits that a fraction and an exponent need.
unfoldable pub some_digits : Cursor → Result Cursor
unfolding skip_digits
some_digits start =
    let stop = skip_digits start in
    if start.position == stop.position then fail invalid_json stop else success stop

unfoldable pub number_fraction : Cursor → Result Cursor
unfolding some_digits
number_fraction c = if starts 46 c then some_digits (move 1 c) else success c

unfoldable pub number_exponent : Cursor → Result Cursor
unfolding some_digits
number_exponent c =
    let unsigned = move 1 c in
    let digits = if starts 43 unsigned || starts 45 unsigned then move 1 unsigned else unsigned in
    if starts 101 c || starts 69 c then some_digits digits else success c

unfoldable pub parse_number : Cursor → Result (List ℕ × Cursor)
unfolding number_integer number_fraction number_exponent
parse_number start = do
  integer ← number_integer start
  fraction ← number_fraction integer
  stop ← number_exponent fraction
  success (take (stop.position - start.position) start.rest, stop)

unfoldable pub is_hex : ℕ → Bool
is_hex x = between 48 57 x || between 97 102 x || between 65 70 x

unfoldable pub hex_value : ℕ → ℕ
hex_value x =
    if between 48 57 x then x - 48 else if between 97 102 x then x - 97 + 10 else x - 65 + 10

-- The loop of `parse_hex_quad`, whose value stays below 16 ^ 4.
unfoldable pub hex_digits : ℕ → ℕ → List ℕ → Option ℕ
unfolding is_hex hex_value
hex_digits zero value bytes = some value
hex_digits (suc n) value [] = none
hex_digits (suc n) value (digit ∷ bytes) = elim (is_hex digit) [
  | true ↦ hex_digits n (value * 16 + hex_value digit) bytes
  | false ↦ none
]

unfoldable pub parse_hex_quad : Cursor → Option (ℕ × Cursor)
unfolding hex_digits
parse_hex_quad c =
    if ltb (length c.rest) 4
    then none
    else elim (hex_digits 4 0 c.rest) [ none ↦ none | some value ↦ some (value, move 4 c) ]

-- The escapes of one byte.
unfoldable pub simple_escape : ℕ → Option ℕ
simple_escape escape =
    if escape == 34 || escape == 92 || escape == 47
    then some escape
    else if escape == 98
    then some 8
    else if escape == 102
    then some 12
    else if escape == 110
    then some 10
    else if escape == 114
    then some 13
    else if escape == 116
    then some 9
    else none

-- The second half of a surrogate pair, whose first half has been read.
unfoldable pub surrogate_pair : ℕ → Option (ℕ × Cursor) → Result (ℕ × Cursor)
surrogate_pair high none = fails invalid_json
surrogate_pair high (some (low, next)) =
    if ltb low 56320 || ltb 57343 low
    then fails invalid_json
    else success (65536 + (high - 55296) * 2 ^ 10 + (low - 56320), next)

unfoldable pub low_surrogate : ℕ → Cursor → Result (ℕ × Cursor)
unfolding surrogate_pair
low_surrogate high c =
    if ltb (length c.rest) 6 || not (starts 92 c) || not (starts 117 (move 1 c))
    then fails invalid_json
    else surrogate_pair high (parse_hex_quad (move 2 c))

-- The escape behind a `u`, whose digits have been read.
unfoldable pub unicode_escape : Option (ℕ × Cursor) → Result (ℕ × Cursor)
unfolding low_surrogate
unicode_escape none = fails invalid_json
unicode_escape (some (code_point, next)) =
    if between 55296 56319 code_point
    then low_surrogate code_point next
    else if between 56320 57343 code_point
    then fails invalid_json
    else success (code_point, next)

-- One round of `parse_string`'s loop: it returns, or it appends bytes and goes on.
pub data StringStep : Type 0 where
  finished : Cursor → StringStep
  refused : Status → StringStep
  appended : List ℕ → Cursor → StringStep

unfoldable pub append_code_point : Result (ℕ × Cursor) → StringStep
append_code_point (failure s) = refused s
append_code_point (success r) = appended (utf8_bytes r.0) r.1

-- The switch on the byte behind a backslash.
unfoldable pub escape_step : ℕ → Option ℕ → Cursor → StringStep
unfolding append_code_point
escape_step escape (some byte) next = appended (byte ∷ []) next
escape_step escape none next =
    if not (escape == 117)
    then refused (status_failure invalid_json)
    else append_code_point (unicode_escape (parse_hex_quad next))

unfoldable pub escape_at : Cursor → List ℕ → StringStep
unfolding escape_step
escape_at c [] = refused (status_failure invalid_json)
escape_at c (escape ∷ _) = escape_step escape (simple_escape escape) (move 1 c)

-- A control character is the one failure that names its position, cut to 32 bits.
unfoldable pub string_step : Cursor → List ℕ → StringStep
unfolding escape_at
string_step c [] = refused (status_failure invalid_json)
string_step c (value ∷ behind) =
    if value == 34
    then finished (move 1 c)
    else if ltb value 32
    then refused (status_failure_at invalid_json (c.position % 2 ^ 32))
    else if not (value == 92)
    then appended (value ∷ []) (move 1 c)
    else escape_at (move 1 c) behind

abbrev pub Scanner : Type 0
Scanner = List ℕ → Cursor → Result (List ℕ × Cursor)

-- What a round leaves of `parse_string`'s loop, given the rounds behind it.
unfoldable pub string_round : Scanner → List ℕ → StringStep → Result (List ℕ × Cursor)
string_round behind output (finished next) = success (output, next)
string_round behind output (refused s) = failure s
string_round behind output (appended bytes next) = behind (output ++ bytes) next

-- Each round goes ahead, so that a round for each byte ahead, and one for the end, suffice.
unfoldable pub string_rounds : ℕ → Scanner
unfolding string_step string_round
string_rounds zero output c = fails invalid_json
string_rounds (suc fuel) output c =
    string_round (λ o d. string_rounds fuel o d) output (string_step c c.rest)

unfoldable pub parse_string : Cursor → Result (List ℕ × Cursor)
unfolding string_rounds
parse_string c =
    if not (starts 34 c) then fails invalid_json else string_rounds (length c.rest) [] (move 1 c)
