-- ===== src/Model/Json.antt =====
-- The recursive descent of src/model/json_parser.cpp, and `JsonValue` of its header.
pub mod Cases
pub mod Ahead
pub mod Valid
pub mod Print
pub mod Writer
use market_sim.Prelude.{
  ℕ, zero, suc, ◌+◌, ◌*◌, ◌≡◌, ◌≢◌, ◌⊎◌, inl, inr, refl, Bool, true, false, List, [], ◌∷◌, ◌||◌,
  not, length, ltb, ◌==◌, if◌then◌else◌, Option, none, some,
}
use market_sim.Core.Status.{
  Status, Result, success, failure, ErrorCode, invalid_json, invalid_utf8, duplicate_key,
  resource_limit,
}
use market_sim.Model.Utf8.{is_valid_utf8}
use market_sim.Model.Text.{
  Cursor, at, move, starts, failure_at, skip_whitespace, consume, same_bytes, consume_literal,
  parse_number, parse_string,
}

-- The source's struct of a kind and the fields that the kind uses.
mutual
  pub data JsonValue : Type 0 where
    null_value : JsonValue
    boolean : Bool → JsonValue
    number string : List ℕ → JsonValue
    array : Elements → JsonValue
    object : Members → JsonValue

  pub data Elements : Type 0 where
    no_elements : Elements
    element : JsonValue → Elements → Elements

  pub data Members : Type 0 where
    no_members : Members
    member : List ℕ → JsonValue → Members → Members

-- What a parsing function of the class returns, with where the parser then is.
pub data Outcome {ℓ} (A : Type ℓ) : Type ℓ where
  returned : A → Cursor → Outcome A
  refused : Status → Outcome A
  out_of_fuel : Outcome A

infixl 5 ◌>>=◌
abbrev pub ◌>>=◌ {ℓ κ} :
    {A : Type ℓ} {B : Type κ} → Outcome A → (A × Cursor → Outcome B) → Outcome B
returned a c >>= f = f (a, c)
refused s >>= f = refused s
out_of_fuel >>= f = out_of_fuel

-- A scanning function's result.
abbrev pub scanned {ℓ} : {A : Type ℓ} → Result (A × Cursor) → Outcome A
scanned (success r) = returned r.0 r.1
scanned (failure s) = refused s

-- `if (!test) return fail(code);`.
abbrev pub require : Bool → ErrorCode → Cursor → Outcome (Unit {0})
unfolding failure_at
require true code c = returned tt c
require false code c = refused (failure_at code c)

-- `if (!consume(byte)) return fail(ErrorCode::invalid_json);`.
unfoldable pub expect : ℕ → Cursor → Outcome (Unit {0})
unfolding consume
expect byte c = require (consume byte c).0 invalid_json (consume byte c).1

unfoldable pub literal : List ℕ → JsonValue → Cursor → Outcome JsonValue
unfolding consume_literal
literal bytes v c = do
  (_, next) ← require (consume_literal bytes c).0 invalid_json (consume_literal bytes c).1
  returned v next

abbrev pub true_bytes : List ℕ
true_bytes = 116 ∷ 114 ∷ 117 ∷ 101 ∷ []

abbrev pub false_bytes : List ℕ
false_bytes = 102 ∷ 97 ∷ 108 ∷ 115 ∷ 101 ∷ []

abbrev pub null_bytes : List ℕ
null_bytes = 110 ∷ 117 ∷ 108 ∷ 108 ∷ []

-- The cases of the switch on a value's first byte.
pub data Lead : Type 0 where
  ended brace bracket quote letter_t letter_f letter_n other : Lead

unfoldable pub lead_of : List ℕ → Lead
lead_of [] = ended
lead_of (x ∷ _) =
    if x == 123
    then brace
    else if x == 91
    then bracket
    else if x == 34
    then quote
    else if x == 116
    then letter_t
    else if x == 102
    then letter_f
    else if x == 110
    then letter_n
    else other

abbrev pub maximum_depth : ℕ
maximum_depth = 64

-- The set of the keys that an object has so far.
unfoldable pub contains : List (List ℕ) → List ℕ → Bool
unfolding same_bytes
contains [] key = false
contains (k ∷ keys) key = same_bytes k key || contains keys key

abbrev to_object : Members → Cursor → Outcome JsonValue
to_object ms c = returned (object ms) c

unfoldable mutual
  unfolding failure_at skip_whitespace lead_of literal expect consume contains

  pub parse_value : ℕ → ℕ → Cursor → Outcome JsonValue
  parse_value zero depth c = out_of_fuel
  parse_value (suc f) depth c = do
    (_, c) ← require (not (ltb maximum_depth depth)) resource_limit c
    let s = skip_whitespace c
    elim (lead_of s.rest) [
      | ended ↦ refused (failure_at invalid_json s)
      | brace ↦ parse_object f (depth + 1) s
      | bracket ↦ parse_array f (depth + 1) s
      | quote ↦ scanned (parse_string s) >>= λ (text, next). returned (string text) next
      | letter_t ↦ literal true_bytes (boolean true) s
      | letter_f ↦ literal false_bytes (boolean false) s
      | letter_n ↦ literal null_bytes null_value s
      | other ↦ scanned (parse_number s) >>= λ (text, next). returned (number text) next
    ]

  pub parse_object : ℕ → ℕ → Cursor → Outcome JsonValue
  parse_object zero depth c = out_of_fuel
  parse_object (suc f) depth c = do
    (_, inside) ← expect 123 c
    let close = consume 125 (skip_whitespace inside)
    elim close.0 [
      | true ↦ returned (object no_members) close.1
      | false ↦ parse_members f depth [] close.1 >>= λ (ms, next). returned (object ms) next
    ]

  -- The loop over an object's members, which holds the keys before them.
  pub parse_members : ℕ → ℕ → List (List ℕ) → Cursor → Outcome Members
  parse_members zero depth keys c = out_of_fuel
  parse_members (suc f) depth keys c = do
    let s = skip_whitespace c
    (_, s) ← require (starts 34 s) invalid_json s
    (key, c) ← scanned (parse_string s)
    (_, c) ← require (not (contains keys key)) duplicate_key c
    (_, c) ← expect 58 c
    (v, c) ← parse_value f depth c
    let close = consume 125 (skip_whitespace c)
    elim close.0 [
      | true ↦ returned (member key v no_members) close.1
      | false ↦ do
        (_, c) ← expect 44 close.1
        (ms, c) ← parse_members f depth (key ∷ keys) c
        returned (member key v ms) c
    ]

  pub parse_array : ℕ → ℕ → Cursor → Outcome JsonValue
  parse_array zero depth c = out_of_fuel
  parse_array (suc f) depth c = do
    (_, inside) ← expect 91 c
    let close = consume 93 (skip_whitespace inside)
    elim close.0 [
      | true ↦ returned (array no_elements) close.1
      | false ↦ parse_elements f depth close.1 >>= λ (vs, next). returned (array vs) next
    ]

  -- The loop over an array's elements.
  pub parse_elements : ℕ → ℕ → Cursor → Outcome Elements
  parse_elements zero depth c = out_of_fuel
  parse_elements (suc f) depth c = do
    (v, c) ← parse_value f depth c
    let close = consume 93 (skip_whitespace c)
    elim close.0 [
      | true ↦ returned (element v no_elements) close.1
      | false ↦ do
        (_, c) ← expect 44 close.1
        (vs, c) ← parse_elements f depth c
        returned (element v vs) c
    ]

-- The end of `Parser::parse`: only white space is left.
unfoldable pub whole : JsonValue × Cursor → Outcome JsonValue
unfolding skip_whitespace
whole (v, c) = do
  let s = skip_whitespace c
  (_, s) ← require (length s.rest == 0) invalid_json s
  returned v s

-- `Parser::parse`, with fuel that each byte ahead takes at most three of.
unfoldable pub parse_json : List ℕ → Outcome JsonValue
unfolding whole parse_value is_valid_utf8
parse_json input = do
  (_, c) ← require (is_valid_utf8 input) invalid_utf8 (at 0 input)
  parse_value (3 * length input + 2) 0 c >>= whole

-- `JsonValue::find`.
unfoldable pub find_member : List ℕ → Members → Option JsonValue
unfolding same_bytes
find_member key no_members = none
find_member key (member name v ms) = if same_bytes name key then some v else find_member key ms

unfoldable pub find : JsonValue → List ℕ → Option JsonValue
unfolding find_member
find (object ms) key = find_member key ms
find _ key = none
