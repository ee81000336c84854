-- ===== src/Model/Utf8.antt =====
-- `is_valid_utf8` and `append_utf8` of src/model/json_parser.cpp. A byte is a number below 256, and
-- the source's masks and shifts are quotients and remainders by powers of two.
pub mod Encoding
use market_sim.Prelude.{
  ℕ, zero, suc, ◌+◌, ◌-◌, ◌*◌, ◌/◌, ◌%◌, Bool, true, false, List, [], ◌∷◌, ◌&&◌, ◌||◌, not, length,
  drop, ltb, leb, ◌==◌, if◌then◌else◌, Option, none, some,
}

abbrev pub between : ℕ → ℕ → ℕ → Bool
between low high n = leb low n && leb n high

-- The number of bytes that a first byte announces behind it, and the bits that it gives.
pub record Lead : Type 0 where
  pub continuation_count : ℕ
  pub bits : ℕ

unfoldable pub lead_of : ℕ → Option Lead
lead_of first =
    if between 194 223 first
    then some (record { continuation_count = 1; bits = first % 32 })
    else if between 224 239 first
    then some (record { continuation_count = 2; bits = first % 16 })
    else if between 240 244 first
    then some (record { continuation_count = 3; bits = first % 8 })
    else none

-- The loop over the continuation bytes.
unfoldable pub continue_code_point : ℕ → ℕ → List ℕ → Option ℕ
continue_code_point zero code_point bytes = some code_point
continue_code_point (suc n) code_point [] = none
continue_code_point (suc n) code_point (next ∷ bytes) = elim (next / 64 == 2) [
  | true ↦ continue_code_point n (code_point * 64 + next % 64) bytes
  | false ↦ none
]

-- Overlong forms, surrogates and what is past the last code point.
unfoldable pub is_refused : ℕ → ℕ → Bool
is_refused continuation_count code_point =
    continuation_count == 2 && (ltb code_point 2048 || between 55296 57343 code_point)
    || continuation_count == 3 && (ltb code_point 65536 || ltb 1114111 code_point)

-- One round of `is_valid_utf8`'s loop: how many bytes it goes ahead, or none for its `return false`.
unfoldable pub utf8_step : ℕ → List ℕ → Option ℕ
unfolding lead_of continue_code_point is_refused
utf8_step first behind = if leb first 127 then some 1 else elim (lead_of first) [
  | none ↦ none
  | some lead ↦
      if ltb (length behind) lead.continuation_count
      then none
      else elim (continue_code_point lead.continuation_count lead.bits behind) [
        | none ↦ none
        | some code_point ↦
            if is_refused lead.continuation_count code_point
            then none
            else some (lead.continuation_count + 1)
      ]
]

-- The rounds, each of which goes ahead, so that as many as there are bytes suffice.
unfoldable pub utf8_rounds : ℕ → List ℕ → Bool
unfolding utf8_step
utf8_rounds fuel [] = true
utf8_rounds zero (first ∷ behind) = false
utf8_rounds (suc fuel) (first ∷ behind) = elim (utf8_step first behind) [
  | none ↦ false
  | some n ↦ utf8_rounds fuel (drop n (first ∷ behind))
]

unfoldable pub is_valid_utf8 : List ℕ → Bool
unfolding utf8_rounds
is_valid_utf8 input = utf8_rounds (length input) input

-- The bytes that `append_utf8` puts behind its output.
unfoldable pub utf8_bytes : ℕ → List ℕ
utf8_bytes code_point =
    let low = 128 + code_point % 64 in
    let middle = 128 + code_point / 64 % 64 in
    let high = 128 + code_point / 4096 % 64 in
    if leb code_point 127
    then code_point ∷ []
    else if leb code_point 2047
    then (192 + code_point / 64) ∷ low ∷ []
    else if leb code_point 65535
    then (224 + code_point / 4096) ∷ middle ∷ low ∷ []
    else (240 + code_point / 262144) ∷ high ∷ middle ∷ low ∷ []
