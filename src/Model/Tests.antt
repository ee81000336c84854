-- ===== src/Model/Tests.antt =====
-- Inputs of the parsers of src/model, and the theorems about them at these inputs.
use market_sim.Prelude.{
  ℕ, ◌+◌, ◌≤◌, ◌≡◌, ◌↔◌, refl, inl, inr, true, false, List, [], ◌∷◌, length, some, arith,
}
use market_sim.Prelude.Sort.{All, weigh, sort_by}
use market_sim.Core.Status.{success, status_failure_at, invalid_json, duplicate_key}
use market_sim.Core.CheckedMath.{checked_multiply}
use market_sim.Core.Shape.{
  i8, checked_nbytes, make_shape, checked_numel, validate_shape, dtype_size,
}
use market_sim.Model.Utf8.{is_valid_utf8, utf8_bytes}
use market_sim.Model.Utf8.Encoding.{IsScalar, encode, is_valid_utf8_iff}
use market_sim.Model.Text.{
  at, parse_string, parse_number, simple_escape, unicode_escape, parse_hex_quad,
}
use market_sim.Model.Json.{
  JsonValue, Members, returned, refused, object, array, string, number, boolean, null_value, member,
  no_members, element, no_elements, parse_json, find, contains,
}
use market_sim.Model.Json.Ahead.{Concludes, parse_json-Concludes}
use market_sim.Model.Json.Valid.{IsValid, Has, parse_json-IsValid, find-parse_json}
use market_sim.Model.Json.Print.{parse_json-print}
use market_sim.Model.Json.Writer.{print, HasIntegers}
use market_sim.Model.Safetensors.{
  TensorRecord, SafeTensorMetadata, SafeTensorFile, parse_safetensors_metadata, parse_file, tensor,
}
use market_sim.Model.Safetensors.Coverage.{holds, parse_safetensors_metadata_once}
use market_sim.Model.Safetensors.Lookup.{view_of, tensor-parse_file}

-- `{"a":[1,-2.5e3],"b": "\u00e9"}`
abbrev text : List ℕ
text =
    123 ∷ 34 ∷ 97 ∷ 34 ∷ 58 ∷ 91 ∷ 49 ∷ 44 ∷ 45 ∷ 50 ∷ 46 ∷ 53 ∷ 101 ∷ 51 ∷ 93 ∷ 44 ∷ 34 ∷ 98 ∷ 34
    ∷ 58 ∷ 32 ∷ 34 ∷ 92 ∷ 117 ∷ 48 ∷ 48 ∷ 101 ∷ 57 ∷ 34 ∷ 125 ∷ []

abbrev text_members : Members
text_members =
    member (97 ∷ [])
      (array (
        element (number (49 ∷ []))
          (element (number (45 ∷ 50 ∷ 46 ∷ 53 ∷ 101 ∷ 51 ∷ [])) no_elements)))
      (member (98 ∷ []) (string (195 ∷ 169 ∷ [])) no_members)

text-parse_json_test : parse_json text ≡ returned (object text_members) (at 30 [])
unfolding parse_json parse_string parse_number simple_escape unicode_escape parse_hex_quad
    utf8_bytes
text-parse_json_test = refl

-- `{"a":1,"a":2}`, refused where the second key ends.
duplicate-parse_json_test :
    parse_json (123 ∷ 34 ∷ 97 ∷ 34 ∷ 58 ∷ 49 ∷ 44 ∷ 34 ∷ 97 ∷ 34 ∷ 58 ∷ 50 ∷ 125 ∷ [])
    ≡ refused (status_failure_at duplicate_key 10)
unfolding parse_json parse_string parse_number
duplicate-parse_json_test = refl

-- `[1,]`
trailing_comma-parse_json_test :
    parse_json (91 ∷ 49 ∷ 44 ∷ 93 ∷ []) ≡ refused (status_failure_at invalid_json 3)
unfolding parse_json parse_number
trailing_comma-parse_json_test = refl

parse_json-Concludes_example : Concludes 30 (parse_json text)
parse_json-Concludes_example = parse_json-Concludes text

parse_json-IsValid_example : IsValid 0 (object text_members)
parse_json-IsValid_example =
    parse_json-IsValid text (object text_members) (at 30 []) text-parse_json_test

find-parse_json_example : find (object text_members) (98 ∷ []) ≡ some (string (195 ∷ 169 ∷ []))
unfolding Has
find-parse_json_example =
    find-parse_json text text_members (at 30 []) (98 ∷ []) (string (195 ∷ 169 ∷ []))
      text-parse_json_test (inr (inl (refl, refl)))

-- A value with what the writer escapes: `{"q\"\n":[true,null,{}],"n":-120}`.
abbrev sample : JsonValue
sample = object (
    member (113 ∷ 34 ∷ 10 ∷ [])
      (array
        (element (boolean true) (element null_value (element (object no_members) no_elements))))
      (member (110 ∷ []) (number (45 ∷ 49 ∷ 50 ∷ 48 ∷ [])) no_members))

parse_json-print_example :
    parse_json (print sample) ≡ returned sample (at (length (print sample)) [])
unfolding print IsValid HasIntegers is_valid_utf8 contains
parse_json-print_example =
    parse_json-print sample
      (
        omega arith,
        (
          refl,
          (omega arith, (omega arith, (omega arith, ((omega arith, tt), tt)))),
          (refl, omega arith, tt),
        ),
      )
      ((tt, (tt, (tt, tt))), (inr (49 ∷ 50 ∷ 48 ∷ [], refl, (refl, (refl, (refl, tt)))), tt)) refl

-- U+41, U+E9, U+20AC and U+1F600.
abbrev points : List ℕ
points = 65 ∷ 233 ∷ 8364 ∷ 128512 ∷ []

is_valid_utf8_iff_example :
    (is_valid_utf8 (encode points) ≡ true)
    ↔ ((ps : List ℕ) × All IsScalar ps × (encode points ≡ encode ps))
is_valid_utf8_iff_example = is_valid_utf8_iff (encode points)

surrogate-is_valid_utf8_test : is_valid_utf8 (237 ∷ 160 ∷ 128 ∷ []) ≡ false
unfolding is_valid_utf8
surrogate-is_valid_utf8_test = refl

-- The header `{"t":{"dtype":"I8","shape":[3],"data_offsets":[0,3]},"u":{"dtype":"I8","shape":[2],
-- "data_offsets":[3,5]}}` of a file, whose length stands in front of it, and five bytes of data.
abbrev weights : List ℕ
weights =
    105 ∷ 0 ∷ 0 ∷ 0 ∷ 0 ∷ 0 ∷ 0 ∷ 0 ∷ 123 ∷ 34 ∷ 116 ∷ 34 ∷ 58 ∷ 123 ∷ 34 ∷ 100 ∷ 116 ∷ 121 ∷ 112
    ∷ 101 ∷ 34 ∷ 58 ∷ 34 ∷ 73 ∷ 56 ∷ 34 ∷ 44 ∷ 34 ∷ 115 ∷ 104 ∷ 97 ∷ 112 ∷ 101 ∷ 34 ∷ 58 ∷ 91 ∷ 51
    ∷ 93 ∷ 44 ∷ 34 ∷ 100 ∷ 97 ∷ 116 ∷ 97 ∷ 95 ∷ 111 ∷ 102 ∷ 102 ∷ 115 ∷ 101 ∷ 116 ∷ 115 ∷ 34 ∷ 58
    ∷ 91 ∷ 48 ∷ 44 ∷ 51 ∷ 93 ∷ 125 ∷ 44 ∷ 34 ∷ 117 ∷ 34 ∷ 58 ∷ 123 ∷ 34 ∷ 100 ∷ 116 ∷ 121 ∷ 112
    ∷ 101 ∷ 34 ∷ 58 ∷ 34 ∷ 73 ∷ 56 ∷ 34 ∷ 44 ∷ 34 ∷ 115 ∷ 104 ∷ 97 ∷ 112 ∷ 101 ∷ 34 ∷ 58 ∷ 91 ∷ 50
    ∷ 93 ∷ 44 ∷ 34 ∷ 100 ∷ 97 ∷ 116 ∷ 97 ∷ 95 ∷ 111 ∷ 102 ∷ 102 ∷ 115 ∷ 101 ∷ 116 ∷ 115 ∷ 34 ∷ 58
    ∷ 91 ∷ 51 ∷ 44 ∷ 53 ∷ 93 ∷ 125 ∷ 125 ∷ 1 ∷ 2 ∷ 3 ∷ 4 ∷ 5 ∷ []

abbrev record_of : ℕ → ℕ → ℕ → ℕ → TensorRecord
record_of name extent begin end = record {
  name = name ∷ [];
  dtype = i8;
  shape = record { extents = extent ∷ 0 ∷ 0 ∷ 0 ∷ 0 ∷ 0 ∷ []; rank = 1 };
  begin = begin;
  end = end;
}

abbrev index : SafeTensorMetadata
index = record { data_start = 113; records = record_of 116 3 0 3 ∷ record_of 117 2 3 5 ∷ [] }

weights-parse_safetensors_metadata_test : parse_safetensors_metadata weights 1000 ≡ success index
unfolding parse_safetensors_metadata parse_json parse_string parse_number make_shape checked_nbytes
    checked_numel validate_shape checked_multiply dtype_size sort_by
weights-parse_safetensors_metadata_test = refl

parse_safetensors_metadata_once_example : weigh (holds 3) index.records ≡ 1
parse_safetensors_metadata_once_example =
    parse_safetensors_metadata_once weights 1000 3 index weights-parse_safetensors_metadata_test
      (omega arith)

abbrev file : SafeTensorFile
file = record { mapping = weights; metadata = index }

weights-parse_file_test : parse_file weights 1000 ≡ success file
unfolding parse_file parse_json parse_string parse_number make_shape checked_nbytes checked_numel
    validate_shape checked_multiply dtype_size sort_by
weights-parse_file_test = refl

tensor-parse_file_example :
    (tensor file (117 ∷ []) ≡ success (view_of index (record_of 117 2 3 5)))
    × (n : ℕ) × (checked_nbytes (record_of 117 2 3 5).shape i8 ≡ success n)
    × (116 + n ≤ 118)
tensor-parse_file_example =
    tensor-parse_file weights 1000 1 file (record_of 117 2 3 5) weights-parse_file_test
      (omega arith) refl
