-- ===== src/Model/Safetensors.antt =====
-- include/marketforge/model/safetensors.hpp and src/model/safetensors.cpp, and the view of
-- include/marketforge/core/tensor_view.hpp. A mapped file is the list of its bytes, and a pointer into
-- it is an offset.
pub mod Coverage
pub mod Lookup
use market_sim.Prelude.{
  ℕ, zero, suc, ◌+◌, ◌-◌, ◌*◌, ◌%◌, ◌^◌, ◌≡◌, Bool, true, false, not, List, [], ◌∷◌, ◌++◌, ◌&&◌,
  ◌||◌, length, take, drop, ltb, leb, ◌==◌, if◌then◌else◌, Option, none, some, find_if,
}
use market_sim.Prelude.Sort.{sort_by}
use market_sim.Core.Status.{
  Status, Result, success, failure, fails, status_success, status_failure, is_ok, ◌>>=◌,
  invalid_tensor, arithmetic_overflow, unsupported_dtype, truncated_data, resource_limit,
  invalid_json, missing_tensor, invalid_argument,
}
use market_sim.Core.CheckedMath.{u64_max}
use market_sim.Core.Shape.{
  DType, f32, f16, bf16, i8, i32, u32, Shape, max_rank, make_shape, checked_nbytes,
}
use market_sim.Core.TensorView.{MemoryKind, host}
use market_sim.Model.Utf8.{between}
use market_sim.Model.Text.{head_passes, same_bytes, is_digit}
use market_sim.Model.Json.{
  JsonValue, Elements, Members, Outcome, returned, refused, out_of_fuel, number, string, array,
  object, no_elements, element, no_members, member, find, parse_json,
}
use market_sim.Model.Json.Ahead.{Concludes, parse_json-Concludes}

abbrev pub default_max_safetensors_header_bytes : ℕ
default_max_safetensors_header_bytes = 16 * 1024 * 1024

pub record TensorRecord : Type 0 where
  pub name : List ℕ
  pub dtype : DType
  pub shape : Shape
  pub begin : ℕ
  pub end : ℕ

pub record SafeTensorMetadata : Type 0 where
  pub data_start : ℕ
  pub records : List TensorRecord

-- The bytes hold disjoint bits, so that the source's `|=` adds them.
unfoldable pub load_little_endian : ℕ → List ℕ → ℕ
load_little_endian index [] = 0
load_little_endian index (byte ∷ bytes) =
    byte * 2 ^ (index * 8) + load_little_endian (index + 1) bytes

-- `std::from_chars` for a uint64: the digits at the front, where there are any and their value fits,
-- with what is left behind them.
unfoldable pub decimal : ℕ → List ℕ → ℕ × List ℕ
decimal value [] = (value, [])
decimal value (x ∷ xs) = if is_digit x then decimal (value * 10 + (x - 48)) xs else (value, x ∷ xs)

unfoldable pub from_chars : List ℕ → Option (ℕ × List ℕ)
unfolding decimal
from_chars text =
    let read = decimal 0 text in
    if not (head_passes is_digit text) || ltb u64_max read.0 then none else some read

abbrev pub is_real : ℕ → Bool
is_real x = x == 46 || x == 101 || x == 69

unfoldable pub has_real : List ℕ → Bool
has_real [] = false
has_real (x ∷ xs) = is_real x || has_real xs

-- The check of the conversion in `parse_unsigned`.
unfoldable pub converted : Option (ℕ × List ℕ) → Result ℕ
converted none = fails arithmetic_overflow
converted (some (value, [])) = success value
converted (some (value, _ ∷ _)) = fails arithmetic_overflow

unfoldable pub parse_unsigned : JsonValue → Result ℕ
unfolding from_chars has_real converted
parse_unsigned (number text) =
    if length text == 0 || head_passes (λ x. x == 45) text || has_real text
    then fails invalid_tensor
    else converted (from_chars text)
parse_unsigned _ = fails invalid_tensor

unfoldable pub parse_dtype : JsonValue → Result DType
unfolding same_bytes
parse_dtype (string text) =
    if same_bytes text (70 ∷ 51 ∷ 50 ∷ [])
    then success f32
    else if same_bytes text (70 ∷ 49 ∷ 54 ∷ [])
    then success f16
    else if same_bytes text (66 ∷ 70 ∷ 49 ∷ 54 ∷ [])
    then success bf16
    else if same_bytes text (73 ∷ 56 ∷ [])
    then success i8
    else if same_bytes text (73 ∷ 51 ∷ 50 ∷ [])
    then success i32
    else if same_bytes text (85 ∷ 51 ∷ 50 ∷ [])
    then success u32
    else fails unsupported_dtype
parse_dtype _ = fails invalid_tensor

abbrev is_string : JsonValue → Bool
is_string (string _) = true
is_string _ = false

-- The loop of `validate_metadata_object`.
unfoldable pub strings_only : Members → Status
strings_only no_members = status_success
strings_only (member key v ms) =
    if not (is_string v) then status_failure invalid_tensor else strings_only ms

unfoldable pub validate_metadata_object : JsonValue → Status
unfolding strings_only
validate_metadata_object (object ms) = strings_only ms
validate_metadata_object _ = status_failure invalid_tensor

-- A vector of elements, and the number of an object's members.
unfoldable pub elements : Elements → List JsonValue
elements no_elements = []
elements (element v es) = v ∷ elements es

unfoldable pub member_count : Members → ℕ
member_count no_members = 0
member_count (member key v ms) = suc (member_count ms)

-- The loop over the shape's extents.
unfoldable pub parse_extents : List JsonValue → Result (List ℕ)
unfolding parse_unsigned
parse_extents [] = success []
parse_extents (v ∷ vs) = do
  extent ← parse_unsigned v
  extents ← parse_extents vs
  success (extent ∷ extents)

-- The three members of a tensor, and the kinds and sizes that they have to have.
abbrev pub Fields : Type 0
Fields = JsonValue × List JsonValue × JsonValue × JsonValue

unfoldable pub checked_fields :
    Option JsonValue → Option JsonValue → Option JsonValue → Result Fields
unfolding elements
checked_fields (some dtype) (some (array shape))
      (some (array (element begin (element end no_elements)))) =
    if ltb max_rank (length (elements shape))
    then fails invalid_tensor
    else success (dtype, elements shape, begin, end)
checked_fields _ _ _ = fails invalid_tensor

abbrev dtype_key : List ℕ
dtype_key = 100 ∷ 116 ∷ 121 ∷ 112 ∷ 101 ∷ []

abbrev shape_key : List ℕ
shape_key = 115 ∷ 104 ∷ 97 ∷ 112 ∷ 101 ∷ []

abbrev data_offsets_key : List ℕ
data_offsets_key = 100 ∷ 97 ∷ 116 ∷ 97 ∷ 95 ∷ 111 ∷ 102 ∷ 102 ∷ 115 ∷ 101 ∷ 116 ∷ 115 ∷ []

unfoldable pub tensor_fields : List ℕ → JsonValue → Result Fields
unfolding member_count checked_fields find
tensor_fields name (object ms) =
    if length name == 0 || not (member_count ms == 3)
    then fails invalid_tensor
    else checked_fields (find (object ms) dtype_key) (find (object ms) shape_key)
        (find (object ms) data_offsets_key)
tensor_fields name _ = fails invalid_tensor

unfoldable pub require_tensor : Bool → Result (Unit {0})
require_tensor true = success tt
require_tensor false = fails invalid_tensor

unfoldable pub parse_tensor_record : List ℕ → JsonValue → ℕ → Result TensorRecord
unfolding tensor_fields parse_dtype parse_extents parse_unsigned require_tensor
parse_tensor_record name value data_size = do
  (dtype_value, shape_values, begin_value, end_value) ← tensor_fields name value
  dtype ← parse_dtype dtype_value
  extents ← parse_extents shape_values
  shape ← make_shape extents
  begin ← parse_unsigned begin_value
  end ← parse_unsigned end_value
  _ ← require_tensor (not (ltb end begin || ltb data_size end))
  expected_bytes ← checked_nbytes shape dtype
  _ ← require_tensor (expected_bytes == end - begin)
  success (record { name = name; dtype = dtype; shape = shape; begin = begin; end = end })

-- The comparison of `validate_exact_coverage`'s sort, and its loop.
abbrev pub lies_before : TensorRecord → TensorRecord → Bool
lies_before left right =
    if not (left.begin == right.begin) then ltb left.begin right.begin else ltb left.end right.end

unfoldable pub covers_from : ℕ → ℕ → List TensorRecord → Status
covers_from data_size expected_begin [] =
    if not (expected_begin == data_size) then status_failure invalid_tensor else status_success
covers_from data_size expected_begin (r ∷ rs) =
    if not (r.begin == expected_begin)
    then status_failure invalid_tensor
    else covers_from data_size r.end rs

unfoldable pub validate_exact_coverage : List TensorRecord → ℕ → Status
unfolding covers_from
validate_exact_coverage records data_size = covers_from data_size 0 (sort_by lies_before records)

abbrev metadata_key : List ℕ
metadata_key = 95 ∷ 95 ∷ 109 ∷ 101 ∷ 116 ∷ 97 ∷ 100 ∷ 97 ∷ 116 ∷ 97 ∷ 95 ∷ 95 ∷ []

-- `if (!status.ok()) return fail(status.code, status.detail);`.
unfoldable pub passes : Status → Result (Unit {0})
passes s = if not (is_ok s) then failure s else success tt

-- The loop over the header's members.
unfoldable pub parse_records : ℕ → Members → Result (List TensorRecord)
unfolding validate_metadata_object parse_tensor_record passes
parse_records data_size no_members = success []
parse_records data_size (member name value ms) = elim (same_bytes name metadata_key) [
  | true ↦ passes (validate_metadata_object value) >>= λ _. parse_records data_size ms
  | false ↦ do
    r ← parse_tensor_record name value data_size
    rs ← parse_records data_size ms
    success (r ∷ rs)
]

-- `parse_json` ends, so that its result is a value or a failure.
unfoldable pub conclude : (n : ℕ) (o : Outcome JsonValue) → Concludes n o → Result JsonValue
conclude n (returned v c) h = success v
conclude n (refused s) h = failure s
conclude n out_of_fuel h = absurd h

unfoldable pub parse_header : List ℕ → Result JsonValue
unfolding conclude
parse_header header = conclude (length header) (parse_json header) (parse_json-Concludes header)

abbrev pub header_members : JsonValue → Result Members
header_members (object ms) = success ms
header_members _ = fails invalid_json

abbrev pub header_size : List ℕ → ℕ
unfolding load_little_endian
header_size bytes = load_little_endian 0 (take 8 bytes)

-- The header's text, once its bounds are checked.
unfoldable pub parse_index : ℕ → ℕ → List ℕ → Result SafeTensorMetadata
unfolding parse_header parse_records validate_exact_coverage passes
parse_index data_start data_size header = do
  parsed ← parse_header header
  ms ← header_members parsed
  records ← parse_records data_size ms
  _ ← passes (validate_exact_coverage records data_size)
  success (record { data_start = data_start; records = records })

unfoldable pub parse_safetensors_metadata : List ℕ → ℕ → Result SafeTensorMetadata
unfolding load_little_endian parse_index
parse_safetensors_metadata bytes maximum_header_bytes =
    let size = header_size bytes in
    let header = take size (drop 8 bytes) in
    if ltb (length bytes) 8
    then fails truncated_data
    else if ltb maximum_header_bytes size || ltb u64_max size
    then fails resource_limit
    else if ltb (length bytes - 8) size
    then fails truncated_data
    else if not (head_passes (λ x. x == 123) header)
    then fails invalid_json
    else parse_index (8 + size) (length bytes - (8 + size)) header

pub record SafeTensorFile : Type 0 where
  pub mapping : List ℕ
  pub metadata : SafeTensorMetadata

-- `SafeTensorFile::parse`, `record` and `tensor`.
unfoldable pub parse_file : List ℕ → ℕ → Result SafeTensorFile
unfolding parse_safetensors_metadata
parse_file mapping maximum_header_bytes = do
  metadata ← parse_safetensors_metadata mapping maximum_header_bytes
  success (record { mapping = mapping; metadata = metadata })

unfoldable pub find_record : SafeTensorFile → List ℕ → Option TensorRecord
unfolding same_bytes
find_record file name = find_if (λ r. same_bytes r.name name) file.metadata.records

pub record ConstTensorView : Type 0 where
  pub data_offset : ℕ
  pub shape : Shape
  pub dtype : DType
  pub memory : MemoryKind

unfoldable pub view_record : SafeTensorFile → Option TensorRecord → Result ConstTensorView
view_record file none = fails missing_tensor
view_record file (some r) =
    let absolute_offset = (file.metadata.data_start + r.begin) % 2 ^ 64 in
    if ltb (length file.mapping) absolute_offset
    then fails invalid_tensor
    else success
        (record { data_offset = absolute_offset; shape = r.shape; dtype = r.dtype; memory = host })

unfoldable pub tensor : SafeTensorFile → List ℕ → Result ConstTensorView
unfolding view_record find_record
tensor file name = view_record file (find_record file name)
