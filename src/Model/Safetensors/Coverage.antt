-- ===== src/Model/Safetensors/Coverage.antt =====
-- What `parse_safetensors_metadata` of src/model/safetensors.cpp accepts: tensors that share out the
-- data's bytes.
use market_sim.Prelude.{
  ℕ, ◌+◌, ◌-◌, ◌≤◌, ◌<◌, ◌≡◌, inl, inr, refl, Bool, true, false, not, List, [], ◌∷◌, ◌&&◌, ◌||◌,
  length, take, drop, arith, ltb, leb, ◌==◌, if◌then◌else◌, Bool-cases, both_branches, sym, subst,
}
use market_sim.Prelude.Sort.{sort_by, weigh, weigh-sort_by, All, All-sort_by}
use market_sim.Core.Status.{
  Status, Result, success, failure, is_ok, Yields, Yields-bind, Yields-any, if_fails-success,
  truncated_data, resource_limit, invalid_json,
}
use market_sim.Core.CheckedMath.{u64_max}
use market_sim.Core.Shape.{checked_nbytes, make_shape}
use market_sim.Model.Text.{same_bytes, head_passes}
use market_sim.Model.Json.{JsonValue, Members, no_members, member}
use market_sim.Model.Json.Cases.{either-cases}
use market_sim.Model.Safetensors.{
  TensorRecord, SafeTensorMetadata, parse_tensor_record, parse_records, require_tensor, covers_from,
  validate_exact_coverage, lies_before, passes, parse_safetensors_metadata, header_size,
  tensor_fields, parse_dtype, parse_extents, parse_unsigned, metadata_key, validate_metadata_object,
  parse_header, parse_index, header_members,
}

-- A tensor's range lies in the data, and it has the bytes of the tensor's shape and type.
abbrev pub IsRecord : ℕ → TensorRecord → Type 0
IsRecord data_size r =
    (r.begin ≤ r.end)
    × (r.end ≤ data_size)
    × (checked_nbytes r.shape r.dtype ≡ success (r.end - r.begin))

require_tensor-Yields : (test : Bool) → Yields (λ _. test ≡ true) (require_tensor test)
unfolding require_tensor
require_tensor-Yields true = refl
require_tensor-Yields false = tt

Yields-exact : {A : Type 0} (m : Result A) → Yields (λ a. m ≡ success a) m
Yields-exact (success a) = refl
Yields-exact (failure s) = tt

-- A record under its name.
abbrev pub Named : List ℕ → ℕ → TensorRecord → Type 0
Named name data_size r = (r.name ≡ name) × IsRecord data_size r

pub parse_tensor_record-Named :
    (name : List ℕ) (value : JsonValue) (data_size : ℕ)
    → Yields (Named name data_size) (parse_tensor_record name value data_size)
unfolding parse_tensor_record
parse_tensor_record-Named name value data_size =
    let Q = Named name data_size in
    Yields-bind (λ _. Unit) Q (tensor_fields name value) _ (Yields-any _)
      λ (dv, sv, bv, ev) _.
        Yields-bind (λ _. Unit) Q (parse_dtype dv) _ (Yields-any _)
          λ dtype _.
            Yields-bind (λ _. Unit) Q (parse_extents sv) _ (Yields-any _)
              λ extents _.
                Yields-bind (λ _. Unit) Q (make_shape extents) _ (Yields-any _)
                  λ shape _.
                    Yields-bind (λ _. Unit) Q (parse_unsigned bv) _ (Yields-any _)
                      λ begin _.
                        Yields-bind (λ _. Unit) Q (parse_unsigned ev) _ (Yields-any _)
                          λ end _.
                            let ordered = not (ltb end begin || ltb data_size end) in
                            Yields-bind (λ _. ordered ≡ true) Q (require_tensor ordered) _
                              (require_tensor-Yields ordered)
                              λ _ o.
                                Yields-bind (λ n. checked_nbytes shape dtype ≡ success n) Q
                                  (checked_nbytes shape dtype) _ (Yields-exact _)
                                  λ n e.
                                    Yields-bind (λ _. (n == end - begin) ≡ true) Q
                                      (require_tensor (n == end - begin)) _
                                      (require_tensor-Yields _)
                                      λ _ same.
                                        let exact : n ≡ end - begin = ground arith in
                                        let inside : (begin ≤ end) × (end ≤ data_size) =
                                          ground arith in
                                        (refl, (inside.0, inside.1, rw (sym exact) e))

parse_records-IsRecord :
    (data_size : ℕ) (ms : Members) → Yields (All (IsRecord data_size)) (parse_records data_size ms)
unfolding parse_records
parse_records-IsRecord data_size no_members = tt
parse_records-IsRecord data_size (member name value ms) =
    let Q = All (IsRecord data_size) in
    let below = parse_records-IsRecord data_size ms in
    either-cases (Yields Q) (same_bytes name metadata_key) _ _
      (Yields-bind (λ _. Unit) Q (passes (validate_metadata_object value)) _ (Yields-any _)
        λ _ _. below)
      (Yields-bind (Named name data_size) Q (parse_tensor_record name value data_size) _
        (parse_tensor_record-Named name value data_size)
        λ r good.
          Yields-bind Q Q (parse_records data_size ms) _ below
            λ rs rest. let done : Q (r ∷ rs) = (good.1, rest) in done)

-- The records after one another share out the range up to the data's end.
abbrev pub Tiles : ℕ → ℕ → List TensorRecord → Type 0
Tiles data_size begin [] = begin ≡ data_size
Tiles data_size begin (r ∷ rs) = (r.begin ≡ begin) × Tiles data_size r.end rs

covers_from-Tiles :
    (data_size begin : ℕ) (rs : List TensorRecord)
    → is_ok (covers_from data_size begin rs) ≡ true
    → Tiles data_size begin rs
unfolding covers_from
covers_from-Tiles data_size begin [] h = ground arith
covers_from-Tiles data_size begin (r ∷ rs) h = elim (Bool-cases (r.begin == begin)) [
  | inl e ↦ (ground arith, covers_from-Tiles data_size r.end rs (ground arith))
  | inr e ↦ absurd (ground arith)
]

-- How often a record holds a byte of the data.
abbrev pub holds : ℕ → TensorRecord → ℕ
holds x r = if leb r.begin x && ltb x r.end then 1 else 0

Tiles-weigh :
    (data_size begin x : ℕ) (rs : List TensorRecord)
    → All (IsRecord data_size) rs
    → Tiles data_size begin rs
    → begin ≤ data_size
    → weigh (holds x) rs ≡ (if leb begin x && ltb x data_size then 1 else 0)
unfolding weigh
Tiles-weigh data_size begin x [] a t l = ground (arith, t)
Tiles-weigh data_size begin x (r ∷ rs) a t l =
    let below = Tiles-weigh data_size r.end x rs a.1 t.1 (omega arith) in
    ground (arith, t.0, a.0.0, a.0.1, below)

-- What a metadata that `parse_safetensors_metadata` returns has in common with the file.
abbrev pub IsIndex : List ℕ → SafeTensorMetadata → Type 0
IsIndex bytes m =
    (m.data_start ≤ length bytes)
    × All (IsRecord (length bytes - m.data_start)) m.records
    × Tiles (length bytes - m.data_start) 0 (sort_by lies_before m.records)

passes-Yields : (s : Status) → Yields (λ _. is_ok s ≡ true) (passes s)
unfolding passes
passes-Yields s =
    both_branches (Yields (λ (_ : Unit {0}). is_ok s ≡ true)) (not (is_ok s)) (failure s)
      (success tt) (λ _. tt) (λ e. ground arith)

parse_index-Yields :
    (bytes : List ℕ) (start : ℕ) (header : List ℕ)
    → start ≤ length bytes
    → Yields (IsIndex bytes) (parse_index start (length bytes - start) header)
unfolding parse_index validate_exact_coverage
parse_index-Yields bytes start header h =
    let Q = IsIndex bytes in
    let size = length bytes - start in
    Yields-bind (λ _. Unit) Q (parse_header header) _ (Yields-any (parse_header header))
      λ v _.
        Yields-bind (λ _. Unit) Q (header_members v) _ (Yields-any (header_members v))
          λ ms _.
            Yields-bind (All (IsRecord size)) Q (parse_records size ms) _
              (parse_records-IsRecord size ms)
              λ rs a.
                let covered = validate_exact_coverage rs size in
                Yields-bind (λ _. is_ok covered ≡ true) Q (passes covered) _ (passes-Yields covered)
                  λ _ c. (h, a, covers_from-Tiles size 0 (sort_by lies_before rs) c)

-- An accepted file has its header between its bytes, and the header is what was parsed.
pub parse_safetensors_metadata-parse_index :
    (bytes : List ℕ) (maximum_header_bytes : ℕ) (m : SafeTensorMetadata)
    → parse_safetensors_metadata bytes maximum_header_bytes ≡ success m
    → (8 + header_size bytes ≤ length bytes)
      × (header_size bytes ≤ maximum_header_bytes)
      × (parse_index
            (8 + header_size bytes)
            (length bytes - (8 + header_size bytes))
            (take (header_size bytes) (drop 8 bytes))
          ≡ success m)
unfolding parse_safetensors_metadata
parse_safetensors_metadata-parse_index bytes maximum m h =
    let size = header_size bytes in
    let header = take size (drop 8 bytes) in
    let index = parse_index (8 + size) (length bytes - (8 + size)) header in
    let (a, h₁) = if_fails-success (ltb (length bytes) 8) truncated_data _ h in
    let (b, h₂) = if_fails-success (ltb maximum size || ltb u64_max size) resource_limit _ h₁ in
    let (c, h₃) = if_fails-success (ltb (length bytes - 8) size) truncated_data _ h₂ in
    let (_, h₄) =
      if_fails-success (not (head_passes (λ x. x == 123) header)) invalid_json index h₃ in
    let long : 8 ≤ length bytes = ground arith in
    let fits : size ≤ length bytes - 8 = ground arith in
    let small : size ≤ maximum = ground arith in (omega arith, small, h₄)

pub parse_safetensors_metadata-IsIndex :
    (bytes : List ℕ) (maximum_header_bytes : ℕ) (m : SafeTensorMetadata)
    → parse_safetensors_metadata bytes maximum_header_bytes ≡ success m
    → IsIndex bytes m
parse_safetensors_metadata-IsIndex bytes maximum m h =
    let (fits, _, parsed) = parse_safetensors_metadata-parse_index bytes maximum m h in
    subst (λ (r : Result SafeTensorMetadata). Yields (IsIndex bytes) r) parsed
      (parse_index-Yields bytes (8 + header_size bytes) (take (header_size bytes) (drop 8 bytes))
        fits)

-- Each byte of the data of an accepted file belongs to exactly one tensor.
pub parse_safetensors_metadata_once :
    (bytes : List ℕ) (maximum_header_bytes x : ℕ) (m : SafeTensorMetadata)
    → parse_safetensors_metadata bytes maximum_header_bytes ≡ success m
    → m.data_start + x < length bytes
    → weigh (holds x) m.records ≡ 1
parse_safetensors_metadata_once bytes maximum x m h l =
    let (start, good, tiles) = parse_safetensors_metadata-IsIndex bytes maximum m h in
    let size = length bytes - m.data_start in
    let sorted = sort_by lies_before m.records in
    let once =
      Tiles-weigh size 0 x sorted (All-sort_by (IsRecord size) lies_before m.records good) tiles
        (omega arith) in
    ground (arith, weigh-sort_by lies_before (holds x) m.records, once)
