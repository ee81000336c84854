-- ===== src/Model/Safetensors/Lookup.antt =====
-- `SafeTensorFile` of src/model/safetensors.cpp: each tensor of an accepted file is found by its name,
-- with a view that lies in the file.
use market_sim.Prelude.{
  ℕ, zero, suc, ◌+◌, ◌-◌, ◌%◌, ◌^◌, ◌≤◌, ◌≡◌, refl, false, List, [], ◌∷◌, length, arith, ltb, ap,
  sym, subst, ◌∙◌, get_elem?, find_if, some, Option, take, drop,
}
use market_sim.Prelude.Sort.{All-get_elem?}
use market_sim.Core.Status.{
  Result, success, >>=-eq-success, success-injective, Yields, Yields-bind, Yields-map, Yields-any,
}
use market_sim.Core.Shape.{checked_nbytes}
use market_sim.Core.CheckedMath.{u64_max}
use market_sim.Model.Text.{Cursor, same_bytes}
use market_sim.Model.Json.{
  JsonValue, Members, no_members, member, null_value, boolean, number, string, array, object,
  contains, Outcome, returned, refused, out_of_fuel, parse_json,
}
use market_sim.Model.Json.Ahead.{Concludes, parse_json-Concludes}
use market_sim.Model.Json.Cases.{either-cases}
use market_sim.Model.Json.Valid.{IsValid, MembersValid, parse_json-IsValid, same_bytes_refl}
use market_sim.Core.TensorView.{host}
use market_sim.Model.Safetensors.{
  TensorRecord, SafeTensorMetadata, SafeTensorFile, ConstTensorView, parse_tensor_record,
  parse_records, conclude, parse_header, header_members, parse_index, parse_safetensors_metadata,
  parse_file, header_size, find_record, view_record, tensor, metadata_key, passes,
  validate_metadata_object, validate_exact_coverage,
}
use market_sim.Model.Safetensors.Coverage.{
  IsRecord, parse_safetensors_metadata-IsIndex, parse_safetensors_metadata-parse_index, Named,
  parse_tensor_record-Named,
}

-- No two records have a name, and none has one of the keys.
unfoldable pub Distinct : List (List ℕ) → List TensorRecord → Type 0
Distinct keys [] = Unit
Distinct keys (r ∷ rs) = (contains keys r.name ≡ false) × Distinct (r.name ∷ keys) rs

contains-cons :
    (keys : List (List ℕ)) (key name : List ℕ)
    → contains (key ∷ keys) name ≡ false
    → contains keys name ≡ false
unfolding contains
contains-cons keys key name h = ground arith

Distinct-weaken :
    (keys more : List (List ℕ)) (rs : List TensorRecord)
    → ((name : List ℕ) → contains more name ≡ false → contains keys name ≡ false)
    → Distinct more rs
    → Distinct keys rs
unfolding Distinct contains
Distinct-weaken keys more [] f d = tt
Distinct-weaken keys more (r ∷ rs) f d =
    let below =
      Distinct-weaken (r.name ∷ keys) (r.name ∷ more) rs
        (λ name h. let part = f name (ground arith) in ground arith) d.1 in
    (f r.name d.0, below)

parse_records-Distinct :
    (data_size depth : ℕ) (keys : List (List ℕ)) (ms : Members)
    → MembersValid depth keys ms
    → Yields (Distinct keys) (parse_records data_size ms)
unfolding parse_records Distinct IsValid
parse_records-Distinct data_size depth keys no_members v = tt
parse_records-Distinct data_size depth keys (member name value ms) v =
    let Q = Distinct keys in
    let below = parse_records-Distinct data_size depth (name ∷ keys) ms v.2 in
    either-cases (Yields Q) (same_bytes name metadata_key) _ _
      (Yields-bind (λ _. Unit) Q (passes (validate_metadata_object value)) _ (Yields-any _)
        λ _ _.
          Yields-map (Distinct (name ∷ keys)) Q (parse_records data_size ms) below
            λ rs d. Distinct-weaken keys (name ∷ keys) rs (contains-cons keys name) d)
      (Yields-bind (Named name data_size) Q (parse_tensor_record name value data_size) _
        (parse_tensor_record-Named name value data_size)
        λ r good.
          Yields-bind (Distinct (name ∷ keys)) Q (parse_records data_size ms) _ below
            λ rs rest. let done : Q (r ∷ rs) = rw (good.0) (v.0, rest) in done)

fresh-get_elem? :
    (keys : List (List ℕ)) (rs : List TensorRecord) (i : ℕ) (r : TensorRecord)
    → Distinct keys rs
    → get_elem? rs i ≡ some r
    → contains keys r.name ≡ false
unfolding Distinct contains
fresh-get_elem? keys [] i r d h = cc
fresh-get_elem? keys (x ∷ rs) zero r d h =
    let same : x ≡ r = cc in subst (λ (y : TensorRecord). contains keys y.name ≡ false) same d.0
fresh-get_elem? keys (x ∷ rs) (suc i) r d h =
    let below = fresh-get_elem? (x.name ∷ keys) rs i r d.1 h in ground arith

find_if-Distinct :
    (keys : List (List ℕ)) (rs : List TensorRecord) (i : ℕ) (r : TensorRecord)
    → Distinct keys rs
    → get_elem? rs i ≡ some r
    → find_if (λ x. same_bytes x.name r.name) rs ≡ some r
unfolding Distinct contains
find_if-Distinct keys [] i r d h = cc
find_if-Distinct keys (x ∷ rs) zero r d h =
    let same : x ≡ r = cc in let found = same_bytes_refl r.name in rw (same, found) refl
find_if-Distinct keys (x ∷ rs) (suc i) r d h =
    let below = fresh-get_elem? (x.name ∷ keys) rs i r d.1 h in
    let other : same_bytes x.name r.name ≡ false = ground arith in
    rw other (find_if-Distinct (x.name ∷ keys) rs i r d.1 h)

conclude-success :
    (n : ℕ) (o : Outcome JsonValue) (h : Concludes n o) (v : JsonValue)
    → conclude n o h ≡ success v
    → (c : Cursor) × (o ≡ returned v c)
unfolding conclude
conclude-success n (returned w c) h v e = (c, cc)
conclude-success n (refused s) h v e = cc
conclude-success n out_of_fuel h v e = absurd h

header_members-success :
    (v : JsonValue) (ms : Members) → header_members v ≡ success ms → v ≡ object ms
header_members-success (object ns) ms e = cc
header_members-success null_value ms e = cc
header_members-success (boolean b) ms e = cc
header_members-success (number t) ms e = cc
header_members-success (string t) ms e = cc
header_members-success (array es) ms e = cc

members-IsValid :
    (v : JsonValue) (ms : Members) → v ≡ object ms → IsValid 0 v → MembersValid 1 [] ms
unfolding IsValid
members-IsValid v ms e valid =
    let at_root : IsValid 0 (object ms) = subst (λ (w : JsonValue). IsValid 0 w) e valid in
    at_root.1

parse_header-IsValid :
    (header : List ℕ) (v : JsonValue) → parse_header header ≡ success v → IsValid 0 v
unfolding parse_header
parse_header-IsValid header v h =
    let (c, e) =
      conclude-success (length header) (parse_json header) (parse_json-Concludes header) v h in
    parse_json-IsValid header v c e

parse_index-Distinct :
    (start size : ℕ) (header : List ℕ) (m : SafeTensorMetadata)
    → parse_index start size header ≡ success m
    → Distinct [] m.records
unfolding parse_index
parse_index-Distinct start size header m h =
    let (v, parsed, h₁) = >>=-eq-success (parse_header header) _ h in
    let (ms, object_of, h₂) = >>=-eq-success (header_members v) _ h₁ in
    let (rs, made, h₃) = >>=-eq-success (parse_records size ms) _ h₂ in
    let (_, _, h₄) = >>=-eq-success (passes (validate_exact_coverage rs size)) _ h₃ in
    let valid =
      members-IsValid v ms (header_members-success v ms object_of)
        (parse_header-IsValid header v parsed) in
    let distinct =
      subst (λ (o : Result (List TensorRecord)). Yields (Distinct []) o) made
        (parse_records-Distinct size 1 [] ms valid) in
    let whole : rs ≡ m.records =
      ap (λ (n : SafeTensorMetadata). n.records) (success-injective h₄) in
    subst (λ (ts : List TensorRecord). Distinct [] ts) whole distinct

-- No two tensors of an accepted file have a name.
pub parse_safetensors_metadata-Distinct :
    (bytes : List ℕ) (maximum_header_bytes : ℕ) (m : SafeTensorMetadata)
    → parse_safetensors_metadata bytes maximum_header_bytes ≡ success m
    → Distinct [] m.records
parse_safetensors_metadata-Distinct bytes maximum m h =
    let size = header_size bytes in
    let header = take size (drop 8 bytes) in
    let (_, _, parsed) = parse_safetensors_metadata-parse_index bytes maximum m h in
    parse_index-Distinct (8 + size) (length bytes - (8 + size)) header m parsed

-- The view of a tensor: its first byte, its shape and its type.
abbrev pub view_of : SafeTensorMetadata → TensorRecord → ConstTensorView
view_of m r = record {
  data_offset = m.data_start + r.begin;
  shape = r.shape;
  dtype = r.dtype;
  memory = host;
}

-- `tensor` finds the record, and its view starts in the file.
tensor-found :
    (file : SafeTensorFile) (i : ℕ) (r : TensorRecord)
    → Distinct [] file.metadata.records
    → get_elem? file.metadata.records i ≡ some r
    → file.metadata.data_start + r.begin ≤ length file.mapping
    → length file.mapping ≤ u64_max
    → tensor file r.name ≡ success (view_of file.metadata r)
unfolding tensor find_record view_record
tensor-found file i r names e inside small =
    let start = file.metadata.data_start + r.begin in
    let found = find_if-Distinct [] file.metadata.records i r names e in
    let no_wrap : start % 2 ^ 64 ≡ start = omega arith in
    let no_end : ltb (length file.mapping) start ≡ false = ground arith in
    ap (λ (o : Option TensorRecord). view_record file o) found
    ∙ rw (view_record, no_wrap, no_end) refl

-- In a file that `SafeTensorFile::parse` accepts, `tensor` returns for the name of each record the view
-- of that record, whose bytes are as many as its shape and type ask for, and lie in the file.
pub tensor-parse_file :
    (mapping : List ℕ) (maximum_header_bytes i : ℕ) (file : SafeTensorFile) (r : TensorRecord)
    → parse_file mapping maximum_header_bytes ≡ success file
    → length mapping ≤ u64_max
    → get_elem? file.metadata.records i ≡ some r
    → (tensor file r.name ≡ success (view_of file.metadata r))
      × (n : ℕ) × (checked_nbytes r.shape r.dtype ≡ success n)
      × ((view_of file.metadata r).data_offset + n ≤ length mapping)
unfolding parse_file
tensor-parse_file mapping maximum i file r h l e =
    let (m, parsed, made) = >>=-eq-success (parse_safetensors_metadata mapping maximum) _ h in
    let (start, good, _) = parse_safetensors_metadata-IsIndex mapping maximum m parsed in
    let names = parse_safetensors_metadata-Distinct mapping maximum m parsed in
    let whole : record { mapping = mapping; metadata = m } ≡ file = success-injective made in
    let entry : get_elem? m.records i ≡ some r =
      subst (λ (f : SafeTensorFile). get_elem? f.metadata.records i ≡ some r) (sym whole) e in
    let (ordered, inside, bytes) =
      All-get_elem? (IsRecord (length mapping - m.data_start)) m.records i r good entry in
    let found =
      tensor-found (record { mapping = mapping; metadata = m }) i r names entry (omega arith) l in
    subst
      (λ (f : SafeTensorFile).
        (tensor f r.name ≡ success (view_of f.metadata r))
        × (n : ℕ) × (checked_nbytes r.shape r.dtype ≡ success n)
        × ((view_of f.metadata r).data_offset + n ≤ length mapping))
      whole (found, r.end - r.begin, bytes, omega arith)
