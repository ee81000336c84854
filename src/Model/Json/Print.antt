-- ===== src/Model/Json/Print.antt =====
-- The round trip of src/model/json_parser.cpp: what is written for a value, by the grammar of JSON, is
-- parsed to that value. The writer is the specification's, since the source has none.
use market_sim.Prelude.{
  ℕ, zero, suc, ◌+◌, ◌*◌, ◌≤◌, ◌≡◌, refl, Bool, true, false, not, List, [], ◌∷◌, ◌++◌, length,
  arith, ltb, ap, ◌∙◌, subst,
}
use market_sim.Core.Status.{invalid_json, invalid_utf8}
use market_sim.Model.Utf8.{is_valid_utf8}
use market_sim.Model.Text.{
  failure_at, Cursor, at, head_passes, skip_whitespace, parse_string, parse_number,
}
use market_sim.Model.Text.Written.{
  text_onto, length-text_onto, parse_string-text_onto, IsInteger, continues, parse_number-IsInteger,
}
use market_sim.Model.Json.{
  JsonValue, Elements, Members, Outcome, returned, ◌>>=◌, scanned, require, lead_of, Lead, other,
  refused, literal, brace, bracket, ended, letter_f, letter_n, letter_t, quote, parse_value,
  parse_object, parse_members, parse_array, parse_elements, whole, parse_json, string, number,
  object, array, no_members, no_elements, member, element, true_bytes, false_bytes, null_bytes,
  boolean, null_value, contains, maximum_depth,
}
use market_sim.Model.Json.Ahead.{Concludes, parse_json-Concludes}
use market_sim.Model.Json.Valid.{IsValid, ElementsValid, MembersValid}
use market_sim.Model.Json.Writer.{
  length-value_onto, print, HasIntegers, ElementsHave, MembersHave, elements_onto, members_onto,
  value_onto, digit-lead_of, digit-skip, integer_first, no-IsInteger, value_first,
}

-- What is read of a value's text: the value, up to what follows.
abbrev Reads {ℓ} : {A : Type ℓ} → Outcome A → A → List ℕ → Type ℓ
Reads o a behind = (q : ℕ) × (o ≡ returned a (at q behind))

IsValid-depth : (depth : ℕ) (v : JsonValue) → IsValid depth v → depth ≤ maximum_depth
unfolding IsValid
IsValid-depth depth null_value h = h
IsValid-depth depth (boolean b) h = h
IsValid-depth depth (number text) h = h
IsValid-depth depth (string text) h = h
IsValid-depth depth (array es) h = h.0
IsValid-depth depth (object ms) h = h.0

-- The switch of `parse_value`, at a byte that is no white space.
value_case : ℕ → ℕ → Lead → Cursor → Outcome JsonValue
unfolding parse_value
value_case f depth lead s = elim lead [
  | ended ↦ refused (failure_at invalid_json s)
  | brace ↦ parse_object f (depth + 1) s
  | bracket ↦ parse_array f (depth + 1) s
  | quote ↦ scanned (parse_string s) >>= λ (text, next). returned (string text) next
  | letter_t ↦ literal true_bytes (boolean true) s
  | letter_f ↦ literal false_bytes (boolean false) s
  | letter_n ↦ literal null_bytes null_value s
  | other ↦ scanned (parse_number s) >>= λ (text, next). returned (number text) next
]

value_at :
    (f depth : ℕ) (c : Cursor)
    → depth ≤ maximum_depth
    → parse_value (suc f) depth c
      ≡ value_case f depth (lead_of (skip_whitespace c).rest) (skip_whitespace c)
unfolding parse_value value_case
value_at f depth c h =
    let shallow : ltb maximum_depth depth ≡ false = ground arith in rw shallow refl

number_case :
    (f depth p : ℕ) (text behind : List ℕ)
    → IsInteger text
    → head_passes continues behind ≡ false
    → value_case f depth other (at p (text ++ behind))
      ≡ returned (number text) (at (p + length text) behind)
unfolding value_case
number_case f depth p text behind i h =
    ap (λ r. scanned r >>= λ (t, next). returned (number t) next)
      (parse_number-IsInteger p text behind i h)

number-Reads :
    (f depth p : ℕ) (text behind : List ℕ)
    → depth ≤ maximum_depth
    → IsInteger text
    → head_passes continues behind ≡ false
    → Reads (parse_value (suc f) depth (at p (text ++ behind))) (number text) behind
number-Reads f depth p [] behind d i h = absurd (no-IsInteger i)
number-Reads f depth p (x ∷ xs) behind d i h =
    let digit = integer_first x xs i in
    let c = at p (x ∷ xs ++ behind) in
    let case_other : value_case f depth other c
        ≡ returned (number (x ∷ xs)) (at (p + length (x ∷ xs)) behind) =
      number_case f depth p (x ∷ xs) behind i h in
    (
      p + length (x ∷ xs),
      value_at f depth c d
          ∙ ap (λ (s : Cursor). value_case f depth (lead_of s.rest) s)
              (digit-skip x p (xs ++ behind) digit)
          ∙ ap (λ (l : Lead). value_case f depth l c) (digit-lead_of x (xs ++ behind) digit)
          ∙ case_other,
    )

mutual
  unfolding parse_value value_onto HasIntegers IsValid

  value-Reads :
      (f depth p : ℕ) (v : JsonValue) (behind : List ℕ)
      → IsValid depth v
      → HasIntegers v
      → head_passes continues behind ≡ false
      → 3 * length (value_onto v behind) + 2 ≤ f
      → Reads (parse_value f depth (at p (value_onto v behind))) v behind
  value-Reads zero depth p v behind ok i h l = absurd (omega arith)
  value-Reads (suc f) depth p null_value behind ok i h l =
      let shallow : ltb maximum_depth depth ≡ false = ground arith in rw shallow (p + 4, refl)
  value-Reads (suc f) depth p (boolean true) behind ok i h l =
      let shallow : ltb maximum_depth depth ≡ false = ground arith in rw shallow (p + 4, refl)
  value-Reads (suc f) depth p (boolean false) behind ok i h l =
      let shallow : ltb maximum_depth depth ≡ false = ground arith in rw shallow (p + 5, refl)
  value-Reads (suc f) depth p (number text) behind ok i h l =
      number-Reads f depth p text behind ok i h
  value-Reads (suc f) depth p (string text) behind ok i h l =
      let shallow : ltb maximum_depth depth ≡ false = ground arith in
      let (q, e) = parse_string-text_onto p text behind in
      rw (shallow) (q, ap (λ r. scanned r >>= λ (t, next). returned (string t) next) e)
  value-Reads (suc f) depth p (array no_elements) behind ok i h l =
      let shallow : ltb maximum_depth depth ≡ false = ground arith in
      rw (shallow) (array-Reads f depth p no_elements behind ok.1 i (omega arith))
  value-Reads (suc f) depth p (array (element v es)) behind ok i h l =
      let shallow : ltb maximum_depth depth ≡ false = ground arith in
      rw (shallow) (array-Reads f depth p (element v es) behind ok.1 i (omega arith))
  value-Reads (suc f) depth p (object no_members) behind ok i h l =
      let shallow : ltb maximum_depth depth ≡ false = ground arith in
      rw (shallow) (object-Reads f depth p no_members behind ok.1 i (omega arith))
  value-Reads (suc f) depth p (object (member key v ms)) behind ok i h l =
      let shallow : ltb maximum_depth depth ≡ false = ground arith in
      rw (shallow) (object-Reads f depth p (member key v ms) behind ok.1 i (omega arith))

  array-Reads :
      (f depth p : ℕ) (es : Elements) (behind : List ℕ)
      → ElementsValid (depth + 1) es
      → ElementsHave es
      → 3 * length (value_onto (array es) behind) + 1 ≤ f
      → Reads (parse_array f (depth + 1) (at p (value_onto (array es) behind))) (array es) behind
  array-Reads zero depth p es behind ok i l = absurd (omega arith)
  array-Reads (suc f) depth p no_elements behind ok i l = (p + 1 + 1, refl)
  array-Reads (suc f) depth p (element v es) behind ok i l =
      let (q, e) = elements-Reads f (depth + 1) (p + 1) v es behind ok i (omega arith) in
      (
        q,
        ap
              (λ (close : Bool × Cursor). elim close.0 [
                | true ↦ returned (array no_elements) close.1
                | false ↦
                    parse_elements f (depth + 1) close.1 >>= λ (vs, next). returned (array vs) next
              ])
              (value_first v (p + 1) (elements_onto es behind) i.0)
            ∙ ap (λ o. o >>= λ (vs, next). returned (array vs) next) e,
      )

  elements-Reads :
      (f depth p : ℕ) (v : JsonValue) (es : Elements) (behind : List ℕ)
      → ElementsValid depth (element v es)
      → ElementsHave (element v es)
      → 3 * length (value_onto v (elements_onto es behind)) + 3 ≤ f
      → Reads
          (parse_elements f depth (at p (value_onto v (elements_onto es behind))))
          (element v es)
          behind
  elements-Reads zero depth p v es behind ok i l = absurd (omega arith)
  elements-Reads (suc f) depth p v no_elements behind ok i l =
      let (q, e) = value-Reads f depth p v (93 ∷ behind) ok.0 i.0 refl (omega arith) in
      rw e (q + 1, refl)
  elements-Reads (suc f) depth p v (element w es) behind ok i l =
      let (q, e) =
        value-Reads f depth p v (elements_onto (element w es) behind) ok.0 i.0 refl (omega arith) in
      let (r, g) =
        elements-Reads f depth (q + 1) w es behind ok.1 i.1
          (omega (arith, length-value_onto v (elements_onto (element w es) behind) i.0)) in
      rw (e, g) (r, refl)

  object-Reads :
      (f depth p : ℕ) (ms : Members) (behind : List ℕ)
      → MembersValid (depth + 1) [] ms
      → MembersHave ms
      → 3 * length (value_onto (object ms) behind) + 1 ≤ f
      → Reads (parse_object f (depth + 1) (at p (value_onto (object ms) behind))) (object ms) behind
  object-Reads zero depth p ms behind ok i l = absurd (omega arith)
  object-Reads (suc f) depth p no_members behind ok i l = (p + 1 + 1, refl)
  object-Reads (suc f) depth p (member key v ms) behind ok i l =
      let (q, e) = members-Reads f (depth + 1) (p + 1) [] key v ms behind ok i (omega arith) in
      (q, ap (λ o. o >>= λ (ms, next). returned (object ms) next) e)

  members-Reads :
      (f depth p : ℕ) (keys : List (List ℕ)) (key : List ℕ) (v : JsonValue) (ms : Members)
      (behind : List ℕ)
      → MembersValid depth keys (member key v ms)
      → MembersHave (member key v ms)
      → 3 * length (34 ∷ text_onto key (58 ∷ value_onto v (members_onto ms behind))) + 3 ≤ f
      → Reads
          (parse_members f depth keys
            (at p (34 ∷ text_onto key (58 ∷ value_onto v (members_onto ms behind)))))
          (member key v ms)
          behind
  members-Reads zero depth p keys key v ms behind ok i l = absurd (omega arith)
  members-Reads (suc f) depth p keys key v no_members behind ok i l =
      let (q, e) = parse_string-text_onto p key (58 ∷ value_onto v (125 ∷ behind)) in
      let (r, g) =
        value-Reads f depth (q + 1) v (125 ∷ behind) ok.1 i.0 refl
          (omega (arith, length-text_onto key (58 ∷ value_onto v (125 ∷ behind)))) in
      let fresh : not (contains keys key) ≡ true = ground arith in rw (e, fresh, g) (r + 1, refl)
  members-Reads (suc f) depth p keys key v (member name w ms) behind ok i l =
      let more = members_onto (member name w ms) behind in
      let long = length-text_onto key (58 ∷ value_onto v more) in
      let (q, e) = parse_string-text_onto p key (58 ∷ value_onto v more) in
      let (r, g) = value-Reads f depth (q + 1) v more ok.1 i.0 refl (omega (arith, long)) in
      let (t, k) =
        members-Reads f depth (r + 1) (key ∷ keys) name w ms behind ok.2 i.1
          (omega (arith, long, length-value_onto v more i.0)) in
      let fresh : not (contains keys key) ≡ true = ground arith in rw (e, fresh, g, k) (t, refl)

-- Every JSON text that is written for a value comes back as that value: the value is nested at most
-- 64 deep, has no object with a key twice, and has for its numbers integers with or without a minus
-- sign, and the text is UTF-8.
pub parse_json-print :
    (v : JsonValue)
    → IsValid 0 v
    → HasIntegers v
    → is_valid_utf8 (print v) ≡ true
    → parse_json (print v) ≡ returned v (at (length (print v)) [])
unfolding parse_json print
parse_json-print v ok i utf8 =
    let (q, e) = value-Reads (3 * length (print v) + 2) 0 0 v [] ok i refl (omega arith) in
    let parsed : parse_json (print v) ≡ returned v (at q []) =
      ap
        (λ (t : Bool). require t invalid_utf8 (at 0 (print v)) >>= λ (_, c).
          parse_value (3 * length (print v) + 2) 0 c >>= whole)
        utf8
      ∙ ap (λ o. o >>= whole) e in
    let end =
      subst (λ (o : Outcome JsonValue). Concludes (length (print v)) o) parsed
        (parse_json-Concludes (print v)) in
    parsed ∙ ap (λ (n : ℕ). returned v (at n [])) end.0
