-- ===== src/Model/Json/Valid.antt =====
-- What `parse_json` of src/model/json_parser.cpp returns: values nested at most 64 deep, whose objects
-- have each key once, so that `JsonValue::find` finds every member.
use market_sim.Prelude.{
  ℕ, zero, suc, ◌+◌, ◌≤◌, ◌≡◌, inl, inr, refl, Bool, true, false, not, List, [], ◌∷◌, arith, ltb,
  ◌==◌, some, ◌⊎◌, ◌*◌, length, subst, sym,
}
use market_sim.Core.Status.{
  Result, success, failure, ErrorCode, duplicate_key, resource_limit, invalid_utf8, invalid_json,
}
use market_sim.Model.Utf8.{is_valid_utf8}
use market_sim.Model.Text.{
  Cursor, starts, skip_whitespace, consume, consume_literal, same_bytes, parse_string, parse_number,
  at,
}
use market_sim.Model.Json.{
  JsonValue, Elements, Members, Outcome, returned, refused, out_of_fuel, ◌>>=◌, scanned, require,
  expect, literal, lead_of, parse_value, parse_object, parse_members, parse_array, parse_elements,
  whole, parse_json, string, number, object, array, no_members, no_elements, member, element,
  true_bytes, false_bytes, null_bytes, boolean, null_value, contains, maximum_depth, find,
  find_member,
}
use market_sim.Model.Json.Cases.{either-cases, lead-cases}

-- A value at a depth, and the elements and members of one. A member's key is not among those before.
unfoldable mutual
  pub IsValid : ℕ → JsonValue → Type 0
  IsValid depth null_value = depth ≤ maximum_depth
  IsValid depth (boolean b) = depth ≤ maximum_depth
  IsValid depth (number text) = depth ≤ maximum_depth
  IsValid depth (string text) = depth ≤ maximum_depth
  IsValid depth (array es) = (depth ≤ maximum_depth) × ElementsValid (depth + 1) es
  IsValid depth (object ms) = (depth ≤ maximum_depth) × MembersValid (depth + 1) [] ms

  pub ElementsValid : ℕ → Elements → Type 0
  ElementsValid depth no_elements = Unit
  ElementsValid depth (element v es) = IsValid depth v × ElementsValid depth es

  pub MembersValid : ℕ → List (List ℕ) → Members → Type 0
  MembersValid depth keys no_members = Unit
  MembersValid depth keys (member key v ms) =
      (contains keys key ≡ false) × IsValid depth v × MembersValid depth (key ∷ keys) ms

-- What holds of a value that a call returns, if it returns one.
abbrev Gives {ℓ} : {A : Type ℓ} → (A → Type 0) → Outcome A → Type 0
Gives P (returned a c) = P a
Gives P (refused s) = Unit
Gives P out_of_fuel = Unit

Gives-bind {ℓ κ} :
    {A : Type ℓ} {B : Type κ} (P : A → Type 0) (Q : B → Type 0) (o : Outcome A)
    (f : A × Cursor → Outcome B)
    → Gives P o
    → ((a : A) (c : Cursor) → P a → Gives Q (f (a, c)))
    → Gives Q (o >>= f)
Gives-bind P Q (returned a c) f h g = g a c h
Gives-bind P Q (refused s) f h g = tt
Gives-bind P Q out_of_fuel f h g = tt

-- Where nothing is known of the first value.
Gives-any {ℓ} : {A : Type ℓ} (o : Outcome A) → Gives (λ _. Unit) o
Gives-any (returned a c) = tt
Gives-any (refused s) = tt
Gives-any out_of_fuel = tt

Gives-require :
    (test : Bool) (code : ErrorCode) (c : Cursor) → Gives (λ _. test ≡ true) (require test code c)
unfolding require
Gives-require true code c = refl
Gives-require false code c = tt

scalar-Gives :
    (depth : ℕ) (r : Result (List ℕ × Cursor)) (f : List ℕ → JsonValue)
    → ((text : List ℕ) → IsValid depth (f text))
    → Gives (IsValid depth) (scanned r >>= λ (text, next). returned (f text) next)
scalar-Gives depth (success r) f h = h r.0
scalar-Gives depth (failure s) f h = tt

literal-Gives :
    (depth : ℕ) (bytes : List ℕ) (v : JsonValue) (c : Cursor)
    → IsValid depth v
    → Gives (IsValid depth) (literal bytes v c)
unfolding literal
literal-Gives depth bytes v c h =
    let r = consume_literal bytes c in
    Gives-bind (λ _. Unit) (IsValid depth) (require r.0 invalid_json r.1) _
      (Gives-any (require r.0 invalid_json r.1)) (λ _ _ _. h)

mutual
  unfolding parse_value IsValid

  value-Gives : (f depth : ℕ) (c : Cursor) → Gives (IsValid depth) (parse_value f depth c)
  value-Gives zero depth c = tt
  value-Gives (suc f) depth c =
      Gives-bind (λ _. not (ltb maximum_depth depth) ≡ true) (IsValid depth)
        (require (not (ltb maximum_depth depth)) resource_limit c) _
        (Gives-require (not (ltb maximum_depth depth)) resource_limit c)
        λ _ d shallow.
          let s = skip_whitespace d in
          let h : depth ≤ maximum_depth = ground arith in
          lead-cases (Gives (IsValid depth)) (lead_of s.rest) _ _ _ _ _ _ _ _ tt
            (object-Gives f depth s h) (array-Gives f depth s h)
            (scalar-Gives depth (parse_string s) string (λ _. h))
            (literal-Gives depth true_bytes (boolean true) s h)
            (literal-Gives depth false_bytes (boolean false) s h)
            (literal-Gives depth null_bytes null_value s h)
            (scalar-Gives depth (parse_number s) number (λ _. h))

  object-Gives :
      (f depth : ℕ) (c : Cursor)
      → depth ≤ maximum_depth
      → Gives (IsValid depth) (parse_object f (depth + 1) c)
  object-Gives zero depth c h = tt
  object-Gives (suc f) depth c h =
      Gives-bind (λ _. Unit) (IsValid depth) (expect 123 c) _ (Gives-any (expect 123 c))
        λ _ d _.
          either-cases (Gives (IsValid depth)) (consume 125 (skip_whitespace d)).0 _ _ (h, tt)
            (Gives-bind (MembersValid (depth + 1) []) (IsValid depth) _ _
              (members-Gives f (depth + 1) [] _) λ ms _ valid. (h, valid))

  members-Gives :
      (f depth : ℕ) (keys : List (List ℕ)) (c : Cursor)
      → Gives (MembersValid depth keys) (parse_members f depth keys c)
  members-Gives zero depth keys c = tt
  members-Gives (suc f) depth keys c =
      let s = skip_whitespace c in
      let Q = MembersValid depth keys in
      Gives-bind (λ _. Unit) Q (require (starts 34 s) invalid_json s) _
        (Gives-any (require (starts 34 s) invalid_json s))
        λ _ d _.
          Gives-bind (λ _. Unit) Q (scanned (parse_string d)) _ (Gives-any _)
            λ key e _.
              Gives-bind (λ _. not (contains keys key) ≡ true) Q
                (require (not (contains keys key)) duplicate_key e) _
                (Gives-require _ duplicate_key e)
                λ _ e fresh.
                  Gives-bind (λ _. Unit) Q (expect 58 e) _ (Gives-any _)
                    λ _ g _.
                      Gives-bind (IsValid depth) Q (parse_value f depth g) _ (value-Gives f depth g)
                        λ v k valid.
                          let new : contains keys key ≡ false = ground arith in
                          either-cases (Gives Q) (consume 125 (skip_whitespace k)).0
                            (returned (member key v no_members) _) _ (new, valid, tt)
                            (Gives-bind (λ _. Unit) Q
                              (expect 44 (consume 125 (skip_whitespace k)).1) _
                              (Gives-any (expect 44 (consume 125 (skip_whitespace k)).1))
                              λ _ l _.
                                Gives-bind (MembersValid depth (key ∷ keys)) Q _ _
                                  (members-Gives f depth (key ∷ keys) l)
                                  λ ms _ below.
                                    let done : Q (member key v ms) = (new, valid, below) in done)

  array-Gives :
      (f depth : ℕ) (c : Cursor)
      → depth ≤ maximum_depth
      → Gives (IsValid depth) (parse_array f (depth + 1) c)
  array-Gives zero depth c h = tt
  array-Gives (suc f) depth c h =
      Gives-bind (λ _. Unit) (IsValid depth) (expect 91 c) _ (Gives-any (expect 91 c))
        λ _ d _.
          either-cases (Gives (IsValid depth)) (consume 93 (skip_whitespace d)).0 _ _ (h, tt)
            (Gives-bind (ElementsValid (depth + 1)) (IsValid depth) _ _
              (elements-Gives f (depth + 1) _) λ ms _ valid. (h, valid))

  elements-Gives :
      (f depth : ℕ) (c : Cursor) → Gives (ElementsValid depth) (parse_elements f depth c)
  elements-Gives zero depth c = tt
  elements-Gives (suc f) depth c =
      let Q = ElementsValid depth in
      Gives-bind (IsValid depth) Q (parse_value f depth c) _ (value-Gives f depth c) λ v k valid.
        either-cases (Gives Q) (consume 93 (skip_whitespace k)).0 _ _ (valid, tt)
          (Gives-bind (λ _. Unit) Q (expect 44 (consume 93 (skip_whitespace k)).1) _
            (Gives-any (expect 44 (consume 93 (skip_whitespace k)).1))
            λ _ l _.
              Gives-bind Q Q _ _ (elements-Gives f depth l)
                λ es _ below. let done : Q (element v es) = (valid, below) in done)

whole-Gives : (v : JsonValue) (c : Cursor) → IsValid 0 v → Gives (IsValid 0) (whole (v, c))
unfolding whole
whole-Gives v c valid =
    let s = skip_whitespace c in
    let end = require (length s.rest == 0) invalid_json s in
    Gives-bind (λ _. Unit) (IsValid 0) end _ (Gives-any end) λ _ _ _. valid

-- A value that `parse_json` returns is nested at most 64 deep, and no object in it, at any depth, has
-- a key twice.
pub parse_json-IsValid :
    (input : List ℕ) (v : JsonValue) (c : Cursor) → parse_json input ≡ returned v c → IsValid 0 v
unfolding parse_json
parse_json-IsValid input v c h =
    subst (λ (o : Outcome JsonValue). Gives (IsValid 0) o) h
      (Gives-bind (λ _. Unit) (IsValid 0) (require (is_valid_utf8 input) invalid_utf8 (at 0 input))
        _ (Gives-any _)
        λ _ d _.
          Gives-bind (IsValid 0) (IsValid 0) (parse_value (3 * length input + 2) 0 d) whole
            (value-Gives (3 * length input + 2) 0 d) λ v e valid. whole-Gives v e valid)

-- A member of an object.
unfoldable pub Has : Members → List ℕ → JsonValue → Type 0
Has no_members key w = ⊥
Has (member k v ms) key w = ((k ≡ key) × (v ≡ w)) ⊎ Has ms key w

pub same_bytes_refl : (xs : List ℕ) → same_bytes xs xs ≡ true
unfolding same_bytes
same_bytes_refl [] = refl
same_bytes_refl (x ∷ xs) = ground (arith, same_bytes_refl xs)

fresh-Has :
    (depth : ℕ) (keys : List (List ℕ)) (ms : Members) (key : List ℕ) (w : JsonValue)
    → MembersValid depth keys ms
    → Has ms key w
    → contains keys key ≡ false
unfolding Has IsValid contains
fresh-Has depth keys no_members key w valid h = absurd h
fresh-Has depth keys (member k v ms) key w valid (inl (same, _)) = rw (sym same) valid.0
fresh-Has depth keys (member k v ms) key w valid (inr h) =
    let below = fresh-Has depth (k ∷ keys) ms key w valid.2 h in ground arith

find_member-Has :
    (depth : ℕ) (keys : List (List ℕ)) (ms : Members) (key : List ℕ) (w : JsonValue)
    → MembersValid depth keys ms
    → Has ms key w
    → find_member key ms ≡ some w
unfolding Has IsValid find_member contains
find_member-Has depth keys no_members key w valid h = absurd h
find_member-Has depth keys (member k v ms) key w valid (inl (same, value)) =
    let found = same_bytes_refl key in rw (same, found, value) refl
find_member-Has depth keys (member k v ms) key w valid (inr h) =
    let below = fresh-Has depth (k ∷ keys) ms key w valid.2 h in
    let other_key : same_bytes k key ≡ false = ground arith in
    rw other_key (find_member-Has depth (k ∷ keys) ms key w valid.2 h)

-- In an object that `parse_json` returns, `find` finds each member under its key.
pub find-parse_json :
    (input : List ℕ) (ms : Members) (c : Cursor) (key : List ℕ) (v : JsonValue)
    → parse_json input ≡ returned (object ms) c
    → Has ms key v
    → find (object ms) key ≡ some v
unfolding find IsValid
find-parse_json input ms c key v h m =
    find_member-Has 1 [] ms key v (parse_json-IsValid input (object ms) c h).1 m
