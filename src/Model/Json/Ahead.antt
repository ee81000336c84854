-- ===== src/Model/Json/Ahead.antt =====
-- The parser of src/model/json_parser.cpp ends on every input, and its failures name a position in it.
use market_sim.Prelude.{
  ℕ, zero, suc, ◌+◌, ◌*◌, ◌≤◌, ◌≡◌, inl, inr, refl, Bool, true, false, not, List, [], ◌∷◌, length,
  arith, Bool-cases, ltb, ◌==◌, subst,
}
use market_sim.Core.Status.{
  Result, success, failure, ErrorCode, invalid_json, duplicate_key, resource_limit,
}
use market_sim.Model.Text.{
  Cursor, at, starts, skip_whitespace, consume, consume_literal, parse_number, parse_string,
}
use market_sim.Model.Text.Ahead.{
  size, Ahead, Ahead-trans, Scans, skip_whitespace-Ahead, consume-Ahead, consumed-Ahead,
  consume_literal_any-Ahead, consume_literal-Ahead, failure_at-detail,
}
use market_sim.Model.Text.Ahead.Numbers.{parse_number-Scans}
use market_sim.Model.Text.Ahead.Strings.{parse_string-Scans}
use market_sim.Model.Json.{
  JsonValue, Elements, Members, Outcome, returned, refused, out_of_fuel, ◌>>=◌, scanned, require,
  expect, literal, lead_of, parse_value, parse_object, parse_members, parse_array, parse_elements,
  whole, parse_json, string, number, object, array, member, element, true_bytes, false_bytes,
  null_bytes, contains, maximum_depth,
}
use market_sim.Model.Json.Cases.{either-cases, lead-cases}
use market_sim.Model.Utf8.{is_valid_utf8}

-- A call returns with the position ahead, or it fails with a position inside the input; it does not
-- run out of fuel.
abbrev pub Ends {ℓ} : {A : Type ℓ} → ℕ → Cursor → Outcome A → Type 0
Ends n c (returned a d) = Ahead n c d
Ends n c (refused s) = s.detail ≤ size c
Ends n c out_of_fuel = ⊥

Ends-behind {ℓ} :
    {A : Type ℓ} (n k m : ℕ) (c d : Cursor) (o : Outcome A)
    → Ahead n c d
    → Ends k d o
    → m ≤ n + k
    → Ends m c o
Ends-behind n k m c d (returned a e) h g le = Ahead-trans c d e n k m h g le
Ends-behind n k m c d (refused s) h g le = omega (arith, h.1)
Ends-behind n k m c d out_of_fuel h g le = absurd g

-- A chain of calls.
Ends-bind {ℓ κ} :
    {A : Type ℓ} {B : Type κ} (n k m : ℕ) (c : Cursor) (o : Outcome A) (f : A × Cursor → Outcome B)
    → Ends n c o
    → ((a : A) (d : Cursor) → Ahead n c d → Ends k d (f (a, d)))
    → m ≤ n + k
    → Ends m c (o >>= f)
Ends-bind n k m c (returned a d) f h g le = Ends-behind n k m c d (f (a, d)) h (g a d h) le
Ends-bind n k m c (refused s) f h g le = h
Ends-bind n k m c out_of_fuel f h g le = h

scanned-Ends {ℓ} :
    {A : Type ℓ} (n : ℕ) (c : Cursor) (r : Result (A × Cursor)) → Scans n c r → Ends n c (scanned r)
scanned-Ends n c (success a) h = h
scanned-Ends n c (failure s) h = h

require-Ends :
    (test : Bool) (code : ErrorCode) (n : ℕ) (c d : Cursor)
    → Ahead 0 c d
    → (test ≡ true → Ahead n c d)
    → Ends n c (require test code d)
unfolding require
require-Ends true code n c d a h = h refl
require-Ends false code n c d a h = omega (arith, a.1, failure_at-detail code d)

-- A test that moves nothing.
checked-Ends : (test : Bool) (code : ErrorCode) (c : Cursor) → Ends 0 c (require test code c)
checked-Ends test code c =
    require-Ends test code 0 c c (omega arith, refl) (λ _. (omega arith, refl))

expect-Ends : (byte : ℕ) (c : Cursor) → Ends 1 c (expect byte c)
unfolding expect
expect-Ends byte c =
    require-Ends (consume byte c).0 invalid_json 1 c _ (consume-Ahead byte c)
      (consumed-Ahead byte c)

literal-Ends :
    (bytes : List ℕ) (v : JsonValue) (c : Cursor) → 1 ≤ length bytes → Ends 1 c (literal bytes v c)
unfolding literal
literal-Ends bytes v c h =
    let r = consume_literal bytes c in
    Ends-bind 1 0 1 c (require r.0 invalid_json r.1) (λ (x : (Unit {0}) × Cursor). returned v x.1)
      (require-Ends r.0 invalid_json 1 c r.1 (consume_literal_any-Ahead bytes c) (λ e.
        Ahead-trans c r.1 r.1 (length bytes) 0 1 (consume_literal-Ahead bytes c e)
          (omega arith, refl) (omega arith)))
      (λ _ d a. (omega arith, refl)) (omega arith)

-- A value made of what a call returns.
made-Ends {ℓ κ} :
    {A : Type ℓ} {B : Type κ} (n : ℕ) (c : Cursor) (o : Outcome A) (f : A → B)
    → Ends n c o
    → Ends n c (o >>= λ (a, next). returned (f a) next)
made-Ends n c (returned a d) f h = h
made-Ends n c (refused s) f h = h
made-Ends n c out_of_fuel f h = h

-- The white space and the closing byte, if it is there.
close : ℕ → Cursor → Bool × Cursor
close byte c = consume byte (skip_whitespace c)

close-Ahead : (byte : ℕ) (c : Cursor) → Ahead 0 c (close byte c).1
unfolding close
close-Ahead byte c =
    Ahead-trans c (skip_whitespace c) _ 0 0 0 (skip_whitespace-Ahead c) (consume-Ahead byte _)
      (omega arith)

mutual
  unfolding parse_value close

  value-Ends :
      (f depth : ℕ) (c : Cursor) → 3 * length c.rest + 2 ≤ f → Ends 1 c (parse_value f depth c)
  value-Ends zero depth c h = absurd (omega arith)
  value-Ends (suc f) depth c h =
      Ends-bind 0 1 1 c (require (not (ltb maximum_depth depth)) resource_limit c) _
        (checked-Ends (not (ltb maximum_depth depth)) resource_limit c)
        (λ _ d a.
          let s = skip_whitespace d in
          let b = skip_whitespace-Ahead d in
          Ends-behind 0 1 1 d s _ b
            (lead-cases (λ o. Ends 1 s o) (lead_of s.rest) _ _ _ _ _ _ _ _
              (failure_at-detail invalid_json s)
              (object-Ends f (depth + 1) s (omega (arith, h, a.0, a.1, b.0, b.1)))
              (array-Ends f (depth + 1) s (omega (arith, h, a.0, a.1, b.0, b.1)))
              (made-Ends 1 s (scanned (parse_string s)) string
                (scanned-Ends 1 s _ (parse_string-Scans s)))
              (literal-Ends true_bytes _ s (omega arith))
              (literal-Ends false_bytes _ s (omega arith))
              (literal-Ends null_bytes _ s (omega arith))
              (made-Ends 1 s (scanned (parse_number s)) number
                (scanned-Ends 1 s _ (parse_number-Scans s))))
            (omega arith))
        (omega arith)

  object-Ends :
      (f depth : ℕ) (c : Cursor) → 3 * length c.rest + 1 ≤ f → Ends 1 c (parse_object f depth c)
  object-Ends zero depth c h = absurd (omega arith)
  object-Ends (suc f) depth c h =
      Ends-bind 1 0 1 c (expect 123 c) _ (expect-Ends 123 c)
        (λ _ d a.
          let b = close-Ahead 125 d in
          either-cases (λ (o : Outcome JsonValue). Ends 0 d o) (close 125 d).0 _ _ b
            (Ends-behind 0 0 0 d (close 125 d).1 _ b
              (made-Ends 0 (close 125 d).1 _ object
                (members-Ends f depth [] _ (omega (arith, h, a.0, a.1, b.0, b.1))))
              (omega arith)))
        (omega arith)

  members-Ends :
      (f depth : ℕ) (keys : List (List ℕ)) (c : Cursor)
      → 3 * length c.rest + 3 ≤ f
      → Ends 0 c (parse_members f depth keys c)
  members-Ends zero depth keys c h = absurd (omega arith)
  members-Ends (suc f) depth keys c h =
      let s = skip_whitespace c in
      let b = skip_whitespace-Ahead c in
      Ends-behind 0 0 0 c s _ b
        (Ends-bind 0 0 0 s (require (starts 34 s) invalid_json s) _
          (checked-Ends (starts 34 s) invalid_json s)
          (λ _ d a₁.
            Ends-bind 1 0 0 d (scanned (parse_string d)) _
              (scanned-Ends 1 d _ (parse_string-Scans d))
              (λ key e a₂.
                Ends-bind 0 0 0 e (require (not (contains keys key)) duplicate_key e) _
                  (checked-Ends (not (contains keys key)) duplicate_key e)
                  (λ _ g a₃.
                    Ends-bind 1 0 0 g (expect 58 g) _ (expect-Ends 58 g)
                      (λ _ k a₄.
                        Ends-bind 1 0 0 k (parse_value f depth k) _
                          (value-Ends f depth k (omega (arith, h, b.0, b.1, a₁, a₂, a₃, a₄)))
                          (λ v l a₅.
                            let z = close-Ahead 125 l in
                            either-cases (λ (o : Outcome Members). Ends 0 l o) (close 125 l).0 _ _ z
                              (Ends-behind 0 0 0 l (close 125 l).1 _ z
                                (Ends-bind 1 0 0 (close 125 l).1 (expect 44 (close 125 l).1) _
                                  (expect-Ends 44 (close 125 l).1)
                                  (λ _ m a₆. made-Ends 0 m _ (member key v) (
                                    members-Ends f depth (key ∷ keys) m
                                      (omega (arith, h, b, a₁, a₂, a₃, a₄, a₅, a₆, z))))
                                  (omega arith))
                                (omega arith)))
                          (omega arith))
                      (omega arith))
                  (omega arith))
              (omega arith))
          (omega arith))
        (omega arith)

  array-Ends :
      (f depth : ℕ) (c : Cursor) → 3 * length c.rest + 1 ≤ f → Ends 1 c (parse_array f depth c)
  array-Ends zero depth c h = absurd (omega arith)
  array-Ends (suc f) depth c h =
      Ends-bind 1 0 1 c (expect 91 c) _ (expect-Ends 91 c)
        (λ _ d a.
          let b = close-Ahead 93 d in
          either-cases (λ (o : Outcome JsonValue). Ends 0 d o) (close 93 d).0 _ _ b
            (Ends-behind 0 0 0 d (close 93 d).1 _ b
              (made-Ends 0 (close 93 d).1 _ array
                (elements-Ends f depth _ (omega (arith, h, a.0, a.1, b.0, b.1))))
              (omega arith)))
        (omega arith)

  elements-Ends :
      (f depth : ℕ) (c : Cursor) → 3 * length c.rest + 3 ≤ f → Ends 0 c (parse_elements f depth c)
  elements-Ends zero depth c h = absurd (omega arith)
  elements-Ends (suc f) depth c h =
      Ends-bind 1 0 0 c (parse_value f depth c) _ (value-Ends f depth c (omega arith))
        (λ v l a.
          let z = close-Ahead 93 l in
          either-cases (λ (o : Outcome Elements). Ends 0 l o) (close 93 l).0 _ _ z
            (Ends-behind 0 0 0 l (close 93 l).1 _ z
              (Ends-bind 1 0 0 (close 93 l).1 (expect 44 (close 93 l).1) _
                (expect-Ends 44 (close 93 l).1)
                (λ _ m b.
                  made-Ends 0 m _ (element v) (elements-Ends f depth m (omega (arith, h, a, b, z))))
                (omega arith))
              (omega arith)))
        (omega arith)

-- Where `parse_json` ends.
abbrev pub Concludes : ℕ → Outcome JsonValue → Type 0
Concludes n (returned v c) = (c.position ≡ n) × (c.rest ≡ [])
Concludes n (refused s) = s.detail ≤ n
Concludes n out_of_fuel = ⊥

empty-rest : (xs : List ℕ) → (length xs == 0) ≡ true → xs ≡ []
empty-rest [] h = refl
empty-rest (x ∷ xs) h = absurd (ground arith)

whole-Concludes : (v : JsonValue) (c : Cursor) → Concludes (size c) (whole (v, c))
unfolding whole require
whole-Concludes v c =
    let s = skip_whitespace c in
    let b = skip_whitespace-Ahead c in
    elim (Bool-cases (length s.rest == 0)) [
      | inl e ↦ let none_left = empty-rest s.rest e in rw e (ground (arith, b.1), none_left)
      | inr e ↦ rw e (omega (arith, b.1, failure_at-detail invalid_json s))
    ]

parsed-Concludes :
    (c : Cursor) (o : Outcome JsonValue) → Ends 1 c o → Concludes (size c) (o >>= whole)
parsed-Concludes c (returned v d) h =
    subst (λ (n : ℕ). Concludes n (whole (v, d))) h.1 (whole-Concludes v d)
parsed-Concludes c (refused s) h = h
parsed-Concludes c out_of_fuel h = h

-- `parse_json` ends on every input: it returns a value, with the whole input read, or it fails with
-- a detail that is at most the input's length.
pub parse_json-Concludes : (input : List ℕ) → Concludes (length input) (parse_json input)
unfolding parse_json require
parse_json-Concludes input = elim (Bool-cases (is_valid_utf8 input)) [
  | inl e ↦
      let total : size (at 0 input) ≡ length input = omega arith in
      let o = parse_value (3 * length input + 2) 0 (at 0 input) in
      rw e (
        subst (λ (n : ℕ). Concludes n (o >>= whole)) total
          (parsed-Concludes (at 0 input) o
            (value-Ends (3 * length input + 2) 0 (at 0 input) (omega arith))))
  | inr e ↦ rw e (omega arith)
]
