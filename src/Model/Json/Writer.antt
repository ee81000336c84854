-- ===== src/Model/Json/Writer.antt =====
-- A JSON text written for a value, by the grammar and not by src/model/json_parser.cpp, which has no
-- writer, and what the parser sees at its first byte.
use market_sim.Prelude.{
  Bool, inl, inr, ◌||◌, ℕ, ◌<◌, ◌≡◌, refl, true, false, List, [], ◌∷◌, ◌++◌, length, arith, ◌==◌,
  ap, ◌∙◌, length-append,
}
use market_sim.Model.Text.{is_digit, Cursor, at, head_passes, is_space, skip_whitespace, consume}
use market_sim.Model.Text.Written.{text_onto, length-text_onto, IsInteger, continues}
use market_sim.Model.Json.{
  JsonValue, Elements, Members, lead_of, other, string, number, object, array, no_members,
  no_elements, member, element, true_bytes, false_bytes, null_bytes, boolean, null_value,
}

-- A value's text, in front of what follows.
unfoldable mutual
  unfolding text_onto

  pub value_onto : JsonValue → List ℕ → List ℕ
  value_onto null_value behind = null_bytes ++ behind
  value_onto (boolean true) behind = true_bytes ++ behind
  value_onto (boolean false) behind = false_bytes ++ behind
  value_onto (number text) behind = text ++ behind
  value_onto (string text) behind = 34 ∷ text_onto text behind
  value_onto (array no_elements) behind = 91 ∷ 93 ∷ behind
  value_onto (array (element v es)) behind = 91 ∷ value_onto v (elements_onto es behind)
  value_onto (object no_members) behind = 123 ∷ 125 ∷ behind
  value_onto (object (member key v ms)) behind =
      123 ∷ 34 ∷ text_onto key (58 ∷ value_onto v (members_onto ms behind))

  pub elements_onto : Elements → List ℕ → List ℕ
  elements_onto no_elements behind = 93 ∷ behind
  elements_onto (element v es) behind = 44 ∷ value_onto v (elements_onto es behind)

  pub members_onto : Members → List ℕ → List ℕ
  members_onto no_members behind = 125 ∷ behind
  members_onto (member key v ms) behind =
      44 ∷ 34 ∷ text_onto key (58 ∷ value_onto v (members_onto ms behind))

unfoldable pub print : JsonValue → List ℕ
unfolding value_onto
print v = value_onto v []

-- Every number in a value is an integer, with or without a minus sign, and has no leading zero.
unfoldable mutual
  pub HasIntegers : JsonValue → Type 0
  HasIntegers null_value = Unit
  HasIntegers (boolean b) = Unit
  HasIntegers (number text) = IsInteger text
  HasIntegers (string text) = Unit
  HasIntegers (array es) = ElementsHave es
  HasIntegers (object ms) = MembersHave ms

  pub ElementsHave : Elements → Type 0
  ElementsHave no_elements = Unit
  ElementsHave (element v es) = HasIntegers v × ElementsHave es

  pub MembersHave : Members → Type 0
  MembersHave no_members = Unit
  MembersHave (member key v ms) = HasIntegers v × MembersHave ms

pub no-IsInteger : ¬ IsInteger []
no-IsInteger (inl h) = h
no-IsInteger (inr (rest, e, h)) = cc

mutual
  unfolding value_onto HasIntegers

  pub length-value_onto :
      (v : JsonValue) (behind : List ℕ)
      → HasIntegers v
      → length behind < length (value_onto v behind)
  length-value_onto null_value behind h = omega arith
  length-value_onto (boolean true) behind h = omega arith
  length-value_onto (boolean false) behind h = omega arith
  length-value_onto (number []) behind h = absurd (no-IsInteger h)
  length-value_onto (number (d ∷ ds)) behind h = omega (arith, length-append ds behind)
  length-value_onto (string text) behind h = omega (arith, length-text_onto text behind)
  length-value_onto (array no_elements) behind h = omega arith
  length-value_onto (array (element v es)) behind h =
      omega (
        arith,
        length-value_onto v (elements_onto es behind) h.0,
        length-elements_onto es behind h.1,
      )
  length-value_onto (object no_members) behind h = omega arith
  length-value_onto (object (member key v ms)) behind h = omega (
    arith,
    length-text_onto key (58 ∷ value_onto v (members_onto ms behind)),
    length-value_onto v (members_onto ms behind) h.0,
    length-members_onto ms behind h.1,
  )

  length-elements_onto :
      (es : Elements) (behind : List ℕ)
      → ElementsHave es
      → length behind < length (elements_onto es behind)
  length-elements_onto no_elements behind h = omega arith
  length-elements_onto (element v es) behind h =
      omega (
        arith,
        length-value_onto v (elements_onto es behind) h.0,
        length-elements_onto es behind h.1,
      )

  length-members_onto :
      (ms : Members) (behind : List ℕ)
      → MembersHave ms
      → length behind < length (members_onto ms behind)
  length-members_onto no_members behind h = omega arith
  length-members_onto (member key v ms) behind h = omega (
    arith,
    length-text_onto key (58 ∷ value_onto v (members_onto ms behind)),
    length-value_onto v (members_onto ms behind) h.0,
    length-members_onto ms behind h.1,
  )

-- A number starts with a digit or a minus sign, which is no white space, and stands for no other kind of value.
abbrev pub begins_number : ℕ → Bool
begins_number d = d == 45 || is_digit d

pub digit-skip :
    (d p : ℕ) (xs : List ℕ)
    → begins_number d ≡ true
    → skip_whitespace (at p (d ∷ xs)) ≡ at p (d ∷ xs)
unfolding skip_whitespace
digit-skip d p xs h = let no_space : is_space d ≡ false = ground arith in rw no_space refl

digit-consume :
    (d p : ℕ) (xs : List ℕ)
    → begins_number d ≡ true
    → consume 93 (at p (d ∷ xs)) ≡ (false, at p (d ∷ xs))
unfolding consume
digit-consume d p xs h =
    let no_space : is_space d ≡ false = ground arith in
    let no_close : d == 93 ≡ false = ground arith in rw (no_space, no_close) refl

pub digit-lead_of : (d : ℕ) (xs : List ℕ) → begins_number d ≡ true → lead_of (d ∷ xs) ≡ other
unfolding lead_of
digit-lead_of d xs h = ground arith

pub integer_first : (d : ℕ) (ds : List ℕ) → IsInteger (d ∷ ds) → begins_number d ≡ true
integer_first d [] (inl h) = ground arith
integer_first d (e ∷ ds) (inl h) = ground arith
integer_first d ds (inr (rest, e, h)) = let minus : d ≡ 45 = ground arith in ground arith

-- A value's first byte is no white space, nor a bracket that closes an array.
pub value_first :
    (v : JsonValue) (p : ℕ) (behind : List ℕ)
    → HasIntegers v
    → consume 93 (skip_whitespace (at p (value_onto v behind)))
      ≡ (false, at p (value_onto v behind))
unfolding value_onto HasIntegers consume
value_first null_value p behind h = refl
value_first (boolean true) p behind h = refl
value_first (boolean false) p behind h = refl
value_first (number []) p behind h = absurd (no-IsInteger h)
value_first (number (d ∷ ds)) p behind h =
    let digit = integer_first d ds h in
    ap (λ (c : Cursor). consume 93 c) (digit-skip d p (ds ++ behind) digit)
    ∙ digit-consume d p (ds ++ behind) digit
value_first (string text) p behind h = refl
value_first (array no_elements) p behind h = refl
value_first (array (element v es)) p behind h = refl
value_first (object no_members) p behind h = refl
value_first (object (member key v ms)) p behind h = refl

-- The byte behind a value inside another.
elements_stop :
    (es : Elements) (behind : List ℕ) → head_passes continues (elements_onto es behind) ≡ false
unfolding value_onto
elements_stop no_elements behind = refl
elements_stop (element v es) behind = refl

members_stop :
    (ms : Members) (behind : List ℕ) → head_passes continues (members_onto ms behind) ≡ false
unfolding value_onto
members_stop no_members behind = refl
members_stop (member key v ms) behind = refl
