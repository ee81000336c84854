-- ===== src/Model/Utf8/Encoding.antt =====
-- `is_valid_utf8` of src/model/json_parser.cpp accepts what `append_utf8` writes for code points that
-- are no surrogates, and nothing else.
use market_sim.Prelude.{
  ℕ, zero, suc, ◌+◌, ◌*◌, ◌/◌, ◌%◌, ◌≤◌, ◌<◌, ◌≡◌, ◌⊎◌, ◌↔◌, inl, inr, refl, true, false, List, [],
  ◌∷◌, ◌++◌, length, drop, leb, arith, Bool-cases, Option-cases, Option, some, none, leb-eq_false,
  le→leb, both_branches, length-append, ap, sym, subst, ◌∙◌,
}
use market_sim.Prelude.Sort.{All}
use market_sim.Model.Utf8.{utf8_step, utf8_rounds, is_valid_utf8, utf8_bytes, between}

-- A code point that UTF-8 encodes: none past the last one, and no surrogate.
abbrev pub IsScalar : ℕ → Type 0
IsScalar p = (p < 55296) ⊎ ((57344 ≤ p) × (p < 1114112))

-- The text of a sequence of code points.
unfoldable pub encode : List ℕ → List ℕ
unfolding utf8_bytes
encode [] = []
encode (p ∷ ps) = utf8_bytes p ++ encode ps

-- A round over the bytes of a code point goes to the bytes behind them.
step_one : (p : ℕ) (rest : List ℕ) → p ≤ 127 → utf8_step p rest ≡ some 1
unfolding utf8_step
step_one p rest h = ground arith

step_two :
    (p : ℕ) (rest : List ℕ)
    → 128 ≤ p
    → p ≤ 2047
    → utf8_step (192 + p / 64) ((128 + p % 64) ∷ rest) ≡ some 2
unfolding utf8_step
step_two p rest h g = ground arith

step_three :
    (p : ℕ) (rest : List ℕ)
    → 2048 ≤ p
    → p ≤ 65535
    → IsScalar p
    → utf8_step (224 + p / 4096) ((128 + p / 64 % 64) ∷ (128 + p % 64) ∷ rest) ≡ some 3
unfolding utf8_step
step_three p rest h g s = ground arith

step_four :
    (p : ℕ) (rest : List ℕ)
    → 65536 ≤ p
    → p < 1114112
    → utf8_step
        (240 + p / 262144)
        ((128 + p / 4096 % 64) ∷ (128 + p / 64 % 64) ∷ (128 + p % 64) ∷ rest)
      ≡ some 4
unfolding utf8_step
step_four p rest h g = ground arith

utf8_step-next :
    (fuel first n : ℕ) (behind : List ℕ)
    → utf8_step first behind ≡ some n
    → utf8_rounds (suc fuel) (first ∷ behind) ≡ utf8_rounds fuel (drop n (first ∷ behind))
unfolding utf8_rounds
utf8_step-next fuel first n behind e =
    ap
      (λ (o : Option ℕ). elim o [
        | none ↦ false
        | some n ↦ utf8_rounds fuel (drop n (first ∷ behind))
      ])
      e

-- The four forms of `utf8_bytes`.
pub bytes_one : (p : ℕ) → p ≤ 127 → utf8_bytes p ≡ p ∷ []
unfolding utf8_bytes
bytes_one p h = ground arith

bytes_two : (p : ℕ) → 128 ≤ p → p ≤ 2047 → utf8_bytes p ≡ (192 + p / 64) ∷ (128 + p % 64) ∷ []
unfolding utf8_bytes
bytes_two p h g = rw (leb-eq_false p 127 h, le→leb p 2047 g) refl

bytes_three :
    (p : ℕ)
    → 2048 ≤ p
    → p ≤ 65535
    → utf8_bytes p ≡ (224 + p / 4096) ∷ (128 + p / 64 % 64) ∷ (128 + p % 64) ∷ []
unfolding utf8_bytes
bytes_three p h g =
    rw (leb-eq_false p 127 (omega arith), leb-eq_false p 2047 h, le→leb p 65535 g) refl

bytes_four :
    (p : ℕ)
    → 65536 ≤ p
    → utf8_bytes p
      ≡ (240 + p / 262144) ∷ (128 + p / 4096 % 64) ∷ (128 + p / 64 % 64) ∷ (128 + p % 64) ∷ []
unfolding utf8_bytes
bytes_four p h =
    rw (leb-eq_false p 127 (omega arith), leb-eq_false p 2047 (omega arith), leb-eq_false p 65535 h)
      refl

-- The rounds behind the bytes of a code point.
rounds-utf8_bytes :
    (fuel p : ℕ) (rest : List ℕ)
    → IsScalar p
    → utf8_rounds (suc fuel) (utf8_bytes p ++ rest) ≡ utf8_rounds fuel rest
rounds-utf8_bytes fuel p rest s = elim (Bool-cases (leb p 127)) [
  | inl e ↦
      rw (bytes_one p (ground arith))
        (utf8_step-next fuel p 1 rest (step_one p rest (ground arith)))
  | inr e ↦ elim (Bool-cases (leb p 2047)) [
    | inl f ↦
        rw (bytes_two p (ground arith) (ground arith))
          (utf8_step-next fuel _ 2 _ (step_two p rest (ground arith) (ground arith)))
    | inr f ↦ elim (Bool-cases (leb p 65535)) [
      | inl g ↦
          rw (bytes_three p (ground arith) (ground arith))
            (utf8_step-next fuel _ 3 _ (step_three p rest (ground arith) (ground arith) s))
      | inr g ↦
          rw (bytes_four p (ground arith))
            (utf8_step-next fuel _ 4 _ (step_four p rest (ground arith) (ground arith)))
    ]
  ]
]

rounds-encode :
    (fuel : ℕ) (ps : List ℕ)
    → All IsScalar ps
    → length ps ≤ fuel
    → utf8_rounds fuel (encode ps) ≡ true
unfolding encode utf8_rounds
rounds-encode fuel [] a h = refl
rounds-encode zero (p ∷ ps) a h = absurd (omega arith)
rounds-encode (suc fuel) (p ∷ ps) a h =
    rounds-utf8_bytes fuel p (encode ps) a.0 ∙ rounds-encode fuel ps a.1 (omega arith)

length-utf8_bytes : (p : ℕ) → 1 ≤ length (utf8_bytes p)
unfolding utf8_bytes
length-utf8_bytes p =
    both_branches (λ (bs : List ℕ). 1 ≤ length bs) (leb p 127) _ _ (λ _. omega arith)
      λ _.
        both_branches (λ (bs : List ℕ). 1 ≤ length bs) (leb p 2047) _ _ (λ _. omega arith)
          λ _.
            both_branches (λ (bs : List ℕ). 1 ≤ length bs) (leb p 65535) _ _ (λ _. omega arith)
              (λ _. omega arith)

length-encode : (ps : List ℕ) → length ps ≤ length (encode ps)
unfolding encode
length-encode [] = omega arith
length-encode (p ∷ ps) =
    omega (arith, length-append (utf8_bytes p) (encode ps), length-encode ps, length-utf8_bytes p)

-- What a round that goes ahead has read: the bytes of a code point.
abbrev Reads : ℕ → List ℕ → ℕ → Type 0
Reads first behind n =
    (p : ℕ) × IsScalar p × (first ∷ behind ≡ utf8_bytes p ++ drop n (first ∷ behind))

two-Reads :
    (first n : ℕ) (behind : List ℕ)
    → between 194 223 first ≡ true
    → utf8_step first behind ≡ some n
    → Reads first behind n
unfolding utf8_step
two-Reads first n [] f h = absurd (ground arith)
two-Reads first n (a ∷ rest) f h =
    let shape : (a / 64 ≡ 2) × (n ≡ 2) = ground arith in
    let p = first % 32 * 64 + a % 64 in
    let lead : 192 + p / 64 ≡ first = ground arith in
    let low : 128 + p % 64 ≡ a = ground arith in
    (p, ground arith, rw (shape.1, bytes_two p (ground arith) (ground arith), lead, low) refl)

three-Reads :
    (first n : ℕ) (behind : List ℕ)
    → between 224 239 first ≡ true
    → utf8_step first behind ≡ some n
    → Reads first behind n
unfolding utf8_step
three-Reads first n [] f h = absurd (ground arith)
three-Reads first n (a ∷ []) f h = absurd (ground arith)
three-Reads first n (a ∷ b ∷ rest) f h =
    let shape : (a / 64 ≡ 2) × (b / 64 ≡ 2) × (n ≡ 3) = ground arith in
    let p = (first % 16 * 64 + a % 64) * 64 + b % 64 in
    let scalar : (2048 ≤ p) × (p ≤ 65535) × IsScalar p = ground arith in
    let lead : 224 + p / 4096 ≡ first = ground arith in
    let middle : 128 + p / 64 % 64 ≡ a = ground arith in
    let low : 128 + p % 64 ≡ b = ground arith in
    (p, scalar.2, rw (shape.2, bytes_three p scalar.0 scalar.1, lead, middle, low) refl)

four-Reads :
    (first n : ℕ) (behind : List ℕ)
    → between 240 244 first ≡ true
    → utf8_step first behind ≡ some n
    → Reads first behind n
unfolding utf8_step
four-Reads first n [] f h = absurd (ground arith)
four-Reads first n (a ∷ []) f h = absurd (ground arith)
four-Reads first n (a ∷ b ∷ []) f h = absurd (ground arith)
four-Reads first n (a ∷ b ∷ c ∷ rest) f h =
    let shape : (a / 64 ≡ 2) × (b / 64 ≡ 2) × (c / 64 ≡ 2) × (n ≡ 4) = ground arith in
    let p = ((first % 8 * 64 + a % 64) * 64 + b % 64) * 64 + c % 64 in
    let scalar : (65536 ≤ p) × (p < 1114112) = ground arith in
    let lead : 240 + p / 262144 ≡ first = ground arith in
    let high : 128 + p / 4096 % 64 ≡ a = ground arith in
    let middle : 128 + p / 64 % 64 ≡ b = ground arith in
    let low : 128 + p % 64 ≡ c = ground arith in
    (
      p,
      inr (omega arith, scalar.1),
      rw (shape.3, bytes_four p scalar.0, lead, high, middle, low) refl,
    )

step-Reads :
    (first n : ℕ) (behind : List ℕ) → utf8_step first behind ≡ some n → Reads first behind n
unfolding utf8_step
step-Reads first n behind h = elim (Bool-cases (leb first 127)) [
  | inl e ↦
      let one : 1 ≡ n = ground arith in
      (first, inl (ground arith), rw (sym one, bytes_one first (ground arith)) refl)
  | inr e ↦ elim (Bool-cases (between 194 223 first)) [
    | inl f ↦ two-Reads first n behind f h
    | inr f ↦ elim (Bool-cases (between 224 239 first)) [
      | inl g ↦ three-Reads first n behind g h
      | inr g ↦ four-Reads first n behind (ground arith) h
    ]
  ]
]

rounds_read :
    (fuel : ℕ) (input : List ℕ)
    → utf8_rounds fuel input ≡ true
    → (ps : List ℕ) × All IsScalar ps × (input ≡ encode ps)
unfolding utf8_rounds encode
rounds_read fuel [] h = ([], tt, refl)
rounds_read zero (first ∷ behind) h = cc
rounds_read (suc fuel) (first ∷ behind) h = elim (Option-cases (utf8_step first behind)) [
  | inl e ↦ absurd (cc)
  | inr (n, e) ↦
      let (p, scalar, bytes) = step-Reads first n behind e in
      let (ps, scalars, rest) =
        rounds_read fuel (drop n (first ∷ behind))
          (sym (utf8_step-next fuel first n behind e) ∙ h) in
      (p ∷ ps, (scalar, scalars), bytes ∙ ap (λ (bs : List ℕ). utf8_bytes p ++ bs) rest)
]

-- `is_valid_utf8` accepts an input exactly where it is the encoding of a sequence of code points, by
-- `append_utf8`, each at most U+10FFFF and no surrogate.
pub is_valid_utf8_iff :
    (input : List ℕ)
    → (is_valid_utf8 input ≡ true) ↔ ((ps : List ℕ) × All IsScalar ps × (input ≡ encode ps))
unfolding is_valid_utf8
is_valid_utf8_iff input = (
  λ h. rounds_read (length input) input h,
  λ (ps, scalars, e).
      subst (λ (bs : List ℕ). is_valid_utf8 bs ≡ true) (sym e)
        (rounds-encode (length (encode ps)) ps scalars (length-encode ps)),
)
