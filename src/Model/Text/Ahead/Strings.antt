-- ===== src/Model/Text/Ahead/Strings.antt =====
-- How far the scanner of src/model/json_parser.cpp goes ahead in a string.
use market_sim.Prelude.{
  ℕ, zero, suc, ◌+◌, ◌≤◌, ◌≡◌, inl, inr, refl, not, List, [], ◌∷◌, ◌++◌, length, Option, some, none,
  arith, Bool-cases, Option-cases, ltb, ◌==◌, ◌||◌, both_branches, subst,
}
use market_sim.Model.Utf8.{between}
use market_sim.Core.Status.{fails, status_failure, invalid_json, Result, success, failure}
use market_sim.Model.Text.{
  Cursor, Scanner, string_round, move, starts, hex_digits, parse_hex_quad, low_surrogate,
  unicode_escape, surrogate_pair, append_code_point, escape_at, escape_step, string_step,
  string_rounds, parse_string, StringStep, finished, refused, appended,
}
use market_sim.Model.Text.Ahead.{
  Ahead, Ahead-move, Ahead-refl, Ahead-trans, Scans, Settled-map, Steps, size, starts-Ahead,
}

-- The same for a function that returns a value with its cursor.
Scans-behind {ℓ} :
    {A : Type ℓ} (n k m : ℕ) (c d : Cursor) (r : Result (A × Cursor))
    → Ahead n c d
    → Scans k d r
    → m ≤ n + k
    → Scans m c r
Scans-behind n k m c d r a h le =
    Settled-map (λ x. Ahead k d x.1) (λ x. Ahead m c x.1) (size d) (size c) r h (omega (arith, a.1))
      λ x b. Ahead-trans c d x.1 n k m a b le

parse_hex_quad-Ahead :
    (c : Cursor) (value : ℕ) (next : Cursor)
    → parse_hex_quad c ≡ some (value, next)
    → Ahead 4 c next
unfolding parse_hex_quad
parse_hex_quad-Ahead c value next h = elim (Bool-cases (ltb (length c.rest) 4)) [
  | inl e ↦ absurd (ground arith)
  | inr e ↦ elim (Option-cases (hex_digits 4 0 c.rest)) [
    | inl q ↦ absurd (ground arith)
    | inr (v, q) ↦
        let same : move 4 c ≡ next = ground arith in
        subst (λ (d : Cursor). Ahead 4 c d) same (Ahead-move 4 c (ground arith))
  ]
]

surrogate_pair-Scans :
    (high : ℕ) (c : Cursor) (o : Option (ℕ × Cursor))
    → ((v : ℕ) (next : Cursor) → o ≡ some (v, next) → Ahead 0 c next)
    → Scans 0 c (surrogate_pair high o)
unfolding surrogate_pair
surrogate_pair-Scans high c none h = omega arith
surrogate_pair-Scans high c (some (low, next)) h =
    both_branches (λ (r : Result (ℕ × Cursor)). Scans 0 c r) (ltb low 56320 || ltb 57343 low)
      (fails invalid_json) (success _) (λ e. omega arith) (λ e. h low next refl)

low_surrogate-Scans : (high : ℕ) (c : Cursor) → Scans 0 c (low_surrogate high c)
unfolding low_surrogate
low_surrogate-Scans high c =
    let after = move 2 c in
    both_branches (λ (r : Result (ℕ × Cursor)). Scans 0 c r)
      (ltb (length c.rest) 6 || not (starts 92 c) || not (starts 117 (move 1 c)))
      (fails invalid_json) (surrogate_pair high (parse_hex_quad after)) (λ e. omega arith)
      (λ e. surrogate_pair-Scans high c (parse_hex_quad after) λ v next q.
        Ahead-trans c after next 2 4 0 (Ahead-move 2 c (ground arith))
          (parse_hex_quad-Ahead after v next q) (omega arith))

unicode_escape-Scans :
    (c : Cursor) (o : Option (ℕ × Cursor))
    → ((v : ℕ) (next : Cursor) → o ≡ some (v, next) → Ahead 0 c next)
    → Scans 0 c (unicode_escape o)
unfolding unicode_escape
unicode_escape-Scans c none h = omega arith
unicode_escape-Scans c (some (v, next)) h =
    both_branches (λ (r : Result (ℕ × Cursor)). Scans 0 c r) (between 55296 56319 v)
      (low_surrogate v next) _
      (λ e. Scans-behind 0 0 0 c next _ (h v next refl) (low_surrogate-Scans v next) (omega arith))
      (λ e.
        both_branches (λ (r : Result (ℕ × Cursor)). Scans 0 c r) (between 56320 57343 v)
          (fails invalid_json) (success (v, next)) (λ f. omega arith) (λ f. h v next refl))

append_code_point-Steps :
    (c d : Cursor) (r : Result (ℕ × Cursor))
    → Ahead 1 c d
    → Scans 0 d r
    → Steps c (append_code_point r)
unfolding append_code_point
append_code_point-Steps c d (success r) a h = Ahead-trans c d r.1 1 0 1 a h (omega arith)
append_code_point-Steps c d (failure s) a h = omega (arith, a.1)

escape_step-Steps :
    (escape : ℕ) (o : Option ℕ) (c next : Cursor)
    → Ahead 1 c next
    → Steps c (escape_step escape o next)
unfolding escape_step
escape_step-Steps escape (some byte) c next a = a
escape_step-Steps escape none c next a =
    both_branches (λ r. Steps c r) (not (escape == 117)) (refused (status_failure invalid_json)) _
      (λ e. omega arith)
      (λ e. append_code_point-Steps c next _ a (
        unicode_escape-Scans next (parse_hex_quad next) λ v d q.
          Ahead-trans next d d 4 0 0 (parse_hex_quad-Ahead next v d q) (Ahead-refl d)
            (omega arith)))

-- A byte ahead of the cursor that ends at `xs`.
byte-Ahead : (c : Cursor) (x : ℕ) (xs : List ℕ) → c.rest ≡ x ∷ xs → Ahead 1 c (move 1 c)
byte-Ahead c x xs e = Ahead-move 1 c (rw e (omega arith))

escape_at-Steps :
    (c d : Cursor) (xs : List ℕ) → Ahead 1 d c → c.rest ≡ xs → Steps d (escape_at c xs)
unfolding escape_at
escape_at-Steps c d [] a e = omega arith
escape_at-Steps c d (x ∷ xs) a e =
    escape_step-Steps x _ d (move 1 c)
      (Ahead-trans d c _ 1 1 1 a (byte-Ahead c x xs e) (omega arith))

string_step-Steps : (c : Cursor) (xs : List ℕ) → c.rest ≡ xs → Steps c (string_step c xs)
unfolding string_step
string_step-Steps c [] e = omega arith
string_step-Steps c (x ∷ xs) e =
    let next = byte-Ahead c x xs e in
    both_branches (λ r. Steps c r) (x == 34) (finished (move 1 c)) _ (λ _. next)
      λ _.
        both_branches (λ r. Steps c r) (ltb x 32) (refused _) _ (λ _. omega arith)
          λ _.
            both_branches (λ r. Steps c r) (not (x == 92)) (appended _ (move 1 c)) _ (λ _. next)
              λ _. escape_at-Steps (move 1 c) c xs next (rw e refl)

string_round-Scans :
    (behind : Scanner) (output : List ℕ) (c : Cursor) (step : StringStep)
    → ((o : List ℕ) (d : Cursor) → Scans 0 d (behind o d))
    → Steps c step
    → Scans 0 c (string_round behind output step)
unfolding string_round
string_round-Scans behind output c (finished next) h a = (omega arith, a.1)
string_round-Scans behind output c (refused s) h a = a
string_round-Scans behind output c (appended bytes next) h a =
    Scans-behind 1 0 0 c next _ a (h (output ++ bytes) next) (omega arith)

string_rounds-Scans :
    (fuel : ℕ) (output : List ℕ) (c : Cursor) → Scans 0 c (string_rounds fuel output c)
unfolding string_rounds
string_rounds-Scans zero output c = omega arith
string_rounds-Scans (suc fuel) output c =
    string_round-Scans _ output c _ (λ o d. string_rounds-Scans fuel o d)
      (string_step-Steps c c.rest refl)

pub parse_string-Scans : (c : Cursor) → Scans 1 c (parse_string c)
unfolding parse_string
parse_string-Scans c =
    both_branches (λ (r : Result (List ℕ × Cursor)). Scans 1 c r) (not (starts 34 c))
      (fails invalid_json) _ (λ e. omega arith)
      (λ e.
        Scans-behind 1 0 1 c (move 1 c) _ (starts-Ahead (λ x. x == 34) c (ground arith))
          (string_rounds-Scans (length c.rest) [] (move 1 c)) (omega arith))
