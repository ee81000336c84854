-- ===== src/Grammar/Trie/Flat.antt =====
-- The flat automaton follows the trie, and accepts every sequence of the language.
use market_sim.Prelude.{
  ℕ, zero, suc, ◌+◌, ◌≤◌, ◌<◌, ◌≡◌, inl, inr, refl, ap, ◌∙◌, subst, Bool, true, false, List, [],
  ◌∷◌, ◌++◌, Option, none, some, arith, length, length-append, get_elem?, take, drop, ◌==◌,
  Option-cases, some-injective,
}
use market_sim.Prelude.Sort.{All, All-map}
use market_sim.Core.Status.{Result, success, fails, invalid_argument, ◌>>=◌, >>=-eq-success}
use market_sim.Core.CheckedMath.{u32_max}
use market_sim.Grammar.Trie.{
  GrammarArc, Encoded, DfaConfig, TrieNode, no_terminal, empty_trie, find_child, insert_all,
  arc_for, StateRecord, flatten_states, flatten_arcs, flatten, Dfa, build_dfa, allowed, advance,
  decode_terminal,
}
use market_sim.Grammar.Trie.Growth.{lookup, HasValue}
use market_sim.Grammar.Trie.Language.{Accepts, insert_all-Accepts}
use market_sim.Grammar.Trie.Order.{
  IsOrdered, arc_for-find_child, get_elem?-Rising, insert_all-IsOrdered,
}

drop-length {ℓ} : {A : Type ℓ} (xs ys : List A) → drop (length xs) (xs ++ ys) ≡ ys
drop-length [] ys = refl
drop-length (x ∷ xs) ys = drop-length xs ys

take-length {ℓ} : {A : Type ℓ} (xs ys : List A) → take (length xs) (xs ++ ys) ≡ xs
take-length [] ys = refl
take-length (x ∷ xs) ys = ap (λ t. x ∷ t) (take-length xs ys)

append_assoc {ℓ} : {A : Type ℓ} (xs ys zs : List A) → (xs ++ ys) ++ zs ≡ xs ++ (ys ++ zs)
append_assoc [] ys zs = refl
append_assoc (x ∷ xs) ys zs = ap (λ t. x ∷ t) (append_assoc xs ys zs)

-- The record of a node among the records of all: its arcs are a slice of all arcs.
abbrev Slice : List StateRecord → List GrammarArc → ℕ → TrieNode → Type 0
Slice records arcs i n =
    (r : StateRecord) × (get_elem? records i ≡ some r)
    × (take r.arc_count (drop r.first_arc arcs) ≡ n.children)
    × (r.terminal ≡ n.terminal)

flatten-Slice :
    (before : List GrammarArc) (first : ℕ) (ns : List TrieNode) (i : ℕ) (n : TrieNode)
    → first ≡ length before
    → get_elem? ns i ≡ some n
    → Slice (flatten_states first ns) (before ++ flatten_arcs ns) i n
flatten-Slice before first [] i n f h = cc
flatten-Slice before first (m ∷ ns) zero n f h =
    let same : m ≡ n = some-injective _ _ h in
    let r : StateRecord = record {
      first_arc = first;
      arc_count = length m.children;
      terminal = m.terminal;
    } in
    (
      r,
      refl,
      ap (λ k. take (length m.children) (drop k (before ++ (m.children ++ flatten_arcs ns)))) f
          ∙ ap (take (length m.children)) (drop-length before (m.children ++ flatten_arcs ns))
          ∙ take-length m.children (flatten_arcs ns)
          ∙ ap (λ (x : TrieNode). x.children) same,
      ap (λ (x : TrieNode). x.terminal) same,
    )
flatten-Slice before first (m ∷ ns) (suc i) n f h =
    let size = length-append before m.children in
    subst (λ arcs. Slice (flatten_states (first + length m.children) ns) arcs i n)
      (append_assoc before m.children (flatten_arcs ns))
      (flatten-Slice (before ++ m.children) (first + length m.children) ns i n
        (omega (arith, f, size)) h)

-- The automaton of a trie.
abbrev dfa_of : {V : Type 0} → List TrieNode → List V → Dfa V
dfa_of ns values = record { states = flatten_states 0 ns; arcs = flatten_arcs ns; values = values }

module _ {V : Type 0} where
  -- The state that the automaton comes to over a token sequence.
  unfoldable pub walk : Dfa V → ℕ → List ℕ → Result ℕ
  unfolding advance
  walk d state [] = success state
  walk d state (token ∷ rest) = advance d state token >>= λ next. walk d next rest

  advance-arc :
      (d : Dfa V) (r : StateRecord) (arcs : List GrammarArc) (state token next : ℕ)
      → get_elem? d.states state ≡ some r
      → take r.arc_count (drop r.first_arc d.arcs) ≡ arcs
      → arc_for token arcs ≡ some next
      → advance d state token ≡ success next
  unfolding advance allowed
  advance-arc d r arcs state token next here slice arc =
      rw (here, advance, allowed, slice)
        (ap (λ (o : Option ℕ). elim o [ none ↦ fails invalid_argument | some k ↦ success k ]) arc)

  walk-lookup :
      (ns : List TrieNode) (values : List V) (state last : ℕ) (tokens : List ℕ)
      → IsOrdered ns
      → lookup ns state tokens ≡ some last
      → walk (dfa_of ns values) state tokens ≡ success last
  unfolding walk
  walk-lookup ns values state last [] o h = ap success (some-injective _ _ h)
  walk-lookup ns values state last (token ∷ rest) o h = elim (Option-cases (get_elem? ns state)) [
    | inl missing ↦ absurd (ground arith)
    | inr (n, at) ↦ elim (Option-cases (find_child token n.children)) [
      | inl new ↦ absurd (ground arith)
      | inr (next, found) ↦
          let (r, here, slice, _) = flatten-Slice [] 0 ns state n refl at in
          let arc : arc_for token n.children ≡ some next =
            arc_for-find_child token n.children (get_elem?-Rising ns state n o at) ∙ found in
          let below : lookup ns next rest ≡ some last = ground arith in
          rw (advance-arc (dfa_of ns values) r n.children state token next here slice arc)
            (walk-lookup ns values next last rest o below)
    ]
  ]

  decode-Accepts :
      (ns : List TrieNode) (values : List V) (e : Encoded V) (last index : ℕ)
      → HasValue ns last index
      → index < u32_max
      → get_elem? values index ≡ some e.value
      → decode_terminal (dfa_of ns values) last ≡ success e.value
  unfolding decode_terminal
  decode-Accepts ns values e last index (n, at, same) fits found =
      let (r, here, _, kept) = flatten-Slice [] 0 ns last n refl at in
      let mine : r.terminal ≡ index = kept ∙ same in
      let some_value : (index == no_terminal) ≡ false = ground arith in
      rw (here, decode_terminal, mine, some_value, found) refl

  -- An automaton that `build` returns accepts its whole language: from the root, the tokens of each
  -- entry lead to a state that decodes to the entry's value.
  pub build_dfa-Accepts :
      (refused : V → Bool) (same : V → V → Bool) (exhausted : Bool) (language : List (Encoded V))
      (config : DfaConfig) (d : Dfa V)
      → config.maximum_entries ≤ u32_max
      → build_dfa refused same exhausted language config ≡ success d
      → All
          (λ (e : Encoded V). (walk d 0 e.tokens >>= decode_terminal d) ≡ success e.value)
          language
  unfolding build_dfa
  build_dfa-Accepts refused same true language config d m h = absurd (ground arith)
  build_dfa-Accepts refused same false language config d m h =
      let (small, run) = built in
      let ((t, values), inserted, flat) =
        >>=-eq-success (insert_all refused same config empty_trie [] language)
          (λ p. flatten language p.0 p.1) run in
      let (_, _, accepted) =
        insert_all-Accepts refused same config empty_trie t [] values language small inserted in
      let ordered =
        insert_all-IsOrdered refused same config empty_trie t [] values language (tt, tt)
          inserted in
      let made : dfa_of t.nodes values ≡ d = ground arith in
      subst
        (λ (x : Dfa V).
          All (λ (e : Encoded V). (walk x 0 e.tokens >>= decode_terminal x) ≡ success e.value)
            language)
        made
        (All-map language
          (λ (e : Encoded V) (a : Accepts t.nodes values e).
            rw (walk-lookup t.nodes values 0 a.last e.tokens ordered a.path)
              (decode-Accepts t.nodes values e a.last a.index a.ends a.fits a.found))
          accepted)
    where
      built :
          (0 + length language ≤ u32_max)
          × ((insert_all refused same config empty_trie [] language >>= λ p.
                flatten language p.0 p.1)
              ≡ success d)
      built = (ground arith, ground arith)
