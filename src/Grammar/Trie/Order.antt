-- ===== src/Grammar/Trie/Order.antt =====
-- The arcs of every node are in the order of their tokens, so that the binary search of `advance`
-- finds what the map holds.
use market_sim.Prelude.{
  ℕ, zero, suc, ◌<◌, ◌≡◌, inl, inr, refl, subst, Bool, ◌||◌, List, [], ◌∷◌, ◌++◌, none, some, arith,
  length, get_elem?, set, ltb, ◌==◌, Bool-cases, Option-cases, some-injective,
}
use market_sim.Prelude.Sort.{All, All-append, All-map}
use market_sim.Core.Status.{success, ◌>>=◌, >>=-eq-success}
use market_sim.Grammar.Trie.{
  GrammarArc, Encoded, DfaConfig, TrieNode, Trie, new_node, find_child, add_child, grow,
  insert_token, insert_tokens, mark_terminal, is_nil, taken_value, insert_all, arc_for,
}

-- Arcs with ascending tokens.
abbrev pub Rising : List GrammarArc → Type 0
Rising [] = Unit {0}
Rising (a ∷ rest) = All (λ (b : GrammarArc). a.token < b.token) rest × Rising rest

abbrev pub IsOrdered : List TrieNode → Type 0
IsOrdered ns = All (λ (n : TrieNode). Rising n.children) ns

above-missing :
    (token : ℕ) (arcs : List GrammarArc)
    → All (λ (b : GrammarArc). token < b.token) arcs
    → find_child token arcs ≡ none
above-missing token [] h = refl
above-missing token (a ∷ arcs) h = ground (arith, h.0, above-missing token arcs h.1)

-- The search over ascending arcs finds what is there.
pub arc_for-find_child :
    (token : ℕ) (arcs : List GrammarArc) → Rising arcs → arc_for token arcs ≡ find_child token arcs
arc_for-find_child token [] r = refl
arc_for-find_child token (a ∷ arcs) r = elim (Bool-cases (ltb a.token token)) [
  | inl before ↦ ground (arith, arc_for-find_child token arcs r.1)
  | inr later ↦ elim (Bool-cases (a.token == token)) [
    | inl hit ↦ ground arith
    | inr past ↦
        let beyond =
          All-map arcs
            (λ (b : GrammarArc) (h : a.token < b.token).
              let q : token < b.token = ground (arith, h) in q)
            r.0 in
        ground (arith, above-missing token arcs beyond)
  ]
]

add_child-All :
    (low : ℕ) (arc : GrammarArc) (arcs : List GrammarArc)
    → low < arc.token
    → All (λ (b : GrammarArc). low < b.token) arcs
    → All (λ (b : GrammarArc). low < b.token) (add_child arc arcs)
add_child-All low arc [] p h = (p, tt)
add_child-All low arc (a ∷ arcs) p h = elim (Bool-cases (ltb a.token arc.token)) [
  | inl before ↦ rw before (h.0, add_child-All low arc arcs p h.1)
  | inr later ↦ rw later (p, h)
]

add_child-Rising :
    (arc : GrammarArc) (arcs : List GrammarArc)
    → find_child arc.token arcs ≡ none
    → Rising arcs
    → Rising (add_child arc arcs)
add_child-Rising arc [] m r = (tt, tt)
add_child-Rising arc (a ∷ arcs) m r = elim (Bool-cases (ltb a.token arc.token)) [
  | inl before ↦ rw before (
    add_child-All a.token arc arcs (ground arith) r.0,
    add_child-Rising arc arcs (ground arith) r.1,
  )
  | inr later ↦
      let first : arc.token < a.token = ground arith in
      rw later (
        (
          first,
          All-map arcs (λ (b : GrammarArc) (h : a.token < b.token). omega (arith, first, h)) r.0,
        ),
        r,
      )
]

set-IsOrdered :
    (ns : List TrieNode) (i : ℕ) (n : TrieNode)
    → Rising n.children
    → IsOrdered ns
    → IsOrdered (set ns i n)
set-IsOrdered [] i n r o = tt
set-IsOrdered (x ∷ ns) zero n r o = (r, o.1)
set-IsOrdered (x ∷ ns) (suc i) n r o = (o.0, set-IsOrdered ns i n r o.1)

pub get_elem?-Rising :
    (ns : List TrieNode) (i : ℕ) (n : TrieNode)
    → IsOrdered ns
    → get_elem? ns i ≡ some n
    → Rising n.children
get_elem?-Rising [] i n o h = cc
get_elem?-Rising (x ∷ ns) zero n o h =
    let same : x ≡ n = some-injective _ _ h in subst (λ (y : TrieNode). Rising y.children) same o.0
get_elem?-Rising (x ∷ ns) (suc i) n o h = get_elem?-Rising ns i n o.1 h

insert_token-IsOrdered :
    (config : DfaConfig) (t t' : Trie) (state token next : ℕ)
    → IsOrdered t.nodes
    → insert_token config t state token ≡ success (t', next)
    → IsOrdered t'.nodes
unfolding insert_token
insert_token-IsOrdered config t t' state token next o h =
    elim (Option-cases (get_elem? t.nodes state)) [
      | inl missing ↦ absurd (ground arith)
      | inr (n, at) ↦ elim (Option-cases (find_child token n.children)) [
        | inr (k, found) ↦
            let same : t ≡ t' = ground arith in subst (λ (x : Trie). IsOrdered x.nodes) same o
        | inl new ↦
            let arc : GrammarArc = record { token = token; next = length t.nodes } in
            let same : grow t state n token ≡ t' = ground arith in
            subst (λ (x : Trie). IsOrdered x.nodes) same
              (All-append (λ (m : TrieNode). Rising m.children)
                (set t.nodes state (record n { children = add_child arc n.children }))
                (new_node ∷ [])
                (set-IsOrdered t.nodes state (record n { children = add_child arc n.children })
                  (add_child-Rising arc n.children new (get_elem?-Rising t.nodes state n o at)) o)
                (tt, tt))
      ]
    ]

insert_tokens-IsOrdered :
    (config : DfaConfig) (t t' : Trie) (state last : ℕ) (tokens : List ℕ)
    → IsOrdered t.nodes
    → insert_tokens config t state tokens ≡ success (t', last)
    → IsOrdered t'.nodes
unfolding insert_tokens
insert_tokens-IsOrdered config t t' state last [] o h =
    let same : t ≡ t' = ground arith in subst (λ (x : Trie). IsOrdered x.nodes) same o
insert_tokens-IsOrdered config t t' state last (token ∷ rest) o h =
    let ((t1, next), first, more) =
      >>=-eq-success (insert_token config t state token) (λ p. insert_tokens config p.0 p.1 rest)
        h in
    insert_tokens-IsOrdered config t1 t' next last rest
      (insert_token-IsOrdered config t t1 state token next o first) more

mark_terminal-IsOrdered :
    (t t' : Trie) (state index : ℕ)
    → IsOrdered t.nodes
    → mark_terminal t state index ≡ success t'
    → IsOrdered t'.nodes
unfolding mark_terminal
mark_terminal-IsOrdered t t' state index o h = elim (Option-cases (get_elem? t.nodes state)) [
  | inl missing ↦ absurd (ground arith)
  | inr (n, at) ↦
      let n' : TrieNode = record n { terminal = index } in
      let t1 : Trie = record t { nodes = set t.nodes state n' } in
      let same : t1 ≡ t' = ground arith in
      subst (λ (x : Trie). IsOrdered x.nodes) same
        (set-IsOrdered t.nodes state n' (get_elem?-Rising t.nodes state n o at) o)
]

pub insert_all-IsOrdered :
    {V : Type 0} (refused : V → Bool) (same : V → V → Bool) (config : DfaConfig) (t t' : Trie)
    (values values' : List V) (es : List (Encoded V))
    → IsOrdered t.nodes
    → insert_all refused same config t values es ≡ success (t', values')
    → IsOrdered t'.nodes
unfolding insert_all
insert_all-IsOrdered refused same config t t' values values' [] o h =
    let trie : t ≡ t' = ground arith in subst (λ (x : Trie). IsOrdered x.nodes) trie o
insert_all-IsOrdered refused same config t t' values values' (e ∷ es) o h =
    let bad =
      refused e.value
      || is_nil e.tokens
      || ltb config.maximum_sequence_tokens (length e.tokens)
      || taken_value same e.value values in
    elim (Bool-cases bad) [
      | inl b ↦ absurd (ground arith)
      | inr fine ↦
          let ((t1, last), walk, r1) =
            >>=-eq-success (insert_tokens config t 0 e.tokens)
              (λ p. mark_terminal p.0 p.1 (length values) >>= λ t2.
                insert_all refused same config t2 (values ++ e.value ∷ []) es)
              (rw fine at h) in
          let (t2, mark, r2) =
            >>=-eq-success (mark_terminal t1 last (length values))
              (λ t2. insert_all refused same config t2 (values ++ e.value ∷ []) es) r1 in
          insert_all-IsOrdered refused same config t2 t' (values ++ e.value ∷ []) values' es
            (mark_terminal-IsOrdered t1 t2 last (length values)
              (insert_tokens-IsOrdered config t t1 0 last e.tokens o walk) mark)
            r2
    ]
