-- ===== src/Grammar/Trie/Growth.antt =====
-- How the trie grows: what a sequence reaches stays reached.
use market_sim.Prelude.{
  ℕ, zero, suc, ◌≡◌, inl, inr, refl, ap, sym, ◌∙◌, subst, true, false, List, [], ◌∷◌, ◌++◌, Option,
  none, some, arith, length, get_elem?, set, ◌==◌, Option-cases, ℕ_discrete, get_elem?-set-some,
  get_elem?-set_ne, some-injective,
}
use market_sim.Core.Status.{success, >>=-eq-success}
use market_sim.Grammar.Trie.{
  GrammarArc, DfaConfig, TrieNode, Trie, no_terminal, new_node, find_child, add_child, grow,
  insert_token, insert_tokens, mark_terminal,
}

pub get_elem?-append_left {ℓ} :
    {A : Type ℓ} (xs ys : List A) (i : ℕ) (a : A)
    → get_elem? xs i ≡ some a
    → get_elem? (xs ++ ys) i ≡ some a
get_elem?-append_left [] ys i a h = cc
get_elem?-append_left (x ∷ xs) ys zero a h = h
get_elem?-append_left (x ∷ xs) ys (suc i) a h = get_elem?-append_left xs ys i a h

pub get_elem?-append_last {ℓ} :
    {A : Type ℓ} (xs : List A) (a : A) → get_elem? (xs ++ a ∷ []) (length xs) ≡ some a
get_elem?-append_last [] a = refl
get_elem?-append_last (x ∷ xs) a = get_elem?-append_last xs a

-- The state that a token sequence leads to.
abbrev pub lookup : List TrieNode → ℕ → List ℕ → Option ℕ
lookup nodes state [] = some state
lookup nodes state (token ∷ rest) = elim (get_elem? nodes state) [
  | none ↦ none
  | some n ↦ elim (find_child token n.children) [ none ↦ none | some next ↦ lookup nodes next rest ]
]

-- A later form of a node keeps its arcs, and its value if it has one.
pub record Keeps (n n' : TrieNode) : Type 0 where
  pub arcs :
      (token next : ℕ)
      → find_child token n.children ≡ some next
      → find_child token n'.children ≡ some next
  pub value : (n.terminal == no_terminal) ≡ false → n'.terminal ≡ n.terminal

abbrev pub Extends : List TrieNode → List TrieNode → Type 0
Extends ns ns' =
    (i : ℕ) (n : TrieNode)
    → get_elem? ns i ≡ some n
    → (n' : TrieNode) × (get_elem? ns' i ≡ some n') × Keeps n n'

Keeps-refl : (n : TrieNode) → Keeps n n
Keeps-refl n = record { arcs = λ t k h. h; value = λ h. refl }

pub Extends-refl : (ns : List TrieNode) → Extends ns ns
Extends-refl ns i n h = (n, h, Keeps-refl n)

pub Extends-trans : (xs ys zs : List TrieNode) → Extends xs ys → Extends ys zs → Extends xs zs
Extends-trans xs ys zs f g i n h =
    let (n', h', k) = f i n h in
    let (n'', h'', k') = g i n' h' in
    (
      n'',
      h'',
      record {
        arcs = λ t m p. k'.arcs t m (k.arcs t m p);
        value = λ p. let same = k.value p in k'.value (rw same p) ∙ same;
      },
    )

-- A node that is replaced by a later form of it.
set-Extends :
    (ns more : List TrieNode) (i : ℕ) (n n' : TrieNode)
    → get_elem? ns i ≡ some n
    → Keeps n n'
    → Extends ns (set ns i n' ++ more)
set-Extends ns more i n n' at k j m h = elim (ℕ_discrete i j) [
  | yes e ↦
      let same : n ≡ m = some-injective _ _ (sym at ∙ ap (get_elem? ns) e ∙ h) in
      (
        n',
        subst (λ q. get_elem? (set ns i n' ++ more) q ≡ some n') e
            (get_elem?-append_left (set ns i n') more i n' (get_elem?-set-some ns i n n' at)),
        subst (λ q. Keeps q n') same k,
      )
  | no e ↦
      (m, get_elem?-append_left (set ns i n') more j m (get_elem?-set_ne ns n' e ∙ h), Keeps-refl m)
]

find_child-add_child :
    (arc : GrammarArc) (arcs : List GrammarArc)
    → find_child arc.token arcs ≡ none
    → find_child arc.token (add_child arc arcs) ≡ some arc.next
find_child-add_child arc [] h = ground arith
find_child-add_child arc (a ∷ arcs) h = ground (arith, find_child-add_child arc arcs)

find_child-add_other :
    (arc : GrammarArc) (arcs : List GrammarArc) (token next : ℕ)
    → find_child arc.token arcs ≡ none
    → find_child token arcs ≡ some next
    → find_child token (add_child arc arcs) ≡ some next
find_child-add_other arc [] token next h p = cc
find_child-add_other arc (a ∷ arcs) token next h p =
    ground (arith, find_child-add_other arc arcs token next)

-- An arc from a state.
abbrev pub HasArc : List TrieNode → ℕ → ℕ → ℕ → Type 0
HasArc ns state token next =
    (n : TrieNode) × (get_elem? ns state ≡ some n) × (find_child token n.children ≡ some next)

insert_token-Extends :
    (config : DfaConfig) (t t' : Trie) (state token next : ℕ)
    → insert_token config t state token ≡ success (t', next)
    → Extends t.nodes t'.nodes × HasArc t'.nodes state token next
unfolding insert_token
insert_token-Extends config t t' state token next h =
    elim (Option-cases (get_elem? t.nodes state)) [
      | inl missing ↦ absurd (ground arith)
      | inr (n, at) ↦ elim (Option-cases (find_child token n.children)) [
        | inr (k, found) ↦
            let same : t ≡ t' = ground arith in
            let dest : k ≡ next = ground arith in
            (
              subst (λ x. Extends t.nodes x.nodes) same (Extends-refl t.nodes),
              subst (λ x. HasArc x.nodes state token next) same (n, at, found ∙ ap some dest),
            )
        | inl new ↦
            let n' : TrieNode = record n {
              children = add_child (record { token = token; next = length t.nodes }) n.children;
            } in
            let same : grow t state n token ≡ t' = ground arith in
            let dest : length t.nodes ≡ next = ground arith in
            let kept : Keeps n n' = record {
              arcs = λ q k p.
                  find_child-add_other (record { token = token; next = length t.nodes }) n.children
                    q k new p;
              value = λ p. refl;
            } in
            (
              subst (λ x. Extends t.nodes x.nodes) same
                  (set-Extends t.nodes (new_node ∷ []) state n n' at kept),
              subst (λ x. HasArc x.nodes state token next) same
                  (
                    n',
                    get_elem?-append_left (set t.nodes state n') (new_node ∷ []) state n'
                        (get_elem?-set-some t.nodes state n n' at),
                    find_child-add_child (record { token = token; next = length t.nodes })
                          n.children new
                        ∙ ap some dest,
                  ),
            )
      ]
    ]

lookup-step :
    (ns : List TrieNode) (state token next : ℕ) (rest : List ℕ)
    → HasArc ns state token next
    → lookup ns state (token ∷ rest) ≡ lookup ns next rest
lookup-step ns state token next rest (n, at, found) = ground arith

HasArc-Extends :
    (ns ns' : List TrieNode) (state token next : ℕ)
    → Extends ns ns'
    → HasArc ns state token next
    → HasArc ns' state token next
HasArc-Extends ns ns' state token next f (n, at, found) =
    let (n', at', k) = f state n at in (n', at', k.arcs token next found)

pub insert_tokens-Extends :
    (config : DfaConfig) (t t' : Trie) (state last : ℕ) (tokens : List ℕ)
    → insert_tokens config t state tokens ≡ success (t', last)
    → Extends t.nodes t'.nodes × (lookup t'.nodes state tokens ≡ some last)
unfolding insert_tokens
insert_tokens-Extends config t t' state last [] h =
    let same : t ≡ t' = ground arith in
    let dest : state ≡ last = ground arith in
    (subst (λ x. Extends t.nodes x.nodes) same (Extends-refl t.nodes), ap some dest)
insert_tokens-Extends config t t' state last (token ∷ rest) h =
    let ((t1, next), first, more) =
      >>=-eq-success (insert_token config t state token) (λ p. insert_tokens config p.0 p.1 rest)
        h in
    let (grown, arc) = insert_token-Extends config t t1 state token next first in
    let (grown', found) = insert_tokens-Extends config t1 t' next last rest more in
    (
      Extends-trans t.nodes t1.nodes t'.nodes grown grown',
      lookup-step t'.nodes state token next rest
            (HasArc-Extends t1.nodes t'.nodes state token next grown' arc)
          ∙ found,
    )

-- A path stays as the trie grows.
pub lookup-Extends :
    (ns ns' : List TrieNode) (state last : ℕ) (tokens : List ℕ)
    → Extends ns ns'
    → lookup ns state tokens ≡ some last
    → lookup ns' state tokens ≡ some last
lookup-Extends ns ns' state last [] f h = h
lookup-Extends ns ns' state last (token ∷ rest) f h = elim (Option-cases (get_elem? ns state)) [
  | inl missing ↦ absurd (ground arith)
  | inr (n, at) ↦ elim (Option-cases (find_child token n.children)) [
    | inl new ↦ absurd (ground arith)
    | inr (next, found) ↦
        let arc : HasArc ns state token next = (n, at, found) in
        let below = sym (lookup-step ns state token next rest arc) ∙ h in
        lookup-step ns' state token next rest (HasArc-Extends ns ns' state token next f arc)
        ∙ lookup-Extends ns ns' next last rest f below
  ]
]

-- A state that has a value.
abbrev pub HasValue : List TrieNode → ℕ → ℕ → Type 0
HasValue ns state index = (n : TrieNode) × (get_elem? ns state ≡ some n) × (n.terminal ≡ index)

pub mark_terminal-Extends :
    (t t' : Trie) (state index : ℕ)
    → mark_terminal t state index ≡ success t'
    → Extends t.nodes t'.nodes × HasValue t'.nodes state index
unfolding mark_terminal
mark_terminal-Extends t t' state index h = elim (Option-cases (get_elem? t.nodes state)) [
  | inl missing ↦ absurd (ground arith)
  | inr (n, at) ↦
      let n' : TrieNode = record n { terminal = index } in
      let free : (n.terminal == no_terminal) ≡ true = ground arith in
      let t1 : Trie = record t { nodes = set t.nodes state n' } in
      let same : t1 ≡ t' = ground arith in
      let kept : Keeps n n' = record { arcs = λ q k p. p; value = λ p. absurd (cc) } in
      (
        subst (λ x. Extends t.nodes x.nodes) same (replaced t.nodes state n n' at kept),
        subst (λ x. HasValue x.nodes state index) same
            (n', get_elem?-set-some t.nodes state n n' at, refl),
      )
]
  where
    replaced :
        (ns : List TrieNode) (i : ℕ) (n n' : TrieNode)
        → get_elem? ns i ≡ some n
        → Keeps n n'
        → Extends ns (set ns i n')
    replaced ns i n n' at k j m h = elim (ℕ_discrete i j) [
      | yes e ↦
          let same : n ≡ m = some-injective _ _ (sym at ∙ ap (get_elem? ns) e ∙ h) in
          (
            n',
            subst (λ q. get_elem? (set ns i n') q ≡ some n') e (get_elem?-set-some ns i n n' at),
            subst (λ q. Keeps q n') same k,
          )
      | no e ↦ (m, get_elem?-set_ne ns n' e ∙ h, Keeps-refl m)
    ]
