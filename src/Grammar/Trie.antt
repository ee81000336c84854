-- ===== src/Grammar/Trie.antt =====
-- include/marketforge/grammar/action_dfa.hpp, src/grammar/action_dfa.cpp and src/grammar/token_dfa.cpp:
-- the trie of token sequences that both automata are built from, and the flat automaton. The two
-- classes have the same text, but for the values at the ends of the sequences.
pub mod Growth
pub mod Language
pub mod Order
pub mod Flat
use market_sim.Prelude.{
  ℕ, zero, suc, ◌+◌, ◌-◌, ◌≡◌, Bool, true, false, not, ◌&&◌, ◌||◌, List, [], ◌∷◌, ◌++◌, Option,
  none, some, length, get_elem?, set, take, drop, ltb, leb, ◌==◌, if◌then◌else◌,
}
use market_sim.Core.Status.{
  Result, success, fails, ◌>>=◌, invalid_argument, resource_limit, invalid_format,
  allocation_failed,
}
use market_sim.Core.CheckedMath.{u32_max}

-- `GrammarArc`, and an element of the map of a trie's node.
pub record GrammarArc : Type 0 where
  pub token : ℕ  -- uint32
  pub next : ℕ  -- uint32

-- A token sequence with what it encodes: `EncodedAction` and `EncodedChoice`.
pub record Encoded (V : Type 0) : Type 0 where
  pub value : V
  pub tokens : List ℕ

-- `ActionDfaConfig` and `TokenDfaConfig`, of uint32.
pub record DfaConfig : Type 0 where
  pub vocabulary_size : ℕ
  pub maximum_sequence_tokens : ℕ
  pub maximum_entries : ℕ
  pub maximum_states : ℕ
  pub maximum_arcs : ℕ

abbrev pub no_terminal : ℕ
no_terminal = u32_max

-- The map from tokens to nodes is a list in the order of the tokens.
pub record TrieNode : Type 0 where
  pub children : List GrammarArc
  pub terminal : ℕ  -- uint32

pub record Trie : Type 0 where
  pub nodes : List TrieNode
  pub arc_count : ℕ  -- uint32

abbrev pub new_node : TrieNode
new_node = record { children = []; terminal = no_terminal }

abbrev pub empty_trie : Trie
empty_trie = record { nodes = new_node ∷ []; arc_count = 0 }

-- `std::map::find` and `std::map::emplace`.
abbrev pub find_child : ℕ → List GrammarArc → Option ℕ
find_child token [] = none
find_child token (a ∷ rest) = if a.token == token then some a.next else find_child token rest

abbrev pub add_child : GrammarArc → List GrammarArc → List GrammarArc
add_child arc [] = arc ∷ []
add_child arc (a ∷ rest) = if ltb a.token arc.token then a ∷ add_child arc rest else arc ∷ a ∷ rest

-- The new node of a token that a state has no arc for. The sizes stay below limits of 32 bits.
abbrev pub grow : Trie → ℕ → TrieNode → ℕ → Trie
grow t state node token = record {
  nodes =
      set t.nodes state (record node {
        children = add_child (record { token = token; next = length t.nodes }) node.children;
      })
      ++ new_node ∷ [];
  arc_count = t.arc_count + 1;
}

-- One token of a sequence, from a state; the trie after it and the next state.
unfoldable pub insert_token : DfaConfig → Trie → ℕ → ℕ → Result (Trie × ℕ)
insert_token config t state token = elim (get_elem? t.nodes state) [
  | none ↦ fails invalid_argument
  | some node ↦
      if leb config.vocabulary_size token || not (node.terminal == no_terminal)
      then fails invalid_argument
      else elim (find_child token node.children) [
        | some next ↦ success (t, next)
        | none ↦
            if leb config.maximum_states (length t.nodes) || leb config.maximum_arcs t.arc_count
            then fails resource_limit
            else success (grow t state node token, length t.nodes)
      ]
]

unfoldable pub insert_tokens : DfaConfig → Trie → ℕ → List ℕ → Result (Trie × ℕ)
unfolding insert_token
insert_tokens config t state [] = success (t, state)
insert_tokens config t state (token ∷ rest) =
    insert_token config t state token >>= λ p. insert_tokens config p.0 p.1 rest

abbrev pub is_nil {ℓ} : {A : Type ℓ} → List A → Bool
is_nil [] = true
is_nil (_ ∷ _) = false

-- The end of a sequence: its last state gets the index of the value.
unfoldable pub mark_terminal : Trie → ℕ → ℕ → Result Trie
mark_terminal t state index = elim (get_elem? t.nodes state) [
  | none ↦ fails invalid_argument
  | some node ↦
      if not (node.terminal == no_terminal) || not (is_nil node.children)
      then fails invalid_argument
      else success (record t { nodes = set t.nodes state (record node { terminal = index }) })
]

pub record StateRecord : Type 0 where
  pub first_arc : ℕ  -- uint32
  pub arc_count : ℕ  -- uint32
  pub terminal : ℕ  -- uint32

abbrev pub flatten_states : ℕ → List TrieNode → List StateRecord
flatten_states first [] = []
flatten_states first (n ∷ rest) =
    record { first_arc = first; arc_count = length n.children; terminal = n.terminal }
    ∷ flatten_states (first + length n.children) rest

abbrev pub flatten_arcs : List TrieNode → List GrammarArc
flatten_arcs [] = []
flatten_arcs (n ∷ rest) = n.children ++ flatten_arcs rest

pub record Dfa (V : Type 0) : Type 0 where
  pub states : List StateRecord
  pub arcs : List GrammarArc
  pub values : List V

-- `lower_bound` over the arcs of a state, and the test of what it finds.
abbrev pub arc_for : ℕ → List GrammarArc → Option ℕ
arc_for token [] = none
arc_for token (a ∷ rest) =
    if ltb a.token token then arc_for token rest else if a.token == token then some a.next else none

module _ {V : Type 0} where
  -- The values that are taken so far are in `values`; `same` compares two of them.
  abbrev pub taken_value : (V → V → Bool) → V → List V → Bool
  taken_value same v [] = false
  taken_value same v (w ∷ ws) = same v w || taken_value same v ws

  -- The loop over the language, from the trie and the values so far.
  unfoldable pub insert_all :
      (V → Bool)
      → (V → V → Bool)
      → DfaConfig
      → Trie
      → List V
      → List (Encoded V)
      → Result (Trie × List V)
  unfolding insert_tokens mark_terminal
  insert_all refused same config t values [] = success (t, values)
  insert_all refused same config t values (e ∷ es) =
      if refused e.value
        || is_nil e.tokens
        || ltb config.maximum_sequence_tokens (length e.tokens)
        || taken_value same e.value values
      then fails invalid_argument
      else (insert_tokens config t 0 e.tokens >>= λ p.
          mark_terminal p.0 p.1 (length values) >>= λ t'.
          insert_all refused same config t' (values ++ e.value ∷ []) es)

  abbrev pub flatten : List (Encoded V) → Trie → List V → Result (Dfa V)
  flatten language t values =
      if not (length (flatten_arcs t.nodes) == t.arc_count)
        || not (length values == length language)
      then fails invalid_format
      else success (record {
        states = flatten_states 0 t.nodes;
        arcs = flatten_arcs t.nodes;
        values = values;
      })

  -- `build`; `exhausted` tells whether the call comes to an allocation that throws `std::bad_alloc`.
  unfoldable pub build_dfa :
      (V → Bool) → (V → V → Bool) → Bool → List (Encoded V) → DfaConfig → Result (Dfa V)
  unfolding insert_all
  build_dfa refused same exhausted language config =
      if is_nil language
        || config.vocabulary_size == 0
        || config.maximum_sequence_tokens == 0
        || config.maximum_entries == 0
        || config.maximum_states == 0
        || config.maximum_arcs == 0
      then fails invalid_argument
      else if ltb config.maximum_entries (length language)
      then fails resource_limit
      else if exhausted
      then fails allocation_failed
      else (insert_all refused same config empty_trie [] language >>= λ p. flatten language p.0 p.1)

  unfoldable pub allowed : Dfa V → ℕ → Result (List GrammarArc)
  allowed d state = elim (get_elem? d.states state) [
    | none ↦ fails invalid_argument
    | some r ↦ success (take r.arc_count (drop r.first_arc d.arcs))
  ]

  unfoldable pub advance : Dfa V → ℕ → ℕ → Result ℕ
  unfolding allowed
  advance d state token = allowed d state >>= λ arcs. elim (arc_for token arcs) [
    | none ↦ fails invalid_argument
    | some next ↦ success next
  ]

  unfoldable pub terminal : Dfa V → ℕ → Bool
  terminal d state = elim (get_elem? d.states state) [
    | none ↦ false
    | some r ↦ not (r.terminal == no_terminal)
  ]

  unfoldable pub decode_terminal : Dfa V → ℕ → Result V
  decode_terminal d state = elim (get_elem? d.states state) [
    | none ↦ fails invalid_argument
    | some r ↦
        if r.terminal == no_terminal
        then fails invalid_argument
        else elim (get_elem? d.values r.terminal) [
          | none ↦ fails invalid_argument
          | some v ↦ success v
        ]
  ]
