-- ===== src/Grammar/Tests.antt =====
-- The automata over a small language.
use market_sim.Prelude.{ℕ, ◌≡◌, refl, false, List, [], ◌∷◌, arith}
use market_sim.Prelude.Sort.{All}
use market_sim.Core.Status.{success, fails, invalid_argument, ◌>>=◌}
use market_sim.Grammar.Action.{Action, hold_action, hold, buy_yes, IsValid}
use market_sim.Grammar.Trie.{
  Encoded, DfaConfig, Dfa, decode_terminal, GrammarArc, StateRecord, no_terminal,
}
use market_sim.Grammar.Trie.Flat.{walk}
use market_sim.Grammar.ActionDfa.{build, build-Accepts}
use market_sim.Grammar.Catalogue.{
  GeneratedCatalogEntry, Catalog, create_catalog, tokens, tokens-IsValid,
}
use market_sim.Grammar.TokenDfa.{build_choices, build_choices-Accepts}

abbrev config : DfaConfig
config = record {
  vocabulary_size = 100;
  maximum_sequence_tokens = 12;
  maximum_entries = 4096;
  maximum_states = 65536;
  maximum_arcs = 65536;
}

abbrev buy_two : Action
buy_two = record { kind = buy_yes; quantity = 2; price_tick = 40 }

-- Two sequences that share their first token.
abbrev language : List (Encoded Action)
language =
    record { value = hold_action; tokens = 7 ∷ 3 ∷ [] }
    ∷ record { value = buy_two; tokens = 7 ∷ 2 ∷ 9 ∷ [] }
    ∷ []

abbrev arc : ℕ → ℕ → GrammarArc
arc token next = record { token = token; next = next }

abbrev node : ℕ → ℕ → ℕ → StateRecord
node first_arc arc_count terminal = record {
  first_arc = first_arc;
  arc_count = arc_count;
  terminal = terminal;
}

abbrev automaton : Dfa Action
automaton = record {
  states =
      node 0 1 no_terminal
      ∷ node 1 2 no_terminal
      ∷ node 3 0 0
      ∷ node 3 1 no_terminal
      ∷ node 4 0 1
      ∷ [];
  arcs = arc 7 1 ∷ arc 2 3 ∷ arc 3 2 ∷ arc 9 4 ∷ [];
  values = hold_action ∷ buy_two ∷ [];
}

build_test : build false language config ≡ success automaton
unfolding build
build_test = refl

build-Accepts_example :
    All
      (λ (e : Encoded Action).
        (walk automaton 0 e.tokens >>= decode_terminal automaton) ≡ success e.value)
      language
build-Accepts_example = build-Accepts false language config automaton (omega arith) build_test

abbrev choices : List (Encoded ℕ)
choices =
    record { value = 30; tokens = 7 ∷ 3 ∷ [] } ∷ record { value = 8; tokens = 7 ∷ 2 ∷ 9 ∷ [] } ∷ []

abbrev choice_automaton : Dfa ℕ
choice_automaton = record { states = automaton.states; arcs = automaton.arcs; values = 30 ∷ 8 ∷ [] }

build_choices_test : build_choices false choices config ≡ success choice_automaton
unfolding build_choices
build_choices_test = refl

-- A sequence that begins with another one is refused.
prefix_test :
    build_choices false
      (record { value = 1; tokens = 7 ∷ [] } ∷ record { value = 2; tokens = 7 ∷ 3 ∷ [] } ∷ [])
      config
    ≡ fails invalid_argument
unfolding build_choices
prefix_test = refl

build_choices-Accepts_example :
    All
      (λ (e : Encoded ℕ).
        (walk choice_automaton 0 e.tokens >>= decode_terminal choice_automaton) ≡ success e.value)
      choices
build_choices-Accepts_example =
    build_choices-Accepts false choices config choice_automaton (omega arith) build_choices_test

-- A table of two entries over five tokens.
abbrev table : List GeneratedCatalogEntry
table =
    record { kind = hold; quantity = 0; tick = 0; token_offset = 0; token_count = 2 }
    ∷ record { kind = buy_yes; quantity = 2; tick = 40; token_offset = 2; token_count = 3 }
    ∷ []

abbrev catalogue : Catalog
catalogue = record { dfa = automaton; entries = language }

table-create_catalog_test :
    create_catalog false false (7 ∷ 3 ∷ 7 ∷ 2 ∷ 9 ∷ []) table ≡ success catalogue
unfolding create_catalog
table-create_catalog_test = refl

buy_two-tokens_test : tokens catalogue buy_two ≡ success (7 ∷ 2 ∷ 9 ∷ [])
unfolding tokens
buy_two-tokens_test = refl

tokens-IsValid_example :
    IsValid buy_two
    × ((walk automaton 0 (7 ∷ 2 ∷ 9 ∷ []) >>= decode_terminal automaton) ≡ success buy_two)
tokens-IsValid_example =
    tokens-IsValid false false (7 ∷ 3 ∷ 7 ∷ 2 ∷ 9 ∷ []) table catalogue buy_two (7 ∷ 2 ∷ 9 ∷ [])
      table-create_catalog_test buy_two-tokens_test
