-- ===== src/Grammar/TokenDfa.antt =====
-- include/marketforge/grammar/token_dfa.hpp and src/grammar/token_dfa.cpp: the automaton over token
-- sequences that end in choices, which are numbers of the application.
use market_sim.Prelude.{ℕ, ◌≤◌, ◌≡◌, Bool, List, ◌==◌}
use market_sim.Prelude.Sort.{All}
use market_sim.Core.Status.{Result, success, ◌>>=◌}
use market_sim.Core.CheckedMath.{u32_max}
use market_sim.Grammar.Trie.{Encoded, DfaConfig, Dfa, build_dfa, decode_terminal, no_terminal}
use market_sim.Grammar.Trie.Flat.{walk, build_dfa-Accepts}

-- An id that marks states without a choice is refused.
unfoldable pub build_choices : Bool → List (Encoded ℕ) → DfaConfig → Result (Dfa ℕ)
unfolding build_dfa
build_choices exhausted language config =
    build_dfa (λ id. id == no_terminal) (λ a b. a == b) exhausted language config

-- An automaton of choices that `build` returns, for a configuration of uint32, accepts its language:
-- from the root, the tokens of each encoded choice lead to a state that decodes to its id.
pub build_choices-Accepts :
    (exhausted : Bool) (language : List (Encoded ℕ)) (config : DfaConfig) (d : Dfa ℕ)
    → config.maximum_entries ≤ u32_max
    → build_choices exhausted language config ≡ success d
    → All (λ (e : Encoded ℕ). (walk d 0 e.tokens >>= decode_terminal d) ≡ success e.value) language
unfolding build_choices
build_choices-Accepts exhausted language config d m h =
    build_dfa-Accepts (λ id. id == no_terminal) (λ a b. a == b) exhausted language config d m h
