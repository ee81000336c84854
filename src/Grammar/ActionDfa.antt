-- ===== src/Grammar/ActionDfa.antt =====
-- src/grammar/action_dfa.cpp: the automaton over token sequences that end in actions.
use market_sim.Prelude.{ℕ, ◌≤◌, ◌≡◌, Bool, false, ◌&&◌, List, ◌==◌}
use market_sim.Prelude.Sort.{All}
use market_sim.Core.Status.{Result, success, ◌>>=◌}
use market_sim.Core.CheckedMath.{u32_max}
use market_sim.Grammar.Action.{Action, ActionKind, hold, buy_yes, sell_yes}
use market_sim.Grammar.Trie.{Encoded, DfaConfig, Dfa, build_dfa, decode_terminal}
use market_sim.Grammar.Trie.Flat.{walk, build_dfa-Accepts}

-- The enumerators' values.
abbrev pub kind_value : ActionKind → ℕ
kind_value hold = 0
kind_value buy_yes = 1
kind_value sell_yes = 2

-- The comparison of two keys.
abbrev pub same_key : Action → Action → Bool
same_key a b =
    kind_value a.kind == kind_value b.kind
    && a.quantity == b.quantity
    && a.price_tick == b.price_tick

unfoldable pub build : Bool → List (Encoded Action) → DfaConfig → Result (Dfa Action)
unfolding build_dfa
build exhausted language config = build_dfa (λ a. false) same_key exhausted language config

-- An automaton of actions that `build` returns, for a configuration of uint32, accepts its language:
-- from the root, the tokens of each encoded action lead to a state that decodes to that action.
pub build-Accepts :
    (exhausted : Bool) (language : List (Encoded Action)) (config : DfaConfig) (d : Dfa Action)
    → config.maximum_entries ≤ u32_max
    → build exhausted language config ≡ success d
    → All
        (λ (e : Encoded Action). (walk d 0 e.tokens >>= decode_terminal d) ≡ success e.value)
        language
unfolding build
build-Accepts exhausted language config d m h =
    build_dfa-Accepts (λ a. false) same_key exhausted language config d m h
