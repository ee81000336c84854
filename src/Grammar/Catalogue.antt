-- ===== src/Grammar/Catalogue.antt =====
-- include/marketforge/grammar/smollm2_market_actions.hpp and src/grammar/smollm2_market_actions.cpp: the
-- catalogue of the actions that the model emits, with the automaton over them. The generated table is a
-- parameter: its entries, and the tokens that they share out.
use market_sim.Prelude.{
  ℕ, ◌+◌, ◌≡◌, Bool, true, not, ◌||◌, refl, List, [], ◌∷◌, length, take, drop, ltb, ◌==◌,
  if◌then◌else◌, Option, none, some, find_if, arith, both_branches, subst, sym, ◌∙◌, ap,
}
use market_sim.Prelude.Sort.{All}
use market_sim.Prelude.Found.{find_if-passes, find_if-All}
use market_sim.Core.Status.{
  Result, success, failure, fails, ◌>>=◌, >>=-eq-success, success-injective, if_fails-success,
  Yields, Yields-bind, invalid_format, invalid_argument, allocation_failed,
}
use market_sim.Grammar.Action.{
  Action, ActionKind, hold, buy_yes, sell_yes, hold_action, buy_yes_action, sell_yes_action,
  IsValid, buy_yes_action-IsValid, sell_yes_action-IsValid,
}
use market_sim.Grammar.Trie.{Encoded, DfaConfig, Dfa, decode_terminal}
use market_sim.Grammar.Trie.Flat.{walk}
use market_sim.Grammar.ActionDfa.{build, same_key, kind_value, build-Accepts}

pub record GeneratedCatalogEntry : Type 0 where
  pub kind : ActionKind
  pub quantity : ℕ  -- uint8
  pub tick : ℕ  -- uint8
  pub token_offset : ℕ  -- uint32
  pub token_count : ℕ  -- uint8

pub record Catalog : Type 0 where
  pub dfa : Dfa Action
  pub entries : List (Encoded Action)

abbrev pub vocabulary_size : ℕ
vocabulary_size = 49152

-- The source's last `return` is for a kind outside the enumeration.
unfoldable action_of : ActionKind → ℕ → ℕ → Result Action
unfolding buy_yes_action sell_yes_action
action_of hold quantity tick =
    if not (quantity == 0) || not (tick == 0) then fails invalid_format else success hold_action
action_of buy_yes quantity tick = buy_yes_action quantity tick
action_of sell_yes quantity tick = sell_yes_action quantity tick

unfoldable generated_action : GeneratedCatalogEntry → Result Action
unfolding action_of
generated_action entry = action_of entry.kind entry.quantity entry.tick

-- The check of an entry, whose one error stands for that of its action as well.
unfoldable checked_entry : List ℕ → GeneratedCatalogEntry → Result Action → Result (Encoded Action)
checked_entry tokens entry (failure _) = fails invalid_format
checked_entry tokens entry (success action) =
    if entry.token_count == 0 || ltb (length tokens) (entry.token_offset + entry.token_count)
    then fails invalid_format
    else success (record {
      value = action;
      tokens = take entry.token_count (drop entry.token_offset tokens);
    })

-- The loop over the table.
unfoldable catalog_entries : List ℕ → List GeneratedCatalogEntry → Result (List (Encoded Action))
unfolding generated_action checked_entry
catalog_entries tokens [] = success []
catalog_entries tokens (entry ∷ rest) = do
  encoded ← checked_entry tokens entry (generated_action entry)
  more ← catalog_entries tokens rest
  success (encoded ∷ more)

abbrev catalog_config : DfaConfig
catalog_config = record {
  vocabulary_size = vocabulary_size;
  maximum_sequence_tokens = 12;
  maximum_entries = 4096;
  maximum_states = 65536;
  maximum_arcs = 65536;
}

-- `SmolLm2MarketActionCatalog::create`. Whether its own allocations fail, and those of the automaton,
-- are the first two arguments.
unfoldable pub create_catalog : Bool → Bool → List ℕ → List GeneratedCatalogEntry → Result Catalog
unfolding catalog_entries build
create_catalog exhausted build_exhausted tokens table =
    if exhausted then fails allocation_failed else do
      entries ← catalog_entries tokens table
      dfa ← build build_exhausted entries catalog_config
      success (record { dfa = dfa; entries = entries })

unfoldable tokens_of : Option (Encoded Action) → Result (List ℕ)
tokens_of none = fails invalid_argument
tokens_of (some e) = success e.tokens

-- `SmolLm2MarketActionCatalog::tokens`.
unfoldable pub tokens : Catalog → Action → Result (List ℕ)
unfolding tokens_of
tokens c action = tokens_of (find_if (λ e. same_key e.value action) c.entries)

kind_value-injective : (a b : ActionKind) → kind_value a ≡ kind_value b → a ≡ b
kind_value-injective hold hold h = refl
kind_value-injective hold buy_yes h = absurd (omega arith)
kind_value-injective hold sell_yes h = absurd (omega arith)
kind_value-injective buy_yes hold h = absurd (omega arith)
kind_value-injective buy_yes buy_yes h = refl
kind_value-injective buy_yes sell_yes h = absurd (omega arith)
kind_value-injective sell_yes hold h = absurd (omega arith)
kind_value-injective sell_yes buy_yes h = absurd (omega arith)
kind_value-injective sell_yes sell_yes h = refl

same_key-eq : (a b : Action) → same_key a b ≡ true → a ≡ b
same_key-eq a b h =
    let kind = kind_value-injective a.kind b.kind (ground arith) in
    let quantity : a.quantity ≡ b.quantity = ground arith in
    let price_tick : a.price_tick ≡ b.price_tick = ground arith in
    λ i. record { kind = kind i; quantity = quantity i; price_tick = price_tick i }

factory-Yields : (r : Result Action) → ((a : Action) → r ≡ success a → IsValid a) → Yields IsValid r
factory-Yields (success a) h = h a refl
factory-Yields (failure s) h = tt

action_of-IsValid :
    (kind : ActionKind) (quantity tick : ℕ) → Yields IsValid (action_of kind quantity tick)
unfolding action_of
action_of-IsValid hold quantity tick =
    both_branches (Yields IsValid) (not (quantity == 0) || not (tick == 0)) (fails invalid_format)
      (success hold_action) (λ _. tt) (λ _. (refl, refl))
action_of-IsValid buy_yes quantity tick =
    factory-Yields (buy_yes_action quantity tick) (buy_yes_action-IsValid quantity tick)
action_of-IsValid sell_yes quantity tick =
    factory-Yields (sell_yes_action quantity tick) (sell_yes_action-IsValid quantity tick)

abbrev HasValid : Encoded Action → Type 0
HasValid e = IsValid e.value

checked_entry-HasValid :
    (source : List ℕ) (entry : GeneratedCatalogEntry) (r : Result Action)
    → Yields IsValid r
    → Yields HasValid (checked_entry source entry r)
unfolding checked_entry
checked_entry-HasValid source entry (failure s) h = tt
checked_entry-HasValid source entry (success a) h =
    both_branches (Yields HasValid)
      (entry.token_count == 0 || ltb (length source) (entry.token_offset + entry.token_count))
      (fails invalid_format) (success _) (λ _. tt) (λ _. h)

catalog_entries-HasValid :
    (source : List ℕ) (table : List GeneratedCatalogEntry)
    → Yields (All HasValid) (catalog_entries source table)
unfolding catalog_entries
catalog_entries-HasValid source [] = tt
catalog_entries-HasValid source (entry ∷ rest) =
    let Q = All HasValid in
    Yields-bind HasValid Q (checked_entry source entry (generated_action entry)) _
      (checked_entry-HasValid source entry (generated_action entry)
        (action_of-IsValid entry.kind entry.quantity entry.tick))
      λ e valid.
        Yields-bind Q Q (catalog_entries source rest) _ (catalog_entries-HasValid source rest)
          λ es valids. let done : Q (e ∷ es) = (valid, valids) in done

-- What the automaton and an entry of a catalogue have in common.
abbrev Decodes : Dfa Action → Encoded Action → Type 0
Decodes d e = (walk d 0 e.tokens >>= decode_terminal d) ≡ success e.value

create_catalog-Decodes :
    (exhausted build_exhausted : Bool) (source : List ℕ) (table : List GeneratedCatalogEntry)
    (c : Catalog)
    → create_catalog exhausted build_exhausted source table ≡ success c
    → All (Decodes c.dfa) c.entries × All HasValid c.entries
unfolding create_catalog
create_catalog-Decodes exhausted build_exhausted source table c h =
    let (_, h₁) = if_fails-success exhausted allocation_failed _ h in
    let (es, entered, h₂) = >>=-eq-success (catalog_entries source table) _ h₁ in
    let (d, built, made) = >>=-eq-success (build build_exhausted es catalog_config) _ h₂ in
    let valid =
      subst (λ (r : Result (List (Encoded Action))). Yields (All HasValid) r) entered
        (catalog_entries-HasValid source table) in
    subst (λ (k : Catalog). All (Decodes k.dfa) k.entries × All HasValid k.entries)
      (success-injective made)
      (build-Accepts build_exhausted es catalog_config d (omega arith) built, valid)

tokens_of-found :
    (o : Option (Encoded Action)) (ts : List ℕ)
    → tokens_of o ≡ success ts
    → (e : Encoded Action) × (o ≡ some e) × (e.tokens ≡ ts)
unfolding tokens_of
tokens_of-found none ts h = cc
tokens_of-found (some e) ts h = (e, refl, success-injective h)

-- In a catalogue, over any generated table, an action that has tokens is a valid one, and its tokens
-- lead the automaton from its root to a state that decodes to that action.
pub tokens-IsValid :
    (exhausted build_exhausted : Bool) (source : List ℕ) (table : List GeneratedCatalogEntry)
    (c : Catalog) (action : Action) (ts : List ℕ)
    → create_catalog exhausted build_exhausted source table ≡ success c
    → tokens c action ≡ success ts
    → IsValid action × ((walk c.dfa 0 ts >>= decode_terminal c.dfa) ≡ success action)
unfolding tokens
tokens-IsValid exhausted build_exhausted source table c action ts made h =
    let test : Encoded Action → Bool = λ e. same_key e.value action in
    let (decodes, valid) = create_catalog-Decodes exhausted build_exhausted source table c made in
    let (e, found, read) = tokens_of-found (find_if test c.entries) ts h in
    let same = same_key-eq e.value action (find_if-passes test c.entries e found) in
    let walked = find_if-All test (Decodes c.dfa) c.entries e decodes found in
    (
      subst (λ (a : Action). IsValid a) same (find_if-All test HasValid c.entries e valid found),
      ap (λ (us : List ℕ). walk c.dfa 0 us >>= decode_terminal c.dfa) (sym read)
          ∙ walked
          ∙ ap success same,
    )
