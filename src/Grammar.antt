-- ===== src/Grammar.antt =====
-- include/marketforge/grammar and src/grammar: the actions that a model may emit.
pub mod Action
pub mod Trie
pub mod ActionDfa
pub mod TokenDfa
pub mod Catalogue
mod Tests
