-- ===== src/Lib.antt =====
-- Market_Sim: a call market whose agents are language models, with the serving layer and the
-- tensor library that run them. This development models the parts that decide something about
-- state or about an input: the market that clears a batch of orders, the scheduler of inference
-- sequences, the accounting of the key-value cache's pages, the token automata that keep a model's
-- output to legal actions, the readers of a model's files, the shape arithmetic that the tensors
-- rest on, and the checks, offsets and copies of the attention and its cache. Paths are from the
-- repository's root.
--
-- Parts and files.
-- - Core: `Core/Status` has the error codes, `Status` and `Result<T>` of
--   include/marketforge/core, `Core/CheckedMath` the checked operations on uint64, and
--   `Core/Shape` (with `Offsets` and `Indexing`) src/core/shape.cpp, and `Core/TensorView`
--   include/marketforge/core/tensor_view.hpp. An early `return` of a failed `Result` is `>>=`.
-- - Cpu: `Cpu/Views` has the checks that the operators of src/cpu/operators.cpp share, with
--   `Views/Overlap` on the memory of two views and `Views/Guards` on what passed checks say;
--   `Cpu/Attention` has the checks of `attention_f32` and the offsets of `attention_impl`,
--   with the proofs in `Attention/Checks` and `Attention/Offsets`; `Cpu/Append` has `append_kv_f32` over a memory of bytes, with the
--   proofs in `Append/Ready` and `Append/Frame`.
-- - Grammar: `Grammar/Action` has the actions that an agent may take, src/grammar/action.cpp.
--   `Grammar/Trie` has the token automata of src/grammar/action_dfa.cpp and
--   src/grammar/token_dfa.cpp, whose text is the same but for the values, with the proofs in
--   `Trie/Growth`, `Trie/Language`, `Trie/Order` and `Trie/Flat`; `Grammar/ActionDfa` and
--   `Grammar/TokenDfa` are the two instances. `Grammar/Catalogue` has the catalogue of
--   src/grammar/smollm2_market_actions.cpp, which fills an automaton from a generated table.
-- - Market: `Market` has the data of include/marketforge/market/batch_market.hpp.
--   `BatchMarket::clear` of src/market/batch_market.cpp is taken apart as its text is:
--   `Market/Orders` collects the batch, `Market/Clearing` searches the ticks,
--   `Market/Settlement` shares out the match and books the fills, and `Market/Batch` puts them
--   together with `BatchMarket::create`. Proofs stand below each: `Orders/Collected`,
--   `Clearing/Best`, `Settlement/Fills`, `Settlement/Conservation`, `Settlement/Solvency`, and
--   `Batch/Trade`, `Batch/Totals`, `Batch/Accounts`, `Batch/Effects`, `Batch/Trades`,
--   `Batch/Creation` and `Batch/Clearings`.
-- - Model: `Model/Utf8`, `Model/Text` and `Model/Json` are src/model/json_parser.cpp: the check of
--   the bytes, the scanner of strings and numbers, and the parser; their proofs stand in
--   `Utf8/Encoding`, `Text/Ahead` (with `Numbers` and `Strings`), `Text/Written`, `Json/Cases`,
--   `Json/Ahead`, `Json/Valid`, `Json/Writer` and `Json/Print`. `Model/Safetensors` (with
--   `Coverage` and `Lookup`) is src/model/safetensors.cpp, which reads the index of a
--   file of tensors with that parser.
--   `Model/Spec` (with `Count` and `Footprint`) is src/model/model_spec.cpp, `Model/Config` (with
--   `Accepted`) src/model/model_config.cpp, which fills a specification from a JSON text, and
--   `Model/Weights` (with `Bound`) src/model/loaded_weights.cpp, which finds a specification's
--   tensors in a file.
-- - Serving, the scheduler: `Serving/Scheduler` has the operations on one sequence of
--   src/serving/sequence_scheduler.cpp, `Scheduler/Batching` its `schedule`.
--   `Scheduler/Entries`, `Selected`, `Invariant`, `Fairness`, `Batches`, `Turns`, `Snapshot` and
--   `Terminal` have the proofs; `Invariant` has the client's calls as a data type, with `step`
--   and `run`.
-- - Serving, the cache: `Serving/KvCache` has the data and the lookups of
--   src/serving/paged_kv_cache.cpp, `KvCache/Sequences`, `KvCache/Reservations` and
--   `KvCache/Views` its operations. `KvCache/Pages`, `Ledger`, `Steps`, `Lifetimes`,
--   `Reserving`, `Outcome`, `Runs`, `Rollback`, `Fresh` and `Metrics` have the proofs; `Runs` has the
--   client's calls.
-- - `Prelude` has what all share: Boolean tests, lists over the native numbers, a signed number
--   with the range of int64 written out, insertion sort, and the first element that passes a
--   test. The modules named `Tests` run the code at concrete data.
--
-- How the code is read.
-- - An object's state is a record; an operation takes it and returns the state after the call
--   and the result. A pointer that a lookup returns is the first element with the id, and a
--   write through it replaces that element.
-- - A wrap of an unsigned number is written out (`% 4294967296`, `% 18446744073709551616`) where
--   the code does not exclude it. Sizes of containers are not bounded.
-- - What an allocation does is an argument: the operations of Serving take an `Allocation`
--   (granted, or one of the two exceptions that the code catches), those of Market and Grammar a
--   Boolean for `std::bad_alloc`. In every operation the writes to fields come after the last
--   allocation.
-- - `std::sort` is insertion sort by the same comparison. No two keys are equal where the order
--   of equal ones could show: ids are distinct, or the code refuses the input.
--   `std::lower_bound` is the position of the first element not before the key, as the accounts
--   are sorted; `std::set` is a list that is only searched.
-- - Text is bytes. The parser's position is a cursor with the bytes ahead of it, and a pointer
--   into a file's mapping is an offset; the pointers of Cpu are addresses.
-- - The search of the market takes 99 rounds, one for each tick. The JSON parser runs on fuel of
--   three times the length of its input and two more, as each byte that it reads takes at most
--   three calls. The loops over UTF-8 and over a string's bytes take a round for each byte, and
--   the decimal digits of a number one round more than the number, which has fewer digits. Every
--   other loop is structural.
-- - Floats are a parameter: the tests that the code makes of them, and the reader of their text,
--   are arguments of `Model/Spec` and `Model/Config`. `std::from_chars` on integers is written out
--   as it is documented. The generated table is an argument of the catalogue.
-- - A comparison of signed cash is over the integers; sums of cash are checked against int64 as
--   the code checks them.
--
-- Not modelled: the arithmetic of floats in src/cpu, src/cuda and src/workloads, and with it the
-- operators other than those two, the decoder, the kernels and the radar simulation; the
-- operating system resources of src/core (mapped files and aligned buffers) and the functions that
-- only open a file in front of a reader; the command line tools.
pub mod Prelude
pub mod Core
pub mod Cpu
pub mod Grammar
pub mod Market
pub mod Model
pub mod Serving
