-- ===== src/Serving/KvCache.antt =====
-- include/marketforge/serving/paged_kv_cache.hpp, and `create` and the lookups of
-- src/serving/paged_kv_cache.cpp. A pointer that a lookup returns is the first element with the id; a
-- write through it replaces that element.
pub mod Sequences
pub mod Pages
pub mod Ledger
pub mod Steps
pub mod Lifetimes
pub mod Reserving
pub mod Outcome
pub mod Runs
pub mod Rollback
pub mod Fresh
pub mod Metrics
mod Tests
pub mod Reservations
pub mod Views
use market_sim.Prelude.{
  ℕ, zero, suc, ◌+◌, ◌-◌, ◌*◌, ◌/◌, ◌≡◌, Bool, true, false, ◌&&◌, ◌||◌, List, [], ◌∷◌, ◌++◌, Option,
  none, some, length, get_elem?, set, replicate, ltb, ◌==◌, if◌then◌else◌, find_if,
}
use market_sim.Core.Status.{
  Status, Result, success, failure, fails, status_success, status_failure, invalid_argument,
  Allocation, try_block,
}

pub data PageState : Type 0 where
  free reserved mutable_sequence immutable_prefix : PageState

pub record Page : Type 0 where
  pub state : PageState
  pub owner : ℕ  -- uint64

pub record Sequence : Type 0 where
  pub id : ℕ  -- uint64
  pub prefix_id : ℕ  -- uint64
  pub prefix_tokens : ℕ  -- uint32
  pub total_tokens : ℕ  -- uint32
  pub suffix_pages : List ℕ  -- of uint32

pub record Prefix : Type 0 where
  pub id : ℕ  -- uint64
  pub token_count : ℕ  -- uint32
  pub attachments : ℕ  -- uint64
  pub pages : List ℕ

pub record PendingReservation : Type 0 where
  pub id : ℕ  -- uint64
  pub sequence_id : ℕ  -- uint64
  pub target_token_count : ℕ  -- uint32
  pub pages : List ℕ

pub record KvReservation : Type 0 where
  pub id : ℕ
  pub sequence_id : ℕ
  pub target_token_count : ℕ
  pub new_pages : List ℕ

pub record PagedKvCache : Type 0 where
  pub pages : List Page
  pub tokens_per_page : ℕ  -- uint32
  pub sequences : List Sequence
  pub prefixes : List Prefix
  pub reservations : List PendingReservation
  pub next_reservation_id : ℕ  -- uint64

-- `Page{}`.
abbrev pub free_page : Page
free_page = record { state = free; owner = 0 }

abbrev pub page_of : PageState → ℕ → Page
page_of state owner = record { state = state; owner = owner }

-- The enumerators' values.
abbrev pub state_value : PageState → ℕ
state_value free = 0
state_value reserved = 1
state_value mutable_sequence = 2
state_value immutable_prefix = 3

-- `operator==` of `Page`.
abbrev pub same_page : Page → Page → Bool
same_page p q = state_value p.state == state_value q.state && p.owner == q.owner

abbrev pub is_free : Page → Bool
is_free p = state_value p.state == 0

abbrev pub find_sequence : PagedKvCache → ℕ → Option Sequence
find_sequence c id = find_if (λ (s : Sequence). s.id == id) c.sequences

abbrev pub find_prefix : PagedKvCache → ℕ → Option Prefix
find_prefix c id = find_if (λ (p : Prefix). p.id == id) c.prefixes

abbrev pub find_reservation : PagedKvCache → ℕ → Option PendingReservation
find_reservation c id = find_if (λ (r : PendingReservation). r.id == id) c.reservations

abbrev pub find_sequence_reservation : PagedKvCache → ℕ → Option PendingReservation
find_sequence_reservation c id =
    find_if (λ (r : PendingReservation). r.sequence_id == id) c.reservations

abbrev pub is_none {ℓ} : {A : Type ℓ} → Option A → Bool
is_none none = true
is_none (some _) = false

-- The first element of a `find`, as `std::find` compares it with the end.
abbrev pub contains_page : ℕ → List ℕ → Bool
contains_page i [] = false
contains_page i (j ∷ js) = j == i || contains_page i js

-- The check that an operation begins with: every one of the pages is recorded with this state and
-- owner.
abbrev pub all_owned : List Page → Page → List ℕ → Bool
all_owned pages p [] = true
all_owned pages p (i ∷ is) =
    elim (get_elem? pages i) [ none ↦ false | some q ↦ same_page q p ] && all_owned pages p is

-- The loop that gives the pages a new state and owner.
abbrev pub assign_pages : List Page → Page → List ℕ → List Page
assign_pages pages p [] = pages
assign_pages pages p (i ∷ is) = assign_pages (set pages i p) p is

-- A sum of uint64, for arguments of which the second is at least 1.
abbrev pub pages_for : ℕ → ℕ → ℕ
pages_for tokens tokens_per_page = (tokens + tokens_per_page - 1) / tokens_per_page

-- The constructor, for pages that are value-initialised.
abbrev pub new_cache : ℕ → ℕ → PagedKvCache
new_cache page_count tokens_per_page = record {
  pages = replicate page_count free_page;
  tokens_per_page = tokens_per_page;
  sequences = [];
  prefixes = [];
  reservations = [];
  next_reservation_id = 1;
}

unfoldable pub create : Allocation → ℕ → ℕ → Result PagedKvCache
create memory page_count tokens_per_page =
    if page_count == 0 || tokens_per_page == 0
    then fails invalid_argument
    else try_block memory fails (success (new_cache page_count tokens_per_page))
