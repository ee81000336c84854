-- ===== src/Serving/KvCache/Pages.antt =====
-- How the loops of the cache over page lists check and change the records of the pages.
use market_sim.Prelude.{
  ℕ, zero, suc, ◌+◌, ◌*◌, ◌≤◌, ◌≡◌, inl, inr, refl, ap, sym, ◌∙◌, subst, Bool, true, false, List,
  [], ◌∷◌, ◌++◌, Option, none, some, arith, length, length-set, ◌==◌, if◌then◌else◌, Option-cases,
  get_elem?, set, ℕ_discrete, get_elem?-set-some, get_elem?-set_ne,
}
use market_sim.Prelude.Sort.{All, weigh}
use market_sim.Serving.KvCache.{Page, is_free, same_page, all_owned, assign_pages}

-- How often a page occurs.
abbrev pub times : ℕ → List ℕ → ℕ
times i [] = 0
times i (j ∷ js) = (if i == j then 1 else 0) + times i js

pub times-append : (i : ℕ) (is js : List ℕ) → times i (is ++ js) ≡ times i is + times i js
times-append i [] js = omega arith
times-append i (k ∷ is) js = omega (arith, times-append i is js)

-- A page that is not free counts once.
abbrev pub taken : Page → ℕ
taken p = if is_free p then 0 else 1

abbrev pub taken_at : List Page → ℕ → ℕ
taken_at pages i = elim (get_elem? pages i) [ none ↦ 0 | some p ↦ taken p ]

owned_at : List Page → Page → ℕ → Bool
owned_at pages p i = elim (get_elem? pages i) [ none ↦ false | some q ↦ same_page q p ]

pub length-assign_pages :
    (pages : List Page) (p : Page) (is : List ℕ) → length (assign_pages pages p is) ≡ length pages
length-assign_pages pages p [] = refl
length-assign_pages pages p (i ∷ is) =
    length-assign_pages (set pages i p) p is ∙ length-set pages i p

-- The record of a page that the loop does not name stays.
pub assign_pages-other :
    (pages : List Page) (p : Page) (is : List ℕ) (i : ℕ)
    → times i is ≡ 0
    → get_elem? (assign_pages pages p is) i ≡ get_elem? pages i
assign_pages-other pages p [] i h = refl
assign_pages-other pages p (j ∷ is) i h =
    assign_pages-other (set pages j p) p is i (ground arith)
    ∙ get_elem?-set_ne pages p
        (λ (e : j ≡ i). let bad : (i == j) ≡ true = ground arith in ground arith)

-- The record of a page that it names is the new one.
pub assign_pages-named :
    (pages : List Page) (p q : Page) (is : List ℕ) (i : ℕ)
    → 1 ≤ times i is
    → get_elem? pages i ≡ some q
    → get_elem? (assign_pages pages p is) i ≡ some p
assign_pages-named pages p q [] i h at = absurd (omega arith)
assign_pages-named pages p q (j ∷ is) i h at = elim (ℕ_discrete j i) [
  | yes e ↦
      let now : get_elem? (set pages j p) i ≡ some p =
        subst (λ k. get_elem? (set pages k p) i ≡ some p) (sym e)
          (get_elem?-set-some pages i q p at) in
      elim (ℕ_discrete (times i is) 0) [
        | yes z ↦ assign_pages-other (set pages j p) p is i z ∙ now
        | no n ↦ assign_pages-named (set pages j p) p p is i (omega arith) now
      ]
  | no n ↦
      assign_pages-named (set pages j p) p q is i (ground arith) (get_elem?-set_ne pages p n ∙ at)
]

-- A page of a list that is owned has a record, and the list's owner in it.
pub all_owned-at :
    (pages : List Page) (p : Page) (is : List ℕ) (i : ℕ)
    → all_owned pages p is ≡ true
    → 1 ≤ times i is
    → (q : Page) × (get_elem? pages i ≡ some q) × (same_page q p ≡ true)
all_owned-at pages p [] i h t = absurd (omega arith)
all_owned-at pages p (j ∷ is) i h t = elim (ℕ_discrete i j) [
  | no n ↦ all_owned-at pages p is i (ground arith) (ground arith)
  | yes e ↦ elim (Option-cases (get_elem? pages j)) [
    | inl missing ↦ absurd (ground arith)
    | inr (q, at) ↦ (q, ap (get_elem? pages) e ∙ at, ground arith)
  ]
]

-- The other way.
pub all_owned-from :
    (pages : List Page) (p : Page) (is : List ℕ)
    → ((i : ℕ)
        → 1 ≤ times i is
        → (q : Page) × (get_elem? pages i ≡ some q) × (same_page q p ≡ true))
    → all_owned pages p is ≡ true
all_owned-from pages p [] h = refl
all_owned-from pages p (j ∷ is) h =
    let (q, at, same) = h j (ground arith) in
    let rest = all_owned-from pages p is (λ i t. h i (omega (arith, t))) in rw (at, same, rest) refl

-- The pages of a list that is owned belong to it after the loop.
pub assign_pages-owned :
    (pages : List Page) (p q : Page) (is : List ℕ)
    → all_owned pages p is ≡ true
    → all_owned (assign_pages pages q is) q is ≡ true
assign_pages-owned pages p q is h = all_owned-from (assign_pages pages q is) q is (λ i t.
    let (r, at, same) = all_owned-at pages p is i h t in
    (q, assign_pages-named pages q r is i t at, ground arith))

-- A list that shares no page with those of the loop stays owned.
pub assign_pages-keeps :
    (pages : List Page) (p q : Page) (is js : List ℕ)
    → all_owned pages p is ≡ true
    → ((i : ℕ) → times i is + times i js ≤ 1)
    → all_owned (assign_pages pages q js) p is ≡ true
assign_pages-keeps pages p q is js h apart = all_owned-from (assign_pages pages q js) p is (λ i t.
    let (r, at, same) = all_owned-at pages p is i h t in
    (r, assign_pages-other pages q js i (omega (arith, t, apart i)) ∙ at, same))

-- How the loop changes what counts as taken.
pub taken_at-assign_pages :
    (pages : List Page) (p q : Page) (js : List ℕ) (i : ℕ)
    → all_owned pages p js ≡ true
    → times i js ≤ 1
    → taken_at (assign_pages pages q js) i + taken p * times i js
      ≡ taken_at pages i + taken q * times i js
taken_at-assign_pages pages p q js i h once = elim (ℕ_discrete (times i js) 0) [
  | yes z ↦
      let now : taken_at (assign_pages pages q js) i ≡ taken_at pages i =
        ap (λ (o : Option Page). elim o [ none ↦ 0 | some r ↦ taken r ])
          (assign_pages-other pages q js i z) in
      rw (now, z) (omega arith)
  | no n ↦
      let (r, at, same) = all_owned-at pages p js i h (omega arith) in
      let one : times i js ≡ 1 = omega arith in
      let new : taken_at (assign_pages pages q js) i ≡ taken q =
        ap (λ (o : Option Page). elim o [ none ↦ 0 | some r ↦ taken r ])
          (assign_pages-named pages q r js i (omega arith) at) in
      let old : taken_at pages i ≡ taken p =
        ap (λ (o : Option Page). elim o [ none ↦ 0 | some r ↦ taken r ]) at ∙ ground arith in
      rw (new, old, one) (omega arith)
]

-- A free page has no owner.
abbrev pub IsTidy : Page → Type 0
IsTidy p = is_free p ≡ true → p.owner ≡ 0

set-All :
    (pages : List Page) (i : ℕ) (p : Page)
    → IsTidy p
    → All IsTidy pages
    → All IsTidy (set pages i p)
set-All [] i p t a = tt
set-All (q ∷ pages) zero p t a = (t, a.1)
set-All (q ∷ pages) (suc i) p t a = (a.0, set-All pages i p t a.1)

pub assign_pages-All :
    (pages : List Page) (p : Page) (is : List ℕ)
    → IsTidy p
    → All IsTidy pages
    → All IsTidy (assign_pages pages p is)
assign_pages-All pages p [] t a = a
assign_pages-All pages p (i ∷ is) t a =
    assign_pages-All (set pages i p) p is t (set-All pages i p t a)

-- The same for the lists of many holders: they stay owned when the loop's pages are none of theirs.
pub assign_pages-All_owned {ℓ} :
    {A : Type ℓ} (pages : List Page) (q : Page) (js : List ℕ) (held : A → List ℕ) (tag : A → Page)
    (xs : List A)
    → All (λ x. all_owned pages (tag x) (held x) ≡ true) xs
    → ((i : ℕ) → weigh (λ x. times i (held x)) xs + times i js ≤ 1)
    → All (λ x. all_owned (assign_pages pages q js) (tag x) (held x) ≡ true) xs
unfolding weigh
assign_pages-All_owned pages q js held tag [] a apart = tt
assign_pages-All_owned pages q js held tag (x ∷ xs) a apart = (
  assign_pages-keeps pages (tag x) q (held x) js a.0 (λ i. omega (arith, apart i)),
  assign_pages-All_owned pages q js held tag xs a.1 (λ i. omega (arith, apart i)),
)
