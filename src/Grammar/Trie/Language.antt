-- ===== src/Grammar/Trie/Language.antt =====
-- The trie accepts every sequence that was inserted.
use market_sim.Prelude.{
  ℕ, ◌+◌, ◌≤◌, ◌<◌, ◌≡◌, inl, inr, refl, ap, sym, ◌∙◌, subst, Bool, false, ◌||◌, List, [], ◌∷◌,
  ◌++◌, some, arith, length, length-append, get_elem?, ltb, ◌==◌, Bool-cases,
}
use market_sim.Prelude.Sort.{All, All-map}
use market_sim.Core.Status.{success, ◌>>=◌, >>=-eq-success}
use market_sim.Core.CheckedMath.{u32_max}
use market_sim.Grammar.Trie.{
  Encoded, DfaConfig, TrieNode, Trie, no_terminal, insert_tokens, mark_terminal, is_nil,
  taken_value, insert_all,
}
use market_sim.Grammar.Trie.Growth.{
  get_elem?-append_left, get_elem?-append_last, lookup, Extends, Extends-refl, Extends-trans,
  HasValue, insert_tokens-Extends, lookup-Extends, mark_terminal-Extends,
}

module _ {V : Type 0} where
  -- The trie leads from its root along the tokens to a state with the value.
  pub record Accepts (ns : List TrieNode) (values : List V) (e : Encoded V) : Type 0 where
    pub last : ℕ
    pub index : ℕ
    pub path : lookup ns 0 e.tokens ≡ some last
    pub ends : HasValue ns last index
    pub fits : index < u32_max
    pub found : get_elem? values index ≡ some e.value

  Accepts-Extends :
      (ns ns' : List TrieNode) (values more : List V) (e : Encoded V)
      → Extends ns ns'
      → Accepts ns values e
      → Accepts ns' (values ++ more) e
  Accepts-Extends ns ns' values more e f a =
      let (n, at, same) = a.ends in
      let (n', at', k) = f a.last n at in
      let fits = a.fits in
      let some_value : (n.terminal == no_terminal) ≡ false = ground arith in
      record {
        last = a.last;
        index = a.index;
        path = lookup-Extends ns ns' 0 a.last e.tokens f a.path;
        ends = (n', at', k.value some_value ∙ same);
        fits = a.fits;
        found = get_elem?-append_left values more a.index e.value a.found;
      }

  All-Accepts-Extends :
      (ns ns' : List TrieNode) (values more : List V) (es : List (Encoded V))
      → Extends ns ns'
      → All (Accepts ns values) es
      → All (Accepts ns' (values ++ more)) es
  All-Accepts-Extends ns ns' values more es f a =
      All-map es (λ e h. Accepts-Extends ns ns' values more e f h) a

  append_assoc : (xs ys zs : List V) → (xs ++ ys) ++ zs ≡ xs ++ (ys ++ zs)
  append_assoc [] ys zs = refl
  append_assoc (x ∷ xs) ys zs = ap (λ t. x ∷ t) (append_assoc xs ys zs)

  append_nil : (xs : List V) → xs ++ [] ≡ xs
  append_nil [] = refl
  append_nil (x ∷ xs) = ap (λ t. x ∷ t) (append_nil xs)

  -- The loop over the language: what it was given it accepts, and what was accepted stays.
  pub insert_all-Accepts :
      (refused : V → Bool) (same : V → V → Bool) (config : DfaConfig) (t t' : Trie)
      (values values' : List V) (es : List (Encoded V))
      → length values + length es ≤ u32_max
      → insert_all refused same config t values es ≡ success (t', values')
      → Extends t.nodes t'.nodes
        × ((more : List V) × (values' ≡ values ++ more))
        × All (Accepts t'.nodes values') es
  unfolding insert_all
  insert_all-Accepts refused same config t t' values values' [] room h =
      let trie : t ≡ t' = ground arith in
      let kept : values ≡ values' = ground arith in
      (
        subst (λ x. Extends t.nodes x.nodes) trie (Extends-refl t.nodes),
        ([], sym kept ∙ sym (append_nil values)),
        tt,
      )
  insert_all-Accepts refused same config t t' values values' (e ∷ es) room h =
      let bad =
        refused e.value
        || is_nil e.tokens
        || ltb config.maximum_sequence_tokens (length e.tokens)
        || taken_value same e.value values in
      elim (Bool-cases bad) [
        | inl b ↦ absurd (ground arith)
        | inr fine ↦
            let ((t1, last), walk, r1) =
              >>=-eq-success (insert_tokens config t 0 e.tokens)
                (λ p. mark_terminal p.0 p.1 (length values) >>= λ t2.
                  insert_all refused same config t2 (values ++ e.value ∷ []) es)
                (rw fine at h) in
            let (t2, mark, r2) =
              >>=-eq-success (mark_terminal t1 last (length values))
                (λ t2. insert_all refused same config t2 (values ++ e.value ∷ []) es) r1 in
            let (grown1, path) = insert_tokens-Extends config t t1 0 last e.tokens walk in
            let (grown2, ends) = mark_terminal-Extends t1 t2 last (length values) mark in
            let size = length-append values (e.value ∷ []) in
            let (grown3, (more, split), rest) =
              insert_all-Accepts refused same config t2 t' (values ++ e.value ∷ []) values' es
                (omega (arith, room, size)) r2 in
            let mine : Accepts t2.nodes (values ++ e.value ∷ []) e = record {
              last = last;
              index = length values;
              path = lookup-Extends t1.nodes t2.nodes 0 last e.tokens grown2 path;
              ends = ends;
              fits = omega (arith, room);
              found = get_elem?-append_last values e.value;
            } in
            (
              Extends-trans t.nodes t2.nodes t'.nodes
                  (Extends-trans t.nodes t1.nodes t2.nodes grown1 grown2) grown3,
              (e.value ∷ more, split ∙ append_assoc values (e.value ∷ []) more),
              (
                subst (λ vs. Accepts t'.nodes vs e) (sym split)
                    (Accepts-Extends t2.nodes t'.nodes (values ++ e.value ∷ []) more e grown3 mine),
                rest,
              ),
            )
      ]
