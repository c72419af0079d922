-- ===== src/Tree/Range.antt =====
-- `range_query` of src/Rolex.cpp against the abstract state.
use riiver_rolex.Base.{
  ℕ, zero, suc, ◌+◌, ◌-◌, ◌≤◌, ◌<◌, ◌≡◌, refl, sym, ap, ◌∙◌, ◌≢◌, ◌⊎◌, inl, inr, Option, none, some,
  List, [], ◌∷◌, ◌++◌, arith, Option-cases, ℕ_discrete, dec_lt,
}
use riiver_rolex.Leaf.{LeafNode}
use riiver_rolex.Leaf.Order.{
  live, Increasing, lookup, lookup_nil, lookup_below, lookup-append, lookup-append_some,
  lookup-append_none,
}
use riiver_rolex.Leaf.Synonym.{live_syn, SynSorted}
use riiver_rolex.Cache.{RolexCache, search_range_from_cache}
use riiver_rolex.Codec.{Codec}
use riiver_rolex.Alloc.{Allocator}
use riiver_rolex.Layout.{leaf_num_max}
use riiver_rolex.Tree.{Dsm, Fetched, collect_entries, collect_leaves, range_query}
use riiver_rolex.Tree.Spec.{Node, items, IsHome, Represents}
use riiver_rolex.Tree.Search.{absent}
use riiver_rolex.Tree.Fetch.{fetched_leaves, fetched_syn, fetched_syns, fetch_range_lem}
use riiver_rolex.Tree.Collect.{
  collect_entries_lem, override, lookup-append_left, collect_leaves-Increasing,
  collect_leaves_outside,
}

module _ {Raw A : Type 0} (codec : Codec Raw) (al : Allocator A) (cache : RolexCache)
    {s : Dsm Raw A} {σ : ℕ → Node} (rep : Represents codec al cache s σ) (from to q : ℕ)
    (pos : 0 < q) (low : from ≤ q) (high : q < to) where
  leaf_first :
      (l n : ℕ) (ret : List (ℕ × ℕ))
      → (ret' : List (ℕ × ℕ)) × (collect_leaves from to (fetched_leaves σ l (suc n)) ret
          ≡ collect_leaves from to (fetched_leaves σ (suc l) n) ret')
        × (lookup q ret' ≡ override (lookup q (live (σ l).leaf.records)) (lookup q ret))
  unfolding collect_leaves fetched_leaves
  leaf_first l n ret = (
    collect_entries from to (σ l).leaf.records ret,
    refl,
    collect_entries_lem from to q pos low high 0 (σ l).leaf.records ret (rep.sorted l).leaf.ordered,
  )

  syn_first :
      (l n : ℕ) (ret : List (ℕ × ℕ))
      → (ret' : List (ℕ × ℕ)) × (collect_leaves from to (fetched_syns σ l (suc n)) ret
          ≡ collect_leaves from to (fetched_syns σ (suc l) n) ret')
        × (lookup q ret' ≡ override (lookup q (live_syn (σ l).syn)) (lookup q ret))
  unfolding collect_leaves fetched_syns
  syn_first l n ret = go (σ l).syn (rep.sorted l).synonym
    where
      go :
          (syn : Option LeafNode)
          → SynSorted (σ l).leaf syn
          → (ret' : List (ℕ × ℕ)) × (collect_leaves from to
                (fetched_syn l (σ l).leaf syn ++ fetched_syns σ (suc l) n)
                ret
              ≡ collect_leaves from to (fetched_syns σ (suc l) n) ret')
            × (lookup q ret' ≡ override (lookup q (live_syn syn)) (lookup q ret))
      go none h = (ret, refl, ap (λ o. override o (lookup q ret)) (sym (lookup_nil q)))
      go (some m) h = (
        collect_entries from to m.records ret,
        refl,
        collect_entries_lem from to q pos low high 0 m.records ret h.0.ordered,
      )

  collect_leaves-append :
      (xs ys : List Fetched) (ret : List (ℕ × ℕ))
      → collect_leaves from to (xs ++ ys) ret
        ≡ collect_leaves from to ys (collect_leaves from to xs ret)
  unfolding collect_leaves
  collect_leaves-append [] ys ret = refl
  collect_leaves-append (c ∷ cs) ys ret =
      collect_leaves-append cs ys (collect_entries from to c.leaf.records ret)

  collect_nothing : (ret : List (ℕ × ℕ)) → collect_leaves from to [] ret ≡ ret
  unfolding collect_leaves
  collect_nothing ret = refl

  -- Leaves that do not have the key leave what is under it.
  leaves_skip :
      (l n : ℕ) (ret : List (ℕ × ℕ))
      → ((j : ℕ) → l ≤ j → j < l + n → lookup q (live (σ j).leaf.records) ≡ none)
      → lookup q (collect_leaves from to (fetched_leaves σ l n) ret) ≡ lookup q ret
  unfolding fetched_leaves
  leaves_skip l zero ret h = ap (lookup q) (collect_nothing ret)
  leaves_skip l (suc n) ret h =
      let (ret', e, new) = leaf_first l n ret in
      ap (lookup q) e
      ∙ leaves_skip (suc l) n ret' (λ j a b. h j (omega arith) (omega arith))
      ∙ new
      ∙ ap (λ o. override o (lookup q ret)) (h l (omega arith) (omega arith))

  syns_skip :
      (l n : ℕ) (ret : List (ℕ × ℕ))
      → ((j : ℕ) → l ≤ j → j < l + n → lookup q (live_syn (σ j).syn) ≡ none)
      → lookup q (collect_leaves from to (fetched_syns σ l n) ret) ≡ lookup q ret
  unfolding fetched_syns
  syns_skip l zero ret h = ap (lookup q) (collect_nothing ret)
  syns_skip l (suc n) ret h =
      let (ret', e, new) = syn_first l n ret in
      ap (lookup q) e
      ∙ syns_skip (suc l) n ret' (λ j a b. h j (omega arith) (omega arith))
      ∙ new
      ∙ ap (λ o. override o (lookup q ret)) (h l (omega arith) (omega arith))

  -- A key that no leaf of the range has is left as it was.
  not_collected :
      (l n : ℕ) (ret : List (ℕ × ℕ))
      → ((j : ℕ) → l ≤ j → j < l + n → lookup q (items (σ j)) ≡ none)
      → lookup q (collect_leaves from to (fetched_leaves σ l n ++ fetched_syns σ l n) ret)
        ≡ lookup q ret
  not_collected l n ret h =
      let parts = λ (j : ℕ) (a : l ≤ j) (b : j < l + n).
        lookup-append_none q (live (σ j).leaf.records) (live_syn (σ j).syn) (h j a b) in
      ap (lookup q) (collect_leaves-append (fetched_leaves σ l n) (fetched_syns σ l n) ret)
      ∙ syns_skip l n (collect_leaves from to (fetched_leaves σ l n) ret) (λ j a b. (parts j a b).1)
      ∙ leaves_skip l n ret (λ j a b. (parts j a b).0)

  module _ (i : ℕ) (home : IsHome cache q i) where
    elsewhere :
        (j : ℕ)
        → j ≢ i
        → (lookup q (live (σ j).leaf.records) ≡ none) × (lookup q (live_syn (σ j).syn) ≡ none)
    elsewhere j ne =
        lookup-append_none q (live (σ j).leaf.records) (live_syn (σ j).syn)
          (absent codec al cache rep q pos i home j ne)

    leaves_found :
        (l n : ℕ) (ret : List (ℕ × ℕ))
        → l ≤ i
        → i < l + n
        → lookup q (collect_leaves from to (fetched_leaves σ l n) ret)
          ≡ override (lookup q (live (σ i).leaf.records)) (lookup q ret)
    leaves_found l zero ret a b = absurd (omega arith)
    leaves_found l (suc n) ret a b =
        let (ret', e, new) = leaf_first l n ret in
        ap (lookup q) e ∙ elim (ℕ_discrete l i) [
          | yes here ↦
              leaves_skip (suc l) n ret' (λ j a b. (elsewhere j (λ z. omega arith)).0)
              ∙ new
              ∙ ap (λ j. override (lookup q (live (σ j).leaf.records)) (lookup q ret)) here
          | no ne ↦
              leaves_found (suc l) n ret' (omega arith) (omega arith)
              ∙ ap (override (lookup q (live (σ i).leaf.records)))
                  (new ∙ ap (λ o. override o (lookup q ret)) ((elsewhere l ne).0))
        ]

    syns_found :
        (l n : ℕ) (ret : List (ℕ × ℕ))
        → l ≤ i
        → i < l + n
        → lookup q (collect_leaves from to (fetched_syns σ l n) ret)
          ≡ override (lookup q (live_syn (σ i).syn)) (lookup q ret)
    syns_found l zero ret a b = absurd (omega arith)
    syns_found l (suc n) ret a b =
        let (ret', e, new) = syn_first l n ret in
        ap (lookup q) e ∙ elim (ℕ_discrete l i) [
          | yes here ↦
              syns_skip (suc l) n ret' (λ j a b. (elsewhere j (λ z. omega arith)).1)
              ∙ new
              ∙ ap (λ j. override (lookup q (live_syn (σ j).syn)) (lookup q ret)) here
          | no ne ↦
              syns_found (suc l) n ret' (omega arith) (omega arith)
              ∙ ap (override (lookup q (live_syn (σ i).syn)))
                  (new ∙ ap (λ o. override o (lookup q ret)) ((elsewhere l ne).1))
        ]

    collected :
        (l n : ℕ) (ret : List (ℕ × ℕ))
        → l ≤ i
        → i < l + n
        → lookup q (collect_leaves from to (fetched_leaves σ l n ++ fetched_syns σ l n) ret)
          ≡ override (lookup q (items (σ i))) (lookup q ret)
    collected l n ret a b =
        let ret' = collect_leaves from to (fetched_leaves σ l n) ret in
        ap (lookup q) (collect_leaves-append (fetched_leaves σ l n) (fetched_syns σ l n) ret)
        ∙ syns_found l n ret' a b
        ∙ ap (override (lookup q (live_syn (σ i).syn))) (leaves_found l n ret a b)
        ∙ newest (live (σ i).leaf.records) (live_syn (σ i).syn) (lookup q ret)
            (rep.sorted i).increasing
      where
        newest :
            (ps qs : List (ℕ × ℕ)) (o : Option ℕ)
            → Increasing 0 (ps ++ qs)
            → override (lookup q qs) (override (lookup q ps) o) ≡ override (lookup q (ps ++ qs)) o
        newest ps qs o h = elim (Option-cases (lookup q ps)) [
          | inl e ↦ let f = lookup-append q ps qs e in rw (e, f) refl
          | inr (v, e) ↦
              let f = lookup-append_some q ps qs (λ n. cc) in
              let g = lookup-append_left q 0 ps qs h (λ n. cc) in rw (f, g, e) refl
        ]

-- On memory that represents an abstract state, for a predicted range that starts and ends inside the
-- leaf region and a map of the caller that is sorted and has no null key, `range_query` returns, and leaves a sorted map. It
-- has every key from `from` to below `to` that an abstract leaf of the predicted range holds, with the
-- value there. Under every other key, the keys that only leaves outside the range hold among them, it
-- has what it had before.
pub range_query_lem :
    {Raw A : Type 0} (codec : Codec Raw) (al : Allocator A) (cache : RolexCache) {s : Dsm Raw A}
    {σ : ℕ → Node}
    → Represents codec al cache s σ
    → (from to : ℕ) (ret : List (ℕ × ℕ)) → Increasing 0 ret
    → (search_range_from_cache cache from to).0 < leaf_num_max
    → (search_range_from_cache cache from to).1 + 1 < leaf_num_max
    → let l = (search_range_from_cache cache from to).0 in
      let r = (search_range_from_cache cache from to).1 in
      (ret' : List (ℕ × ℕ)) × (range_query codec cache s from to ret ≡ some ret')
      × Increasing 0 ret'
      × ((q i v : ℕ)
          → from ≤ q
          → q < to
          → l ≤ i
          → i ≤ r
          → lookup q (items (σ i)) ≡ some v
          → lookup q ret' ≡ some v)
      × ((q : ℕ)
          → q < from ⊎ to ≤ q ⊎ ((i : ℕ) → l ≤ i → i ≤ r → lookup q (items (σ i)) ≡ none)
          → lookup q ret' ≡ lookup q ret)
unfolding range_query
range_query_lem codec al cache {s} {σ} rep from to ret sorted first bound =
    let l = (search_range_from_cache cache from to).0 in
    let r = (search_range_from_cache cache from to).1 in
    let leaves = fetched_leaves σ l (r + 1 - l) ++ fetched_syns σ l (r + 1 - l) in
    (
      collect_leaves from to leaves ret,
      rw (fetch_range_lem codec al cache rep l r (omega arith)) refl,
      collect_leaves-Increasing from to leaves ret sorted,
      (λ q i v a b c d e.
          let pos : 0 < q = positive q i v e in
          collected codec al cache rep from to q pos a b i (rep.homed i q (λ n. cc)) l (r + 1 - l)
            ret c (omega arith)
          ∙ ap (λ o. override o (lookup q ret)) e),
      elsewhere,
    )
  where
    positive : (q i v : ℕ) → lookup q (items (σ i)) ≡ some v → 0 < q
    positive zero i v e =
        let n = lookup_below 0 0 (items (σ i)) (rep.sorted i).increasing (omega arith) in cc
    positive (suc q) i v e = omega arith

    l : ℕ
    l = (search_range_from_cache cache from to).0

    n : ℕ
    n = (search_range_from_cache cache from to).1 + 1 - l

    leaves : List Fetched
    leaves = fetched_leaves σ l n ++ fetched_syns σ l n

    elsewhere :
        (q : ℕ)
        → q < from
          ⊎ to ≤ q
          ⊎ ((i : ℕ)
              → l ≤ i
              → i ≤ (search_range_from_cache cache from to).1
              → lookup q (items (σ i)) ≡ none)
        → lookup q (collect_leaves from to leaves ret) ≡ lookup q ret
    elsewhere zero h =
        let new = collect_leaves-Increasing from to leaves ret sorted in
        lookup_below 0 0 (collect_leaves from to leaves ret) new (omega arith)
        ∙ sym (lookup_below 0 0 ret sorted (omega arith))
    elsewhere (suc q) h = elim (dec_lt (suc q) from) [
      | yes a ↦ collect_leaves_outside from to (suc q) leaves ret (inl a)
      | no a ↦ elim (dec_lt (suc q) to) [
        | no b ↦ collect_leaves_outside from to (suc q) leaves ret (inr (omega arith))
        | yes b ↦ elim h [
          | inl c ↦ absurd (a c)
          | inr (inl c) ↦ absurd (omega arith)
          | inr (inr c) ↦
              not_collected codec al cache rep from to (suc q) (omega arith) (omega arith) b l n ret
                (λ j x y. c j x (omega arith))
        ]
      ]
    ]
