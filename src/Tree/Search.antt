-- ===== src/Tree/Search.antt =====
-- `_search` and `search` of src/Rolex.cpp against the abstract state.
use mathlib.Core.Option.{some-injective}
use riiver_rolex.Base.{
  ℕ, zero, suc, ◌+◌, ◌-◌, ◌≤◌, ◌<◌, ◌≡◌, refl, sym, ap, ◌∙◌, ◌≢◌, ◌⊎◌, inl, inr, Option, none, some,
  List, ◌++◌, arith, Option-cases, ℕ_discrete,
}
use riiver_rolex.Leaf.{LeafNode}
use riiver_rolex.Leaf.Order.{
  live, lookup, lookup_nil, lookup-append, lookup-append_some, lookup-append_none,
}
use riiver_rolex.Leaf.Synonym.{live_syn, SynSorted}
use riiver_rolex.Cache.{RolexCache, search_from_cache}
use riiver_rolex.Codec.{Codec}
use riiver_rolex.Alloc.{Allocator}
use riiver_rolex.Layout.{leaf_num_max}
use riiver_rolex.Tree.{Dsm, Fetched, Found, search_fetched, search_leaves, search}
use riiver_rolex.Tree.Spec.{Node, items, IsHome, Represents}
use riiver_rolex.Tree.Fetch.{fetched_leaves, fetched_syn, fetched_syns, fetch_range_lem}
use riiver_rolex.Tree.Finds.{
  find_value_lem, or_else, search_fetched_step, search_fetched-append, in_leaf, in_syn, or_none,
  home_range, search_nothing,
}

module _ {Raw A : Type 0} (codec : Codec Raw) (al : Allocator A) (cache : RolexCache)
    {s : Dsm Raw A} {σ : ℕ → Node} (rep : Represents codec al cache s σ) (k : ℕ) (pos : 0 < k) where
  leaf_first :
      (l n : ℕ)
      → search_fetched k (fetched_leaves σ l (suc n))
        ≡ or_else (in_leaf k l (σ l)) (search_fetched k (fetched_leaves σ (suc l) n))
  unfolding fetched_leaves
  leaf_first l n =
      rw
        (search_fetched_step, find_value_lem k 0 (σ l).leaf.records pos (rep.sorted l).leaf.ordered)

  syn_first :
      (i : ℕ) (l : LeafNode) (syn : Option LeafNode) (rest : List Fetched)
      → SynSorted l syn
      → search_fetched k (fetched_syn i l syn ++ rest)
        ≡ or_else (in_syn k i l syn) (search_fetched k rest)
  unfolding or_else
  syn_first i l none rest h = refl
  syn_first i l (some m) rest h =
      rw (search_fetched_step, find_value_lem k 0 m.records pos h.0.ordered)

  module _ (i : ℕ) (home : IsHome cache k i) where
    pub absent : (j : ℕ) → j ≢ i → lookup k (items (σ j)) ≡ none
    absent j ne = elim (Option-cases (lookup k (items (σ j)))) [
      | inl e ↦ e
      | inr (v, e) ↦
          let (g, p, q) = rep.homed j k (λ n. cc) in
          let (g', p', q') = home in
          let same : g ≡ g' = some-injective g g' (sym p ∙ p') in
          absurd (ne (sym q ∙ ap (λ r. r.insert_idx) same ∙ q'))
    ]

    no_leaf : (j : ℕ) → j ≢ i → in_leaf k j (σ j) ≡ none
    no_leaf j ne =
        rw ((lookup-append_none k (live (σ j).leaf.records) (live_syn (σ j).syn) (absent j ne)).0)
          refl

    no_syn : (j : ℕ) → j ≢ i → in_syn k j (σ j).leaf (σ j).syn ≡ none
    no_syn j ne =
        nothing (σ j).syn
          (lookup-append_none k (live (σ j).leaf.records) (live_syn (σ j).syn) (absent j ne)).1
      where
        nothing :
            (syn : Option LeafNode)
            → lookup k (live_syn syn) ≡ none
            → in_syn k j (σ j).leaf syn ≡ none
        nothing none e = refl
        nothing (some m) e = rw e refl

    leaves_skip : (l n : ℕ) → i < l ⊎ l + n ≤ i → search_fetched k (fetched_leaves σ l n) ≡ none
    unfolding fetched_leaves or_else
    leaves_skip l zero h = search_nothing k
    leaves_skip l (suc n) h =
        leaf_first l n ∙ rw (no_leaf l (ground arith)) (leaves_skip (suc l) n (ground arith))

    leaves_found :
        (l n : ℕ) → l ≤ i → i < l + n → search_fetched k (fetched_leaves σ l n) ≡ in_leaf k i (σ i)
    unfolding or_else
    leaves_found l zero a b = absurd (omega arith)
    leaves_found l (suc n) a b = elim (ℕ_discrete l i) [
      | yes e ↦
          leaf_first l n
          ∙ rw (leaves_skip (suc l) n (inl (omega arith)), e) (or_none (in_leaf k i (σ i)))
      | no ne ↦
          leaf_first l n ∙ rw (no_leaf l ne) (leaves_found (suc l) n (omega arith) (omega arith))
    ]

    syns_skip : (l n : ℕ) → i < l ⊎ l + n ≤ i → search_fetched k (fetched_syns σ l n) ≡ none
    unfolding fetched_syns or_else
    syns_skip l zero h = search_nothing k
    syns_skip l (suc n) h =
        syn_first l (σ l).leaf (σ l).syn (fetched_syns σ (suc l) n) (rep.sorted l).synonym
        ∙ rw (no_syn l (ground arith)) (syns_skip (suc l) n (ground arith))

    syns_found :
        (l n : ℕ)
        → l ≤ i
        → i < l + n
        → search_fetched k (fetched_syns σ l n) ≡ in_syn k i (σ i).leaf (σ i).syn
    unfolding fetched_syns or_else
    syns_found l zero a b = absurd (omega arith)
    syns_found l (suc n) a b =
        syn_first l (σ l).leaf (σ l).syn (fetched_syns σ (suc l) n) (rep.sorted l).synonym
        ∙ elim (ℕ_discrete l i) [
          | yes e ↦
              rw (syns_skip (suc l) n (inl (omega arith)), e)
                (or_none (in_syn k i (σ i).leaf (σ i).syn))
          | no ne ↦ rw (no_syn l ne) (syns_found (suc l) n (omega arith) (omega arith))
        ]

    -- `_search` finds the key in its leaf or in the synonym leaf of it.
    pub search_leaves_lem :
        (search_from_cache cache k).1 + 1 < leaf_num_max
        → search_leaves codec cache s k
          ≡ some (or_else (in_leaf k i (σ i)) (in_syn k i (σ i).leaf (σ i).syn))
    unfolding search_leaves
    search_leaves_lem bound =
        let (g, e, at) = home in
        let (range, lo, hi) = home_range cache k g e in
        let n = (search_from_cache cache k).1 + 1 - (search_from_cache cache k).0 in
        let first : (search_from_cache cache k).0 ≡ g.first = ap (λ r. r.0) range in
        let last : (search_from_cache cache k).1 ≡ g.last = ap (λ r. r.1) range in
        let low : (search_from_cache cache k).0 ≤ i = omega arith in
        let high : i < (search_from_cache cache k).0 + n = omega arith in
        rw (
          fetch_range_lem codec al cache rep (search_from_cache cache k).0
              (search_from_cache cache k).1 (omega arith),
          search_fetched-append,
          leaves_found (search_from_cache cache k).0 n low high,
          syns_found (search_from_cache cache k).0 n low high,
        )

value_of : Option Found → Option ℕ
value_of f = elim f [ some f ↦ some f.value | none ↦ none ]

values :
    (k i : ℕ) (n : Node)
    → value_of (or_else (in_leaf k i n) (in_syn k i n.leaf n.syn)) ≡ lookup k (items n)
unfolding or_else value_of
values k i n = go n.syn
  where
    go :
        (syn : Option LeafNode)
        → value_of (or_else (in_leaf k i n) (in_syn k i n.leaf syn))
          ≡ lookup k (live n.leaf.records ++ live_syn syn)
    go syn = elim (Option-cases (lookup k (live n.leaf.records))) [
      | inr (v, e) ↦
          rw (e, lookup-append_some k (live n.leaf.records) (live_syn syn) (λ n. cc)) (sym e)
      | inl e ↦ rw (e, lookup-append k (live n.leaf.records) (live_syn syn) e) (rest syn)
    ]
      where
        rest : (syn : Option LeafNode) → value_of (in_syn k i n.leaf syn) ≡ lookup k (live_syn syn)
        rest none = sym (lookup_nil k)
        rest (some m) = elim (Option-cases (lookup k (live m.records))) [
          | inl e ↦ rw e
          | inr (v, e) ↦ rw e
        ]

-- On memory that represents an abstract state, for a key that the learned index gives leaf `i` to
-- and a predicted range inside the leaf region, `search` returns: it gives what the abstract leaf
-- holds under the key.
pub search_lem :
    {Raw A : Type 0} (codec : Codec Raw) (al : Allocator A) (cache : RolexCache) {s : Dsm Raw A}
    {σ : ℕ → Node}
    → Represents codec al cache s σ
    → (k i : ℕ) → 0 < k
    → IsHome cache k i
    → (search_from_cache cache k).1 + 1 < leaf_num_max
    → search codec cache s k ≡ some (lookup k (items (σ i)))
unfolding search or_else value_of
search_lem codec al cache {σ} rep k i pos home bound =
    rw (search_leaves_lem codec al cache rep k pos i home bound) (ap some (values k i (σ i)))
