-- ===== src/Tree/Finds.antt =====
-- find_value and the leaves that a search of src/Rolex.cpp fetches.
use mathlib.Core.Option
use mathlib.Core.Option.{some-injective}
use riiver_rolex.Base.{
  ℕ, ◌≤◌, ◌<◌, ◌≡◌, refl, inl, inr, Option, none, some, List, [], ◌∷◌, ◌++◌, arith, Option-cases,
}
use riiver_rolex.Leaf.{LeafEntry, LeafNode}
use riiver_rolex.Leaf.Order.{live, AllNull, IsOrdered, lookup}
use riiver_rolex.Cache.{RolexCache, InsertRange, search_from_cache, search_from_cache_for_insert}
use riiver_rolex.Tree.{Fetched, Found, find_value, search_fetched}
use riiver_rolex.Tree.Spec.{Node, leaf_address}

find_value-AllNull : (k : ℕ) (rs : List LeafEntry) → 0 < k → AllNull rs → find_value k rs ≡ none
unfolding find_value
find_value-AllNull k [] pos h = refl
find_value-AllNull k (e ∷ es) pos h = ground (arith, find_value-AllNull k es)

-- The scan of a leaf finds the value of a live key.
pub find_value_lem :
    (k lo : ℕ) (rs : List LeafEntry)
    → 0 < k
    → IsOrdered lo rs
    → find_value k rs ≡ lookup k (live rs)
unfolding find_value live lookup
find_value_lem k lo [] pos h = refl
find_value_lem k lo (e ∷ es) pos (inl h) = ground (arith, find_value_lem k e.key es)
find_value_lem k lo (e ∷ es) pos (inr h) = ground (arith, find_value-AllNull k es)

unfoldable pub or_else : Option Found → Option Found → Option Found
or_else (some f) g = some f
or_else none g = g

pub search_fetched_step :
    (k : ℕ) (c : Fetched) (cs : List Fetched)
    → search_fetched k (c ∷ cs)
      ≡ or_else
          (Option.map
            (λ v. record { value = v; leaf_addr = c.addr; locked_leaf_addr = c.locked })
            (find_value k c.leaf.records))
          (search_fetched k cs)
unfolding search_fetched or_else
search_fetched_step k c cs = elim (Option-cases (find_value k c.leaf.records)) [
  | inl e ↦ rw (e, search_fetched)
  | inr (v, e) ↦ rw (e, search_fetched)
]

pub search_fetched-append :
    (k : ℕ) (xs ys : List Fetched)
    → search_fetched k (xs ++ ys) ≡ or_else (search_fetched k xs) (search_fetched k ys)
unfolding search_fetched or_else
search_fetched-append k [] ys = refl
search_fetched-append k (c ∷ cs) ys = elim (Option-cases (find_value k c.leaf.records)) [
  | inl e ↦ rw (e, search_fetched) (search_fetched-append k cs ys)
  | inr (v, e) ↦ rw (e, search_fetched)
]

-- What the search finds in the leaf `i` and in its synonym leaf.
abbrev pub in_leaf : ℕ → ℕ → Node → Option Found
in_leaf k i n =
    Option.map
      (λ v. record { value = v; leaf_addr = leaf_address i; locked_leaf_addr = leaf_address i })
      (lookup k (live n.leaf.records))

abbrev pub in_syn : ℕ → ℕ → LeafNode → Option LeafNode → Option Found
in_syn k i l none = none
in_syn k i l (some m) =
    Option.map
      (λ v. record {
        value = v;
        leaf_addr = l.metadata.synonym_ptr;
        locked_leaf_addr = leaf_address i;
      })
      (lookup k (live m.records))

pub or_none : (f : Option Found) → or_else f none ≡ f
unfolding or_else
or_none none = refl
or_none (some f) = refl

-- The range that the search reads is that of an insertion, and holds the leaf that the insertion
-- goes to.
pub home_range :
    (cache : RolexCache) (k : ℕ) (g : InsertRange)
    → search_from_cache_for_insert cache k ≡ some g
    → (search_from_cache cache k ≡ (g.first, g.last))
      × (g.first ≤ g.insert_idx)
      × (g.insert_idx ≤ g.last)
unfolding search_from_cache_for_insert search_from_cache
home_range cache k g e = (ground arith, ground arith, ground arith)

pub search_nothing : (k : ℕ) → search_fetched k [] ≡ none
unfolding search_fetched
search_nothing k = refl
