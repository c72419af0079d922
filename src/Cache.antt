-- ===== src/Cache.antt =====
-- include/RolexCache.h: the queries of the learned index that the operations make. The learned
-- models of include/rolex_libs (`rolex_t::get_leaf_range`) are a parameter.
use riiver_rolex.Base.{
  ℕ, suc, ◌+◌, ◌-◌, ◌/◌, ◌%◌, ◌^◌, List, [], ◌∷◌, Option, none, some, ◌&&◌, ltb, leb, if◌then◌else◌,
}
use riiver_rolex.Leaf.{leaf_span_size}

-- What `get_leaf_range` returns: the predicted leaves [l, r] of a submodel, the number of leaves
-- and the number of keys of the submodels before it.
pub record LeafRange : Type 0 where
  pub l : ℕ
  pub r : ℕ
  pub leaf_idx_offset : ℕ
  pub capacity_offset : ℕ

pub record RolexCache : Type 0 where
  pub get_leaf_range : ℕ → LeafRange
  pub int_keys : List ℕ  -- sorted, without repetition

-- `std::lower_bound(...) - begin()`: the number of keys below `key`
unfoldable pub lower_bound : ℕ → List ℕ → ℕ
lower_bound key [] = 0
lower_bound key (k ∷ ks) = let rest = suc (lower_bound key ks) in if ltb k key then rest else 0

unfoldable pub search_from_cache : RolexCache → ℕ → ℕ × ℕ
search_from_cache c k =
    let m = c.get_leaf_range k in (m.leaf_idx_offset + m.l, m.leaf_idx_offset + m.r)

pub record InsertRange : Type 0 where
  pub first : ℕ
  pub last : ℕ
  pub insert_idx : ℕ

-- The difference of the two `int`s becomes unsigned, since `leafSpanSize` is a `uint32_t`; `none`
-- where the assertion fails.
unfoldable pub search_from_cache_for_insert : RolexCache → ℕ → Option InsertRange
unfolding lower_bound
search_from_cache_for_insert c k =
    let m = c.get_leaf_range k in
    let idx = (lower_bound k c.int_keys + 2 ^ 32 - m.capacity_offset) % 2 ^ 32 / leaf_span_size in
    if leb m.l idx && leb idx m.r
    then some (record {
      first = m.leaf_idx_offset + m.l;
      last = m.leaf_idx_offset + m.r;
      insert_idx = m.leaf_idx_offset + idx;
    })
    else none

unfoldable pub search_range_from_cache : RolexCache → ℕ → ℕ → ℕ × ℕ
search_range_from_cache c from to =
    let m = c.get_leaf_range from in
    let n = c.get_leaf_range to in (m.leaf_idx_offset + m.l, n.leaf_idx_offset + n.r)
