-- ===== src/Speculative/Tests.antt =====
-- A speculative read of a full leaf, for its fourth record.
use riiver_rolex.Base.{
  ℕ, ◌*◌, ◌<◌, ◌≡◌, refl, ap, ◌⊎◌, inl, inr, Option, none, some, List, [], ◌∷◌, arith, get_or,
}
use riiver_rolex.Address.{GlobalAddress}
use riiver_rolex.Key.{Key, int2key, key2int}
use riiver_rolex.Leaf.{leaf_span_size, null_entry}
use riiver_rolex.Leaf.Tests.{full_leaf, full_leaf-IsStorable}
use riiver_rolex.Version.Nodes.{encode_node_versions}
use riiver_rolex.Version.Layout.{read_entry}
use riiver_rolex.Version.Segments.{decode_header_versions, decode_segment_versions, get_offset_info}
use riiver_rolex.Hot.Candidates.{Cached}
use riiver_rolex.Base.Int.{ℤ}
use riiver_rolex.Hot.{IdxCacheEntry, IdxCache, new_cache, new_entry}
use riiver_rolex.Speculative.{Hit, speculative_read}
use riiver_rolex.Speculative.Sound.{IsHit, IsBehind, speculative_read_lem}

abbrev leaf : GlobalAddress
leaf = record { node_id = 0; offset = 8388608 }

abbrev image : GlobalAddress → List ℕ
image a = encode_node_versions full_leaf

abbrev synonym : GlobalAddress → Option GlobalAddress
synonym a = some (record { node_id = 0; offset = 54525952 })

abbrev key : Key
unfolding int2key
key = int2key (get_or full_leaf.records 3 null_entry).key

abbrev warm : IdxCache
unfolding new_cache
warm = record (new_cache 50) { hash_table = λ _. some (new_entry 1 leaf 3 key) ∷ [] }

abbrev kv_idx_of : Option IdxCacheEntry → ℕ
kv_idx_of none = 0
kv_idx_of (some x) = x.kv_idx

warm-few : (i : ℕ) (f : ℤ) → Cached warm leaf i key f → i < 2 * leaf_span_size
unfolding warm
warm-few i f (e, inl q, m) = let k = m.kv_idx in let same = ap kv_idx_of q in omega arith
warm-few i f (e, inr q, m) = elim q [ ]

-- The range is that of the first call in _search.
speculative_read_lem_example :
    (h : Option Hit) × (c' : IdxCache) × (speculative_read image []
        (λ _. null_entry)
        synonym
        warm
        []
        leaf
        0
        16
        key
      ≡ some (h, c', []))
    × ((x : Hit)
        → h ≡ some x
        → IsHit leaf full_leaf key x ⊎ IsBehind image [] (λ _. null_entry) synonym leaf 0 16 key x)
    × (h ≡ none → c' ≡ warm)
speculative_read_lem_example =
    speculative_read_lem image [] (λ _. null_entry) synonym leaf full_leaf full_leaf-IsStorable refl
      (λ p e. (full_leaf, full_leaf-IsStorable, refl)) warm [] 0 16 key warm-few

abbrev value : Option (Option Hit × IdxCache × List ℕ) → ℕ
value none = 0
value (some (none, c, d)) = 0
value (some (some h, c, d)) = h.value

hit :
    value (speculative_read image [] (λ _. null_entry) synonym warm [] leaf 0 16 key)
    ≡ (get_or full_leaf.records 3 null_entry).value
unfolding speculative_read encode_node_versions warm key decode_header_versions
    decode_segment_versions get_offset_info read_entry key2int
hit = refl
