-- ===== src/Hot/Add.antt =====
-- include/IdxCache.h: what `add_to_cache` does with an entry that it does not find, and the eviction.
use riiver_rolex.Base.{
  ℕ, zero, suc, ◌+◌, Bool, true, false, Option, none, some, List, [], ◌∷◌, ◌==◌, if◌then◌else◌,
  length, set, get_or, ◌>>=◌,
}
use riiver_rolex.Base.Int.{ℤ, pos, ◌+ℤ◌, ◌-ℤ◌, ltb_ℤ}
use riiver_rolex.Address.{GlobalAddress}
use riiver_rolex.Key.{Key}
use mathlib.Core.Option
use riiver_rolex.Hot.{
  IdxCacheEntry, Bucket, IdxCache, entry_size, int_max, get_hashed_cache_table_index, set_bucket,
  new_entry, touch_first, Place, empty_slot, lfu, find_place, safely_delete, find_lfu_idx,
}

-- The pointer that a slot holds.
abbrev pub slot_ptr : Bucket → ℕ → Option ℕ
slot_ptr b m = Option.map (λ e. e.ptr) (get_or b m none)

-- `evict_one` from where it has chosen `entry`, a reference to the slot: what is handed to
-- `safely_delete` is read from the slot after null was written to it.
unfoldable pub erase : ℕ → ℕ → IdxCache → IdxCache
unfolding safely_delete
erase h m c =
    let b = set (c.hash_table h) m none in
    let r = safely_delete (slot_ptr b m) (record c { hash_table = set_bucket c.hash_table h b }) in
    record r { free_size = r.free_size +ℤ pos entry_size }

-- The choice between the two buckets; `none` is an access to `bucket[-1]`.
unfoldable pub erase_lfu : Option ℕ × ℤ → Option ℕ × ℤ → ℕ → ℕ → IdxCache → Option IdxCache
unfolding erase
erase_lfu (none, f) (none, g) h j c = some c
erase_lfu (some m, f) (none, g) h j c = if ltb_ℤ f g then some (erase h m c) else none
erase_lfu (none, f) (some n, g) h j c = if ltb_ℤ f g then none else some (erase j n c)
erase_lfu (some m, f) (some n, g) h j c =
    if ltb_ℤ f g then some (erase h m c) else some (erase j n c)

-- `evict_one` on the buckets `ht_idx_1` and `ht_idx_2`
unfoldable pub evict_buckets : ℕ → ℕ → IdxCache → Option IdxCache
unfolding find_lfu_idx erase_lfu
evict_buckets h j c =
    erase_lfu (find_lfu_idx 0 none int_max (c.hash_table h))
      (find_lfu_idx 0 none int_max (c.hash_table j)) h j c

-- The draws of `ht_idx_2` until it differs from `ht_idx_1`; `none` where no draw is left.
unfoldable pub draw_other : ℕ → List ℕ → Option (ℕ × List ℕ)
draw_other h [] = none
draw_other h (j ∷ draws) = if h == j then draw_other h draws else some (j, draws)

-- `evict_one`, with the numbers that the generator will give
unfoldable pub evict_one : IdxCache → List ℕ → Option (IdxCache × List ℕ)
unfolding evict_buckets draw_other
evict_one c [] = none
evict_one c (h ∷ draws) = draw_other h draws >>= λ o. evict_buckets h o.0 c >>= λ c'. some (c', o.1)

-- The loop of `evict`; each round draws twice at least, so the draws end before the fuel.
unfoldable pub evict_loop : ℕ → IdxCache → List ℕ → Option (IdxCache × List ℕ)
unfolding evict_one
evict_loop zero c draws = none
evict_loop (suc fuel) c draws = evict_one c draws >>= λ r. elim (ltb_ℤ r.0.free_size (pos 0)) [
  | true ↦ evict_loop fuel r.0 r.1
  | false ↦ some r
]

unfoldable pub evict : IdxCache → List ℕ → Option (IdxCache × List ℕ)
unfolding evict_loop
evict c draws = evict_loop (length draws) (record c { delay_cnt = pos 10 }) draws

-- `add_to_cache` from where it knows the slot of the new entry `e`.
unfoldable pub put_entry :
    Place → ℕ → IdxCacheEntry → IdxCache → List ℕ → Option (Bool × IdxCache × List ℕ)
unfolding evict safely_delete
put_entry (empty_slot m) h e c draws =
    let c' = record c {
      hash_table = set_bucket c.hash_table h (set (c.hash_table h) m (some e));
      free_size = c.free_size -ℤ pos entry_size;
    } in
    if ltb_ℤ c.free_size (pos 0)
    then (evict c' draws >>= λ r. some (true, r.0, r.1))
    else some (true, c', draws)
put_entry (lfu none) h e c draws = none
put_entry (lfu (some m)) h e c draws =
    let b = set (c.hash_table h) m (some e) in
    some (
      true,
      safely_delete (slot_ptr b m) (record c { hash_table = set_bucket c.hash_table h b }),
      draws,
    )

-- `add_to_cache`, from where the place was not found in its bucket
unfoldable pub add_entry :
    IdxCache → List ℕ → GlobalAddress → ℕ → Key → Option (Bool × IdxCache × List ℕ)
unfolding get_hashed_cache_table_index find_place put_entry
add_entry c draws a i k =
    let h = get_hashed_cache_table_index a i in
    let d = c.delay_cnt -ℤ pos 1 in
    if ltb_ℤ (pos 0) c.delay_cnt
    then some (false, record c { delay_cnt = d }, draws)
    else put_entry (find_place 0 none int_max (c.hash_table h)) h (new_entry c.next_ptr a i k)
        (record c { delay_cnt = d; next_ptr = c.next_ptr + 1 }) draws

unfoldable pub add_to_cache :
    IdxCache → List ℕ → GlobalAddress → ℕ → Key → Option (Bool × IdxCache × List ℕ)
unfolding get_hashed_cache_table_index touch_first add_entry
add_to_cache c draws a i k =
    let h = get_hashed_cache_table_index a i in
    if c.is_disabled then some (false, c, draws) else elim (touch_first a i k (c.hash_table h)) [
      | some b ↦ some (true, record c { hash_table = set_bucket c.hash_table h b }, draws)
      | none ↦ add_entry c draws a i k
    ]
