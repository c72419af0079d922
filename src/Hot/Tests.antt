-- ===== src/Hot/Tests.antt =====
-- The cache of hot entries on small inputs: two additions, the second with an eviction, and a full
-- bucket.
use riiver_rolex.Base.{
  ℕ, ◌+◌, ◌*◌, ◌≤◌, ◌≡◌, refl, ◌⊎◌, Bool, true, false, Option, none, some, List, [], ◌∷◌, arith,
  ◌>>=◌, get_or, replicate,
}
use riiver_rolex.Base.Int.{ℤ, pos, ◌≤ℤ◌, ◌-ℤ◌, ◌+ℤ◌}
use riiver_rolex.Address.{GlobalAddress, to_uint64}
use riiver_rolex.Key.{Key}
use riiver_rolex.Hot.{
  IdxCacheEntry, IdxCache, hash_table_size, bucket_size, entry_size, new_entry, new_cache,
  search_idx_from_cache, get_hashed_cache_table_index,
}
use riiver_rolex.Hot.Add.{add_to_cache}
use riiver_rolex.Hot.Counts.{total, total_empty}
use riiver_rolex.Hot.Candidates.{Cached}
use riiver_rolex.Hot.Search.{Searched, search_idx_from_cache_lem}
use riiver_rolex.Hot.Found.{search_idx_from_cache-add_to_cache}
use riiver_rolex.Hot.Space.{IsDraw}
use riiver_rolex.Codec.{All}
use riiver_rolex.Hot.Budget.{IsSpaced, add_to_cache-IsSpaced}

abbrev leaf : GlobalAddress
leaf = record { node_id = 1; offset = 512 }

abbrev key : Key
key = 0 ∷ 0 ∷ 0 ∷ 0 ∷ 0 ∷ 0 ∷ 2 ∷ 7 ∷ []

-- A cache with no byte left.
abbrev tight : IdxCache
unfolding new_cache
tight = record (new_cache 1) { free_size = pos 0 }

tight-IsSpaced : IsSpaced 0 tight
unfolding new_cache
tight-IsSpaced = record {
  counted = omega (arith, total_empty hash_table_size bucket_size);
  within = omega arith;
}

abbrev result : Option (Bool × IdxCache × List ℕ) → Bool × IdxCache × List ℕ
result none = (false, tight, [])
result (some r) = r

abbrev first : Bool × IdxCache × List ℕ
unfolding add_to_cache new_cache bucket_size to_uint64 ◌+ℤ◌ ◌-ℤ◌
first = result (add_to_cache tight [] leaf 3 key)

first_adds : add_to_cache tight [] leaf 3 key ≡ some first
unfolding add_to_cache new_cache bucket_size to_uint64 ◌+ℤ◌ ◌-ℤ◌
first_adds = refl

-- The eviction draws bucket 7 twice and then that of the first entry, and 7 and that of the second.
abbrev draws : List ℕ
draws = 7 ∷ 7 ∷ get_hashed_cache_table_index leaf 3 ∷ 7 ∷ get_hashed_cache_table_index leaf 4 ∷ []

abbrev second : Bool × IdxCache × List ℕ
unfolding add_to_cache new_cache bucket_size to_uint64 ◌+ℤ◌ ◌-ℤ◌
second = result (add_to_cache first.1 draws leaf 4 key)

second_adds : add_to_cache first.1 draws leaf 4 key ≡ some second
unfolding add_to_cache new_cache bucket_size to_uint64 ◌+ℤ◌ ◌-ℤ◌
second_adds = refl

second_evicts : second.1.free_size ≡ pos 0
unfolding add_to_cache new_cache bucket_size to_uint64 ◌+ℤ◌ ◌-ℤ◌
second_evicts = refl

first-IsSpaced : IsSpaced 0 first.1
first-IsSpaced = (add_to_cache-IsSpaced 0 tight [] leaf 3 key first tt tight-IsSpaced first_adds).0

draws-IsDraw : All IsDraw draws
unfolding hash_table_size get_hashed_cache_table_index to_uint64
draws-IsDraw = omega arith

add_to_cache-IsSpaced_example :
    IsSpaced 0 second.1 × (entry_size * total hash_table_size second.1.hash_table ≤ 0 + entry_size)
add_to_cache-IsSpaced_example =
    add_to_cache-IsSpaced 0 first.1 draws leaf 4 key second draws-IsDraw first-IsSpaced second_adds

-- A fresh cache of 50 MB, and a search of the whole leaf after an addition.
abbrev fresh : IdxCache
unfolding new_cache bucket_size
fresh = new_cache 50

search_idx_from_cache-add_to_cache_example :
    (c' : IdxCache) × (add_to_cache fresh [] leaf 3 key ≡ some (true, c', []))
    × ((l r : ℕ) → Searched l r 3 → (j : ℕ) × (search_idx_from_cache c' leaf l r key ≡ some j))
unfolding new_cache bucket_size
search_idx_from_cache-add_to_cache_example =
    search_idx_from_cache-add_to_cache leaf 3 key (omega arith) [] fresh refl refl refl
      (0, omega arith, tt)

found : search_idx_from_cache first.1 leaf 0 16 key ≡ some 3
unfolding add_to_cache new_cache bucket_size to_uint64 search_idx_from_cache first
found = refl

search_idx_from_cache_lem_example :
    ((j : ℕ) × (g : ℤ) × (search_idx_from_cache first.1 leaf 0 16 key ≡ some j)
      × Searched 0 16 j
      × Cached first.1 leaf j key g
      × ((i : ℕ) (f : ℤ) → Searched 0 16 i → Cached first.1 leaf i key f → f ≤ℤ g))
    ⊎ ((search_idx_from_cache first.1 leaf 0 16 key ≡ none)
        × ((i : ℕ) (f : ℤ) → Searched 0 16 i → ¬ Cached first.1 leaf i key f))
unfolding add_to_cache new_cache bucket_size to_uint64 first
search_idx_from_cache_lem_example = search_idx_from_cache_lem first.1 leaf 0 16 key refl

-- A cache whose buckets are all full.
abbrev other : IdxCacheEntry
other = new_entry 0 leaf 9 key

abbrev full : IdxCache
unfolding new_cache
full = record (new_cache 50) { hash_table = λ _. replicate 16 (some other) }

-- The new entry is put into the bucket, and its pointer, 1, into the garbage queue.
requeued :
    ((add_to_cache full [] leaf 3 key >>= λ r. some (r.1.cache_entry_gc)) ≡ some (some 1 ∷ []))
    × ((add_to_cache full [] leaf 3 key >>= λ r.
          some (get_or (r.1.hash_table (get_hashed_cache_table_index leaf 3)) 0 none))
        ≡ some (some (new_entry 1 leaf 3 key)))
unfolding add_to_cache new_cache bucket_size to_uint64 get_hashed_cache_table_index
    riiver_rolex.Hot.collect riiver_rolex.Hot.safely_free_epoch
requeued = (refl, refl)
