-- ===== src/Hot.antt =====
-- include/IdxCache.h: the cache of hot entries, which remembers for a leaf and an index of its records
-- which key was last found there, and how often. With no other thread at work, so that each
-- compare-and-swap compares with the value that was just read, and succeeds.
pub mod Add
pub mod Budget
pub mod Candidates
pub mod Counts
pub mod Found
pub mod Kept
pub mod Places
pub mod Search
pub mod Space
mod Tests
use riiver_rolex.Base.{
  ℕ, zero, suc, ◌+◌, ◌-◌, ◌*◌, ◌/◌, ◌%◌, ◌^◌, ◌≤◌, ◌<◌, min, max, ◌≡◌, refl, sym, ap, ◌∙◌, ◌≢◌, ◌↔◌,
  ◌⊎◌, inl, inr, Bool, true, false, not, ◌&&◌, ◌||◌, Option, none, some, List, [], ◌∷◌, ◌++◌, map,
  arith, ltb, leb, ◌==◌, if◌then◌else◌, Bool-cases, Option-cases, length, get_elem?, set, get_or,
  take, drop, replicate, length-append, length-set, length-take, length-drop, length-replicate,
  length-map, ◌>>=◌, ==_iff, dec_lt, ℕ_discrete, get_elem?-set_self, get_elem?-set_ne,
  take-append-drop, ltb→lt, lt→ltb,
}
use riiver_rolex.Base.Int.{ℤ, pos, negsuc, ◌+ℤ◌, ◌-ℤ◌, ltb_ℤ, pos_part}
use riiver_rolex.Address.{GlobalAddress, addr_eq, to_uint64}
use riiver_rolex.Key.{Key, key2fp}
use riiver_rolex.Layout.{mb}
use riiver_rolex.Leaf.{leaf_span_size}
use mathlib.Core.Option

-- `HASH_TABLE_SIZE`, and `BUCKET_SIZE` for the 50 MB of `kHotspotBufSize`
pub hash_table_size : ℕ
hash_table_size = 1000000

unfoldable pub bucket_size : ℕ
bucket_size = 16

-- `sizeof(IdxCacheEntry)`, and `safely_free_epoch`
abbrev pub entry_size : ℕ
entry_size = 16

pub safely_free_epoch : ℕ
safely_free_epoch = 20 * 65 * 8

abbrev pub int_max : ℤ
int_max = pos (2 ^ 31 - 1)

-- An entry, with the pointer that `new` returned for it. Nothing but one slot of the table and the
-- garbage queue ever has this pointer, so the entry stands in its slot.
pub record IdxCacheEntry : Type 0 where
  pub ptr : ℕ
  pub leaf_addr : GlobalAddress
  pub kv_idx : ℕ  -- 16 bits
  pub footprint : ℕ  -- 16 bits
  pub cache_entry_freq : ℤ  -- 32 bits, signed

-- A bucket; `none` is the null pointer.
abbrev pub Bucket : Type 0
Bucket = List (Option IdxCacheEntry)

pub record IdxCache : Type 0 where
  pub free_size : ℤ
  pub delay_cnt : ℤ
  pub is_disabled : Bool
  pub hash_table : ℕ → Bucket
  -- the queue of pointers that are to be deleted, and the pointers that were
  pub cache_entry_gc : List (Option ℕ)
  pub freed : List ℕ
  -- what the next `new` returns
  pub next_ptr : ℕ

-- `IdxCache(cache_size, dsm)`
unfoldable pub new_cache : ℕ → IdxCache
new_cache cache_size = record {
  free_size = pos (mb * cache_size);
  delay_cnt = pos 0;
  is_disabled = cache_size == 0;
  hash_table = λ _. replicate bucket_size none;
  cache_entry_gc = [];
  freed = [];
  next_ptr = 1;
}

-- `get_hashed_cache_table_index`
unfoldable pub get_hashed_cache_table_index : GlobalAddress → ℕ → ℕ
unfolding hash_table_size
get_hashed_cache_table_index a i = (to_uint64 a + i) % 2 ^ 64 % hash_table_size

abbrev pub set_bucket : (ℕ → Bucket) → ℕ → Bucket → ℕ → Bucket
set_bucket t i b j = if i == j then b else t j

-- `IdxCacheEntry(leaf_addr, kv_idx, k)`
abbrev pub new_entry : ℕ → GlobalAddress → ℕ → Key → IdxCacheEntry
new_entry p a i k = record {
  ptr = p;
  leaf_addr = a;
  kv_idx = i % 2 ^ 16;
  footprint = key2fp k;
  cache_entry_freq = pos 1;
}

-- `e->leaf_addr == leaf_addr && e->kv_idx == kv_idx`
abbrev pub is_at : GlobalAddress → ℕ → IdxCacheEntry → Bool
is_at a i e = addr_eq e.leaf_addr a && (e.kv_idx == i)

-- An increment of 32 bits wraps around.
unfoldable pub next_freq : ℤ → ℤ
next_freq (pos n) = if n == 2 ^ 31 - 1 then negsuc (2 ^ 31 - 1) else pos (n + 1)
next_freq (negsuc zero) = pos 0
next_freq (negsuc (suc n)) = negsuc n

-- What `add_to_cache` does to an entry that is there.
unfoldable pub touch : Key → IdxCacheEntry → IdxCacheEntry
unfolding next_freq
touch k e =
    if e.footprint == key2fp k
    then record e { cache_entry_freq = next_freq e.cache_entry_freq }
    else record e { footprint = key2fp k; cache_entry_freq = pos 1 }

-- The first loop of `add_to_cache`; `none` where no entry of the bucket is at the place.
unfoldable pub touch_first : GlobalAddress → ℕ → Key → Bucket → Option Bucket
unfolding touch
touch_first a i k [] = none
touch_first a i k (none ∷ b) = Option.map (λ r. none ∷ r) (touch_first a i k b)
touch_first a i k (some e ∷ b) =
    if is_at a i e
    then some (some (touch k e) ∷ b)
    else Option.map (λ r. some e ∷ r) (touch_first a i k b)

-- What the second loop finds: the first empty slot, or `min_idx` with -1 as `none`.
pub data Place : Type 0 where
  empty_slot : ℕ → Place
  lfu : Option ℕ → Place

unfoldable pub find_place : ℕ → Option ℕ → ℤ → Bucket → Place
find_place i min_idx min_freq [] = lfu min_idx
find_place i min_idx min_freq (none ∷ b) = empty_slot i
find_place i min_idx min_freq (some e ∷ b) =
    let less = ltb_ℤ e.cache_entry_freq min_freq in
    find_place (suc i) (if less then some i else min_idx)
      (if less then e.cache_entry_freq else min_freq) b

-- The loop of `safely_delete`; `delete` of a null pointer does nothing.
unfoldable pub collect : List (Option ℕ) → List ℕ → List (Option ℕ) × List ℕ
collect [] freed = ([], freed)
collect (none ∷ q) freed =
    if ltb safely_free_epoch (length (none ∷ q)) then collect q freed else (none ∷ q, freed)
collect (some p ∷ q) freed =
    if ltb safely_free_epoch (length (some p ∷ q))
    then collect q (p ∷ freed)
    else (some p ∷ q, freed)

unfoldable pub safely_delete : Option ℕ → IdxCache → IdxCache
safely_delete p c =
    let r = collect (c.cache_entry_gc ++ p ∷ []) c.freed in
    record c { cache_entry_gc = r.0; freed = r.1 }

-- `find_lfu_idx` of `evict_one`: `min_idx` and `min_freq`
unfoldable pub find_lfu_idx : ℕ → Option ℕ → ℤ → Bucket → Option ℕ × ℤ
find_lfu_idx i min_idx min_freq [] = (min_idx, min_freq)
find_lfu_idx i min_idx min_freq (none ∷ b) = find_lfu_idx (suc i) min_idx min_freq b
find_lfu_idx i min_idx min_freq (some e ∷ b) =
    let less = ltb_ℤ e.cache_entry_freq min_freq in
    find_lfu_idx (suc i) (if less then some i else min_idx)
      (if less then e.cache_entry_freq else min_freq) b

-- `search_for_candidate`: the index and the frequency of each entry that fits, with
-- FOOTPRINT_SPECULATIVE_READ
unfoldable pub bucket_candidates : GlobalAddress → ℕ → Key → Bucket → List (ℕ × ℤ)
bucket_candidates a i k [] = []
bucket_candidates a i k (none ∷ b) = bucket_candidates a i k b
bucket_candidates a i k (some e ∷ b) =
    if is_at a i e && (e.footprint == key2fp k)
    then (i, e.cache_entry_freq) ∷ bucket_candidates a i k b
    else bucket_candidates a i k b

-- The loop over the indices from `i`, with `n` rounds left.
unfoldable pub candidates_from : IdxCache → GlobalAddress → Key → ℕ → ℕ → List (ℕ × ℤ)
unfolding get_hashed_cache_table_index bucket_candidates
candidates_from c a k i zero = []
candidates_from c a k i (suc n) =
    bucket_candidates a i k (c.hash_table (get_hashed_cache_table_index a i))
    ++ candidates_from c a k (suc i) n

-- `std::sort` by falling frequency, which leaves the order of equal frequencies open: here the order
-- that they are in.
unfoldable pub insert_desc : ℕ × ℤ → List (ℕ × ℤ) → List (ℕ × ℤ)
insert_desc x [] = x ∷ []
insert_desc x (y ∷ ys) = if ltb_ℤ y.1 x.1 then x ∷ y ∷ ys else y ∷ insert_desc x ys

unfoldable pub sort_desc : List (ℕ × ℤ) → List (ℕ × ℤ) → List (ℕ × ℤ)
unfolding insert_desc
sort_desc sorted [] = sorted
sort_desc sorted (x ∷ xs) = sort_desc (insert_desc x sorted) xs

abbrev pub front : List (ℕ × ℤ) → Option ℕ
front [] = none
front (x ∷ xs) = some x.0

-- The loops over the indices that are searched; where the range wraps, to the end of a leaf.
unfoldable pub all_candidates : IdxCache → GlobalAddress → ℕ → ℕ → Key → List (ℕ × ℤ)
unfolding candidates_from
all_candidates c a l_idx r_idx k =
    if ltb r_idx l_idx
    then candidates_from c a k 0 (r_idx + 1) ++ candidates_from c a k l_idx (leaf_span_size - l_idx)
    else candidates_from c a k l_idx (r_idx + 1 - l_idx)

-- `search_idx_from_cache`: `kv_idx`, or `none` where it returns false
unfoldable pub search_idx_from_cache : IdxCache → GlobalAddress → ℕ → ℕ → Key → Option ℕ
unfolding all_candidates sort_desc
search_idx_from_cache c a l_idx r_idx k =
    if c.is_disabled then none else front (sort_desc [] (all_candidates c a l_idx r_idx k))
