-- ===== src/Hot/Budget.antt =====
-- The memory of the cache through add_to_cache.
use riiver_rolex.Base.{
  ℕ, suc, ◌+◌, ◌*◌, ◌≤◌, ◌<◌, ◌≡◌, refl, sym, ap, inl, inr, Bool, true, false, Option, none, some,
  List, [], ◌∷◌, arith, Bool-cases, Option-cases, length, set, get_or, >>=-eq-some,
}
use riiver_rolex.Base.Int.{ℤ, pos, neg_part, ltb_ℤ, ◌-ℤ◌, -ℤ_parts}
use riiver_rolex.Address.{GlobalAddress}
use riiver_rolex.Key.{Key}
use riiver_rolex.Codec.{All}
use mathlib.Core.Path.{subst}
use riiver_rolex.Hot.{
  IdxCacheEntry, Bucket, IdxCache, hash_table_size, bucket_size, entry_size, int_max, new_cache,
  get_hashed_cache_table_index, set_bucket, new_entry, is_at, touch, touch_first, Place, empty_slot,
  lfu, find_place, safely_delete, find_lfu_idx,
}
use riiver_rolex.Layout.{mb}
use riiver_rolex.Hot.Counts.{
  entries, total, total-set_bucket, total_empty, entries-put, entries-over,
}
use riiver_rolex.Hot.Places.{Least, find_lfu_idx-Least, find_place-cases}
use riiver_rolex.Hot.Add.{evict, put_entry, add_entry, add_to_cache}
use riiver_rolex.Hot.Space.{IsCounted, IsDraw, victim, evict_loop-IsCounted}

-- The free bytes are what the entries leave of the budget, or at most one entry less than none.
pub record IsSpaced (budget : ℕ) (c : IdxCache) : Type 0 where
  pub counted : IsCounted budget c
  pub within : neg_part c.free_size ≤ entry_size

-- The constructor leaves all of its memory free.
pub new_cache-IsSpaced : (size : ℕ) → IsSpaced (mb * size) (new_cache size)
unfolding new_cache
new_cache-IsSpaced size = record {
  counted = omega (arith, total_empty hash_table_size bucket_size);
  within = omega arith;
}

sub_free : (z : ℤ) → ltb_ℤ z (pos 0) ≡ false → neg_part (z -ℤ pos entry_size) ≤ entry_size
unfolding ◌-ℤ◌
sub_free z h = ground arith

free_pos : (z : ℤ) → ltb_ℤ z (pos 0) ≡ false → neg_part z ≤ entry_size
free_pos z h = ground arith

some-eq {ℓ} : {A : Type ℓ} {x y : A} → some x ≡ some y → x ≡ y
some-eq h = cc

entries-touch_first :
    (a : GlobalAddress) (i : ℕ) (k : Key) (b b' : Bucket)
    → touch_first a i k b ≡ some b'
    → entries b' ≡ entries b
unfolding touch_first
entries-touch_first a i k [] b' h = cc
entries-touch_first a i k (none ∷ b) b' h = elim (Option-cases (touch_first a i k b)) [
  | inl e ↦ let h' = rw e at h in cc
  | inr (r, e) ↦
      let h' = rw e at h in
      let same : (none ∷ r) ≡ b' = cc in rw (← same) (entries-touch_first a i k b r e)
]
entries-touch_first a i k (some x ∷ b) b' h = elim (Bool-cases (is_at a i x)) [
  | inl t ↦ let h' = rw t at h in let same : (some (touch k x) ∷ b) ≡ b' = cc in rw (← same) refl
  | inr t ↦ elim (Option-cases (touch_first a i k b)) [
    | inl e ↦ let h' = rw (t, e) at h in cc
    | inr (r, e) ↦
        let h' = rw (t, e) at h in
        let same : (some x ∷ r) ≡ b' = cc in rw (← same) (ap suc (entries-touch_first a i k b r e))
  ]
]

-- Where a new entry is put.
abbrev Fits : Bucket → Place → Type 0
Fits b (empty_slot m) = (m < length b) × (get_or b m none ≡ none)
Fits b (lfu none) = Unit {0}
Fits b (lfu (some m)) = (e : IdxCacheEntry) × (get_or b m none ≡ some e)

lfu-Fits : (b : Bucket) (r : Option ℕ × ℤ) → Least 0 b none int_max r → Fits b (lfu r.0)
lfu-Fits b (none, f) h = tt
lfu-Fits b (some m, f) h = victim b m (some m, f) h refl

find_place-Fits : (b : Bucket) → Fits b (find_place 0 none int_max b)
find_place-Fits b = elim (find_place-cases 0 none int_max b) [
  | inl (d, p, lt, g) ↦ let n : 0 + d ≡ d = omega arith in subst (Fits b) (sym p) (rw n (lt, g))
  | inr (p, _) ↦
      subst (Fits b) (sym p)
        (lfu-Fits b (find_lfu_idx 0 none int_max b) (find_lfu_idx-Least 0 none int_max b))
]

index_lt : (a : GlobalAddress) (i : ℕ) → get_hashed_cache_table_index a i < hash_table_size
unfolding get_hashed_cache_table_index hash_table_size
index_lt a i = omega arith

module _ (budget : ℕ) where
  put-IsCounted :
      (m h : ℕ) (e : IdxCacheEntry) (c c' : IdxCache)
      → h < hash_table_size
      → Fits (c.hash_table h) (empty_slot m)
      → IsSpaced budget c
      → c'.hash_table ≡ set_bucket c.hash_table h (set (c.hash_table h) m (some e))
      → c'.free_size ≡ c.free_size -ℤ pos entry_size
      → IsCounted budget c'
  put-IsCounted m h e c c' lt fit s p q =
      rw (p, q)
        (omega (
          arith,
          s.counted,
          -ℤ_parts c.free_size (pos entry_size),
          total-set_bucket hash_table_size c.hash_table h (set (c.hash_table h) m (some e)) lt,
          entries-put (c.hash_table h) m e fit.0 fit.1,
        ))

  put_entry-IsSpaced :
      (p : Place) (h : ℕ) (e : IdxCacheEntry) (c : IdxCache) (draws : List ℕ)
      (r : Bool × IdxCache × List ℕ)
      → h < hash_table_size
      → All IsDraw draws
      → Fits (c.hash_table h) p
      → IsSpaced budget c
      → put_entry p h e c draws ≡ some r
      → IsSpaced budget r.1
  unfolding put_entry evict safely_delete
  put_entry-IsSpaced (empty_slot m) h e c draws r lt all fit s q =
      elim (Bool-cases (ltb_ℤ c.free_size (pos 0))) [
        | inl t ↦
            let (o, p, p') = >>=-eq-some _ (λ r. some (true, r.0, r.1)) (rw t at q) in
            let (s', done) =
              evict_loop-IsCounted budget (length draws) _ draws o all
                (put-IsCounted m h e c
                  (record c {
                    hash_table = set_bucket c.hash_table h (set (c.hash_table h) m (some e));
                    free_size = c.free_size -ℤ pos entry_size;
                    delay_cnt = pos 10;
                  })
                  lt fit s refl refl)
                p in
            let same : (true, o.0, o.1) ≡ r = cc in
            subst (λ u. IsSpaced budget u.1) same
              (record { counted = s'; within = free_pos o.0.free_size done })
        | inr t ↦
            let q' = rw t at q in
            let c' = record c {
              hash_table = set_bucket c.hash_table h (set (c.hash_table h) m (some e));
              free_size = c.free_size -ℤ pos entry_size;
            } in
            let same : (true, c', draws) ≡ r = cc in
            subst (λ u. IsSpaced budget u.1) same
              (record {
                counted = put-IsCounted m h e c c' lt fit s refl refl;
                within = sub_free c.free_size t;
              })
      ]
  put_entry-IsSpaced (lfu none) h e c draws r lt all fit s q = cc
  put_entry-IsSpaced (lfu (some m)) h e c draws r lt all fit s q =
      let b = set (c.hash_table h) m (some e) in
      let same = some-eq q in
      subst (λ u. IsSpaced budget u.1) same
        (record {
          counted = omega (
            arith,
            s.counted,
            total-set_bucket hash_table_size c.hash_table h b lt,
            entries-over (c.hash_table h) m e fit.0 fit.1,
          );
          within = s.within;
        })

  add_entry-IsSpaced :
      (c : IdxCache) (draws : List ℕ) (a : GlobalAddress) (i : ℕ) (k : Key)
      (r : Bool × IdxCache × List ℕ)
      → get_hashed_cache_table_index a i < hash_table_size
      → All IsDraw draws
      → IsSpaced budget c
      → add_entry c draws a i k ≡ some r
      → IsSpaced budget r.1
  unfolding add_entry
  add_entry-IsSpaced c draws a i k r lt all s q =
      let h = get_hashed_cache_table_index a i in
      let d = c.delay_cnt -ℤ pos 1 in
      elim (Bool-cases (ltb_ℤ (pos 0) c.delay_cnt)) [
        | inl t ↦
            subst (λ u. IsSpaced budget u.1) (some-eq (rw t at q))
              (record { counted = s.counted; within = s.within })
        | inr t ↦
            put_entry-IsSpaced (find_place 0 none int_max (c.hash_table h)) h
              (new_entry c.next_ptr a i k) (record c { delay_cnt = d; next_ptr = c.next_ptr + 1 })
              draws r lt all (find_place-Fits (c.hash_table h))
              (record { counted = s.counted; within = s.within }) (rw t at q)
      ]

  -- Through every call of add_to_cache that returns, with whatever evictions, the count of free bytes
  -- stays what the entries leave of the budget, and the entries take at most one entry more than that.
  pub add_to_cache-IsSpaced :
      (c : IdxCache) (draws : List ℕ) (a : GlobalAddress) (i : ℕ) (k : Key)
      (r : Bool × IdxCache × List ℕ)
      → All IsDraw draws
      → IsSpaced budget c
      → add_to_cache c draws a i k ≡ some r
      → IsSpaced budget r.1
        × (entry_size * total hash_table_size r.1.hash_table ≤ budget + entry_size)
  unfolding add_to_cache
  add_to_cache-IsSpaced c draws a i k r all s q = (kept, omega (arith, kept.counted, kept.within))
    where
      lt : get_hashed_cache_table_index a i < hash_table_size
      lt = index_lt a i

      kept : IsSpaced budget r.1
      kept = elim (Bool-cases c.is_disabled) [
        | inl t ↦
            subst (λ u. IsSpaced budget u.1) (some-eq (rw t at q))
              (record { counted = s.counted; within = s.within })
        | inr t ↦
            elim (Option-cases
              (touch_first a i k (c.hash_table (get_hashed_cache_table_index a i)))) [
                | inl e ↦ add_entry-IsSpaced c draws a i k r lt all s (rw (t, e) at q)
                | inr (b, e) ↦
                    subst (λ u. IsSpaced budget u.1) (some-eq (rw (t, e) at q))
                      (record {
                        counted = omega (
                          arith,
                          s.counted,
                          total-set_bucket hash_table_size c.hash_table
                              (get_hashed_cache_table_index a i) b lt,
                          entries-touch_first a i k
                              (c.hash_table (get_hashed_cache_table_index a i)) b e,
                        );
                        within = s.within;
                      })
              ]
      ]
