-- ===== src/Hot/Found.antt =====
-- After add_to_cache a search finds the key.
use riiver_rolex.Base.{
  ℕ, ◌+◌, ◌^◌, ◌<◌, ◌≡◌, refl, sym, ap, ◌∙◌, inl, inr, Bool, true, false, Option, none, some, List,
  arith, if◌then◌else◌, Option-cases, length, set, ==_iff,
}
use riiver_rolex.Base.Int.{pos, ltb_ℤ, ◌-ℤ◌}
use riiver_rolex.Address.{GlobalAddress}
use riiver_rolex.Key.{Key}
use mathlib.Core.Path.{subst}
use riiver_rolex.Hot.{
  Bucket, IdxCache, int_max, get_hashed_cache_table_index, set_bucket, new_entry, touch_first,
  empty_slot, lfu, find_place, safely_delete, search_idx_from_cache,
}
use riiver_rolex.Hot.Places.{find_place-cases}
use riiver_rolex.Hot.Add.{put_entry, add_entry, add_to_cache}
use riiver_rolex.Hot.Candidates.{Remembers}
use riiver_rolex.Hot.Search.{Searched, search_idx_from_cache_lem}
use riiver_rolex.Hot.Kept.{Kept, touch_first-Kept, In-set, HasSlot, slot_of_full}

new_entry-Remembers :
    (p : ℕ) (a : GlobalAddress) (i : ℕ) (k : Key)
    → i < 2 ^ 16
    → Remembers a i k (pos 1) (new_entry p a i k)
new_entry-Remembers p a i k lt = record {
  leaf_addr = refl;
  kv_idx = omega arith;
  footprint = refl;
  freq = refl;
}

set_bucket_self : (t : ℕ → Bucket) (h : ℕ) (b : Bucket) → set_bucket t h b h ≡ b
set_bucket_self t h b = rw ((==_iff h h).1 refl)

if_false {ℓ} : {A : Type ℓ} (t : Bool) (x y : A) → t ≡ false → (if t then x else y) ≡ y
if_false t x y h = rw h

-- The two ways through add_to_cache that add the key.
pub add_to_cache_old :
    (c : IdxCache) (draws : List ℕ) (a : GlobalAddress) (i : ℕ) (k : Key) (b : Bucket)
    → c.is_disabled ≡ false
    → touch_first a i k (c.hash_table (get_hashed_cache_table_index a i)) ≡ some b
    → add_to_cache c draws a i k
      ≡ some (
        true,
        record c { hash_table = set_bucket c.hash_table (get_hashed_cache_table_index a i) b },
        draws,
      )
unfolding add_to_cache
add_to_cache_old c draws a i k b on e = if_false c.is_disabled _ _ on ∙ (rw e)

add_to_cache_new :
    (c : IdxCache) (draws : List ℕ) (a : GlobalAddress) (i : ℕ) (k : Key)
    → c.is_disabled ≡ false
    → ltb_ℤ (pos 0) c.delay_cnt ≡ false
    → touch_first a i k (c.hash_table (get_hashed_cache_table_index a i)) ≡ none
    → add_to_cache c draws a i k
      ≡ put_entry
          (find_place 0 none int_max (c.hash_table (get_hashed_cache_table_index a i)))
          (get_hashed_cache_table_index a i)
          (new_entry c.next_ptr a i k)
          (record c { delay_cnt = c.delay_cnt -ℤ pos 1; next_ptr = c.next_ptr + 1 })
          draws
unfolding add_to_cache add_entry
add_to_cache_new c draws a i k on soon e =
    if_false c.is_disabled _ _ on ∙ (rw e (if_false (ltb_ℤ (pos 0) c.delay_cnt) _ _ soon))

-- What is returned, with the key in its bucket.
abbrev Adds :
    IdxCache → GlobalAddress → ℕ → Key → Option (Bool × IdxCache × List ℕ) → List ℕ → Type 0
Adds c a i k o draws =
    (c' : IdxCache) × (o ≡ some (true, c', draws))
    × (c'.is_disabled ≡ c.is_disabled)
    × Kept a i k (c'.hash_table (get_hashed_cache_table_index a i))

module _ (a : GlobalAddress) (i : ℕ) (k : Key) (small : i < 2 ^ 16) (draws : List ℕ) where
  put_entry-Adds :
      (c : IdxCache) (p : ℕ)
      → ltb_ℤ c.free_size (pos 0) ≡ false
      → HasSlot (c.hash_table (get_hashed_cache_table_index a i))
      → Adds c a i k
          (put_entry
            (find_place 0 none int_max (c.hash_table (get_hashed_cache_table_index a i)))
            (get_hashed_cache_table_index a i)
            (new_entry p a i k)
            c
            draws)
          draws
  unfolding put_entry safely_delete
  put_entry-Adds c p room slot =
      let h = get_hashed_cache_table_index a i in
      let b = c.hash_table h in
      let e = new_entry p a i k in
      let put = λ (m : ℕ) (lt : m < length b).
        let kept : Kept a i k (set b m (some e)) =
          (pos 1, e, In-set b m (some e) lt, new_entry-Remembers p a i k small) in
        subst (Kept a i k) (sym (set_bucket_self c.hash_table h (set b m (some e)))) kept in
      elim (find_place-cases 0 none int_max b) [
        | inl (d, q, lt, _) ↦
            let n : 0 + d ≡ d = omega arith in
            let q' : find_place 0 none int_max b ≡ empty_slot d = q ∙ ap empty_slot n in
            rw (q', room) (_, refl, refl, put d lt)
        | inr (q, full) ↦
            let (m, l, lt) = slot_of_full b full slot in
            let q' : find_place 0 none int_max b ≡ lfu (some m) = q ∙ ap lfu l in
            rw q' (_, refl, refl, put m lt)
      ]

  add_to_cache-Adds :
      (c : IdxCache)
      → c.is_disabled ≡ false
      → ltb_ℤ (pos 0) c.delay_cnt ≡ false
      → ltb_ℤ c.free_size (pos 0) ≡ false
      → HasSlot (c.hash_table (get_hashed_cache_table_index a i))
      → Adds c a i k (add_to_cache c draws a i k) draws
  add_to_cache-Adds c on soon room slot =
      let h = get_hashed_cache_table_index a i in
      elim (Option-cases (touch_first a i k (c.hash_table h))) [
        | inl e ↦ rw (add_to_cache_new c draws a i k on soon e) (
            put_entry-Adds
              (record c { delay_cnt = c.delay_cnt -ℤ pos 1; next_ptr = c.next_ptr + 1 }) c.next_ptr
              room slot)
        | inr (b, e) ↦ (
          record c { hash_table = set_bucket c.hash_table h b },
          add_to_cache_old c draws a i k b on e,
          refl,
          subst (Kept a i k) (sym (set_bucket_self c.hash_table h b))
              (touch_first-Kept a i k (c.hash_table h) b e),
        )
      ]

  -- Where the cache is enabled, no addition is delayed (delay_cnt is not above 0), the count of free bytes
  -- is not below 0, and the bucket has a slot that is empty or whose frequency is below INT_MAX,
  -- add_to_cache of an index below 2 ^ 16 returns true, and every search for the key over a range with the
  -- index then finds an index.
  pub search_idx_from_cache-add_to_cache :
      (c : IdxCache)
      → c.is_disabled ≡ false
      → ltb_ℤ (pos 0) c.delay_cnt ≡ false
      → ltb_ℤ c.free_size (pos 0) ≡ false
      → HasSlot (c.hash_table (get_hashed_cache_table_index a i))
      → (c' : IdxCache) × (add_to_cache c draws a i k ≡ some (true, c', draws))
        × ((l r : ℕ) → Searched l r i → (j : ℕ) × (search_idx_from_cache c' a l r k ≡ some j))
  search_idx_from_cache-add_to_cache c on soon room slot =
      let (c', q, same, (f, e, m, p)) = add_to_cache-Adds c on soon room slot in
      (
        c',
        q,
        λ l r s. elim (search_idx_from_cache_lem c' a l r k (same ∙ on)) [
          | inl (j, _, found, _, _, _) ↦ (j, found)
          | inr (_, nothing) ↦ absurd (nothing i f s (e, m, p))
        ],
      )
