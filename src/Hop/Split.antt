-- ===== src/Hop/Split.antt =====
-- RolexIndex::hopscotch_split_and_unlock of src/Rolex.cpp on the two leaves, and
-- hopscotch_get_split_key: a full hopscotch leaf hands its upper keys to a new synonym leaf.
use riiver_rolex.Base.{
  ℕ, zero, suc, ◌+◌, ◌-◌, ◌/◌, Bool, true, false, not, ◌&&◌, Option, none, some, List, [], ◌∷◌,
  ◌++◌, ltb, leb, ◌==◌, if◌then◌else◌, length, get_elem?, ◌>>=◌,
}
use riiver_rolex.Leaf.{leaf_span_size}
use riiver_rolex.Hop.{
  neighbor_size, Records, null_records, get_entry, write_entry, set_hop_bit, unset_hop_bit, hashed,
  find_hop, hopscotch_insert_locally,
}

-- `std::sort`
unfoldable pub insert_key : ℕ → List ℕ → List ℕ
insert_key k [] = k ∷ []
insert_key k (q ∷ qs) = let rest = q ∷ insert_key k qs in if ltb q k then rest else k ∷ q ∷ qs

unfoldable pub sort_keys : List ℕ → List ℕ
sort_keys [] = []
sort_keys (k ∷ ks) = insert_key k (sort_keys ks)

module _ (city : ℕ → ℕ) where
  -- `next_hop` of hopscotch_get_split_key: whether hops lead from `j` into the neighborhood.
  unfoldable pub try_hop : Records → ℕ → ℕ → ℕ → Bool
  try_hop r hash_idx zero j = false
  try_hop r hash_idx (suc rounds) j =
      let further : Bool = elim (find_hop city false r j (neighbor_size - 1)) [
        | none ↦ false
        | some none ↦ false
        | some (some h) ↦ try_hop r hash_idx rounds h
      ] in
      if ltb j (hash_idx + neighbor_size) then true else further

  -- `critical_keys`, from `empty_idx` on
  unfoldable pub critical_keys : Records → ℕ → ℕ → ℕ → List ℕ
  critical_keys r hash_idx empty_idx zero = []
  critical_keys r hash_idx empty_idx (suc n) =
      let rest = critical_keys r hash_idx (empty_idx + 1) n in
      let key = (get_entry r empty_idx).key in
      if key == 0
      then []
      else (if try_hop r hash_idx leaf_span_size empty_idx then key ∷ rest else rest)

  -- `hopscotch_get_split_key`
  unfoldable pub hopscotch_get_split_key : Records → ℕ → Option ℕ
  hopscotch_get_split_key r k =
      let keys = critical_keys r (hashed city k) (hashed city k) leaf_span_size in
      if length keys == 0
      then none
      else get_elem? (sort_keys (keys ++ (k ∷ []))) ((length keys + 1) / 2)

  -- One round of the loop that moves data.
  unfoldable pub move_entry : ℕ → ℕ → Records → Records → Option (Records × Records)
  move_entry split_key i r s =
      let old = get_entry r i in
      let hash_idx = hashed city old.key in
      let offset = if leb hash_idx i then i - hash_idx else i + leaf_span_size - hash_idx in
      if not (old.key == 0) && leb split_key old.key
      then (do
        s' ← set_hop_bit (write_entry s i old.key old.value) hash_idx offset
        r' ← unset_hop_bit (write_entry r i 0 0) hash_idx offset
        some (r', s'))
      else some (r, s)

  -- The loop, from `i` on for `n` entries.
  unfoldable pub move_data : ℕ → ℕ → ℕ → Records → Records → Option (Records × Records)
  move_data split_key zero i r s = some (r, s)
  move_data split_key (suc n) i r s = do
    (r', s') ← move_entry split_key i r s
    move_data split_key n (i + 1) r' s'

  -- The records of the leaf and of the synonym leaf after `hopscotch_split_and_unlock`.
  unfoldable pub hopscotch_split : Records → ℕ → ℕ → Option (Records × Records)
  hopscotch_split r k v = do
    split_key ← hopscotch_get_split_key r k
    (r', s) ← move_data split_key leaf_span_size 0 r null_records
    if ltb k split_key
        then (do r'' ← hopscotch_insert_locally city r' k v; some (r'', s))
        else (do s' ← hopscotch_insert_locally city s k v; some (r', s'))
