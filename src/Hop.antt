-- ===== src/Hop.antt =====
-- A leaf as a hopscotch table (HOPSCOTCH_LEAF_NODE): LeafEntry of include/LeafNode.h with its hop
-- bits, and the local part of RolexIndex::hopscotch_insert_and_unlock, hopscotch_insert_locally and
-- `_search` in src/Rolex.cpp. `city` is CityHash64 of the key, a function of the city library.
-- A logical index of the source may be negative: here it is 16 more where it is called `shifted`.
pub mod Slots
pub mod Step
pub mod Place
pub mod Find
pub mod Insert
pub mod Search
pub mod Remove
pub mod Split
pub mod Round
pub mod Move
mod Tests
use riiver_rolex.Base.{
  ℕ, zero, suc, ◌+◌, ◌-◌, ◌*◌, ◌/◌, ◌%◌, ◌^◌, ◌≤◌, ◌<◌, min, max, ◌≡◌, refl, sym, ap, ◌∙◌, ◌≢◌, ◌↔◌,
  ◌⊎◌, inl, inr, Bool, true, false, not, ◌&&◌, ◌||◌, Option, none, some, List, [], ◌∷◌, ◌++◌, map,
  arith, ltb, leb, ◌==◌, if◌then◌else◌, Bool-cases, Option-cases, length, get_elem?, set, get_or,
  take, drop, replicate, length-append, length-set, length-take, length-drop, length-replicate,
  length-map, ==_iff, dec_lt, ℕ_discrete, get_elem?-set_self, get_elem?-set_ne, take-append-drop,
  ltb→lt, lt→ltb, ◌>>=◌,
}
use riiver_rolex.Leaf.{leaf_span_size}

abbrev pub neighbor_size : ℕ
neighbor_size = 8

pub record HopEntry : Type 0 where
  pub hop_bit : ℕ → Bool  -- the bits of hop_bitmap, by the offset they stand for
  pub key : ℕ
  pub value : ℕ

-- `records`, by an index below leaf_span_size
abbrev pub Records : Type 0
Records = ℕ → HopEntry

abbrev pub null_records : Records
null_records i = record { hop_bit = λ d. false; key = 0; value = 0 }

-- `get_entry`
abbrev pub get_entry : Records → ℕ → HopEntry
get_entry r idx = r (idx % leaf_span_size)

abbrev pub set_entry : Records → ℕ → HopEntry → Records
set_entry r idx e = λ i. if i == idx % leaf_span_size then e else r i

-- `get_entry(idx).update(k, v)`
abbrev pub write_entry : Records → ℕ → ℕ → ℕ → Records
write_entry r idx k v = set_entry r idx (record (get_entry r idx) { key = k; value = v })

abbrev pub with_bit : HopEntry → ℕ → Bool → HopEntry
with_bit e d b = record e { hop_bit = λ i. if i == d then b else e.hop_bit i }

-- `get_entry(idx).set_hop_bit(d)`, `none` where its assertion fails
unfoldable pub set_hop_bit : Records → ℕ → ℕ → Option Records
set_hop_bit r idx d =
    if ltb d neighbor_size && not ((get_entry r idx).hop_bit d)
    then some (set_entry r idx (with_bit (get_entry r idx) d true))
    else none

-- `get_entry(idx).unset_hop_bit(d)`
unfoldable pub unset_hop_bit : Records → ℕ → ℕ → Option Records
unset_hop_bit r idx d =
    if ltb d neighbor_size && (get_entry r idx).hop_bit d
    then some (set_entry r idx (with_bit (get_entry r idx) d false))
    else none

module _ (city : ℕ → ℕ) where
  -- `get_hashed_leaf_entry_index`
  abbrev pub hashed : ℕ → ℕ
  hashed k = city k % leaf_span_size

  -- The loop that looks for an empty slot, from `i` on.
  unfoldable pub find_empty : Records → ℕ → ℕ → Option ℕ
  find_empty r i zero = none
  find_empty r i (suc n) =
      let rest = find_empty r (i + 1) n in if (get_entry r i).key == 0 then some i else rest

  -- `h_hash_idx` after the corner case, shifted
  abbrev pub shifted_home : Records → ℕ → ℕ
  shifted_home r h =
      let x = hashed (get_entry r h).key in
      if ltb h x then x else if leb neighbor_size (h - x) then x + 32 else x + 16

  -- The loop over `offset`, down from `n`: which entry can hop to slot `j`. `none` where the
  -- assertion on the shifted index fails, which hopscotch_insert_locally does not make.
  unfoldable pub find_hop : Bool → Records → ℕ → ℕ → Option (Option ℕ)
  find_hop checked r j zero = some none
  find_hop checked r j (suc n) =
      let rest = find_hop checked r j n in
      let h = j - suc n in
      let home = shifted_home r h in
      if checked && not (leb home (h + leaf_span_size))
      then none
      else (if ltb (j + leaf_span_size) (home + neighbor_size) then some (some h) else rest)

  -- The entry at `h` hops to `j`; a negative offset fails the assertion of unset_hop_bit.
  unfoldable pub hop : Records → ℕ → ℕ → Option Records
  hop r h j =
      let e = get_entry r h in
      let home = shifted_home r h in
      if leb home (h + leaf_span_size)
      then (do
        r' ← unset_hop_bit (write_entry r j e.key e.value) home (h + leaf_span_size - home)
        set_hop_bit r' home (j + leaf_span_size - home))
      else none

  -- `next_hop`: `some none` where no entry can hop, else the records and `hopped_idxes`. `none`
  -- where an assertion fails, or after `rounds` hops.
  unfoldable pub hop_loop :
      Bool → Records → ℕ → ℕ → ℕ → ℕ → List ℕ → Option (Option (Records × List ℕ))
  hop_loop checked r k v zero j idxes = none
  hop_loop checked r k v (suc rounds) j idxes =
      let hash_idx = hashed k in
      let next = idxes ++ ((j % leaf_span_size) ∷ []) in
      let there : Option (Option (Records × List ℕ)) = (do
        r' ← set_hop_bit (write_entry r j k v) hash_idx (j - hash_idx)
        some (some (r', next))) in
      let further : Option (Option (Records × List ℕ)) =
        elim (find_hop checked r j (neighbor_size - 1)) [
          | none ↦ none
          | some none ↦ some none
          | some (some h) ↦ do r' ← hop r h j; hop_loop checked r' k v rounds h next
        ] in
      if ltb j (hash_idx + neighbor_size) then there else further

  -- What hopscotch_insert_and_unlock and hopscotch_insert_locally have in common: `some none` where
  -- there is no empty slot, or no entry that can hop.
  unfoldable pub insert_into : Bool → Records → ℕ → ℕ → ℕ → Option (Option (Records × List ℕ))
  insert_into checked r k v entry_num = elim (find_empty r (hashed k) entry_num) [
    | none ↦ some none
    | some j ↦ hop_loop checked r k v leaf_span_size j []
  ]

  -- `hopscotch_insert_and_unlock` up to the write: `some none` for `false`
  unfoldable pub hopscotch_insert : Records → ℕ → ℕ → ℕ → Option (Option (Records × List ℕ))
  hopscotch_insert r k v entry_num = insert_into true r k v entry_num

  -- `hopscotch_insert_locally`: a leaf without an empty slot, and a hop that fails, end in an
  -- assertion.
  unfoldable pub hopscotch_insert_locally : Records → ℕ → ℕ → Option Records
  hopscotch_insert_locally r k v = do
    done ← insert_into false r k v leaf_span_size
    (r', idxes) ← done
    some r'

  -- The search of one leaf in `_search`, from offset `j` on; `same` is whether the bits up to there
  -- are those of the entry at `hash_idx`. `none` where the leaf is read again.
  unfoldable pub search_from : Records → ℕ → ℕ → ℕ → Bool → Option (Option ℕ)
  search_from r k j zero same = if same then some none else none
  search_from r k j (suc n) same =
      let hash_idx = hashed k in
      let e = get_entry r (hash_idx + j) in
      let here = not (e.key == 0) && (hashed e.key == hash_idx) in
      let bit = (get_entry r hash_idx).hop_bit j in
      let rest = search_from r k (j + 1) n (same && (if here then bit else not bit)) in
      if here && (e.key == k) then some (some e.value) else rest

  unfoldable pub hopscotch_search : Records → ℕ → Option (Option ℕ)
  hopscotch_search r k = search_from r k 0 neighbor_size true
