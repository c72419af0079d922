-- ===== src/Leaf.antt =====
-- A leaf node and the insertion into its sorted record array, as the default build (no
-- HOPSCOTCH_LEAF_NODE) does it: include/LeafNode.h, and the local part of RolexIndex::insert and
-- RolexIndex::insert_into_syn_leaf_locally in src/Rolex.cpp. A `Key` is the number `key2int` gives
-- (Key.Order shows that the comparison of keys is the comparison of these numbers), so
-- `define::kkeyNull` is 0.
pub mod Shift
pub mod Order
pub mod Scan
pub mod Insert
pub mod Local
pub mod Synonym
pub mod Pair
pub mod Tests
use mathlib.Core.Option
use riiver_rolex.Base.{
  ℕ, zero, suc, List, [], ◌∷◌, Option, none, some, Bool, ◌||◌, ltb, leb, ◌==◌, if◌then◌else◌,
  get_or, set, replicate,
}
use riiver_rolex.Address.{GlobalAddress, null_addr}

-- `define::leafSpanSize`
abbrev pub leaf_span_size : ℕ
leaf_span_size = 16

pub record PackedVersion : Type 0 where
  pub node_version : ℕ  -- 4 bits
  pub entry_version : ℕ  -- 4 bits

abbrev pub no_version : PackedVersion
no_version = record { node_version = 0; entry_version = 0 }

pub record LeafEntry : Type 0 where
  pub h_version : PackedVersion
  pub key : ℕ
  pub value : ℕ

pub record LeafMetadata : Type 0 where
  pub h_version : PackedVersion
  pub synonym_ptr : GlobalAddress

pub record LeafNode : Type 0 where
  pub metadata : LeafMetadata
  pub records : List LeafEntry

-- `LeafEntry::Null()`
abbrev pub null_entry : LeafEntry
null_entry = record { h_version = no_version; key = 0; value = 0 }

-- the constructor of `LeafNode`
abbrev pub new_leaf : LeafNode
new_leaf = record {
  metadata = record { h_version = no_version; synonym_ptr = null_addr };
  records = replicate leaf_span_size null_entry;
}

-- `LeafEntry::update`
abbrev pub update : LeafEntry → ℕ → ℕ → LeafEntry
update e k v = record e { key = k; value = v }

-- `records[i].update(k, v)`. Past the end it writes no record: there the source's write goes to the
-- tail of the leaf buffer, which is never sent back.
unfoldable pub update_at : List LeafEntry → ℕ → ℕ → ℕ → List LeafEntry
update_at [] i k v = []
update_at (e ∷ es) zero k v = update e k v ∷ es
update_at (e ∷ es) (suc i) k v = e ∷ update_at es i k v

-- The loop `for (i = 0; i < leafSpanSize; ++i)` that looks for the place of `k`: `none` if an entry
-- has the key, else the index of the first entry that is null or has a greater key.
unfoldable pub probe : ℕ → List LeafEntry → Option ℕ
probe k [] = some 0
probe k (e ∷ es) =
    let rest = Option.map suc (probe k es) in
    if e.key == k then none else if e.key == 0 || ltb k e.key then some 0 else rest

-- `j = i; while (j < leafSpanSize && records[j].key != kkeyNull) j++;`
unfoldable pub next_null : ℕ → List LeafEntry → ℕ
next_null i [] = i
next_null zero (e ∷ es) = let rest = suc (next_null zero es) in if e.key == 0 then 0 else rest
next_null (suc i) (e ∷ es) = suc (next_null i es)

-- `for (k = j - 1; k >= i; --k) records[k + 1] = records[k];` The second number is `j`.
unfoldable pub shift : ℕ → ℕ → List LeafEntry → List LeafEntry
shift i zero rs = rs
shift i (suc k) rs =
    let rest = shift i k (set rs (suc k) (get_or rs k null_entry)) in if leb i k then rest else rs

-- The shift followed by `records[i].update(k, v)`.
unfoldable pub place : ℕ → ℕ → ℕ → ℕ → List LeafEntry → List LeafEntry
unfolding update_at shift
place i j k v rs = update_at (shift i j rs) i k v
