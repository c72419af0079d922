-- ===== src/Tree/Spec.antt =====
-- The abstract state of the index: for each leaf index a leaf and its synonym leaf, and what it
-- means that the remote memory represents it.
use riiver_rolex.Base.{ℕ, ◌+◌, ◌*◌, ◌/◌, ◌%◌, ◌^◌, ◌<◌, ◌≡◌, ◌≢◌, Option, none, some, List, arith}
use riiver_rolex.Address.{GlobalAddress, null_addr}
use riiver_rolex.Layout.{get_leaf_address, leaf_region_start_offset, leaf_stride, leaf_num_max}
use riiver_rolex.Leaf.{LeafNode}
use riiver_rolex.Leaf.Order.{lookup}
use riiver_rolex.Leaf.Synonym.{contents, IsPair}
use riiver_rolex.Cache.{RolexCache, InsertRange, search_from_cache_for_insert}
use riiver_rolex.Codec.{Codec, IsStorable}
use riiver_rolex.Alloc.{Allocator, IsSynAddress}
use riiver_rolex.Tree.{Dsm}

pub record Node : Type 0 where
  pub leaf : LeafNode
  pub syn : Option LeafNode

abbrev pub items : Node → List (ℕ × ℕ)
items n = contents n.leaf n.syn

abbrev pub ptr : Node → GlobalAddress
ptr n = n.leaf.metadata.synonym_ptr

-- The address of leaf `i`, where the assertion of `get_leaf_address` holds.
abbrev pub leaf_address : ℕ → GlobalAddress
leaf_address i = record { node_id = 0; offset = leaf_region_start_offset + i * leaf_stride }

pub get_leaf_address-leaf_address :
    (i : ℕ) → i + 1 < leaf_num_max → get_leaf_address i ≡ some (leaf_address i)
unfolding get_leaf_address
get_leaf_address-leaf_address i h = ground arith

-- The leaf that the learned index gives a key to.
abbrev pub IsHome : RolexCache → ℕ → ℕ → Type 0
IsHome cache k i =
    (g : InsertRange) × (search_from_cache_for_insert cache k ≡ some g) × (g.insert_idx ≡ i)

-- The synonym leaf is where the pointer of its leaf says, in the synonym region.
abbrev pub Linked : {Raw A : Type 0} → Codec Raw → Dsm Raw A → LeafNode → Option LeafNode → Type 0
Linked codec s l none = l.metadata.synonym_ptr ≡ null_addr
Linked codec s l (some m) =
    (codec.decode (s.mem l.metadata.synonym_ptr) ≡ some m)
    × IsSynAddress l.metadata.synonym_ptr
    × IsStorable m

module _ {Raw A : Type 0} (codec : Codec Raw) (al : Allocator A) (cache : RolexCache) where
  pub record Represents (s : Dsm Raw A) (σ : ℕ → Node) : Type 0 where
    pub leaf_at :
        (i : ℕ) → i + 1 < leaf_num_max → codec.decode (s.mem (leaf_address i)) ≡ some (σ i).leaf
    pub linked : (i : ℕ) → Linked codec s (σ i).leaf (σ i).syn
    pub sorted : (i : ℕ) → IsPair (σ i).leaf (σ i).syn
    pub storable : (i : ℕ) → IsStorable (σ i).leaf
    pub homed : (i q : ℕ) → lookup q (items (σ i)) ≢ none → IsHome cache q i
    pub apart : (i j : ℕ) → i ≢ j → (σ i).syn ≢ none → (σ j).syn ≢ none → ptr (σ i) ≢ ptr (σ j)
    pub unused : (i : ℕ) → (σ i).syn ≢ none → ¬ al.Free s.heap (ptr (σ i))
    pub unlocked : (a : GlobalAddress) → s.lock a / 2 ^ 63 % 2 ≡ 0
