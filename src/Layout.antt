-- ===== src/Layout.antt =====
-- The compile-time constants of include/Common.h, in the default build, and where
-- RolexIndex::get_leaf_address (src/Rolex.cpp) puts the leaves.
pub mod Regions
mod Tests
use riiver_rolex.Base.{
  ℕ, ◌+◌, ◌-◌, ◌*◌, ◌/◌, ◌%◌, ◌^◌, Option, none, some, ltb, ◌==◌, if◌then◌else◌,
}
use riiver_rolex.Address.{GlobalAddress}
use riiver_rolex.Leaf.{leaf_span_size}

-- `ROUND_UP(x, n)`: the mask `~((1 << n) - 1)` clears the low `n` bits.
abbrev pub round_up : ℕ → ℕ → ℕ
round_up x n = (x + 2 ^ n - 1) / 2 ^ n * 2 ^ n

-- `ADD_CACHELINE_VERSION_SIZE(x, cvs)`
abbrev pub add_cacheline_version_size : ℕ → ℕ → ℕ
add_cacheline_version_size x cvs =
    x + (x / (64 - cvs) + (if x % (64 - cvs) == 0 then 0 else 1)) * cvs

abbrev pub memory_node_num : ℕ
memory_node_num = 1

abbrev pub mb : ℕ
mb = 1024 * 1024

abbrev pub chunk_size : ℕ
chunk_size = 16 * mb

abbrev pub cacheline_align_bit : ℕ
cacheline_align_bit = 6

-- (entryVersionBit + nodeVersionBit) / 8
abbrev pub version_size : ℕ
version_size = round_up (4 + 4) 3 / 8

abbrev pub cacheline_size : ℕ
cacheline_size = 64

abbrev pub block_size : ℕ
block_size = cacheline_size - version_size

abbrev pub key_len : ℕ
key_len = 8

abbrev pub inline_val_len : ℕ
inline_val_len = 8

abbrev pub leaf_metadata_size : ℕ
leaf_metadata_size = version_size + 8

abbrev pub leaf_entry_size : ℕ
leaf_entry_size = version_size + key_len + inline_val_len

abbrev pub decoded_leaf_size : ℕ
decoded_leaf_size = leaf_metadata_size + leaf_entry_size * leaf_span_size

abbrev pub trans_leaf_size : ℕ
trans_leaf_size =
    cacheline_size + add_cacheline_version_size (decoded_leaf_size - cacheline_size) version_size

abbrev pub allocation_lock_size : ℕ
allocation_lock_size = 16

abbrev pub allocation_leaf_size : ℕ
allocation_leaf_size = trans_leaf_size + allocation_lock_size

abbrev pub leaf_region_start_offset : ℕ
leaf_region_start_offset = chunk_size / 2

abbrev pub leaf_num_max : ℕ
leaf_num_max = 1200000000 / leaf_span_size

-- from one leaf to the next
abbrev pub leaf_stride : ℕ
leaf_stride = round_up allocation_leaf_size 3

abbrev pub syn_region_offset : ℕ
syn_region_offset =
    leaf_region_start_offset + round_up (leaf_num_max * leaf_stride) cacheline_align_bit

-- `none` where the assertion fails
unfoldable pub get_leaf_address : ℕ → Option GlobalAddress
get_leaf_address leaf_idx =
    let offset = leaf_region_start_offset + leaf_idx / memory_node_num * leaf_stride in
    if ltb (offset + allocation_leaf_size) syn_region_offset
    then some (record { node_id = leaf_idx % memory_node_num; offset = offset })
    else none

-- `get_lock_info`: where the lock word of a leaf lies, from the leaf's start
abbrev pub get_lock_info : ℕ
get_lock_info = round_up trans_leaf_size 3
