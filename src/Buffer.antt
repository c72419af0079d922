-- ===== src/Buffer.antt =====
-- include/RdmaBuffer.h: the registered buffer of a coroutine, cut into rings of small buffers. An
-- address is the number of bytes from the start of memory. ENABLE_VAR_LEN_KV is not defined, so the
-- block buffers are empty.
pub mod Rings
mod Tests
use riiver_rolex.Base.{
  ℕ, zero, suc, ◌+◌, ◌-◌, ◌*◌, ◌/◌, ◌%◌, ◌^◌, ◌≤◌, ◌<◌, min, max, ◌≡◌, refl, sym, ap, ◌∙◌, ◌≢◌, ◌↔◌,
  ◌⊎◌, inl, inr, Bool, true, false, not, ◌&&◌, ◌||◌, Option, none, some, List, [], ◌∷◌, ◌++◌, map,
  arith, ltb, leb, ◌==◌, if◌then◌else◌, Bool-cases, Option-cases, length, get_elem?, set, get_or,
  take, drop, replicate, length-append, length-set, length-take, length-drop, length-replicate,
  length-map, ==_iff, dec_lt, ℕ_discrete, get_elem?-set_self, get_elem?-set_ne, take-append-drop,
  ltb→lt, lt→ltb,
}
use riiver_rolex.Layout.{
  add_cacheline_version_size, leaf_metadata_size, leaf_entry_size, version_size,
  allocation_leaf_size,
}

abbrev pub cas_buffer_cnt : ℕ
cas_buffer_cnt = 32

abbrev pub lock_buffer_cnt : ℕ
lock_buffer_cnt = 64

abbrev pub leaf_buffer_cnt : ℕ
leaf_buffer_cnt = 512

abbrev pub segment_buffer_cnt : ℕ
segment_buffer_cnt = 256

abbrev pub header_buffer_cnt : ℕ
header_buffer_cnt = 32

abbrev pub entry_buffer_cnt : ℕ
entry_buffer_cnt = 32

abbrev pub block_buffer_cnt : ℕ
block_buffer_cnt = 32

abbrev pub buffer_entry_size : ℕ
buffer_entry_size = add_cacheline_version_size (leaf_metadata_size + leaf_entry_size) version_size

abbrev pub buffer_metadata_size : ℕ
buffer_metadata_size = add_cacheline_version_size leaf_metadata_size version_size

abbrev pub buffer_block_size : ℕ
buffer_block_size = 0

-- `define::kPerCoroRdmaBuf`: 4 GB over 65 threads and 8 coroutines
abbrev pub per_coro_rdma_buf : ℕ
per_coro_rdma_buf = 4 * 2 ^ 30 / 65 / 8

pub record RdmaBuffer : Type 0 where
  pub buffer : ℕ
  pub cas_buffer : ℕ
  pub lock_buffer : ℕ
  pub leaf_buffer : ℕ
  pub segment_buffer : ℕ
  pub metadata_buffer : ℕ
  pub entry_buffer : ℕ
  pub block_buffer : ℕ
  pub zero_byte : ℕ
  pub zero_8_byte : ℕ
  pub range_buffer : ℕ
  pub cas_buffer_cur : ℕ
  pub lock_buffer_cur : ℕ
  pub leaf_buffer_cur : ℕ
  pub segment_buffer_cur : ℕ
  pub metadata_buffer_cur : ℕ
  pub entry_buffer_cur : ℕ

-- `none` where the assertion fails
unfoldable pub set_buffer : ℕ → Option RdmaBuffer
set_buffer buffer =
    let cas = buffer in
    let lock = cas + 8 * cas_buffer_cnt in
    let leaf = lock + 8 * lock_buffer_cnt in
    let segment = leaf + allocation_leaf_size * leaf_buffer_cnt in
    let metadata = segment + allocation_leaf_size * segment_buffer_cnt in
    let entry = metadata + buffer_metadata_size * header_buffer_cnt in
    let block = entry + buffer_entry_size * entry_buffer_cnt in
    let zero_byte = block + buffer_block_size * block_buffer_cnt in
    let zero_8_byte = zero_byte + 1 in
    let range = zero_8_byte + 8 in
    if ltb range (buffer + per_coro_rdma_buf)
    then some (record {
      buffer = buffer;
      cas_buffer = cas;
      lock_buffer = lock;
      leaf_buffer = leaf;
      segment_buffer = segment;
      metadata_buffer = metadata;
      entry_buffer = entry;
      block_buffer = block;
      zero_byte = zero_byte;
      zero_8_byte = zero_8_byte;
      range_buffer = range;
      cas_buffer_cur = 0;
      lock_buffer_cur = 0;
      leaf_buffer_cur = 0;
      segment_buffer_cur = 0;
      metadata_buffer_cur = 0;
      entry_buffer_cur = 0;
    })
    else none

-- The methods return the address of the next buffer of the ring.
unfoldable pub get_cas_buffer : RdmaBuffer → ℕ × RdmaBuffer
get_cas_buffer b =
    let cur = (b.cas_buffer_cur + 1) % cas_buffer_cnt in
    (b.cas_buffer + cur * 8, record b { cas_buffer_cur = cur })

unfoldable pub get_lock_buffer : RdmaBuffer → ℕ × RdmaBuffer
get_lock_buffer b =
    let cur = (b.lock_buffer_cur + 1) % lock_buffer_cnt in
    (b.lock_buffer + cur * 8, record b { lock_buffer_cur = cur })

unfoldable pub get_leaf_buffer : RdmaBuffer → ℕ × RdmaBuffer
get_leaf_buffer b =
    let cur = (b.leaf_buffer_cur + 1) % leaf_buffer_cnt in
    (b.leaf_buffer + cur * allocation_leaf_size, record b { leaf_buffer_cur = cur })

unfoldable pub get_segment_buffer : RdmaBuffer → ℕ × RdmaBuffer
get_segment_buffer b =
    let cur = (b.segment_buffer_cur + 1) % segment_buffer_cnt in
    (b.segment_buffer + cur * allocation_leaf_size, record b { segment_buffer_cur = cur })

unfoldable pub get_metadata_buffer : RdmaBuffer → ℕ × RdmaBuffer
get_metadata_buffer b =
    let cur = (b.metadata_buffer_cur + 1) % header_buffer_cnt in
    (b.metadata_buffer + cur * buffer_metadata_size, record b { metadata_buffer_cur = cur })

unfoldable pub get_entry_buffer : RdmaBuffer → ℕ × RdmaBuffer
get_entry_buffer b =
    let cur = (b.entry_buffer_cur + 1) % entry_buffer_cnt in
    (b.entry_buffer + cur * buffer_entry_size, record b { entry_buffer_cur = cur })

abbrev pub get_range_buffer : RdmaBuffer → ℕ
get_range_buffer b = b.range_buffer
