-- ===== src/Version/Segments.antt =====
-- The parts of a node that include/VersionManager.h reads and writes without the rest: one record,
-- the records from one index to another, the header. Their bytes are a slice of the node's bytes,
-- and `get_offset_info` says where the slice of the image lies.
pub mod Places
pub mod Slices
pub mod Read
use riiver_rolex.Base.{
  ℕ, zero, suc, ◌+◌, ◌-◌, ◌*◌, ◌/◌, ◌%◌, ◌^◌, ◌≤◌, ◌<◌, min, max, ◌≡◌, refl, sym, ap, ◌∙◌, ◌≢◌, ◌↔◌,
  ◌⊎◌, inl, inr, Bool, true, false, not, ◌&&◌, ◌||◌, Option, none, some, List, [], ◌∷◌, ◌++◌, map,
  arith, ltb, leb, ◌==◌, if◌then◌else◌, Bool-cases, Option-cases, length, get_elem?, set, get_or,
  take, drop, replicate, length-append, length-set, length-take, length-drop, length-replicate,
  length-map, ==_iff, dec_lt, ℕ_discrete, get_elem?-set_self, get_elem?-set_ne, take-append-drop,
  ltb→lt, lt→ltb, ◌>>=◌,
}
use riiver_rolex.Layout.{
  cacheline_size, block_size, version_size, leaf_metadata_size, leaf_entry_size, decoded_leaf_size,
}
use riiver_rolex.Version.{
  encode_blocks, decode_blocks, first_offset, node_version_of, entries_consistent,
}

-- `++ obj_version.entry_version`, on a byte with both versions: four bits
abbrev pub next_entry_version : ℕ → ℕ
next_entry_version b = b % 16 + 16 * ((b / 16 + 1) % 16)

-- `entries[idx].h_version` of the bytes
unfoldable pub increment_at : List ℕ → ℕ → List ℕ
increment_at bytes idx =
    let i = idx * leaf_entry_size in set bytes i (next_entry_version (get_or bytes i 0))

-- the loop on `hopped_idxes`
unfoldable pub increment_hopped : List ℕ → List ℕ → ℕ → ℕ → List ℕ
unfolding increment_at
increment_hopped bytes [] l_idx r_idx = bytes
increment_hopped bytes (hopped_idx ∷ idxes) l_idx r_idx =
    let next =
      if leb l_idx hopped_idx && leb hopped_idx r_idx
      then increment_at bytes (hopped_idx - l_idx)
      else bytes in
    increment_hopped next idxes l_idx r_idx

-- The version of the record, of records that start at 0, that byte `i` lies in.
abbrev pub segment_obj : ℕ → ℕ
segment_obj i = i / leaf_entry_size * leaf_entry_size

-- `encode_entry_versions`
unfoldable pub encode_entry_versions : List ℕ → ℕ → List ℕ
unfolding increment_at encode_blocks
encode_entry_versions input first = encode_blocks (λ i. 0) first (increment_at input 0)

-- `encode_segment_versions`
unfoldable pub encode_segment_versions : List ℕ → ℕ → List ℕ → ℕ → ℕ → List ℕ
unfolding increment_hopped encode_blocks
encode_segment_versions input first hopped_idxes l_idx r_idx =
    let segment_len = leaf_entry_size * (r_idx + 1 - l_idx) in
    encode_blocks segment_obj first
      (take segment_len (increment_hopped input hopped_idxes l_idx r_idx))

-- `decode_header_versions`: the bytes and the node version, `none` for `false`
unfoldable pub decode_header_versions : List ℕ → Option (List ℕ × ℕ)
unfolding decode_blocks
decode_header_versions raw = do
  bytes ← decode_blocks (λ i. 0) first_offset leaf_metadata_size raw
  some (bytes, node_version_of (get_or bytes 0 0))

-- `decode_segment_versions`
unfoldable pub decode_segment_versions : List ℕ → ℕ → ℕ → Option (List ℕ × ℕ)
unfolding decode_blocks entries_consistent
decode_segment_versions raw first entry_num = do
  bytes ← decode_blocks segment_obj first (leaf_entry_size * entry_num) raw
  if entries_consistent (node_version_of (get_or bytes 0 0)) (entry_num - 1)
        (drop leaf_entry_size bytes)
      then some (bytes, node_version_of (get_or bytes 0 0))
      else none

pub record OffsetInfo : Type 0 where
  pub raw_offset : ℕ
  pub raw_length : ℕ
  pub first : ℕ

-- `version_cnt` at a distance from the first version
abbrev pub version_cnt : ℕ → ℕ
version_cnt dist = dist / block_size + (if dist % block_size == 0 then 0 else 1)

-- `FIRST_OFFSET + get_raw_distance(decoded - FIRST_OFFSET)`, which is not negative
abbrev pub raw_position : ℕ → ℕ
raw_position decoded =
    if leb decoded first_offset
    then decoded
    else decoded + version_cnt (decoded - first_offset) * version_size

-- `get_offset_info`
unfoldable pub get_offset_info : ℕ → ℕ → OffsetInfo
get_offset_info start_entry_idx entry_num =
    let end_entry_idx = start_entry_idx + entry_num in
    let decoded_start_offset = leaf_metadata_size + leaf_entry_size * start_entry_idx in
    let decoded_end_offset = leaf_metadata_size + leaf_entry_size * end_entry_idx in
    let raw_length = raw_position decoded_end_offset - raw_position decoded_start_offset in
    if ltb decoded_start_offset first_offset
    then record {
      raw_offset = decoded_start_offset;
      raw_length = raw_length;
      first = min (first_offset - decoded_start_offset) (leaf_entry_size * entry_num);
    }
    else (let cnt = version_cnt (decoded_start_offset - first_offset) in
        record {
          raw_offset = decoded_start_offset + cnt * version_size;
          raw_length = raw_length;
          first =
              min (first_offset + cnt * block_size - decoded_start_offset)
                (leaf_entry_size * entry_num);
        })
