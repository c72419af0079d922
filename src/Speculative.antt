-- ===== src/Speculative.antt =====
-- RolexIndex::speculative_read and leaf_entry_read of src/Rolex.cpp (SPECULATIVE_READ, without
-- METADATA_REPLICATION): the read of one record of a leaf, at the index that the cache of hot entries
-- names.
pub mod Entry
pub mod Sound
mod Tests
use riiver_rolex.Base.{
  ℕ, zero, suc, ◌+◌, ◌-◌, ◌*◌, ◌/◌, ◌%◌, ◌^◌, ◌≤◌, ◌<◌, min, max, ◌≡◌, refl, sym, ap, ◌∙◌, ◌≢◌, ◌↔◌,
  ◌⊎◌, inl, inr, Bool, true, false, not, ◌&&◌, ◌||◌, Option, none, some, List, [], ◌∷◌, ◌++◌, map,
  arith, ltb, leb, ◌==◌, if◌then◌else◌, Bool-cases, Option-cases, length, get_elem?, set, get_or,
  take, drop, replicate, length-append, length-set, length-take, length-drop, length-replicate,
  length-map, ◌>>=◌, >>=-eq-some, ==_iff, dec_lt, ℕ_discrete, get_elem?-set_self, get_elem?-set_ne,
  take-append-drop, ltb→lt, lt→ltb,
}
use riiver_rolex.Address.{GlobalAddress}
use riiver_rolex.Key.{Key, key2int}
use riiver_rolex.Layout.{add_cacheline_version_size, leaf_metadata_size, version_size}
use riiver_rolex.Leaf.{LeafEntry, LeafMetadata, leaf_span_size}
use riiver_rolex.Version.Layout.{read_entry, read_metadata}
use riiver_rolex.Version.Segments.{decode_header_versions, decode_segment_versions, get_offset_info}
use riiver_rolex.Hot.{IdxCache, search_idx_from_cache}
use riiver_rolex.Hot.Add.{add_to_cache}

-- `bufferMetadataSize`
abbrev pub buffer_metadata_size : ℕ
buffer_metadata_size = add_cacheline_version_size leaf_metadata_size version_size

-- `leaf_entry_read` of the leaf with the image `image`: the metadata and the record at `idx` of the
-- leaf buffer. Behind the header, the raw buffer holds the bytes `stale` of earlier use. A read that is
-- refused is made again: `none`.
unfoldable pub leaf_entry_read : List ℕ → List ℕ → ℕ → Option (LeafMetadata × LeafEntry)
leaf_entry_read stale image idx =
    let info = get_offset_info idx 1 in
    decode_header_versions (take buffer_metadata_size image ++ stale) >>= λ h.
    decode_segment_versions (take info.raw_length (drop info.raw_offset image)) info.first 1
    >>= λ e. if h.1 == e.1 then some (read_metadata h.0, read_entry e.0) else none

-- What `speculative_read` leaves in `v`, `leaf_addr` and `speculative_idx` where it returns true.
pub record Hit : Type 0 where
  pub value : ℕ
  pub leaf_addr : GlobalAddress
  pub speculative_idx : ℕ

-- From where the record is read; `found` is the place of the hit.
unfoldable pub accept :
    IdxCache
    → List ℕ
    → GlobalAddress
    → Key
    → ℕ
    → LeafEntry
    → (ℕ → Hit)
    → Option (Option Hit × IdxCache × List ℕ)
unfolding add_to_cache
accept c draws leaf_addr k idx entry found =
    let added = add_to_cache c draws leaf_addr idx k in
    if entry.key == key2int k
    then (added >>= λ r. some (some (found entry.value), r.1, r.2))
    else some (none, c, draws)

-- With the images of the nodes, what the raw buffers hold, what lies behind the records of the leaf
-- buffer, which is read at the index of a record of a synonym leaf, and the known synonym leaves.
module _ (mem : GlobalAddress → List ℕ) (stale : List ℕ) (behind : ℕ → LeafEntry)
    (syn_leaf_addrs : GlobalAddress → Option GlobalAddress) where
  unfoldable pub read_at :
      IdxCache → List ℕ → GlobalAddress → Key → ℕ → Option (Option Hit × IdxCache × List ℕ)
  unfolding leaf_entry_read accept
  read_at c draws leaf_addr k idx =
      if ltb idx leaf_span_size
      then (leaf_entry_read stale (mem leaf_addr) idx >>= λ e.
          accept c draws leaf_addr k idx e.1
            (λ v. record { value = v; leaf_addr = leaf_addr; speculative_idx = idx }))
      else elim (syn_leaf_addrs leaf_addr) [
        | none ↦ some (none, c, draws)
        | some syn ↦ leaf_entry_read stale (mem syn) (idx - leaf_span_size) >>= λ e.
            accept c draws leaf_addr k idx (behind idx)
              (λ v. record { value = v; leaf_addr = syn; speculative_idx = idx - leaf_span_size })
      ]

  -- `speculative_read` for the range [l_idx, r_idx]; a `none` in the result stands for false.
  unfoldable pub speculative_read :
      IdxCache → List ℕ → GlobalAddress → ℕ → ℕ → Key → Option (Option Hit × IdxCache × List ℕ)
  unfolding search_idx_from_cache read_at
  speculative_read c draws leaf_addr l_idx r_idx k =
      elim (search_idx_from_cache c leaf_addr l_idx r_idx k) [
        | none ↦ some (none, c, draws)
        | some idx ↦ read_at c draws leaf_addr k idx
      ]
