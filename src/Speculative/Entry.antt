-- ===== src/Speculative/Entry.antt =====
-- The read of one record of a node that was written as a whole.
use riiver_rolex.Base.{
  ℕ, zero, suc, ◌≤◌, ◌<◌, ◌≡◌, refl, ap, ◌∙◌, false, some, List, [], ◌∷◌, ◌++◌, arith, ltb, length,
  get_or, take, drop, length-take, ==_iff,
}
use riiver_rolex.Leaf.{LeafEntry, LeafNode, leaf_span_size, null_entry}
use riiver_rolex.Codec.{All, FitsEntry, IsStorable, next_node_version, increment_node_versions}
use riiver_rolex.Tree.Versions.{increment-IsStorable}
use riiver_rolex.Version.{encode_blocks, decode_blocks, node_version_of}
use riiver_rolex.Version.Layout.{
  bytes_of, entries_bytes, metadata_bytes, node_bytes, read_entry, read_metadata, read_node,
  read_entry-entry_bytes, read_node-node_bytes,
}
use riiver_rolex.Version.Nodes.{encode_node_versions}
use riiver_rolex.Version.Torn.{encoded_version}
use riiver_rolex.Version.Segments.{decode_header_versions}
use riiver_rolex.Version.Segments.Read.{decode_segment_versions-encode_node_versions}
use riiver_rolex.Speculative.{buffer_metadata_size, leaf_entry_read}

-- A buffer that is longer than the header is taken as it is.
short-decode_blocks :
    (bytes : List ℕ) → 9 ≤ length bytes → decode_blocks (λ i. 0) 64 9 (bytes) ≡ some (take 64 bytes)
unfolding decode_blocks
short-decode_blocks bytes h =
    let n : 9 ≤ length (take 64 bytes) = omega (arith, length-take {0} 64 bytes) in
    rw (enough (length (take 64 bytes)) n) refl
  where
    enough : (x : ℕ) → 9 ≤ x → ltb x 9 ≡ false
    enough x le = ground arith

abbrev header : List ℕ → LeafNode → List ℕ
header stale l = take buffer_metadata_size (encode_node_versions l) ++ stale

header-metadata :
    (stale : List ℕ) (l : LeafNode)
    → IsStorable l
    → read_metadata (take 64 (header stale l)) ≡ (increment_node_versions l).metadata
unfolding encode_node_versions encode_blocks node_bytes metadata_bytes bytes_of read_metadata
    read_node
header-metadata stale l st =
    let l' = increment_node_versions l in
    let same : read_metadata (take 64 (header stale l)) ≡ (read_node (node_bytes l')).metadata =
      refl in
    same ∙ ap (λ (x : LeafNode). x.metadata) (read_node-node_bytes l' (increment-IsStorable l st))

header-version :
    (stale : List ℕ) (l : LeafNode)
    → IsStorable l
    → node_version_of (get_or (take 64 (header stale l)) 0 0) ≡ next_node_version l.records
unfolding encode_node_versions encode_blocks node_bytes metadata_bytes bytes_of
header-version stale l st = encoded_version l st

length-header : (stale : List ℕ) (l : LeafNode) → 9 ≤ length (header stale l)
unfolding encode_node_versions encode_blocks node_bytes metadata_bytes bytes_of
length-header stale l = omega arith

read_one :
    (idx : ℕ) (es : List LeafEntry)
    → idx < length es
    → All FitsEntry es
    → read_entry (entries_bytes (take 1 (drop idx es))) ≡ get_or es idx null_entry
unfolding entries_bytes
read_one idx [] lt f = absurd (omega arith)
read_one zero (e ∷ es) lt f = read_entry-entry_bytes e [] f.0
read_one (suc idx) (e ∷ es) lt f = read_one idx es (omega arith) f.1

-- The read of one record of a node that was written as a whole returns its metadata and that record,
-- whatever the buffer held before.
pub leaf_entry_read-encode_node_versions :
    (stale : List ℕ) (l : LeafNode) (idx : ℕ)
    → IsStorable l
    → idx < leaf_span_size
    → leaf_entry_read stale (encode_node_versions l) idx
      ≡ some (
        (increment_node_versions l).metadata,
        get_or (increment_node_versions l).records idx null_entry,
      )
unfolding leaf_entry_read decode_header_versions
leaf_entry_read-encode_node_versions stale l idx st lt =
    let l' = increment_node_versions l in
    let st' = increment-IsStorable l st in
    let v = next_node_version l.records in
    rw
      (
        short-decode_blocks (header stale l) (length-header stale l),
        header-version stale l st,
        decode_segment_versions-encode_node_versions l idx 1 st (omega arith) (omega arith),
        (==_iff v v).1 refl,
        header-metadata stale l st,
        read_one idx l'.records (omega (arith, st'.size)) st'.entries,
      )
      refl
