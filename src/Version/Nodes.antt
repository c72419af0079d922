-- ===== src/Version/Nodes.antt =====
-- encode_node_versions and decode_node_versions on nodes: the bytes of the node with its next node
-- version, and a version before every cache line.
use mathlib.Core.Path.{subst}
use riiver_rolex.Base.{get_or-drop}
use riiver_rolex.Base.{
  ℕ, ◌+◌, ◌*◌, ◌<◌, ◌≡◌, refl, sym, ap, ◌∙◌, true, Option, some, List, [], ◌∷◌, ◌++◌, map, arith,
  length, get_or, ==_iff, ◌>>=◌,
}
use riiver_rolex.Layout.{decoded_leaf_size}
use riiver_rolex.Leaf.{PackedVersion, LeafEntry, LeafNode, leaf_span_size}
use riiver_rolex.Codec.{
  Codec, IsStorable, with_node_version, next_node_version, set_entry_version,
  increment_node_versions,
}
use riiver_rolex.Tree.Versions.{next_node_version-lt, increment-IsStorable}
use riiver_rolex.Version.{
  encode_blocks, decode_blocks, first_offset, node_obj, node_version_of, entries_consistent,
  node_consistent, decode_node_versions,
}
use riiver_rolex.Version.Blocks.{StartsBefore, decode_blocks-encode_blocks}
use riiver_rolex.Version.Layout.{
  version_byte, entries_bytes, node_bytes, read_node, read_node-node_bytes, length-node_bytes,
  metadata-version, entry_bytes, drop-node_bytes, head-entry_bytes, drop-entry_bytes,
}

-- `encode_node_versions`
unfoldable pub encode_node_versions : LeafNode → List ℕ
unfolding encode_blocks increment_node_versions node_bytes
encode_node_versions l =
    encode_blocks node_obj first_offset (node_bytes (increment_node_versions l))

-- The operations read the output buffer as a node after `decode_node_versions` accepted it.
unfoldable pub decode_node : List ℕ → Option LeafNode
unfolding decode_node_versions read_node
decode_node raw = do bytes ← decode_node_versions raw; some (read_node bytes)

pub node_obj-StartsBefore : StartsBefore node_obj
node_obj-StartsBefore i = ground arith

node_version_of-version_byte :
    (v : PackedVersion) (n : ℕ)
    → n < 16
    → node_version_of (version_byte (with_node_version n v)) ≡ n
node_version_of-version_byte v n lt = omega arith

entries_consistent-set :
    (n : ℕ) (es : List LeafEntry)
    → n < 16
    → entries_consistent n (length es) (entries_bytes (map (set_entry_version n) es)) ≡ true
unfolding entries_consistent entries_bytes
entries_consistent-set n [] lt = refl
entries_consistent-set n (e ∷ es) lt =
    let rest = entries_bytes (map (set_entry_version n) es) in
    let at : get_or (entry_bytes (set_entry_version n e) ++ rest) 0 0
        ≡ version_byte (with_node_version n e.h_version) =
      head-entry_bytes (set_entry_version n e) rest in
    rw
      (
        at,
        node_version_of-version_byte e.h_version n lt,
        (==_iff n n).1 refl,
        drop-entry_bytes (set_entry_version n e) rest,
      )
      (entries_consistent-set n es lt)

-- The bytes of the first record start with its version.
first_version :
    (n : ℕ) (es : List LeafEntry)
    → n < 16
    → 0 < length es
    → node_version_of (get_or (entries_bytes (map (set_entry_version n) es)) 0 0) ≡ n
unfolding entries_bytes
first_version n [] lt h = absurd (omega arith)
first_version n (e ∷ es) lt h =
    ap node_version_of
      (head-entry_bytes (set_entry_version n e) (entries_bytes (map (set_entry_version n) es)))
    ∙ node_version_of-version_byte e.h_version n lt

pub increment-consistent :
    (l : LeafNode)
    → length l.records ≡ leaf_span_size
    → node_consistent (node_bytes (increment_node_versions l)) ≡ true
unfolding node_consistent increment_node_versions
increment-consistent l st =
    let n = next_node_version l.records in
    let lt : n < 16 = next_node_version-lt l.records in
    let l' = increment_node_versions l in
    let v : node_version_of (get_or (node_bytes l') 9 0) ≡ n =
      ap node_version_of
        (sym (get_or-drop 9 0 (node_bytes l') 0) ∙ ap (λ t. get_or t 0 0) (drop-node_bytes l'))
      ∙ first_version n l.records lt (omega arith) in
    let m : node_version_of (get_or (node_bytes l') 0 0) ≡ n =
      ap node_version_of (metadata-version l')
      ∙ node_version_of-version_byte l.metadata.h_version n lt in
    let es : entries_consistent n leaf_span_size (entries_bytes l'.records) ≡ true =
      subst (λ k. entries_consistent n k (entries_bytes l'.records) ≡ true) st
        (entries_consistent-set n l.records lt) in
    rw (v, m, (==_iff n n).1 refl, drop-node_bytes l') es

pub node_size :
    (l : LeafNode) → length l.records ≡ leaf_span_size → length (node_bytes l) ≡ decoded_leaf_size
node_size l h =
    let e : length (node_bytes l) ≡ 9 + 17 * length l.records = length-node_bytes l in omega arith

pub node_blocks :
    (bytes : List ℕ)
    → length bytes ≡ decoded_leaf_size
    → decode_blocks node_obj first_offset decoded_leaf_size
        (encode_blocks node_obj first_offset bytes)
      ≡ some bytes
node_blocks bytes h =
    subst
      (λ n.
        decode_blocks node_obj first_offset n (encode_blocks node_obj first_offset bytes)
        ≡ some bytes)
      h
      (decode_blocks-encode_blocks node_obj node_obj-StartsBefore bytes first_offset (omega arith))

-- A node that was written as a whole reads back as it was written, with its node versions one
-- further.
pub decode_node-encode_node_versions :
    (l : LeafNode)
    → IsStorable l
    → decode_node (encode_node_versions l) ≡ some (increment_node_versions l)
unfolding decode_node encode_node_versions decode_node_versions
decode_node-encode_node_versions l st =
    let l' = increment_node_versions l in
    let st' : IsStorable l' = increment-IsStorable l st in
    rw
      (
        node_blocks (node_bytes l') (node_size l' st'.size),
        increment-consistent l st.size,
        read_node-node_bytes l' st',
      )
      refl

-- What the operations on the index take.
abbrev pub leaf_codec : Codec (List ℕ)
leaf_codec = record {
  encode = encode_node_versions;
  decode = decode_node;
  decode-encode = decode_node-encode_node_versions;
}
