-- ===== src/Version.antt =====
-- include/VersionManager.h for VersionManager<LeafNode, LeafEntry>, on the bytes of a node: a byte
-- with the version of the object that a cache line starts in stands before every cache line but the
-- first. The other users of the same two loops are in Version.Segments.
pub mod Blocks
pub mod Layout
pub mod Nodes
pub mod Accept
pub mod Torn
pub mod Segments
mod Tests
use riiver_rolex.Base.{
  ℕ, zero, suc, ◌+◌, ◌-◌, ◌*◌, ◌/◌, ◌%◌, ◌^◌, ◌≤◌, ◌<◌, min, max, ◌≡◌, refl, sym, ap, ◌∙◌, ◌≢◌, ◌↔◌,
  ◌⊎◌, inl, inr, Bool, true, false, not, ◌&&◌, ◌||◌, Option, none, some, List, [], ◌∷◌, ◌++◌, map,
  arith, ltb, leb, ◌==◌, if◌then◌else◌, Bool-cases, Option-cases, length, get_elem?, set, get_or,
  take, drop, replicate, length-append, length-set, length-take, length-drop, length-replicate,
  length-map, ==_iff, dec_lt, ℕ_discrete, get_elem?-set_self, get_elem?-set_ne, take-append-drop,
  ltb→lt, lt→ltb, ◌>>=◌,
}
use riiver_rolex.Layout.{
  cacheline_size, block_size, leaf_metadata_size, leaf_entry_size, decoded_leaf_size,
}
use riiver_rolex.Leaf.{leaf_span_size}

-- `for (i = ..., j = ...; i < size; ...)` of the `encode` functions, for `rounds` rounds at most:
-- `obj i` is where the version of the object at byte `i` is.
unfoldable pub encode_from : (ℕ → ℕ) → List ℕ → ℕ → ℕ → List ℕ
encode_from obj bytes zero i = []
encode_from obj bytes (suc rounds) i =
    let rest =
      get_or bytes (obj i) 0
      ∷ (take block_size (drop i bytes) ++ encode_from obj bytes rounds (i + block_size)) in
    if ltb i (length bytes) then rest else []

-- The `encode` functions after they incremented versions: `first` bytes are copied, then the loop.
unfoldable pub encode_blocks : (ℕ → ℕ) → ℕ → List ℕ → List ℕ
unfolding encode_from
encode_blocks obj first bytes = take first bytes ++ encode_from obj bytes (length bytes) first

-- The loop of the `decode` functions: `raw` is the input from `i` on, `out` the output up to `j`.
-- `none` where two versions differ. Bytes behind the end of `raw` read as 0.
unfoldable pub decode_from : (ℕ → ℕ) → ℕ → ℕ → List ℕ → List ℕ → Option (List ℕ)
decode_from obj size zero raw out = if ltb (length out) size then none else some out
decode_from obj size (suc rounds) raw out =
    let next = out ++ take (min block_size (size - length out)) (drop 1 raw) in
    let rest = decode_from obj size rounds (drop (1 + block_size) raw) next in
    if ltb (length out) size
    then (if get_or raw 0 0 == get_or next (obj (length out)) 0 then rest else none)
    else some out

-- The `decode` functions up to the joint check.
unfoldable pub decode_blocks : (ℕ → ℕ) → ℕ → ℕ → List ℕ → Option (List ℕ)
unfolding decode_from
decode_blocks obj first size raw = decode_from obj size size (drop first raw) (take first raw)

-- `FIRST_OFFSET`
abbrev pub first_offset : ℕ
first_offset = min cacheline_size decoded_leaf_size

-- The version of the metadata, or of the record that byte `i` of a node lies in.
abbrev pub node_obj : ℕ → ℕ
node_obj i =
    if ltb i leaf_metadata_size
    then 0
    else leaf_metadata_size + (i - leaf_metadata_size) / leaf_entry_size * leaf_entry_size

-- `node_version` is in the low four bits of a version byte.
abbrev pub node_version_of : ℕ → ℕ
node_version_of b = b % 16

-- `is_consistent &= ...` over `n` records that lie at the start of the bytes
unfoldable pub entries_consistent : ℕ → ℕ → List ℕ → Bool
entries_consistent v zero bytes = true
entries_consistent v (suc n) bytes =
    (v == node_version_of (get_or bytes 0 0)) && entries_consistent v n (drop leaf_entry_size bytes)

unfoldable pub node_consistent : List ℕ → Bool
unfolding entries_consistent
node_consistent bytes =
    let v = node_version_of (get_or bytes leaf_metadata_size 0) in
    (v == node_version_of (get_or bytes 0 0))
    && entries_consistent v leaf_span_size (drop leaf_metadata_size bytes)

-- `decode_node_versions`: `none` for `false`
unfoldable pub decode_node_versions : List ℕ → Option (List ℕ)
decode_node_versions raw = do
  bytes ← decode_blocks node_obj first_offset decoded_leaf_size raw
  if node_consistent bytes then some bytes else none
