-- ===== src/Scatter.antt =====
-- include/MetadataManager.h (METADATA_REPLICATION), on the bytes of a segment: a copy of the leaf's
-- metadata stands before every group of 8 records. get_offset_info says where the first copy goes.
-- Nodes is about the whole node of include/LeafVersionManager.h.
pub mod Groups
pub mod Nodes
mod Tests
use riiver_rolex.Base.{
  ℕ, zero, suc, ◌+◌, ◌-◌, ◌*◌, ◌/◌, ◌%◌, ◌^◌, ◌≤◌, ◌<◌, min, max, ◌≡◌, refl, sym, ap, ◌∙◌, ◌≢◌, ◌↔◌,
  ◌⊎◌, inl, inr, Bool, true, false, not, ◌&&◌, ◌||◌, Option, none, some, List, [], ◌∷◌, ◌++◌, map,
  arith, ltb, leb, ◌==◌, if◌then◌else◌, Bool-cases, Option-cases, length, get_elem?, set, get_or,
  take, drop, replicate, length-append, length-set, length-take, length-drop, length-replicate,
  length-map, ==_iff, dec_lt, ℕ_discrete, get_elem?-set_self, get_elem?-set_ne, take-append-drop,
  ltb→lt, lt→ltb, ◌>>=◌,
}
use riiver_rolex.Layout.{leaf_entry_size, leaf_metadata_size}
use riiver_rolex.Hop.{neighbor_size}

-- `define::groupSize`
abbrev pub group_size : ℕ
group_size = leaf_entry_size * neighbor_size

-- `operator==` on LeafMetadata: `strncmp` stops at a zero byte.
unfoldable pub metadata_eq : List ℕ → List ℕ → Bool
metadata_eq (a ∷ as') (b ∷ bs) =
    let rest = metadata_eq as' bs in if a == b then (if a == 0 then true else rest) else false
metadata_eq _ _ = true

-- The loop of encode_segment_metadata, for `rounds` rounds at most.
unfoldable pub encode_groups : List ℕ → List ℕ → ℕ → ℕ → List ℕ
encode_groups m bytes zero i = []
encode_groups m bytes (suc rounds) i =
    let rest =
      m ++ (take group_size (drop i bytes) ++ encode_groups m bytes rounds (i + group_size)) in
    if ltb i (length bytes) then rest else []

-- `encode_segment_metadata`
unfoldable pub encode_segment_metadata : List ℕ → ℕ → ℕ → List ℕ → List ℕ
encode_segment_metadata input first entry_num m =
    let bytes = take (leaf_entry_size * entry_num) input in
    take first bytes ++ encode_groups m bytes (length bytes) first

-- The loop of decode_segment_metadata: `raw` is the input from `i` on, `out` the output up to `j`;
-- `none` where the assertion fails.
unfoldable pub decode_groups : List ℕ → ℕ → ℕ → List ℕ → List ℕ → Option (List ℕ)
decode_groups m size zero raw out = if ltb (length out) size then none else some out
decode_groups m size (suc rounds) raw out =
    let next = out ++ take (min group_size (size - length out)) (drop leaf_metadata_size raw) in
    let rest = decode_groups m size rounds (drop group_size (drop leaf_metadata_size raw)) next in
    if ltb (length out) size
    then (if metadata_eq m (take leaf_metadata_size raw) then rest else none)
    else some out

-- `decode_segment_metadata`: the records, and the metadata if there is a copy in the segment
unfoldable pub decode_segment_metadata : List ℕ → ℕ → ℕ → Option (List ℕ × Option (List ℕ))
decode_segment_metadata input first entry_num =
    let size = leaf_entry_size * entry_num in
    let raw = drop first input in
    let m = take leaf_metadata_size raw in
    let all : Option (List ℕ × Option (List ℕ)) = (do
      out ← decode_groups m size size raw (take first input)
      let read : List ℕ × Option (List ℕ) = (out, some m)
      some read) in
    if leb size first then some (take first input, none) else all

-- `get_offset_info`: first_metadata_offset and new_len
unfoldable pub scatter_offset_info : ℕ → ℕ → ℕ × ℕ
scatter_offset_info start_entry_idx entry_num =
    let segment_len = leaf_entry_size * entry_num in
    let first =
      min ((neighbor_size - start_entry_idx % neighbor_size) % neighbor_size * leaf_entry_size)
        segment_len in
    let remain_len = segment_len - first in
    (
      first,
      segment_len
          + leaf_metadata_size
            * (remain_len / group_size + (if remain_len % group_size == 0 then 0 else 1)),
    )
