-- ===== src/Version/Tests.antt =====
-- A full leaf as bytes.
use riiver_rolex.Base.{
  ℕ, ◌*◌, ◌≡◌, refl, ◌≢◌, none, some, List, ◌++◌, arith, length, get_or, take, drop,
}
use riiver_rolex.Leaf.Tests.{full_leaf, full_leaf-IsStorable}
use riiver_rolex.Codec.{next_node_version, increment_node_versions}
use riiver_rolex.Tree.Versions.{increment-IsStorable}
use riiver_rolex.Version.Layout.{entries_bytes}
use riiver_rolex.Version.Nodes.{encode_node_versions, decode_node, decode_node-encode_node_versions}
use riiver_rolex.Version.Torn.{torn-refused}
use riiver_rolex.Version.Segments.{decode_segment_versions, get_offset_info}
use riiver_rolex.Version.Segments.Read.{decode_segment_versions-encode_node_versions}

length-image : length (encode_node_versions full_leaf) ≡ 285
unfolding encode_node_versions
length-image = refl

decode_node-encode_node_versions_example :
    decode_node (encode_node_versions full_leaf) ≡ some (increment_node_versions full_leaf)
decode_node-encode_node_versions_example =
    decode_node-encode_node_versions full_leaf full_leaf-IsStorable

-- The first line of the old image, the rest of the next one.
abbrev torn : List ℕ
torn =
    take 64 (encode_node_versions full_leaf)
    ++ drop 64 (encode_node_versions (increment_node_versions full_leaf))

length-torn : length torn ≡ 285
unfolding encode_node_versions
length-torn = refl

first_line : get_or torn (64 * 0) 0 ≡ get_or (encode_node_versions full_leaf) (64 * 0) 0
unfolding encode_node_versions
first_line = refl

last_line :
    get_or torn (64 * 4) 0
    ≡ get_or (encode_node_versions (increment_node_versions full_leaf)) (64 * 4) 0
unfolding encode_node_versions
last_line = refl

versions_differ :
    next_node_version full_leaf.records
    ≢ next_node_version (increment_node_versions full_leaf).records
unfolding next_node_version increment_node_versions
versions_differ e = ground arith

torn-refused_example : decode_node torn ≡ none
torn-refused_example =
    torn-refused full_leaf (increment_node_versions full_leaf) torn 0 4 full_leaf-IsStorable
      (increment-IsStorable full_leaf full_leaf-IsStorable) versions_differ length-torn
      (omega arith) (omega arith) first_line last_line

decode_segment_versions-encode_node_versions_example :
    decode_segment_versions
      (take
        (get_offset_info 5 3).raw_length
        (drop (get_offset_info 5 3).raw_offset (encode_node_versions full_leaf)))
      (get_offset_info 5 3).first
      3
    ≡ some (
      entries_bytes (take 3 (drop 5 (increment_node_versions full_leaf).records)),
      next_node_version full_leaf.records,
    )
decode_segment_versions-encode_node_versions_example =
    decode_segment_versions-encode_node_versions full_leaf 5 3 full_leaf-IsStorable (omega arith)
      (omega arith)
