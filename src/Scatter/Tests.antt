-- ===== src/Scatter/Tests.antt =====
-- Five records from index 6 on, with the metadata before index 8.
use riiver_rolex.Base.{ℕ, ◌≡◌, refl, none, some, List, ◌∷◌, leb, if◌then◌else◌, length, replicate}
use riiver_rolex.Scatter.{encode_segment_metadata, decode_segment_metadata, scatter_offset_info}
use riiver_rolex.Scatter.Nodes.{
  encode_scattered, decode_scattered, set_node_versions, node_places,
  decode_scattered-encode_scattered,
}
use riiver_rolex.Scatter.Groups.{decode_segment_metadata-encode_segment_metadata}

abbrev records : List ℕ
records = replicate 85 7

abbrev metadata : List ℕ
metadata = 33 ∷ replicate 8 0

at_34 : scatter_offset_info 6 5 ≡ (34, 94)
unfolding scatter_offset_info
at_34 = refl

decode_segment_metadata-encode_segment_metadata_example :
    (decode_segment_metadata
        (encode_segment_metadata records (scatter_offset_info 6 5).0 5 metadata)
        (scatter_offset_info 6 5).0
        5
      ≡ some (records, if leb 85 (scatter_offset_info 6 5).0 then none else some metadata))
    × (length (encode_segment_metadata records (scatter_offset_info 6 5).0 5 metadata)
        ≡ (scatter_offset_info 6 5).1)
decode_segment_metadata-encode_segment_metadata_example =
    decode_segment_metadata-encode_segment_metadata records metadata 6 5 refl refl

decode_scattered-encode_scattered_example :
    decode_scattered (encode_scattered (replicate 290 21))
    ≡ some (set_node_versions 6 node_places (replicate 290 21))
decode_scattered-encode_scattered_example =
    decode_scattered-encode_scattered (replicate 290 21) refl
