-- ===== src/Version/Segments/Slices.antt =====
-- The slice of a node's image that get_offset_info names is the image of the records it is asked
-- for, so that decode_segment_versions reads them.
use mathlib.Core.Path.{subst}
use riiver_rolex.Base.{
  ℕ, ◌+◌, ◌-◌, ◌*◌, ◌/◌, ◌%◌, ◌≤◌, ◌<◌, min, ◌≡◌, sym, ap, ◌∙◌, some, List, arith, length, get_or,
  take, drop, length-take, length-drop, dec_lt, ℕ_discrete,
}
use riiver_rolex.Base.{get_or-drop, by_elements, get_or-take}
use riiver_rolex.Layout.{decoded_leaf_size}
use riiver_rolex.Version.{encode_blocks, decode_blocks, first_offset, node_obj}
use riiver_rolex.Version.Blocks.{decode_blocks-encode_blocks}
use riiver_rolex.Version.Accept.{node_obj_records}
use riiver_rolex.Version.Nodes.{node_obj-StartsBefore}
use riiver_rolex.Version.Segments.{segment_obj, get_offset_info}
use riiver_rolex.Version.Segments.Places.{
  block_index, length-encode_blocks, get_or-encode_blocks, copied, at_version, in_block,
  index_in_segment, segment_obj-StartsBefore, segment_of,
}

module _ (start num : ℕ) (fits : start + num ≤ 16) (nonempty : 0 < num) where
  raw_end : (get_offset_info start num).raw_offset + (get_offset_info start num).raw_length ≤ 285
  unfolding get_offset_info
  raw_end = ground arith

  raw_size :
      (get_offset_info start num).raw_length
      ≡ 17 * num + (17 * num - (get_offset_info start num).first + 62) / 63
  unfolding get_offset_info
  raw_size = ground arith

  -- The number of versions before the segment, and the bytes up to the next one.
  offsets :
      ((get_offset_info start num).raw_offset ≡ 9 + 17 * start + (17 * start - 55 + 62) / 63)
      × ((get_offset_info start num).first
          ≡ min (64 + 63 * ((17 * start - 55 + 62) / 63) - (9 + 17 * start)) (17 * num))
  unfolding get_offset_info
  offsets = (ground arith, ground arith)

  -- The bytes of the segment before its first version.
  node_copied :
      {off first : ℕ} (p : ℕ)
      → p < first
      → off ≡ 9 + 17 * start + (17 * start - 55 + 62) / 63
      → first ≡ min (64 + 63 * ((17 * start - 55 + 62) / 63) - (9 + 17 * start)) (17 * num)
      → off + p < 285
      → block_index node_obj first_offset (off + p) ≡ 9 + 17 * start + p
  node_copied {off} {first} p l o f lt = elim (dec_lt (off + p) 64) [
    | yes h ↦ copied node_obj 64 (off + p) h ∙ omega arith
    | no h ↦ in_block node_obj 64 (off + p) (omega arith) (λ e. omega arith) ∙ omega arith
  ]

  index_in_node :
      (p : ℕ)
      → p < (get_offset_info start num).raw_length
      → block_index node_obj first_offset ((get_offset_info start num).raw_offset + p)
        ≡ 9 + 17 * start + block_index segment_obj (get_offset_info start num).first p
  index_in_node p lt =
      let first = (get_offset_info start num).first in
      let off = (get_offset_info start num).raw_offset in
      let o : off ≡ 9 + 17 * start + (17 * start - 55 + 62) / 63 = offsets.0 in
      let f : first ≡ min (64 + 63 * ((17 * start - 55 + 62) / 63) - (9 + 17 * start)) (17 * num) =
        offsets.1 in
      let size = raw_size in
      elim (dec_lt p first) [
        | yes l ↦
            node_copied p l o f (omega arith)
            ∙ ap (λ t. 9 + 17 * start + t) (sym (copied segment_obj first p l))
        | no g ↦ elim (ℕ_discrete ((p - first) % 64) 0) [
          | yes z ↦
              let here : (off + p - 64) % 64 ≡ 0 = omega arith in
              let k = (off + p - 64) / 64 in
              let from : 64 + 63 * k ≡ 9 + (55 + 63 * k) = omega arith in
              at_version node_obj 64 (off + p) (omega arith) here
              ∙ ap node_obj from
              ∙ node_obj_records (55 + 63 * k)
              ∙ omega arith
              ∙ ap (λ t. 9 + 17 * start + t) (sym (at_version segment_obj first p (omega arith) z))
          | no y ↦
              in_block node_obj 64 (off + p) (omega arith) (λ e. omega arith)
              ∙ omega arith
              ∙ ap (λ t. 9 + 17 * start + t) (sym (in_block segment_obj first p (omega arith) y))
        ]
      ]

  module _ (bytes : List ℕ) (size : length bytes ≡ decoded_leaf_size) where
    length-segment_of : length (segment_of start num bytes) ≡ 17 * num
    length-segment_of =
        let a = length-take (17 * num) (drop (9 + 17 * start) bytes) in
        let b = length-drop (9 + 17 * start) bytes in omega arith

    -- The bytes of the image that get_offset_info names are the image of the segment.
    segment_image :
        take
          (get_offset_info start num).raw_length
          (drop (get_offset_info start num).raw_offset (encode_blocks node_obj first_offset bytes))
        ≡ encode_blocks segment_obj (get_offset_info start num).first (segment_of start num bytes)
    segment_image =
        let off = (get_offset_info start num).raw_offset in
        let n = (get_offset_info start num).raw_length in
        let first = (get_offset_info start num).first in
        let image = encode_blocks node_obj first_offset bytes in
        let seg = segment_of start num bytes in
        let whole : length image ≡ length bytes + (length bytes - 64 + 62) / 63 =
          length-encode_blocks node_obj node_obj-StartsBefore bytes 64 (omega arith) in
        let last : off + n ≤ 285 = raw_end in
        let f : first ≤ 17 * num = let o = offsets.1 in omega arith in
        let s : length seg ≡ 17 * num = length-segment_of in
        let is : n ≡ 17 * num + (17 * num - first + 62) / 63 = raw_size in
        let taken : length (take n (drop off image)) ≡ n =
          let a = length-take n (drop off image) in let b = length-drop off image in omega arith in
        let made : length (encode_blocks segment_obj first seg)
            ≡ length seg + (length seg - first + 62) / 63 =
          length-encode_blocks segment_obj segment_obj-StartsBefore seg first (omega arith) in
        by_elements (take n (drop off image)) (encode_blocks segment_obj first seg) 0 (omega arith)
          (λ p h.
            let i = block_index segment_obj first p in
            let inside : i < 17 * num = index_in_segment first (17 * num) p f (omega arith) in
            get_or-take n p (drop off image) 0 (omega arith)
            ∙ get_or-drop off p image 0
            ∙ get_or-encode_blocks node_obj node_obj-StartsBefore bytes 64 (omega arith) (off + p)
                (omega arith)
            ∙ ap (λ t. get_or bytes t 0) (index_in_node p (omega arith))
            ∙ sym (
                get_or-encode_blocks segment_obj segment_obj-StartsBefore seg first (omega arith) p
                  (omega arith)
                ∙ get_or-take (17 * num) i (drop (9 + 17 * start) bytes) 0 inside
                ∙ get_or-drop (9 + 17 * start) i bytes 0))

    pub decode_segment :
        decode_blocks segment_obj (get_offset_info start num).first (17 * num) (
          take (get_offset_info start num).raw_length (
            drop
              (get_offset_info start num).raw_offset
              (encode_blocks node_obj first_offset bytes)))
        ≡ some (segment_of start num bytes)
    decode_segment =
        let first = (get_offset_info start num).first in
        let seg = segment_of start num bytes in
        let f : first ≤ 17 * num = let o = offsets.1 in omega arith in
        let s : length seg ≡ 17 * num = length-segment_of in
        rw segment_image (
          subst
            (λ m.
              decode_blocks segment_obj first m (encode_blocks segment_obj first seg) ≡ some seg)
            s
            (decode_blocks-encode_blocks segment_obj segment_obj-StartsBefore seg first
              (omega arith)))
