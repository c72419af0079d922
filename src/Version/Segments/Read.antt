-- ===== src/Version/Segments/Read.antt =====
-- decode_segment_versions on a part of the image of a node.
use riiver_rolex.Base.{
  ℕ, zero, suc, ◌+◌, ◌-◌, ◌*◌, ◌≤◌, ◌<◌, ◌≡◌, refl, sym, ap, ◌∙◌, true, some, List, [], ◌∷◌, ◌++◌,
  arith, length, get_or, take, drop, ==_iff,
}
use riiver_rolex.Base.{get_or-drop, get_or-take, drop-drop, take_nil, drop_nil, take-take-drop}
use riiver_rolex.Layout.{decoded_leaf_size}
use riiver_rolex.Leaf.{LeafEntry, LeafNode, leaf_span_size}
use riiver_rolex.Codec.{IsStorable, next_node_version, increment_node_versions}
use riiver_rolex.Tree.Versions.{increment-IsStorable}
use riiver_rolex.Key.{int2key_from}
use riiver_rolex.Version.{
  node_consistent, encode_blocks, first_offset, node_obj, node_version_of, entries_consistent,
}
use riiver_rolex.Version.Layout.{
  bytes_of, entries_bytes, entry_bytes, node_bytes, drop-node_bytes, drop-entry_bytes,
}
use riiver_rolex.Version.Nodes.{encode_node_versions, node_size, increment-consistent}
use riiver_rolex.Version.Accept.{node_consistent-version}
use riiver_rolex.Version.Torn.{encoded_version}
use riiver_rolex.Version.Segments.{decode_segment_versions, get_offset_info}
use riiver_rolex.Version.Segments.Places.{segment_of}
use riiver_rolex.Version.Segments.Slices.{decode_segment}

consistent-entries :
    (v n : ℕ) (bytes : List ℕ)
    → ((k : ℕ) → k < n → node_version_of (get_or bytes (17 * k) 0) ≡ v)
    → entries_consistent v n bytes ≡ true
unfolding entries_consistent
consistent-entries v zero bytes h = refl
consistent-entries v (suc n) bytes h =
    let first : node_version_of (get_or bytes 0 0) ≡ v = h 0 (omega arith) in
    rw (first, (==_iff v v).1 refl)
      (consistent-entries v n (drop 17 bytes) (λ k lt.
        let e : 17 + 17 * k ≡ 17 * suc k = omega arith in
        ap node_version_of (get_or-drop 17 (17 * k) bytes 0 ∙ ap (λ i. get_or bytes i 0) e)
        ∙ h (suc k) (omega arith)))

cons-entries_bytes :
    (e : LeafEntry) (es : List LeafEntry)
    → entries_bytes (e ∷ es) ≡ entry_bytes e ++ entries_bytes es
unfolding entries_bytes
cons-entries_bytes e es = refl

take-entry_bytes : (e : LeafEntry) (rest : List ℕ) → take 17 (entry_bytes e ++ rest) ≡ entry_bytes e
unfolding entry_bytes int2key_from bytes_of
take-entry_bytes e rest = refl

nil-entries_bytes : entries_bytes [] ≡ []
unfolding entries_bytes
nil-entries_bytes = refl

drop-entries_bytes :
    (n : ℕ) (es : List LeafEntry) → drop (17 * n) (entries_bytes es) ≡ entries_bytes (drop n es)
drop-entries_bytes zero es = refl
drop-entries_bytes (suc n) [] = rw nil-entries_bytes (drop_nil (17 * suc n))
drop-entries_bytes (suc n) (e ∷ es) =
    let y : 17 * suc n ≡ 17 + 17 * n = omega arith in
    rw (y, cons-entries_bytes e es)
      (sym (drop-drop 17 (17 * n) (entry_bytes e ++ entries_bytes es))
        ∙ ap (drop (17 * n)) (drop-entry_bytes e (entries_bytes es))
        ∙ drop-entries_bytes n es)

take-entries_bytes :
    (n : ℕ) (es : List LeafEntry) → take (17 * n) (entries_bytes es) ≡ entries_bytes (take n es)
take-entries_bytes zero es = sym nil-entries_bytes
take-entries_bytes (suc n) [] = rw nil-entries_bytes (take_nil (17 * suc n))
take-entries_bytes (suc n) (e ∷ es) =
    let y : 17 * suc n ≡ 17 + 17 * n = omega arith in
    let xs = entry_bytes e ++ entries_bytes es in
    rw
      (
        y,
        cons-entries_bytes e es,
        cons-entries_bytes e (take n es),
        sym (take-take-drop 17 (17 * n) xs),
        take-entry_bytes e (entries_bytes es),
        drop-entry_bytes e (entries_bytes es),
        take-entries_bytes n es,
      )
      refl

module _ (bytes : List ℕ) (size : length bytes ≡ decoded_leaf_size)
    (same : node_consistent bytes ≡ true) (start num : ℕ) (fits : start + num ≤ 16)
    (nonempty : 0 < num) where
  segment_versions :
      (k : ℕ)
      → k < num
      → node_version_of (get_or (segment_of start num bytes) (17 * k) 0)
        ≡ node_version_of (get_or bytes 0 0)
  segment_versions k lt =
      let e : 9 + 17 * start + 17 * k ≡ 9 + 17 * (start + k) = omega arith in
      ap node_version_of (
        get_or-take (17 * num) (17 * k) (drop (9 + 17 * start) bytes) 0 (omega arith)
        ∙ get_or-drop (9 + 17 * start) (17 * k) bytes 0
        ∙ ap (λ i. get_or bytes i 0) e)
      ∙ node_consistent-version (start + k) bytes same (omega arith)

  segment_consistent :
      entries_consistent
        (node_version_of (get_or bytes 0 0))
        (num - 1)
        (drop 17 (segment_of start num bytes))
      ≡ true
  segment_consistent =
      consistent-entries (node_version_of (get_or bytes 0 0)) (num - 1)
        (drop 17 (segment_of start num bytes))
        (λ k lt.
          let e : 17 + 17 * k ≡ 17 * suc k = omega arith in
          ap node_version_of (
            get_or-drop 17 (17 * k) (segment_of start num bytes) 0
            ∙ ap (λ i. get_or (segment_of start num bytes) i 0) e)
          ∙ segment_versions (suc k) (omega arith))

  read_segment :
      decode_segment_versions
        (take
          (get_offset_info start num).raw_length
          (drop (get_offset_info start num).raw_offset (encode_blocks node_obj first_offset bytes)))
        (get_offset_info start num).first
        num
      ≡ some (segment_of start num bytes, node_version_of (get_or bytes 0 0))
  unfolding decode_segment_versions
  read_segment =
      rw
        (
          decode_segment start num fits nonempty bytes size,
          segment_versions 0 nonempty,
          segment_consistent,
        )
        refl

segment_records :
    (start num : ℕ) (l : LeafNode)
    → segment_of start num (node_bytes l) ≡ entries_bytes (take num (drop start l.records))
segment_records start num l =
    ap (take (17 * num)) (
      sym (drop-drop 9 (17 * start) (node_bytes l))
      ∙ ap (drop (17 * start)) (drop-node_bytes l)
      ∙ drop-entries_bytes start l.records)
    ∙ take-entries_bytes num (drop start l.records)

encoded_blocks :
    (l : LeafNode)
    → encode_node_versions l
      ≡ encode_blocks node_obj first_offset (node_bytes (increment_node_versions l))
unfolding encode_node_versions
encoded_blocks l = refl

-- The part of a written node that get_offset_info names for some records reads as these records,
-- and the node version that the write gave.
pub decode_segment_versions-encode_node_versions :
    (l : LeafNode) (start num : ℕ)
    → IsStorable l
    → start + num ≤ leaf_span_size
    → 0 < num
    → decode_segment_versions
        (take
          (get_offset_info start num).raw_length
          (drop (get_offset_info start num).raw_offset (encode_node_versions l)))
        (get_offset_info start num).first
        num
      ≡ some (
        entries_bytes (take num (drop start (increment_node_versions l).records)),
        next_node_version l.records,
      )
decode_segment_versions-encode_node_versions l start num st fits nonempty =
    let l' = increment_node_versions l in
    let size : length (node_bytes l') ≡ decoded_leaf_size =
      node_size l' (increment-IsStorable l st).size in
    rw (encoded_blocks l) (
      read_segment (node_bytes l') size (increment-consistent l st.size) start num fits nonempty
      ∙ ap some (rw (segment_records start num l', encoded_version l st) refl))
