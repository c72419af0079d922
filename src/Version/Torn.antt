-- ===== src/Version/Torn.antt =====
-- What decode_node_versions refuses: an image that was read while a node was written.
use riiver_rolex.Base.{
  ℕ, ◌*◌, ◌<◌, ◌≡◌, refl, sym, ap, ◌∙◌, ◌≢◌, inl, inr, none, some, List, arith, Option-cases,
  length, get_or,
}
use riiver_rolex.Leaf.{LeafNode}
use riiver_rolex.Codec.{IsStorable, next_node_version, increment_node_versions}
use riiver_rolex.Tree.Versions.{increment-IsStorable, next_node_version-lt}
use riiver_rolex.Version.{node_version_of, decode_node_versions}
use riiver_rolex.Version.Layout.{node_bytes, metadata-version}
use riiver_rolex.Version.Nodes.{
  node_size, node_blocks, increment-consistent, encode_node_versions, decode_node,
}
use riiver_rolex.Version.Accept.{line, length-encode_blocks, first-encode_blocks}

module _ (l : LeafNode) (st : IsStorable l) where
  length-bytes : length (node_bytes (increment_node_versions l)) ≡ 281
  length-bytes = node_size (increment_node_versions l) (increment-IsStorable l st).size

  length-encode_node_versions : length (encode_node_versions l) ≡ 285
  unfolding encode_node_versions
  length-encode_node_versions =
      length-encode_blocks (node_bytes (increment_node_versions l)) length-bytes

  encoded_accepted :
      decode_node_versions (encode_node_versions l) ≡ some (node_bytes (increment_node_versions l))
  unfolding encode_node_versions decode_node_versions
  encoded_accepted =
      rw
        (
          node_blocks (node_bytes (increment_node_versions l)) length-bytes,
          increment-consistent l st.size,
        )
        refl

  pub encoded_version :
      node_version_of (get_or (node_bytes (increment_node_versions l)) 0 0)
      ≡ next_node_version l.records
  unfolding increment_node_versions
  encoded_version =
      let lt : next_node_version l.records < 16 = next_node_version-lt l.records in
      ap node_version_of (metadata-version (increment_node_versions l)) ∙ omega arith

  encoded_first :
      node_version_of (get_or (encode_node_versions l) 0 0) ≡ next_node_version l.records
  unfolding encode_node_versions
  encoded_first =
      ap node_version_of (first-encode_blocks (node_bytes (increment_node_versions l)) length-bytes)
      ∙ encoded_version

  encoded_line :
      (k : ℕ)
      → k < 5
      → node_version_of (get_or (encode_node_versions l) (64 * k) 0) ≡ next_node_version l.records
  encoded_line k lt =
      line k (encode_node_versions l) (node_bytes (increment_node_versions l)) encoded_accepted
        length-encode_node_versions lt
      ∙ encoded_first

pub torn-refused :
    (l l' : LeafNode) (raw : List ℕ) (i j : ℕ)
    → IsStorable l
    → IsStorable l'
    → next_node_version l.records ≢ next_node_version l'.records
    → length raw ≡ 285
    → i < 5
    → j < 5
    → get_or raw (64 * i) 0 ≡ get_or (encode_node_versions l) (64 * i) 0
    → get_or raw (64 * j) 0 ≡ get_or (encode_node_versions l') (64 * j) 0
    → decode_node raw ≡ none
unfolding decode_node
torn-refused l l' raw i j st st' ne len hi hj at at' =
    elim (Option-cases (decode_node_versions raw)) [
      | inl e ↦ rw e refl
      | inr (bytes, e) ↦ absurd (
          ne (
            sym (encoded_line l st i hi)
            ∙ ap node_version_of (sym at)
            ∙ line i raw bytes e len hi
            ∙ sym (line j raw bytes e len hj)
            ∙ ap node_version_of at'
            ∙ encoded_line l' st' j hj))
    ]
