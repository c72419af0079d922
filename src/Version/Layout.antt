-- ===== src/Version/Layout.antt =====
-- The bytes of a leaf node (include/LeafNode.h: packed classes without padding) and of a version
-- (PackedVersion in include/Metadata.h), on a little-endian machine. A key lies in memory as its
-- array of bytes, the most significant first.
use mathlib.Core.Path.{subst}
use riiver_rolex.Base.{
  ℕ, zero, suc, ◌+◌, ◌*◌, ◌/◌, ◌%◌, ◌^◌, ◌<◌, ◌≡◌, refl, List, [], ◌∷◌, ◌++◌, arith, length, get_or,
  take, drop,
}
use riiver_rolex.Address.{GlobalAddress, to_uint64, of_uint64}
use riiver_rolex.Address.Packing.{of_uint64-to_uint64}
use riiver_rolex.Key.{int2key_from, key2int}
use riiver_rolex.Key.Order.{key2int-int2key_from}
use riiver_rolex.Leaf.{PackedVersion, LeafEntry, LeafMetadata, LeafNode, leaf_span_size}
use riiver_rolex.Codec.{FitsVersion, FitsEntry, All, IsStorable}

unfoldable pub bytes_of : ℕ → ℕ → List ℕ
bytes_of zero x = []
bytes_of (suc n) x = (x % 256) ∷ bytes_of n (x / 256)

unfoldable pub number_of : List ℕ → ℕ
number_of [] = 0
number_of (b ∷ bs) = b + 256 * number_of bs

abbrev pub version_byte : PackedVersion → ℕ
version_byte v = v.node_version + 16 * v.entry_version

abbrev pub read_version : ℕ → PackedVersion
read_version b = record { node_version = b % 16; entry_version = b / 16 % 16 }

unfoldable pub entry_bytes : LeafEntry → List ℕ
unfolding bytes_of int2key_from
entry_bytes e = version_byte e.h_version ∷ (int2key_from e.key 8 ++ bytes_of 8 e.value)

unfoldable pub read_entry : List ℕ → LeafEntry
unfolding number_of
read_entry bytes = record {
  h_version = read_version (get_or bytes 0 0);
  key = key2int (take 8 (drop 1 bytes));
  value = number_of (take 8 (drop 9 bytes));
}

unfoldable pub entries_bytes : List LeafEntry → List ℕ
unfolding entry_bytes
entries_bytes [] = []
entries_bytes (e ∷ es) = entry_bytes e ++ entries_bytes es

unfoldable pub read_entries : ℕ → List ℕ → List LeafEntry
unfolding read_entry
read_entries zero bytes = []
read_entries (suc n) bytes = read_entry bytes ∷ read_entries n (drop 17 bytes)

unfoldable pub metadata_bytes : LeafMetadata → List ℕ
unfolding bytes_of
metadata_bytes m = version_byte m.h_version ∷ bytes_of 8 (to_uint64 m.synonym_ptr)

unfoldable pub read_metadata : List ℕ → LeafMetadata
unfolding number_of
read_metadata bytes = record {
  h_version = read_version (get_or bytes 0 0);
  synonym_ptr = of_uint64 (number_of (take 8 (drop 1 bytes)));
}

unfoldable pub node_bytes : LeafNode → List ℕ
unfolding metadata_bytes entries_bytes
node_bytes l = metadata_bytes l.metadata ++ entries_bytes l.records

unfoldable pub read_node : List ℕ → LeafNode
unfolding read_metadata read_entries
read_node bytes = record {
  metadata = read_metadata bytes;
  records = read_entries leaf_span_size (drop 9 bytes);
}

number_of-bytes_of : (x : ℕ) → x < 2 ^ 64 → number_of (bytes_of 8 x) ≡ x
unfolding number_of bytes_of
number_of-bytes_of x lt = omega arith

read_version-version_byte : (v : PackedVersion) → FitsVersion v → read_version (version_byte v) ≡ v
read_version-version_byte v f =
    let a = f.node in
    let b = f.entry in
    let e : (v.node_version + 16 * v.entry_version) % 16 ≡ v.node_version = omega arith in
    let g : (v.node_version + 16 * v.entry_version) / 16 % 16 ≡ v.entry_version = omega arith in
    rw (e, g) refl

pub read_entry-entry_bytes :
    (e : LeafEntry) (rest : List ℕ) → FitsEntry e → read_entry (entry_bytes e ++ rest) ≡ e
unfolding read_entry entry_bytes int2key_from bytes_of
read_entry-entry_bytes e rest f =
    let v : read_version (version_byte e.h_version) ≡ e.h_version =
      read_version-version_byte e.h_version f.version in
    let k : key2int (int2key_from e.key 8) ≡ e.key = key2int-int2key_from e.key f.key in
    let x : number_of (bytes_of 8 e.value) ≡ e.value = number_of-bytes_of e.value f.value in
    rw (v, k, x) refl

pub drop-entry_bytes : (e : LeafEntry) (rest : List ℕ) → drop 17 (entry_bytes e ++ rest) ≡ rest
unfolding entry_bytes int2key_from bytes_of
drop-entry_bytes e rest = refl

read_entries-entries_bytes :
    (es : List LeafEntry) → All FitsEntry es → read_entries (length es) (entries_bytes es) ≡ es
unfolding read_entries entries_bytes
read_entries-entries_bytes [] f = refl
read_entries-entries_bytes (e ∷ es) f =
    rw
      (
        read_entry-entry_bytes e (entries_bytes es) f.0,
        drop-entry_bytes e (entries_bytes es),
        read_entries-entries_bytes es f.1,
      )
      refl

to_uint64-lt : (a : GlobalAddress) → a.node_id < 2 ^ 16 → a.offset < 2 ^ 48 → to_uint64 a < 2 ^ 64
unfolding to_uint64
to_uint64-lt a n o = omega arith

pub read_node-node_bytes : (l : LeafNode) → IsStorable l → read_node (node_bytes l) ≡ l
unfolding read_node node_bytes metadata_bytes read_metadata bytes_of
read_node-node_bytes l st =
    let v : read_version (version_byte l.metadata.h_version) ≡ l.metadata.h_version =
      read_version-version_byte l.metadata.h_version st.version in
    let a = st.node_id in
    let b = st.offset in
    let x : number_of (bytes_of 8 (to_uint64 l.metadata.synonym_ptr))
        ≡ to_uint64 l.metadata.synonym_ptr =
      number_of-bytes_of (to_uint64 l.metadata.synonym_ptr)
        (to_uint64-lt l.metadata.synonym_ptr a b) in
    let es : read_entries leaf_span_size (entries_bytes l.records) ≡ l.records =
      subst (λ n. read_entries n (entries_bytes l.records) ≡ l.records) st.size
        (read_entries-entries_bytes l.records st.entries) in
    rw (v, x, of_uint64-to_uint64 l.metadata.synonym_ptr (record { node_id = a; offset = b }), es)
      refl

length-entries_bytes : (es : List LeafEntry) → length (entries_bytes es) ≡ 17 * length es
unfolding entries_bytes entry_bytes int2key_from bytes_of
length-entries_bytes [] = refl
length-entries_bytes (e ∷ es) =
    let h : length (entries_bytes es) ≡ 17 * length es = length-entries_bytes es in omega arith

pub length-node_bytes : (l : LeafNode) → length (node_bytes l) ≡ 9 + 17 * length l.records
unfolding node_bytes metadata_bytes bytes_of
length-node_bytes l =
    let h : length (entries_bytes l.records) ≡ 17 * length l.records =
      length-entries_bytes l.records in
    omega arith

-- Where the versions are.
pub metadata-version :
    (l : LeafNode) → get_or (node_bytes l) 0 0 ≡ version_byte l.metadata.h_version
unfolding node_bytes metadata_bytes bytes_of
metadata-version l = refl

pub drop-node_bytes : (l : LeafNode) → drop 9 (node_bytes l) ≡ entries_bytes l.records
unfolding node_bytes metadata_bytes bytes_of
drop-node_bytes l = refl

pub head-entry_bytes :
    (e : LeafEntry) (rest : List ℕ) → get_or (entry_bytes e ++ rest) 0 0 ≡ version_byte e.h_version
unfolding entry_bytes int2key_from bytes_of
head-entry_bytes e rest = refl
