-- ===== src/Codec.antt =====
-- The image of a node in remote memory, as the operations of src/Rolex.cpp use the version manager:
-- `encode_node_versions` before a write, `decode_node_versions` after a read.
use riiver_rolex.Base.{ℕ, ◌+◌, ◌%◌, ◌^◌, ◌<◌, ◌≡◌, List, [], ◌∷◌, Option, some, map, length}
use riiver_rolex.Leaf.{PackedVersion, LeafEntry, LeafNode, leaf_span_size}

-- The fields fit their widths.
pub record FitsVersion (v : PackedVersion) : Type 0 where
  pub node : v.node_version < 16
  pub entry : v.entry_version < 16

pub record FitsEntry (e : LeafEntry) : Type 0 where
  pub version : FitsVersion e.h_version
  pub key : e.key < 2 ^ 64
  pub value : e.value < 2 ^ 64

abbrev pub All {ℓ κ} : {X : Type ℓ} → (X → Type κ) → List X → Type κ
All P [] = Unit
All P (x ∷ xs) = P x × All P xs

pub record IsStorable (l : LeafNode) : Type 0 where
  pub size : length l.records ≡ leaf_span_size
  pub version : FitsVersion l.metadata.h_version
  pub node_id : l.metadata.synonym_ptr.node_id < 2 ^ 16
  pub offset : l.metadata.synonym_ptr.offset < 2 ^ 48
  pub entries : All FitsEntry l.records

-- The node version of every part is one more than that of the first record.
abbrev pub with_node_version : ℕ → PackedVersion → PackedVersion
with_node_version n v = record v { node_version = n }

unfoldable pub next_node_version : List LeafEntry → ℕ
next_node_version [] = 0
next_node_version (e ∷ es) = (e.h_version.node_version + 1) % 16

abbrev pub set_entry_version : ℕ → LeafEntry → LeafEntry
set_entry_version n e = record e { h_version = with_node_version n e.h_version }

-- What `encode_node_versions` does to the node before it lays it out.
unfoldable pub increment_node_versions : LeafNode → LeafNode
unfolding next_node_version
increment_node_versions l =
    let n = next_node_version l.records in
    record l {
      metadata = record l.metadata { h_version = with_node_version n l.metadata.h_version };
      records = map (set_entry_version n) l.records;
    }

-- What the operations rely on: a node that was written as a whole reads back as it was written.
pub record Codec (Raw : Type 0) : Type 0 where
  pub encode : LeafNode → Raw
  pub decode : Raw → Option LeafNode
  pub decode-encode :
      (l : LeafNode) → IsStorable l → decode (encode l) ≡ some (increment_node_versions l)
