-- ===== src/Tree/Finish.antt =====
-- What RolexIndex::insert of src/Rolex.cpp writes after its local step.
use riiver_rolex.Base.{
  ℕ, ◌-◌, ◌^◌, ◌≡◌, refl, ap, inl, inr, true, false, Option, none, some, Bool-cases, Option-cases,
  length,
}
use riiver_rolex.Address.{GlobalAddress, addr_eq, addr_eq_iff}
use riiver_rolex.Leaf.{LeafNode, leaf_span_size}
use riiver_rolex.Leaf.Local.{Staged}
use riiver_rolex.Cache.{RolexCache, InsertRange}
use riiver_rolex.Codec.{Codec, IsStorable, All, FitsEntry, increment_node_versions}
use riiver_rolex.Tree.{Dsm, write_at, unlock_node, write_nodes_and_unlock, staged_nodes}
use riiver_rolex.Tree.Spec.{Node, leaf_address}
use riiver_rolex.Tree.Outcome.{locked}

-- The leaf that an insertion goes to, and its synonym leaf.
abbrev pub home_address : InsertRange → GlobalAddress
home_address g = leaf_address g.insert_idx

abbrev pub home_leaf : (ℕ → Node) → InsertRange → LeafNode
home_leaf σ g = (σ g.insert_idx).leaf

abbrev pub home_syn : (ℕ → Node) → InsertRange → Option LeafNode
home_syn σ g = (σ g.insert_idx).syn

-- The fields of a staged leaf that lies where the old one did.
pub staged_IsStorable :
    (l m : LeafNode)
    → IsStorable m
    → length l.records ≡ leaf_span_size
    → l.metadata ≡ m.metadata
    → All FitsEntry l.records
    → IsStorable l
staged_IsStorable l m st size e fits = record {
  size = size;
  version = rw e st.version;
  node_id = rw e st.node_id;
  offset = rw e st.offset;
  entries = fits;
}

module _ {Raw A : Type 0} (codec : Codec Raw) where
  pub read_back :
      (s' : Dsm Raw A) (a : GlobalAddress) (l : LeafNode)
      → IsStorable l
      → s'.mem a ≡ codec.encode l
      → codec.decode (s'.mem a) ≡ some (increment_node_versions l)
  read_back s' a l st e = rw (e, codec.decode-encode l st)

module _ {Raw A : Type 0} (s : Dsm Raw A) (at : GlobalAddress) where
  unfoldable pub relocked : GlobalAddress → ℕ
  relocked = write_at (write_at s.lock at (2 ^ 64 - 1)) at (s.lock at)

  pub relock : (a : GlobalAddress) → relocked a ≡ s.lock a
  unfolding relocked
  relock a = elim (Bool-cases (addr_eq at a)) [
    | inl e ↦ rw e (ap s.lock ((addr_eq_iff at a).0 e))
    | inr e ↦ rw e refl
  ]

module _ {Raw A : Type 0} (codec : Codec Raw) (cache : RolexCache) (s : Dsm Raw A)
    (at : GlobalAddress) where
  -- What the operation does with the outcome of its local step.
  unfoldable pub finish : Option (Staged A) → Dsm Raw A
  finish none = unlock_node codec (locked codec cache s at) at (s.lock at)
  finish (some t) =
      write_nodes_and_unlock codec (record (locked codec cache s at) { heap = t.heap })
        (staged_nodes codec cache at t) at (s.lock at)

  module _ (t : Staged A) where
    pub finish_leaf :
        t.write_leaf ≡ true
        → t.write_syn_leaf ≡ false
        → finish (some t) ≡ record {
          mem = write_at s.mem at (codec.encode t.leaf);
          lock = relocked s at;
          heap = t.heap;
        }
    unfolding finish write_nodes_and_unlock staged_nodes relocked
    finish_leaf a b =
        rw (a, staged_nodes)
          (elim (Option-cases t.syn_leaf) [
            | inl e ↦ rw (e, staged_nodes) refl
            | inr (m, e) ↦ rw (e, staged_nodes, b) refl
          ])

    pub finish_both :
        (m : LeafNode)
        → t.syn_leaf ≡ some m
        → t.write_leaf ≡ true
        → t.write_syn_leaf ≡ true
        → finish (some t) ≡ record {
          mem = write_at (write_at s.mem at (codec.encode t.leaf)) t.syn_addr (codec.encode m);
          lock = relocked s at;
          heap = t.heap;
        }
    unfolding finish write_nodes_and_unlock staged_nodes relocked
    finish_both m e a b = rw (a, e, b) refl

    pub finish_syn :
        (m : LeafNode)
        → t.syn_leaf ≡ some m
        → t.write_leaf ≡ false
        → t.write_syn_leaf ≡ true
        → finish (some t) ≡ record {
          mem = write_at s.mem t.syn_addr (codec.encode m);
          lock = relocked s at;
          heap = t.heap;
        }
    unfolding finish write_nodes_and_unlock staged_nodes relocked
    finish_syn m e a b = rw (a, e, b) refl
