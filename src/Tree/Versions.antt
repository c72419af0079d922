-- ===== src/Tree/Versions.antt =====
-- What a node reads back as after it was written: its node versions moved on, and nothing else.
use riiver_rolex.Base.{
  ℕ, ◌<◌, ◌≡◌, refl, ◌∙◌, inl, inr, Option, none, some, List, [], ◌∷◌, map, arith, length-map,
}
use riiver_rolex.Leaf.{LeafEntry, LeafNode, next_null}
use riiver_rolex.Leaf.Order.{live, AllNull, IsOrdered}
use riiver_rolex.Leaf.Synonym.{contents, IsSorted, IsPair, SynSorted}
use riiver_rolex.Codec.{
  All, FitsEntry, IsStorable, set_entry_version, next_node_version, increment_node_versions,
}

module _ (n : ℕ) where
  live-map : (rs : List LeafEntry) → live (map (set_entry_version n) rs) ≡ live rs
  unfolding live
  live-map [] = refl
  live-map (e ∷ es) = rw (live-map es)

  next_null-map :
      (rs : List LeafEntry) → next_null 0 (map (set_entry_version n) rs) ≡ next_null 0 rs
  unfolding next_null
  next_null-map [] = refl
  next_null-map (e ∷ es) = rw (next_null-map es)

  AllNull-map : (rs : List LeafEntry) → AllNull rs → AllNull (map (set_entry_version n) rs)
  AllNull-map [] h = tt
  AllNull-map (e ∷ es) h = (h.0, AllNull-map es h.1)

  IsOrdered-map :
      (lo : ℕ) (rs : List LeafEntry) → IsOrdered lo rs → IsOrdered lo (map (set_entry_version n) rs)
  IsOrdered-map lo [] h = tt
  IsOrdered-map lo (e ∷ es) (inl h) = inl (h.0, IsOrdered-map e.key es h.1)
  IsOrdered-map lo (e ∷ es) (inr h) = inr (AllNull-map (e ∷ es) h)

  FitsEntry-map :
      (rs : List LeafEntry)
      → n < 16
      → All FitsEntry rs
      → All FitsEntry (map (set_entry_version n) rs)
  FitsEntry-map [] lt h = tt
  FitsEntry-map (e ∷ es) lt h = (
    record {
      version = record { node = lt; entry = h.0.version.entry };
      key = h.0.key;
      value = h.0.value;
    },
    FitsEntry-map es lt h.1,
  )

pub next_node_version-lt : (rs : List LeafEntry) → next_node_version rs < 16
unfolding next_node_version
next_node_version-lt [] = omega arith
next_node_version-lt (e ∷ es) = omega arith

module _ (l : LeafNode) where
  pub increment-live : live (increment_node_versions l).records ≡ live l.records
  unfolding increment_node_versions
  increment-live = live-map _ l.records

  pub increment-ptr : (increment_node_versions l).metadata.synonym_ptr ≡ l.metadata.synonym_ptr
  unfolding increment_node_versions
  increment-ptr = refl

  increment-next_null : next_null 0 (increment_node_versions l).records ≡ next_null 0 l.records
  unfolding increment_node_versions
  increment-next_null = next_null-map _ l.records

  pub increment-IsSorted : IsSorted l → IsSorted (increment_node_versions l)
  unfolding increment_node_versions
  increment-IsSorted h = record {
    size = length-map l.records _ ∙ h.size;
    ordered = IsOrdered-map _ 0 l.records h.ordered;
  }

  pub increment-IsStorable : IsStorable l → IsStorable (increment_node_versions l)
  unfolding increment_node_versions
  increment-IsStorable h = record {
    size = length-map l.records _ ∙ h.size;
    version = record { node = next_node_version-lt l.records; entry = h.version.entry };
    node_id = h.node_id;
    offset = h.offset;
    entries = FitsEntry-map _ l.records (next_node_version-lt l.records) h.entries;
  }

-- The leaf was written.
pub increment_leaf :
    (l : LeafNode) (syn : Option LeafNode)
    → IsPair l syn
    → IsPair (increment_node_versions l) syn
      × (contents (increment_node_versions l) syn ≡ contents l syn)
increment_leaf l syn p = (
  record {
    leaf = increment-IsSorted l p.leaf;
    synonym = behind syn p.synonym;
    increasing = rw (increment-live l) p.increasing;
  },
  rw (increment-live l) refl,
)
  where
    behind : (syn : Option LeafNode) → SynSorted l syn → SynSorted (increment_node_versions l) syn
    behind none h = tt
    behind (some m) h = (h.0, increment-next_null l ∙ h.1)

-- The synonym leaf was written.
pub increment_syn :
    (l m : LeafNode)
    → IsPair l (some m)
    → IsPair l (some (increment_node_versions m))
      × (contents l (some (increment_node_versions m)) ≡ contents l (some m))
increment_syn l m p = (
  record {
    leaf = p.leaf;
    synonym = (increment-IsSorted m p.synonym.0, p.synonym.1);
    increasing = rw (increment-live m) p.increasing;
  },
  rw (increment-live m) refl,
)
