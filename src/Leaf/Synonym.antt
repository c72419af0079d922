-- ===== src/Leaf/Synonym.antt =====
-- A sorted leaf with its synonym leaf, and insert_into_syn_leaf_locally of src/Rolex.cpp on it.
use riiver_rolex.Base.{
  ℕ, ◌<◌, ◌≡◌, refl, ◌≢◌, inl, inr, false, Option, none, some, List, [], ◌∷◌, ◌++◌, arith,
  Bool-cases, Option-cases, length,
}
use riiver_rolex.Address.{GlobalAddress, null_addr, max_addr, addr_eq}
use riiver_rolex.Leaf.{LeafEntry, LeafNode, leaf_span_size, probe, next_null, place, update_at}
use riiver_rolex.Leaf.Order.{live, IsOrdered, Increasing, insert_sorted, lookup, lookup_nil}
use riiver_rolex.Leaf.Shift.{place_lem, length-insert_at}
use riiver_rolex.Leaf.Scan.{probe-none, probe-bounds}
use riiver_rolex.Leaf.Insert.{insert_at-live}
use riiver_rolex.Leaf.Local.{SynResult, Staged, insert_into_syn_leaf_locally, link, with_records}

abbrev pub live_syn : Option LeafNode → List (ℕ × ℕ)
live_syn none = []
live_syn (some m) = live m.records

-- The keys and values of a leaf, then those of its synonym leaf.
abbrev pub contents : LeafNode → Option LeafNode → List (ℕ × ℕ)
contents l syn = live l.records ++ live_syn syn

pub record IsSorted (l : LeafNode) : Type 0 where
  pub size : length l.records ≡ leaf_span_size
  pub ordered : IsOrdered 0 l.records

-- A synonym leaf is there only when the leaf is full.
abbrev pub SynSorted : LeafNode → Option LeafNode → Type 0
SynSorted l none = Unit
SynSorted l (some m) = IsSorted m × (next_null 0 l.records ≡ leaf_span_size)

pub record IsPair (l : LeafNode) (syn : Option LeafNode) : Type 0 where
  pub leaf : IsSorted l
  pub synonym : SynSorted l syn
  pub increasing : Increasing 0 (contents l syn)

-- The synonym leaf, if there is one, is not full.
abbrev pub HasRoom : Option LeafNode → Type 0
HasRoom none = Unit
HasRoom (some m) = next_null 0 m.records < leaf_span_size

-- What the local step promises: nothing for a key that is there; else the sorted insertion.
pub data Inserted {A : Type 0} (k v : ℕ) (l : LeafNode) (syn : Option LeafNode)
    (r : Option (Staged A)) : Type 0 where
  present : lookup k (contents l syn) ≢ none → r ≡ none → Inserted k v l syn r
  placed :
      (t : Staged A)
      → r ≡ some t
      → lookup k (contents l syn) ≡ none
      → contents t.leaf t.syn_leaf ≡ insert_sorted k v (contents l syn)
      → IsPair t.leaf t.syn_leaf
      → Inserted k v l syn r

-- A synonym leaf with room takes a key that it does not have.
pub record SynPlaced {A : Type 0} (k v : ℕ) (syn : Option LeafNode) (r : SynResult A) : Type 0 where
  pub here : addr_eq r.addr max_addr ≡ false
  pub sorted : IsSorted r.syn_leaf
  pub holds : live r.syn_leaf.records ≡ insert_sorted k v (live_syn syn)

module _ {A : Type 0} (alloc : A → GlobalAddress × A) (k v : ℕ) (pos : 0 < k) where
  pub place-live :
      (rs : List LeafEntry) (i : ℕ)
      → IsOrdered 0 rs
      → probe k rs ≡ some i
      → next_null 0 rs < length rs
      → (live (place i (next_null i rs) k v rs) ≡ insert_sorted k v (live rs))
        × IsOrdered 0 (place i (next_null i rs) k v rs)
        × (length (place i (next_null i rs) k v rs) ≡ length rs)
  place-live rs i o e room =
      let (_, _, same) = probe-bounds k 0 i rs pos o e in
      let r = insert_at-live k v pos 0 i rs pos o e (omega arith) in
      rw (place_lem i (next_null i rs) k v rs (omega arith))
        (r.0, r.1, length-insert_at i (next_null i rs) k v rs)

  syn-new :
      (heap : A)
      → addr_eq (alloc heap).0 max_addr ≡ false
      → SynPlaced k v none (insert_into_syn_leaf_locally alloc k v none heap)
  unfolding insert_into_syn_leaf_locally update_at live insert_sorted
  syn-new heap h = record {
    here = h;
    sorted = record { size = refl; ordered = inl (pos, inr (omega arith)) };
    holds = ground arith;
  }

  syn-found :
      (m : LeafNode) (i : ℕ) (heap : A)
      → probe k m.records ≡ some i
      → next_null i m.records < leaf_span_size
      → insert_into_syn_leaf_locally alloc k v (some m) heap ≡ record {
        addr = null_addr;
        syn_leaf = with_records m (place i (next_null i m.records) k v m.records);
        heap = heap;
      }
  unfolding insert_into_syn_leaf_locally
  syn-found m i heap e lt = rw (e, insert_into_syn_leaf_locally) (ground arith)

  syn-old :
      (m : LeafNode) (heap : A)
      → IsSorted m
      → HasRoom (some m)
      → lookup k (live m.records) ≡ none
      → SynPlaced k v (some m) (insert_into_syn_leaf_locally alloc k v (some m) heap)
  syn-old m heap s room absent = elim (Option-cases (probe k m.records)) [
    | inl e ↦ absurd (probe-none k 0 m.records pos s.ordered e absent)
    | inr (i, e) ↦
        let same = (probe-bounds k 0 i m.records pos s.ordered e).2 in
        let size = s.size in
        let r = place-live m.records i s.ordered e (omega arith) in
        rw (syn-found m i heap e (omega arith)) (record {
          here = refl;
          sorted = record { size = omega (arith, r.2); ordered = r.1 };
          holds = r.0;
        })
  ]

  syn-present :
      (m : LeafNode) (heap : A)
      → IsSorted m
      → lookup k (live m.records) ≢ none
      → (insert_into_syn_leaf_locally alloc k v (some m) heap).addr ≡ max_addr
  unfolding insert_into_syn_leaf_locally
  syn-present m heap s there = elim (Option-cases (probe k m.records)) [
    | inl e ↦ rw (e, insert_into_syn_leaf_locally)
    | inr (i, e) ↦ absurd (there (probe-bounds k 0 i m.records pos s.ordered e).0)
  ]

pub link-records : (l : LeafNode) (a : GlobalAddress) → (link l a).records ≡ l.records
link-records l a = elim (Bool-cases (addr_eq a null_addr)) [ inl e ↦ rw e | inr e ↦ rw e ]

pub into_syn :
    {A : Type 0} (alloc : A → GlobalAddress × A) (k v : ℕ) (l : LeafNode) (syn : Option LeafNode)
    (heap : A)
    → addr_eq (alloc heap).0 max_addr ≡ false
    → 0 < k
    → SynSorted l syn
    → HasRoom syn
    → lookup k (live_syn syn) ≡ none
    → SynPlaced k v syn (insert_into_syn_leaf_locally alloc k v syn heap)
into_syn alloc k v l none heap fresh pos s room absent = syn-new alloc k v pos heap fresh
into_syn alloc k v l (some m) heap fresh pos s room absent =
    syn-old alloc k v pos m heap s.0 room absent

pub into_syn_present :
    {A : Type 0} (alloc : A → GlobalAddress × A) (k v : ℕ) (l : LeafNode) (syn : Option LeafNode)
    (heap : A)
    → 0 < k
    → SynSorted l syn
    → lookup k (live_syn syn) ≢ none
    → (insert_into_syn_leaf_locally alloc k v syn heap).addr ≡ max_addr
into_syn_present alloc k v l none heap pos s there = absurd (there (lookup_nil k))
into_syn_present alloc k v l (some m) heap pos s there = syn-present alloc k v pos m heap s.0 there

pub no_synonym :
    (l : LeafNode) (syn : Option LeafNode)
    → SynSorted l syn
    → next_null 0 l.records < leaf_span_size
    → syn ≡ none
no_synonym l none s lt = refl
no_synonym l (some m) s lt = absurd (omega arith)

-- The first of a sorted list's keys comes before the rest.
pub insert_sorted-front :
    (k v : ℕ) (ps : List (ℕ × ℕ)) → Increasing k ps → insert_sorted k v ps ≡ (k, v) ∷ ps
unfolding insert_sorted
insert_sorted-front k v [] h = refl
insert_sorted-front k v ((p, w) ∷ ps) h = ground arith
