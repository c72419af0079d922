-- ===== src/Tree/Shapes.antt =====
-- What the local step of RolexIndex::insert of src/Rolex.cpp may stage, and that its fields fit.
use riiver_rolex.Base.{
  ℕ, zero, suc, ◌^◌, ◌<◌, ◌≡◌, refl, ◌∙◌, ◌⊎◌, inl, inr, true, false, Option, none, some, List, [],
  ◌∷◌, arith, leb, if◌then◌else◌, Bool-cases, Option-cases, set, get_or, replicate,
}
use riiver_rolex.Address.{GlobalAddress, null_addr, max_addr, addr_eq}
use riiver_rolex.Leaf.{LeafEntry, LeafNode, null_entry, new_leaf, probe, shift, place, update_at}
use riiver_rolex.Leaf.Local.{SynResult, Staged, link, insert_into_syn_leaf_locally}
use riiver_rolex.Codec.{FitsEntry, All}

All-set :
    (rs : List LeafEntry) (i : ℕ) (e : LeafEntry)
    → All FitsEntry rs
    → FitsEntry e
    → All FitsEntry (set rs i e)
All-set [] i e h f = tt
All-set (x ∷ rs) zero e h f = (f, h.1)
All-set (x ∷ rs) (suc i) e h f = (h.0, All-set rs i e h.1 f)

null_entry-FitsEntry : FitsEntry null_entry
null_entry-FitsEntry = record {
  version = record { node = omega arith; entry = omega arith };
  key = omega arith;
  value = omega arith;
}

pub All-get_or :
    (rs : List LeafEntry) (i : ℕ) → All FitsEntry rs → FitsEntry (get_or rs i null_entry)
All-get_or [] i h = null_entry-FitsEntry
All-get_or (x ∷ rs) zero h = h.0
All-get_or (x ∷ rs) (suc i) h = All-get_or rs i h.1

All-null : (n : ℕ) → All FitsEntry (replicate n null_entry)
All-null zero = tt
All-null (suc n) = (null_entry-FitsEntry, All-null n)

All-shift : (i j : ℕ) (rs : List LeafEntry) → All FitsEntry rs → All FitsEntry (shift i j rs)
unfolding shift
All-shift i zero rs h = h
All-shift i (suc k) rs h = elim (Bool-cases (leb i k)) [
  | inl e ↦ rw e (
      All-shift i k (set rs (suc k) (get_or rs k null_entry))
        (All-set rs (suc k) _ h (All-get_or rs k h)))
  | inr e ↦ rw e h
]

module _ (k v : ℕ) (kf : k < 2 ^ 64) (vf : v < 2 ^ 64) where
  All-update_at :
      (rs : List LeafEntry) (i : ℕ) → All FitsEntry rs → All FitsEntry (update_at rs i k v)
  unfolding update_at
  All-update_at [] i h = tt
  All-update_at (x ∷ rs) zero h = (record { version = h.0.version; key = kf; value = vf }, h.1)
  All-update_at (x ∷ rs) (suc i) h = (h.0, All-update_at rs i h.1)

  pub All-place :
      (i j : ℕ) (rs : List LeafEntry) → All FitsEntry rs → All FitsEntry (place i j k v rs)
  unfolding place
  All-place i j rs h = All-update_at (shift i j rs) i (All-shift i j rs h)

abbrev pub AllSyn : Option LeafNode → Type 0
AllSyn none = Unit
AllSyn (some m) = All FitsEntry m.records

-- Which node buffers an insertion writes.
pub data Shape {A : Type 0} (alloc : A → GlobalAddress × A) (l : LeafNode) (syn : Option LeafNode)
    (old : GlobalAddress) (heap : A) (t : Staged A) : Type 0 where
  kept :
      t.leaf.metadata ≡ l.metadata
      → t.syn_leaf ≡ syn
      → t.write_leaf ≡ true
      → t.write_syn_leaf ≡ false
      → t.heap ≡ heap
      → Shape alloc l syn old heap t
  known :
      (m m' : LeafNode)
      → syn ≡ some m
      → t.syn_leaf ≡ some m'
      → m'.metadata ≡ m.metadata
      → t.leaf.metadata ≡ l.metadata
      → t.syn_addr ≡ old
      → t.write_syn_leaf ≡ true
      → t.heap ≡ heap
      → (t.write_leaf ≡ true) ⊎ (t.write_leaf ≡ false) × (t.leaf ≡ l)
      → Shape alloc l syn old heap t
  fresh :
      (m' : LeafNode)
      → syn ≡ none
      → t.syn_leaf ≡ some m'
      → m'.metadata ≡ new_leaf.metadata
      → t.leaf.metadata ≡ record l.metadata { synonym_ptr = (alloc heap).0 }
      → t.syn_addr ≡ (alloc heap).0
      → t.write_leaf ≡ true
      → t.write_syn_leaf ≡ true
      → t.heap ≡ (alloc heap).1
      → Shape alloc l syn old heap t

record Kept {A : Type 0} (h : A) (m : LeafNode) (r : SynResult A) : Type 0 where
  addr : (r.addr ≡ null_addr) ⊎ (r.addr ≡ max_addr)
  metadata : r.syn_leaf.metadata ≡ m.metadata
  heap : r.heap ≡ h

module _ {A : Type 0} (alloc : A → GlobalAddress × A) where
  into_old :
      (k v : ℕ) (m : LeafNode) (heap : A)
      → Kept heap m (insert_into_syn_leaf_locally alloc k v (some m) heap)
  unfolding insert_into_syn_leaf_locally
  into_old k v m heap = elim (Option-cases (probe k m.records)) [
    | inl e ↦
        rw (e, insert_into_syn_leaf_locally)
          (record { addr = inr refl; metadata = refl; heap = refl })
    | inr (i, e) ↦
        rw (e, insert_into_syn_leaf_locally)
          (record { addr = inl refl; metadata = refl; heap = refl })
  ]

  pub into_fits :
      (k v : ℕ) (syn : Option LeafNode) (heap : A)
      → k < 2 ^ 64
      → v < 2 ^ 64
      → AllSyn syn
      → All FitsEntry (insert_into_syn_leaf_locally alloc k v syn heap).syn_leaf.records
  unfolding insert_into_syn_leaf_locally
  into_fits k v none heap kf vf h = All-update_at k v kf vf new_leaf.records 0 (All-null 16)
  into_fits k v (some m) heap kf vf h = elim (Option-cases (probe k m.records)) [
    | inl e ↦ rw (e, insert_into_syn_leaf_locally) h
    | inr (i, e) ↦ rw (e, insert_into_syn_leaf_locally) (All-place k v kf vf i _ m.records h)
  ]

module _ {A : Type 0} (alloc : A → GlobalAddress × A) (l : LeafNode) (old : GlobalAddress)
    (heap : A) (real : addr_eq (alloc heap).0 null_addr ≡ false) where
  new-Shape :
      (k v : ℕ) (t : Staged A)
      → let r = insert_into_syn_leaf_locally alloc k v none heap in
        (t.syn_leaf ≡ some r.syn_leaf)
        → t.leaf.metadata ≡ (link l r.addr).metadata
        → t.syn_addr ≡ (if addr_eq r.addr null_addr then old else r.addr)
        → (t.write_leaf ≡ true)
          ⊎ (t.write_leaf ≡ (if addr_eq r.addr null_addr then false else true))
            × (t.leaf ≡ link l r.addr)
        → t.write_syn_leaf ≡ true
        → t.heap ≡ r.heap
        → Shape alloc l none old heap t
  unfolding insert_into_syn_leaf_locally
  new-Shape k v t a b c d e f =
      fresh _ refl a refl (rw real at b) (rw real at c)
        (elim d [ inl p ↦ p | inr p ↦ rw real at p.0 ]) e f

  old-Shape :
      (k v : ℕ) (m : LeafNode) (t : Staged A)
      → let r = insert_into_syn_leaf_locally alloc k v (some m) heap in
        addr_eq r.addr max_addr ≡ false
        → (t.syn_leaf ≡ some r.syn_leaf)
        → t.leaf.metadata ≡ (link l r.addr).metadata
        → t.syn_addr ≡ (if addr_eq r.addr null_addr then old else r.addr)
        → (t.write_leaf ≡ true)
          ⊎ (t.write_leaf ≡ (if addr_eq r.addr null_addr then false else true))
            × (t.leaf ≡ link l r.addr)
        → t.write_syn_leaf ≡ true
        → t.heap ≡ r.heap
        → Shape alloc l (some m) old heap t
  old-Shape k v m t n a b c d e f =
      let h = into_old alloc k v m heap in
      elim h.addr [
        | inr z ↦ absurd (ground (arith, rw z at n))
        | inl z ↦
            known m _ refl a h.metadata (rw z at b) (rw z at c) e (f ∙ h.heap)
              (elim d [ inl p ↦ inl p | inr p ↦ inr (rw z at p) ])
      ]

module _ {A : Type 0} (alloc : A → GlobalAddress × A) (l : LeafNode) (old : GlobalAddress)
    (heap : A) (real : addr_eq (alloc heap).0 null_addr ≡ false) (t : Staged A) where
  pub any-Shape :
      (k v : ℕ) (syn : Option LeafNode)
      → let r = insert_into_syn_leaf_locally alloc k v syn heap in
        addr_eq r.addr max_addr ≡ false
        → (t.syn_leaf ≡ some r.syn_leaf)
        → t.leaf.metadata ≡ (link l r.addr).metadata
        → t.syn_addr ≡ (if addr_eq r.addr null_addr then old else r.addr)
        → (t.write_leaf ≡ true)
          ⊎ (t.write_leaf ≡ (if addr_eq r.addr null_addr then false else true))
            × (t.leaf ≡ link l r.addr)
        → t.write_syn_leaf ≡ true
        → t.heap ≡ r.heap
        → Shape alloc l syn old heap t
  any-Shape k v none = λ n a b c d e f. new-Shape alloc l old heap real k v t a b c d e f
  any-Shape k v (some m) = old-Shape alloc l old heap real k v m t
