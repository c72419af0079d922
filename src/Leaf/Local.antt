-- ===== src/Leaf/Local.antt =====
-- The part of RolexIndex::insert that changes the fetched leaf and its synonym leaf in the local
-- buffers, and RolexIndex::insert_into_syn_leaf_locally (src/Rolex.cpp).
use riiver_rolex.Base.{
  ℕ, ◌-◌, List, Option, none, some, Bool, true, false, ◌==◌, if◌then◌else◌, get_or,
}
use riiver_rolex.Address.{GlobalAddress, null_addr, max_addr, addr_eq}
use riiver_rolex.Leaf.{
  LeafEntry, LeafNode, leaf_span_size, null_entry, new_leaf, probe, next_null, place, update_at,
}

-- What `insert_into_syn_leaf_locally` returns, with the synonym leaf that it sets and the allocator.
pub record SynResult (A : Type 0) : Type 0 where
  pub addr : GlobalAddress
  pub syn_leaf : LeafNode
  pub heap : A

-- What step 4 of `insert` writes: `write_leaf`, `write_syn_leaf`, the two buffers, and the entry of
-- `syn_leaf_addrs` for the leaf.
pub record Staged (A : Type 0) : Type 0 where
  pub leaf : LeafNode
  pub syn_leaf : Option LeafNode
  pub syn_addr : GlobalAddress
  pub write_leaf : Bool
  pub write_syn_leaf : Bool
  pub heap : A

-- The address of the new synonym leaf replaces the old one, unless it is null.
abbrev pub new_syn_addr : GlobalAddress → GlobalAddress → GlobalAddress
new_syn_addr old addr = if addr_eq addr null_addr then old else addr

abbrev pub link : LeafNode → GlobalAddress → LeafNode
link leaf addr =
    if addr_eq addr null_addr
    then leaf
    else record leaf { metadata = record leaf.metadata { synonym_ptr = addr } }

abbrev pub with_records : LeafNode → List LeafEntry → LeafNode
with_records leaf rs = record leaf { records = rs }

abbrev pub stage_behind : {A : Type 0} → LeafNode → GlobalAddress → SynResult A → Staged A
stage_behind leaf old r = record {
  leaf = link leaf r.addr;
  syn_leaf = some r.syn_leaf;
  syn_addr = new_syn_addr old r.addr;
  write_leaf = if addr_eq r.addr null_addr then false else true;
  write_syn_leaf = true;
  heap = r.heap;
}

abbrev pub stage_overflow :
    {A : Type 0} → ℕ → ℕ → ℕ → LeafNode → GlobalAddress → SynResult A → Staged A
stage_overflow k v i leaf old r = record {
  leaf = with_records (link leaf r.addr) (place i (leaf_span_size - 1) k v leaf.records);
  syn_leaf = some r.syn_leaf;
  syn_addr = new_syn_addr old r.addr;
  write_leaf = true;
  write_syn_leaf = true;
  heap = r.heap;
}

-- The allocator is `DSM::alloc`.
module _ {A : Type 0} (alloc : A → GlobalAddress × A) where
  -- A full synonym leaf loses its last record to the shift: `j` is pulled back to the last slot.
  unfoldable pub insert_into_syn_leaf_locally : ℕ → ℕ → Option LeafNode → A → SynResult A
  unfolding place
  insert_into_syn_leaf_locally k v none heap =
      let (p, heap') = alloc heap in
      record {
        addr = p;
        syn_leaf = with_records new_leaf (update_at new_leaf.records 0 k v);
        heap = heap';
      }
  insert_into_syn_leaf_locally k v (some syn) heap = elim (probe k syn.records) [
    | none ↦ record { addr = max_addr; syn_leaf = syn; heap = heap }
    | some i ↦
        let j = next_null i syn.records in
        record {
          addr = null_addr;
          syn_leaf =
              with_records syn (place i (if j == leaf_span_size then j - 1 else j) k v syn.records);
          heap = heap;
        }
  ]

  -- `i == leafSpanSize`: the key goes to the synonym leaf.
  unfoldable pub insert_behind :
      ℕ → ℕ → LeafNode → Option LeafNode → GlobalAddress → A → Option (Staged A)
  insert_behind k v leaf syn old heap =
      let r = insert_into_syn_leaf_locally k v syn heap in
      if addr_eq r.addr max_addr then none else some (stage_behind leaf old r)

  -- The leaf is full: its last record overflows to the synonym leaf.
  unfoldable pub insert_overflow :
      ℕ → ℕ → ℕ → LeafNode → Option LeafNode → GlobalAddress → A → Option (Staged A)
  insert_overflow k v i leaf syn old heap =
      let last = get_or leaf.records (leaf_span_size - 1) null_entry in
      let r = insert_into_syn_leaf_locally last.key last.value syn heap in
      if addr_eq r.addr max_addr then none else some (stage_overflow k v i leaf old r)

  -- The leaf has a free slot.
  unfoldable pub insert_inside :
      ℕ → ℕ → ℕ → ℕ → LeafNode → Option LeafNode → GlobalAddress → A → Option (Staged A)
  unfolding place
  insert_inside k v i j leaf syn old heap = some (record {
    leaf = with_records leaf (place i j k v leaf.records);
    syn_leaf = syn;
    syn_addr = old;
    write_leaf = true;
    write_syn_leaf = false;
    heap = heap;
  })

  -- Step 3 of `insert`; `none` where an existing key ends the operation.
  unfoldable pub insert_locally :
      ℕ → ℕ → LeafNode → Option LeafNode → GlobalAddress → A → Option (Staged A)
  insert_locally k v leaf syn old heap = elim (probe k leaf.records) [
    | none ↦ none
    | some i ↦
        let j = next_null i leaf.records in
        if i == leaf_span_size
        then insert_behind k v leaf syn old heap
        else if j == leaf_span_size
        then insert_overflow k v i leaf syn old heap
        else insert_inside k v i j leaf syn old heap
  ]
