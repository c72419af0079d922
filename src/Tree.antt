-- ===== src/Tree.antt =====
-- RolexIndex (src/Rolex.cpp) in the default build: insert, update, search and range_query over the
-- remote memory, and the locking, fetching and writing that they are made of. One operation runs at
-- a time. `none` stands for an operation that does not come back: a failed assertion, a node whose
-- image is refused at every read, a lock that stays taken.
pub mod Spec
pub mod Fetch
pub mod Finds
pub mod Search
pub mod Collect
pub mod Range
pub mod Shapes
pub mod Stage
pub mod Versions
pub mod Changed
pub mod Outcome
pub mod Finish
pub mod Placed
pub mod Results
pub mod Insert
pub mod Refine
pub mod Assign
pub mod Written
pub mod Update
mod Tests
use riiver_rolex.Base.{
  ℕ, zero, suc, ◌+◌, ◌-◌, ◌*◌, ◌/◌, ◌%◌, ◌^◌, Bool, true, false, not, ◌&&◌, List, [], ◌∷◌, ◌++◌,
  Option, none, some, ltb, leb, ◌==◌, if◌then◌else◌, ◌>>=◌,
}
use riiver_rolex.Address.{GlobalAddress, null_addr, addr_eq}
use riiver_rolex.Layout.{get_leaf_address}
use riiver_rolex.Leaf.{LeafEntry, LeafNode, update_at}
use riiver_rolex.Leaf.Local.{Staged, insert_locally, with_records}
use riiver_rolex.Cache.{
  RolexCache, search_from_cache, search_from_cache_for_insert, search_range_from_cache,
}
use riiver_rolex.Codec.{Codec}

-- The memory nodes as the client reaches them: the image of a node at each address, the lock word
-- that lies behind each leaf, and the state of the allocator.
pub record Dsm (Raw A : Type 0) : Type 0 where
  pub mem : GlobalAddress → Raw
  pub lock : GlobalAddress → ℕ
  pub heap : A

abbrev pub write_at : {X : Type 0} → (GlobalAddress → X) → GlobalAddress → X → GlobalAddress → X
write_at f a x b = if addr_eq a b then x else f b

-- An address to read, and the address of the leaf whose lock guards it.
pub record Target : Type 0 where
  pub addr : GlobalAddress
  pub locked : GlobalAddress

-- The vectors `leaf_addrs`, `locked_leaf_addrs` and `leaves` of a fetch, side by side.
pub record Fetched : Type 0 where
  pub addr : GlobalAddress
  pub locked : GlobalAddress
  pub leaf : LeafNode

-- What `_search` returns for a key that it finds, with the value that it sets.
pub record Found : Type 0 where
  pub value : ℕ
  pub leaf_addr : GlobalAddress
  pub locked_leaf_addr : GlobalAddress

-- `for (i = l; i <= r; ++i) leaf_addrs.emplace_back(get_leaf_address(i))`, for `n` leaves
unfoldable pub leaf_targets : ℕ → ℕ → Option (List Target)
leaf_targets l zero = some []
leaf_targets l (suc n) = do
  a ← get_leaf_address l
  rest ← leaf_targets (suc l) n
  some (record { addr = a; locked = a } ∷ rest)

-- The synonym leaves of the fetched leaves. The map of known synonym leaves is empty at the start
-- of an operation, and each leaf comes once.
unfoldable pub synonym_targets : List Fetched → List Target
synonym_targets [] = []
synonym_targets (c ∷ cs) =
    let rest = synonym_targets cs in
    let ptr = c.leaf.metadata.synonym_ptr in
    if addr_eq ptr null_addr then rest else record { addr = ptr; locked = c.addr } ∷ rest

-- The loop over the entries of one leaf in `_search`.
unfoldable pub find_value : ℕ → List LeafEntry → Option ℕ
find_value k [] = none
find_value k (e ∷ es) = let rest = find_value k es in if e.key == k then some e.value else rest

-- The loop over the leaves in `_search`.
unfoldable pub search_fetched : ℕ → List Fetched → Option Found
search_fetched k [] = none
search_fetched k (c ∷ cs) =
    let rest = search_fetched k cs in
    elim (find_value k c.leaf.records) [
      | some v ↦ some (record { value = v; leaf_addr = c.addr; locked_leaf_addr = c.locked })
      | none ↦ rest
    ]

-- The loop of `update`: the entry with the key takes the value; `none` if there is no such entry.
unfoldable pub update_entry : ℕ → ℕ → List LeafEntry → Option (List LeafEntry)
update_entry k v [] = none
update_entry k v (e ∷ es) =
    let rest = (do es' ← update_entry k v es; some (e ∷ es')) in
    if e.key == k then some (record e { key = k; value = v } ∷ es) else rest

-- `ret[k] = v` on a `std::map`, which keeps its keys in order
unfoldable pub map_set : ℕ → ℕ → List (ℕ × ℕ) → List (ℕ × ℕ)
map_set k v [] = (k, v) ∷ []
map_set k v ((q, w) ∷ m) =
    let rest = (q, w) ∷ map_set k v m in
    if q == k then (k, v) ∷ m else if ltb k q then (k, v) ∷ (q, w) ∷ m else rest

-- The loops of step 3 of `range_query`.
unfoldable pub collect_entries : ℕ → ℕ → List LeafEntry → List (ℕ × ℕ) → List (ℕ × ℕ)
collect_entries from to [] ret = ret
collect_entries from to (e ∷ es) ret = collect_entries from to es (
    if not (e.key == 0) && (leb from e.key && ltb e.key to) then map_set e.key e.value ret else ret)

unfoldable pub collect_leaves : ℕ → ℕ → List Fetched → List (ℕ × ℕ) → List (ℕ × ℕ)
unfolding collect_entries
collect_leaves from to [] ret = ret
collect_leaves from to (c ∷ cs) ret =
    collect_leaves from to cs (collect_entries from to c.leaf.records ret)

module _ {Raw A : Type 0} (codec : Codec Raw) where
  -- `fetch_node`: a read that is refused is made again.
  unfoldable pub fetch_node : Dsm Raw A → GlobalAddress → Option LeafNode
  fetch_node s a = codec.decode (s.mem a)

  unfoldable pub fetch_nodes : Dsm Raw A → List Target → Option (List Fetched)
  fetch_nodes s [] = some []
  fetch_nodes s (t ∷ ts) = do
    leaf ← fetch_node s t.addr
    rest ← fetch_nodes s ts
    some (record { addr = t.addr; locked = t.locked; leaf = leaf } ∷ rest)

  -- `cas_mask_sync` on the lock word, with the lock bit to compare and the whole word to swap: the
  -- old word comes back in the lock buffer.
  unfoldable pub lock_node : Dsm Raw A → GlobalAddress → Option (ℕ × Dsm Raw A)
  lock_node s a =
      if s.lock a / 2 ^ 63 % 2 == 0
      then some (s.lock a, record s { lock = write_at s.lock a (2 ^ 64 - 1) })
      else none

  -- The lock buffer is written over the lock word.
  unfoldable pub unlock_node : Dsm Raw A → GlobalAddress → ℕ → Dsm Raw A
  unlock_node s a lock_buffer = record s { lock = write_at s.lock a lock_buffer }

  unfoldable pub write_node : Dsm Raw A → GlobalAddress → LeafNode → Dsm Raw A
  write_node s a leaf = record s { mem = write_at s.mem a (codec.encode leaf) }

  unfoldable pub write_node_and_unlock :
      Dsm Raw A → GlobalAddress → LeafNode → GlobalAddress → ℕ → Dsm Raw A
  unfolding write_node unlock_node
  write_node_and_unlock s a leaf locked lock_buffer =
      unlock_node (write_node s a leaf) locked lock_buffer

  unfoldable pub write_nodes_and_unlock :
      Dsm Raw A → List (GlobalAddress × LeafNode) → GlobalAddress → ℕ → Dsm Raw A
  unfolding write_node unlock_node
  write_nodes_and_unlock s [] locked lock_buffer = unlock_node s locked lock_buffer
  write_nodes_and_unlock s ((a, leaf) ∷ rest) locked lock_buffer =
      write_nodes_and_unlock (write_node s a leaf) rest locked lock_buffer

  -- Steps 1 and 2 of `_search`: the predicted leaves, then their synonym leaves.
  unfoldable pub fetch_range : Dsm Raw A → ℕ → ℕ → Option (List Fetched)
  fetch_range s l r = do
    targets ← leaf_targets l (r + 1 - l)
    leaves ← fetch_nodes s targets
    append_leaves ← fetch_nodes s (synonym_targets leaves)
    some (leaves ++ append_leaves)

  module _ (cache : RolexCache) where
    -- `_search`
    unfoldable pub search_leaves : Dsm Raw A → ℕ → Option (Option Found)
    search_leaves s k = do
      let range = search_from_cache cache k
      leaves ← fetch_range s range.0 range.1
      some (search_fetched k leaves)

    -- `search`: whether the key was found, and its value
    unfoldable pub search : Dsm Raw A → ℕ → Option (Option ℕ)
    search s k = do
      found ← search_leaves s k
      some (elim found [ some f ↦ some f.value | none ↦ none ])

    -- `range_query`, from the map `ret` of the caller to what it leaves there
    unfoldable pub range_query : Dsm Raw A → ℕ → ℕ → List (ℕ × ℕ) → Option (List (ℕ × ℕ))
    range_query s from to ret = do
      let range = search_range_from_cache cache from to
      leaves ← fetch_range s range.0 range.1
      some (collect_leaves from to leaves ret)

    -- The rounds of `read_another`: at the found node, and from there at the synonym leaf.
    unfoldable pub update_found : Dsm Raw A → ℕ → ℕ → Found → ℕ → Option (Dsm Raw A)
    update_found s k v f lock_buffer = do
      leaf ← fetch_node s f.leaf_addr
      elim (update_entry k v leaf.records) [
        | some rs ↦ some (
            write_node_and_unlock s f.leaf_addr (with_records leaf rs) f.locked_leaf_addr
              lock_buffer)
        | none ↦ do
          let ptr = leaf.metadata.synonym_ptr
          syn ←
              (if addr_eq f.leaf_addr f.locked_leaf_addr && not (addr_eq ptr null_addr)
                then fetch_node s ptr
                else none)
          rs ← update_entry k v syn.records
          some (write_node_and_unlock s ptr (with_records syn rs) f.locked_leaf_addr lock_buffer)
      ]

    unfoldable pub update : Dsm Raw A → ℕ → ℕ → Option (Dsm Raw A)
    update s k v = do
      found ← search_leaves s k
      elim found [
        | none ↦ some s
        | some f ↦ do
          (lock_buffer, s') ← lock_node s f.locked_leaf_addr
          update_found s' k v f lock_buffer
      ]

    -- What step 4 of `insert` writes, in the order of the vectors.
    unfoldable pub staged_nodes : GlobalAddress → Staged A → List (GlobalAddress × LeafNode)
    staged_nodes a t = (if t.write_leaf then (a, t.leaf) ∷ [] else []) ++ elim t.syn_leaf [
      | none ↦ []
      | some m ↦ if t.write_syn_leaf then (t.syn_addr, m) ∷ [] else []
    ]

    -- The synonym leaf, if the leaf has one.
    unfoldable pub fetch_synonym : Dsm Raw A → GlobalAddress → Option (Option LeafNode)
    fetch_synonym s ptr =
        if addr_eq ptr null_addr then some none else (do m ← fetch_node s ptr; some (some m))

    module _ (alloc : A → GlobalAddress × A) where
      -- `insert`
      unfoldable pub insert : Dsm Raw A → ℕ → ℕ → Option (Dsm Raw A)
      insert s k v = do
        range ← search_from_cache_for_insert cache k
        targets ← leaf_targets range.first (range.last + 1 - range.first)
        _ ← fetch_nodes s targets
        a ← get_leaf_address range.insert_idx
        (lock_buffer, s') ← lock_node s a
        leaf ← fetch_node s' a
        let ptr = leaf.metadata.synonym_ptr
        syn_leaf ← fetch_synonym s' ptr
        elim (insert_locally alloc k v leaf syn_leaf ptr s'.heap) [
          | none ↦ some (unlock_node s' a lock_buffer)
          | some t ↦ some (
              write_nodes_and_unlock (record s' { heap = t.heap }) (staged_nodes a t) a lock_buffer)
        ]
