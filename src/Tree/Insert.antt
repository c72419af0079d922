-- ===== src/Tree/Insert.antt =====
-- RolexIndex::insert of src/Rolex.cpp against the abstract state.
use riiver_rolex.Base.{ℕ, ◌+◌, ◌-◌, ◌^◌, ◌<◌, ◌≡◌, refl, ap, ◌∙◌, false, Option, none, some, arith}
use riiver_rolex.Address.{max_addr, addr_eq, addr_eq_ne}
use riiver_rolex.Layout.{leaf_num_max}
use riiver_rolex.Leaf.{LeafNode}
use riiver_rolex.Leaf.Local.{Staged, insert_locally}
use riiver_rolex.Leaf.Synonym.{HasRoom, Inserted, present, placed}
use riiver_rolex.Leaf.Pair.{insert_locally-Inserted}
use riiver_rolex.Cache.{RolexCache, InsertRange, search_from_cache_for_insert}
use riiver_rolex.Codec.{Codec}
use riiver_rolex.Alloc.{Allocator, IsSynAddress}
use riiver_rolex.Tree.{Dsm, unlock_node, write_nodes_and_unlock, staged_nodes, insert}
use riiver_rolex.Tree.Spec.{Node, get_leaf_address-leaf_address, Linked, Represents}
use riiver_rolex.Tree.Fetch.{fetch_first, syn_not_null}
use riiver_rolex.Tree.Finds.{home_range}
use riiver_rolex.Tree.Shapes.{AllSyn}
use riiver_rolex.Tree.Stage.{insert_locally-Shape}
use riiver_rolex.Tree.Outcome.{Done, locked, lock_free, fetched, synonym_fetched}
use riiver_rolex.Tree.Finish.{home_address, home_leaf, home_syn, finish}
use riiver_rolex.Tree.Placed.{result_present}
use riiver_rolex.Tree.Results.{result_of}

module _ {Raw A : Type 0} (codec : Codec Raw) (al : Allocator A) (cache : RolexCache)
    {s : Dsm Raw A} {σ : ℕ → Node} (rep : Represents codec al cache s σ) (k v : ℕ) (g : InsertRange)
    (home : search_from_cache_for_insert cache k ≡ some g) (bound : g.last + 1 < leaf_num_max)
    (space : al.CanAlloc s.heap) where
  span : g.first + (g.last + 1 - g.first) < leaf_num_max
  span = omega (arith, (home_range cache k g home).1, (home_range cache k g home).2)

  -- The local step of the operation.
  abbrev Step : Option (Staged A) → Type 0
  Step r =
      insert_locally al.alloc k v (home_leaf σ g) (home_syn σ g)
        (home_leaf σ g).metadata.synonym_ptr s.heap
      ≡ r

  -- An insertion comes to its local step, with the leaf and its synonym leaf read.
  insert-finish :
      (r : Option (Staged A))
      → Step r
      → insert codec cache al.alloc s k v ≡ some (finish codec cache s (home_address g) r)
  unfolding insert finish
  insert-finish r e =
      let (ts, found, read) = fetch_first codec al cache rep g.first (g.last + 1 - g.first) span in
      rw
        (
          home,
          found,
          read,
          get_leaf_address-leaf_address g.insert_idx (omega (arith, (home_range cache k g home).2)),
          lock_free codec cache s (home_address g) (rep.unlocked (home_address g)),
          fetched codec cache (locked codec cache s (home_address g)) (home_address g),
          rep.leaf_at g.insert_idx (omega (arith, (home_range cache k g home).2)),
          synonym_fetched codec cache (locked codec cache s (home_address g)) (home_leaf σ g)
              (σ g.insert_idx).syn (rep.linked g.insert_idx),
        )
        (done r e)
    where
      done :
          (r : Option (Staged A))
          → Step r
          → (elim (insert_locally al.alloc k v
              (home_leaf σ g)
              (home_syn σ g)
              (home_leaf σ g).metadata.synonym_ptr
              s.heap) [
                | none ↦ some (
                    unlock_node codec
                      (locked codec cache s (home_address g))
                      (home_address g)
                      (s.lock (home_address g)))
                | some t ↦ some (
                    write_nodes_and_unlock codec
                      (record (locked codec cache s (home_address g)) { heap = t.heap })
                      (staged_nodes codec cache (home_address g) t)
                      (home_address g)
                      (s.lock (home_address g)))
              ])
            ≡ some (finish codec cache s (home_address g) r)
      done none e = rw e
      done (some t) e = rw e

  module _ (room : HasRoom (σ g.insert_idx).syn) (pos : 0 < k) (kf : k < 2 ^ 64)
      (vf : v < 2 ^ 64) where
    is_syn : IsSynAddress (al.alloc s.heap).0
    is_syn = al.Free-syn s.heap (al.alloc s.heap).0 (al.alloc-Free s.heap space)

    not_max : addr_eq (al.alloc s.heap).0 max_addr ≡ false
    not_max =
        addr_eq_ne (al.alloc s.heap).0 max_addr
          (λ e. let f = ap (λ a. a.node_id) e in let home = is_syn.node_id in absurd (omega arith))

    old_fits : (z : Option LeafNode) → Linked codec s (home_leaf σ g) z → AllSyn z
    old_fits none h = tt
    old_fits (some m) h = h.2.entries

    result_local :
        (r : Option (Staged A))
        → Inserted k v (home_leaf σ g) (home_syn σ g) r
        → Step r
        → Done codec al cache s σ k v g.insert_idx (finish codec cache s (home_address g) r)
    result_local r (present there e) step =
        rw e (result_present codec al cache rep k v g home bound space there)
    result_local r (placed t e absent holds pair) step =
        let (shape, fits, syn_fits) =
          insert_locally-Shape al.alloc (home_leaf σ g) (home_syn σ g)
            (home_leaf σ g).metadata.synonym_ptr s.heap k v t (syn_not_null is_syn) kf vf
            (rep.storable g.insert_idx).entries (old_fits (home_syn σ g) (rep.linked g.insert_idx))
            (step ∙ e) in
        rw e (result_of codec al cache rep k v g home bound space t holds pair fits syn_fits shape)

    -- On memory that represents an abstract state, where the allocator has space and the synonym
    -- leaf of the key's leaf, if there is one, is not full, `insert` returns. It leaves memory that
    -- represents the abstract state with the key inserted in order at that leaf (with its old value
    -- if it was there), every other leaf and every lock word as it was.
    pub insert_lem :
        (s' : Dsm Raw A) × (insert codec cache al.alloc s k v ≡ some s')
        × Done codec al cache s σ k v g.insert_idx s'
    insert_lem =
        let r =
          insert_locally al.alloc k v (home_leaf σ g) (home_syn σ g)
            (home_leaf σ g).metadata.synonym_ptr s.heap in
        (
          finish codec cache s (home_address g) r,
          insert-finish r refl,
          result_local r
              (insert_locally-Inserted al.alloc (rep.sorted g.insert_idx) room s.heap not_max k v
                pos (home_leaf σ g).metadata.synonym_ptr)
              refl,
        )
