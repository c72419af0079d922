-- ===== src/Tree/Update.antt =====
-- RolexIndex::update of src/Rolex.cpp against the abstract state.
use mathlib.Core.Option.{some-injective}
use mathlib.Core.Path.{subst}
use riiver_rolex.Base.{
  ℕ, ◌+◌, ◌^◌, ◌<◌, ◌≡◌, refl, sym, ◌∙◌, ◌⊎◌, inl, inr, not, ◌&&◌, Option, none, some, List,
  if◌then◌else◌, Option-cases, ◌>>=◌,
}
use riiver_rolex.Address.{GlobalAddress, null_addr, addr_eq}
use riiver_rolex.Layout.{leaf_num_max}
use riiver_rolex.Leaf.{LeafEntry, LeafNode}
use riiver_rolex.Leaf.Order.{live, lookup, lookup_nil, lookup-append}
use riiver_rolex.Leaf.Local.{with_records}
use riiver_rolex.Leaf.Synonym.{IsPair, live_syn}
use riiver_rolex.Cache.{RolexCache, search_from_cache}
use riiver_rolex.Codec.{Codec}
use riiver_rolex.Alloc.{Allocator}
use riiver_rolex.Tree.{
  Dsm, Found, fetch_node, lock_node, update_entry, search_leaves, update_found, update,
  write_node_and_unlock,
}
use riiver_rolex.Tree.Spec.{Node, items, ptr, leaf_address, IsHome, Linked, Represents}
use riiver_rolex.Tree.Finds.{or_else, in_leaf, in_syn}
use riiver_rolex.Tree.Search.{search_leaves_lem}
use riiver_rolex.Tree.Outcome.{locked, lock_free, fetched}
use riiver_rolex.Tree.Assign.{assign-absent, Assigned, update_entry_lem}
use riiver_rolex.Tree.Written.{Updated, at, written, leaf_case, behind_case}

module _ {Raw A : Type 0} (codec : Codec Raw) (cache : RolexCache) (s : Dsm Raw A) (k v : ℕ) where
  update_missing : search_leaves codec cache s k ≡ some none → update codec cache s k v ≡ some s
  unfolding update
  update_missing e = rw e

  update_there :
      (f : Found) (b : ℕ) (s₁ : Dsm Raw A)
      → search_leaves codec cache s k ≡ some (some f)
      → lock_node codec s f.locked_leaf_addr ≡ some (b, s₁)
      → update codec cache s k v ≡ update_found codec cache s₁ k v f b
  unfolding update
  update_there f b s₁ e l = rw (e, l)

  -- The first round finds the key.
  first_round :
      (f : Found) (b : ℕ) (m : LeafNode) (rs : List LeafEntry)
      → fetch_node codec s f.leaf_addr ≡ some m
      → update_entry k v m.records ≡ some rs
      → update_found codec cache s k v f b
        ≡ some (write_node_and_unlock codec s f.leaf_addr (with_records m rs) f.locked_leaf_addr b)
  unfolding update_found
  first_round f b m rs e u = rw e (go (update_entry k v m.records) u)
    where
      go :
          (r : Option (List LeafEntry))
          → r ≡ some rs
          → elim r [
            | some rs ↦
                some (
                  write_node_and_unlock codec s f.leaf_addr
                    (with_records m rs)
                    f.locked_leaf_addr
                    b)
            | none ↦ do
              let ptr = m.metadata.synonym_ptr
              syn ←
                  (if addr_eq f.leaf_addr f.locked_leaf_addr && not (addr_eq ptr null_addr)
                    then fetch_node codec s ptr
                    else none)
              rs ← update_entry k v syn.records
              some (write_node_and_unlock codec s ptr (with_records syn rs) f.locked_leaf_addr b)
          ]
            ≡ some
                (write_node_and_unlock codec s f.leaf_addr (with_records m rs) f.locked_leaf_addr b)
      go none u = absurd (cc u)
      go (some q) u = rw (some-injective q rs u)

module _ {Raw A : Type 0} (codec : Codec Raw) (al : Allocator A) (cache : RolexCache)
    {s : Dsm Raw A} {σ : ℕ → Node} (rep : Represents codec al cache s σ) where
  -- The key was found in node `m` at `p`: the node is written with the new value.
  run_at :
      (k v i : ℕ) (pos : 0 < k) (vf : v < 2 ^ 64) (bound : i + 1 < leaf_num_max) (w : ℕ)
      (p : GlobalAddress) (m : LeafNode) (r : Assigned k v 0 m.records)
      → search_leaves codec cache s k
        ≡ some (some (record { value = w; leaf_addr = p; locked_leaf_addr = leaf_address i }))
      → codec.decode (s.mem p) ≡ some m
      → update codec cache s k v
        ≡ some (written codec al cache rep k v i pos vf bound p (with_records m r.records))
  unfolding written at write_node_and_unlock
  run_at k v i pos vf bound w p m r found read =
      let a = leaf_address i in
      let f : Found = record { value = w; leaf_addr = p; locked_leaf_addr = a } in
      update_there codec cache s k v f (s.lock a) (locked codec cache s a) found
        (lock_free codec cache s a (rep.unlocked a))
      ∙ first_round codec cache (locked codec cache s a) k v f (s.lock a) m r.records
          (fetched codec cache (locked codec cache s a) p ∙ read) r.ran

  -- On memory that represents an abstract state, for a key that the learned index gives leaf `i` to
  -- and a predicted range inside the leaf region, `update` returns. It leaves memory that represents
  -- the abstract state with the value assigned to the key at that leaf, if the key is there, every
  -- other leaf and every lock word as it was.
  pub update_lem :
      (k v i : ℕ)
      → 0 < k
      → v < 2 ^ 64
      → IsHome cache k i
      → (search_from_cache cache k).1 + 1 < leaf_num_max
      → i + 1 < leaf_num_max
      → (s' : Dsm Raw A) × (update codec cache s k v ≡ some s')
        × Updated codec al cache s σ k v i s'
  unfolding or_else at
  update_lem k v i pos vf home region bound =
      split (Option-cases (lookup k (live (σ i).leaf.records)))
    where
      found :
          search_leaves codec cache s k
          ≡ some (or_else (in_leaf k i (σ i)) (in_syn k i (σ i).leaf (σ i).syn))
      found = search_leaves_lem codec al cache rep k pos i home region

      missing : lookup k (items (σ i)) ≡ none → Updated codec al cache s σ k v i s
      missing e = record {
        σ' = σ;
        represents = rep;
        holds = sym (assign-absent k v (items (σ i)) e);
        others = λ j ne. refl;
        locks = λ a. refl;
      }

      split :
          (lookup k (live (σ i).leaf.records) ≡ none)
            ⊎ ((w : ℕ) × (lookup k (live (σ i).leaf.records) ≡ some w))
          → (s' : Dsm Raw A) × (update codec cache s k v ≡ some s')
            × Updated codec al cache s σ k v i s'
      split (inr (w, e)) =
          let r =
            update_entry_lem k v 0 (σ i).leaf.records pos (rep.sorted i).leaf.ordered (λ n. cc) in
          (
            written codec al cache rep k v i pos vf bound (leaf_address i)
                (with_records (σ i).leaf r.records),
            run_at k v i pos vf bound w (leaf_address i) (σ i).leaf r (found ∙ rw e)
                (rep.leaf_at i bound),
            leaf_case codec al cache rep k v i pos vf bound r (λ n. cc),
          )
      split (inl e) = behind (σ i).syn refl
        where
          behind :
              (z : Option LeafNode)
              → (σ i).syn ≡ z
              → (s' : Dsm Raw A) × (update codec cache s k v ≡ some s')
                × Updated codec al cache s σ k v i s'
          behind none n = (
            s,
            update_missing codec cache s k v (found ∙ rw (e, n)),
            missing (
                lookup-append k (live (σ i).leaf.records) (live_syn (σ i).syn) e
                ∙ rw n (lookup_nil k)),
          )
          behind (some m) is = elim (Option-cases (lookup k (live m.records))) [
            | inl f ↦ (
              s,
              update_missing codec cache s k v (found ∙ rw (e, is, f)),
              missing (lookup-append k (live (σ i).leaf.records) (live_syn (σ i).syn) e ∙ rw is f),
            )
            | inr (w, f) ↦
                let sorted = (subst (IsPair (σ i).leaf) is (rep.sorted i)).synonym.0 in
                let read = (subst (Linked codec s (σ i).leaf) is (rep.linked i)).0 in
                let r = update_entry_lem k v 0 m.records pos sorted.ordered (λ n. cc) in
                (
                  written codec al cache rep k v i pos vf bound (ptr (σ i))
                      (with_records m r.records),
                  run_at k v i pos vf bound w (ptr (σ i)) m r (found ∙ rw (e, is, f)) read,
                  behind_case codec al cache rep k v i pos vf bound m is r e,
                )
          ]
