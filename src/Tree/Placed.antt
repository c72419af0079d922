-- ===== src/Tree/Placed.antt =====
-- Memory that holds the outcome of RolexIndex::insert of src/Rolex.cpp represents the abstract state with
-- the key inserted.
use mathlib.Core.Path.{subst}
use riiver_rolex.Base.{
  ℕ, ◌+◌, ◌<◌, ◌≡◌, refl, sym, ◌≢◌, inl, inr, none, some, arith, ◌==◌, Bool-cases, ==_iff,
}
use riiver_rolex.Address.{GlobalAddress}
use riiver_rolex.Layout.{leaf_num_max}
use riiver_rolex.Leaf.Order.{lookup, insert_sorted, lookup-insert_sorted}
use riiver_rolex.Leaf.Synonym.{IsPair}
use riiver_rolex.Cache.{RolexCache, InsertRange, search_from_cache_for_insert}
use riiver_rolex.Codec.{Codec, IsStorable}
use riiver_rolex.Alloc.{Allocator, IsSynAddress}
use riiver_rolex.Tree.{Dsm, unlock_node}
use riiver_rolex.Tree.Spec.{Node, items, ptr, IsHome, Linked, Represents}
use riiver_rolex.Tree.Finds.{home_range}
use riiver_rolex.Tree.Changed.{Changed, changed, put, put_self, put_ne, leaf_address-syn}
use riiver_rolex.Tree.Outcome.{Done, insert_sorted-present}
use riiver_rolex.Tree.Finish.{home_address, home_syn, finish, relocked, relock}

module _ {Raw A : Type 0} (codec : Codec Raw) (al : Allocator A) (cache : RolexCache)
    {s : Dsm Raw A} {σ : ℕ → Node} (rep : Represents codec al cache s σ) (k v : ℕ) (g : InsertRange)
    (home : search_from_cache_for_insert cache k ≡ some g) (bound : g.last + 1 < leaf_num_max)
    (space : al.CanAlloc s.heap) where
  new_homed :
      (n : Node)
      → items n ≡ insert_sorted k v (items (σ g.insert_idx))
      → (q : ℕ) → lookup q (items n) ≢ none
      → IsHome cache q g.insert_idx
  new_homed n e q ne = elim (Bool-cases (k == q)) [
    | inl z ↦ subst (λ q. IsHome cache q g.insert_idx) ((==_iff k q).0 z) (g, home, refl)
    | inr z ↦
        let l =
          lookup-insert_sorted q k v 0 (items (σ g.insert_idx))
            (rep.sorted g.insert_idx).increasing in
        rep.homed g.insert_idx q (rw (e, l, z) at ne)
  ]

  result_with :
      {s' : Dsm Raw A} {n : Node}
      → Changed codec al cache s σ g.insert_idx s' n
      → items n ≡ insert_sorted k v (items (σ g.insert_idx))
      → ((a : GlobalAddress) → s'.lock a ≡ s.lock a)
      → Done codec al cache s σ k v g.insert_idx s'
  result_with {s'} {n} c e locks = record {
    σ' = put σ g.insert_idx n;
    represents = changed codec al cache (omega (arith, (home_range cache k g home).2)) rep c;
    holds = rw (put_self σ g.insert_idx n) e;
    others = put_ne σ g.insert_idx n;
    locks = locks;
  }

  -- An existing key: only the lock was taken and given back.
  pub result_present :
      lookup k (items (σ g.insert_idx)) ≢ none
      → Done codec al cache s σ k v g.insert_idx (finish codec cache s (home_address g) none)
  unfolding finish unlock_node relocked
  result_present there = record {
    σ' = σ;
    represents = record {
      leaf_at = rep.leaf_at;
      linked = linked;
      sorted = rep.sorted;
      storable = rep.storable;
      homed = rep.homed;
      apart = rep.apart;
      unused = rep.unused;
      unlocked = λ a. rw (relock s (home_address g) a) (rep.unlocked a);
    };
    holds = sym (
        insert_sorted-present k v 0 (items (σ g.insert_idx)) (rep.sorted g.insert_idx).increasing
          there);
    others = λ j ne. refl;
    locks = relock s (home_address g);
  }
    where
      linked :
          (i : ℕ) → Linked codec (finish codec cache s (home_address g) none) (σ i).leaf (σ i).syn
      linked i = rep.linked i

  pub leaf-syn_apart : (p : GlobalAddress) → IsSynAddress p → (home_address g) ≢ p
  leaf-syn_apart p h =
      leaf_address-syn g.insert_idx p (omega (arith, (home_range cache k g home).2)) h

  -- A node that keeps its pointer: the leaf alone, or the synonym leaf, was written.
  pub changed_old :
      (s' : Dsm Raw A) (n : Node)
      → ptr n ≡ ptr (σ g.insert_idx)
      → (n.syn ≢ none → (home_syn σ g) ≢ none)
      → items n ≡ insert_sorted k v (items (σ g.insert_idx))
      → IsPair n.leaf n.syn
      → IsStorable n.leaf
      → codec.decode (s'.mem (home_address g)) ≡ some n.leaf
      → Linked codec s' n.leaf n.syn
      → ((a : GlobalAddress)
          → a ≢ (home_address g)
          → (n.syn ≢ none → a ≢ ptr n)
          → s'.mem a ≡ s.mem a)
      → s'.lock ≡ (relocked s (home_address g))
      → s'.heap ≡ s.heap
      → Done codec al cache s σ k v g.insert_idx s'
  changed_old s' n same had e pair st here linked others lock heap =
      result_with
        (record {
          leaf_at = here;
          linked = linked;
          sorted = pair;
          storable = st;
          homed = new_homed n e;
          others = others;
          heap = λ p f. subst (λ h. al.Free h p) heap f;
          apart = λ j ne a b. rw same (rep.apart j g.insert_idx ne a (had b));
          unused = λ b. rw (same, heap) (rep.unused g.insert_idx (had b));
          unlocked = λ a. rw (lock, relock s (home_address g) a) (rep.unlocked a);
        })
        e (λ a. rw lock (relock s (home_address g) a))

  -- A node that takes a new synonym leaf.
  pub changed_new :
      (s' : Dsm Raw A) (n : Node)
      → ptr n ≡ (al.alloc s.heap).0
      → items n ≡ insert_sorted k v (items (σ g.insert_idx))
      → IsPair n.leaf n.syn
      → IsStorable n.leaf
      → codec.decode (s'.mem (home_address g)) ≡ some n.leaf
      → Linked codec s' n.leaf n.syn
      → ((a : GlobalAddress)
          → a ≢ (home_address g)
          → (n.syn ≢ none → a ≢ ptr n)
          → s'.mem a ≡ s.mem a)
      → s'.lock ≡ (relocked s (home_address g))
      → s'.heap ≡ (al.alloc s.heap).1
      → Done codec al cache s σ k v g.insert_idx s'
  changed_new s' n same e pair st here linked others lock heap =
      result_with
        (record {
          leaf_at = here;
          linked = linked;
          sorted = pair;
          storable = st;
          homed = new_homed n e;
          others = others;
          heap = λ p f. (al.alloc_rest s.heap space p (subst (λ h. al.Free h p) heap f)).0;
          apart = λ j ne a b.
              rw same
                (λ q. rep.unused j a (subst (al.Free s.heap) (sym q) (al.alloc-Free s.heap space)));
          unused =
              λ b. rw (same, heap) (λ f. (al.alloc_rest s.heap space (al.alloc s.heap).0 f).1 refl);
          unlocked = λ a. rw (lock, relock s (home_address g) a) (rep.unlocked a);
        })
        e (λ a. rw lock (relock s (home_address g) a))
