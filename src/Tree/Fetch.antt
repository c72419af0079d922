-- ===== src/Tree/Fetch.antt =====
-- What the reads of an operation bring back from memory that represents an abstract state.
use riiver_rolex.Base.{
  ℕ, zero, suc, ◌+◌, ◌-◌, ◌<◌, ◌≡◌, refl, ap, false, Option, none, some, List, [], ◌∷◌, ◌++◌, arith,
}
use riiver_rolex.Address.{GlobalAddress, null_addr, addr_eq, addr_eq_ne}
use riiver_rolex.Layout.{leaf_num_max}
use riiver_rolex.Leaf.{LeafNode}
use riiver_rolex.Cache.{RolexCache}
use riiver_rolex.Codec.{Codec}
use riiver_rolex.Alloc.{Allocator, IsSynAddress}
use riiver_rolex.Tree.{
  Dsm, Target, Fetched, leaf_targets, synonym_targets, fetch_node, fetch_nodes, fetch_range,
}
use riiver_rolex.Tree.Spec.{Node, leaf_address, get_leaf_address-leaf_address, Linked, Represents}

targets : ℕ → ℕ → List Target
targets l zero = []
targets l (suc n) = record { addr = leaf_address l; locked = leaf_address l } ∷ targets (suc l) n

leaf_targets-targets : (l n : ℕ) → l + n < leaf_num_max → leaf_targets l n ≡ some (targets l n)
unfolding leaf_targets targets
leaf_targets-targets l zero h = refl
leaf_targets-targets l (suc n) h =
    rw (get_leaf_address-leaf_address l (omega arith), leaf_targets-targets (suc l) n (omega arith))

-- The leaves from `l` on, as a fetch returns them.
unfoldable pub fetched_leaves : (ℕ → Node) → ℕ → ℕ → List Fetched
fetched_leaves σ l zero = []
fetched_leaves σ l (suc n) =
    record { addr = leaf_address l; locked = leaf_address l; leaf = (σ l).leaf }
    ∷ fetched_leaves σ (suc l) n

abbrev pub fetched_syn : ℕ → LeafNode → Option LeafNode → List Fetched
fetched_syn i l none = []
fetched_syn i l (some m) =
    record { addr = l.metadata.synonym_ptr; locked = leaf_address i; leaf = m } ∷ []

-- The synonym leaves of the leaves from `l` on.
unfoldable pub fetched_syns : (ℕ → Node) → ℕ → ℕ → List Fetched
fetched_syns σ l zero = []
fetched_syns σ l (suc n) = fetched_syn l (σ l).leaf (σ l).syn ++ fetched_syns σ (suc l) n

pub syn_not_null : {p : GlobalAddress} → IsSynAddress p → addr_eq p null_addr ≡ false
syn_not_null {p} h = addr_eq_ne p null_addr (λ e. bad (ap (λ a. a.offset) e))
  where
    bad : p.offset ≡ 0 → ⊥
    bad e = omega arith

module _ {Raw A : Type 0} (codec : Codec Raw) (s : Dsm Raw A) where
  fetch_nothing : fetch_nodes codec s (synonym_targets []) ≡ some []
  unfolding synonym_targets fetch_nodes
  fetch_nothing = refl

  fetch_leaves :
      (σ : ℕ → Node) (l n : ℕ)
      → ((i : ℕ) → i + 1 < leaf_num_max → codec.decode (s.mem (leaf_address i)) ≡ some (σ i).leaf)
      → l + n < leaf_num_max
      → fetch_nodes codec s (targets l n) ≡ some (fetched_leaves σ l n)
  unfolding targets fetched_leaves fetch_nodes fetch_node
  fetch_leaves σ l zero at h = refl
  fetch_leaves σ l (suc n) at h = rw (at l (omega arith), fetch_leaves σ (suc l) n at (omega arith))

  -- One leaf adds its synonym leaf to what is to be read, and the read finds it.
  fetch_syn :
      (i : ℕ) (l : LeafNode) (syn : Option LeafNode) (a : GlobalAddress) (rest : List Fetched)
      {found : List Fetched}
      → Linked codec s l syn
      → fetch_nodes codec s (synonym_targets rest) ≡ some found
      → fetch_nodes codec s
          (synonym_targets (record { addr = leaf_address i; locked = a; leaf = l } ∷ rest))
        ≡ some (fetched_syn i l syn ++ found)
  unfolding synonym_targets fetch_nodes fetch_node
  fetch_syn i l none a rest h r = rw h r
  fetch_syn i l (some m) a rest h r = rw (syn_not_null h.1, h.0, r)

module _ {Raw A : Type 0} (codec : Codec Raw) (al : Allocator A) (cache : RolexCache)
    {s : Dsm Raw A} {σ : ℕ → Node} (rep : Represents codec al cache s σ) where
  fetch_syns :
      (l n : ℕ)
      → fetch_nodes codec s (synonym_targets (fetched_leaves σ l n)) ≡ some (fetched_syns σ l n)
  unfolding fetched_leaves fetched_syns
  fetch_syns l zero = fetch_nothing codec s
  fetch_syns l (suc n) =
      fetch_syn codec s l (σ l).leaf (σ l).syn (leaf_address l) (fetched_leaves σ (suc l) n)
        (rep.linked l) (fetch_syns (suc l) n)

  -- A fetch of the leaves from `l` to `r` brings back these leaves and then their synonym leaves.
  pub fetch_range_lem :
      (l r : ℕ)
      → l + (r + 1 - l) < leaf_num_max
      → fetch_range codec s l r
        ≡ some (fetched_leaves σ l (r + 1 - l) ++ fetched_syns σ l (r + 1 - l))
  unfolding fetch_range
  fetch_range_lem l r h = rw (
    leaf_targets-targets l (r + 1 - l) h,
    fetch_leaves codec s σ l (r + 1 - l) rep.leaf_at h,
    fetch_syns l (r + 1 - l),
  )

  -- The first fetch of an insertion, of the leaves alone, comes back.
  pub fetch_first :
      (l n : ℕ)
      → l + n < leaf_num_max
      → (ts : List Target) × (leaf_targets l n ≡ some ts)
        × (fetch_nodes codec s ts ≡ some (fetched_leaves σ l n))
  fetch_first l n h =
      (targets l n, leaf_targets-targets l n h, fetch_leaves codec s σ l n rep.leaf_at h)
