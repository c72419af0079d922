-- ===== src/Tree/Written.antt =====
-- What RolexIndex::update of src/Rolex.cpp leaves behind where it finds the key.
use mathlib.Core.Path.{subst}
use riiver_rolex.Base.{
  ℕ, ◌+◌, ◌-◌, ◌^◌, ◌<◌, ◌≡◌, refl, sym, ap, ◌∙◌, ◌≢◌, inl, inr, Option, none, some, ◌==◌,
  Bool-cases, ==_iff,
}
use riiver_rolex.Address.{GlobalAddress, addr_eq, addr_eq_iff}
use riiver_rolex.Layout.{leaf_num_max}
use riiver_rolex.Leaf.{LeafNode}
use riiver_rolex.Leaf.Order.{live, lookup}
use riiver_rolex.Leaf.Local.{with_records}
use riiver_rolex.Leaf.Synonym.{IsPair, SynSorted, contents, live_syn}
use riiver_rolex.Cache.{RolexCache}
use riiver_rolex.Codec.{Codec, IsStorable, increment_node_versions}
use riiver_rolex.Alloc.{Allocator}
use riiver_rolex.Tree.{Dsm, write_at}
use riiver_rolex.Tree.Spec.{Node, items, ptr, leaf_address, Linked, Represents}
use riiver_rolex.Tree.Outcome.{node, write_self, write_ne}
use riiver_rolex.Tree.Versions.{increment_leaf, increment_syn, increment-ptr, increment-IsStorable}
use riiver_rolex.Tree.Changed.{
  changed, put, put_self, put_ne, leaf_address-syn, Linked-syn, Linked-same, Linked-ptr,
}
use riiver_rolex.Tree.Assign.{
  assign, lookup-assign, assign-Increasing, assign-append_some, assign-append, Assigned,
}

-- What the operation leaves behind: the value assigned to the key at its leaf, if it is there, no
-- other leaf changed, and every lock word as it was.
pub record Updated {Raw A : Type 0} (codec : Codec Raw) (al : Allocator A) (cache : RolexCache)
    (s : Dsm Raw A) (σ : ℕ → Node) (k v i : ℕ) (s' : Dsm Raw A) : Type 0 where
  pub σ' : ℕ → Node
  pub represents : Represents codec al cache s' σ'
  pub holds : items (σ' i) ≡ assign k v (items (σ i))
  pub others : (j : ℕ) → j ≢ i → σ' j ≡ σ j
  pub locks : (a : GlobalAddress) → s'.lock a ≡ s.lock a

module _ {Raw A : Type 0} (codec : Codec Raw) (al : Allocator A) (cache : RolexCache)
    {s : Dsm Raw A} {σ : ℕ → Node} (rep : Represents codec al cache s σ) (k v i : ℕ) (pos : 0 < k)
    (vf : v < 2 ^ 64) (bound : i + 1 < leaf_num_max) where
  unfoldable pub at : GlobalAddress
  at = leaf_address i

  -- The state after a write of node `m` to `p` and the release of the lock.
  unfoldable pub written : GlobalAddress → LeafNode → Dsm Raw A
  written p m = record s {
    mem = write_at s.mem p (codec.encode m);
    lock = write_at (write_at s.lock at (2 ^ 64 - 1)) at (s.lock at);
  }

  relock : (p : GlobalAddress) (m : LeafNode) (a : GlobalAddress) → (written p m).lock a ≡ s.lock a
  unfolding written
  relock p m a = elim (Bool-cases (addr_eq at a)) [
    | inl e ↦ rw e (ap s.lock ((addr_eq_iff at a).0 e))
    | inr e ↦ rw e refl
  ]

  -- The written node keeps its keys and its pointer.
  with_case :
      (p : GlobalAddress) (m : LeafNode) (n : Node)
      → ptr n ≡ ptr (σ i)
      → (n.syn ≢ none → (σ i).syn ≢ none)
      → items n ≡ assign k v (items (σ i))
      → IsPair n.leaf n.syn
      → IsStorable n.leaf
      → codec.decode ((written p m).mem at) ≡ some n.leaf
      → Linked codec (written p m) n.leaf n.syn
      → ((a : GlobalAddress) → a ≢ at → (n.syn ≢ none → a ≢ ptr n) → (written p m).mem a ≡ s.mem a)
      → Updated codec al cache s σ k v i (written p m)
  unfolding at written
  with_case p m n same had e pair st here linked others = record {
    σ' = put σ i n;
    represents = changed codec al cache bound rep (record {
      leaf_at = here;
      linked = linked;
      sorted = pair;
      storable = st;
      homed = λ q ne. rep.homed i q (kept q (rw e at ne));
      others = others;
      heap = λ p f. f;
      apart = λ j ne a b. rw same (rep.apart j i ne a (had b));
      unused = λ b. rw same (rep.unused i (had b));
      unlocked = λ a. rw (relock p m a) (rep.unlocked a);
    });
    holds = rw (put_self σ i n) e;
    others = put_ne σ i n;
    locks = relock p m;
  }
    where
      kept : (q : ℕ) → lookup q (assign k v (items (σ i))) ≢ none → lookup q (items (σ i)) ≢ none
      kept q ne gone = elim (Bool-cases (k == q)) [
        | inl z ↦
            let same = (==_iff k q).0 z in
            ne (lookup-assign q k v (items (σ i)) ∙ rw (z, same, gone) refl)
        | inr z ↦ ne (lookup-assign q k v (items (σ i)) ∙ rw (z, gone) refl)
      ]

  -- The key is in the leaf.
  pub leaf_case :
      (r : Assigned k v 0 (σ i).leaf.records)
      → lookup k (live (σ i).leaf.records) ≢ none
      → Updated codec al cache s σ k v i (written at (with_records (σ i).leaf r.records))
  unfolding at written
  leaf_case r there =
      let l = (σ i).leaf in
      let l' = with_records l r.records in
      let old = rep.storable i in
      let st : IsStorable l' = record {
        size = r.size ∙ old.size;
        version = old.version;
        node_id = old.node_id;
        offset = old.offset;
        entries = r.fits vf old.entries;
      } in
      let holds : contents l' (σ i).syn ≡ assign k v (items (σ i)) =
        rw (r.holds) (sym (assign-append_some k v (live l.records) (live_syn (σ i).syn) there)) in
      let (pair, same) = increment_leaf l' (σ i).syn (record {
        leaf = record { size = r.size ∙ old.size; ordered = r.ordered };
        synonym = behind (σ i).syn (rep.sorted i).synonym;
        increasing = rw holds (assign-Increasing k v 0 (items (σ i)) (rep.sorted i).increasing);
      }) in
      let s' = written at l' in
      let far : (σ i).syn ≢ none → ptr (σ i) ≢ at = λ ne e.
        leaf_address-syn i (ptr (σ i)) bound (Linked-syn codec s l (σ i).syn (rep.linked i) ne)
          (sym e) in
      with_case at l' (node (increment_node_versions l') (σ i).syn) (increment-ptr l') (λ ne. ne)
        (same ∙ holds) pair (increment-IsStorable l' st)
        (rw (write_self s.mem at (codec.encode l')) (codec.decode-encode l' st))
        (Linked-ptr codec s' l (increment_node_versions l') (σ i).syn (sym (increment-ptr l')) (
          Linked-same codec s s' l (σ i).syn
            (λ ne. write_ne s.mem at (ptr (σ i)) (codec.encode l') (far ne)) (rep.linked i)))
        (λ a ne _. write_ne s.mem at a (codec.encode l') ne)
    where
      behind :
          (z : Option LeafNode)
          → SynSorted (σ i).leaf z
          → SynSorted (with_records (σ i).leaf r.records) z
      behind none h = tt
      behind (some m) h = (h.0, r.full ∙ h.1)

  -- The key is in the synonym leaf.
  pub behind_case :
      (m : LeafNode) (is : (σ i).syn ≡ some m) (r : Assigned k v 0 m.records)
      → lookup k (live (σ i).leaf.records) ≡ none
      → Updated codec al cache s σ k v i (written (ptr (σ i)) (with_records m r.records))
  unfolding at written
  behind_case m is r absent =
      let l = (σ i).leaf in
      let p = ptr (σ i) in
      let m' = with_records m r.records in
      let (read, p-syn, old) = subst (Linked codec s l) is (rep.linked i) in
      let was = subst (IsPair l) is (rep.sorted i) in
      let st : IsStorable m' = record {
        size = r.size ∙ old.size;
        version = old.version;
        node_id = old.node_id;
        offset = old.offset;
        entries = r.fits vf old.entries;
      } in
      let holds : contents l (some m') ≡ assign k v (items (σ i)) =
        rw (r.holds, is) (sym (assign-append k v (live l.records) (live m.records) absent)) in
      let (pair, same) = increment_syn l m' (record {
        leaf = was.leaf;
        synonym = (record { size = r.size ∙ old.size; ordered = r.ordered }, was.synonym.1);
        increasing = rw holds (assign-Increasing k v 0 (items (σ i)) (rep.sorted i).increasing);
      }) in
      let far = leaf_address-syn i p bound p-syn in
      with_case p m' (node l (some (increment_node_versions m'))) refl (λ ne n. cc) (same ∙ holds)
        pair (rep.storable i) (rw (write_ne s.mem p at (codec.encode m') far) (rep.leaf_at i bound))
        (
          rw (write_self s.mem p (codec.encode m')) (codec.decode-encode m' st),
          p-syn,
          increment-IsStorable m' st,
        )
        (λ a ne other. write_ne s.mem p a (codec.encode m') (other (λ n. cc)))
