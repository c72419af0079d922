-- ===== src/Tree/Results.antt =====
-- Each outcome of the local step of RolexIndex::insert of src/Rolex.cpp, written to memory.
use mathlib.Core.Path.{subst}
use riiver_rolex.Base.{
  ℕ, ◌+◌, ◌<◌, ◌≡◌, refl, sym, ap, ◌∙◌, ◌≢◌, inl, inr, true, false, none, some, arith, length,
}
use riiver_rolex.Address.{GlobalAddress}
use riiver_rolex.Layout.{leaf_num_max}
use riiver_rolex.Leaf.{LeafNode, leaf_span_size, new_leaf}
use riiver_rolex.Leaf.Order.{insert_sorted}
use riiver_rolex.Leaf.Local.{Staged}
use riiver_rolex.Leaf.Synonym.{IsPair, contents}
use riiver_rolex.Cache.{RolexCache, InsertRange, search_from_cache_for_insert}
use riiver_rolex.Codec.{Codec, IsStorable, All, FitsEntry, increment_node_versions}
use riiver_rolex.Alloc.{Allocator, IsSynAddress}
use riiver_rolex.Tree.{Dsm, write_at}
use riiver_rolex.Tree.Spec.{Node, items, ptr, Linked, Represents}
use riiver_rolex.Tree.Finds.{home_range}
use riiver_rolex.Tree.Shapes.{Shape, kept, known, fresh, AllSyn}
use riiver_rolex.Tree.Versions.{increment_leaf, increment_syn, increment-ptr, increment-IsStorable}
use riiver_rolex.Tree.Changed.{Linked-syn, Linked-ptr, Linked-same}
use riiver_rolex.Tree.Outcome.{node, write_self, write_ne, Done}
use riiver_rolex.Tree.Finish.{
  home_address, home_leaf, home_syn, staged_IsStorable, read_back, finish, relocked, finish_leaf,
  finish_both, finish_syn,
}
use riiver_rolex.Tree.Placed.{changed_old, changed_new, leaf-syn_apart}

module _ {Raw A : Type 0} (codec : Codec Raw) (al : Allocator A) (cache : RolexCache)
    {s : Dsm Raw A} {σ : ℕ → Node} (rep : Represents codec al cache s σ) (k v : ℕ) (g : InsertRange)
    (home : search_from_cache_for_insert cache k ≡ some g) (bound : g.last + 1 < leaf_num_max)
    (space : al.CanAlloc s.heap) where
  module _ (t : Staged A)
      (holds : contents t.leaf t.syn_leaf ≡ insert_sorted k v (items (σ g.insert_idx)))
      (pair : IsPair t.leaf t.syn_leaf) (fits : All FitsEntry t.leaf.records)
      (syn_fits : AllSyn t.syn_leaf) where
    old_leaf : t.leaf.metadata ≡ (home_leaf σ g).metadata → IsStorable t.leaf
    old_leaf e =
        staged_IsStorable t.leaf (σ g.insert_idx).leaf (rep.storable g.insert_idx) pair.leaf.size e
          fits

    result_kept :
        t.leaf.metadata ≡ (home_leaf σ g).metadata
        → t.syn_leaf ≡ (home_syn σ g)
        → t.write_leaf ≡ true
        → t.write_syn_leaf ≡ false
        → t.heap ≡ s.heap
        → Done codec al cache s σ k v g.insert_idx (finish codec cache s (home_address g) (some t))
    result_kept meta same a b heap =
        let st = old_leaf meta in
        let l' = increment_node_versions t.leaf in
        let m : ptr (node l' t.syn_leaf) ≡ ptr (σ g.insert_idx) =
          increment-ptr t.leaf ∙ ap (λ d. d.synonym_ptr) meta in
        let (pair', holds') = increment_leaf t.leaf t.syn_leaf pair in
        let s' : Dsm Raw A = record {
          mem = write_at s.mem (home_address g) (codec.encode t.leaf);
          lock = (relocked s (home_address g));
          heap = t.heap;
        } in
        let old : Linked codec s' (σ g.insert_idx).leaf (home_syn σ g) =
          Linked-same codec s s' (σ g.insert_idx).leaf (home_syn σ g)
            (λ ne. write_ne s.mem (home_address g) (ptr (σ g.insert_idx)) _ (λ e.
              leaf-syn_apart codec al cache rep k v g home bound space (ptr (σ g.insert_idx))
                (Linked-syn codec s (σ g.insert_idx).leaf (home_syn σ g) (rep.linked g.insert_idx)
                  ne)
                (sym e)))
            (rep.linked g.insert_idx) in
        rw (finish_leaf codec cache s (home_address g) t a b) (
          changed_old codec al cache rep k v g home bound space s' (node l' t.syn_leaf) m
            (rw same (λ ne. ne)) (holds' ∙ holds) pair' (increment-IsStorable t.leaf st)
            (read_back codec s' (home_address g) t.leaf st (write_self s.mem (home_address g) _))
            (rw same (Linked-ptr codec s' (σ g.insert_idx).leaf l' (home_syn σ g) (sym m) old))
            (λ p ne _. write_ne s.mem (home_address g) p _ ne) refl heap)

    -- Both node buffers are written, the synonym leaf to `p`.
    module _ (m' : LeafNode) (is : t.syn_leaf ≡ some m') (p : GlobalAddress)
        (p-syn : IsSynAddress p) (points : t.leaf.metadata.synonym_ptr ≡ p) (st : IsStorable t.leaf)
        (st' : IsStorable m') where
      both : Dsm Raw A
      both = record {
        mem = write_at (write_at s.mem (home_address g) (codec.encode t.leaf)) p (codec.encode m');
        lock = (relocked s (home_address g));
        heap = t.heap;
      }

      both_node : Node
      both_node = node (increment_node_versions t.leaf) (some (increment_node_versions m'))

      both_ptr : ptr both_node ≡ p
      unfolding both_node
      both_ptr = increment-ptr t.leaf ∙ points

      both_items :
          (items both_node ≡ insert_sorted k v (items (σ g.insert_idx)))
          × IsPair both_node.leaf both_node.syn
      unfolding both_node
      both_items =
          let pair' = subst (IsPair t.leaf) is pair in
          let (q, e) = increment_syn t.leaf m' pair' in
          let (q', e') = increment_leaf t.leaf (some (increment_node_versions m')) q in
          (
            e'
                ∙ e
                ∙ subst (λ z. contents t.leaf z ≡ insert_sorted k v (items (σ g.insert_idx))) is
                    holds,
            q',
          )

      both_leaf : codec.decode (both.mem (home_address g)) ≡ some both_node.leaf
      unfolding both both_node
      both_leaf = read_back codec both (home_address g) t.leaf st (
          write_ne (write_at s.mem (home_address g) (codec.encode t.leaf)) p (home_address g)
            (codec.encode m') (leaf-syn_apart codec al cache rep k v g home bound space p p-syn)
          ∙ write_self s.mem (home_address g) (codec.encode t.leaf))

      both_points : Linked codec both both_node.leaf both_node.syn
      unfolding both both_node
      both_points = rw (both_ptr) (
        read_back codec both p m' st' (
            write_self (write_at s.mem (home_address g) (codec.encode t.leaf)) p (codec.encode m')),
        p-syn,
        increment-IsStorable m' st',
      )

      both_others :
          (a : GlobalAddress)
          → a ≢ (home_address g)
          → (both_node.syn ≢ none → a ≢ ptr both_node)
          → both.mem a ≡ s.mem a
      unfolding both both_node
      both_others a ne far =
          write_ne (write_at s.mem (home_address g) (codec.encode t.leaf)) p a (codec.encode m')
            (λ e. far (λ n. cc) (e ∙ sym both_ptr))
          ∙ write_ne s.mem (home_address g) a (codec.encode t.leaf) ne

      result_old :
          p ≡ ptr (σ g.insert_idx)
          → (home_syn σ g) ≢ none
          → t.heap ≡ s.heap
          → Done codec al cache s σ k v g.insert_idx both
      unfolding both both_node
      result_old e had heap =
          changed_old codec al cache rep k v g home bound space both both_node (both_ptr ∙ e)
            (λ ne. had) both_items.0 both_items.1 (increment-IsStorable t.leaf st) both_leaf
            both_points both_others refl heap

      result_new :
          p ≡ (al.alloc s.heap).0
          → t.heap ≡ (al.alloc s.heap).1
          → Done codec al cache s σ k v g.insert_idx both
      unfolding both both_node
      result_new e heap =
          changed_new codec al cache rep k v g home bound space both both_node (both_ptr ∙ e)
            both_items.0 both_items.1 (increment-IsStorable t.leaf st) both_leaf both_points
            both_others refl heap

      finish_pair :
          t.syn_addr ≡ p
          → t.write_leaf ≡ true
          → t.write_syn_leaf ≡ true
          → finish codec cache s (home_address g) (some t) ≡ both
      unfolding both
      finish_pair e a b = rw (finish_both codec cache s (home_address g) t m' is a b, e) refl

    -- Only the synonym leaf is written.
    result_behind :
        (m' : LeafNode) (is : t.syn_leaf ≡ some m')
        → t.leaf ≡ (home_leaf σ g)
        → (home_syn σ g) ≢ none
        → IsStorable m'
        → t.heap ≡ s.heap
        → Done codec al cache s σ k v g.insert_idx (record {
          mem = write_at s.mem (ptr (σ g.insert_idx)) (codec.encode m');
          lock = (relocked s (home_address g));
          heap = t.heap;
        })
    result_behind m' is same had st' heap =
        let l = (σ g.insert_idx).leaf in
        let p = ptr (σ g.insert_idx) in
        let p-syn = Linked-syn codec s l (home_syn σ g) (rep.linked g.insert_idx) had in
        let s' : Dsm Raw A = record {
          mem = write_at s.mem p (codec.encode m');
          lock = (relocked s (home_address g));
          heap = t.heap;
        } in
        let (q, e) =
          increment_syn l m'
            (subst (λ z. IsPair z (some m')) same (subst (IsPair t.leaf) is pair)) in
        let holds' : contents l (some m') ≡ insert_sorted k v (items (σ g.insert_idx)) =
          subst (λ z. contents z (some m') ≡ insert_sorted k v (items (σ g.insert_idx))) same
            (subst (λ z. contents t.leaf z ≡ insert_sorted k v (items (σ g.insert_idx))) is
              holds) in
        changed_old codec al cache rep k v g home bound space s'
          (node l (some (increment_node_versions m'))) refl (λ ne. had) (e ∙ holds') q
          (rep.storable g.insert_idx)
          (rw
            (write_ne s.mem p (home_address g) (codec.encode m')
              (leaf-syn_apart codec al cache rep k v g home bound space p p-syn))
            (rep.leaf_at g.insert_idx (omega (arith, (home_range cache k g home).2))))
          (
            read_back codec s' p m' st' (write_self s.mem p (codec.encode m')),
            p-syn,
            increment-IsStorable m' st',
          )
          (λ a ne far. write_ne s.mem p a (codec.encode m') (far (λ n. cc))) refl heap

    old_linked :
        (m : LeafNode)
        → (home_syn σ g) ≡ some m
        → IsSynAddress (ptr (σ g.insert_idx)) × IsStorable m
    old_linked m e =
        let h = subst (Linked codec s (σ g.insert_idx).leaf) e (rep.linked g.insert_idx) in
        (h.1, h.2)

    fresh_addr : IsSynAddress (al.alloc s.heap).0
    fresh_addr = al.Free-syn s.heap (al.alloc s.heap).0 (al.alloc-Free s.heap space)

    syn_entries :
        (m' : LeafNode)
        → t.syn_leaf ≡ some m'
        → All FitsEntry m'.records × (length m'.records ≡ leaf_span_size)
    syn_entries m' e = (subst AllSyn e syn_fits, (subst (IsPair t.leaf) e pair).synonym.0.size)

    new_IsStorable :
        (m' : LeafNode) → t.syn_leaf ≡ some m' → m'.metadata ≡ new_leaf.metadata → IsStorable m'
    new_IsStorable m' e meta = record {
      size = (syn_entries m' e).1;
      version = rw meta (record { node = omega arith; entry = omega arith });
      node_id = rw meta (omega arith);
      offset = rw meta (omega arith);
      entries = (syn_entries m' e).0;
    }

    pointed_IsStorable :
        t.leaf.metadata ≡ record (home_leaf σ g).metadata { synonym_ptr = (al.alloc s.heap).0 }
        → IsStorable t.leaf
    pointed_IsStorable meta =
        let home = fresh_addr.node_id in
        record {
          size = pair.leaf.size;
          version = rw meta (rep.storable g.insert_idx).version;
          node_id = rw meta (omega arith);
          offset = rw meta fresh_addr.high;
          entries = fits;
        }

    pub result_of :
        Shape al.alloc (home_leaf σ g) (home_syn σ g) (home_leaf σ g).metadata.synonym_ptr s.heap t
        → Done codec al cache s σ k v g.insert_idx (finish codec cache s (home_address g) (some t))
    result_of (kept a b c d e) = result_kept a b c d e
    result_of (known m m' had is meta lmeta addr w h (inl on)) =
        let (p-syn, st) = old_linked m had in
        let points = ap (λ d. d.synonym_ptr) lmeta in
        let st' = staged_IsStorable m' m st (syn_entries m' is).1 meta (syn_entries m' is).0 in
        let p = ptr (σ g.insert_idx) in
        rw (finish_pair m' is p p-syn points (old_leaf lmeta) st' addr on w)
          (result_old m' is p p-syn points (old_leaf lmeta) st' refl (λ n. cc) h)
    result_of (known m m' had is meta lmeta addr w h (inr (off, same))) =
        let (p-syn, st) = old_linked m had in
        let st' = staged_IsStorable m' m st (syn_entries m' is).1 meta (syn_entries m' is).0 in
        rw (finish_syn codec cache s (home_address g) t m' is off w, addr)
          (result_behind m' is same (λ n. cc) st' h)
    result_of (fresh m' none' is meta lmeta addr wl ws h) =
        let points = ap (λ d. d.synonym_ptr) lmeta in
        let st = pointed_IsStorable lmeta in
        let st' = new_IsStorable m' is meta in
        let p = (al.alloc s.heap).0 in
        rw (finish_pair m' is p fresh_addr points st st' addr wl ws)
          (result_new m' is p fresh_addr points st st' refl h)
