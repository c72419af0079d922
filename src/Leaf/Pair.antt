-- ===== src/Leaf/Pair.antt =====
-- A leaf with its synonym leaf: what it holds, its invariant, and the local step of an insertion.
use mathlib.Core.Path.{subst}
use mathlib.Core.List.{append-nil}
use riiver_rolex.Base.{
  ℕ, ◌-◌, ◌<◌, ◌≡◌, refl, sym, ap, ◌∙◌, ◌≢◌, inl, inr, false, Option, none, some, List, [], ◌∷◌,
  arith, ◌==◌, if◌then◌else◌, Bool-cases, Option-cases, get_or,
}
use riiver_rolex.Address.{GlobalAddress, max_addr, addr_eq}
use riiver_rolex.Leaf.{LeafEntry, LeafNode, leaf_span_size, null_entry, probe, next_null, place}
use riiver_rolex.Leaf.Order.{
  live, Increasing, insert_sorted, lookup, lookup_below, Increasing-tail, lookup_nil,
  insert_sorted-Increasing, lookup-append, lookup-append_some,
}
use riiver_rolex.Leaf.Shift.{insert_at, place_lem, length-insert_at}
use riiver_rolex.Leaf.Scan.{entry, probe-none, probe-bounds, next_null-ge, next_null-le}
use riiver_rolex.Leaf.Insert.{next_null-insert_at, insert_at-full, insert_sorted-behind}
use riiver_rolex.Leaf.Local.{
  stage_behind, stage_overflow, insert_into_syn_leaf_locally, insert_behind, insert_overflow,
  insert_inside, insert_locally, link, with_records,
}
use riiver_rolex.Leaf.Synonym.{
  live_syn, contents, IsSorted, SynSorted, IsPair, HasRoom, Inserted, present, placed, place-live,
  link-records, into_syn, into_syn_present, no_synonym, insert_sorted-front,
}

module _ {A : Type 0} (alloc : A → GlobalAddress × A) {l : LeafNode} {syn : Option LeafNode}
    (pair : IsPair l syn) (room : HasRoom syn) (heap : A)
    (fresh : addr_eq (alloc heap).0 max_addr ≡ false) (k v : ℕ) (pos : 0 < k)
    (old : GlobalAddress) where
  records : List LeafEntry
  records = l.records

  result-IsPair :
      (t : LeafNode) (s : LeafNode)
      → contents t (some s) ≡ insert_sorted k v (contents l syn)
      → IsSorted t
      → IsSorted s
      → next_null 0 t.records ≡ leaf_span_size
      → IsPair t (some s)
  result-IsPair t s e o q full = record {
    leaf = o;
    synonym = (q, full);
    increasing = rw e (insert_sorted-Increasing k v 0 (contents l syn) pos pair.increasing);
  }

  syn_items : List (ℕ × ℕ)
  syn_items = live_syn syn

  behind :
      probe k l.records ≡ some leaf_span_size
      → lookup k (live_syn syn) ≡ none
      → Inserted k v l syn (insert_behind alloc k v l syn old heap)
  unfolding insert_behind
  behind e absent =
      let r = insert_into_syn_leaf_locally alloc k v syn heap in
      let p = into_syn alloc k v l syn heap fresh pos pair.synonym room absent in
      let size = pair.leaf.size in
      let b = probe-bounds k 0 leaf_span_size l.records pos pair.leaf.ordered e in
      let full : next_null 0 l.records ≡ leaf_span_size =
        omega (arith, b.2, next_null-ge leaf_span_size l.records, next_null-le l.records) in
      let sorted : contents (link l r.addr) (some r.syn_leaf) ≡ insert_sorted k v (contents l syn) =
        rw (link-records l r.addr, p.holds)
          (sym (
            insert_sorted-behind k v pos 0 l.records (live_syn syn) pair.leaf.ordered
              (rw size e))) in
      placed (stage_behind l old r) (rw p.here refl)
        (lookup-append k (live l.records) (live_syn syn) b.0 ∙ absent) sorted
        (result-IsPair (link l r.addr) r.syn_leaf sorted
          (record {
            size = rw (link-records l r.addr) size;
            ordered = rw (link-records l r.addr) pair.leaf.ordered;
          })
          p.sorted (rw (link-records l r.addr) full))

  overflow :
      (i : ℕ)
      → probe k l.records ≡ some i
      → i < leaf_span_size
      → next_null i l.records ≡ leaf_span_size
      → Inserted k v l syn (insert_overflow alloc k v i l syn old heap)
  unfolding insert_overflow
  overflow i e lt full =
      let last = get_or l.records (leaf_span_size - 1) null_entry in
      let r = insert_into_syn_leaf_locally alloc last.key last.value syn heap in
      let size = pair.leaf.size in
      let b = probe-bounds k 0 i l.records pos pair.leaf.ordered e in
      let f =
        insert_at-full k v pos 0 i 15 l.records (live_syn syn) pos pair.leaf.ordered e (omega arith)
          (omega arith) (omega arith) in
      let after : Increasing last.key (live_syn syn) =
        (Increasing-tail 0 (live (insert_at i 15 k v l.records)) (entry last ∷ live_syn syn)
          (rw f.0 at (insert_sorted-Increasing k v 0 (contents l syn) pos pair.increasing))).1 in
      let absent = lookup_below last.key last.key (live_syn syn) after (omega arith) in
      let p =
        into_syn alloc last.key last.value l syn heap fresh (omega arith) pair.synonym room
          absent in
      let t = stage_overflow k v i l old r in
      let same : t.leaf.records ≡ insert_at i 15 k v l.records =
        place_lem i 15 k v l.records (omega arith) in
      let sorted : contents t.leaf (some r.syn_leaf) ≡ insert_sorted k v (contents l syn) =
        rw (same, p.holds, insert_sorted-front last.key last.value (live_syn syn) after)
          (sym f.0) in
      placed t (rw p.here refl)
        (lookup-append k (live l.records) (live_syn syn) b.0
          ∙ lookup_below k last.key (live_syn syn) after (omega arith))
        sorted
        (result-IsPair t.leaf r.syn_leaf sorted
          (record {
            size = rw same (omega (arith, length-insert_at i 15 k v l.records));
            ordered = rw same f.1;
          })
          p.sorted
          (rw same (omega (arith, next_null-insert_at i 15 k v l.records pos (omega arith)))))

  inside :
      (i : ℕ)
      → probe k l.records ≡ some i
      → next_null i l.records < leaf_span_size
      → Inserted k v l syn (insert_inside alloc k v i (next_null i l.records) l syn old heap)
  unfolding insert_inside
  inside i e lt =
      let size = pair.leaf.size in
      let b = probe-bounds k 0 i l.records pos pair.leaf.ordered e in
      let gone = no_synonym l syn pair.synonym (omega arith) in
      let nothing : live_syn syn ≡ [] = ap live_syn gone in
      let r = place-live alloc k v pos l.records i pair.leaf.ordered e (omega arith) in
      let t = with_records l (place i (next_null i l.records) k v l.records) in
      let sorted : contents t syn ≡ insert_sorted k v (contents l syn) =
        rw nothing (append-nil _ ∙ r.0 ∙ ap (insert_sorted k v) (sym (append-nil _))) in
      placed _ refl
        (lookup-append k (live l.records) (live_syn syn) b.0 ∙ rw nothing (lookup_nil k)) sorted
        (record {
          leaf = record { size = omega (arith, r.2); ordered = r.1 };
          synonym = subst (SynSorted t) (sym gone) tt;
          increasing =
              rw sorted (insert_sorted-Increasing k v 0 (contents l syn) pos pair.increasing);
        })

  -- The key is in the synonym leaf.
  behind_present :
      probe k l.records ≡ some leaf_span_size
      → lookup k (live_syn syn) ≢ none
      → Inserted k v l syn (insert_behind alloc k v l syn old heap)
  unfolding insert_behind
  behind_present e there =
      let b = probe-bounds k 0 leaf_span_size l.records pos pair.leaf.ordered e in
      present (rw (lookup-append k (live l.records) (live_syn syn) b.0) there)
        (rw (into_syn_present alloc k v l syn heap pos pair.synonym there) refl)

  step_none : probe k l.records ≡ none → insert_locally alloc k v l syn old heap ≡ none
  unfolding insert_locally
  step_none e = rw (e, insert_locally)

  step_some :
      (i : ℕ)
      → probe k l.records ≡ some i
      → insert_locally alloc k v l syn old heap ≡ (
          if i == leaf_span_size
          then insert_behind alloc k v l syn old heap
          else if next_null i l.records == leaf_span_size
          then insert_overflow alloc k v i l syn old heap
          else insert_inside alloc k v i (next_null i l.records) l syn old heap)
  unfolding insert_locally
  step_some i e = rw (e, insert_locally)

  -- The local step of `insert`, on a leaf and synonym leaf that are sorted, with room in the synonym
  -- leaf: a key that is there ends it, and any other key is inserted in order.
  pub insert_locally-Inserted : Inserted k v l syn (insert_locally alloc k v l syn old heap)
  insert_locally-Inserted = elim (Option-cases (probe k l.records)) [
    | inl e ↦
        let there = probe-none k 0 l.records pos pair.leaf.ordered e in
        present (rw (lookup-append_some k (live l.records) (live_syn syn) there) there)
          (step_none e)
    | inr (i, e) ↦ rw (step_some i e) (split i e)
  ]
    where
      split :
          (i : ℕ)
          → probe k l.records ≡ some i
          → Inserted k v l syn (
              if i == leaf_span_size
              then insert_behind alloc k v l syn old heap
              else if next_null i l.records == leaf_span_size
              then insert_overflow alloc k v i l syn old heap
              else insert_inside alloc k v i (next_null i l.records) l syn old heap)
      split i e =
          let b = probe-bounds k 0 i l.records pos pair.leaf.ordered e in
          let size = pair.leaf.size in
          elim (Bool-cases (i == leaf_span_size)) [
            | inl z ↦
                let e' : probe k l.records ≡ some leaf_span_size = ground arith in
                rw z (elim (Option-cases (lookup k (live_syn syn))) [
                  | inl absent ↦ behind e' absent
                  | inr (w, found) ↦ behind_present e' (λ n. cc)
                ])
            | inr z ↦ elim (Bool-cases (next_null i l.records == leaf_span_size)) [
              | inl f ↦ rw (z, f) (overflow i e (ground arith) (ground arith))
              | inr f ↦ rw (z, f) (inside i e (ground (arith, next_null-le l.records)))
            ]
          ]
