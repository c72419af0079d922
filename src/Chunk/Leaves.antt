-- ===== src/Chunk/Leaves.antt =====
-- The allocation of synonym leaves by a client thread, as the index uses it.
use riiver_rolex.Base.{ℕ, ◌<◌, ap, inl, inr, none, some, arith}
use riiver_rolex.Address.{GlobalAddress, null_addr}
use riiver_rolex.Layout.{allocation_leaf_size}
use riiver_rolex.Alloc.{Allocator, IsSynAddress}
use riiver_rolex.Chunk.{Pool, dsm_alloc}
use riiver_rolex.Chunk.Pools.{IsPool, chunk_count, MayHave}
use riiver_rolex.Chunk.Region.{dsm_alloc_lem}

-- `dsm->alloc(define::allocationLeafSize)` by thread `t`; a failed assertion gives the null address.
unfoldable alloc_leaf : ℕ → Pool → GlobalAddress × Pool
alloc_leaf t p = elim (dsm_alloc t allocation_leaf_size 6 p) [ some r ↦ r | none ↦ (null_addr, p) ]

-- It is an allocator of synonym leaves.
unfoldable pub leaf_allocator : ℕ → Allocator Pool
unfolding alloc_leaf
leaf_allocator t = record {
  alloc = alloc_leaf t;
  Free = λ h p. IsSynAddress p × MayHave h t p.offset;
  CanAlloc = λ h. IsPool h × (h.chunks.bitmap_tail < chunk_count);
  alloc-Free = λ h c.
      let (q, h', e, a) =
        dsm_alloc_lem allocation_leaf_size (omega arith) (omega arith) h t c.0 c.1 in
      rw (e, alloc_leaf)
        (record { node_id = a.home; low = a.low; high = let u = a.high in omega arith }, a.mine);
  alloc_rest = λ h c p f.
      let (q, h', e, a) =
        dsm_alloc_lem allocation_leaf_size (omega arith) (omega arith) h t c.0 c.1 in
      let (had, far) = a.apart t p.offset (rw (e, alloc_leaf) at f.1) in
      (
        (f.0, had),
        rw (e, alloc_leaf)
            (λ same. elim far [
              | inl l ↦ let z = ap (λ r. r.offset) same in absurd (omega arith)
              | inr l ↦ let z = ap (λ r. r.offset) same in absurd (omega arith)
            ]),
      );
  Free-syn = λ h p f. f.0;
}
