-- ===== src/Chunk/Kept.antt =====
-- LocalAllocator::malloc of include/LocalAllocator.h in a chunk that the thread has.
use riiver_rolex.Base.{ℕ, ◌+◌, ◌*◌, ◌/◌, ◌≤◌, ◌<◌, sym, ap, ◌∙◌, ◌⊎◌, inl, inr, arith, ℕ_discrete}
use riiver_rolex.Layout.{chunk_size, syn_region_offset}
use riiver_rolex.Chunk.{LocalAllocator, Pool, set_local}
use riiver_rolex.Chunk.Pools.{
  Owns, IsPool, MayHave, Allocated, rounded, set_local_self, set_local_ne, locals-set, apart-set,
  other_chunk,
}

module _ (size : ℕ) (pos : 0 < size) (small : size ≤ chunk_size) where
  -- The thread's allocator after an allocation from its own chunk.
  unfoldable pub advanced : LocalAllocator → LocalAllocator
  advanced a = record a { cur = record a.cur { offset = (a.cur.offset + 63) / 64 * 64 + size } }

  advanced-Owns :
      (tail c : ℕ) (a : LocalAllocator)
      → Owns tail c a
      → (a.cur.offset + 63) / 64 * 64 + size ≤ syn_region_offset + (c + 1) * chunk_size
      → Owns tail c (advanced a)
  unfolding advanced
  advanced-Owns tail c a o fits = record {
    before = o.before;
    first = o.first;
    head = o.head;
    home = o.home;
    low = let l = o.low in omega arith;
    high = fits;
  }

  kept_apart :
      (p : Pool) (t c : ℕ)
      → IsPool p
      → Owns p.chunks.bitmap_tail c (p.local t)
      → ((p.local t).cur.offset + 63) / 64 * 64 + size ≤ syn_region_offset + (c + 1) * chunk_size
      → (u x : ℕ) → MayHave (record p { local = set_local p.local t (advanced (p.local t)) }) u x
      → MayHave p u x
        × ((x < ((p.local t).cur.offset + 63) / 64 * 64)
            ⊎ (((p.local t).cur.offset + 63) / 64 * 64 + size ≤ x))
  unfolding advanced
  kept_apart p t c w o fits u x (inr far) = let b = o.before in (inr far, inr (omega arith))
  kept_apart p t c w o fits u x (inl h) = elim (ℕ_discrete u t) [
    | yes e ↦
        let (real, lo, hi) = rw (e, set_local_self p.local t (advanced (p.local t))) at h in
        let z : MayHave p t x = inl (real, omega arith, hi) in (rw e z, inr lo)
    | no ne ↦
        let (real, lo, hi) = rw (set_local_ne p.local t u (advanced (p.local t)) ne) at h in
        let l = o.low in
        (
          inl (real, lo, hi),
          elim (other_chunk p t u c x w ne o real lo hi) [
            | inl below ↦ inl (omega arith)
            | inr above ↦ inr (omega arith)
          ],
        )
  ]

  pub kept_chunk :
      (p : Pool) (t c : ℕ)
      → IsPool p
      → Owns p.chunks.bitmap_tail c (p.local t)
      → ((p.local t).cur.offset + 63) / 64 * 64 + size ≤ syn_region_offset + (c + 1) * chunk_size
      → Allocated p t size
          (rounded (p.local t).cur)
          (record p { local = set_local p.local t (advanced (p.local t)) })
  unfolding rounded advanced
  kept_chunk p t c w o fits = record {
    pool = record {
      start = w.start;
      len = w.len;
      tail = w.tail;
      tail_high = w.tail_high;
      clear = w.clear;
      local =
          locals-set p.local t (advanced (p.local t)) p.chunks.bitmap_tail w.local
            ((w.local t).0, inr (c, advanced-Owns p.chunks.bitmap_tail c (p.local t) o fits));
      apart = apart-set p.local t (advanced (p.local t)) w.apart (λ u ne.
          w.apart t u (λ e. ne (sym e))
            (λ e. let f = ap (λ z. z.offset) (sym o.head ∙ e) in absurd (omega arith)));
    };
    home = o.home;
    aligned = omega arith;
    low = let l = o.low in omega arith;
    high = let b = o.before in let th = w.tail_high in omega arith;
    mine = inl (
      (λ e. let f = ap (λ z. z.offset) (sym o.head ∙ e) in absurd (omega arith)),
      omega arith,
      let f = ap (λ z. z.offset) o.head in omega arith,
    );
    apart = kept_apart p t c w o fits;
  }
