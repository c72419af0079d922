-- ===== src/Chunk/Region.antt =====
-- Allocations lie in the synonym region, aligned, and no two of them overlap, whichever threads make
-- them.
use riiver_rolex.Base.{
  ℕ, ◌+◌, ◌*◌, ◌/◌, ◌^◌, ◌≤◌, ◌<◌, ◌≡◌, refl, ap, ◌∙◌, ◌⊎◌, inl, inr, true, false, some, [], arith,
  ◌==◌, Bool-cases, ==_iff, dec_lt, ℕ_discrete,
}
use riiver_rolex.Address.{GlobalAddress, null_addr}
use riiver_rolex.Layout.{chunk_size, syn_region_offset}
use riiver_rolex.Chunk.{
  GlobalAllocator, LocalAllocator, Malloc, Pool, alloc_chunck, malloc, set_chunck, set_local,
  set_bit, dsm_alloc, new_pool,
}
use riiver_rolex.Chunk.Pools.{
  Owns, chunk_count, IsPool, MayHave, Allocated, rounded, chunk_given, set_local_self, set_local_ne,
  IsLocal-more, locals-set, apart-set, next_chunk, owned_below, new_head,
}
use riiver_rolex.Chunk.Room.{malloc-fits, malloc-full}
use riiver_rolex.Chunk.Kept.{advanced, kept_chunk}

-- The constructors establish the invariant of the allocators.
pub new_pool-IsPool : IsPool new_pool
new_pool-IsPool = record {
  start = refl;
  len = refl;
  tail = omega arith;
  tail_high = omega arith;
  clear = λ i h. ground arith;
  local = λ t. (refl, inl (refl, refl));
  apart = λ t u ne a. absurd (a refl);
}

module _ (size : ℕ) (pos : 0 < size) (small : size ≤ chunk_size) where
  starting : Pool → LocalAllocator
  starting p = record {
    head = next_chunk p;
    cur = record {
      node_id = 0;
      offset = syn_region_offset + p.chunks.bitmap_tail * chunk_size + size;
    };
    free_list = [];
  }

  grown : Pool → ℕ → Pool
  grown p t = record {
    chunks = record p.chunks {
      bitmap = set_bit p.chunks.bitmap p.chunks.bitmap_tail true;
      bitmap_tail = p.chunks.bitmap_tail + 1;
    };
    local = set_local p.local t (starting p);
  }

  grown_apart :
      (p : Pool) (t : ℕ)
      → IsPool p
      → (u x : ℕ) → MayHave (grown p t) u x
      → MayHave p u x × ((x < (next_chunk p).offset) ⊎ ((next_chunk p).offset + size ≤ x))
  unfolding grown starting next_chunk
  grown_apart p t w u x (inr far) = (inr (omega arith), inr (omega arith))
  grown_apart p t w u x (inl h) = elim (ℕ_discrete u t) [
    | yes e ↦
        let (real, lo, hi) = rw (e, set_local_self p.local t (starting p)) at h in
        (inr (omega arith), inr lo)
    | no ne ↦
        let (real, lo, hi) = rw (set_local_ne p.local t u (starting p) ne) at h in
        (inl (real, lo, hi), inl (owned_below p u x w real hi))
  ]

  new_chunk :
      (p : Pool) (t : ℕ)
      → IsPool p
      → p.chunks.bitmap_tail < chunk_count
      → Allocated p t size (next_chunk p) (grown p t)
  unfolding grown starting next_chunk
  new_chunk p t w lt = record {
    pool = record {
      start = w.start;
      len = w.len;
      tail = omega arith;
      tail_high = omega arith;
      clear = λ i le. elim (Bool-cases (i == p.chunks.bitmap_tail)) [
        | inl e ↦ let f = (==_iff i p.chunks.bitmap_tail).0 e in absurd (omega arith)
        | inr e ↦ rw e (w.clear i (omega arith))
      ];
      local =
          locals-set p.local t (starting p) (p.chunks.bitmap_tail + 1)
            (λ u.
              IsLocal-more p.chunks.bitmap_tail (p.chunks.bitmap_tail + 1) (p.local u) (omega arith)
                (w.local u))
            (
              refl,
              inr (
                p.chunks.bitmap_tail,
                record {
                  before = omega arith;
                  first = w.tail;
                  head = refl;
                  home = refl;
                  low = omega arith;
                  high = omega arith;
                },
              ),
            );
      apart = apart-set p.local t (starting p) w.apart (λ u ne. new_head p t u w ne);
    };
    home = refl;
    aligned = omega arith;
    low = omega arith;
    high = omega arith;
    mine = inr (omega arith);
    apart = grown_apart p t w;
  }

  step_fits :
      (p : Pool) (t : ℕ) (m : Malloc)
      → malloc size 6 (p.local t) ≡ m
      → m.need_chunck ≡ false
      → dsm_alloc t size 6 p ≡ some (m.res, record p { local = set_local p.local t m.local })
  unfolding dsm_alloc
  step_fits p t m e f = rw (e, f)

  step_new :
      (p : Pool) (t : ℕ) (m : Malloc) (addr : GlobalAddress) (chunks : GlobalAllocator)
      (again : Malloc)
      → malloc size 6 (p.local t) ≡ m
      → m.need_chunck ≡ true
      → alloc_chunck p.chunks ≡ some (addr, chunks)
      → malloc size 6 (set_chunck m.local addr) ≡ again
      → dsm_alloc t size 6 p
        ≡ some (again.res, record { chunks = chunks; local = set_local p.local t again.local })
  unfolding dsm_alloc
  step_new p t m addr chunks again e f g h = rw (e, f, g, h)

  -- While nothing is freed and a chunk is left, an allocation by any thread `t` of up to a chunk, at
  -- a multiple of 64, returns: the piece lies in the synonym region, where the thread could find
  -- memory before, no thread finds a byte of it afterwards, and the invariant of the allocators holds
  -- again.
  pub dsm_alloc_lem :
      (p : Pool) (t : ℕ)
      → IsPool p
      → p.chunks.bitmap_tail < chunk_count
      → (q : GlobalAddress) × (p' : Pool) × (dsm_alloc t size 6 p ≡ some (q, p'))
        × Allocated p t size q p'
  unfolding rounded advanced next_chunk starting grown
  dsm_alloc_lem p t w lt = elim (w.local t).1 [
    | inl e ↦ from_new (inl e.0) (let z = e.1 in omega arith)
    | inr (c, o) ↦
        elim (dec_lt (syn_region_offset + (c + 1) * chunk_size)
          (((p.local t).cur.offset + 63) / 64 * 64 + size)) [
            | no le ↦
                let fits : ((p.local t).cur.offset + 63) / 64 * 64 + size
                    ≤ syn_region_offset + (c + 1) * chunk_size =
                  omega arith in
                (
                  rounded (p.local t).cur,
                  record p { local = set_local p.local t (advanced size pos small (p.local t)) },
                  step_fits p t _
                      (malloc-fits size pos small p.chunks.bitmap_tail c (p.local t) o w.tail_high
                        fits)
                      refl,
                  kept_chunk size pos small p t c w o fits,
                )
            | yes l ↦
                let there = ap (λ z. z.offset) o.head in
                let b = o.before in
                let th = w.tail_high in let h = o.high in from_new (inr (omega arith)) (omega arith)
          ]
  ]
    where
      after : LocalAllocator
      after = record { head = next_chunk p; cur = next_chunk p; free_list = [] }

      after-Owns : Owns (p.chunks.bitmap_tail + 1) p.chunks.bitmap_tail after
      after-Owns = record {
        before = omega arith;
        first = w.tail;
        head = refl;
        home = refl;
        low = omega arith;
        high = omega arith;
      }

      again :
          malloc size 6 after
          ≡ record { res = next_chunk p; need_chunck = false; local = starting p }
      again =
          malloc-fits size pos small (p.chunks.bitmap_tail + 1) p.chunks.bitmap_tail after
            after-Owns (omega arith) (omega arith)
          ∙ let r : (syn_region_offset + p.chunks.bitmap_tail * chunk_size + 63) / 64 * 64
                ≡ syn_region_offset + p.chunks.bitmap_tail * chunk_size =
              omega arith in
            rw r

      from_new :
          ((p.local t).head ≡ null_addr)
            ⊎ ((p.local t).head.offset + chunk_size
                < ((p.local t).cur.offset + 63) / 64 * 64 + size)
          → (p.local t).cur.offset < 2 ^ 37
          → (q : GlobalAddress) × (p' : Pool) × (dsm_alloc t size 6 p ≡ some (q, p'))
            × Allocated p t size q p'
      from_new full high =
          let given = chunk_given p w lt in
          (
            next_chunk p,
            grown p t,
            step_new p t _ (next_chunk p) _
                (record { res = next_chunk p; need_chunck = false; local = starting p })
                (malloc-full size pos small (p.local t) (w.local t).0 full high) refl given
                (ap
                    (λ l.
                      malloc size 6
                        (record { head = next_chunk p; cur = next_chunk p; free_list = l }))
                    (w.local t).0
                  ∙ again),
            new_chunk p t w lt,
          )
