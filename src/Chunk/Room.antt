-- ===== src/Chunk/Room.antt =====
-- LocalAllocator::malloc of include/LocalAllocator.h, with room in its chunk and without.
use riiver_rolex.Base.{
  ℕ, ◌+◌, ◌-◌, ◌*◌, ◌/◌, ◌%◌, ◌^◌, ◌≤◌, ◌<◌, ◌≡◌, refl, ap, ◌⊎◌, inl, inr, true, false, none, List,
  [], ◌∷◌, arith, ltb, Bool-cases, lt→ltb,
}
use riiver_rolex.Address.{GlobalAddress, null_addr, addr_eq, addr_eq_iff}
use riiver_rolex.Layout.{chunk_size, syn_region_offset}
use riiver_rolex.Chunk.{LocalAllocator, take_free, malloc}
use riiver_rolex.Chunk.Pools.{Owns, chunk_count, rounded, head-real}

module _ (size : ℕ) (pos : 0 < size) (small : size ≤ chunk_size) where
  -- The thread's chunk has room.
  pub malloc-fits :
      (tail c : ℕ) (a : LocalAllocator)
      → Owns tail c a
      → tail ≤ chunk_count
      → (a.cur.offset + 63) / 64 * 64 + size ≤ syn_region_offset + (c + 1) * chunk_size
      → malloc size 6 a ≡ record {
        res = rounded a.cur;
        need_chunck = false;
        local = record a { cur = record a.cur { offset = (a.cur.offset + 63) / 64 * 64 + size } };
      }
  unfolding malloc rounded
  malloc-fits tail c a o high fits =
      let b = o.before in
      let up = o.high in
      let top = ap (λ z. z.offset) o.head in
      let r : (a.cur.offset + 64 - 1) / 64 * 64 % 2 ^ 48 ≡ (a.cur.offset + 63) / 64 * 64 =
        omega arith in
      let w : ((a.cur.offset + 63) / 64 * 64 + size) % 2 ^ 48
          ≡ (a.cur.offset + 63) / 64 * 64 + size =
        omega arith in
      let room : ltb (a.head.offset + chunk_size) ((a.cur.offset + 63) / 64 * 64 + size) ≡ false =
        ground arith in
      rw (r, head-real o, room, w)

  nothing_freed : (l : List (GlobalAddress × ℕ)) → l ≡ [] → take_free size l ≡ none
  unfolding take_free
  nothing_freed [] e = refl
  nothing_freed (x ∷ l) e = absurd (cc e)

  pub malloc-full :
      (a : LocalAllocator)
      → a.free_list ≡ []
      → (a.head ≡ null_addr) ⊎ (a.head.offset + chunk_size < (a.cur.offset + 63) / 64 * 64 + size)
      → a.cur.offset < 2 ^ 37
      → malloc size 6 a ≡ record {
        res = rounded a.cur;
        need_chunck = true;
        local = record a { cur = rounded a.cur };
      }
  unfolding malloc rounded
  malloc-full a free full high =
      let r : (a.cur.offset + 64 - 1) / 64 * 64 % 2 ^ 48 ≡ (a.cur.offset + 63) / 64 * 64 =
        omega arith in
      let none' = nothing_freed a.free_list free in
      elim full [
        | inl e ↦ rw ((addr_eq_iff a.head null_addr).1 e, none', r)
        | inr l ↦
            rw (r, lt→ltb (a.head.offset + chunk_size) ((a.cur.offset + 63) / 64 * 64 + size) l)
              (elim (Bool-cases (addr_eq a.head null_addr)) [
                | inl e ↦ rw (e, none', r)
                | inr e ↦ rw (e, none', r)
              ])
      ]
