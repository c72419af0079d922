-- ===== src/Chunk/Pools.antt =====
-- The state of the allocators (include/GlobalAllocator.h, include/LocalAllocator.h), and what the
-- setting of one of them leaves.
use riiver_rolex.Base.{
  ℕ, ◌+◌, ◌-◌, ◌*◌, ◌/◌, ◌%◌, ◌^◌, ◌≤◌, ◌<◌, ◌≡◌, refl, sym, ap, ◌∙◌, ◌≢◌, ◌⊎◌, inl, inr, true,
  false, some, [], arith, leb, ◌==◌, Bool-cases, ==_iff, dec_lt, ℕ_discrete,
}
use riiver_rolex.Address.{GlobalAddress, null_addr, addr_eq, addr_eq_ne}
use riiver_rolex.Layout.{chunk_size, syn_region_offset}
use riiver_rolex.Chunk.{LocalAllocator, Pool, alloc_chunck, set_local, set_bit, dsm_size}

-- A thread's chunk, and where it is filled up to.
pub record Owns (tail c : ℕ) (a : LocalAllocator) : Type 0 where
  pub before : c < tail
  pub first : 0 < c
  pub head : a.head ≡ record { node_id = 0; offset = syn_region_offset + c * chunk_size }
  pub home : a.cur.node_id ≡ 0
  pub low : syn_region_offset + c * chunk_size ≤ a.cur.offset
  pub high : a.cur.offset ≤ syn_region_offset + (c + 1) * chunk_size

abbrev pub IsLocal : ℕ → LocalAllocator → Type 0
IsLocal tail a =
    (a.free_list ≡ []) × ((a.head ≡ null_addr) × (a.cur.offset ≡ 0) ⊎ ((c : ℕ) × Owns tail c a))

abbrev pub chunk_count : ℕ
chunk_count = (dsm_size - syn_region_offset) / chunk_size

-- What holds of the allocators while nothing is freed: each chunk that was handed out has one owner.
pub record IsPool (p : Pool) : Type 0 where
  pub start : p.chunks.start ≡ record { node_id = 0; offset = syn_region_offset }
  pub len : p.chunks.bitmap_len ≡ chunk_count
  pub tail : 0 < p.chunks.bitmap_tail
  pub tail_high : p.chunks.bitmap_tail ≤ chunk_count
  pub clear : (i : ℕ) → p.chunks.bitmap_tail ≤ i → p.chunks.bitmap i ≡ false
  pub local : (t : ℕ) → IsLocal p.chunks.bitmap_tail (p.local t)
  pub apart : (t u : ℕ) → t ≢ u → (p.local t).head ≢ null_addr → (p.local t).head ≢ (p.local u).head

-- Where thread `u` may still find memory: in its chunk, or in the chunks that nobody has.
abbrev pub MayHave : Pool → ℕ → ℕ → Type 0
MayHave p u x =
    ((p.local u).head ≢ null_addr)
      × ((p.local u).cur.offset ≤ x)
      × (x < (p.local u).head.offset + chunk_size)
    ⊎ (syn_region_offset + p.chunks.bitmap_tail * chunk_size ≤ x)

-- What an allocation of `size` bytes by thread `t` returns and leaves behind.
pub record Allocated (p : Pool) (t size : ℕ) (q : GlobalAddress) (p' : Pool) : Type 0 where
  pub pool : IsPool p'
  pub home : q.node_id ≡ 0
  pub aligned : q.offset % 64 ≡ 0
  pub low : syn_region_offset ≤ q.offset
  pub high : q.offset + size ≤ dsm_size
  pub mine : MayHave p t q.offset
  pub apart : (u x : ℕ) → MayHave p' u x → MayHave p u x × ((x < q.offset) ⊎ (q.offset + size ≤ x))

unfoldable pub rounded : GlobalAddress → GlobalAddress
rounded a = record a { offset = (a.offset + 63) / 64 * 64 }

pub head-real : {tail c : ℕ} {a : LocalAllocator} → Owns tail c a → addr_eq a.head null_addr ≡ false
head-real {a} o =
    addr_eq_ne a.head null_addr
      (λ e. let f = ap (λ z. z.offset) (sym o.head ∙ e) in absurd (omega arith))

-- With a chunk left, the home agent hands out the next one.
pub chunk_given :
    (p : Pool)
    → IsPool p
    → p.chunks.bitmap_tail < chunk_count
    → alloc_chunck p.chunks
      ≡ some (
        record { node_id = 0; offset = syn_region_offset + p.chunks.bitmap_tail * chunk_size },
        record p.chunks {
          bitmap = set_bit p.chunks.bitmap p.chunks.bitmap_tail true;
          bitmap_tail = p.chunks.bitmap_tail + 1;
        },
      )
unfolding alloc_chunck
chunk_given p w lt =
    let l = w.len in
    let more : leb p.chunks.bitmap_len p.chunks.bitmap_tail ≡ false = ground arith in
    let s = ap (λ z. z.offset) w.start in
    let n = ap (λ z. z.node_id) w.start in
    let r : (p.chunks.start.offset + p.chunks.bitmap_tail * chunk_size) % 2 ^ 48
        ≡ syn_region_offset + p.chunks.bitmap_tail * chunk_size =
      omega arith in
    rw (more, w.clear p.chunks.bitmap_tail (omega arith), r, n)

pub set_local_self : (f : ℕ → LocalAllocator) (t : ℕ) (a : LocalAllocator) → set_local f t a t ≡ a
set_local_self f t a = rw ((==_iff t t).1 refl)

pub set_local_ne :
    (f : ℕ → LocalAllocator) (t u : ℕ) (a : LocalAllocator) → u ≢ t → set_local f t a u ≡ f u
set_local_ne f t u a ne = elim (Bool-cases (u == t)) [
  | inl e ↦ absurd (ne ((==_iff u t).0 e))
  | inr e ↦ rw e
]

pub IsLocal-more : (m n : ℕ) (a : LocalAllocator) → m ≤ n → IsLocal m a → IsLocal n a
IsLocal-more m n a le (f, inl e) = (f, inl e)
IsLocal-more m n a le (f, inr (c, o)) = (
  f,
  inr (
    c,
    record {
      before = let b = o.before in omega arith;
      first = o.first;
      head = o.head;
      home = o.home;
      low = o.low;
      high = o.high;
    },
  ),
)

module _ (f : ℕ → LocalAllocator) (t : ℕ) (a : LocalAllocator) where
  pub locals-set :
      (tail : ℕ)
      → ((u : ℕ) → IsLocal tail (f u))
      → IsLocal tail a
      → (u : ℕ) → IsLocal tail (set_local f t a u)
  locals-set tail all one u = elim (Bool-cases (u == t)) [ inl e ↦ rw e one | inr e ↦ rw e (all u) ]

  pub apart-set :
      ((u v : ℕ) → u ≢ v → (f u).head ≢ null_addr → (f u).head ≢ (f v).head)
      → ((u : ℕ) → u ≢ t → a.head ≢ (f u).head)
      → (u v : ℕ) → u ≢ v
      → (set_local f t a u).head ≢ null_addr
      → (set_local f t a u).head ≢ (set_local f t a v).head
  apart-set all one u v ne = elim (ℕ_discrete u t) [
    | yes e ↦
        let far : v ≢ t = λ h. ne (e ∙ sym h) in
        rw (e, set_local_self f t a, set_local_ne f t v a far) (λ real. one v far)
    | no nu ↦ elim (ℕ_discrete v t) [
      | yes e ↦ rw (e, set_local_self f t a, set_local_ne f t u a nu) (λ real h. one u nu (sym h))
      | no nv ↦ rw (set_local_ne f t u a nu, set_local_ne f t v a nv) (all u v ne)
    ]
  ]

-- Another thread's chunk is not the thread's.
pub other_chunk :
    (p : Pool) (t u c x : ℕ)
    → IsPool p
    → u ≢ t
    → Owns p.chunks.bitmap_tail c (p.local t)
    → (p.local u).head ≢ null_addr
    → (p.local u).cur.offset ≤ x
    → x < (p.local u).head.offset + chunk_size
    → (x < syn_region_offset + c * chunk_size) ⊎ (syn_region_offset + (c + 1) * chunk_size ≤ x)
other_chunk p t u c x w ne o real lo hi = elim (w.local u).1 [
  | inl e ↦ absurd (real e.0)
  | inr (d, q) ↦
      let there = ap (λ z. z.offset) q.head in
      let low = q.low in
      elim (ℕ_discrete d c) [
        | yes e ↦ absurd (
            w.apart u t ne real (
              q.head
              ∙ ap (λ n. record { node_id = 0; offset = syn_region_offset + n * chunk_size }) e
              ∙ sym o.head))
        | no far ↦ elim (dec_lt d c) [ yes l ↦ inl (omega arith) | no l ↦ inr (omega arith) ]
      ]
]

-- The address of the next chunk, and the allocators after an allocation from it.
unfoldable pub next_chunk : Pool → GlobalAddress
next_chunk p = record {
  node_id = 0;
  offset = syn_region_offset + p.chunks.bitmap_tail * chunk_size;
}

-- A chunk that is owned lies below the next one.
pub owned_below :
    (p : Pool) (u x : ℕ)
    → IsPool p
    → (p.local u).head ≢ null_addr
    → x < (p.local u).head.offset + chunk_size
    → x < syn_region_offset + p.chunks.bitmap_tail * chunk_size
owned_below p u x w real hi = elim (w.local u).1 [
  | inl e ↦ absurd (real e.0)
  | inr (d, q) ↦ let there = ap (λ z. z.offset) q.head in let b = q.before in omega arith
]

pub new_head : (p : Pool) (t u : ℕ) → IsPool p → u ≢ t → next_chunk p ≢ (p.local u).head
unfolding next_chunk
new_head p t u w ne e = elim (w.local u).1 [
  | inl n ↦ let f = ap (λ z. z.offset) (e ∙ n.0) in let g = w.tail in absurd (omega arith)
  | inr (d, q) ↦ let f = ap (λ z. z.offset) (e ∙ q.head) in let b = q.before in absurd (omega arith)
]
