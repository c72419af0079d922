-- ===== src/Hot/Space.antt =====
-- The memory of the cached entries and the count of free bytes, through every branch of add_to_cache.
use riiver_rolex.Base.{
  ℕ, zero, suc, ◌+◌, ◌*◌, ◌<◌, ◌≡◌, refl, sym, ◌∙◌, ◌⊎◌, inl, inr, true, false, Option, none, some,
  List, [], ◌∷◌, arith, ◌==◌, Bool-cases, set, get_or, ◌>>=◌, >>=-eq-some,
}
use riiver_rolex.Base.Int.{ℤ, pos, pos_part, neg_part, ltb_ℤ, +ℤ_parts}
use riiver_rolex.Codec.{All}
use mathlib.Core.Path.{subst}
use riiver_rolex.Hot.{
  IdxCacheEntry, Bucket, IdxCache, hash_table_size, entry_size, int_max, safely_delete,
  find_lfu_idx,
}
use riiver_rolex.Hot.Counts.{total, total-set_bucket, entries-clear}
use riiver_rolex.Hot.Places.{Least, find_lfu_idx-Least}
use riiver_rolex.Hot.Add.{erase, erase_lfu, evict_buckets, draw_other, evict_one, evict_loop}

-- The free bytes are what the entries leave of the budget.
abbrev pub IsCounted : ℕ → IdxCache → Type 0
IsCounted budget c =
    entry_size * total hash_table_size c.hash_table + pos_part c.free_size
    ≡ budget + neg_part c.free_size

abbrev pub IsDraw : ℕ → Type 0
IsDraw d = d < hash_table_size

-- What an eviction that returns has done.
erase_lfu-cases :
    (r s : Option ℕ × ℤ) (h j : ℕ) (c c' : IdxCache)
    → erase_lfu r s h j c ≡ some c'
    → (c ≡ c')
      ⊎ (((m : ℕ) × (r.0 ≡ some m) × (erase h m c ≡ c'))
          ⊎ ((n : ℕ) × (s.0 ≡ some n) × (erase j n c ≡ c')))
unfolding erase_lfu
erase_lfu-cases (none, f) (none, g) h j c c' e = inl (cc)
erase_lfu-cases (some m, f) (none, g) h j c c' e = elim (Bool-cases (ltb_ℤ f g)) [
  | inl t ↦ let e' = rw t at e in inr (inl (m, refl, cc))
  | inr t ↦ let e' = rw t at e in cc
]
erase_lfu-cases (none, f) (some n, g) h j c c' e = elim (Bool-cases (ltb_ℤ f g)) [
  | inl t ↦ let e' = rw t at e in cc
  | inr t ↦ let e' = rw t at e in inr (inr (n, refl, cc))
]
erase_lfu-cases (some m, f) (some n, g) h j c c' e = elim (Bool-cases (ltb_ℤ f g)) [
  | inl t ↦ let e' = rw t at e in inr (inl (m, refl, cc))
  | inr t ↦ let e' = rw t at e in inr (inr (n, refl, cc))
]

draw_other-IsDraw :
    (h : ℕ) (draws : List ℕ) (o : ℕ × List ℕ)
    → All IsDraw draws
    → draw_other h draws ≡ some o
    → IsDraw o.0 × All IsDraw o.1
unfolding draw_other
draw_other-IsDraw h [] o all e = cc
draw_other-IsDraw h (j ∷ draws) o all e = elim (Bool-cases (h == j)) [
  | inl t ↦ draw_other-IsDraw h draws o all.1 (rw t at e)
  | inr t ↦
      let e' = rw t at e in
      let same : (j, draws) ≡ o = cc in subst (λ p. IsDraw p.0 × All IsDraw p.1) same all
]

-- The victim of a bucket is an entry.
pub victim :
    (b : Bucket) (m : ℕ) (r : Option ℕ × ℤ)
    → Least 0 b none int_max r
    → r.0 ≡ some m
    → (e : IdxCacheEntry) × (get_or b m none ≡ some e)
victim b m r h p = elim h.slot [
  | inl (q, _) ↦ cc
  | inr (d, e, q, g, _, _) ↦
      let same : some m ≡ some (0 + d) = sym p ∙ q in
      let same' : m ≡ d = ground arith in (e, rw same' g)
]

module _ (budget : ℕ) where
  erase-IsCounted :
      (h m : ℕ) (e : IdxCacheEntry) (c : IdxCache)
      → h < hash_table_size
      → get_or (c.hash_table h) m none ≡ some e
      → IsCounted budget c
      → IsCounted budget (erase h m c)
  unfolding erase safely_delete
  erase-IsCounted h m e c lt slot s = omega (
    arith,
    s,
    +ℤ_parts c.free_size (pos entry_size),
    total-set_bucket hash_table_size c.hash_table h (set (c.hash_table h) m none) lt,
    entries-clear (c.hash_table h) m e slot,
  )

  evict_buckets-IsCounted :
      (h j : ℕ) (c c' : IdxCache)
      → h < hash_table_size
      → j < hash_table_size
      → IsCounted budget c
      → evict_buckets h j c ≡ some c'
      → IsCounted budget c'
  unfolding evict_buckets
  evict_buckets-IsCounted h j c c' lt lt' s e =
      let l = find_lfu_idx 0 none int_max (c.hash_table h) in
      let l' = find_lfu_idx 0 none int_max (c.hash_table j) in
      elim (erase_lfu-cases l l' h j c c' e) [
        | inl q ↦ subst (IsCounted budget) q s
        | inr (inl (m, p, q)) ↦
            let (x, g) =
              victim (c.hash_table h) m l (find_lfu_idx-Least 0 none int_max (c.hash_table h)) p in
            subst (IsCounted budget) q (erase-IsCounted h m x c lt g s)
        | inr (inr (m, p, q)) ↦
            let (x, g) =
              victim (c.hash_table j) m l' (find_lfu_idx-Least 0 none int_max (c.hash_table j)) p in
            subst (IsCounted budget) q (erase-IsCounted j m x c lt' g s)
      ]

  evict_one-IsCounted :
      (c : IdxCache) (draws : List ℕ) (r : IdxCache × List ℕ)
      → All IsDraw draws
      → IsCounted budget c
      → evict_one c draws ≡ some r
      → IsCounted budget r.0 × All IsDraw r.1
  unfolding evict_one
  evict_one-IsCounted c [] r all s e = cc
  evict_one-IsCounted c (h ∷ draws) r all s e =
      let (o, p, q) =
        >>=-eq-some (draw_other h draws) (λ o. evict_buckets h o.0 c >>= λ c'. some (c', o.1)) e in
      let (c', p', q') = >>=-eq-some (evict_buckets h o.0 c) (λ c'. some (c', o.1)) q in
      let (lt, rest) = draw_other-IsDraw h draws o all.1 p in
      let same : (c', o.1) ≡ r = cc in
      subst (λ t. IsCounted budget t.0 × All IsDraw t.1) same
        (evict_buckets-IsCounted h o.0 c c' all.0 lt s p', rest)

  pub evict_loop-IsCounted :
      (fuel : ℕ) (c : IdxCache) (draws : List ℕ) (r : IdxCache × List ℕ)
      → All IsDraw draws
      → IsCounted budget c
      → evict_loop fuel c draws ≡ some r
      → IsCounted budget r.0 × (ltb_ℤ r.0.free_size (pos 0) ≡ false)
  unfolding evict_loop
  evict_loop-IsCounted zero c draws r all s e = cc
  evict_loop-IsCounted (suc fuel) c draws r all s e =
      let (o, p, q) =
        >>=-eq-some (evict_one c draws)
          (λ o. elim (ltb_ℤ o.0.free_size (pos 0)) [
            | true ↦ evict_loop fuel o.0 o.1
            | false ↦ some o
          ])
          e in
      let (s', all') = evict_one-IsCounted c draws o all s p in
      elim (Bool-cases (ltb_ℤ o.0.free_size (pos 0))) [
        | inl t ↦ evict_loop-IsCounted fuel o.0 o.1 r all' s' (rw t at q)
        | inr t ↦
            let q' = rw t at q in
            let same : o ≡ r = cc in
            subst (λ u. IsCounted budget u.0 × (ltb_ℤ u.0.free_size (pos 0) ≡ false)) same (s', t)
      ]
