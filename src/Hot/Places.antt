-- ===== src/Hot/Places.antt =====
-- What the loops over a bucket find: an empty slot, or the entry that was found least often.
use riiver_rolex.Base.{
  ℕ, zero, suc, ◌+◌, ◌<◌, ◌≡◌, refl, ◌⊎◌, inl, inr, true, false, Option, none, some, [], ◌∷◌, arith,
  if◌then◌else◌, Bool-cases, length, get_or,
}
use riiver_rolex.Base.Int.{ℤ, ltb_ℤ, ◌≤ℤ◌, ltb_ℤ-false}
use riiver_rolex.Hot.{IdxCacheEntry, Bucket, empty_slot, lfu, find_place, find_lfu_idx}

-- The least frequency below `mf`, and the slot of its entry; `mi` and `mf` where there is none.
pub record Least (i : ℕ) (b : Bucket) (mi : Option ℕ) (mf : ℤ) (r : Option ℕ × ℤ) : Type 0 where
  pub slot :
      (r.0 ≡ mi) × (r.1 ≡ mf)
      ⊎ ((d : ℕ) × (e : IdxCacheEntry) × (r.0 ≡ some (i + d))
          × (get_or b d none ≡ some e)
          × (r.1 ≡ e.cache_entry_freq)
          × (ltb_ℤ r.1 mf ≡ true))
  pub bound : r.1 ≤ℤ mf
  pub least : (d : ℕ) (e : IdxCacheEntry) → get_or b d none ≡ some e → r.1 ≤ℤ e.cache_entry_freq

≤ℤ_trans : (x y z : ℤ) → x ≤ℤ y → y ≤ℤ z → x ≤ℤ z
≤ℤ_trans x y z p q = omega arith

Least-null :
    (i : ℕ) (b : Bucket) (mi : Option ℕ) (mf : ℤ) (r : Option ℕ × ℤ)
    → Least (suc i) b mi mf r
    → Least i (none ∷ b) mi mf r
Least-null i b mi mf r h = record {
  slot = elim h.slot [
    | inl p ↦ inl p
    | inr (d, e, m, g, f, t) ↦
        let n : i + suc d ≡ suc i + d = omega arith in inr (suc d, e, rw n m, g, f, t)
  ];
  bound = h.bound;
  least = below;
}
  where
    below :
        (d : ℕ) (e : IdxCacheEntry) → get_or (none ∷ b) d none ≡ some e → r.1 ≤ℤ e.cache_entry_freq
    below zero e g = cc
    below (suc d) e g = h.least d e g

Least-less :
    (i : ℕ) (e : IdxCacheEntry) (b : Bucket) (mi : Option ℕ) (mf : ℤ) (r : Option ℕ × ℤ)
    → ltb_ℤ e.cache_entry_freq mf ≡ true
    → Least (suc i) b (some i) e.cache_entry_freq r
    → Least i (some e ∷ b) mi mf r
Least-less i e b mi mf r t h = record {
  slot = elim h.slot [
    | inl (p, q) ↦ let n : i + 0 ≡ i = omega arith in inr (0, e, rw n p, refl, q, rw q t)
    | inr (d, e', m, g, f, u) ↦
        let n : i + suc d ≡ suc i + d = omega arith in
        let below = h.bound in inr (suc d, e', rw n m, g, f, ground arith)
  ];
  bound = let below = h.bound in ground arith;
  least = below;
}
  where
    below :
        (d : ℕ) (e' : IdxCacheEntry)
        → get_or (some e ∷ b) d none ≡ some e'
        → r.1 ≤ℤ e'.cache_entry_freq
    below zero e' g = let same : e ≡ e' = cc in rw (← same) h.bound
    below (suc d) e' g = h.least d e' g

Least-not :
    (i : ℕ) (e : IdxCacheEntry) (b : Bucket) (mi : Option ℕ) (mf : ℤ) (r : Option ℕ × ℤ)
    → ltb_ℤ e.cache_entry_freq mf ≡ false
    → Least (suc i) b mi mf r
    → Least i (some e ∷ b) mi mf r
Least-not i e b mi mf r t h = record {
  slot = elim h.slot [
    | inl p ↦ inl p
    | inr (d, e', m, g, f, u) ↦
        let n : i + suc d ≡ suc i + d = omega arith in inr (suc d, e', rw n m, g, f, u)
  ];
  bound = h.bound;
  least = below;
}
  where
    below :
        (d : ℕ) (e' : IdxCacheEntry)
        → get_or (some e ∷ b) d none ≡ some e'
        → r.1 ≤ℤ e'.cache_entry_freq
    below zero e' g =
        let same : e ≡ e' = cc in
        rw (← same)
          (≤ℤ_trans r.1 mf e.cache_entry_freq h.bound (ltb_ℤ-false e.cache_entry_freq mf t))
    below (suc d) e' g = h.least d e' g

pub find_lfu_idx-Least :
    (i : ℕ) (mi : Option ℕ) (mf : ℤ) (b : Bucket) → Least i b mi mf (find_lfu_idx i mi mf b)
unfolding find_lfu_idx
find_lfu_idx-Least i mi mf [] = record {
  slot = inl (refl, refl);
  bound = omega arith;
  least = λ d e g. cc;
}
find_lfu_idx-Least i mi mf (none ∷ b) =
    Least-null i b mi mf (find_lfu_idx (suc i) mi mf b) (find_lfu_idx-Least (suc i) mi mf b)
find_lfu_idx-Least i mi mf (some e ∷ b) = elim (Bool-cases (ltb_ℤ e.cache_entry_freq mf)) [
  | inl t ↦
      let f = e.cache_entry_freq in
      rw t (
        Least-less i e b mi mf (find_lfu_idx (suc i) (some i) f b) t
          (find_lfu_idx-Least (suc i) (some i) f b))
  | inr t ↦
      rw t (
        Least-not i e b mi mf (find_lfu_idx (suc i) mi mf b) t (find_lfu_idx-Least (suc i) mi mf b))
]

-- The loop of add_to_cache stops at the first empty slot, or else does as the one of evict_one.
pub find_place-cases :
    (i : ℕ) (mi : Option ℕ) (mf : ℤ) (b : Bucket)
    → ((d : ℕ) × (find_place i mi mf b ≡ empty_slot (i + d))
        × (d < length b)
        × (get_or b d none ≡ none))
      ⊎ ((find_place i mi mf b ≡ lfu (find_lfu_idx i mi mf b).0)
          × ((d : ℕ) → d < length b → (e : IdxCacheEntry) × (get_or b d none ≡ some e)))
unfolding find_place find_lfu_idx
find_place-cases i mi mf [] = inr (refl, λ d lt. absurd (omega arith))
find_place-cases i mi mf (none ∷ b) =
    let n : i + 0 ≡ i = omega arith in inl (0, rw n refl, omega arith, refl)
find_place-cases i mi mf (some e ∷ b) =
    let less = ltb_ℤ e.cache_entry_freq mf in
    elim (find_place-cases (suc i) (if less then some i else mi)
      (if less then e.cache_entry_freq else mf) b) [
        | inl (d, p, lt, g) ↦
            let n : i + suc d ≡ suc i + d = omega arith in inl (suc d, rw n p, omega arith, g)
        | inr (p, full) ↦ inr (p, occupied full)
      ]
  where
    occupied :
        ((d : ℕ) → d < length b → (e' : IdxCacheEntry) × (get_or b d none ≡ some e'))
        → (d : ℕ) → d < length (some e ∷ b)
        → (e' : IdxCacheEntry) × (get_or (some e ∷ b) d none ≡ some e')
    occupied full zero lt = (e, refl)
    occupied full (suc d) lt = full d (omega arith)
