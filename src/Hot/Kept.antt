-- ===== src/Hot/Kept.antt =====
-- That add_to_cache keeps an entry that is there, and which slot it takes otherwise.
use riiver_rolex.Base.{
  ℕ, zero, suc, ◌+◌, ◌<◌, ◌≡◌, refl, ap, ◌∙◌, inl, inr, true, Option, none, some, List, [], ◌∷◌,
  arith, ◌==◌, Bool-cases, Option-cases, length, set, get_or, ==_iff,
}
use riiver_rolex.Base.Int.{ℤ, ltb_ℤ, ◌≤ℤ◌}
use riiver_rolex.Address.{GlobalAddress}
use riiver_rolex.Key.{Key, key2fp}
use mathlib.Core.Path.{subst}
use riiver_rolex.Hot.{IdxCacheEntry, Bucket, int_max, is_at, touch, touch_first, find_lfu_idx}
use riiver_rolex.Hot.Places.{Least, find_lfu_idx-Least}
use riiver_rolex.Hot.Candidates.{In, Remembers, is_at_iff}

-- An entry of the bucket remembers the key.
abbrev pub Kept : GlobalAddress → ℕ → Key → Bucket → Type 0
Kept a i k b = (f : ℤ) × (e : IdxCacheEntry) × In (some e) b × Remembers a i k f e

touched :
    (a : GlobalAddress) (i : ℕ) (k : Key) (e : IdxCacheEntry)
    → is_at a i e ≡ true
    → Remembers a i k (touch k e).cache_entry_freq (touch k e)
unfolding touch
touched a i k e t = elim (Bool-cases (e.footprint == key2fp k)) [
  | inl u ↦ rw u (record {
    leaf_addr = ((is_at_iff a i e).0 t).0;
    kv_idx = ((is_at_iff a i e).0 t).1;
    footprint = (==_iff e.footprint (key2fp k)).0 u;
    freq = refl;
  })
  | inr u ↦ rw u (record {
    leaf_addr = ((is_at_iff a i e).0 t).0;
    kv_idx = ((is_at_iff a i e).0 t).1;
    footprint = refl;
    freq = refl;
  })
]

pub touch_first-Kept :
    (a : GlobalAddress) (i : ℕ) (k : Key) (b b' : Bucket)
    → touch_first a i k b ≡ some b'
    → Kept a i k b'
unfolding touch_first
touch_first-Kept a i k [] b' h = cc
touch_first-Kept a i k (none ∷ b) b' h = elim (Option-cases (touch_first a i k b)) [
  | inl e ↦ let h' = rw e at h in cc
  | inr (r, e) ↦
      let h' = rw e at h in
      let same : (none ∷ r) ≡ b' = cc in
      let (f, x, m, p) = touch_first-Kept a i k b r e in subst (Kept a i k) same (f, x, inr m, p)
]
touch_first-Kept a i k (some x ∷ b) b' h = elim (Bool-cases (is_at a i x)) [
  | inl t ↦
      let h' = rw t at h in
      let same : (some (touch k x) ∷ b) ≡ b' = cc in
      subst (Kept a i k) same (_, touch k x, inl refl, touched a i k x t)
  | inr t ↦ elim (Option-cases (touch_first a i k b)) [
    | inl e ↦ let h' = rw (t, e) at h in cc
    | inr (r, e) ↦
        let h' = rw (t, e) at h in
        let same : (some x ∷ r) ≡ b' = cc in
        let (f, y, m, p) = touch_first-Kept a i k b r e in subst (Kept a i k) same (f, y, inr m, p)
  ]
]

pub In-set : {A : Type 0} (b : List A) (m : ℕ) (x : A) → m < length b → In x (set b m x)
In-set [] m x lt = absurd (omega arith)
In-set (y ∷ b) zero x lt = inl refl
In-set (y ∷ b) (suc m) x lt = inr (In-set b m x (omega arith))

length-of_some : (b : Bucket) (m : ℕ) (e : IdxCacheEntry) → get_or b m none ≡ some e → m < length b
length-of_some [] m e h = cc
length-of_some (x ∷ b) zero e h = omega arith
length-of_some (x ∷ b) (suc m) e h = omega (arith, length-of_some b m e h)

-- A slot that add_to_cache may take: empty, or of an entry whose frequency is not the greatest number.
abbrev pub IsFree : Option IdxCacheEntry → Type 0
IsFree none = Unit {0}
IsFree (some e) = ltb_ℤ e.cache_entry_freq int_max ≡ true

abbrev pub HasSlot : Bucket → Type 0
HasSlot b = (d : ℕ) × (d < length b) × IsFree (get_or b d none)

-- The slot that a full bucket gives away.
pub slot_of_full :
    (b : Bucket)
    → ((d : ℕ) → d < length b → (e : IdxCacheEntry) × (get_or b d none ≡ some e))
    → HasSlot b
    → (m : ℕ) × ((find_lfu_idx 0 none int_max b).0 ≡ some m) × (m < length b)
slot_of_full b full (d, lt, free) =
    let r = find_lfu_idx 0 none int_max b in
    let best : Least 0 b none int_max r = find_lfu_idx-Least 0 none int_max b in
    elim best.slot [
      | inl (_, top) ↦
          let (e, g) = full d lt in
          let below = best.least d e g in
          let t : IsFree (some e) = subst IsFree g free in
          let top' : int_max ≤ℤ e.cache_entry_freq =
            subst (λ z. z ≤ℤ e.cache_entry_freq) top below in
          absurd (ground arith)
      | inr (m, e, q, g, _, _) ↦
          let n : 0 + m ≡ m = omega arith in (m, q ∙ ap some n, length-of_some b m e g)
    ]
