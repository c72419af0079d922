-- ===== src/Hot/Counts.antt =====
-- How many entries the table holds, and how a write to a slot changes that.
use riiver_rolex.Base.{
  ℕ, zero, suc, ◌+◌, ◌≤◌, ◌<◌, ◌≡◌, refl, ap, none, some, [], ◌∷◌, arith, length, set, get_or,
  replicate, dec_lt,
}
use riiver_rolex.Hot.{IdxCacheEntry, Bucket, set_bucket}

-- How many entries a bucket has, and the first `n` buckets of the table.
abbrev pub entries : Bucket → ℕ
entries [] = 0
entries (none ∷ b) = entries b
entries (some e ∷ b) = suc (entries b)

unfoldable pub total : ℕ → (ℕ → Bucket) → ℕ
total zero t = 0
total (suc n) t = total n t + entries (t n)

total-set_ge :
    (n : ℕ) (t : ℕ → Bucket) (h : ℕ) (b : Bucket) → n ≤ h → total n (set_bucket t h b) ≡ total n t
unfolding total
total-set_ge zero t h b le = refl
total-set_ge (suc n) t h b le = ground (arith, total-set_ge n t h b)

pub total-set_bucket :
    (n : ℕ) (t : ℕ → Bucket) (h : ℕ) (b : Bucket)
    → h < n
    → total n (set_bucket t h b) + entries (t h) ≡ total n t + entries b
unfolding total
total-set_bucket zero t h b lt = absurd (omega arith)
total-set_bucket (suc n) t h b lt = elim (dec_lt h n) [
  | yes below ↦ ground (arith, total-set_bucket n t h b below)
  | no last ↦ ground (arith, total-set_ge n t h b)
]

pub total_empty : (n : ℕ) (m : ℕ) → total n (λ _. replicate m none) ≡ 0
unfolding total
total_empty zero m = refl
total_empty (suc n) m = omega (arith, total_empty n m, entries_replicate m)
  where
    entries_replicate : (j : ℕ) → entries (replicate j none) ≡ 0
    entries_replicate zero = refl
    entries_replicate (suc j) = entries_replicate j

-- Writes to a slot.
pub entries-put :
    (b : Bucket) (m : ℕ) (e : IdxCacheEntry)
    → m < length b
    → get_or b m none ≡ none
    → entries (set b m (some e)) ≡ suc (entries b)
entries-put [] m e lt h = absurd (omega arith)
entries-put (none ∷ b) zero e lt h = refl
entries-put (some e' ∷ b) zero e lt h = cc
entries-put (none ∷ b) (suc m) e lt h = entries-put b m e (omega arith) h
entries-put (some e' ∷ b) (suc m) e lt h = ap suc (entries-put b m e (omega arith) h)

pub entries-over :
    (b : Bucket) (m : ℕ) (e e' : IdxCacheEntry)
    → get_or b m none ≡ some e'
    → entries (set b m (some e)) ≡ entries b
entries-over [] m e e' h = refl
entries-over (none ∷ b) zero e e' h = cc
entries-over (some e'' ∷ b) zero e e' h = refl
entries-over (none ∷ b) (suc m) e e' h = entries-over b m e e' h
entries-over (some e'' ∷ b) (suc m) e e' h = ap suc (entries-over b m e e' h)

pub entries-clear :
    (b : Bucket) (m : ℕ) (e : IdxCacheEntry)
    → get_or b m none ≡ some e
    → suc (entries (set b m none)) ≡ entries b
entries-clear [] m e h = cc
entries-clear (none ∷ b) zero e h = cc
entries-clear (some e'' ∷ b) zero e h = refl
entries-clear (none ∷ b) (suc m) e h = entries-clear b m e h
entries-clear (some e'' ∷ b) (suc m) e h = ap suc (entries-clear b m e h)
