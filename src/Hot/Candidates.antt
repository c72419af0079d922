-- ===== src/Hot/Candidates.antt =====
-- What the loops of search_idx_from_cache collect.
use riiver_rolex.Base.{
  ℕ, zero, suc, ◌+◌, ◌≤◌, ◌<◌, ◌≡◌, refl, sym, ap, ◌↔◌, ◌⊎◌, inl, inr, true, ◌&&◌, none, some, List,
  [], ◌∷◌, ◌++◌, arith, ◌==◌, Bool-cases, ℕ_discrete,
}
use mathlib.Core.Path.{subst}
use riiver_rolex.Base.Int.{ℤ}
use riiver_rolex.Address.{GlobalAddress}
use riiver_rolex.Key.{Key, key2fp}
use riiver_rolex.Hot.{
  IdxCacheEntry, Bucket, IdxCache, is_at, get_hashed_cache_table_index, bucket_candidates,
  candidates_from,
}

-- A member of a list, at a position.
abbrev pub In : {A : Type 0} → A → List A → Type 0
In x [] = ⊥
In x (y ∷ ys) = (x ≡ y) ⊎ In x ys

pub In-append : {A : Type 0} (x : A) (xs ys : List A) → In x (xs ++ ys) ↔ (In x xs ⊎ In x ys)
In-append x [] ys = (inr, λ h. elim h [ inl n ↦ absurd n | inr i ↦ i ])
In-append x (y ∷ xs) ys =
    let (to, from) = In-append x xs ys in
    (
      λ h. elim h [
        | inl e ↦ inl (inl e)
        | inr i ↦ elim (to i) [ inl j ↦ inl (inr j) | inr j ↦ inr j ]
      ],
      λ h. elim h [
        | inl i ↦ elim i [ inl e ↦ inl e | inr j ↦ inr (from (inl j)) ]
        | inr j ↦ inr (from (inr j))
      ],
    )

-- An entry that remembers a key at an index of a leaf, with its frequency.
pub record Remembers (a : GlobalAddress) (i : ℕ) (k : Key) (f : ℤ) (e : IdxCacheEntry)
    : Type 0 where
  pub leaf_addr : e.leaf_addr ≡ a
  pub kv_idx : e.kv_idx ≡ i
  pub footprint : e.footprint ≡ key2fp k
  pub freq : e.cache_entry_freq ≡ f

-- The cache has such an entry, in the bucket of the place.
abbrev pub Cached : IdxCache → GlobalAddress → ℕ → Key → ℤ → Type 0
Cached c a i k f =
    (e : IdxCacheEntry) × In (some e) (c.hash_table (get_hashed_cache_table_index a i))
    × Remembers a i k f e

pub is_at_iff :
    (a : GlobalAddress) (i : ℕ) (e : IdxCacheEntry)
    → (is_at a i e ≡ true) ↔ ((e.leaf_addr ≡ a) × (e.kv_idx ≡ i))
is_at_iff a i e = ground arith

module _ (a : GlobalAddress) (i : ℕ) (k : Key) where
  fits :
      (e : IdxCacheEntry) (f : ℤ)
      → Remembers a i k f e
      → (is_at a i e && (e.footprint == key2fp k)) ≡ true
  fits e f r = ground (arith, is_at_iff a i e)

  fitting :
      (e : IdxCacheEntry)
      → (is_at a i e && (e.footprint == key2fp k)) ≡ true
      → Remembers a i k e.cache_entry_freq e
  fitting e h = ground (arith, is_at_iff a i e)

  bucket-In :
      (b : Bucket) (x : ℕ × ℤ)
      → In x (bucket_candidates a i k b)
      → (x.0 ≡ i) × ((e : IdxCacheEntry) × In (some e) b × Remembers a i k x.1 e)
  unfolding bucket_candidates
  bucket-In [] x h = absurd h
  bucket-In (none ∷ b) x h = let (p, (e, m, r)) = bucket-In b x h in (p, (e, inr m, r))
  bucket-In (some e ∷ b) x h = elim (Bool-cases (is_at a i e && (e.footprint == key2fp k))) [
    | inl t ↦ elim (rw t at h) [
      | inl q ↦ (ap (λ p. p.0) q, (e, inl refl, rw (ap (λ p. p.1) q) (fitting e t)))
      | inr j ↦ let (p, (e', m, r)) = bucket-In b x j in (p, (e', inr m, r))
    ]
    | inr t ↦ let (p, (e', m, r)) = bucket-In b x (rw t at h) in (p, (e', inr m, r))
  ]

  In-bucket :
      (b : Bucket) (f : ℤ) (e : IdxCacheEntry)
      → In (some e) b
      → Remembers a i k f e
      → In (i, f) (bucket_candidates a i k b)
  unfolding bucket_candidates
  In-bucket [] f e h r = absurd h
  In-bucket (none ∷ b) f e (inl n) r = cc
  In-bucket (none ∷ b) f e (inr h) r = In-bucket b f e h r
  In-bucket (some e' ∷ b) f e (inl q) r =
      let same : e ≡ e' = cc in
      let r' : Remembers a i k f e' = subst (Remembers a i k f) same r in
      rw (fits e' f r') (inl (ap (λ g. (i, g)) (sym r'.freq)))
  In-bucket (some e' ∷ b) f e (inr h) r =
      let rest = In-bucket b f e h r in
      elim (Bool-cases (is_at a i e' && (e'.footprint == key2fp k))) [
        | inl t ↦ rw t (inr rest)
        | inr t ↦ rw t rest
      ]

-- The entries of the key among `n` indices from `i`.
module _ (c : IdxCache) (a : GlobalAddress) (k : Key) where
  pub candidates-In :
      (i n : ℕ) (x : ℕ × ℤ)
      → In x (candidates_from c a k i n)
      → (i ≤ x.0) × (x.0 < i + n) × Cached c a x.0 k x.1
  unfolding candidates_from
  candidates-In i zero x h = absurd h
  candidates-In i (suc n) x h =
      let b = c.hash_table (get_hashed_cache_table_index a i) in
      elim ((In-append x (bucket_candidates a i k b) (candidates_from c a k (suc i) n)).0 h) [
        | inl p ↦
            let (e, cached) = bucket-In a i k b x p in
            (omega arith, omega arith, subst (λ j. Cached c a j k x.1) (sym e) cached)
        | inr p ↦
            let (l, r, cached) = candidates-In (suc i) n x p in (omega arith, omega arith, cached)
      ]

  pub In-candidates :
      (i n j : ℕ) (f : ℤ)
      → i ≤ j
      → j < i + n
      → Cached c a j k f
      → In (j, f) (candidates_from c a k i n)
  unfolding candidates_from
  In-candidates i zero j f l r h = absurd (omega arith)
  In-candidates i (suc n) j f l r h =
      let b = c.hash_table (get_hashed_cache_table_index a i) in
      let split = In-append (j, f) (bucket_candidates a i k b) (candidates_from c a k (suc i) n) in
      elim (ℕ_discrete i j) [
        | yes e ↦
            let (e', m, rem) : Cached c a i k f = subst (λ t. Cached c a t k f) (sym e) h in
            split.1 (
              inl (
                subst (λ t. In (t, f) (bucket_candidates a i k b)) e
                  (In-bucket a i k b f e' m rem)))
        | no ne ↦ split.1 (inr (In-candidates (suc i) n j f (omega arith) (omega arith) h))
      ]
