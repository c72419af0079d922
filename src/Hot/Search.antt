-- ===== src/Hot/Search.antt =====
-- What a search of the cache finds: among the entries of the key, one that was found most often.
use riiver_rolex.Base.{
  ℕ, ◌+◌, ◌-◌, ◌≤◌, ◌<◌, ◌≡◌, refl, ◌↔◌, ◌⊎◌, inl, inr, false, none, some, List, [], ◌∷◌, arith,
  ltb, Bool-cases, ltb→lt, lt→ltb,
}
use riiver_rolex.Base.Int.{ℤ, ltb_ℤ, ◌≤ℤ◌, ltb_ℤ-false}
use riiver_rolex.Address.{GlobalAddress}
use riiver_rolex.Key.{Key}
use riiver_rolex.Leaf.{leaf_span_size}
use riiver_rolex.Hot.{
  IdxCache, candidates_from, all_candidates, insert_desc, sort_desc, front, search_idx_from_cache,
}
use riiver_rolex.Hot.Candidates.{In, In-append, Cached, candidates-In, In-candidates}

-- The sort keeps the members, and puts a greatest one in front.
abbrev Falling : List (ℕ × ℤ) → Type 0
Falling [] = Unit {0}
Falling (x ∷ xs) = ((y : ℕ × ℤ) → In y xs → y.1 ≤ℤ x.1) × Falling xs

In-insert_desc : (x y : ℕ × ℤ) (ys : List (ℕ × ℤ)) → In y (insert_desc x ys) ↔ ((y ≡ x) ⊎ In y ys)
unfolding insert_desc
In-insert_desc x y [] = (λ h. h, λ h. h)
In-insert_desc x y (z ∷ zs) = elim (Bool-cases (ltb_ℤ z.1 x.1)) [
  | inl t ↦ rw t (λ h. h, λ h. h)
  | inr t ↦
      let (to, from) = In-insert_desc x y zs in
      rw t (
        λ h. elim h [
          | inl e ↦ inr (inl e)
          | inr i ↦ elim (to i) [ inl e ↦ inl e | inr j ↦ inr (inr j) ]
        ],
        λ h. elim h [
          | inl e ↦ inr (from (inl e))
          | inr i ↦ elim i [ inl e ↦ inl e | inr j ↦ inr (from (inr j)) ]
        ],
      )
]

insert_desc-Falling : (x : ℕ × ℤ) (ys : List (ℕ × ℤ)) → Falling ys → Falling (insert_desc x ys)
unfolding insert_desc
insert_desc-Falling x [] h = (λ y n. absurd n, tt)
insert_desc-Falling x (z ∷ zs) h = elim (Bool-cases (ltb_ℤ z.1 x.1)) [
  | inl t ↦ rw t (
    λ y i. elim i [ inl e ↦ rw e (ground arith) | inr j ↦ let below = h.0 y j in ground arith ],
    (h.0, h.1),
  )
  | inr t ↦ rw t (
    λ y i. elim ((In-insert_desc x y zs).0 i) [
      | inl e ↦ rw e (ltb_ℤ-false z.1 x.1 t)
      | inr j ↦ h.0 y j
    ],
    insert_desc-Falling x zs h.1,
  )
]

In-sort_desc :
    (y : ℕ × ℤ) (sorted xs : List (ℕ × ℤ)) → In y (sort_desc sorted xs) ↔ (In y sorted ⊎ In y xs)
unfolding sort_desc
In-sort_desc y sorted [] = (λ h. inl h, λ h. elim h [ inl i ↦ i | inr n ↦ absurd n ])
In-sort_desc y sorted (x ∷ xs) =
    let (to, from) = In-sort_desc y (insert_desc x sorted) xs in
    let (put, back) = In-insert_desc x y sorted in
    (
      λ h. elim (to h) [
        | inl i ↦ elim (put i) [ inl e ↦ inr (inl e) | inr j ↦ inl j ]
        | inr j ↦ inr (inr j)
      ],
      λ h. elim h [
        | inl i ↦ from (inl (back (inr i)))
        | inr i ↦ elim i [ inl e ↦ from (inl (back (inl e))) | inr j ↦ from (inr j) ]
      ],
    )

sort_desc-Falling : (sorted xs : List (ℕ × ℤ)) → Falling sorted → Falling (sort_desc sorted xs)
unfolding sort_desc
sort_desc-Falling sorted [] h = h
sort_desc-Falling sorted (x ∷ xs) h =
    sort_desc-Falling (insert_desc x sorted) xs (insert_desc-Falling x sorted h)

-- The indices that a search covers.
abbrev pub Searched : ℕ → ℕ → ℕ → Type 0
Searched l r i = (l ≤ i) × (i ≤ r) ⊎ (r < l) × ((i ≤ r) ⊎ (l ≤ i) × (i < leaf_span_size))

-- What a sorted list of candidates has in front.
front_lem :
    (xs : List (ℕ × ℤ))
    → Falling xs
    → ((xs ≡ []) × (front xs ≡ none))
      ⊎ ((j : ℕ) × (g : ℤ) × In (j, g) xs
          × (front xs ≡ some j)
          × ((i : ℕ) (f : ℤ) → In (i, f) xs → f ≤ℤ g))
front_lem [] h = inl (refl, refl)
front_lem ((j, g) ∷ xs) h = inr (
  j,
  g,
  inl refl,
  refl,
  λ i f m. elim m [ inl e ↦ let same : f ≡ g = cc in rw same (omega arith) | inr n ↦ h.0 (i, f) n ],
)

module _ (c : IdxCache) (a : GlobalAddress) (l r : ℕ) (k : Key) where
  all-In : (x : ℕ × ℤ) → In x (all_candidates c a l r k) → Searched l r x.0 × Cached c a x.0 k x.1
  unfolding all_candidates
  all-In x h = elim (Bool-cases (ltb r l)) [
    | inl t ↦
        elim ((In-append x (candidates_from c a k 0 (r + 1))
            (candidates_from c a k l (leaf_span_size - l))).0
          (rw t at h)) [
            | inl i ↦
                let (p, q, m) = candidates-In c a k 0 (r + 1) x i in
                (inr (ltb→lt r l t, inl (omega arith)), m)
            | inr i ↦
                let (p, q, m) = candidates-In c a k l (leaf_span_size - l) x i in
                (inr (ltb→lt r l t, inr (p, omega arith)), m)
          ]
    | inr t ↦
        let (p, q, m) = candidates-In c a k l (r + 1 - l) x (rw t at h) in
        (inl (p, ground arith), m)
  ]

  In-all :
      (i : ℕ) (f : ℤ) → Searched l r i → Cached c a i k f → In (i, f) (all_candidates c a l r k)
  unfolding all_candidates
  In-all i f (inl (p, q)) m =
      let t : ltb r l ≡ false = ground arith in
      rw t (In-candidates c a k l (r + 1 - l) i f p (omega arith) m)
  In-all i f (inr (w, inl q)) m = rw (lt→ltb r l w) (
      (In-append (i, f) (candidates_from c a k 0 (r + 1))
          (candidates_from c a k l (leaf_span_size - l))).1
        (inl (In-candidates c a k 0 (r + 1) i f (omega arith) (omega arith) m)))
  In-all i f (inr (w, inr (p, q))) m = rw (lt→ltb r l w) (
      (In-append (i, f) (candidates_from c a k 0 (r + 1))
          (candidates_from c a k l (leaf_span_size - l))).1
        (inr (In-candidates c a k l (leaf_span_size - l) i f p (omega arith) m)))

  -- What the search of a cache that is not disabled returns: an index of the range that is cached for
  -- the key and whose frequency is greatest among those that are, or false where there is none.
  pub search_idx_from_cache_lem :
      c.is_disabled ≡ false
      → ((j : ℕ) × (g : ℤ) × (search_idx_from_cache c a l r k ≡ some j)
          × Searched l r j
          × Cached c a j k g
          × ((i : ℕ) (f : ℤ) → Searched l r i → Cached c a i k f → f ≤ℤ g))
        ⊎ ((search_idx_from_cache c a l r k ≡ none)
            × ((i : ℕ) (f : ℤ) → Searched l r i → ¬ Cached c a i k f))
  unfolding search_idx_from_cache
  search_idx_from_cache_lem on =
      let xs = all_candidates c a l r k in
      let sorted = λ (x : ℕ × ℤ). In-sort_desc x [] xs in
      elim (front_lem (sort_desc [] xs) (sort_desc-Falling [] xs tt)) [
        | inl (e, n) ↦
            inr (rw (on, n), λ i f s m. rw e at ((sorted (i, f)).1 (inr (In-all i f s m))))
        | inr (j, g, m, e, best) ↦ elim ((sorted (j, g)).0 m) [
          | inl n ↦ absurd n
          | inr p ↦
              let (s, m') = all-In (j, g) p in
              inl (
                j,
                g,
                rw (on, e),
                s,
                m',
                λ i f s' m''. best i f ((sorted (i, f)).1 (inr (In-all i f s' m''))),
              )
        ]
      ]
