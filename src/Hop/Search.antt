-- ===== src/Hop/Search.antt =====
-- The search of one leaf in `_search` finds what the table holds, and its check of the hop bits never
-- makes it read a right table again.
use riiver_rolex.Base.{
  ℕ, zero, suc, ◌+◌, ◌%◌, ◌<◌, ◌≡◌, refl, sym, ap, ◌∙◌, ◌≢◌, ◌↔◌, ◌⊎◌, inl, inr, Bool, true, false,
  not, ◌&&◌, Option, none, some, arith, ◌==◌, if◌then◌else◌, Bool-cases, ==_iff, ℕ_discrete,
}
use riiver_rolex.Hop.{
  neighbor_size, hopscotch_insert_locally, Records, hashed, get_entry, search_from,
  hopscotch_search,
}
use riiver_rolex.Hop.Slots.{dist, IsTable}
use riiver_rolex.Hop.Insert.{Stored, hopscotch_insert_locally_lem}

-- The result of a search for the key.
abbrev pub Reads : Records → ℕ → Option ℕ → Type 0
Reads r k none = (w : ℕ) → ¬ Stored r k w
Reads r k (some v) = Stored r k v

module _ (city : ℕ → ℕ) (r : Records) (t : IsTable city r 16) (k : ℕ) (key : k ≢ 0) where
  -- The entry at offset `j` belongs to the hashed index.
  abbrev here : ℕ → Bool
  here j =
      let e = get_entry r (hashed city k + j) in
      not (e.key == 0) && (hashed city e.key == hashed city k)

  bit_true : (j : ℕ) → j < 8 → here j ≡ true → (r (hashed city k)).hop_bit j ≡ true
  bit_true j lt c =
      let s = (hashed city k + j) % 16 in
      let n : (r s).key ≢ 0 = (λ z. ground arith) in
      let home : hashed city (r s).key ≡ hashed city k = ground arith in
      let p = t.placed s (omega arith) (λ z. omega arith) n in
      let at : dist (hashed city k) s ≡ j = omega arith in
      ap (λ i. (r (hashed city k)).hop_bit i) (sym at)
      ∙ ap (λ x. (r x).hop_bit (dist x s)) (sym home)
      ∙ p.1

  bit_false : (j : ℕ) → j < 8 → here j ≡ false → (r (hashed city k)).hop_bit j ≡ false
  bit_false j lt c = elim (Bool-cases ((r (hashed city k)).hop_bit j)) [
    | inr e ↦ e
    | inl e ↦
        let (f, n, home) = t.marked (hashed city k) j (omega arith) lt e in absurd (ground arith)
  ]

  -- The hop bits are those that the search counts.
  bit_here :
      (j : ℕ)
      → j < 8
      → (if here j
          then (get_entry r (hashed city k)).hop_bit j
          else not ((get_entry r (hashed city k)).hop_bit j))
        ≡ true
  bit_here j lt =
      let m : hashed city k % 16 ≡ hashed city k = omega arith in
      elim (Bool-cases (here j)) [
        | inl c ↦ rw c (ap (λ x. (r x).hop_bit j) m ∙ bit_true j lt c)
        | inr c ↦ rw c (ap (λ x. not ((r x).hop_bit j)) m ∙ ap not (bit_false j lt c))
      ]

  nothing_found :
      ((x : ℕ) → x < 8 → (r ((hashed city k + x) % 16)).key ≢ k) → (w : ℕ) → ¬ Stored r k w
  nothing_found before w (nz, (i, lt, free, e, z)) =
      let p = t.placed i lt free (λ y. key (sym e ∙ y)) in
      let home : hashed city (r i).key ≡ hashed city k = ap (hashed city) e in
      let d = dist (hashed city k) i in
      let near : d < 8 = let q = p.0 in omega arith in
      let at : (hashed city k + d) % 16 ≡ i = omega arith in
      before d near (ap (λ s. (r s).key) at ∙ e)

  found_here : (j : ℕ) → (r ((hashed city k + j) % 16)).key ≡ k → here j ≡ true
  found_here j e =
      let home : hashed city (r ((hashed city k + j) % 16)).key ≡ hashed city k =
        ap (hashed city) e in
      let c : ((r ((hashed city k + j) % 16)).key == 0) ≡ false = ground arith in
      rw (c, (==_iff (hashed city (r ((hashed city k + j) % 16)).key) (hashed city k)).1 home) refl

  search_from_lem :
      (n j : ℕ)
      → j + n ≡ 8
      → ((x : ℕ) → x < j → (r ((hashed city k + x) % 16)).key ≢ k)
      → (out : Option ℕ) × (search_from city r k j n true ≡ some out) × Reads r k out
  unfolding search_from
  search_from_lem zero j e before = (none, refl, nothing_found (λ x lt. before x (omega arith)))
  search_from_lem (suc n) j e before =
      let s = (hashed city k + j) % 16 in
      elim (Bool-cases (here j && ((r s).key == k))) [
        | inl c ↦
            let is : (r s).key ≡ k = ground arith in
            (some (r s).value, rw c refl, (key, (s, omega arith, (λ z. omega arith), is, refl)))
        | inr c ↦
            let other : (r s).key ≢ k = (λ z.
              let h : here j ≡ true = found_here j z in
              let y : ((r s).key == k) ≡ true = (==_iff (r s).key k).1 z in ground arith) in
            let (out, rest, good) = search_from_lem n (j + 1) (omega arith) (λ x lt.
              elim (ℕ_discrete x j) [
                | yes z ↦ (λ y. other (ap (λ x. (r ((hashed city k + x) % 16)).key) (sym z) ∙ y))
                | no z ↦ before x (omega arith)
              ]) in
            (out, rw (c, bit_here j (omega arith)) rest, good)
      ]

  -- On a table that is right, the search of a key that is not null returns the value that the table
  -- holds under the key, or nothing if it holds none.
  pub hopscotch_search_lem :
      (out : Option ℕ) × (hopscotch_search city r k ≡ some out) × Reads r k out
  unfolding hopscotch_search
  hopscotch_search_lem = search_from_lem 8 0 refl (λ x lt. absurd (omega arith))

-- On a table that is right with an empty entry near enough to the hashed index, a key that is not
-- null and that the table does not hold is found after its insertion, with its value.
pub hopscotch_search-insert_locally :
    (city : ℕ → ℕ) (k v : ℕ) (r : Records) (i : ℕ)
    → k ≢ 0
    → IsTable city r 16
    → i < neighbor_size
    → (r ((hashed city k + i) % 16)).key ≡ 0
    → ((w : ℕ) → ¬ Stored r k w)
    → (r' : Records) × (hopscotch_insert_locally city r k v ≡ some r')
      × (hopscotch_search city r' k ≡ some (some v))
hopscotch_search-insert_locally city k v r i key t lt null fresh =
    let (r', e, t', same) = hopscotch_insert_locally_lem city k v r i key t lt null in
    let (out, is, good) = hopscotch_search_lem city r' t' k key in
    (r', e, is ∙ ap some (only r' out good same))
  where
    only :
        (r' : Records) (out : Option ℕ)
        → Reads r' k out
        → ((q w : ℕ) → Stored r' q w ↔ (Stored r q w ⊎ (k ≡ q) × (v ≡ w)))
        → out ≡ some v
    only r' none good same = absurd (good v ((same k v).1 (inr (refl, refl))))
    only r' (some w) good same = elim ((same k w).0 good) [
      | inl old ↦ absurd (fresh w old)
      | inr (e, z) ↦ ap some (sym z)
    ]
