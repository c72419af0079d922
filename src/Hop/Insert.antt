-- ===== src/Hop/Insert.antt =====
-- hopscotch_insert_and_unlock keeps the table right and adds the key.
use mathlib.Core.Path.{subst}
use mathlib.Core.Option.{none-ne-some}
use riiver_rolex.Base.{
  Bool, ℕ, zero, suc, ◌+◌, ◌%◌, ◌≤◌, ◌<◌, min, ◌≡◌, refl, sym, ap, ◌∙◌, ◌≢◌, ◌↔◌, ◌⊎◌, inl, inr,
  true, false, Option, none, some, List, [], ◌∷◌, ◌++◌, arith, ltb, ◌==◌, Bool-cases, Option-cases,
  dec_lt, ℕ_discrete, lt→ltb,
}
use riiver_rolex.Leaf.{leaf_span_size}
use riiver_rolex.Hop.{
  neighbor_size, Records, hashed, find_empty, hop, hop_loop, hopscotch_insert, insert_into,
  hopscotch_insert_locally, shifted_home,
}
use riiver_rolex.Hop.Slots.{IsTable, Holds, moved}
use riiver_rolex.Hop.Place.{place_lem}
use riiver_rolex.Hop.Step.{moved-IsMoved, moved-IsTable, moved-Holds, Holds-moved}
use riiver_rolex.Hop.Find.{Full, CanHop, find_empty_lem, find_hop_lem, hop_lem}

-- The table holds the value under the key, which is not null.
abbrev pub Stored : Records → ℕ → ℕ → Type 0
Stored r q w = (q ≢ 0) × Holds r 16 q w

-- The `n` entries from the logical index `i` on have keys.
abbrev pub NoRoom : Records → ℕ → ℕ → Type 0
NoRoom r i zero = Unit
NoRoom r i (suc n) = ((r (i % 16)).key ≢ 0) × NoRoom r (i + 1) n

-- An insertion fails only where it sees no room in the neighborhood, and otherwise it adds the value
-- under the key.
abbrev pub Extends : (ℕ → ℕ) → Records → ℕ → ℕ → ℕ → Option (Records × List ℕ) → Type 0
Extends city r k v entry_num none = NoRoom r (hashed city k) (min entry_num neighbor_size)
Extends city r k v entry_num (some (r', idxes)) =
    IsTable city r' 16 × ((q w : ℕ) → Stored r' q w ↔ (Stored r q w ⊎ (k ≡ q) × (v ≡ w)))

-- What the loop leaves, where it does not fail: slot `j` counts as empty before it.
abbrev Inserted : (ℕ → ℕ) → Records → ℕ → ℕ → ℕ → Option (Records × List ℕ) → Type 0
Inserted city r j k v none = hashed city k + 8 ≤ j
Inserted city r j k v (some (r', idxes)) =
    IsTable city r' 16 × ((q w : ℕ) → Holds r' 16 q w ↔ (Holds r (j % 16) q w ⊎ (k ≡ q) × (v ≡ w)))

module _ (city : ℕ → ℕ) (checked : Bool) (k v : ℕ) (key : k ≢ 0) where
  -- One hop, for the rest of the loop.
  one_hop :
      (r : Records) (j h : ℕ)
      → IsTable city r (j % 16)
      → Full r (hashed city k) j
      → hashed city k + 8 ≤ j
      → j < hashed city k + 16
      → (h < j) × (j ≤ h + 7) × (j + 16 < shifted_home city r h + 8)
      → (r' : Records) × (hop city r h j ≡ some r')
        × IsTable city r' (h % 16)
        × Full r' (hashed city k) h
        × ((q w : ℕ) → Holds r (j % 16) q w ↔ Holds r' (h % 16) q w)
  one_hop r j h t full low high (lt, near, hops) =
      let key_h : (r (h % 16)).key ≢ 0 = full h (omega arith) lt in
      let (home, d, d', e, m) =
        hop_lem city r j h t lt (omega arith) (omega arith) (omega arith) key_h hops in
      let r' = moved r h j home d d' in
      let o = moved-IsMoved r h j home d d' in
      (
        r',
        e,
        moved-IsTable city r r' (h % 16) (j % 16) (home % 16) d d' m o t,
        (λ x a b n.
            let other : x % 16 ≢ j % 16 = (λ z. omega arith) in
            full x a (omega arith) (sym (o.key_other (x % 16) other) ∙ n)),
        (λ q w. (
          moved-Holds city r r' (h % 16) (j % 16) (home % 16) d d' m o t q w,
          Holds-moved city r r' (h % 16) (j % 16) (home % 16) d d' m o t q w,
        )),
      )

  carry :
      (r r' : Records) (j h : ℕ) (out : Option (Records × List ℕ))
      → h < j
      → ((q w : ℕ) → Holds r (j % 16) q w ↔ Holds r' (h % 16) q w)
      → Inserted city r' h k v out
      → Inserted city r j k v out
  carry r r' j h none lt same i = omega arith
  carry r r' j h (some (r2, idxes)) lt same i = (
    i.0,
    (λ q w. (
      (λ h. elim ((i.1 q w).0 h) [ inl a ↦ inl ((same q w).1 a) | inr b ↦ inr b ]),
      (λ h. (i.1 q w).1 (elim h [ inl a ↦ inl ((same q w).0 a) | inr b ↦ inr b ])),
    )),
  )

  hop_loop_lem :
      (rounds : ℕ) (r : Records) (j : ℕ) (idxes : List ℕ)
      → IsTable city r (j % 16)
      → Full r (hashed city k) j
      → hashed city k ≤ j
      → j < hashed city k + 16
      → 0 < rounds
      → j < hashed city k + 7 + rounds
      → (out : Option (Records × List ℕ)) × (hop_loop city checked r k v rounds j idxes ≡ some out)
        × Inserted city r j k v out
  unfolding hop_loop
  hop_loop_lem zero r j idxes t full low high pos enough = absurd (omega arith)
  hop_loop_lem (suc rounds) r j idxes t full low high pos enough =
      elim (dec_lt j (hashed city k + 8)) [
        | yes l ↦
            let (r', e, table, holds) = place_lem city r j k v t key low l in
            (
              some (r', idxes ++ ((j % 16) ∷ [])),
              rw (lt→ltb j (hashed city k + 8) l, e) refl,
              (table, holds),
            )
        | no g ↦
            let c : ltb j (hashed city k + 8) ≡ false = ground arith in
            let (found, e, can) =
              find_hop_lem city checked r (hashed city k) j 7 t full (omega arith) (omega arith) in
            elim (Option-cases found) [
              | inl z ↦ (none, rw (c, e, z) refl, omega arith)
              | inr (h, z) ↦
                  let hops : CanHop city r j (some h) = subst (CanHop city r j) z can in
                  let (r', is, table, full', same) = one_hop r j h t full (omega arith) high hops in
                  let (out, rest, good) =
                    hop_loop_lem rounds r' h (idxes ++ ((j % 16) ∷ [])) table full' (omega arith)
                      (omega arith) (omega arith) (omega arith) in
                  (out, rw (c, e, z, is) rest, carry r r' j h out hops.0 same good)
            ]
      ]

  -- The empty slot that was found is the free one.
  free_slot : (r : Records) (f : ℕ) → f < 16 → (r f).key ≡ 0 → IsTable city r 16 → IsTable city r f
  free_slot r f lt null t = record {
    placed = λ i li n e. t.placed i li (λ z. omega arith) e;
    marked = λ a d la ld b.
        let (n, e, home) = t.marked a d la ld b in
        ((λ z. e (ap (λ s. (r s).key) z ∙ null)), e, home);
  }

  by_free_slot :
      (r r' : Records) (f : ℕ)
      → f < 16
      → (r f).key ≡ 0
      → ((q w : ℕ) → Holds r' 16 q w ↔ (Holds r f q w ⊎ (k ≡ q) × (v ≡ w)))
      → (q w : ℕ) → Stored r' q w ↔ (Stored r q w ⊎ (k ≡ q) × (v ≡ w))
  by_free_slot r r' f lt null same q w = (to, back)
    where
      to : Stored r' q w → Stored r q w ⊎ (k ≡ q) × (v ≡ w)
      to (n, h) = elim ((same q w).0 h) [
        | inl (i, li, nf, e, z) ↦ inl (n, (i, li, (λ y. omega arith), e, z))
        | inr b ↦ inr b
      ]

      back : Stored r q w ⊎ (k ≡ q) × (v ≡ w) → Stored r' q w
      back (inl (n, (i, li, nf, e, z))) =
          (n, (same q w).1 (inl (i, li, (λ y. n (sym e ∙ ap (λ s. (r s).key) y ∙ null)), e, z)))
      back (inr (e, z)) = ((λ y. key (e ∙ y)), (same q w).1 (inr (e, z)))

  no_room : (r : Records) (i j n : ℕ) → Full r i j → i + n ≤ j → NoRoom r i n
  no_room r i j zero full le = tt
  no_room r i j (suc n) full le = (
    full i (omega arith) (omega arith),
    no_room r (i + 1) j n (λ x a b. full x (omega arith) b) (omega arith),
  )

  none_empty :
      (r : Records) (i n : ℕ)
      → find_empty city r i n ≡ none
      → (x : ℕ) → i ≤ x
      → x < i + n
      → (r (x % 16)).key ≢ 0
  unfolding find_empty
  none_empty r i zero e x a b = absurd (omega arith)
  none_empty r i (suc n) e x a b = elim (Bool-cases ((r (i % 16)).key == 0)) [
    | inl c ↦ absurd (none-ne-some i (sym (rw c at e)))
    | inr c ↦ elim (ℕ_discrete x i) [
      | yes is ↦ (λ z.
          let y : (r (i % 16)).key ≡ 0 = ap (λ x. (r (x % 16)).key) (sym is) ∙ z in ground arith)
      | no ne ↦ none_empty r (i + 1) n (rw c at e) x (omega arith) (omega arith)
    ]
  ]

  all_slots :
      (r : Records) (j entry_num : ℕ) (out : Option (Records × List ℕ))
      → (r (j % 16)).key ≡ 0
      → Full r (hashed city k) j
      → Inserted city r j k v out
      → Extends city r k v entry_num out
  all_slots r j entry_num none null full i =
      no_room r (hashed city k) j (min entry_num 8) full (omega arith)
  all_slots r j entry_num (some (r', idxes)) null full (t, same) =
      (t, by_free_slot r r' (j % 16) (omega arith) null same)

  insert_into_lem :
      (r : Records) (entry_num : ℕ)
      → IsTable city r 16
      → entry_num ≤ leaf_span_size
      → (out : Option (Records × List ℕ)) × (insert_into city checked r k v entry_num ≡ some out)
        × Extends city r k v entry_num out
  unfolding insert_into
  insert_into_lem r entry_num t le =
      elim (Option-cases (find_empty city r (hashed city k) entry_num)) [
        | inl e ↦ (
          none,
          rw (e, insert_into) refl,
          no_room r (hashed city k) (hashed city k + entry_num) (min entry_num 8)
              (none_empty r (hashed city k) entry_num e) (omega arith),
        )
        | inr (j, e) ↦
            let (low, high, null, full) = find_empty_lem city r (hashed city k) entry_num j e in
            let t' : IsTable city r (j % 16) = free_slot r (j % 16) (omega arith) null t in
            let (out, is, good) =
              hop_loop_lem 16 r j [] t' full low (omega arith) (omega arith) (omega arith) in
            (out, rw (e, insert_into) is, all_slots r j entry_num out null full good)
      ]

-- On a table that is right, the insertion of a key that is not null fails no assertion and ends
-- within 16 hops. Either it returns false, and of the entries that it may use those near enough to
-- the hashed index have keys, or it leaves a table that is right and holds what the table held
-- before, and the new value under the key.
pub hopscotch_insert_lem :
    (city : ℕ → ℕ) (k v : ℕ)
    → k ≢ 0
    → (r : Records) (entry_num : ℕ) → IsTable city r 16
    → entry_num ≤ leaf_span_size
    → (out : Option (Records × List ℕ)) × (hopscotch_insert city r k v entry_num ≡ some out)
      × Extends city r k v entry_num out
unfolding hopscotch_insert
hopscotch_insert_lem city k v key r entry_num t le =
    insert_into_lem city true k v key r entry_num t le

room_is_used : (r : Records) (a n i : ℕ) → NoRoom r a n → i < n → (r ((a + i) % 16)).key ≢ 0
room_is_used r a zero i h lt = absurd (omega arith)
room_is_used r a (suc n) zero h lt = let z : a + 0 ≡ a = omega arith in rw z (h.0)
room_is_used r a (suc n) (suc i) h lt =
    let z : a + suc i ≡ a + 1 + i = omega arith in
    rw z (room_is_used r (a + 1) n i h.1 (omega arith))

-- On a table that is right with an empty entry near enough to the hashed index,
-- hopscotch_insert_locally returns: it keeps the table right and adds the value under the key, which
-- is not null.
pub hopscotch_insert_locally_lem :
    (city : ℕ → ℕ) (k v : ℕ) (r : Records) (i : ℕ)
    → k ≢ 0
    → IsTable city r 16
    → i < neighbor_size
    → (r ((hashed city k + i) % 16)).key ≡ 0
    → (r' : Records) × (hopscotch_insert_locally city r k v ≡ some r')
      × IsTable city r' 16
      × ((q w : ℕ) → Stored r' q w ↔ (Stored r q w ⊎ (k ≡ q) × (v ≡ w)))
unfolding hopscotch_insert_locally
hopscotch_insert_locally_lem city k v r i key t lt null =
    let (out, is, good) = insert_into_lem city false k v key r 16 t (omega arith) in
    elim (Option-cases out) [
      | inl z ↦
          let full : Extends city r k v 16 none = subst (Extends city r k v 16) z good in
          absurd (room_is_used r (hashed city k) 8 i full lt null)
      | inr ((r', idxes), z) ↦
          let added : Extends city r k v 16 (some (r', idxes)) =
            subst (Extends city r k v 16) z good in
          (r', rw (is, z) refl, added.0, added.1)
    ]
