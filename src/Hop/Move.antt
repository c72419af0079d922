-- ===== src/Hop/Move.antt =====
-- The loop of hopscotch_split_and_unlock splits a right table into two right tables.
use riiver_rolex.Base.{ℕ, ◌≤◌, ◌<◌, ◌≡◌, refl, sym, ◌∙◌, ◌↔◌, inl, inr, some, arith}
use riiver_rolex.Leaf.{leaf_span_size}
use riiver_rolex.Hop.{Records, null_records}
use riiver_rolex.Hop.Slots.{IsTable, null_records-IsTable}
use riiver_rolex.Hop.Insert.{Stored}
use riiver_rolex.Hop.Split.{move_data}
use riiver_rolex.Hop.Round.{IsMoving, move_data_lem}

module _ (city : ℕ → ℕ) (split : ℕ) (r0 : Records) where
  module _ (r s : Records) (m : IsMoving city split r0 16 r s) where
    lower_to : (q w : ℕ) → Stored r q w → Stored r0 q w × (q < split)
    lower_to q w (n, (x, lx, f, k, v)) = elim (m.slots x lx) [
      | inl (l, y) ↦ absurd (n (sym k ∙ y.here))
      | inr (h, st) ↦
          let is : (r0 x).key ≡ q = sym st.here ∙ k in
          (
            (n, (x, lx, f, is, sym st.value ∙ v)),
            elim h [
              | inl l ↦ absurd (omega arith)
              | inr (inl z) ↦ absurd (n (sym is ∙ z))
              | inr (inr l) ↦ omega arith
            ],
          )
    ]

    lower_back : (q w : ℕ) → Stored r0 q w → q < split → Stored r q w
    lower_back q w (n, (x, lx, f, k, v)) lt = elim (m.slots x lx) [
      | inl (l, y) ↦ let u = y.upper in absurd (omega arith)
      | inr (h, st) ↦ (n, (x, lx, f, st.here ∙ k, st.value ∙ v))
    ]

    upper_to : (q w : ℕ) → Stored s q w → Stored r0 q w × (split ≤ q)
    upper_to q w (n, (x, lx, f, k, v)) = elim (m.slots x lx) [
      | inl (l, y) ↦
          let is : (r0 x).key ≡ q = sym y.there ∙ k in
          let u = y.upper in ((n, (x, lx, f, is, sym y.value ∙ v)), omega arith)
      | inr (h, st) ↦ absurd (n (sym k ∙ st.there))
    ]

    upper_back : (q w : ℕ) → Stored r0 q w → split ≤ q → Stored s q w
    upper_back q w (n, (x, lx, f, k, v)) le = elim (m.slots x lx) [
      | inl (l, y) ↦ (n, (x, lx, f, y.there ∙ k, y.value ∙ v))
      | inr (h, st) ↦ elim h [
        | inl l ↦ absurd (omega arith)
        | inr (inl z) ↦ absurd (n (sym k ∙ z))
        | inr (inr l) ↦ absurd (omega arith)
      ]
    ]

-- From a table that is right, the loop of a split at any key fails no assertion and makes two tables
-- that are right: the leaf keeps what is under the keys below the split key, and the synonym leaf
-- has what is under the others.
pub move_data-splits :
    (city : ℕ → ℕ) (split : ℕ) (r : Records)
    → IsTable city r 16
    → (r' : Records) × (s' : Records) × (move_data city split leaf_span_size 0 r null_records
        ≡ some (r', s'))
      × IsTable city r' 16
      × IsTable city s' 16
      × ((q w : ℕ)
          → (Stored r' q w ↔ (Stored r q w × (q < split)))
            × (Stored s' q w ↔ (Stored r q w × (split ≤ q))))
move_data-splits city split r t =
    let start : IsMoving city split r 0 r null_records = record {
      leaf = t;
      synonym = null_records-IsTable city;
      slots = λ x lx. inr (inl (omega arith), record { here = refl; value = refl; there = refl });
    } in
    let (r', s', e, m) = move_data_lem city split r 16 0 r null_records refl start in
    (
      r',
      s',
      e,
      m.leaf,
      m.synonym,
      (λ q w. (
        (lower_to city split r r' s' m q w, (λ h. lower_back city split r r' s' m q w h.0 h.1)),
        (upper_to city split r r' s' m q w, (λ h. upper_back city split r r' s' m q w h.0 h.1)),
      )),
    )
