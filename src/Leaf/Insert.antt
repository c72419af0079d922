-- ===== src/Leaf/Insert.antt =====
-- What the scan of an insertion says of the sorted records, and what the shift makes of them.
use riiver_rolex.Base.{
  ℕ, zero, suc, ◌<◌, ◌≡◌, refl, sym, ap, ◌∙◌, inl, inr, some, List, [], ◌∷◌, ◌++◌, arith, length,
  get_or, dec_lt,
}
use riiver_rolex.Leaf.{update_at, LeafEntry, null_entry, probe, next_null}
use riiver_rolex.Leaf.Shift.{carry, insert_at, length-insert_at}
use riiver_rolex.Leaf.Order.{live, IsOrdered, insert_sorted}
use riiver_rolex.Leaf.Scan.{
  live-AllNull, AllNull-IsOrdered, live_stop, live_on, next_null_stop, next_null_on, next_null-suc,
  scan, carry-live, Scan-zero, Scan-suc, next_null-nil, entry, carry-full,
}

module _ (k v : ℕ) (pos : 0 < k) where
  sorted_less :
      (x : LeafEntry) (ps : List (ℕ × ℕ))
      → k < x.key
      → insert_sorted k v ((x.key, x.value) ∷ ps) ≡ (k, v) ∷ (x.key, x.value) ∷ ps
  unfolding insert_sorted
  sorted_less x ps h = ground arith

  sorted_more :
      (x : LeafEntry) (ps : List (ℕ × ℕ))
      → x.key < k
      → insert_sorted k v ((x.key, x.value) ∷ ps) ≡ (x.key, x.value) ∷ insert_sorted k v ps
  unfolding insert_sorted
  sorted_more x ps h = ground arith

  sorted_nil : insert_sorted k v [] ≡ (k, v) ∷ []
  unfolding insert_sorted
  sorted_nil = refl

  -- With a free slot the shift inserts the key in order.
  pub insert_at-live :
      (lo i : ℕ) (rs : List LeafEntry)
      → lo < k
      → IsOrdered lo rs
      → probe k rs ≡ some i
      → next_null i rs < length rs
      → (live (insert_at i (next_null i rs) k v rs) ≡ insert_sorted k v (live rs))
        × IsOrdered lo (insert_at i (next_null i rs) k v rs)
  unfolding insert_at
  insert_at-live lo i [] l h e room = absurd (omega arith)
  insert_at-live lo zero (x ∷ rs) l h e room = elim (Scan-zero (scan k lo zero x rs pos h e)) [
    | inl a ↦
        rw
          (
            next_null_stop x rs a.0,
            live_stop x rs a.0,
            sorted_nil,
            live_on (record x { key = k; value = v }) rs pos,
            live-AllNull rs a.1,
          )
          (refl, inl (l, AllNull-IsOrdered k rs a.1))
    | inr (g, o) ↦
        let c = carry-live k x rs g o (room' o g) in
        rw
          (
            next_null_on x rs (omega arith),
            live_on x rs (omega arith),
            sorted_less x (live rs) g,
            live_on (record x { key = k; value = v }) (carry (next_null zero rs) x rs) pos,
            c.0,
          )
          (refl, inl (l, c.1))
  ]
    where
      room' : IsOrdered x.key rs → k < x.key → next_null zero rs < length rs
      room' o g = omega (arith, next_null_on x rs (omega arith))
  insert_at-live lo (suc i) (x ∷ rs) l h e room =
      let (b, g, o, f) = Scan-suc (scan k lo (suc i) x rs pos h e) in
      let r = insert_at-live x.key i rs g o f (omega (arith, next_null-suc x rs i)) in
      rw
        (
          next_null-suc x rs i,
          live_on x rs (omega arith),
          sorted_more x (live rs) g,
          live_on x (insert_at i (next_null i rs) k v rs) (omega arith),
        )
        (ap (λ t. entry x ∷ t) r.0, inl (b, r.1))

  -- In a full array the last record moves out, and the rest is the sorted insertion.
  pub insert_at-full :
      (lo i j : ℕ) (rs : List LeafEntry) (bs : List (ℕ × ℕ))
      → lo < k
      → IsOrdered lo rs
      → probe k rs ≡ some i
      → next_null i rs ≡ length rs
      → i < length rs
      → length rs ≡ suc j
      → (insert_sorted k v (live rs ++ bs)
          ≡ live (insert_at i j k v rs) ++ entry (get_or rs j null_entry) ∷ bs)
        × IsOrdered lo (insert_at i j k v rs)
        × (k < (get_or rs j null_entry).key)
  unfolding insert_at
  insert_at-full lo i j [] bs l h e full lt size = absurd (omega arith)
  insert_at-full lo zero zero (x ∷ y ∷ rs) bs l h e full lt size = absurd (omega arith)
  insert_at-full lo zero zero (x ∷ []) bs l h e full lt size =
      elim (Scan-zero (scan k lo zero x [] pos h e)) [
        | inl a ↦ absurd (omega (arith, next_null_stop x [] a.0))
        | inr (g, o) ↦
            rw
              (
                live_on x [] (omega arith),
                live_on (record x { key = k; value = v }) [] pos,
                live-AllNull [] tt,
              )
              (sorted_less x bs g, inl (l, tt), g)
      ]
  insert_at-full lo zero (suc j) (x ∷ rs) bs l h e full lt size =
      elim (Scan-zero (scan k lo zero x rs pos h e)) [
        | inl a ↦ absurd (omega (arith, next_null_stop x rs a.0))
        | inr (g, o) ↦
            let c =
              carry-full j k x rs bs g o (omega (arith, next_null_on x rs (omega arith)))
                (omega arith) in
            rw
              (
                live_on x rs (omega arith),
                live_on (record x { key = k; value = v }) (carry j x rs) pos,
              )
              (
                sorted_less x (live rs ++ bs) g ∙ ap (λ t. (k, v) ∷ t) (sym c.0),
                inl (l, c.1),
                omega arith,
              )
      ]
  insert_at-full lo (suc i) zero (x ∷ rs) bs l h e full lt size = absurd (omega arith)
  insert_at-full lo (suc i) (suc j) (x ∷ rs) bs l h e full lt size =
      let (b, g, o, f) = Scan-suc (scan k lo (suc i) x rs pos h e) in
      let r =
        insert_at-full x.key i j rs bs g o f (omega (arith, next_null-suc x rs i)) (omega arith)
          (omega arith) in
      rw (live_on x rs (omega arith), live_on x (insert_at i j k v rs) (omega arith))
        (sorted_more x (live rs ++ bs) g ∙ ap (λ t. entry x ∷ t) r.0, inl (b, r.1), r.2)

  -- A key greater than all of a full array goes behind it.
  pub insert_sorted-behind :
      (lo : ℕ) (rs : List LeafEntry) (bs : List (ℕ × ℕ))
      → IsOrdered lo rs
      → probe k rs ≡ some (length rs)
      → insert_sorted k v (live rs ++ bs) ≡ live rs ++ insert_sorted k v bs
  insert_sorted-behind lo [] bs h e = rw (live-AllNull [] tt)
  insert_sorted-behind lo (x ∷ rs) bs h e =
      let (b, g, o, f) = Scan-suc (scan k lo (suc (length rs)) x rs pos h e) in
      rw (live_on x rs (omega arith), sorted_more x (live rs ++ bs) g)
        (ap (λ t. entry x ∷ t) (insert_sorted-behind x.key rs bs o f))

-- A full array stays full.
abbrev AllLive : List LeafEntry → Type 0
AllLive [] = Unit
AllLive (x ∷ rs) = (0 < x.key) × AllLive rs

AllLive-next_null : (rs : List LeafEntry) → AllLive rs → next_null zero rs ≡ length rs
AllLive-next_null [] h = next_null-nil zero
AllLive-next_null (x ∷ rs) h = rw (next_null_on x rs h.0) (ap suc (AllLive-next_null rs h.1))

next_null-AllLive : (rs : List LeafEntry) → next_null zero rs ≡ length rs → AllLive rs
next_null-AllLive [] h = tt
next_null-AllLive (x ∷ rs) h = elim (dec_lt 0 x.key) [
  | yes p ↦ (p, next_null-AllLive rs (omega (arith, next_null_on x rs p)))
  | no p ↦ absurd (omega (arith, next_null_stop x rs (omega arith)))
]

carry-AllLive :
    (j : ℕ) (x : LeafEntry) (rs : List LeafEntry) → 0 < x.key → AllLive rs → AllLive (carry j x rs)
unfolding carry
carry-AllLive j x [] p h = tt
carry-AllLive zero x (y ∷ rs) p h = (p, h.1)
carry-AllLive (suc j) x (y ∷ rs) p h = (p, carry-AllLive j y rs h.0 h.1)

update_at-AllLive :
    (rs : List LeafEntry) (i k v : ℕ) → 0 < k → AllLive rs → AllLive (update_at rs i k v)
unfolding update_at
update_at-AllLive [] i k v p h = tt
update_at-AllLive (x ∷ rs) zero k v p h = (p, h.1)
update_at-AllLive (x ∷ rs) (suc i) k v p h = (h.0, update_at-AllLive rs i k v p h.1)

insert_at-AllLive :
    (i j k v : ℕ) (rs : List LeafEntry) → 0 < k → AllLive rs → AllLive (insert_at i j k v rs)
unfolding insert_at
insert_at-AllLive i j k v [] p h = tt
insert_at-AllLive zero zero k v (x ∷ rs) p h = (p, h.1)
insert_at-AllLive zero (suc j) k v (x ∷ rs) p h = (p, carry-AllLive j x rs h.0 h.1)
insert_at-AllLive (suc i) zero k v (x ∷ rs) p h = (h.0, update_at-AllLive rs i k v p h.1)
insert_at-AllLive (suc i) (suc j) k v (x ∷ rs) p h = (h.0, insert_at-AllLive i j k v rs p h.1)

pub next_null-insert_at :
    (i j k v : ℕ) (rs : List LeafEntry)
    → 0 < k
    → next_null zero rs ≡ length rs
    → next_null zero (insert_at i j k v rs) ≡ length rs
next_null-insert_at i j k v rs p h =
    AllLive-next_null (insert_at i j k v rs)
      (insert_at-AllLive i j k v rs p (next_null-AllLive rs h))
    ∙ length-insert_at i j k v rs
