-- ===== src/Hop/Place.antt =====
-- A new key in the free slot, near enough to its hashed entry, makes the table right everywhere.
use mathlib.Core.Path.{subst}
use riiver_rolex.Base.{
  ℕ, ◌+◌, ◌-◌, ◌%◌, ◌≤◌, ◌<◌, ◌≡◌, refl, sym, ap, ◌∙◌, ◌≢◌, ◌↔◌, ◌⊎◌, inl, inr, true, false, ◌&&◌,
  some, arith, ◌==◌, if◌then◌else◌, Bool-cases, ==_iff, ℕ_discrete,
}
use riiver_rolex.Hop.{Records, hashed, set_hop_bit, get_entry, set_entry, write_entry, with_bit}
use riiver_rolex.Hop.Slots.{
  dist, IsTable, Holds, set_hop_bit_lem, hop_bit-write_entry, hop_bit-with_bit, key-with_bit,
  value-with_bit, key-set_entry, value-set_entry,
}

-- What the new key and its mark change.
pub record IsPlaced (r r' : Records) (f a d k v : ℕ) : Type 0 where
  pub key_f : (r' f).key ≡ k
  pub value_f : (r' f).value ≡ v
  pub key_other : (x : ℕ) → x ≢ f → (r' x).key ≡ (r x).key
  pub value_other : (x : ℕ) → x ≢ f → (r' x).value ≡ (r x).value
  pub bit_new : (r' a).hop_bit d ≡ true
  pub bit_keep : (x i : ℕ) → x ≢ a ⊎ (i ≢ d) → (r' x).hop_bit i ≡ (r x).hop_bit i

module _ (r : Records) (j a d k v : ℕ) where
  abbrev placed : Records
  placed = let r1 = write_entry r j k v in set_entry r1 a (with_bit (get_entry r1 a) d true)

  key_at : (x : ℕ) → (placed x).key ≡ (if x == j % 16 then k else (r x).key)
  key_at x =
      key-with_bit (write_entry r j k v) a d true x
      ∙ key-set_entry r j (record (get_entry r j) { key = k; value = v }) x

  value_at : (x : ℕ) → (placed x).value ≡ (if x == j % 16 then v else (r x).value)
  value_at x =
      value-with_bit (write_entry r j k v) a d true x
      ∙ value-set_entry r j (record (get_entry r j) { key = k; value = v }) x

  bit_at :
      (x i : ℕ)
      → (placed x).hop_bit i ≡ (if (x == a % 16) && (i == d) then true else (r x).hop_bit i)
  bit_at x i =
      hop_bit-with_bit (write_entry r j k v) a d true x i
      ∙ ap (λ t. if (x == a % 16) && (i == d) then true else t) (hop_bit-write_entry r j k v x i)

  placed-IsPlaced : IsPlaced r placed (j % 16) (a % 16) d k v
  placed-IsPlaced = record {
    key_f = key_at (j % 16) ∙ rw ((==_iff (j % 16) (j % 16)).1 refl) refl;
    value_f = value_at (j % 16) ∙ rw ((==_iff (j % 16) (j % 16)).1 refl) refl;
    key_other = λ x n. let c : (x == j % 16) ≡ false = ground arith in key_at x ∙ rw c refl;
    value_other = λ x n. let c : (x == j % 16) ≡ false = ground arith in value_at x ∙ rw c refl;
    bit_new = bit_at (a % 16) d ∙ rw ((==_iff (a % 16) (a % 16)).1 refl, (==_iff d d).1 refl) refl;
    bit_keep = λ x i h.
        let c : ((x == a % 16) && (i == d)) ≡ false = unchanged x i h in bit_at x i ∙ rw c refl;
  }
    where
      unchanged : (x i : ℕ) → x ≢ a % 16 ⊎ (i ≢ d) → ((x == a % 16) && (i == d)) ≡ false
      unchanged x i h = ground arith

module _ (city : ℕ → ℕ) (r r' : Records) (f a d k v : ℕ) (o : IsPlaced r r' f a d k v)
    (t : IsTable city r f) (hf : f < 16) (hd : d < 8) (home : hashed city k ≡ a)
    (at : (a + d) % 16 ≡ f) (key : k ≢ 0) where
  dist_f : dist a f ≡ d
  dist_f = let l : a < 16 = omega arith in omega arith

  placed_at :
      (i : ℕ)
      → i < 16
      → (r' i).key ≢ 0
      → Dec (i ≡ f)
      → (dist (hashed city (r' i).key) i < 8)
        × ((r' (hashed city (r' i).key)).hop_bit (dist (hashed city (r' i).key) i) ≡ true)
  placed_at i lt n (yes e) =
      let is : hashed city (r' f).key ≡ a = ap (hashed city) o.key_f ∙ home in
      let dist_is : dist (hashed city (r' f).key) f ≡ d = ap (λ x. dist x f) is ∙ dist_f in
      subst
        (λ i.
          (dist (hashed city (r' i).key) i < 8)
          × ((r' (hashed city (r' i).key)).hop_bit (dist (hashed city (r' i).key) i) ≡ true))
        (sym e)
        (
          omega arith,
          ap (λ x. (r' x).hop_bit (dist x f)) is ∙ ap (λ i. (r' a).hop_bit i) dist_f ∙ o.bit_new,
        )
  placed_at i lt n (no e) =
      let same : (r' i).key ≡ (r i).key = o.key_other i e in
      let old = t.placed i lt e (λ z. n (same ∙ z)) in
      let x = hashed city (r i).key in
      let near : dist x i < 8 = old.0 in
      let keep : (r' x).hop_bit (dist x i) ≡ (r x).hop_bit (dist x i) =
        o.bit_keep x (dist x i)
          (elim (ℕ_discrete x a) [ no z ↦ inl z | yes z ↦ inr (λ y. e (omega arith)) ]) in
      subst
        (λ q.
          (dist (hashed city q) i < 8)
          × ((r' (hashed city q)).hop_bit (dist (hashed city q) i) ≡ true))
        (sym same) (near, keep ∙ old.1)

  marked_kept :
      (x i : ℕ)
      → x < 16
      → i < 8
      → (r x).hop_bit i ≡ true
      → ((x + i) % 16 ≢ 16)
        × ((r' ((x + i) % 16)).key ≢ 0)
        × (hashed city (r' ((x + i) % 16)).key ≡ x)
  marked_kept x i lx li b =
      let (nf, n, is) = t.marked x i lx li b in
      let same : (r' ((x + i) % 16)).key ≡ (r ((x + i) % 16)).key = o.key_other ((x + i) % 16) nf in
      ((λ e. omega arith), (λ z. n (sym same ∙ z)), ap (hashed city) same ∙ is)

  marked_f :
      ((a + d) % 16 ≢ 16)
      × ((r' ((a + d) % 16)).key ≢ 0)
      × (hashed city (r' ((a + d) % 16)).key ≡ a)
  marked_f =
      let is : (r' ((a + d) % 16)).key ≡ k = ap (λ s. (r' s).key) at ∙ o.key_f in
      ((λ e. omega arith), (λ z. key (sym is ∙ z)), ap (hashed city) is ∙ home)

  marked_at :
      (x i : ℕ)
      → x < 16
      → i < 8
      → (r' x).hop_bit i ≡ true
      → Dec (x ≡ a)
      → Dec (i ≡ d)
      → ((x + i) % 16 ≢ 16)
        × ((r' ((x + i) % 16)).key ≢ 0)
        × (hashed city (r' ((x + i) % 16)).key ≡ x)
  marked_at x i lx li b (no n) di = marked_kept x i lx li (sym (o.bit_keep x i (inl n)) ∙ b)
  marked_at x i lx li b (yes e) (no n) = marked_kept x i lx li (sym (o.bit_keep x i (inr n)) ∙ b)
  marked_at x i lx li b (yes e) (yes z) =
      subst
        (λ x.
          ((x + i) % 16 ≢ 16)
          × ((r' ((x + i) % 16)).key ≢ 0)
          × (hashed city (r' ((x + i) % 16)).key ≡ x))
        (sym e)
        (subst
          (λ i.
            ((a + i) % 16 ≢ 16)
            × ((r' ((a + i) % 16)).key ≢ 0)
            × (hashed city (r' ((a + i) % 16)).key ≡ a))
          (sym z) marked_f)

  placed-IsTable : IsTable city r' 16
  placed-IsTable = record {
    placed = λ i lt n k. placed_at i lt k (ℕ_discrete i f);
    marked = λ x i lx li b. marked_at x i lx li b (ℕ_discrete x a) (ℕ_discrete i d);
  }

  placed-Holds : (q w : ℕ) → Holds r' 16 q w ↔ (Holds r f q w ⊎ (k ≡ q) × (v ≡ w))
  placed-Holds q w = (to, back)
    where
      to : Holds r' 16 q w → Holds r f q w ⊎ (k ≡ q) × (v ≡ w)
      to (i, lt, n, e, z) = elim (ℕ_discrete i f) [
        | yes y ↦ inr (
          sym o.key_f ∙ ap (λ i. (r' i).key) (sym y) ∙ e,
          sym o.value_f ∙ ap (λ i. (r' i).value) (sym y) ∙ z,
        )
        | no y ↦ inl (i, lt, y, sym (o.key_other i y) ∙ e, sym (o.value_other i y) ∙ z)
      ]

      back : Holds r f q w ⊎ (k ≡ q) × (v ≡ w) → Holds r' 16 q w
      back (inl (i, lt, n, e, z)) =
          (i, lt, (λ y. omega arith), o.key_other i n ∙ e, o.value_other i n ∙ z)
      back (inr (e, z)) = (f, hf, (λ y. omega arith), o.key_f ∙ e, o.value_f ∙ z)

-- The last step of an insertion.
pub place_lem :
    (city : ℕ → ℕ) (r : Records) (j k v : ℕ)
    → IsTable city r (j % 16)
    → k ≢ 0
    → hashed city k ≤ j
    → j < hashed city k + 8
    → (r' : Records) × (set_hop_bit (write_entry r j k v) (hashed city k) (j - hashed city k)
        ≡ some r')
      × IsTable city r' 16
      × ((q w : ℕ) → Holds r' 16 q w ↔ (Holds r (j % 16) q w ⊎ (k ≡ q) × (v ≡ w)))
place_lem city r j k v t key low high =
    let a = hashed city k in
    let d = j - a in
    let m : a % 16 ≡ a = omega arith in
    let at : (a + d) % 16 ≡ j % 16 = omega arith in
    let o : IsPlaced r (placed r j a d k v) (j % 16) a d k v =
      subst (λ x. IsPlaced r (placed r j a d k v) (j % 16) x d k v) m
        (placed-IsPlaced r j a d k v) in
    let unmarked : (r a).hop_bit d ≡ false = elim (Bool-cases ((r a).hop_bit d)) [
      | inr c ↦ c
      | inl c ↦ absurd ((t.marked a d (omega arith) (omega arith) c).0 at)
    ] in
    (
      placed r j a d k v,
      set_hop_bit_lem (write_entry r j k v) a d (omega arith)
          (hop_bit-write_entry r j k v (a % 16) d ∙ ap (λ x. (r x).hop_bit d) m ∙ unmarked),
      placed-IsTable city r (placed r j a d k v) (j % 16) a d k v o t (omega arith) (omega arith)
          refl at key,
      placed-Holds city r (placed r j a d k v) (j % 16) a d k v o t (omega arith) (omega arith) refl
          at key,
    )

-- A new key in an empty slot near enough to its hashed index, with its mark.
pub place_slot :
    (city : ℕ → ℕ) (r : Records) (i k v : ℕ)
    → i < 16
    → IsTable city r 16
    → (r i).key ≡ 0
    → k ≢ 0
    → dist (hashed city k) i < 8
    → (r' : Records) × (set_hop_bit (write_entry r i k v) (hashed city k) (dist (hashed city k) i)
        ≡ some r')
      × IsPlaced r r' i (hashed city k) (dist (hashed city k) i) k v
      × IsTable city r' 16
place_slot city r i k v lt t null key near =
    let a = hashed city k in
    let d = dist a i in
    let ma : a % 16 ≡ a = omega arith in
    let mi : i % 16 ≡ i = omega arith in
    let at : (a + d) % 16 ≡ i = omega arith in
    let t' : IsTable city r i = record {
      placed = λ x lx n e. t.placed x lx (λ z. omega arith) e;
      marked = λ x y lx ly b.
          let (n, e, home) = t.marked x y lx ly b in
          ((λ z. e (ap (λ s. (r s).key) z ∙ null)), e, home);
    } in
    let o : IsPlaced r (placed r i a d k v) i a d k v =
      subst (λ x. IsPlaced r (placed r i a d k v) x a d k v) mi
        (subst (λ x. IsPlaced r (placed r i a d k v) (i % 16) x d k v) ma
          (placed-IsPlaced r i a d k v)) in
    let unmarked : (r a).hop_bit d ≡ false = elim (Bool-cases ((r a).hop_bit d)) [
      | inr c ↦ c
      | inl c ↦ absurd ((t'.marked a d (omega arith) near c).0 at)
    ] in
    (
      placed r i a d k v,
      set_hop_bit_lem (write_entry r i k v) a d near
          (hop_bit-write_entry r i k v (a % 16) d ∙ ap (λ x. (r x).hop_bit d) ma ∙ unmarked),
      o,
      placed-IsTable city r (placed r i a d k v) i a d k v o t' lt near refl at key,
    )
