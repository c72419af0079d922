-- ===== src/Hop/Remove.antt =====
-- An entry that leaves a hopscotch table, with its mark.
use mathlib.Core.Path.{subst}
use riiver_rolex.Base.{
  ℕ, ◌+◌, ◌%◌, ◌<◌, ◌≡◌, refl, sym, ap, ◌∙◌, ◌≢◌, ◌⊎◌, inl, inr, true, false, ◌&&◌, some, arith,
  ◌==◌, if◌then◌else◌, ==_iff, ℕ_discrete,
}
use riiver_rolex.Hop.{Records, hashed, unset_hop_bit, get_entry, set_entry, write_entry, with_bit}
use riiver_rolex.Hop.Slots.{
  dist, IsTable, unset_hop_bit_lem, hop_bit-write_entry, hop_bit-with_bit, key-with_bit,
  value-with_bit, key-set_entry, value-set_entry,
}

-- What the removal from slot `i`, which is marked at `a` with offset `d`, changes.
pub record IsRemoved (r r' : Records) (i a d : ℕ) : Type 0 where
  pub key_i : (r' i).key ≡ 0
  pub key_other : (x : ℕ) → x ≢ i → (r' x).key ≡ (r x).key
  pub value_other : (x : ℕ) → x ≢ i → (r' x).value ≡ (r x).value
  pub bit_old : (r' a).hop_bit d ≡ false
  pub bit_keep : (x y : ℕ) → x ≢ a ⊎ y ≢ d → (r' x).hop_bit y ≡ (r x).hop_bit y

module _ (r : Records) (i a d : ℕ) where
  abbrev removed : Records
  removed = let r1 = write_entry r i 0 0 in set_entry r1 a (with_bit (get_entry r1 a) d false)

  key_at : (x : ℕ) → (removed x).key ≡ (if x == i % 16 then 0 else (r x).key)
  key_at x =
      key-with_bit (write_entry r i 0 0) a d false x
      ∙ key-set_entry r i (record (get_entry r i) { key = 0; value = 0 }) x

  value_at : (x : ℕ) → (removed x).value ≡ (if x == i % 16 then 0 else (r x).value)
  value_at x =
      value-with_bit (write_entry r i 0 0) a d false x
      ∙ value-set_entry r i (record (get_entry r i) { key = 0; value = 0 }) x

  bit_at :
      (x y : ℕ)
      → (removed x).hop_bit y ≡ (if (x == a % 16) && (y == d) then false else (r x).hop_bit y)
  bit_at x y =
      hop_bit-with_bit (write_entry r i 0 0) a d false x y
      ∙ ap (λ t. if (x == a % 16) && (y == d) then false else t) (hop_bit-write_entry r i 0 0 x y)

  removed-IsRemoved : IsRemoved r removed (i % 16) (a % 16) d
  removed-IsRemoved = record {
    key_i = key_at (i % 16) ∙ rw ((==_iff (i % 16) (i % 16)).1 refl) refl;
    key_other = λ x n. let c : (x == i % 16) ≡ false = ground arith in key_at x ∙ rw c refl;
    value_other = λ x n. let c : (x == i % 16) ≡ false = ground arith in value_at x ∙ rw c refl;
    bit_old = bit_at (a % 16) d ∙ rw ((==_iff (a % 16) (a % 16)).1 refl, (==_iff d d).1 refl) refl;
    bit_keep = λ x y h.
        let c : ((x == a % 16) && (y == d)) ≡ false = unchanged x y h in bit_at x y ∙ rw c refl;
  }
    where
      unchanged : (x y : ℕ) → x ≢ a % 16 ⊎ y ≢ d → ((x == a % 16) && (y == d)) ≡ false
      unchanged x y h = ground arith

module _ (city : ℕ → ℕ) (r r' : Records) (i : ℕ) (lt : i < 16) (t : IsTable city r 16)
    (key : (r i).key ≢ 0)
    (o : IsRemoved r r' i (hashed city (r i).key) (dist (hashed city (r i).key) i)) where
  placed_kept :
      (x : ℕ)
      → x < 16
      → (r' x).key ≢ 0
      → (dist (hashed city (r' x).key) x < 8)
        × ((r' (hashed city (r' x).key)).hop_bit (dist (hashed city (r' x).key) x) ≡ true)
  placed_kept x lx n =
      let nx : x ≢ i = (λ e. n (ap (λ s. (r' s).key) e ∙ o.key_i)) in
      let same : (r' x).key ≡ (r x).key = o.key_other x nx in
      let old = t.placed x lx (λ z. omega arith) (λ z. n (same ∙ z)) in
      let a = hashed city (r x).key in
      let la : a < 16 = omega arith in
      let b = hashed city (r i).key in
      let keep : (r' a).hop_bit (dist a x) ≡ (r a).hop_bit (dist a x) =
        o.bit_keep a (dist a x)
          (elim (ℕ_discrete a b) [ no z ↦ inl z | yes z ↦ inr (λ y. nx (omega arith)) ]) in
      subst
        (λ q.
          (dist (hashed city q) x < 8)
          × ((r' (hashed city q)).hop_bit (dist (hashed city q) x) ≡ true))
        (sym same) (old.0, keep ∙ old.1)

  still_marked :
      (x y : ℕ)
      → x < 16
      → y < 8
      → x ≢ hashed city (r i).key ⊎ y ≢ dist (hashed city (r i).key) i
      → (r' x).hop_bit y ≡ true
      → ((x + y) % 16 ≢ 16)
        × ((r' ((x + y) % 16)).key ≢ 0)
        × (hashed city (r' ((x + y) % 16)).key ≡ x)
  still_marked x y lx ly h b =
      let (nf, k, home) = t.marked x y lx ly (sym (o.bit_keep x y h) ∙ b) in
      let ni : (x + y) % 16 ≢ i = (λ e.
        let is : hashed city (r i).key ≡ x = ap (λ s. hashed city (r s).key) (sym e) ∙ home in
        let at : dist (hashed city (r i).key) i ≡ y = omega arith in
        elim h [ inl n ↦ n (sym is) | inr n ↦ n (sym at) ]) in
      let same : (r' ((x + y) % 16)).key ≡ (r ((x + y) % 16)).key = o.key_other ((x + y) % 16) ni in
      (nf, (λ z. k (sym same ∙ z)), ap (hashed city) same ∙ home)

  marked_kept :
      (x y : ℕ)
      → x < 16
      → y < 8
      → (r' x).hop_bit y ≡ true
      → Dec (x ≡ hashed city (r i).key)
      → Dec (y ≡ dist (hashed city (r i).key) i)
      → ((x + y) % 16 ≢ 16)
        × ((r' ((x + y) % 16)).key ≢ 0)
        × (hashed city (r' ((x + y) % 16)).key ≡ x)
  marked_kept x y lx ly b (yes e) (yes f) =
      let off : (r' x).hop_bit y ≡ false =
        ap (λ x. (r' x).hop_bit y) e
        ∙ ap (λ y. (r' (hashed city (r i).key)).hop_bit y) f
        ∙ o.bit_old in
      absurd (ground arith)
  marked_kept x y lx ly b (no n) f = still_marked x y lx ly (inl n) b
  marked_kept x y lx ly b (yes e) (no n) = still_marked x y lx ly (inr n) b

  removed-IsTable : IsTable city r' 16
  removed-IsTable = record {
    placed = λ x lx n k. placed_kept x lx k;
    marked = λ x y lx ly b.
        marked_kept x y lx ly b (ℕ_discrete x (hashed city (r i).key))
          (ℕ_discrete y (dist (hashed city (r i).key) i));
  }

-- An entry of a right table leaves it, its mark with it, and the table stays right.
pub remove_lem :
    (city : ℕ → ℕ) (r : Records) (i : ℕ)
    → i < 16
    → IsTable city r 16
    → (r i).key ≢ 0
    → (r' : Records) × (unset_hop_bit
          (write_entry r i 0 0)
          (hashed city (r i).key)
          (dist (hashed city (r i).key) i)
        ≡ some r')
      × IsRemoved r r' i (hashed city (r i).key) (dist (hashed city (r i).key) i)
      × IsTable city r' 16
remove_lem city r i lt t key =
    let a = hashed city (r i).key in
    let d = dist a i in
    let ma : a % 16 ≡ a = omega arith in
    let mi : i % 16 ≡ i = omega arith in
    let (near, bit) = t.placed i lt (λ z. omega arith) key in
    let o : IsRemoved r (removed r i a d) i a d =
      subst (λ x. IsRemoved r (removed r i a d) x a d) mi
        (subst (λ x. IsRemoved r (removed r i a d) (i % 16) x d) ma (removed-IsRemoved r i a d)) in
    (
      removed r i a d,
      unset_hop_bit_lem (write_entry r i 0 0) a d near
          (hop_bit-write_entry r i 0 0 (a % 16) d ∙ ap (λ x. (r x).hop_bit d) ma ∙ bit),
      o,
      removed-IsTable city r (removed r i a d) i lt t key o,
    )
