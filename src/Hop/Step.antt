-- ===== src/Hop/Step.antt =====
-- One hop keeps the table right: the slot that was free takes the entry, and the entry's slot is free.
use mathlib.Core.Path.{subst}
use riiver_rolex.Base.{
  ℕ, ◌+◌, ◌%◌, ◌<◌, ◌≡◌, refl, sym, ap, ◌∙◌, ◌≢◌, ◌⊎◌, inl, inr, Bool, true, false, ◌&&◌, arith,
  ◌==◌, if◌then◌else◌, ==_iff, ℕ_discrete,
}
use riiver_rolex.Hop.{Records, hashed}
use riiver_rolex.Hop.Slots.{dist, IsTable, Holds, moved, key-moved, value-moved, hop_bit-moved}

-- The entry in slot `g` belongs to slot `a`, `d` before it, and slot `f` is `d'` behind `a`.
pub record CanMove (city : ℕ → ℕ) (r : Records) (g f a d d' : ℕ) : Type 0 where
  pub free : f < 16
  pub from : g < 16
  pub home : a < 16
  pub apart : g ≢ f
  pub hashed_key : hashed city (r g).key ≡ a
  pub key : (r g).key ≢ 0
  pub old : d < 8
  pub new : d' < 8
  pub old_slot : (a + d) % 16 ≡ g
  pub new_slot : (a + d') % 16 ≡ f

-- What the move changes.
pub record IsMoved (r r' : Records) (g f a d d' : ℕ) : Type 0 where
  pub key_f : (r' f).key ≡ (r g).key
  pub value_f : (r' f).value ≡ (r g).value
  pub key_other : (x : ℕ) → x ≢ f → (r' x).key ≡ (r x).key
  pub value_other : (x : ℕ) → x ≢ f → (r' x).value ≡ (r x).value
  pub bit_new : (r' a).hop_bit d' ≡ true
  pub bit_old : d ≢ d' → (r' a).hop_bit d ≡ false
  pub bit_keep : (x i : ℕ) → x ≢ a ⊎ (i ≢ d') × (i ≢ d) → (r' x).hop_bit i ≡ (r x).hop_bit i

module _ (r : Records) (g f a d d' : ℕ) where
  key_f : (moved r g f a d d' (f % 16)).key ≡ (r (g % 16)).key
  key_f = key-moved r g f a d d' (f % 16) ∙ rw ((==_iff (f % 16) (f % 16)).1 refl) refl

  key_other : (x : ℕ) → x ≢ f % 16 → (moved r g f a d d' x).key ≡ (r x).key
  key_other x n =
      let c : (x == f % 16) ≡ false = ground arith in key-moved r g f a d d' x ∙ rw c refl

  value_f : (moved r g f a d d' (f % 16)).value ≡ (r (g % 16)).value
  value_f = value-moved r g f a d d' (f % 16) ∙ rw ((==_iff (f % 16) (f % 16)).1 refl) refl

  value_other : (x : ℕ) → x ≢ f % 16 → (moved r g f a d d' x).value ≡ (r x).value
  value_other x n =
      let c : (x == f % 16) ≡ false = ground arith in value-moved r g f a d d' x ∙ rw c refl

  bit_new : (moved r g f a d d' (a % 16)).hop_bit d' ≡ true
  bit_new =
      hop_bit-moved r g f a d d' (a % 16) d'
      ∙ rw ((==_iff (a % 16) (a % 16)).1 refl, (==_iff d' d').1 refl) refl

  bit_keep :
      (x i : ℕ)
      → x ≢ a % 16 ⊎ (i ≢ d') × (i ≢ d)
      → (moved r g f a d d' x).hop_bit i ≡ (r x).hop_bit i
  bit_keep x i (inl h) =
      let c : (x == a % 16) ≡ false = ground arith in hop_bit-moved r g f a d d' x i ∙ rw c refl
  bit_keep x i (inr h) =
      let c : (i == d') ≡ false = let n = h.0 in ground arith in
      let e : (i == d) ≡ false = let n = h.1 in ground arith in
      hop_bit-moved r g f a d d' x i ∙ rw (c, e) (go (x == a % 16))
    where
      go :
          (b : Bool)
          → (if b && false then true else (if b && false then false else (r x).hop_bit i))
            ≡ (r x).hop_bit i
      go true = refl
      go false = refl

  bit_old : d ≢ d' → (moved r g f a d d' (a % 16)).hop_bit d ≡ false
  bit_old h =
      let c : (d == d') ≡ false = ground arith in
      hop_bit-moved r g f a d d' (a % 16) d
      ∙ rw ((==_iff (a % 16) (a % 16)).1 refl, (==_iff d d).1 refl, c) refl

  pub moved-IsMoved : IsMoved r (moved r g f a d d') (g % 16) (f % 16) (a % 16) d d'
  moved-IsMoved = record {
    key_f = key_f;
    value_f = value_f;
    key_other = key_other;
    value_other = value_other;
    bit_new = bit_new;
    bit_old = bit_old;
    bit_keep = bit_keep;
  }

module _ (city : ℕ → ℕ) (r r' : Records) (g f a d d' : ℕ) (m : CanMove city r g f a d d')
    (o : IsMoved r r' g f a d d') (t : IsTable city r f) where
  -- `a` and `d` are found from the slot.
  dist_f : dist a f ≡ d'
  dist_f = let e = m.new_slot in let h = m.new in let l = m.home in omega arith

  dist_g : dist a g ≡ d
  dist_g = let e = m.old_slot in let h = m.old in let l = m.home in omega arith

  placed_f :
      (dist (hashed city (r' f).key) f < 8)
      × ((r' (hashed city (r' f).key)).hop_bit (dist (hashed city (r' f).key) f) ≡ true)
  placed_f =
      let e : hashed city (r' f).key ≡ a = ap (hashed city) o.key_f ∙ m.hashed_key in
      let at : dist (hashed city (r' f).key) f ≡ d' = ap (λ x. dist x f) e ∙ dist_f in
      let n = m.new in
      (
        omega arith,
        ap (λ x. (r' x).hop_bit (dist x f)) e ∙ ap (λ i. (r' a).hop_bit i) dist_f ∙ o.bit_new,
      )

  placed_other :
      (i : ℕ)
      → i < 16
      → i ≢ g
      → i ≢ f
      → (r' i).key ≢ 0
      → (dist (hashed city (r' i).key) i < 8)
        × ((r' (hashed city (r' i).key)).hop_bit (dist (hashed city (r' i).key) i) ≡ true)
  placed_other i lt n nf k =
      let same : (r' i).key ≡ (r i).key = o.key_other i nf in
      let old = t.placed i lt nf (λ z. k (same ∙ z)) in
      let x = hashed city (r i).key in
      let lx : x < 16 = omega arith in
      let near : dist x i < 8 = old.0 in
      let keep : (r' x).hop_bit (dist x i) ≡ (r x).hop_bit (dist x i) =
        o.bit_keep x (dist x i) (elim (ℕ_discrete x a) [
          | no e ↦ inl e
          | yes e ↦
              let sf = m.new_slot in
              let sg = m.old_slot in inr ((λ z. nf (omega arith)), (λ z. n (omega arith)))
        ]) in
      subst
        (λ q.
          (dist (hashed city q) i < 8)
          × ((r' (hashed city q)).hop_bit (dist (hashed city q) i) ≡ true))
        (sym same) (near, keep ∙ old.1)

  marked_kept :
      (x i : ℕ)
      → x < 16
      → i < 8
      → (r x).hop_bit i ≡ true
      → x ≢ a ⊎ (i ≢ d)
      → ((x + i) % 16 ≢ g)
        × ((r' ((x + i) % 16)).key ≢ 0)
        × (hashed city (r' ((x + i) % 16)).key ≡ x)
  marked_kept x i lx li b h =
      let (nf, k, home) = t.marked x i lx li b in
      let same : (r' ((x + i) % 16)).key ≡ (r ((x + i) % 16)).key = o.key_other ((x + i) % 16) nf in
      let sg = m.old_slot in
      let ld = m.old in
      (
        (λ e.
            let is : x ≡ a = sym home ∙ ap (λ s. hashed city (r s).key) e ∙ m.hashed_key in
            ground arith),
        (λ z. k (sym same ∙ z)),
        ap (hashed city) same ∙ home,
      )

  -- The mark that the move made.
  marked_f :
      ((a + d') % 16 ≢ g)
      × ((r' ((a + d') % 16)).key ≢ 0)
      × (hashed city (r' ((a + d') % 16)).key ≡ a)
  marked_f =
      let sf = m.new_slot in
      let n = m.apart in
      let k : (r' ((a + d') % 16)).key ≡ (r g).key = ap (λ s. (r' s).key) sf ∙ o.key_f in
      ((λ e. n (sym e ∙ sf)), (λ z. m.key (sym k ∙ z)), ap (hashed city) k ∙ m.hashed_key)

  moved_marked :
      (x i : ℕ)
      → x < 16
      → i < 8
      → (r' x).hop_bit i ≡ true
      → Dec (x ≡ a)
      → Dec (i ≡ d')
      → Dec (i ≡ d)
      → ((x + i) % 16 ≢ g)
        × ((r' ((x + i) % 16)).key ≢ 0)
        × (hashed city (r' ((x + i) % 16)).key ≡ x)
  moved_marked x i lx li b (no nx) di dj =
      marked_kept x i lx li (sym (o.bit_keep x i (inl nx)) ∙ b) (inl nx)
  moved_marked x i lx li b (yes ex) (yes ei) dj =
      subst
        (λ x.
          ((x + i) % 16 ≢ g)
          × ((r' ((x + i) % 16)).key ≢ 0)
          × (hashed city (r' ((x + i) % 16)).key ≡ x))
        (sym ex)
        (subst
          (λ i.
            ((a + i) % 16 ≢ g)
            × ((r' ((a + i) % 16)).key ≢ 0)
            × (hashed city (r' ((a + i) % 16)).key ≡ a))
          (sym ei) marked_f)
  moved_marked x i lx li b (yes ex) (no ni) (no nj) =
      marked_kept x i lx li (sym (o.bit_keep x i (inr (ni, nj))) ∙ b) (inr nj)
  moved_marked x i lx li b (yes ex) (no ni) (yes ej) =
      let off : (r' a).hop_bit d ≡ false = o.bit_old (λ e. ni (ej ∙ e)) in
      let set_bit : (r' a).hop_bit d ≡ true =
        ap (λ x. (r' x).hop_bit d) (sym ex) ∙ ap (λ i. (r' x).hop_bit i) (sym ej) ∙ b in
      absurd (ground arith)

  pub moved-IsTable : IsTable city r' g
  moved-IsTable = record {
    placed = λ i lt n k. elim (ℕ_discrete i f) [
      | yes e ↦
          subst
            (λ i.
              (dist (hashed city (r' i).key) i < 8)
              × ((r' (hashed city (r' i).key)).hop_bit (dist (hashed city (r' i).key) i) ≡ true))
            (sym e) placed_f
      | no e ↦ placed_other i lt n e k
    ];
    marked =
        λ x i lx li b. moved_marked x i lx li b (ℕ_discrete x a) (ℕ_discrete i d') (ℕ_discrete i d);
  }

  -- Nothing is lost and nothing is new.
  pub moved-Holds : (q v : ℕ) → Holds r f q v → Holds r' g q v
  moved-Holds q v (i, lt, nf, k, w) = elim (ℕ_discrete i g) [
    | yes e ↦ (
      f,
      m.free,
      (λ z. m.apart (sym z)),
      o.key_f ∙ ap (λ i. (r i).key) (sym e) ∙ k,
      o.value_f ∙ ap (λ i. (r i).value) (sym e) ∙ w,
    )
    | no n ↦ (i, lt, n, o.key_other i nf ∙ k, o.value_other i nf ∙ w)
  ]

  pub Holds-moved : (q v : ℕ) → Holds r' g q v → Holds r f q v
  Holds-moved q v (i, lt, ng, k, w) = elim (ℕ_discrete i f) [
    | yes e ↦ (
      g,
      m.from,
      m.apart,
      sym o.key_f ∙ ap (λ i. (r' i).key) (sym e) ∙ k,
      sym o.value_f ∙ ap (λ i. (r' i).value) (sym e) ∙ w,
    )
    | no n ↦ (i, lt, n, sym (o.key_other i n) ∙ k, sym (o.value_other i n) ∙ w)
  ]
