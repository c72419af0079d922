-- ===== src/Hop/Find.antt =====
-- The loops of hopscotch_insert_and_unlock that look for an empty slot and for an entry that can hop,
-- and why the entry can hop.
use mathlib.Core.Option.{none-ne-some, some-injective}
use riiver_rolex.Base.{
  Bool, not, ◌&&◌, ℕ, zero, suc, ◌+◌, ◌-◌, ◌%◌, ◌≤◌, ◌<◌, ◌≡◌, refl, sym, ap, ◌∙◌, ◌≢◌, ◌⊎◌, inl,
  inr, true, false, Option, none, some, arith, ltb, leb, ◌==◌, if◌then◌else◌, Bool-cases, ==_iff,
  dec_lt, ℕ_discrete, ltb→lt, lt→ltb,
}
use riiver_rolex.Hop.{
  Records, hashed, find_empty, find_hop, hop, shifted_home, get_entry, set_entry, write_entry,
  with_bit,
}
use riiver_rolex.Hop.Slots.{
  dist, IsTable, moved, set_hop_bit_lem, unset_hop_bit_lem, hop_bit-write_entry, hop_bit-with_bit,
}
use riiver_rolex.Hop.Step.{CanMove}

-- The entries at the logical indices from `i` on, before `j`, have keys.
abbrev pub Full : Records → ℕ → ℕ → Type 0
Full r i j = (x : ℕ) → i ≤ x → x < j → (r (x % 16)).key ≢ 0

pub find_empty_lem :
    (city : ℕ → ℕ) (r : Records) (i n j : ℕ)
    → find_empty city r i n ≡ some j
    → (i ≤ j) × (j < i + n) × ((r (j % 16)).key ≡ 0) × Full r i j
unfolding find_empty
find_empty_lem city r i zero j e = absurd (none-ne-some j e)
find_empty_lem city r i (suc n) j e = elim (Bool-cases ((r (i % 16)).key == 0)) [
  | inl c ↦
      let is : i ≡ j = some-injective i j (rw c at e) in
      let z : (r (j % 16)).key ≡ 0 =
        ap (λ x. (r (x % 16)).key) (sym is) ∙ (==_iff (r (i % 16)).key 0).0 c in
      (omega arith, omega arith, z, (λ x a b. absurd (omega arith)))
  | inr c ↦
      let (a, b, z, full) = find_empty_lem city r (i + 1) n j (rw c at e) in
      (
        omega arith,
        omega arith,
        z,
        (λ x la lb. elim (ℕ_discrete x i) [
          | yes is ↦ (λ k.
              let k' : (r (i % 16)).key ≡ 0 = ap (λ y. (r (y % 16)).key) (sym is) ∙ k in
              ground arith)
          | no n ↦ full x (omega arith) lb
        ]),
      )
]

-- The three cases of the shifted index.
home_cases :
    (h x : ℕ)
    → (h < x) × ((if ltb h x then x else if leb 8 (h - x) then x + 32 else x + 16) ≡ x)
      ⊎ (x + 8 ≤ h) × ((if ltb h x then x else if leb 8 (h - x) then x + 32 else x + 16) ≡ x + 32)
      ⊎ (x ≤ h)
        × (h < x + 8)
        × ((if ltb h x then x else if leb 8 (h - x) then x + 32 else x + 16) ≡ x + 16)
home_cases h x = elim (dec_lt h x) [
  | yes l ↦ inl (l, rw (lt→ltb h x l) refl)
  | no g ↦
      let c : ltb h x ≡ false = ground arith in
      elim (dec_lt h (x + 8)) [
        | yes l ↦
            let e : leb 8 (h - x) ≡ false = ground arith in
            inr (inr (omega arith, l, rw (c, e) refl))
        | no m ↦
            let e : leb 8 (h - x) ≡ true = ground arith in inr (inl (omega arith, rw (c, e) refl))
      ]
]

-- Where the entry at `h` belongs, as `shifted` says.
record IsShifted (h j x shifted : ℕ) : Type 0 where
  before : shifted ≤ h + 16
  old : h + 16 - shifted ≡ dist x (h % 16)
  new : j + 16 - shifted < 8
  differ : h + 16 - shifted ≢ j + 16 - shifted
  same : shifted % 16 ≡ x
  old_slot : (x + (h + 16 - shifted)) % 16 ≡ h % 16
  new_slot : (x + (j + 16 - shifted)) % 16 ≡ j % 16
  apart : h % 16 ≢ j % 16

shifted_lem :
    (h j x shifted : ℕ)
    → x < 16
    → h < j
    → j < h + 8
    → 0 < h
    → j < 31
    → dist x (h % 16) < 8
    → (h < x) × (shifted ≡ x)
      ⊎ (x + 8 ≤ h) × (shifted ≡ x + 32)
      ⊎ (x ≤ h) × (h < x + 8) × (shifted ≡ x + 16)
    → j + 16 < shifted + 8
    → IsShifted h j x shifted
shifted_lem h j x shifted lx lt near low high d cases hops = record {
  before = ground arith;
  old = ground arith;
  new = ground arith;
  differ = (λ e. ground arith);
  same = ground arith;
  old_slot = ground arith;
  new_slot = ground arith;
  apart = (λ e. ground arith);
}

-- An entry that can hop to slot `j`, if the loop found one.
abbrev pub CanHop : (ℕ → ℕ) → Records → ℕ → Option ℕ → Type 0
CanHop city r j none = Unit
CanHop city r j (some h) = (h < j) × (j ≤ h + 7) × (j + 16 < shifted_home city r h + 8)

-- The assertion on the shifted index of the entry at `h`.
home_before :
    (city : ℕ → ℕ) (r : Records) (j h : ℕ)
    → IsTable city r (j % 16)
    → h < j
    → j < h + 8
    → (r (h % 16)).key ≢ 0
    → shifted_home city r h ≤ h + 16
home_before city r j h t lt near key =
    let x = hashed city (r (h % 16)).key in
    let p = t.placed (h % 16) (omega arith) (λ e. omega arith) key in
    let d : dist x (h % 16) < 8 = p.0 in
    let c = home_cases h x in let lx : x < 16 = omega arith in before c d lx
  where
    before :
        {x s : ℕ}
        → (h < x) × (s ≡ x) ⊎ (x + 8 ≤ h) × (s ≡ x + 32) ⊎ (x ≤ h) × (h < x + 8) × (s ≡ x + 16)
        → dist x (h % 16) < 8
        → x < 16
        → s ≤ h + 16
    before c d lx = ground arith

pub find_hop_lem :
    (city : ℕ → ℕ) (checked : Bool) (r : Records) (i j n : ℕ)
    → IsTable city r (j % 16)
    → Full r i j
    → n ≤ 7
    → i + n ≤ j
    → (found : Option ℕ) × (find_hop city checked r j n ≡ some found) × CanHop city r j found
unfolding find_hop
find_hop_lem city checked r i j zero t full le low = (none, refl, tt)
find_hop_lem city checked r i j (suc n) t full le low =
    let h = j - suc n in
    let home = shifted_home city r h in
    let before : home ≤ h + 16 =
      home_before city r j h t (omega arith) (omega arith) (full h (omega arith) (omega arith)) in
    let c : leb home (h + 16) ≡ true = ground arith in
    let passed : (checked && not (leb home (h + 16))) ≡ false = passes checked c in
    elim (Bool-cases (ltb (j + 16) (home + 8))) [
      | inl e ↦
          (some h, rw (passed, e) refl, (omega arith, omega arith, ltb→lt (j + 16) (home + 8) e))
      | inr e ↦
          let (found, is, good) =
            find_hop_lem city checked r i j n t full (omega arith) (omega arith) in
          (found, rw (passed, e) is, good)
    ]
  where
    passes : (b : Bool) {c : Bool} → c ≡ true → (b && not c) ≡ false
    passes true e = ap not e
    passes false e = refl

module _ (city : ℕ → ℕ) (r : Records) (j h : ℕ) (t : IsTable city r (j % 16)) (lt : h < j)
    (near : j < h + 8) (low : 0 < h) (high : j < 31) (key : (r (h % 16)).key ≢ 0)
    (hops : j + 16 < shifted_home city r h + 8) where
  pub hop_lem :
      (home : ℕ) × (d : ℕ) × (d' : ℕ) × (hop city r h j ≡ some (moved r h j home d d'))
      × CanMove city r (h % 16) (j % 16) (home % 16) d d'
  unfolding hop
  hop_lem =
      let e = get_entry r h in
      let x = hashed city e.key in
      let home = shifted_home city r h in
      let d = h + 16 - home in
      let d' = j + 16 - home in
      let r1 = write_entry r j e.key e.value in
      let r2 = set_entry r1 home (with_bit (get_entry r1 home) d false) in
      let apart : h % 16 ≢ j % 16 = (λ e. omega arith) in
      let (near_home, bit) = t.placed (h % 16) (omega arith) apart key in
      let n : IsShifted h j x home =
        shifted_lem h j x home (omega arith) lt near low high near_home (home_cases h x) hops in
      let before = n.before in
      let old : d ≡ dist x (h % 16) = n.old in
      let same : home % 16 ≡ x = n.same in
      let marked : (r x).hop_bit d ≡ true = ap (λ i. (r x).hop_bit i) old ∙ bit in
      let unmarked : (r x).hop_bit d' ≡ false = elim (Bool-cases ((r x).hop_bit d')) [
        | inr c ↦ c
        | inl c ↦ absurd ((t.marked x d' (omega arith) n.new c).0 n.new_slot)
      ] in
      let in_r1 : (r1 (home % 16)).hop_bit d ≡ true =
        hop_bit-write_entry r j e.key e.value (home % 16) d
        ∙ ap (λ a. (r a).hop_bit d) same
        ∙ marked in
      let c : (d' == d) ≡ false = let f = n.differ in ground arith in
      let in_r2 : (r2 (home % 16)).hop_bit d' ≡ false =
        hop_bit-with_bit r1 home d false (home % 16) d'
        ∙ rw ((==_iff (home % 16) (home % 16)).1 refl, c)
            (hop_bit-write_entry r j e.key e.value (home % 16) d'
              ∙ ap (λ a. (r a).hop_bit d') same
              ∙ unmarked) in
      let b : leb home (h + 16) ≡ true = ground arith in
      (
        home,
        d,
        d',
        rw
            (
              b,
              unset_hop_bit_lem r1 home d (omega arith) in_r1,
              set_hop_bit_lem r2 home d' n.new in_r2,
            )
            refl,
        record {
          free = omega arith;
          from = omega arith;
          home = omega arith;
          apart = apart;
          hashed_key = sym same;
          key = key;
          old = omega arith;
          new = n.new;
          old_slot = ap (λ a. (a + d) % 16) same ∙ n.old_slot;
          new_slot = ap (λ a. (a + d') % 16) same ∙ n.new_slot;
        },
      )
