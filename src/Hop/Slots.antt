-- ===== src/Hop/Slots.antt =====
-- What a hopscotch table keeps: every key is marked at its hashed entry and lies fewer than 8 slots
-- behind it.
use riiver_rolex.Base.{
  ℕ, ◌+◌, ◌-◌, ◌%◌, ◌<◌, ◌≡◌, refl, sym, ap, ◌∙◌, ◌≢◌, inl, inr, Bool, true, false, ◌&&◌, some,
  arith, ◌==◌, if◌then◌else◌, Bool-cases, ==_iff, ℕ_discrete, lt→ltb,
}
use riiver_rolex.Hop.{
  HopEntry, Records, null_records, hashed, set_hop_bit, unset_hop_bit, get_entry, set_entry,
  write_entry, with_bit,
}

-- How far slot `i` is behind slot `a`, around the end of the array.
abbrev pub dist : ℕ → ℕ → ℕ
dist a i = (i + 16 - a) % 16

module _ (city : ℕ → ℕ) where
  -- The table is right but for the slot `free`, which counts as empty; 16 is no slot.
  pub record IsTable (r : Records) (free : ℕ) : Type 0 where
    pub placed :
        (i : ℕ)
        → i < 16
        → i ≢ free
        → (r i).key ≢ 0
        → (dist (hashed city (r i).key) i < 8)
          × ((r (hashed city (r i).key)).hop_bit (dist (hashed city (r i).key) i) ≡ true)
    pub marked :
        (a d : ℕ)
        → a < 16
        → d < 8
        → (r a).hop_bit d ≡ true
        → ((a + d) % 16 ≢ free)
          × ((r ((a + d) % 16)).key ≢ 0)
          × (hashed city (r ((a + d) % 16)).key ≡ a)

-- The table holds the value under the key, not in slot `free`.
abbrev pub Holds : Records → ℕ → ℕ → ℕ → Type 0
Holds r free q v = (i : ℕ) × (i < 16) × (i ≢ free) × ((r i).key ≡ q) × ((r i).value ≡ v)

pub set_hop_bit_lem :
    (r : Records) (idx d : ℕ)
    → d < 8
    → (r (idx % 16)).hop_bit d ≡ false
    → set_hop_bit r idx d ≡ some (set_entry r idx (with_bit (get_entry r idx) d true))
unfolding set_hop_bit
set_hop_bit_lem r idx d lt e = rw (lt→ltb d 8 lt, e) refl

pub unset_hop_bit_lem :
    (r : Records) (idx d : ℕ)
    → d < 8
    → (r (idx % 16)).hop_bit d ≡ true
    → unset_hop_bit r idx d ≡ some (set_entry r idx (with_bit (get_entry r idx) d false))
unfolding unset_hop_bit
unset_hop_bit_lem r idx d lt e = rw (lt→ltb d 8 lt, e) refl

-- One field of one entry after a write.
pub key-set_entry :
    (r : Records) (idx : ℕ) (e : HopEntry) (x : ℕ)
    → (set_entry r idx e x).key ≡ (if x == idx % 16 then e.key else (r x).key)
key-set_entry r idx e x = elim (Bool-cases (x == idx % 16)) [
  | inl c ↦ rw c refl
  | inr c ↦ rw c refl
]

pub value-set_entry :
    (r : Records) (idx : ℕ) (e : HopEntry) (x : ℕ)
    → (set_entry r idx e x).value ≡ (if x == idx % 16 then e.value else (r x).value)
value-set_entry r idx e x = elim (Bool-cases (x == idx % 16)) [
  | inl c ↦ rw c refl
  | inr c ↦ rw c refl
]

hop_bit-set_entry :
    (r : Records) (idx : ℕ) (e : HopEntry) (x i : ℕ)
    → (set_entry r idx e x).hop_bit i ≡ (if x == idx % 16 then e.hop_bit i else (r x).hop_bit i)
hop_bit-set_entry r idx e x i = elim (Bool-cases (x == idx % 16)) [
  | inl c ↦ rw c refl
  | inr c ↦ rw c refl
]

-- `with_bit` changes one bit.
pub key-with_bit :
    (r : Records) (a d : ℕ) (b : Bool) (x : ℕ)
    → (set_entry r a (with_bit (get_entry r a) d b) x).key ≡ (r x).key
key-with_bit r a d b x =
    key-set_entry r a (with_bit (get_entry r a) d b) x ∙ go (ℕ_discrete x (a % 16))
  where
    go : Dec (x ≡ a % 16) → (if x == a % 16 then (r (a % 16)).key else (r x).key) ≡ (r x).key
    go (yes e) = rw ((==_iff x (a % 16)).1 e) (ap (λ t. (r t).key) (sym e))
    go (no n) = let c : (x == a % 16) ≡ false = ground arith in rw c refl

pub value-with_bit :
    (r : Records) (a d : ℕ) (b : Bool) (x : ℕ)
    → (set_entry r a (with_bit (get_entry r a) d b) x).value ≡ (r x).value
value-with_bit r a d b x =
    value-set_entry r a (with_bit (get_entry r a) d b) x ∙ go (ℕ_discrete x (a % 16))
  where
    go : Dec (x ≡ a % 16) → (if x == a % 16 then (r (a % 16)).value else (r x).value) ≡ (r x).value
    go (yes e) = rw ((==_iff x (a % 16)).1 e) (ap (λ t. (r t).value) (sym e))
    go (no n) = let c : (x == a % 16) ≡ false = ground arith in rw c refl

pub hop_bit-with_bit :
    (r : Records) (a d : ℕ) (b : Bool) (x i : ℕ)
    → (set_entry r a (with_bit (get_entry r a) d b) x).hop_bit i
      ≡ (if (x == a % 16) && (i == d) then b else (r x).hop_bit i)
hop_bit-with_bit r a d b x i =
    hop_bit-set_entry r a (with_bit (get_entry r a) d b) x i ∙ go (ℕ_discrete x (a % 16))
  where
    go :
        Dec (x ≡ a % 16)
        → (if x == a % 16 then (if i == d then b else (r (a % 16)).hop_bit i) else (r x).hop_bit i)
          ≡ (if (x == a % 16) && (i == d) then b else (r x).hop_bit i)
    go (yes e) =
        rw ((==_iff x (a % 16)).1 e) (ap (λ t. if i == d then b else (r t).hop_bit i) (sym e))
    go (no n) = let c : (x == a % 16) ≡ false = ground arith in rw c refl

pub hop_bit-write_entry :
    (r : Records) (f k v x i : ℕ) → (write_entry r f k v x).hop_bit i ≡ (r x).hop_bit i
hop_bit-write_entry r f k v x i =
    hop_bit-set_entry r f (record (get_entry r f) { key = k; value = v }) x i
    ∙ go (ℕ_discrete x (f % 16))
  where
    go :
        Dec (x ≡ f % 16)
        → (if x == f % 16 then (r (f % 16)).hop_bit i else (r x).hop_bit i) ≡ (r x).hop_bit i
    go (yes e) = rw ((==_iff x (f % 16)).1 e) (ap (λ t. (r t).hop_bit i) (sym e))
    go (no n) = let c : (x == f % 16) ≡ false = ground arith in rw c refl

-- The records after the entry at `g`, which is marked at `a` with offset `d`, moved to `f` at offset
-- `d'`.
abbrev pub moved : Records → ℕ → ℕ → ℕ → ℕ → ℕ → Records
moved r g f a d d' =
    let r1 = write_entry r f (get_entry r g).key (get_entry r g).value in
    let r2 = set_entry r1 a (with_bit (get_entry r1 a) d false) in
    set_entry r2 a (with_bit (get_entry r2 a) d' true)

module _ (r : Records) (g f a d d' : ℕ) where
  pub key-moved :
      (x : ℕ) → (moved r g f a d d' x).key ≡ (if x == f % 16 then (r (g % 16)).key else (r x).key)
  key-moved x =
      let e = get_entry r g in
      let r1 = write_entry r f e.key e.value in
      let r2 = set_entry r1 a (with_bit (get_entry r1 a) d false) in
      key-with_bit r2 a d' true x
      ∙ key-with_bit r1 a d false x
      ∙ key-set_entry r f (record (get_entry r f) { key = e.key; value = e.value }) x

  pub value-moved :
      (x : ℕ)
      → (moved r g f a d d' x).value ≡ (if x == f % 16 then (r (g % 16)).value else (r x).value)
  value-moved x =
      let e = get_entry r g in
      let r1 = write_entry r f e.key e.value in
      let r2 = set_entry r1 a (with_bit (get_entry r1 a) d false) in
      value-with_bit r2 a d' true x
      ∙ value-with_bit r1 a d false x
      ∙ value-set_entry r f (record (get_entry r f) { key = e.key; value = e.value }) x

  pub hop_bit-moved :
      (x i : ℕ)
      → (moved r g f a d d' x).hop_bit i ≡ (
          if (x == a % 16) && (i == d')
          then true
          else (if (x == a % 16) && (i == d) then false else (r x).hop_bit i))
  hop_bit-moved x i =
      let e = get_entry r g in
      let r1 = write_entry r f e.key e.value in
      let r2 = set_entry r1 a (with_bit (get_entry r1 a) d false) in
      hop_bit-with_bit r2 a d' true x i
      ∙ ap (λ t. if (x == a % 16) && (i == d') then true else t)
          (hop_bit-with_bit r1 a d false x i
            ∙ ap (λ t. if (x == a % 16) && (i == d) then false else t)
                (hop_bit-write_entry r f e.key e.value x i))

-- A new leaf.
pub null_records-IsTable : (city : ℕ → ℕ) → IsTable city null_records 16
null_records-IsTable city = record {
  placed = λ i lt n k. absurd (k refl);
  marked = λ a d la ld b. absurd (ground arith);
}
