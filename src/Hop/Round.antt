-- ===== src/Hop/Round.antt =====
-- The loop of hopscotch_split_and_unlock of src/Rolex.cpp, round by round.
use mathlib.Core.Path.{subst}
use riiver_rolex.Base.{
  ℕ, zero, suc, ◌+◌, ◌-◌, ◌%◌, ◌≤◌, ◌<◌, ◌≡◌, refl, sym, ap, ◌∙◌, ◌≢◌, ◌⊎◌, inl, inr, true, false,
  not, ◌&&◌, some, arith, leb, ◌==◌, if◌then◌else◌, dec_lt, ℕ_discrete,
}
use riiver_rolex.Hop.{Records, hashed, set_hop_bit, unset_hop_bit, write_entry}
use riiver_rolex.Hop.Slots.{dist, IsTable}
use riiver_rolex.Hop.Place.{IsPlaced, place_slot}
use riiver_rolex.Hop.Remove.{IsRemoved, remove_lem}
use riiver_rolex.Hop.Split.{move_entry, move_data}

-- Slot `x` has moved, or it has stayed, from the records `r0`.
pub record Went (r0 r s : Records) (split x : ℕ) : Type 0 where
  pub key : (r0 x).key ≢ 0
  pub upper : split ≤ (r0 x).key
  pub here : (r x).key ≡ 0
  pub there : (s x).key ≡ (r0 x).key
  pub value : (s x).value ≡ (r0 x).value

pub record Stayed (r0 r s : Records) (x : ℕ) : Type 0 where
  pub here : (r x).key ≡ (r0 x).key
  pub value : (r x).value ≡ (r0 x).value
  pub there : (s x).key ≡ 0

-- The state of the loop before entry `i`.
pub record IsMoving (city : ℕ → ℕ) (split : ℕ) (r0 : Records) (i : ℕ) (r s : Records) : Type 0 where
  pub leaf : IsTable city r 16
  pub synonym : IsTable city s 16
  pub slots :
      (x : ℕ)
      → x < 16
      → (x < i) × Went r0 r s split x
        ⊎ (i ≤ x ⊎ (r0 x).key ≡ 0 ⊎ (r0 x).key < split) × Stayed r0 r s x

module _ (city : ℕ → ℕ) (split : ℕ) (r0 : Records) where
  -- The round that moves an entry.
  moves :
      (i : ℕ) (r s r' s' : Records)
      → i < 16
      → (r i).key ≢ 0
      → split ≤ (r i).key
      → set_hop_bit
          (write_entry s i (r i).key (r i).value)
          (hashed city (r i).key)
          (dist (hashed city (r i).key) i)
        ≡ some s'
      → unset_hop_bit (write_entry r i 0 0) (hashed city (r i).key) (dist (hashed city (r i).key) i)
        ≡ some r'
      → move_entry city split i r s ≡ some (r', s')
  unfolding move_entry
  moves i r s r' s' lt n le es er =
      let mi : i ≡ i % 16 = omega arith in
      let key : (r i).key ≡ (r (i % 16)).key = ap (λ y. (r y).key) mi in
      let x = hashed city (r (i % 16)).key in
      let lx : x < 16 = omega arith in
      let c : (not ((r (i % 16)).key == 0) && leb split (r (i % 16)).key) ≡ true = ground arith in
      let off : (if leb x i then i - x else i + 16 - x) ≡ dist x i = ground arith in
      let es' : set_hop_bit (write_entry s i (r (i % 16)).key (r (i % 16)).value) x (dist x i)
          ≡ some s' =
        subst
          (λ y.
            set_hop_bit (write_entry s i (r y).key (r y).value) (hashed city (r y).key)
              (dist (hashed city (r y).key) i)
            ≡ some s')
          mi es in
      let er' : unset_hop_bit (write_entry r i 0 0) x (dist x i) ≡ some r' =
        subst
          (λ y.
            unset_hop_bit (write_entry r i 0 0) (hashed city (r y).key)
              (dist (hashed city (r y).key) i)
            ≡ some r')
          mi er in
      rw (c, off, es', er') refl

  stays :
      (i : ℕ) (r s : Records)
      → i < 16
      → (r i).key ≡ 0 ⊎ (r i).key < split
      → move_entry city split i r s ≡ some (r, s)
  unfolding move_entry
  stays i r s lt h =
      let mi : i ≡ i % 16 = omega arith in
      let key : (r i).key ≡ (r (i % 16)).key = ap (λ y. (r y).key) mi in
      let c : (not ((r (i % 16)).key == 0) && leb split (r (i % 16)).key) ≡ false = ground arith in
      rw c refl

  -- The slot `i` is still as it was.
  still : (i : ℕ) (r s : Records) → i < 16 → IsMoving city split r0 i r s → Stayed r0 r s i
  still i r s lt m = elim (m.slots i lt) [ inl (l, w) ↦ absurd (omega arith) | inr (h, st) ↦ st ]

  slots_kept :
      (i : ℕ) (r s : Records)
      → i < 16
      → IsMoving city split r0 i r s
      → (r0 i).key ≡ 0 ⊎ (r0 i).key < split
      → (x : ℕ) → x < 16
      → (x < i + 1) × Went r0 r s split x
        ⊎ (i + 1 ≤ x ⊎ (r0 x).key ≡ 0 ⊎ (r0 x).key < split) × Stayed r0 r s x
  slots_kept i r s lt m h x lx = elim (ℕ_discrete x i) [
    | yes e ↦
        subst
          (λ x.
            (x < i + 1) × Went r0 r s split x
            ⊎ (i + 1 ≤ x ⊎ (r0 x).key ≡ 0 ⊎ (r0 x).key < split) × Stayed r0 r s x)
          (sym e) (inr (inr h, still i r s lt m))
    | no n ↦ elim (m.slots x lx) [
      | inl (l, w) ↦ inl (omega arith, w)
      | inr (inl l, st) ↦ inr (inl (omega arith), st)
      | inr (inr k, st) ↦ inr (inr k, st)
    ]
  ]

  slots_moved :
      (i : ℕ) (r s r' s' : Records) {a d : ℕ}
      → i < 16
      → IsMoving city split r0 i r s
      → (r0 i).key ≢ 0
      → split ≤ (r0 i).key
      → IsRemoved r r' i a d
      → IsPlaced s s' i a d (r i).key (r i).value
      → (x : ℕ) → x < 16
      → (x < i + 1) × Went r0 r' s' split x
        ⊎ (i + 1 ≤ x ⊎ (r0 x).key ≡ 0 ⊎ (r0 x).key < split) × Stayed r0 r' s' x
  slots_moved i r s r' s' lt m n le rm pl x lx = elim (ℕ_discrete x i) [
    | yes e ↦
        let st = still i r s lt m in
        subst
          (λ x.
            (x < i + 1) × Went r0 r' s' split x
            ⊎ (i + 1 ≤ x ⊎ (r0 x).key ≡ 0 ⊎ (r0 x).key < split) × Stayed r0 r' s' x)
          (sym e)
          (inl (
            omega arith,
            record {
              key = n;
              upper = le;
              here = rm.key_i;
              there = pl.key_f ∙ st.here;
              value = pl.value_f ∙ st.value;
            },
          ))
    | no ne ↦ elim (m.slots x lx) [
      | inl (l, w) ↦ inl (
        omega arith,
        record {
          key = w.key;
          upper = w.upper;
          here = rm.key_other x ne ∙ w.here;
          there = pl.key_other x ne ∙ w.there;
          value = pl.value_other x ne ∙ w.value;
        },
      )
      | inr (h, st) ↦ inr (
        elim h [ inl l ↦ inl (omega arith) | inr k ↦ inr k ],
        record {
          here = rm.key_other x ne ∙ st.here;
          value = rm.value_other x ne ∙ st.value;
          there = pl.key_other x ne ∙ st.there;
        },
      )
    ]
  ]

  move_entry_lem :
      (i : ℕ) (r s : Records)
      → i < 16
      → IsMoving city split r0 i r s
      → (r' : Records) × (s' : Records) × (move_entry city split i r s ≡ some (r', s'))
        × IsMoving city split r0 (i + 1) r' s'
  move_entry_lem i r s lt m = by_cases (ℕ_discrete (r i).key 0) (dec_lt (r i).key split)
    where
      st : Stayed r0 r s i
      st = still i r s lt m

      kept :
          (r i).key ≡ 0 ⊎ (r i).key < split
          → (r' : Records) × (s' : Records) × (move_entry city split i r s ≡ some (r', s'))
            × IsMoving city split r0 (i + 1) r' s'
      kept h =
          let same = st.here in
          let h' : (r0 i).key ≡ 0 ⊎ (r0 i).key < split = subst (λ k. k ≡ 0 ⊎ k < split) same h in
          (
            r,
            s,
            stays i r s lt h,
            record { leaf = m.leaf; synonym = m.synonym; slots = slots_kept i r s lt m h' },
          )

      by_cases :
          Dec ((r i).key ≡ 0)
          → Dec ((r i).key < split)
          → (r' : Records) × (s' : Records) × (move_entry city split i r s ≡ some (r', s'))
            × IsMoving city split r0 (i + 1) r' s'
      by_cases (yes z) d = kept (inl z)
      by_cases (no n) (yes l) = kept (inr l)
      by_cases (no n) (no g) =
          let same = st.here in
          let near = (m.leaf.placed i lt (λ z. omega arith) n).0 in
          let (r', er, rm, tr) = remove_lem city r i lt m.leaf n in
          let (s', es, pl, ts) =
            place_slot city s i (r i).key (r i).value lt m.synonym st.there n near in
          (
            r',
            s',
            moves i r s r' s' lt n (omega arith) es er,
            record {
              leaf = tr;
              synonym = ts;
              slots = slots_moved i r s r' s' lt m (λ z. n (same ∙ z)) (omega arith) rm pl;
            },
          )

  pub move_data_lem :
      (n i : ℕ) (r s : Records)
      → i + n ≡ 16
      → IsMoving city split r0 i r s
      → (r' : Records) × (s' : Records) × (move_data city split n i r s ≡ some (r', s'))
        × IsMoving city split r0 16 r' s'
  unfolding move_data
  move_data_lem zero i r s e m =
      (r, s, refl, subst (λ x. IsMoving city split r0 x r s) (omega arith) m)
  move_data_lem (suc n) i r s e m =
      let (r', s', is, m') = move_entry_lem i r s (omega arith) m in
      let (r'', s'', rest, m'') = move_data_lem n (i + 1) r' s' (omega arith) m' in
      (r'', s'', rw is rest, m'')
