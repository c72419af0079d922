-- ===== src/Leaf/Shift.antt =====
-- The shift loop of an insertion, as one pass over the records.
use riiver_rolex.Base.{
  ℕ, zero, suc, ◌<◌, ◌≡◌, refl, ap, List, [], ◌∷◌, arith, leb, length, set, get_or, length-set,
  if◌then◌else◌,
}
use riiver_rolex.Leaf.{LeafEntry, null_entry, update, update_at, shift, place}

-- Every entry from the gap up to the free slot moves one place on.
unfoldable pub carry : ℕ → LeafEntry → List LeafEntry → List LeafEntry
carry j e [] = []
carry zero e (x ∷ rs) = e ∷ rs
carry (suc j) e (x ∷ rs) = e ∷ carry j x rs

shift_step :
    (i k : ℕ) (rs : List LeafEntry)
    → shift i (suc k) rs
      ≡ (if leb i k then shift i k (set rs (suc k) (get_or rs k null_entry)) else rs)
unfolding shift
shift_step i k rs = refl

shift_done : (i : ℕ) (rs : List LeafEntry) → shift i zero rs ≡ rs
unfolding shift
shift_done i rs = refl

shift-suc :
    (i j : ℕ) (x : LeafEntry) (rs : List LeafEntry)
    → shift (suc i) (suc j) (x ∷ rs) ≡ x ∷ shift i j rs
shift-suc i zero x rs = ground (arith, shift_step (suc i) zero (x ∷ rs), shift_done i rs)
shift-suc i (suc k) x rs = ground (
  arith,
  shift_step (suc i) (suc k) (x ∷ rs),
  shift_step i k rs,
  shift-suc i k x (set rs (suc k) (get_or rs k null_entry)),
)

carry-set :
    (j : ℕ) (x : LeafEntry) (rs : List LeafEntry)
    → suc j < length rs
    → carry j x (set rs (suc j) (get_or rs j null_entry)) ≡ carry (suc j) x rs
unfolding carry
carry-set j x [] h = absurd (omega arith)
carry-set j x (y ∷ []) h = absurd (omega arith)
carry-set zero x (y ∷ z ∷ r) h = refl
carry-set (suc j) x (y ∷ z ∷ r) h = ap (λ t. x ∷ t) (carry-set j y (z ∷ r) (omega arith))

carry_first : (x y : LeafEntry) (r : List LeafEntry) → carry zero x (y ∷ r) ≡ x ∷ r
unfolding carry
carry_first x y r = refl

shift-zero :
    (j : ℕ) (x : LeafEntry) (rs : List LeafEntry)
    → j < length rs
    → shift zero (suc j) (x ∷ rs) ≡ x ∷ carry j x rs
shift-zero zero x [] h = absurd (omega arith)
shift-zero zero x (y ∷ r) h =
    ground (arith, shift_step zero zero (x ∷ y ∷ r), shift_done zero (x ∷ x ∷ r), carry_first x y r)
shift-zero (suc j) x rs h = ground (
  arith,
  shift_step zero (suc j) (x ∷ rs),
  shift-zero j x (set rs (suc j) (get_or rs j null_entry)) (bound h),
  carry-set j x rs,
)
  where
    bound : suc j < length rs → j < length (set rs (suc j) (get_or rs j null_entry))
    bound h = omega (arith, length-set rs (suc j) (get_or rs j null_entry))

-- Where a place was found at or below the free slot `j`, the whole step is: the entries before the
-- place stay, the new key and value take the place, and the rest is carried on up to `j`.
unfoldable pub insert_at : ℕ → ℕ → ℕ → ℕ → List LeafEntry → List LeafEntry
unfolding carry
insert_at i j k v [] = []
insert_at zero zero k v (x ∷ rs) = update x k v ∷ rs
insert_at zero (suc j) k v (x ∷ rs) = update x k v ∷ carry j x rs
insert_at (suc i) zero k v (x ∷ rs) = x ∷ update_at rs i k v
insert_at (suc i) (suc j) k v (x ∷ rs) = x ∷ insert_at i j k v rs

update_first :
    (x : LeafEntry) (rs : List LeafEntry) (k v : ℕ)
    → update_at (x ∷ rs) zero k v ≡ update x k v ∷ rs
unfolding update_at
update_first x rs k v = refl

update_rest :
    (x : LeafEntry) (rs : List LeafEntry) (i k v : ℕ)
    → update_at (x ∷ rs) (suc i) k v ≡ x ∷ update_at rs i k v
unfolding update_at
update_rest x rs i k v = refl

place_step : (i j k v : ℕ) (rs : List LeafEntry) → place i j k v rs ≡ update_at (shift i j rs) i k v
unfolding place
place_step i j k v rs = refl

pub place_lem :
    (i j k v : ℕ) (rs : List LeafEntry) → j < length rs → place i j k v rs ≡ insert_at i j k v rs
unfolding insert_at
place_lem i j k v [] h = absurd (omega arith)
place_lem zero zero k v (x ∷ rs) h = rw (place_step, shift_done, update_first)
place_lem zero (suc j) k v (x ∷ rs) h =
    rw (place_step, shift-zero j x rs (omega arith), update_first)
place_lem (suc i) zero k v (x ∷ rs) h = rw (place_step, shift_done, update_rest)
place_lem (suc i) (suc j) k v (x ∷ rs) h =
    rw (place_step, shift-suc i j x rs, update_rest, ← place_step)
      (ap (λ t. x ∷ t) (place_lem i j k v rs (omega arith)))

length-carry : (j : ℕ) (x : LeafEntry) (rs : List LeafEntry) → length (carry j x rs) ≡ length rs
unfolding carry
length-carry j x [] = refl
length-carry zero x (y ∷ rs) = refl
length-carry (suc j) x (y ∷ rs) = ap suc (length-carry j y rs)

length-update_at : (rs : List LeafEntry) (i k v : ℕ) → length (update_at rs i k v) ≡ length rs
unfolding update_at
length-update_at [] i k v = refl
length-update_at (x ∷ rs) zero k v = refl
length-update_at (x ∷ rs) (suc i) k v = ap suc (length-update_at rs i k v)

pub length-insert_at :
    (i j k v : ℕ) (rs : List LeafEntry) → length (insert_at i j k v rs) ≡ length rs
unfolding insert_at
length-insert_at i j k v [] = refl
length-insert_at zero zero k v (x ∷ rs) = refl
length-insert_at zero (suc j) k v (x ∷ rs) = ap suc (length-carry j x rs)
length-insert_at (suc i) zero k v (x ∷ rs) = ap suc (length-update_at rs i k v)
length-insert_at (suc i) (suc j) k v (x ∷ rs) = ap suc (length-insert_at i j k v rs)
