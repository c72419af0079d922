-- ===== src/Leaf/Scan.antt =====
-- What the loops over a sorted record array find: the place of a key, and the first null key.
use mathlib.Core.Option
use mathlib.Core.Path.{subst}
use riiver_rolex.Base.{
  ℕ, zero, suc, ◌≤◌, ◌<◌, ◌≡◌, refl, sym, ap, ◌∙◌, ◌≢◌, ◌⊎◌, inl, inr, Option, none, some, List, [],
  ◌∷◌, ◌++◌, arith, ltb, ◌==◌, Bool-cases, length, get_or,
}
use riiver_rolex.Leaf.{LeafEntry, null_entry, probe, next_null}
use riiver_rolex.Leaf.Shift.{carry}
use riiver_rolex.Leaf.Order.{live, AllNull, IsOrdered, Increasing, lookup, lookup_below, lookup_nil}

pub live-AllNull : (rs : List LeafEntry) → AllNull rs → live rs ≡ []
unfolding live
live-AllNull [] h = refl
live-AllNull (e ∷ es) h = ground arith

pub live-Increasing : (lo : ℕ) (rs : List LeafEntry) → IsOrdered lo rs → Increasing lo (live rs)
unfolding live
live-Increasing lo [] h = tt
live-Increasing lo (e ∷ es) (inl h) = elim (Bool-cases (e.key == 0)) [
  | inl n ↦ rw n tt
  | inr n ↦ rw n (h.0, live-Increasing e.key es h.1)
]
live-Increasing lo (e ∷ es) (inr h) = rw (h.0) tt

pub AllNull-IsOrdered : (lo : ℕ) (rs : List LeafEntry) → AllNull rs → IsOrdered lo rs
AllNull-IsOrdered lo [] h = tt
AllNull-IsOrdered lo (e ∷ es) h = inr h

module _ (e : LeafEntry) (es : List LeafEntry) where
  pub live_stop : e.key ≡ 0 → live (e ∷ es) ≡ []
  unfolding live
  live_stop h = ground arith

  pub live_on : 0 < e.key → live (e ∷ es) ≡ (e.key, e.value) ∷ live es
  unfolding live
  live_on h = ground arith

  pub next_null_stop : e.key ≡ 0 → next_null zero (e ∷ es) ≡ 0
  unfolding next_null
  next_null_stop h = ground arith

  pub next_null_on : 0 < e.key → next_null zero (e ∷ es) ≡ suc (next_null zero es)
  unfolding next_null
  next_null_on h = ground arith

  pub next_null-suc : (i : ℕ) → next_null (suc i) (e ∷ es) ≡ suc (next_null i es)
  unfolding next_null
  next_null-suc i = refl

  probe_found : (k : ℕ) → e.key ≡ k → probe k (e ∷ es) ≡ none
  unfolding probe
  probe_found k h = ground arith

  probe_stop_null : (k : ℕ) → 0 < k → e.key ≡ 0 → probe k (e ∷ es) ≡ some 0
  unfolding probe
  probe_stop_null k pos h = ground arith

  probe_stop : (k : ℕ) → 0 < k → k < e.key → probe k (e ∷ es) ≡ some 0
  unfolding probe
  probe_stop k pos h = ground arith

  probe_on : (k : ℕ) → 0 < e.key → e.key < k → probe k (e ∷ es) ≡ Option.map suc (probe k es)
  unfolding probe
  probe_on k pos h = ground arith

-- The scan stops with an existing key only when the key is live.
pub probe-none :
    (k lo : ℕ) (rs : List LeafEntry)
    → 0 < k
    → IsOrdered lo rs
    → probe k rs ≡ none
    → lookup k (live rs) ≢ none
unfolding probe live lookup
probe-none k lo [] pos h e = cc
probe-none k lo (x ∷ rs) pos (inl h) e = ground (arith, probe-none k x.key rs)
probe-none k lo (x ∷ rs) pos (inr h) e = ground arith

-- The three ways in which the scan goes at an entry of sorted records.
pub data Scan (k lo : ℕ) (x : LeafEntry) (rs : List LeafEntry) : ℕ → Type 0 where
  null : AllNull (x ∷ rs) → Scan k lo x rs zero
  less : k < x.key → IsOrdered x.key rs → Scan k lo x rs zero
  more :
      {i : ℕ}
      → lo < x.key
      → x.key < k
      → IsOrdered x.key rs
      → probe k rs ≡ some i
      → Scan k lo x rs (suc i)

suc-map : (i : ℕ) (o : Option ℕ) → Option.map suc o ≡ some i → (j : ℕ) × (o ≡ some j) × (i ≡ suc j)
suc-map i none e = cc
suc-map i (some j) e = (j, refl, cc)

pub scan :
    (k lo i : ℕ) (x : LeafEntry) (rs : List LeafEntry)
    → 0 < k
    → IsOrdered lo (x ∷ rs)
    → probe k (x ∷ rs) ≡ some i
    → Scan k lo x rs i
scan k lo i x rs pos (inr h) e =
    let z : zero ≡ i = cc (e, probe_stop_null x rs k pos h.0) in subst (Scan k lo x rs) z (null h)
scan k lo i x rs pos (inl h) e = elim (Bool-cases (x.key == k)) [
  | inl same ↦ let f = probe_found x rs k (ground arith) in absurd (cc (e, f))
  | inr other ↦ elim (Bool-cases (ltb k x.key)) [
    | inl l ↦
        let z : zero ≡ i = cc (e, probe_stop x rs k pos (ground arith)) in
        subst (Scan k lo x rs) z (less (ground arith) h.1)
    | inr g ↦
        let (j, found, z) =
          suc-map i (probe k rs) (cc (e, probe_on x rs k (omega arith) (ground arith))) in
        subst (Scan k lo x rs) (sym z) (more h.0 (ground arith) h.1 found)
  ]
]

pub carry-live :
    (lo : ℕ) (x : LeafEntry) (rs : List LeafEntry)
    → lo < x.key
    → IsOrdered x.key rs
    → next_null zero rs < length rs
    → (live (carry (next_null zero rs) x rs) ≡ (x.key, x.value) ∷ live rs)
      × IsOrdered lo (carry (next_null zero rs) x rs)
unfolding carry
carry-live lo x [] l h room = absurd (omega arith)
carry-live lo x (y ∷ rs) l (inl h) room =
    let n = next_null_on y rs (omega arith) in
    let r = carry-live x.key y rs h.0 h.1 (omega arith) in
    rw (n, live_on x (carry (next_null zero rs) y rs) (omega arith), live_on y rs (omega arith))
      (ap (λ t. (x.key, x.value) ∷ t) r.0, inl (l, r.1))
carry-live lo x (y ∷ rs) l (inr h) room =
    rw
      (next_null_stop y rs h.0, live_on x rs (omega arith), live_stop y rs h.0, live-AllNull rs h.1)
      (refl, inl (l, AllNull-IsOrdered x.key rs h.1))

pub Scan-zero :
    {k lo : ℕ} {x : LeafEntry} {rs : List LeafEntry}
    → Scan k lo x rs zero
    → AllNull (x ∷ rs) ⊎ (k < x.key) × IsOrdered x.key rs
Scan-zero (null a) = inl a
Scan-zero (less g o) = inr (g, o)

pub Scan-suc :
    {k lo i : ℕ} {x : LeafEntry} {rs : List LeafEntry}
    → Scan k lo x rs (suc i)
    → (lo < x.key) × (x.key < k) × IsOrdered x.key rs × (probe k rs ≡ some i)
Scan-suc (more b g o f) = (b, g, o, f)

pub next_null-le : (rs : List LeafEntry) → next_null zero rs ≤ length rs
unfolding next_null
next_null-le [] = omega arith
next_null-le (x ∷ rs) = ground (arith, next_null-le rs)

pub next_null-ge : (i : ℕ) (rs : List LeafEntry) → i ≤ next_null i rs
unfolding next_null
next_null-ge i [] = omega arith
next_null-ge zero (x ∷ rs) = omega arith
next_null-ge (suc i) (x ∷ rs) = omega (arith, next_null-ge i rs)

probe-nil : (k i : ℕ) → probe k [] ≡ some i → i ≡ 0
unfolding probe
probe-nil k i e = ground arith

pub next_null-nil : (i : ℕ) → next_null i [] ≡ i
unfolding next_null
next_null-nil i = refl

lookup_skip : (k p w : ℕ) (ps : List (ℕ × ℕ)) → p < k → lookup k ((p, w) ∷ ps) ≡ lookup k ps
unfolding lookup
lookup_skip k p w ps h = ground arith

-- The scan finds no key that is there, and the free slot that it leads to does not depend on it.
pub probe-bounds :
    (k lo i : ℕ) (rs : List LeafEntry)
    → 0 < k
    → IsOrdered lo rs
    → probe k rs ≡ some i
    → (lookup k (live rs) ≡ none) × (i ≤ length rs) × (next_null i rs ≡ next_null zero rs)
probe-bounds k lo i [] pos h e =
    let z = probe-nil k i e in rw (live-AllNull [] tt, z) (lookup_nil k, omega arith, refl)
probe-bounds k lo zero (x ∷ rs) pos h e = (
  elim (Scan-zero (scan k lo zero x rs pos h e)) [
    | inl a ↦ rw (live_stop x rs a.0) (lookup_nil k)
    | inr (g, o) ↦ rw (live_on x rs (omega arith)) (
        lookup_below k k ((x.key, x.value) ∷ live rs) (g, live-Increasing x.key rs o) (omega arith))
  ],
  omega arith,
  refl,
)
probe-bounds k lo (suc i) (x ∷ rs) pos h e =
    let (b, g, o, f) = Scan-suc (scan k lo (suc i) x rs pos h e) in
    let r = probe-bounds k x.key i rs pos o f in
    rw (live_on x rs (omega arith), next_null-suc x rs i, next_null_on x rs (omega arith))
      (lookup_skip k x.key x.value (live rs) g ∙ r.0, omega (arith, r.1), ap suc r.2)

abbrev pub entry : LeafEntry → ℕ × ℕ
entry e = (e.key, e.value)

-- The last record of a full array moves out of it when the others are carried on.
pub carry-full :
    (j lo : ℕ) (x : LeafEntry) (rs : List LeafEntry) (bs : List (ℕ × ℕ))
    → lo < x.key
    → IsOrdered x.key rs
    → next_null zero rs ≡ length rs
    → length rs ≡ suc j
    → (live (carry j x rs) ++ entry (get_or rs j null_entry) ∷ bs ≡ entry x ∷ (live rs ++ bs))
      × IsOrdered lo (carry j x rs)
      × (x.key < (get_or rs j null_entry).key)
unfolding carry
carry-full j lo x [] bs l o full size = absurd (omega arith)
carry-full j lo x (y ∷ rs) bs l (inr n) full size = absurd (omega (arith, next_null_stop y rs n.0))
carry-full zero lo x (y ∷ z ∷ rs) bs l (inl h) full size = absurd (omega arith)
carry-full zero lo x (y ∷ []) bs l (inl h) full size =
    rw (live_on x [] (omega arith), live_on y [] (omega arith), live-AllNull [] tt)
      (refl, inl (l, tt), h.0)
carry-full (suc j) lo x (y ∷ rs) bs l (inl h) full size =
    let r =
      carry-full j x.key y rs bs (omega arith) h.1 (omega (arith, next_null_on y rs (omega arith)))
        (omega arith) in
    rw (live_on x (carry j y rs) (omega arith), live_on y rs (omega arith))
      (ap (λ t. entry x ∷ t) r.0, inl (l, r.1), omega arith)
