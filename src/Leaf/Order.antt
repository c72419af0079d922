-- ===== src/Leaf/Order.antt =====
-- What a leaf holds: the entries before the first null key, in strictly increasing order of key.
use mathlib.Core.Option.{get_or as or_value}
use riiver_rolex.Base.{
  ℕ, ◌≤◌, ◌<◌, ◌≡◌, refl, sym, ◌∙◌, ◌≢◌, ◌⊎◌, inl, inr, Option, none, some, List, [], ◌∷◌, ◌++◌,
  arith, ltb, ◌==◌, if◌then◌else◌, Bool-cases, Option-cases,
}
use riiver_rolex.Leaf.{LeafEntry}

-- The keys and values of the entries before the first null key.
unfoldable pub live : List LeafEntry → List (ℕ × ℕ)
live [] = []
live (e ∷ es) = if e.key == 0 then [] else (e.key, e.value) ∷ live es

abbrev pub AllNull : List LeafEntry → Type 0
AllNull [] = Unit
AllNull (e ∷ es) = (e.key ≡ 0) × AllNull es

-- The keys are greater than `lo` and increase strictly, up to the nulls that fill the array.
abbrev pub IsOrdered : ℕ → List LeafEntry → Type 0
IsOrdered lo [] = Unit
IsOrdered lo (e ∷ es) = (lo < e.key) × IsOrdered e.key es ⊎ AllNull (e ∷ es)

-- A sorted list of keys and values, all above `lo`.
abbrev pub Increasing : ℕ → List (ℕ × ℕ) → Type 0
Increasing lo [] = Unit
Increasing lo (p ∷ ps) = (lo < p.0) × Increasing p.0 ps

-- Insertion into a sorted association list: a key that is there keeps its value.
unfoldable pub insert_sorted : ℕ → ℕ → List (ℕ × ℕ) → List (ℕ × ℕ)
insert_sorted k v [] = (k, v) ∷ []
insert_sorted k v ((q, w) ∷ ps) =
    let rest = (q, w) ∷ insert_sorted k v ps in
    if q == k then (q, w) ∷ ps else if ltb k q then (k, v) ∷ (q, w) ∷ ps else rest

unfoldable pub lookup : ℕ → List (ℕ × ℕ) → Option ℕ
lookup q [] = none
lookup q ((k, v) ∷ ps) = if k == q then some v else lookup q ps

pub lookup_below : (q lo : ℕ) (ps : List (ℕ × ℕ)) → Increasing lo ps → q ≤ lo → lookup q ps ≡ none
unfolding lookup
lookup_below q lo [] h le = refl
lookup_below q lo ((p, w) ∷ ps) h le = ground (arith, lookup_below q p ps)

-- A key that is there keeps its value, and every other key reads as before.
pub lookup-insert_sorted :
    (q k v lo : ℕ) (ps : List (ℕ × ℕ))
    → Increasing lo ps
    → lookup q (insert_sorted k v ps)
      ≡ (if k == q then some (or_value (lookup k ps) v) else lookup q ps)
unfolding lookup insert_sorted
lookup-insert_sorted q k v lo [] h = ground arith
lookup-insert_sorted q k v lo ((p, w) ∷ ps) h = elim (Bool-cases (p == k)) [
  | inl e ↦ rw e (ground arith)
  | inr e ↦ elim (Bool-cases (ltb k p)) [
    | inl l ↦ rw (e, l) (ground (arith, lookup_below k p ps))
    | inr g ↦ rw (e, g) (ground (arith, lookup-insert_sorted q k v p ps))
  ]
]

pub insert_sorted-Increasing :
    (k v lo : ℕ) (ps : List (ℕ × ℕ))
    → lo < k
    → Increasing lo ps
    → Increasing lo (insert_sorted k v ps)
unfolding insert_sorted
insert_sorted-Increasing k v lo [] l h = (l, tt)
insert_sorted-Increasing k v lo ((p, w) ∷ ps) l h = elim (Bool-cases (p == k)) [
  | inl e ↦ rw e h
  | inr e ↦ elim (Bool-cases (ltb k p)) [
    | inl g ↦ rw (e, g) (ground arith)
    | inr g ↦ rw (e, g) (h.0, insert_sorted-Increasing k v p ps (ground arith) h.1)
  ]
]

pub Increasing-weaken :
    (lo hi : ℕ) (ps : List (ℕ × ℕ)) → lo ≤ hi → Increasing hi ps → Increasing lo ps
Increasing-weaken lo hi [] le h = tt
Increasing-weaken lo hi (p ∷ ps) le h = (omega arith, h.1)

pub Increasing-tail : (lo : ℕ) (ps qs : List (ℕ × ℕ)) → Increasing lo (ps ++ qs) → Increasing lo qs
Increasing-tail lo [] qs h = h
Increasing-tail lo (p ∷ ps) qs h =
    Increasing-weaken lo p.0 qs (omega arith) (Increasing-tail p.0 ps qs h.1)

pub lookup-append :
    (q : ℕ) (ps qs : List (ℕ × ℕ)) → lookup q ps ≡ none → lookup q (ps ++ qs) ≡ lookup q qs
unfolding lookup
lookup-append q [] qs h = refl
lookup-append q ((p, w) ∷ ps) qs h = ground (arith, lookup-append q ps qs)

pub lookup-append_some :
    (q : ℕ) (ps qs : List (ℕ × ℕ)) → lookup q ps ≢ none → lookup q (ps ++ qs) ≡ lookup q ps
unfolding lookup
lookup-append_some q [] qs h = absurd (h refl)
lookup-append_some q ((p, w) ∷ ps) qs h = elim (Bool-cases (p == q)) [
  | inl e ↦ rw e
  | inr e ↦ rw e (lookup-append_some q ps qs (rw e at h))
]

pub lookup_nil : (k : ℕ) → lookup k [] ≡ none
unfolding lookup
lookup_nil k = refl

pub lookup-append_none :
    (q : ℕ) (ps qs : List (ℕ × ℕ))
    → lookup q (ps ++ qs) ≡ none
    → (lookup q ps ≡ none) × (lookup q qs ≡ none)
lookup-append_none q ps qs h = elim (Option-cases (lookup q ps)) [
  | inl e ↦ (e, sym (lookup-append q ps qs e) ∙ h)
  | inr (v, e) ↦ let f = lookup-append_some q ps qs (λ n. cc) in absurd (cc (e, f, h))
]
