-- ===== src/Tree/Collect.antt =====
-- What the loops of range_query collect from the records of a leaf, by key.
use mathlib.Core.Path.{subst}
use riiver_rolex.Base.{
  ℕ, ◌≤◌, ◌<◌, ◌≡◌, refl, sym, ap, ◌∙◌, ◌≢◌, ◌⊎◌, inl, inr, true, not, ◌&&◌, Option, none, some,
  List, [], ◌∷◌, ◌++◌, arith, ltb, leb, ◌==◌, if◌then◌else◌, Bool-cases, ℕ_discrete,
}
use riiver_rolex.Leaf.{LeafEntry}
use riiver_rolex.Leaf.Order.{
  live, AllNull, IsOrdered, Increasing, lookup, lookup_nil, lookup_below, Increasing-tail,
}
use riiver_rolex.Leaf.Scan.{live-Increasing}
use riiver_rolex.Tree.{Fetched, map_set, collect_entries, collect_leaves}

lookup-map_set :
    (q k v : ℕ) (m : List (ℕ × ℕ))
    → lookup q (map_set k v m) ≡ (if k == q then some v else lookup q m)
unfolding lookup map_set
lookup-map_set q k v [] = refl
lookup-map_set q k v ((p, w) ∷ m) = elim (Bool-cases (p == k)) [
  | inl e ↦ rw e (ground arith)
  | inr e ↦ elim (Bool-cases (ltb k p)) [
    | inl l ↦ rw (e, l) refl
    | inr l ↦ rw (e, l) (ground (arith, lookup-map_set q k v m))
  ]
]

map_set-Increasing :
    (k v lo : ℕ) (m : List (ℕ × ℕ)) → lo < k → Increasing lo m → Increasing lo (map_set k v m)
unfolding map_set
map_set-Increasing k v lo [] lt h = (lt, tt)
map_set-Increasing k v lo ((p, w) ∷ m) lt h = elim (Bool-cases (p == k)) [
  | inl e ↦ rw e (ground arith)
  | inr e ↦ elim (Bool-cases (ltb k p)) [
    | inl l ↦ rw (e, l) (ground arith)
    | inr l ↦ rw (e, l) (h.0, map_set-Increasing k v p m (ground arith) h.1)
  ]
]

-- The newer value, if there is one.
abbrev pub override : Option ℕ → Option ℕ → Option ℕ
override (some v) old = some v
override none old = old

pub override-none : (o : Option ℕ) → override o none ≡ o
override-none none = refl
override-none (some v) = refl

-- What one entry adds to the result.
abbrev add_entry : ℕ → ℕ → LeafEntry → List (ℕ × ℕ) → List (ℕ × ℕ)
add_entry from to e ret =
    if not (e.key == 0) && (leb from e.key && ltb e.key to) then map_set e.key e.value ret else ret

live_nothing : (q : ℕ) → lookup q (live []) ≡ none
unfolding live lookup
live_nothing q = refl

live_null :
    (q : ℕ) (e : LeafEntry) (es : List LeafEntry) → e.key ≡ 0 → lookup q (live (e ∷ es)) ≡ none
unfolding live
live_null q e es h = rw h (lookup_nil q)

live_same :
    (q : ℕ) (e : LeafEntry) (es : List LeafEntry)
    → 0 < e.key
    → e.key ≡ q
    → lookup q (live (e ∷ es)) ≡ some e.value
unfolding live lookup
live_same q e es h same = ground arith

live_other :
    (q : ℕ) (e : LeafEntry) (es : List LeafEntry)
    → 0 < e.key
    → e.key ≢ q
    → lookup q (live (e ∷ es)) ≡ lookup q (live es)
unfolding live lookup
live_other q e es h other = ground arith

-- A key is in one of two parts only.
pub lookup-append_left :
    (q lo : ℕ) (ps qs : List (ℕ × ℕ))
    → Increasing lo (ps ++ qs)
    → lookup q ps ≢ none
    → lookup q qs ≡ none
unfolding lookup
lookup-append_left q lo [] qs h ne = absurd (ne refl)
lookup-append_left q lo ((p, w) ∷ ps) qs h ne = elim (Bool-cases (p == q)) [
  | inl e ↦ lookup_below q p qs (Increasing-tail p ps qs h.1) (ground arith)
  | inr e ↦ lookup-append_left q p ps qs h.1 (rw e at ne)
]

module _ (from to : ℕ) where
  add_entry-Increasing :
      (e : LeafEntry) (ret : List (ℕ × ℕ))
      → Increasing 0 ret
      → Increasing 0 (add_entry from to e ret)
  add_entry-Increasing e ret h =
      elim (Bool-cases (not (e.key == 0) && (leb from e.key && ltb e.key to))) [
        | inl c ↦ rw c (map_set-Increasing e.key e.value 0 ret (ground arith) h)
        | inr c ↦ rw c h
      ]

  lookup-add_entry_other :
      (q : ℕ) (e : LeafEntry) (ret : List (ℕ × ℕ))
      → e.key ≢ q ⊎ (q ≡ 0) ⊎ q < from ⊎ to ≤ q
      → lookup q (add_entry from to e ret) ≡ lookup q ret
  lookup-add_entry_other q e ret h =
      elim (Bool-cases (not (e.key == 0) && (leb from e.key && ltb e.key to))) [
        | inl c ↦ rw c (lookup-map_set q e.key e.value ret ∙ ground arith)
        | inr c ↦ rw c refl
      ]

  lookup-add_entry_self :
      (e : LeafEntry) (ret : List (ℕ × ℕ))
      → 0 < e.key
      → from ≤ e.key
      → e.key < to
      → lookup e.key (add_entry from to e ret) ≡ some e.value
  lookup-add_entry_self e ret pos a b =
      let c : (not (e.key == 0) && (leb from e.key && ltb e.key to)) ≡ true = ground arith in
      rw c (lookup-map_set e.key e.key e.value ret ∙ ground arith)

  collect_entries-Increasing :
      (rs : List LeafEntry) (ret : List (ℕ × ℕ))
      → Increasing 0 ret
      → Increasing 0 (collect_entries from to rs ret)
  unfolding collect_entries
  collect_entries-Increasing [] ret h = h
  collect_entries-Increasing (e ∷ es) ret h =
      collect_entries-Increasing es (add_entry from to e ret) (add_entry-Increasing e ret h)

  pub collect_leaves-Increasing :
      (cs : List Fetched) (ret : List (ℕ × ℕ))
      → Increasing 0 ret
      → Increasing 0 (collect_leaves from to cs ret)
  unfolding collect_leaves
  collect_leaves-Increasing [] ret h = h
  collect_leaves-Increasing (c ∷ cs) ret h =
      collect_leaves-Increasing cs (collect_entries from to c.leaf.records ret)
        (collect_entries-Increasing c.leaf.records ret h)

  collect_entries_outside :
      (q : ℕ) (rs : List LeafEntry) (ret : List (ℕ × ℕ))
      → q < from ⊎ to ≤ q
      → lookup q (collect_entries from to rs ret) ≡ lookup q ret
  unfolding collect_entries
  collect_entries_outside q [] ret h = refl
  collect_entries_outside q (e ∷ es) ret h =
      collect_entries_outside q es (add_entry from to e ret) h
      ∙ lookup-add_entry_other q e ret (inr (inr h))

  pub collect_leaves_outside :
      (q : ℕ) (cs : List Fetched) (ret : List (ℕ × ℕ))
      → q < from ⊎ to ≤ q
      → lookup q (collect_leaves from to cs ret) ≡ lookup q ret
  unfolding collect_leaves
  collect_leaves_outside q [] ret h = refl
  collect_leaves_outside q (c ∷ cs) ret h =
      collect_leaves_outside q cs (collect_entries from to c.leaf.records ret) h
      ∙ collect_entries_outside q c.leaf.records ret h

  module _ (q : ℕ) (pos : 0 < q) (low : from ≤ q) (high : q < to) where
    collect_entries-AllNull :
        (rs : List LeafEntry) (ret : List (ℕ × ℕ))
        → AllNull rs
        → lookup q (collect_entries from to rs ret) ≡ lookup q ret
    unfolding collect_entries
    collect_entries-AllNull [] ret h = refl
    collect_entries-AllNull (e ∷ es) ret h =
        collect_entries-AllNull es (add_entry from to e ret) h.1
        ∙ lookup-add_entry_other q e ret (inl (λ e. omega (arith, h.0)))

    pub collect_entries_lem :
        (lo : ℕ) (rs : List LeafEntry) (ret : List (ℕ × ℕ))
        → IsOrdered lo rs
        → lookup q (collect_entries from to rs ret) ≡ override (lookup q (live rs)) (lookup q ret)
    unfolding collect_entries
    collect_entries_lem lo [] ret h = ap (λ o. override o (lookup q ret)) (sym (live_nothing q))
    collect_entries_lem lo (e ∷ es) ret (inl h) =
        let ret' = add_entry from to e ret in
        collect_entries_lem e.key es ret' h.1 ∙ elim (ℕ_discrete e.key q) [
          | yes same ↦
              let below : lookup q (live es) ≡ none =
                lookup_below q e.key (live es) (live-Increasing e.key es h.1) (omega arith) in
              let new : lookup q ret' ≡ some e.value =
                subst (λ x. lookup x ret' ≡ some e.value) same
                  (lookup-add_entry_self e ret (omega arith) (omega arith) (omega arith)) in
              ap (λ o. override o (lookup q ret')) below
              ∙ new
              ∙ ap (λ o. override o (lookup q ret)) (sym (live_same q e es (omega arith) same))
          | no other ↦
              ap (override (lookup q (live es))) (lookup-add_entry_other q e ret (inl other))
              ∙ ap (λ o. override o (lookup q ret)) (sym (live_other q e es (omega arith) other))
        ]
    collect_entries_lem lo (e ∷ es) ret (inr h) =
        collect_entries-AllNull (e ∷ es) ret h
        ∙ sym (ap (λ o. override o (lookup q ret)) (live_null q e es h.0))
