-- ===== src/Tree/Assign.antt =====
-- The entry loop of RolexIndex::update, as an assignment to a key that is there.
use mathlib.Core.Option
use mathlib.Core.Path.{subst}
use riiver_rolex.Base.{
  ℕ, suc, ◌^◌, ◌<◌, ◌≡◌, refl, ap, ◌≢◌, inl, inr, false, none, some, List, [], ◌∷◌, ◌++◌, arith,
  ◌==◌, if◌then◌else◌, Bool-cases, length, ==_iff,
}
use riiver_rolex.Leaf.{LeafEntry, next_null}
use riiver_rolex.Leaf.Order.{live, IsOrdered, Increasing, lookup}
use riiver_rolex.Codec.{FitsEntry, All}
use riiver_rolex.Tree.{update_entry}

-- The key takes the value, if it is there.
unfoldable pub assign : ℕ → ℕ → List (ℕ × ℕ) → List (ℕ × ℕ)
assign k v [] = []
assign k v ((p, w) ∷ ps) = let rest = (p, w) ∷ assign k v ps in if p == k then (k, v) ∷ ps else rest

pub assign-absent : (k v : ℕ) (ps : List (ℕ × ℕ)) → lookup k ps ≡ none → assign k v ps ≡ ps
unfolding assign lookup
assign-absent k v [] h = refl
assign-absent k v ((p, w) ∷ ps) h = elim (Bool-cases (p == k)) [
  | inl e ↦ absurd (cc (rw e at h))
  | inr e ↦ rw e (ap (λ t. (p, w) ∷ t) (assign-absent k v ps (rw e at h)))
]

pub lookup-assign :
    (q k v : ℕ) (ps : List (ℕ × ℕ))
    → lookup q (assign k v ps) ≡ (if k == q then Option.map (λ w. v) (lookup k ps) else lookup q ps)
unfolding assign lookup
lookup-assign q k v [] = ground arith
lookup-assign q k v ((p, w) ∷ ps) = ground (arith, lookup-assign q k v ps)

pub assign-Increasing :
    (k v lo : ℕ) (ps : List (ℕ × ℕ)) → Increasing lo ps → Increasing lo (assign k v ps)
unfolding assign
assign-Increasing k v lo [] h = tt
assign-Increasing k v lo ((p, w) ∷ ps) h = elim (Bool-cases (p == k)) [
  | inl e ↦ let same = (==_iff p k).0 e in rw e (subst (λ z. (lo < z) × Increasing z ps) same h)
  | inr e ↦ rw e (h.0, assign-Increasing k v p ps h.1)
]

pub assign-append_some :
    (k v : ℕ) (ps qs : List (ℕ × ℕ))
    → lookup k ps ≢ none
    → assign k v (ps ++ qs) ≡ assign k v ps ++ qs
unfolding assign lookup
assign-append_some k v [] qs h = absurd (h refl)
assign-append_some k v ((p, w) ∷ ps) qs h = elim (Bool-cases (p == k)) [
  | inl e ↦ rw e
  | inr e ↦ rw e (ap (λ t. (p, w) ∷ t) (assign-append_some k v ps qs (rw e at h)))
]

pub assign-append :
    (k v : ℕ) (ps qs : List (ℕ × ℕ))
    → lookup k ps ≡ none
    → assign k v (ps ++ qs) ≡ ps ++ assign k v qs
unfolding assign lookup
assign-append k v [] qs h = refl
assign-append k v ((p, w) ∷ ps) qs h = elim (Bool-cases (p == k)) [
  | inl e ↦ absurd (cc (rw e at h))
  | inr e ↦ rw e (ap (λ t. (p, w) ∷ t) (assign-append k v ps qs (rw e at h)))
]

-- What the loop makes of sorted records that have the key.
pub record Assigned (k v lo : ℕ) (rs : List LeafEntry) : Type 0 where
  pub records : List LeafEntry
  pub ran : update_entry k v rs ≡ some records
  pub holds : live records ≡ assign k v (live rs)
  pub ordered : IsOrdered lo records
  pub size : length records ≡ length rs
  pub full : next_null 0 records ≡ next_null 0 rs
  pub fits : v < 2 ^ 64 → All FitsEntry rs → All FitsEntry records

pub update_entry_lem :
    (k v lo : ℕ) (rs : List LeafEntry)
    → 0 < k
    → IsOrdered lo rs
    → lookup k (live rs) ≢ none
    → Assigned k v lo rs
unfolding update_entry live lookup assign next_null
update_entry_lem k v lo [] pos o there = absurd (there refl)
update_entry_lem k v lo (x ∷ rs) pos (inr n) there = absurd (there (rw n.0 refl))
update_entry_lem k v lo (x ∷ rs) pos (inl h) there = elim (Bool-cases (x.key == k)) [
  | inl e ↦
      let same = (==_iff x.key k).0 e in
      record {
        records = record x { key = k; value = v } ∷ rs;
        ran = rw e;
        holds = ground arith;
        ordered = inl (subst (λ z. (lo < z) × IsOrdered z rs) same h);
        size = refl;
        full = ground arith;
        fits = λ vf f. (
          record { version = f.0.version; key = subst (λ z. z < 2 ^ 64) same f.0.key; value = vf },
          f.1,
        );
      }
  | inr e ↦
      let real : (x.key == 0) ≡ false = ground arith in
      let r = update_entry_lem k v x.key rs pos h.1 (rw (real, e) at there) in
      record {
        records = x ∷ r.records;
        ran = rw (e, r.ran);
        holds = rw (real, e, r.holds);
        ordered = inl (h.0, r.ordered);
        size = ap suc r.size;
        full = rw (real, r.full);
        fits = λ vf f. (f.0, r.fits vf f.1);
      }
]
