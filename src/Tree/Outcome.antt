-- ===== src/Tree/Outcome.antt =====
-- What RolexIndex::insert of src/Rolex.cpp leaves behind, and the lock and the reads it starts with.
use riiver_rolex.Base.{
  ℕ, ◌-◌, ◌/◌, ◌%◌, ◌^◌, ◌≡◌, refl, sym, ap, ◌≢◌, inl, inr, Option, none, some, List, [], ◌∷◌,
  arith, ltb, ◌==◌, Bool-cases, ==_iff,
}
use riiver_rolex.Address.{GlobalAddress, addr_eq_self, addr_eq_ne}
use riiver_rolex.Leaf.{LeafNode}
use riiver_rolex.Leaf.Order.{lookup, lookup_below, Increasing, insert_sorted}
use riiver_rolex.Cache.{RolexCache}
use riiver_rolex.Codec.{Codec}
use riiver_rolex.Alloc.{Allocator}
use riiver_rolex.Tree.{Dsm, write_at, fetch_node, fetch_synonym, lock_node}
use riiver_rolex.Tree.Spec.{Node, items, Linked, Represents}
use riiver_rolex.Tree.Fetch.{syn_not_null}

abbrev pub node : LeafNode → Option LeafNode → Node
node l m = record { leaf = l; syn = m }

pub write_self :
    {X : Type 0} (f : GlobalAddress → X) (a : GlobalAddress) (x : X) → write_at f a x a ≡ x
write_self f a x = rw (addr_eq_self a)

pub write_ne :
    {X : Type 0} (f : GlobalAddress → X) (a b : GlobalAddress) (x : X)
    → b ≢ a
    → write_at f a x b ≡ f b
write_ne f a b x ne = rw (addr_eq_ne a b (λ e. ne (sym e)))

-- What the operation leaves behind: the key and value inserted in order at their leaf, no other leaf
-- changed, and every lock word as it was.
pub record Done {Raw A : Type 0} (codec : Codec Raw) (al : Allocator A) (cache : RolexCache)
    (s : Dsm Raw A) (σ : ℕ → Node) (k v i : ℕ) (s' : Dsm Raw A) : Type 0 where
  pub σ' : ℕ → Node
  pub represents : Represents codec al cache s' σ'
  pub holds : items (σ' i) ≡ insert_sorted k v (items (σ i))
  pub others : (j : ℕ) → j ≢ i → σ' j ≡ σ j
  pub locks : (a : GlobalAddress) → s'.lock a ≡ s.lock a

-- A key that is there keeps its value.
pub insert_sorted-present :
    (k v : ℕ) (lo : ℕ) (ps : List (ℕ × ℕ))
    → Increasing lo ps
    → lookup k ps ≢ none
    → insert_sorted k v ps ≡ ps
unfolding insert_sorted lookup
insert_sorted-present k v lo [] h ne = absurd (ne refl)
insert_sorted-present k v lo ((p, w) ∷ ps) h ne = elim (Bool-cases (p == k)) [
  | inl e ↦ rw e
  | inr e ↦ elim (Bool-cases (ltb k p)) [
    | inl l ↦ absurd (rw e at ne (lookup_below k p ps h.1 (ground arith)))
    | inr g ↦ rw (e, g) (ap (λ t. (p, w) ∷ t) (insert_sorted-present k v p ps h.1 (rw e at ne)))
  ]
]

module _ {Raw A : Type 0} (codec : Codec Raw) (cache : RolexCache) where
  -- The lock word of a leaf is taken.
  abbrev pub locked : Dsm Raw A → GlobalAddress → Dsm Raw A
  locked s a = record s { lock = write_at s.lock a (2 ^ 64 - 1) }

  pub lock_free :
      (s : Dsm Raw A) (a : GlobalAddress)
      → s.lock a / 2 ^ 63 % 2 ≡ 0
      → lock_node codec s a ≡ some (s.lock a, locked s a)
  unfolding lock_node
  lock_free s a h = rw ((==_iff (s.lock a / 2 ^ 63 % 2) 0).1 h)

  pub fetched : (s : Dsm Raw A) (a : GlobalAddress) → fetch_node codec s a ≡ codec.decode (s.mem a)
  unfolding fetch_node
  fetched s a = refl

  pub synonym_fetched :
      (s : Dsm Raw A) (l : LeafNode) (syn : Option LeafNode)
      → Linked codec s l syn
      → fetch_synonym codec cache s l.metadata.synonym_ptr ≡ some syn
  unfolding fetch_synonym fetch_node
  synonym_fetched s l none h = rw h
  synonym_fetched s l (some m) h = rw (syn_not_null h.1, h.0)
