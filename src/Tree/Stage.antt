-- ===== src/Tree/Stage.antt =====
-- What the local step of an insertion leaves alone: which of the two buffers are written, where the
-- synonym leaf lies, and that every field still fits its width.
use mathlib.Core.Option.{some-injective, none-ne-some}
use mathlib.Core.Path.{subst}
use riiver_rolex.Leaf.Synonym.{link-records}
use riiver_rolex.Base.{
  ℕ, ◌-◌, ◌^◌, ◌<◌, ◌≡◌, refl, inl, inr, false, Option, some, ◌==◌, if◌then◌else◌, Bool-cases,
  Option-cases, get_or,
}
use riiver_rolex.Address.{GlobalAddress, null_addr, max_addr, addr_eq}
use riiver_rolex.Leaf.{LeafNode, leaf_span_size, null_entry, probe, next_null}
use riiver_rolex.Leaf.Local.{
  Staged, stage_behind, stage_overflow, insert_into_syn_leaf_locally, insert_behind,
  insert_overflow, insert_inside, insert_locally,
}
use riiver_rolex.Codec.{FitsEntry, All}
use riiver_rolex.Tree.Shapes.{All-get_or, All-place, AllSyn, Shape, kept, into_fits, any-Shape}

module _ {A : Type 0} (alloc : A → GlobalAddress × A) (l : LeafNode) (syn : Option LeafNode)
    (old : GlobalAddress) (heap : A) (k v : ℕ) (t : Staged A)
    (real : addr_eq (alloc heap).0 null_addr ≡ false) (kf : k < 2 ^ 64) (vf : v < 2 ^ 64)
    (lf : All FitsEntry l.records) (sf : AllSyn syn) where
  Result : Type 0
  Result = Shape alloc l syn old heap t × All FitsEntry t.leaf.records × AllSyn t.syn_leaf

  behind-Shape : insert_behind alloc k v l syn old heap ≡ some t → Result
  unfolding insert_behind Result
  behind-Shape e =
      let r = insert_into_syn_leaf_locally alloc k v syn heap in
      elim (Bool-cases (addr_eq r.addr max_addr)) [
        | inl z ↦ absurd (none-ne-some t (rw z at e))
        | inr z ↦
            let same : stage_behind l old r ≡ t = some-injective _ _ (rw z at e) in
            subst
              (λ t. Shape alloc l syn old heap t × All FitsEntry t.leaf.records × AllSyn t.syn_leaf)
              same
              (
                any-Shape alloc l old heap real (stage_behind l old r) k v syn z refl refl refl
                    (inr (refl, refl)) refl refl,
                rw (link-records l r.addr) lf,
                into_fits alloc k v syn heap kf vf sf,
              )
      ]

  overflow-Shape : (i : ℕ) → insert_overflow alloc k v i l syn old heap ≡ some t → Result
  unfolding insert_overflow Result
  overflow-Shape i e =
      let last = get_or l.records (leaf_span_size - 1) null_entry in
      let lastf = All-get_or l.records (leaf_span_size - 1) lf in
      let r = insert_into_syn_leaf_locally alloc last.key last.value syn heap in
      elim (Bool-cases (addr_eq r.addr max_addr)) [
        | inl z ↦ absurd (none-ne-some t (rw z at e))
        | inr z ↦
            let same : stage_overflow k v i l old r ≡ t = some-injective _ _ (rw z at e) in
            subst
              (λ t. Shape alloc l syn old heap t × All FitsEntry t.leaf.records × AllSyn t.syn_leaf)
              same
              (
                any-Shape alloc l old heap real (stage_overflow k v i l old r) last.key last.value
                    syn z refl refl refl (inl refl) refl refl,
                All-place k v kf vf i (leaf_span_size - 1) l.records lf,
                into_fits alloc last.key last.value syn heap lastf.key lastf.value sf,
              )
      ]

  inside-Shape : (i j : ℕ) → insert_inside alloc k v i j l syn old heap ≡ some t → Result
  unfolding insert_inside Result
  inside-Shape i j e =
      subst (λ t. Shape alloc l syn old heap t × All FitsEntry t.leaf.records × AllSyn t.syn_leaf)
        (some-injective _ t e)
        (kept refl refl refl refl refl, All-place k v kf vf i j l.records lf, sf)

  -- What an insertion stages, and that its fields fit.
  pub insert_locally-Shape :
      insert_locally alloc k v l syn old heap ≡ some t
      → Shape alloc l syn old heap t × All FitsEntry t.leaf.records × AllSyn t.syn_leaf
  unfolding insert_locally Result
  insert_locally-Shape e = elim (Option-cases (probe k l.records)) [
    | inl p ↦ absurd (none-ne-some t (rw (p, insert_locally) at e))
    | inr (i, p) ↦ split i (rw (p, insert_locally) at e)
  ]
    where
      split :
          (i : ℕ)
          → (if i == leaf_span_size
              then insert_behind alloc k v l syn old heap
              else if next_null i l.records == leaf_span_size
              then insert_overflow alloc k v i l syn old heap
              else insert_inside alloc k v i (next_null i l.records) l syn old heap)
            ≡ some t
          → Shape alloc l syn old heap t × All FitsEntry t.leaf.records × AllSyn t.syn_leaf
      split i e = elim (Bool-cases (i == leaf_span_size)) [
        | inl z ↦ behind-Shape (rw z at e)
        | inr z ↦ elim (Bool-cases (next_null i l.records == leaf_span_size)) [
          | inl f ↦ overflow-Shape i (rw (z, f) at e)
          | inr f ↦ inside-Shape i (next_null i l.records) (rw (z, f) at e)
        ]
      ]
