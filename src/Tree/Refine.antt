-- ===== src/Tree/Refine.antt =====
-- What a later search sees of an insertion.
use mathlib.Core.Option.{get_or as or_value, some-injective}
use riiver_rolex.Base.{
  ℕ, ◌+◌, ◌^◌, ◌<◌, ◌≡◌, sym, ap, ◌∙◌, ◌≢◌, inl, inr, Option, some, ◌==◌, if◌then◌else◌, Bool-cases,
  ==_iff, ℕ_discrete,
}
use riiver_rolex.Layout.{leaf_num_max}
use riiver_rolex.Leaf.Order.{lookup, insert_sorted, lookup-insert_sorted}
use riiver_rolex.Leaf.Synonym.{HasRoom}
use riiver_rolex.Cache.{RolexCache, InsertRange, search_from_cache, search_from_cache_for_insert}
use riiver_rolex.Codec.{Codec}
use riiver_rolex.Alloc.{Allocator}
use riiver_rolex.Tree.{Dsm, insert, search}
use riiver_rolex.Tree.Spec.{Node, items, IsHome, Represents}
use riiver_rolex.Tree.Search.{search_lem}
use riiver_rolex.Tree.Insert.{insert_lem}

-- A range of the learned index that lies within the leaf region.
abbrev pub InRegion : RolexCache → ℕ → Type 0
InRegion cache q = (search_from_cache cache q).1 + 1 < leaf_num_max

-- The value that the memory holds under a key whose leaf is `i`.
abbrev value_at : (ℕ → Node) → ℕ → ℕ → Option ℕ
value_at σ i q = lookup q (items (σ i))

-- Under the conditions of `insert_lem`, a search for any key `q` after an insertion returns: the
-- inserted key reads its old value if it had one and the new value if not, and every other key
-- reads as it did before.
pub search-insert :
    {Raw A : Type 0} (codec : Codec Raw) (al : Allocator A) (cache : RolexCache) {s : Dsm Raw A}
    {σ : ℕ → Node}
    → Represents codec al cache s σ
    → (k v : ℕ) (g : InsertRange) → search_from_cache_for_insert cache k ≡ some g
    → g.last + 1 < leaf_num_max
    → al.CanAlloc s.heap
    → HasRoom (σ g.insert_idx).syn
    → 0 < k
    → k < 2 ^ 64
    → v < 2 ^ 64
    → (q j : ℕ) → 0 < q
    → IsHome cache q j
    → InRegion cache q
    → (s' : Dsm Raw A) × (old : Option ℕ) × (insert codec cache al.alloc s k v ≡ some s')
      × (search codec cache s q ≡ some old)
      × (search codec cache s' q ≡ some (if k == q then some (or_value old v) else old))
search-insert codec al cache {σ} rep k v g home bound space room pos kf vf q j qpos qhome region =
    let (s', ran, d) = insert_lem codec al cache rep k v g home bound space room pos kf vf in
    (
      s',
      lookup q (items (σ j)),
      ran,
      search_lem codec al cache rep q j qpos qhome region,
      search_lem codec al cache d.represents q j qpos qhome region
          ∙ ap some (after d.σ' j d.holds d.others (qhome)),
    )
  where
    after :
        (σ' : ℕ → Node) (j : ℕ)
        → items (σ' g.insert_idx) ≡ insert_sorted k v (items (σ g.insert_idx))
        → ((m : ℕ) → m ≢ g.insert_idx → σ' m ≡ σ m)
        → IsHome cache q j
        → lookup q (items (σ' j))
          ≡ (if k == q then some (or_value (lookup q (items (σ j))) v) else lookup q (items (σ j)))
    after σ' j e others (g', home', at) = elim (Bool-cases (k == q)) [
      | inl z ↦
          let same = (==_iff k q).0 z in
          let gs : g' ≡ g =
            some-injective g' g
              (sym home' ∙ ap (search_from_cache_for_insert cache) (sym same) ∙ home) in
          let js : j ≡ g.insert_idx = sym at ∙ ap (λ r. r.insert_idx) gs in
          rw (z, js, e) (insertion g.insert_idx ∙ rw (z, same))
      | inr z ↦ elim (ℕ_discrete j g.insert_idx) [
        | yes js ↦ rw (z, js, e) (insertion g.insert_idx ∙ rw z)
        | no ne ↦ rw (z, others j ne)
      ]
    ]
      where
        insertion :
            (i : ℕ)
            → lookup q (insert_sorted k v (items (σ i))) ≡ (
                if k == q
                then some (or_value (lookup k (items (σ i))) v)
                else lookup q (items (σ i)))
        insertion i = lookup-insert_sorted q k v 0 (items (σ i)) (rep.sorted i).increasing
