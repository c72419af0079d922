-- ===== src/Tree/Changed.antt =====
-- A change of one leaf and its synonym leaf keeps the memory a representation.
use mathlib.Core.Path.{subst}
use riiver_rolex.Base.{
  ℕ, ◌+◌, ◌/◌, ◌%◌, ◌^◌, ◌<◌, ◌≡◌, refl, sym, ap, ◌∙◌, ◌≢◌, inl, inr, Option, none, some, arith,
  ◌==◌, if◌then◌else◌, Bool-cases, ==_iff, ℕ_discrete,
}
use riiver_rolex.Address.{GlobalAddress}
use riiver_rolex.Layout.{leaf_num_max}
use riiver_rolex.Leaf.{LeafNode}
use riiver_rolex.Leaf.Order.{lookup}
use riiver_rolex.Leaf.Synonym.{IsPair}
use riiver_rolex.Cache.{RolexCache}
use riiver_rolex.Codec.{Codec, IsStorable}
use riiver_rolex.Alloc.{Allocator, IsSynAddress}
use riiver_rolex.Tree.{Dsm}
use riiver_rolex.Tree.Spec.{Node, items, ptr, leaf_address, IsHome, Linked, Represents}

-- The node `n` at leaf `i`.
abbrev pub put : (ℕ → Node) → ℕ → Node → ℕ → Node
put σ i n j = if j == i then n else σ j

pub put_self : (σ : ℕ → Node) (i : ℕ) (n : Node) → put σ i n i ≡ n
put_self σ i n = rw ((==_iff i i).1 refl)

pub put_ne : (σ : ℕ → Node) (i : ℕ) (n : Node) (j : ℕ) → j ≢ i → put σ i n j ≡ σ j
put_ne σ i n j ne = elim (Bool-cases (j == i)) [
  | inl e ↦ absurd (ne ((==_iff j i).0 e))
  | inr e ↦ rw e
]

leaf_address-inj : (i j : ℕ) → leaf_address i ≡ leaf_address j → i ≡ j
leaf_address-inj i j e = let f = ap (λ a. a.offset) e in omega arith

pub leaf_address-syn :
    (i : ℕ) (p : GlobalAddress) → i + 1 < leaf_num_max → IsSynAddress p → leaf_address i ≢ p
leaf_address-syn i p h q e = let f = ap (λ a. a.offset) e in let low = q.low in omega arith

pub Linked-syn :
    {Raw A : Type 0} (codec : Codec Raw) (s : Dsm Raw A) (l : LeafNode) (syn : Option LeafNode)
    → Linked codec s l syn
    → syn ≢ none
    → IsSynAddress l.metadata.synonym_ptr
Linked-syn codec s l none h ne = absurd (ne refl)
Linked-syn codec s l (some m) h ne = h.1

pub Linked-same :
    {Raw A : Type 0} (codec : Codec Raw) (s s' : Dsm Raw A) (l : LeafNode) (syn : Option LeafNode)
    → (syn ≢ none → s'.mem l.metadata.synonym_ptr ≡ s.mem l.metadata.synonym_ptr)
    → Linked codec s l syn
    → Linked codec s' l syn
Linked-same codec s s' l none same h = h
Linked-same codec s s' l (some m) same h = let e = same (λ n. cc) in (rw e h.0, h.1, h.2)

-- Where the synonym leaf lies depends on the pointer alone.
pub Linked-ptr :
    {Raw A : Type 0} (codec : Codec Raw) (s' : Dsm Raw A) (l l' : LeafNode) (m : Option LeafNode)
    → l.metadata.synonym_ptr ≡ l'.metadata.synonym_ptr
    → Linked codec s' l m
    → Linked codec s' l' m
Linked-ptr codec s' l l' none e h = sym e ∙ h
Linked-ptr codec s' l l' (some m) e h = (rw (← e) h.0, subst IsSynAddress e h.1, h.2)

module _ {Raw A : Type 0} (codec : Codec Raw) (al : Allocator A) (cache : RolexCache) where
  pub record Changed (s : Dsm Raw A) (σ : ℕ → Node) (i : ℕ) (s' : Dsm Raw A) (n : Node)
      : Type 0 where
    pub leaf_at : codec.decode (s'.mem (leaf_address i)) ≡ some n.leaf
    pub linked : Linked codec s' n.leaf n.syn
    pub sorted : IsPair n.leaf n.syn
    pub storable : IsStorable n.leaf
    pub homed : (q : ℕ) → lookup q (items n) ≢ none → IsHome cache q i
    pub others :
        (a : GlobalAddress) → a ≢ leaf_address i → (n.syn ≢ none → a ≢ ptr n) → s'.mem a ≡ s.mem a
    pub heap : (p : GlobalAddress) → al.Free s'.heap p → al.Free s.heap p
    pub apart : (j : ℕ) → j ≢ i → (σ j).syn ≢ none → n.syn ≢ none → ptr (σ j) ≢ ptr n
    pub unused : n.syn ≢ none → ¬ al.Free s'.heap (ptr n)
    pub unlocked : (a : GlobalAddress) → s'.lock a / 2 ^ 63 % 2 ≡ 0

  pub changed :
      {s : Dsm Raw A} {σ : ℕ → Node} {i : ℕ} {s' : Dsm Raw A} {n : Node}
      → i + 1 < leaf_num_max
      → Represents codec al cache s σ
      → Changed s σ i s' n
      → Represents codec al cache s' (put σ i n)
  changed {s} {σ} {i} {s'} {n} bound rep c = record {
    leaf_at = at_leaf;
    linked = at_syn;
    sorted = λ j. elim (ℕ_discrete j i) [
      | yes e ↦ rw (here j e) c.sorted
      | no ne ↦ rw (put_ne σ i n j ne) (rep.sorted j)
    ];
    storable = λ j. elim (ℕ_discrete j i) [
      | yes e ↦ rw (here j e) c.storable
      | no ne ↦ rw (put_ne σ i n j ne) (rep.storable j)
    ];
    homed = λ j q. elim (ℕ_discrete j i) [
      | yes e ↦ rw (here j e, e) (c.homed q)
      | no ne ↦ rw (put_ne σ i n j ne) (rep.homed j q)
    ];
    apart = apart;
    unused = λ j. elim (ℕ_discrete j i) [
      | yes e ↦ rw (here j e) c.unused
      | no ne ↦ rw (put_ne σ i n j ne) (λ t f. rep.unused j t (c.heap (ptr (σ j)) f))
    ];
    unlocked = c.unlocked;
  }
    where
      here : (j : ℕ) → j ≡ i → put σ i n j ≡ n
      here j e = rw e (put_self σ i n)

      at_leaf :
          (j : ℕ)
          → j + 1 < leaf_num_max
          → codec.decode (s'.mem (leaf_address j)) ≡ some (put σ i n j).leaf
      at_leaf j b = elim (ℕ_discrete j i) [
        | yes e ↦ rw (here j e, e) c.leaf_at
        | no ne ↦
            let same =
              c.others (leaf_address j) (λ e. ne (leaf_address-inj j i e))
                (λ t. leaf_address-syn j (ptr n) b (Linked-syn codec s' n.leaf n.syn c.linked t)) in
            rw (put_ne σ i n j ne, same) (rep.leaf_at j b)
      ]

      at_syn : (j : ℕ) → Linked codec s' (put σ i n j).leaf (put σ i n j).syn
      at_syn j = elim (ℕ_discrete j i) [
        | yes e ↦ rw (here j e) c.linked
        | no ne ↦ rw (put_ne σ i n j ne) (
            Linked-same codec s s' (σ j).leaf (σ j).syn
              (λ t.
                c.others (ptr (σ j))
                  (λ e.
                    leaf_address-syn i (ptr (σ j)) bound
                      (Linked-syn codec s (σ j).leaf (σ j).syn (rep.linked j) t) (sym e))
                  (c.apart j ne t))
              (rep.linked j))
      ]

      apart :
          (j m : ℕ)
          → j ≢ m
          → (put σ i n j).syn ≢ none
          → (put σ i n m).syn ≢ none
          → ptr (put σ i n j) ≢ ptr (put σ i n m)
      apart j m ne = elim (ℕ_discrete j i) [
        | yes e ↦
            let far : m ≢ i = λ f. ne (e ∙ sym f) in
            rw (here j e, put_ne σ i n m far) (λ a b q. c.apart m far b a (sym q))
        | no nj ↦ elim (ℕ_discrete m i) [
          | yes e ↦ rw (here m e, put_ne σ i n j nj) (c.apart j nj)
          | no nm ↦ rw (put_ne σ i n j nj, put_ne σ i n m nm) (rep.apart j m ne)
        ]
      ]
