-- ===== src/Tree/Tests.antt =====
-- The operations on a memory with one full leaf.
use riiver_rolex.Base.{
  ℕ, zero, suc, ◌≤◌, ◌<◌, ◌⊎◌, ◌∷◌, ◌≡◌, refl, ap, ◌≢◌, inr, Option, none, some, List, [], arith,
  if◌then◌else◌,
}
use riiver_rolex.Address.{addr_eq}
use riiver_rolex.Leaf.{LeafNode, new_leaf, null_entry}
use riiver_rolex.Leaf.Order.{live, lookup, Increasing, lookup_nil}
use riiver_rolex.Leaf.Synonym.{IsPair}
use riiver_rolex.Leaf.Tests.{fits_of, full_leaf, full_leaf-IsPair, full_leaf-IsStorable}
use riiver_rolex.Cache.{
  RolexCache, InsertRange, search_from_cache, search_from_cache_for_insert, search_range_from_cache,
}
use riiver_rolex.Codec.{Codec, FitsEntry, IsStorable, increment_node_versions}
use riiver_rolex.Chunk.{Pool, new_pool}
use riiver_rolex.Chunk.Region.{new_pool-IsPool}
use riiver_rolex.Chunk.Leaves.{leaf_allocator}
use riiver_rolex.Tree.{Dsm, range_query, insert, search, update}
use riiver_rolex.Tree.Spec.{Node, items, leaf_address, IsHome, Linked, Represents}
use riiver_rolex.Tree.Search.{search_lem}
use riiver_rolex.Tree.Range.{range_query_lem}
use riiver_rolex.Tree.Outcome.{Done}
use riiver_rolex.Tree.Insert.{insert_lem}
use riiver_rolex.Tree.Written.{Updated}
use riiver_rolex.Tree.Update.{update_lem}
use riiver_rolex.Tree.Refine.{search-insert}

-- A node as its own image, whose versions move on when it is written.
abbrev codec : Codec LeafNode
codec = record {
  encode = increment_node_versions;
  decode = λ l. some l;
  decode-encode = λ l h. refl;
}

-- One model, which predicts leaf 0.
abbrev cache : RolexCache
cache = record {
  get_leaf_range = λ k. record { l = 0; r = 0; leaf_idx_offset = 0; capacity_offset = 0 };
  int_keys = [];
}

abbrev at_zero : {X : Type 0} → X → X → ℕ → X
at_zero a b zero = a
at_zero a b (suc i) = b

abbrev memory : Dsm LeafNode Pool
memory = record {
  mem = λ a. if addr_eq a (leaf_address 0) then full_leaf else new_leaf;
  lock = λ a. 0;
  heap = new_pool;
}

abbrev leaves : ℕ → Node
leaves = at_zero (record { leaf = full_leaf; syn = none }) (record { leaf = new_leaf; syn = none })

abbrev range : InsertRange
range = record { first = 0; last = 0; insert_idx = 0 }

new_leaf-IsPair : IsPair new_leaf none
unfolding live
new_leaf-IsPair = record {
  leaf = record {
    size = refl;
    ordered = inr (
      omega arith,
      (
        omega arith,
        (
          omega arith,
          (
            omega arith,
            (
              omega arith,
              (
                omega arith,
                (
                  omega arith,
                  (
                    omega arith,
                    (
                      omega arith,
                      (
                        omega arith,
                        (
                          omega arith,
                          (
                            omega arith,
                            (omega arith, (omega arith, (omega arith, (omega arith, tt)))),
                          ),
                        ),
                      ),
                    ),
                  ),
                ),
              ),
            ),
          ),
        ),
      ),
    );
  };
  synonym = tt;
  increasing = tt;
}

null_fits : FitsEntry null_entry
null_fits = fits_of 0 0 (omega arith) (omega arith)

new_leaf-IsStorable : IsStorable new_leaf
new_leaf-IsStorable = record {
  size = refl;
  version = record { node = omega arith; entry = omega arith };
  node_id = omega arith;
  offset = omega arith;
  entries = (
    null_fits,
    (
      null_fits,
      (
        null_fits,
        (
          null_fits,
          (
            null_fits,
            (
              null_fits,
              (
                null_fits,
                (
                  null_fits,
                  (
                    null_fits,
                    (
                      null_fits,
                      (
                        null_fits,
                        (null_fits, (null_fits, (null_fits, (null_fits, (null_fits, tt))))),
                      ),
                    ),
                  ),
                ),
              ),
            ),
          ),
        ),
      ),
    ),
  );
}

leaf_at : (i : ℕ) → memory.mem (leaf_address i) ≡ (leaves i).leaf
leaf_at zero = refl
leaf_at (suc i) = ground arith

nothing : (q : ℕ) → lookup q (items (leaves 1)) ≡ none
unfolding live
nothing q = lookup_nil q

home : (q : ℕ) → IsHome cache q 0
unfolding search_from_cache_for_insert
home q = (range, refl, refl)

by_zero : (P : Node → Type 0) → P (leaves 0) → P (leaves 1) → (i : ℕ) → P (leaves i)
by_zero P a b zero = a
by_zero P a b (suc i) = b

homed : (i q : ℕ) → lookup q (items (leaves i)) ≢ none → IsHome cache q i
homed zero q ne = home q
homed (suc i) q ne = absurd (ne (nothing q))

no_syn : (i : ℕ) → (leaves i).syn ≡ none
no_syn = by_zero (λ n. n.syn ≡ none) refl refl

represented : Represents codec (leaf_allocator 0) cache memory leaves
represented = record {
  leaf_at = λ i h. ap some (leaf_at i);
  linked = by_zero (λ n. Linked codec memory n.leaf n.syn) refl refl;
  sorted = by_zero (λ n. IsPair n.leaf n.syn) full_leaf-IsPair new_leaf-IsPair;
  storable = by_zero (λ n. IsStorable n.leaf) full_leaf-IsStorable new_leaf-IsStorable;
  homed = homed;
  apart = λ i j ne a. absurd (a (no_syn i));
  unused = λ i a. absurd (a (no_syn i));
  unlocked = λ a. omega arith;
}

space : (leaf_allocator 0).CanAlloc memory.heap
unfolding leaf_allocator
space = (new_pool-IsPool, omega arith)

search_lem_example : search codec cache memory 6 ≡ some (lookup 6 (items (leaves 0)))
unfolding search_from_cache
search_lem_example =
    search_lem codec (leaf_allocator 0) cache represented 6 0 (omega arith) (home 6) (omega arith)

home_7 : search_from_cache_for_insert cache 7 ≡ some range
unfolding search_from_cache_for_insert
home_7 = refl

insert_lem_example :
    (s' : Dsm LeafNode Pool) × (insert codec cache (leaf_allocator 0).alloc memory 7 70 ≡ some s')
    × Done codec (leaf_allocator 0) cache memory leaves 7 70 0 s'
insert_lem_example =
    insert_lem codec (leaf_allocator 0) cache represented 7 70 range home_7 (omega arith) space tt
      (omega arith) (omega arith) (omega arith)

search-insert_example :
    (s' : Dsm LeafNode Pool) × (old : Option ℕ) × (insert codec cache
        (leaf_allocator 0).alloc
        memory
        7
        70
      ≡ some s')
    × (search codec cache memory 32 ≡ some old)
    × (search codec cache s' 32 ≡ some old)
unfolding search_from_cache
search-insert_example =
    search-insert codec (leaf_allocator 0) cache represented 7 70 range home_7 (omega arith) space
      tt (omega arith) (omega arith) (omega arith) 32 0 (omega arith) (home 32) (omega arith)

update_lem_example :
    (s' : Dsm LeafNode Pool) × (update codec cache memory 6 99 ≡ some s')
    × Updated codec (leaf_allocator 0) cache memory leaves 6 99 0 s'
unfolding search_from_cache
update_lem_example =
    update_lem codec (leaf_allocator 0) cache represented 6 99 0 (omega arith) (omega arith)
      (home 6) (omega arith) (omega arith)

range_query_lem_example :
    (ret : List (ℕ × ℕ)) × (range_query codec cache memory 3 9 ((1, 5) ∷ []) ≡ some ret)
    × Increasing 0 ret
    × ((q i v : ℕ)
        → 3 ≤ q
        → q < 9
        → 0 ≤ i
        → i ≤ 0
        → lookup q (items (leaves i)) ≡ some v
        → lookup q ret ≡ some v)
    × ((q : ℕ)
        → q < 3 ⊎ 9 ≤ q ⊎ ((i : ℕ) → 0 ≤ i → i ≤ 0 → lookup q (items (leaves i)) ≡ none)
        → lookup q ret ≡ lookup q ((1, 5) ∷ []))
unfolding search_range_from_cache
range_query_lem_example =
    range_query_lem codec (leaf_allocator 0) cache represented 3 9 ((1, 5) ∷ []) (omega arith, tt)
      (omega arith) (omega arith)
