-- ===== src/Layout/Regions.antt =====
-- Where the leaves, their lock words and the synonym region lie.
use riiver_rolex.Base.{ℕ, ◌+◌, ◌*◌, ◌≤◌, ◌<◌, ◌≡◌, refl, some, arith}
use riiver_rolex.Address.{GlobalAddress}
use riiver_rolex.Layout.{
  get_leaf_address, leaf_stride, leaf_num_max, allocation_leaf_size, syn_region_offset,
  get_lock_info, leaf_region_start_offset, trans_leaf_size,
}

sizes :
    (◌≡◌ {A = ℕ} trans_leaf_size 285)
    × (◌≡◌ {A = ℕ} allocation_leaf_size 301)
    × (◌≡◌ {A = ℕ} get_lock_info 288)
    × (◌≡◌ {A = ℕ} leaf_stride 304)
sizes = (refl, refl, refl, refl)

-- An address that the assertion lets through.
pub record IsLeafAddress (i : ℕ) (a : GlobalAddress) : Type 0 where
  pub home : a.node_id ≡ 0
  pub at : a.offset ≡ leaf_region_start_offset + i * leaf_stride
  pub inside : a.offset + leaf_stride ≤ syn_region_offset

pub get_leaf_address-some :
    (i : ℕ) (a : GlobalAddress) → get_leaf_address i ≡ some a → IsLeafAddress i a
unfolding get_leaf_address
get_leaf_address-some i a e = record {
  home = ground arith;
  at = ground arith;
  inside = ground arith;
}

-- Every leaf index but the last of the region has an address.
pub get_leaf_address-total :
    (i : ℕ) → i + 1 < leaf_num_max → (a : GlobalAddress) × (get_leaf_address i ≡ some a)
unfolding get_leaf_address
get_leaf_address-total i h =
    (record { node_id = 0; offset = leaf_region_start_offset + i * leaf_stride }, ground arith)

-- Two leaves with different indices that have addresses do not overlap: the one with the lower
-- index ends, with its lock word, before the other starts.
pub leaves_apart :
    (i j : ℕ) (a b : GlobalAddress)
    → i < j
    → get_leaf_address i ≡ some a
    → get_leaf_address j ≡ some b
    → (a.offset + get_lock_info + 8 ≤ b.offset) × (a.offset + allocation_leaf_size ≤ b.offset)
leaves_apart i j a b h ea eb =
    let p = get_leaf_address-some i a ea in
    let q = get_leaf_address-some j b eb in (omega arith, omega arith)
