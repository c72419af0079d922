-- ===== src/Layout/Tests.antt =====
-- The first leaves of the region.
use riiver_rolex.Base.{◌+◌, ◌≤◌, ◌≡◌, refl, some, arith}
use riiver_rolex.Address.{GlobalAddress}
use riiver_rolex.Layout.{
  get_leaf_address, leaf_region_start_offset, leaf_stride, get_lock_info, allocation_leaf_size,
}
use riiver_rolex.Layout.Regions.{leaves_apart, get_leaf_address-total}

abbrev leaf_0 : GlobalAddress
leaf_0 = record { node_id = 0; offset = leaf_region_start_offset }

abbrev leaf_1 : GlobalAddress
leaf_1 = record { node_id = 0; offset = leaf_region_start_offset + leaf_stride }

address_0 : get_leaf_address 0 ≡ some leaf_0
unfolding get_leaf_address
address_0 = refl

address_1 : get_leaf_address 1 ≡ some leaf_1
unfolding get_leaf_address
address_1 = refl

leaves_apart_example :
    (leaf_0.offset + get_lock_info + 8 ≤ leaf_1.offset)
    × (leaf_0.offset + allocation_leaf_size ≤ leaf_1.offset)
leaves_apart_example = leaves_apart 0 1 leaf_0 leaf_1 (omega arith) address_0 address_1

get_leaf_address-total_example : (a : GlobalAddress) × (get_leaf_address 1000 ≡ some a)
get_leaf_address-total_example = get_leaf_address-total 1000 (omega arith)
