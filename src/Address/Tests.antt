-- ===== src/Address/Tests.antt =====
-- Addresses and words on examples.
use riiver_rolex.Base.{ℕ, ◌^◌, ◌<◌, ◌≡◌, refl, arith}
use riiver_rolex.Base.Int.{ℤ, pos, negsuc, ◌+ℤ◌, ◌-ℤ◌}
use riiver_rolex.Address.{
  GlobalAddress, to_uint64, of_uint64, add, sub, pack, unpack, packed_of_uint64, packed_to_uint64,
}
use riiver_rolex.Address.Packing.{FitsAddress, of_uint64-to_uint64, unpack-pack, sub-add}

abbrev far : GlobalAddress
far = record { node_id = 3; offset = 512 }

far-FitsAddress : FitsAddress far
far-FitsAddress = record { node_id = omega arith; offset = omega arith }

of_uint64-to_uint64_example : of_uint64 (to_uint64 far) ≡ far
of_uint64-to_uint64_example = of_uint64-to_uint64 far far-FitsAddress

unpack-pack_example : unpack (packed_of_uint64 (packed_to_uint64 (pack far))) ≡ far
unpack-pack_example = unpack-pack far far-FitsAddress (omega arith) (omega arith)

-- Backwards by 304, as far as the int says.
abbrev back : ℤ
back = negsuc 303

sub-add_example :
    ((o : ℕ) → o < 2 ^ 48 → pos 512 +ℤ back ≡ pos o → add far back ≡ record far { offset = o })
    × ((o : ℕ) → o < 2 ^ 48 → pos 512 -ℤ back ≡ pos o → sub far back ≡ record far { offset = o })
    × (sub (add far back) back ≡ far)
    × (add (sub far back) back ≡ far)
sub-add_example = sub-add far back far-FitsAddress (omega arith) (omega arith)

backwards : add far back ≡ record far { offset = 208 }
unfolding add
backwards = refl
