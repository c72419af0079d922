-- ===== src/Key/Tests.antt =====
-- Keys and numbers on examples.
use riiver_rolex.Base.{◌+◌, ◌-◌, ◌%◌, ◌^◌, ◌≡◌, refl, [], ◌∷◌, arith, ltb}
use riiver_rolex.Key.{Key, IsKey, add_one, add, sub, key2int, int2key, key_lt}
use riiver_rolex.Key.Order.{
  add_one_lem, add_lem, sub_lem, key2int-int2key, int2key-key2int, key_lt_lem,
}

-- 511 and 512
abbrev small : Key
small = 0 ∷ 0 ∷ 0 ∷ 0 ∷ 0 ∷ 0 ∷ 1 ∷ 255 ∷ []

abbrev large : Key
large = 0 ∷ 0 ∷ 0 ∷ 0 ∷ 0 ∷ 0 ∷ 2 ∷ 0 ∷ []

bytes_small : IsKey small
bytes_small = record {
  size = refl;
  bytes = (
    omega arith,
    (
      omega arith,
      (omega arith, (omega arith, (omega arith, (omega arith, (omega arith, (omega arith, tt)))))),
    ),
  );
}

bytes_large : IsKey large
bytes_large = record {
  size = refl;
  bytes = (
    omega arith,
    (
      omega arith,
      (omega arith, (omega arith, (omega arith, (omega arith, (omega arith, (omega arith, tt)))))),
    ),
  );
}

numbers : key2int small ≡ 511
unfolding key2int
numbers = refl

add_one_lem_example :
    (key2int (add_one small) ≡ (key2int small + 1) % 2 ^ 64) × IsKey (add_one small)
add_one_lem_example = add_one_lem small bytes_small

add_lem_example : (key2int (add small 200) ≡ (key2int small + 200) % 2 ^ 64) × IsKey (add small 200)
add_lem_example = add_lem small 200 bytes_small (omega arith)

sub_lem_example :
    (key2int (sub large 9) ≡ (key2int large + 2 ^ 64 - 9) % 2 ^ 64) × IsKey (sub large 9)
sub_lem_example = sub_lem large 9 bytes_large (omega arith)

key2int-int2key_example : key2int (int2key 511) ≡ 511
key2int-int2key_example = key2int-int2key 511 (omega arith)

int2key-key2int_example : int2key (key2int small) ≡ small
int2key-key2int_example = int2key-key2int small bytes_small (λ e. absurd (omega (arith, numbers)))

key_lt_lem_example : key_lt small large ≡ ltb (key2int small) (key2int large)
key_lt_lem_example = key_lt_lem small large bytes_small bytes_large
