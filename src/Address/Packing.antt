-- ===== src/Address/Packing.antt =====
-- Addresses as words.
use riiver_rolex.Base.{ℕ, ◌+◌, ◌-◌, ◌*◌, ◌/◌, ◌%◌, ◌^◌, ◌≤◌, ◌<◌, ◌≡◌, refl, arith}
use riiver_rolex.Base.Int.{ℤ, pos, pos_part, neg_part, ◌+ℤ◌, ◌-ℤ◌, +ℤ_parts, -ℤ_parts}
use riiver_rolex.Address.{
  GlobalAddress, word_of, to_uint64, of_uint64, add, sub, pack, unpack, packed_of_uint64,
  packed_to_uint64,
}

-- The fields fit their widths.
pub record FitsAddress (a : GlobalAddress) : Type 0 where
  pub node_id : a.node_id < 2 ^ 16
  pub offset : a.offset < 2 ^ 48

-- An address whose fields fit survives the way to a 64-bit word and back.
pub of_uint64-to_uint64 : (a : GlobalAddress) → FitsAddress a → of_uint64 (to_uint64 a) ≡ a
unfolding of_uint64 to_uint64
of_uint64-to_uint64 a h =
    let n : (a.node_id + a.offset * 2 ^ 16) % 2 ^ 16 ≡ a.node_id =
      let p = h.node_id in omega arith in
    let o : (a.node_id + a.offset * 2 ^ 16) / 2 ^ 16 % 2 ^ 48 ≡ a.offset =
      let p = h.node_id in let q = h.offset in omega arith in
    rw (n, o)

-- Packing loses nothing of an address at a multiple of 256 on one of the first 256 nodes, and the
-- packed address survives the way to a word and back.
pub unpack-pack :
    (a : GlobalAddress)
    → FitsAddress a
    → a.node_id < 2 ^ 8
    → a.offset % 2 ^ 8 ≡ 0
    → unpack (packed_of_uint64 (packed_to_uint64 (pack a))) ≡ a
unfolding unpack packed_of_uint64 packed_to_uint64 pack
unpack-pack a h small aligned =
    let q = h.offset in
    let n : (a.offset / 2 ^ 8 % 2 ^ 40 * 2 ^ 8 + a.node_id % 2 ^ 8) % 2 ^ 8 ≡ a.node_id =
      omega arith in
    let o : (a.offset / 2 ^ 8 % 2 ^ 40 * 2 ^ 8 + a.node_id % 2 ^ 8)
          / 2 ^ 8
          % 2 ^ 40
          * 2 ^ 8
          % 2 ^ 48
        ≡ a.offset =
      omega arith in
    rw (n, o)

-- From an address whose offset fits, operator+ and operator- of a 32-bit int, which may be negative, lead
-- to the address on the same node whose offset is the sum or the difference of the integers, where that
-- is an offset that fits. Whether it is or not, each of the two takes back the other.
pub sub-add :
    (a : GlobalAddress) (b : ℤ)
    → FitsAddress a
    → pos_part b < 2 ^ 31
    → neg_part b ≤ 2 ^ 31
    → ((o : ℕ) → o < 2 ^ 48 → pos a.offset +ℤ b ≡ pos o → add a b ≡ record a { offset = o })
      × ((o : ℕ) → o < 2 ^ 48 → pos a.offset -ℤ b ≡ pos o → sub a b ≡ record a { offset = o })
      × (sub (add a b) b ≡ a)
      × (add (sub a b) b ≡ a)
unfolding sub add
sub-add a b h up down = (
  (λ o lt e.
      let p = rw e at (+ℤ_parts (pos a.offset) b) in
      let f : (a.offset + word_of b) % 2 ^ 64 % 2 ^ 48 ≡ o = omega arith in rw f refl),
  (λ o lt e.
      let p = rw e at (-ℤ_parts (pos a.offset) b) in
      let f : (a.offset + (2 ^ 64 - word_of b)) % 2 ^ 64 % 2 ^ 48 ≡ o = omega arith in rw f refl),
  (let q = h.offset in
      let f : ((a.offset + word_of b) % 2 ^ 64 % 2 ^ 48 + (2 ^ 64 - word_of b)) % 2 ^ 64 % 2 ^ 48
          ≡ a.offset =
        omega arith in
      rw f refl),
  (let q = h.offset in
      let f : ((a.offset + (2 ^ 64 - word_of b)) % 2 ^ 64 % 2 ^ 48 + word_of b) % 2 ^ 64 % 2 ^ 48
          ≡ a.offset =
        omega arith in
      rw f refl),
)
