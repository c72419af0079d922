-- ===== src/Address.antt =====
-- include/GlobalAddress.h, and the packed addresses of include/Metadata.h.
pub mod Packing
mod Tests
use riiver_rolex.Base.{
  ℕ, zero, suc, ◌+◌, ◌-◌, ◌*◌, ◌/◌, ◌%◌, ◌^◌, ◌≤◌, ◌<◌, min, max, ◌≡◌, refl, sym, ap, ◌∙◌, ◌≢◌, ◌↔◌,
  ◌⊎◌, inl, inr, Bool, true, false, not, ◌&&◌, ◌||◌, Option, none, some, List, [], ◌∷◌, ◌++◌, map,
  arith, ltb, leb, ◌==◌, if◌then◌else◌, Bool-cases, Option-cases, length, get_elem?, set, get_or,
  take, drop, replicate, length-append, length-set, length-take, length-drop, length-replicate,
  length-map, ==_iff, dec_lt, ℕ_discrete, get_elem?-set_self, get_elem?-set_ne, take-append-drop,
  ltb→lt, lt→ltb,
}
use riiver_rolex.Base.Int.{ℤ, pos_part, neg_part}

pub record GlobalAddress : Type 0 where
  pub node_id : ℕ  -- 16 bits
  pub offset : ℕ  -- 48 bits

-- `GlobalAddress::Null()`
abbrev pub null_addr : GlobalAddress
null_addr = record { node_id = 0; offset = 0 }

-- `GlobalAddress::Max()`, where MEMORY_NODE_NUM is 1
abbrev pub max_addr : GlobalAddress
max_addr = record { node_id = 1; offset = 0 }

-- `operator==`
abbrev pub addr_eq : GlobalAddress → GlobalAddress → Bool
addr_eq a b = (a.node_id == b.node_id) && (a.offset == b.offset)

pub addr_eq_iff : (a b : GlobalAddress) → (addr_eq a b ≡ true) ↔ (a ≡ b)
addr_eq_iff a b = ground arith

pub addr_eq_ne : (a b : GlobalAddress) → a ≢ b → addr_eq a b ≡ false
addr_eq_ne a b h = elim (Bool-cases (addr_eq a b)) [
  | inl e ↦ absurd (h ((addr_eq_iff a b).0 e))
  | inr e ↦ e
]

pub addr_eq_self : (a : GlobalAddress) → addr_eq a a ≡ true
addr_eq_self a = (addr_eq_iff a a).1 refl

-- `to_uint64`: the node is in the low 16 bits.
unfoldable pub to_uint64 : GlobalAddress → ℕ
to_uint64 a = a.node_id + a.offset * 2 ^ 16

-- `GlobalAddress(uint64_t val)`
unfoldable pub of_uint64 : ℕ → GlobalAddress
of_uint64 val = record { node_id = val % 2 ^ 16; offset = val / 2 ^ 16 % 2 ^ 48 }

-- `GlobalAddress::Widest()`
abbrev pub widest : GlobalAddress
widest = record { node_id = 2 ^ 16 - 1; offset = 2 ^ 48 - 1 }

-- An `int` as the 64-bit word that it is converted to.
abbrev pub word_of : ℤ → ℕ
word_of b = (pos_part b + (2 ^ 64 - neg_part b % 2 ^ 64)) % 2 ^ 64

-- `operator+` and `operator-`: the offset keeps the low 48 bits of the word.
unfoldable pub add : GlobalAddress → ℤ → GlobalAddress
add a b = record a { offset = (a.offset + word_of b) % 2 ^ 64 % 2 ^ 48 }

unfoldable pub sub : GlobalAddress → ℤ → GlobalAddress
sub a b = record a { offset = (a.offset + (2 ^ 64 - word_of b)) % 2 ^ 64 % 2 ^ 48 }

-- `operator<`, on the pairs
unfoldable pub addr_lt : GlobalAddress → GlobalAddress → Bool
addr_lt a b = ltb a.node_id b.node_id || not (ltb b.node_id a.node_id) && ltb a.offset b.offset

-- `PackedGAddr`
pub record PackedGAddr : Type 0 where
  pub mn_id : ℕ  -- 8 bits
  pub offset : ℕ  -- 40 bits

unfoldable pub pack : GlobalAddress → PackedGAddr
pack a = record { mn_id = a.node_id % 2 ^ 8; offset = a.offset / 2 ^ 8 % 2 ^ 40 }

unfoldable pub unpack : PackedGAddr → GlobalAddress
unpack p = record { node_id = p.mn_id; offset = p.offset * 2 ^ 8 % 2 ^ 48 }

-- `PackedGAddr(uint64_t val)` and `operator uint64_t`
unfoldable pub packed_of_uint64 : ℕ → PackedGAddr
packed_of_uint64 val = record { mn_id = val % 2 ^ 8; offset = val / 2 ^ 8 % 2 ^ 40 }

unfoldable pub packed_to_uint64 : PackedGAddr → ℕ
packed_to_uint64 p = p.offset * 2 ^ 8 + p.mn_id
