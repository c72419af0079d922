-- ===== src/Key.antt =====
-- include/Key.h: keys as arrays of bytes, most significant byte first, and their numbers.
pub mod Order
pub mod Digits
mod Tests
use mathlib.Core.List.{reverse}
use riiver_rolex.Base.{
  ℕ, zero, suc, ◌+◌, ◌-◌, ◌*◌, ◌/◌, ◌%◌, ◌^◌, ◌≤◌, ◌<◌, min, max, ◌≡◌, refl, sym, ap, ◌∙◌, ◌≢◌, ◌↔◌,
  ◌⊎◌, inl, inr, Bool, true, false, not, ◌&&◌, ◌||◌, Option, none, some, List, [], ◌∷◌, ◌++◌, map,
  arith, ltb, leb, ◌==◌, if◌then◌else◌, Bool-cases, Option-cases, length, get_elem?, set, get_or,
  take, drop, replicate, length-append, length-set, length-take, length-drop, length-replicate,
  length-map, ==_iff, dec_lt, ℕ_discrete, get_elem?-set_self, get_elem?-set_ne, take-append-drop,
  ltb→lt, lt→ltb,
}

-- `Key` and `Prefix`: the bytes
abbrev pub Key : Type 0
Key = List ℕ

-- `define::keyLen`
abbrev pub key_len : ℕ
key_len = 8

abbrev pub AllBytes : List ℕ → Type 0
AllBytes [] = Unit
AllBytes (b ∷ bs) = (b < 2 ^ 8) × AllBytes bs

pub record IsKey (k : Key) : Type 0 where
  pub size : length k ≡ key_len
  pub bytes : AllBytes k

abbrev pub get_partial : Key → ℕ → ℕ
get_partial k zero = 0
get_partial k (suc depth) = get_or k depth 0

-- The first `depth` bytes of the key, then zeros.
unfoldable pub get_leftmost : Key → ℕ → Key
get_leftmost k depth = take depth k ++ replicate (key_len - depth) 0

unfoldable pub get_rightmost : Key → ℕ → Key
get_rightmost k depth = take depth k ++ replicate (key_len - depth) (2 ^ 8 - 1)

unfoldable pub prefix_leftmost : List ℕ → Key
prefix_leftmost prefix = prefix ++ replicate (key_len - length prefix) 0

unfoldable pub prefix_rightmost : List ℕ → Key
prefix_rightmost prefix = prefix ++ replicate (key_len - length prefix) (2 ^ 8 - 1)

unfoldable pub remake_prefix : Key → ℕ → ℕ → Key
remake_prefix k zero diff_partial = replicate key_len 0
remake_prefix k (suc d) diff_partial = take d k ++ diff_partial ∷ replicate (key_len - suc d) 0

-- The loop of `longest_common_prefix`; the second number counts the rounds that are left.
unfoldable pub common_from : Key → Key → ℕ → ℕ → ℕ
common_from k1 k2 at zero = 0
common_from k1 k2 at (suc n) =
    let rest = suc (common_from k1 k2 (suc at) n) in
    if get_partial k1 at == get_partial k2 at then rest else 0

-- `none` where the assertion fails
unfoldable pub longest_common_prefix : Key → Key → ℕ → Option ℕ
unfolding common_from
longest_common_prefix k1 k2 depth =
    if leb depth key_len then some (common_from k1 k2 depth (key_len - depth + 1)) else none

-- The loops of `add_one`, `operator+` and `operator-` go from the last byte to the first: they are
-- recursions over the reversed bytes.
unfoldable pub add_one_from : List ℕ → List ℕ
add_one_from [] = []
add_one_from (p ∷ ps) =
    let rest = 0 ∷ add_one_from ps in if ltb (p + 1) (2 ^ 8) then (p + 1) ∷ ps else rest

unfoldable pub add_one : Key → Key
add_one a = reverse (add_one_from (reverse a))

unfoldable pub add_from : ℕ → List ℕ → List ℕ
add_from b [] = []
add_from b (p ∷ ps) =
    let rest = ((p + b) % 2 ^ 8) ∷ add_from ((p + b) / 2 ^ 8) ps in
    if ltb (p + b) (2 ^ 8) then (p + b) ∷ ps else rest

-- `operator+`
unfoldable pub add : Key → ℕ → Key
add a b = reverse (add_from b (reverse a))

-- `while (tmp < b) tmp += (1 << 8), carry++;` with fuel; the carry
unfoldable pub borrow : ℕ → ℕ → ℕ → ℕ
borrow zero tmp b = 0
borrow (suc fuel) tmp b =
    let rest = suc (borrow fuel (tmp + 2 ^ 8) b) in if ltb tmp b then rest else 0

-- The loop above ends after `b` rounds at most.
unfoldable pub sub_from : ℕ → List ℕ → List ℕ
sub_from b [] = []
sub_from b (p ∷ ps) =
    let carry = borrow b p b in
    let rest = (p + carry * 2 ^ 8 - b) ∷ sub_from carry ps in if leb b p then (p - b) ∷ ps else rest

-- `operator-`
unfoldable pub sub : Key → ℕ → Key
sub a b = reverse (sub_from b (reverse a))

unfoldable pub key2int_from : ℕ → List ℕ → ℕ
key2int_from res [] = res
key2int_from res (a ∷ as') = key2int_from ((res * 2 ^ 8 + a) % 2 ^ 64) as'

unfoldable pub key2int : Key → ℕ
unfolding key2int_from
key2int k = key2int_from 0 k

-- The last `n` bytes of the number.
unfoldable pub int2key_from : ℕ → ℕ → Key
int2key_from key zero = []
int2key_from key (suc n) = (key / 2 ^ (n * 8) % 2 ^ 8) ∷ int2key_from key n

-- KEY_SPACE_LIMIT is not defined; `kKeyMin` is 1.
unfoldable pub int2key : ℕ → Key
unfolding int2key_from
int2key key = int2key_from (if key == 0 then 1 else key) key_len

-- the bytes of the string
unfoldable pub str2key : List ℕ → Key
str2key key = take key_len key ++ replicate (key_len - length key) 0

abbrev pub key2fp : Key → ℕ
key2fp k = (get_or k 7 0 * 2 ^ 8 + get_or k 6 0) % 2 ^ 16

unfoldable pub key2int128_from : ℕ → List ℕ → ℕ
key2int128_from res [] = res
key2int128_from res (a ∷ as') = key2int128_from ((res * 2 ^ 8 + a) % 2 ^ 128) as'

unfoldable pub key2int128 : Key → ℕ
unfolding key2int128_from
key2int128 k = key2int128_from 0 (take 16 k)

-- `operator<` of `std::array`, which compares lexicographically
unfoldable pub key_lt : Key → Key → Bool
key_lt [] [] = false
key_lt [] (b ∷ bs) = true
key_lt (a ∷ as') [] = false
key_lt (a ∷ as') (b ∷ bs) =
    let rest = key_lt as' bs in if ltb a b then true else if ltb b a then false else rest
