-- ===== src/Key/Order.antt =====
-- Keys as numbers: `key2int` and `int2key` are inverse to each other, the comparison of keys is that
-- of their numbers, and the arithmetic on keys is that of their numbers.
use mathlib.Core.List.{reverse, reverse-reverse}
use riiver_rolex.Base.{
  ℕ, ◌+◌, ◌-◌, ◌*◌, ◌/◌, ◌%◌, ◌^◌, ◌≤◌, ◌<◌, ◌≡◌, refl, sym, ap, ◌∙◌, ◌≢◌, inl, inr, List, [], ◌∷◌,
  arith, ltb, ◌==◌, if◌then◌else◌, Bool-cases, length, lt→ltb,
}
use riiver_rolex.Key.{
  Key, IsKey, AllBytes, add_one_from, add_from, sub_from, add_one, add, sub, key2int, int2key_from,
  int2key, key_lt,
}
use riiver_rolex.Key.Digits.{value, carried, Moved, add_one_from_lem, add_from_lem, sub_from_lem}

-- The bytes of a key.
abbrev pub bytes_of : ℕ → ℕ → ℕ → ℕ → ℕ → ℕ → ℕ → ℕ → Key
bytes_of a b c d e f g h = a ∷ b ∷ c ∷ d ∷ e ∷ f ∷ g ∷ h ∷ []

data Eight : Key → Type 0 where
  eight :
      {a b c d e f g h : ℕ}
      → a < 256
      → b < 256
      → c < 256
      → d < 256
      → e < 256
      → f < 256
      → g < 256
      → h < 256
      → Eight (bytes_of a b c d e f g h)

bytes-Eight : (k : Key) → length k ≡ 8 → AllBytes k → Eight k
bytes-Eight (a ∷ b ∷ c ∷ d ∷ e ∷ f ∷ g ∷ h ∷ []) n p =
    eight p.0 p.1.0 p.1.1.0 p.1.1.1.0 p.1.1.1.1.0 p.1.1.1.1.1.0 p.1.1.1.1.1.1.0 p.1.1.1.1.1.1.1.0
bytes-Eight [] n p = absurd (omega arith)
bytes-Eight (a ∷ []) n p = absurd (omega arith)
bytes-Eight (a ∷ b ∷ []) n p = absurd (omega arith)
bytes-Eight (a ∷ b ∷ c ∷ []) n p = absurd (omega arith)
bytes-Eight (a ∷ b ∷ c ∷ d ∷ []) n p = absurd (omega arith)
bytes-Eight (a ∷ b ∷ c ∷ d ∷ e ∷ []) n p = absurd (omega arith)
bytes-Eight (a ∷ b ∷ c ∷ d ∷ e ∷ f ∷ []) n p = absurd (omega arith)
bytes-Eight (a ∷ b ∷ c ∷ d ∷ e ∷ f ∷ g ∷ []) n p = absurd (omega arith)
bytes-Eight (a ∷ b ∷ c ∷ d ∷ e ∷ f ∷ g ∷ h ∷ i ∷ r) n p = absurd (omega arith)

shifted_in : (res a : ℕ) → res < 2 ^ 56 → a < 256 → (res * 2 ^ 8 + a) % 2 ^ 64 ≡ res * 256 + a
shifted_in res a p q = omega arith

-- The number of a key is that of its digits.
key2int-value : {k : Key} → Eight k → (key2int k ≡ value (reverse k)) × (key2int k < 2 ^ 64)
unfolding key2int
key2int-value (eight {a} {b} {c} {d} {e} {f} {g} {h} pa pb pc pd pe pf pg ph) =
    (omega arith, omega arith)

reverse-Eight : {k : Key} → Eight k → Eight (reverse k)
reverse-Eight (eight a b c d e f g h) = eight h g f e d c b a

Eight-AllBytes : {k : Key} → Eight k → AllBytes k × (length k ≡ 8)
Eight-AllBytes (eight a b c d e f g h) = ((a, (b, (c, (d, (e, (f, (g, (h, tt)))))))), refl)

carried_digits : {k : Key} → Eight k → (n : ℕ) → carried k n ≡ 2 ^ 64 * n
carried_digits (eight a b c d e f g h) n = omega arith

-- A loop over the digits of a key is arithmetic on its number, modulo 2 ^ 64.
moved :
    (k : Key) (cs : List ℕ) (up down : ℕ)
    → Eight k
    → Moved (reverse k) cs up down
    → down ≤ 2 ^ 64
    → (key2int (reverse cs) ≡ (key2int k + up + 2 ^ 64 - down) % 2 ^ 64) × Eight (reverse cs)
moved k cs up down p m le =
    let r = reverse-Eight p in
    let q = bytes-Eight cs (m.size ∙ (Eight-AllBytes r).1) m.bytes in
    let n = m.number in
    let o = carried_digits r m.over in
    let u = carried_digits r m.under in
    let x = key2int-value (reverse-Eight q) in
    let y = key2int-value p in
    let z : value (reverse (reverse cs)) ≡ value cs = ap value (reverse-reverse cs) in
    (omega (arith, x.0, x.1, y.0, z), reverse-Eight q)

key-Eight : {k : Key} → IsKey k → Eight k
key-Eight {k} h = bytes-Eight k h.size h.bytes

Eight-IsKey : {k : Key} → Eight k → IsKey k
Eight-IsKey p = let (b, n) = Eight-AllBytes p in record { size = n; bytes = b }

reverse-AllBytes : {k : Key} → Eight k → AllBytes (reverse k)
reverse-AllBytes p = (Eight-AllBytes (reverse-Eight p)).0

-- On a key, `add_one` adds one to its number modulo 2 ^ 64 and gives a key.
pub add_one_lem :
    (k : Key) → IsKey k → (key2int (add_one k) ≡ (key2int k + 1) % 2 ^ 64) × IsKey (add_one k)
unfolding add_one
add_one_lem k h =
    let p = key-Eight h in
    let m =
      moved k (add_one_from (reverse k)) 1 0 p (add_one_from_lem (reverse k) (reverse-AllBytes p))
        (omega arith) in
    (omega (arith, m.0), Eight-IsKey m.1)

-- Adding a byte to a key adds it to the number of the key modulo 2 ^ 64 and gives a key.
pub add_lem :
    (k : Key) (b : ℕ)
    → IsKey k
    → b < 2 ^ 8
    → (key2int (add k b) ≡ (key2int k + b) % 2 ^ 64) × IsKey (add k b)
unfolding add
add_lem k b h lt =
    let p = key-Eight h in
    let m =
      moved k (add_from b (reverse k)) b 0 p (add_from_lem b (reverse k) lt (reverse-AllBytes p))
        (omega arith) in
    (omega (arith, m.0), Eight-IsKey m.1)

-- Subtracting a byte from a key subtracts it from the number of the key modulo 2 ^ 64 and gives a
-- key.
pub sub_lem :
    (k : Key) (b : ℕ)
    → IsKey k
    → b < 2 ^ 8
    → (key2int (sub k b) ≡ (key2int k + 2 ^ 64 - b) % 2 ^ 64) × IsKey (sub k b)
unfolding sub
sub_lem k b h lt =
    let p = key-Eight h in
    let m =
      moved k (sub_from b (reverse k)) 0 b p (sub_from_lem b (reverse k) lt (reverse-AllBytes p))
        (omega arith) in
    (omega (arith, m.0), Eight-IsKey m.1)

int2key-Eight : (x : ℕ) → Eight (int2key x)
unfolding int2key
int2key-Eight x =
    eight (omega arith) (omega arith) (omega arith) (omega arith) (omega arith) (omega arith)
      (omega arith) (omega arith)

digits_value : (y : ℕ) → y < 2 ^ 64 → value (reverse (int2key_from y 8)) ≡ y
unfolding int2key_from
digits_value y lt = omega arith

pub key2int-int2key_from : (y : ℕ) → y < 2 ^ 64 → key2int (int2key_from y 8) ≡ y
unfolding int2key_from
key2int-int2key_from y lt =
    (key2int-value {k = int2key_from y 8} (
      eight (omega arith) (omega arith) (omega arith) (omega arith) (omega arith) (omega arith)
        (omega arith) (omega arith))).0
    ∙ digits_value y lt

-- A number below 2 ^ 64 survives the way to a key and back, but for 0, which becomes 1.
pub key2int-int2key : (x : ℕ) → x < 2 ^ 64 → key2int (int2key x) ≡ (if x == 0 then 1 else x)
unfolding int2key
key2int-int2key x lt =
    (key2int-value (int2key-Eight x)).0 ∙ digits_value (if x == 0 then 1 else x) (ground arith)

value-digits : {k : Key} → Eight k → (n : ℕ) → n ≡ value (reverse k) → int2key_from n 8 ≡ k
unfolding int2key_from
value-digits (eight {a} {b} {c} {d} {e} {f} {g} {h} pa pb pc pd pe pf pg ph) n is =
    let ha : n / 2 ^ 56 % 256 ≡ a = omega arith in
    let hb : n / 2 ^ 48 % 256 ≡ b = omega arith in
    let hc : n / 2 ^ 40 % 256 ≡ c = omega arith in
    let hd : n / 2 ^ 32 % 256 ≡ d = omega arith in
    let he : n / 2 ^ 24 % 256 ≡ e = omega arith in
    let hf : n / 2 ^ 16 % 256 ≡ f = omega arith in
    let hg : n / 2 ^ 8 % 256 ≡ g = omega arith in
    let hh : n / 1 % 256 ≡ h = omega arith in rw (ha, hb, hc, hd, he, hf, hg, hh)

-- A key that is not the null key survives the way to its number and back.
pub int2key-key2int : (k : Key) → IsKey k → key2int k ≢ 0 → int2key (key2int k) ≡ k
unfolding int2key
int2key-key2int k h ne =
    let p = key-Eight h in
    value-digits p (if key2int k == 0 then 1 else key2int k) (ground (arith, (key2int-value p).0))

-- `key2int` without its bound.
abbrev big : ℕ → List ℕ → ℕ
big r [] = r
big r (a ∷ bs) = big (256 * r + a) bs

big-lt :
    (r q : ℕ) (xs ys : List ℕ)
    → r < q
    → length xs ≡ length ys
    → AllBytes xs
    → AllBytes ys
    → big r xs < big q ys
big-lt r q [] [] lt n h i = lt
big-lt r q [] (y ∷ ys) lt n h i = absurd (omega arith)
big-lt r q (x ∷ xs) [] lt n h i = absurd (omega arith)
big-lt r q (x ∷ xs) (y ∷ ys) lt n h i =
    big-lt (256 * r + x) (256 * q + y) xs ys (omega arith) (omega arith) h.1 i.1

key_lt-big :
    (r : ℕ) (xs ys : List ℕ)
    → length xs ≡ length ys
    → AllBytes xs
    → AllBytes ys
    → key_lt xs ys ≡ ltb (big r xs) (big r ys)
unfolding key_lt
key_lt-big r [] [] n h i = ground arith
key_lt-big r [] (y ∷ ys) n h i = absurd (omega arith)
key_lt-big r (x ∷ xs) [] n h i = absurd (omega arith)
key_lt-big r (x ∷ xs) (y ∷ ys) n h i = elim (Bool-cases (ltb x y)) [
  | inl e ↦
      let l = big-lt (256 * r + x) (256 * r + y) xs ys (ground arith) (omega arith) h.1 i.1 in
      rw e (sym (lt→ltb _ _ l))
  | inr e ↦ elim (Bool-cases (ltb y x)) [
    | inl f ↦
        let l = big-lt (256 * r + y) (256 * r + x) ys xs (ground arith) (omega arith) i.1 h.1 in
        rw (e, f) (ground arith)
    | inr f ↦
        let same : x ≡ y = ground arith in
        rw (e, f, same) (key_lt-big (256 * r + y) xs ys (omega arith) h.1 i.1)
  ]
]

key2int-big : {k : Key} → Eight k → key2int k ≡ big 0 k
unfolding key2int
key2int-big (eight pa pb pc pd pe pf pg ph) = omega arith

-- For keys of eight bytes, `operator<`, which compares them byte by byte, is the order of their
-- numbers.
pub key_lt_lem : (a b : Key) → IsKey a → IsKey b → key_lt a b ≡ ltb (key2int a) (key2int b)
key_lt_lem a b h i =
    rw (key2int-big (key-Eight h), key2int-big (key-Eight i))
      (key_lt-big 0 a b (h.size ∙ sym i.size) h.bytes i.bytes)
