-- ===== src/Key/Digits.antt =====
-- The loops of `add_one`, `operator+` and `operator-` on the bytes from the last to the first, and
-- the number that these bytes are the digits of.
use riiver_rolex.Base.{
  ℕ, zero, suc, ◌+◌, ◌*◌, ◌/◌, ◌^◌, ◌≤◌, ◌<◌, ◌≡◌, refl, ap, inl, inr, List, [], ◌∷◌, arith, ltb,
  leb, Bool-cases, length,
}
use riiver_rolex.Key.{AllBytes, add_one_from, add_from, borrow, sub_from}

abbrev pub value : List ℕ → ℕ
value [] = 0
value (b ∷ bs) = b + 256 * value bs

-- `c` carried out of all the bytes.
abbrev pub carried : List ℕ → ℕ → ℕ
carried [] c = c
carried (b ∷ bs) c = 256 * carried bs c

-- What a loop over the bytes makes of them: as many bytes, and the number `up` more and `down` less,
-- but for a carry out of the first byte.
pub record Moved (bs cs : List ℕ) (up down : ℕ) : Type 0 where
  pub over : ℕ
  pub under : ℕ
  pub number : value cs + carried bs over + down ≡ value bs + up + carried bs under
  pub bytes : AllBytes cs
  pub size : length cs ≡ length bs

carried-zero : (bs : List ℕ) → carried bs 0 ≡ 0
carried-zero [] = refl
carried-zero (b ∷ bs) = omega (arith, carried-zero bs)

pub add_one_from_lem : (bs : List ℕ) → AllBytes bs → Moved bs (add_one_from bs) 1 0
unfolding add_one_from
add_one_from_lem [] h = record {
  over = 1;
  under = 0;
  number = omega arith;
  bytes = tt;
  size = refl;
}
add_one_from_lem (b ∷ bs) h = elim (Bool-cases (ltb (b + 1) (2 ^ 8))) [
  | inl e ↦ rw e (record {
    over = 0;
    under = 0;
    number = omega (arith, carried-zero bs);
    bytes = (ground arith, h.1);
    size = refl;
  })
  | inr e ↦
      let r = add_one_from_lem bs h.1 in
      let n = r.number in
      let last : b ≡ 255 = ground arith in
      rw e (record {
        over = r.over;
        under = r.under;
        number = omega arith;
        bytes = (omega arith, r.bytes);
        size = ap suc r.size;
      })
]

pub add_from_lem : (x : ℕ) (bs : List ℕ) → x < 256 → AllBytes bs → Moved bs (add_from x bs) x 0
unfolding add_from
add_from_lem x [] lt h = record {
  over = x;
  under = 0;
  number = omega arith;
  bytes = tt;
  size = refl;
}
add_from_lem x (b ∷ bs) lt h = elim (Bool-cases (ltb (b + x) (2 ^ 8))) [
  | inl e ↦ rw e (record {
    over = 0;
    under = 0;
    number = omega (arith, carried-zero bs);
    bytes = (ground arith, h.1);
    size = refl;
  })
  | inr e ↦
      let r = add_from_lem ((b + x) / 2 ^ 8) bs (omega arith) h.1 in
      let n = r.number in
      rw e (record {
        over = r.over;
        under = r.under;
        number = omega arith;
        bytes = (omega arith, r.bytes);
        size = ap suc r.size;
      })
]

-- A byte that is too small takes one from the next byte.
borrow_one : (x b : ℕ) → b < x → x < 256 → borrow x b x ≡ 1
unfolding borrow
borrow_one zero b lt h = absurd (omega arith)
borrow_one (suc zero) b lt h = ground arith
borrow_one (suc (suc x)) b lt h = ground arith

pub sub_from_lem : (x : ℕ) (bs : List ℕ) → x < 256 → AllBytes bs → Moved bs (sub_from x bs) 0 x
unfolding sub_from
sub_from_lem x [] lt h = record {
  over = 0;
  under = x;
  number = omega arith;
  bytes = tt;
  size = refl;
}
sub_from_lem x (b ∷ bs) lt h = elim (Bool-cases (leb x b)) [
  | inl e ↦
      let le : x ≤ b = ground arith in
      rw e (record {
        over = 0;
        under = 0;
        number = omega (arith, carried-zero bs);
        bytes = (omega arith, h.1);
        size = refl;
      })
  | inr e ↦
      let short : b < x = ground arith in
      let one = borrow_one x b short lt in
      let r = sub_from_lem 1 bs (omega arith) h.1 in
      let n = r.number in
      rw (e, one)
        (record {
          over = r.over;
          under = r.under;
          number = omega arith;
          bytes = (omega arith, r.bytes);
          size = ap suc r.size;
        })
]
