-- ===== src/Version/Blocks.antt =====
-- The loops of the version manager are inverse to each other, and what the decoding loop accepts is
-- what the encoding loop makes.
use mathlib.Core.Path.{subst}
use riiver_rolex.Base.{
  ℕ, zero, suc, ◌+◌, ◌-◌, ◌≤◌, ◌<◌, min, ◌≡◌, refl, some, List, [], ◌∷◌, ◌++◌, arith, length,
  get_or, take, drop, length-take, length-drop, ==_iff, dec_lt, lt→ltb,
}
use riiver_rolex.Base.{
  take-length_append, drop-length_append, take-take-drop, take_all, drop_all, get_or-take,
  append_nil,
}
use riiver_rolex.Version.{encode_from, encode_blocks, decode_from, decode_blocks}

-- The version of an object is at its start.
abbrev pub StartsBefore : (ℕ → ℕ) → Type 0
StartsBefore obj = (i : ℕ) → obj i ≤ i

pub decode_done :
    (obj : ℕ → ℕ) (size rounds : ℕ) (raw out : List ℕ)
    → size ≤ length out
    → decode_from obj size rounds raw out ≡ some out
unfolding decode_from
decode_done obj size zero raw out h = ground arith
decode_done obj size (suc rounds) raw out h = ground arith

decode_step :
    (obj : ℕ → ℕ) (size rounds b : ℕ) (raw out next : List ℕ)
    → length out < size
    → out ++ take (min 63 (size - length out)) raw ≡ next
    → get_or next (obj (length out)) 0 ≡ b
    → decode_from obj size (suc rounds) (b ∷ raw) out
      ≡ decode_from obj size rounds (drop 63 raw) next
unfolding decode_from
decode_step obj size rounds b raw out next h eq same =
    rw (lt→ltb (length out) size h, eq, same, (==_iff b b).1 refl)

module _ (obj : ℕ → ℕ) (before : StartsBefore obj) (bytes : List ℕ) where
  pub encode_step :
      (rounds i : ℕ)
      → i < length bytes
      → encode_from obj bytes (suc rounds) i
        ≡ get_or bytes (obj i) 0 ∷ (take 63 (drop i bytes) ++ encode_from obj bytes rounds (i + 63))
  unfolding encode_from
  encode_step rounds i h = rw (lt→ltb i (length bytes) h)

  pub encode_end : (rounds i : ℕ) → length bytes ≤ i → encode_from obj bytes rounds i ≡ []
  unfolding encode_from
  encode_end zero i h = refl
  encode_end (suc rounds) i h = ground arith

  pub length_block : (i : ℕ) → length (take 63 (drop i bytes)) ≡ min 63 (length bytes - i)
  length_block i =
      let a : length (take 63 (drop i bytes)) ≡ min 63 (length (drop i bytes)) =
        length-take 63 (drop i bytes) in
      let b : length (drop i bytes) ≡ length bytes - i = length-drop i bytes in rw (a, b)

  after_block :
      (rounds i : ℕ)
      → drop 63 (take 63 (drop i bytes) ++ encode_from obj bytes rounds (i + 63))
        ≡ encode_from obj bytes rounds (i + 63)
  after_block rounds i =
      let len : length (take 63 (drop i bytes)) ≡ min 63 (length bytes - i) = length_block i in
      elim (dec_lt (length bytes) (i + 63)) [
        | yes l ↦
            rw (encode_end rounds (i + 63) (omega arith), append_nil (take 63 (drop i bytes)))
              (drop_all 63 (take 63 (drop i bytes)) (omega arith))
        | no g ↦
            let full : length (take 63 (drop i bytes)) ≡ 63 = omega arith in
            subst
              (λ n.
                drop n (take 63 (drop i bytes) ++ encode_from obj bytes rounds (i + 63))
                ≡ encode_from obj bytes rounds (i + 63))
              full
              (drop-length_append (take 63 (drop i bytes)) (encode_from obj bytes rounds (i + 63)))
      ]

  next_output :
      (rounds i : ℕ)
      → i < length bytes
      → take i bytes
          ++ take
              (min 63 (length bytes - length (take i bytes)))
              (take 63 (drop i bytes) ++ encode_from obj bytes rounds (i + 63))
        ≡ take (i + 63) bytes
  next_output rounds i h =
      let at : length (take i bytes) ≡ min i (length bytes) = length-take i bytes in
      let len : length (take 63 (drop i bytes)) ≡ min 63 (length bytes - i) = length_block i in
      let e : min 63 (length bytes - length (take i bytes)) ≡ length (take 63 (drop i bytes)) =
        omega arith in
      rw
        (
          e,
          take-length_append (take 63 (drop i bytes)) (encode_from obj bytes rounds (i + 63)),
          take-take-drop i 63 bytes,
        )
        refl

  decode-encode_from :
      (rounds more i : ℕ)
      → length bytes ≤ i + rounds
      → rounds ≤ more
      → decode_from obj (length bytes) more (encode_from obj bytes rounds i) (take i bytes)
        ≡ some bytes
  decode-encode_from zero more i h le =
      rw (encode_end zero i (omega arith), take_all i bytes (omega arith))
        (decode_done obj (length bytes) more [] bytes (omega arith))
  decode-encode_from (suc rounds) zero i h le = absurd (omega arith)
  decode-encode_from (suc rounds) (suc more) i h le = elim (dec_lt i (length bytes)) [
    | no g ↦
        rw (encode_end (suc rounds) i (omega arith), take_all i bytes (omega arith))
          (decode_done obj (length bytes) (suc more) [] bytes (omega arith))
    | yes l ↦
        let at : length (take i bytes) ≡ i =
          let e : length (take i bytes) ≡ min i (length bytes) = length-take i bytes in
          omega arith in
        let b = get_or bytes (obj i) 0 in
        let low : obj i ≤ i = before i in
        let version : get_or (take (i + 63) bytes) (obj (length (take i bytes))) 0 ≡ b =
          rw at (get_or-take (i + 63) (obj i) bytes 0 (omega arith)) in
        rw
          (
            encode_step rounds i l,
            decode_step obj (length bytes) more b
                (take 63 (drop i bytes) ++ encode_from obj bytes rounds (i + 63)) (take i bytes)
                (take (i + 63) bytes) (omega arith) (next_output rounds i l) version,
            after_block rounds i,
          )
          (decode-encode_from rounds more (i + 63) (omega arith) (omega arith))
  ]

  pub decode_blocks-encode_blocks :
      (first : ℕ)
      → first ≤ length bytes
      → decode_blocks obj first (length bytes) (encode_blocks obj first bytes) ≡ some bytes
  unfolding decode_blocks encode_blocks
  decode_blocks-encode_blocks first h =
      let at : length (take first bytes) ≡ first =
        let e : length (take first bytes) ≡ min first (length bytes) = length-take first bytes in
        omega arith in
      let rest = encode_from obj bytes (length bytes) first in
      let t : take first (take first bytes ++ rest) ≡ take first bytes =
        subst (λ n. take n (take first bytes ++ rest) ≡ take first bytes) at
          (take-length_append (take first bytes) rest) in
      let d : drop first (take first bytes ++ rest) ≡ rest =
        subst (λ n. drop n (take first bytes ++ rest) ≡ rest) at
          (drop-length_append (take first bytes) rest) in
      rw (t, d) (decode-encode_from (length bytes) (length bytes) first (omega arith) (omega arith))
