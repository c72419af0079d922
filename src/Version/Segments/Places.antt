-- ===== src/Version/Segments/Places.antt =====
-- Where the bytes of a node lie in its image (include/VersionManager.h), and in a part of it.
use riiver_rolex.Base.{
  ℕ, zero, suc, ◌+◌, ◌-◌, ◌*◌, ◌/◌, ◌%◌, ◌≤◌, ◌<◌, min, ◌≡◌, refl, sym, ap, ◌∙◌, ◌≢◌, true, false,
  List, arith, ltb, ◌==◌, if◌then◌else◌, length, get_or, take, drop, length-append, length-take,
  dec_lt, ℕ_discrete, lt→ltb,
}
use riiver_rolex.Base.{get_or-drop, get_or-append, get_or-append_right, get_or-take}
use riiver_rolex.Version.{encode_from, encode_blocks}
use riiver_rolex.Version.Blocks.{StartsBefore, length_block, encode_step}
use riiver_rolex.Version.Accept.{length-encode_from}
use riiver_rolex.Version.Segments.{segment_obj}

-- Which byte of the input stands at place `q` of what `encode_from` makes from byte `i` on.
abbrev from_index : (ℕ → ℕ) → ℕ → ℕ → ℕ
from_index obj i q = let j = i + 63 * (q / 64) in if q % 64 == 0 then obj j else j + (q % 64 - 1)

-- The same for `encode_blocks`.
abbrev pub block_index : (ℕ → ℕ) → ℕ → ℕ → ℕ
block_index obj first p = if ltb p first then p else from_index obj first (p - first)

from_index_block : (obj : ℕ → ℕ) (i q : ℕ) → q < 63 → from_index obj i (suc q) ≡ i + q
from_index_block obj i q h =
    let a : suc q / 64 ≡ 0 = omega arith in
    let b : suc q % 64 ≡ suc q = omega arith in
    let z : (suc q == 0) ≡ false = ground arith in rw (a, b, z) (omega arith)

from_index_next : (obj : ℕ → ℕ) (i q : ℕ) → from_index obj (i + 63) q ≡ from_index obj i (64 + q)
from_index_next obj i q =
    let a : (64 + q) / 64 ≡ suc (q / 64) = omega arith in
    let b : (64 + q) % 64 ≡ q % 64 = omega arith in
    let c : i + 63 + 63 * (q / 64) ≡ i + 63 * suc (q / 64) = omega arith in rw (a, b, c) refl

module _ (obj : ℕ → ℕ) (before : StartsBefore obj) (bytes : List ℕ) where
  get_or-block : (i q : ℕ) → q < 63 → get_or (take 63 (drop i bytes)) q 0 ≡ get_or bytes (i + q) 0
  get_or-block i q h = get_or-take 63 q (drop i bytes) 0 h ∙ get_or-drop i q bytes 0

  get_or-encode_from :
      (rounds i q : ℕ)
      → length bytes ≤ i + rounds
      → q < (length bytes - i) + (length bytes - i + 62) / 63
      → get_or (encode_from obj bytes rounds i) q 0 ≡ get_or bytes (from_index obj i q) 0
  get_or-encode_from zero i q le lt = absurd (omega arith)
  get_or-encode_from (suc rounds) i zero le lt =
      let z : i + 0 ≡ i = omega arith in
      rw (encode_step obj before bytes rounds i (omega arith))
        (ap (λ t. get_or bytes (obj t) 0) (sym z))
  get_or-encode_from (suc rounds) i (suc q) le lt =
      let l : i < length bytes = omega arith in
      let block = take 63 (drop i bytes) in
      let rest = encode_from obj bytes rounds (i + 63) in
      let len : length block ≡ min 63 (length bytes - i) = length_block obj before bytes i in
      ap (λ t. get_or t (suc q) 0) (encode_step obj before bytes rounds i l) ∙ elim (dec_lt q 63) [
        | yes small ↦
            get_or-append block rest q 0 (omega arith)
            ∙ get_or-block i q small
            ∙ ap (λ t. get_or bytes t 0) (sym (from_index_block obj i q small))
        | no big ↦
            let full : length block ≡ 63 = omega arith in
            let e : 64 + (q - length block) ≡ suc q = omega arith in
            get_or-append_right block rest q 0 (omega arith)
            ∙ get_or-encode_from rounds (i + 63) (q - length block) (omega arith) (omega arith)
            ∙ ap (λ t. get_or bytes t 0)
                (from_index_next obj i (q - length block) ∙ ap (from_index obj i) e)
      ]

  module _ (first : ℕ) (le : first ≤ length bytes) where
    pub length-encode_blocks :
        length (encode_blocks obj first bytes) ≡ length bytes + (length bytes - first + 62) / 63
    unfolding encode_blocks
    length-encode_blocks =
        let a = length-append (take first bytes) (encode_from obj bytes (length bytes) first) in
        let b : length (take first bytes) ≡ min first (length bytes) = length-take first bytes in
        let c = length-encode_from obj before bytes (length bytes) first (omega arith) in
        omega arith

    pub get_or-encode_blocks :
        (p : ℕ)
        → p < length bytes + (length bytes - first + 62) / 63
        → get_or (encode_blocks obj first bytes) p 0 ≡ get_or bytes (block_index obj first p) 0
    unfolding encode_blocks
    get_or-encode_blocks p lt =
        let rest = encode_from obj bytes (length bytes) first in
        let len : length (take first bytes) ≡ first =
          let b : length (take first bytes) ≡ min first (length bytes) = length-take first bytes in
          omega arith in
        elim (dec_lt p first) [
          | yes l ↦ rw (lt→ltb p first l) (
              get_or-append (take first bytes) rest p 0 (omega arith)
              ∙ get_or-take first p bytes 0 l)
          | no g ↦
              let past : ltb p first ≡ false = ground arith in
              rw past (
                get_or-append_right (take first bytes) rest p 0 (omega arith)
                ∙ ap (λ t. get_or rest (p - t) 0) len
                ∙ get_or-encode_from (length bytes) first (p - first) (omega arith) (omega arith))
        ]

module _ (obj : ℕ → ℕ) (first p : ℕ) where
  pub copied : p < first → block_index obj first p ≡ p
  copied h = let e : ltb p first ≡ true = lt→ltb p first h in rw e refl

  pub at_version :
      first ≤ p
      → (p - first) % 64 ≡ 0
      → block_index obj first p ≡ obj (first + 63 * ((p - first) / 64))
  at_version h z = let e : ltb p first ≡ false = ground arith in rw (e, z) refl

  pub in_block :
      first ≤ p
      → (p - first) % 64 ≢ 0
      → block_index obj first p ≡ first + 63 * ((p - first) / 64) + ((p - first) % 64 - 1)
  in_block h z =
      let e : ltb p first ≡ false = ground arith in
      let y : ((p - first) % 64 == 0) ≡ false = ground arith in rw (e, y) refl

pub index_in_segment :
    (first m p : ℕ)
    → first ≤ m
    → p < m + (m - first + 62) / 63
    → block_index segment_obj first p < m
index_in_segment first m p le lt = elim (dec_lt p first) [
  | yes l ↦ let e = copied segment_obj first p l in omega arith
  | no g ↦ elim (ℕ_discrete ((p - first) % 64) 0) [
    | yes z ↦ let e = at_version segment_obj first p (omega arith) z in omega arith
    | no y ↦ let e = in_block segment_obj first p (omega arith) y in omega arith
  ]
]

pub segment_obj-StartsBefore : StartsBefore segment_obj
segment_obj-StartsBefore i = omega arith

-- The bytes of records `start`, `start + 1`, ... of a node.
abbrev pub segment_of : ℕ → ℕ → List ℕ → List ℕ
segment_of start num bytes = take (17 * num) (drop (9 + 17 * start) bytes)
