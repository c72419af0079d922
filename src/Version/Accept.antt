-- ===== src/Version/Accept.antt =====
-- What an image is that decode_node_versions accepts: its cache lines have one node version.
use mathlib.Core.Path.{subst}
use mathlib.Core.Option.{some-injective, none-ne-some}
use riiver_rolex.Base.{
  ℕ, zero, suc, ◌+◌, ◌-◌, ◌*◌, ◌/◌, ◌≤◌, ◌<◌, min, ◌≡◌, refl, sym, ap, ◌∙◌, ◌≢◌, Bool, true, false,
  ◌&&◌, Option, none, some, List, ◌++◌, arith, if◌then◌else◌, length, get_or, take, drop,
  length-append, length-take, length-drop, ==_iff, dec_lt, ◌>>=◌,
}
use riiver_rolex.Base.{get_or-drop, get_or-append, get_or-take}
use riiver_rolex.Layout.{decoded_leaf_size}
use riiver_rolex.Leaf.{leaf_span_size}
use riiver_rolex.Version.{
  encode_from, encode_blocks, decode_from, decode_blocks, first_offset, node_obj, node_version_of,
  entries_consistent, node_consistent, decode_node_versions,
}
use riiver_rolex.Version.Blocks.{StartsBefore, length_block, decode_done, encode_step, encode_end}
use riiver_rolex.Version.Nodes.{node_obj-StartsBefore}

module _ (obj : ℕ → ℕ) (before : StartsBefore obj) (size : ℕ) where
  decode_inv :
      (rounds : ℕ) (raw out next bytes : List ℕ)
      → length out < size
      → next ≡ out ++ take (min 63 (size - length out)) (drop 1 raw)
      → decode_from obj size (suc rounds) raw out ≡ some bytes
      → (get_or raw 0 0 ≡ get_or next (obj (length out)) 0)
        × (decode_from obj size rounds (drop 64 raw) next ≡ some bytes)
  unfolding decode_from
  decode_inv rounds raw out next bytes lt is e = ground arith

  decode_short :
      (raw out bytes : List ℕ) → length out < size → decode_from obj size zero raw out ≢ some bytes
  unfolding decode_from
  decode_short raw out bytes lt e = ground arith

  length-next :
      (raw out : List ℕ)
      → length (out ++ take (min 63 (size - length out)) (drop 1 raw))
        ≡ length out + min (min 63 (size - length out)) (length raw - 1)
  length-next raw out =
      let a = length-append out (take (min 63 (size - length out)) (drop 1 raw)) in
      let b = length-take (min 63 (size - length out)) (drop 1 raw) in
      let c = length-drop 1 raw in rw (a, b, c) refl

  decode_same :
      (rounds i : ℕ) (raw out bytes : List ℕ)
      → decode_from obj size rounds raw out ≡ some bytes
      → size ≤ length out
      → get_or bytes i 0 ≡ get_or out i 0
  decode_same rounds i raw out bytes e le =
      let same : out ≡ bytes =
        some-injective out bytes (sym (decode_done obj size rounds raw out le) ∙ e) in
      ap (λ t. get_or t i 0) (sym same)

  decode_extends :
      (rounds i : ℕ) (raw out bytes : List ℕ)
      → decode_from obj size rounds raw out ≡ some bytes
      → i < length out
      → get_or bytes i 0 ≡ get_or out i 0
  decode_extends zero i raw out bytes e lt = elim (dec_lt (length out) size) [
    | no g ↦ decode_same zero i raw out bytes e (omega arith)
    | yes l ↦ absurd (decode_short raw out bytes l e)
  ]
  decode_extends (suc rounds) i raw out bytes e lt = elim (dec_lt (length out) size) [
    | no g ↦ decode_same (suc rounds) i raw out bytes e (omega arith)
    | yes l ↦
        let part = take (min 63 (size - length out)) (drop 1 raw) in
        let inv = decode_inv rounds raw out (out ++ part) bytes l refl e in
        let n = length-append out part in
        decode_extends rounds i (drop 64 raw) (out ++ part) bytes inv.1 (omega arith)
        ∙ get_or-append out part i 0 lt
  ]

  decode_checks :
      (k rounds : ℕ) (raw out bytes : List ℕ)
      → decode_from obj size rounds raw out ≡ some bytes
      → length out + 63 * k < size
      → 64 * k + 1 < length raw
      → get_or raw (64 * k) 0 ≡ get_or bytes (obj (length out + 63 * k)) 0
  decode_checks k zero raw out bytes e lt len = absurd (decode_short raw out bytes (omega arith) e)
  decode_checks zero (suc rounds) raw out bytes e lt len =
      let next = out ++ take (min 63 (size - length out)) (drop 1 raw) in
      let inv = decode_inv rounds raw out next bytes (omega arith) refl e in
      let low : obj (length out) ≤ length out = before (length out) in
      let n : length next ≡ length out + min (min 63 (size - length out)) (length raw - 1) =
        length-next raw out in
      let z : length out + 63 * 0 ≡ length out = omega arith in
      rw z (
        inv.0
        ∙ sym
            (decode_extends rounds (obj (length out)) (drop 64 raw) next bytes inv.1 (omega arith)))
  decode_checks (suc k) (suc rounds) raw out bytes e lt len =
      let next = out ++ take (min 63 (size - length out)) (drop 1 raw) in
      let inv = decode_inv rounds raw out next bytes (omega arith) refl e in
      let n : length next ≡ length out + min (min 63 (size - length out)) (length raw - 1) =
        length-next raw out in
      let d : length (drop 64 raw) ≡ length raw - 64 = length-drop 64 raw in
      let r = decode_checks k rounds (drop 64 raw) next bytes inv.1 (omega arith) (omega arith) in
      let z : length next + 63 * k ≡ length out + 63 * suc k = omega arith in
      let y : 64 + 64 * k ≡ 64 * suc k = omega arith in
      subst (λ m. get_or raw (64 * suc k) 0 ≡ get_or bytes (obj m) 0) z
        (subst (λ m. get_or raw m 0 ≡ get_or bytes (obj (length next + 63 * k)) 0) y
          (sym (get_or-drop 64 (64 * k) raw 0) ∙ r))

both_true : (a b : Bool) → (a && b) ≡ true → (a ≡ true) × (b ≡ true)
both_true true b h = (refl, h)
both_true false b h = ground arith

kept :
    (o : Option (List ℕ)) (test : List ℕ → Bool) (ys : List ℕ)
    → (o >>= (λ xs. if test xs then some xs else none)) ≡ some ys
    → (o ≡ some ys) × (test ys ≡ true)
kept none test ys h = absurd (none-ne-some ys h)
kept (some xs) test ys h =
    let (same, passed) = chosen (test xs) h in (ap some same, ap test (sym same) ∙ passed)
  where
    chosen : (b : Bool) → (if b then some xs else none) ≡ some ys → (xs ≡ ys) × (b ≡ true)
    chosen true e = (some-injective xs ys e, refl)
    chosen false e = absurd (none-ne-some ys e)

pub node_obj_records : (d : ℕ) → node_obj (9 + d) ≡ 9 + 17 * (d / 17)
node_obj_records d = ground arith

-- The bytes that decode_node_versions accepts have one node version.
entries_consistent-version :
    (v n k : ℕ) (bytes : List ℕ)
    → entries_consistent v n bytes ≡ true
    → k < n
    → node_version_of (get_or bytes (17 * k) 0) ≡ v
unfolding entries_consistent
entries_consistent-version v zero k bytes h lt = absurd (omega arith)
entries_consistent-version v (suc n) zero bytes h lt = ground arith
entries_consistent-version v (suc n) (suc k) bytes h lt =
    let rest : entries_consistent v n (drop 17 bytes) ≡ true = ground arith in
    let y : 17 + 17 * k ≡ 17 * suc k = omega arith in
    subst (λ m. node_version_of (get_or bytes m 0) ≡ v) y
      (ap node_version_of (sym (get_or-drop 17 (17 * k) bytes 0))
        ∙ entries_consistent-version v n k (drop 17 bytes) rest (omega arith))

pub node_consistent-version :
    (k : ℕ) (bytes : List ℕ)
    → node_consistent bytes ≡ true
    → k < leaf_span_size
    → node_version_of (get_or bytes (9 + 17 * k) 0) ≡ node_version_of (get_or bytes 0 0)
unfolding node_consistent
node_consistent-version k bytes h lt =
    let v = node_version_of (get_or bytes 9 0) in
    let (head, rest) = both_true _ _ h in
    ap node_version_of (sym (get_or-drop 9 (17 * k) bytes 0))
    ∙ entries_consistent-version v leaf_span_size k (drop 9 bytes) rest lt
    ∙ (==_iff v (node_version_of (get_or bytes 0 0))).0 head

accepted :
    (raw bytes : List ℕ)
    → decode_node_versions raw ≡ some bytes
    → (decode_from node_obj decoded_leaf_size decoded_leaf_size (drop 64 raw) (take 64 raw)
        ≡ some bytes)
      × (node_consistent bytes ≡ true)
unfolding decode_node_versions decode_blocks
accepted raw bytes e =
    kept (decode_blocks node_obj first_offset decoded_leaf_size raw) node_consistent bytes e

later_line :
    (k : ℕ) (raw bytes : List ℕ)
    → decode_node_versions raw ≡ some bytes
    → length raw ≡ 285
    → k < 4
    → node_version_of (get_or raw (64 + 64 * k) 0) ≡ node_version_of (get_or raw 0 0)
later_line k raw bytes e len lt =
    let (d, c) = accepted raw bytes e in
    let head : length (take 64 raw) ≡ min 64 (length raw) = length-take 64 raw in
    let rest : length (drop 64 raw) ≡ length raw - 64 = length-drop 64 raw in
    let check =
      decode_checks node_obj node_obj-StartsBefore decoded_leaf_size k decoded_leaf_size
        (drop 64 raw) (take 64 raw) bytes d (omega arith) (omega arith) in
    let r = (55 + 63 * k) / 17 in
    let at : length (take 64 raw) + 63 * k ≡ 9 + (55 + 63 * k) = omega arith in
    let obj : node_obj (length (take 64 raw) + 63 * k) ≡ 9 + 17 * r =
      ap node_obj at ∙ node_obj_records (55 + 63 * k) in
    let first : get_or bytes 0 0 ≡ get_or raw 0 0 =
      decode_extends node_obj node_obj-StartsBefore decoded_leaf_size decoded_leaf_size 0
        (drop 64 raw) (take 64 raw) bytes d (omega arith)
      ∙ get_or-take 64 0 raw 0 (omega arith) in
    ap node_version_of
      (sym (get_or-drop 64 (64 * k) raw 0) ∙ check ∙ ap (λ i. get_or bytes i 0) obj)
    ∙ node_consistent-version r bytes c (omega arith)
    ∙ ap node_version_of first

-- Every cache line of an image that is accepted starts with the same node version.
pub line :
    (k : ℕ) (raw bytes : List ℕ)
    → decode_node_versions raw ≡ some bytes
    → length raw ≡ 285
    → k < 5
    → node_version_of (get_or raw (64 * k) 0) ≡ node_version_of (get_or raw 0 0)
line zero raw bytes e len lt = refl
line (suc k) raw bytes e len lt =
    let y : 64 + 64 * k ≡ 64 * suc k = omega arith in
    subst (λ m. node_version_of (get_or raw m 0) ≡ node_version_of (get_or raw 0 0)) y
      (later_line k raw bytes e len (omega arith))

pub length-encode_from :
    (obj : ℕ → ℕ) (before : StartsBefore obj) (bytes : List ℕ) (rounds i : ℕ)
    → length bytes ≤ i + rounds
    → length (encode_from obj bytes rounds i) ≡ (length bytes - i) + (length bytes - i + 62) / 63
length-encode_from obj before bytes zero i h =
    let e = encode_end obj before bytes zero i (omega arith) in rw e (omega arith)
length-encode_from obj before bytes (suc rounds) i h = elim (dec_lt i (length bytes)) [
  | no g ↦ let e = encode_end obj before bytes (suc rounds) i (omega arith) in rw e (omega arith)
  | yes l ↦
      let rest = encode_from obj bytes rounds (i + 63) in
      let block : length (take 63 (drop i bytes)) ≡ min 63 (length bytes - i) =
        length_block obj before bytes i in
      let n = length-append (take 63 (drop i bytes)) rest in
      let ih = length-encode_from obj before bytes rounds (i + 63) (omega arith) in
      rw (encode_step obj before bytes rounds i l) (omega arith)
]

pub length-encode_blocks :
    (bytes : List ℕ) → length bytes ≡ 281 → length (encode_blocks node_obj first_offset bytes) ≡ 285
unfolding encode_blocks
length-encode_blocks bytes h =
    let a = length-append (take 64 bytes) (encode_from node_obj bytes (length bytes) 64) in
    let b : length (take 64 bytes) ≡ min 64 (length bytes) = length-take 64 bytes in
    let c =
      length-encode_from node_obj node_obj-StartsBefore bytes (length bytes) 64 (omega arith) in
    omega arith

pub first-encode_blocks :
    (bytes : List ℕ)
    → length bytes ≡ 281
    → get_or (encode_blocks node_obj first_offset bytes) 0 0 ≡ get_or bytes 0 0
unfolding encode_blocks
first-encode_blocks bytes h =
    let b : length (take 64 bytes) ≡ min 64 (length bytes) = length-take 64 bytes in
    get_or-append (take 64 bytes) (encode_from node_obj bytes (length bytes) 64) 0 0 (omega arith)
    ∙ get_or-take 64 0 bytes 0 (omega arith)
