-- ===== src/Scatter/Groups.antt =====
-- A segment with copies of the metadata reads back as the records and the metadata.
use mathlib.Core.Path.{subst}
use riiver_rolex.Base.{
  ℕ, zero, suc, ◌+◌, ◌-◌, ◌*◌, ◌/◌, ◌%◌, ◌≤◌, ◌<◌, min, ◌≡◌, refl, ap, ◌∙◌, true, false, none, some,
  List, [], ◌∷◌, ◌++◌, arith, leb, ◌==◌, if◌then◌else◌, length, take, drop, length-append,
  length-take, length-drop, dec_lt, lt→ltb,
}
use riiver_rolex.Base.{
  take-length_append, drop-length_append, take-take-drop, take_all, drop_all, append_nil,
}
use riiver_rolex.Scatter.{
  metadata_eq, encode_groups, encode_segment_metadata, decode_groups, decode_segment_metadata,
  scatter_offset_info,
}

metadata_eq_self : (m : List ℕ) → metadata_eq m m ≡ true
unfolding metadata_eq
metadata_eq_self [] = refl
metadata_eq_self (a ∷ as') = ground (arith, metadata_eq_self as')

decode_done :
    (m : List ℕ) (size rounds : ℕ) (raw out : List ℕ)
    → size ≤ length out
    → decode_groups m size rounds raw out ≡ some out
unfolding decode_groups
decode_done m size zero raw out h = ground arith
decode_done m size (suc rounds) raw out h = ground arith

decode_step :
    (m : List ℕ) (size rounds : ℕ) (raw out next : List ℕ)
    → length m ≡ 9
    → length out < size
    → out ++ take (min 136 (size - length out)) raw ≡ next
    → decode_groups m size (suc rounds) (m ++ raw) out
      ≡ decode_groups m size rounds (drop 136 raw) next
unfolding decode_groups
decode_step m size rounds raw out next len h eq =
    let t : take 9 (m ++ raw) ≡ m =
      subst (λ n. take n (m ++ raw) ≡ m) len (take-length_append m raw) in
    let d : drop 9 (m ++ raw) ≡ raw =
      subst (λ n. drop n (m ++ raw) ≡ raw) len (drop-length_append m raw) in
    rw (lt→ltb (length out) size h, t, d, eq, metadata_eq_self m)

module _ (m bytes : List ℕ) (len_m : length m ≡ 9) where
  encode_step :
      (rounds i : ℕ)
      → i < length bytes
      → encode_groups m bytes (suc rounds) i
        ≡ m ++ (take 136 (drop i bytes) ++ encode_groups m bytes rounds (i + 136))
  unfolding encode_groups
  encode_step rounds i h = rw (lt→ltb i (length bytes) h)

  encode_end : (rounds i : ℕ) → length bytes ≤ i → encode_groups m bytes rounds i ≡ []
  unfolding encode_groups
  encode_end zero i h = refl
  encode_end (suc rounds) i h = ground arith

  length_group : (i : ℕ) → length (take 136 (drop i bytes)) ≡ min 136 (length bytes - i)
  length_group i =
      let a : length (take 136 (drop i bytes)) ≡ min 136 (length (drop i bytes)) =
        length-take 136 (drop i bytes) in
      let b : length (drop i bytes) ≡ length bytes - i = length-drop i bytes in rw (a, b)

  after_group :
      (rounds i : ℕ)
      → drop 136 (take 136 (drop i bytes) ++ encode_groups m bytes rounds (i + 136))
        ≡ encode_groups m bytes rounds (i + 136)
  after_group rounds i =
      let group = take 136 (drop i bytes) in
      let rest = encode_groups m bytes rounds (i + 136) in
      let len : length group ≡ min 136 (length bytes - i) = length_group i in
      elim (dec_lt (length bytes) (i + 136)) [
        | yes l ↦
            rw (encode_end rounds (i + 136) (omega arith), append_nil group)
              (drop_all 136 group (omega arith))
        | no g ↦
            let full : length group ≡ 136 = omega arith in
            subst (λ n. drop n (group ++ rest) ≡ rest) full (drop-length_append group rest)
      ]

  next_output :
      (rounds i : ℕ)
      → i < length bytes
      → take i bytes
          ++ take
              (min 136 (length bytes - length (take i bytes)))
              (take 136 (drop i bytes) ++ encode_groups m bytes rounds (i + 136))
        ≡ take (i + 136) bytes
  next_output rounds i h =
      let at : length (take i bytes) ≡ min i (length bytes) = length-take i bytes in
      let len : length (take 136 (drop i bytes)) ≡ min 136 (length bytes - i) = length_group i in
      let e : min 136 (length bytes - length (take i bytes)) ≡ length (take 136 (drop i bytes)) =
        omega arith in
      rw
        (
          e,
          take-length_append (take 136 (drop i bytes)) (encode_groups m bytes rounds (i + 136)),
          take-take-drop i 136 bytes,
        )
        refl

  decode_groups-encode_groups :
      (rounds more i : ℕ)
      → length bytes ≤ i + rounds
      → rounds ≤ more
      → decode_groups m (length bytes) more (encode_groups m bytes rounds i) (take i bytes)
        ≡ some bytes
  decode_groups-encode_groups zero more i h le =
      rw (encode_end zero i (omega arith), take_all i bytes (omega arith))
        (decode_done m (length bytes) more [] bytes (omega arith))
  decode_groups-encode_groups (suc rounds) zero i h le = absurd (omega arith)
  decode_groups-encode_groups (suc rounds) (suc more) i h le = elim (dec_lt i (length bytes)) [
    | no g ↦
        rw (encode_end (suc rounds) i (omega arith), take_all i bytes (omega arith))
          (decode_done m (length bytes) (suc more) [] bytes (omega arith))
    | yes l ↦
        let at : length (take i bytes) ≡ i =
          let e : length (take i bytes) ≡ min i (length bytes) = length-take i bytes in
          omega arith in
        rw
          (
            encode_step rounds i l,
            decode_step m (length bytes) more
                (take 136 (drop i bytes) ++ encode_groups m bytes rounds (i + 136)) (take i bytes)
                (take (i + 136) bytes) len_m (omega arith) (next_output rounds i l),
            after_group rounds i,
          )
          (decode_groups-encode_groups rounds more (i + 136) (omega arith) (omega arith))
  ]

  length-encode_groups :
      (rounds i : ℕ)
      → length bytes ≤ i + rounds
      → length (encode_groups m bytes rounds i)
        ≡ (length bytes - i) + 9 * ((length bytes - i + 135) / 136)
  length-encode_groups zero i h = let e = encode_end zero i (omega arith) in rw e (omega arith)
  length-encode_groups (suc rounds) i h = elim (dec_lt i (length bytes)) [
    | no g ↦ let e = encode_end (suc rounds) i (omega arith) in rw e (omega arith)
    | yes l ↦
        let tail = encode_groups m bytes rounds (i + 136) in
        let group = take 136 (drop i bytes) in
        let block : length group ≡ min 136 (length bytes - i) = length_group i in
        let n = length-append group tail in
        let k = length-append m (group ++ tail) in
        let ih = length-encode_groups rounds (i + 136) (omega arith) in
        rw (encode_step rounds i l) (omega arith)
  ]

module _ (input m : List ℕ) (first num : ℕ) (len : length input ≡ 17 * num) (len_m : length m ≡ 9)
    (le : first ≤ 17 * num) where
  encoded :
      encode_segment_metadata input first num m
      ≡ take first input ++ encode_groups m input (length input) first
  unfolding encode_segment_metadata
  encoded =
      let e : take (17 * num) input ≡ input = take_all (17 * num) input (omega arith) in rw e refl

  head_size : length (take first input) ≡ first
  head_size =
      let e : length (take first input) ≡ min first (length input) = length-take first input in
      omega arith

  taken : take first (encode_segment_metadata input first num m) ≡ take first input
  taken =
      let rest = encode_groups m input (length input) first in
      ap (take first) encoded
      ∙ subst (λ n. take n (take first input ++ rest) ≡ take first input) head_size
          (take-length_append (take first input) rest)

  dropped :
      drop first (encode_segment_metadata input first num m)
      ≡ encode_groups m input (length input) first
  dropped =
      let rest = encode_groups m input (length input) first in
      ap (drop first) encoded
      ∙ subst (λ n. drop n (take first input ++ rest) ≡ rest) head_size
          (drop-length_append (take first input) rest)

  -- The first copy of the metadata.
  first_copy : first < 17 * num → take 9 (encode_groups m input (length input) first) ≡ m
  first_copy lt = by_rounds (length input) (omega arith)
    where
      by_rounds : (rounds : ℕ) → 0 < rounds → take 9 (encode_groups m input rounds first) ≡ m
      by_rounds zero h = absurd (omega arith)
      by_rounds (suc rounds) h =
          let rest = take 136 (drop first input) ++ encode_groups m input rounds (first + 136) in
          ap (take 9) (encode_step m input len_m rounds first (omega arith))
          ∙ subst (λ n. take n (m ++ rest) ≡ m) len_m (take-length_append m rest)

  read_back :
      decode_segment_metadata (encode_segment_metadata input first num m) first num
      ≡ some (input, if leb (17 * num) first then none else some m)
  unfolding decode_segment_metadata
  read_back = elim (dec_lt first (17 * num)) [
    | no g ↦
        let c : leb (17 * num) first ≡ true = ground arith in
        rw (c, taken, take_all first input (omega arith)) refl
    | yes l ↦
        let c : leb (17 * num) first ≡ false = ground arith in
        let d : decode_groups m (17 * num) (17 * num) (encode_groups m input (length input) first)
              (take first input)
            ≡ some input =
          subst
            (λ n.
              decode_groups m n n (encode_groups m input (length input) first) (take first input)
              ≡ some input)
            len
            (decode_groups-encode_groups m input len_m (length input) (length input) first
              (omega arith) (omega arith)) in
        rw (c, dropped, taken, first_copy l, d) refl
  ]

  length-encoded :
      length (encode_segment_metadata input first num m)
      ≡ 17 * num + 9 * ((17 * num - first + 135) / 136)
  length-encoded =
      let a = length-append (take first input) (encode_groups m input (length input) first) in
      let b = length-encode_groups m input len_m (length input) first (omega arith) in
      let h = head_size in rw encoded (omega arith)

group_count : (x : ℕ) → (x + 135) / 136 ≡ x / 136 + (if x % 136 == 0 then 0 else 1)
group_count x = ground arith

-- A segment of records with copies of the metadata at the places that get_offset_info gives reads
-- back as the records, with the metadata if there is a copy in the segment, and is as long as
-- get_offset_info says.
pub decode_segment_metadata-encode_segment_metadata :
    (input m : List ℕ) (start entry_num : ℕ)
    → length input ≡ 17 * entry_num
    → length m ≡ 9
    → (decode_segment_metadata
          (encode_segment_metadata input (scatter_offset_info start entry_num).0 entry_num m)
          (scatter_offset_info start entry_num).0
          entry_num
        ≡ some (
          input,
          if leb (17 * entry_num) (scatter_offset_info start entry_num).0 then none else some m,
        ))
      × (length (encode_segment_metadata input (scatter_offset_info start entry_num).0 entry_num m)
          ≡ (scatter_offset_info start entry_num).1)
unfolding scatter_offset_info
decode_segment_metadata-encode_segment_metadata input m start entry_num len len_m =
    let first = (scatter_offset_info start entry_num).0 in
    let le : first ≤ 17 * entry_num = omega arith in
    let n = length-encoded input m first entry_num len len_m le in
    (
      read_back input m first entry_num len len_m le,
      n ∙ ap (λ t. 17 * entry_num + 9 * t) (group_count (17 * entry_num - first)),
    )
