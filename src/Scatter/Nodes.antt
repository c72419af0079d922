-- ===== src/Scatter/Nodes.antt =====
-- encode_node_versions and decode_node_versions of include/LeafVersionManager.h, on the bytes of a
-- ScatteredLeafNode: two groups of the metadata and 8 records, with a version before every cache line.
use riiver_rolex.Base.{
  ℕ, zero, suc, ◌+◌, ◌-◌, ◌*◌, ◌/◌, ◌%◌, ◌<◌, ◌≡◌, refl, sym, ◌∙◌, ◌≢◌, Bool, true, ◌&&◌, Option,
  none, some, List, [], ◌∷◌, ◌++◌, arith, ltb, ◌==◌, if◌then◌else◌, length, set, get_or, length-set,
  ==_iff, ℕ_discrete, ◌>>=◌,
}
use riiver_rolex.Layout.{leaf_metadata_size, leaf_entry_size}
use riiver_rolex.Version.{encode_blocks, decode_blocks, node_version_of}
use riiver_rolex.Version.Blocks.{StartsBefore, decode_blocks-encode_blocks}
use riiver_rolex.Scatter.{group_size}
use mathlib.Core.Path.{subst}

-- `sizeof(LeafEntryGroup)` and `sizeof(ScatteredLeafNode)`
abbrev pub entry_group_size : ℕ
entry_group_size = leaf_metadata_size + group_size

abbrev pub scattered_size : ℕ
scattered_size = entry_group_size * 2

-- Where the version is of the metadata, or of the record, that byte `i` lies in.
abbrev pub scattered_obj : ℕ → ℕ
scattered_obj i =
    let group = i / entry_group_size * entry_group_size in
    let within = i % entry_group_size in
    if ltb within leaf_metadata_size
    then group
    else group
      + leaf_metadata_size
      + (within - leaf_metadata_size) / leaf_entry_size * leaf_entry_size

-- The places of the versions: of `n` records from `i` on, of a group, of the node.
unfoldable pub record_places : ℕ → ℕ → List ℕ
record_places zero i = []
record_places (suc n) i = i ∷ record_places n (i + leaf_entry_size)

unfoldable pub group_places : ℕ → List ℕ
unfolding record_places
group_places i = i ∷ record_places 8 (i + leaf_metadata_size)

unfoldable pub node_places : List ℕ
unfolding group_places
node_places = group_places 0 ++ group_places entry_group_size

-- `h_version.node_version = node_version` at the places
unfoldable pub set_node_versions : ℕ → List ℕ → List ℕ → List ℕ
set_node_versions v [] bytes = bytes
set_node_versions v (p ∷ ps) bytes =
    set_node_versions v ps (set bytes p (v + get_or bytes p 0 / 16 * 16))

unfoldable pub node_versions_agree : ℕ → List ℕ → List ℕ → Bool
node_versions_agree v [] bytes = true
node_versions_agree v (p ∷ ps) bytes =
    (v == node_version_of (get_or bytes p 0)) && node_versions_agree v ps bytes

abbrev pub next_scattered_version : List ℕ → ℕ
next_scattered_version bytes = (node_version_of (get_or bytes 0 0) + 1) % 16

-- `LeafVersionManager::encode_node_versions`
unfoldable pub encode_scattered : List ℕ → List ℕ
encode_scattered bytes =
    encode_blocks scattered_obj 64
      (set_node_versions (next_scattered_version bytes) node_places bytes)

-- `LeafVersionManager::decode_node_versions`
unfoldable pub decode_scattered : List ℕ → Option (List ℕ)
decode_scattered raw = do
  bytes ← decode_blocks scattered_obj 64 scattered_size raw
  if node_versions_agree (node_version_of (get_or bytes 0 0)) node_places bytes
      then some bytes
      else none

scattered_obj-StartsBefore : StartsBefore scattered_obj
scattered_obj-StartsBefore i = ground arith

get_or-set_self : (xs : List ℕ) (p v : ℕ) → p < length xs → get_or (set xs p v) p 0 ≡ v
get_or-set_self [] p v h = absurd (omega arith)
get_or-set_self (x ∷ xs) zero v h = refl
get_or-set_self (x ∷ xs) (suc p) v h = get_or-set_self xs p v (omega arith)

get_or-set_ne : (xs : List ℕ) (p q v : ℕ) → p ≢ q → get_or (set xs p v) q 0 ≡ get_or xs q 0
get_or-set_ne [] p q v h = refl
get_or-set_ne (x ∷ xs) zero zero v h = absurd (h refl)
get_or-set_ne (x ∷ xs) zero (suc q) v h = refl
get_or-set_ne (x ∷ xs) (suc p) zero v h = refl
get_or-set_ne (x ∷ xs) (suc p) (suc q) v h = get_or-set_ne xs p q v (λ e. h (omega arith))

abbrev AllBelow : ℕ → List ℕ → Type 0
AllBelow n [] = Unit
AllBelow n (p ∷ ps) = (p < n) × AllBelow n ps

module _ (v : ℕ) (small : v < 16) where
  set_version :
      (bytes : List ℕ) (p : ℕ)
      → p < length bytes
      → node_version_of (get_or (set bytes p (v + get_or bytes p 0 / 16 * 16)) p 0) ≡ v
  set_version bytes p lt =
      let e = get_or-set_self bytes p (v + get_or bytes p 0 / 16 * 16) lt in omega arith

  version_kept :
      (ps bytes : List ℕ) (q : ℕ)
      → q < length bytes
      → node_version_of (get_or bytes q 0) ≡ v
      → node_version_of (get_or (set_node_versions v ps bytes) q 0) ≡ v
  unfolding set_node_versions
  version_kept [] bytes q lt h = h
  version_kept (p ∷ ps) bytes q lt h =
      let n = length-set bytes p (v + get_or bytes p 0 / 16 * 16) in
      version_kept ps (set bytes p (v + get_or bytes p 0 / 16 * 16)) q (omega arith)
        (elim (ℕ_discrete p q) [
          | yes e ↦
              subst
                (λ q.
                  node_version_of (get_or (set bytes p (v + get_or bytes p 0 / 16 * 16)) q 0) ≡ v)
                e (set_version bytes p (omega arith))
          | no ne ↦
              let k = get_or-set_ne bytes p q (v + get_or bytes p 0 / 16 * 16) ne in omega arith
        ])

  versions_agree_lem :
      (ps bytes : List ℕ)
      → AllBelow (length bytes) ps
      → node_versions_agree v ps (set_node_versions v ps bytes) ≡ true
  unfolding set_node_versions node_versions_agree
  versions_agree_lem [] bytes h = refl
  versions_agree_lem (p ∷ ps) bytes h =
      let bytes' = set bytes p (v + get_or bytes p 0 / 16 * 16) in
      let n : length bytes' ≡ length bytes = length-set bytes p (v + get_or bytes p 0 / 16 * 16) in
      let at : node_version_of (get_or (set_node_versions v ps bytes') p 0) ≡ v =
        version_kept ps bytes' p (let q = h.0 in omega arith) (set_version bytes p (h.0)) in
      rw (at, (==_iff v v).1 refl)
        (versions_agree_lem ps bytes' (subst (λ n. AllBelow n ps) (sym n) h.1))

length-set_node_versions :
    (v : ℕ) (ps bytes : List ℕ) → length (set_node_versions v ps bytes) ≡ length bytes
unfolding set_node_versions
length-set_node_versions v [] bytes = refl
length-set_node_versions v (p ∷ ps) bytes =
    length-set_node_versions v ps (set bytes p (v + get_or bytes p 0 / 16 * 16))
    ∙ length-set bytes p (v + get_or bytes p 0 / 16 * 16)

places_below : AllBelow 290 node_places
unfolding node_places
places_below = (
  omega arith,
  (
    omega arith,
    (
      omega arith,
      (
        omega arith,
        (
          omega arith,
          (
            omega arith,
            (
              omega arith,
              (
                omega arith,
                (
                  omega arith,
                  (
                    omega arith,
                    (
                      omega arith,
                      (
                        omega arith,
                        (
                          omega arith,
                          (
                            omega arith,
                            (omega arith, (omega arith, (omega arith, (omega arith, tt)))),
                          ),
                        ),
                      ),
                    ),
                  ),
                ),
              ),
            ),
          ),
        ),
      ),
    ),
  ),
)

first_place :
    (v : ℕ) (bytes : List ℕ)
    → v < 16
    → 0 < length bytes
    → node_version_of (get_or (set_node_versions v node_places bytes) 0 0) ≡ v
unfolding node_places set_node_versions
first_place v bytes small h =
    version_kept v small (record_places 8 9 ++ group_places 145)
      (set bytes 0 (v + get_or bytes 0 0 / 16 * 16)) 0
      (let n = length-set bytes 0 (v + get_or bytes 0 0 / 16 * 16) in omega arith)
      (set_version v small bytes 0 h)

-- A scattered node that was written as a whole reads back as it was written, with its node versions
-- one further than that of its first metadata.
pub decode_scattered-encode_scattered :
    (bytes : List ℕ)
    → length bytes ≡ scattered_size
    → decode_scattered (encode_scattered bytes)
      ≡ some (set_node_versions (next_scattered_version bytes) node_places bytes)
unfolding decode_scattered encode_scattered
decode_scattered-encode_scattered bytes h =
    let v = next_scattered_version bytes in
    let small : v < 16 = omega arith in
    let out = set_node_versions v node_places bytes in
    let n : length out ≡ 290 = length-set_node_versions v node_places bytes ∙ h in
    let back : decode_blocks scattered_obj 64 290 (encode_blocks scattered_obj 64 out) ≡ some out =
      subst (λ n. decode_blocks scattered_obj 64 n (encode_blocks scattered_obj 64 out) ≡ some out)
        n
        (decode_blocks-encode_blocks scattered_obj scattered_obj-StartsBefore out 64
          (omega arith)) in
    let first : node_version_of (get_or out 0 0) ≡ v = first_place v bytes small (omega arith) in
    let agree : node_versions_agree v node_places out ≡ true =
      versions_agree_lem v small node_places bytes
        (subst (λ n. AllBelow n node_places) (sym h) places_below) in
    rw (back, first, agree) refl
