-- ===== src/Hop/Tests.antt =====
-- Insertions into a new hopscotch leaf, with a hash that gives the first 16 keys their own slots.
use riiver_rolex.Base.{
  ℕ, ◌+◌, ◌*◌, ◌%◌, ◌≤◌, ◌<◌, ◌≡◌, refl, sym, ap, ◌∙◌, ◌≢◌, ◌↔◌, true, false, Option, some, List,
  [], ◌∷◌, arith, ◌==◌, if◌then◌else◌, ==_iff, ℕ_discrete, ◌>>=◌,
}
use riiver_rolex.Hop.{
  insert_into, hop_loop, find_empty, find_hop, hop, set_hop_bit, unset_hop_bit, search_from,
  Records, null_records, hopscotch_insert, hopscotch_insert_locally, hopscotch_search,
}
use mathlib.Core.Path.{subst}
use riiver_rolex.Hop.Split.{
  hopscotch_split, hopscotch_get_split_key, critical_keys, try_hop, sort_keys, insert_key,
  move_data, move_entry,
}
use riiver_rolex.Hop.Move.{move_data-splits}
use riiver_rolex.Hop.Slots.{dist, IsTable, null_records-IsTable}
use riiver_rolex.Hop.Insert.{Stored, Extends, hopscotch_insert_lem}
use riiver_rolex.Hop.Search.{hopscotch_search-insert_locally, Reads, hopscotch_search_lem}

abbrev identity : ℕ → ℕ
identity k = k

-- Keys 7 to 15, and then 23, whose entry makes room by a hop.
abbrev insert_all : List ℕ → Records → Option Records
insert_all [] r = some r
insert_all (k ∷ ks) r = do r' ← hopscotch_insert_locally identity r k (10 * k); insert_all ks r'

abbrev keys : List ℕ
keys = 7 ∷ 8 ∷ 9 ∷ 10 ∷ 11 ∷ 12 ∷ 13 ∷ 14 ∷ 23 ∷ []

found_after_hop :
    (do r ← insert_all keys null_records; hopscotch_search identity r 23) ≡ some (some 230)
unfolding hopscotch_insert_locally insert_into hop_loop find_empty find_hop hop set_hop_bit
    unset_hop_bit hopscotch_search search_from
found_after_hop = refl

hopscotch_insert_lem_example :
    (out : Option (Records × List ℕ)) × (hopscotch_insert identity null_records 5 50 16 ≡ some out)
    × Extends identity null_records 5 50 16 out
hopscotch_insert_lem_example =
    hopscotch_insert_lem identity 5 50 (λ e. omega arith) null_records 16
      (null_records-IsTable identity) (omega arith)

hopscotch_search_lem_example :
    (out : Option ℕ) × (hopscotch_search identity null_records 5 ≡ some out)
    × Reads null_records 5 out
hopscotch_search_lem_example =
    hopscotch_search_lem identity null_records (null_records-IsTable identity) 5 (λ e. omega arith)

hopscotch_search-insert_locally_example :
    (r' : Records) × (hopscotch_insert_locally identity null_records 23 230 ≡ some r')
    × (hopscotch_search identity r' 23 ≡ some (some 230))
hopscotch_search-insert_locally_example =
    hopscotch_search-insert_locally identity 23 230 null_records 2 (λ e. omega arith)
      (null_records-IsTable identity) (omega arith) refl nothing
  where
    nothing : (w : ℕ) → ¬ Stored null_records 23 w
    nothing w (n, (i, lt, free, e, z)) = omega arith

-- A table with key 23 in its own slot 7.
abbrev one_key : Records
one_key i =
    if i == 7 then record { hop_bit = λ d. d == 0; key = 23; value = 230 } else null_records i

one_key-IsTable : IsTable identity one_key 16
one_key-IsTable = record {
  placed = λ i lt n k. elim (ℕ_discrete i 7) [
    | yes e ↦
        subst
          (λ i.
            (dist (identity (one_key i).key % 16) i < 8)
            × ((one_key (identity (one_key i).key % 16)).hop_bit
                  (dist (identity (one_key i).key % 16) i)
                ≡ true))
          (sym e) (omega arith, refl)
    | no ne ↦
        let c : (i == 7) ≡ false = ground arith in
        let z : (one_key i).key ≡ 0 = rw c refl in absurd (k z)
  ];
  marked = λ a d la ld b. elim (ℕ_discrete a 7) [
    | no ne ↦
        let c : (a == 7) ≡ false = ground arith in
        let z : (one_key a).hop_bit d ≡ false = rw c refl in absurd (ground arith)
    | yes e ↦
        let at : (one_key 7).hop_bit d ≡ true = ap (λ a. (one_key a).hop_bit d) (sym e) ∙ b in
        let z : d ≡ 0 = (==_iff d 0).0 at in
        subst
          (λ x.
            (x % 16 ≢ 16)
            × ((one_key (x % 16)).key ≢ 0)
            × (identity (one_key (x % 16)).key % 16 ≡ a))
          (ap (λ t. 7 + t) (sym z) ∙ ap (λ t. t + d) (sym e))
          ((λ q. omega arith), (λ q. omega arith), sym e)
  ];
}

move_data-splits_example :
    (r' : Records) × (s' : Records) × (move_data identity 20 16 0 one_key null_records
      ≡ some (r', s'))
    × IsTable identity r' 16
    × IsTable identity s' 16
    × ((q w : ℕ)
        → (Stored r' q w ↔ (Stored one_key q w × (q < 20)))
          × (Stored s' q w ↔ (Stored one_key q w × (20 ≤ q))))
move_data-splits_example = move_data-splits identity 20 one_key one_key-IsTable

-- A leaf that is full around the hashed index of the new key, split.
found_after_split :
    (do
      r ← insert_all (1 ∷ 17 ∷ 33 ∷ 49 ∷ 65 ∷ 81 ∷ 97 ∷ 113 ∷ []) null_records
      (r', s) ← hopscotch_split identity r 129 1290
      low ← hopscotch_search identity r' 17
      high ← hopscotch_search identity s 129
      let both : Option ℕ × Option ℕ = (low, high)
      some both)
    ≡ some (some 170, some 1290)
unfolding hopscotch_split hopscotch_get_split_key critical_keys try_hop sort_keys insert_key
    move_data move_entry hopscotch_insert_locally insert_into hop_loop find_empty find_hop hop
    set_hop_bit unset_hop_bit hopscotch_search search_from
found_after_split = refl
