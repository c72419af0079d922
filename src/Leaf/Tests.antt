-- ===== src/Leaf/Tests.antt =====
-- Leaves for the tests: a full leaf, and the local insertion into it.
use riiver_rolex.Base.{ℕ, ◌+◌, ◌*◌, ◌^◌, ◌<◌, refl, inl, none, [], ◌∷◌, arith}
use riiver_rolex.Address.{GlobalAddress, null_addr}
use riiver_rolex.Leaf.{LeafEntry, LeafNode, no_version}
use riiver_rolex.Leaf.Order.{live}
use riiver_rolex.Leaf.Local.{insert_locally}
use riiver_rolex.Leaf.Synonym.{IsPair, Inserted}
use riiver_rolex.Leaf.Pair.{insert_locally-Inserted}
use riiver_rolex.Codec.{FitsEntry, IsStorable}

abbrev pub entry_of : ℕ → ℕ → LeafEntry
entry_of k v = record { h_version = no_version; key = k; value = v }

-- The keys 2, 4, ..., 32.
abbrev pub full_leaf : LeafNode
full_leaf = record {
  metadata = record { h_version = no_version; synonym_ptr = null_addr };
  records =
      entry_of 2 20
      ∷ entry_of 4 40
      ∷ entry_of 6 60
      ∷ entry_of 8 80
      ∷ entry_of 10 100
      ∷ entry_of 12 120
      ∷ entry_of 14 140
      ∷ entry_of 16 160
      ∷ entry_of 18 180
      ∷ entry_of 20 200
      ∷ entry_of 22 220
      ∷ entry_of 24 240
      ∷ entry_of 26 260
      ∷ entry_of 28 280
      ∷ entry_of 30 300
      ∷ entry_of 32 320
      ∷ [];
}

pub full_leaf-IsPair : IsPair full_leaf none
unfolding live
full_leaf-IsPair = record {
  leaf = record {
    size = refl;
    ordered = inl (
      omega arith,
      inl (
        omega arith,
        inl (
          omega arith,
          inl (
            omega arith,
            inl (
              omega arith,
              inl (
                omega arith,
                inl (
                  omega arith,
                  inl (
                    omega arith,
                    inl (
                      omega arith,
                      inl (
                        omega arith,
                        inl (
                          omega arith,
                          inl (
                            omega arith,
                            inl (
                              omega arith,
                              inl (omega arith, inl (omega arith, inl (omega arith, tt))),
                            ),
                          ),
                        ),
                      ),
                    ),
                  ),
                ),
              ),
            ),
          ),
        ),
      ),
    );
  };
  synonym = tt;
  increasing = (
    omega arith,
    (
      omega arith,
      (
        omega arith,
        (
          omega arith,
          (
            omega arith,
            (
              omega arith,
              (
                omega arith,
                (
                  omega arith,
                  (
                    omega arith,
                    (
                      omega arith,
                      (
                        omega arith,
                        (
                          omega arith,
                          (omega arith, (omega arith, (omega arith, (omega arith, tt)))),
                        ),
                      ),
                    ),
                  ),
                ),
              ),
            ),
          ),
        ),
      ),
    ),
  );
}

pub fits_of : (k v : ℕ) → k < 2 ^ 64 → v < 2 ^ 64 → FitsEntry (entry_of k v)
fits_of k v h i = record {
  version = record { node = omega arith; entry = omega arith };
  key = h;
  value = i;
}

pub full_leaf-IsStorable : IsStorable full_leaf
full_leaf-IsStorable = record {
  size = refl;
  version = record { node = omega arith; entry = omega arith };
  node_id = omega arith;
  offset = omega arith;
  entries = (
    fits_of 2 20 (omega arith) (omega arith),
    (
      fits_of 4 40 (omega arith) (omega arith),
      (
        fits_of 6 60 (omega arith) (omega arith),
        (
          fits_of 8 80 (omega arith) (omega arith),
          (
            fits_of 10 100 (omega arith) (omega arith),
            (
              fits_of 12 120 (omega arith) (omega arith),
              (
                fits_of 14 140 (omega arith) (omega arith),
                (
                  fits_of 16 160 (omega arith) (omega arith),
                  (
                    fits_of 18 180 (omega arith) (omega arith),
                    (
                      fits_of 20 200 (omega arith) (omega arith),
                      (
                        fits_of 22 220 (omega arith) (omega arith),
                        (
                          fits_of 24 240 (omega arith) (omega arith),
                          (
                            fits_of 26 260 (omega arith) (omega arith),
                            (
                              fits_of 28 280 (omega arith) (omega arith),
                              (
                                fits_of 30 300 (omega arith) (omega arith),
                                (fits_of 32 320 (omega arith) (omega arith), tt),
                              ),
                            ),
                          ),
                        ),
                      ),
                    ),
                  ),
                ),
              ),
            ),
          ),
        ),
      ),
    ),
  );
}

-- An allocator that counts.
abbrev count : ℕ → GlobalAddress × ℕ
count n = (record { node_id = 0; offset = 64 * (n + 1) }, n + 1)

insert_locally-Inserted_example :
    Inserted 7 70 full_leaf none (insert_locally count 7 70 full_leaf none null_addr 0)
insert_locally-Inserted_example =
    insert_locally-Inserted count full_leaf-IsPair tt 0 refl 7 70 (omega arith) null_addr
