-- ===== src/Speculative/Sound.antt =====
-- A speculative read comes back, and what it returns lies in the leaf under the key.
use riiver_rolex.Base.{
  ℕ, zero, suc, ◌-◌, ◌*◌, ◌≤◌, ◌<◌, ◌≡◌, refl, sym, ◌∙◌, ◌⊎◌, inl, inr, ltb, dec_lt, true, false,
  Option, none, some, List, [], ◌∷◌, map, arith, ◌==◌, Bool-cases, Option-cases, length, get_elem?,
  get_or, ==_iff, lt→ltb,
}
use mathlib.Core.Path.{subst}
use riiver_rolex.Base.Int.{ℤ}
use riiver_rolex.Address.{GlobalAddress}
use riiver_rolex.Key.{Key, key2int}
use riiver_rolex.Leaf.{LeafEntry, LeafNode, leaf_span_size, null_entry}
use riiver_rolex.Codec.{IsStorable, next_node_version, set_entry_version, increment_node_versions}
use riiver_rolex.Version.Nodes.{encode_node_versions}
use riiver_rolex.Hot.{
  IdxCacheEntry, Bucket, IdxCache, is_at, touch, touch_first, get_hashed_cache_table_index,
  set_bucket, search_idx_from_cache,
}
use riiver_rolex.Hot.Candidates.{In, Remembers, Cached, is_at_iff}
use riiver_rolex.Hot.Search.{Searched, search_idx_from_cache_lem}
use riiver_rolex.Hot.Found.{add_to_cache_old}
use riiver_rolex.Speculative.{Hit, accept, read_at, speculative_read}
use riiver_rolex.Speculative.Entry.{leaf_entry_read-encode_node_versions}

-- An entry that is cached is there for add_to_cache.
touch_first-of_In :
    (a : GlobalAddress) (i : ℕ) (k : Key) (b : Bucket) (f : ℤ) (e : IdxCacheEntry)
    → In (some e) b
    → Remembers a i k f e
    → (r : Bucket) × (touch_first a i k b ≡ some r)
unfolding touch_first
touch_first-of_In a i k [] f e h m = absurd h
touch_first-of_In a i k (none ∷ b) f e (inl n) m = cc
touch_first-of_In a i k (none ∷ b) f e (inr h) m =
    let (r, p) = touch_first-of_In a i k b f e h m in (none ∷ r, rw p refl)
touch_first-of_In a i k (some x ∷ b) f e h m = elim (Bool-cases (is_at a i x)) [
  | inl t ↦ (some (touch k x) ∷ b, rw t refl)
  | inr t ↦ elim h [
    | inl q ↦
        let same : e ≡ x = cc in
        let at : is_at a i e ≡ true = (is_at_iff a i e).1 (m.leaf_addr, m.kv_idx) in
        let at' : is_at a i x ≡ true = subst (λ y. is_at a i y ≡ true) same at in cc
    | inr h' ↦ let (r, p) = touch_first-of_In a i k b f e h' m in (some x ∷ r, rw (t, p) refl)
  ]
]

-- What a search returns is cached, at an index that was searched.
found_lem :
    (c : IdxCache) (a : GlobalAddress) (l r : ℕ) (k : Key) (j : ℕ)
    → search_idx_from_cache c a l r k ≡ some j
    → (c.is_disabled ≡ false) × Searched l r j × ((f : ℤ) × Cached c a j k f)
unfolding search_idx_from_cache
found_lem c a l r k j h = elim (Bool-cases c.is_disabled) [
  | inl t ↦ let h' = rw t at h in cc
  | inr t ↦ elim (search_idx_from_cache_lem c a l r k t) [
    | inl (i, g, q, s, m, _) ↦
        let same : i ≡ j = cc in
        (t, subst (Searched l r) same s, subst (λ x. (f : ℤ) × Cached c a x k f) same (g, m))
    | inr (q, _) ↦ cc
  ]
]

-- The node versions are apart from keys and values.
set_entry_version-keeps :
    (n idx : ℕ) (es : List LeafEntry)
    → idx < length es
    → (e : LeafEntry) × (get_elem? es idx ≡ some e)
      × ((get_or (map (set_entry_version n) es) idx null_entry).key ≡ e.key)
      × ((get_or (map (set_entry_version n) es) idx null_entry).value ≡ e.value)
set_entry_version-keeps n idx [] lt = absurd (omega arith)
set_entry_version-keeps n zero (e ∷ es) lt = (e, refl, refl, refl)
set_entry_version-keeps n (suc idx) (e ∷ es) lt = set_entry_version-keeps n idx es (omega arith)

-- The read of a record, for an index that is cached, comes back; it is a hit if the key is the one.
accept_lem :
    (c : IdxCache) (draws : List ℕ) (a : GlobalAddress) (k : Key) (idx : ℕ) (f : ℤ)
    → c.is_disabled ≡ false
    → Cached c a idx k f
    → (entry : LeafEntry) (found : ℕ → Hit)
    → (h : Option Hit) × (c' : IdxCache) × (accept c draws a k idx entry found
        ≡ some (h, c', draws))
      × ((x : Hit) → h ≡ some x → (found entry.value ≡ x) × (entry.key ≡ key2int k))
      × (h ≡ none → c' ≡ c)
unfolding accept
accept_lem c draws a k idx f on (e, m, rem) entry found =
    let h = get_hashed_cache_table_index a idx in
    let (b, touched) = touch_first-of_In a idx k (c.hash_table h) f e m rem in
    let added = add_to_cache_old c draws a idx k b on touched in
    elim (Bool-cases (entry.key == key2int k)) [
      | inl t ↦ (
        some (found entry.value),
        record c { hash_table = set_bucket c.hash_table h b },
        rw (t, added) refl,
        (λ x q. (cc, (==_iff entry.key (key2int k)).0 t)),
        (λ q. cc),
      )
      | inr t ↦ (none, c, rw t refl, (λ x q. cc), (λ q. refl))
    ]

-- A hit is a record of the leaf with the key.
abbrev pub IsHit : GlobalAddress → LeafNode → Key → Hit → Type 0
IsHit leaf_addr l k h =
    (h.leaf_addr ≡ leaf_addr)
    × ((e : LeafEntry) × (get_elem? l.records h.speculative_idx ≡ some e)
        × (e.key ≡ key2int k)
        × (e.value ≡ h.value))

module _ (mem : GlobalAddress → List ℕ) (stale : List ℕ) (behind : ℕ → LeafEntry)
    (syn_leaf_addrs : GlobalAddress → Option GlobalAddress) (leaf_addr : GlobalAddress) where
  -- A hit at the index of a record of the known synonym leaf, in the range: key and value are those of
  -- what lies at the index behind the records of the leaf buffer.
  abbrev pub IsBehind : ℕ → ℕ → Key → Hit → Type 0
  IsBehind l_idx r_idx k h =
      (syn_leaf_addrs leaf_addr ≡ some h.leaf_addr)
      × ((i : ℕ) × Searched l_idx r_idx i
          × (leaf_span_size ≤ i)
          × (h.speculative_idx ≡ i - leaf_span_size)
          × ((behind i).key ≡ key2int k)
          × ((behind i).value ≡ h.value))

  abbrev Comes :
      IdxCache → List ℕ → LeafNode → ℕ → ℕ → Key → Option (Option Hit × IdxCache × List ℕ) → Type 0
  Comes c draws l l_idx r_idx k o =
      (h : Option Hit) × (c' : IdxCache) × (o ≡ some (h, c', draws))
      × ((x : Hit) → h ≡ some x → IsHit leaf_addr l k x ⊎ IsBehind l_idx r_idx k x)
      × (h ≡ none → c' ≡ c)

  module _ (l : LeafNode) (st : IsStorable l) (image : mem leaf_addr ≡ encode_node_versions l)
      (c : IdxCache) (draws : List ℕ) (k : Key) (idx : ℕ) (f : ℤ) (on : c.is_disabled ≡ false)
      (m : Cached c leaf_addr idx k f) (l_idx r_idx : ℕ) where
    -- At the index of a record of the leaf.
    read_inside :
        idx < leaf_span_size
        → Comes c draws l l_idx r_idx k
            (read_at mem stale behind syn_leaf_addrs c draws leaf_addr k idx)
    unfolding read_at increment_node_versions
    read_inside lt =
        let (e, at, key, value) =
          set_entry_version-keeps (next_node_version l.records) idx l.records
            (omega (arith, st.size)) in
        let entry = get_or (increment_node_versions l).records idx null_entry in
        let found : ℕ → Hit =
          λ v. record { value = v; leaf_addr = leaf_addr; speculative_idx = idx } in
        let (h, c', q, hit, same) = accept_lem c draws leaf_addr k idx f on m entry found in
        (
          h,
          c',
          rw
              (
                lt→ltb idx leaf_span_size lt,
                image,
                leaf_entry_read-encode_node_versions stale l idx st lt,
              )
              q,
          (λ x p.
              let (w, key') = hit x p in
              inl (subst (IsHit leaf_addr l k) w (refl, (e, at, sym key ∙ key', sym value)))),
          same,
        )

    -- At the index of a record of the synonym leaf.
    read_behind :
        ((p : GlobalAddress)
          → syn_leaf_addrs leaf_addr ≡ some p
          → (s : LeafNode) × IsStorable s × (mem p ≡ encode_node_versions s))
        → Searched l_idx r_idx idx
        → leaf_span_size ≤ idx
        → idx < 2 * leaf_span_size
        → Comes c draws l l_idx r_idx k
            (read_at mem stale behind syn_leaf_addrs c draws leaf_addr k idx)
    unfolding read_at
    read_behind syns searched le lt =
        let far : ltb idx leaf_span_size ≡ false = ground arith in
        elim (Option-cases (syn_leaf_addrs leaf_addr)) [
          | inl e ↦ (none, c, rw (far, e) refl, (λ x q. cc), (λ q. refl))
          | inr (p, e) ↦
              let (s, st', image') = syns p e in
              let i = idx - leaf_span_size in
              let found : ℕ → Hit = λ v. record { value = v; leaf_addr = p; speculative_idx = i } in
              let (h, c', q, hit, same) =
                accept_lem c draws leaf_addr k idx f on m (behind idx) found in
              (
                h,
                c',
                rw
                    (
                      far,
                      e,
                      image',
                      leaf_entry_read-encode_node_versions stale s i st' (omega arith),
                    )
                    q,
                (λ x u.
                    let (w, key) = hit x u in
                    inr
                      (subst (IsBehind l_idx r_idx k) w (e, (idx, searched, le, refl, key, refl)))),
                same,
              )
        ]

  -- With the leaf in memory, written as a whole, and the known synonym leaf likewise, where the cache
  -- has no index from 32 on for the key in the leaf: a speculative read over any range comes back. If it
  -- returns true, then the value is that of a record of the leaf under the key, or, at an index of the
  -- range from 16 on, that of what lies behind the records of the leaf buffer, if its key is the key. If
  -- it returns false, the cache is unchanged.
  pub speculative_read_lem :
      (l : LeafNode)
      → IsStorable l
      → mem leaf_addr ≡ encode_node_versions l
      → ((p : GlobalAddress)
          → syn_leaf_addrs leaf_addr ≡ some p
          → (s : LeafNode) × IsStorable s × (mem p ≡ encode_node_versions s))
      → (c : IdxCache) (draws : List ℕ) (l_idx r_idx : ℕ) (k : Key)
      → ((i : ℕ) (f : ℤ) → Cached c leaf_addr i k f → i < 2 * leaf_span_size)
      → (h : Option Hit) × (c' : IdxCache) × (speculative_read mem stale behind syn_leaf_addrs c
            draws leaf_addr l_idx r_idx k
          ≡ some (h, c', draws))
        × ((x : Hit) → h ≡ some x → IsHit leaf_addr l k x ⊎ IsBehind l_idx r_idx k x)
        × (h ≡ none → c' ≡ c)
  unfolding speculative_read
  speculative_read_lem l st image syns c draws l_idx r_idx k few =
      elim (Option-cases (search_idx_from_cache c leaf_addr l_idx r_idx k)) [
        | inl e ↦ (none, c, rw (e, speculative_read) refl, (λ x q. cc), (λ q. refl))
        | inr (idx, e) ↦
            let (on, s, (f, m)) = found_lem c leaf_addr l_idx r_idx k idx e in
            let read : Comes c draws l l_idx r_idx k
                (read_at mem stale behind syn_leaf_addrs c draws leaf_addr k idx) =
              elim (dec_lt idx leaf_span_size) [
                | yes lt ↦ read_inside l st image c draws k idx f on m l_idx r_idx lt
                | no ge ↦
                    read_behind l st image c draws k idx f on m l_idx r_idx syns s (omega arith)
                      (few idx f m)
              ] in
            let (h, c', q, hit, same) = read in (h, c', rw (e, speculative_read) q, hit, same)
      ]
