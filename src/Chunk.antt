-- ===== src/Chunk.antt =====
-- The memory of the synonym region: chunks by the home agent (include/GlobalAllocator.h, set up and
-- called by src/Directory.cpp), pieces of a chunk by each client thread (include/LocalAllocator.h),
-- and DSM::alloc (include/DSM.h) over both. There is one memory node and one directory.
pub mod Pools
pub mod Room
pub mod Kept
pub mod Region
pub mod Leaves
mod Tests
use riiver_rolex.Base.{
  ℕ, zero, suc, ◌+◌, ◌-◌, ◌*◌, ◌/◌, ◌%◌, ◌^◌, ◌≤◌, ◌<◌, min, max, ◌≡◌, refl, sym, ap, ◌∙◌, ◌≢◌, ◌↔◌,
  ◌⊎◌, inl, inr, Bool, true, false, not, ◌&&◌, ◌||◌, Option, none, some, List, [], ◌∷◌, ◌++◌, map,
  arith, ltb, leb, ◌==◌, if◌then◌else◌, Bool-cases, Option-cases, length, get_elem?, set, get_or,
  take, drop, replicate, length-append, length-set, length-take, length-drop, length-replicate,
  length-map, ==_iff, dec_lt, ℕ_discrete, get_elem?-set_self, get_elem?-set_ne, take-append-drop,
  ltb→lt, lt→ltb, ◌>>=◌,
}
use riiver_rolex.Address.{GlobalAddress, null_addr, addr_eq}
use riiver_rolex.Layout.{round_up, chunk_size, syn_region_offset, mb}

pub record GlobalAllocator : Type 0 where
  pub start : GlobalAddress
  pub bitmap : ℕ → Bool  -- of `bitmap_len` entries
  pub bitmap_len : ℕ
  pub bitmap_tail : ℕ

-- the constructor
abbrev pub new_global : GlobalAddress → ℕ → GlobalAllocator
new_global start size = record {
  start = start;
  bitmap = λ i. i == 0;
  bitmap_len = size / chunk_size;
  bitmap_tail = 1;
}

abbrev pub set_bit : (ℕ → Bool) → ℕ → Bool → ℕ → Bool
set_bit bitmap i b j = if j == i then b else bitmap j

-- `none` where an assertion fails
unfoldable pub alloc_chunck : GlobalAllocator → Option (GlobalAddress × GlobalAllocator)
alloc_chunck g =
    if leb g.bitmap_len g.bitmap_tail
    then none
    else if g.bitmap g.bitmap_tail
    then none
    else some (
      record g.start { offset = (g.start.offset + g.bitmap_tail * chunk_size) % 2 ^ 48 },
      record g { bitmap = set_bit g.bitmap g.bitmap_tail true; bitmap_tail = g.bitmap_tail + 1 },
    )

abbrev pub free_chunk : GlobalAllocator → GlobalAddress → GlobalAllocator
free_chunk g addr = record g {
  bitmap = set_bit g.bitmap ((addr.offset - g.start.offset) / chunk_size) false;
}

pub record LocalAllocator : Type 0 where
  pub head : GlobalAddress
  pub cur : GlobalAddress
  pub free_list : List (GlobalAddress × ℕ)

abbrev pub new_local : LocalAllocator
new_local = record { head = null_addr; cur = null_addr; free_list = [] }

-- The first freed piece that is large enough, taken out of the list.
unfoldable pub take_free :
    ℕ → List (GlobalAddress × ℕ) → Option (GlobalAddress × List (GlobalAddress × ℕ))
take_free size [] = none
take_free size ((a, n) ∷ l) =
    let rest = (do (b, l') ← take_free size l; some (b, (a, n) ∷ l')) in
    if leb size n then some (a, l) else rest

-- What `malloc` returns, with the flag that it sets.
pub record Malloc : Type 0 where
  pub res : GlobalAddress
  pub need_chunck : Bool
  pub local : LocalAllocator

unfoldable pub malloc : ℕ → ℕ → LocalAllocator → Malloc
malloc size align_bit a =
    let cur =
      if align_bit == 0
      then a.cur
      else record a.cur { offset = round_up a.cur.offset align_bit % 2 ^ 48 } in
    if addr_eq a.head null_addr || ltb (a.head.offset + chunk_size) (cur.offset + size)
    then elim (take_free size a.free_list) [
      | some (b, l) ↦ record {
        res = b;
        need_chunck = false;
        local = record a { cur = cur; free_list = l };
      }
      | none ↦ record { res = cur; need_chunck = true; local = record a { cur = cur } }
    ]
    else record {
      res = cur;
      need_chunck = false;
      local = record a { cur = record cur { offset = (cur.offset + size) % 2 ^ 48 } };
    }

abbrev pub set_chunck : LocalAllocator → GlobalAddress → LocalAllocator
set_chunck a addr = record a { head = addr; cur = addr }

abbrev pub free : LocalAllocator → GlobalAddress → ℕ → LocalAllocator
free a addr size = record a { free_list = a.free_list ++ (addr, size) ∷ [] }

-- The home agent's allocator and, for each client thread, its own.
pub record Pool : Type 0 where
  pub chunks : GlobalAllocator
  pub local : ℕ → LocalAllocator

abbrev pub gb : ℕ
gb = 1024 * mb

abbrev pub dsm_size : ℕ
dsm_size = 64 * gb

-- the constructor of `Directory`, and the threads' fresh allocators
abbrev pub new_pool : Pool
new_pool = record {
  chunks =
      new_global (record { node_id = 0; offset = syn_region_offset })
        (dsm_size - syn_region_offset);
  local = λ t. new_local;
}

abbrev pub set_local : (ℕ → LocalAllocator) → ℕ → LocalAllocator → ℕ → LocalAllocator
set_local f t a u = if u == t then a else f u

-- DSM::alloc by thread `t`: the call to the directory is `process_message` on MALLOC.
unfoldable pub dsm_alloc : ℕ → ℕ → ℕ → Pool → Option (GlobalAddress × Pool)
dsm_alloc t size align_bit p =
    let m = malloc size align_bit (p.local t) in
    if m.need_chunck
    then (do
      (addr, chunks) ← alloc_chunck p.chunks
      let again = malloc size align_bit (set_chunck m.local addr)
      some (again.res, record { chunks = chunks; local = set_local p.local t again.local }))
    else some (m.res, record p { local = set_local p.local t m.local })
