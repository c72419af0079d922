-- ===== src/Alloc.antt =====
-- What the index asks of `DSM::alloc` (include/DSM.h): addresses above the leaf region that were
-- not handed out before. Chunk.Leaves shows it of the allocators.
use riiver_rolex.Base.{◌^◌, ◌≤◌, ◌<◌, ◌≡◌, ◌≢◌}
use riiver_rolex.Address.{GlobalAddress}
use riiver_rolex.Layout.{syn_region_offset}

-- An address of the synonym region.
pub record IsSynAddress (p : GlobalAddress) : Type 0 where
  pub node_id : p.node_id ≡ 0
  pub low : syn_region_offset ≤ p.offset
  pub high : p.offset < 2 ^ 48

pub record Allocator (A : Type 0) : Type 1 where
  pub alloc : A → GlobalAddress × A
  -- what may still be handed out
  pub Free : A → GlobalAddress → Type 0
  -- there is memory left for one more leaf
  pub CanAlloc : A → Type 0
  pub alloc-Free : (h : A) → CanAlloc h → Free h (alloc h).0
  pub alloc_rest :
      (h : A) → CanAlloc h → (p : GlobalAddress) → Free (alloc h).1 p → Free h p × (p ≢ (alloc h).0)
  pub Free-syn : (h : A) (p : GlobalAddress) → Free h p → IsSynAddress p
