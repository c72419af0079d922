-- ===== src/Chunk/Tests.antt =====
-- Allocations on fresh allocators.
use riiver_rolex.Base.{◌≡◌, some, arith}
use riiver_rolex.Address.{GlobalAddress}
use riiver_rolex.Chunk.{Pool, new_pool, dsm_alloc}
use riiver_rolex.Chunk.Pools.{Allocated}
use riiver_rolex.Chunk.Region.{new_pool-IsPool, dsm_alloc_lem}

dsm_alloc_lem_example :
    (q : GlobalAddress) × (p' : Pool) × (dsm_alloc 3 301 6 new_pool ≡ some (q, p'))
    × Allocated new_pool 3 301 q p'
dsm_alloc_lem_example =
    dsm_alloc_lem 301 (omega arith) (omega arith) new_pool 3 new_pool-IsPool (omega arith)
