-- ===== src/Lib.antt =====
-- ROLEX: an ordered key-value index in disaggregated memory, for fixed-size keys and values.
--
-- The index keeps its leaves in the memory of memory nodes. A client predicts with learned models
-- which leaves may hold a key, reads them with one-sided reads, and inserts under a lock word that
-- lies behind each leaf. A leaf holds 16 entries in order of key; what does not fit goes to its
-- synonym leaf, which is allocated when it is first needed. The parts and the files that model them:
--
--   Key, Key/*        include/Key.h: keys as arrays of bytes, their numbers, their arithmetic.
--   Address, Address/* include/GlobalAddress.h and the packed addresses of include/Metadata.h.
--   Layout, Layout/*  the constants of include/Common.h, and RolexIndex::get_leaf_address and
--                     get_lock_info of src/Rolex.cpp: where the leaves and the lock words lie.
--   Leaf, Leaf/*      include/LeafNode.h, and the part of RolexIndex::insert that changes the fetched
--                     leaves in local buffers, with RolexIndex::insert_into_syn_leaf_locally.
--   Cache             include/RolexCache.h: the queries of the learned index.
--   Codec             the image of a node in remote memory (include/VersionManager.h), as an interface.
--   Version, Version/* include/VersionManager.h on bytes, which fills that interface: the layout of a
--                     node, the version before every cache line, segments of a node.
--   Hop, Hop/*        the leaf as a hopscotch table (HOPSCOTCH_LEAF_NODE): hopscotch_insert_and_unlock,
--                     hopscotch_insert_locally, hopscotch_split_and_unlock with its split key, and
--                     the search of a leaf in src/Rolex.cpp.
--   Alloc             what the index asks of DSM::alloc, as an interface.
--   Chunk, Chunk/*    include/GlobalAllocator.h, include/LocalAllocator.h, DSM::alloc of include/DSM.h
--                     and the MALLOC message of src/Directory.cpp, which fill that interface.
--   Tree, Tree/*      RolexIndex in src/Rolex.cpp: insert, update, search, range_query, and the
--                     locking, fetching and writing that they are made of.
--   Lock, Lock/*      include/WRLock.h: the readers-writer lock, as the steps of its threads.
--   LocalLock, LocalLock/* include/LocalLockTable.h: the ticket queues of a local lock, the results that
--                     readers hand over.
--   Buffer, Buffer/*  include/RdmaBuffer.h: the rings of registered buffers of a coroutine.
--   Scatter, Scatter/* include/MetadataManager.h (METADATA_REPLICATION) on the bytes of a segment,
--                     and the whole nodes of include/LeafVersionManager.h.
--   Hot, Hot/*        include/IdxCache.h (SPECULATIVE_READ): the cache of hot entries, its search, its
--                     additions and evictions.
--   Speculative, Speculative/* RolexIndex::speculative_read and leaf_entry_read of src/Rolex.cpp, which
--                     use that cache and Version.
--   Base, Base/*      Boolean tests, lists and integers that the others share.
--
-- The model is that of the default build, in which every option of CMakeLists.txt is off
-- (HOPSCOTCH_LEAF_NODE, VACANCY_AWARE_LOCK, METADATA_REPLICATION, ENABLE_VAR_LEN_KV,
-- TREE_ENABLE_READ_DELEGATION, TREE_ENABLE_WRITE_COMBINING) and SPECULATIVE_READ and SYN_CACHE are not
-- defined. Five parts stand alone: Hop is about the records of a leaf in a build with
-- HOPSCOTCH_LEAF_NODE, Scatter about the bytes of a leaf in a build with METADATA_REPLICATION, Hot
-- and Speculative about the cache of a build with SPECULATIVE_READ, LocalLock about the table of a
-- build with TREE_ENABLE_READ_DELEGATION or TREE_ENABLE_WRITE_COMBINING. There is one memory node and
-- one directory, as include/Common.h says.
--
-- Correspondence. A `Key` inside a leaf is the number that key2int gives; key2int128, which
-- include/RolexCache.h uses, gives the same number for keys of eight bytes. A `Dsm` is the remote
-- memory: an image at each address, a lock word behind each leaf, the state of the allocator. An
-- operation is a function from it; `none` stands for an operation that does not come back (an
-- assertion that fails, a read that is refused again and again, a lock that stays taken). Step 3 of
-- insert is Leaf.Local.insert_locally, its step 4 is Tree.staged_nodes with write_nodes_and_unlock.
-- Most loops of the source run over a leaf, a range or a list, and their recursions are structural.
-- On fuel are Key.borrow, which has as many rounds as the byte that is taken away and needs one,
-- Hop.hop_loop, which has 16 rounds and goes back at least one slot in each, and the loops of Version,
-- which have a round for each byte and take 63 bytes in each. The eviction of Hot runs on the random
-- numbers that it is given, two of them at least in a round, and is `none` where they end first.
--
-- The time windows of LocalLock are no part of its state, since the threads of both queues change them
-- with no lock in common: its steps are those for any value that a thread may read there.
--
-- Not modelled: operations of the index that interleave, the coroutines, statistics, the training of the models,
-- the other build options, RDMA, connections, debugging, and the benchmarks. include/rolex_libs is a
-- copy of another project's library: its get_leaf_range is a field of RolexCache. A full synonym leaf,
-- where the source overwrites a record, is in the model; the theorems on insert ask for a synonym leaf
-- that is not full.
pub mod Address
pub mod Alloc
pub mod Base
pub mod Buffer
pub mod Cache
pub mod Chunk
pub mod Codec
pub mod Key
pub mod Layout
pub mod Leaf
pub mod LocalLock
pub mod Lock
pub mod Tree
pub mod Version
pub mod Hop
pub mod Hot
pub mod Scatter
pub mod Speculative
