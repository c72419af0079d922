-- ===== src/Buffer/Tests.antt =====
-- Buffers of a registered memory at 4096.
use riiver_rolex.Base.{◌+◌, ◌≤◌, ◌<◌, ◌≡◌, refl, ◌⊎◌, some, arith}
use riiver_rolex.Buffer.{
  RdmaBuffer, set_buffer, get_cas_buffer, get_lock_buffer, get_leaf_buffer, get_segment_buffer,
  get_metadata_buffer, get_entry_buffer, buffer_metadata_size, buffer_entry_size, per_coro_rdma_buf,
}
use riiver_rolex.Layout.{allocation_leaf_size}
use riiver_rolex.Buffer.Rings.{rings_apart, leaf_buffers_apart, leaf_calls}

abbrev made : RdmaBuffer
made = record {
  buffer = 4096;
  cas_buffer = 4096;
  lock_buffer = 4352;
  leaf_buffer = 4864;
  segment_buffer = 158976;
  metadata_buffer = 236032;
  entry_buffer = 236352;
  block_buffer = 237216;
  zero_byte = 237216;
  zero_8_byte = 237217;
  range_buffer = 237225;
  cas_buffer_cur = 0;
  lock_buffer_cur = 0;
  leaf_buffer_cur = 0;
  segment_buffer_cur = 0;
  metadata_buffer_cur = 0;
  entry_buffer_cur = 0;
}

is_made : set_buffer 4096 ≡ some made
unfolding set_buffer
is_made = refl

leaf_buffers_apart_example :
    ((get_leaf_buffer made).0 + allocation_leaf_size ≤ (get_leaf_buffer (leaf_calls 3 made)).0)
    ⊎ ((get_leaf_buffer (leaf_calls 3 made)).0 + allocation_leaf_size ≤ (get_leaf_buffer made).0)
leaf_buffers_apart_example = leaf_buffers_apart 3 made (omega arith) (omega arith) (omega arith)

abbrev used : RdmaBuffer
used = record made {
  cas_buffer_cur = 31;
  lock_buffer_cur = 5;
  leaf_buffer_cur = 510;
  segment_buffer_cur = 0;
  metadata_buffer_cur = 1;
  entry_buffer_cur = 2;
}

rings_apart_example :
    (4096 ≤ (get_cas_buffer used).0)
    × ((get_cas_buffer used).0 + 8 ≤ (get_lock_buffer used).0)
    × ((get_lock_buffer used).0 + 8 ≤ (get_leaf_buffer used).0)
    × ((get_leaf_buffer used).0 + allocation_leaf_size ≤ (get_segment_buffer used).0)
    × ((get_segment_buffer used).0 + allocation_leaf_size ≤ (get_metadata_buffer used).0)
    × ((get_metadata_buffer used).0 + buffer_metadata_size ≤ (get_entry_buffer used).0)
    × ((get_entry_buffer used).0 + buffer_entry_size ≤ made.zero_byte)
    × (made.zero_byte < made.zero_8_byte)
    × (made.zero_8_byte + 8 ≤ made.range_buffer)
    × (made.range_buffer < 4096 + per_coro_rdma_buf)
rings_apart_example = rings_apart 4096 made 31 5 510 0 1 2 is_made
