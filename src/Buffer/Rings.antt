-- ===== src/Buffer/Rings.antt =====
-- The rings of a registered buffer do not overlap, and a ring comes back to a buffer only after all
-- the others.
use riiver_rolex.Base.{
  ℕ, zero, suc, ◌+◌, ◌%◌, ◌≤◌, ◌<◌, ◌≡◌, refl, ◌⊎◌, inl, inr, some, arith, dec_lt,
}
use riiver_rolex.Layout.{allocation_leaf_size}
use riiver_rolex.Buffer.{
  RdmaBuffer, set_buffer, get_cas_buffer, get_lock_buffer, get_leaf_buffer, get_segment_buffer,
  get_metadata_buffer, get_entry_buffer, leaf_buffer_cnt, buffer_metadata_size, buffer_entry_size,
  per_coro_rdma_buf,
}

-- The buffers that the next call of each method returns, in order and inside the registered memory.
pub rings_apart :
    (start : ℕ) (b : RdmaBuffer) (c l f s m e : ℕ)
    → set_buffer start ≡ some b
    → let used = record b {
      cas_buffer_cur = c;
      lock_buffer_cur = l;
      leaf_buffer_cur = f;
      segment_buffer_cur = s;
      metadata_buffer_cur = m;
      entry_buffer_cur = e;
    } in
      (start ≤ (get_cas_buffer used).0)
      × ((get_cas_buffer used).0 + 8 ≤ (get_lock_buffer used).0)
      × ((get_lock_buffer used).0 + 8 ≤ (get_leaf_buffer used).0)
      × ((get_leaf_buffer used).0 + allocation_leaf_size ≤ (get_segment_buffer used).0)
      × ((get_segment_buffer used).0 + allocation_leaf_size ≤ (get_metadata_buffer used).0)
      × ((get_metadata_buffer used).0 + buffer_metadata_size ≤ (get_entry_buffer used).0)
      × ((get_entry_buffer used).0 + buffer_entry_size ≤ b.zero_byte)
      × (b.zero_byte < b.zero_8_byte)
      × (b.zero_8_byte + 8 ≤ b.range_buffer)
      × (b.range_buffer < start + per_coro_rdma_buf)
unfolding set_buffer get_cas_buffer get_lock_buffer get_leaf_buffer get_segment_buffer
    get_metadata_buffer get_entry_buffer
rings_apart start b c l f s m e is = (
  ground arith,
  ground arith,
  ground arith,
  ground arith,
  ground arith,
  ground arith,
  ground arith,
  ground arith,
  ground arith,
  ground arith,
)

-- `n` calls of `get_leaf_buffer`.
abbrev pub leaf_calls : ℕ → RdmaBuffer → RdmaBuffer
leaf_calls zero b = b
leaf_calls (suc n) b = leaf_calls n (get_leaf_buffer b).1

calls-cur :
    (n : ℕ) (b : RdmaBuffer)
    → b.leaf_buffer_cur < leaf_buffer_cnt
    → ((leaf_calls n b).leaf_buffer_cur ≡ (b.leaf_buffer_cur + n) % leaf_buffer_cnt)
      × ((leaf_calls n b).leaf_buffer ≡ b.leaf_buffer)
unfolding get_leaf_buffer
calls-cur zero b h = (omega arith, refl)
calls-cur (suc n) b h =
    let r = calls-cur n (get_leaf_buffer b).1 (omega arith) in (omega (arith, r.0), r.1)

-- A leaf buffer is not handed out again by the next 511 calls: between two calls that are fewer than
-- 512 apart, the buffers do not overlap.
pub leaf_buffers_apart :
    (n : ℕ) (b : RdmaBuffer)
    → b.leaf_buffer_cur < leaf_buffer_cnt
    → 0 < n
    → n < leaf_buffer_cnt
    → let first = (get_leaf_buffer b).0 in
      let later = (get_leaf_buffer (leaf_calls n b)).0 in
      (first + allocation_leaf_size ≤ later) ⊎ (later + allocation_leaf_size ≤ first)
unfolding get_leaf_buffer
leaf_buffers_apart n b h pos lt =
    let r = calls-cur n b h in
    let base = r.1 in
    let cur = r.0 in
    elim (dec_lt ((b.leaf_buffer_cur + 1) % leaf_buffer_cnt)
      (((leaf_calls n b).leaf_buffer_cur + 1) % leaf_buffer_cnt)) [
        | yes l ↦ inl (omega arith)
        | no l ↦ inr (omega arith)
      ]
