-- ===== src/Mbuf/Alloc.antt =====
-- Resetting an mbuf, and allocating one or many.
use dpdk_cr.Common.{
  ℕ, zero, suc, ◌+◌, ◌-◌, ◌%◌, min, ◌==◌, if◌then◌else◌, Option, none, some, ◌>>=◌, pure, Table,
  store, u16, ℤ,
}
use dpdk_cr.Mbuf.Heap.{TxOffload, Mbuf, Heap, null}

-- MBUF_INVALID_PORT
abbrev pub mbuf_invalid_port : ℕ
mbuf_invalid_port = u16 - 1

-- all of `tx_offload` 0
abbrev pub no_offload : TxOffload
no_offload = record {
  l2_len = 0;
  l3_len = 0;
  l4_len = 0;
  tso_segsz = 0;
  outer_l3_len = 0;
  outer_l2_len = 0;
}

module _ (pktmbuf_headroom : ℕ) where
  -- `rte_pktmbuf_reset_headroom`
  unfoldable pub reset_headroom : Mbuf → Mbuf
  reset_headroom x = record x { data_off = min pktmbuf_headroom (x.buf_len % u16) }

  -- `rte_pktmbuf_reset`
  unfoldable pub reset : Heap → ℕ → Heap
  reset h m =
      let x = record (h m) {
        next = null;
        pkt_len = 0;
        tx_offload = no_offload;
        vlan_tci = 0;
        vlan_tci_outer = 0;
        nb_segs = 1;
        port = mbuf_invalid_port;
        ol_flags = 0;
        packet_type = 0;
      } in
      store h m (record (reset_headroom x) { data_len = 0 })

  -- `rte_pktmbuf_alloc`, where `got` is what `rte_mempool_get` has given, if it has
  unfoldable pub alloc : Heap → Option ℕ → ℕ × Heap
  alloc h none = (null, h)
  alloc h (some m) = (m, reset h m)

  -- `k` times the body that the loop of `rte_pktmbuf_alloc_bulk` repeats four times, from `idx` on
  unfoldable pub reset_some : ℕ → Table ℕ → ℕ → Heap → Heap
  reset_some zero mbufs idx h = h
  reset_some (suc k) mbufs idx h = reset_some k mbufs (idx + 1) (reset h (mbufs idx))

  -- the loop, from its test on; `none` is a loop that has not ended after `fuel` rounds
  unfoldable pub reset_rounds : ℕ → Table ℕ → (count idx : ℕ) → Heap → Option Heap
  reset_rounds zero mbufs count idx h = none
  reset_rounds (suc fuel) mbufs count idx h =
      let rest = reset_rounds fuel mbufs count (idx + 4) (reset_some 4 mbufs idx h) in
      if idx == count then some h else rest

  -- The switch enters the loop at its test, or so many repetitions before its end.
  unfoldable pub alloc_bulk : ℕ → (rc : ℤ) → Table ℕ → ℕ → Heap → Option (ℤ × Heap)
  alloc_bulk fuel (ℤ.pos zero) mbufs count h = do
    h' ← reset_rounds fuel mbufs count (count % 4) (reset_some (count % 4) mbufs 0 h)
    pure (ℤ.pos 0, h')
  alloc_bulk fuel rc mbufs count h = some (rc, h)
