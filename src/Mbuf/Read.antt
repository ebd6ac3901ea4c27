-- ===== src/Mbuf/Read.antt =====
-- `rte_pktmbuf_read`.
use dpdk_cr.Common.{ℕ, leb, if◌then◌else◌, add32}
use dpdk_cr.Mbuf.Heap.{Heap}
use dpdk_cr.Mbuf.Segment.{mtod_offset}

-- `copy_out` is `__rte_pktmbuf_read`, which DPDK's library defines: it collects bytes of several
-- segments in `buf`, or returns NULL.
unfoldable pub read : (copy_out : Heap → (m off len buf : ℕ) → ℕ) → Heap → (m off len buf : ℕ) → ℕ
read copy_out h m off len buf =
    if leb (add32 off len) ((h m).data_len) then mtod_offset (h m) off else copy_out h m off len buf
