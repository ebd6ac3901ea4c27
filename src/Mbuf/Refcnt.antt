-- ===== src/Mbuf/Refcnt.antt =====
-- The reference counters of mbufs. A counter is 16 bits wide, and so is the value added to it, where -1
-- is 65535.
use dpdk_cr.Common.{ℕ, ◌+◌, ◌%◌, ◌==◌, if◌then◌else◌, store, u16, add16}
use dpdk_cr.Mbuf.Heap.{Heap}

abbrev pub refcnt_read : Heap → ℕ → ℕ
refcnt_read h m = (h m).refcnt

unfoldable pub refcnt_set : Heap → ℕ → ℕ → Heap
refcnt_set h m new_value = store h m (record (h m) { refcnt = new_value })

-- `__rte_mbuf_refcnt_update` and `rte_mbuf_refcnt_update` of the build without atomic counters: the new
-- value, and the mbufs
unfoldable pub refcnt_update : Heap → ℕ → ℕ → ℕ × Heap
unfolding refcnt_set
refcnt_update h m value =
    (add16 (refcnt_read h m) value, refcnt_set h m (add16 (refcnt_read h m) value))

-- `rte_mbuf_refcnt_update` of the build with atomic counters. `add_return` is what
-- `rte_atomic16_add_return` leaves in a counter and returns.
unfoldable pub refcnt_update_atomic : (ℕ → ℕ → ℕ) → Heap → ℕ → ℕ → ℕ × Heap
unfolding refcnt_set
refcnt_update_atomic add_return h m value =
    if refcnt_read h m == 1
    then ((1 + value) % u16, refcnt_set h m ((1 + value) % u16))
    else (add_return (refcnt_read h m) value, refcnt_set h m (add_return (refcnt_read h m) value))
