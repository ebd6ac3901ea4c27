-- ===== src/Ring/Count.antt =====
-- The counters of src/ext/rte_ring.c.
pub mod Laws
use dpdk_cr.Common.{ℕ, Bool, bit_and, sub32, ltb, ◌==◌, if◌then◌else◌}
use dpdk_cr.Ring.Types.{Ring}

-- `rte_ring_count`
unfoldable pub count : Ring → ℕ
count r =
    let used = bit_and (sub32 r.prod.tail r.cons.tail) r.mask in
    if ltb r.capacity used then r.capacity else used

-- `rte_ring_free_count`
unfoldable pub free_count : Ring → ℕ
unfolding count
free_count r = sub32 r.capacity (count r)

-- `rte_ring_full`
unfoldable pub full : Ring → Bool
unfolding free_count
full r = free_count r == 0

-- `rte_ring_empty`
unfoldable pub empty : Ring → Bool
unfolding count
empty r = count r == 0

-- `rte_ring_get_size`
unfoldable pub get_size : Ring → ℕ
get_size r = r.size

-- `rte_ring_get_capacity`
unfoldable pub get_capacity : Ring → ℕ
get_capacity r = r.capacity
