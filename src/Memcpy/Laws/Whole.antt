-- ===== src/Memcpy/Laws/Whole.antt =====
-- `rte_memcpy` on every machine.
use dpdk_cr.Common.{ℕ, ◌≡◌}
use dpdk_cr.Memcpy.Memory.{Memory, move, Apart}
use dpdk_cr.Memcpy.Variant.{memcpy}
use dpdk_cr.Memcpy.Machine.{Machine, variant}
use dpdk_cr.Memcpy.Laws.Ends.{IsVariant, memcpy-move}
use dpdk_cr.Memcpy.Laws.Sse.{sse-IsVariant}
use dpdk_cr.Memcpy.Laws.Avx2.{avx2-IsVariant}
use dpdk_cr.Memcpy.Laws.Avx512.{avx512f-IsVariant}

variant-IsVariant : (machine : Machine) → IsVariant (variant machine)
variant-IsVariant Machine.has_avx512f = avx512f-IsVariant
variant-IsVariant Machine.has_avx2 = avx2-IsVariant
variant-IsVariant Machine.has_neither = sse-IsVariant

-- On every machine and for every length and alignment, `rte_memcpy` returns `dst` and copies `n` bytes
-- that stand apart, and nothing else.
pub memcpy_lem :
    (machine : Machine) (dst src n : ℕ) (m : Memory)
    → Apart n dst src
    → memcpy (variant machine) dst src n m ≡ (dst, move n dst src m)
memcpy_lem machine dst src n m apart = memcpy-move n dst src m apart (variant-IsVariant machine)
