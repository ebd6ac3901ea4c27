-- ===== src/Memcpy/Machine.antt =====
-- The variant that the compiler picks.
use dpdk_cr.Memcpy.Variant.{Variant}
use dpdk_cr.Memcpy.Sse.{sse}
use dpdk_cr.Memcpy.Avx2.{avx2}
use dpdk_cr.Memcpy.Avx512.{avx512f}

-- RTE_MACHINE_CPUFLAG_AVX512F, RTE_MACHINE_CPUFLAG_AVX2 without it, or neither
pub data Machine : Type 0 where
  has_avx512f : Machine
  has_avx2 : Machine
  has_neither : Machine

abbrev pub variant : Machine → Variant
variant Machine.has_avx512f = avx512f
variant Machine.has_avx2 = avx2
variant Machine.has_neither = sse
