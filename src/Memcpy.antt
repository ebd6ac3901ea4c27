-- ===== src/Memcpy.antt =====
-- src/ext/rte_memcpy.c, in its three variants.
pub mod Memory
pub mod Variant
mod Sse
mod Avx2
mod Avx512
pub mod Machine
pub mod Laws
mod Tests
