-- ===== src/Memcpy/Laws.antt =====
-- Every path of the copy does what the plain copy does.
mod Blocks
mod Progress
mod Shifted
mod Unaligned
mod Small
mod Ends
mod Sse
mod Avx2
mod Avx512
pub mod Whole
