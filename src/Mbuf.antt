-- ===== src/Mbuf.antt =====
-- src/ext/rte_mbuf.c: packets as chains of buffers.
mod Heap
mod Segment
mod Read
pub mod Offload
mod Refcnt
mod Free
mod Alloc
mod Clone
mod Linearize
mod Laws
mod Tests
