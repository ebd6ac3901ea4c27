-- ===== src/Ring.antt =====
-- src/ext/rte_ring.c and src/ext/rte_ring_extra.c: the ring of object pointers.
pub mod Types
pub mod Shape
pub mod Copy
pub mod Valid
pub mod Generic
pub mod Ops
pub mod Count
pub mod Enqueue
pub mod Dequeue
pub mod Queue
pub mod Refine
pub mod Peek
mod Tests
