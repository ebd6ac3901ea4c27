-- ===== src/Lcore.antt =====
-- src/ext/rte_lcore.c: the logical cores, their indexes, and the walks over those that are enabled.
mod Config
mod Next
mod Laws
mod Tests
