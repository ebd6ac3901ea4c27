-- ===== src/Lpm/Laws.antt =====
-- Lookups one by one and in bulk, against the entry that an address leads to.
pub mod One
pub mod Bulk
