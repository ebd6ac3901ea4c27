-- ===== src/Lcore/Laws.antt =====
-- The walks over the enabled lcores end, and find each of them once and in order.
pub mod Wanted
pub mod Scan
pub mod Wrap
pub mod Visits
pub mod Index
