-- ===== src/Lpm.antt =====
-- src/ext/rte_lpm.c: the longest prefix match of an address in the two levels of its table.
mod Lookup
mod Fields
mod Laws
mod Tests
