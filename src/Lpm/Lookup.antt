-- ===== src/Lpm/Lookup.antt =====
-- `rte_lpm_lookup` and `rte_lpm_lookup_bulk_func`, as they read the entries: as 32-bit words.
-- The build is the one without RTE_LIBRTE_LPM_DEBUG, where pointers are not tested.
use dpdk_cr.Common.{
  minus_enoent, ℕ, zero, suc, ◌+◌, ◌*◌, ◌/◌, ◌%◌, ◌^◌, bit_and, ◌==◌, if◌then◌else◌, ℤ, u32, Table,
  store,
}

-- `struct rte_lpm`, with the tables that a lookup reads
pub record Lpm : Type 0 where
  pub tbl24 : Table ℕ
  pub tbl8 : Table ℕ

-- RTE_LPM_TBL8_GROUP_NUM_ENTRIES, RTE_LPM_VALID_EXT_ENTRY_BITMASK and RTE_LPM_LOOKUP_SUCCESS
abbrev pub tbl8_group_num_entries : ℕ
tbl8_group_num_entries = 256

abbrev pub valid_ext_entry_bitmask : ℕ
valid_ext_entry_bitmask = 0x03000000

abbrev pub lookup_success : ℕ
lookup_success = 0x01000000

-- The index into `tbl8`, in 32 bits, for an entry that names a group.
abbrev pub tbl8_index : ℕ → ℕ → ℕ
tbl8_index ip entry = (ip % 2 ^ 8 + bit_and entry 0x00ffffff * tbl8_group_num_entries % u32) % u32

-- What is returned, and `*next_hop`
unfoldable pub lookup : Lpm → ℕ → ℤ × ℕ
lookup lpm ip =
    let entry = lpm.tbl24 (ip / 2 ^ 8) in
    let entry =
      if bit_and entry valid_ext_entry_bitmask == valid_ext_entry_bitmask
      then lpm.tbl8 (tbl8_index ip entry)
      else entry in
    (if bit_and entry lookup_success == 0 then minus_enoent else ℤ.pos 0, bit_and entry 0x00ffffff)

-- the first loop: `k` indexes from `i` on
unfoldable pub tbl24_indexes : ℕ → ℕ → Table ℕ → Table ℕ → Table ℕ
tbl24_indexes zero i ips indexes = indexes
tbl24_indexes (suc k) i ips indexes = tbl24_indexes k (i + 1) ips (store indexes i (ips i / 2 ^ 8))

-- the second loop: `k` entries from `i` on
unfoldable pub lookup_entries : Lpm → ℕ → ℕ → Table ℕ → Table ℕ → Table ℕ → Table ℕ
lookup_entries lpm zero i ips indexes next_hops = next_hops
lookup_entries lpm (suc k) i ips indexes next_hops =
    let next_hops = store next_hops i (lpm.tbl24 (indexes i)) in
    let next_hops =
      if bit_and (next_hops i) valid_ext_entry_bitmask == valid_ext_entry_bitmask
      then store next_hops i (lpm.tbl8 (tbl8_index (ips i) (next_hops i)))
      else next_hops in
    lookup_entries lpm k (i + 1) ips indexes next_hops

-- `uninitialised` is what the local array holds before the first loop.
unfoldable pub lookup_bulk_func : Lpm → (uninitialised ips next_hops : Table ℕ) → ℕ → ℤ × Table ℕ
lookup_bulk_func lpm uninitialised ips next_hops n =
    (ℤ.pos 0, lookup_entries lpm n 0 ips (tbl24_indexes n 0 ips uninitialised) next_hops)
