-- ===== src/Lpm/Tests.antt =====
-- A table in which 10.0.0.0/24 leads to a group, and 10.0.1.0/24 to next hop 7.
use dpdk_cr.Common.{
  minus_enoent, ℕ, ◌+◌, ◌*◌, ◌%◌, ◌^◌, ◌≡◌, refl, ◌==◌, Bool, true, false, if◌then◌else◌, ℤ, Table,
  bit_and, arith,
}
use dpdk_cr.Lpm.Lookup.{lookup, lookup_bulk_func, lookup_success}
use dpdk_cr.Lpm.Fields.{TblEntry, word}
use dpdk_cr.Lpm.Laws.One.{Entries, layout, entry, lookup_lem}
use dpdk_cr.Lpm.Laws.Bulk.{lookup_bulk_func_lem}

abbrev entry_of : ℕ → Bool → Bool → TblEntry
entry_of hop valid group = record { next_hop = hop; valid = valid; valid_group = group; depth = 24 }

abbrev table : Entries
table = record {
  tbl24 = λ i.
      if i == 10 * 2 ^ 16
      then entry_of 2 true true
      else if i == 10 * 2 ^ 16 + 1
      then entry_of 7 true false
      else entry_of 0 false false;
  tbl8 = λ i. if i == 2 * 256 + 9 then entry_of 5 true true else entry_of 0 false false;
}

-- 10.0.1.0, 10.0.0.9 and 10.0.0.8
abbrev ips : Table ℕ
ips i = if i == 0 then 10 * 2 ^ 24 + 256 else if i == 1 then 10 * 2 ^ 24 + 9 else 10 * 2 ^ 24 + 8

extended_run : lookup (layout table) (10 * 2 ^ 24 + 9) ≡ (ℤ.pos 0, 5)
unfolding lookup layout word
extended_run = refl

miss_run : lookup (layout table) (10 * 2 ^ 24 + 8) ≡ (minus_enoent, 0)
unfolding lookup layout word
miss_run = refl

lookup_lem_example : lookup (layout table) (ips 1) ≡ (
  if (entry table (ips 1)).valid then ℤ.pos 0 else minus_enoent,
  (entry table (ips 1)).next_hop % 2 ^ 24,
)
lookup_lem_example = lookup_lem table (ips 1)

lookup_bulk_func_lem_example :
    let out = (lookup_bulk_func (layout table) (λ i. 0) ips (λ i. 99) 3).1 in
    (lookup (layout table) (ips 1) ≡ (
      if bit_and (out 1) lookup_success == 0 then minus_enoent else ℤ.pos 0,
      bit_and (out 1) 0x00ffffff,
    ))
    × (out 3 ≡ 99)
lookup_bulk_func_lem_example =
    lookup_bulk_func_lem (layout table) (λ i. 0) ips (λ i. 99) 3 1 3 (omega arith) (omega arith)
