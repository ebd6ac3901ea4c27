-- ===== src/Lpm/Fields.antt =====
-- `struct rte_lpm_tbl_entry`: the fields of an entry and the word that they are laid out in, on a
-- little-endian machine.
use dpdk_cr.Common.{ℕ, ◌+◌, ◌*◌, ◌%◌, ◌^◌, Bool, true, false}

pub record TblEntry : Type 0 where
  pub next_hop : ℕ
  pub valid : Bool
  pub valid_group : Bool
  pub depth : ℕ

abbrev pub bit : Bool → ℕ
bit true = 1
bit false = 0

-- 24 bits, one bit, one bit and 6 bits, from the lowest on
unfoldable pub word : TblEntry → ℕ
word e =
    e.next_hop % 2 ^ 24
    + bit (e.valid) * 2 ^ 24
    + bit (e.valid_group) * 2 ^ 25
    + e.depth % 2 ^ 6 * 2 ^ 26
