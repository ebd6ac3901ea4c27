-- ===== src/Lcore/Config.antt =====
-- The state that the functions on logical cores read, and the functions that read one entry of it.
use dpdk_cr.Common.{
  ℕ, ◌-◌, ◌^◌, ltb, leb, Bool, false, if◌then◌else◌, Table, Option, none, some, u32, ℤ,
}

-- `struct lcore_config`, with the fields that this file's functions read
pub record LcoreConfig : Type 0 where
  pub socket_id : ℕ
  pub core_index : ℤ

-- What the EAL keeps: of `struct rte_config` the fields that are read here, where `lcore_role` says
-- whether the role is ROLE_RTE, the array `lcore_config`, and the calling thread's `_lcore_id`.
pub record Eal : Type 0 where
  pub master_lcore : ℕ
  pub lcore_count : ℕ
  pub lcore_role : Table Bool
  pub lcore_config : Table LcoreConfig
  pub lcore_id : ℕ

-- `LCORE_ID_ANY`: the id in a thread that is not one of the EAL's
abbrev pub lcore_id_any : ℕ
lcore_id_any = u32 - 1

-- `rte_lcore_id`, `rte_get_master_lcore` and `rte_lcore_count`
abbrev pub current_lcore : Eal → ℕ
current_lcore eal = eal.lcore_id

abbrev pub get_master_lcore : Eal → ℕ
get_master_lcore eal = eal.master_lcore

abbrev lcore_count : Eal → ℕ
lcore_count eal = eal.lcore_count

-- `(int)x` of an `unsigned` below 2 ^ 32
unfoldable pub to_int : ℕ → ℤ
to_int x = if ltb x (2 ^ 31) then ℤ.pos x else ℤ.negsuc (u32 - 1 - x)

-- `max_lcore` is RTE_MAX_LCORE, the length of the arrays.
module _ (max_lcore : ℕ) (eal : Eal) where
  -- `lcore_config[i].core_index`; `none` is a read outside the array.
  unfoldable pub core_index_at : ℤ → Option ℤ
  core_index_at (ℤ.pos i) = if ltb i max_lcore then some ((eal.lcore_config i).core_index) else none
  core_index_at (ℤ.negsuc i) = none

  -- `rte_lcore_index`
  unfoldable pub lcore_index : ℤ → Option ℤ
  lcore_index (ℤ.pos i) = if leb max_lcore i then some (ℤ.negsuc 0) else core_index_at (ℤ.pos i)
  lcore_index (ℤ.negsuc i) = core_index_at (to_int (current_lcore eal))

  -- `rte_lcore_to_socket_id`; `none` is a read outside the array.
  abbrev lcore_to_socket_id : ℕ → Option ℕ
  lcore_to_socket_id i = if ltb i max_lcore then some ((eal.lcore_config i).socket_id) else none

  -- `rte_lcore_is_enabled`
  unfoldable pub lcore_is_enabled : ℕ → Bool
  lcore_is_enabled i = if leb max_lcore i then false else eal.lcore_role i
