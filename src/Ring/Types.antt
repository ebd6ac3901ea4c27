-- ===== src/Ring/Types.antt =====
-- The structures of src/ext/rte_ring.c.
use dpdk_cr.Common.{ℕ, Table}

-- `enum rte_ring_queue_behavior`
pub data Behavior : Type 0 where
  queue_fixed : Behavior
  queue_variable : Behavior

-- `struct rte_ring_headtail`; `single` is true if it is not 0.
pub record HeadTail : Type 0 where
  pub head : ℕ
  pub tail : ℕ
  pub single : ℕ

-- `struct rte_ring` and the object table behind it, `slots`. The name, the flags and the memzone
-- are left out: no function of these files reads them.
pub record Ring : Type 0 where
  pub size : ℕ
  pub mask : ℕ
  pub capacity : ℕ
  pub prod : HeadTail
  pub cons : HeadTail
  pub slots : Table ℕ

-- The arguments `__IS_SP`, `__IS_MP`, `__IS_SC` and `__IS_MC`.
abbrev pub is_single : ℕ
is_single = 1

abbrev pub is_multi : ℕ
is_multi = 0
