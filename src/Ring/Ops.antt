-- ===== src/Ring/Ops.antt =====
-- The enqueue and dequeue functions of src/ext/rte_ring.c over the functions that move the indices.
use mathlib.Core.Option
use dpdk_cr.Common.{
  ℕ, ℤ, minus_enobufs, minus_enoent, Option, none, Table, sub32, ◌==◌, if◌then◌else◌,
}
use dpdk_cr.Ring.Types.{Behavior, queue_fixed, queue_variable, Ring, is_single, is_multi}
use dpdk_cr.Ring.Copy.{enqueue_ptrs, dequeue_ptrs}
use dpdk_cr.Ring.Generic.{Generic}

-- What an enqueue leaves: the returned count, the number behind `free_space` (none for a null
-- pointer), and the ring.
pub record Enqueued : Type 0 where
  pub count : ℕ
  pub free_space : Option ℕ
  pub ring : Ring

-- What a dequeue leaves, with the caller's table.
pub record Dequeued : Type 0 where
  pub count : ℕ
  pub available : Option ℕ
  pub table : Table ℕ
  pub ring : Ring

-- the value that `if (p != NULL) *p = v` leaves behind `p`: a pointer is none for NULL, or some old
-- value
abbrev pub report : Option ℕ → ℕ → Option ℕ
report p v = Option.map (λ _. v) p

module _ (g : Generic) where
  open g use {move_prod_head, move_cons_head, update_tail}

  -- `__rte_ring_do_enqueue`
  unfoldable pub do_enqueue : Ring → Table ℕ → ℕ → Behavior → ℕ → Option ℕ → Enqueued
  do_enqueue r obj_table n behavior is_sp free_space =
      let m = move_prod_head r is_sp n behavior in
      let filled = record (m.ring) { slots = enqueue_ptrs m.ring m.old_head obj_table m.count } in
      let done = record filled { prod = update_tail filled.prod m.old_head m.new_head is_sp 1 } in
      record {
        count = m.count;
        free_space = report free_space (sub32 m.found m.count);
        ring = if m.count == 0 then m.ring else done;
      }

  -- `__rte_ring_do_dequeue`
  unfoldable pub do_dequeue : Ring → Table ℕ → ℕ → Behavior → ℕ → Option ℕ → Dequeued
  do_dequeue r obj_table n behavior is_sc available =
      let m = move_cons_head r is_sc n behavior in
      let done = record (m.ring) { cons = update_tail m.ring.cons m.old_head m.new_head is_sc 0 } in
      record {
        count = m.count;
        available = report available (sub32 m.found m.count);
        table =
            if m.count == 0 then obj_table else dequeue_ptrs m.ring m.old_head obj_table m.count;
        ring = if m.count == 0 then m.ring else done;
      }

  unfoldable pub mp_enqueue_bulk : Ring → Table ℕ → ℕ → Option ℕ → Enqueued
  unfolding do_enqueue
  mp_enqueue_bulk r t n free = do_enqueue r t n queue_fixed is_multi free

  unfoldable pub sp_enqueue_bulk : Ring → Table ℕ → ℕ → Option ℕ → Enqueued
  sp_enqueue_bulk r t n free = do_enqueue r t n queue_fixed is_single free

  unfoldable pub enqueue_bulk : Ring → Table ℕ → ℕ → Option ℕ → Enqueued
  enqueue_bulk r t n free = do_enqueue r t n queue_fixed r.prod.single free

  unfoldable pub mp_enqueue_burst : Ring → Table ℕ → ℕ → Option ℕ → Enqueued
  mp_enqueue_burst r t n free = do_enqueue r t n queue_variable is_multi free

  unfoldable pub sp_enqueue_burst : Ring → Table ℕ → ℕ → Option ℕ → Enqueued
  sp_enqueue_burst r t n free = do_enqueue r t n queue_variable is_single free

  unfoldable pub enqueue_burst : Ring → Table ℕ → ℕ → Option ℕ → Enqueued
  enqueue_burst r t n free = do_enqueue r t n queue_variable r.prod.single free

  unfoldable pub mc_dequeue_bulk : Ring → Table ℕ → ℕ → Option ℕ → Dequeued
  mc_dequeue_bulk r t n left = do_dequeue r t n queue_fixed is_multi left

  unfoldable pub sc_dequeue_bulk : Ring → Table ℕ → ℕ → Option ℕ → Dequeued
  sc_dequeue_bulk r t n left = do_dequeue r t n queue_fixed is_single left

  unfoldable pub dequeue_bulk : Ring → Table ℕ → ℕ → Option ℕ → Dequeued
  dequeue_bulk r t n left = do_dequeue r t n queue_fixed r.cons.single left

  unfoldable pub mc_dequeue_burst : Ring → Table ℕ → ℕ → Option ℕ → Dequeued
  mc_dequeue_burst r t n left = do_dequeue r t n queue_variable is_multi left

  unfoldable pub sc_dequeue_burst : Ring → Table ℕ → ℕ → Option ℕ → Dequeued
  sc_dequeue_burst r t n left = do_dequeue r t n queue_variable is_single left

  unfoldable pub dequeue_burst : Ring → Table ℕ → ℕ → Option ℕ → Dequeued
  dequeue_burst r t n left = do_dequeue r t n queue_variable r.cons.single left

  -- `… ? 0 : -ENOBUFS`, for one object behind `&obj`
  abbrev enqueue_status : Enqueued → ℤ × Ring
  enqueue_status d = (if d.count == 0 then minus_enobufs else ℤ.pos 0, d.ring)

  unfoldable pub mp_enqueue : Ring → ℕ → ℤ × Ring
  mp_enqueue r obj = enqueue_status (mp_enqueue_bulk r (λ _. obj) 1 none)

  unfoldable pub sp_enqueue : Ring → ℕ → ℤ × Ring
  sp_enqueue r obj = enqueue_status (sp_enqueue_bulk r (λ _. obj) 1 none)

  unfoldable pub enqueue : Ring → ℕ → ℤ × Ring
  enqueue r obj = enqueue_status (enqueue_bulk r (λ _. obj) 1 none)

  -- `… ? 0 : -ENOENT`, with the caller's variable
  abbrev dequeue_status : Dequeued → ℤ × ℕ × Ring
  dequeue_status d = (if d.count == 0 then minus_enoent else ℤ.pos 0, d.table 0, d.ring)

  unfoldable pub mc_dequeue : Ring → ℕ → ℤ × ℕ × Ring
  mc_dequeue r obj = dequeue_status (mc_dequeue_bulk r (λ _. obj) 1 none)

  unfoldable pub sc_dequeue : Ring → ℕ → ℤ × ℕ × Ring
  sc_dequeue r obj = dequeue_status (sc_dequeue_bulk r (λ _. obj) 1 none)

  unfoldable pub dequeue : Ring → ℕ → ℤ × ℕ × Ring
  dequeue r obj = dequeue_status (dequeue_bulk r (λ _. obj) 1 none)
