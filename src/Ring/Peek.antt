-- ===== src/Ring/Peek.antt =====
-- src/ext/rte_ring_extra.c: a single consumer claims objects first and releases their slots later.
pub mod Laws
pub mod Block
use dpdk_cr.Common.{ℕ, Table, add32, sub32, ltb, ◌==◌, if◌then◌else◌}
use dpdk_cr.Ring.Types.{Ring}
use dpdk_cr.Ring.Copy.{dequeue_ptrs}
use dpdk_cr.Ring.Generic.{Move, with_cons_head}

-- `__rte_ring_move_sc_cons_head_burst`; `next` is what `*new_head` held before the call.
unfoldable pub move_sc_cons_head_burst : Ring → ℕ → ℕ → Move
move_sc_cons_head_burst r n next =
    let old_head = r.cons.head in
    let entries = sub32 r.prod.tail old_head in
    let n' = if ltb entries n then entries else n in
    let new_head = add32 old_head n' in
    if n' == 0
    then record { count = 0; old_head = old_head; new_head = next; found = entries; ring = r }
    else record {
      count = n';
      old_head = old_head;
      new_head = new_head;
      found = entries;
      ring = with_cons_head r new_head;
    }

-- What a peek leaves: the returned count, the caller's table, `*cons_next` and the ring.
pub record Peeked : Type 0 where
  pub count : ℕ
  pub table : Table ℕ
  pub cons_next : ℕ
  pub ring : Ring

-- `rte_ring_sc_dequeue_burst_peek`
unfoldable pub sc_dequeue_burst_peek : Ring → Table ℕ → ℕ → ℕ → Peeked
unfolding move_sc_cons_head_burst
sc_dequeue_burst_peek r obj_table n cons_next =
    let m = move_sc_cons_head_burst r n cons_next in
    record {
      count = m.count;
      table = if m.count == 0 then obj_table else dequeue_ptrs m.ring m.old_head obj_table m.count;
      cons_next = m.new_head;
      ring = m.ring;
    }

-- `update_sc_tail`
unfoldable pub update_sc_tail : Ring → ℕ → Ring
update_sc_tail r new_val = record r { cons = record (r.cons) { tail = new_val } }

-- The macro `rte_ring_sc_dequeue_burst` with a block, of src/dpdk/inlines.cr: a peek, the block, and
-- the release if anything was peeked. `body` is what happens to the ring while the block runs.
unfoldable pub sc_dequeue_burst_block : Ring → Table ℕ → ℕ → (Ring → Ring) → Peeked
sc_dequeue_burst_block r obj_table nb body =
    let p = sc_dequeue_burst_peek r obj_table nb 0 in
    record p { ring = if p.count == 0 then p.ring else update_sc_tail (body p.ring) p.cons_next }
