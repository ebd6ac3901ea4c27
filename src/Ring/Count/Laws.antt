-- ===== src/Ring/Count/Laws.antt =====
-- The counters of a valid ring.
use native.Mathlib.Nat.{mod-eq_of_lt}
use dpdk_cr.Common.{◌+◌, ◌%◌, ◌≤◌, ◌≡◌, ◌∙◌, ◌↔◌, true, length, length-tabulate, bit_and, arith}
use dpdk_cr.Ring.Types.{Ring}
use dpdk_cr.Ring.Shape.{index, size-le}
use dpdk_cr.Ring.Valid.{IsValid, ahead, entries, contents, claims, held}
use dpdk_cr.Ring.Count.{count, free_count, full, empty}

module _ {r : Ring} (v : IsValid r) where
  used-index : bit_and (ahead r r.prod.tail) r.mask ≡ ahead r r.prod.tail
  used-index =
      index v.shape (ahead r r.prod.tail) ∙ mod-eq_of_lt (omega (arith, v.shape.capacity_lt))

  -- `rte_ring_count` is the number of objects that are published and not released: those that a
  -- consumer holds, and those that can still be claimed.
  pub count-eq : count r ≡ length (held r) + length (contents r)
  unfolding count
  count-eq = ground (
    arith,
    used-index,
    length-tabulate (claims r) (λ k. r.slots ((r.cons.tail + k) % r.size)),
    length-tabulate (entries r) (λ k. r.slots ((r.cons.head + k) % r.size)),
  )

  -- The counters of a valid ring: the count is the number of published objects that no consumer has
  -- released, with the free count it makes up the capacity, the ring is reported full exactly when
  -- the count is the capacity, and empty exactly when nothing is claimed and nothing can be.
  pub counters_lem :
      (count r ≡ length (held r) + length (contents r))
      × (free_count r + count r ≡ r.capacity)
      × ((full r ≡ true) ↔ (count r ≡ r.capacity))
      × ((empty r ≡ true) ↔ (length (held r) + length (contents r) ≡ 0))
  unfolding full free_count empty
  counters_lem = (
    count-eq,
    ground (arith, count-le, v.shape.capacity_lt, size-le v.shape),
    ground (arith, count-le, v.shape.capacity_lt, size-le v.shape),
    ground (arith, count-eq),
  )
    where
      count-le : count r ≤ r.capacity
      count-le = unfold count in ground arith
