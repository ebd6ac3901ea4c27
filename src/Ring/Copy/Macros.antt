-- ===== src/Ring/Copy/Macros.antt =====
-- ENQUEUE_PTRS and DEQUEUE_PTRS, branch by branch and as a whole.
use native.Mathlib.Nat.{zero-add, mod-eq_of_lt, mod-lt}
use dpdk_cr.Common.{
  ℕ, ◌+◌, ◌-◌, ◌%◌, ◌<◌, ◌≤◌, ◌≡◌, inl, inr, ap, Table, u32, ltb, lt→ltb, le→ltb, Bool-cases,
  ltb→lt, if◌then◌else◌, arith,
}
use dpdk_cr.Ring.Copy.{Cursor, enqueue_ptrs, dequeue_ptrs}
use dpdk_cr.Ring.Copy.Laws.{copied, repeat-copy_one, copy_unrolled-repeat}
use dpdk_cr.Ring.Types.{Ring}
use dpdk_cr.Ring.Shape.{IsShape, index, around, size-pos, size-le}

module _ {r : Ring} (s : IsShape r) (h n : ℕ) (tbl : Table ℕ) (fits : n ≤ r.size) where
  abbrev idx : ℕ
  idx = h % r.size

  abbrev last : ℕ
  last = r.size - idx

  room : (idx + n) % u32 ≡ idx + n
  room = mod-eq_of_lt (omega (arith, mod-lt h (size-pos s), size-le s))

  idx-lt : idx < r.size
  idx-lt = mod-lt h (size-pos s)

  enqueue_ptrs-near : idx + n < r.size → enqueue_ptrs r h tbl n ≡ copied tbl n 0 idx r.slots
  unfolding enqueue_ptrs
  enqueue_ptrs-near near =
      rw (index s h, room, lt→ltb _ _ near, copy_unrolled-repeat tbl n _ (omega (arith, size-le s)))
        (ap (λ (c : Cursor). c.dst)
          (repeat-copy_one tbl n 0 idx r.slots (omega (arith, size-le s))
            (omega (arith, size-le s))))

  enqueue_ptrs-round :
      r.size ≤ idx + n
      → enqueue_ptrs r h tbl n ≡ copied tbl (n - last) last 0 (copied tbl last 0 idx r.slots)
  unfolding enqueue_ptrs
  enqueue_ptrs-round round =
      rw
        (
          index s h,
          room,
          le→ltb _ _ round,
          repeat-copy_one tbl last 0 idx r.slots (omega (arith, size-le s))
              (omega (arith, size-le s, idx-lt)),
          zero-add,
        )
        (ap (λ (c : Cursor). c.dst)
          (repeat-copy_one tbl (n - last) last 0 (copied tbl last 0 idx r.slots)
            (omega (arith, size-le s)) (omega (arith, size-le s))))

  dequeue_ptrs-near : idx + n < r.size → dequeue_ptrs r h tbl n ≡ copied r.slots n idx 0 tbl
  unfolding dequeue_ptrs
  dequeue_ptrs-near near =
      rw
        (
          index s h,
          room,
          lt→ltb _ _ near,
          copy_unrolled-repeat r.slots n _ (omega (arith, size-le s)),
        )
        (ap (λ (c : Cursor). c.dst)
          (repeat-copy_one r.slots n idx 0 tbl (omega (arith, size-le s))
            (omega (arith, size-le s))))

  dequeue_ptrs-round :
      r.size ≤ idx + n
      → dequeue_ptrs r h tbl n ≡ copied r.slots (n - last) 0 last (copied r.slots last idx 0 tbl)
  unfolding dequeue_ptrs
  dequeue_ptrs-round round =
      rw
        (
          index s h,
          room,
          le→ltb _ _ round,
          repeat-copy_one r.slots last idx 0 tbl (omega (arith, size-le s, idx-lt))
              (omega (arith, size-le s)),
          zero-add,
        )
        (ap (λ (c : Cursor). c.dst)
          (repeat-copy_one r.slots (n - last) 0 last (copied r.slots last idx 0 tbl)
            (omega (arith, size-le s)) (omega (arith, size-le s))))

  -- ENQUEUE_PTRS writes the `n` objects to the `n` slots from `h` on, round the end of the slots,
  -- and leaves the other slots alone.
  pub enqueue_ptrs_lem :
      (k : ℕ)
      → k < r.size
      → enqueue_ptrs r h tbl n ((h + k) % r.size)
        ≡ (if ltb k n then tbl k else r.slots ((h + k) % r.size))
  enqueue_ptrs_lem k lt = elim (Bool-cases (ltb (idx + n) r.size)) [
    | inl near ↦ rw (enqueue_ptrs-near (ltb→lt _ _ near), around r.size h k lt) (ground arith)
    | inr round ↦
        rw (enqueue_ptrs-round (ground arith), around r.size h k lt) (ground (arith, idx-lt))
  ]

  -- DEQUEUE_PTRS fills the first `n` entries of the caller's table from the `n` slots from `h` on,
  -- round the end of the slots, and leaves the other entries alone.
  pub dequeue_ptrs_lem :
      (k : ℕ) → dequeue_ptrs r h tbl n k ≡ (if ltb k n then r.slots ((h + k) % r.size) else tbl k)
  dequeue_ptrs_lem k = elim (Bool-cases (ltb (idx + n) r.size)) [
    | inl near ↦ rw (dequeue_ptrs-near (ltb→lt _ _ near)) (ground (arith, around r.size h k))
    | inr round ↦ rw (dequeue_ptrs-round (ground arith)) (ground (arith, idx-lt, around r.size h k))
  ]
