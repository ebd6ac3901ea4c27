-- ===== src/Ring/Dequeue.antt =====
-- What `__rte_ring_do_dequeue` does to the objects of a ring when no other consumer is at work.
pub mod Taken
use dpdk_cr.Common.{
  ℕ, ◌-◌, ◌≤◌, ◌<◌, ◌≡◌, refl, sym, ap, Option, List, ◌++◌, take, drop, Table, tabulate, u32, add32,
  sub32, true, arith, ◌==◌, ==_iff, if◌then◌else◌, inl, inr, Bool-cases,
}
use dpdk_cr.Ring.Types.{Behavior, Ring}
use dpdk_cr.Ring.Shape.{size-le}
use dpdk_cr.Ring.Copy.{dequeue_ptrs}
use dpdk_cr.Ring.Valid.{IsValid, entries, contents, held, claims}
use dpdk_cr.Ring.Generic.{Generic, IsGeneric, IsMove, granted, granted-le, with_cons_head}
use dpdk_cr.Ring.Ops.{do_dequeue, report}
use dpdk_cr.Ring.Dequeue.Taken.{
  taken, contents-taken, taken-IsValid, entries-taken, claims-taken, table-taken,
}

module _ {g : Generic} (laws : IsGeneric g) {r : Ring} (v : IsValid r)
    (alone : r.cons.tail ≡ r.cons.head) (tbl : Table ℕ) (n : ℕ) (small : n < u32) (b : Behavior)
    (single : ℕ) (left : Option ℕ) where
  abbrev c : ℕ
  c = granted b n (entries r)

  do_dequeue-eq : do_dequeue g r tbl n b single left ≡ record {
    count = c;
    available = report left (entries r - c);
    table = if c == 0 then tbl else dequeue_ptrs r r.cons.head tbl c;
    ring = if c == 0 then r else taken r c;
  }
  unfolding do_dequeue dequeue_ptrs
  do_dequeue-eq = elim (Bool-cases (c == 0)) [
    | inl stays ↦
        rw (mv.ring_eq, mv.count_eq, mv.found_eq, stays)
          (λ i. record {
            count = c;
            available = report left (rest i);
            table = tbl;
            ring = with_cons_head r (same stays i);
          })
    | inr moves ↦
        rw
          (
            mv.new_eq (rw mv.count_eq (ground arith)),
            mv.ring_eq,
            mv.old_eq,
            mv.count_eq,
            mv.found_eq,
            moves,
            laws.tail_follows (record (r.cons) { head = add32 r.cons.head c }) r.cons.head
                (add32 r.cons.head c) single 0 alone,
          )
          (λ i. record {
            count = c;
            available = report left (rest i);
            table = dequeue_ptrs r r.cons.head tbl c;
            ring = taken r c;
          })
  ]
    where
      mv : IsMove (entries r) r.cons.head (with_cons_head r) n b (g.move_cons_head r single n b)
      mv = laws.cons_moves r single n b v small

      rest : sub32 (entries r) c ≡ entries r - c
      rest = omega (arith, granted-le b n (entries r))

      same : (c == 0) ≡ true → add32 r.cons.head c ≡ r.cons.head
      same e = ground (arith, v.cons_head_lt)

  -- With no other consumer at work, a dequeue of `n` objects returns how many it takes by its
  -- behavior (all or none of them, or as many as there are), fills that many entries of the
  -- caller's table with the oldest objects in their order and leaves the other entries alone, drops
  -- those objects from the contents, leaves none claimed, reports how many are left, and keeps the
  -- invariant.
  pub do_dequeue_lem :
      let d = do_dequeue g r tbl n b single left in
      (d.count ≡ granted b n (entries r))
      × (tabulate d.count d.table ≡ take d.count (contents r))
      × ((k : ℕ) → d.count ≤ k → d.table k ≡ tbl k)
      × (contents d.ring ≡ drop d.count (contents r))
      × (claims d.ring ≡ 0)
      × (d.available ≡ report left (entries d.ring))
      × IsValid d.ring
      × (d.ring.cons.tail ≡ d.ring.cons.head)
  unfolding tabulate
  do_dequeue_lem = rw do_dequeue-eq (elim (Bool-cases (c == 0)) [
    | inl stays ↦
        rw (stays, (==_iff c 0).0 stays)
          (
            refl,
            refl,
            (λ k h. refl),
            refl,
            omega arith,
            ap (report left) {y = entries r} (omega arith),
            v,
            alone,
          )
    | inr moves ↦ rw moves (
      refl,
      (table-taken v tbl c fits).0,
      (table-taken v tbl c fits).1,
      contents-taken v c fits,
      claims-taken v c fits,
      ap (report left) (sym (entries-taken v c fits)),
      taken-IsValid v alone c fits,
      refl,
    )
  ])
    where
      fits : c ≤ entries r
      fits = granted-le b n (entries r)

  -- A dequeue leaves the producers' side and the capacity alone.
  pub do_dequeue-frame :
      let d = do_dequeue g r tbl n b single left in
      (d.ring.prod ≡ r.prod) × (d.ring.capacity ≡ r.capacity)
  do_dequeue-frame = rw do_dequeue-eq (ground arith)
