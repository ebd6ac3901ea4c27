-- ===== src/Ring/Enqueue.antt =====
-- What `__rte_ring_do_enqueue` does to the objects of a ring when no other producer is at work.
mod Stored
use dpdk_cr.Common.{
  ℕ, ◌-◌, ◌≤◌, ◌<◌, ◌≡◌, refl, sym, ap, Option, ◌++◌, append-nil, Table, tabulate, u32, add32,
  sub32, true, arith, ◌==◌, ==_iff, if◌then◌else◌, inl, inr, Bool-cases,
}
use dpdk_cr.Ring.Types.{Behavior, Ring}
use dpdk_cr.Ring.Shape.{size-le}
use dpdk_cr.Ring.Copy.{enqueue_ptrs}
use dpdk_cr.Ring.Valid.{IsValid, contents, held, space}
use dpdk_cr.Ring.Generic.{Generic, IsGeneric, IsMove, granted, granted-le, with_prod_head}
use dpdk_cr.Ring.Ops.{do_enqueue, report}
use dpdk_cr.Ring.Enqueue.Stored.{stored, contents-stored, held-stored, stored-IsValid, space-stored}

module _ {g : Generic} (laws : IsGeneric g) {r : Ring} (v : IsValid r)
    (alone : r.prod.tail ≡ r.prod.head) (tbl : Table ℕ) (n : ℕ) (small : n < u32) (b : Behavior)
    (single : ℕ) (free : Option ℕ) where
  abbrev c : ℕ
  c = granted b n (space r)

  do_enqueue-eq : do_enqueue g r tbl n b single free ≡ record {
    count = c;
    free_space = report free (space r - c);
    ring = if c == 0 then r else stored r tbl c;
  }
  unfolding do_enqueue enqueue_ptrs
  do_enqueue-eq = elim (Bool-cases (c == 0)) [
    | inl stays ↦
        rw (mv.ring_eq, mv.count_eq, mv.found_eq, stays)
          (λ i. record {
            count = c;
            free_space = report free (left i);
            ring = with_prod_head r (same stays i);
          })
    | inr moves ↦
        rw
          (
            mv.new_eq (rw mv.count_eq (ground arith)),
            mv.ring_eq,
            mv.old_eq,
            mv.count_eq,
            mv.found_eq,
            moves,
            laws.tail_follows (record (r.prod) { head = add32 r.prod.head c }) r.prod.head
                (add32 r.prod.head c) single 1 alone,
          )
          (λ i. record { count = c; free_space = report free (left i); ring = stored r tbl c })
  ]
    where
      mv : IsMove (space r) r.prod.head (with_prod_head r) n b (g.move_prod_head r single n b)
      mv = laws.prod_moves r single n b v small

      left : sub32 (space r) c ≡ space r - c
      left = omega (arith, granted-le b n (space r), v.shape.capacity_lt, size-le v.shape)

      same : (c == 0) ≡ true → add32 r.prod.head c ≡ r.prod.head
      same e = ground (arith, v.prod_head_lt)

  -- With no other producer at work, an enqueue of `n` objects returns how many fit by its behavior
  -- (all or none of them, or as many as there is space for), appends the first so many objects of
  -- the table to the contents, leaves the claimed objects alone, reports the space that is left,
  -- and keeps the invariant.
  pub do_enqueue_lem :
      let d = do_enqueue g r tbl n b single free in
      (d.count ≡ granted b n (space r))
      × (contents d.ring ≡ contents r ++ tabulate d.count tbl)
      × (held d.ring ≡ held r)
      × (d.free_space ≡ report free (space d.ring))
      × IsValid d.ring
      × (d.ring.prod.tail ≡ d.ring.prod.head)
  unfolding tabulate
  do_enqueue_lem = rw do_enqueue-eq (elim (Bool-cases (c == 0)) [
    | inl stays ↦
        rw (stays, (==_iff c 0).0 stays)
          (refl, sym (append-nil _), refl, ap (report free) {y = space r} (omega arith), v, alone)
    | inr moves ↦ rw moves (
      refl,
      contents-stored v alone tbl c fits,
      held-stored v alone tbl c fits,
      ap (report free) (sym (space-stored v alone tbl c fits)),
      stored-IsValid v alone tbl c fits,
      refl,
    )
  ])
    where
      fits : c ≤ space r
      fits = granted-le b n (space r)

  -- An enqueue leaves the consumers' side and the capacity alone.
  pub do_enqueue-frame :
      let d = do_enqueue g r tbl n b single free in
      (d.ring.cons ≡ r.cons) × (d.ring.capacity ≡ r.capacity)
  do_enqueue-frame = rw do_enqueue-eq (ground arith)
