-- ===== src/Ring/Peek/Laws.antt =====
-- What peeking at objects and releasing them later does to a ring.
use dpdk_cr.Common.{
  ℕ, ◌+◌, ◌≤◌, ◌≡◌, refl, sym, ap, ◌∙◌, ◌++◌, append-nil, take, drop, Table, tabulate, min,
  tabulate-ext, tabulate-add, add32, true, arith, ◌==◌, ==_iff, if◌then◌else◌, inl, inr, Bool-cases,
}
use dpdk_cr.Ring.Types.{Ring}
use dpdk_cr.Ring.Shape.{index-shift, size-le}
use dpdk_cr.Ring.Copy.{dequeue_ptrs}
use dpdk_cr.Ring.Valid.{IsValid, window, entries, contents, claims, held, space}
use dpdk_cr.Ring.Generic.{with_cons_head}
use dpdk_cr.Ring.Dequeue.Taken.{table-taken, window-take, window-drop}
use dpdk_cr.Ring.Peek.{sc_dequeue_burst_peek, update_sc_tail}

-- a ring with `c` more objects claimed
abbrev pub claimed : Ring → ℕ → Ring
claimed r c = with_cons_head r (add32 r.cons.head c)

module _ {r : Ring} (v : IsValid r) (c : ℕ) (fits : c ≤ entries r) where
  contents-claimed : contents (claimed r c) ≡ drop c (contents r)
  contents-claimed =
      ap (λ (n : ℕ). window r (add32 r.cons.head c) n)
        (omega (arith, v.shape.capacity_lt, size-le v.shape))
      ∙ sym (window-drop v.shape r.cons.head c (entries r) fits)

  held-claimed : held (claimed r c) ≡ held r ++ take c (contents r)
  held-claimed =
      ap (λ (n : ℕ). window r r.cons.tail n) {y = claims r + c}
        (omega (arith, v.shape.capacity_lt, size-le v.shape))
      ∙ tabulate-add (claims r) c _
      ∙ ap (λ xs. held r ++ xs)
          (tabulate-ext c _ _ (λ k lt.
              ap r.slots (index-shift v.shape r.cons.tail (claims r) r.cons.head k (omega arith)))
            ∙ sym (window-take r r.cons.head c (entries r) fits))

  claimed-IsValid : IsValid (claimed r c)
  claimed-IsValid = record {
    shape = record {
      order = v.shape.order;
      order_le = v.shape.order_le;
      size_eq = v.shape.size_eq;
      mask_eq = v.shape.mask_eq;
      capacity_lt = v.shape.capacity_lt;
    };
    cons_tail_lt = v.cons_tail_lt;
    cons_head_lt = omega arith;
    prod_tail_lt = v.prod_tail_lt;
    prod_head_lt = v.prod_head_lt;
    claimed = omega (arith, v.shape.capacity_lt, size-le v.shape);
    published = v.published;
    within = v.within;
  }

module _ {r : Ring} (v : IsValid r) (tbl : Table ℕ) (n next : ℕ) where
  abbrev c : ℕ
  c = min n (entries r)

  peek-eq : sc_dequeue_burst_peek r tbl n next ≡ record {
    count = c;
    table = if c == 0 then tbl else dequeue_ptrs r r.cons.head tbl c;
    cons_next = if c == 0 then next else add32 r.cons.head c;
    ring = if c == 0 then r else claimed r c;
  }
  unfolding sc_dequeue_burst_peek dequeue_ptrs
  peek-eq = ground (arith, head-eq)
    where
      head-eq : (c == 0) ≡ true → add32 r.cons.head c ≡ r.cons.head
      head-eq e = ground (arith, v.cons_head_lt)

  -- A peek returns as many objects as are asked for and can be claimed, puts the oldest ones into the
  -- caller's table in their order and leaves its other entries alone. Those objects are then held
  -- behind the ones held before, gone from the contents, and the producers' side and the space are
  -- as before. If it returns any, `*cons_next` is the new head; otherwise it is not written.
  pub peek_lem :
      let p = sc_dequeue_burst_peek r tbl n next in
      (p.count ≡ min n (entries r))
      × (tabulate p.count p.table ≡ take p.count (contents r))
      × ((k : ℕ) → p.count ≤ k → p.table k ≡ tbl k)
      × (contents p.ring ≡ drop p.count (contents r))
      × (held p.ring ≡ held r ++ take p.count (contents r))
      × (p.ring.prod ≡ r.prod)
      × (space p.ring ≡ space r)
      × (p.cons_next ≡ (if p.count == 0 then next else p.ring.cons.head))
      × IsValid p.ring
  unfolding tabulate
  peek_lem = rw peek-eq (elim (Bool-cases (c == 0)) [
    | inl stays ↦
        rw (stays, (==_iff c 0).0 stays)
          (refl, refl, (λ k h. refl), refl, sym (append-nil _), refl, refl, refl, v)
    | inr moves ↦ rw moves (
      refl,
      (table-taken v tbl c fits).0,
      (table-taken v tbl c fits).1,
      contents-claimed v c fits,
      held-claimed v c fits,
      refl,
      refl,
      refl,
      claimed-IsValid v c fits,
    )
  ])
    where
      fits : c ≤ entries r
      fits = omega arith

-- Releasing up to the consumers' head gives the slots of the held objects back to the producers: none
-- are held any more, the contents are the same, and the space grows by as many.
pub release_lem :
    {r : Ring}
    → IsValid r
    → let r' = update_sc_tail r r.cons.head in
      (claims r' ≡ 0) × (contents r' ≡ contents r) × (space r' ≡ space r + claims r) × IsValid r'
unfolding update_sc_tail
release_lem {r} v = (
  omega arith,
  refl,
  omega (arith, v.shape.capacity_lt, size-le v.shape),
  record {
    shape = record {
      order = v.shape.order;
      order_le = v.shape.order_le;
      size_eq = v.shape.size_eq;
      mask_eq = v.shape.mask_eq;
      capacity_lt = v.shape.capacity_lt;
    };
    cons_tail_lt = v.cons_head_lt;
    cons_head_lt = v.cons_head_lt;
    prod_tail_lt = v.prod_tail_lt;
    prod_head_lt = v.prod_head_lt;
    claimed = omega (arith, v.shape.capacity_lt, size-le v.shape);
    published = omega (arith, v.shape.capacity_lt, size-le v.shape);
    within = omega (arith, v.shape.capacity_lt, size-le v.shape);
  },
)
