-- ===== src/Ring/Enqueue/Stored.antt =====
-- A ring with `c` more objects, and the windows on it.
use native.Mathlib.Nat.{add-mod_right}
use dpdk_cr.Common.{
  ℕ, ◌+◌, ◌-◌, ◌%◌, ◌≤◌, ◌<◌, ◌≡◌, sym, subst, ap, ap₂, ◌∙◌, ◌++◌, Table, tabulate, tabulate-ext,
  tabulate-add, u32, add32, le→ltb, lt→ltb, arith,
}
use dpdk_cr.Ring.Types.{Ring}
use dpdk_cr.Ring.Shape.{IsShape, index-shift, size-le}
use dpdk_cr.Ring.Copy.{enqueue_ptrs}
use dpdk_cr.Ring.Copy.Macros.{enqueue_ptrs_lem}
use dpdk_cr.Ring.Valid.{IsValid, window, entries, contents, claims, held, space, ahead}

-- what an enqueue of the first `c` objects of a table leaves
abbrev pub stored : Ring → Table ℕ → ℕ → Ring
stored r tbl c = record r {
  prod = record (r.prod) { head = add32 r.prod.head c; tail = add32 r.prod.head c };
  slots = enqueue_ptrs r r.prod.head tbl c;
}

module _ {r : Ring} (s : IsShape r) (tbl : Table ℕ) (c : ℕ) where
  window-old :
      (h off m : ℕ)
      → (h + off) % u32 ≡ r.prod.head
      → m ≤ off
      → off + c ≤ r.size
      → window (stored r tbl c) h m ≡ window r h m
  window-old h off m e le fits = tabulate-ext m _ _ (λ k lt.
      subst (λ i. enqueue_ptrs r r.prod.head tbl c i ≡ r.slots i) (sym (round k lt))
        (enqueue_ptrs_lem s r.prod.head c tbl (omega arith) (r.size - off + k) (omega arith)
          ∙ rw (le→ltb (r.size - off + k) c (omega arith))))
    where
      round : (k : ℕ) → k < m → (h + k) % r.size ≡ (r.prod.head + (r.size - off + k)) % r.size
      round k lt =
          sym (add-mod_right (h + k) r.size)
          ∙ ap (λ (t : ℕ). t % r.size) (omega arith)
          ∙ index-shift s h off r.prod.head (r.size - off + k) e

  window-new :
      (h off : ℕ)
      → (h + off) % u32 ≡ r.prod.head
      → c ≤ r.size
      → tabulate c (λ k. (stored r tbl c).slots ((h + (off + k)) % r.size)) ≡ tabulate c tbl
  window-new h off e fits = tabulate-ext c _ _ (λ k lt.
      ap (enqueue_ptrs r r.prod.head tbl c) (index-shift s h off r.prod.head k e)
      ∙ enqueue_ptrs_lem s r.prod.head c tbl fits k (omega arith)
      ∙ rw (lt→ltb k c lt))

module _ {r : Ring} (v : IsValid r) (alone : r.prod.tail ≡ r.prod.head) (tbl : Table ℕ) (c : ℕ)
    (room : c ≤ space r) where
  pub contents-stored : contents (stored r tbl c) ≡ contents r ++ tabulate c tbl
  contents-stored =
      ap (λ (n : ℕ). tabulate n (λ k. (stored r tbl c).slots ((r.cons.head + k) % r.size)))
        {y = entries r + c} (omega (arith, v.shape.capacity_lt, size-le v.shape))
      ∙ tabulate-add (entries r) c _
      ∙ ap₂ ◌++◌
          (window-old v.shape tbl c r.cons.head (entries r) (entries r)
            (omega (arith, v.shape.capacity_lt, size-le v.shape)) (omega arith)
            (omega (arith, v.shape.capacity_lt, size-le v.shape)))
          (window-new v.shape tbl c r.cons.head (entries r)
            (omega (arith, v.shape.capacity_lt, size-le v.shape))
            (omega (arith, v.shape.capacity_lt, size-le v.shape)))

  pub held-stored : held (stored r tbl c) ≡ held r
  held-stored =
      window-old v.shape tbl c r.cons.tail (ahead r r.prod.head) (claims r)
        (omega (arith, v.shape.capacity_lt, size-le v.shape))
        (omega (arith, v.shape.capacity_lt, size-le v.shape))
        (omega (arith, v.shape.capacity_lt, size-le v.shape))

  pub stored-IsValid : IsValid (stored r tbl c)
  stored-IsValid = record {
    shape = record {
      order = v.shape.order;
      order_le = v.shape.order_le;
      size_eq = v.shape.size_eq;
      mask_eq = v.shape.mask_eq;
      capacity_lt = v.shape.capacity_lt;
    };
    cons_tail_lt = v.cons_tail_lt;
    cons_head_lt = v.cons_head_lt;
    prod_tail_lt = omega arith;
    prod_head_lt = omega arith;
    claimed = omega (arith, v.shape.capacity_lt, size-le v.shape);
    published = omega (arith, v.shape.capacity_lt, size-le v.shape);
    within = omega (arith, v.shape.capacity_lt, size-le v.shape);
  }

  pub space-stored : space (stored r tbl c) ≡ space r - c
  space-stored = omega (arith, v.shape.capacity_lt, size-le v.shape)
