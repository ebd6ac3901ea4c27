-- ===== src/Ring/Dequeue/Taken.antt =====
-- A ring with its `c` oldest objects gone.
use dpdk_cr.Common.{
  ℕ, ◌+◌, ◌-◌, ◌%◌, ◌≤◌, ◌≡◌, sym, ap, ◌∙◌, take, drop, Table, tabulate, tabulate-ext,
  take-tabulate, drop-tabulate, add32, ltb, if◌then◌else◌, le→ltb, lt→ltb, arith,
}
use dpdk_cr.Ring.Types.{Ring}
use dpdk_cr.Ring.Shape.{IsShape, index-shift, size-le}
use dpdk_cr.Ring.Copy.{dequeue_ptrs}
use dpdk_cr.Ring.Copy.Macros.{dequeue_ptrs_lem}
use dpdk_cr.Ring.Valid.{IsValid, window, entries, contents, claims}

-- what a dequeue of `c` objects leaves
abbrev pub taken : Ring → ℕ → Ring
taken r c = record r {
  cons = record (r.cons) { head = add32 r.cons.head c; tail = add32 r.cons.head c };
}

-- The first objects of a window, and the others.
pub window-take : (r : Ring) (h c n : ℕ) → c ≤ n → take c (window r h n) ≡ window r h c
window-take r h c n le =
    ap (λ (m : ℕ). take c (window r h m)) {y = c + (n - c)} (omega arith)
    ∙ take-tabulate c (n - c) (λ k. r.slots ((h + k) % r.size))

pub window-drop :
    {r : Ring} (s : IsShape r) (h c n : ℕ)
    → c ≤ n
    → drop c (window r h n) ≡ window r (add32 h c) (n - c)
window-drop {r} s h c n le =
    ap (λ (m : ℕ). drop c (window r h m)) {y = c + (n - c)} (omega arith)
    ∙ drop-tabulate c (n - c) (λ k. r.slots ((h + k) % r.size))
    ∙ tabulate-ext (n - c) _ _ (λ k lt. ap r.slots (index-shift s h c (add32 h c) k (omega arith)))

module _ {r : Ring} (v : IsValid r) (tbl : Table ℕ) (c : ℕ) (fits : c ≤ entries r) where
  pub table-taken :
      (tabulate c (dequeue_ptrs r r.cons.head tbl c) ≡ take c (contents r))
      × ((k : ℕ) → c ≤ k → dequeue_ptrs r r.cons.head tbl c k ≡ tbl k)
  table-taken = (
    tabulate-ext c _ _ (λ k lt. copied k ∙ rw (lt→ltb k c lt))
        ∙ sym (window-take r r.cons.head c (entries r) fits),
    λ k le. copied k ∙ rw (le→ltb k c le),
  )
    where
      copied :
          (k : ℕ)
          → dequeue_ptrs r r.cons.head tbl c k
            ≡ (if ltb k c then r.slots ((r.cons.head + k) % r.size) else tbl k)
      copied k =
          dequeue_ptrs_lem v.shape r.cons.head c tbl
            (omega (arith, v.shape.capacity_lt, size-le v.shape)) k

module _ {r : Ring} (v : IsValid r) (c : ℕ) (fits : c ≤ entries r) where
  pub entries-taken : entries (taken r c) ≡ entries r - c
  entries-taken = omega (arith, v.shape.capacity_lt, size-le v.shape)

  pub claims-taken : claims (taken r c) ≡ 0
  claims-taken = omega arith

  pub contents-taken : contents (taken r c) ≡ drop c (contents r)
  contents-taken =
      ap (λ (n : ℕ). window r (add32 r.cons.head c) n) entries-taken
      ∙ sym (window-drop v.shape r.cons.head c (entries r) fits)

module _ {r : Ring} (v : IsValid r) (alone : r.cons.tail ≡ r.cons.head) (c : ℕ)
    (fits : c ≤ entries r) where
  pub taken-IsValid : IsValid (taken r c)
  taken-IsValid = record {
    shape = record {
      order = v.shape.order;
      order_le = v.shape.order_le;
      size_eq = v.shape.size_eq;
      mask_eq = v.shape.mask_eq;
      capacity_lt = v.shape.capacity_lt;
    };
    cons_tail_lt = omega arith;
    cons_head_lt = omega arith;
    prod_tail_lt = v.prod_tail_lt;
    prod_head_lt = v.prod_head_lt;
    claimed = omega (arith, v.shape.capacity_lt, size-le v.shape);
    published = omega (arith, v.shape.capacity_lt, size-le v.shape);
    within = omega (arith, v.shape.capacity_lt, size-le v.shape);
  }
