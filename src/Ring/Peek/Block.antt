-- ===== src/Ring/Peek/Block.antt =====
-- The block form of a single consumer's dequeue, with a producer at work while the block runs.
use dpdk_cr.Common.{
  ℕ, ◌<◌, ◌≡◌, sym, ap, ap₂, ◌∙◌, ◌≢◌, Option, ◌++◌, take, drop, Table, tabulate, u32, false, arith,
  ◌==◌, min,
}
use dpdk_cr.Ring.Types.{Behavior, HeadTail, Ring}
use dpdk_cr.Ring.Valid.{IsValid, window, entries, contents, claims, held, space}
use dpdk_cr.Ring.Generic.{Generic, IsGeneric, granted}
use dpdk_cr.Ring.Ops.{do_enqueue}
use dpdk_cr.Ring.Enqueue.{do_enqueue_lem, do_enqueue-frame}
use dpdk_cr.Ring.Peek.{sc_dequeue_burst_peek, sc_dequeue_burst_block}
use dpdk_cr.Ring.Peek.Laws.{peek_lem, release_lem}

module _ {g : Generic} (laws : IsGeneric g) {r : Ring} (v : IsValid r)
    (prod_quiet : r.prod.tail ≡ r.prod.head) (cons_quiet : r.cons.tail ≡ r.cons.head)
    (tbl : Table ℕ) (n : ℕ) (some_wanted : n ≢ 0) (some_there : entries r ≢ 0) (more : Table ℕ)
    (m : ℕ) (small : m < u32) (b : Behavior) (single : ℕ) where
  abbrev add : Ring → Ring
  add s = (do_enqueue g s more m b single Option.none).ring

  -- While the block of a dequeue looks at its objects, an enqueue can neither overwrite them nor use
  -- their slots: they are still held after it, and the space that it has is the space before the
  -- peek. When the block is over, the contents are the old ones without the peeked objects, followed
  -- by the enqueued ones, and nothing is held.
  pub block_lem :
      let c = min n (entries r) in
      let new = granted b m (space r) in
      let inside = add (sc_dequeue_burst_peek r tbl n 0).ring in
      let d = sc_dequeue_burst_block r tbl n add in
      (d.count ≡ c)
      × (tabulate c d.table ≡ take c (contents r))
      × (held inside ≡ take c (contents r))
      × (contents d.ring ≡ drop c (contents r) ++ tabulate new more)
      × (claims d.ring ≡ 0)
      × IsValid d.ring
  unfolding sc_dequeue_burst_block tabulate
  block_lem =
      let p = peek_lem v tbl n 0 in
      let seen = sc_dequeue_burst_peek r tbl n 0 in
      let quiet : seen.ring.prod.tail ≡ seen.ring.prod.head = rw p.5 prod_quiet in
      let e = do_enqueue_lem laws p.8 quiet more m small b single Option.none in
      let f = do_enqueue-frame laws p.8 quiet more m small b single Option.none in
      let release = release_lem e.4 in
      let none_held : claims r ≡ 0 = omega (arith, cons_quiet, v.cons_head_lt) in
      let some_seen : (seen.count == 0) ≡ false = ground (arith, p.0) in
      let next : seen.cons_next ≡ (add seen.ring).cons.head =
        p.7 ∙ rw some_seen (ap (λ (h : HeadTail). h.head) (sym f.0)) in
      rw (some_seen, next)
        (
          p.0,
          ap (λ (k : ℕ). tabulate k seen.table) (sym p.0)
              ∙ p.1
              ∙ ap (λ (k : ℕ). take k (contents r)) p.0,
          e.2
              ∙ p.4
              ∙ ap₂ (λ (j k : ℕ). window r r.cons.tail j ++ take k (contents r)) none_held p.0,
          release.1
              ∙ e.1
              ∙ ap₂ ◌++◌ (p.3 ∙ ap (λ (k : ℕ). drop k (contents r)) p.0)
                  (ap (λ (k : ℕ). tabulate k more) (e.0 ∙ ap (granted b m) p.6)),
          release.0,
          release.3,
        )
