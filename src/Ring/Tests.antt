-- ===== src/Ring/Tests.antt =====
-- A ring of four slots whose indices are about to wrap, and the theorems at it.
use dpdk_cr.Common.{
  ℕ, ◌+◌, ◌%◌, ◌≤◌, ◌≡◌, ◌↔◌, refl, true, some, none, List, [], ◌∷◌, ◌++◌, length, take, drop,
  Table, tabulate, store, ltb, if◌then◌else◌, arith, add32, min, ◌==◌,
}
use dpdk_cr.Ring.Types.{Behavior, queue_fixed, queue_variable, Ring}
use dpdk_cr.Ring.Shape.{IsShape}
use dpdk_cr.Ring.Copy.{enqueue_ptrs, dequeue_ptrs, repeat, copy_one, copy_rest, copy_unrolled}
use dpdk_cr.Ring.Copy.Macros.{enqueue_ptrs_lem, dequeue_ptrs_lem}
use dpdk_cr.Ring.Valid.{IsValid, entries, contents, held, claims, space}
use dpdk_cr.Ring.Generic.{Move, Generic, IsGeneric, IsMove, granted, with_prod_head, with_cons_head}
use dpdk_cr.Ring.Ops.{
  do_enqueue, do_dequeue, report, enqueue_bulk, enqueue_burst, dequeue_bulk, dequeue_burst,
}
use dpdk_cr.Ring.Count.{count, free_count, full, empty}
use dpdk_cr.Ring.Count.Laws.{counters_lem}
use dpdk_cr.Ring.Enqueue.{do_enqueue_lem}
use dpdk_cr.Ring.Dequeue.{do_dequeue_lem}
use dpdk_cr.Ring.Queue
use dpdk_cr.Ring.Queue.{Call, put, get}
use dpdk_cr.Ring.Refine.{IsQuiet, run, run_refines}
use dpdk_cr.Ring.Peek.{sc_dequeue_burst_peek, sc_dequeue_burst_block}
use dpdk_cr.Ring.Peek.Laws.{peek_lem}
use dpdk_cr.Ring.Peek.Block.{block_lem}

-- Functions that move the indices as documented, for one thread at a time.
abbrev moving : ℕ → ℕ → (ℕ → Ring) → ℕ → Behavior → Move
moving found head moved n b = record {
  count = granted b n found;
  old_head = head;
  new_head = add32 head (granted b n found);
  found = found;
  ring = moved (add32 head (granted b n found));
}

abbrev generic : Generic
generic = record {
  move_prod_head = λ r single n b. moving (space r) r.prod.head (with_prod_head r) n b;
  move_cons_head = λ r single n b. moving (entries r) r.cons.head (with_cons_head r) n b;
  update_tail = λ ht old new single enqueue. record ht { tail = new };
}

moving-IsMove :
    (found head : ℕ) (moved : ℕ → Ring) (n : ℕ) (b : Behavior)
    → IsMove found head moved n b (moving found head moved n b)
moving-IsMove found head moved n b = record {
  count_eq = refl;
  found_eq = refl;
  old_eq = refl;
  new_eq = λ h. refl;
  ring_eq = refl;
}

generic-IsGeneric : IsGeneric generic
generic-IsGeneric = record {
  prod_moves = λ r single n b v small. moving-IsMove (space r) r.prod.head (with_prod_head r) n b;
  cons_moves = λ r single n b v small. moving-IsMove (entries r) r.cons.head (with_cons_head r) n b;
  tail_follows = λ ht old new single enqueue e. refl;
}

abbrev last : ℕ
last = 0xffff_ffff

-- one object, 7, in slot 3; the next goes to slot 0
abbrev ring : Ring
ring = record {
  size = 4;
  mask = 3;
  capacity = 3;
  prod = record { head = 0; tail = 0; single = 1 };
  cons = record { head = last; tail = last; single = 1 };
  slots = λ i. if i == 3 then 7 else 0;
}

ring-IsShape : IsShape ring
ring-IsShape = record {
  order = 2;
  order_le = omega arith;
  size_eq = refl;
  mask_eq = refl;
  capacity_lt = omega arith;
}

ring-IsValid : IsValid ring
ring-IsValid = record {
  shape = ring-IsShape;
  cons_tail_lt = omega arith;
  cons_head_lt = omega arith;
  prod_tail_lt = omega arith;
  prod_head_lt = omega arith;
  claimed = omega arith;
  published = omega arith;
  within = omega arith;
}

ring-IsQuiet : IsQuiet ring
ring-IsQuiet = record { valid = ring-IsValid; prod_quiet = refl; cons_quiet = refl }

abbrev objects : Table ℕ
objects i = i + 10

-- five objects do not fit, and two do; then three come out, in order
abbrev script : List Call
script =
    put queue_fixed 5 objects
    ∷ put queue_variable 5 objects
    ∷ get queue_fixed 4
    ∷ get queue_variable 4
    ∷ []

script_output : run generic ring script ≡ (0, []) ∷ (2, []) ∷ (0, []) ∷ (3, 7 ∷ 10 ∷ 11 ∷ []) ∷ []
unfolding run enqueue_bulk enqueue_burst dequeue_bulk dequeue_burst do_enqueue do_dequeue
    enqueue_ptrs dequeue_ptrs copy_unrolled copy_rest copy_one repeat store tabulate
script_output = refl

enqueue_ptrs_lem_example :
    enqueue_ptrs ring last objects 3 ((last + 1) % 4)
    ≡ (if ltb 1 3 then objects 1 else ring.slots ((last + 1) % 4))
enqueue_ptrs_lem_example =
    enqueue_ptrs_lem ring-IsShape last 3 objects (omega arith) 1 (omega arith)

dequeue_ptrs_lem_example :
    dequeue_ptrs ring last objects 3 0
    ≡ (if ltb 0 3 then ring.slots ((last + 0) % 4) else objects 0)
dequeue_ptrs_lem_example = dequeue_ptrs_lem ring-IsShape last 3 objects (omega arith) 0

do_enqueue_lem_example :
    let d = do_enqueue generic ring objects 5 queue_variable 1 (some 0) in
    (d.count ≡ granted queue_variable 5 (space ring))
    × (contents d.ring ≡ contents ring ++ tabulate d.count objects)
    × (held d.ring ≡ held ring)
    × (d.free_space ≡ report (some 0) (space d.ring))
    × IsValid d.ring
    × (d.ring.prod.tail ≡ d.ring.prod.head)
do_enqueue_lem_example =
    do_enqueue_lem generic-IsGeneric ring-IsValid refl objects 5 (omega arith) queue_variable 1
      (some 0)

do_dequeue_lem_example :
    let d = do_dequeue generic ring objects 1 queue_fixed 1 none in
    (d.count ≡ granted queue_fixed 1 (entries ring))
    × (tabulate d.count d.table ≡ take d.count (contents ring))
    × ((k : ℕ) → d.count ≤ k → d.table k ≡ objects k)
    × (contents d.ring ≡ drop d.count (contents ring))
    × (claims d.ring ≡ 0)
    × (d.available ≡ report none (entries d.ring))
    × IsValid d.ring
    × (d.ring.cons.tail ≡ d.ring.cons.head)
do_dequeue_lem_example =
    do_dequeue_lem generic-IsGeneric ring-IsValid refl objects 1 (omega arith) queue_fixed 1 none

run_refines_example : run generic ring script ≡ Queue.run 3 (contents ring) script
run_refines_example = run_refines generic-IsGeneric script ring-IsQuiet (omega arith)

counters_lem_example :
    (count ring ≡ length (held ring) + length (contents ring))
    × (free_count ring + count ring ≡ 3)
    × ((full ring ≡ true) ↔ (count ring ≡ 3))
    × ((empty ring ≡ true) ↔ (length (held ring) + length (contents ring) ≡ 0))
counters_lem_example = counters_lem ring-IsValid

peek_lem_example :
    let p = sc_dequeue_burst_peek ring objects 4 0 in
    (p.count ≡ min 4 (entries ring))
    × (tabulate p.count p.table ≡ take p.count (contents ring))
    × ((k : ℕ) → p.count ≤ k → p.table k ≡ objects k)
    × (contents p.ring ≡ drop p.count (contents ring))
    × (held p.ring ≡ held ring ++ take p.count (contents ring))
    × (p.ring.prod ≡ ring.prod)
    × (space p.ring ≡ space ring)
    × (p.cons_next ≡ (if p.count == 0 then 0 else p.ring.cons.head))
    × IsValid p.ring
peek_lem_example = peek_lem ring-IsValid objects 4 0

block_lem_example :
    let c = min 4 (entries ring) in
    let new = granted queue_variable 5 (space ring) in
    let more : Ring → Ring = λ s. (do_enqueue generic s objects 5 queue_variable 1 none).ring in
    let inside = more (sc_dequeue_burst_peek ring objects 4 0).ring in
    let d = sc_dequeue_burst_block ring objects 4 more in
    (d.count ≡ c)
    × (tabulate c d.table ≡ take c (contents ring))
    × (held inside ≡ take c (contents ring))
    × (contents d.ring ≡ drop c (contents ring) ++ tabulate new objects)
    × (claims d.ring ≡ 0)
    × IsValid d.ring
block_lem_example =
    block_lem generic-IsGeneric ring-IsValid refl refl objects 4 (omega arith) (omega arith) objects
      5 (omega arith) queue_variable 1
