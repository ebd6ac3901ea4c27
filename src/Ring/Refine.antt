-- ===== src/Ring/Refine.antt =====
-- A ring that its producers and consumers use in turns behaves as the bounded queue.
use dpdk_cr.Common.{
  ℕ, ◌-◌, ◌<◌, ◌≡◌, refl, sym, ap, ap₂, ◌∙◌, none, List, [], ◌∷◌, ◌++◌, length, length-tabulate,
  take, drop, Table, tabulate, u32, arith,
}
use dpdk_cr.Ring.Types.{Behavior, queue_fixed, queue_variable, Ring}
use dpdk_cr.Ring.Valid.{IsValid, entries, contents, space}
use dpdk_cr.Ring.Generic.{Generic, IsGeneric, granted}
use dpdk_cr.Ring.Ops.{
  do_enqueue, do_dequeue, enqueue_bulk, enqueue_burst, dequeue_bulk, dequeue_burst, Enqueued,
  Dequeued,
}
use dpdk_cr.Ring.Enqueue.{do_enqueue_lem, do_enqueue-frame}
use dpdk_cr.Ring.Dequeue.{do_dequeue_lem, do_dequeue-frame}
use dpdk_cr.Ring.Queue
use dpdk_cr.Ring.Queue.{Call, put, get, Reply}

-- No producer and no consumer is in the middle of a call.
pub record IsQuiet (r : Ring) : Type 0 where
  pub valid : IsValid r
  pub prod_quiet : r.prod.tail ≡ r.prod.head
  pub cons_quiet : r.cons.tail ≡ r.cons.head

-- Every count that is passed is a 32-bit number.
abbrev pub IsSmall : List Call → Type 0
IsSmall [] = Unit
IsSmall (put b n tbl ∷ calls) = (n < u32) × IsSmall calls
IsSmall (get b n ∷ calls) = (n < u32) × IsSmall calls

module _ (g : Generic) where
  -- The function that the source has for each behavior, with the ring's own mode.
  unfoldable pub put_call : Ring → Behavior → ℕ → Table ℕ → Enqueued
  put_call r queue_fixed n tbl = enqueue_bulk g r tbl n none
  put_call r queue_variable n tbl = enqueue_burst g r tbl n none

  unfoldable pub get_call : Ring → Behavior → ℕ → Dequeued
  get_call r queue_fixed n = dequeue_bulk g r (λ _. 0) n none
  get_call r queue_variable n = dequeue_burst g r (λ _. 0) n none

  -- A client's calls in order, with what it sees of each.
  unfoldable pub run : Ring → List Call → List Reply
  unfolding put_call get_call
  run r [] = []
  run r (put b n tbl ∷ calls) = let d = put_call r b n tbl in (d.count, []) ∷ run d.ring calls
  run r (get b n ∷ calls) =
      let d = get_call r b n in (d.count, tabulate d.count d.table) ∷ run d.ring calls

  put_call-eq :
      (r : Ring) (b : Behavior) (n : ℕ) (tbl : Table ℕ)
      → put_call r b n tbl ≡ do_enqueue g r tbl n b r.prod.single none
  unfolding put_call enqueue_bulk enqueue_burst
  put_call-eq r queue_fixed n tbl = refl
  put_call-eq r queue_variable n tbl = refl

  get_call-eq :
      (r : Ring) (b : Behavior) (n : ℕ)
      → get_call r b n ≡ do_dequeue g r (λ _. 0) n b r.cons.single none
  unfolding get_call dequeue_bulk dequeue_burst
  get_call-eq r queue_fixed n = refl
  get_call-eq r queue_variable n = refl

length-contents : (r : Ring) → length (contents r) ≡ entries r
length-contents r = length-tabulate (entries r) _

space-quiet : {r : Ring} → IsQuiet r → space r ≡ r.capacity - length (contents r)
space-quiet {r} q = omega (arith, length-contents r, q.prod_quiet, q.cons_quiet)

module _ {g : Generic} (laws : IsGeneric g) {r : Ring} (q : IsQuiet r) (b : Behavior) (n : ℕ)
    (small : n < u32) where
  put_refines :
      (tbl : Table ℕ)
      → let d = put_call g r b n tbl in
        (d.count ≡ granted b n (r.capacity - length (contents r)))
        × (contents d.ring ≡ contents r ++ tabulate d.count tbl)
        × (d.ring.capacity ≡ r.capacity)
        × IsQuiet d.ring
  put_refines tbl =
      let ok = do_enqueue_lem laws q.valid q.prod_quiet tbl n small b r.prod.single none in
      let same = do_enqueue-frame laws q.valid q.prod_quiet tbl n small b r.prod.single none in
      rw (put_call-eq g r b n tbl) (
        ok.0 ∙ ap (granted b n) (space-quiet q),
        ok.1,
        same.1,
        record { valid = ok.4; prod_quiet = ok.5; cons_quiet = rw same.0 q.cons_quiet },
      )

  get_refines :
      let d = get_call g r b n in
      (d.count ≡ granted b n (length (contents r)))
      × (tabulate d.count d.table ≡ take d.count (contents r))
      × (contents d.ring ≡ drop d.count (contents r))
      × (d.ring.capacity ≡ r.capacity)
      × IsQuiet d.ring
  get_refines =
      let ok = do_dequeue_lem laws q.valid q.cons_quiet (λ _. 0) n small b r.cons.single none in
      let same = do_dequeue-frame laws q.valid q.cons_quiet (λ _. 0) n small b r.cons.single none in
      rw (get_call-eq g r b n) (
        ok.0 ∙ ap (granted b n) (sym (length-contents r)),
        ok.1,
        ok.3,
        same.1,
        record { valid = ok.6; prod_quiet = rw same.0 q.prod_quiet; cons_quiet = ok.7 },
      )

module _ {g : Generic} (laws : IsGeneric g) where
  -- No sequence of calls, each made when the one before is over, tells a ring from the queue of its
  -- contents with the ring's capacity: every call returns the same count and the same objects.
  pub run_refines :
      (calls : List Call) {r : Ring}
      → IsQuiet r
      → IsSmall calls
      → run g r calls ≡ Queue.run r.capacity (contents r) calls
  unfolding run Queue.run
  run_refines [] q small = refl
  run_refines (put b n tbl ∷ calls) {r} q (n_small, small) =
      let (count, items, cap, quiet) = put_refines laws q b n n_small tbl in
      ap₂ (λ (c : ℕ) (rest : List Reply). (c, []) ∷ rest) count
        (run_refines calls quiet small
          ∙ ap₂ (λ k xs. Queue.run k xs calls) cap
              (items ∙ ap (λ (c : ℕ). contents r ++ tabulate c tbl) count))
  run_refines (get b n ∷ calls) {r} q (n_small, small) =
      let (count, got, items, cap, quiet) = get_refines laws q b n n_small in
      ap₂ (λ (c : Reply) (rest : List Reply). c ∷ rest)
        (ap₂ (λ (c : ℕ) (xs : List ℕ). (c, xs)) count
          (got ∙ ap (λ (c : ℕ). take c (contents r)) count))
        (run_refines calls quiet small
          ∙ ap₂ (λ k xs. Queue.run k xs calls) cap
              (items ∙ ap (λ (c : ℕ). drop c (contents r)) count))
