-- ===== src/Ring/Queue.antt =====
-- The abstract view of a ring: a queue of at most `cap` objects, oldest first.
use dpdk_cr.Common.{ℕ, ◌-◌, List, [], ◌∷◌, ◌++◌, length, take, drop, Table, tabulate}
use dpdk_cr.Ring.Types.{Behavior}
use dpdk_cr.Ring.Generic.{granted}

-- A client's call: an enqueue of `n` objects of a table, or a dequeue of `n` objects.
pub data Call : Type 0 where
  put : Behavior → ℕ → Table ℕ → Call
  get : Behavior → ℕ → Call

-- What the client sees of a call: the returned count, and the objects that it got.
abbrev pub Reply : Type 0
Reply = ℕ × List ℕ

unfoldable pub run : ℕ → List ℕ → List Call → List Reply
run cap q [] = []
run cap q (put b n tbl ∷ calls) =
    let c = granted b n (cap - length q) in (c, []) ∷ run cap (q ++ tabulate c tbl) calls
run cap q (get b n ∷ calls) =
    let c = granted b n (length q) in (c, take c q) ∷ run cap (drop c q) calls
