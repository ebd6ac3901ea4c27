-- ===== src/Ring/Valid.antt =====
-- The invariant of a ring, and what it holds: the objects that a consumer can still claim, and those
-- that a consumer has claimed and not yet released.
use dpdk_cr.Common.{ℕ, ◌+◌, ◌-◌, ◌%◌, ◌≤◌, ◌<◌, List, tabulate, u32, sub32}
use dpdk_cr.Ring.Types.{Ring}
use dpdk_cr.Ring.Shape.{IsShape}

-- How far an index is ahead of the consumers' tail, in 32-bit arithmetic.
abbrev pub ahead : Ring → ℕ → ℕ
ahead r i = sub32 i r.cons.tail

-- Going up from the consumers' tail, the indices come in the order: consumers' head, producers'
-- tail, producers' head, all within the capacity.
pub record IsValid (r : Ring) : Type 0 where
  pub shape : IsShape r
  pub cons_tail_lt : r.cons.tail < u32
  pub cons_head_lt : r.cons.head < u32
  pub prod_tail_lt : r.prod.tail < u32
  pub prod_head_lt : r.prod.head < u32
  pub claimed : ahead r r.cons.head ≤ ahead r r.prod.tail
  pub published : ahead r r.prod.tail ≤ ahead r r.prod.head
  pub within : ahead r r.prod.head ≤ r.capacity

-- the objects of the `n` slots from index `h` on
abbrev pub window : Ring → ℕ → ℕ → List ℕ
window r h n = tabulate n (λ k. r.slots ((h + k) % r.size))

-- how many objects can be claimed, and which
abbrev pub entries : Ring → ℕ
entries r = sub32 r.prod.tail r.cons.head

abbrev pub contents : Ring → List ℕ
contents r = window r r.cons.head (entries r)

-- how many objects are claimed and not released, and which
abbrev pub claims : Ring → ℕ
claims r = sub32 r.cons.head r.cons.tail

abbrev pub held : Ring → List ℕ
held r = window r r.cons.tail (claims r)

-- how many objects a producer can still add
abbrev pub space : Ring → ℕ
space r = r.capacity - ahead r r.prod.head
