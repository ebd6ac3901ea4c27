-- ===== src/Ring/Generic.antt =====
-- What src/ext/rte_ring.c takes from DPDK's `rte_ring_generic.h`: the functions that move the head
-- and the tail of one side. They are parameters, with what the documentation in rte_ring.c says of
-- them for calls that no other thread races.
use dpdk_cr.Common.{ℕ, ◌≤◌, ◌<◌, ◌≡◌, ◌≢◌, u32, add32, ltb, leb, if◌then◌else◌, arith}
use dpdk_cr.Ring.Types.{Behavior, queue_fixed, queue_variable, HeadTail, Ring}
use dpdk_cr.Ring.Valid.{IsValid, entries, space}

-- `old_head`, `new_head` and the number of entries are the values of the pointer arguments.
pub record Move : Type 0 where
  pub count : ℕ
  pub old_head : ℕ
  pub new_head : ℕ
  pub found : ℕ
  pub ring : Ring

pub record Generic : Type 0 where
  -- `__rte_ring_move_prod_head(r, is_sp, n, behavior, …)`
  pub move_prod_head : Ring → ℕ → ℕ → Behavior → Move
  -- `__rte_ring_move_cons_head(r, is_sc, n, behavior, …)`
  pub move_cons_head : Ring → ℕ → ℕ → Behavior → Move
  -- `update_tail(ht, old_val, new_val, single, enqueue)`
  pub update_tail : HeadTail → ℕ → ℕ → ℕ → ℕ → HeadTail

-- How many of `n` objects are moved where `room` could be: all or none, or as many as possible.
abbrev pub granted : Behavior → ℕ → ℕ → ℕ
granted queue_fixed n room = if leb n room then n else 0
granted queue_variable n room = if ltb room n then room else n

-- `r` with the producers' or the consumers' head moved.
abbrev pub with_prod_head : Ring → ℕ → Ring
with_prod_head r i = record r { prod = record (r.prod) { head = i } }

abbrev pub with_cons_head : Ring → ℕ → Ring
with_cons_head r i = record r { cons = record (r.cons) { head = i } }

-- A head moves by the number that is returned, from where it was; nothing else changes.
pub record IsMove (found head : ℕ) (moved : ℕ → Ring) (n : ℕ) (b : Behavior) (m : Move)
    : Type 0 where
  pub count_eq : m.count ≡ granted b n found
  pub found_eq : m.found ≡ found
  pub old_eq : m.old_head ≡ head
  pub new_eq : m.count ≢ 0 → m.new_head ≡ add32 head m.count
  pub ring_eq : m.ring ≡ moved (add32 head m.count)

pub record IsGeneric (g : Generic) : Type 0 where
  pub prod_moves :
      (r : Ring) (single n : ℕ) (b : Behavior)
      → IsValid r
      → n < u32
      → IsMove (space r) r.prod.head (with_prod_head r) n b (g.move_prod_head r single n b)
  pub cons_moves :
      (r : Ring) (single n : ℕ) (b : Behavior)
      → IsValid r
      → n < u32
      → IsMove (entries r) r.cons.head (with_cons_head r) n b (g.move_cons_head r single n b)
  -- The tail follows once the earlier moves of that side are over.
  pub tail_follows :
      (ht : HeadTail) (old new single enqueue : ℕ)
      → ht.tail ≡ old
      → g.update_tail ht old new single enqueue ≡ record ht { tail = new }

pub granted-le : (b : Behavior) (n room : ℕ) → granted b n room ≤ room
granted-le queue_fixed n room = ground arith
granted-le queue_variable n room = ground arith
