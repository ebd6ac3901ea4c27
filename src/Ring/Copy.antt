-- ===== src/Ring/Copy.antt =====
-- The macros ENQUEUE_PTRS and DEQUEUE_PTRS of src/ext/rte_ring.c, which copy object pointers between
-- a caller's table and the slots. Both unroll by four if the copy does not reach the last slot.
pub mod Laws
pub mod Macros
use dpdk_cr.Common.{ℕ, zero, suc, ◌+◌, ◌-◌, ◌/◌, Table, store, bit_and, add32, ltb, if◌then◌else◌}
use dpdk_cr.Ring.Types.{Ring}

-- The two indices of a copy, of type `uint32_t`, and the array that is written.
pub record Cursor : Type 0 where
  pub from : ℕ
  pub to : ℕ
  pub dst : Table ℕ

abbrev pub cursor : ℕ → ℕ → Table ℕ → Cursor
cursor i j t = record { from = i; to = j; dst = t }

-- `k` rounds of a counted loop
unfoldable pub repeat {ℓ} : {S : Type ℓ} → ℕ → (S → S) → S → S
repeat zero f s = s
repeat (suc k) f s = repeat k f (f s)

module _ (src : Table ℕ) where
  -- `dst[to++] = src[from++]`
  unfoldable pub copy_one : Cursor → Cursor
  copy_one c = cursor (add32 c.from 1) (add32 c.to 1) (store c.dst c.to (src c.from))

  -- the unrolled body of the first loop
  unfoldable pub copy_four : Cursor → Cursor
  copy_four c =
      let t1 = store c.dst c.to (src c.from) in
      let t2 = store t1 (add32 c.to 1) (src (add32 c.from 1)) in
      let t3 = store t2 (add32 c.to 2) (src (add32 c.from 2)) in
      let t4 = store t3 (add32 c.to 3) (src (add32 c.from 3)) in
      cursor (add32 c.from 4) (add32 c.to 4) t4

  -- `switch (n & 0x3)`, whose cases fall through
  unfoldable pub copy_rest : ℕ → Cursor → Cursor
  copy_rest zero c = c
  copy_rest (suc zero) c = copy_one c
  copy_rest (suc (suc zero)) c = copy_one (copy_one c)
  copy_rest (suc (suc (suc zero))) c = copy_one (copy_one (copy_one c))
  copy_rest (suc (suc (suc (suc k)))) c = c

  -- The branch for `idx + n < size`: `for (i = 0; i < (n & ~0x3); i += 4)`, then the switch.
  unfoldable pub copy_unrolled : ℕ → Cursor → Cursor
  copy_unrolled n c = copy_rest (bit_and n 0x3) (repeat (bit_and n 0xffff_fffc / 4) copy_four c)

-- ENQUEUE_PTRS: the slots after the copy
unfoldable pub enqueue_ptrs : Ring → ℕ → Table ℕ → ℕ → Table ℕ
enqueue_ptrs r prod_head obj_table n =
    let idx = bit_and prod_head r.mask in
    if ltb (add32 idx n) r.size
    then (copy_unrolled obj_table n (cursor 0 idx r.slots)).dst
    else let upper = repeat (r.size - idx) (copy_one obj_table) (cursor 0 idx r.slots) in
      (repeat (n - upper.from) (copy_one obj_table) (cursor upper.from 0 upper.dst)).dst

-- DEQUEUE_PTRS: the caller's table after the copy
unfoldable pub dequeue_ptrs : Ring → ℕ → Table ℕ → ℕ → Table ℕ
dequeue_ptrs r cons_head obj_table n =
    let idx = bit_and cons_head r.mask in
    if ltb (add32 idx n) r.size
    then (copy_unrolled r.slots n (cursor idx 0 obj_table)).dst
    else let upper = repeat (r.size - idx) (copy_one r.slots) (cursor idx 0 obj_table) in
      (repeat (n - upper.to) (copy_one r.slots) (cursor 0 upper.to upper.dst)).dst
