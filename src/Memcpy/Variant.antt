-- ===== src/Memcpy/Variant.antt =====
-- What the variants of `rte_memcpy` share: the variables of a copy, the copies of fewer than 16 bytes,
-- the shapes of their loops, and `rte_memcpy_aligned` and `rte_memcpy` over the functions of a variant.
use dpdk_cr.Common.{ℕ, zero, suc, ◌+◌, ◌-◌, bit_and, bit_or, ltb, leb, ◌==◌, if◌then◌else◌}
use dpdk_cr.Memcpy.Memory.{Memory, load, store_vector}

-- a copy from the second address to the first
abbrev pub Mov : Type 0
Mov = ℕ → ℕ → Memory → Memory

-- `k` calls of a copy of `w` bytes, from offset `o` on, as the larger copies list them
unfoldable pub repeated : ℕ → Mov → ℕ → ℕ → Mov
repeated w mov zero o dst src m = m
repeated w mov (suc k) o dst src m = repeated w mov k (o + w) dst src (mov (dst + o) (src + o) m)

-- `k` stores of vectors of `w` bytes that were loaded before the first of them, from offset `o` on
unfoldable pub block_stores : ℕ → ℕ → ℕ → ℕ → ℕ → Memory → Memory → Memory
block_stores w zero o dst src before m = m
block_stores w (suc k) o dst src before m =
    block_stores w k (o + w) dst src before (store_vector w m (dst + o) (load before (src + o)))

-- The variables of a copy under way: what is left of `n`, where it goes and comes from, and the
-- memory so far.
pub record Copy : Type 0 where
  pub n : ℕ
  pub dst : ℕ
  pub src : ℕ
  pub mem : Memory

abbrev pub copy : ℕ → ℕ → ℕ → Memory → Copy
copy k d s m = record { n = k; dst = d; src = s; mem = m }

-- `k` bytes are copied, and the variables move on by so many.
abbrev pub advance : ℕ → (ℕ → ℕ → Memory → Memory) → Copy → Copy
advance k mov c = copy (c.n - k) (c.dst + k) (c.src + k) (mov c.dst c.src c.mem)

-- A scalar store of `k` bytes, for `if (n & k)` in a copy of fewer than 16 bytes; the bytes are
-- loaded before they are stored.
unfoldable pub scalar : ℕ → Copy → Copy
scalar k c = if bit_and c.n k == 0 then c else record c {
  dst = c.dst + k;
  src = c.src + k;
  mem = λ a.
      if leb c.dst a
      then (if ltb a (c.dst + k) then c.mem (c.src + (a - c.dst)) else c.mem a)
      else c.mem a;
}

-- the branch for `n < 16`
unfoldable pub copy_small : ℕ → ℕ → ℕ → Memory → Memory
copy_small n dst src m = (scalar 8 (scalar 4 (scalar 2 (scalar 1 (copy n dst src m))))).mem

-- `if (n >= w) { n -= w; … }` with a copy of `w` bytes
abbrev pub advance_if : ℕ → (ℕ → ℕ → Memory → Memory) → Copy → Copy
advance_if w mov c = if leb w c.n then advance w mov c else c

-- `for (; n >= w; n -= w)` or `while (n >= w)` with a copy of `w` bytes; `fuel` bounds the rounds.
unfoldable pub blocks : ℕ → Mov → ℕ → Copy → Copy
blocks w mov zero c = c
blocks w mov (suc fuel) c =
    let rest = blocks w mov fuel (advance w mov c) in if leb w c.n then rest else c

-- The end of a copy, with at most twice `w` bytes left: `w` bytes and then the last `w`, of which some
-- may be copied already.
unfoldable pub copy_last : ℕ → Mov → Copy → Memory
copy_last w mov c =
    let back = mov (c.dst + c.n - w) (c.src + c.n - w) in
    if ltb w c.n then back (mov c.dst c.src c.mem) else if ltb 0 c.n then back c.mem else c.mem

-- `bits = n; n = n & mask; bits -= n`, and the pointers move on by `bits`, behind a loop over blocks
-- that has left the memory `m`
unfoldable pub behind_blocks : ℕ → Copy → Memory → Copy
behind_blocks mask c m =
    let n = bit_and c.n mask in let bits = c.n - n in copy n (c.dst + bits) (c.src + bits) m

-- What the file defines for one kind of machine, up to `#endif /* RTE_MACHINE_CPUFLAG */`.
pub record Variant : Type 0 where
  pub alignment_mask : ℕ
  pub mov16 : Mov
  pub mov32 : Mov
  pub mov64 : Mov
  pub memcpy_generic : ℕ → Mov

unfoldable pub memcpy_aligned : Variant → ℕ → Mov
memcpy_aligned v n dst src m =
    if ltb n 16
    then copy_small n dst src m
    else if leb n 32
    then v.mov16 (dst + n - 16) (src + n - 16) (v.mov16 dst src m)
    else if leb n 64
    then v.mov32 (dst + n - 32) (src + n - 32) (v.mov32 dst src m)
    else let c = blocks 64 v.mov64 n (copy n dst src m) in
      v.mov64 (c.dst + c.n - 64) (c.src + c.n - 64) c.mem

-- `rte_memcpy`: both pointers aligned as ALIGNMENT_MASK says, or not. It returns `dst`.
unfoldable pub memcpy : Variant → ℕ → ℕ → ℕ → Memory → ℕ × Memory
memcpy v dst src n m = (
  dst,
  if bit_and (bit_or dst src) v.alignment_mask == 0
      then memcpy_aligned v n dst src m
      else v.memcpy_generic n dst src m,
)
