-- ===== src/Memcpy/Avx2.antt =====
-- The functions of the variant for AVX2.
use dpdk_cr.Common.{ℕ, ◌+◌, ◌-◌, bit_and, ltb, leb, if◌then◌else◌}
use dpdk_cr.Memcpy.Memory.{Memory, load, store_vector}
use dpdk_cr.Memcpy.Variant.{
  Mov, repeated, block_stores, Copy, copy, advance_if, copy_small, copy_last, blocks, behind_blocks,
  Variant,
}

unfoldable pub mov16 : Mov
mov16 dst src m = store_vector 16 m dst (load m src)

unfoldable pub mov32 : Mov
mov32 dst src m = store_vector 32 m dst (load m src)

unfoldable pub mov64 : Mov
mov64 dst src m = repeated 32 mov32 2 0 dst src m

unfoldable pub mov128 : Mov
mov128 dst src m = repeated 32 mov32 4 0 dst src m

-- a round of `rte_mov128blocks`
unfoldable pub block_128 : Mov
block_128 dst src m = block_stores 32 4 0 dst src m m

-- `rte_mov128blocks`
unfoldable pub mov128blocks : ℕ → Mov
mov128blocks n dst src m = (blocks 128 block_128 n (copy n dst src m)).mem

-- the code behind the label
unfoldable pub copy_block_128_back31 : Copy → Memory
copy_block_128_back31 c = copy_last 32 mov32 (advance_if 64 mov64 c)

-- `rte_memcpy_generic` for more than 256 bytes: first make the stores aligned.
unfoldable pub copy_large : Copy → Memory
copy_large c =
    let dstofss = bit_and c.dst 0x1f in
    let c =
      if ltb 0 dstofss
      then (let ahead = 32 - dstofss in
          copy (c.n - ahead) (c.dst + ahead) (c.src + ahead) (mov32 c.dst c.src c.mem))
      else c in
    copy_block_128_back31 (behind_blocks 127 c (mov128blocks c.n c.dst c.src c.mem))

unfoldable pub memcpy_generic : ℕ → Mov
memcpy_generic n dst src m =
    let back = mov16 (dst + n - 16) (src + n - 16) in
    if ltb n 16
    then copy_small n dst src m
    else if leb n 32
    then back (mov16 dst src m)
    else if leb n 48
    then back (mov16 (dst + 16) (src + 16) (mov16 dst src m))
    else if leb n 64
    then mov32 (dst + n - 32) (src + n - 32) (mov32 dst src m)
    else if leb n 256
    then copy_block_128_back31 (advance_if 128 mov128 (copy n dst src m))
    else copy_large (copy n dst src m)

abbrev pub avx2 : Variant
avx2 = record {
  alignment_mask = 0x1f;
  mov16 = mov16;
  mov32 = mov32;
  mov64 = mov64;
  memcpy_generic = memcpy_generic;
}
