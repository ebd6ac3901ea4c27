-- ===== src/Memcpy/Avx512.antt =====
-- The functions of the variant for AVX512F.
use dpdk_cr.Common.{ℕ, ◌+◌, ◌-◌, bit_and, ltb, leb, if◌then◌else◌}
use dpdk_cr.Memcpy.Memory.{Memory, load, store_vector}
use dpdk_cr.Memcpy.Variant.{
  Mov, repeated, block_stores, Copy, copy, advance_if, copy_small, copy_last, blocks, behind_blocks,
  Variant,
}

unfoldable pub mov16 : Mov
mov16 dst src m = store_vector 16 m dst (load m src)

unfoldable pub mov32 : Mov
mov32 dst src m = store_vector 32 m dst (load m src)

unfoldable pub mov64 : Mov
mov64 dst src m = store_vector 64 m dst (load m src)

unfoldable pub mov128 : Mov
mov128 dst src m = repeated 64 mov64 2 0 dst src m

unfoldable pub mov256 : Mov
mov256 dst src m = repeated 64 mov64 4 0 dst src m

-- a round of `rte_mov128blocks`
unfoldable pub block_128 : Mov
block_128 dst src m = block_stores 64 2 0 dst src m m

-- `rte_mov128blocks`
unfoldable pub mov128blocks : ℕ → Mov
mov128blocks n dst src m = (blocks 128 block_128 n (copy n dst src m)).mem

-- a round of `rte_mov512blocks`
unfoldable pub block_512 : Mov
block_512 dst src m = block_stores 64 8 0 dst src m m

-- `rte_mov512blocks`
unfoldable pub mov512blocks : ℕ → Mov
mov512blocks n dst src m = (blocks 512 block_512 n (copy n dst src m)).mem

-- the code behind the label
unfoldable pub copy_block_128_back63 : Copy → Memory
copy_block_128_back63 c = copy_last 64 mov64 c

-- `rte_memcpy_generic` for more than 512 bytes: first make the stores aligned.
unfoldable pub copy_large : Copy → Memory
copy_large c =
    let dstofss = bit_and c.dst 0x3f in
    let c =
      if ltb 0 dstofss
      then (let ahead = 64 - dstofss in
          copy (c.n - ahead) (c.dst + ahead) (c.src + ahead) (mov64 c.dst c.src c.mem))
      else c in
    let c = behind_blocks 511 c (mov512blocks c.n c.dst c.src c.mem) in
    copy_block_128_back63
      (if leb 128 c.n then behind_blocks 127 c (mov128blocks c.n c.dst c.src c.mem) else c)

unfoldable pub memcpy_generic : ℕ → Mov
memcpy_generic n dst src m =
    if ltb n 16
    then copy_small n dst src m
    else if leb n 32
    then mov16 (dst + n - 16) (src + n - 16) (mov16 dst src m)
    else if leb n 64
    then mov32 (dst + n - 32) (src + n - 32) (mov32 dst src m)
    else if leb n 512
    then copy_block_128_back63 (advance_if 128 mov128 (advance_if 256 mov256 (copy n dst src m)))
    else copy_large (copy n dst src m)

abbrev pub avx512f : Variant
avx512f = record {
  alignment_mask = 0x3f;
  mov16 = mov16;
  mov32 = mov32;
  mov64 = mov64;
  memcpy_generic = memcpy_generic;
}
