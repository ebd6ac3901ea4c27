-- ===== src/Memcpy/Sse.antt =====
-- The functions of the variant for SSE and AVX.
use dpdk_cr.Common.{ℕ, zero, suc, ◌+◌, ◌-◌, ◌*◌, ◌%◌, ◌^◌, bit_and, ltb, leb, ◌==◌, if◌then◌else◌}
use dpdk_cr.Memcpy.Memory.{Memory, load, store_vector, alignr}
use dpdk_cr.Memcpy.Variant.{
  Mov, repeated, Copy, copy, advance, advance_if, copy_small, copy_last, blocks, Variant,
}

unfoldable pub mov16 : Mov
mov16 dst src m = store_vector 16 m dst (load m src)

unfoldable pub mov32 : Mov
mov32 dst src m = repeated 16 mov16 2 0 dst src m

unfoldable pub mov64 : Mov
mov64 dst src m = repeated 16 mov16 4 0 dst src m

unfoldable pub mov128 : Mov
mov128 dst src m = repeated 16 mov16 8 0 dst src m

unfoldable pub mov256 : Mov
mov256 dst src m = repeated 16 mov16 16 0 dst src m

-- The code behind the labels. Each part falls through to the next.
unfoldable pub copy_block_64_back15 : Copy → Memory
copy_block_64_back15 c = copy_last 16 mov16 (advance_if 32 mov32 c)

unfoldable pub copy_block_128_back15 : Copy → Memory
copy_block_128_back15 c = copy_block_64_back15 (advance_if 64 mov64 c)

unfoldable pub copy_block_255_back15 : Copy → Memory
copy_block_255_back15 c = copy_block_128_back15 (advance_if 128 mov128 c)

-- One round of MOVEUNALIGNED_LEFT47_IMM over `k` vectors: `k + 1` loads from the aligned addresses
-- below `src`, then `k` stores of two neighbours shifted together.
unfoldable pub shifted_stores : ℕ → ℕ → ℕ → ℕ → ℕ → Memory → Memory → Memory
shifted_stores zero i offset dst src before m = m
shifted_stores (suc k) i offset dst src before m = shifted_stores k (i + 1) offset dst src before (
    store_vector 16 m (dst + i * 16) (
      alignr (load before (src - offset + (i + 1) * 16)) (load before (src - offset + i * 16))
        offset))

-- `while (len >= 16 * k + 16 - offset)` with that round; `fuel` bounds the rounds.
unfoldable pub shifted_blocks : ℕ → ℕ → ℕ → Copy → Copy
shifted_blocks zero k offset c = c
shifted_blocks (suc fuel) k offset c =
    let rest =
      shifted_blocks fuel k offset
        (advance (k * 16) (λ d s m. shifted_stores k 0 offset d s m m) c) in
    if leb (k * 16 + 16 - offset) c.n then rest else c

-- `len = ((len - 16 + offset) & mask) + 16 - offset`, and the pointers move on by the difference.
-- The length is a `size_t`. The difference fits the `int` of the source: `adjust` follows a loop that
-- leaves a length below 144.
unfoldable pub adjust : ℕ → ℕ → Copy → Copy
adjust mask offset c =
    let len = bit_and ((c.n + 2 ^ 64 - 16 + offset) % 2 ^ 64) mask + 16 - offset in
    let tmp = c.n - len in copy len (c.dst + tmp) (c.src + tmp) c.mem

-- MOVEUNALIGNED_LEFT47 at an offset from 1 to 15
unfoldable pub moveunaligned_left47 : ℕ → Copy → Copy
moveunaligned_left47 offset c =
    let c = adjust 127 offset (shifted_blocks c.n 8 offset c) in
    if leb (32 + 16 - offset) c.n then adjust 31 offset (shifted_blocks c.n 2 offset c) else c

-- `rte_memcpy_generic` for more than 512 bytes: first make the stores aligned.
unfoldable pub copy_large : Copy → Memory
copy_large c =
    let dstofss = bit_and c.dst 0x0f in
    let c =
      if ltb 0 dstofss
      then (let ahead = 16 - dstofss + 16 in
          copy (c.n - ahead) (c.dst + ahead) (c.src + ahead) (mov32 c.dst c.src c.mem))
      else c in
    let srcofs = bit_and c.src 0x0f in
    if srcofs == 0
    then copy_block_255_back15 (blocks 256 mov256 c.n c)
    else copy_block_64_back15 (moveunaligned_left47 srcofs c)

unfoldable pub memcpy_generic : ℕ → ℕ → ℕ → Memory → Memory
memcpy_generic n dst src m =
    let back = mov16 (dst + n - 16) (src + n - 16) in
    if ltb n 16
    then copy_small n dst src m
    else if leb n 32
    then back (mov16 dst src m)
    else if leb n 48
    then back (mov32 dst src m)
    else if leb n 64
    then back (mov16 (dst + 32) (src + 32) (mov32 dst src m))
    else if leb n 128
    then copy_block_128_back15 (copy n dst src m)
    else if leb n 512
    then copy_block_255_back15 (
        if leb 256 n
        then copy (n - 256) (dst + 256) (src + 256)
            (mov128 (dst + 128) (src + 128) (mov128 dst src m))
        else copy n dst src m)
    else copy_large (copy n dst src m)

abbrev pub sse : Variant
sse = record {
  alignment_mask = 0x0f;
  mov16 = mov16;
  mov32 = mov32;
  mov64 = mov64;
  memcpy_generic = memcpy_generic;
}
