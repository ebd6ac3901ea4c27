-- ===== src/Memcpy/Laws/Avx512.antt =====
-- The variant for AVX512F copies.
use dpdk_cr.Common.{
  ℕ, ◌-◌, ◌%◌, ◌≤◌, ◌<◌, ◌≡◌, ap, ◌∙◌, bit_and, ltb, leb, Bool-cases, inl, inr, if◌then◌else◌,
  arith,
}
use dpdk_cr.Common.Bits.{bit_and-mask}
use dpdk_cr.Memcpy.Memory.{Memory, move, Apart}
use dpdk_cr.Memcpy.Variant.{Copy, copy, advance_if, blocks, behind_blocks}
use dpdk_cr.Memcpy.Laws.Blocks.{Copies, vector-Copies, repeated-Copies, block_stores-Copies}
use dpdk_cr.Memcpy.Laws.Progress.{
  Progress, start, ahead-At, advance_if-At, advance_if-le, blocks-At, blocks-rounds,
  behind_blocks-blocks, copy_last-move,
}
use dpdk_cr.Memcpy.Laws.Small.{copy_small-move}
use dpdk_cr.Memcpy.Laws.Ends.{IsVariant, ends}
use dpdk_cr.Memcpy.Avx512.{
  mov16, mov32, mov64, mov128, mov256, block_128, mov128blocks, block_512, mov512blocks,
  copy_block_128_back63, copy_large, memcpy_generic, avx512f,
}

mov16-move : Copies 16 mov16
unfolding mov16
mov16-move = vector-Copies 16

mov32-move : Copies 32 mov32
unfolding mov32
mov32-move = vector-Copies 32

mov64-move : Copies 64 mov64
unfolding mov64
mov64-move = vector-Copies 64

mov128-move : Copies 128 mov128
unfolding mov128
mov128-move = repeated-Copies 64 mov64 2 mov64-move

mov256-move : Copies 256 mov256
unfolding mov256
mov256-move = repeated-Copies 64 mov64 4 mov64-move

block_128-move : Copies 128 block_128
unfolding block_128
block_128-move = block_stores-Copies 64 2

block_512-move : Copies 512 block_512
unfolding block_512
block_512-move = block_stores-Copies 64 8

module _ (n dst src : ℕ) (m : Memory) (apart : Apart n dst src) where
  abbrev At : Copy → Type 0
  At c = Progress 63 n dst src m c

  copy_block_128_back63-move :
      (c : Copy) → At c → 64 ≤ n → c.n ≤ 128 → copy_block_128_back63 c ≡ move n dst src m
  unfolding copy_block_128_back63
  copy_block_128_back63-move c p big small =
      copy_last-move 63 n dst src m apart 64 mov64 c p mov64-move (omega arith) big small

  -- the loop over blocks of 128 bytes, if there is one, and what is left
  blocks_128 :
      (c : Copy)
      → At c
      → 64 ≤ n
      → copy_block_128_back63
          (if leb 128 c.n then behind_blocks 127 c (mov128blocks c.n c.dst c.src c.mem) else c)
        ≡ move n dst src m
  unfolding mov128blocks
  blocks_128 c p big =
      let (done, small) =
        blocks-At 63 n dst src m apart 128 block_128 c.n c (omega arith) (omega arith)
          block_128-move p (omega arith) in
      let (q, left, _, _) = blocks-rounds 128 block_128 c.n c in
      elim (Bool-cases (leb 128 c.n)) [
        | inl more ↦ rw more (
            ap copy_block_128_back63
              (behind_blocks-blocks 128 127 block_128 c (bit_and-mask 7 c.n ∙ omega arith))
            ∙ copy_block_128_back63-move (blocks 128 block_128 c.n c) done big (omega arith))
        | inr less ↦ rw less (copy_block_128_back63-move c p big (ground arith))
      ]

  -- both loops
  aligned :
      (c : Copy)
      → At c
      → 64 ≤ n
      → (let c = behind_blocks 511 c (mov512blocks c.n c.dst c.src c.mem) in
          copy_block_128_back63
            (if leb 128 c.n then behind_blocks 127 c (mov128blocks c.n c.dst c.src c.mem) else c))
        ≡ move n dst src m
  unfolding mov512blocks
  aligned c p big =
      let (done, small) =
        blocks-At 63 n dst src m apart 512 block_512 c.n c (omega arith) (omega arith)
          block_512-move p (omega arith) in
      let (q, left, _, _) = blocks-rounds 512 block_512 c.n c in
      ap
        (λ (c : Copy).
          copy_block_128_back63
            (if leb 128 c.n then behind_blocks 127 c (mov128blocks c.n c.dst c.src c.mem) else c))
        (behind_blocks-blocks 512 511 block_512 c (bit_and-mask 9 c.n ∙ omega arith))
      ∙ blocks_128 (blocks 512 block_512 c.n c) done big

  copy_large-move : 512 < n → copy_large (copy n dst src m) ≡ move n dst src m
  unfolding copy_large
  copy_large-move big =
      let small : bit_and dst 0x3f ≡ dst % 64 = bit_and-mask 6 dst in
      elim (Bool-cases (ltb 0 (bit_and dst 0x3f))) [
        | inl ahead ↦ rw ahead (
            aligned _
              (ahead-At 63 n dst src m apart 64 (64 - bit_and dst 0x3f) mov64 mov64-move
                (omega arith) (ground (arith, small)) (omega arith))
              (omega arith))
        | inr already ↦
            rw already (aligned (copy n dst src m) (start 63 n dst src m apart) (omega arith))
      ]

  -- more than 64 and at most 512 bytes
  medium :
      64 < n
      → n ≤ 512
      → copy_block_128_back63 (advance_if 128 mov128 (advance_if 256 mov256 (copy n dst src m)))
        ≡ move n dst src m
  medium low high =
      let first = advance_if 256 mov256 (copy n dst src m) in
      copy_block_128_back63-move (advance_if 128 mov128 first)
        (advance_if-At 63 n dst src m apart 128 mov128 first
          (advance_if-At 63 n dst src m apart 256 mov256 (copy n dst src m)
            (start 63 n dst src m apart) (omega arith) mov256-move)
          (omega arith) mov128-move)
        (omega arith)
        (advance_if-le 63 n dst src m apart 128 mov128 first
          (advance_if-le 63 n dst src m apart 256 mov256 (copy n dst src m) (omega arith)))

  memcpy_generic-move : memcpy_generic n dst src m ≡ move n dst src m
  unfolding memcpy_generic
  memcpy_generic-move = ground (
    arith,
    copy_small-move n dst src m apart,
    ends n dst src m apart 16 16 mov16 mov16 mov16-move mov16-move,
    ends n dst src m apart 32 32 mov32 mov32 mov32-move mov32-move,
    medium,
    copy_large-move,
  )

pub avx512f-IsVariant : IsVariant avx512f
avx512f-IsVariant = record {
  mov16s = mov16-move;
  mov32s = mov32-move;
  mov64s = mov64-move;
  generics = λ n d s m apart. memcpy_generic-move n d s m apart;
}
