-- ===== src/Memcpy/Laws/Avx2.antt =====
-- The variant for AVX2 copies.
use dpdk_cr.Common.{
  ℕ, ◌+◌, ◌-◌, ◌%◌, ◌≤◌, ◌<◌, ◌≡◌, ap, ◌∙◌, bit_and, ltb, Bool-cases, inl, inr, arith,
}
use dpdk_cr.Common.Bits.{bit_and-mask}
use dpdk_cr.Memcpy.Memory.{Memory, move, Apart, move-move}
use dpdk_cr.Memcpy.Variant.{Copy, copy, advance_if, blocks, behind_blocks}
use dpdk_cr.Memcpy.Laws.Blocks.{Copies, vector-Copies, repeated-Copies, block_stores-Copies}
use dpdk_cr.Memcpy.Laws.Progress.{
  Progress, start, ahead-At, advance_if-At, advance_if-le, blocks-At, blocks-rounds,
  behind_blocks-blocks, copy_last-move,
}
use dpdk_cr.Memcpy.Laws.Small.{copy_small-move}
use dpdk_cr.Memcpy.Laws.Ends.{IsVariant, ends}
use dpdk_cr.Memcpy.Avx2.{
  mov16, mov32, mov64, mov128, block_128, mov128blocks, copy_block_128_back31, copy_large,
  memcpy_generic, avx2,
}

mov16-move : Copies 16 mov16
unfolding mov16
mov16-move = vector-Copies 16

mov32-move : Copies 32 mov32
unfolding mov32
mov32-move = vector-Copies 32

mov64-move : Copies 64 mov64
unfolding mov64
mov64-move = repeated-Copies 32 mov32 2 mov32-move

mov128-move : Copies 128 mov128
unfolding mov128
mov128-move = repeated-Copies 32 mov32 4 mov32-move

block_128-move : Copies 128 block_128
unfolding block_128
block_128-move = block_stores-Copies 32 4

two_16-move : Copies 32 (λ d s m. mov16 (d + 16) (s + 16) (mov16 d s m))
two_16-move d s m apart =
    mov16-move (d + 16) (s + 16) (mov16 d s m) (omega arith)
    ∙ ap (move 16 (d + 16) (s + 16)) (mov16-move d s m (omega arith))
    ∙ move-move 16 16 16 d s m (omega arith) (omega arith) apart

module _ (n dst src : ℕ) (m : Memory) (apart : Apart n dst src) where
  abbrev At : Copy → Type 0
  At c = Progress 31 n dst src m c

  copy_block_128_back31-move :
      (c : Copy) → At c → 32 ≤ n → c.n ≤ 128 → copy_block_128_back31 c ≡ move n dst src m
  unfolding copy_block_128_back31
  copy_block_128_back31-move c p big small =
      copy_last-move 31 n dst src m apart 32 mov32 (advance_if 64 mov64 c)
        (advance_if-At 31 n dst src m apart 64 mov64 c p (omega arith) mov64-move) mov32-move
        (omega arith) big (advance_if-le 31 n dst src m apart 64 mov64 c small)

  -- the blocks behind the first vector, and what is left
  aligned :
      (c : Copy)
      → At c
      → 32 ≤ n
      → copy_block_128_back31 (behind_blocks 127 c (mov128blocks c.n c.dst c.src c.mem))
        ≡ move n dst src m
  unfolding mov128blocks
  aligned c p big =
      let (done, small) =
        blocks-At 31 n dst src m apart 128 block_128 c.n c (omega arith) (omega arith)
          block_128-move p (omega arith) in
      let (q, left, _, _) = blocks-rounds 128 block_128 c.n c in
      ap copy_block_128_back31
        (behind_blocks-blocks 128 127 block_128 c (bit_and-mask 7 c.n ∙ omega arith))
      ∙ copy_block_128_back31-move (blocks 128 block_128 c.n c) done big (omega arith)

  copy_large-move : 256 < n → copy_large (copy n dst src m) ≡ move n dst src m
  unfolding copy_large
  copy_large-move big =
      let small : bit_and dst 0x1f ≡ dst % 32 = bit_and-mask 5 dst in
      elim (Bool-cases (ltb 0 (bit_and dst 0x1f))) [
        | inl ahead ↦ rw ahead (
            aligned _
              (ahead-At 31 n dst src m apart 32 (32 - bit_and dst 0x1f) mov32 mov32-move
                (omega arith) (ground (arith, small)) (omega arith))
              (omega arith))
        | inr already ↦
            rw already (aligned (copy n dst src m) (start 31 n dst src m apart) (omega arith))
      ]

  memcpy_generic-move : memcpy_generic n dst src m ≡ move n dst src m
  unfolding memcpy_generic
  memcpy_generic-move = ground (
    arith,
    copy_small-move n dst src m apart,
    ends n dst src m apart 16 16 mov16 mov16 mov16-move mov16-move,
    ends n dst src m apart 32 16 (λ d s m. mov16 (d + 16) (s + 16) (mov16 d s m)) mov16 two_16-move
        mov16-move,
    ends n dst src m apart 32 32 mov32 mov32 mov32-move mov32-move,
    copy_block_128_back31-move (advance_if 128 mov128 (copy n dst src m)) (
        advance_if-At 31 n dst src m apart 128 mov128 (copy n dst src m)
          (start 31 n dst src m apart) (omega arith) mov128-move),
    advance_if-le 31 n dst src m apart 128 mov128 (copy n dst src m),
    copy_large-move,
  )

pub avx2-IsVariant : IsVariant avx2
avx2-IsVariant = record {
  mov16s = mov16-move;
  mov32s = mov32-move;
  mov64s = mov64-move;
  generics = λ n d s m apart. memcpy_generic-move n d s m apart;
}
