-- ===== src/Memcpy/Laws/Sse.antt =====
-- The variant for SSE and AVX copies.
use dpdk_cr.Common.{
  ℕ, ◌+◌, ◌-◌, ◌%◌, ◌≤◌, ◌<◌, ◌≡◌, ap, ◌∙◌, bit_and, ltb, leb, ◌==◌, Bool-cases, inl, inr,
  if◌then◌else◌, arith,
}
use dpdk_cr.Common.Bits.{bit_and-mask}
use dpdk_cr.Memcpy.Memory.{Memory, move, Apart, move-move}
use dpdk_cr.Memcpy.Variant.{Mov, Copy, copy, advance, advance_if, blocks}
use dpdk_cr.Memcpy.Sse.{
  mov16, mov32, mov64, mov128, mov256, copy_large, memcpy_generic, sse, copy_block_255_back15,
  copy_block_128_back15, copy_block_64_back15, moveunaligned_left47,
}
use dpdk_cr.Memcpy.Laws.Blocks.{Copies, vector-Copies, repeated-Copies}
use dpdk_cr.Memcpy.Laws.Progress.{
  Progress, start, advance-At, advance_if-At, advance_if-le, blocks-At, copy_last-move,
}
use dpdk_cr.Memcpy.Laws.Unaligned.{moveunaligned_left47-At}
use dpdk_cr.Memcpy.Laws.Small.{copy_small-move}
use dpdk_cr.Memcpy.Laws.Ends.{IsVariant, ends}

mov16-move : Copies 16 mov16
unfolding mov16
mov16-move = vector-Copies 16

mov32-move : Copies 32 mov32
unfolding mov32
mov32-move = repeated-Copies 16 mov16 2 mov16-move

mov64-move : Copies 64 mov64
unfolding mov64
mov64-move = repeated-Copies 16 mov16 4 mov16-move

mov128-move : Copies 128 mov128
unfolding mov128
mov128-move = repeated-Copies 16 mov16 8 mov16-move

mov256-move : Copies 256 mov256
unfolding mov256
mov256-move = repeated-Copies 16 mov16 16 mov16-move

mov48-move : Copies 48 (λ d s m. mov16 (d + 32) (s + 32) (mov32 d s m))
mov48-move d s m apart =
    mov16-move (d + 32) (s + 32) (mov32 d s m) (omega arith)
    ∙ ap (move 16 (d + 32) (s + 32)) (mov32-move d s m (omega arith))
    ∙ move-move 32 16 32 d s m (omega arith) (omega arith) apart

module _ (n dst src : ℕ) (m : Memory) (apart : Apart n dst src) where
  abbrev At : Copy → Type 0
  At c = Progress 15 n dst src m c

  copy_block_64_back15-move :
      (c : Copy) → At c → 16 ≤ n → c.n ≤ 64 → copy_block_64_back15 c ≡ move n dst src m
  unfolding copy_block_64_back15
  copy_block_64_back15-move c p big small =
      copy_last-move 15 n dst src m apart 16 mov16 (advance_if 32 mov32 c)
        (advance_if-At 15 n dst src m apart 32 mov32 c p (omega arith) mov32-move) mov16-move
        (omega arith) big (advance_if-le 15 n dst src m apart 32 mov32 c small)

  copy_block_128_back15-move :
      (c : Copy) → At c → 16 ≤ n → c.n ≤ 128 → copy_block_128_back15 c ≡ move n dst src m
  unfolding copy_block_128_back15
  copy_block_128_back15-move c p big small =
      copy_block_64_back15-move (advance_if 64 mov64 c)
        (advance_if-At 15 n dst src m apart 64 mov64 c p (omega arith) mov64-move) big
        (advance_if-le 15 n dst src m apart 64 mov64 c small)

  copy_block_255_back15-move :
      (c : Copy) → At c → 16 ≤ n → c.n ≤ 256 → copy_block_255_back15 c ≡ move n dst src m
  unfolding copy_block_255_back15
  copy_block_255_back15-move c p big small =
      copy_block_128_back15-move (advance_if 128 mov128 c)
        (advance_if-At 15 n dst src m apart 128 mov128 c p (omega arith) mov128-move) big
        (advance_if-le 15 n dst src m apart 128 mov128 c small)

  -- Behind the first vectors, the stores are aligned or not.
  unaligned :
      (c : Copy)
      → Progress 15 n dst src m c
      → 256 < c.n
      → (let srcofs = bit_and c.src 0x0f in
          if srcofs == 0
          then copy_block_255_back15 (blocks 256 mov256 c.n c)
          else copy_block_64_back15 (moveunaligned_left47 srcofs c))
        ≡ move n dst src m
  unaligned c p more = elim (Bool-cases (bit_and c.src 0x0f == 0)) [
    | inl aligned ↦
        let (done, small) =
          blocks-At 15 n dst src m apart 256 mov256 c.n c (omega arith) (omega arith) mov256-move p
            (omega arith) in
        rw aligned (
          copy_block_255_back15-move (blocks 256 mov256 c.n c) done (omega (arith, p.left))
            (omega arith))
    | inr not_aligned ↦
        let offset = bit_and c.src 0x0f in
        let small : offset ≡ c.src % 16 = bit_and-mask 4 c.src in
        let (at_end, rest) =
          moveunaligned_left47-At n dst src m apart offset (omega arith) c p (omega arith)
            (omega arith) in
        rw not_aligned (
          copy_block_64_back15-move (moveunaligned_left47 offset c) at_end (omega (arith, p.left))
            (omega arith))
  ]

  copy_large-move : 512 < n → copy_large (copy n dst src m) ≡ move n dst src m
  unfolding copy_large
  copy_large-move big =
      let small : bit_and dst 0x0f ≡ dst % 16 = bit_and-mask 4 dst in
      elim (Bool-cases (ltb 0 (bit_and dst 0x0f))) [
        | inl ahead ↦ rw ahead (
            unaligned _
              record {
                k = 32 - bit_and dst 0x0f;
                j = 32;
                reach = omega arith;
                near = ground (arith, small);
                within = omega arith;
                left = omega (arith, small);
                to = omega (arith, small);
                from = omega (arith, small);
                done = mov32-move dst src m (omega arith);
              }
              (omega (arith, small)))
        | inr aligned ↦
            rw aligned (unaligned (copy n dst src m) (start 15 n dst src m apart) (omega arith))
      ]

  -- more than 128 and at most 512 bytes: 256 of them first, if there are so many
  medium :
      128 < n
      → n ≤ 512
      → copy_block_255_back15 (
          if leb 256 n
          then copy
              (n - 256)
              (dst + 256)
              (src + 256)
              (mov128 (dst + 128) (src + 128) (mov128 dst src m))
          else copy n dst src m)
        ≡ move n dst src m
  medium low high =
      let mov256s : Mov = λ d s m. mov128 (d + 128) (s + 128) (mov128 d s m) in
      elim (Bool-cases (leb 256 n)) [
        | inl more ↦ rw more (
            copy_block_255_back15-move (advance 256 mov256s (copy n dst src m))
              (advance-At 15 n dst src m apart 256 mov256s (copy n dst src m)
                (start 15 n dst src m apart) (omega arith) (ground arith)
                (λ a.
                  mov128-move (dst + 128) (src + 128) (mov128 dst src m) (omega arith)
                  ∙ ap (move 128 (dst + 128) (src + 128)) (mov128-move dst src m (omega arith))
                  ∙ move-move 128 128 128 dst src m (omega arith) (omega arith) a))
              (omega arith) (omega arith))
        | inr less ↦ rw less (
            copy_block_255_back15-move (copy n dst src m) (start 15 n dst src m apart) (omega arith)
              (ground arith))
      ]

  memcpy_generic-move : memcpy_generic n dst src m ≡ move n dst src m
  unfolding memcpy_generic
  memcpy_generic-move = ground (
    arith,
    copy_small-move n dst src m apart,
    ends n dst src m apart 16 16 mov16 mov16 mov16-move mov16-move,
    ends n dst src m apart 32 16 mov32 mov16 mov32-move mov16-move,
    ends n dst src m apart 48 16 (λ d s m. mov16 (d + 32) (s + 32) (mov32 d s m)) mov16 mov48-move
        mov16-move,
    copy_block_128_back15-move (copy n dst src m) (start 15 n dst src m apart),
    medium,
    copy_large-move,
  )

pub sse-IsVariant : IsVariant sse
sse-IsVariant = record {
  mov16s = mov16-move;
  mov32s = mov32-move;
  mov64s = mov64-move;
  generics = λ n d s m apart. memcpy_generic-move n d s m apart;
}
