-- ===== src/Memcpy/Laws/Ends.antt =====
-- A copy of both ends, and the copy of fewer than 16 bytes or of both ends of the aligned copy.
use dpdk_cr.Common.{ℕ, ◌+◌, ◌-◌, ◌≤◌, ◌<◌, ◌≡◌, ap, ap₂, ◌∙◌, arith}
use dpdk_cr.Memcpy.Memory.{Memory, move, Apart, move-move}
use dpdk_cr.Memcpy.Variant.{Mov, Variant, copy, blocks, memcpy_aligned, memcpy}
use dpdk_cr.Memcpy.Laws.Blocks.{Copies}
use dpdk_cr.Memcpy.Laws.Progress.{start, extend, blocks-At}
use dpdk_cr.Memcpy.Laws.Small.{copy_small-move}

-- What the functions of a variant promise.
pub record IsVariant (v : Variant) : Type 0 where
  pub mov16s : Copies 16 v.mov16
  pub mov32s : Copies 32 v.mov32
  pub mov64s : Copies 64 v.mov64
  pub generics : (n : ℕ) → Copies n (v.memcpy_generic n)

module _ (n dst src : ℕ) (m : Memory) (apart : Apart n dst src) where
  -- The first `v` bytes, then the last `w`, which may be copied twice.
  pub ends :
      (v w : ℕ) (first last : Mov)
      → Copies v first
      → Copies w last
      → v ≤ n
      → w ≤ n
      → n ≤ v + w
      → last (dst + n - w) (src + n - w) (first dst src m) ≡ move n dst src m
  ends v w first last firsts lasts v_le w_le covered =
      lasts (dst + n - w) (src + n - w) (first dst src m) (omega arith)
      ∙ ap (move w (dst + n - w) (src + n - w)) (firsts dst src m (omega arith))
      ∙ ap₂ (λ (d s : ℕ). move w d s (move v dst src m)) {y = dst + (n - w)} {v = src + (n - w)}
          (omega arith) (omega arith)
      ∙ move-move (n - w) w v dst src m (omega arith) (omega arith) (omega arith)
      ∙ ap (λ (k : ℕ). move k dst src m) (omega arith)

  module _ {v : Variant} (is_variant : IsVariant v) where
    -- 64 bytes at a time, and then the last 64
    long :
        64 < n
        → let c = blocks 64 v.mov64 n (copy n dst src m) in
          v.mov64 (c.dst + c.n - 64) (c.src + c.n - 64) c.mem ≡ move n dst src m
    long big =
        let c = blocks 64 v.mov64 n (copy n dst src m) in
        let (at_end, rest) =
          blocks-At 15 n dst src m apart 64 v.mov64 n (copy n dst src m) (omega arith) (omega arith)
            is_variant.mov64s (start 15 n dst src m apart) (omega arith) in
        is_variant.mov64s _ _ _ (omega (arith, at_end.to, at_end.from, at_end.left))
        ∙ ap₂ (λ (d s : ℕ). move 64 d s c.mem) {y = dst + (n - 64)} {v = src + (n - 64)}
            (omega (arith, at_end.to, at_end.left)) (omega (arith, at_end.from, at_end.left))
        ∙ extend 15 n dst src m apart 64 (n - 64) c at_end
            (omega (arith, at_end.left, at_end.reach)) (omega (arith, at_end.within)) (omega arith)
        ∙ ap (λ (k : ℕ). move k dst src m) (omega arith)

    memcpy_aligned-move : memcpy_aligned v n dst src m ≡ move n dst src m
    unfolding memcpy_aligned
    memcpy_aligned-move = ground (
      arith,
      copy_small-move n dst src m apart,
      ends 16 16 v.mov16 v.mov16 is_variant.mov16s is_variant.mov16s,
      ends 32 32 v.mov32 v.mov32 is_variant.mov32s is_variant.mov32s,
      long,
    )

    pub memcpy-move : memcpy v dst src n m ≡ (dst, move n dst src m)
    unfolding memcpy
    memcpy-move = ground (arith, is_variant.generics n dst src m apart, memcpy_aligned-move)
