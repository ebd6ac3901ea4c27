-- ===== src/Memcpy/Laws/Unaligned.antt =====
-- MOVEUNALIGNED_LEFT47: the loops over shifted blocks, and the masks that change nothing behind them.
use dpdk_cr.Common.{
  ℕ, zero, suc, ◌+◌, ◌-◌, ◌*◌, ◌%◌, ◌^◌, ◌≤◌, ◌<◌, ◌≡◌, ap, ap₂, ◌∙◌, bit_and, leb, Bool-cases, inl,
  inr, if◌then◌else◌, arith,
}
use native.Mathlib.Nat.{mod-eq_of_lt}
use dpdk_cr.Common.Bits.{bit_and-mask}
use dpdk_cr.Memcpy.Memory.{Memory, Apart}
use dpdk_cr.Memcpy.Variant.{Copy, copy, advance}
use dpdk_cr.Memcpy.Sse.{shifted_stores, shifted_blocks, adjust, moveunaligned_left47}
use dpdk_cr.Memcpy.Laws.Progress.{Progress, advance-At}
use dpdk_cr.Memcpy.Laws.Shifted.{shifted_stores-move}

-- The mask keeps a length that is in its range.
adjust-same :
    (b offset : ℕ) (c : Copy)
    → 2 ^ b ≤ 2 ^ 32
    → offset < 16
    → 16 ≤ c.n + offset
    → c.n + offset < 2 ^ b + 16
    → adjust (2 ^ b - 1) offset c ≡ c
unfolding adjust
adjust-same b offset c small off low high =
    ap (λ (len : ℕ). copy len (c.dst + (c.n - len)) (c.src + (c.n - len)) c.mem) len_same
    ∙ ap₂ (λ (d s : ℕ). copy c.n d s c.mem) (omega arith) (omega arith)
  where
    len_same : bit_and ((c.n + 2 ^ 64 - 16 + offset) % 2 ^ 64) (2 ^ b - 1) + 16 - offset ≡ c.n
    len_same = rw (bit_and-mask b ((c.n + 2 ^ 64 - 16 + offset) % 2 ^ 64)) (
        ap (λ (x : ℕ). x % 2 ^ b + 16 - offset) {y = c.n + offset - 16} (omega arith)
        ∙ ap (λ (x : ℕ). x + 16 - offset) (mod-eq_of_lt (omega arith))
        ∙ omega arith)

module _ (n dst src : ℕ) (m : Memory) (apart : Apart n dst src) (offset : ℕ)
    (off_lt : offset < 16) where
  abbrev At : Copy → Type 0
  At c = Progress 15 n dst src m c

  shifted_blocks-At :
      (fuel k : ℕ) (c : Copy)
      → 0 < k
      → At c
      → offset ≤ c.src
      → c.n ≤ fuel
      → 16 ≤ c.n + offset
      → At (shifted_blocks fuel k offset c)
        × (offset ≤ (shifted_blocks fuel k offset c).src)
        × (16 ≤ (shifted_blocks fuel k offset c).n + offset)
        × ((shifted_blocks fuel k offset c).n + offset < k * 16 + 16)
  unfolding shifted_blocks
  shifted_blocks-At zero k c pos p below enough low = (p, below, low, omega arith)
  shifted_blocks-At (suc fuel) k c pos p below enough low =
      elim (Bool-cases (leb (k * 16 + 16 - offset) c.n)) [
        | inl more ↦
            let big : k * 16 + 16 ≤ c.n + offset = ground arith in
            rw more (
              shifted_blocks-At fuel k
                (advance (k * 16) (λ d s m. shifted_stores k 0 offset d s m m) c) pos
                (advance-At 15 n dst src m apart (k * 16)
                  (λ d s m. shifted_stores k 0 offset d s m m) c p (omega arith) (omega arith)
                  (λ a. shifted_stores-move offset c.dst c.src below off_lt c.mem k))
                (omega arith) (omega arith) (omega arith))
        | inr less ↦ rw less (p, below, low, ground arith)
      ]

  -- the second loop, of two vectors a round
  left_over :
      (c : Copy)
      → At c
      → offset ≤ c.src
      → 16 ≤ c.n + offset
      → let last =
          if leb (32 + 16 - offset) c.n
          then adjust 31 offset (shifted_blocks c.n 2 offset c)
          else c in
        At last × (last.n < 64)
  left_over c p below low = elim (Bool-cases (leb (32 + 16 - offset) c.n)) [
    | inl more ↦
        let (at₂, _, low₂, high₂) =
          shifted_blocks-At c.n 2 c (omega arith) p below (omega arith) low in
        rw
          (
            more,
            adjust-same 5 offset (shifted_blocks c.n 2 offset c) (omega arith) off_lt low₂ high₂,
          )
          (at₂, omega (arith, high₂))
    | inr less ↦ rw less (p, ground arith)
  ]

  pub moveunaligned_left47-At :
      (c : Copy)
      → At c
      → offset ≤ c.src
      → 16 ≤ c.n + offset
      → At (moveunaligned_left47 offset c) × ((moveunaligned_left47 offset c).n < 64)
  unfolding moveunaligned_left47
  moveunaligned_left47-At c p below low =
      let (at₁, below₁, low₁, high₁) =
        shifted_blocks-At c.n 8 c (omega arith) p below (omega arith) low in
      rw (adjust-same 7 offset (shifted_blocks c.n 8 offset c) (omega arith) off_lt low₁ high₁)
        (left_over (shifted_blocks c.n 8 offset c) at₁ below₁ low₁)
