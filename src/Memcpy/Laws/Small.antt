-- ===== src/Memcpy/Laws/Small.antt =====
-- The scalar copies of fewer than 16 bytes, and the first vectors of a copy of more than 512.
use dpdk_cr.Common.{
  ℕ, ◌+◌, ◌-◌, ◌*◌, ◌/◌, ◌%◌, ◌^◌, ◌<◌, ◌≡◌, ◌⊎◌, refl, sym, ap, ap₂, ◌∙◌, fun_ext, bit_and, ltb,
  leb, false, ◌==◌, inl, inr, if◌then◌else◌, arith,
}
use dpdk_cr.Common.Bits.{bit_and-mask, bit_and-shift}
use dpdk_cr.Memcpy.Memory.{Memory, move, Apart, move-move}
use dpdk_cr.Memcpy.Variant.{Copy, copy, scalar, copy_small}
use dpdk_cr.Memcpy.Laws.Blocks.{move-zero}

-- `n & 2^b` is that digit at its place.
digit : (b n : ℕ) → bit_and n (2 ^ b) ≡ n / 2 ^ b % 2 * 2 ^ b
digit b n =
    ap (bit_and n) (omega arith)
    ∙ bit_and-shift b n 1
    ∙ ap (λ (t : ℕ). t * 2 ^ b) (bit_and-mask 1 (n / 2 ^ b))

scalar_bytes :
    (w d s : ℕ) (m : Memory)
    → (λ a. if leb d a then (if ltb a (d + w) then m (s + (a - d)) else m a) else m a)
      ≡ move w d s m
unfolding move
scalar_bytes w d s m = fun_ext (λ a. ground arith)

halves : (x : ℕ) → (x % 2 ≡ 0) ⊎ (x % 2 ≡ 1)
halves x = ground arith

module _ (n dst src : ℕ) (m : Memory) where
  -- Of the bytes to copy, those of the digits below `w` are copied.
  abbrev Digits : ℕ → Copy → Type 0
  Digits w c =
      (c.n ≡ n) × (c.dst ≡ dst + n % w) × (c.src ≡ src + n % w) × (c.mem ≡ move (n % w) dst src m)

  scalar-Digits :
      (w : ℕ) (c : Copy)
      → Apart (n % (w + w)) dst src
      → (bit_and n w ≡ 0) ⊎ (bit_and n w ≡ w)
      → 0 < w
      → n % (w + w) ≡ bit_and n w + n % w
      → Digits w c
      → Digits (w + w) (scalar w c)
  unfolding scalar
  scalar-Digits w c apart (inl none_set) pos split (same, to, from, done) =
      rw (ap (λ (x : ℕ). bit_and x w) same ∙ none_set) (
        same,
        to ∙ omega arith,
        from ∙ omega arith,
        done ∙ ap (λ (k : ℕ). move k dst src m) (omega arith),
      )
  scalar-Digits w c apart (inr set) pos split (same, to, from, done) =
      let pos_test : (w == 0) ≡ false = ground arith in
      rw (ap (λ (x : ℕ). bit_and x w) same ∙ set, pos_test)
        (
          same,
          omega arith,
          omega arith,
          scalar_bytes w c.dst c.src c.mem
              ∙ ap₂ (λ (d s : ℕ). move w d s c.mem) to from
              ∙ ap (move w (dst + n % w) (src + n % w)) done
              ∙ move-move (n % w) w (n % w) dst src m (omega arith) (omega arith) (omega arith)
              ∙ ap (λ (k : ℕ). move k dst src m) (omega arith),
        )

pub copy_small-move :
    (n dst src : ℕ) (m : Memory)
    → Apart n dst src
    → n < 16
    → copy_small n dst src m ≡ move n dst src m
unfolding copy_small
copy_small-move n dst src m apart small =
    let first = copy n dst src m in
    let in₁ : Digits n dst src m 2 (scalar 1 first) =
      scalar-Digits n dst src m 1 first (ground arith) (two 0) (omega arith)
        (omega (arith, digit 0 n))
        (
          refl,
          omega arith,
          omega arith,
          sym (move-zero dst src m) ∙ ap (λ (k : ℕ). move k dst src m) (omega arith),
        ) in
    let in₂ : Digits n dst src m 4 (scalar 2 (scalar 1 first)) =
      scalar-Digits n dst src m 2 (scalar 1 first) (ground arith) (two 1) (omega arith)
        (omega (arith, digit 1 n)) in₁ in
    let in₃ : Digits n dst src m 8 (scalar 4 (scalar 2 (scalar 1 first))) =
      scalar-Digits n dst src m 4 (scalar 2 (scalar 1 first)) (ground arith) (two 2) (omega arith)
        (omega (arith, digit 2 n)) in₂ in
    let (same, to, from, done) =
      scalar-Digits n dst src m 8 (scalar 4 (scalar 2 (scalar 1 first))) (ground arith) (two 3)
        (omega arith) (omega (arith, digit 3 n)) in₃ in
    done ∙ ap (λ (k : ℕ). move k dst src m) (omega arith)
  where
    two : (b : ℕ) → (bit_and n (2 ^ b) ≡ 0) ⊎ (bit_and n (2 ^ b) ≡ 2 ^ b)
    two b = elim (halves (n / 2 ^ b)) [
      | inl even ↦ inl (digit b n ∙ rw even (omega arith))
      | inr odd ↦ inr (digit b n ∙ rw odd (omega arith))
    ]
