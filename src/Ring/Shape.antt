-- ===== src/Ring/Shape.antt =====
-- The fixed part of a ring: a power of two of slots, the mask for it, and room for fewer objects.
use native.Mathlib.Nat.{
  pow-le-pow_right, one-le-pow, mod-add-mod, mod-eq_of_lt, mod-eq-sub-mod, mod-lt,
}
use dpdk_cr.Common.{
  ℕ, ◌+◌, ◌-◌, ◌%◌, ◌^◌, ◌≤◌, ◌<◌, ◌≡◌, ap, sym, ◌∙◌, bit_and, u32, ltb, if◌then◌else◌, arith,
  wrap-mod,
}
use dpdk_cr.Common.Bits.{bit_and-mask}
use dpdk_cr.Ring.Types.{Ring}

pub record IsShape (r : Ring) : Type 0 where
  pub order : ℕ
  pub order_le : order ≤ 31
  pub size_eq : r.size ≡ 2 ^ order
  pub mask_eq : r.mask ≡ r.size - 1
  pub capacity_lt : r.capacity < r.size

module _ {r : Ring} (s : IsShape r) where
  pub size-pos : 0 < r.size
  size-pos = omega (arith, s.size_eq, one-le-pow s.order 2)

  pub size-le : r.size ≤ 2 ^ 31
  size-le = rw (s.size_eq) (pow-le-pow_right (omega arith) s.order_le)

  -- The code's `h & mask`.
  pub index : (h : ℕ) → bit_and h r.mask ≡ h % r.size
  index h =
      ap (bit_and h) (s.mask_eq ∙ ap (λ (t : ℕ). t - 1) s.size_eq)
      ∙ bit_and-mask s.order h
      ∙ ap (λ (t : ℕ). h % t) (sym s.size_eq)

  -- The wrap of the 32-bit indices does not show in the slots.
  pub index-wrap : (h : ℕ) → h % u32 % r.size ≡ h % r.size
  index-wrap h = rw s.size_eq (wrap-mod s.order (omega (arith, s.order_le)) h)

  -- From an index `off` places behind another, in 32-bit arithmetic, the slots are the same.
  pub index-shift :
      (h off head k : ℕ) → (h + off) % u32 ≡ head → (h + (off + k)) % r.size ≡ (head + k) % r.size
  index-shift h off head k e =
      ap (λ (t : ℕ). t % r.size) {y = h + off + k} (omega arith)
      ∙ sym (mod-add-mod (h + off) r.size k)
      ∙ ap (λ (t : ℕ). (t + k) % r.size) (sym (index-wrap (h + off)))
      ∙ mod-add-mod ((h + off) % u32) r.size k
      ∙ ap (λ (t : ℕ). (t + k) % r.size) e

-- The slot `k` places behind `h`, for a `k` less than a round.
pub around :
    (size h k : ℕ)
    → k < size
    → (h + k) % size ≡ (if ltb (h % size + k) size then h % size + k else h % size + k - size)
around size h k lt =
    sym (mod-add-mod h size k)
    ∙ ground (
      arith,
      mod-lt h {m = size},
      mod-eq_of_lt {n = h % size + k} {m = size},
      mod-eq-sub-mod {n = h % size + k} {m = size},
      mod-eq_of_lt {n = h % size + k - size} {m = size},
    )
