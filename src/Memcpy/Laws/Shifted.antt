-- ===== src/Memcpy/Laws/Shifted.antt =====
-- Stores of neighbouring vectors shifted together make a plain copy.
use dpdk_cr.Common.{
  ℕ, zero, suc, ◌+◌, ◌-◌, ◌*◌, ◌≤◌, ◌<◌, ◌≡◌, ◌∙◌, fun_ext, ltb, leb, ◌&&◌, if◌then◌else◌, arith,
}
use dpdk_cr.Memcpy.Memory.{Memory, load, store_vector, alignr, move}
use dpdk_cr.Memcpy.Sse.{shifted_stores}

module _ (offset dst src : ℕ) (below : offset ≤ src) (off_lt : offset < 16) (before : Memory) where
  shifted_store :
      (i : ℕ) (m : Memory) (a : ℕ)
      → store_vector 16 m
          (dst + i * 16)
          (alignr
            (load before (src - offset + (i + 1) * 16))
            (load before (src - offset + i * 16))
            offset)
          a
        ≡ (if leb (dst + i * 16) a && ltb a (dst + i * 16 + 16)
            then before (src + (a - dst))
            else m a)
  unfolding store_vector alignr load
  shifted_store i m a = ground arith

  shifted_stores-at :
      (k i : ℕ) (m : Memory) (a : ℕ)
      → shifted_stores k i offset dst src before m a ≡ (
          if leb (dst + i * 16) a && ltb a (dst + (i + k) * 16)
          then before (src + (a - dst))
          else m a)
  unfolding shifted_stores
  shifted_stores-at zero i m a = ground arith
  shifted_stores-at (suc k) i m a =
      shifted_stores-at k (i + 1) _ a ∙ ground (arith, shifted_store i m a)

  pub shifted_stores-move :
      (k : ℕ) → shifted_stores k 0 offset dst src before before ≡ move (k * 16) dst src before
  unfolding move
  shifted_stores-move k = fun_ext (λ a. shifted_stores-at k 0 before a ∙ ground arith)
