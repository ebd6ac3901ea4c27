-- ===== src/Memcpy/Memory.antt =====
-- Memory as the byte at each address, vector registers, and the plain copy as the reference.
use dpdk_cr.Common.{
  ℕ, ◌+◌, ◌-◌, ◌≤◌, ◌≡◌, ◌⊎◌, fun_ext, Table, ltb, leb, ◌&&◌, if◌then◌else◌, arith,
}

-- Addresses are numbers that do not wrap: no object reaches over the end of the address space.
abbrev pub Memory : Type 0
Memory = Table ℕ

-- a vector register: the bytes from 0 on
abbrev pub Vector : Type 0
Vector = Table ℕ

-- `_mm_loadu_si128`, `_mm256_loadu_si256` and `_mm512_loadu_si512`: the bytes from an address on, of
-- which the store takes as many as it is wide
unfoldable pub load : Memory → ℕ → Vector
load m p i = m (p + i)

-- the store of a vector of `w` bytes: `_mm_storeu_si128` for 16, `_mm256_storeu_si256` for 32 and
-- `_mm512_storeu_si512` for 64
unfoldable pub store_vector : ℕ → Memory → ℕ → Vector → Memory
store_vector w m p x a = if leb p a && ltb a (p + w) then x (a - p) else m a

-- `_mm_alignr_epi8(hi, lo, k)`: 16 bytes of the two registers, from byte `k` of the lower on
unfoldable pub alignr : Vector → Vector → ℕ → Vector
alignr hi lo k i = if ltb (i + k) 16 then lo (i + k) else hi (i + k - 16)

-- The reference: `k` bytes at `dst` are those that stood at `src`, all read before the first write.
unfoldable pub move : ℕ → ℕ → ℕ → Memory → Memory
move k dst src m a = if leb dst a && ltb a (dst + k) then m (src + (a - dst)) else m a

-- The `k` bytes at `dst` and the `k` bytes at `src` have no address in common.
abbrev pub Apart : ℕ → ℕ → ℕ → Type 0
Apart k dst src = (dst + k ≤ src) ⊎ (src + k ≤ dst)

-- A second copy that starts inside or at the end of the first and ends behind it makes one copy.
pub move-move :
    (i j k dst src : ℕ) (m : Memory)
    → i ≤ k
    → k ≤ i + j
    → Apart (i + j) dst src
    → move j (dst + i) (src + i) (move k dst src m) ≡ move (i + j) dst src m
unfolding move
move-move i j k dst src m le ge apart = fun_ext (λ a. ground arith)
