-- ===== src/Memcpy/Laws/Blocks.antt =====
-- The fixed-size copies are plain copies of their size.
use dpdk_cr.Common.{ℕ, zero, suc, ◌+◌, ◌≡◌, refl, sym, ap, ◌∙◌, fun_ext, arith}
use dpdk_cr.Memcpy.Memory.{Memory, load, store_vector, move, Apart, move-move}
use dpdk_cr.Memcpy.Variant.{Mov, repeated, block_stores}

pub move-zero : (dst src : ℕ) (m : Memory) → move 0 dst src m ≡ m
unfolding move
move-zero dst src m = fun_ext (λ a. ground arith)

-- A copy of `w` bytes at one place is a plain copy.
abbrev pub Copies : ℕ → Mov → Type 0
Copies w mov = (d s : ℕ) (m : Memory) → Apart w d s → mov d s m ≡ move w d s m

-- The copy with one vector, for every width.
pub vector-Copies : (w : ℕ) → Copies w (λ d s m. store_vector w m d (load m s))
unfolding load store_vector move
vector-Copies w d s m apart = refl

-- `k` times `w`
abbrev pub span : ℕ → ℕ → ℕ
span zero w = 0
span (suc k) w = w + span k w

module _ (w : ℕ) where
  repeated-move :
      (mov : Mov) (k o dst src : ℕ) (m : Memory)
      → Copies w mov
      → Apart (o + span k w) dst src
      → repeated w mov k o dst src (move o dst src m) ≡ move (o + span k w) dst src m
  unfolding repeated
  repeated-move mov zero o dst src m copies apart = ap (λ (n : ℕ). move n dst src m) (omega arith)
  repeated-move mov (suc k) o dst src m copies apart =
      ap (repeated w mov k (o + w) dst src) (
        copies (dst + o) (src + o) (move o dst src m) (omega arith)
        ∙ move-move o w o dst src m (omega arith) (omega arith) (omega arith))
      ∙ repeated-move mov k (o + w) dst src m copies (omega arith)
      ∙ ap (λ (n : ℕ). move n dst src m) (omega arith)

  pub repeated-Copies :
      (mov : Mov) (k : ℕ) → Copies w mov → Copies (span k w) (λ d s m. repeated w mov k 0 d s m)
  repeated-Copies mov k copies d s m apart =
      ap (repeated w mov k 0 d s) (sym (move-zero d s m))
      ∙ repeated-move mov k 0 d s m copies (omega arith)
      ∙ ap (λ (n : ℕ). move n d s m) (omega arith)

  loaded_before :
      (o dst src : ℕ) (m : Memory)
      → store_vector w (move o dst src m) (dst + o) (load m (src + o)) ≡ move (o + w) dst src m
  unfolding load store_vector move
  loaded_before o dst src m = fun_ext (λ a. ground arith)

  -- Loading everything first makes no difference, since the two places are apart.
  block_stores-move :
      (k o dst src : ℕ) (m : Memory)
      → Apart (o + span k w) dst src
      → block_stores w k o dst src m (move o dst src m) ≡ move (o + span k w) dst src m
  unfolding block_stores
  block_stores-move zero o dst src m apart = ap (λ (n : ℕ). move n dst src m) (omega arith)
  block_stores-move (suc k) o dst src m apart =
      ap (block_stores w k (o + w) dst src m) (loaded_before o dst src m)
      ∙ block_stores-move k (o + w) dst src m (omega arith)
      ∙ ap (λ (n : ℕ). move n dst src m) (omega arith)

  pub block_stores-Copies : (k : ℕ) → Copies (span k w) (λ d s m. block_stores w k 0 d s m m)
  block_stores-Copies k d s m apart =
      ap (block_stores w k 0 d s m) (sym (move-zero d s m))
      ∙ block_stores-move k 0 d s m (omega arith)
      ∙ ap (λ (n : ℕ). move n d s m) (omega arith)
