-- ===== src/Common/Words.antt =====
-- Unsigned machine words as native numbers, with the wrap-around written out.
use Prim.Native.Nat.{ℕ, zero, suc, ◌+◌, ◌-◌, ◌*◌, ◌%◌, ◌^◌, ◌≤◌, ◌∣◌}
use mathlib.Core.Path.{◌≡◌, ap, ◌∙◌, sym, subst}
use native.Mathlib.Omega.{arith}
use native.Mathlib.Nat.{pow-zero, pow-suc, mod-mod_of_dvd, dvd-mul_right, zero-add, suc-add}

-- `UINT16_MAX + 1` and `UINT32_MAX + 1`
abbrev pub u16 : ℕ
u16 = 2 ^ 16

abbrev pub u32 : ℕ
u32 = 2 ^ 32

-- `a + b` and `a - b` of type `uint32_t`
abbrev pub add32 : ℕ → ℕ → ℕ
add32 a b = (a + b) % u32

abbrev pub sub32 : ℕ → ℕ → ℕ
sub32 a b = (a + u32 - b) % u32

-- `(uint16_t)(a + b)` and `(uint16_t)(a - b)`
abbrev pub add16 : ℕ → ℕ → ℕ
add16 a b = (a + b) % u16

abbrev pub sub16 : ℕ → ℕ → ℕ
sub16 a b = (a + u16 - b) % u16

pub pow-add : (b m n : ℕ) → b ^ (m + n) ≡ b ^ m * b ^ n
pow-add b zero n = rw (zero-add, pow-zero) (omega arith)
pow-add b (suc m) n = rw (suc-add, pow-suc b (m + n), pow-suc b m, pow-add b m n) (grind arith)

-- A power of two up to 2 ^ 32 does not see the wrap of 32-bit arithmetic.
pub wrap-mod : (k : ℕ) → k ≤ 32 → (a : ℕ) → a % u32 % 2 ^ k ≡ a % 2 ^ k
wrap-mod k h a = mod-mod_of_dvd (2 ^ k) a (
    subst (λ w. 2 ^ k ∣ w) (sym (pow-add 2 k (32 - k)) ∙ ap (λ e. 2 ^ e) {y = 32} (omega arith))
      (dvd-mul_right (2 ^ k) (2 ^ (32 - k))))
