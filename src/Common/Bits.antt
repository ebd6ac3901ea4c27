-- ===== src/Common/Bits.antt =====
-- `&` and `|` at variables: their lowest digit, and masks as remainders and quotients.
use Prim.Native.Nat.{
  ℕ, zero, suc, ◌+◌, ◌-◌, ◌*◌, ◌/◌, ◌%◌, ◌^◌, ◌≤◌, ◌<◌, min, bit_and, digits, bit_and-bitwise,
}
use mathlib.Core.Path.{◌≡◌, refl, ap, ◌∙◌}
use native.Mathlib.Omega.{arith}
use native.Mathlib.Nat.{
  pow-zero, pow-suc, one-le-pow, pow-succ', mul-one, div-one, div-div-eq-div-mul,
  mul-add-mod_self_right, mod-eq_of_lt, mod-lt, div-add-mod',
}

-- The fuel of the digit recursion does not matter once it covers the first number.
abbrev and_digits : ℕ → ℕ → ℕ → ℕ
and_digits = digits (λ _. 0) min

and_digits_fuel : (f g a b : ℕ) → a ≤ f → a ≤ g → and_digits f a b ≡ and_digits g a b
and_digits_fuel f g zero b h k = zeros f g
  where
    zeros : (f g : ℕ) → and_digits f 0 b ≡ and_digits g 0 b
    zeros zero zero = refl
    zeros zero (suc g) = refl
    zeros (suc f) zero = refl
    zeros (suc f) (suc g) = refl
and_digits_fuel zero g (suc a) b h k = absurd (omega arith)
and_digits_fuel (suc f) zero (suc a) b h k = absurd (omega arith)
and_digits_fuel (suc f) (suc g) (suc a) b h k =
    ap (λ (t : ℕ). t * 2 + min (suc a % 2) (b % 2))
      (and_digits_fuel f g (suc a / 2) (b / 2) (omega arith) (omega arith))

-- The lowest digit of `a & b`, and the rest.
pub bit_and-digit : (a b : ℕ) → bit_and a b ≡ bit_and (a / 2) (b / 2) * 2 + min (a % 2) (b % 2)
bit_and-digit zero b = simp bit_and-bitwise (omega arith)
bit_and-digit (suc a) b = simp bit_and-bitwise (
    ap (λ (t : ℕ). t * 2 + min (suc a % 2) (b % 2))
      (and_digits_fuel a (suc a / 2) (suc a / 2) (b / 2) (omega arith) (omega arith)))

-- No bit is in both a number and zero.
bit_and-zero_below : (f a : ℕ) → a ≤ f → bit_and a 0 ≡ 0
bit_and-zero_below f zero h = refl
bit_and-zero_below zero (suc a) h = absurd (omega arith)
bit_and-zero_below (suc f) (suc a) h =
    omega (arith, bit_and-digit (suc a) 0, bit_and-zero_below f (suc a / 2) (omega arith))

pub bit_and-zero : (a : ℕ) → bit_and a 0 ≡ 0
bit_and-zero a = bit_and-zero_below a a (omega arith)

half-mask : (k : ℕ) → (2 ^ suc k - 1) / 2 ≡ 2 ^ k - 1
half-mask k = omega (arith, pow-suc 2 k)

mod-double : (m a : ℕ) → 0 < m → a % (m * 2) ≡ a / 2 % m * 2 + a % 2
mod-double m a h =
    ap (λ (t : ℕ). t % (m * 2)) split
    ∙ mul-add-mod_self_right (a / 2 / m) (m * 2) (a / 2 % m * 2 + a % 2)
    ∙ mod-eq_of_lt (omega (arith, mod-lt (a / 2) h))
  where
    split : a ≡ a / 2 / m * (m * 2) + (a / 2 % m * 2 + a % 2)
    split = omega (arith, div-add-mod' (a / 2) m)

-- `a & (2^k - 1)` is the remainder by `2^k`.
pub bit_and-mask : (k a : ℕ) → bit_and a (2 ^ k - 1) ≡ a % 2 ^ k
bit_and-mask zero a = bit_and-zero a ∙ omega arith
bit_and-mask (suc k) a =
    bit_and-digit a (2 ^ suc k - 1)
    ∙ rw (half-mask k, bit_and-mask k (a / 2), pow-suc)
        (omega (arith, mod-double (2 ^ k) a (one-le-pow k 2 (omega arith)), one-le-pow k 2))

-- A mask with `k` zeros at the end reads the number shifted right by `k`.
pub bit_and-shift : (k a m : ℕ) → bit_and a (m * 2 ^ k) ≡ bit_and (a / 2 ^ k) m * 2 ^ k
bit_and-shift zero a m = rw (pow-zero, mul-one m, div-one, mul-one)
bit_and-shift (suc k) a m =
    bit_and-digit a (m * 2 ^ suc k)
    ∙ rw (half, even, bit_and-shift k (a / 2) m, div-div-eq-div-mul)
        (rw (← pow-succ')
          (omega (arith, ap (λ (t : ℕ). bit_and (a / 2 ^ suc k) m * t) (pow-suc 2 k))))
  where
    half : m * 2 ^ suc k / 2 ≡ m * 2 ^ k
    half = omega (arith, ap (λ (t : ℕ). m * t) (pow-suc 2 k))

    even : m * 2 ^ suc k % 2 ≡ 0
    even = omega (arith, ap (λ (t : ℕ). m * t) (pow-suc 2 k))
