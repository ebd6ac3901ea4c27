-- ===== src/Common/Shifted.antt =====
-- `^` and `|` with a mask above the lowest `k` digits, and with the two lowest digits of a byte.
use Prim.Native.Nat.{
  ℕ, zero, suc, ◌+◌, ◌-◌, ◌*◌, ◌/◌, ◌%◌, ◌^◌, ◌≤◌, ◌<◌, max, bit_or, bit_xor, digits, differ,
  bit_or-bitwise, bit_xor-bitwise,
}
use mathlib.Core.Path.{◌≡◌, refl, ap, ◌∙◌}
use native.Mathlib.Omega.{arith}
use native.Mathlib.Nat.{pow-zero, pow-suc, mul-one}

-- An operation on digits for which 0 is neutral on both sides.
module _ (f : ℕ → ℕ → ℕ) (zero_left : (y : ℕ) → f 0 y ≡ y) (zero_right : (x : ℕ) → f x 0 ≡ x) where
  of_digits : ℕ → ℕ → ℕ → ℕ
  of_digits = digits (λ b. b) f

  digits-zero : (n b : ℕ) → of_digits n 0 b ≡ b
  unfolding of_digits
  digits-zero zero b = refl
  digits-zero (suc n) b = refl

  -- The fuel does not matter once it covers the first number.
  digits_fuel : (n m a b : ℕ) → a ≤ n → a ≤ m → of_digits n a b ≡ of_digits m a b
  unfolding of_digits
  digits_fuel n m zero b h k = rw (digits-zero n b, digits-zero m b) refl
  digits_fuel zero m (suc a) b h k = absurd (omega arith)
  digits_fuel (suc n) zero (suc a) b h k = absurd (omega arith)
  digits_fuel (suc n) (suc m) (suc a) b h k =
      ap (λ (t : ℕ). t * 2 + f (suc a % 2) (b % 2))
        (digits_fuel n m (suc a / 2) (b / 2) (omega arith) (omega arith))

  lowest_digit :
      (a b : ℕ) → of_digits a a b ≡ of_digits (a / 2) (a / 2) (b / 2) * 2 + f (a % 2) (b % 2)
  unfolding of_digits
  lowest_digit zero b = omega (arith, zero_left (b % 2))
  lowest_digit (suc a) b =
      ap (λ (t : ℕ). t * 2 + f (suc a % 2) (b % 2))
        (digits_fuel a (suc a / 2) (suc a / 2) (b / 2) (omega arith) (omega arith))

  -- The lowest `k` digits stay, the others meet the mask.
  digits-shifted :
      (k low d m : ℕ)
      → low < 2 ^ k
      → of_digits (low + d * 2 ^ k) (low + d * 2 ^ k) (m * 2 ^ k) ≡ low + of_digits d d m * 2 ^ k
  digits-shifted zero low d m h =
      let none_low : low ≡ 0 = omega (arith, pow-zero 2) in
      let number : low + d * 2 ^ 0 ≡ d =
        omega (arith, none_low, pow-zero 2, mul-one d, ap (λ (t : ℕ). d * t) (pow-zero 2)) in
      let mask : m * 2 ^ 0 ≡ m = omega (arith, mul-one m, ap (λ (t : ℕ). m * t) (pow-zero 2)) in
      rw (number, mask)
        (omega (
          arith,
          none_low,
          mul-one (of_digits d d m),
          ap (λ (t : ℕ). of_digits d d m * t) (pow-zero 2),
        ))
  digits-shifted (suc k) low d m h =
      lowest_digit (low + d * 2 ^ suc k) (m * 2 ^ suc k)
      ∙ rw
          (
            half,
            mask,
            even,
            zero_right ((low + d * 2 ^ suc k) % 2),
            digits-shifted k (low / 2) d m (omega (arith, pow-suc 2 k)),
          )
          (omega (arith, double d, double (of_digits d d m)))
    where
      double : (x : ℕ) → x * 2 ^ suc k ≡ x * 2 ^ k * 2
      double x = omega (arith, ap (λ (t : ℕ). x * t) (pow-suc 2 k))

      half : (low + d * 2 ^ suc k) / 2 ≡ low / 2 + d * 2 ^ k
      half = omega (arith, double d)

      mask : m * 2 ^ suc k / 2 ≡ m * 2 ^ k
      mask = omega (arith, double m)

      even : m * 2 ^ suc k % 2 ≡ 0
      even = omega (arith, double m)

  -- A mask of no digits.
  digits-none : (x : ℕ) → x < 256 → of_digits x x 0 ≡ x
  digits-none x h =
      let added : x + 0 * 2 ^ 8 ≡ x = omega arith in
      ap (λ (v : ℕ). of_digits v v 0) (omega arith)
      ∙ digits-shifted 8 x 0 0 h
      ∙ omega (arith, digits-zero 0 0)

  -- A mask of the two lowest digits.
  two_digits : (x : ℕ) → x < 256 → of_digits x x 3 ≡ x / 4 * 4 + (f (x / 2 % 2) 1 * 2 + f (x % 2) 1)
  two_digits x h =
      omega (arith, lowest_digit x 3, lowest_digit (x / 2) 1, digits-none (x / 2 / 2) (omega arith))

differ-zero : (x : ℕ) → differ x 0 ≡ x
differ-zero zero = refl
differ-zero (suc x) = refl

max-zero : (x : ℕ) → max x 0 ≡ x
max-zero x = omega arith

zero-max : (x : ℕ) → max 0 x ≡ x
zero-max x = omega arith

pub bit_xor-shifted :
    (k low d m : ℕ)
    → low < 2 ^ k
    → bit_xor (low + d * 2 ^ k) (m * 2 ^ k) ≡ low + bit_xor d m * 2 ^ k
unfolding of_digits
bit_xor-shifted k low d m h =
    simp bit_xor-bitwise (digits-shifted differ (λ y. refl) differ-zero k low d m h)

pub bit_or-shifted :
    (k low d m : ℕ) → low < 2 ^ k → bit_or (low + d * 2 ^ k) (m * 2 ^ k) ≡ low + bit_or d m * 2 ^ k
unfolding of_digits
bit_or-shifted k low d m h = simp bit_or-bitwise (digits-shifted max zero-max max-zero k low d m h)

differ-one : (x : ℕ) → x < 2 → differ x 1 ≡ 1 - x
differ-one zero h = refl
differ-one (suc zero) h = refl
differ-one (suc (suc x)) h = absurd (omega arith)

-- The two lowest digits of a byte: `^ 3` turns them over, `| 3` sets them.
pub bit_xor-byte : (x : ℕ) → x < 256 → bit_xor x 3 ≡ x / 4 * 4 + (3 - x % 4)
unfolding of_digits
bit_xor-byte x h = simp bit_xor-bitwise (
    two_digits differ (λ y. refl) differ-zero x h
    ∙ omega (arith, differ-one (x % 2) (omega arith), differ-one (x / 2 % 2) (omega arith)))

pub bit_or-byte : (x : ℕ) → x < 256 → bit_or x 3 ≡ x / 4 * 4 + 3
unfolding of_digits
bit_or-byte x h = simp bit_or-bitwise (two_digits max zero-max max-zero x h ∙ omega arith)

-- `| 1` sets the lowest digit.
pub bit_or-one : (x : ℕ) → bit_or x 1 % 2 ≡ 1
unfolding of_digits
bit_or-one x = simp bit_or-bitwise (omega (arith, lowest_digit max zero-max max-zero x 1))
