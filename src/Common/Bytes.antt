-- ===== src/Common/Bytes.antt =====
-- Memory as bytes: little-endian numbers, and writes and reads of runs of bytes.
use Prim.Native.Nat.{ℕ, zero, suc, ◌+◌, ◌*◌, ◌/◌, ◌%◌, ◌^◌, ◌≤◌, ◌<◌}
use mathlib.Core.Path.{◌≡◌, refl, ap, ap₂, ◌∙◌}
use mathlib.Core.Logic.{◌⊎◌, inl}
use mathlib.Core.List.{List, [], ◌∷◌, ◌++◌}
use native.Mathlib.Omega.{arith}
use native.Mathlib.Nat.{pow-suc, pow-zero}
use dpdk_cr.Common.Tables.{
  Table, length, store, store-at, store-other, tabulate, tabulate-ext, tabulate-add,
}

-- a block of memory: the byte at each offset
abbrev pub Bytes : Type 0
Bytes = Table ℕ

-- the `n` bytes of a number, the lowest first
unfoldable pub le_bytes : ℕ → ℕ → List ℕ
le_bytes zero v = []
le_bytes (suc n) v = v % 256 ∷ le_bytes n (v / 256)

unfoldable pub of_le : List ℕ → ℕ
of_le [] = 0
of_le (x ∷ xs) = x + 256 * of_le xs

pub length-le_bytes : (n v : ℕ) → length (le_bytes n v) ≡ n
unfolding le_bytes
length-le_bytes zero v = refl
length-le_bytes (suc n) v = omega (arith, length-le_bytes n (v / 256))

pub of_le-le_bytes : (n v : ℕ) → v < 256 ^ n → of_le (le_bytes n v) ≡ v
unfolding of_le le_bytes
of_le-le_bytes zero v h = omega (arith, pow-zero 256)
of_le-le_bytes (suc n) v h =
    omega (arith, pow-suc 256 n, of_le-le_bytes n (v / 256) (omega (arith, pow-suc 256 n)))

-- `memcpy(b + off, xs, n)`
unfoldable pub put_bytes : Bytes → ℕ → List ℕ → Bytes
put_bytes b off [] = b
put_bytes b off (x ∷ xs) = put_bytes (store b off x) (off + 1) xs

-- the `n` bytes at `off`
unfoldable pub get_bytes : Bytes → ℕ → ℕ → List ℕ
unfolding tabulate
get_bytes b off n = tabulate n (λ k. b (off + k))

-- stores of `uint8_t`, `uint16_t`, `uint32_t` and `uint64_t`
unfoldable pub put8 : Bytes → ℕ → ℕ → Bytes
unfolding put_bytes le_bytes
put8 b off v = put_bytes b off (le_bytes 1 v)

unfoldable pub put16 : Bytes → ℕ → ℕ → Bytes
unfolding put_bytes le_bytes
put16 b off v = put_bytes b off (le_bytes 2 v)

unfoldable pub put32 : Bytes → ℕ → ℕ → Bytes
unfolding put_bytes le_bytes
put32 b off v = put_bytes b off (le_bytes 4 v)

unfoldable pub put64 : Bytes → ℕ → ℕ → Bytes
unfolding put_bytes le_bytes
put64 b off v = put_bytes b off (le_bytes 8 v)

unfoldable pub get16 : Bytes → ℕ → ℕ
unfolding get_bytes of_le
get16 b off = of_le (get_bytes b off 2)

unfoldable pub get32 : Bytes → ℕ → ℕ
unfolding get_bytes of_le
get32 b off = of_le (get_bytes b off 4)

-- A byte outside of the run keeps its value.
pub put_bytes_outside :
    (b : Bytes) (off : ℕ) (xs : List ℕ) (j : ℕ)
    → (j < off) ⊎ (off + length xs ≤ j)
    → put_bytes b off xs j ≡ b j
unfolding put_bytes
put_bytes_outside b off [] j out = refl
put_bytes_outside b off (x ∷ xs) j out =
    put_bytes_outside (store b off x) (off + 1) xs j (ground arith)
    ∙ store-other b off j x (ground arith)

-- The run reads back.
pub get-put_bytes :
    (b : Bytes) (off : ℕ) (xs : List ℕ) → get_bytes (put_bytes b off xs) off (length xs) ≡ xs
unfolding get_bytes put_bytes tabulate
get-put_bytes b off [] = refl
get-put_bytes b off (x ∷ xs) =
    ap₂ ◌∷◌
      (ap (put_bytes (store b off x) (off + 1) xs) {x = off + 0} {y = off} (omega arith)
        ∙ put_bytes_outside (store b off x) (off + 1) xs off (inl (omega arith))
        ∙ store-at b off x)
      (tabulate-ext (length xs) (λ k. put_bytes (store b off x) (off + 1) xs (off + suc k))
          (λ k. put_bytes (store b off x) (off + 1) xs (off + 1 + k))
          (λ k h. ap (put_bytes (store b off x) (off + 1) xs) (omega arith))
        ∙ get-put_bytes (store b off x) (off + 1) xs)

-- Reading depends on the bytes that are read.
pub get_bytes-ext :
    (b c : Bytes) (off n : ℕ)
    → ((j : ℕ) → off ≤ j → j < off + n → b j ≡ c j)
    → get_bytes b off n ≡ get_bytes c off n
unfolding get_bytes
get_bytes-ext b c off n same =
    tabulate-ext n (λ k. b (off + k)) (λ k. c (off + k))
      (λ k h. same (off + k) (omega arith) (omega arith))

-- A run of bytes, in two parts.
pub get_bytes-add :
    (b : Bytes) (off n m : ℕ)
    → get_bytes b off (n + m) ≡ get_bytes b off n ++ get_bytes b (off + n) m
unfolding get_bytes
get_bytes-add b off n m =
    tabulate-add n m (λ k. b (off + k))
    ∙ ap (λ (xs : List ℕ). tabulate n (λ k. b (off + k)) ++ xs)
        (tabulate-ext m (λ k. b (off + (n + k))) (λ k. b (off + n + k)) (λ k h. ap b (omega arith)))

pub get16-ext :
    (b c : Bytes) (off : ℕ)
    → ((j : ℕ) → off ≤ j → j < off + 2 → b j ≡ c j)
    → get16 b off ≡ get16 c off
unfolding get16
get16-ext b c off same = ap of_le (get_bytes-ext b c off 2 same)

pub get32-ext :
    (b c : Bytes) (off : ℕ)
    → ((j : ℕ) → off ≤ j → j < off + 4 → b j ≡ c j)
    → get32 b off ≡ get32 c off
unfolding get32
get32-ext b c off same = ap of_le (get_bytes-ext b c off 4 same)

pub put16_outside : (b : Bytes) (off v j : ℕ) → (j < off) ⊎ (off + 2 ≤ j) → put16 b off v j ≡ b j
unfolding put16 le_bytes
put16_outside b off v j out = put_bytes_outside b off (le_bytes 2 v) j out

pub put32_outside : (b : Bytes) (off v j : ℕ) → (j < off) ⊎ (off + 4 ≤ j) → put32 b off v j ≡ b j
unfolding put32 le_bytes
put32_outside b off v j out = put_bytes_outside b off (le_bytes 4 v) j out

pub get16-put16 : (b : Bytes) (off v : ℕ) → v < 2 ^ 16 → get16 (put16 b off v) off ≡ v
unfolding get16 put16 le_bytes
get16-put16 b off v h =
    ap of_le (get-put_bytes b off (le_bytes 2 v)) ∙ of_le-le_bytes 2 v (omega arith)

pub get32-put32 : (b : Bytes) (off v : ℕ) → v < 2 ^ 32 → get32 (put32 b off v) off ≡ v
unfolding get32 put32 le_bytes
get32-put32 b off v h =
    ap of_le (get-put_bytes b off (le_bytes 4 v)) ∙ of_le-le_bytes 4 v (omega arith)
