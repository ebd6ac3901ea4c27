-- ===== src/Ring/Copy/Laws.antt =====
-- What the copy loops of the ring leave in the array that they write.
use native.Mathlib.Nat.{zero-add, suc-add, suc-mul, add_comm, add_assoc, mod-add-mod, mod-eq_of_lt}
use dpdk_cr.Common.{
  ℕ, zero, suc, ◌+◌, ◌-◌, ◌*◌, ◌/◌, ◌%◌, ◌<◌, ◌≡◌, refl, sym, ap, ◌∙◌, Table, store, bit_and, u32,
  ltb, leb, ◌&&◌, if◌then◌else◌, arith, fun_ext,
}
use dpdk_cr.Common.Bits.{bit_and-mask, bit_and-shift}
use dpdk_cr.Ring.Copy.{Cursor, cursor, repeat, copy_one, copy_four, copy_rest, copy_unrolled}

repeat-add {ℓ} :
    {S : Type ℓ} (m n : ℕ) (f : S → S) (s : S) → repeat (m + n) f s ≡ repeat n f (repeat m f s)
unfolding repeat
repeat-add zero n f s = rw zero-add
repeat-add (suc m) n f s = rw suc-add (repeat-add m n f (f s))

-- The array after copying `k` entries to `to` and on, from `from` and on.
abbrev pub copied : Table ℕ → ℕ → ℕ → ℕ → Table ℕ → Table ℕ
copied src k from to dst j = if leb to j && ltb j (to + k) then src (from + (j - to)) else dst j

cursor-ext :
    {a b i j : ℕ} {t u : Table ℕ}
    → a ≡ b
    → i ≡ j
    → ((n : ℕ) → t n ≡ u n)
    → cursor a i t ≡ cursor b j u
cursor-ext p q same = λ x. cursor (p x) (q x) (fun_ext same x)

module _ (src : Table ℕ) where
  -- A loop of single copies that does not wrap its indices.
  pub repeat-copy_one :
      (k from to : ℕ) (dst : Table ℕ)
      → from + k < u32
      → to + k < u32
      → repeat k (copy_one src) (cursor from to dst)
        ≡ cursor (from + k) (to + k) (copied src k from to dst)
  unfolding repeat copy_one store
  repeat-copy_one zero from to dst hf ht =
      cursor-ext (omega arith) (omega arith) (λ j. ground arith)
  repeat-copy_one (suc k) from to dst hf ht =
      rw
        (
          mod-eq_of_lt {n = from + 1} {m = u32} (omega arith),
          mod-eq_of_lt {n = to + 1} {m = u32} (omega arith),
        )
        (repeat-copy_one k (from + 1) (to + 1) (store dst to (src from)) (omega arith) (omega arith)
          ∙ cursor-ext (omega arith) (omega arith) (λ j. ground arith))

  copy_four_lem : (c : Cursor) → copy_four src c ≡ repeat 4 (copy_one src) c
  unfolding copy_four repeat copy_one
  copy_four_lem c = simp (mod-add-mod, add_assoc)

  repeat-copy_four :
      (k : ℕ) (c : Cursor) → repeat k (copy_four src) c ≡ repeat (k * 4) (copy_one src) c
  unfolding repeat
  repeat-copy_four zero c = refl
  repeat-copy_four (suc k) c =
      repeat-copy_four k (copy_four src c)
      ∙ rw (copy_four_lem c, suc-mul, add_comm) (sym (repeat-add 4 (k * 4) (copy_one src) c))

  copy_rest_lem : (k : ℕ) (c : Cursor) → k < 4 → copy_rest src k c ≡ repeat k (copy_one src) c
  unfolding copy_rest repeat
  copy_rest_lem zero c h = refl
  copy_rest_lem (suc zero) c h = refl
  copy_rest_lem (suc (suc zero)) c h = refl
  copy_rest_lem (suc (suc (suc zero))) c h = refl
  copy_rest_lem (suc (suc (suc (suc k)))) c h = absurd (omega arith)

  -- Unrolling does not change what is copied.
  pub copy_unrolled-repeat :
      (n : ℕ) (c : Cursor) → n < u32 → copy_unrolled src n c ≡ repeat n (copy_one src) c
  unfolding copy_unrolled
  copy_unrolled-repeat n c h =
      copy_rest_lem (bit_and n 3) _ (omega (arith, low))
      ∙ rw (repeat-copy_four (bit_and n 0xffff_fffc / 4) c) (
          sym (repeat-add (bit_and n 0xffff_fffc / 4 * 4) (bit_and n 3) (copy_one src) c)
          ∙ ap (λ k. repeat k (copy_one src) c) {y = n} (omega (arith, low, high)))
    where
      low : bit_and n 3 ≡ n % 4
      low = bit_and-mask 2 n

      high : bit_and n 0xffff_fffc ≡ n / 4 * 4
      high = bit_and-shift 2 n 0x3fff_ffff ∙ rw (bit_and-mask 30 (n / 4)) (omega arith)
