-- ===== src/Common/Tables.antt =====
-- C arrays as functions of the index, and the lists that their entries spell.
use Prim.Native.Nat.{ℕ, zero, suc, ◌+◌, ◌<◌}
use mathlib.Core.Path.{◌≡◌, refl, sym, ap, ap₂, ◌∙◌, fun_ext}
use mathlib.Core.Logic.{inl, inr}
use mathlib.Core.Bool.{false}
use mathlib.Core.List.{List, [], ◌∷◌, ◌++◌}
use native.Mathlib.Omega.{arith}
use native.Mathlib.Nat.{zero-add, suc-add}
use dpdk_cr.Common.Cond.{◌==◌, if◌then◌else◌, Bool-cases, ==_iff, ==_same}

-- An array: the entry at each index. Bounds are the concern of the statements.
abbrev pub Table {ℓ} : Type ℓ → Type ℓ
Table A = ℕ → A

module _ {ℓ} {A : Type ℓ} where
  abbrev pub length : List A → ℕ
  length [] = 0
  length (x ∷ xs) = suc (length xs)

  abbrev pub take : ℕ → List A → List A
  take zero xs = []
  take (suc n) [] = []
  take (suc n) (x ∷ xs) = x ∷ take n xs

  abbrev pub drop : ℕ → List A → List A
  drop zero xs = xs
  drop (suc n) [] = []
  drop (suc n) (x ∷ xs) = drop n xs

  -- `t[i] = v`
  unfoldable pub store : Table A → ℕ → A → Table A
  store t i v j = if j == i then v else t j

  pub store-at : (t : Table A) (i : ℕ) (v : A) → store t i v i ≡ v
  unfolding store
  store-at t i v = rw (==_same i) refl

  pub store-other : (t : Table A) (i j : ℕ) (v : A) → (j == i) ≡ false → store t i v j ≡ t j
  unfolding store
  store-other t i j v other = rw other refl

  pub store_self : (t : Table A) (i : ℕ) → store t i (t i) ≡ t
  unfolding store
  store_self t i = fun_ext (λ j. elim (Bool-cases (j == i)) [
    | inl at ↦ rw at (ap t (sym ((==_iff j i).0 at)))
    | inr other ↦ rw other refl
  ])

  pub store-store : (t : Table A) (i : ℕ) (v w : A) → store (store t i v) i w ≡ store t i w
  unfolding store
  store-store t i v w =
      fun_ext (λ j. elim (Bool-cases (j == i)) [ inl at ↦ rw at refl | inr other ↦ rw other refl ])

  -- the entries `t[0]`, ..., `t[n - 1]`
  unfoldable pub tabulate : ℕ → Table A → List A
  tabulate zero t = []
  tabulate (suc n) t = t 0 ∷ tabulate n (λ k. t (suc k))

  pub length-tabulate : (n : ℕ) (t : Table A) → length (tabulate n t) ≡ n
  unfolding tabulate
  length-tabulate zero t = refl
  length-tabulate (suc n) t = omega (arith, length-tabulate n (λ k. t (suc k)))

  pub tabulate-ext :
      (n : ℕ) (t u : Table A) → ((k : ℕ) → k < n → t k ≡ u k) → tabulate n t ≡ tabulate n u
  unfolding tabulate
  tabulate-ext zero t u same = refl
  tabulate-ext (suc n) t u same =
      ap₂ ◌∷◌ (same 0 (omega arith))
        (tabulate-ext n (λ k. t (suc k)) (λ k. u (suc k)) (λ k h. same (suc k) (omega arith)))

  pub tabulate-add :
      (n m : ℕ) (t : Table A) → tabulate (n + m) t ≡ tabulate n t ++ tabulate m (λ k. t (n + k))
  unfolding tabulate
  tabulate-add zero m t =
      rw zero-add (tabulate-ext m t (λ k. t (0 + k)) (λ k h. ap t (omega arith)))
  tabulate-add (suc n) m t = rw suc-add (
      ap (λ xs. t 0 ∷ xs)
        (tabulate-add n m (λ k. t (suc k))
          ∙ ap (λ xs. tabulate n (λ k. t (suc k)) ++ xs)
              (tabulate-ext m (λ k. t (suc (n + k))) (λ k. t (suc n + k))
                (λ k h. ap t (omega arith)))))

  pub take-tabulate : (n m : ℕ) (t : Table A) → take n (tabulate (n + m) t) ≡ tabulate n t
  unfolding tabulate
  take-tabulate zero m t = refl
  take-tabulate (suc n) m t = rw suc-add (ap (λ xs. t 0 ∷ xs) (take-tabulate n m (λ k. t (suc k))))

  pub drop-tabulate :
      (n m : ℕ) (t : Table A) → drop n (tabulate (n + m) t) ≡ tabulate m (λ k. t (n + k))
  unfolding tabulate
  drop-tabulate zero m t =
      rw zero-add (tabulate-ext m t (λ k. t (0 + k)) (λ k h. ap t (omega arith)))
  drop-tabulate (suc n) m t = rw suc-add (
      drop-tabulate n m (λ k. t (suc k))
      ∙ tabulate-ext m (λ k. t (suc (n + k))) (λ k. t (suc n + k)) (λ k h. ap t (omega arith)))
