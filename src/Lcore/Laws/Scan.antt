-- ===== src/Lcore/Laws/Scan.antt =====
-- Where the search without a wrap ends.
use dpdk_cr.Common.{
  ℕ, zero, suc, ◌+◌, ◌≤◌, ◌<◌, ◌≡◌, ◌⊎◌, inl, inr, refl, subst, ltb, ltb→lt, le→ltb, leb, Bool,
  true, false, Bool-cases, some, u32, add32, arith,
}
use dpdk_cr.Lcore.Config.{Eal}
use dpdk_cr.Lcore.Next.{step, passed_over, scan, get_next_lcore}
use dpdk_cr.Lcore.Laws.Wanted.{wanted, wanted-true, wanted-false}

module _ (max_lcore : ℕ) (eal : Eal) (skip_master : Bool) where
  -- `j` is the first id from `i` on that the loop does not pass over, or RTE_MAX_LCORE if there is none.
  abbrev pub Stops : ℕ → ℕ → Type 0
  Stops i j =
      (i ≤ j)
      × ((k : ℕ) → i ≤ k → k < j → passed_over max_lcore eal skip_master k ≡ true)
      × ((j < max_lcore) × (passed_over max_lcore eal skip_master j ≡ false) ⊎ (j ≡ max_lcore))

  order : (i k : ℕ) → i ≤ k → (i ≡ k) ⊎ (i + 1 ≤ k)
  order i k le = ground arith

  scan-Stops :
      max_lcore < u32
      → (fuel i : ℕ) → i ≤ max_lcore
      → max_lcore < i + fuel
      → (j : ℕ) × (scan max_lcore eal fuel skip_master false i ≡ some j) × Stops i j
  unfolding scan step
  scan-Stops small zero i le enough = absurd (omega arith)
  scan-Stops small (suc fuel) i le enough = elim (Bool-cases (ltb i max_lcore)) [
    | inl more ↦ elim (Bool-cases (passed_over max_lcore eal skip_master i)) [
      | inl passed ↦
          let (j, result, (from, all, end)) =
            scan-Stops small fuel (add32 i 1) (ground arith) (ground arith) in
          let next : add32 i 1 ≡ i + 1 = ground arith in
          let later : (k : ℕ) → i ≤ k → k < j → passed_over max_lcore eal skip_master k ≡ true =
            λ k h h'. elim (order i k h) [
              | inl same ↦
                  subst (λ (x : ℕ). passed_over max_lcore eal skip_master x ≡ true) same passed
              | inr behind ↦ all k (omega arith) h'
            ] in
          (j, rw (more, passed) result, (omega (arith, next, from), later, end))
      | inr found ↦ (
        i,
        rw (more, found) refl,
        (omega arith, λ k h h'. absurd (omega arith), inl (ltb→lt i max_lcore more, found)),
      )
    ]
    | inr over ↦
        (i, rw over refl, (omega arith, λ k h h'. absurd (omega arith), inr (ground arith)))
  ]

  -- `j` is the first wanted id from `i` on, or RTE_MAX_LCORE if there is none.
  abbrev pub First : ℕ → ℕ → Type 0
  First i j =
      (i ≤ j)
      × ((k : ℕ) → i ≤ k → k < j → wanted eal skip_master k ≡ false)
      × ((j < max_lcore) × (wanted eal skip_master j ≡ true) ⊎ (j ≡ max_lcore))

  Stops-First : (i j : ℕ) → Stops i j → First i j
  Stops-First i j (from, all, inl (lt, found)) = (
    from,
    λ k le below. wanted-false max_lcore eal skip_master k (omega arith) (all k le below),
    inl (lt, wanted-true max_lcore eal skip_master j lt found),
  )
  Stops-First i j (from, all, inr end) = (
    from,
    λ k le below. wanted-false max_lcore eal skip_master k (omega arith) (all k le below),
    inr end,
  )

  over-scan :
      (fuel i : ℕ) → max_lcore < i → 0 < fuel → scan max_lcore eal fuel skip_master false i ≡ some i
  unfolding scan
  over-scan zero i over some_fuel = absurd (omega arith)
  over-scan (suc fuel) i over some_fuel = rw (le→ltb i max_lcore (omega arith)) refl

pub get_next_lcore-Stops :
    (max_lcore : ℕ) (eal : Eal) (skip_master : Bool) (i fuel : ℕ)
    → max_lcore < u32
    → add32 i 1 ≤ max_lcore
    → max_lcore < fuel
    → (j : ℕ) × (get_next_lcore max_lcore eal fuel i skip_master false ≡ some j)
      × Stops max_lcore eal skip_master (add32 i 1) j
unfolding get_next_lcore step
get_next_lcore-Stops max_lcore eal skip_master i fuel small le enough =
    scan-Stops max_lcore eal skip_master small fuel (add32 i 1) le (omega arith)

-- For fewer than 2^32 lcores and more rounds than there are lcores, `rte_get_next_lcore` without a wrap
-- ends. Where the id behind `i`, of 32 bits, is RTE_MAX_LCORE at most, the result is the first id from
-- there on of an lcore that runs the application and is not the master if that is skipped, or
-- RTE_MAX_LCORE if there is none; where it is greater, the result is the id behind `i` itself.
pub get_next_lcore-First :
    (max_lcore : ℕ) (eal : Eal) (skip_master : Bool) (i fuel : ℕ)
    → max_lcore < u32
    → max_lcore < fuel
    → (j : ℕ) × (get_next_lcore max_lcore eal fuel i skip_master false ≡ some j)
      × ((add32 i 1 ≤ max_lcore) × First max_lcore eal skip_master (add32 i 1) j
          ⊎ (max_lcore < add32 i 1) × (j ≡ add32 i 1))
unfolding get_next_lcore step
get_next_lcore-First max_lcore eal skip_master i fuel small enough =
    elim (Bool-cases (leb (add32 i 1) max_lcore)) [
      | inl within ↦
          let le : add32 i 1 ≤ max_lcore = ground (arith, within) in
          let (j, ran, stops) =
            get_next_lcore-Stops max_lcore eal skip_master i fuel small le enough in
          (j, ran, inl (le, Stops-First max_lcore eal skip_master (add32 i 1) j stops))
      | inr beyond ↦
          let over : max_lcore < add32 i 1 = ground (arith, beyond) in
          (
            add32 i 1,
            over-scan max_lcore eal skip_master fuel (add32 i 1) over (omega arith),
            inr (over, refl),
          )
    ]
