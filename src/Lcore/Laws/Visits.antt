-- ===== src/Lcore/Laws/Visits.antt =====
-- The loops over lcores run their body once for each that is wanted, in ascending order.
use dpdk_cr.Common.{
  ℕ, zero, suc, ◌+◌, ◌-◌, ◌≤◌, ◌<◌, ◌≡◌, inl, inr, refl, sym, ap, ap₂, subst, ◌∙◌, lt→ltb, le→ltb,
  Bool, Bool-cases, true, false, if◌then◌else◌, some, List, [], ◌∷◌, u32, add32, arith,
}
use mathlib.Core.Option.{map}
use dpdk_cr.Lcore.Config.{Eal, lcore_id_any}
use dpdk_cr.Lcore.Next.{passed_over, get_next_lcore, visits, foreach}
use dpdk_cr.Lcore.Laws.Wanted.{wanted, wanted-true, wanted-false}
use dpdk_cr.Lcore.Laws.Scan.{Stops, get_next_lcore-Stops}

module _ (max_lcore : ℕ) (eal : Eal) (skip_master : Bool) where
  -- Of the `n` ids from `i` on, those that the loop does not pass over.
  unfoldable visited : ℕ → ℕ → List ℕ
  visited zero i = []
  visited (suc n) i =
      if passed_over max_lcore eal skip_master i then visited n (i + 1) else i ∷ visited n (i + 1)

  visited-skip :
      (d n i : ℕ)
      → ((k : ℕ) → i ≤ k → k < i + d → passed_over max_lcore eal skip_master k ≡ true)
      → visited (d + n) i ≡ visited n (i + d)
  unfolding visited
  visited-skip zero n i all = ap₂ visited (omega arith) (omega arith)
  visited-skip (suc d) n i all =
      ap (λ (k : ℕ). visited k i) {y = suc (d + n)} (omega arith)
      ∙ rw (all i (omega arith) (omega arith)) (
          visited-skip d n (i + 1) (λ k h h'. all k (omega arith) (omega arith))
          ∙ ap (visited n) (omega arith))

  -- Those from `i` on are none, or the first of them and those behind it.
  visited-none :
      (i : ℕ) → Stops max_lcore eal skip_master i max_lcore → visited (max_lcore - i) i ≡ []
  unfolding visited
  visited-none i (from, all, end) =
      ap (λ (n : ℕ). visited n i) {y = max_lcore - i + 0} (omega arith)
      ∙ visited-skip (max_lcore - i) 0 i (λ k h h'. all k h (omega arith))

  visited-Stops :
      (i j : ℕ)
      → Stops max_lcore eal skip_master i j
      → j < max_lcore
      → passed_over max_lcore eal skip_master j ≡ false
      → j ∷ visited (max_lcore - (j + 1)) (j + 1) ≡ visited (max_lcore - i) i
  unfolding visited
  visited-Stops i j (from, all, end) lt found = sym (
      ap (λ (n : ℕ). visited n i) {y = j - i + suc (max_lcore - (j + 1))} (omega arith)
      ∙ visited-skip (j - i) (suc (max_lcore - (j + 1))) i (λ k h h'. all k h (omega arith))
      ∙ ap (visited (suc (max_lcore - (j + 1)))) {y = j} (omega arith)
      ∙ rw found refl)

  visits-visited :
      max_lcore < u32
      → (fuel i : ℕ) → add32 i 1 ≤ max_lcore
      → max_lcore < add32 i 1 + fuel
      → visits max_lcore eal fuel skip_master
          (get_next_lcore max_lcore eal (max_lcore + 1) i skip_master false)
        ≡ some (visited (max_lcore - add32 i 1) (add32 i 1))
  unfolding visits
  visits-visited small zero i le enough = absurd (omega arith)
  visits-visited small (suc fuel) i le enough =
      let (j, result, first) =
        get_next_lcore-Stops max_lcore eal skip_master i (max_lcore + 1) small le (omega arith) in
      rw result (elim first.2 [
        | inl (lt, found) ↦ rw (lt→ltb j max_lcore lt) (
            ap (map (λ is. j ∷ is)) (visits-visited small fuel j (ground arith) (ground arith))
            ∙ ap some (
                ap (λ (k : ℕ). j ∷ visited (max_lcore - k) k) {y = j + 1} (ground arith)
                ∙ visited-Stops (add32 i 1) j first lt found))
        | inr none_left ↦ rw (le→ltb j max_lcore (omega arith)) (
            ap some (
              sym (
                visited-none (add32 i 1)
                  (subst (Stops max_lcore eal skip_master (add32 i 1)) none_left first))))
      ])

  -- Of the `n` ids from `i` on, those of the wanted lcores.
  unfoldable pub ids : ℕ → ℕ → List ℕ
  ids zero i = []
  ids (suc n) i = if wanted eal skip_master i then i ∷ ids n (i + 1) else ids n (i + 1)

  visited-ids : (n i : ℕ) → n + i ≤ max_lcore → visited n i ≡ ids n i
  unfolding visited ids
  visited-ids zero i le = refl
  visited-ids (suc n) i le =
      let rest : visited n (i + 1) ≡ ids n (i + 1) = visited-ids n (i + 1) (omega arith) in
      elim (Bool-cases (passed_over max_lcore eal skip_master i)) [
        | inl passed ↦
            rw (passed, wanted-false max_lcore eal skip_master i (omega arith) passed) rest
        | inr found ↦
            rw (found, wanted-true max_lcore eal skip_master i (omega arith) found)
              (ap (λ is. i ∷ is) rest)
      ]

  -- For fewer than 2 ^ 32 lcores and more rounds than there are lcores, the loop ends; its body has run
  -- once for each lcore that runs the application, without the master if that is skipped, in ascending
  -- order of their ids.
  pub foreach-ids :
      max_lcore < u32
      → (fuel : ℕ) → max_lcore < fuel
      → foreach max_lcore eal fuel skip_master ≡ some (ids max_lcore 0)
  unfolding foreach
  foreach-ids small fuel enough =
      visits-visited small fuel lcore_id_any (omega arith) (omega arith)
      ∙ ap (λ (n : ℕ). some (visited n 0)) (omega arith)
      ∙ ap some (visited-ids max_lcore 0 (omega arith))
