-- ===== src/Lcore/Laws/Wrap.antt =====
-- The search with a wrap goes round once at most, and for ever when there is nothing to find.
use dpdk_cr.Common.{
  ℕ, zero, suc, ◌+◌, ◌-◌, ◌*◌, ◌%◌, ◌≤◌, ◌<◌, ◌≡◌, ◌⊎◌, inl, inr, refl, sym, ap, ◌∙◌, lt→ltb,
  ==_iff, ◌==◌, Bool, true, false, Bool-cases, none, some, u32, add32, arith,
}
use mathlib.Core.Bool.{true≢false}
use native.Mathlib.Nat.{mod-lt, add-mod-mod, mul-add-mod_self_right, mod-add-mod, mod-eq_of_lt}
use dpdk_cr.Lcore.Config.{Eal}
use dpdk_cr.Lcore.Next.{step, passed_over, scan, get_next_lcore}
use dpdk_cr.Lcore.Laws.Wanted.{wanted, wanted-true, wanted-false}

zero_or_suc : (n : ℕ) → (n ≡ 0) ⊎ ((m : ℕ) × (n ≡ m + 1))
zero_or_suc zero = inl refl
zero_or_suc (suc m) = inr (m, omega arith)

-- The id that is `t` behind `i` on the ring of ids.
abbrev pub behind : ℕ → ℕ → ℕ → ℕ
behind max_lcore i t = (i + t) % max_lcore

module _ (max_lcore : ℕ) (eal : Eal) (skip_master : Bool) (pos : 0 < max_lcore)
    (small : max_lcore < u32) where
  step-behind :
      (i t : ℕ)
      → i < max_lcore
      → behind max_lcore (step max_lcore eal true i) t ≡ behind max_lcore i (t + 1)
  unfolding step
  step-behind i t lt =
      ap (λ (x : ℕ). (x % max_lcore + t) % max_lcore) {y = i + 1} (ground arith)
      ∙ mod-add-mod (i + 1) max_lcore t
      ∙ ap (λ (x : ℕ). x % max_lcore) (omega arith)

  behind-zero : (i : ℕ) → i < max_lcore → behind max_lcore i 0 ≡ i
  behind-zero i lt = ap (λ (x : ℕ). x % max_lcore) (omega arith) ∙ mod-eq_of_lt lt

  step-lt : (i : ℕ) → step max_lcore eal true i < max_lcore
  unfolding step
  step-lt i = mod-lt (add32 i 1) pos

  -- Some id within `d` steps is not passed over, so the first such id is found.
  scan-behind :
      (d fuel i : ℕ)
      → i < max_lcore
      → d < fuel
      → passed_over max_lcore eal skip_master (behind max_lcore i d) ≡ false
      → (t : ℕ) × (scan max_lcore eal fuel skip_master true i ≡ some (behind max_lcore i t))
        × (t ≤ d)
        × (passed_over max_lcore eal skip_master (behind max_lcore i t) ≡ false)
        × ((s : ℕ) → s < t → passed_over max_lcore eal skip_master (behind max_lcore i s) ≡ true)
  unfolding scan
  scan-behind d zero i lt enough found = absurd (omega arith)
  scan-behind d (suc fuel) i lt enough found =
      elim (Bool-cases (passed_over max_lcore eal skip_master i)) [
        | inl passed ↦ elim (zero_or_suc d) [
          | inl none_left ↦ absurd (
              true≢false (
                sym passed
                ∙ ap (passed_over max_lcore eal skip_master)
                    (sym (behind-zero i lt) ∙ ap (behind max_lcore i) (sym none_left))
                ∙ found))
          | inr (e, more) ↦
              let (t, result, le, at, before) =
                scan-behind e fuel (step max_lcore eal true i) (step-lt i) (omega arith) (
                  ap (passed_over max_lcore eal skip_master)
                    (step-behind i e lt ∙ ap (behind max_lcore i) (sym more))
                  ∙ found) in
              (
                t + 1,
                rw (lt→ltb i max_lcore lt, passed) (result ∙ ap some (step-behind i t lt)),
                omega arith,
                ap (passed_over max_lcore eal skip_master) (sym (step-behind i t lt)) ∙ at,
                λ s h. elim (zero_or_suc s) [
                  | inl start ↦
                      ap (passed_over max_lcore eal skip_master)
                        (ap (behind max_lcore i) start ∙ behind-zero i lt)
                      ∙ passed
                  | inr (r, later) ↦
                      ap (passed_over max_lcore eal skip_master)
                        (ap (behind max_lcore i) later ∙ sym (step-behind i r lt))
                      ∙ before r (omega arith)
                ],
              )
        ]
        | inr here ↦ (
          0,
          rw (lt→ltb i max_lcore lt, here) (ap some (sym (behind-zero i lt))),
          omega arith,
          ap (passed_over max_lcore eal skip_master) (behind-zero i lt) ∙ here,
          λ s h. absurd (omega arith),
        )
      ]

  -- Where every id is passed over, no number of rounds ends the loop.
  scan-none :
      ((k : ℕ) → k < max_lcore → passed_over max_lcore eal skip_master k ≡ true)
      → (fuel i : ℕ) → i < max_lcore
      → scan max_lcore eal fuel skip_master true i ≡ none
  unfolding scan
  scan-none all zero i lt = refl
  scan-none all (suc fuel) i lt =
      rw (lt→ltb i max_lcore lt, all i lt)
        (scan-none all fuel (step max_lcore eal true i) (step-lt i))

  -- With something to find, it is found within one round.
  get_next_lcore-some :
      (i k fuel : ℕ)
      → k < max_lcore
      → passed_over max_lcore eal skip_master k ≡ false
      → max_lcore ≤ fuel
      → (t : ℕ) × (get_next_lcore max_lcore eal fuel i skip_master true
          ≡ some (behind max_lcore (step max_lcore eal true i) t))
        × (t < max_lcore)
        × (passed_over max_lcore eal skip_master (behind max_lcore (step max_lcore eal true i) t)
            ≡ false)
        × ((s : ℕ)
            → s < t
            → passed_over max_lcore eal skip_master (behind max_lcore (step max_lcore eal true i) s)
              ≡ true)
  unfolding get_next_lcore
  get_next_lcore-some i k fuel lt found enough =
      let start = step max_lcore eal true i in
      let d = (k + (max_lcore - start)) % max_lcore in
      let start_lt : start < max_lcore = step-lt i in
      let round : behind max_lcore start d ≡ k =
        add-mod-mod start (k + (max_lcore - start)) max_lcore
        ∙ ap (λ (x : ℕ). x % max_lcore) {y = 1 * max_lcore + k} (omega arith)
        ∙ mul-add-mod_self_right 1 max_lcore k
        ∙ mod-eq_of_lt lt in
      let (t, result, le, at, before) =
        scan-behind d fuel start start_lt (omega (arith, mod-lt (k + (max_lcore - start)) pos))
          (ap (passed_over max_lcore eal skip_master) round ∙ found) in
      (t, result, omega (arith, le, mod-lt (k + (max_lcore - start)) pos), at, before)

  get_next_lcore-none :
      ((k : ℕ) → k < max_lcore → passed_over max_lcore eal skip_master k ≡ true)
      → (fuel i : ℕ) → get_next_lcore max_lcore eal fuel i skip_master true ≡ none
  unfolding get_next_lcore
  get_next_lcore-none all fuel i = scan-none all fuel (step max_lcore eal true i) (step-lt i)

  some_or_none :
      (n : ℕ)
      → ((k : ℕ) × (k < n) × (passed_over max_lcore eal skip_master k ≡ false))
        ⊎ ((k : ℕ) → k < n → passed_over max_lcore eal skip_master k ≡ true)
  some_or_none zero = inr (λ k lt. absurd (omega arith))
  some_or_none (suc n) = elim (some_or_none n) [
    | inl (k, lt, found) ↦ inl (k, omega arith, found)
    | inr all ↦ elim (Bool-cases (passed_over max_lcore eal skip_master n)) [
      | inl passed ↦ inr (λ k lt. elim (Bool-cases (k == n)) [
        | inl at ↦ ap (passed_over max_lcore eal skip_master) ((==_iff k n).0 at) ∙ passed
        | inr other ↦ all k (ground arith)
      ])
      | inr found ↦ inl (n, omega arith, found)
    ]
  ]

  -- For 1 to 2^32 - 1 lcores and as many rounds, `rte_get_next_lcore` with a wrap returns, within one
  -- round of the ids, the first behind `i` of an lcore that runs the application and is not the master
  -- if that is skipped; or there is no such lcore, and no number of rounds ends it.
  pub get_next_lcore-wrapped :
      (i fuel : ℕ)
      → max_lcore ≤ fuel
      → ((t : ℕ) × (get_next_lcore max_lcore eal fuel i skip_master true
            ≡ some (behind max_lcore (step max_lcore eal true i) t))
          × (t < max_lcore)
          × (wanted eal skip_master (behind max_lcore (step max_lcore eal true i) t) ≡ true)
          × ((s : ℕ)
              → s < t
              → wanted eal skip_master (behind max_lcore (step max_lcore eal true i) s) ≡ false))
        ⊎ (((k : ℕ) → k < max_lcore → wanted eal skip_master k ≡ false)
            × ((rounds : ℕ) → get_next_lcore max_lcore eal rounds i skip_master true ≡ none))
  get_next_lcore-wrapped i fuel enough = elim (some_or_none max_lcore) [
    | inl (k, lt, found) ↦
        let (t, ran, below, at, before) = get_next_lcore-some i k fuel lt found enough in
        let near : (s : ℕ) → behind max_lcore (step max_lcore eal true i) s < max_lcore =
          λ s. mod-lt (step max_lcore eal true i + s) pos in
        inl (
          t,
          ran,
          below,
          wanted-true max_lcore eal skip_master _ (near t) at,
          λ s h. wanted-false max_lcore eal skip_master _ (near s) (before s h),
        )
    | inr all ↦ inr (
      λ k lt. wanted-false max_lcore eal skip_master k lt (all k lt),
      λ rounds. get_next_lcore-none all rounds i,
    )
  ]
