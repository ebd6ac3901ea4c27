-- ===== src/Lcore/Next.antt =====
-- `rte_get_next_lcore`, and the loops of RTE_LCORE_FOREACH and RTE_LCORE_FOREACH_SLAVE over it.
use dpdk_cr.Common.{
  ℕ, zero, suc, ◌+◌, ◌%◌, ◌==◌, ltb, Bool, false, not, ◌&&◌, ◌||◌, if◌then◌else◌, Option, none,
  some, List, [], ◌∷◌, add32,
}
use mathlib.Core.Option.{map}
use dpdk_cr.Lcore.Config.{Eal, get_master_lcore, lcore_is_enabled, lcore_id_any}

module _ (max_lcore : ℕ) (eal : Eal) where
  -- `i++; if (wrap) i %= RTE_MAX_LCORE;`
  unfoldable pub step : Bool → ℕ → ℕ
  step wrap i = if wrap then add32 i 1 % max_lcore else add32 i 1

  -- The test of the loop: this lcore is passed over.
  unfoldable pub passed_over : Bool → ℕ → Bool
  passed_over skip_master i =
      not (lcore_is_enabled max_lcore eal i) || (skip_master && (i == get_master_lcore eal))

  -- The `while` loop; `none` is a loop that has not ended after `fuel` rounds.
  unfoldable pub scan : ℕ → Bool → Bool → ℕ → Option ℕ
  scan zero skip_master wrap i = none
  scan (suc fuel) skip_master wrap i =
      let rest = scan fuel skip_master wrap (step wrap i) in
      if ltb i max_lcore then (if passed_over skip_master i then rest else some i) else some i

  unfoldable pub get_next_lcore : ℕ → ℕ → Bool → Bool → Option ℕ
  get_next_lcore fuel i skip_master wrap = scan fuel skip_master wrap (step wrap i)

  -- The ids for which the body of the `for` loop runs from id `i` on, in this order.
  unfoldable pub visits : ℕ → Bool → Option ℕ → Option (List ℕ)
  visits zero skip_master i = none
  visits (suc fuel) skip_master none = none
  visits (suc fuel) skip_master (some i) =
      let rest = visits fuel skip_master (get_next_lcore (max_lcore + 1) i skip_master false) in
      if ltb i max_lcore then map (λ is. i ∷ is) rest else some []

  -- RTE_LCORE_FOREACH, and with `true` RTE_LCORE_FOREACH_SLAVE
  unfoldable pub foreach : ℕ → Bool → Option (List ℕ)
  foreach fuel skip_master =
      visits fuel skip_master (get_next_lcore (max_lcore + 1) lcore_id_any skip_master false)
