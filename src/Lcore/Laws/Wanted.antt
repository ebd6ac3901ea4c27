-- ===== src/Lcore/Laws/Wanted.antt =====
-- The lcores that a search looks for, and the test of its loop.
use dpdk_cr.Common.{ℕ, ◌<◌, ◌≡◌, sym, ◌∙◌, ◌==◌, Bool, true, false, not, ◌&&◌, arith}
use dpdk_cr.Lcore.Config.{Eal, lcore_is_enabled}
use dpdk_cr.Lcore.Next.{passed_over}

-- The lcore runs the application, and is not the master where the master is skipped.
abbrev pub wanted : Eal → Bool → ℕ → Bool
wanted eal skip_master k = eal.lcore_role k && not (skip_master && (k == eal.master_lcore))

pub passed_over-wanted :
    (max_lcore : ℕ) (eal : Eal) (skip_master : Bool) (k : ℕ)
    → k < max_lcore
    → passed_over max_lcore eal skip_master k ≡ not (wanted eal skip_master k)
unfolding passed_over lcore_is_enabled
passed_over-wanted max_lcore eal skip_master k lt = ground arith

pub wanted-true :
    (max_lcore : ℕ) (eal : Eal) (skip_master : Bool) (k : ℕ)
    → k < max_lcore
    → passed_over max_lcore eal skip_master k ≡ false
    → wanted eal skip_master k ≡ true
wanted-true max_lcore eal skip_master k lt found =
    not-false (wanted eal skip_master k)
      (sym (passed_over-wanted max_lcore eal skip_master k lt) ∙ found)
  where
    not-false : (b : Bool) → not b ≡ false → b ≡ true
    not-false b h = ground arith

pub wanted-false :
    (max_lcore : ℕ) (eal : Eal) (skip_master : Bool) (k : ℕ)
    → k < max_lcore
    → passed_over max_lcore eal skip_master k ≡ true
    → wanted eal skip_master k ≡ false
wanted-false max_lcore eal skip_master k lt passed =
    not-true (wanted eal skip_master k)
      (sym (passed_over-wanted max_lcore eal skip_master k lt) ∙ passed)
  where
    not-true : (b : Bool) → not b ≡ true → b ≡ false
    not-true b h = ground arith
