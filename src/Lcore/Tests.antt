-- ===== src/Lcore/Tests.antt =====
-- Four lcores of which 1 and 3 are enabled, and lcore 1 is the master.
use dpdk_cr.Common.{
  ℕ, ◌==◌, ◌≡◌, ◌<◌, ◌≤◌, ◌↔◌, ◌⊎◌, refl, true, false, ◌||◌, none, some, [], ◌∷◌, add32, ℤ, arith,
}
use dpdk_cr.Lcore.Config.{Eal, lcore_id_any, lcore_index, lcore_is_enabled}
use dpdk_cr.Lcore.Next.{step, get_next_lcore, passed_over, scan, visits, foreach}
use dpdk_cr.Lcore.Laws.Wanted.{wanted}
use dpdk_cr.Lcore.Laws.Scan.{First, get_next_lcore-First}
use dpdk_cr.Lcore.Laws.Wrap.{behind, get_next_lcore-wrapped}
use dpdk_cr.Lcore.Laws.Visits.{ids, foreach-ids}
use dpdk_cr.Lcore.Laws.Index.{is_negative, lcore_index_lem}

abbrev four : Eal
four = record {
  master_lcore = 1;
  lcore_count = 2;
  lcore_role = λ i. (i == 1) || (i == 3);
  lcore_config = λ i. record { socket_id = 0; core_index = ℤ.pos i };
  lcore_id = lcore_id_any;
}

-- the same with the master only
abbrev master_only : Eal
master_only = record four { lcore_role = λ i. i == 1 }

foreach_run : foreach 4 four 5 false ≡ some (1 ∷ 3 ∷ [])
unfolding foreach visits get_next_lcore scan step passed_over lcore_is_enabled
foreach_run = refl

foreach-ids_example : foreach 4 four 5 true ≡ some (ids 4 four true 4 0)
foreach-ids_example = foreach-ids 4 four true (omega arith) 5 (omega arith)

get_next_lcore-First_example :
    (j : ℕ) × (get_next_lcore 4 four 5 1 false false ≡ some j)
    × ((add32 1 1 ≤ 4) × First 4 four false (add32 1 1) j ⊎ (4 < add32 1 1) × (j ≡ add32 1 1))
get_next_lcore-First_example = get_next_lcore-First 4 four false 1 5 (omega arith) (omega arith)

-- where lcores 1 and 3 can be found, and where there is none but the master, which is skipped
get_next_lcore_runs :
    (get_next_lcore 4 four 4 3 false true ≡ some 1)
    × (get_next_lcore 4 master_only 1000 1 true true ≡ none)
unfolding get_next_lcore scan step passed_over lcore_is_enabled
get_next_lcore_runs = (refl, refl)

get_next_lcore-wrapped_example :
    ((t : ℕ) × (get_next_lcore 4 four 4 3 false true ≡ some (behind 4 (step 4 four true 3) t))
      × (t < 4)
      × (wanted four false (behind 4 (step 4 four true 3) t) ≡ true)
      × ((s : ℕ) → s < t → wanted four false (behind 4 (step 4 four true 3) s) ≡ false))
    ⊎ (((k : ℕ) → k < 4 → wanted four false k ≡ false)
        × ((rounds : ℕ) → get_next_lcore 4 four rounds 3 false true ≡ none))
get_next_lcore-wrapped_example =
    get_next_lcore-wrapped 4 four false (omega arith) (omega arith) 3 4 (omega arith)

lcore_index_lem_example :
    (lcore_index 4 four (ℤ.negsuc 0) ≡ none)
    ↔ ((is_negative (ℤ.negsuc 0) ≡ true) × (4 ≤ lcore_id_any))
lcore_index_lem_example = lcore_index_lem 4 four (omega arith) (omega arith) (ℤ.negsuc 0)
