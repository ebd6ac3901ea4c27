-- ===== src/Lcore/Laws/Index.antt =====
-- Where `rte_lcore_index` reads.
use dpdk_cr.Common.{
  ℕ, ◌-◌, ◌^◌, ◌≤◌, ◌<◌, ◌≡◌, inl, inr, ◌↔◌, refl, ltb, ltb→lt, lt→ltb, le→ltb, Bool, true, false,
  Bool-cases, none, u32, ℤ, arith,
}
use dpdk_cr.Lcore.Config.{Eal, to_int, core_index_at, lcore_index, current_lcore}

abbrev pub is_negative : ℤ → Bool
is_negative (ℤ.pos i) = false
is_negative (ℤ.negsuc i) = true

to_int-small : (x : ℕ) → x < 2 ^ 31 → to_int x ≡ ℤ.pos x
unfolding to_int
to_int-small x lt = rw (lt→ltb x (2 ^ 31) lt) refl

to_int-large : (x : ℕ) → 2 ^ 31 ≤ x → to_int x ≡ ℤ.negsuc (u32 - 1 - x)
unfolding to_int
to_int-large x le = rw (le→ltb x (2 ^ 31) le) refl

module _ (max_lcore : ℕ) (eal : Eal) (small : max_lcore ≤ 2 ^ 31)
    (id_lt : current_lcore eal < u32) where
  -- For at most 2 ^ 31 lcores and a thread with a 32-bit id, the read is outside `lcore_config` exactly
  -- when a negative number asks for the current lcore and the thread's id is no lcore's, as LCORE_ID_ANY
  -- is not.
  pub lcore_index_lem :
      (i : ℤ)
      → (lcore_index max_lcore eal i ≡ none)
        ↔ ((is_negative i ≡ true) × (max_lcore ≤ current_lcore eal))
  unfolding lcore_index core_index_at
  lcore_index_lem (ℤ.pos i) = ground arith
  lcore_index_lem (ℤ.negsuc i) = elim (Bool-cases (ltb (current_lcore eal) (2 ^ 31))) [
    | inl low ↦ rw (to_int-small (current_lcore eal) (ltb→lt _ _ low)) (ground arith)
    | inr high ↦ rw (to_int-large (current_lcore eal) (ground arith)) (ground arith)
  ]
