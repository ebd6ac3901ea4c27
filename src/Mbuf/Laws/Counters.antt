-- ===== src/Mbuf/Laws/Counters.antt =====
-- The two builds of the reference counters agree.
use dpdk_cr.Common.{ℕ, ◌≡◌, sym, ap, ◌==◌, ==_iff, Bool-cases, inl, inr, add16}
use dpdk_cr.Mbuf.Heap.{Heap}
use dpdk_cr.Mbuf.Refcnt.{refcnt_read, refcnt_set, refcnt_update, refcnt_update_atomic}

-- Taken one at a time, updates of an atomic counter, with their shortcut for a counter of 1, do what
-- updates of a plain counter do.
refcnt_update_atomic-update :
    (add_return : ℕ → ℕ → ℕ)
    → ((a v : ℕ) → add_return a v ≡ add16 a v)
    → (h : Heap) (m v : ℕ) → refcnt_update_atomic add_return h m v ≡ refcnt_update h m v
unfolding refcnt_update_atomic refcnt_update
refcnt_update_atomic-update add_return sums h m v = elim (Bool-cases (refcnt_read h m == 1)) [
  | inl single ↦
      rw single
        (ap (λ (r : ℕ). (add16 r v, refcnt_set h m (add16 r v))) (sym ((==_iff _ 1).0 single)))
  | inr shared ↦ rw shared (ap (λ (r : ℕ). (r, refcnt_set h m r)) (sums (refcnt_read h m) v))
]
