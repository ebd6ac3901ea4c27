-- ===== src/Tap/Reads.antt =====
-- src/ext/tap.c: how tap_read ends.
use dpdk_cr.Common.{
  arith, pos, ◌≢◌, ◌==◌, ==_iff, ◌⊎◌, inl, inr, Bool-cases, ℕ, ℤ, ◌∷◌, ◌≡◌, refl, true, false,
}
use dpdk_cr.Common.Bytes.{Bytes}
use dpdk_cr.System.{
  select_read, read, Kernel, Log, Call, Event, Outcome, done, spinning, exits, negative,
  perror_exit,
}
use dpdk_cr.Tap.{tap_read, read_ready}

-- The two calls of tap_read in a log.
module _ (k : Kernel) (log : Log) (tap_fd : ℤ) (buf : Bytes) (buf_size : ℕ) where
  abbrev pub selecting : Event
  selecting = let c : Call = select_read tap_fd 10000 in record { call = c; answer = k log c }

  abbrev pub reading : Event
  reading =
      let c : Call = read tap_fd buf_size in record { call = c; answer = k (selecting ∷ log) c }

  -- How tap_read ends: it hands back what one read delivered, or 0 and the buffer as it was, after a
  -- wait that timed out or was interrupted; or it exits since the wait failed otherwise or the read did.
  abbrev pub ReadEnded : Outcome (ℤ × Bytes) → Type 0
  ReadEnded (done (n, b) log') =
      (negative n ≡ false)
      × (((log' ≡ reading ∷ selecting ∷ log)
            × (n ≡ reading.answer.ret)
            × (b ≡ reading.answer.memory)
            × (negative selecting.answer.ret ≡ false)
            × (selecting.answer.is_set ≡ true))
          ⊎ ((log' ≡ selecting ∷ log)
              × (n ≡ pos 0)
              × (b ≡ buf)
              × ((selecting.answer.is_set ≡ false) ⊎ (selecting.answer.errno ≡ 4))))
  ReadEnded (exits message log') =
      ((message ≡ "select()")
        × (log' ≡ selecting ∷ log)
        × (negative selecting.answer.ret ≡ true)
        × (selecting.answer.errno ≢ 4))
      ⊎ ((message ≡ "tap_read")
          × (log' ≡ reading ∷ selecting ∷ log)
          × (negative reading.answer.ret ≡ true))
  ReadEnded (spinning log') = ⊥

  pub tap_read-Ended : ReadEnded (tap_read tap_fd buf buf_size k log)
  unfolding tap_read read_ready perror_exit
  tap_read-Ended = elim (Bool-cases (negative selecting.answer.ret)) [
    | inl failed_wait ↦ rw failed_wait (elim (Bool-cases (selecting.answer.errno == 4)) [
      | inl interrupted ↦
          rw interrupted (refl, inr (refl, refl, refl, inr ((==_iff _ _).0 interrupted)))
      | inr broken ↦ rw broken (inl (refl, refl, failed_wait, λ same. ground (arith)))
    ])
    | inr waited ↦ rw waited (elim (Bool-cases selecting.answer.is_set) [
      | inl ready ↦ simp ready (elim (Bool-cases (negative reading.answer.ret)) [
        | inl broken ↦ rw broken (inr (refl, refl, broken))
        | inr fine ↦ rw fine (fine, inl (refl, refl, refl, waited, ready))
      ])
      | inr idle ↦ simp idle (refl, inr (refl, refl, refl, inl refl))
    ])
  ]
