-- ===== src/Mbuf/Laws/Attached.antt =====
-- Attaching an mbuf to the buffer of another and detaching it again.
use dpdk_cr.Common.{
  store-at, store-other, test-sym, List, ℕ, ◌+◌, ◌-◌, ◌<◌, ◌≡◌, refl, sym, ap, ◌∙◌, ==_iff, ◌==◌,
  false, Bool-cases, inl, inr, if◌then◌else◌, u16, add16, store, arith,
}
use dpdk_cr.Mbuf.Heap.{Mbuf, Heap}
use dpdk_cr.Mbuf.Refcnt.{refcnt_set, refcnt_update}
use dpdk_cr.Mbuf.Free.{Env, sizeof_mbuf, is_indirect, from_indirect, attach, own_buffer, detach}

update-at :
    (h : Heap) (m v : ℕ)
    → (refcnt_update h m v).1 m ≡ record (h m) { refcnt = add16 ((h m).refcnt) v }
unfolding refcnt_update refcnt_set
update-at h m v = store-at h m _

update-other : (h : Heap) (m v a : ℕ) → (a == m) ≡ false → (refcnt_update h m v).1 a ≡ h a
unfolding refcnt_update refcnt_set
update-other h m v a other = store-other h m a _ other

module _ (env : Env) (h : Heap) (mi m : ℕ) (two : (mi == m) ≡ false)
    (direct : is_indirect (h m) ≡ false)
    (own : (h m).buf_addr ≡ m + (sizeof_mbuf + (h m).priv_size)) (held : 0 < (h m).refcnt)
    (room : (h m).refcnt + 1 < u16) where
  attach-other : (a : ℕ) → (a == mi) ≡ false → (a == m) ≡ false → attach h mi m a ≡ h a
  unfolding attach
  attach-other a other out = rw direct (store-other _ mi a _ other ∙ update-other h m 1 a out)

  attach-m : attach h mi m m ≡ record (h m) { refcnt = (h m).refcnt + 1 }
  unfolding attach
  attach-m = rw direct (
      store-other _ mi m _ (test-sym mi m two)
      ∙ update-at h m 1
      ∙ ap (λ (r : ℕ). record (h m) { refcnt = r }) (omega arith))

  attach-owner : from_indirect (attach h mi m mi) ≡ m
  unfolding attach from_indirect
  attach-owner = rw (direct, store-at, update-at) (omega (arith, own))

  -- the mbufs when `mi` has its own buffer again, and the counter of `m` behind that
  abbrev own_again : Heap
  own_again = store (attach h mi m) mi (own_buffer env mi (attach h mi m mi))

  own_again-m : own_again m ≡ record (h m) { refcnt = (h m).refcnt + 1 }
  own_again-m = store-other (attach h mi m) mi m _ (test-sym mi m two) ∙ attach-m

  count-back : (refcnt_update own_again m (u16 - 1)).0 ≡ (h m).refcnt
  unfolding refcnt_update
  count-back = ap (λ (x : Mbuf). add16 (x.refcnt) (u16 - 1)) own_again-m ∙ omega arith

  detach-eq :
      (ps : List (ℕ × ℕ))
      → detach env (record { heap = attach h mi m; puts = ps }) mi
        ≡ record { heap = (refcnt_update own_again m (u16 - 1)).1; puts = ps }
  unfolding detach
  detach-eq ps =
      let used : ((h m).refcnt == 0) ≡ false = ground arith in
      rw (attach-owner, count-back, used) refl

  m-back : (refcnt_update own_again m (u16 - 1)).1 m ≡ h m
  m-back =
      update-at own_again m (u16 - 1)
      ∙ ap (λ (x : Mbuf). record x { refcnt = add16 (x.refcnt) (u16 - 1) }) own_again-m
      ∙ ap (λ (r : ℕ). record (h m) { refcnt = r }) {y = (h m).refcnt} (omega arith)

  rest :
      (a : ℕ)
      → (a == m) ≡ false
      → own_again a ≡ (if a == mi then own_buffer env mi (attach h mi m mi) else h a)
  rest a out = elim (Bool-cases (a == mi)) [
    | inl at ↦ rw at (ap own_again ((==_iff a mi).0 at) ∙ store-at (attach h mi m) mi _)
    | inr other ↦ rw other (store-other (attach h mi m) mi a _ other ∙ attach-other a other out)
  ]

  -- An mbuf is attached to a direct mbuf, which owns its buffer and whose counter is not 0 and has room.
  -- When it is detached again, it has its own buffer back; the mbuf that owns the buffer it was attached
  -- to has the counter it had before, so that nothing is freed, and no other mbuf has changed.
  detach-attach :
      (ps : List (ℕ × ℕ)) (a : ℕ)
      → let s = detach env (record { heap = attach h mi m; puts = ps }) mi in
        (s.puts ≡ ps) × (s.heap a ≡ (if a == mi then own_buffer env mi (attach h mi m mi) else h a))
  detach-attach ps a =
      let back : (refcnt_update own_again m (u16 - 1)).1 a
          ≡ (if a == mi then own_buffer env mi (attach h mi m mi) else h a) =
        elim (Bool-cases (a == m)) [
          | inl at ↦
              let same : a ≡ m = (==_iff a m).0 at in
              let apart : (a == mi) ≡ false = ap (λ b. b == mi) same ∙ test-sym mi m two in
              rw apart (ap (refcnt_update own_again m (u16 - 1)).1 same ∙ m-back ∙ ap h (sym same))
          | inr other ↦ update-other own_again m (u16 - 1) a other ∙ rest a other
        ] in
      rw (detach-eq ps) (refl, back)
