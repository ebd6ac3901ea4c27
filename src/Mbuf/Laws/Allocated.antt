-- ===== src/Mbuf/Laws/Allocated.antt =====
-- The unrolled loop of `rte_pktmbuf_alloc_bulk` resets every mbuf, and each is then an empty packet.
use dpdk_cr.Common.{
  ℕ, zero, suc, ◌+◌, ◌*◌, ◌/◌, ◌%◌, ◌≤◌, ◌<◌, ◌≡◌, refl, sym, ap, ap₂, ◌∙◌, subst, ==_iff, ◌==◌,
  true, false, Bool-cases, inl, inr, some, [], u16, store, Table, ℤ, arith,
}
use dpdk_cr.Mbuf.Heap.{Mbuf, Heap, null}
use dpdk_cr.Mbuf.Alloc.{reset_headroom, reset, reset_some, reset_rounds, alloc_bulk}
use dpdk_cr.Mbuf.Laws.Packet.{Segments, total, IsPacket}

-- What a reset leaves: one empty segment.
pub record IsReset (x : Mbuf) : Type 0 where
  pub unlinked : x.next ≡ null
  pub alone : x.nb_segs ≡ 1
  pub no_bytes : x.pkt_len ≡ 0
  pub no_data : x.data_len ≡ 0
  pub inside : x.data_off ≤ x.buf_len
  pub small : x.buf_len < u16

module _ (pktmbuf_headroom : ℕ) where
  reset-other : (h : Heap) (m a : ℕ) → (a == m) ≡ false → reset pktmbuf_headroom h m a ≡ h a
  unfolding reset store
  reset-other h m a other = rw other refl

  reset-buf_len : (h : Heap) (m a : ℕ) → (reset pktmbuf_headroom h m a).buf_len ≡ (h a).buf_len
  unfolding reset store reset_headroom
  reset-buf_len h m a = ground arith

  reset-IsReset : (h : Heap) (m : ℕ) → (h m).buf_len < u16 → IsReset (reset pktmbuf_headroom h m m)
  unfolding reset store reset_headroom
  reset-IsReset h m small = record {
    unlinked = ground arith;
    alone = ground arith;
    no_bytes = ground arith;
    no_data = ground arith;
    inside = ground arith;
    small = ground arith;
  }

  reset-keeps : (h : Heap) (m a : ℕ) → IsReset (h a) → IsReset (reset pktmbuf_headroom h m a)
  reset-keeps h m a done = elim (Bool-cases (a == m)) [
    | inl at ↦
        let same : a ≡ m = (==_iff a m).0 at in
        subst (λ b. IsReset (reset pktmbuf_headroom h m b)) (sym same)
          (reset-IsReset h m (subst (λ b. (h b).buf_len < u16) same done.small))
    | inr other ↦ subst IsReset (sym (reset-other h m a other)) done
  ]

  reset_some-keeps :
      (k : ℕ) (mbufs : Table ℕ) (idx : ℕ) (h : Heap) (a : ℕ)
      → IsReset (h a)
      → IsReset (reset_some pktmbuf_headroom k mbufs idx h a)
  unfolding reset_some
  reset_some-keeps zero mbufs idx h a done = done
  reset_some-keeps (suc k) mbufs idx h a done =
      reset_some-keeps k mbufs (idx + 1) (reset pktmbuf_headroom h (mbufs idx)) a
        (reset-keeps h (mbufs idx) a done)

  reset_some-IsReset :
      (k : ℕ) (mbufs : Table ℕ) (idx : ℕ) (h : Heap) (i : ℕ)
      → idx ≤ i
      → i < idx + k
      → (h (mbufs i)).buf_len < u16
      → IsReset (reset_some pktmbuf_headroom k mbufs idx h (mbufs i))
  unfolding reset_some
  reset_some-IsReset zero mbufs idx h i le lt small = absurd (omega arith)
  reset_some-IsReset (suc k) mbufs idx h i le lt small = elim (Bool-cases (i == idx)) [
    | inl now ↦
        reset_some-keeps k mbufs (idx + 1) (reset pktmbuf_headroom h (mbufs idx)) (mbufs i) (
          subst (λ j. IsReset (reset pktmbuf_headroom h (mbufs idx) (mbufs j)))
            (sym ((==_iff i idx).0 now))
            (reset-IsReset h (mbufs idx)
              (subst (λ j. (h (mbufs j)).buf_len < u16) ((==_iff i idx).0 now) small)))
    | inr later ↦
        reset_some-IsReset k mbufs (idx + 1) (reset pktmbuf_headroom h (mbufs idx)) i (ground arith)
          (omega arith) (rw (reset-buf_len h (mbufs idx) (mbufs i)) small)
  ]

  reset_some-add :
      (j k : ℕ) (mbufs : Table ℕ) (idx : ℕ) (h : Heap)
      → reset_some pktmbuf_headroom (j + k) mbufs idx h
        ≡ reset_some pktmbuf_headroom k mbufs (idx + j) (reset_some pktmbuf_headroom j mbufs idx h)
  unfolding reset_some
  reset_some-add zero k mbufs idx h =
      ap₂ (λ (n i : ℕ). reset_some pktmbuf_headroom n mbufs i h) {x = zero + k} {y = k} {u = idx}
        {v = idx + zero} (omega arith) (omega arith)
  reset_some-add (suc j) k mbufs idx h =
      ap (λ (n : ℕ). reset_some pktmbuf_headroom n mbufs idx h) {x = suc j + k} {y = suc (j + k)}
        (omega arith)
      ∙ reset_some-add j k mbufs (idx + 1) (reset pktmbuf_headroom h (mbufs idx))
      ∙ ap
          (λ (i : ℕ).
            reset_some pktmbuf_headroom k mbufs i (
              reset_some pktmbuf_headroom j mbufs (idx + 1) (reset pktmbuf_headroom h (mbufs idx))))
          (omega arith)

  reset_some-none :
      (mbufs : Table ℕ) (idx : ℕ) (h : Heap) → reset_some pktmbuf_headroom 0 mbufs idx h ≡ h
  unfolding reset_some
  reset_some-none mbufs idx h = refl

  -- the loop, with `q` rounds to go
  reset_rounds-some :
      (fuel q : ℕ) (mbufs : Table ℕ) (count idx : ℕ) (h : Heap)
      → q < fuel
      → idx + q * 4 ≡ count
      → reset_rounds pktmbuf_headroom fuel mbufs count idx h
        ≡ some (reset_some pktmbuf_headroom (q * 4) mbufs idx h)
  unfolding reset_rounds
  reset_rounds-some zero q mbufs count idx h enough end = absurd (omega arith)
  reset_rounds-some (suc fuel) zero mbufs count idx h enough end =
      let at : (idx == count) ≡ true = ground arith in
      rw at (ap some (sym (reset_some-none mbufs idx h)))
  reset_rounds-some (suc fuel) (suc q) mbufs count idx h enough end =
      let ahead : (idx == count) ≡ false = ground arith in
      rw ahead (
        reset_rounds-some fuel q mbufs count (idx + 4) (reset_some pktmbuf_headroom 4 mbufs idx h)
          (omega arith) (omega arith)
        ∙ ap some (
            sym (reset_some-add 4 (q * 4) mbufs idx h)
            ∙ ap (λ (n : ℕ). reset_some pktmbuf_headroom n mbufs idx h) (omega arith)))

  -- Allocating in bulk ends, given more rounds than a fourth of the mbufs, which are not NULL and have
  -- buffers shorter than 2 ^ 16. The unrolled loop resets the
  -- mbufs one after the other, each exactly once, and each of them is an empty packet of one segment.
  pub alloc_bulk_lem :
      (fuel : ℕ) (mbufs : Table ℕ) (count : ℕ) (h : Heap) (i : ℕ)
      → count < fuel * 4
      → i < count
      → (mbufs i == null) ≡ false
      → (h (mbufs i)).buf_len < u16
      → (h' : Heap) × (alloc_bulk pktmbuf_headroom fuel (ℤ.pos 0) mbufs count h
          ≡ some (ℤ.pos 0, h'))
        × (h' ≡ reset_some pktmbuf_headroom count mbufs 0 h)
        × IsPacket h' (mbufs i) [] (mbufs i)
        × (total h' [] (mbufs i) ≡ 0)
  unfolding alloc_bulk Segments total
  alloc_bulk_lem fuel mbufs count h i enough lt some_mbuf small =
      let r = reset_some-IsReset count mbufs 0 h i (omega arith) (omega arith) small in
      (
        reset_some pktmbuf_headroom count mbufs 0 h,
        rw
            (reset_rounds-some fuel (count / 4) mbufs count (count % 4)
              (reset_some pktmbuf_headroom (count % 4) mbufs 0 h) (omega arith) (omega arith))
            (ap (λ t. some (ℤ.pos 0, t))
              (ap
                  (λ (n : ℕ).
                    reset_some pktmbuf_headroom (count / 4 * 4) mbufs n
                      (reset_some pktmbuf_headroom (count % 4) mbufs 0 h))
                  {y = 0 + count % 4} (omega arith)
                ∙ sym (reset_some-add (count % 4) (count / 4 * 4) mbufs 0 h)
                ∙ ap (λ (n : ℕ). reset_some pktmbuf_headroom n mbufs 0 h) (omega arith))),
        refl,
        record {
          segments = (some_mbuf, refl, r.unlinked, (omega (arith, r.inside, r.no_data), r.small));
          count = r.alone ∙ omega arith;
          few = omega arith;
          bytes = r.no_bytes ∙ omega (arith, r.no_data);
        },
        r.no_data,
      )
