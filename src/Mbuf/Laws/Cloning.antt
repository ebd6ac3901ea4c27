-- ===== src/Mbuf/Laws/Cloning.antt =====
-- The loop of `rte_pktmbuf_clone` over a packet of direct segments.
use dpdk_cr.Common.{
  ℕ, zero, suc, ◌+◌, ◌<◌, ◌≡◌, sym, ap, ◌∙◌, subst, ◌==◌, true, false, some, List, [], ◌∷◌, length,
  u16, add16, arith,
}
use dpdk_cr.Mbuf.Heap.{Heap}
use dpdk_cr.Mbuf.Free.{is_indirect}
use dpdk_cr.Mbuf.Clone.{Cloning, clone_segs}
use dpdk_cr.Mbuf.Laws.Packet.{mem, Segments, Segments-pointer}
use dpdk_cr.Mbuf.Laws.Chained.{within}
use dpdk_cr.Mbuf.Laws.Clones.{Fresh, within-tail, Fresh-tail, Segments-same}
use dpdk_cr.Mbuf.Laws.Rounds.{Looped, last_cloning, last-Looped, last_ends}
use dpdk_cr.Mbuf.Laws.NextRound.{next_heap, next-within, next_round, runs_on}

module _ (pktmbuf_headroom : ℕ) where
  -- The loop over a packet of direct segments, where the pool gives enough fresh mbufs.
  pub clone_segs-Looped :
      (fuel : ℕ) (h : Heap) (cs : List ℕ) (prev mi md nseg : ℕ) (ss : List ℕ) (l : ℕ)
      → Segments h md ss l
      → ((a : ℕ) → within a ss l ≡ true → is_indirect (h a) ≡ false)
      → Fresh (mi ∷ cs) ss l
      → within prev ss l ≡ false
      → mem prev cs ≡ false
      → length ss < fuel
      → length ss < length cs + 1
      → nseg + length ss + 1 < u16
      → (r : Cloning) × (clone_segs pktmbuf_headroom fuel h cs prev mi md nseg ≡ some r)
        × Looped h prev mi cs ss l nseg r
  unfolding Segments Fresh within mem
  clone_segs-Looped zero h cs prev mi md nseg ss l s direct fresh p_out p_new enough pool few =
      absurd (omega arith)
  clone_segs-Looped (suc fuel) h cs prev mi md nseg [] l (live, at, end, fits) direct fresh p_out
        p_new enough pool few =
      subst
        (λ m.
          (r : Cloning) × (clone_segs pktmbuf_headroom (suc fuel) h cs prev mi m nseg ≡ some r)
          × Looped h prev mi cs [] l nseg r)
        (sym at)
        (let l_direct : is_indirect (h l) ≡ false = direct l (ground arith) in
          let two : (mi == l) ≡ false = ground arith in
          let behind : (prev == l) ≡ false = ground arith in
          let more : nseg + 1 < u16 = omega arith in
          (
            last_cloning pktmbuf_headroom h cs prev mi nseg l l_direct two behind more,
            last_ends pktmbuf_headroom h cs prev mi nseg l l_direct two behind more fuel end,
            last-Looped pktmbuf_headroom h cs prev mi nseg l l_direct two behind more,
          ))
  clone_segs-Looped (suc fuel) h [] prev mi md nseg (a ∷ ss) l s direct fresh p_out p_new enough
        pool few =
      absurd (omega arith)
  clone_segs-Looped (suc fuel) h (c ∷ cs) prev mi md nseg (a ∷ ss) l
        (live, at, other, once, fits, rest) direct fresh p_out p_new enough pool few =
      subst
        (λ m.
          (r : Cloning) × (clone_segs pktmbuf_headroom (suc fuel) h (c ∷ cs) prev mi m nseg
            ≡ some r)
          × Looped h prev mi (c ∷ cs) (a ∷ ss) l nseg r)
        (sym at)
        (let a_direct : is_indirect (h a) ≡ false = direct a (ground arith) in
          let a_once : within a ss l ≡ false = ground arith in
          let same : (x : ℕ)
              → within x ss l ≡ true
              → next_heap pktmbuf_headroom h c prev mi a x ≡ h x =
            next-within pktmbuf_headroom h c cs prev mi nseg a ss l a_direct fresh p_out p_new
              a_once in
          let (r, ran, looped) =
            clone_segs-Looped fuel (next_heap pktmbuf_headroom h c prev mi a) cs mi c ((h a).next)
              (add16 nseg 1) ss l (Segments-same h _ ((h a).next) ss l same rest)
              (λ x here. ap is_indirect (same x here) ∙ direct x (ground arith))
              (Fresh-tail (c ∷ cs) a ss l fresh.3) (within-tail mi a ss l fresh.2) (ground arith)
              (omega arith) (omega arith) (omega arith) in
          (
            r,
            runs_on pktmbuf_headroom h c cs prev mi nseg a ss l a_direct fresh p_out p_new a_once
                fuel r (Segments-pointer h ((h a).next) ss l rest) ran,
            next_round pktmbuf_headroom h c cs prev mi nseg a ss l a_direct fresh p_out p_new a_once
                r few looped,
          ))
