-- ===== src/Mbuf/Laws/Short.antt =====
-- The loop of `rte_pktmbuf_clone` when the pool runs empty: the segments before are cloned.
use dpdk_cr.Common.{
  ℕ, zero, suc, ◌+◌, ◌<◌, ◌≤◌, ◌≡◌, sym, ap, ◌∙◌, subst, ◌==◌, true, false, some, List, [], ◌∷◌,
  length, u16, add16, arith,
}
use dpdk_cr.Mbuf.Heap.{Heap, null}
use dpdk_cr.Mbuf.Free.{is_indirect}
use dpdk_cr.Mbuf.Clone.{Cloning, clone_segs}
use dpdk_cr.Mbuf.Laws.Packet.{mem, Segments, Segments-pointer}
use dpdk_cr.Mbuf.Laws.Chained.{within}
use dpdk_cr.Mbuf.Laws.Clones.{Fresh, within-tail, Fresh-tail, Segments-same}
use dpdk_cr.Mbuf.Laws.Rounds.{Looped, last_cloning, last-Looped, pool_ends}
use dpdk_cr.Mbuf.Laws.NextRound.{next_heap, next-within, next_round, runs_on}

-- the segments for which there are clones, one more than mbufs in the pool: all but the last of them,
-- and the last
unfoldable pub prefix : List ℕ → List ℕ → List ℕ
prefix cs [] = []
prefix [] (a ∷ ss) = []
prefix (c ∷ cs) (a ∷ ss) = a ∷ prefix cs ss

unfoldable pub prefix_last : List ℕ → List ℕ → ℕ → ℕ
prefix_last cs [] l = l
prefix_last [] (a ∷ ss) l = a
prefix_last (c ∷ cs) (a ∷ ss) l = prefix_last cs ss l

pub length-prefix : (cs ss : List ℕ) → length (prefix cs ss) ≤ length cs
unfolding prefix
length-prefix cs [] = omega arith
length-prefix [] (a ∷ ss) = omega arith
length-prefix (c ∷ cs) (a ∷ ss) = omega (arith, length-prefix cs ss)

pub length-prefix-le : (cs ss : List ℕ) → length (prefix cs ss) ≤ length ss
unfolding prefix
length-prefix-le cs [] = omega arith
length-prefix-le [] (a ∷ ss) = omega arith
length-prefix-le (c ∷ cs) (a ∷ ss) = omega (arith, length-prefix-le cs ss)

pub within-prefix :
    (x : ℕ) (cs ss : List ℕ) (l : ℕ)
    → within x ss l ≡ false
    → within x (prefix cs ss) (prefix_last cs ss l) ≡ false
unfolding prefix prefix_last within mem
within-prefix x cs [] l out = out
within-prefix x [] (a ∷ ss) l out = ground arith
within-prefix x (c ∷ cs) (a ∷ ss) l out = ground (arith, within-prefix x cs ss l)

pub Fresh-prefix :
    (xs cs ss : List ℕ) (l : ℕ) → Fresh xs ss l → Fresh xs (prefix cs ss) (prefix_last cs ss l)
unfolding Fresh
Fresh-prefix [] cs ss l fresh = tt
Fresh-prefix (x ∷ xs) cs ss l (live, once, out, rest) =
    (live, once, within-prefix x cs ss l out, Fresh-prefix xs cs ss l rest)

module _ (pktmbuf_headroom : ℕ) where
  pub clone_segs-short :
      (fuel : ℕ) (h : Heap) (cs : List ℕ) (prev mi md nseg : ℕ) (ss : List ℕ) (l : ℕ)
      → Segments h md ss l
      → ((a : ℕ) → within a ss l ≡ true → is_indirect (h a) ≡ false)
      → Fresh (mi ∷ cs) ss l
      → within prev ss l ≡ false
      → mem prev cs ≡ false
      → length cs < fuel
      → length cs < length ss
      → nseg + length ss + 1 < u16
      → (r : Cloning) × (clone_segs pktmbuf_headroom fuel h cs prev mi md nseg
          ≡ some (record r { mi = null }))
        × Looped h prev mi cs (prefix cs ss) (prefix_last cs ss l) nseg r
  unfolding Segments Fresh within mem prefix prefix_last
  clone_segs-short zero h cs prev mi md nseg ss l s direct fresh p_out p_new enough short few =
      absurd (omega arith)
  clone_segs-short (suc fuel) h cs prev mi md nseg [] l s direct fresh p_out p_new enough short
        few =
      absurd (omega arith)
  clone_segs-short (suc fuel) h [] prev mi md nseg (a ∷ ss) l (live, at, other, once, fits, rest)
        direct fresh p_out p_new enough short few =
      subst
        (λ m.
          (r : Cloning) × (clone_segs pktmbuf_headroom (suc fuel) h [] prev mi m nseg
            ≡ some (record r { mi = null }))
          × Looped h prev mi [] [] a nseg r)
        (sym at)
        (let a_direct : is_indirect (h a) ≡ false = direct a (ground arith) in
          let two : (mi == a) ≡ false = ground arith in
          let behind : (prev == a) ≡ false = ground arith in
          let more : nseg + 1 < u16 = omega arith in
          (
            last_cloning pktmbuf_headroom h [] prev mi nseg a a_direct two behind more,
            pool_ends pktmbuf_headroom h [] prev mi nseg a a_direct two behind more fuel
                (Segments-pointer h ((h a).next) ss l rest),
            last-Looped pktmbuf_headroom h [] prev mi nseg a a_direct two behind more,
          ))
  clone_segs-short (suc fuel) h (c ∷ cs) prev mi md nseg (a ∷ ss) l
        (live, at, other, once, fits, rest) direct fresh p_out p_new enough short few =
      subst
        (λ m.
          (r : Cloning) × (clone_segs pktmbuf_headroom (suc fuel) h (c ∷ cs) prev mi m nseg
            ≡ some (record r { mi = null }))
          × Looped h prev mi (c ∷ cs) (a ∷ prefix cs ss) (prefix_last cs ss l) nseg r)
        (sym at)
        (let a_direct : is_indirect (h a) ≡ false = direct a (ground arith) in
          let a_once : within a ss l ≡ false = ground arith in
          let same : (x : ℕ)
              → within x ss l ≡ true
              → next_heap pktmbuf_headroom h c prev mi a x ≡ h x =
            next-within pktmbuf_headroom h c cs prev mi nseg a ss l a_direct fresh p_out p_new
              a_once in
          let (r, ran, looped) =
            clone_segs-short fuel (next_heap pktmbuf_headroom h c prev mi a) cs mi c ((h a).next)
              (add16 nseg 1) ss l (Segments-same h _ ((h a).next) ss l same rest)
              (λ x here. ap is_indirect (same x here) ∙ direct x (ground arith))
              (Fresh-tail (c ∷ cs) a ss l fresh.3) (within-tail mi a ss l fresh.2) (ground arith)
              (omega arith) (omega arith) (omega arith) in
          (
            r,
            runs_on pktmbuf_headroom h c cs prev mi nseg a ss l a_direct fresh p_out p_new a_once
                fuel (record r { mi = null }) (Segments-pointer h ((h a).next) ss l rest) ran,
            next_round pktmbuf_headroom h c cs prev mi nseg a (prefix cs ss) (prefix_last cs ss l)
                a_direct (Fresh-prefix (mi ∷ c ∷ cs) (c ∷ cs) (a ∷ ss) l fresh)
                (within-prefix prev (c ∷ cs) (a ∷ ss) l p_out) p_new
                (within-prefix a cs ss l a_once) r (omega (arith, length-prefix-le cs ss)) looped,
          ))
