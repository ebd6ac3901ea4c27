-- ===== src/Mbuf/Laws/Rounds.antt =====
-- What the loop of `rte_pktmbuf_clone` leaves, and its last round.
use dpdk_cr.Common.{
  store, store-other, ℕ, suc, ◌+◌, ◌<◌, ◌≡◌, refl, sym, ap, ◌∙◌, ==_iff, ◌==◌, true, false, some,
  List, [], ◌∷◌, length, u16, add16, arith,
}
use dpdk_cr.Mbuf.Heap.{Mbuf, Heap, null}
use dpdk_cr.Mbuf.Alloc.{reset_headroom, reset, alloc}
use dpdk_cr.Mbuf.Free.{is_indirect}
use dpdk_cr.Mbuf.Clone.{Cloning, link, clone_segs}
use dpdk_cr.Mbuf.Laws.Packet.{mem}
use dpdk_cr.Mbuf.Laws.Chained.{within}
use dpdk_cr.Mbuf.Laws.Clones.{Clones, last_clone}
use dpdk_cr.Mbuf.Laws.Linking.{referenced, link-kept, link-md, link-mi, link-prev, link-other}

-- What the loop has made of the mbufs of `h`.
pub record Looped (h : Heap) (prev mi : ℕ) (cs ss : List ℕ) (l nseg : ℕ) (r : Cloning)
    : Type 0 where
  pub clones : Clones h r.heap mi cs ss l
  pub counted : (a : ℕ) → within a ss l ≡ true → r.heap a ≡ referenced (h a)
  pub before : (prev == mi) ≡ false → r.heap prev ≡ record (h prev) { next = mi }
  pub others :
      (a : ℕ)
      → (a == prev) ≡ false
      → mem a (mi ∷ cs) ≡ false
      → within a ss l ≡ false
      → r.heap a ≡ h a
  pub kept :
      (a : ℕ)
      → within a ss l ≡ false
      → ((r.heap a).refcnt ≡ (h a).refcnt) × ((r.heap a).pool ≡ (h a).pool)
  pub got : r.mi ≡ last_clone mi cs ss
  pub behind : r.last ≡ last_clone mi cs ss
  pub count : r.nseg ≡ nseg + length ss + 1

module _ (pktmbuf_headroom : ℕ) where
  pub reset-other : (h : Heap) (c a : ℕ) → (a == c) ≡ false → reset pktmbuf_headroom h c a ≡ h a
  unfolding reset
  reset-other h c a other = store-other h c a _ other

  pub reset-kept :
      (h : Heap) (c x : ℕ)
      → ((reset pktmbuf_headroom h c x).refcnt ≡ (h x).refcnt)
        × ((reset pktmbuf_headroom h c x).pool ≡ (h x).pool)
  unfolding reset reset_headroom store
  reset-kept h c x = ground arith

  -- the round of the last segment that is cloned
  module _ (h : Heap) (cs : List ℕ) (prev mi nseg l : ℕ) (direct : is_indirect (h l) ≡ false)
      (two : (mi == l) ≡ false) (behind : (prev == l) ≡ false) (few : nseg + 1 < u16) where
    abbrev pub last_cloning : Cloning
    last_cloning = record { heap = link h prev mi l; mi = mi; last = mi; nseg = add16 nseg 1 }

    pub last-Looped : Looped h prev mi cs [] l nseg last_cloning
    unfolding Clones last_clone within mem
    last-Looped = record {
      clones = link-mi h prev mi l two behind direct;
      counted = λ a w.
          let same : a ≡ l = (==_iff a l).0 (ground arith) in
          ap (link h prev mi l) same
          ∙ link-md h prev mi l two behind direct
          ∙ ap (λ b. referenced (h b)) (sym same);
      before = link-prev h prev mi l two behind direct;
      others =
          λ a p n o. link-other h prev mi l two behind direct a p (ground arith) (ground arith);
      kept = λ a o. link-kept h prev mi l two behind direct a (ground arith);
      got = refl;
      behind = refl;
      count = omega arith;
    }

    link-next : (link h prev mi l l).next ≡ (h l).next
    link-next = ap (λ (x : Mbuf). x.next) (link-md h prev mi l two behind direct)

    -- It ends the loop if it is the last of the packet, or if the pool is empty.
    pub last_ends :
        (fuel : ℕ)
        → (h l).next ≡ null
        → clone_segs pktmbuf_headroom (suc fuel) h cs prev mi l nseg ≡ some last_cloning
    unfolding clone_segs
    last_ends fuel end = rw (link-next ∙ end) refl

    pub pool_ends :
        (fuel : ℕ)
        → ((h l).next == null) ≡ false
        → clone_segs pktmbuf_headroom (suc fuel) h [] prev mi l nseg
          ≡ some (record last_cloning { mi = null })
    unfolding clone_segs alloc
    pool_ends fuel goes_on = rw (link-next, goes_on) refl
