-- ===== src/Mbuf/Laws/NextRound.antt =====
-- A round of the loop of `rte_pktmbuf_clone` that another follows.
use dpdk_cr.Common.{
  test-sym, ℕ, suc, ◌+◌, ◌<◌, ◌≡◌, sym, ap, ◌∙◌, subst, ==_iff, ◌==◌, true, false, Bool-cases, inl,
  inr, some, List, ◌∷◌, length, u16, add16, arith,
}
use dpdk_cr.Mbuf.Heap.{Mbuf, Heap, null}
use dpdk_cr.Mbuf.Alloc.{reset, alloc}
use dpdk_cr.Mbuf.Free.{is_indirect}
use dpdk_cr.Mbuf.Clone.{Cloning, link, clone_segs}
use dpdk_cr.Mbuf.Laws.Packet.{mem}
use dpdk_cr.Mbuf.Laws.Chained.{within, outside}
use dpdk_cr.Mbuf.Laws.Clones.{
  Fresh, within-tail, within-head, Fresh-apart, Clones, last_clone, Clones-same,
}
use dpdk_cr.Mbuf.Laws.Linking.{
  IsClone, IsClone-next, referenced, link-kept, link-md, link-mi, link-prev, link-other,
}
use dpdk_cr.Mbuf.Laws.Rounds.{Looped, reset-other, reset-kept}

module _ (pktmbuf_headroom : ℕ) where
  -- the mbufs behind a round that goes on with the fresh mbuf `c`
  unfoldable pub next_heap : Heap → (c prev mi a : ℕ) → Heap
  next_heap h c prev mi a = reset pktmbuf_headroom (link h prev mi a) c

  -- A round that goes on with the fresh mbuf `c`, and what the rounds after it have made.
  module _ (h : Heap) (c : ℕ) (cs : List ℕ) (prev mi nseg a : ℕ) (ss : List ℕ) (l : ℕ)
      (direct : is_indirect (h a) ≡ false) (fresh : Fresh (mi ∷ c ∷ cs) (a ∷ ss) l)
      (p_out : within prev (a ∷ ss) l ≡ false) (p_new : mem prev (c ∷ cs) ≡ false)
      (once : within a ss l ≡ false) where
    two : (mi == a) ≡ false
    unfolding Fresh
    two = within-head mi a ss l fresh.2

    behind : (prev == a) ≡ false
    behind = within-head prev a ss l p_out

    c_fresh : (a == c) ≡ false
    unfolding Fresh
    c_fresh = test-sym c a (within-head c a ss l fresh.3.2)

    next-a : (next_heap h c prev mi a) a ≡ referenced (h a)
    unfolding next_heap
    next-a =
        reset-other pktmbuf_headroom (link h prev mi a) c a c_fresh
        ∙ link-md h prev mi a two behind direct

    next-mi : IsClone ((next_heap h c prev mi a) mi) (h a)
    unfolding next_heap Fresh within mem
    next-mi =
        subst (λ x. IsClone x (h a))
          (sym (reset-other pktmbuf_headroom (link h prev mi a) c mi (ground arith)))
          (link-mi h prev mi a two behind direct)

    next-prev :
        (prev == mi) ≡ false → (next_heap h c prev mi a) prev ≡ record (h prev) { next = mi }
    unfolding next_heap Fresh within mem
    next-prev other =
        reset-other pktmbuf_headroom (link h prev mi a) c prev (ground arith)
        ∙ link-prev h prev mi a two behind direct other

    next-other :
        (x : ℕ)
        → (x == prev) ≡ false
        → mem x (mi ∷ c ∷ cs) ≡ false
        → within x (a ∷ ss) l ≡ false
        → (next_heap h c prev mi a) x ≡ h x
    unfolding next_heap Fresh within mem
    next-other x not_prev new out =
        reset-other pktmbuf_headroom (link h prev mi a) c x (ground arith)
        ∙ link-other h prev mi a two behind direct x not_prev (ground arith) (ground arith)

    next-kept :
        (x : ℕ)
        → (x == a) ≡ false
        → (((next_heap h c prev mi a) x).refcnt ≡ (h x).refcnt)
          × (((next_heap h c prev mi a) x).pool ≡ (h x).pool)
    unfolding next_heap
    next-kept x other =
        let (count, pool) = link-kept h prev mi a two behind direct x other in
        let (count', pool') = reset-kept pktmbuf_headroom (link h prev mi a) c x in
        (count' ∙ count, pool' ∙ pool)

    pub next-within : (x : ℕ) → within x ss l ≡ true → (next_heap h c prev mi a) x ≡ h x
    unfolding next_heap Fresh within mem
    next-within x here =
        reset-other pktmbuf_headroom (link h prev mi a) c x
          (test-sym c x (outside c x ss l (within-tail c a ss l fresh.3.2) here))
        ∙ link-other h prev mi a two behind direct x
            (test-sym prev x (outside prev x ss l (within-tail prev a ss l p_out) here))
            (test-sym mi x (outside mi x ss l (within-tail mi a ss l fresh.2) here))
            (test-sym a x (outside a x ss l once here))

    pub next_round :
        (r : Cloning)
        → nseg + length (a ∷ ss) + 1 < u16
        → Looped (next_heap h c prev mi a) mi c cs ss l (add16 nseg 1) r
        → Looped h prev mi (c ∷ cs) (a ∷ ss) l nseg r
    unfolding Clones last_clone Fresh within mem
    next_round r few looped =
        let mi_c : (mi == c) ≡ false = ground arith in
        let linked : r.heap mi ≡ record ((next_heap h c prev mi a) mi) { next = c } =
          looped.before mi_c in
        let a_new : mem a (c ∷ cs) ≡ false =
          Fresh-apart (c ∷ cs) (a ∷ ss) l a (ground arith) fresh.3 in
        record {
          clones = (
            subst (λ x. IsClone x (h a)) (sym linked)
                (IsClone-next ((next_heap h c prev mi a) mi) (h a) c next-mi),
            ap (λ (x : Mbuf). x.next) linked,
            Clones-same h (next_heap h c prev mi a) r.heap c cs ss l next-within looped.clones,
          );
          counted = λ x here. elim (Bool-cases (x == a)) [
            | inl at ↦
                let same : x ≡ a = (==_iff x a).0 at in
                ap r.heap same
                ∙ looped.others a (test-sym mi a two) a_new once
                ∙ next-a
                ∙ ap (λ b. referenced (h b)) (sym same)
            | inr later ↦
                let in_rest : within x ss l ≡ true = ground arith in
                looped.counted x in_rest ∙ ap referenced (next-within x in_rest)
          ];
          before = λ other.
              looped.others prev other p_new (within-tail prev a ss l p_out) ∙ next-prev other;
          others = λ x not_prev new out.
              looped.others x (ground arith) (ground arith) (within-tail x a ss l out)
              ∙ next-other x not_prev new out;
          kept = λ x out.
              let (count, pool) = looped.kept x (within-tail x a ss l out) in
              let (count', pool') = next-kept x (within-head x a ss l out) in
              (count ∙ count', pool ∙ pool');
          got = looped.got;
          behind = looped.behind;
          count = looped.count ∙ omega arith;
        }

    pub runs_on :
        (fuel : ℕ) (r : Cloning)
        → ((h a).next == null) ≡ false
        → clone_segs pktmbuf_headroom fuel
            (next_heap h c prev mi a)
            cs
            mi
            c
            ((h a).next)
            (add16 nseg 1)
          ≡ some r
        → clone_segs pktmbuf_headroom (suc fuel) h (c ∷ cs) prev mi a nseg ≡ some r
    unfolding clone_segs alloc next_heap Fresh
    runs_on fuel r goes_on ran =
        let link_next : (link h prev mi a a).next ≡ (h a).next =
          ap (λ (x : Mbuf). x.next) (link-md h prev mi a two behind direct) in
        rw (link_next, goes_on, fresh.3.0) ran
