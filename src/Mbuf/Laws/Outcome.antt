-- ===== src/Mbuf/Laws/Outcome.antt =====
-- The mbufs behind the loop of `rte_pktmbuf_clone` and the stores that follow it.
use dpdk_cr.Common.{
  add16, test-sym, ℕ, ◌≡◌, refl, ap, ◌∙◌, ◌==◌, true, false, Bool-cases, inl, inr, if◌then◌else◌,
  List, ◌∷◌, arith,
}
use dpdk_cr.Mbuf.Heap.{Mbuf, Heap, null}
use dpdk_cr.Mbuf.Alloc.{reset}
use dpdk_cr.Mbuf.Free.{Env, State}
use dpdk_cr.Mbuf.Clone.{Cloning}
use dpdk_cr.Mbuf.Laws.Packet.{mem}
use dpdk_cr.Mbuf.Laws.Chained.{within, outside}
use dpdk_cr.Mbuf.Laws.Linking.{IsClone, referenced}
use dpdk_cr.Mbuf.Laws.Clones.{Fresh, Fresh-apart, Clones, Clones-same, last_clone}
use dpdk_cr.Mbuf.Laws.Rounds.{Looped, reset-other, reset-kept}
use dpdk_cr.Mbuf.Laws.Headed.{
  last_clone-mem, mem-head, apart, headed, headed-next, headed-IsClone, headed-other, headed-kept,
  clone-Clones,
}

module _ (env : Env) (s : State) (md : ℕ) (ss : List ℕ) (l c : ℕ) (cs : List ℕ)
    (fresh : Fresh (c ∷ cs) ss l) where
  unfoldable pub first_heap : Heap
  first_heap = reset env.pktmbuf_headroom s.heap c

  pub first-within : (a : ℕ) → within a ss l ≡ true → first_heap a ≡ s.heap a
  unfolding first_heap Fresh
  first-within a here =
      reset-other env.pktmbuf_headroom s.heap c a (test-sym c a (outside c a ss l fresh.2 here))

  pub c_out : within c ss l ≡ false
  unfolding Fresh
  c_out = fresh.2

  pub c_new : mem c cs ≡ false
  unfolding Fresh
  c_new = fresh.1

  -- the mbufs behind the loop, and behind the stores that follow it
  module _ (r : Cloning) (looped : Looped first_heap c c cs ss l 0 r) where
    unfoldable pub result : Heap
    result = headed r.heap r.last c r.nseg (first_heap md).pkt_len

    pub made : Clones s.heap r.heap c cs ss l
    made = Clones-same s.heap first_heap r.heap c cs ss l first-within looped.clones

    pub links :
        (x : ℕ) → (result x).next ≡ (if x == last_clone c cs ss then null else (r.heap x).next)
    unfolding result
    links x =
        headed-next r.heap r.last c r.nseg (first_heap md).pkt_len x
        ∙ ap (λ y. if x == y then null else (r.heap x).next) looped.behind

    pub keeps : (x : ℕ) (y : Mbuf) → IsClone (r.heap x) y → IsClone (result x) y
    unfolding result
    keeps = headed-IsClone r.heap r.last c r.nseg (first_heap md).pkt_len

    stays : (x : ℕ) → mem x (c ∷ cs) ≡ false → result x ≡ r.heap x
    unfolding result mem
    stays x out =
        headed-other r.heap r.last c r.nseg (first_heap md).pkt_len x
          (ap (λ y. x == y) looped.behind
            ∙ apart x (last_clone c cs ss) (c ∷ cs) out (last_clone-mem c cs ss))
          (mem-head x c cs out)

    pub result-Clones : Clones s.heap result c cs ss l
    result-Clones =
        clone-Clones s.heap r.heap result (last_clone c cs ss) links keeps c cs ss l refl made fresh

    pub result-others :
        (a : ℕ)
        → result a ≡ (
            if within a ss l
            then referenced (s.heap a)
            else if mem a (c ∷ cs)
            then result a
            else s.heap a)
    unfolding first_heap
    result-others a = elim (Bool-cases (within a ss l)) [
      | inl here ↦ rw here (
          stays a (Fresh-apart (c ∷ cs) ss l a here fresh)
          ∙ looped.counted a here
          ∙ ap referenced (first-within a here))
      | inr out ↦ rw out (elim (Bool-cases (mem a (c ∷ cs))) [
        | inl new ↦ rw new refl
        | inr old ↦ rw old (
            stays a old
            ∙ looped.others a (mem-head a c cs old) old out
            ∙ reset-other env.pktmbuf_headroom s.heap c a (mem-head a c cs old))
      ])
    ]

    result-headed :
        (a : ℕ) → ((result a).refcnt ≡ (r.heap a).refcnt) × ((result a).pool ≡ (r.heap a).pool)
    unfolding result
    result-headed a = headed-kept r.heap r.last c r.nseg (first_heap md).pkt_len a

    pub result-kept :
        (a : ℕ)
        → ((result a).refcnt
            ≡ (if within a ss l then add16 (s.heap a).refcnt 1 else (s.heap a).refcnt))
          × ((result a).pool ≡ (s.heap a).pool)
    unfolding first_heap
    result-kept a = elim (Bool-cases (within a ss l)) [
      | inl here ↦
          let same : result a ≡ referenced (s.heap a) = result-others a ∙ rw here refl in
          rw here (ap (λ (x : Mbuf). x.refcnt) same, ap (λ (x : Mbuf). x.pool) same)
      | inr out ↦
          let (count, pool) = result-headed a in
          let (count₁, pool₁) = looped.kept a out in
          let (count₂, pool₂) = reset-kept env.pktmbuf_headroom s.heap c a in
          rw out (count ∙ count₁ ∙ count₂, pool ∙ pool₁ ∙ pool₂)
    ]

    pub result-end : (result (last_clone c cs ss)).next ≡ null
    result-end = links (last_clone c cs ss) ∙ ground arith
