-- ===== src/Mbuf/Laws/Cloned.antt =====
-- Cloning a packet whose segments are not attached to the buffers of others.
use dpdk_cr.Common.{
  zero, suc, Bool-cases, inl, inr, [], ◌++◌, add16, ℕ, ◌+◌, ◌%◌, u32, ◌<◌, ◌≡◌, refl, sym, ap, ◌∙◌,
  ◌==◌, true, false, if◌then◌else◌, some, List, ◌∷◌, length, arith,
}
use mathlib.Core.Bool.{true≢false}
use mathlib.Core.Option.{some-injective, Option}
use dpdk_cr.Mbuf.Heap.{Mbuf, Heap, null}
use dpdk_cr.Mbuf.Alloc.{reset, alloc}
use dpdk_cr.Mbuf.Free.{Env, State, is_indirect}
use dpdk_cr.Mbuf.Clone.{Cloning, link, clone_segs, clone}
use dpdk_cr.Mbuf.Laws.Packet.{mem, total, IsPacket}
use dpdk_cr.Mbuf.Laws.Chained.{within, within-first}
use dpdk_cr.Mbuf.Laws.Linking.{referenced}
use dpdk_cr.Mbuf.Laws.Clones.{Fresh, Clones, Segments-same, last_clone}
use dpdk_cr.Mbuf.Laws.Rounds.{Looped}
use dpdk_cr.Mbuf.Laws.Cloning.{clone_segs-Looped}
use dpdk_cr.Mbuf.Laws.Headed.{
  clone_list, length-clone_list, last_clone-mem, Fresh-live, ended, headed, headed-head,
  clone-Segments, clone-total,
}
use dpdk_cr.Mbuf.Laws.Outcome.{
  first_heap, first-within, c_out, c_new, result, made, links, keeps, result-Clones, result-others,
  result-kept,
}

not-stopped :
    (stopped r : Cloning)
    → Path (Option Cloning) (some stopped) (some r)
    → stopped.mi ≡ null
    → ¬ ((r.mi == null) ≡ false)
not-stopped stopped r same at live = true≢false (
    sym (ap (λ x. x == null) at)
    ∙ ap (λ (x : Cloning). x.mi == null) (some-injective stopped r same)
    ∙ live)

-- The mbufs of the pool that a clone does not need are not taken.
clone_segs-more :
    (headroom fuel : ℕ) (h : Heap) (cs more : List ℕ) (prev mi md nseg : ℕ) (r : Cloning)
    → clone_segs headroom fuel h cs prev mi md nseg ≡ some r
    → (r.mi == null) ≡ false
    → clone_segs headroom fuel h (cs ++ more) prev mi md nseg ≡ some r
unfolding clone_segs alloc
clone_segs-more headroom zero h cs more prev mi md nseg r ran live = ran
clone_segs-more headroom (suc fuel) h [] more prev mi md nseg r ran live =
    let linked = link h prev mi md in
    let stopped : Cloning = record { heap = linked; mi = null; last = mi; nseg = add16 nseg 1 } in
    elim (Bool-cases ((linked md).next == null)) [
      | inl last ↦ rw last (sym (rw last refl) ∙ ran)
      | inr goes_on ↦
          let stops : clone_segs headroom (suc fuel) h [] prev mi md nseg ≡ some stopped =
            rw goes_on refl in
          absurd (not-stopped stopped r (sym stops ∙ ran) refl live)
    ]
clone_segs-more headroom (suc fuel) h (c ∷ cs) more prev mi md nseg r ran live =
    let linked = link h prev mi md in
    let stopped : Cloning = record { heap = linked; mi = null; last = mi; nseg = add16 nseg 1 } in
    let rest =
      clone_segs headroom fuel (reset headroom linked c) cs mi c ((linked md).next)
        (add16 nseg 1) in
    elim (Bool-cases ((linked md).next == null)) [
      | inl last ↦ rw last (sym (rw last refl) ∙ ran)
      | inr goes_on ↦ elim (Bool-cases (c == null)) [
        | inl nothing ↦
            let stops : clone_segs headroom (suc fuel) h (c ∷ cs) prev mi md nseg ≡ some stopped =
              rw (goes_on, nothing) refl in
            absurd (not-stopped stopped r (sym stops ∙ ran) refl live)
        | inr fresh ↦
            let runs : clone_segs headroom (suc fuel) h (c ∷ cs) prev mi md nseg ≡ rest =
              rw (goes_on, fresh) refl in
            rw (goes_on, fresh)
              (clone_segs-more headroom fuel (reset headroom linked c) cs more mi c
                ((linked md).next) (add16 nseg 1) r (sym runs ∙ ran) live)
      ]
    ]

module _ (env : Env) (fuel : ℕ) (s : State) (md : ℕ) (ss : List ℕ) (l c : ℕ) (cs : List ℕ)
    (packet : IsPacket s.heap md ss l)
    (direct : (a : ℕ) → within a ss l ≡ true → is_indirect (s.heap a) ≡ false)
    (fresh : Fresh (c ∷ cs) ss l) where
  -- the mbufs behind the loop, and behind the stores
  abbrev first : Heap
  first = first_heap env s md ss l c cs fresh

  module _ (r : Cloning) (looped : Looped first c c cs ss l 0 r) where
    abbrev cloned : Heap
    cloned = result env s md ss l c cs fresh r looped

    first-md : (first md).pkt_len ≡ (s.heap md).pkt_len
    first-md =
        ap (λ (x : Mbuf). x.pkt_len)
          (first-within env s md ss l c cs fresh md (within-first s.heap md ss l packet.segments))

    copied : Clones s.heap r.heap c cs ss l
    copied = made env s md ss l c cs fresh r looped

    some_mi : (r.mi == null) ≡ false
    some_mi =
        ap (λ y. y == null) looped.got
        ∙ Fresh-live (c ∷ cs) ss l (last_clone c cs ss) (last_clone-mem c cs ss) fresh

    clone-runs :
        (pool : List ℕ)
        → clone_segs env.pktmbuf_headroom fuel first pool c c md 0 ≡ some r
        → clone env fuel (c ∷ pool) s md ≡ some (c, record s { heap = cloned })
    unfolding clone alloc Fresh first_heap result headed ended
    clone-runs pool ran = rw (fresh.0, ran, some_mi) refl

    result-total : total cloned (clone_list c cs ss) (last_clone c cs ss) ≡ total s.heap ss l
    result-total =
        clone-total s.heap r.heap cloned (last_clone c cs ss)
          (links env s md ss l c cs fresh r looped) (keeps env s md ss l c cs fresh r looped) c cs
          ss l refl copied

    result-IsPacket : IsPacket cloned c (clone_list c cs ss) (last_clone c cs ss)
    unfolding result
    result-IsPacket =
        let (nb, bytes) = headed-head r.heap r.last c r.nseg (first md).pkt_len in
        let many : length (clone_list c cs ss) ≡ length ss =
          length-clone_list s.heap r.heap c cs ss l copied in
        record {
          segments =
              clone-Segments s.heap r.heap cloned (last_clone c cs ss)
                (links env s md ss l c cs fresh r looped) (keeps env s md ss l c cs fresh r looped)
                c cs md ss l refl packet.segments copied fresh;
          count = nb ∙ looped.count ∙ omega (arith, many);
          few = omega (arith, many, packet.few);
          bytes = bytes ∙ first-md ∙ packet.bytes ∙ ap (λ (t : ℕ). t % u32) (sym result-total);
        }

  -- What cloning from the pool `c ∷ pool` returns, and what it leaves.
  abbrev pub ClonesFrom : List ℕ → Type 0
  ClonesFrom pool =
      (h' : Heap) × (clone env fuel (c ∷ pool) s md ≡ some (c, record s { heap = h' }))
      × IsPacket h' c (clone_list c cs ss) (last_clone c cs ss)
      × (total h' (clone_list c cs ss) (last_clone c cs ss) ≡ total s.heap ss l)
      × Clones s.heap h' c cs ss l
      × ((a : ℕ)
          → h' a ≡ (
              if within a ss l
              then referenced (s.heap a)
              else if mem a (c ∷ cs)
              then h' a
              else s.heap a))
      × ((a : ℕ)
          → ((h' a).refcnt
              ≡ (if within a ss l then add16 (s.heap a).refcnt 1 else (s.heap a).refcnt))
            × ((h' a).pool ≡ (s.heap a).pool))

  cloned_from :
      (pool : List ℕ)
      → length ss < fuel
      → length ss < length cs + 1
      → ((r : Cloning)
          → clone_segs env.pktmbuf_headroom fuel first cs c c md 0 ≡ some r
          → (r.mi == null) ≡ false
          → clone_segs env.pktmbuf_headroom fuel first pool c c md 0 ≡ some r)
      → ClonesFrom pool
  cloned_from pool enough many same =
      let (r, ran, looped) =
        clone_segs-Looped env.pktmbuf_headroom fuel first cs c c md 0 ss l
          (Segments-same s.heap first md ss l (first-within env s md ss l c cs fresh)
            packet.segments)
          (λ a here. ap is_indirect (first-within env s md ss l c cs fresh a here) ∙ direct a here)
          fresh (c_out env s md ss l c cs fresh) (c_new env s md ss l c cs fresh) enough many
          (omega (arith, packet.few)) in
      (
        cloned r looped,
        clone-runs r looped pool (same r ran (some_mi r looped)),
        result-IsPacket r looped,
        result-total r looped,
        result-Clones env s md ss l c cs fresh r looped,
        result-others env s md ss l c cs fresh r looped,
        result-kept env s md ss l c cs fresh r looped,
      )

  pub clone-pool : length ss < fuel → length ss < length cs + 1 → ClonesFrom cs
  clone-pool enough many = cloned_from cs enough many (λ r ran live. ran)

  -- Cloning a packet of direct segments with a pool that gives a fresh mbuf for each of them, and then
  -- any others, returns the first of the fresh ones as the head of a well-formed packet of as many
  -- segments and bytes. Its segments stand for those of the packet, in the same buffers and in order;
  -- each segment of the packet has one reference more. No mbuf but these clones has changed, also none
  -- of those behind them in the pool; the clones keep their counters and pools.
  pub clone_lem :
      (more : List ℕ)
      → length ss < fuel
      → length cs ≡ length ss
      → (h' : Heap) × (clone env fuel (c ∷ cs ++ more) s md ≡ some (c, record s { heap = h' }))
        × IsPacket h' c (clone_list c cs ss) (last_clone c cs ss)
        × (total h' (clone_list c cs ss) (last_clone c cs ss) ≡ total s.heap ss l)
        × Clones s.heap h' c cs ss l
        × ((a : ℕ)
            → h' a ≡ (
                if within a ss l
                then referenced (s.heap a)
                else if mem a (c ∷ cs)
                then h' a
                else s.heap a))
        × ((a : ℕ)
            → ((h' a).refcnt
                ≡ (if within a ss l then add16 (s.heap a).refcnt 1 else (s.heap a).refcnt))
              × ((h' a).pool ≡ (s.heap a).pool))
  clone_lem more enough pool =
      cloned_from (cs ++ more) enough (omega (arith, pool))
        (λ r ran live. clone_segs-more env.pktmbuf_headroom fuel first cs more c c md 0 r ran live)
