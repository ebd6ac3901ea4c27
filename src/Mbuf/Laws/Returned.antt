-- ===== src/Mbuf/Laws/Returned.antt =====
-- Freeing a clone takes back what cloning has done.
use dpdk_cr.Common.{
  ℕ, ◌+◌, ◌<◌, ◌≡◌, refl, sym, ap, ◌∙◌, true, false, Bool-cases, inl, inr, if◌then◌else◌, some,
  List, ◌∷◌, ◌++◌, length, u16, add16, arith,
}
use mathlib.Core.Bool.{true≢false}
use dpdk_cr.Mbuf.Heap.{Mbuf, Heap, null}
use dpdk_cr.Mbuf.Free.{Env, State, sizeof_mbuf, is_indirect, free}
use dpdk_cr.Mbuf.Clone.{Cloning, clone, clone_segs}
use dpdk_cr.Mbuf.Alloc.{reset, alloc}
use dpdk_cr.Mbuf.Laws.Packet.{mem, IsPacket}
use dpdk_cr.Mbuf.Laws.Chained.{within}
use dpdk_cr.Mbuf.Laws.Detached.{unreferenced}
use dpdk_cr.Mbuf.Laws.Attachments.{put_clones, put_clones-pools, free-Chain}
use dpdk_cr.Mbuf.Laws.Linking.{referenced}
use dpdk_cr.Mbuf.Laws.Clones.{Fresh, Clones, last_clone, Segments-same}
use dpdk_cr.Mbuf.Laws.Headed.{clone_list, headed, ended}
use dpdk_cr.Mbuf.Laws.Short.{
  prefix, prefix_last, length-prefix, length-prefix-le, within-prefix, Fresh-prefix,
  clone_segs-short,
}
use dpdk_cr.Mbuf.Laws.Outcome.{
  first_heap, first-within, c_out, c_new, result, result-Clones, result-others, result-kept,
  result-end,
}
use dpdk_cr.Mbuf.Laws.Cloned.{clone-pool}
use dpdk_cr.Mbuf.Laws.Pairs.{
  pairs, length-pairs, clones-pairs, owners-pairs, Once, Segments-Once, Segments-end, Once-prefix,
  pairs-Separate, Fresh-out, pairs-Chain,
}

unreferenced-referenced : (x : Mbuf) → x.refcnt + 1 < u16 → unreferenced (referenced x) ≡ x
unreferenced-referenced x small =
    ap (λ (r : ℕ). record x { refcnt = r }) {y = x.refcnt} (omega arith)

-- The segments of a heap own their buffers.
abbrev pub OwnBuffers : Heap → List ℕ → ℕ → Type 0
OwnBuffers h ss l =
    (a : ℕ) → within a ss l ≡ true → (h a).buf_addr ≡ a + (sizeof_mbuf + (h a).priv_size)

-- Their counters are not 0 and have room for another reference.
abbrev pub Counted : Heap → List ℕ → ℕ → Type 0
Counted h ss l = (a : ℕ) → within a ss l ≡ true → (0 < (h a).refcnt) × ((h a).refcnt + 1 < u16)

-- Mbufs as the pool gives them: nobody else holds them.
abbrev pub Single : Heap → List ℕ → Type 0
Single h cs = (x : ℕ) → mem x cs ≡ true → (h x).refcnt ≡ 1

module _ (env : Env) (fuel : ℕ) (s : State) (ss : List ℕ) (l c : ℕ) (cs : List ℕ) (once : Once ss l)
    (fresh : Fresh (c ∷ cs) ss l) (own : OwnBuffers s.heap ss l) (held : Counted s.heap ss l)
    (single : Single s.heap (c ∷ cs)) where
  -- Freeing clones, from the mbufs `h'` that cloning has left.
  free-cloned :
      (h' : Heap)
      → Clones s.heap h' c cs ss l
      → (h' (last_clone c cs ss)).next ≡ null
      → ((a : ℕ)
          → h' a ≡ (
              if within a ss l
              then referenced (s.heap a)
              else if mem a (c ∷ cs)
              then h' a
              else s.heap a))
      → ((a : ℕ)
          → ((h' a).refcnt
              ≡ (if within a ss l then add16 (s.heap a).refcnt 1 else (s.heap a).refcnt))
            × ((h' a).pool ≡ (s.heap a).pool))
      → length ss + 1 < fuel
      → length ss < length cs + 1
      → (s₂ : State) × (free env fuel (record s { heap = h' }) c ≡ some s₂)
        × ((a : ℕ) → s₂.heap a ≡ (if mem a (c ∷ cs) then s₂.heap a else s.heap a))
        × (s₂.puts ≡ s.puts ++ put_clones s.heap (pairs c cs ss l))
  free-cloned h' made end others kept enough pool =
      let (s₂, freed, back, puts) =
        free-Chain env fuel (record s { heap = h' }) c (pairs c cs ss l)
          (pairs-Chain s.heap h' c c cs ss l made fresh end refl own
            (λ x m. (kept x).0 ∙ rw (Fresh-out (c ∷ cs) ss l x m fresh) (single x m)))
          (pairs-Separate c cs ss l once fresh pool)
          (λ x m.
            let here : within x ss l ≡ true = sym (owners-pairs x c cs ss l pool) ∙ m in
            let count : (h' x).refcnt ≡ add16 (s.heap x).refcnt 1 = (kept x).0 ∙ rw here refl in
            omega (arith, count, held x here))
          (omega (arith, length-pairs c cs ss l)) in
      (
        s₂,
        freed,
        λ a. elim (Bool-cases (mem a (c ∷ cs))) [
          | inl new ↦ rw new refl
          | inr old ↦ rw old (
              back a (clones-pairs a c cs ss l old)
              ∙ rw (owners-pairs a c cs ss l pool) (elim (Bool-cases (within a ss l)) [
                | inl here ↦ rw here (
                    ap unreferenced (others a ∙ rw here refl)
                    ∙ unreferenced-referenced (s.heap a) (held a here).1)
                | inr out ↦ rw out (others a ∙ rw (out, old) refl)
              ]))
        ],
        puts
            ∙ ap (λ qs. s.puts ++ qs)
                (put_clones-pools h' s.heap (pairs c cs ss l) (λ x. (kept x).1)),
      )

prefix-within :
    (x : ℕ) (cs ss : List ℕ) (l : ℕ)
    → within x (prefix cs ss) (prefix_last cs ss l) ≡ true
    → within x ss l ≡ true
prefix-within x cs ss l here = elim (Bool-cases (within x ss l)) [
  | inl there ↦ there
  | inr out ↦ absurd (true≢false (sym here ∙ within-prefix x cs ss l out))
]

module _ (env : Env) (fuel : ℕ) (s : State) (md : ℕ) (ss : List ℕ) (l c : ℕ) (cs : List ℕ)
    (packet : IsPacket s.heap md ss l)
    (direct : (a : ℕ) → within a ss l ≡ true → is_indirect (s.heap a) ≡ false)
    (fresh : Fresh (c ∷ cs) ss l) (own : OwnBuffers s.heap ss l) (held : Counted s.heap ss l)
    (single : Single s.heap (c ∷ cs)) where
  -- A packet of direct segments that own their buffers, and whose counters are not 0 and have room, is
  -- cloned with enough fresh mbufs, whose counters are 1; the clone is freed. Both end. Every mbuf but the
  -- fresh ones is what it was before, and the clones go back to their pools in order.
  pub free-clone :
      length ss + 1 < fuel
      → length ss < length cs + 1
      → (s₁ s₂ : State) × (clone env fuel (c ∷ cs) s md ≡ some (c, s₁))
        × (free env fuel s₁ c ≡ some s₂)
        × ((a : ℕ) → s₂.heap a ≡ (if mem a (c ∷ cs) then s₂.heap a else s.heap a))
        × (s₂.puts ≡ s.puts ++ put_clones s.heap (pairs c cs ss l))
  free-clone enough pool =
      let (h', ran, cloned, size, made, others, kept) =
        clone-pool env fuel s md ss l c cs packet direct fresh (omega arith) pool in
      let (s₂, freed, back, puts) =
        free-cloned env fuel s ss l c cs (Segments-Once s.heap md ss l packet.segments) fresh own
          held single h' made
          (Segments-end h' c (clone_list c cs ss) (last_clone c cs ss) cloned.segments) others kept
          enough pool in
      (record s { heap = h' }, s₂, ran, freed, back, puts)

  -- a loop that has ended with `mi = NULL`, and the call that frees what was cloned
  gives_up-runs :
      (r : Cloning)
      → clone_segs env.pktmbuf_headroom fuel (reset env.pktmbuf_headroom s.heap c) cs c c md 0
        ≡ some (record r { mi = null })
      → (s₂ : State)
      → free env fuel
          (record s {
            heap = headed r.heap r.last c r.nseg (reset env.pktmbuf_headroom s.heap c md).pkt_len;
          })
          c
        ≡ some s₂
      → clone env fuel (c ∷ cs) s md ≡ some (null, s₂)
  unfolding clone alloc Fresh headed ended
  gives_up-runs r ran s₂ freed = rw (fresh.0, ran, freed) refl

  -- A packet of direct segments that own their buffers, and whose counters are not 0 and have room, is
  -- cloned with a pool that has at least one fresh mbuf, whose counters are 1, but fewer than there are
  -- segments. Cloning ends and returns NULL. Every mbuf but the fresh ones is what it was before, and
  -- the clones that were made go back to their pools in order.
  pub clone_gives_up :
      length ss + 1 < fuel
      → length cs < length ss
      → (s₂ : State) × (clone env fuel (c ∷ cs) s md ≡ some (null, s₂))
        × ((a : ℕ) → s₂.heap a ≡ (if mem a (c ∷ cs) then s₂.heap a else s.heap a))
        × (s₂.puts ≡ s.puts ++ put_clones s.heap (pairs c cs (prefix cs ss) (prefix_last cs ss l)))
  unfolding first_heap result
  clone_gives_up enough short =
      let ss' = prefix cs ss in
      let l' = prefix_last cs ss l in
      let whole : Heap = first_heap env s md ss l c cs fresh in
      let fresh' : Fresh (c ∷ cs) ss' l' = Fresh-prefix (c ∷ cs) cs ss l fresh in
      let (r, ran, looped) =
        clone_segs-short env.pktmbuf_headroom fuel whole cs c c md 0 ss l
          (Segments-same s.heap whole md ss l (first-within env s md ss l c cs fresh)
            packet.segments)
          (λ a here. ap is_indirect (first-within env s md ss l c cs fresh a here) ∙ direct a here)
          fresh (c_out env s md ss l c cs fresh) (c_new env s md ss l c cs fresh) (omega arith)
          short (omega (arith, packet.few)) in
      let cut : (a : ℕ) → within a ss' l' ≡ true → within a ss l ≡ true =
        λ a here. prefix-within a cs ss l here in
      let (s₂, freed, back, puts) =
        free-cloned env fuel s ss' l' c cs
          (Once-prefix cs ss l (Segments-Once s.heap md ss l packet.segments)) fresh'
          (λ a here. own a (cut a here)) (λ a here. held a (cut a here)) single
          (result env s md ss' l' c cs fresh' r looped)
          (result-Clones env s md ss' l' c cs fresh' r looped)
          (result-end env s md ss' l' c cs fresh' r looped)
          (result-others env s md ss' l' c cs fresh' r looped)
          (result-kept env s md ss' l' c cs fresh' r looped) (omega (arith, length-prefix-le cs ss))
          (omega (arith, length-prefix cs ss)) in
      (s₂, gives_up-runs r ran s₂ freed, back, puts)
