-- ===== src/Mbuf/Clone.antt =====
-- Cloning a packet, and counting a reference to each of its segments.
use dpdk_cr.Common.{
  ℕ, zero, suc, ◌==◌, if◌then◌else◌, Option, none, some, ◌>>=◌, pure, List, [], ◌∷◌, store, add16,
}
use dpdk_cr.Mbuf.Heap.{Heap, null}
use dpdk_cr.Mbuf.Refcnt.{refcnt_update}
use dpdk_cr.Mbuf.Alloc.{alloc}
use dpdk_cr.Mbuf.Free.{Env, State, attach, free}

-- What `rte_mempool_get` gives next, of the mbufs that are left in the pool.
abbrev pub pool_get : List ℕ → Option ℕ × List ℕ
pool_get [] = (none, [])
pool_get (m ∷ left) = (some m, left)

-- The variables of `rte_pktmbuf_clone` behind its loop: `prev` points to the `next` of the mbuf `last`.
pub record Cloning : Type 0 where
  pub heap : Heap
  pub mi : ℕ
  pub last : ℕ
  pub nseg : ℕ

-- `rte_pktmbuf_attach(mi, md)` and `*prev = mi`
unfoldable pub link : Heap → (prev mi md : ℕ) → Heap
link h prev mi md =
    let attached = attach h mi md in store attached prev (record (attached prev) { next = mi })

module _ (pktmbuf_headroom : ℕ) where
  -- the loop, where `prev` points to the `next` of the mbuf `prev`; `none` is a loop that has not ended
  -- after `fuel` rounds
  unfoldable pub clone_segs : ℕ → Heap → List ℕ → (prev mi md nseg : ℕ) → Option Cloning
  clone_segs zero h left prev mi md nseg = none
  clone_segs (suc fuel) h left prev mi md nseg =
      let linked = link h prev mi md in
      let (got, left') = pool_get left in
      let (mi', reset_mi) = alloc pktmbuf_headroom linked got in
      let rest = clone_segs fuel reset_mi left' mi mi' ((linked md).next) (add16 nseg 1) in
      if (linked md).next == null
      then some (record { heap = linked; mi = mi; last = mi; nseg = add16 nseg 1 })
      else if mi' == null
      then some (record { heap = linked; mi = null; last = mi; nseg = add16 nseg 1 })
      else rest

-- `rte_pktmbuf_clone`: the clone and the state; `left` are the mbufs of the pool `mp`.
unfoldable pub clone : Env → ℕ → List ℕ → State → ℕ → Option (ℕ × State)
clone env fuel left s md =
    let (got, left') = pool_get left in
    let (mc, h) = alloc env.pktmbuf_headroom s.heap got in
    if mc == null then some (null, s) else do
      r ← clone_segs env.pktmbuf_headroom fuel h left' mc mc md 0
      let ended = store r.heap r.last (record (r.heap r.last) { next = null })
      let headed = store ended mc (record (ended mc) { nb_segs = r.nseg; pkt_len = (h md).pkt_len })
      if r.mi == null
          then (do s' ← free env fuel (record s { heap = headed }) mc; pure (null, s'))
          else pure (mc, record s { heap = headed })

-- `rte_pktmbuf_refcnt_update`, from the segment `m` on
unfoldable pub pktmbuf_refcnt_update : ℕ → Heap → ℕ → ℕ → Option Heap
pktmbuf_refcnt_update zero h m v = none
pktmbuf_refcnt_update (suc fuel) h m v =
    let counted = (refcnt_update h m v).1 in
    let rest = pktmbuf_refcnt_update fuel counted ((counted m).next) v in
    if (counted m).next == null then some counted else rest
