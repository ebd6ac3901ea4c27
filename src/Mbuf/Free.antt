-- ===== src/Mbuf/Free.antt =====
-- Attaching an mbuf to the buffer of another, detaching, and freeing.
use dpdk_cr.Common.{
  ℕ, zero, suc, ◌+◌, ◌-◌, ◌%◌, ◌^◌, min, bit_and, bit_or, ◌==◌, Bool, not, if◌then◌else◌, Option,
  none, some, List, [], ◌∷◌, ◌++◌, store, u16, u32,
}
use dpdk_cr.Memcpy.Machine.{Machine}
use dpdk_cr.Mbuf.Heap.{Mbuf, Heap, null}
use dpdk_cr.Mbuf.Refcnt.{refcnt_read, refcnt_set, refcnt_update}

-- `struct rte_pktmbuf_pool_private`
pub record PoolPrivate : Type 0 where
  pub mbuf_data_room_size : ℕ
  pub mbuf_priv_size : ℕ

-- What the mempool library and the build give: the private data of a pool (`rte_mempool_get_priv`), the
-- IO address of an object (`rte_mempool_virt2iova`), RTE_PKTMBUF_HEADROOM, and the machine.
pub record Env : Type 0 where
  pub private_data : ℕ → PoolPrivate
  pub virt2iova : ℕ → ℕ
  pub pktmbuf_headroom : ℕ
  pub machine : Machine

-- The mbufs, and the calls of `rte_mempool_put` so far, each a pool and an mbuf.
pub record State : Type 0 where
  pub heap : Heap
  pub puts : List (ℕ × ℕ)

-- `sizeof(struct rte_mbuf)`: two cache lines of 64 bytes
abbrev pub sizeof_mbuf : ℕ
sizeof_mbuf = 128

-- IND_ATTACHED_MBUF
abbrev pub ind_attached_mbuf : ℕ
ind_attached_mbuf = 2 ^ 62

-- RTE_MBUF_INDIRECT
unfoldable pub is_indirect : Mbuf → Bool
is_indirect m = not (bit_and m.ol_flags ind_attached_mbuf == 0)

-- `rte_mbuf_from_indirect`
unfoldable pub from_indirect : Mbuf → ℕ
from_indirect mi = mi.buf_addr - (sizeof_mbuf + mi.priv_size)

-- `rte_mbuf_raw_free`
unfoldable pub raw_free : State → ℕ → State
raw_free s m = record s { puts = s.puts ++ ((s.heap m).pool, m) ∷ [] }

-- `rte_pktmbuf_attach`
unfoldable pub attach : Heap → (mi m : ℕ) → Heap
attach h mi m =
    let md = if is_indirect (h m) then from_indirect (h m) else m in
    let h = (refcnt_update h md 1).1 in
    let x = h m in
    store h mi (record (h mi) {
      priv_size = x.priv_size;
      buf_iova = x.buf_iova;
      buf_addr = x.buf_addr;
      buf_len = x.buf_len;
      data_off = x.data_off;
      data_len = x.data_len;
      port = x.port;
      vlan_tci = x.vlan_tci;
      vlan_tci_outer = x.vlan_tci_outer;
      tx_offload = x.tx_offload;
      hash = x.hash;
      next = null;
      pkt_len = x.data_len;
      nb_segs = 1;
      ol_flags = bit_or x.ol_flags ind_attached_mbuf;
      packet_type = x.packet_type;
      timestamp = x.timestamp;
    })

module _ (env : Env) where
  -- the fields of an mbuf that stand for its own buffer again, as `rte_pktmbuf_detach` sets them
  unfoldable pub own_buffer : ℕ → Mbuf → Mbuf
  own_buffer m x =
      let private_data = env.private_data (x.pool) in
      let mbuf_size = (sizeof_mbuf + private_data.mbuf_priv_size) % u32 in
      let buf_len = private_data.mbuf_data_room_size % u16 in
      record x {
        priv_size = private_data.mbuf_priv_size % u16;
        buf_addr = m + mbuf_size;
        buf_iova = env.virt2iova m + mbuf_size;
        buf_len = buf_len;
        data_off = min (env.pktmbuf_headroom) buf_len;
        data_len = 0;
        ol_flags = 0;
      }

  -- `rte_pktmbuf_detach`
  unfoldable pub detach : State → ℕ → State
  detach s m =
      let md = from_indirect (s.heap m) in
      let h = store s.heap m (own_buffer m (s.heap m)) in
      let (count, h) = refcnt_update h md (u16 - 1) in
      let unlinked = refcnt_set (store h md (record (h md) { next = null; nb_segs = 1 })) md 1 in
      if count == 0 then raw_free (record s { heap = unlinked }) md else record s { heap = h }

  unfoldable pub detach_if : State → ℕ → State
  detach_if s m = if is_indirect (s.heap m) then detach s m else s

  -- `if (m->next != NULL) { m->next = NULL; m->nb_segs = 1; }`
  unfoldable pub unlink : State → ℕ → State
  unlink s m =
      if (s.heap m).next == null
      then s
      else record s { heap = store s.heap m (record (s.heap m) { next = null; nb_segs = 1 }) }

  -- `rte_pktmbuf_prefree_seg`: the mbuf to free or NULL, and the state
  unfoldable pub prefree_seg : State → ℕ → ℕ × State
  prefree_seg s m =
      if refcnt_read s.heap m == 1
      then (m, unlink (detach_if s m) m)
      else let (count, h) = refcnt_update s.heap m (u16 - 1) in
        let s = record s { heap = h } in
        let last = unlink (detach_if s m) m in
        if count == 0 then (m, record last { heap = refcnt_set last.heap m 1 }) else (null, s)

  -- `rte_pktmbuf_free_seg`
  unfoldable pub free_seg : State → ℕ → State
  free_seg s m = let (m, s) = prefree_seg s m in if m == null then s else raw_free s m

  -- `rte_pktmbuf_free`; `none` is a loop that has not ended after `fuel` segments.
  unfoldable pub free : ℕ → State → ℕ → Option State
  free zero s m = none
  free (suc fuel) s m =
      let rest = free fuel (free_seg s m) ((s.heap m).next) in if m == null then some s else rest
