-- ===== src/Mbuf/Segment.antt =====
-- The functions that read and move the ends of the data in a packet.
use dpdk_cr.Common.{
  minus_eoverflow, ℕ, zero, suc, ◌+◌, ◌-◌, ◌%◌, ltb, ◌==◌, Bool, if◌then◌else◌, Option, none, some,
  ◌>>=◌, pure, store, ℤ, u16, add16, sub16, add32, sub32,
}
use dpdk_cr.Mbuf.Heap.{Mbuf, Heap, null}

-- `rte_pktmbuf_headroom` and `rte_pktmbuf_tailroom`
unfoldable pub headroom : Mbuf → ℕ
headroom m = m.data_off

unfoldable pub tailroom : Mbuf → ℕ
unfolding headroom
tailroom m = (m.buf_len + u16 + u16 - headroom m - m.data_len) % u16

-- `rte_pktmbuf_lastseg`; `none` is a walk that has not ended after `fuel` segments.
unfoldable pub lastseg : ℕ → Heap → ℕ → Option ℕ
lastseg zero h m = none
lastseg (suc fuel) h m =
    let rest = lastseg fuel h ((h m).next) in if (h m).next == null then some m else rest

-- `rte_pktmbuf_mtod_offset`
abbrev pub mtod_offset : Mbuf → ℕ → ℕ
mtod_offset m o = m.buf_addr + m.data_off + o

-- `rte_pktmbuf_prepend`: the pointer, and the mbufs behind the call
unfoldable pub prepend : Heap → ℕ → ℕ → ℕ × Heap
prepend h m len =
    if ltb (headroom (h m)) len
    then (null, h)
    else let x = record (h m) {
      data_off = sub16 ((h m).data_off) len;
      data_len = add16 ((h m).data_len) len;
      pkt_len = add32 ((h m).pkt_len) len;
    } in
      (x.buf_addr + x.data_off, store h m x)

-- `rte_pktmbuf_append` behind the walk to the last segment
unfoldable pub append_at : Heap → ℕ → ℕ → ℕ → ℕ × Heap
append_at h m m_last len =
    if ltb (tailroom (h m_last)) len
    then (null, h)
    else let tail = (h m_last).buf_addr + (h m_last).data_off + (h m_last).data_len in
      let h = store h m_last (record (h m_last) { data_len = add16 ((h m_last).data_len) len }) in
      (tail, store h m (record (h m) { pkt_len = add32 ((h m).pkt_len) len }))

unfoldable pub append : ℕ → Heap → ℕ → ℕ → Option (ℕ × Heap)
append fuel h m len = do m_last ← lastseg fuel h m; pure (append_at h m m_last len)

-- `rte_pktmbuf_adj`
unfoldable pub adj : Heap → ℕ → ℕ → ℕ × Heap
adj h m len =
    if ltb ((h m).data_len) len
    then (null, h)
    else let x = record (h m) {
      data_len = sub16 ((h m).data_len) len;
      data_off = add16 ((h m).data_off) len;
      pkt_len = sub32 ((h m).pkt_len) len;
    } in
      (x.buf_addr + x.data_off, store h m x)

-- `rte_pktmbuf_trim` behind the walk to the last segment
unfoldable pub trim_at : Heap → ℕ → ℕ → ℕ → ℤ × Heap
trim_at h m m_last len =
    if ltb ((h m_last).data_len) len
    then (ℤ.negsuc 0, h)
    else let h =
        store h m_last (record (h m_last) { data_len = sub16 ((h m_last).data_len) len }) in
      (ℤ.pos 0, store h m (record (h m) { pkt_len = sub32 ((h m).pkt_len) len }))

unfoldable pub trim : ℕ → Heap → ℕ → ℕ → Option (ℤ × Heap)
trim fuel h m len = do m_last ← lastseg fuel h m; pure (trim_at h m m_last len)

-- `rte_pktmbuf_is_contiguous`
abbrev pub is_contiguous : Mbuf → Bool
is_contiguous m = m.nb_segs == 1

-- RTE_MBUF_MAX_NB_SEGS
abbrev pub max_nb_segs : ℕ
max_nb_segs = u16 - 1

-- `rte_pktmbuf_chain` behind the walk to the last segment
unfoldable pub chain_at : Heap → (head tail cur_tail : ℕ) → Heap
chain_at h head tail cur_tail =
    let h = store h cur_tail (record (h cur_tail) { next = tail }) in
    let h = store h head (record (h head) {
      nb_segs = add16 ((h head).nb_segs) ((h tail).nb_segs);
      pkt_len = add32 ((h head).pkt_len) ((h tail).pkt_len);
    }) in
    store h tail (record (h tail) { pkt_len = (h tail).data_len })

unfoldable pub chain : ℕ → Heap → (head tail : ℕ) → Option (ℤ × Heap)
chain fuel h head tail =
    if ltb max_nb_segs ((h head).nb_segs + (h tail).nb_segs)
    then some (minus_eoverflow, h)
    else do cur_tail ← lastseg fuel h head; pure (ℤ.pos 0, chain_at h head tail cur_tail)
