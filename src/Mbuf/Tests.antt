-- ===== src/Mbuf/Tests.antt =====
-- A packet of two segments at 1000 and 2000, and one of a single segment at 3000.
mod Ownership
mod Clone
mod Returned
mod Linearize
mod Offload
use dpdk_cr.Common.{
  minus_eoverflow, ℕ, ◌+◌, ◌≤◌, ◌<◌, ◌≡◌, ◌⊎◌, refl, ◌==◌, if◌then◌else◌, some, [], ◌∷◌, ◌++◌, ℤ,
  arith,
}
use dpdk_cr.Mbuf.Heap.{Mbuf, Heap, null}
use dpdk_cr.Mbuf.Segment.{headroom, prepend, append, adj, trim, chain, max_nb_segs}
use dpdk_cr.Mbuf.Laws.Packet.{Segments, mem, IsPacket, total}
use dpdk_cr.Mbuf.Laws.Ends.{append_lem, trim_lem}
use dpdk_cr.Mbuf.Laws.Front.{prepend_lem, adj_lem, adj-prepend}
use dpdk_cr.Mbuf.Laws.Chained.{within, Disjoint, chain_lem}

abbrev pub segment : (addr nb_segs pkt_len data_len next : ℕ) → Mbuf
segment addr nb_segs pkt_len data_len next = record {
  buf_addr = addr;
  buf_iova = addr;
  data_off = 128;
  refcnt = 1;
  nb_segs = nb_segs;
  port = 0;
  ol_flags = 0;
  packet_type = 0;
  pkt_len = pkt_len;
  data_len = data_len;
  vlan_tci = 0;
  hash = 0;
  vlan_tci_outer = 0;
  buf_len = 256;
  timestamp = 0;
  pool = 1;
  next = next;
  tx_offload = record {
    l2_len = 0;
    l3_len = 0;
    l4_len = 0;
    tso_segsz = 0;
    outer_l3_len = 0;
    outer_l2_len = 0;
  };
  priv_size = 0;
}

abbrev pub heap : Heap
heap a =
    if a == 1000
    then segment 1128 2 30 10 2000
    else if a == 2000
    then segment 2128 1 20 20 null
    else segment 3128 1 40 40 null

pub two_segments : IsPacket heap 1000 (1000 ∷ []) 2000
unfolding Segments mem total
two_segments = record {
  segments = (
    refl,
    refl,
    refl,
    refl,
    (omega arith, omega arith),
    (refl, refl, refl, (omega arith, omega arith)),
  );
  count = refl;
  few = omega arith;
  bytes = refl;
}

one_segment : IsPacket heap 3000 [] 3000
unfolding Segments mem total
one_segment = record {
  segments = (refl, refl, refl, (omega arith, omega arith));
  count = refl;
  few = omega arith;
  bytes = refl;
}

disjoint : Disjoint (1000 ∷ []) 2000 [] 3000
unfolding within mem
disjoint a w = ground arith

append_lem_example :
    (tail : ℕ) × (h' : Heap) × (append 2 heap 1000 100 ≡ some (tail, h'))
    × (((heap 2000).data_off + (heap 2000).data_len + 100 ≤ (heap 2000).buf_len)
          × (tail ≡ (heap 2000).buf_addr + (heap 2000).data_off + (heap 2000).data_len)
          × IsPacket h' 1000 (1000 ∷ []) 2000
          × (total h' (1000 ∷ []) 2000 ≡ total heap (1000 ∷ []) 2000 + 100)
        ⊎ ((heap 2000).buf_len < (heap 2000).data_off + (heap 2000).data_len + 100)
          × (tail ≡ null)
          × (h' ≡ heap))
append_lem_example =
    append_lem heap 1000 (1000 ∷ []) 2000 two_segments 2 100 (omega arith) (omega arith)

trim_lem_example :
    (result : ℤ) × (h' : Heap) × (trim 2 heap 1000 5 ≡ some (result, h'))
    × ((5 ≤ (heap 2000).data_len)
          × (result ≡ ℤ.pos 0)
          × IsPacket h' 1000 (1000 ∷ []) 2000
          × (total h' (1000 ∷ []) 2000 + 5 ≡ total heap (1000 ∷ []) 2000)
        ⊎ ((heap 2000).data_len < 5) × (result ≡ ℤ.negsuc 0) × (h' ≡ heap))
trim_lem_example = trim_lem heap 1000 (1000 ∷ []) 2000 two_segments 2 5 (omega arith)

prepend_lem_example :
    let (start, h') = prepend heap 1000 14 in
    (14 ≤ headroom (heap 1000))
      × (start + 14 ≡ (heap 1000).buf_addr + (heap 1000).data_off)
      × IsPacket h' 1000 (1000 ∷ []) 2000
      × (total h' (1000 ∷ []) 2000 ≡ total heap (1000 ∷ []) 2000 + 14)
    ⊎ (headroom (heap 1000) < 14) × (start ≡ null) × (h' ≡ heap)
prepend_lem_example = prepend_lem heap 1000 (1000 ∷ []) 2000 two_segments 14

adj_lem_example :
    let (start, h') = adj heap 1000 14 in
    (14 ≤ (heap 1000).data_len)
      × (start ≡ (heap 1000).buf_addr + (heap 1000).data_off + 14)
      × IsPacket h' 1000 (1000 ∷ []) 2000
      × (total h' (1000 ∷ []) 2000 + 14 ≡ total heap (1000 ∷ []) 2000)
    ⊎ ((heap 1000).data_len < 14) × (start ≡ null) × (h' ≡ heap)
adj_lem_example = adj_lem heap 1000 (1000 ∷ []) 2000 two_segments 14

enough_headroom : 14 ≤ headroom (heap 1000)
unfolding headroom
enough_headroom = omega arith

adj-prepend_example :
    adj (prepend heap 1000 14).1 1000 14 ≡ ((heap 1000).buf_addr + (heap 1000).data_off, heap)
adj-prepend_example = adj-prepend heap 1000 (1000 ∷ []) 2000 two_segments 14 enough_headroom

chain_lem_example :
    (result : ℤ) × (h' : Heap) × (chain 2 heap 1000 3000 ≡ some (result, h'))
    × ((3 ≤ max_nb_segs)
          × (result ≡ ℤ.pos 0)
          × IsPacket h' 1000 ((1000 ∷ []) ++ 2000 ∷ []) 3000
          × (total h' ((1000 ∷ []) ++ 2000 ∷ []) 3000
              ≡ total heap (1000 ∷ []) 2000 + total heap [] 3000)
        ⊎ (max_nb_segs < 3) × (result ≡ minus_eoverflow) × (h' ≡ heap))
chain_lem_example =
    chain_lem heap 1000 (1000 ∷ []) 2000 3000 [] 3000 two_segments one_segment disjoint 2
      (omega arith)
