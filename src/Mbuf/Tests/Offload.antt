-- ===== src/Mbuf/Tests/Offload.antt =====
-- Offload requests on the first segment of the other tests.
use dpdk_cr.Common.{minus_einval, minus_enotsup, ◌+◌, ◌≡◌, refl}
use dpdk_cr.Mbuf.Heap.{Mbuf}
use dpdk_cr.Mbuf.Offload.{
  has, headers, validate_tx_offload, pkt_tx_ip_cksum, pkt_tx_ipv4, pkt_tx_ipv6,
}
use dpdk_cr.Mbuf.Tests.{heap}

-- an IP checksum for IPv6
abbrev confused : Mbuf
confused = record (heap 1000) { ol_flags = pkt_tx_ip_cksum + pkt_tx_ipv6 }

-- headers of 14 and 20 bytes where the segment has 10
abbrev fragmented : Mbuf
fragmented = record (heap 1000) {
  ol_flags = pkt_tx_ip_cksum + pkt_tx_ipv4;
  tx_offload = record (heap 1000).tx_offload { l2_len = 14; l3_len = 20 };
}

confused_run : validate_tx_offload confused ≡ minus_einval
unfolding validate_tx_offload has headers
confused_run = refl

fragmented_run : validate_tx_offload fragmented ≡ minus_enotsup
unfolding validate_tx_offload has headers
fragmented_run = refl
