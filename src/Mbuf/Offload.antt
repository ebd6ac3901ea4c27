-- ===== src/Mbuf/Offload.antt =====
-- `rte_validate_tx_offload`.
use dpdk_cr.Common.{
  minus_einval, minus_enotsup, ℕ, ◌+◌, ◌*◌, ◌^◌, bit_and, ltb, ◌==◌, Bool, not, ◌&&◌, ◌||◌,
  if◌then◌else◌, ℤ,
}
use dpdk_cr.Mbuf.Heap.{Mbuf}

-- PKT_TX_TCP_SEG, PKT_TX_L4_MASK, PKT_TX_IP_CKSUM, PKT_TX_IPV4, PKT_TX_IPV6, PKT_TX_OUTER_IP_CKSUM and
-- PKT_TX_OUTER_IPV4
abbrev pub pkt_tx_tcp_seg : ℕ
pkt_tx_tcp_seg = 2 ^ 50

abbrev pub pkt_tx_l4_mask : ℕ
pkt_tx_l4_mask = 3 * 2 ^ 52

abbrev pub pkt_tx_ip_cksum : ℕ
pkt_tx_ip_cksum = 2 ^ 54

abbrev pub pkt_tx_ipv4 : ℕ
pkt_tx_ipv4 = 2 ^ 55

abbrev pub pkt_tx_ipv6 : ℕ
pkt_tx_ipv6 = 2 ^ 56

abbrev pub pkt_tx_outer_ip_cksum : ℕ
pkt_tx_outer_ip_cksum = 2 ^ 58

abbrev pub pkt_tx_outer_ipv4 : ℕ
pkt_tx_outer_ipv4 = 2 ^ 59

-- PKT_TX_OFFLOAD_MASK, with the bits of PKT_TX_IEEE1588_TMST, PKT_TX_QINQ_PKT, PKT_TX_VLAN_PKT,
-- PKT_TX_TUNNEL_MASK, PKT_TX_MACSEC and PKT_TX_SEC_OFFLOAD in their order
abbrev pub pkt_tx_offload_mask : ℕ
pkt_tx_offload_mask =
    pkt_tx_ip_cksum
    + pkt_tx_l4_mask
    + pkt_tx_outer_ip_cksum
    + pkt_tx_tcp_seg
    + 2 ^ 51
    + 2 ^ 49
    + 2 ^ 57
    + 15 * 2 ^ 45
    + 2 ^ 44
    + 2 ^ 43

-- `ol_flags & mask` as a condition
unfoldable pub has : Mbuf → ℕ → Bool
has m mask = not (bit_and m.ol_flags mask == 0)

-- where the inner headers end
unfoldable pub headers : Mbuf → ℕ
headers m =
    let o = m.tx_offload in
    let inner_l3_offset = o.l2_len in
    let inner_l3_offset =
      if has m pkt_tx_outer_ip_cksum
      then inner_l3_offset + (o.outer_l2_len + o.outer_l3_len)
      else inner_l3_offset in
    inner_l3_offset + o.l3_len + o.l4_len

unfoldable pub validate_tx_offload : Mbuf → ℤ
validate_tx_offload m =
    if not (has m pkt_tx_offload_mask)
    then ℤ.pos 0
    else if ltb m.data_len (headers m)
    then minus_enotsup
    else if has m pkt_tx_ip_cksum && has m pkt_tx_ipv6
    then minus_einval
    else if has m (pkt_tx_l4_mask + pkt_tx_tcp_seg) && not (has m (pkt_tx_ipv4 + pkt_tx_ipv6))
    then minus_einval
    else if has m pkt_tx_tcp_seg
        && ((m.tx_offload.tso_segsz == 0) || (has m pkt_tx_ipv4 && not (has m pkt_tx_ip_cksum)))
    then minus_einval
    else if has m pkt_tx_outer_ip_cksum && not (has m pkt_tx_outer_ipv4)
    then minus_einval
    else ℤ.pos 0
