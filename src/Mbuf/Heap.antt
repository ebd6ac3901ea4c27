-- ===== src/Mbuf/Heap.antt =====
-- `struct rte_mbuf`, and the memory that holds the mbufs.
use dpdk_cr.Common.{ℕ, Table}

-- the bit fields of `tx_offload`
pub record TxOffload : Type 0 where
  pub l2_len : ℕ
  pub l3_len : ℕ
  pub l4_len : ℕ
  pub tso_segsz : ℕ
  pub outer_l3_len : ℕ
  pub outer_l2_len : ℕ

-- The fields that are read or written by the functions below. A pointer is an address, and NULL is 0;
-- `hash`, a union of 8 bytes, and `packet_type` are one number each.
pub record Mbuf : Type 0 where
  pub buf_addr : ℕ
  pub buf_iova : ℕ
  pub data_off : ℕ
  pub refcnt : ℕ
  pub nb_segs : ℕ
  pub port : ℕ
  pub ol_flags : ℕ
  pub packet_type : ℕ
  pub pkt_len : ℕ
  pub data_len : ℕ
  pub vlan_tci : ℕ
  pub hash : ℕ
  pub vlan_tci_outer : ℕ
  pub buf_len : ℕ
  pub timestamp : ℕ
  pub pool : ℕ
  pub next : ℕ
  pub tx_offload : TxOffload
  pub priv_size : ℕ

-- The mbuf at each address.
abbrev pub Heap : Type 0
Heap = Table Mbuf

abbrev pub null : ℕ
null = 0
