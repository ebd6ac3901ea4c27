-- ===== src/Ethdev/Queues.antt =====
-- The questions about one queue of a device that its driver may answer, and preparing a burst to be
-- sent, in the build without RTE_LIBRTE_ETHDEV_DEBUG.
use dpdk_cr.Common.{
  minus_einval, minus_enotsup, minus_enodev, ℕ, leb, Bool, if◌then◌else◌, Option, none, some, ℤ,
  Table,
}

-- What the functions read of `struct rte_eth_dev`: a function of the driver that is NULL is `none`. A
-- queue is the value of its pointer.
pub record Device (D : Type 0) : Type 0 where
  pub nb_rx_queues : ℕ
  pub rx_queues : Table ℕ
  pub tx_queues : Table ℕ
  pub rx_queue_count : Option (ℕ → ℤ)
  pub rx_descriptor_done : Option (ℕ → ℕ → ℤ)
  pub rx_descriptor_status : Option (ℕ → ℕ → ℤ)
  pub tx_descriptor_status : Option (ℕ → ℕ → ℤ)
  pub tx_pkt_prepare : Option (ℕ → D → Table ℕ → ℕ → ℕ × Table ℕ × D)

-- RTE_FUNC_PTR_OR_ERR_RET with -ENOTSUP, and the call
abbrev pub supported : {A : Type 0} → Option A → (A → ℤ) → ℤ
supported none call = minus_enotsup
supported (some f) call = call f

-- `is_valid_port` is `rte_eth_dev_is_valid_port`, and `devices` the array `rte_eth_devices`.
module _ {D : Type 0} (is_valid_port : ℕ → Bool) (devices : Table (Device D)) where
  -- `rte_eth_rx_queue_count`
  unfoldable pub rx_queue_count : (port_id queue_id : ℕ) → ℤ
  rx_queue_count port_id queue_id =
      let dev = devices port_id in
      if is_valid_port port_id
      then supported dev.rx_queue_count
          (λ count. if leb dev.nb_rx_queues queue_id then minus_einval else count queue_id)
      else minus_einval

  -- `rte_eth_rx_descriptor_done`
  unfoldable pub rx_descriptor_done : (port_id queue_id offset : ℕ) → ℤ
  rx_descriptor_done port_id queue_id offset =
      let dev = devices port_id in
      if is_valid_port port_id
      then supported dev.rx_descriptor_done (λ done. done (dev.rx_queues queue_id) offset)
      else minus_enodev

  -- `rte_eth_rx_descriptor_status`
  unfoldable pub rx_descriptor_status : (port_id queue_id offset : ℕ) → ℤ
  rx_descriptor_status port_id queue_id offset =
      let dev = devices port_id in
      supported dev.rx_descriptor_status (λ status. status (dev.rx_queues queue_id) offset)

  -- `rte_eth_tx_descriptor_status`
  unfoldable pub tx_descriptor_status : (port_id queue_id offset : ℕ) → ℤ
  tx_descriptor_status port_id queue_id offset =
      let dev = devices port_id in
      supported dev.tx_descriptor_status (λ status. status (dev.tx_queues queue_id) offset)

  -- `rte_eth_tx_prepare`, without RTE_ETHDEV_TX_PREPARE_NOOP: the count, the array and the driver
  unfoldable pub tx_prepare : (port_id queue_id : ℕ) → D → Table ℕ → ℕ → ℕ × Table ℕ × D
  tx_prepare port_id queue_id d tx_pkts nb_pkts = prepared ((devices port_id).tx_pkt_prepare)
    where
      prepared : Option (ℕ → D → Table ℕ → ℕ → ℕ × Table ℕ × D) → ℕ × Table ℕ × D
      prepared none = (nb_pkts, tx_pkts, d)
      prepared (some prepare) = prepare ((devices port_id).tx_queues queue_id) d tx_pkts nb_pkts
