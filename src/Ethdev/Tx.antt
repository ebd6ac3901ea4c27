-- ===== src/Ethdev/Tx.antt =====
-- `rte_eth_tx_burst`, `rte_eth_tx_buffer_flush` and `rte_eth_tx_buffer`, for one port and queue, in the
-- build without RTE_LIBRTE_ETHDEV_DEBUG. A packet is the address of its mbuf.
use dpdk_cr.Common.{
  ℕ, ◌+◌, ◌-◌, ltb, ◌==◌, Bool, true, false, if◌then◌else◌, List, [], ◌∷◌, ◌++◌, map, Table, store,
  tabulate, add16,
}

-- `struct rte_eth_dev_tx_buffer`, less its callback
pub record TxBuffer : Type 0 where
  pub size : ℕ
  pub length : ℕ
  pub pkts : Table ℕ

-- The state `device` of the device and its driver, and the packets that have left the buffer, in order:
-- `true` for one that the driver has taken, `false` for one that the error callback was called with.
pub record World (D : Type 0) : Type 0 where
  pub device : D
  pub gone : List (Bool × ℕ)

-- `dev->tx_pkt_burst` on the queue: how many of the first packets of the array the driver has taken.
abbrev pub Driver : Type 0 → Type 0
Driver D = D → Table ℕ → ℕ → ℕ × D

-- A callback before a burst, `cb->fn.tx` with its parameter: it may change the array, and returns how
-- many packets are left in it.
abbrev pub Callback : Type 0 → Type 0
Callback D = D → Table ℕ → ℕ → ℕ × Table ℕ × D

-- the list of callbacks of the queue, from its head on
unfoldable pub run_callbacks : {D : Type 0} → List (Callback D) → D → Table ℕ → ℕ → ℕ × Table ℕ × D
run_callbacks [] d pkts nb = (nb, pkts, d)
run_callbacks (cb ∷ cbs) d pkts nb = let (nb, pkts, d) = cb d pkts nb in run_callbacks cbs d pkts nb

-- `rte_eth_tx_burst`: the count, the array and the device
unfoldable pub tx_burst :
    {D : Type 0} → Driver D → List (Callback D) → D → Table ℕ → ℕ → ℕ × Table ℕ × D
tx_burst driver cbs d pkts nb =
    let (nb, pkts, d) = run_callbacks cbs d pkts nb in
    let (sent, d) = driver d pkts nb in (sent, pkts, d)

-- `rte_eth_tx_buffer_flush`: the count, the buffer and the world
unfoldable pub tx_buffer_flush :
    {D : Type 0} → Driver D → List (Callback D) → TxBuffer → World D → ℕ × TxBuffer × World D
tx_buffer_flush driver cbs b w =
    let to_send = b.length in
    if to_send == 0
    then (0, b, w)
    else let (sent, pkts, d) = tx_burst driver cbs w.device b.pkts to_send in
      let taken = map (λ p. (true, p)) (tabulate sent pkts) in
      let unsent = map (λ p. (false, p)) (tabulate (to_send - sent) (λ k. pkts (sent + k))) in
      (
        sent,
        record b { length = 0; pkts = pkts },
        record {
          device = d;
          gone = w.gone ++ (if sent == to_send then taken else taken ++ unsent);
        },
      )

-- `rte_eth_tx_buffer`
unfoldable pub tx_buffer :
    {D : Type 0} → Driver D → List (Callback D) → TxBuffer → ℕ → World D → ℕ × TxBuffer × World D
tx_buffer driver cbs b tx_pkt w =
    let b = record b { pkts = store b.pkts b.length tx_pkt; length = add16 b.length 1 } in
    if ltb b.length b.size then (0, b, w) else tx_buffer_flush driver cbs b w
