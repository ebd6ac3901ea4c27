-- ===== src/Ethdev/Rx.antt =====
-- `rte_eth_rx_burst`, for one port and queue, in the build without RTE_LIBRTE_ETHDEV_DEBUG. A packet is
-- the address of its mbuf.
use dpdk_cr.Common.{ℕ, ◌-◌, ◌%◌, ◌^◌, ltb, if◌then◌else◌, ℤ, List, [], ◌∷◌, Table, u16}

-- `(int16_t)x` of a `uint16_t`
unfoldable pub to_int16 : ℕ → ℤ
to_int16 x = if ltb x (2 ^ 15) then ℤ.pos x else ℤ.negsuc (u16 - 1 - x)

-- `(uint16_t)i` of an `int16_t`
unfoldable pub to_uint16 : ℤ → ℕ
to_uint16 (ℤ.pos n) = n % u16
to_uint16 (ℤ.negsuc n) = u16 - 1 - n % u16

-- `dev->rx_pkt_burst` on the queue: it stores packets in the array, which has room for so many, and
-- returns their number.
abbrev pub RxDriver : Type 0 → Type 0
RxDriver D = D → Table ℕ → ℕ → ℕ × Table ℕ × D

-- A callback behind a burst, `cb->fn.rx` with its parameter: it is given the array, the number of
-- packets in it and the number of packets it can hold, and returns how many packets are left in it.
abbrev pub RxCallback : Type 0 → Type 0
RxCallback D = D → Table ℕ → (nb_pkts max_pkts : ℕ) → ℕ × Table ℕ × D

-- the list of callbacks of the queue, from its head on, with `nb_rx` in an `int16_t`
unfoldable pub run_rx_callbacks :
    {D : Type 0} → List (RxCallback D) → ℤ → Table ℕ → ℕ → D → ℤ × Table ℕ × D
run_rx_callbacks [] nb_rx rx_pkts nb_pkts d = (nb_rx, rx_pkts, d)
run_rx_callbacks (cb ∷ cbs) nb_rx rx_pkts nb_pkts d =
    let (left, rx_pkts, d) = cb d rx_pkts (to_uint16 nb_rx) nb_pkts in
    run_rx_callbacks cbs (to_int16 left) rx_pkts nb_pkts d

-- `rte_eth_rx_burst`: the count, the array and the device
unfoldable pub rx_burst :
    {D : Type 0} → RxDriver D → List (RxCallback D) → D → Table ℕ → ℕ → ℕ × Table ℕ × D
rx_burst driver cbs d rx_pkts nb_pkts =
    let (got, rx_pkts, d) = driver d rx_pkts nb_pkts in
    let (nb_rx, rx_pkts, d) = run_rx_callbacks cbs (to_int16 got) rx_pkts nb_pkts d in
    (to_uint16 nb_rx, rx_pkts, d)
