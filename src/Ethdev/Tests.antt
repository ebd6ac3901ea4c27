-- ===== src/Ethdev/Tests.antt =====
-- A driver that takes two packets of each burst and counts them, and a buffer for three.
use dpdk_cr.Common.{
  minus_enodev, ℕ, ◌-◌, ◌+◌, ◌<◌, ltb, Bool, ℤ, some, none, subst, sym, ◌≤◌, ◌≡◌, refl, true, false,
  [], ◌∷◌, ◌++◌, min, Table, store, tabulate, arith,
}
use mathlib.Core.List.{Memᴰ}
use mathlib.Core.List.Memᴰ
use dpdk_cr.Ethdev.Tx.{TxBuffer, World, Driver, tx_burst, run_callbacks, tx_buffer_flush, tx_buffer}
use dpdk_cr.Ethdev.Rx.{RxDriver, RxCallback, run_rx_callbacks, rx_burst, to_int16, to_uint16}
use dpdk_cr.Ethdev.Queues.{
  Device, rx_queue_count, rx_descriptor_done, rx_descriptor_status, tx_descriptor_status,
  tx_prepare,
}
use dpdk_cr.Ethdev.Received.{in_turn, rx_burst_lem}
use dpdk_cr.Ethdev.Laws.{given, tx_buffer_lem}

abbrev takes_two : Driver ℕ
takes_two d pkts nb = (min 2 nb, d + min 2 nb)

takes_two-le : (d : ℕ) (pkts : Table ℕ) (nb : ℕ) → (takes_two d pkts nb).0 ≤ nb
takes_two-le d pkts nb = omega arith

-- packets 10 and 11 wait, and one has been sent before
abbrev buffer : TxBuffer
buffer = record { size = 3; length = 2; pkts = λ i. 10 + i }

abbrev world : World ℕ
world = record { device = 1; gone = (true, 9) ∷ [] }

-- the third packet fills the buffer, and the driver leaves it
full_run :
    (tx_buffer takes_two [] buffer 20 world).2.gone
    ≡ (true, 9) ∷ (true, 10) ∷ (true, 11) ∷ (false, 20) ∷ []
unfolding tx_buffer tx_buffer_flush tx_burst run_callbacks store tabulate
full_run = refl

tx_buffer_lem_example :
    let (sent, b', w') = tx_buffer takes_two [] buffer 20 world in
    (given b' w' ≡ given buffer world ++ 20 ∷ []) × (b'.length < b'.size) × (b'.size ≡ 3)
tx_buffer_lem_example =
    tx_buffer_lem takes_two takes_two-le buffer 20 world (omega arith) (omega arith)

-- a driver that fills the array, and a callback that drops the last packet
abbrev fills : RxDriver ℕ
fills d pkts nb = (nb, λ i. 100 + i, d + 1)

abbrev drops_last : RxCallback ℕ
drops_last d pkts nb max = (nb - 1, pkts, d)

drops_last-le :
    (cb : RxCallback ℕ)
    → Memᴰ cb (drops_last ∷ [])
    → (d : ℕ) (pkts : Table ℕ) (n : ℕ) → n ≤ 40000
    → (cb d pkts n 40000).0 ≤ 40000
drops_last-le cb m d pkts n le =
    subst (λ (f : RxCallback ℕ). (f d pkts n 40000).0 ≤ 40000) (sym (Memᴰ.eq_of_singleton m))
      (omega arith)

-- so many packets that their number is negative as a signed 16-bit integer
rx_burst_lem_example :
    (rx_burst fills (drops_last ∷ []) 1 (λ i. 0) 40000
      ≡ in_turn (drops_last ∷ []) 40000 (40000, λ i. 100 + i, 2))
    × ((rx_burst fills (drops_last ∷ []) 1 (λ i. 0) 40000).0 ≤ 40000)
rx_burst_lem_example =
    rx_burst_lem 40000 (omega arith) fills (drops_last ∷ []) 1 (λ i. 0) (omega arith) drops_last-le

received : (rx_burst fills (drops_last ∷ []) 1 (λ i. 0) 40000).0 ≡ 39999
unfolding rx_burst run_rx_callbacks to_int16 to_uint16
received = refl

-- a device of two queues that counts three packets in each, and has no other function
abbrev counting : Device ℕ
counting = record {
  nb_rx_queues = 2;
  rx_queues = λ q. 5000 + q;
  tx_queues = λ q. 6000 + q;
  rx_queue_count = some (λ q. ℤ.pos 3);
  rx_descriptor_done = none;
  rx_descriptor_status = some (λ queue offset. ℤ.pos (queue + offset));
  tx_descriptor_status = none;
  tx_pkt_prepare = none;
}

abbrev only_port_0 : ℕ → Bool
only_port_0 port = ltb port 1

counts :
    (rx_queue_count only_port_0 (λ p. counting) 0 1 ≡ ℤ.pos 3)
    × (rx_queue_count only_port_0 (λ p. counting) 0 2 ≡ ℤ.negsuc 21)
    × (rx_queue_count only_port_0 (λ p. counting) 1 0 ≡ ℤ.negsuc 21)
unfolding rx_queue_count
counts = (refl, refl, refl)

descriptors :
    (rx_descriptor_done only_port_0 (λ p. counting) 0 0 7 ≡ ℤ.negsuc 94)
    × (rx_descriptor_done only_port_0 (λ p. counting) 1 0 7 ≡ minus_enodev)
    × (rx_descriptor_status only_port_0 (λ p. counting) 0 1 7 ≡ ℤ.pos 5008)
    × (tx_descriptor_status only_port_0 (λ p. counting) 0 1 7 ≡ ℤ.negsuc 94)
unfolding rx_descriptor_done rx_descriptor_status tx_descriptor_status
descriptors = (refl, refl, refl, refl)

-- with nothing to prepare, all packets are ready
prepares : (tx_prepare only_port_0 (λ p. counting) 0 1 7 (λ i. i) 32).0 ≡ 32
unfolding tx_prepare
prepares = refl
