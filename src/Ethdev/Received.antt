-- ===== src/Ethdev/Received.antt =====
-- What a received burst is behind its callbacks.
use mathlib.Core.List.{Memᴰ}
use dpdk_cr.Common.{
  ℕ, ◌^◌, ◌≤◌, ◌<◌, ◌≡◌, refl, ltb, Bool-cases, inl, inr, List, [], ◌∷◌, Table, u16, arith,
}
use dpdk_cr.Ethdev.Rx.{to_int16, to_uint16, RxDriver, RxCallback, run_rx_callbacks, rx_burst}

to_uint16-to_int16 : (x : ℕ) → x < u16 → to_uint16 (to_int16 x) ≡ x
unfolding to_uint16 to_int16
to_uint16-to_int16 x small = elim (Bool-cases (ltb x (2 ^ 15))) [
  | inl low ↦ rw low (omega arith)
  | inr high ↦ rw high (omega arith)
]

-- The callbacks one after the other, on the burst they are given, with no integer conversion.
unfoldable pub in_turn : {D : Type 0} → List (RxCallback D) → ℕ → ℕ × Table ℕ × D → ℕ × Table ℕ × D
in_turn [] nb_pkts burst = burst
in_turn (cb ∷ cbs) nb_pkts (nb, pkts, d) = in_turn cbs nb_pkts (cb d pkts nb nb_pkts)

module _ {D : Type 0} (nb_pkts : ℕ) (small : nb_pkts < u16) where
  run_rx_callbacks-in_turn :
      (cbs : List (RxCallback D)) (nb : ℕ) (pkts : Table ℕ) (d : D)
      → ((cb : RxCallback D)
          → Memᴰ cb cbs
          → (d : D) (pkts : Table ℕ) (n : ℕ) → n ≤ nb_pkts
          → (cb d pkts n nb_pkts).0 ≤ nb_pkts)
      → nb ≤ nb_pkts
      → ((in_turn cbs nb_pkts (nb, pkts, d)).0 ≤ nb_pkts)
        × (run_rx_callbacks cbs (to_int16 nb) pkts nb_pkts d
            ≡ let (n, ps, e) = in_turn cbs nb_pkts (nb, pkts, d) in (to_int16 n, ps, e))
  unfolding run_rx_callbacks in_turn
  run_rx_callbacks-in_turn [] nb pkts d keep le = (le, refl)
  run_rx_callbacks-in_turn (cb ∷ cbs) nb pkts d keep le =
      let same : to_uint16 (to_int16 nb) ≡ nb = to_uint16-to_int16 nb (omega (arith, le, small)) in
      let (n, ps, e) = cb d pkts nb nb_pkts in
      let rest =
        run_rx_callbacks-in_turn cbs n ps e (λ cb m. keep cb (Memᴰ.tail m))
          (keep cb (Memᴰ.head refl) d pkts nb le) in
      (rest.0, rw same rest.1)

  -- With a driver that stores no more packets than the array has room for, fewer than 2 ^ 16, and
  -- callbacks that keep to this room, receiving a burst gives what the callbacks, one after the other,
  -- make of the driver's burst, although the count passes through a signed 16-bit variable. The count
  -- is no more than was asked for.
  pub rx_burst_lem :
      (driver : RxDriver D) (cbs : List (RxCallback D)) (d : D) (pkts : Table ℕ)
      → (driver d pkts nb_pkts).0 ≤ nb_pkts
      → ((cb : RxCallback D)
          → Memᴰ cb cbs
          → (d : D) (pkts : Table ℕ) (n : ℕ) → n ≤ nb_pkts
          → (cb d pkts n nb_pkts).0 ≤ nb_pkts)
      → (rx_burst driver cbs d pkts nb_pkts ≡ in_turn cbs nb_pkts (driver d pkts nb_pkts))
        × ((rx_burst driver cbs d pkts nb_pkts).0 ≤ nb_pkts)
  unfolding rx_burst
  rx_burst_lem driver cbs d pkts bounded keep =
      let (n, ps, e) = driver d pkts nb_pkts in
      let (le, run) = run_rx_callbacks-in_turn cbs n ps e keep bounded in
      let back : to_uint16 (to_int16 ((in_turn cbs nb_pkts (n, ps, e)).0))
          ≡ (in_turn cbs nb_pkts (n, ps, e)).0 =
        to_uint16-to_int16 _ (omega (arith, le, small)) in
      (rw (run, back) refl, rw (run, back) le)
