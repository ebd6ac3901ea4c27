-- ===== src/Ethdev/Laws.antt =====
-- No packet is lost, sent twice or sent out of order by the buffer.
use dpdk_cr.Common.{
  ℕ, ◌+◌, ◌-◌, ◌≤◌, ◌<◌, ◌≡◌, refl, sym, ap, ap₂, ◌∙◌, ltb, ltb→lt, ◌==◌, ==_iff, Bool, true, false,
  Bool-cases, inl, inr, if◌then◌else◌, List, [], ◌∷◌, ◌++◌, append-nil, append_assoc, map, Table,
  store, tabulate, tabulate-add, tabulate-ext, store-at, store-other, u16, add16, arith,
}
use dpdk_cr.Ethdev.Tx.{TxBuffer, World, Driver, tx_burst, run_callbacks, tx_buffer_flush, tx_buffer}

abbrev pub packets : List (Bool × ℕ) → List ℕ
packets qs = map (λ (q : Bool × ℕ). q.1) qs

packets-append : (xs ys : List (Bool × ℕ)) → packets (xs ++ ys) ≡ packets xs ++ packets ys
packets-append [] ys = refl
packets-append (x ∷ xs) ys = ap (λ r. x.1 ∷ r) (packets-append xs ys)

packets-marked : (t : Bool) (xs : List ℕ) → packets (map (λ (p : ℕ). (t, p)) xs) ≡ xs
packets-marked t [] = refl
packets-marked t (x ∷ xs) = ap (λ r. x ∷ r) (packets-marked t xs)

-- The packets that were taken and those that were not are the first `nb` of the array.
handed :
    (sent nb : ℕ) (pkts : Table ℕ)
    → sent ≤ nb
    → packets (
        if sent == nb
        then map (λ (p : ℕ). (true, p)) (tabulate sent pkts)
        else map (λ (p : ℕ). (true, p)) (tabulate sent pkts)
          ++ map (λ (p : ℕ). (false, p)) (tabulate (nb - sent) (λ k. pkts (sent + k))))
      ≡ tabulate nb pkts
handed sent nb pkts le = elim (Bool-cases (sent == nb)) [
  | inl all ↦ rw all (
      packets-marked true (tabulate sent pkts)
      ∙ ap (λ (n : ℕ). tabulate n pkts) ((==_iff sent nb).0 all))
  | inr some_left ↦ rw some_left (
      packets-append (map (λ (p : ℕ). (true, p)) (tabulate sent pkts)) _
      ∙ ap₂ ◌++◌ (packets-marked true (tabulate sent pkts)) (packets-marked false _)
      ∙ sym (tabulate-add sent (nb - sent) pkts)
      ∙ ap (λ (n : ℕ). tabulate n pkts) (omega arith))
]

-- the packets that the buffer was ever given, in order: those that are gone, and those it holds
unfoldable pub given : {D : Type 0} → TxBuffer → World D → List ℕ
given b w = packets w.gone ++ tabulate b.length b.pkts

given-store :
    {D : Type 0}
    → (b : TxBuffer) (p : ℕ) (w : World D) → b.length + 1 < u16
    → given (record b { pkts = store b.pkts b.length p; length = add16 b.length 1 }) w
      ≡ given b w ++ p ∷ []
unfolding given tabulate
given-store b p w small =
    ap (λ ps. packets w.gone ++ ps)
      (ap (λ (n : ℕ). tabulate n (store b.pkts b.length p)) {x = add16 b.length 1}
          {y = b.length + 1} (omega arith)
        ∙ tabulate-add b.length 1 (store b.pkts b.length p)
        ∙ ap₂ ◌++◌
            (tabulate-ext b.length (store b.pkts b.length p) b.pkts
              (λ k lt. store-other b.pkts b.length k p (ground arith)))
            (ap (λ (q : ℕ). q ∷ [])
              (ap (store b.pkts b.length p) (omega arith) ∙ store-at b.pkts b.length p)))
    ∙ sym (append_assoc (packets w.gone) (tabulate b.length b.pkts) (p ∷ []))

module _ {D : Type 0} (driver : Driver D)
    (bounded : (d : D) (pkts : Table ℕ) (nb : ℕ) → (driver d pkts nb).0 ≤ nb) where
  -- With a driver that takes no more packets than it is given, a flush without callbacks hands every packet of the buffer to the driver or to the error callback, and
  -- leaves it empty.
  tx_buffer_flush_lem :
      (b : TxBuffer) (w : World D)
      → let (sent, b', w') = tx_buffer_flush driver [] b w in
        (given b' w' ≡ given b w) × (b'.length ≡ 0) × (b'.size ≡ b.size) × (sent ≤ b.length)
  unfolding tx_buffer_flush tx_burst run_callbacks given tabulate
  tx_buffer_flush_lem b w = elim (Bool-cases (b.length == 0)) [
    | inl empty ↦ rw empty (refl, (==_iff b.length 0).0 empty, refl, omega arith)
    | inr some_left ↦ rw some_left (
      append-nil _
          ∙ packets-append w.gone _
          ∙ ap (λ ps. packets w.gone ++ ps)
              (handed (driver w.device b.pkts b.length).0 b.length b.pkts (bounded _ _ _)),
      refl,
      refl,
      bounded _ _ _,
    )
  ]

  -- With such a driver, and a buffer of fewer than 2 ^ 16 packets that has room, buffering a packet
  -- without callbacks adds it behind all packets given so far: each of them is with
  -- the driver, with the error callback or in the buffer, once and in order. The buffer has room again.
  pub tx_buffer_lem :
      (b : TxBuffer) (p : ℕ) (w : World D)
      → b.length < b.size
      → b.size < u16
      → let (sent, b', w') = tx_buffer driver [] b p w in
        (given b' w' ≡ given b w ++ p ∷ []) × (b'.length < b'.size) × (b'.size ≡ b.size)
  unfolding tx_buffer
  tx_buffer_lem b p w room small =
      let next = record b { pkts = store b.pkts b.length p; length = add16 b.length 1 } in
      let added : given next w ≡ given b w ++ p ∷ [] = given-store b p w (omega arith) in
      elim (Bool-cases (ltb (add16 b.length 1) b.size)) [
        | inl more ↦ rw more (added, ltb→lt _ _ more, refl)
        | inr full ↦ rw full (
            let (kept, empty, same, _) = tx_buffer_flush_lem next w in
            (kept ∙ added, omega (arith, empty, same), same))
      ]
