-- ===== src/Mbuf/Laws/Offloads.antt =====
-- Which packets `rte_validate_tx_offload` takes, in terms of single flags.
use dpdk_cr.Common.{ℕ, ◌+◌, ◌/◌, ◌%◌, ◌^◌, ◌≤◌, ◌≡◌, ◌≢◌, ◌⊎◌, ◌==◌, Bool, true, false}
use dpdk_cr.Mbuf.Heap.{Mbuf}

-- the bit `k` of `ol_flags`
unfoldable pub flag : Mbuf → ℕ → Bool
flag m k = m.ol_flags / 2 ^ k % 2 == 1

-- The inner headers, behind the outer ones if these are asked for, end in the first segment.
abbrev pub HeadersFit : Mbuf → Type 0
HeadersFit m =
    let o = m.tx_offload in
    ((flag m 58 ≡ false) × (o.l2_len + o.l3_len + o.l4_len ≤ m.data_len))
    ⊎ ((flag m 58 ≡ true)
        × (o.outer_l2_len + o.outer_l3_len + o.l2_len + o.l3_len + o.l4_len ≤ m.data_len))

-- An IP checksum (54) is not for IPv6 (56); a checksum of layer 4 (52, 53) or segmentation (50) names the
-- IP version (55, 56); segmentation has a size, and over IPv4 an IP checksum; and an outer IP checksum
-- (58) is for outer IPv4 (59).
abbrev pub FlagsAgree : Mbuf → Type 0
FlagsAgree m =
    ((flag m 54 ≡ false) ⊎ (flag m 56 ≡ false))
    × (((flag m 50 ≡ false) × (flag m 52 ≡ false) × (flag m 53 ≡ false))
        ⊎ ((flag m 55 ≡ true) ⊎ (flag m 56 ≡ true)))
    × ((flag m 50 ≡ false)
        ⊎ ((m.tx_offload.tso_segsz ≢ 0) × ((flag m 55 ≡ false) ⊎ (flag m 54 ≡ true))))
    × ((flag m 58 ≡ false) ⊎ (flag m 59 ≡ true))
