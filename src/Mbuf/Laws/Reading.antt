-- ===== src/Mbuf/Laws/Reading.antt =====
-- When `rte_pktmbuf_read` points into the first segment.
use dpdk_cr.Common.{
  ℕ, ◌+◌, ◌≤◌, ◌<◌, ◌≡◌, ◌⊎◌, inl, inr, leb, Bool-cases, u16, u32, add32, refl, arith,
}
use dpdk_cr.Mbuf.Heap.{Heap}
use dpdk_cr.Mbuf.Segment.{mtod_offset}
use dpdk_cr.Mbuf.Read.{read}

sum-cases :
    (off len d : ℕ)
    → off < u32
    → len < u32
    → add32 off len ≤ d
    → (off + len ≤ d) ⊎ (u32 ≤ off + len) × (off + len ≤ u32 + d)
sum-cases off len d off_lt len_lt le = ground arith

-- For a 32-bit offset and length and a segment shorter than 2^16, a read points into the first segment
-- when all of its bytes are there, but also when the sum of the two wraps around 32 bits to so small a
-- number; it leaves the work to `__rte_pktmbuf_read` when the sum is greater than the segment's length
-- and does not wrap, or wraps to a number greater than that length.
pub read_lem :
    (copy_out : Heap → (m off len buf : ℕ) → ℕ) (h : Heap) (m off len buf : ℕ)
    → off < u32
    → len < u32
    → (h m).data_len < u16
    → ((off + len ≤ (h m).data_len) × (read copy_out h m off len buf ≡ mtod_offset (h m) off)
        ⊎ ((u32 ≤ off + len)
            × (off + len ≤ u32 + (h m).data_len)
            × (read copy_out h m off len buf ≡ mtod_offset (h m) off)))
      ⊎ (((h m).data_len < off + len)
          × ((off + len < u32) ⊎ (u32 + (h m).data_len < off + len))
          × (read copy_out h m off len buf ≡ copy_out h m off len buf))
unfolding read
read_lem copy_out h m off len buf off_lt len_lt small =
    elim (Bool-cases (leb (add32 off len) ((h m).data_len))) [
      | inl in_place ↦ rw in_place (
          inl (elim (sum-cases off len ((h m).data_len) off_lt len_lt (ground arith)) [
            | inl exact ↦ inl (exact, refl)
            | inr (wrapped, low) ↦ inr (wrapped, low, refl)
          ]))
      | inr elsewhere ↦ rw elsewhere (inr (ground arith, ground arith, refl))
    ]
