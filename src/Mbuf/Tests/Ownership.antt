-- ===== src/Mbuf/Tests/Ownership.antt =====
-- Allocating, attaching and freeing the segments of the other tests.
use dpdk_cr.Common.{
  ◌-◌, ◌≤◌, ◌<◌, ◌⊎◌, u32, ℕ, ◌+◌, ◌*◌, ◌≡◌, refl, true, if◌then◌else◌, some, [], ◌∷◌, ◌++◌, Table,
  ℤ, arith,
}
use dpdk_cr.Memcpy.Machine.{Machine}
use dpdk_cr.Mbuf.Heap.{Heap, null}
use dpdk_cr.Mbuf.Segment.{mtod_offset}
use dpdk_cr.Mbuf.Read.{read}
use dpdk_cr.Mbuf.Laws.Reading.{read_lem}
use dpdk_cr.Mbuf.Free.{Env, State, is_indirect, free}
use dpdk_cr.Mbuf.Alloc.{reset_some, alloc_bulk}
use dpdk_cr.Mbuf.Laws.Packet.{IsPacket, total}
use dpdk_cr.Mbuf.Laws.Chained.{within}
use dpdk_cr.Mbuf.Laws.Freed.{freed, put_all, IsDirect, free_lem}
use dpdk_cr.Mbuf.Laws.Allocated.{alloc_bulk_lem}
use dpdk_cr.Mbuf.Tests.{heap, two_segments}

abbrev env : Env
env = record {
  private_data = λ pool. record { mbuf_data_room_size = 256; mbuf_priv_size = 0 };
  virt2iova = λ m. m;
  pktmbuf_headroom = 128;
  machine = Machine.has_neither;
}

all-IsDirect : (a : ℕ) → within a (1000 ∷ []) 2000 ≡ true → IsDirect heap a
unfolding is_indirect
all-IsDirect a w = ground arith

free_lem_example :
    (s' : State) × (free env 4 (record { heap = heap; puts = [] }) 1000 ≡ some s')
    × ((a : ℕ) → s'.heap a ≡ (if within a (1000 ∷ []) 2000 then freed (heap a) else heap a))
    × (s'.puts ≡ [] ++ put_all heap (1000 ∷ []) 2000)
free_lem_example =
    free_lem env 4 (record { heap = heap; puts = [] }) 1000 (1000 ∷ []) 2000 two_segments.segments
      all-IsDirect (omega arith)

-- seven mbufs, so that the loop is entered with three repetitions to go
abbrev seven : Table ℕ
seven i = 1000 + i * 1000

alloc_bulk_lem_example :
    (h' : Heap) × (alloc_bulk 128 2 (ℤ.pos 0) seven 7 heap ≡ some (ℤ.pos 0, h'))
    × (h' ≡ reset_some 128 7 seven 0 heap)
    × IsPacket h' 6000 [] 6000
    × (total h' [] 6000 ≡ 0)
alloc_bulk_lem_example =
    alloc_bulk_lem 128 2 seven 7 heap 5 (omega arith) (omega arith) refl (omega arith)

-- an offset at the end of the 32-bit range, and two bytes
read_lem_example :
    let nothing : Heap → (m off len buf : ℕ) → ℕ = λ h m off len buf. null in
    ((u32 - 1 + 2 ≤ (heap 1000).data_len)
        × (read nothing heap 1000 (u32 - 1) 2 0 ≡ mtod_offset (heap 1000) (u32 - 1))
      ⊎ ((u32 ≤ u32 - 1 + 2)
          × (u32 - 1 + 2 ≤ u32 + (heap 1000).data_len)
          × (read nothing heap 1000 (u32 - 1) 2 0 ≡ mtod_offset (heap 1000) (u32 - 1))))
    ⊎ (((heap 1000).data_len < u32 - 1 + 2)
        × ((u32 - 1 + 2 < u32) ⊎ (u32 + (heap 1000).data_len < u32 - 1 + 2))
        × (read nothing heap 1000 (u32 - 1) 2 0 ≡ null))
read_lem_example =
    read_lem (λ h m off len buf. null) heap 1000 (u32 - 1) 2 0 (omega arith) (omega arith)
      (omega arith)
