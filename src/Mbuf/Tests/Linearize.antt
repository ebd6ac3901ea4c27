-- ===== src/Mbuf/Tests/Linearize.antt =====
-- Linearizing the packet of two segments of the other tests.
use dpdk_cr.Common.{
  ℕ, ◌+◌, ◌%◌, ◌^◌, ◌≤◌, ◌<◌, ◌≡◌, ◌⊎◌, true, ◌==◌, if◌then◌else◌, some, [], ◌∷◌, ◌++◌, ℤ, u16,
  arith,
}
use dpdk_cr.Memcpy.Memory.{Memory}
use dpdk_cr.Memcpy.Machine.{Machine}
use dpdk_cr.Mbuf.Heap.{null}
use dpdk_cr.Mbuf.Free.{Env, State, is_indirect}
use dpdk_cr.Mbuf.Linearize.{linearize}
use dpdk_cr.Mbuf.Laws.Packet.{mem, IsPacket, total}
use dpdk_cr.Mbuf.Laws.Chained.{within}
use dpdk_cr.Mbuf.Laws.Freed.{freed, put_all, IsDirect}
use dpdk_cr.Mbuf.Laws.Gathered.{Clear, packet_content}
use dpdk_cr.Mbuf.Laws.Linearized.{linearize_lem}
use dpdk_cr.Mbuf.Tests.{heap, two_segments}

abbrev env : Env
env = record {
  private_data = λ pool. record { mbuf_data_room_size = 256; mbuf_priv_size = 0 };
  virt2iova = λ m. m;
  pktmbuf_headroom = 128;
  machine = Machine.has_neither;
}

abbrev state : State
state = record { heap = heap; puts = [] }

abbrev memory : Memory
memory a = a % 256

second-IsDirect : (a : ℕ) → within a [] 2000 ≡ true → IsDirect heap a
unfolding is_indirect
second-IsDirect a w = ground arith

second-Clear : Clear heap 1266 (1266 + total heap [] 2000) [] 2000
unfolding within mem total
second-Clear a w = ground arith

thirty : total heap (1000 ∷ []) 2000 < 2 ^ 31
unfolding total
thirty = omega arith

linearize_lem_example :
    (((heap 1000).data_off + total heap (1000 ∷ []) 2000 ≤ (heap 1000).buf_len)
      × ((s' : State) × (memory' : Memory) × (linearize env 2 state memory 1000
            ≡ some (ℤ.pos 0, s', memory'))
          × IsPacket s'.heap 1000 [] 1000
          × (packet_content s'.heap memory' [] 1000 ≡ packet_content heap memory (1000 ∷ []) 2000)
          × ((a : ℕ)
              → s'.heap a ≡ (
                  if a == 1000
                  then record (heap 1000) { data_len = 30 % u16; next = null; nb_segs = 1 }
                  else if within a [] 2000
                  then freed (heap a)
                  else heap a))
          × (s'.puts ≡ [] ++ put_all heap [] 2000)))
    ⊎ (((heap 1000).buf_len < (heap 1000).data_off + total heap (1000 ∷ []) 2000)
        × (linearize env 2 state memory 1000 ≡ some (ℤ.negsuc 0, state, memory)))
linearize_lem_example =
    linearize_lem env 2 state memory 1000 [] 2000 two_segments second-IsDirect thirty second-Clear
      (omega arith)
