-- ===== src/Mbuf/Tests/Clone.antt =====
-- Cloning the packet of two segments of the other tests.
use dpdk_cr.Common.{add16, ℕ, ◌≡◌, refl, true, false, if◌then◌else◌, some, [], ◌∷◌, arith}
use dpdk_cr.Memcpy.Machine.{Machine}
use dpdk_cr.Mbuf.Heap.{Heap}
use dpdk_cr.Mbuf.Free.{Env, State, is_indirect}
use dpdk_cr.Mbuf.Clone.{clone}
use dpdk_cr.Mbuf.Laws.Packet.{mem, IsPacket, total}
use dpdk_cr.Mbuf.Laws.Chained.{within}
use dpdk_cr.Mbuf.Laws.Linking.{referenced}
use dpdk_cr.Mbuf.Laws.Clones.{Fresh, Clones, last_clone}
use dpdk_cr.Mbuf.Laws.Headed.{clone_list}
use dpdk_cr.Mbuf.Laws.Cloned.{clone_lem}
use dpdk_cr.Mbuf.Tests.{heap, two_segments}

abbrev pub env : Env
env = record {
  private_data = λ pool. record { mbuf_data_room_size = 256; mbuf_priv_size = 0 };
  virt2iova = λ m. m;
  pktmbuf_headroom = 128;
  machine = Machine.has_neither;
}

abbrev pub state : State
state = record { heap = heap; puts = [] }

pub both_direct : (a : ℕ) → within a (1000 ∷ []) 2000 ≡ true → is_indirect (heap a) ≡ false
unfolding is_indirect
both_direct a w = ground arith

pub fresh : Fresh (5000 ∷ 6000 ∷ 7000 ∷ []) (1000 ∷ []) 2000
unfolding Fresh within mem
fresh = ((refl, refl, refl, (refl, refl, refl, (refl, refl, refl, tt))))

two-Fresh : Fresh (5000 ∷ 6000 ∷ []) (1000 ∷ []) 2000
unfolding Fresh within mem
two-Fresh = (refl, refl, refl, (refl, refl, refl, tt))

clone_lem_example :
    (h' : Heap) × (clone env 2 (5000 ∷ 6000 ∷ 7000 ∷ []) state 1000
      ≡ some (5000, record state { heap = h' }))
    × IsPacket h' 5000
        (clone_list 5000 (6000 ∷ []) (1000 ∷ []))
        (last_clone 5000 (6000 ∷ []) (1000 ∷ []))
    × (total h' (clone_list 5000 (6000 ∷ []) (1000 ∷ [])) (last_clone 5000 (6000 ∷ []) (1000 ∷ []))
        ≡ total heap (1000 ∷ []) 2000)
    × Clones heap h' 5000 (6000 ∷ []) (1000 ∷ []) 2000
    × ((a : ℕ)
        → h' a ≡ (
            if within a (1000 ∷ []) 2000
            then referenced (heap a)
            else if mem a (5000 ∷ 6000 ∷ [])
            then h' a
            else heap a))
    × ((a : ℕ)
        → ((h' a).refcnt
            ≡ (if within a (1000 ∷ []) 2000 then add16 (heap a).refcnt 1 else (heap a).refcnt))
          × ((h' a).pool ≡ (heap a).pool))
clone_lem_example =
    clone_lem env 2 state 1000 (1000 ∷ []) 2000 5000 (6000 ∷ []) two_segments both_direct two-Fresh
      (7000 ∷ []) (omega arith) refl
