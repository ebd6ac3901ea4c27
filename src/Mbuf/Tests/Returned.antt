-- ===== src/Mbuf/Tests/Returned.antt =====
-- Cloning the packet of two segments and freeing the clone, and a pool that runs empty on the way.
use dpdk_cr.Common.{ℕ, ◌≡◌, refl, if◌then◌else◌, some, [], ◌∷◌, ◌++◌, arith}
use dpdk_cr.Mbuf.Heap.{null}
use dpdk_cr.Mbuf.Free.{State, free}
use dpdk_cr.Mbuf.Clone.{clone}
use dpdk_cr.Mbuf.Laws.Packet.{mem}
use dpdk_cr.Mbuf.Laws.Chained.{within}
use dpdk_cr.Mbuf.Laws.Clones.{Fresh}
use dpdk_cr.Mbuf.Laws.Attachments.{put_clones}
use dpdk_cr.Mbuf.Laws.Short.{prefix, prefix_last}
use dpdk_cr.Mbuf.Laws.Pairs.{pairs}
use dpdk_cr.Mbuf.Laws.Returned.{OwnBuffers, Counted, Single, free-clone, clone_gives_up}
use dpdk_cr.Mbuf.Tests.{heap, two_segments}
use dpdk_cr.Mbuf.Tests.Clone.{env, state, both_direct, fresh}

both-OwnBuffers : OwnBuffers heap (1000 ∷ []) 2000
unfolding within mem
both-OwnBuffers a w = ground arith

both-Counted : Counted heap (1000 ∷ []) 2000
both-Counted a w = ground arith

new-Single : Single heap (5000 ∷ 6000 ∷ 7000 ∷ [])
new-Single a w = ground arith

one-Fresh : Fresh (5000 ∷ []) (1000 ∷ []) 2000
unfolding Fresh within mem
one-Fresh = (refl, refl, refl, tt)

one-Single : Single heap (5000 ∷ [])
one-Single a w = ground arith

free-clone_example :
    (s₁ s₂ : State) × (clone env 3 (5000 ∷ 6000 ∷ 7000 ∷ []) state 1000 ≡ some (5000, s₁))
    × (free env 3 s₁ 5000 ≡ some s₂)
    × ((a : ℕ) → s₂.heap a ≡ (if mem a (5000 ∷ 6000 ∷ 7000 ∷ []) then s₂.heap a else heap a))
    × (s₂.puts ≡ [] ++ put_clones heap (pairs 5000 (6000 ∷ 7000 ∷ []) (1000 ∷ []) 2000))
free-clone_example =
    free-clone env 3 state 1000 (1000 ∷ []) 2000 5000 (6000 ∷ 7000 ∷ []) two_segments both_direct
      fresh both-OwnBuffers both-Counted new-Single (omega arith) (omega arith)

clone_gives_up_example :
    (s₂ : State) × (clone env 3 (5000 ∷ []) state 1000 ≡ some (null, s₂))
    × ((a : ℕ) → s₂.heap a ≡ (if mem a (5000 ∷ []) then s₂.heap a else heap a))
    × (s₂.puts
        ≡ []
          ++ put_clones heap
              (pairs 5000 [] (prefix [] (1000 ∷ [])) (prefix_last [] (1000 ∷ []) 2000)))
clone_gives_up_example =
    clone_gives_up env 3 state 1000 (1000 ∷ []) 2000 5000 [] two_segments both_direct one-Fresh
      both-OwnBuffers both-Counted one-Single (omega arith) (omega arith)
