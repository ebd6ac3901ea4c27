-- ===== src/Mbuf/Laws/Linearizing.antt =====
-- The loop of `rte_pktmbuf_linearize` over segments that are not attached to the buffers of others.
use dpdk_cr.Common.{
  ℕ, zero, suc, ◌+◌, ◌≤◌, ◌<◌, ◌≡◌, ◌⊎◌, refl, sym, ap, ap₂, ◌∙◌, subst, true, false, some, List,
  [], ◌∷◌, length, ◌==◌, test-sym, store, u16, arith,
}
use mathlib.Core.Option as Option
use dpdk_cr.Memcpy.Memory.{Memory, move}
use dpdk_cr.Memcpy.Laws.Whole.{memcpy_lem}
use dpdk_cr.Mbuf.Heap.{Heap, null}
use dpdk_cr.Mbuf.Segment.{mtod_offset}
use dpdk_cr.Mbuf.Free.{Env, State, is_indirect, free}
use dpdk_cr.Mbuf.Linearize.{linearize_segs}
use dpdk_cr.Mbuf.Laws.Packet.{mem, Segments, total}
use dpdk_cr.Mbuf.Laws.Chained.{within, outside, Segments-other}
use dpdk_cr.Mbuf.Laws.Freed.{
  freed, IsDirect, after, free-step, free-null, freed-Linked, free_seg-direct, store-freed,
}
use dpdk_cr.Mbuf.Laws.Gathered.{gathered, Clear}

-- Two heaps in which the data of every mbuf stand at the same place.
record SameData (h h' : Heap) : Type 0 where
  len : (a : ℕ) → (h' a).data_len ≡ (h a).data_len
  start : (a : ℕ) → mtod_offset (h' a) 0 ≡ mtod_offset (h a) 0

gathered-same :
    (h h' : Heap)
    → SameData h h'
    → (m : Memory) (buffer : ℕ) (ss : List ℕ) (l : ℕ)
    → gathered h' m buffer ss l ≡ gathered h m buffer ss l
unfolding gathered
gathered-same h h' same m buffer [] l = rw (same.len l, same.start l) refl
gathered-same h h' same m buffer (a ∷ ss) l =
    rw (same.len a, same.start a)
      (gathered-same h h' same (move (h a).data_len buffer (mtod_offset (h a) 0) m)
        (buffer + (h a).data_len) ss l)

total-SameData :
    (h h' : Heap) → SameData h h' → (ss : List ℕ) (l : ℕ) → total h' ss l ≡ total h ss l
unfolding total
total-SameData h h' same [] l = same.len l
total-SameData h h' same (a ∷ ss) l = ap₂ ◌+◌ (same.len a) (total-SameData h h' same ss l)

freed-SameData : (env : Env) (h : Heap) (b : ℕ) → SameData h (store h b (freed (h b)))
unfolding freed store
freed-SameData env h b = record { len = λ a. ground arith; start = λ a. ground arith }

module _ (env : Env) where
  -- the memory behind the segment at `q`
  abbrev copied : State → Memory → (buffer q : ℕ) → Memory
  copied s m buffer q = move (s.heap q).data_len buffer (mtod_offset (s.heap q) 0) m

  linearize-step :
      (fuel : ℕ) (s : State) (m : Memory) (buffer p q lo hi : ℕ)
      → p ≡ q
      → (q == null) ≡ false
      → IsDirect s.heap q
      → (mtod_offset (s.heap q) 0 + (s.heap q).data_len ≤ lo) ⊎ (hi ≤ mtod_offset (s.heap q) 0)
      → lo ≤ buffer
      → buffer + (s.heap q).data_len ≤ hi
      → linearize_segs env (suc fuel) s m buffer p
        ≡ linearize_segs env fuel
            (after env s q)
            (copied s m buffer q)
            (buffer + (s.heap q).data_len)
            ((s.heap q).next)
  unfolding linearize_segs
  linearize-step fuel s m buffer p q lo hi at q_ok direct clear above below =
      rw
        (
          at,
          q_ok,
          free_seg-direct env s q q_ok direct,
          memcpy_lem env.machine buffer (mtod_offset (s.heap q) 0) (s.heap q).data_len m
              (ground (arith, clear)),
        )
        refl

  linearize-null :
      (fuel : ℕ) (s : State) (m : Memory) (buffer : ℕ)
      → 0 < fuel
      → linearize_segs env fuel s m buffer null ≡ some (s, m)
  unfolding linearize_segs
  linearize-null zero s m buffer pos = absurd (omega arith)
  linearize-null (suc fuel) s m buffer pos = refl

  -- The loop frees as `rte_pktmbuf_free` does, and copies the data of the segments.
  pub linearize_segs-free :
      (fuel : ℕ) (s s' : State) (m : Memory) (buffer p : ℕ) (ss : List ℕ) (l lo hi : ℕ)
      → Segments s.heap p ss l
      → ((a : ℕ) → within a ss l ≡ true → IsDirect s.heap a)
      → Clear s.heap lo hi ss l
      → lo ≤ buffer
      → buffer + total s.heap ss l ≤ hi
      → length ss + 1 < fuel
      → free env fuel s p ≡ some s'
      → linearize_segs env fuel s m buffer p ≡ some (s', gathered s.heap m buffer ss l)
  unfolding Segments within mem total gathered
  linearize_segs-free zero s s' m buffer p ss l lo hi segments direct clear above below enough ran =
      absurd (omega arith)
  linearize_segs-free (suc fuel) s s' m buffer p [] l lo hi (p_ok, at, end, fits) direct clear above
        below enough ran =
      let l_ok : (l == null) ≡ false = ap (λ q. q == null) (sym at) ∙ p_ok in
      linearize-step fuel s m buffer p l lo hi at l_ok (direct l (ground arith))
        (clear l (ground arith)) above below
      ∙ ap
          (linearize_segs env fuel (after env s l) (copied s m buffer l)
            (buffer + (s.heap l).data_len))
          end
      ∙ linearize-null fuel (after env s l) (copied s m buffer l) (buffer + (s.heap l).data_len)
          (omega arith)
      ∙ ap (Option.map (λ t. (t, copied s m buffer l))) (
          sym (free-null env fuel (after env s l) (omega arith))
          ∙ sym (ap (free env fuel (after env s l)) end)
          ∙ sym (free-step env fuel s p l at l_ok (direct l (ground arith)))
          ∙ ran)
  linearize_segs-free (suc fuel) s s' m buffer p (b ∷ ss) l lo hi
        (p_ok, at, other, once, fits, rest) direct clear above below enough ran =
      let b_ok : (b == null) ≡ false = ap (λ q. q == null) (sym at) ∙ p_ok in
      let out : within b ss l ≡ false = ground arith in
      let kept : (a : ℕ) → (a == b) ≡ false → (after env s b).heap a ≡ s.heap a =
        λ a ne. store-freed env s.heap b a ∙ rw ne refl in
      let same : SameData s.heap (after env s b).heap = freed-SameData env s.heap b in
      linearize-step fuel s m buffer p b lo hi at b_ok (direct b (ground arith))
        (clear b (ground arith)) above (omega arith)
      ∙ linearize_segs-free fuel (after env s b) s' (copied s m buffer b)
          (buffer + (s.heap b).data_len) ((s.heap b).next) ss l lo hi
          (Segments-other s.heap (after env s b).heap b ((freed (s.heap b)).next)
            (freed-Linked env s.heap b) ((s.heap b).next) ss l rest out)
          (λ a w.
            subst (λ x. (is_indirect x ≡ false) × (x.refcnt < u16))
              (sym (kept a (test-sym b a (outside b a ss l out w)))) (direct a (ground arith)))
          (λ a w. rw (same.len a, same.start a) (clear a (ground arith))) (omega arith)
          (omega (arith, total-SameData s.heap (after env s b).heap same ss l, below)) (omega arith)
          (sym (free-step env fuel s p b at b_ok (direct b (ground arith))) ∙ ran)
      ∙ ap (λ k. some (s', k))
          (gathered-same s.heap (after env s b).heap same (copied s m buffer b)
            (buffer + (s.heap b).data_len) ss l)
