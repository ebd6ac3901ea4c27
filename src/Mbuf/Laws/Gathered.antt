-- ===== src/Mbuf/Laws/Gathered.antt =====
-- The loop of `rte_pktmbuf_linearize`: the bytes of segments that are stored one behind the other.
use dpdk_cr.Common.{
  tabulate, test-sym, or-left, ℕ, ◌+◌, ◌-◌, ◌≤◌, ◌<◌, ◌≡◌, ◌⊎◌, refl, ap, ◌∙◌, inl, inr, ltb, leb,
  ◌&&◌, Bool-cases, true, false, if◌then◌else◌, List, [], ◌∷◌, ◌==◌, arith,
}
use dpdk_cr.Memcpy.Memory.{Memory, move}
use dpdk_cr.Mbuf.Heap.{Mbuf, Heap}
use dpdk_cr.Mbuf.Segment.{mtod_offset}
use dpdk_cr.Mbuf.Laws.Packet.{mem, total}
use dpdk_cr.Mbuf.Laws.Chained.{within}

-- byte `i` of the data in the segments
unfoldable pub byte : Heap → Memory → List ℕ → ℕ → ℕ → ℕ
byte h m [] l i = m (mtod_offset (h l) 0 + i)
byte h m (a ∷ ss) l i =
    if ltb i (h a).data_len then m (mtod_offset (h a) 0 + i) else byte h m ss l (i - (h a).data_len)

-- the data of the packet
unfoldable pub packet_content : Heap → Memory → List ℕ → ℕ → List ℕ
packet_content h m ss l = tabulate (total h ss l) (byte h m ss l)

-- the data of the segments copied to `buffer`, one after the other
unfoldable pub gathered : Heap → Memory → ℕ → List ℕ → ℕ → Memory
gathered h m buffer [] l = move (h l).data_len buffer (mtod_offset (h l) 0) m
gathered h m buffer (a ∷ ss) l =
    gathered h (move (h a).data_len buffer (mtod_offset (h a) 0) m) (buffer + (h a).data_len) ss l

-- None of the segments has data from `lo` on and before `hi`.
abbrev pub Clear : Heap → (lo hi : ℕ) → List ℕ → ℕ → Type 0
Clear h lo hi ss l =
    (a : ℕ)
    → within a ss l ≡ true
    → (mtod_offset (h a) 0 + (h a).data_len ≤ lo) ⊎ (hi ≤ mtod_offset (h a) 0)

pub byte-other :
    (h h' : Heap) (m : Memory) (x : ℕ) (ss : List ℕ) (l : ℕ)
    → ((a : ℕ) → (a == x) ≡ false → h' a ≡ h a)
    → within x ss l ≡ false
    → (i : ℕ) → byte h' m ss l i ≡ byte h m ss l i
unfolding byte within mem
byte-other h h' m x [] l same out i =
    ap (λ (y : Mbuf). m (mtod_offset y 0 + i)) (same l (test-sym x l (or-left _ _ out)))
byte-other h h' m x (a ∷ ss) l same out i = rw (same a (test-sym x a (ground arith))) (
    ap (λ r. if ltb i (h a).data_len then m (mtod_offset (h a) 0 + i) else r)
      (byte-other h h' m x ss l same (ground arith) (i - (h a).data_len)))

module _ (h : Heap) (lo hi : ℕ) where
  pub Clear-tail : (a : ℕ) (ss : List ℕ) (l : ℕ) → Clear h lo hi (a ∷ ss) l → Clear h lo hi ss l
  unfolding within mem
  Clear-tail a ss l clear b w = clear b (ground arith)

  -- Bytes written between `lo` and `hi` are not bytes of the segments.
  byte-move :
      (m : Memory) (k dst src : ℕ) (ss : List ℕ) (l : ℕ)
      → Clear h lo hi ss l
      → lo ≤ dst
      → dst + k ≤ hi
      → (i : ℕ) → i < total h ss l
      → byte h (move k dst src m) ss l i ≡ byte h m ss l i
  unfolding byte move total within mem
  byte-move m k dst src [] l clear above below i lt = ground (arith, clear l (ground arith))
  byte-move m k dst src (a ∷ ss) l clear above below i lt =
      elim (Bool-cases (ltb i (h a).data_len)) [
        | inl here ↦ rw here (ground (arith, clear a (ground arith)))
        | inr later ↦ rw later (
            byte-move m k dst src ss l (Clear-tail a ss l clear) above below (i - (h a).data_len)
              (ground arith))
      ]

  first_and_rest :
      (m : Memory) (buffer a : ℕ) (ss : List ℕ) (l : ℕ)
      → Clear h lo hi (a ∷ ss) l
      → lo ≤ buffer
      → buffer + total h (a ∷ ss) l ≤ hi
      → (x : ℕ)
      → (if leb (buffer + (h a).data_len) x && ltb x (buffer + (h a).data_len + total h ss l)
          then byte h
              (move (h a).data_len buffer (mtod_offset (h a) 0) m)
              ss
              l
              (x - (buffer + (h a).data_len))
          else move (h a).data_len buffer (mtod_offset (h a) 0) m x)
        ≡ (if leb buffer x && ltb x (buffer + total h (a ∷ ss) l)
            then byte h m (a ∷ ss) l (x - buffer)
            else m x)
  unfolding byte total move
  first_and_rest m buffer a ss l clear above below x =
      let i = x - (buffer + (h a).data_len) in
      elim (Bool-cases
        (leb (buffer + (h a).data_len) x && ltb x (buffer + (h a).data_len + total h ss l))) [
          | inl later ↦ rw later (
              byte-move m (h a).data_len buffer (mtod_offset (h a) 0) ss l (Clear-tail a ss l clear)
                above (omega arith) i (ground arith)
              ∙ ap (byte h m ss l) {x = i} {y = x - buffer - (h a).data_len} (omega arith)
              ∙ ground arith)
          | inr not_later ↦ rw not_later (ground arith)
        ]

  pub gathered_lem :
      (m : Memory) (buffer : ℕ) (ss : List ℕ) (l : ℕ)
      → Clear h lo hi ss l
      → lo ≤ buffer
      → buffer + total h ss l ≤ hi
      → (x : ℕ)
      → gathered h m buffer ss l x ≡ (
          if leb buffer x && ltb x (buffer + total h ss l) then byte h m ss l (x - buffer) else m x)
  unfolding gathered byte move total
  gathered_lem m buffer [] l clear above below x = refl
  gathered_lem m buffer (a ∷ ss) l clear above below x =
      gathered_lem (move (h a).data_len buffer (mtod_offset (h a) 0) m) (buffer + (h a).data_len) ss
        l (Clear-tail a ss l clear) (omega arith) (omega arith) x
      ∙ first_and_rest m buffer a ss l clear above below x
