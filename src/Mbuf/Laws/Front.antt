-- ===== src/Mbuf/Laws/Front.antt =====
-- Prepending bytes to the first segment, and removing bytes from it.
use dpdk_cr.Common.{
  store-at, store-other, store-store, store_self, ℕ, ◌+◌, ◌%◌, ◌≤◌, ◌<◌, ◌≡◌, ◌⊎◌, refl, sym, ap,
  ap₂, ◌∙◌, subst, ltb, ltb→lt, le→ltb, ==_iff, ◌==◌, false, Bool-cases, inl, inr, List, [], ◌∷◌,
  u16, u32, add16, sub16, add32, sub32, store, arith,
}
use dpdk_cr.Mbuf.Heap.{Mbuf, Heap, null}
use dpdk_cr.Mbuf.Segment.{headroom, prepend, adj}
use dpdk_cr.Mbuf.Laws.Packet.{Fits, Segments, total, IsPacket, Segments-frame, total-first}

-- a new place and length of the data of `m`, and a new length of its packet
abbrev moved : Mbuf → (off d k : ℕ) → Mbuf
moved x off d k = record x { data_off = off; data_len = d; pkt_len = k }

module _ (h : Heap) (m off d k : ℕ) where
  moved-next : (a : ℕ) → (store h m (moved (h m) off d k) a).next ≡ (h a).next
  unfolding store
  moved-next a = ground arith

Segments-first : (h : Heap) (p : ℕ) (ss : List ℕ) (l : ℕ) → Segments h p ss l → Fits h p
unfolding Segments
Segments-first h p [] l s = subst (Fits h) (sym s.1) s.3
Segments-first h p (a ∷ ss) l s = subst (Fits h) (sym s.1) s.4

module _ (h : Heap) (m : ℕ) (ss : List ℕ) (l : ℕ) (packet : IsPacket h m ss l) where
  -- A packet stays one when the data of its first segment move and fit, and its length is the new sum.
  moved-IsPacket :
      (off d k : ℕ)
      → off + d ≤ (h m).buf_len
      → ((t : ℕ) → t + (h m).data_len ≡ total h ss l + d → k ≡ t % u32)
      → IsPacket (store h m (moved (h m) off d k)) m ss l
        × (total (store h m (moved (h m) off d k)) ss l + (h m).data_len ≡ total h ss l + d)
  moved-IsPacket off d k fits sum =
      let h' = store h m (moved (h m) off d k) in
      let changed : total h' ss l + (h m).data_len ≡ total h ss l + d =
        total-first h h' m ss l packet.segments
          (λ a ne. ap (λ x. x.data_len) (store-other h m a (moved (h m) off d k) ne))
        ∙ ap (λ x. total h ss l + x.data_len) (store-at h m (moved (h m) off d k)) in
      let fit : (a : ℕ) → Fits h a → Fits h' a = λ a fits'. elim (Bool-cases (a == m)) [
        | inl same ↦ subst (Fits h') (sym ((==_iff a m).0 same)) (
            rw (store-at h m (moved (h m) off d k))
              (fits, subst (λ b. (h b).buf_len < u16) ((==_iff a m).0 same) fits'.1))
        | inr other ↦ rw (store-other h m a (moved (h m) off d k) other) fits'
      ] in
      (
        record {
          segments = Segments-frame h h' (moved-next h m off d k) fit m ss l packet.segments;
          count = ap (λ x. x.nb_segs) (store-at h m (moved (h m) off d k)) ∙ packet.count;
          few = packet.few;
          bytes =
              ap (λ x. x.pkt_len) (store-at h m (moved (h m) off d k))
              ∙ sum (total h' ss l) changed;
        },
        changed,
      )

  -- Prepending takes `len` bytes from the headroom of the first segment and returns where they begin,
  -- or, where there is less headroom, NULL, and nothing has changed.
  pub prepend_lem :
      (len : ℕ)
      → let (start, h') = prepend h m len in
        ((len ≤ headroom (h m))
            × (start + len ≡ (h m).buf_addr + (h m).data_off)
            × IsPacket h' m ss l
            × (total h' ss l ≡ total h ss l + len)
          ⊎ (headroom (h m) < len) × (start ≡ null) × (h' ≡ h))
  unfolding prepend headroom
  prepend_lem len =
      let (fits, small) = Segments-first h m ss l packet.segments in
      elim (Bool-cases (ltb ((h m).data_off) len)) [
        | inl full ↦ rw full (inr (ltb→lt ((h m).data_off) len full, refl, refl))
        | inr free ↦
            let room : len ≤ (h m).data_off = ground arith in
            let (longer, sum) =
              moved-IsPacket (sub16 ((h m).data_off) len) (add16 ((h m).data_len) len)
                (add32 ((h m).pkt_len) len) (omega arith)
                (λ t grown. omega (arith, packet.bytes)) in
            rw free (inl (room, omega arith, longer, omega (arith, sum)))
      ]

  -- Removing bytes at the beginning takes `len` bytes off the first segment and returns where the rest
  -- begins, or, where it has fewer, NULL, and nothing has changed.
  pub adj_lem :
      (len : ℕ)
      → let (start, h') = adj h m len in
        ((len ≤ (h m).data_len)
            × (start ≡ (h m).buf_addr + (h m).data_off + len)
            × IsPacket h' m ss l
            × (total h' ss l + len ≡ total h ss l)
          ⊎ ((h m).data_len < len) × (start ≡ null) × (h' ≡ h))
  unfolding adj
  adj_lem len =
      let (fits, small) = Segments-first h m ss l packet.segments in
      elim (Bool-cases (ltb ((h m).data_len) len)) [
        | inl short ↦ rw short (inr (ltb→lt ((h m).data_len) len short, refl, refl))
        | inr long ↦
            let room : len ≤ (h m).data_len = ground arith in
            let (shorter, sum) =
              moved-IsPacket (add16 ((h m).data_off) len) (sub16 ((h m).data_len) len)
                (sub32 ((h m).pkt_len) len) (omega arith)
                (λ t grown. omega (arith, packet.bytes)) in
            rw long (inl (room, omega arith, shorter, omega (arith, sum)))
      ]

moved-back :
    (x : Mbuf) (off d k off' d' k' : ℕ)
    → off' ≡ x.data_off
    → d' ≡ x.data_len
    → k' ≡ x.pkt_len
    → moved (moved x off d k) off' d' k' ≡ x
moved-back x off d k off' d' k' o e f = rw (o, e, f) refl

store-back : (h : Heap) (m : ℕ) (x y : Mbuf) → y ≡ h m → store (store h m x) m y ≡ h
store-back h m x y same = store-store h m x y ∙ ap (store h m) same ∙ store_self h m

-- Removing what was prepended restores every mbuf, and the start of the data.
pub adj-prepend :
    (h : Heap) (m : ℕ) (ss : List ℕ) (l : ℕ)
    → IsPacket h m ss l
    → (len : ℕ) → len ≤ headroom (h m)
    → adj (prepend h m len).1 m len ≡ ((h m).buf_addr + (h m).data_off, h)
unfolding prepend adj headroom
adj-prepend h m ss l packet len room =
    let free : ltb ((h m).data_off) len ≡ false = le→ltb ((h m).data_off) len room in
    let (fits, small) = Segments-first h m ss l packet.segments in
    let x =
      moved (h m) (sub16 ((h m).data_off) len) (add16 ((h m).data_len) len)
        (add32 ((h m).pkt_len) len) in
    let at : store h m x m ≡ x = store-at h m x in
    rw (free, at)
      (rw (le→ltb (x.data_len) len (omega arith)) (
        ap₂ (λ (o : ℕ) (t : Heap). ((h m).buf_addr + o, t)) (omega arith)
          (store-back h m x
            (moved x (add16 (x.data_off) len) (sub16 (x.data_len) len) (sub32 (x.pkt_len) len))
            (moved-back (h m) (x.data_off) (x.data_len) (x.pkt_len) (add16 (x.data_off) len)
              (sub16 (x.data_len) len) (sub32 (x.pkt_len) len) (omega arith) (omega arith)
              (omega (arith, packet.bytes))))))
