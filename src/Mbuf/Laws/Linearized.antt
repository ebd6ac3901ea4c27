-- ===== src/Mbuf/Laws/Linearized.antt =====
-- Linearizing a packet whose other segments are not attached to the buffers of others.
use dpdk_cr.Common.{
  leb, tabulate, tabulate-ext, ℕ, ◌+◌, ◌-◌, ◌^◌, ◌%◌, ◌≤◌, ◌<◌, ◌≡◌, ◌⊎◌, refl, sym, ap, ◌∙◌, subst,
  inl, inr, ltb, ◌&&◌, Bool-cases, true, false, if◌then◌else◌, some, List, [], ◌∷◌, ◌++◌, length,
  ◌==◌, ==_iff, test-sym, store, store-at, store-other, ℤ, u16, u32, sub32, arith,
}
use dpdk_cr.Memcpy.Memory.{Memory}
use dpdk_cr.Mbuf.Heap.{Mbuf, null}
use dpdk_cr.Mbuf.Segment.{tailroom, mtod_offset, headroom}
use dpdk_cr.Mbuf.Free.{Env, State}
use dpdk_cr.Mbuf.Linearize.{linearize_segs, linearize}
use dpdk_cr.Mbuf.Laws.Packet.{Fits, Segments, total, total-other, IsPacket}
use dpdk_cr.Mbuf.Laws.Chained.{within, outside}
use dpdk_cr.Mbuf.Laws.Freed.{freed, put_all, put_all-same, IsDirect, free_lem}
use dpdk_cr.Mbuf.Laws.Clones.{Segments-same}
use dpdk_cr.Mbuf.Laws.Gathered.{packet_content, byte, byte-other, gathered, gathered_lem, Clear}
use dpdk_cr.Mbuf.Laws.Linearizing.{linearize_segs-free}

module _ (env : Env) where
  module _ (fuel : ℕ) (s : State) (memory : Memory) (mbuf : ℕ) (ss : List ℕ) (l : ℕ)
      (packet : IsPacket s.heap mbuf (mbuf ∷ ss) l)
      (direct : (a : ℕ) → within a ss l ≡ true → IsDirect s.heap a)
      (small : total s.heap (mbuf ∷ ss) l < 2 ^ 31) where
    abbrev extended : State
    extended = record s {
      heap = store s.heap mbuf (record (s.heap mbuf) { data_len = (s.heap mbuf).pkt_len % u16 });
    }

    rest : Segments s.heap ((s.heap mbuf).next) ss l
    unfolding Segments
    rest = packet.segments.5

    parts :
        Fits s.heap mbuf
        × ((s.heap mbuf).pkt_len ≡ (s.heap mbuf).data_len + total s.heap ss l)
        × (((s.heap mbuf).nb_segs == 1) ≡ false)
        × (within mbuf ss l ≡ false)
    unfolding Segments total within
    parts = (
      packet.segments.4,
      omega (arith, packet.bytes, small),
      ground (arith, packet.count, packet.few),
      ground (arith, packet.segments.2, packet.segments.3),
    )

    here : Mbuf
    here = s.heap mbuf

    start : ℕ
    start = mtod_offset (s.heap mbuf) (s.heap mbuf).data_len

    extended-other : (a : ℕ) → (a == mbuf) ≡ false → extended.heap a ≡ s.heap a
    extended-other a other = store-other s.heap mbuf a _ other

    extended-within : (a : ℕ) → within a ss l ≡ true → extended.heap a ≡ s.heap a
    extended-within a w = extended-other a (test-sym mbuf a (outside mbuf a ss l parts.3 w))

    extended-total : total extended.heap ss l ≡ total s.heap ss l
    unfolding Segments
    extended-total =
        total-other s.heap extended.heap mbuf ss l
          (λ a other. ap (λ (y : Mbuf). y.data_len) (extended-other a other)) packet.segments.3
          packet.segments.2

    module _ (clear : Clear s.heap start (start + total s.heap ss l) ss l)
        (enough : length ss + 1 < fuel) where
      looped :
          (s' : State) × (linearize_segs env fuel extended memory start ((s.heap mbuf).next)
            ≡ some (s', gathered extended.heap memory start ss l))
          × ((a : ℕ)
              → s'.heap a ≡ (if within a ss l then freed (extended.heap a) else extended.heap a))
          × (s'.puts ≡ s.puts ++ put_all s.heap ss l)
      looped =
          let rest' : Segments extended.heap ((s.heap mbuf).next) ss l =
            Segments-same s.heap extended.heap ((s.heap mbuf).next) ss l extended-within rest in
          let direct' : (a : ℕ) → within a ss l ≡ true → IsDirect extended.heap a =
            λ a w. rw (extended-within a w) (direct a w) in
          let (s', ran, heap, puts) =
            free_lem env fuel extended ((s.heap mbuf).next) ss l rest' direct' enough in
          (
            s',
            linearize_segs-free env fuel extended s' memory start ((s.heap mbuf).next) ss l start
                (start + total s.heap ss l) rest' direct'
                (λ a w. rw (extended-within a w) (clear a w)) (omega arith)
                (omega (arith, extended-total)) enough ran,
            heap,
            puts
                ∙ ap (λ ps. s.puts ++ ps)
                    (put_all-same env s.heap extended.heap mbuf ss l extended-other parts.3),
          )

    gathered-byte :
        Clear s.heap start (start + total s.heap ss l) ss l
        → (i : ℕ) → i < total s.heap (mbuf ∷ ss) l
        → gathered extended.heap memory start ss l (mtod_offset here 0 + i)
          ≡ byte s.heap memory (mbuf ∷ ss) l i
    unfolding byte total here start
    gathered-byte clear i lt =
        gathered_lem extended.heap start (start + total s.heap ss l) memory start ss l
          (λ a w. rw (extended-within a w) (clear a w)) (omega arith)
          (omega (arith, extended-total)) (mtod_offset here 0 + i)
        ∙ elim (Bool-cases (ltb i (s.heap mbuf).data_len)) [
          | inl first ↦ rw first (ground arith)
          | inr later ↦ rw later (
              ground (
                arith,
                extended-total,
                ap (byte extended.heap memory ss l) {x = mtod_offset here 0 + i - start}
                    {y = i - (s.heap mbuf).data_len} (omega arith),
              )
              ∙ byte-other s.heap extended.heap memory mbuf ss l extended-other parts.3
                  (i - (s.heap mbuf).data_len))
        ]

    copies : sub32 here.pkt_len here.data_len ≡ total s.heap ss l
    unfolding here total
    copies = omega (arith, parts.1, small)

    tailroom-here : tailroom here ≡ here.buf_len - here.data_off - here.data_len
    unfolding here tailroom headroom
    tailroom-here = omega (arith, parts.0)

    -- behind the loop, the first segment is the packet
    abbrev ended : State → State
    ended s' = record s' {
      heap = store s'.heap mbuf (record (s'.heap mbuf) { next = null; nb_segs = 1 });
    }

    module _ (room : here.data_off + total s.heap (mbuf ∷ ss) l ≤ here.buf_len) where
      pkt_len-total : here.pkt_len % u16 ≡ total s.heap (mbuf ∷ ss) l
      unfolding total here
      pkt_len-total = omega (arith, parts.1, parts.0, room)

      module _ (s' : State)
          (heap : (a : ℕ)
            → s'.heap a
              ≡ (if within a ss l then freed (extended.heap a) else extended.heap a)) where
        whole : Mbuf
        whole = record here { data_len = here.pkt_len % u16; next = null; nb_segs = 1 }

        heap-mbuf : s'.heap mbuf ≡ record here { data_len = here.pkt_len % u16 }
        unfolding here
        heap-mbuf = heap mbuf ∙ rw parts.3 (store-at s.heap mbuf _)

        ended-mbuf : (ended s').heap mbuf ≡ whole
        unfolding whole
        ended-mbuf =
            store-at s'.heap mbuf _
            ∙ ap (λ (y : Mbuf). record y { next = null; nb_segs = 1 }) heap-mbuf

        whole-Fits : (whole.data_off + whole.data_len ≤ whole.buf_len) × (whole.buf_len < u16)
        unfolding whole here total
        whole-Fits = (omega (arith, pkt_len-total, room), parts.0.1)

        whole-bytes : whole.pkt_len ≡ whole.data_len % u32
        unfolding whole here total
        whole-bytes = omega (arith, pkt_len-total, parts.1, parts.0, room)

        ended-IsPacket : IsPacket (ended s').heap mbuf [] mbuf
        unfolding Segments total whole
        ended-IsPacket = record {
          segments = (
            packet.segments.0,
            refl,
            ap (λ (y : Mbuf). y.next) ended-mbuf,
            subst (λ (y : Mbuf). (y.data_off + y.data_len ≤ y.buf_len) × (y.buf_len < u16))
                (sym ended-mbuf) whole-Fits,
          );
          count = ap (λ (y : Mbuf). y.nb_segs) ended-mbuf;
          few = omega arith;
          bytes = subst (λ (y : Mbuf). y.pkt_len ≡ y.data_len % u32) (sym ended-mbuf) whole-bytes;
        }

        ended-other :
            (a : ℕ)
            → (ended s').heap a
              ≡ (if a == mbuf then whole else if within a ss l then freed (s.heap a) else s.heap a)
        ended-other a = elim (Bool-cases (a == mbuf)) [
          | inl at ↦ rw at (ap (ended s').heap ((==_iff a mbuf).0 at) ∙ ended-mbuf)
          | inr other ↦ rw other (
              store-other s'.heap mbuf a _ other
              ∙ heap a
              ∙ ap (λ (y : Mbuf). if within a ss l then freed y else y) (extended-other a other))
        ]

        module _ (clear : Clear s.heap start (start + total s.heap ss l) ss l) where
          ended-packet_content :
              packet_content (ended s').heap (gathered extended.heap memory start ss l) [] mbuf
              ≡ packet_content s.heap memory (mbuf ∷ ss) l
          unfolding packet_content byte total here start whole tabulate
          ended-packet_content =
              ap
                (λ (y : Mbuf).
                  tabulate y.data_len
                    (λ i. gathered extended.heap memory start ss l (mtod_offset y 0 + i)))
                ended-mbuf
              ∙ ap
                  (λ (n : ℕ).
                    tabulate n
                      (λ i. gathered extended.heap memory start ss l (mtod_offset here 0 + i)))
                  pkt_len-total
              ∙ tabulate-ext (total s.heap (mbuf ∷ ss) l) _ _ (λ i lt. gathered-byte clear i lt)

      fits_all :
          (ltb (total s.heap ss l) (2 ^ 31)
            && ltb (here.buf_len - here.data_off - here.data_len) (total s.heap ss l))
          ≡ false
      unfolding here total
      fits_all = ground (arith, room)

      runs :
          (s' : State) (memory' : Memory)
          → linearize_segs env fuel extended memory start ((s.heap mbuf).next) ≡ some (s', memory')
          → linearize env fuel s memory mbuf ≡ some (ℤ.pos 0, ended s', memory')
      unfolding linearize here start
      runs s' memory' ran =
          let fits : (ltb (sub32 here.pkt_len here.data_len) (2 ^ 31)
                && ltb (tailroom here) (sub32 here.pkt_len here.data_len))
              ≡ false =
            rw (copies, tailroom-here) (fits_all) in
          rw (parts.2, fits, ran) refl

    refused :
        here.buf_len < here.data_off + total s.heap (mbuf ∷ ss) l
        → linearize env fuel s memory mbuf ≡ some (ℤ.negsuc 0, s, memory)
    unfolding linearize here total
    refused long =
        let stops : (ltb (total s.heap ss l) (2 ^ 31)
              && ltb (here.buf_len - here.data_off - here.data_len) (total s.heap ss l))
            ≡ true =
          ground (arith, long, small, parts.0) in
        let same : (ltb (sub32 here.pkt_len here.data_len) (2 ^ 31)
              && ltb (tailroom here) (sub32 here.pkt_len here.data_len))
            ≡ true =
          rw (copies, tailroom-here) stops in
        rw (parts.2, same) refl

    -- Linearizing a packet of several segments, the others direct and with counters that fit 16 bits, in
    -- all shorter than 2 ^ 31 bytes and with none of their data in the first segment's tailroom, ends. If
    -- all the data have room in the first segment, the result is 0 and a well-formed packet of this one
    -- segment with the same content; the other segments are freed in order, and no other mbuf changes.
    -- Otherwise the result is -1 and nothing changes.
    pub linearize_lem :
        Clear s.heap
          (mtod_offset (s.heap mbuf) (s.heap mbuf).data_len)
          (mtod_offset (s.heap mbuf) (s.heap mbuf).data_len + total s.heap ss l)
          ss
          l
        → length ss + 1 < fuel
        → (((s.heap mbuf).data_off + total s.heap (mbuf ∷ ss) l ≤ (s.heap mbuf).buf_len)
            × ((s' : State) × (memory' : Memory) × (linearize env fuel s memory mbuf
                  ≡ some (ℤ.pos 0, s', memory'))
                × IsPacket s'.heap mbuf [] mbuf
                × (packet_content s'.heap memory' [] mbuf
                    ≡ packet_content s.heap memory (mbuf ∷ ss) l)
                × ((a : ℕ)
                    → s'.heap a ≡ (
                        if a == mbuf
                        then record (s.heap mbuf) {
                          data_len = (s.heap mbuf).pkt_len % u16;
                          next = null;
                          nb_segs = 1;
                        }
                        else if within a ss l
                        then freed (s.heap a)
                        else s.heap a))
                × (s'.puts ≡ s.puts ++ put_all s.heap ss l)))
          ⊎ (((s.heap mbuf).buf_len < (s.heap mbuf).data_off + total s.heap (mbuf ∷ ss) l)
              × (linearize env fuel s memory mbuf ≡ some (ℤ.negsuc 0, s, memory)))
    unfolding here start whole
    linearize_lem clear enough =
        elim (Bool-cases (leb (here.data_off + total s.heap (mbuf ∷ ss) l) here.buf_len)) [
          | inl fits ↦
              let room : here.data_off + total s.heap (mbuf ∷ ss) l ≤ here.buf_len =
                ground (arith, fits) in
              let (s', ran, heap, puts) = looped clear enough in
              inl (
                room,
                (
                  ended s',
                  gathered extended.heap memory start ss l,
                  runs room s' _ ran,
                  ended-IsPacket room s' heap,
                  ended-packet_content room s' heap clear,
                  ended-other room s' heap,
                  puts,
                ),
              )
          | inr long ↦ inr (ground (arith, long), refused (ground (arith, long)))
        ]
