-- ===== src/Mbuf/Laws/Ends.antt =====
-- Appending and removing bytes at the end of the last segment.
use dpdk_cr.Common.{
  ℕ, ◌+◌, ◌-◌, ◌%◌, ◌≤◌, ◌<◌, ◌≡◌, ◌⊎◌, refl, sym, ap, ◌∙◌, ltb, ltb→lt, ==_iff, subst, ◌==◌, true,
  false, Bool-cases, inl, inr, if◌then◌else◌, some, List, [], ◌∷◌, length, u16, u32, add16, sub16,
  add32, sub32, ℤ, store, arith,
}
use dpdk_cr.Mbuf.Heap.{Heap, null}
use dpdk_cr.Mbuf.Segment.{headroom, tailroom, append_at, append, trim_at, trim}
use dpdk_cr.Mbuf.Laws.Packet.{
  Fits, Segments, total, IsPacket, lastseg-Segments, Segments-frame, total-last,
}

-- a new length of the data of `l`, and then of the packet at `m`
unfoldable pub resized : Heap → (m l d k : ℕ) → Heap
resized h m l d k =
    let h = store h l (record (h l) { data_len = d }) in store h m (record (h m) { pkt_len = k })

module _ (h : Heap) (m l d : ℕ) where
  kept-pkt_len : (store h l (record (h l) { data_len = d }) m).pkt_len ≡ (h m).pkt_len
  unfolding store
  kept-pkt_len = ground arith

module _ (h : Heap) (m l d k : ℕ) where
  resized-next : (a : ℕ) → (resized h m l d k a).next ≡ (h a).next
  unfolding resized store
  resized-next a = ground arith

  resized-data_len :
      (a : ℕ) → (resized h m l d k a).data_len ≡ (if a == l then d else (h a).data_len)
  unfolding resized store
  resized-data_len a = ground arith

  resized-data_off : (a : ℕ) → (resized h m l d k a).data_off ≡ (h a).data_off
  unfolding resized store
  resized-data_off a = ground arith

  resized-buf_len : (a : ℕ) → (resized h m l d k a).buf_len ≡ (h a).buf_len
  unfolding resized store
  resized-buf_len a = ground arith

  resized-nb_segs : (resized h m l d k m).nb_segs ≡ (h m).nb_segs
  unfolding resized store
  resized-nb_segs = ground arith

  resized-pkt_len : (resized h m l d k m).pkt_len ≡ k
  unfolding resized store
  resized-pkt_len = ground arith

Segments-last : (h : Heap) (p : ℕ) (ss : List ℕ) (l : ℕ) → Segments h p ss l → Fits h l
unfolding Segments
Segments-last h p [] l s = s.3
Segments-last h p (a ∷ ss) l s = Segments-last h ((h a).next) ss l s.5

module _ (h : Heap) (m : ℕ) (ss : List ℕ) (l : ℕ) (packet : IsPacket h m ss l) where
  -- A packet stays one when its last segment gets a length that fits, and its head the new sum.
  resized-IsPacket :
      (d k : ℕ)
      → (h l).data_off + d ≤ (h l).buf_len
      → ((t : ℕ) → t + (h l).data_len ≡ total h ss l + d → k ≡ t % u32)
      → IsPacket (resized h m l d k) m ss l
        × (total (resized h m l d k) ss l + (h l).data_len ≡ total h ss l + d)
  resized-IsPacket d k fits sum =
      let changed : total (resized h m l d k) ss l + (h l).data_len ≡ total h ss l + d =
        total-last h (resized h m l d k) m ss l packet.segments
          (λ a ne. resized-data_len h m l d k a ∙ rw ne refl)
        ∙ ap (λ (x : ℕ). total h ss l + x) (resized-data_len h m l d k l ∙ ground arith) in
      let fit : (a : ℕ) → Fits h a → Fits (resized h m l d k) a = λ a (fits', small).
        rw (resized-data_off h m l d k a, resized-data_len h m l d k a, resized-buf_len h m l d k a)
          (elim (Bool-cases (a == l)) [
            | inl same ↦ rw same (
              subst (λ b. (h b).data_off + d ≤ (h b).buf_len) (sym ((==_iff a l).0 same)) fits,
              small,
            )
            | inr other ↦ rw other (fits', small)
          ]) in
      (
        record {
          segments =
              Segments-frame h (resized h m l d k) (resized-next h m l d k) fit m ss l
                packet.segments;
          count = resized-nb_segs h m l d k ∙ packet.count;
          few = packet.few;
          bytes = resized-pkt_len h m l d k ∙ sum (total (resized h m l d k) ss l) changed;
        },
        changed,
      )

  tailroom-room : tailroom (h l) ≡ (h l).buf_len - ((h l).data_off + (h l).data_len)
  unfolding tailroom headroom
  tailroom-room =
      let (fits, small) = Segments-last h m ss l packet.segments in omega (arith, fits, small)

  -- What the two functions do behind the walk, by `resized`.
  append_at-full : (len : ℕ) → ltb (tailroom (h l)) len ≡ true → append_at h m l len ≡ (null, h)
  unfolding append_at
  append_at-full len full = rw full refl

  append_at-free :
      (len : ℕ)
      → ltb (tailroom (h l)) len ≡ false
      → append_at h m l len ≡ (
        (h l).buf_addr + (h l).data_off + (h l).data_len,
        resized h m l (add16 ((h l).data_len) len) (add32 ((h m).pkt_len) len),
      )
  unfolding append_at resized
  append_at-free len free = rw (free, kept-pkt_len h m l (add16 ((h l).data_len) len)) refl

  trim_at-short : (len : ℕ) → ltb ((h l).data_len) len ≡ true → trim_at h m l len ≡ (ℤ.negsuc 0, h)
  unfolding trim_at
  trim_at-short len short = rw short refl

  trim_at-enough :
      (len : ℕ)
      → ltb ((h l).data_len) len ≡ false
      → trim_at h m l len
        ≡ (ℤ.pos 0, resized h m l (sub16 ((h l).data_len) len) (sub32 ((h m).pkt_len) len))
  unfolding trim_at resized
  trim_at-enough len long = rw (long, kept-pkt_len h m l (sub16 ((h l).data_len) len)) refl

  -- Appending writes nothing but lengths: the packet has `len` more bytes in its last segment and the
  -- pointer is where they begin, or, without room for them, NULL and nothing has changed.
  pub append_lem :
      (fuel len : ℕ)
      → length ss < fuel
      → len < u16
      → (tail : ℕ) × (h' : Heap) × (append fuel h m len ≡ some (tail, h'))
        × (((h l).data_off + (h l).data_len + len ≤ (h l).buf_len)
              × (tail ≡ (h l).buf_addr + (h l).data_off + (h l).data_len)
              × IsPacket h' m ss l
              × (total h' ss l ≡ total h ss l + len)
            ⊎ ((h l).buf_len < (h l).data_off + (h l).data_len + len) × (tail ≡ null) × (h' ≡ h))
  unfolding append
  append_lem fuel len enough len_lt =
      let (fits, small) = Segments-last h m ss l packet.segments in
      let at : append fuel h m len ≡ some (append_at h m l len) =
        rw (lastseg-Segments fuel h m ss l packet.segments enough) refl in
      (
        (append_at h m l len).0,
        (append_at h m l len).1,
        at,
        elim (Bool-cases (ltb (tailroom (h l)) len)) [
          | inl full ↦ inr (
            omega (arith, tailroom-room, ltb→lt (tailroom (h l)) len full),
            ap (λ p. p.0) (append_at-full len full),
            ap (λ p. p.1) (append_at-full len full),
          )
          | inr free ↦
              inl
                let room : len ≤ tailroom (h l) = ground arith in
                  let (longer, sum) =
                    resized-IsPacket (add16 ((h l).data_len) len) (add32 ((h m).pkt_len) len)
                      (omega (arith, tailroom-room))
                      (λ t grown. omega (arith, packet.bytes, tailroom-room)) in
                  rw (append_at-free len free)
                    (omega (arith, tailroom-room), refl, longer, omega (arith, sum, tailroom-room))
        ],
      )

  -- Trimming takes `len` bytes off the last segment and returns 0, or, where it has fewer, returns -1
  -- and changes nothing.
  pub trim_lem :
      (fuel len : ℕ)
      → length ss < fuel
      → (result : ℤ) × (h' : Heap) × (trim fuel h m len ≡ some (result, h'))
        × ((len ≤ (h l).data_len)
              × (result ≡ ℤ.pos 0)
              × IsPacket h' m ss l
              × (total h' ss l + len ≡ total h ss l)
            ⊎ ((h l).data_len < len) × (result ≡ ℤ.negsuc 0) × (h' ≡ h))
  unfolding trim
  trim_lem fuel len enough =
      let (fits, small) = Segments-last h m ss l packet.segments in
      let at : trim fuel h m len ≡ some (trim_at h m l len) =
        rw (lastseg-Segments fuel h m ss l packet.segments enough) refl in
      (
        (trim_at h m l len).0,
        (trim_at h m l len).1,
        at,
        elim (Bool-cases (ltb ((h l).data_len) len)) [
          | inl short ↦ inr (
            ltb→lt ((h l).data_len) len short,
            ap (λ p. p.0) (trim_at-short len short),
            ap (λ p. p.1) (trim_at-short len short),
          )
          | inr long ↦ inl (
              let room : len ≤ (h l).data_len = ground arith in
              let (shorter, sum) =
                resized-IsPacket (sub16 ((h l).data_len) len) (sub32 ((h m).pkt_len) len)
                  (omega arith) (λ t grown. omega (arith, packet.bytes)) in
              rw (trim_at-enough len long) (room, refl, shorter, omega (arith, sum)))
        ],
      )
