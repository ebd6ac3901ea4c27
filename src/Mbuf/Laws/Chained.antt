-- ===== src/Mbuf/Laws/Chained.antt =====
-- Chaining one packet behind another.
use dpdk_cr.Common.{
  minus_eoverflow, test-sym, or-left, or-right, ℕ, ◌+◌, ◌≤◌, ◌<◌, ◌≡◌, ◌⊎◌, refl, sym, ap, ap₂, ◌∙◌,
  subst, ltb, ltb→lt, ==_iff, ◌==◌, Bool, true, false, ◌||◌, Bool-cases, inl, inr, if◌then◌else◌,
  some, List, [], ◌∷◌, ◌++◌, length, u16, add16, add32, ℤ, store, arith,
}
use mathlib.Core.Bool.{true≢false}
use dpdk_cr.Mbuf.Heap.{Heap}
use dpdk_cr.Mbuf.Segment.{chain_at, chain, max_nb_segs}
use dpdk_cr.Mbuf.Laws.Packet.{mem, Fits, Segments, total, IsPacket, lastseg-Segments}

-- the segments of a packet, with the last
unfoldable pub within : ℕ → List ℕ → ℕ → Bool
within a ss l = (a == l) || mem a ss

-- No segment is in both packets.
abbrev pub Disjoint : List ℕ → ℕ → List ℕ → ℕ → Type 0
Disjoint hs hl ts tl = (a : ℕ) → within a hs hl ≡ true → within a ts tl ≡ false

-- Links and data are the same, but for the segment `x`, which links to `next`.
pub record Linked (h h' : Heap) (x next : ℕ) : Type 0 where
  pub link : (h' x).next ≡ next
  pub others : (a : ℕ) → (a == x) ≡ false → (h' a).next ≡ (h a).next
  pub bytes : (a : ℕ) → (h' a).data_len ≡ (h a).data_len
  pub fit : (a : ℕ) → Fits h a → Fits h' a

module _ (h h' : Heap) (x next : ℕ) (linked : Linked h h' x next) where
  pub Segments-other :
      (p : ℕ) (ss : List ℕ) (l : ℕ) → Segments h p ss l → within x ss l ≡ false → Segments h' p ss l
  unfolding Segments within mem
  Segments-other p [] l (p_ok, at, end, fits) out =
      (p_ok, at, linked.others l (test-sym x l (or-left _ _ out)) ∙ end, linked.fit l fits)
  Segments-other p (a ∷ ss) l (p_ok, at, other, once, fits, rest) out = (
    p_ok,
    at,
    other,
    once,
    linked.fit a fits,
    subst (λ q. Segments h' q ss l) (sym (linked.others a (test-sym x a (ground arith))))
        (Segments-other ((h a).next) ss l rest (ground arith)),
  )

  total-same : (ss : List ℕ) (l : ℕ) → total h' ss l ≡ total h ss l
  unfolding total
  total-same [] l = linked.bytes l
  total-same (a ∷ ss) l = ap₂ ◌+◌ (linked.bytes a) (total-same ss l)

mem-append : (a : ℕ) (xs ys : List ℕ) → mem a (xs ++ ys) ≡ (mem a xs || mem a ys)
unfolding mem
mem-append a [] ys = refl
mem-append a (x ∷ xs) ys = rw (mem-append a xs ys) (ground arith)

total-append :
    (h : Heap) (hs : List ℕ) (hl : ℕ) (ts : List ℕ) (tl : ℕ)
    → total h (hs ++ hl ∷ ts) tl ≡ total h hs hl + total h ts tl
unfolding total
total-append h [] hl ts tl = refl
total-append h (a ∷ hs) hl ts tl = omega (arith, total-append h hs hl ts tl)

module _ (h h' : Heap) (hl tail : ℕ) (ts : List ℕ) (tl : ℕ) (linked : Linked h h' hl tail)
    (tails : Segments h' tail ts tl) where
  Segments-append :
      (p : ℕ) (hs : List ℕ)
      → Segments h p hs hl
      → Disjoint hs hl ts tl
      → Segments h' p (hs ++ hl ∷ ts) tl
  unfolding Segments within mem
  Segments-append p [] (p_ok, at, end, fits) apart =
      let out : within hl ts tl ≡ false = apart hl (ground arith) in
      (
        p_ok,
        at,
        or-left _ _ out,
        or-right _ _ out,
        linked.fit hl fits,
        subst (λ q. Segments h' q ts tl) (sym linked.link) tails,
      )
  Segments-append p (a ∷ hs) (p_ok, at, other, once, fits, rest) apart =
      let out : within a ts tl ≡ false = apart a (ground arith) in
      (
        p_ok,
        at,
        or-left _ _ out,
        mem-append a hs (hl ∷ ts) ∙ rw (once, other) (or-right _ _ out),
        linked.fit a fits,
        subst (λ q. Segments h' q (hs ++ hl ∷ ts) tl) (sym (linked.others a other))
            (Segments-append ((h a).next) hs rest (λ b w. apart b (ground arith))),
      )

module _ (h : Heap) (head tail cur : ℕ) where
  chained-data_off : (a : ℕ) → (chain_at h head tail cur a).data_off ≡ (h a).data_off
  unfolding chain_at store
  chained-data_off a = ground arith

  chained-buf_len : (a : ℕ) → (chain_at h head tail cur a).buf_len ≡ (h a).buf_len
  unfolding chain_at store
  chained-buf_len a = ground arith

  chained-data_len : (a : ℕ) → (chain_at h head tail cur a).data_len ≡ (h a).data_len
  unfolding chain_at store
  chained-data_len a = ground arith

  chained-next :
      (a : ℕ) → (chain_at h head tail cur a).next ≡ (if a == cur then tail else (h a).next)
  unfolding chain_at store
  chained-next a = ground arith

  chained-head :
      (head == tail) ≡ false
      → ((chain_at h head tail cur head).nb_segs ≡ add16 ((h head).nb_segs) ((h tail).nb_segs))
        × ((chain_at h head tail cur head).pkt_len ≡ add32 ((h head).pkt_len) ((h tail).pkt_len))
  unfolding chain_at store
  chained-head other = (ground arith, ground arith)

  chained-Linked : Linked h (chain_at h head tail cur) cur tail
  chained-Linked = record {
    link = chained-next cur ∙ ground arith;
    others = λ a other. chained-next a ∙ rw other refl;
    bytes = chained-data_len;
    fit = λ a fits. rw (chained-data_off a, chained-buf_len a, chained-data_len a) fits;
  }

pub within-first :
    (h : Heap) (p : ℕ) (ss : List ℕ) (l : ℕ) → Segments h p ss l → within p ss l ≡ true
unfolding Segments within mem
within-first h p [] l s = rw (s.1) (ground arith)
within-first h p (a ∷ ss) l s = rw (s.1) (ground arith)

within-last : (ss : List ℕ) (l : ℕ) → within l ss l ≡ true
unfolding within
within-last ss l = ground arith

pub outside :
    (x y : ℕ) (ss : List ℕ) (l : ℕ)
    → within x ss l ≡ false
    → within y ss l ≡ true
    → (x == y) ≡ false
outside x y ss l out here = elim (Bool-cases (x == y)) [
  | inl same ↦
      absurd (true≢false (sym here ∙ ap (λ z. within z ss l) (sym ((==_iff x y).0 same)) ∙ out))
  | inr other ↦ other
]

length-append :
    (xs : List ℕ) (y : ℕ) (ys : List ℕ) → length (xs ++ y ∷ ys) ≡ length xs + length ys + 1
length-append [] y ys = omega arith
length-append (x ∷ xs) y ys = omega (arith, length-append xs y ys)

module _ (h : Heap) (head : ℕ) (hs : List ℕ) (hl tail : ℕ) (ts : List ℕ) (tl : ℕ)
    (first : IsPacket h head hs hl) (second : IsPacket h tail ts tl)
    (apart : Disjoint hs hl ts tl) where
  chain_at-IsPacket :
      length hs + length ts + 2 < u16
      → IsPacket (chain_at h head tail hl) head (hs ++ hl ∷ ts) tl
        × (total (chain_at h head tail hl) (hs ++ hl ∷ ts) tl ≡ total h hs hl + total h ts tl)
  chain_at-IsPacket few =
      let h' = chain_at h head tail hl in
      let linked : Linked h h' hl tail = chained-Linked h head tail hl in
      let head_out : within head ts tl ≡ false =
        apart head (within-first h head hs hl first.segments) in
      let other : (head == tail) ≡ false =
        outside head tail ts tl head_out (within-first h tail ts tl second.segments) in
      let tails : Segments h' tail ts tl =
        Segments-other h h' hl tail linked tail ts tl second.segments
          (apart hl (within-last hs hl)) in
      let sum : total h' (hs ++ hl ∷ ts) tl ≡ total h hs hl + total h ts tl =
        total-same h h' hl tail linked (hs ++ hl ∷ ts) tl ∙ total-append h hs hl ts tl in
      let (nb, pkt) = chained-head h head tail hl other in
      (
        record {
          segments = Segments-append h h' hl tail ts tl linked tails head hs first.segments apart;
          count = nb ∙ omega (arith, first.count, second.count, length-append hs hl ts);
          few = omega (arith, length-append hs hl ts);
          bytes = pkt ∙ omega (arith, first.bytes, second.bytes, sum);
        },
        sum,
      )

  -- Chaining makes one packet of the two, the segments of the first and then those of the second, unless
  -- there would be more than RTE_MBUF_MAX_NB_SEGS: then -EOVERFLOW is returned and nothing has changed.
  pub chain_lem :
      (fuel : ℕ)
      → length hs < fuel
      → (result : ℤ) × (h' : Heap) × (chain fuel h head tail ≡ some (result, h'))
        × ((length hs + length ts + 2 ≤ max_nb_segs)
              × (result ≡ ℤ.pos 0)
              × IsPacket h' head (hs ++ hl ∷ ts) tl
              × (total h' (hs ++ hl ∷ ts) tl ≡ total h hs hl + total h ts tl)
            ⊎ (max_nb_segs < length hs + length ts + 2) × (result ≡ minus_eoverflow) × (h' ≡ h))
  unfolding chain
  chain_lem fuel enough =
      elim (Bool-cases (ltb max_nb_segs ((h head).nb_segs + (h tail).nb_segs))) [
        | inl over ↦ (
          minus_eoverflow,
          h,
          rw over refl,
          inr (omega (arith, ltb→lt max_nb_segs _ over, first.count, second.count), refl, refl),
        )
        | inr under ↦
            let few : length hs + length ts + 2 ≤ max_nb_segs =
              ground (arith, first.count, second.count) in
            let (packet, sum) = chain_at-IsPacket (omega arith) in
            (
              ℤ.pos 0,
              chain_at h head tail hl,
              rw (under, lastseg-Segments fuel h head hs hl first.segments enough) refl,
              inl (few, refl, packet, sum),
            )
      ]
