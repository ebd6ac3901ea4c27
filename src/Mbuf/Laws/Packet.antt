-- ===== src/Mbuf/Laws/Packet.antt =====
-- A well-formed packet: its segments up to the last, and how they stay the same in another heap.
use dpdk_cr.Common.{
  test-sym, or-left, or-right, ℕ, zero, suc, ◌+◌, ◌%◌, ◌≤◌, ◌<◌, ◌≡◌, refl, sym, ap, ap₂, subst,
  ◌∙◌, ◌==◌, Bool, false, ◌||◌, some, List, [], ◌∷◌, length, u16, u32, arith,
}
use dpdk_cr.Mbuf.Heap.{Heap, null}
use dpdk_cr.Mbuf.Segment.{lastseg}

unfoldable pub mem : ℕ → List ℕ → Bool
mem x [] = false
mem x (a ∷ ss) = (x == a) || mem x ss

-- The data of a segment lie inside its buffer.
abbrev pub Fits : Heap → ℕ → Type 0
Fits h a = ((h a).data_off + (h a).data_len ≤ (h a).buf_len) × ((h a).buf_len < u16)

-- From pointer `p` on, the segments are those of `ss` and then `l`, which are all different.
unfoldable pub Segments : Heap → ℕ → List ℕ → ℕ → Type 0
Segments h p [] l = ((p == null) ≡ false) × (p ≡ l) × ((h l).next ≡ null) × Fits h l
Segments h p (a ∷ ss) l =
    ((p == null) ≡ false)
    × (p ≡ a)
    × ((a == l) ≡ false)
    × (mem a ss ≡ false)
    × Fits h a
    × Segments h ((h a).next) ss l

-- the bytes in these segments
unfoldable pub total : Heap → List ℕ → ℕ → ℕ
total h [] l = (h l).data_len
total h (a ∷ ss) l = (h a).data_len + total h ss l

-- The packet at `m`: `nb_segs` and `pkt_len` of its head agree with its segments.
pub record IsPacket (h : Heap) (m : ℕ) (ss : List ℕ) (l : ℕ) : Type 0 where
  pub segments : Segments h m ss l
  pub count : (h m).nb_segs ≡ length ss + 1
  pub few : length ss + 1 < u16
  pub bytes : (h m).pkt_len ≡ total h ss l % u32

pub Segments-pointer :
    (h : Heap) (p : ℕ) (ss : List ℕ) (l : ℕ) → Segments h p ss l → (p == null) ≡ false
unfolding Segments
Segments-pointer h p [] l s = s.0
Segments-pointer h p (a ∷ ss) l s = s.0

-- The walk ends at the last segment, given ss many rounds ss there are segments.
pub lastseg-Segments :
    (fuel : ℕ) (h : Heap) (p : ℕ) (ss : List ℕ) (l : ℕ)
    → Segments h p ss l
    → length ss < fuel
    → lastseg fuel h p ≡ some l
unfolding lastseg Segments
lastseg-Segments zero h p ss l s enough = absurd (omega arith)
lastseg-Segments (suc fuel) h p [] l (p_ok, at, end, fits) enough = rw (at, end) refl
lastseg-Segments (suc fuel) h p (a ∷ ss) l (p_ok, at, other, once, fits, rest) enough =
    rw (at, Segments-pointer h ((h a).next) ss l rest)
      (lastseg-Segments fuel h ((h a).next) ss l rest (omega arith))

-- A heap with the same links, in which what fitted still fits, has the same segments.
pub Segments-frame :
    (h h' : Heap)
    → ((a : ℕ) → (h' a).next ≡ (h a).next)
    → ((a : ℕ) → Fits h a → Fits h' a)
    → (p : ℕ) (ss : List ℕ) (l : ℕ) → Segments h p ss l
    → Segments h' p ss l
unfolding Segments
Segments-frame h h' links fit p [] l (p_ok, at, end, fits) = (p_ok, at, links l ∙ end, fit l fits)
Segments-frame h h' links fit p (a ∷ ss) l (p_ok, at, other, once, fits, rest) = (
  p_ok,
  at,
  other,
  once,
  fit a fits,
  subst (λ q. Segments h' q ss l) (sym (links a))
      (Segments-frame h h' links fit ((h a).next) ss l rest),
)

-- Where only the last segment has changed, the total has changed by ss much.
pub total-last :
    (h h' : Heap) (p : ℕ) (ss : List ℕ) (l : ℕ)
    → Segments h p ss l
    → ((a : ℕ) → (a == l) ≡ false → (h' a).data_len ≡ (h a).data_len)
    → total h' ss l + (h l).data_len ≡ total h ss l + (h' l).data_len
unfolding total Segments
total-last h h' p [] l s same = omega arith
total-last h h' p (a ∷ ss) l (p_ok, at, other, once, fits, rest) same =
    omega (arith, same a other, total-last h h' ((h a).next) ss l rest same)

pub total-other :
    (h h' : Heap) (x : ℕ) (ss : List ℕ) (l : ℕ)
    → ((a : ℕ) → (a == x) ≡ false → (h' a).data_len ≡ (h a).data_len)
    → mem x ss ≡ false
    → (x == l) ≡ false
    → total h' ss l ≡ total h ss l
unfolding total mem
total-other h h' x [] l same out other = same l (test-sym x l other)
total-other h h' x (a ∷ ss) l same out other =
    ap₂ ◌+◌ (same a (test-sym x a (or-left _ _ out)))
      (total-other h h' x ss l same (or-right _ _ out) other)

-- Where only the first segment has changed, too.
pub total-first :
    (h h' : Heap) (p : ℕ) (ss : List ℕ) (l : ℕ)
    → Segments h p ss l
    → ((a : ℕ) → (a == p) ≡ false → (h' a).data_len ≡ (h a).data_len)
    → total h' ss l + (h p).data_len ≡ total h ss l + (h' p).data_len
unfolding total Segments
total-first h h' p [] l (p_ok, at, end, fits) same = rw at (omega arith)
total-first h h' p (a ∷ ss) l (p_ok, at, other, once, fits, rest) same =
    rw at (
      omega (arith, total-other h h' a ss l (λ b ne. same b (ap (λ q. b == q) at ∙ ne)) once other))
