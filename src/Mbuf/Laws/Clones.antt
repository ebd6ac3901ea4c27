-- ===== src/Mbuf/Laws/Clones.antt =====
-- The clones of the segments of a packet, as the heap holds them.
use dpdk_cr.Common.{
  test-sym, ℕ, ◌≡◌, refl, sym, ap, ◌∙◌, subst, ◌==◌, true, false, List, [], ◌∷◌, arith,
}
use dpdk_cr.Mbuf.Heap.{Mbuf, Heap, null}
use dpdk_cr.Mbuf.Laws.Packet.{mem, Segments}
use dpdk_cr.Mbuf.Laws.Chained.{within, outside}
use dpdk_cr.Mbuf.Laws.Linking.{IsClone}

-- Mbufs that are all different and in no segment of the packet.
unfoldable pub Fresh : List ℕ → List ℕ → ℕ → Type 0
Fresh [] ss l = Unit {0}
Fresh (c ∷ cs) ss l =
    ((c == null) ≡ false) × (mem c cs ≡ false) × (within c ss l ≡ false) × Fresh cs ss l

pub within-tail :
    (x a : ℕ) (ss : List ℕ) (l : ℕ) → within x (a ∷ ss) l ≡ false → within x ss l ≡ false
unfolding within mem
within-tail x a ss l out = ground arith

pub within-head : (x a : ℕ) (ss : List ℕ) (l : ℕ) → within x (a ∷ ss) l ≡ false → (x == a) ≡ false
unfolding within mem
within-head x a ss l out = ground arith

pub Fresh-tail : (cs : List ℕ) (a : ℕ) (ss : List ℕ) (l : ℕ) → Fresh cs (a ∷ ss) l → Fresh cs ss l
unfolding Fresh
Fresh-tail [] a ss l fresh = tt
Fresh-tail (c ∷ cs) a ss l (live, once, out, rest) =
    (live, once, within-tail c a ss l out, Fresh-tail cs a ss l rest)

pub Fresh-apart :
    (cs ss : List ℕ) (l x : ℕ) → within x ss l ≡ true → Fresh cs ss l → mem x cs ≡ false
unfolding Fresh mem
Fresh-apart [] ss l x here fresh = refl
Fresh-apart (c ∷ cs) ss l x here (live, once, out, rest) =
    rw (test-sym c x (outside c x ss l out here)) (Fresh-apart cs ss l x here rest)

-- From `c` on and then by `cs`, the mbufs of `h'` are clones of the segments in `h`, linked in order.
-- What the last one links to is left open.
unfoldable pub Clones : Heap → Heap → ℕ → List ℕ → List ℕ → ℕ → Type 0
Clones h h' c cs [] l = IsClone (h' c) (h l)
Clones h h' c [] (a ∷ ss) l = ⊥
Clones h h' c (c' ∷ cs) (a ∷ ss) l =
    IsClone (h' c) (h a) × ((h' c).next ≡ c') × Clones h h' c' cs ss l

-- the clone of the last segment
unfoldable pub last_clone : ℕ → List ℕ → List ℕ → ℕ
last_clone c cs [] = c
last_clone c [] (a ∷ ss) = c
last_clone c (c' ∷ cs) (a ∷ ss) = last_clone c' cs ss

-- What is the same in the segments of two heaps.
pub Segments-same :
    (h h' : Heap) (p : ℕ) (ss : List ℕ) (l : ℕ)
    → ((a : ℕ) → within a ss l ≡ true → h' a ≡ h a)
    → Segments h p ss l
    → Segments h' p ss l
unfolding Segments within mem
Segments-same h h' p [] l same (live, at, end, fits) =
    let here : h' l ≡ h l = same l (ground arith) in
    (live, at, ap (λ (x : Mbuf). x.next) here ∙ end, rw here fits)
Segments-same h h' p (a ∷ ss) l same (live, at, other, once, fits, rest) =
    let here : h' a ≡ h a = same a (ground arith) in
    (
      live,
      at,
      other,
      once,
      rw here fits,
      subst (λ q. Segments h' q ss l) (sym (ap (λ (x : Mbuf). x.next) here))
          (Segments-same h h' ((h a).next) ss l (λ b w. same b (ground arith)) rest),
    )

pub Clones-same :
    (h k h' : Heap) (c : ℕ) (cs ss : List ℕ) (l : ℕ)
    → ((a : ℕ) → within a ss l ≡ true → k a ≡ h a)
    → Clones k h' c cs ss l
    → Clones h h' c cs ss l
unfolding Clones within mem
Clones-same h k h' c cs [] l same made = subst (IsClone (h' c)) (same l (ground arith)) made
Clones-same h k h' c [] (a ∷ ss) l same made = made
Clones-same h k h' c (c' ∷ cs) (a ∷ ss) l same (made, link, rest) = (
  subst (IsClone (h' c)) (same a (ground arith)) made,
  link,
  Clones-same h k h' c' cs ss l (λ b w. same b (ground arith)) rest,
)
