-- ===== src/Mbuf/Laws/Pairs.antt =====
-- The clones of a packet, each with the segment it is attached to.
use dpdk_cr.Common.{
  or-left, ℕ, ◌+◌, ◌≤◌, ◌<◌, ◌≡◌, refl, sym, ◌∙◌, true, false, Bool-cases, inl, inr, List, [], ◌∷◌,
  length, arith,
}
use mathlib.Core.Bool.{true≢false}
use dpdk_cr.Mbuf.Heap.{Heap, null}
use dpdk_cr.Mbuf.Free.{sizeof_mbuf, from_indirect}
use dpdk_cr.Mbuf.Laws.Packet.{mem, Segments}
use dpdk_cr.Mbuf.Laws.Chained.{within}
use dpdk_cr.Mbuf.Laws.Indirect.{attached-is_indirect}
use dpdk_cr.Mbuf.Laws.Detached.{IsAttached}
use dpdk_cr.Mbuf.Laws.Attachments.{clones, owners, Chain, Separate}
use dpdk_cr.Mbuf.Laws.Linking.{IsClone}
use dpdk_cr.Mbuf.Laws.Clones.{Fresh, Fresh-tail, Fresh-apart, Clones, last_clone}
use dpdk_cr.Mbuf.Laws.Short.{prefix, prefix_last, within-prefix}

-- each clone, and the segment it is attached to
unfoldable pub pairs : ℕ → List ℕ → List ℕ → ℕ → List (ℕ × ℕ)
pairs c cs [] l = (c, l) ∷ []
pairs c [] (a ∷ ss) l = []
pairs c (c' ∷ cs) (a ∷ ss) l = (c, a) ∷ pairs c' cs ss l

pub length-pairs : (c : ℕ) (cs ss : List ℕ) (l : ℕ) → length (pairs c cs ss l) ≤ length ss + 1
unfolding pairs
length-pairs c cs [] l = omega arith
length-pairs c [] (a ∷ ss) l = omega arith
length-pairs c (c' ∷ cs) (a ∷ ss) l = omega (arith, length-pairs c' cs ss l)

pub clones-pairs :
    (x c : ℕ) (cs ss : List ℕ) (l : ℕ)
    → mem x (c ∷ cs) ≡ false
    → mem x (clones (pairs c cs ss l)) ≡ false
unfolding pairs clones mem
clones-pairs x c cs [] l out = ground arith
clones-pairs x c [] (a ∷ ss) l out = refl
clones-pairs x c (c' ∷ cs) (a ∷ ss) l out = ground (arith, clones-pairs x c' cs ss l)

pub owners-pairs :
    (x c : ℕ) (cs ss : List ℕ) (l : ℕ)
    → length ss < length cs + 1
    → mem x (owners (pairs c cs ss l)) ≡ within x ss l
unfolding pairs owners mem within
owners-pairs x c cs [] l enough = ground arith
owners-pairs x c [] (a ∷ ss) l enough = absurd (omega arith)
owners-pairs x c (c' ∷ cs) (a ∷ ss) l enough =
    ground (arith, owners-pairs x c' cs ss l (omega arith))

-- The segments are all different.
unfoldable pub Once : List ℕ → ℕ → Type 0
Once [] l = Unit {0}
Once (a ∷ ss) l = (within a ss l ≡ false) × Once ss l

pub Segments-Once : (h : Heap) (p : ℕ) (ss : List ℕ) (l : ℕ) → Segments h p ss l → Once ss l
unfolding Segments Once within
Segments-Once h p [] l s = tt
Segments-Once h p (a ∷ ss) l (live, at, other, once, fits, rest) =
    (ground arith, Segments-Once h ((h a).next) ss l rest)

pub Segments-end : (h : Heap) (p : ℕ) (ss : List ℕ) (l : ℕ) → Segments h p ss l → (h l).next ≡ null
unfolding Segments
Segments-end h p [] l s = s.2
Segments-end h p (a ∷ ss) l s = Segments-end h ((h a).next) ss l s.5

pub Once-prefix : (cs ss : List ℕ) (l : ℕ) → Once ss l → Once (prefix cs ss) (prefix_last cs ss l)
unfolding Once prefix prefix_last
Once-prefix cs [] l once = tt
Once-prefix [] (a ∷ ss) l once = tt
Once-prefix (c ∷ cs) (a ∷ ss) l (out, once) =
    (within-prefix a cs ss l out, Once-prefix cs ss l once)

pub pairs-Separate :
    (c : ℕ) (cs ss : List ℕ) (l : ℕ)
    → Once ss l
    → Fresh (c ∷ cs) ss l
    → length ss < length cs + 1
    → Separate (pairs c cs ss l)
unfolding pairs Separate Once Fresh clones owners mem within
pairs-Separate c cs [] l s (live, once, out, fresh) enough =
    (or-left _ _ out, refl, refl, refl, refl, tt)
pairs-Separate c [] (a ∷ ss) l s fresh enough = absurd (omega arith)
pairs-Separate c (c' ∷ cs) (a ∷ ss) l (a_out, rest) (live, new, out, fresh) enough =
    let many : length ss < length cs + 1 = omega arith in
    (
      ground arith,
      clones-pairs c c' cs ss l new,
      owners-pairs c c' cs ss l many ∙ ground arith,
      clones-pairs a c' cs ss l (Fresh-apart (c' ∷ cs) (a ∷ ss) l a (ground arith) fresh),
      owners-pairs a c' cs ss l many ∙ a_out,
      pairs-Separate c' cs ss l rest (Fresh-tail (c' ∷ cs) a ss l fresh) many,
    )

pub Fresh-out : (cs ss : List ℕ) (l x : ℕ) → mem x cs ≡ true → Fresh cs ss l → within x ss l ≡ false
Fresh-out cs ss l x new fresh = elim (Bool-cases (within x ss l)) [
  | inl here ↦ absurd (true≢false (sym new ∙ Fresh-apart cs ss l x here fresh))
  | inr out ↦ out
]

-- A clone whose counter is 1 is attached to the mbuf it was made of, which owns its buffer.
IsClone-IsAttached :
    (h k : Heap) (c a : ℕ)
    → IsClone (k c) (h a)
    → (h a).buf_addr ≡ a + (sizeof_mbuf + (h a).priv_size)
    → (k c).refcnt ≡ 1
    → IsAttached k c a
unfolding from_indirect
IsClone-IsAttached h k c a made own single = record {
  indirect = attached-is_indirect (k c) ((h a).ol_flags) made.ol_flags;
  owner = omega (arith, made.buf_addr, made.priv_size, own);
  single = single;
}

pub pairs-Chain :
    (h k : Heap) (p c : ℕ) (cs ss : List ℕ) (l : ℕ)
    → Clones h k c cs ss l
    → Fresh (c ∷ cs) ss l
    → (k (last_clone c cs ss)).next ≡ null
    → p ≡ c
    → ((a : ℕ) → within a ss l ≡ true → (h a).buf_addr ≡ a + (sizeof_mbuf + (h a).priv_size))
    → ((x : ℕ) → mem x (c ∷ cs) ≡ true → (k x).refcnt ≡ 1)
    → Chain k p (pairs c cs ss l)
unfolding pairs Chain Clones Fresh last_clone mem within
pairs-Chain h k p c cs [] l made fresh end at own single = (
  fresh.0,
  at,
  IsClone-IsAttached h k c l made (own l (ground arith)) (single c (ground arith)),
  end,
)
pairs-Chain h k p c [] (a ∷ ss) l made fresh end at own single = elim made [ ]
pairs-Chain h k p c (c' ∷ cs) (a ∷ ss) l (made, link, more) fresh end at own single = (
  fresh.0,
  at,
  IsClone-IsAttached h k c a made (own a (ground arith)) (single c (ground arith)),
  pairs-Chain h k ((k c).next) c' cs ss l more (Fresh-tail (c' ∷ cs) a ss l fresh.3) end link
      (λ b w. own b (ground arith)) (λ x m. single x (ground arith)),
)
