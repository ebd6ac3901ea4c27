-- ===== src/Mbuf/Laws/Headed.antt =====
-- The segments of a clone behind the stores that end `rte_pktmbuf_clone`.
use dpdk_cr.Common.{
  or-left, ℕ, suc, ◌+◌, ◌≡◌, refl, sym, ap, ap₂, ◌∙◌, subst, ==_iff, ◌==◌, true, false, Bool-cases,
  inl, inr, if◌then◌else◌, List, [], ◌∷◌, length, store, store-other, arith,
}
use mathlib.Core.Bool.{true≢false}
use dpdk_cr.Mbuf.Heap.{Mbuf, Heap, null}
use dpdk_cr.Mbuf.Laws.Packet.{mem, Fits, Segments, total}
use dpdk_cr.Mbuf.Laws.Linking.{IsClone}
use dpdk_cr.Mbuf.Laws.Clones.{Fresh, Fresh-tail, Clones, last_clone}

-- the clones but the last
unfoldable pub clone_list : ℕ → List ℕ → List ℕ → List ℕ
clone_list c cs [] = []
clone_list c [] (a ∷ ss) = []
clone_list c (c' ∷ cs) (a ∷ ss) = c ∷ clone_list c' cs ss

pub length-clone_list :
    (h h' : Heap) (c : ℕ) (cs ss : List ℕ) (l : ℕ)
    → Clones h h' c cs ss l
    → length (clone_list c cs ss) ≡ length ss
unfolding clone_list Clones
length-clone_list h h' c cs [] l made = refl
length-clone_list h h' c [] (a ∷ ss) l made = elim made [ ]
length-clone_list h h' c (c' ∷ cs) (a ∷ ss) l made =
    ap suc (length-clone_list h h' c' cs ss l made.2)

pub last_clone-mem : (c : ℕ) (cs ss : List ℕ) → mem (last_clone c cs ss) (c ∷ cs) ≡ true
unfolding last_clone mem
last_clone-mem c cs [] = ground arith
last_clone-mem c [] (a ∷ ss) = ground arith
last_clone-mem c (c' ∷ cs) (a ∷ ss) = ground (arith, last_clone-mem c' cs ss)

clone_list-mem :
    (x c : ℕ) (cs ss : List ℕ) → mem x (c ∷ cs) ≡ false → mem x (clone_list c cs ss) ≡ false
unfolding clone_list mem
clone_list-mem x c cs [] out = refl
clone_list-mem x c [] (a ∷ ss) out = refl
clone_list-mem x c (c' ∷ cs) (a ∷ ss) out = ground (arith, clone_list-mem x c' cs ss)

pub mem-head : (x c : ℕ) (cs : List ℕ) → mem x (c ∷ cs) ≡ false → (x == c) ≡ false
unfolding mem
mem-head x c cs out = or-left _ _ out

pub apart : (x y : ℕ) (cs : List ℕ) → mem x cs ≡ false → mem y cs ≡ true → (x == y) ≡ false
apart x y cs out here = elim (Bool-cases (x == y)) [
  | inl same ↦ absurd (true≢false (sym here ∙ ap (λ z. mem z cs) (sym ((==_iff x y).0 same)) ∙ out))
  | inr other ↦ other
]

pub Fresh-live : (cs ss : List ℕ) (l x : ℕ) → mem x cs ≡ true → Fresh cs ss l → (x == null) ≡ false
unfolding Fresh mem
Fresh-live [] ss l x here fresh = absurd (true≢false (sym here))
Fresh-live (c ∷ cs) ss l x here (live, once, out, rest) = elim (Bool-cases (x == c)) [
  | inl same ↦ ap (λ y. y == null) ((==_iff x c).0 same) ∙ live
  | inr other ↦ Fresh-live cs ss l x (ground arith) rest
]

-- The stores behind the loop: the last clone links to nothing, the first one gets the counts.
module _ (h : Heap) (last mc nseg pktlen : ℕ) where
  unfoldable pub ended : Heap
  ended = store h last (record (h last) { next = null })

  unfoldable pub headed : Heap
  headed = store ended mc (record (ended mc) { nb_segs = nseg; pkt_len = pktlen })

  pub headed-next : (x : ℕ) → (headed x).next ≡ (if x == last then null else (h x).next)
  unfolding headed ended store
  headed-next x = ground arith

  pub headed-IsClone : (x : ℕ) (y : Mbuf) → IsClone (h x) y → IsClone (headed x) y
  unfolding headed ended store
  headed-IsClone x y made = ground arith

  pub headed-kept : (x : ℕ) → ((headed x).refcnt ≡ (h x).refcnt) × ((headed x).pool ≡ (h x).pool)
  unfolding headed ended store
  headed-kept x = (ground arith, ground arith)

  pub headed-other : (x : ℕ) → (x == last) ≡ false → (x == mc) ≡ false → headed x ≡ h x
  unfolding headed ended
  headed-other x not_last not_head =
      store-other ended mc x _ not_head ∙ store-other h last x _ not_last

  pub headed-head : ((headed mc).nb_segs ≡ nseg) × ((headed mc).pkt_len ≡ pktlen)
  unfolding headed ended store
  headed-head = (ground arith, ground arith)

-- The clones are the segments of a packet in any heap `k` in which the last of them, `z`, links to
-- nothing and the others link as before.
module _ (h h' k : Heap) (z : ℕ)
    (links : (x : ℕ) → (k x).next ≡ (if x == z then null else (h' x).next))
    (same : (x : ℕ) (y : Mbuf) → IsClone (h' x) y → IsClone (k x) y) where
  clone-Fits : (c a : ℕ) → Fits h a → IsClone (h' c) (h a) → Fits k c
  clone-Fits c a fits made =
      let m : IsClone (k c) (h a) = same c (h a) made in rw (m.data_off, m.data_len, m.buf_len) fits

  pub clone-Segments :
      (c : ℕ) (cs : List ℕ) (p : ℕ) (ss : List ℕ) (l : ℕ)
      → z ≡ last_clone c cs ss
      → Segments h p ss l
      → Clones h h' c cs ss l
      → Fresh (c ∷ cs) ss l
      → Segments k c (clone_list c cs ss) z
  unfolding Segments Clones Fresh clone_list last_clone
  clone-Segments c cs p [] l at (p_ok, p_at, end, fits) made fresh =
      (fresh.0, sym at, links z ∙ ground arith, subst (Fits k) (sym at) (clone-Fits c l fits made))
  clone-Segments c [] p (a ∷ ss) l at s made fresh = elim made [ ]
  clone-Segments c (c' ∷ cs) p (a ∷ ss) l at (p_ok, p_at, other, once, fits, rest)
        (made, link, more) fresh =
      let not_last : (c == z) ≡ false =
        ap (λ y. c == y) at
        ∙ apart c (last_clone c' cs ss) (c' ∷ cs) fresh.1 (last_clone-mem c' cs ss) in
      (
        fresh.0,
        refl,
        not_last,
        clone_list-mem c c' cs ss fresh.1,
        clone-Fits c a fits made,
        subst (λ q. Segments k q (clone_list c' cs ss) z) (sym (links c ∙ rw not_last link))
            (clone-Segments c' cs ((h a).next) ss l at rest more
              (Fresh-tail (c' ∷ cs) a ss l fresh.3)),
      )

  pub clone-total :
      (c : ℕ) (cs ss : List ℕ) (l : ℕ)
      → z ≡ last_clone c cs ss
      → Clones h h' c cs ss l
      → total k (clone_list c cs ss) z ≡ total h ss l
  unfolding total Clones clone_list last_clone
  clone-total c cs [] l at made = ap (λ x. (k x).data_len) at ∙ (same c (h l) made).data_len
  clone-total c [] (a ∷ ss) l at made = elim made [ ]
  clone-total c (c' ∷ cs) (a ∷ ss) l at (made, link, more) =
      ap₂ ◌+◌ (same c (h a) made).data_len (clone-total c' cs ss l at more)

  pub clone-Clones :
      (c : ℕ) (cs ss : List ℕ) (l : ℕ)
      → z ≡ last_clone c cs ss
      → Clones h h' c cs ss l
      → Fresh (c ∷ cs) ss l
      → Clones h k c cs ss l
  unfolding Clones Fresh last_clone
  clone-Clones c cs [] l at made fresh = same c (h l) made
  clone-Clones c [] (a ∷ ss) l at made fresh = made
  clone-Clones c (c' ∷ cs) (a ∷ ss) l at (made, link, more) fresh =
      let not_last : (c == z) ≡ false =
        ap (λ y. c == y) at
        ∙ apart c (last_clone c' cs ss) (c' ∷ cs) fresh.1 (last_clone-mem c' cs ss) in
      (
        same c (h a) made,
        links c ∙ rw not_last link,
        clone-Clones c' cs ss l at more (Fresh-tail (c' ∷ cs) a ss l fresh.3),
      )
