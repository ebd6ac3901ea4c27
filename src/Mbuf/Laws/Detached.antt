-- ===== src/Mbuf/Laws/Detached.antt =====
-- Freeing one mbuf that is attached to the buffer of another.
use dpdk_cr.Common.{
  store-at, store-other, test-sym, ℕ, ◌-◌, ◌≤◌, ◌<◌, ◌≡◌, refl, sym, ap, ap₂, ◌∙◌, ==_iff, ◌==◌,
  true, false, Bool-cases, inl, inr, if◌then◌else◌, [], ◌∷◌, ◌++◌, u16, add16, store, arith,
}
use dpdk_cr.Mbuf.Heap.{Mbuf, Heap, null}
use dpdk_cr.Mbuf.Refcnt.{refcnt_set, refcnt_update}
use dpdk_cr.Mbuf.Free.{
  Env, State, is_indirect, from_indirect, raw_free, own_buffer, detach, detach_if, unlink,
  prefree_seg, free_seg,
}

-- with one reference less
abbrev pub unreferenced : Mbuf → Mbuf
unreferenced x = record x { refcnt = add16 x.refcnt (u16 - 1) }

-- The mbuf at `c` is attached to the buffer of the one at `a`, and nobody else holds it.
pub record IsAttached (h : Heap) (c a : ℕ) : Type 0 where
  pub indirect : is_indirect (h c) ≡ true
  pub owner : from_indirect (h c) ≡ a
  pub single : (h c).refcnt ≡ 1

module _ (env : Env) (s : State) (c a : ℕ) (live : (c == null) ≡ false) (two : (c == a) ≡ false)
    (attached : IsAttached s.heap c a) (shared : 2 ≤ (s.heap a).refcnt)
    (small : (s.heap a).refcnt < u16) where
  -- the mbufs when `c` has its own buffer again and `a` has a reference less
  abbrev own_again : Heap
  own_again = store s.heap c (own_buffer env c (s.heap c))

  abbrev detached : State
  detached = record s { heap = (refcnt_update own_again a (u16 - 1)).1 }

  detach-detached : detach env s c ≡ detached
  unfolding detach refcnt_update refcnt_set
  detach-detached =
      let count : (add16 (own_again a).refcnt (u16 - 1) == 0) ≡ false =
        ap (λ (x : Mbuf). add16 x.refcnt (u16 - 1) == 0)
          (store-other s.heap c a _ (test-sym c a two))
        ∙ ground arith in
      rw (attached.owner, count) refl

  detached-other :
      (x : ℕ)
      → (x == c) ≡ false
      → detached.heap x ≡ (if x == a then unreferenced (s.heap x) else s.heap x)
  unfolding refcnt_update refcnt_set
  detached-other x other = elim (Bool-cases (x == a)) [
    | inl at ↦
        let same : x ≡ a = (==_iff x a).0 at in
        rw at (
          ap (store own_again a (unreferenced (own_again a))) same
          ∙ store-at own_again a _
          ∙ ap unreferenced (store-other s.heap c a _ (test-sym c a two))
          ∙ ap (λ y. unreferenced (s.heap y)) (sym same))
    | inr out ↦ rw out (store-other own_again a x _ out ∙ store-other s.heap c x _ other)
  ]

  detached-pool : (detached.heap c).pool ≡ (s.heap c).pool
  unfolding refcnt_update refcnt_set own_buffer
  detached-pool = ap (λ (x : Mbuf). x.pool) (store-other own_again a c _ two ∙ store-at s.heap c _)

  unlink-other : (t : State) (x : ℕ) → (x == c) ≡ false → (unlink env t c).heap x ≡ t.heap x
  unfolding unlink store
  unlink-other t x other = ground arith

  unlink-kept :
      (t : State)
      → (((unlink env t c).heap c).pool ≡ (t.heap c).pool) × ((unlink env t c).puts ≡ t.puts)
  unfolding unlink store
  unlink-kept t = (ground arith, ground arith)

  free_seg-attached : free_seg env s c ≡ raw_free (unlink env detached c) c
  unfolding free_seg prefree_seg detach_if
  free_seg-attached =
      let last : ((s.heap c).refcnt == 1) ≡ true = ap (λ r. r == 1) attached.single in
      rw (last, attached.indirect, detach-detached, live) refl

  pub free_seg-other :
      (x : ℕ)
      → (x == c) ≡ false
      → (free_seg env s c).heap x ≡ (if x == a then unreferenced (s.heap x) else s.heap x)
  unfolding raw_free
  free_seg-other x other =
      ap (λ (t : State). t.heap x) free_seg-attached
      ∙ unlink-other detached x other
      ∙ detached-other x other

  pub free_seg-puts : (free_seg env s c).puts ≡ s.puts ++ ((s.heap c).pool, c) ∷ []
  unfolding raw_free
  free_seg-puts =
      let (pool, puts) = unlink-kept detached in
      ap (λ (t : State). t.puts) free_seg-attached
      ∙ ap₂ (λ ps (p : ℕ). ps ++ (p, c) ∷ []) puts (pool ∙ detached-pool)
