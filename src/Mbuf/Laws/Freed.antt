-- ===== src/Mbuf/Laws/Freed.antt =====
-- Freeing a packet whose segments are not attached to the buffers of others.
use dpdk_cr.Common.{
  or-true, store_self, test-sym, or-left, ℕ, zero, suc, ◌+◌, ◌-◌, ◌<◌, ◌≡◌, refl, sym, ap, ap₂, ◌∙◌,
  subst, ==_iff, ◌==◌, true, false, Bool-cases, inl, inr, if◌then◌else◌, some, List, [], ◌∷◌, ◌++◌,
  append-nil, append_assoc, length, u16, add16, store, arith,
}
use dpdk_cr.Mbuf.Heap.{Mbuf, Heap, null}
use dpdk_cr.Mbuf.Refcnt.{refcnt_set, refcnt_update}
use dpdk_cr.Mbuf.Free.{
  Env, State, is_indirect, raw_free, detach_if, unlink, prefree_seg, free_seg, free,
}
use dpdk_cr.Mbuf.Laws.Packet.{mem, Segments}
use dpdk_cr.Mbuf.Laws.Chained.{within, outside, Linked, Segments-other}

-- What freeing makes of a segment: the last reference leaves it unlinked, another takes itself away.
unfoldable pub freed : Mbuf → Mbuf
freed x =
    if x.refcnt == 1
    then (if x.next == null then x else record x { next = null; nb_segs = 1 })
    else record x { refcnt = add16 (x.refcnt) (u16 - 1) }

-- What goes back to its pool: the segment at `a`, if nobody else holds it.
unfoldable pub put : Heap → ℕ → List (ℕ × ℕ)
put h a = if (h a).refcnt == 1 then ((h a).pool, a) ∷ [] else []

unfoldable pub put_all : Heap → List ℕ → ℕ → List (ℕ × ℕ)
put_all h [] l = put h l
put_all h (a ∷ ss) l = put h a ++ put_all h ss l

-- Not attached to the buffer of another, and with a counter that its field can hold.
abbrev pub IsDirect : Heap → ℕ → Type 0
IsDirect h a = (is_indirect (h a) ≡ false) × ((h a).refcnt < u16)

module _ (env : Env) where
  same-pool :
      (h : Heap) (m : ℕ)
      → (store h m
          (if (h m).next == null then h m else record (h m) { next = null; nb_segs = 1 })
          m).pool
        ≡ (h m).pool
  unfolding store
  same-pool h m = ground arith

  unlink-freed :
      (s : State) (m : ℕ)
      → unlink env s m ≡ record s {
        heap = store s.heap m (
            if (s.heap m).next == null
            then s.heap m
            else record (s.heap m) { next = null; nb_segs = 1 });
      }
  unfolding unlink
  unlink-freed s m = elim (Bool-cases ((s.heap m).next == null)) [
    | inl end ↦ rw end (ap (λ h. record s { heap = h }) (sym (store_self s.heap m)))
    | inr linked ↦ rw linked refl
  ]

  pub free_seg-direct :
      (s : State) (m : ℕ)
      → (m == null) ≡ false
      → IsDirect s.heap m
      → free_seg env s m
        ≡ record { heap = store s.heap m (freed (s.heap m)); puts = s.puts ++ put s.heap m }
  unfolding free_seg prefree_seg detach_if raw_free refcnt_update refcnt_set freed put
  free_seg-direct s m some_mbuf (direct, small) = elim (Bool-cases ((s.heap m).refcnt == 1)) [
    | inl last ↦
        rw (last, direct, some_mbuf)
          (ap (λ t. raw_free t m) (unlink-freed s m)
            ∙ ap
                (λ (q : ℕ). record {
                  heap = store s.heap m (
                      if (s.heap m).next == null
                      then s.heap m
                      else record (s.heap m) { next = null; nb_segs = 1 });
                  puts = s.puts ++ (q, m) ∷ [];
                })
                (same-pool s.heap m))
    | inr shared ↦
        let more : (add16 ((s.heap m).refcnt) (u16 - 1) == 0) ≡ false = ground arith in
        rw (shared, more)
          (ap
            (λ ps. record {
              heap =
                  store s.heap m
                    (record (s.heap m) { refcnt = add16 ((s.heap m).refcnt) (u16 - 1) });
              puts = ps;
            })
            (sym (append-nil s.puts)))
  ]

  pub store-freed :
      (h : Heap) (m a : ℕ) → store h m (freed (h m)) a ≡ (if a == m then freed (h a) else h a)
  unfolding store
  store-freed h m a = elim (Bool-cases (a == m)) [
    | inl at ↦ rw at (ap (λ b. freed (h b)) (sym ((==_iff a m).0 at)))
    | inr other ↦ rw other refl
  ]

  pub freed-data :
      (x : Mbuf)
      → ((freed x).data_len ≡ x.data_len)
        × ((freed x).data_off ≡ x.data_off)
        × ((freed x).buf_len ≡ x.buf_len)
  unfolding freed
  freed-data x = (ground arith, ground arith, ground arith)

  pub freed-Linked : (h : Heap) (m : ℕ) → Linked h (store h m (freed (h m))) m ((freed (h m)).next)
  freed-Linked h m = record {
    link = ap (λ x. x.next) (store-freed h m m) ∙ ground arith;
    others = λ a other. ap (λ x. x.next) (store-freed h m a) ∙ rw other refl;
    bytes = λ a. ap (λ x. x.data_len) (store-freed h m a) ∙ ground (arith, freed-data (h a));
    fit = λ a fits. rw (store-freed h m a) (elim (Bool-cases (a == m)) [
      | inl at ↦ rw at (let (len, off, buf) = freed-data (h a) in rw (len, off, buf) fits)
      | inr other ↦ rw other fits
    ]);
  }

  put-same : (h h' : Heap) (a : ℕ) → h' a ≡ h a → put h' a ≡ put h a
  unfolding put
  put-same h h' a same = ap (λ x. if x.refcnt == 1 then (x.pool, a) ∷ [] else []) same

  pub put_all-same :
      (h h' : Heap) (x : ℕ) (ss : List ℕ) (l : ℕ)
      → ((a : ℕ) → (a == x) ≡ false → h' a ≡ h a)
      → within x ss l ≡ false
      → put_all h' ss l ≡ put_all h ss l
  unfolding put_all within mem
  put_all-same h h' x [] l same out = put-same h h' l (same l (test-sym x l (or-left _ _ out)))
  put_all-same h h' x (b ∷ ss) l same out =
      ap₂ ◌++◌ (put-same h h' b (same b (test-sym x b (ground arith))))
        (put_all-same h h' x ss l same (ground arith))

  -- A segment is freed once, whether first or among the rest.
  merge :
      (h : Heap) (b : ℕ) (ss : List ℕ) (l : ℕ)
      → within b ss l ≡ false
      → (a : ℕ)
      → (if within a ss l then freed (store h b (freed (h b)) a) else store h b (freed (h b)) a)
        ≡ (if within a (b ∷ ss) l then freed (h a) else h a)
  unfolding within mem
  merge h b ss l out a = elim (Bool-cases (a == b)) [
    | inl at ↦
        let here : within a ss l ≡ false = ap (λ x. within x ss l) ((==_iff a b).0 at) ∙ out in
        rw (here, store-freed h b a, at) (rw (or-true (a == l)) refl)
    | inr other ↦ rw (store-freed h b a, other) refl
  ]

  -- the state behind a segment
  abbrev pub after : State → ℕ → State
  after s m = record { heap = store s.heap m (freed (s.heap m)); puts = s.puts ++ put s.heap m }

  pub free-step :
      (fuel : ℕ) (s : State) (p q : ℕ)
      → p ≡ q
      → (q == null) ≡ false
      → IsDirect s.heap q
      → free env (suc fuel) s p ≡ free env fuel (after s q) ((s.heap q).next)
  unfolding free
  free-step fuel s p q at q_ok direct = rw (at, q_ok, free_seg-direct s q q_ok direct) refl

  pub free-null : (fuel : ℕ) (s : State) → 0 < fuel → free env fuel s null ≡ some s
  unfolding free
  free-null zero s pos = absurd (omega arith)
  free-null (suc fuel) s pos = refl

  -- Freeing a packet of direct segments, whose counters fit 16 bits, ends, given more rounds than there
  -- are segments and one. Each segment
  -- loses a reference, those with none left are unlinked and go back to their pools in order, and no
  -- other mbuf changes.
  pub free_lem :
      (fuel : ℕ) (s : State) (p : ℕ) (ss : List ℕ) (l : ℕ)
      → Segments s.heap p ss l
      → ((a : ℕ) → within a ss l ≡ true → IsDirect s.heap a)
      → length ss + 1 < fuel
      → (s' : State) × (free env fuel s p ≡ some s')
        × ((a : ℕ) → s'.heap a ≡ (if within a ss l then freed (s.heap a) else s.heap a))
        × (s'.puts ≡ s.puts ++ put_all s.heap ss l)
  unfolding Segments within mem put_all
  free_lem zero s p ss l segments direct enough = absurd (omega arith)
  free_lem (suc fuel) s p [] l (p_ok, at, end, fits) direct enough =
      let l_ok : (l == null) ≡ false = ap (λ q. q == null) (sym at) ∙ p_ok in
      (
        after s l,
        free-step fuel s p l at l_ok (direct l (ground arith))
            ∙ ap (free env fuel (after s l)) end
            ∙ free-null fuel (after s l) (omega arith),
        λ a. store-freed s.heap l a ∙ ground arith,
        refl,
      )
  free_lem (suc fuel) s p (b ∷ ss) l (p_ok, at, other, once, fits, rest) direct enough =
      let b_ok : (b == null) ≡ false = ap (λ q. q == null) (sym at) ∙ p_ok in
      let out : within b ss l ≡ false = ground arith in
      let kept : (a : ℕ) → (a == b) ≡ false → (after s b).heap a ≡ s.heap a =
        λ a ne. store-freed s.heap b a ∙ rw ne refl in
      let (s', result, heap, puts) =
        free_lem fuel (after s b) ((s.heap b).next) ss l
          (Segments-other s.heap (after s b).heap b ((freed (s.heap b)).next)
            (freed-Linked s.heap b) ((s.heap b).next) ss l rest out)
          (λ a w.
            subst (λ x. (is_indirect x ≡ false) × (x.refcnt < u16))
              (sym (kept a (test-sym b a (outside b a ss l out w)))) (direct a (ground arith)))
          (omega arith) in
      (
        s',
        free-step fuel s p b at b_ok (direct b (ground arith)) ∙ result,
        λ a. heap a ∙ merge s.heap b ss l out a,
        puts
            ∙ ap (λ ps. (s.puts ++ put s.heap b) ++ ps)
                (put_all-same s.heap (after s b).heap b ss l kept out)
            ∙ append_assoc s.puts (put s.heap b) (put_all s.heap ss l),
      )
