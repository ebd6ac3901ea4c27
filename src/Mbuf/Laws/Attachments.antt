-- ===== src/Mbuf/Laws/Attachments.antt =====
-- Freeing a chain of mbufs that are attached to the buffers of others.
use dpdk_cr.Common.{
  or-left, or-right, ℕ, zero, suc, ◌≤◌, ◌<◌, ◌≡◌, refl, sym, ap, ap₂, ◌∙◌, subst, ==_iff, ◌==◌,
  true, false, Bool-cases, inl, inr, if◌then◌else◌, some, List, [], ◌∷◌, ◌++◌, append-nil,
  append_assoc, map, length, u16, arith,
}
use mathlib.Core.Bool.{true≢false}
use dpdk_cr.Mbuf.Heap.{Mbuf, Heap, null}
use dpdk_cr.Mbuf.Free.{Env, State, is_indirect, from_indirect, free_seg, free}
use dpdk_cr.Mbuf.Laws.Packet.{mem}
use dpdk_cr.Mbuf.Laws.Detached.{unreferenced, IsAttached, free_seg-other, free_seg-puts}

-- Pairs of an mbuf and the one whose buffer it is attached to.
unfoldable pub clones : List (ℕ × ℕ) → List ℕ
clones ps = map (λ (q : ℕ × ℕ). q.0) ps

unfoldable pub owners : List (ℕ × ℕ) → List ℕ
owners ps = map (λ (q : ℕ × ℕ). q.1) ps

-- the chain from pointer `p` on: its mbufs are attached as the pairs say, and the last links to nothing
unfoldable pub Chain : Heap → ℕ → List (ℕ × ℕ) → Type 0
Chain h p [] = p ≡ null
Chain h p ((c, a) ∷ ps) =
    ((c == null) ≡ false) × (p ≡ c) × IsAttached h c a × Chain h ((h c).next) ps

-- No mbuf stands twice in the pairs.
unfoldable pub Separate : List (ℕ × ℕ) → Type 0
Separate [] = Unit {0}
Separate ((c, a) ∷ ps) =
    ((c == a) ≡ false)
    × (mem c (clones ps) ≡ false)
    × (mem c (owners ps) ≡ false)
    × (mem a (clones ps) ≡ false)
    × (mem a (owners ps) ≡ false)
    × Separate ps

-- what goes back to the pools
unfoldable pub put_clones : Heap → List (ℕ × ℕ) → List (ℕ × ℕ)
put_clones h ps = map (λ (q : ℕ × ℕ). ((h q.0).pool, q.0)) ps

mem-apart : (x y : ℕ) (xs : List ℕ) → mem x xs ≡ true → mem y xs ≡ false → (x == y) ≡ false
mem-apart x y xs here out = elim (Bool-cases (x == y)) [
  | inl same ↦ absurd (true≢false (sym here ∙ ap (λ z. mem z xs) ((==_iff x y).0 same) ∙ out))
  | inr other ↦ other
]

Chain-same :
    (h h' : Heap) (p : ℕ) (ps : List (ℕ × ℕ))
    → ((x : ℕ) → mem x (clones ps) ≡ true → h' x ≡ h x)
    → Chain h p ps
    → Chain h' p ps
unfolding Chain clones mem
Chain-same h h' p [] same chain = chain
Chain-same h h' p ((c, a) ∷ ps) same (live, at, attached, rest) =
    let here : h' c ≡ h c = same c (ground arith) in
    (
      live,
      at,
      record {
        indirect = ap is_indirect here ∙ attached.indirect;
        owner = ap from_indirect here ∙ attached.owner;
        single = ap (λ (x : Mbuf). x.refcnt) here ∙ attached.single;
      },
      subst (λ q. Chain h' q ps) (sym (ap (λ (x : Mbuf). x.next) here))
          (Chain-same h h' ((h c).next) ps (λ x m. same x (ground arith)) rest),
    )

put_clones-same :
    (h h' : Heap) (ps : List (ℕ × ℕ))
    → ((x : ℕ) → mem x (clones ps) ≡ true → h' x ≡ h x)
    → put_clones h' ps ≡ put_clones h ps
unfolding put_clones clones mem
put_clones-same h h' [] same = refl
put_clones-same h h' ((c, a) ∷ ps) same =
    ap₂ (λ (x : Mbuf) qs. (x.pool, c) ∷ qs) (same c (ground arith))
      (put_clones-same h h' ps (λ x m. same x (ground arith)))

pub put_clones-pools :
    (h h' : Heap) (ps : List (ℕ × ℕ))
    → ((x : ℕ) → (h x).pool ≡ (h' x).pool)
    → put_clones h ps ≡ put_clones h' ps
unfolding put_clones
put_clones-pools h h' [] same = refl
put_clones-pools h h' ((c, a) ∷ ps) same =
    ap₂ (λ (pool : ℕ) qs. (pool, c) ∷ qs) (same c) (put_clones-pools h h' ps same)

module _ (env : Env) where
  free-null : (fuel : ℕ) (s : State) → 0 < fuel → free env fuel s null ≡ some s
  unfolding free
  free-null zero s pos = absurd (omega arith)
  free-null (suc fuel) s pos = refl

  free-step :
      (fuel : ℕ) (s : State) (p c : ℕ)
      → p ≡ c
      → (c == null) ≡ false
      → free env (suc fuel) s p ≡ free env fuel (free_seg env s c) ((s.heap c).next)
  unfolding free
  free-step fuel s p c at live = rw (at, live) refl

  -- Freeing such a chain ends. Each of its mbufs goes back to its pool, each owner has a reference less,
  -- and nothing else changes.
  pub free-Chain :
      (fuel : ℕ) (s : State) (p : ℕ) (ps : List (ℕ × ℕ))
      → Chain s.heap p ps
      → Separate ps
      → ((x : ℕ) → mem x (owners ps) ≡ true → (2 ≤ (s.heap x).refcnt) × ((s.heap x).refcnt < u16))
      → length ps < fuel
      → (s' : State) × (free env fuel s p ≡ some s')
        × ((x : ℕ)
            → mem x (clones ps) ≡ false
            → s'.heap x ≡ (if mem x (owners ps) then unreferenced (s.heap x) else s.heap x))
        × (s'.puts ≡ s.puts ++ put_clones s.heap ps)
  unfolding Chain Separate clones owners mem put_clones
  free-Chain zero s p ps chain apart counts enough = absurd (omega arith)
  free-Chain (suc fuel) s p [] chain apart counts enough =
      (s, rw chain (free-null (suc fuel) s (omega arith)), λ x out. refl, sym (append-nil s.puts))
  free-Chain (suc fuel) s p ((c, a) ∷ ps) (live, at, attached, rest)
        (two, c_clone, c_owner, a_clone, a_owner, apart) counts enough =
      let (shared, small) = counts a (ground arith) in
      let other : (x : ℕ)
          → (x == c) ≡ false
          → (free_seg env s c).heap x ≡ (if x == a then unreferenced (s.heap x) else s.heap x) =
        free_seg-other env s c a live two attached shared small in
      let kept : (x : ℕ)
          → (x == c) ≡ false
          → (x == a) ≡ false
          → (free_seg env s c).heap x ≡ s.heap x =
        λ x not_c not_a. other x not_c ∙ rw not_a refl in
      let same : (x : ℕ) → mem x (clones ps) ≡ true → (free_seg env s c).heap x ≡ s.heap x =
        λ x m. kept x (mem-apart x c (clones ps) m c_clone) (mem-apart x a (clones ps) m a_clone) in
      let (s', ran, heap, puts) =
        free-Chain fuel (free_seg env s c) ((s.heap c).next) ps
          (Chain-same s.heap (free_seg env s c).heap ((s.heap c).next) ps same rest) apart
          (λ x m.
            subst (λ (y : Mbuf). (2 ≤ y.refcnt) × (y.refcnt < u16))
              (sym (
                kept x (mem-apart x c (owners ps) m c_owner) (mem-apart x a (owners ps) m a_owner)))
              (counts x (ground arith)))
          (omega arith) in
      (
        s',
        free-step fuel s p c at live ∙ ran,
        λ x out. elim (Bool-cases (x == a)) [
          | inl here ↦
              let in_rest : mem x (owners ps) ≡ false =
                ap (λ y. mem y (owners ps)) ((==_iff x a).0 here) ∙ a_owner in
              rw here
                (heap x (or-right _ _ out) ∙ rw in_rest (other x (or-left _ _ out) ∙ rw here refl))
          | inr not_a ↦
              rw not_a (heap x (or-right _ _ out) ∙ rw (kept x (or-left _ _ out) not_a) refl)
        ],
        puts
            ∙ ap₂ ◌++◌ (free_seg-puts env s c a live two attached shared small)
                (put_clones-same s.heap (free_seg env s c).heap ps same)
            ∙ append_assoc s.puts (((s.heap c).pool, c) ∷ []) (put_clones s.heap ps),
      )
