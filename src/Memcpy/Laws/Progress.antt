-- ===== src/Memcpy/Laws/Progress.antt =====
-- A copy under way: the variables stand behind its first `k` bytes, and its first `j` bytes are
-- copied, which may be up to `slack` more.
use dpdk_cr.Common.{
  ℕ, zero, suc, ◌+◌, ◌-◌, ◌*◌, ◌≤◌, ◌<◌, ◌≡◌, sym, ap, ap₂, ◌∙◌, ltb, ltb→lt, leb, Bool-cases, inl,
  inr, bit_and, arith,
}
use dpdk_cr.Memcpy.Memory.{Memory, move, Apart, move-move}
use dpdk_cr.Memcpy.Variant.{Mov, Copy, copy, advance, advance_if, copy_last, blocks, behind_blocks}
use dpdk_cr.Memcpy.Laws.Blocks.{move-zero, Copies}

pub record Progress (slack n dst src : ℕ) (m : Memory) (c : Copy) : Type 0 where
  pub k : ℕ
  pub j : ℕ
  pub reach : k ≤ j
  pub near : j ≤ k + slack
  pub within : j ≤ n
  pub left : c.n + k ≡ n
  pub to : c.dst ≡ dst + k
  pub from : c.src ≡ src + k
  pub done : c.mem ≡ move j dst src m

module _ (slack n dst src : ℕ) (m : Memory) (apart : Apart n dst src) where
  abbrev At : Copy → Type 0
  At c = Progress slack n dst src m c

  pub start : At (copy n dst src m)
  start = record {
    k = 0;
    j = 0;
    reach = omega arith;
    near = omega arith;
    within = omega arith;
    left = omega arith;
    to = omega arith;
    from = omega arith;
    done = sym (move-zero dst src m);
  }

  -- A first copy of `w` bytes, of which the variables move over the first `ahead`.
  pub ahead-At :
      (w ahead : ℕ) (mov : Mov)
      → Copies w mov
      → ahead ≤ w
      → w ≤ ahead + slack
      → w ≤ n
      → At (copy (n - ahead) (dst + ahead) (src + ahead) (mov dst src m))
  ahead-At w ahead mov copies le near big = record {
    k = ahead;
    j = w;
    reach = le;
    near = near;
    within = big;
    left = omega arith;
    to = omega arith;
    from = omega arith;
    done = copies dst src m (omega arith);
  }

  -- Copying `w` bytes at the variables copies the next `w` bytes.
  pub extend :
      (w i : ℕ) (c : Copy) (p : At c)
      → i ≤ p.j
      → p.j ≤ i + w
      → i + w ≤ n
      → move w (dst + i) (src + i) c.mem ≡ move (i + w) dst src m
  extend w i c p le ge fits =
      ap (move w (dst + i) (src + i)) p.done ∙ move-move i w p.j dst src m le ge (omega arith)

  pub advance-At :
      (w : ℕ) (mov : Mov) (c : Copy)
      → At c
      → slack ≤ w
      → w ≤ c.n
      → (Apart w c.dst c.src → mov c.dst c.src c.mem ≡ move w c.dst c.src c.mem)
      → At (advance w mov c)
  advance-At w mov c p wide fits copies = record {
    k = p.k + w;
    j = p.k + w;
    reach = omega arith;
    near = omega arith;
    within = omega (arith, p.left);
    left = omega (arith, p.left);
    to = omega (arith, p.to);
    from = omega (arith, p.from);
    done =
        copies (omega (arith, p.left, p.to, p.from))
        ∙ ap₂ (λ (d s : ℕ). move w d s c.mem) p.to p.from
        ∙ extend w p.k c p (omega (arith, p.reach)) (omega (arith, p.near)) (omega (arith, p.left));
  }

  -- The last `w` bytes, over bytes that are copied already.
  pub back :
      (w : ℕ) (mov : Mov) (c : Copy) (p : At c)
      → Copies w mov
      → w ≤ n
      → c.n ≤ w
      → mov (c.dst + c.n - w) (c.src + c.n - w) c.mem ≡ move n dst src m
  back w mov c p copies big small =
      copies (c.dst + c.n - w) (c.src + c.n - w) c.mem (omega (arith, p.left, p.to, p.from))
      ∙ ap₂ (λ (d s : ℕ). move w d s c.mem) {y = dst + (n - w)} {v = src + (n - w)}
          (omega (arith, p.left, p.to)) (omega (arith, p.left, p.from))
      ∙ extend w (n - w) c p (omega (arith, p.left, p.reach)) (omega (arith, p.within))
          (omega arith)
      ∙ ap (λ (k : ℕ). move k dst src m) (omega arith)

  pub copy_last-move :
      (w : ℕ) (mov : Mov) (c : Copy)
      → At c
      → Copies w mov
      → slack ≤ w
      → w ≤ n
      → c.n ≤ w + w
      → copy_last w mov c ≡ move n dst src m
  unfolding copy_last
  copy_last-move w mov c p copies wide big small = elim (Bool-cases (ltb w c.n)) [
    | inl more ↦ rw more (
        ap₂ (λ (d s : ℕ). mov d s (mov c.dst c.src c.mem)) {y = c.dst + w + (c.n - w) - w}
          {v = c.src + w + (c.n - w) - w} (omega (arith, ltb→lt w c.n more))
          (omega (arith, ltb→lt w c.n more))
        ∙ back w mov (advance w mov c)
            (advance-At w mov c p wide (omega (arith, ltb→lt w c.n more))
              (copies c.dst c.src c.mem))
            copies big (omega arith))
    | inr less ↦ elim (Bool-cases (ltb 0 c.n)) [
      | inl some_left ↦ rw (less, some_left) (back w mov c p copies big (ground arith))
      | inr none_left ↦
          rw (less, none_left)
            (p.done ∙ ap (λ (k : ℕ). move k dst src m) (ground (arith, p.left, p.reach, p.within)))
    ]
  ]

  pub advance_if-At :
      (w : ℕ) (mov : Mov) (c : Copy) → At c → slack ≤ w → Copies w mov → At (advance_if w mov c)
  advance_if-At w mov c p wide copies = elim (Bool-cases (leb w c.n)) [
    | inl more ↦ rw more (advance-At w mov c p wide (ground arith) (copies c.dst c.src c.mem))
    | inr less ↦ rw less p
  ]

  pub advance_if-le : (w : ℕ) (mov : Mov) (c : Copy) → c.n ≤ w + w → (advance_if w mov c).n ≤ w
  advance_if-le w mov c lt = ground arith

  -- A loop over blocks ends with less than a block left, given as much fuel as there are bytes.
  pub blocks-At :
      (w : ℕ) (mov : Mov) (fuel : ℕ) (c : Copy)
      → 0 < w
      → slack ≤ w
      → Copies w mov
      → At c
      → c.n ≤ fuel
      → At (blocks w mov fuel c) × ((blocks w mov fuel c).n < w)
  unfolding blocks
  blocks-At w mov zero c pos wide copies p enough = (p, omega arith)
  blocks-At w mov (suc fuel) c pos wide copies p enough = elim (Bool-cases (leb w c.n)) [
    | inl more ↦
        let big : w ≤ c.n = ground arith in
        rw more (
          blocks-At w mov fuel (advance w mov c) pos wide copies
            (advance-At w mov c p wide big (copies c.dst c.src c.mem)) (omega arith))
    | inr less ↦ rw less (p, ground arith)
  ]

-- What such a loop has taken is a number of whole blocks.
pub blocks-rounds :
    (w : ℕ) (mov : Mov) (fuel : ℕ) (c : Copy)
    → (q : ℕ) × ((blocks w mov fuel c).n + q * w ≡ c.n)
      × ((blocks w mov fuel c).dst ≡ c.dst + q * w)
      × ((blocks w mov fuel c).src ≡ c.src + q * w)
unfolding blocks
blocks-rounds w mov zero c = (0, omega arith, omega arith, omega arith)
blocks-rounds w mov (suc fuel) c = elim (Bool-cases (leb w c.n)) [
  | inl more ↦
      let (q, n, dst, src) = blocks-rounds w mov fuel (advance w mov c) in
      let next : (q + 1) * w ≡ q * w + w = grind arith in
      let big : w ≤ c.n = ground arith in
      rw more
        (q + 1, omega (arith, n, next, big), omega (arith, dst, next), omega (arith, src, next))
  | inr less ↦ rw less (0, omega arith, omega arith, omega arith)
]

-- Taking the low digits of the length then gives the variables behind the loop.
pub behind_blocks-blocks :
    (w mask : ℕ) (mov : Mov) (c : Copy)
    → bit_and c.n mask ≡ (blocks w mov c.n c).n
    → behind_blocks mask c (blocks w mov c.n c).mem ≡ blocks w mov c.n c
unfolding behind_blocks
behind_blocks-blocks w mask mov c low =
    let r = blocks w mov c.n c in
    let (q, n, dst, src) = blocks-rounds w mov c.n c in
    ap (λ (k : ℕ). copy k (c.dst + (c.n - k)) (c.src + (c.n - k)) r.mem) low
    ∙ ap₂ (λ (d s : ℕ). copy r.n d s r.mem) (omega (arith, n, dst)) (omega (arith, n, src))
