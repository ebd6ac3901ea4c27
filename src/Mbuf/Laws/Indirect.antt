-- ===== src/Mbuf/Laws/Indirect.antt =====
-- Freeing an mbuf that is attached to the buffer of another.
use dpdk_cr.Common.{ℕ, ◌+◌, ◌*◌, ◌/◌, ◌%◌, ◌^◌, ◌≡◌, refl, ap, ◌∙◌, true, bit_and, bit_or, arith}
use dpdk_cr.Common.Bits.{bit_and-mask, bit_and-shift}
use dpdk_cr.Common.Shifted.{bit_or-shifted, bit_or-one}
use dpdk_cr.Mbuf.Heap.{Mbuf}
use dpdk_cr.Mbuf.Free.{ind_attached_mbuf, is_indirect}

-- The flag is read as it was set, whatever the others are.
flag_set :
    (flags : ℕ) → bit_and (bit_or flags ind_attached_mbuf) ind_attached_mbuf ≡ ind_attached_mbuf
flag_set flags =
    let high = flags / 2 ^ 62 in
    let set : bit_or flags (2 ^ 62) ≡ flags % 2 ^ 62 + bit_or high 1 * 2 ^ 62 =
      ap (λ (x : ℕ). bit_or x (2 ^ 62)) {y = flags % 2 ^ 62 + high * 2 ^ 62} (omega arith)
      ∙ bit_or-shifted 62 (flags % 2 ^ 62) high 1 (omega arith) in
    let shifted : bit_or flags (2 ^ 62) / 2 ^ 62 ≡ bit_or high 1 = omega (arith, set) in
    bit_and-shift 62 (bit_or flags (2 ^ 62)) 1
    ∙ ap (λ (x : ℕ). bit_and x 1 * 2 ^ 62) shifted
    ∙ ap (λ (x : ℕ). x * 2 ^ 62) {y = 1} (bit_and-mask 1 (bit_or high 1) ∙ bit_or-one high)

pub attached-is_indirect :
    (x : Mbuf) (flags : ℕ) → x.ol_flags ≡ bit_or flags ind_attached_mbuf → is_indirect x ≡ true
unfolding is_indirect
attached-is_indirect x flags set = rw (set, flag_set flags) refl
