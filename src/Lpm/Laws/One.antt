-- ===== src/Lpm/Laws/One.antt =====
-- One lookup, on tables of entries with fields.
use dpdk_cr.Common.{
  minus_enoent, ℕ, ◌+◌, ◌*◌, ◌/◌, ◌%◌, ◌^◌, ◌≡◌, refl, ap, ◌∙◌, bit_and, ◌==◌, Bool, true, false,
  ◌&&◌, if◌then◌else◌, ℤ, Table, Bool-cases, inl, inr, arith,
}
use dpdk_cr.Common.Bits.{bit_and-mask, bit_and-shift}
use dpdk_cr.Lpm.Lookup.{Lpm, lookup, tbl8_index, valid_ext_entry_bitmask, lookup_success}
use dpdk_cr.Lpm.Fields.{TblEntry, bit, word}

word-next_hop : (e : TblEntry) → bit_and (word e) 0x00ffffff ≡ e.next_hop % 2 ^ 24
unfolding word
word-next_hop e = bit_and-mask 24 (word e) ∙ omega arith

word-success : (e : TblEntry) → bit_and (word e) lookup_success ≡ bit (e.valid) * 2 ^ 24
unfolding word
word-success e =
    bit_and-shift 24 (word e) 1
    ∙ ap (λ (x : ℕ). x * 2 ^ 24) (bit_and-mask 1 (word e / 2 ^ 24))
    ∙ elim (Bool-cases (e.valid)) [
      | inl valid ↦ rw valid (omega arith)
      | inr invalid ↦ rw invalid (omega arith)
    ]

word-ext :
    (e : TblEntry)
    → (bit_and (word e) valid_ext_entry_bitmask == valid_ext_entry_bitmask)
      ≡ (e.valid && e.valid_group)
unfolding word
word-ext e =
    ap (λ (x : ℕ). x == valid_ext_entry_bitmask)
      (bit_and-shift 24 (word e) 3 ∙ ap (λ (x : ℕ). x * 2 ^ 24) (bit_and-mask 2 (word e / 2 ^ 24)))
    ∙ fields e.next_hop e.valid e.valid_group e.depth
  where
    fields :
        (next_hop : ℕ) (valid valid_group : Bool) (depth : ℕ)
        → (word (record {
          next_hop = next_hop;
          valid = valid;
          valid_group = valid_group;
          depth = depth;
        })
              / 2 ^ 24
              % 2 ^ 2
              * 2 ^ 24
            == valid_ext_entry_bitmask)
          ≡ (valid && valid_group)
    fields next_hop true true depth = ground arith
    fields next_hop true false depth = ground arith
    fields next_hop false true depth = ground arith
    fields next_hop false false depth = ground arith

-- What a lookup returns for an entry, and the index that it computes from one.
result :
    (e : TblEntry)
    → Path
        (ℤ × ℕ)
        (
          if bit_and (word e) lookup_success == 0 then minus_enoent else ℤ.pos 0,
          bit_and (word e) 0x00ffffff,
        )
        (if e.valid then ℤ.pos 0 else minus_enoent, e.next_hop % 2 ^ 24)
result e =
    rw (word-success e, word-next_hop e)
      (elim (Bool-cases (e.valid)) [ inl valid ↦ rw valid refl | inr invalid ↦ rw invalid refl ])

tbl8_index-word :
    (ip : ℕ) (e : TblEntry) → tbl8_index ip (word e) ≡ e.next_hop % 2 ^ 24 * 256 + ip % 2 ^ 8
tbl8_index-word ip e = rw (word-next_hop e) (omega arith)

-- The tables with their entries' fields, and how they lie in memory.
pub record Entries : Type 0 where
  pub tbl24 : Table TblEntry
  pub tbl8 : Table TblEntry

unfoldable pub layout : Entries → Lpm
layout t = record { tbl24 = λ i. word (t.tbl24 i); tbl8 = λ i. word (t.tbl8 i) }

-- The entry that an address leads to: by its upper 24 bits, then perhaps in a group by its last 8.
unfoldable pub entry : Entries → ℕ → TblEntry
entry t ip =
    let e = t.tbl24 (ip / 2 ^ 8) in
    if e.valid && e.valid_group then t.tbl8 (e.next_hop % 2 ^ 24 * 256 + ip % 2 ^ 8) else e

-- A lookup succeeds exactly when that entry is valid, and returns its next hop. The index into the
-- groups does not wrap.
pub lookup_lem :
    (t : Entries) (ip : ℕ)
    → lookup (layout t) ip
      ≡ (if (entry t ip).valid then ℤ.pos 0 else minus_enoent, (entry t ip).next_hop % 2 ^ 24)
unfolding lookup layout entry
lookup_lem t ip =
    let e = t.tbl24 (ip / 2 ^ 8) in
    elim (Bool-cases (e.valid && e.valid_group)) [
      | inl extended ↦
          rw (word-ext e, extended)
            (rw (tbl8_index-word ip e) (result (t.tbl8 (e.next_hop % 2 ^ 24 * 256 + ip % 2 ^ 8))))
      | inr plain ↦ rw (word-ext e, plain) (result e)
    ]
