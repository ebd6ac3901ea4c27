-- ===== src/Lpm/Laws/Bulk.antt =====
-- A lookup in bulk leaves, for each address, the entry's word that a single lookup reads.
use dpdk_cr.Common.{
  minus_enoent, store-at, store-store, ap, ◌∙◌, ℕ, zero, suc, ◌+◌, ◌/◌, ◌^◌, ◌≡◌, ◌<◌, ◌≤◌, refl,
  bit_and, ◌==◌, ltb, leb, ◌&&◌, if◌then◌else◌, ℤ, Table, store, Bool-cases, inl, inr, arith,
}
use dpdk_cr.Lpm.Lookup.{
  Lpm, lookup, tbl8_index, tbl24_indexes, lookup_entries, lookup_bulk_func, valid_ext_entry_bitmask,
  lookup_success,
}

store-test : (t : Table ℕ) (i j v : ℕ) → store t i v j ≡ (if j == i then v else t j)
unfolding store
store-test t i j v = refl

tbl24_indexes-at :
    (k i : ℕ) (ips indexes : Table ℕ) (j : ℕ)
    → tbl24_indexes k i ips indexes j
      ≡ (if leb i j && ltb j (i + k) then ips j / 2 ^ 8 else indexes j)
unfolding tbl24_indexes store
tbl24_indexes-at zero i ips indexes j = ground arith
tbl24_indexes-at (suc k) i ips indexes j =
    tbl24_indexes-at k (i + 1) ips (store indexes i (ips i / 2 ^ 8)) j ∙ ground arith

-- the word that a lookup reads last
unfoldable pub entry_word : Lpm → ℕ → ℕ → ℕ
entry_word lpm ip index =
    let entry = lpm.tbl24 index in
    if bit_and entry valid_ext_entry_bitmask == valid_ext_entry_bitmask
    then lpm.tbl8 (tbl8_index ip entry)
    else entry

-- one round of the second loop
round-at :
    (lpm : Lpm) (i : ℕ) (ips indexes next_hops : Table ℕ) (j : ℕ)
    → (let next_hops = store next_hops i (lpm.tbl24 (indexes i)) in
          if bit_and (next_hops i) valid_ext_entry_bitmask == valid_ext_entry_bitmask
          then store next_hops i (lpm.tbl8 (tbl8_index (ips i) (next_hops i)))
          else next_hops)
        j
      ≡ (if j == i then entry_word lpm (ips i) (indexes i) else next_hops j)
unfolding entry_word
round-at lpm i ips indexes next_hops j =
    rw (store-at next_hops i (lpm.tbl24 (indexes i)))
      (elim (Bool-cases
        (bit_and (lpm.tbl24 (indexes i)) valid_ext_entry_bitmask == valid_ext_entry_bitmask)) [
          | inl extended ↦
              rw extended (
                ap (λ (t : Table ℕ). t j) (store-store next_hops i _ _)
                ∙ store-test next_hops i j _)
          | inr plain ↦ rw plain (store-test next_hops i j _)
        ])

lookup_entries-at :
    (lpm : Lpm) (k i : ℕ) (ips indexes next_hops : Table ℕ) (j : ℕ)
    → lookup_entries lpm k i ips indexes next_hops j
      ≡ (if leb i j && ltb j (i + k) then entry_word lpm (ips j) (indexes j) else next_hops j)
unfolding lookup_entries
lookup_entries-at lpm zero i ips indexes next_hops j = ground arith
lookup_entries-at lpm (suc k) i ips indexes next_hops j =
    lookup_entries-at lpm k (i + 1) ips indexes _ j
    ∙ ground (arith, round-at lpm i ips indexes next_hops j)

-- Of the first `n` words in the output, each gives what a single lookup returns for its address, in the
-- bit that says success and in the low 24 bits; the others are left alone.
pub lookup_bulk_func_lem :
    (lpm : Lpm) (uninitialised ips next_hops : Table ℕ) (n i j : ℕ)
    → i < n
    → n ≤ j
    → let out = (lookup_bulk_func lpm uninitialised ips next_hops n).1 in
      (lookup lpm (ips i) ≡ (
        if bit_and (out i) lookup_success == 0 then minus_enoent else ℤ.pos 0,
        bit_and (out i) 0x00ffffff,
      ))
      × (out j ≡ next_hops j)
unfolding lookup_bulk_func lookup entry_word
lookup_bulk_func_lem lpm uninitialised ips next_hops n i j lt le =
    let indexes = tbl24_indexes n 0 ips uninitialised in
    let index : indexes i ≡ ips i / 2 ^ 8 =
      tbl24_indexes-at n 0 ips uninitialised i ∙ ground arith in
    let at : lookup_entries lpm n 0 ips indexes next_hops i
        ≡ entry_word lpm (ips i) (ips i / 2 ^ 8) =
      lookup_entries-at lpm n 0 ips indexes next_hops i ∙ ground arith in
    (rw at refl, lookup_entries-at lpm n 0 ips indexes next_hops j ∙ ground arith)
