-- ===== src/Netlink/Laws/Attributes.antt =====
-- src/ext/ext_netlink.c: what one nlattr_add does to the bytes of a request.
use dpdk_cr.Common.{
  ℕ, zero, suc, ◌+◌, ◌-◌, ◌*◌, ◌/◌, ◌%◌, ◌≤◌, ◌<◌, List, ◌∷◌, ◌++◌, ◌≡◌, refl, ap, ap₂, ◌∙◌, inl,
  inr, ◌⊎◌, arith, length, u16, u32, add32, append_assoc, tabulate,
}
use dpdk_cr.Common.Bytes.{
  Bytes, put_bytes, put16, put32, get16, get32, get_bytes, le_bytes, of_le, of_le-le_bytes,
  put_bytes_outside, put16_outside, put32_outside, get32-put32, get32-ext, get-put_bytes,
  get_bytes-ext, get_bytes-add,
}
use dpdk_cr.Netlink.Uapi.{nlmsg_align, rta_align, rta_length}
use dpdk_cr.Netlink.Attributes.{nlattr_add, nlmsg_tail}
use dpdk_cr.Netlink.Reader.{attr_bytes, zeros}

zeros_lem : (off n : ℕ) → get_bytes (λ _. 0) off n ≡ zeros n
unfolding get_bytes tabulate
zeros_lem off zero = refl
zeros_lem off (suc n) = ap (λ (xs : List ℕ). 0 ∷ xs) (zeros_lem off n)

get_bytes-zeros :
    (b : Bytes) (off n : ℕ) → ((j : ℕ) → off ≤ j → b j ≡ 0) → get_bytes b off n ≡ zeros n
get_bytes-zeros b off n clean =
    get_bytes-ext b (λ _. 0) off n (λ j h k. clean j h) ∙ zeros_lem off n

-- The attribute's bytes before the length field of the request changes.
module _ (nh : Bytes) (rta type : ℕ) (content : List ℕ) where
  with_header : Bytes
  with_header = put16 (put16 nh rta (rta_length (length content))) (rta + 2) type

  filled : Bytes
  filled = put_bytes with_header (rta + 4) content

  filled-header : (j : ℕ) → j < rta + 4 → filled j ≡ with_header j
  unfolding filled
  filled-header j h = put_bytes_outside with_header (rta + 4) content j (inl h)

  filled_outside : (j : ℕ) → (j < rta) ⊎ (rta + (length content + 4) ≤ j) → filled j ≡ nh j
  unfolding filled with_header
  filled_outside j out =
      put_bytes_outside with_header (rta + 4) content j (ground arith)
      ∙ put16_outside (put16 nh rta (rta_length (length content))) (rta + 2) type j (ground arith)
      ∙ put16_outside nh rta (rta_length (length content)) j (ground arith)

  header-length : get_bytes with_header rta 2 ≡ le_bytes 2 (rta_length (length content))
  unfolding with_header put16 le_bytes
  header-length =
      get_bytes-ext with_header (put16 nh rta (rta_length (length content))) rta 2 (λ j h k.
        put16_outside (put16 nh rta (rta_length (length content))) (rta + 2) type j (inl k))
      ∙ get-put_bytes nh rta (le_bytes 2 (rta_length (length content)))

  header-type : get_bytes with_header (rta + 2) 2 ≡ le_bytes 2 type
  unfolding with_header put16 le_bytes
  header-type =
      get-put_bytes (put16 nh rta (rta_length (length content))) (rta + 2) (le_bytes 2 type)

  filled-rta_len : length content + 4 < u16 → get16 filled rta ≡ length content + 4
  unfolding get16
  filled-rta_len fits =
      ap of_le (
        get_bytes-ext filled with_header rta 2 (λ j h k. filled-header j (omega arith))
        ∙ header-length)
      ∙ of_le-le_bytes 2 (rta_length (length content)) (omega arith)
      ∙ omega arith

  get_filled_content : get_bytes filled (rta + 4) (length content) ≡ content
  unfolding filled
  get_filled_content = get-put_bytes with_header (rta + 4) content

  get-filled :
      get_bytes filled rta (length content + 4)
      ≡ le_bytes 2 (length content + 4) ++ (le_bytes 2 type ++ content)
  get-filled =
      ap (get_bytes filled rta) {y = 2 + (2 + length content)} (omega arith)
      ∙ get_bytes-add filled rta 2 (2 + length content)
      ∙ ap₂ ◌++◌
          (get_bytes-ext filled with_header rta 2 (λ j h k. filled-header j (omega arith))
            ∙ header-length
            ∙ ap (le_bytes 2) {x = rta_length (length content)} (omega arith))
          (get_bytes-add filled (rta + 2) 2 (length content)
            ∙ ap₂ ◌++◌
                (get_bytes-ext filled with_header (rta + 2) 2
                    (λ j h k. filled-header j (omega arith))
                  ∙ header-type)
                (ap (λ (o : ℕ). get_bytes filled o (length content)) {y = rta + 4} (omega arith)
                  ∙ get_filled_content))

-- A request that ends at `end` and has room for the attribute.
module _ (nh : Bytes) (type : ℕ) (content : List ℕ) {end : ℕ} (ends : get32 nh 0 ≡ end)
    (aligned : end % 4 ≡ 0) (low : 4 ≤ end) (fits : length content + 4 < u16)
    (room : end + (length content + 7) / 4 * 4 < u32) where
  tail : nlmsg_tail nh ≡ end
  tail = rw ends (omega arith)

  filled-length : get32 (filled nh end type content) 0 ≡ end
  filled-length =
      get32-ext (filled nh end type content) nh 0
        (λ j h k. filled_outside nh end type content j (inl (omega arith)))
      ∙ ends

  -- the last store of nlattr_add
  nlattr_add_lem :
      nlattr_add nh type content
      ≡ put32 (filled nh end type content) 0 (end + (length content + 7) / 4 * 4)
  unfolding nlattr_add filled with_header
  nlattr_add_lem = rw tail (
      ap (put32 (filled nh end type content) 0) (
        ap₂ (λ (o r : ℕ). add32 (nlmsg_align o) (rta_align r)) filled-length
          (filled-rta_len nh end type content fits)
        ∙ omega arith))

  pub nlattr_add-length : get32 (nlattr_add nh type content) 0 ≡ end + (length content + 7) / 4 * 4
  nlattr_add-length =
      ap (λ (b : Bytes). get32 b 0) nlattr_add_lem
      ∙ get32-put32 (filled nh end type content) 0 (end + (length content + 7) / 4 * 4) room

  pub nlattr_add_outside :
      (j : ℕ)
      → 4 ≤ j
      → (j < end) ⊎ (end + (length content + 7) / 4 * 4 ≤ j)
      → nlattr_add nh type content j ≡ nh j
  nlattr_add_outside j body out =
      ap (λ (b : Bytes). b j) nlattr_add_lem
      ∙ put32_outside (filled nh end type content) 0 (end + (length content + 7) / 4 * 4) j
          (inr body)
      ∙ filled_outside nh end type content j (ground arith)

  nlattr_add-content :
      (j : ℕ) → end ≤ j → nlattr_add nh type content j ≡ filled nh end type content j
  nlattr_add-content j h =
      ap (λ (b : Bytes). b j) nlattr_add_lem
      ∙ put32_outside (filled nh end type content) 0 (end + (length content + 7) / 4 * 4) j
          (inr (omega arith))

  pub get-nlattr_add :
      ((j : ℕ) → end ≤ j → nh j ≡ 0)
      → get_bytes (nlattr_add nh type content) end ((length content + 7) / 4 * 4)
        ≡ attr_bytes (record { rta_type = type; payload = content })
  unfolding attr_bytes
  get-nlattr_add clean =
      let size : ℕ = length content + 4 in
      let pad : ℕ = (length content + 7) / 4 * 4 - size in
      get_bytes-ext (nlattr_add nh type content) (filled nh end type content) end
        ((length content + 7) / 4 * 4) (λ j h k. nlattr_add-content j h)
      ∙ ap (get_bytes (filled nh end type content) end) {y = size + pad} (omega arith)
      ∙ get_bytes-add (filled nh end type content) end size pad
      ∙ ap₂ ◌++◌ (get-filled nh end type content) (
          get_bytes-zeros (filled nh end type content) (end + size) pad
            (λ j h. filled_outside nh end type content j (inr h) ∙ clean j (omega arith)))
      ∙ append_assoc (le_bytes 2 size) (le_bytes 2 type ++ content) (zeros pad)
      ∙ ap (λ (bs : List ℕ). le_bytes 2 size ++ bs)
          (append_assoc (le_bytes 2 type) content (zeros pad))

  -- In a request with room whose length field is aligned, nlattr_add raises the length field by the
  -- aligned size of the attribute and, apart from that field, changes no byte before the former end
  -- or from the new end on.
  pub nlattr_add_bounds :
      (j : ℕ)
      → 4 ≤ j
      → (j < end) ⊎ (end + (length content + 7) / 4 * 4 ≤ j)
      → (get32 (nlattr_add nh type content) 0 ≡ end + (length content + 7) / 4 * 4)
        × (nlattr_add nh type content j ≡ nh j)
  nlattr_add_bounds j body out = (nlattr_add-length, nlattr_add_outside j body out)
