-- ===== src/Netlink/Laws/Invariant.antt =====
-- src/ext/ext_netlink.c: attributes that are added to a request stand one after the other behind
-- its header, and a receiver reads them back.
use dpdk_cr.Common.{
  ℕ, ◌+◌, ◌*◌, ◌/◌, ◌%◌, ◌≤◌, ◌<◌, List, [], ◌∷◌, ◌++◌, ◌≡◌, refl, sym, ap, ap₂, ◌∙◌, inl, inr,
  arith, length, u16, u32, append_assoc, append-nil,
}
use dpdk_cr.Common.Bytes.{Bytes, get32, get_bytes, get_bytes-ext, get_bytes-add}
use dpdk_cr.Netlink.Attributes.{nlattr_add}
use dpdk_cr.Netlink.Reader.{Attr, attr_size, attrs_size, attr_bytes, attrs_bytes}
use dpdk_cr.Netlink.Laws.Attributes.{nlattr_add-length, nlattr_add_outside, get-nlattr_add}

-- A request whose attributes start at `start`: its length field counts all of them, they are
-- spelled one after the other, and the rest of the buffer is still zero.
pub record Holds (start : ℕ) (b : Bytes) (attrs : List Attr) : Type 0 where
  pub counted : get32 b 0 ≡ start + attrs_size attrs
  pub spelled : get_bytes b start (attrs_size attrs) ≡ attrs_bytes attrs
  pub clean : (j : ℕ) → start + attrs_size attrs ≤ j → b j ≡ 0

attrs_size-aligned : (attrs : List Attr) → attrs_size attrs % 4 ≡ 0
attrs_size-aligned [] = refl
attrs_size-aligned (a ∷ rest) = omega (arith, attrs_size-aligned rest)

pub attrs_size-append : (xs ys : List Attr) → attrs_size (xs ++ ys) ≡ attrs_size xs + attrs_size ys
attrs_size-append [] ys = omega arith
attrs_size-append (x ∷ xs) ys = omega (arith, attrs_size-append xs ys)

attrs_bytes-append : (xs ys : List Attr) → attrs_bytes (xs ++ ys) ≡ attrs_bytes xs ++ attrs_bytes ys
attrs_bytes-append [] ys = refl
attrs_bytes-append (x ∷ xs) ys =
    ap (λ (bs : List ℕ). attr_bytes x ++ bs) (attrs_bytes-append xs ys)
    ∙ sym (append_assoc (attr_bytes x) (attrs_bytes xs) (attrs_bytes ys))

-- The invariant of a request under construction.
pub nlattr_add-Holds :
    (start : ℕ) (nh : Bytes) (attrs : List Attr) (type : ℕ) (content : List ℕ)
    → 4 ≤ start
    → start % 4 ≡ 0
    → length content + 4 < u16
    → start + attrs_size attrs + (length content + 7) / 4 * 4 < u32
    → Holds start nh attrs
    → Holds start
        (nlattr_add nh type content)
        (attrs ++ (record { rta_type = type; payload = content }) ∷ [])
nlattr_add-Holds start nh attrs type content low aligned fits room h =
    let a : Attr = record { rta_type = type; payload = content } in
    let end : ℕ = start + attrs_size attrs in
    let even : end % 4 ≡ 0 = omega (arith, attrs_size-aligned attrs) in
    let above : 4 ≤ end = omega arith in
    let size : ℕ = attrs_size (attrs ++ a ∷ []) in
    let grown : size ≡ attrs_size attrs + attr_size a =
      omega (arith, attrs_size-append attrs (a ∷ [])) in
    let outside = nlattr_add_outside nh type content h.counted even above fits room in
    record {
      counted = nlattr_add-length nh type content h.counted even above fits room ∙ omega arith;
      spelled =
          ap (get_bytes (nlattr_add nh type content) start) grown
          ∙ get_bytes-add (nlattr_add nh type content) start (attrs_size attrs) (attr_size a)
          ∙ ap₂ ◌++◌
              (get_bytes-ext (nlattr_add nh type content) nh start (attrs_size attrs)
                  (λ j l k. outside j (omega arith) (inl k))
                ∙ h.spelled)
              (get-nlattr_add nh type content h.counted even above fits room h.clean)
          ∙ ap (λ (bs : List ℕ). attrs_bytes attrs ++ bs) (sym (append-nil (attr_bytes a)))
          ∙ sym (attrs_bytes-append attrs (a ∷ []));
      clean = λ j k. outside j (omega arith) (inr (omega arith)) ∙ h.clean j (omega arith);
    }
