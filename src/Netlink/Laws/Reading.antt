-- ===== src/Netlink/Laws/Reading.antt =====
-- src/ext/ext_netlink.c: a receiver reads the attributes of a request back.
use dpdk_cr.Common.{
  u16, u32, Option, ◌%◌, ◌≤◌, ℕ, zero, suc, ◌+◌, ◌-◌, ◌*◌, ◌/◌, ◌<◌, List, [], ◌∷◌, ◌++◌, ◌≡◌, refl,
  ap, ap₂, ◌∙◌, arith, length, take, drop, append_assoc, some, le→ltb, ◌==◌, false,
}
use dpdk_cr.Common.Bytes.{Bytes, get32, get_bytes, le_bytes, of_le, of_le-le_bytes}
use dpdk_cr.Netlink.Attributes.{nlattr_add}
use dpdk_cr.Netlink.Laws.Invariant.{Holds, nlattr_add-Holds}
use dpdk_cr.Netlink.Reader.{
  attrs_size, Attr, attr_size, attr_bytes, attrs_bytes, zeros, Fits, AllFit, read_attr, read_attrs,
}

length-append : (xs ys : List ℕ) → length (xs ++ ys) ≡ length xs + length ys
length-append [] ys = omega arith
length-append (x ∷ xs) ys = omega (arith, length-append xs ys)

take-append : (xs ys : List ℕ) → take (length xs) (xs ++ ys) ≡ xs
take-append [] ys = refl
take-append (x ∷ xs) ys = ap (λ (r : List ℕ). x ∷ r) (take-append xs ys)

drop-append : (xs ys : List ℕ) → drop (length xs) (xs ++ ys) ≡ ys
drop-append [] ys = refl
drop-append (x ∷ xs) ys = drop-append xs ys

length-zeros : (n : ℕ) → length (zeros n) ≡ n
length-zeros zero = refl
length-zeros (suc n) = omega (arith, length-zeros n)

length-attr_bytes : (a : Attr) → length (attr_bytes a) ≡ attr_size a
unfolding attr_bytes
length-attr_bytes a = omega (
  arith,
  length-append a.payload (zeros (attr_size a - (length a.payload + 4))),
  length-zeros (attr_size a - (length a.payload + 4)),
)

-- The parts that read_attr takes of an attribute and the bytes after it.
module _ (a : Attr) (rest : List ℕ) (fits : Fits a) where
  bytes : List ℕ
  bytes = attr_bytes a ++ rest

  bytes-len : of_le (take 2 bytes) ≡ length a.payload + 4
  unfolding bytes attr_bytes le_bytes
  bytes-len = of_le-le_bytes 2 (length a.payload + 4) (omega arith)

  bytes-type : of_le (take 2 (drop 2 bytes)) ≡ a.rta_type
  unfolding bytes attr_bytes le_bytes
  bytes-type = of_le-le_bytes 2 a.rta_type (omega arith)

  bytes-payload : take (length a.payload + 4 - 4) (drop 4 bytes) ≡ a.payload
  unfolding bytes attr_bytes le_bytes
  bytes-payload =
      ap₂ take (let cancel : length a.payload + 4 - 4 ≡ length a.payload = omega arith in cancel)
        (append_assoc a.payload (zeros (attr_size a - (length a.payload + 4))) rest)
      ∙ take-append a.payload (zeros (attr_size a - (length a.payload + 4)) ++ rest)

  bytes-rest : drop ((length a.payload + 4 + 3) / 4 * 4) bytes ≡ rest
  unfolding bytes
  bytes-rest =
      ap (λ (n : ℕ). drop n (attr_bytes a ++ rest)) {y = length (attr_bytes a)}
        (omega (arith, length-attr_bytes a))
      ∙ drop-append (attr_bytes a) rest

  length-bytes : length bytes ≡ attr_size a + length rest
  unfolding bytes
  length-bytes = omega (arith, length-append (attr_bytes a) rest, length-attr_bytes a)

  read-attr_bytes : read_attr bytes ≡ some (a, rest)
  unfolding read_attr
  read-attr_bytes =
      rw (bytes-len, bytes-type, bytes-payload, bytes-rest, length-bytes)
        (rw
          (
            le→ltb (attr_size a + length rest) 4 (omega arith),
            le→ltb (length a.payload + 4) 4 (omega arith),
            le→ltb (attr_size a + length rest) (length a.payload + 4) (omega arith),
          )
          refl)

-- With one unit of fuel more than there are attributes, all are read back.
pub read-attrs_bytes :
    (f : ℕ) (attrs : List Attr)
    → AllFit attrs
    → length attrs < f
    → read_attrs f (attrs_bytes attrs) ≡ some attrs
unfolding read_attrs bytes
read-attrs_bytes zero attrs fit h = absurd (omega arith)
read-attrs_bytes (suc f) [] fit h = refl
read-attrs_bytes (suc f) (a ∷ rest) fit h =
    let step : read_attr (attr_bytes a ++ attrs_bytes rest) ≡ some (a, attrs_bytes rest) =
      read-attr_bytes a (attrs_bytes rest) fit.0 in
    let more : length (attr_bytes a ++ attrs_bytes rest) == 0 ≡ false =
      ground (arith, length-bytes a (attrs_bytes rest) fit.0) in
    rw (more, step, read-attrs_bytes f rest fit.1 (omega arith)) refl

AllFit-append : (xs ys : List Attr) → AllFit xs → AllFit ys → AllFit (xs ++ ys)
AllFit-append [] ys hx hy = hy
AllFit-append (x ∷ xs) ys hx hy = (hx.0, AllFit-append xs ys hx.1 hy)

length-snoc : (xs : List Attr) (a : Attr) → length (xs ++ a ∷ []) ≡ suc (length xs)
length-snoc [] a = refl
length-snoc (x ∷ xs) a = omega (arith, length-snoc xs a)

-- A receiver that walks from `start` to the end that the length field gives.
pub read_all : ℕ → ℕ → Bytes → Option (List Attr)
unfolding read_attrs
read_all fuel start b = read_attrs fuel (get_bytes b start (get32 b 0 - start))

-- If a request with room holds a list of attributes behind its header, then after nlattr_add a
-- receiver that walks from the header to the end given by the length field reads these attributes
-- and the new one, with its type and content.
pub read-nlattr_add :
    (start : ℕ) (nh : Bytes) (attrs : List Attr) (type : ℕ) (content : List ℕ)
    → 4 ≤ start
    → start % 4 ≡ 0
    → length content + 4 < u16
    → type < u16
    → start + attrs_size attrs + (length content + 7) / 4 * 4 < u32
    → AllFit attrs
    → Holds start nh attrs
    → read_all (suc (suc (length attrs))) start (nlattr_add nh type content)
      ≡ some (attrs ++ (record { rta_type = type; payload = content }) ∷ [])
unfolding read_all
read-nlattr_add start nh attrs type content low aligned fits typed room fit h =
    let a : Attr = record { rta_type = type; payload = content } in
    let after : Holds start (nlattr_add nh type content) (attrs ++ a ∷ []) =
      nlattr_add-Holds start nh attrs type content low aligned fits room h in
    ap (read_attrs (suc (suc (length attrs)))) (
      ap (get_bytes (nlattr_add nh type content) start) {y = attrs_size (attrs ++ a ∷ [])}
        (omega (arith, after.counted))
      ∙ after.spelled)
    ∙ read-attrs_bytes (suc (suc (length attrs))) (attrs ++ a ∷ [])
        (AllFit-append attrs (a ∷ []) fit ((fits, typed), tt)) (omega (arith, length-snoc attrs a))
