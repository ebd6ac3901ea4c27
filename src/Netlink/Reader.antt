-- ===== src/Netlink/Reader.antt =====
-- The receiver's view of a request: the attributes that RTA_OK and RTA_NEXT walk over.
use dpdk_cr.Common.{
  ℕ, zero, suc, ◌+◌, ◌-◌, ◌/◌, ◌*◌, ◌<◌, List, [], ◌∷◌, ◌++◌, Option, none, some, ◌||◌, ◌&&◌,
  if◌then◌else◌, ltb, ◌==◌, length, take, drop, u16, ◌>>=◌, pure,
}
use dpdk_cr.Common.Bytes.{le_bytes, of_le}

pub record Attr : Type 0 where
  pub rta_type : ℕ
  pub payload : List ℕ

abbrev pub byte_at : ℕ → List ℕ → ℕ
byte_at i [] = 0
byte_at zero (x ∷ xs) = x
byte_at (suc i) (x ∷ xs) = byte_at i xs

abbrev pub zeros : ℕ → List ℕ
zeros zero = []
zeros (suc n) = 0 ∷ zeros n

-- the length with its header, rounded up to a multiple of four
abbrev pub attr_size : Attr → ℕ
attr_size a = (length a.payload + 7) / 4 * 4

abbrev pub attrs_size : List Attr → ℕ
attrs_size [] = 0
attrs_size (a ∷ rest) = attr_size a + attrs_size rest

-- the bytes of an attribute: length, type, payload, padding
unfoldable pub attr_bytes : Attr → List ℕ
unfolding le_bytes
attr_bytes a =
    le_bytes 2 (length a.payload + 4)
    ++ (le_bytes 2 a.rta_type ++ (a.payload ++ zeros (attr_size a - (length a.payload + 4))))

abbrev pub attrs_bytes : List Attr → List ℕ
attrs_bytes [] = []
attrs_bytes (a ∷ rest) = attr_bytes a ++ attrs_bytes rest

-- both header fields are `unsigned short`
abbrev pub Fits : Attr → Type 0
Fits a = (length a.payload + 4 < u16) × (a.rta_type < u16)

abbrev pub AllFit : List Attr → Type 0
AllFit [] = Unit {0}
AllFit (a ∷ rest) = Fits a × AllFit rest

-- One attribute and the bytes after it; `none` where RTA_OK fails.
unfoldable pub read_attr : List ℕ → Option (Attr × List ℕ)
unfolding of_le
read_attr xs =
    let len = of_le (take 2 xs) in
    if ltb (length xs) 4 || ltb len 4 || ltb (length xs) len
    then none
    else some (
      record { rta_type = of_le (take 2 (drop 2 xs)); payload = take (len - 4) (drop 4 xs) },
      drop ((len + 3) / 4 * 4) xs,
    )

-- All attributes; the fuel bounds their number.
unfoldable pub read_attrs : ℕ → List ℕ → Option (List Attr)
unfolding read_attr
read_attrs zero xs = none
read_attrs (suc f) xs =
    if length xs == 0
    then some []
    else do (a, rest) ← read_attr xs; others ← read_attrs f rest; pure (a ∷ others)

-- A whole message after the checks of a receiver.
pub record Message : Type 0 where
  pub nlmsg_type : ℕ
  pub nlmsg_flags : ℕ
  pub body : List ℕ
  pub attrs : List Attr

-- A message whose body has `body_size` bytes before its attributes. A length field that does not fit
-- what was received is refused.
unfoldable pub read_message : ℕ → List ℕ → Option Message
unfolding read_attrs of_le
read_message body_size xs =
    let len = of_le (take 4 xs) in
    if ltb (length xs) len || ltb len (16 + body_size) then none else do
      attrs ← read_attrs (suc (length xs)) (drop (16 + body_size) (take len xs))
      pure (record {
        nlmsg_type = of_le (take 2 (drop 4 xs));
        nlmsg_flags = of_le (take 2 (drop 6 xs));
        body = take body_size (drop 16 xs);
        attrs = attrs;
      })

-- The first attribute of a type, and a number in one.
unfoldable pub attr_payload : ℕ → List Attr → Option (List ℕ)
attr_payload type [] = none
attr_payload type (a ∷ rest) = if a.rta_type == type then some a.payload else attr_payload type rest

unfoldable pub attr_number : ℕ → List Attr → Option ℕ
unfolding attr_payload of_le
attr_number type attrs = do
  payload ← attr_payload type attrs
  if length payload == 4 then pure (of_le payload) else none

-- what a request for an IPv4 route asks for
pub record Route : Type 0 where
  pub prefix_length : ℕ
  pub scope : ℕ
  pub gateway : ℕ
  pub destination : ℕ
  pub interface : ℕ

-- `none` unless it is a new unicast route of the main table with all three attributes.
unfoldable pub read_route : List ℕ → Option Route
unfolding read_message attr_number
read_route xs = do
  m ← read_message 12 xs
  gateway ← attr_number 5 m.attrs
  destination ← attr_number 1 m.attrs
  interface ← attr_number 4 m.attrs
  if m.nlmsg_type == 24
        && (byte_at 0 m.body == 2 && (byte_at 4 m.body == 254 && byte_at 7 m.body == 1))
      then pure (record {
        prefix_length = byte_at 1 m.body;
        scope = byte_at 6 m.body;
        gateway = gateway;
        destination = destination;
        interface = interface;
      })
      else none

-- what a request for an address asks for
pub record Address : Type 0 where
  pub family : ℕ
  pub prefix_length : ℕ
  pub interface : ℕ
  pub address : List ℕ
  pub local_address : List ℕ

-- `none` unless it is a new permanent secondary address.
unfoldable pub read_address : List ℕ → Option Address
unfolding read_message attr_payload of_le
read_address xs = do
  m ← read_message 8 xs
  address ← attr_payload 1 m.attrs
  local_address ← attr_payload 2 m.attrs
  if m.nlmsg_type == 20 && (byte_at 2 m.body == 0x81 && byte_at 3 m.body == 0)
      then pure (record {
        family = byte_at 0 m.body;
        prefix_length = byte_at 1 m.body;
        interface = of_le (drop 4 m.body);
        address = address;
        local_address = local_address;
      })
      else none
