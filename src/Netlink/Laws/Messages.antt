-- ===== src/Netlink/Laws/Messages.antt =====
-- src/ext/ext_netlink.c and src/ext/netlink.c: what a receiver reads in each request.
use native.Mathlib.Nat.{mod-eq_of_lt}
use dpdk_cr.Common.{ℕ, ◌%◌, ◌/◌, ◌<◌, List, [], ◌∷◌, ◌≡◌, refl, some, ap, ◌∙◌, u32, store}
use dpdk_cr.Common.Bytes.{
  Bytes, le_bytes, of_le, of_le-le_bytes, get_bytes, get32, put32, put16, put8, put_bytes, get16,
}
use dpdk_cr.Netlink.Attributes.{nlattr_add, nlattr_add32}
use dpdk_cr.Netlink.Reader.{Route, Address, read_route, read_address}
use dpdk_cr.Netlink.Addresses.{address_request}
use dpdk_cr.Netlink.Routes.{route_request}
use dpdk_cr.Netlink.Link.{link_route_request}

-- the bytes that send_to_socket hands to sendmsg
abbrev pub message_of : Bytes → List ℕ
message_of b = get_bytes b 0 (get32 b 0)

abbrev pub route_of : ℕ → ℕ → ℕ → ℕ → ℕ → Route
route_of scope ifc_idx gw dst mask = record {
  prefix_length = mask;
  scope = scope;
  gateway = gw;
  destination = dst;
  interface = ifc_idx;
}

abbrev pub address_of : ℕ → ℕ → List ℕ → ℕ → Address
address_of family ifc_idx address mask = record {
  family = family;
  prefix_length = mask;
  interface = ifc_idx;
  address = address;
  local_address = address;
}

-- The fields before the range of the numbers is known.
route_fields :
    (ifc_idx gw dst mask : ℕ)
    → read_route (message_of (route_request ifc_idx gw dst mask))
      ≡ some (
          route_of 0
            (of_le (le_bytes 4 ifc_idx))
            (of_le (le_bytes 4 gw))
            (of_le (le_bytes 4 dst))
            (mask % 256))
unfolding route_request read_route nlattr_add nlattr_add32 put32 put16 put8 put_bytes get_bytes
    get32 get16 of_le le_bytes store
route_fields ifc_idx gw dst mask = refl

link_route_fields :
    (ifc_idx src dst mask : ℕ)
    → read_route (message_of (link_route_request ifc_idx src dst mask))
      ≡ some (
          route_of 253
            (of_le (le_bytes 4 ifc_idx))
            (of_le (le_bytes 4 src))
            (of_le (le_bytes 4 dst))
            (mask % 256))
unfolding link_route_request read_route nlattr_add nlattr_add32 put32 put16 put8 put_bytes get_bytes
    get32 get16 of_le le_bytes store
link_route_fields ifc_idx src dst mask = refl

address4_fields :
    (family ifc_idx a b c d mask : ℕ)
    → read_address (message_of (address_request family ifc_idx (a ∷ b ∷ c ∷ d ∷ []) mask))
      ≡ some
          (address_of (family % 256) (of_le (le_bytes 4 ifc_idx)) (a ∷ b ∷ c ∷ d ∷ []) (mask % 256))
unfolding address_request read_address put32 put16 put8 put_bytes get_bytes get32 get16 of_le
    le_bytes store
address4_fields family ifc_idx a b c d mask = refl

address6_fields :
    (ifc_idx : ℕ) (ipv6 : Bytes) (mask : ℕ)
    → read_address (message_of (address_request 10 ifc_idx (get_bytes ipv6 0 16) mask))
      ≡ some (address_of 10 (of_le (le_bytes 4 ifc_idx)) (get_bytes ipv6 0 16) (mask % 256))
unfolding address_request read_address put32 put16 put8 put_bytes get_bytes get32 get16 of_le
    le_bytes store
address6_fields ifc_idx ipv6 mask = refl

-- The three numbers of a route and its prefix, in range.
route_of_range :
    (scope ifc_idx gw dst mask : ℕ)
    → ifc_idx < u32
    → gw < u32
    → dst < u32
    → mask < 256
    → route_of scope
        (of_le (le_bytes 4 ifc_idx))
        (of_le (le_bytes 4 gw))
        (of_le (le_bytes 4 dst))
        (mask % 256)
      ≡ route_of scope ifc_idx gw dst mask
route_of_range scope ifc_idx gw dst mask hi hg hd hm =
    rw
      (
        of_le-le_bytes 4 ifc_idx hi,
        of_le-le_bytes 4 gw hg,
        of_le-le_bytes 4 dst hd,
        mod-eq_of_lt hm,
      )
      refl

-- From numbers of 32 bits and a prefix of 8 bits, a receiver reads in the four messages the
-- interface, gateway, destination, address and prefix that they were made from. The routes of
-- src/ext/ext_netlink.c have the scope of the universe, those of src/ext/netlink.c that of the link.
pub read-requests :
    (ifc_idx gw dst mask ipv4 : ℕ) (ipv6 : Bytes)
    → ifc_idx < u32
    → gw < u32
    → dst < u32
    → mask < 256
    → (read_route (message_of (route_request ifc_idx gw dst mask))
        ≡ some (route_of 0 ifc_idx gw dst mask))
      × (read_route (message_of (link_route_request ifc_idx gw dst mask))
          ≡ some (route_of 253 ifc_idx gw dst mask))
      × (read_address (message_of (address_request 2 ifc_idx (le_bytes 4 ipv4) mask))
          ≡ some (address_of 2 ifc_idx (le_bytes 4 ipv4) mask))
      × (read_address (message_of (address_request 10 ifc_idx (get_bytes ipv6 0 16) mask))
          ≡ some (address_of 10 ifc_idx (get_bytes ipv6 0 16) mask))
unfolding le_bytes
read-requests ifc_idx gw dst mask ipv4 ipv6 hi hg hd hm = (
  route_fields ifc_idx gw dst mask ∙ ap some (route_of_range 0 ifc_idx gw dst mask hi hg hd hm),
  link_route_fields ifc_idx gw dst mask
      ∙ ap some (route_of_range 253 ifc_idx gw dst mask hi hg hd hm),
  address4_fields 2 ifc_idx (ipv4 % 256) (ipv4 / 256 % 256) (ipv4 / 256 / 256 % 256)
        (ipv4 / 256 / 256 / 256 % 256) mask
      ∙ ap some (in_range 2 (le_bytes 4 ipv4)),
  address6_fields ifc_idx ipv6 mask ∙ ap some (in_range 10 (get_bytes ipv6 0 16)),
)
  where
    in_range :
        (family : ℕ) (content : List ℕ)
        → address_of family (of_le (le_bytes 4 ifc_idx)) content (mask % 256)
          ≡ address_of family ifc_idx content mask
    in_range family content = rw (of_le-le_bytes 4 ifc_idx hi, mod-eq_of_lt hm) refl
