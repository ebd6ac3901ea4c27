-- ===== src/Netlink/Tests.antt =====
-- src/ext/ext_netlink.c: requests at concrete values, and the theorems applied to them.
use dpdk_cr.Common.{ℕ, List, [], ◌∷◌, ◌≡◌, refl, inl, arith, some, store, tabulate}
use dpdk_cr.Common.Bytes.{Bytes, put8, put16, put32, put_bytes, get32, get_bytes, le_bytes, of_le}
use dpdk_cr.Netlink.Attributes.{nlattr_add}
use dpdk_cr.Netlink.Addresses.{address_request}
use dpdk_cr.Netlink.Routes.{route_header, route_request}
use dpdk_cr.Netlink.Link.{link_route_request}
use dpdk_cr.Netlink.Reader.{read_route, read_address}
use dpdk_cr.Netlink.Laws.Attributes.{nlattr_add_bounds}
use dpdk_cr.Netlink.Laws.Invariant.{Holds}
use dpdk_cr.Netlink.Laws.Reading.{read_all, read-nlattr_add}
use dpdk_cr.Netlink.Laws.Messages.{message_of, route_of, address_of, read-requests}

-- a request for a route to 10.1.0.0/16, before its attributes
abbrev header : Bytes
header = route_header 0 16

header-Holds : Holds 28 header []
unfolding route_header put8 put16 put32 put_bytes get32 of_le get_bytes le_bytes store tabulate
header-Holds = record { counted = refl; spelled = refl; clean = λ j h. ground arith }

-- the bytes of the destination
abbrev destination : List ℕ
destination = 10 ∷ 1 ∷ 0 ∷ 0 ∷ []

read-nlattr_add_example :
    read_all 2 28 (nlattr_add header 1 destination)
    ≡ some ((record { rta_type = 1; payload = destination }) ∷ [])
read-nlattr_add_example =
    read-nlattr_add 28 header [] 1 destination (omega arith) refl (omega arith) (omega arith)
      (omega arith) tt header-Holds

nlattr_add_bounds_example :
    (get32 (nlattr_add header 1 destination) 0 ≡ 36)
    × (nlattr_add header 1 destination 17 ≡ header 17)
nlattr_add_bounds_example =
    nlattr_add_bounds header 1 destination {end = 28} header-Holds.counted refl (omega arith)
      (omega arith) (omega arith) 17 (omega arith) (inl (omega arith))

read-requests_example :
    (read_route (message_of (route_request 7 0xfe00000a 0x10a 16))
      ≡ some (route_of 0 7 0xfe00000a 0x10a 16))
    × (read_route (message_of (link_route_request 7 0xfe00000a 0x10a 16))
        ≡ some (route_of 253 7 0xfe00000a 0x10a 16))
    × (read_address (message_of (address_request 2 7 (10 ∷ 0 ∷ 0 ∷ 1 ∷ []) 16))
        ≡ some (address_of 2 7 (10 ∷ 0 ∷ 0 ∷ 1 ∷ []) 16))
    × (read_address (message_of (address_request 10 7 (get_bytes (λ k. k) 0 16) 16))
        ≡ some (address_of 10 7 (get_bytes (λ k. k) 0 16) 16))
unfolding le_bytes
read-requests_example =
    read-requests 7 0xfe00000a 0x10a 16 0x100000a (λ k. k) (omega arith) (omega arith) (omega arith)
      (omega arith)
