-- ===== src/Netlink/Addresses.antt =====
-- src/ext/ext_netlink.c: requests that give an interface an address.
use dpdk_cr.Common.{ℕ, ◌+◌, List, length, bit_or}
use dpdk_cr.Common.Bytes.{Bytes, put_bytes, put8, put16, put32, get16, get_bytes, le_bytes}
use dpdk_cr.System.{Sys, ◌>>=◌}
use dpdk_cr.Netlink.Uapi.{
  nlmsg_length, ifaddrmsg_size, ifaddr_start, rtm_newaddr, nlm_f_request, nlm_f_create,
  nlm_f_append, ifa_address, ifa_local, ifa_f_permanent, ifa_f_secondary, af_inet, af_inet6,
}
use dpdk_cr.Netlink.Socket.{prepare_socket, send_to_socket}

-- An attribute that is written by hand: its type, its length, its content.
unfoldable pub put_rta : Bytes → ℕ → ℕ → List ℕ → Bytes
put_rta b rta type content =
    let with_type = put16 b (rta + 2) type in
    let with_len = put16 with_type rta (4 + length content) in put_bytes with_len (rta + 4) content

-- The request of add_ipv4 and add_ipv6 after its bzero. `ifal` counts the body and what the
-- attributes say of their lengths; the second attribute follows the first by that length.
unfoldable pub address_request : ℕ → ℕ → List ℕ → ℕ → Bytes
unfolding put_rta
address_request family ifc_idx address mask =
    let first = put_rta (λ _. 0) ifaddr_start ifa_address address in
    let next = ifaddr_start + get16 first ifaddr_start in
    let second = put_rta first next ifa_local address in
    let ifal = ifaddrmsg_size + get16 second ifaddr_start + get16 second next in
    let with_len = put32 second 0 (nlmsg_length ifal) in
    let with_flags = put16 with_len 6 (bit_or (bit_or nlm_f_request nlm_f_create) nlm_f_append) in
    let with_type = put16 with_flags 4 rtm_newaddr in
    let with_family = put8 with_type 16 family in
    let with_prefix = put8 with_family 17 mask in
    let with_ifa_flags = put8 with_prefix 18 (bit_or ifa_f_permanent ifa_f_secondary) in
    let with_index = put32 with_ifa_flags 20 ifc_idx in put8 with_index 19 0

-- add_ipv4
unfoldable pub add_ipv4 : ℕ → ℕ → ℕ → Sys (Unit {0})
add_ipv4 ifc_idx ipv4 mask = do
  fd ← prepare_socket
  send_to_socket fd (address_request af_inet ifc_idx (le_bytes 4 ipv4) mask)

-- add_ipv6: `ipv6` is the memory of the `struct in6_addr`.
unfoldable pub add_ipv6 : ℕ → Bytes → ℕ → Sys (Unit {0})
add_ipv6 ifc_idx ipv6 mask = do
  fd ← prepare_socket
  send_to_socket fd (address_request af_inet6 ifc_idx (get_bytes ipv6 0 16) mask)
