-- ===== src/Netlink/Routes.antt =====
-- src/ext/ext_netlink.c: requests for routes.
use dpdk_cr.Common.{
  ◌^◌, ℕ, zero, suc, ◌+◌, ◌-◌, Option, none, some, Table, bit_or, if◌then◌else◌, ◌==◌, ltb,
}
use dpdk_cr.Common.Bytes.{Bytes, put8, put16, put32, le_bytes}
use dpdk_cr.System.{Sys, ◌>>=◌, ◌>>◌, pure, spin}
use dpdk_cr.Netlink.Uapi.{
  nlmsg_length, rtmsg_size, rtm_newroute, nlm_f_request, nlm_f_create, rta_dst, rta_oif,
  rta_gateway, rt_table_main, rtprot_boot, rt_scope_universe, rtn_unicast, af_inet,
}
use dpdk_cr.Netlink.Attributes.{nlattr_add, nlattr_add32}
use dpdk_cr.Netlink.Socket.{prepare_socket, send_to_socket}

-- The request of add_route before its attributes.
unfoldable pub route_header : ℕ → ℕ → Bytes
route_header scope mask =
    let with_len = put32 (λ _. 0) 0 (nlmsg_length rtmsg_size) in
    let with_flags = put16 with_len 6 (bit_or nlm_f_request nlm_f_create) in
    let with_type = put16 with_flags 4 rtm_newroute in
    let with_family = put8 with_type 16 af_inet in
    let with_dst_len = put8 with_family 17 mask in
    let with_table = put8 with_dst_len 20 rt_table_main in
    let with_protocol = put8 with_table 21 rtprot_boot in
    let with_scope = put8 with_protocol 22 scope in put8 with_scope 23 rtn_unicast

unfoldable pub route_request : ℕ → ℕ → ℕ → ℕ → Bytes
unfolding route_header
route_request ifc_idx gw dst mask =
    let with_gateway =
      nlattr_add (route_header rt_scope_universe mask) rta_gateway (le_bytes 4 gw) in
    let with_dst = nlattr_add with_gateway rta_dst (le_bytes 4 dst) in
    nlattr_add32 with_dst rta_oif ifc_idx

-- add_route
unfoldable pub add_route : ℕ → ℕ → ℕ → ℕ → Sys (Unit {0})
add_route ifc_idx gw dst mask = do
  fd ← prepare_socket
  send_to_socket fd (route_request ifc_idx gw dst mask)

-- The loop of setup_routes from `i` on, where `nb_routes` is not zero. C leaves open what an overflow of
-- the `int` index does; it is put down as a loop that does not end.
unfoldable pub setup_routes_loop : ℕ → ℕ → Table ℕ → ℕ → ℕ → ℕ → Sys (Unit {0})
setup_routes_loop zero ifindex routes nb_routes gw i = spin
setup_routes_loop (suc fuel) ifindex routes nb_routes gw i =
    let rest = setup_routes_loop fuel ifindex routes nb_routes gw (i + 2) in
    let next = if ltb (i + 2) (2 ^ 31) then rest else spin in
    if ltb i (nb_routes - 1)
    then (add_route ifindex gw (routes i) (routes (i + 1)) >> next)
    else pure tt

-- setup_routes: `none` is a null `routes`.
unfoldable pub setup_routes : ℕ → Option (Table ℕ) → ℕ → ℕ → Sys (Unit {0})
unfolding setup_routes_loop
setup_routes ifindex none nb_routes gw = pure tt
setup_routes ifindex (some routes) nb_routes gw =
    if nb_routes == 0 then pure tt else setup_routes_loop nb_routes ifindex routes nb_routes gw 0
