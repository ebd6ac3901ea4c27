-- ===== src/Netlink/Link.antt =====
-- src/ext/netlink.c: its own requests, with routes of link scope.
use dpdk_cr.Common.{ℕ}
use dpdk_cr.Common.Bytes.{Bytes, le_bytes}
use dpdk_cr.System.{Sys, ◌>>=◌}
use dpdk_cr.Netlink.Uapi.{rta_dst, rta_oif, rta_gateway, rt_scope_link, af_inet}
use dpdk_cr.Netlink.Attributes.{nlattr_add, nlattr_add32}
use dpdk_cr.Netlink.Socket.{prepare_socket, send_to_socket}
use dpdk_cr.Netlink.Addresses.{address_request}
use dpdk_cr.Netlink.Routes.{route_header}

-- add_ip
unfoldable pub add_ip : ℕ → ℕ → ℕ → Sys (Unit {0})
add_ip ifc_idx ip_address mask = do
  fd ← prepare_socket
  send_to_socket fd (address_request af_inet ifc_idx (le_bytes 4 ip_address) mask)

unfoldable pub link_route_request : ℕ → ℕ → ℕ → ℕ → Bytes
unfolding route_header
link_route_request ifc_idx src dst mask =
    let with_gateway = nlattr_add (route_header rt_scope_link mask) rta_gateway (le_bytes 4 src) in
    let with_dst = nlattr_add with_gateway rta_dst (le_bytes 4 dst) in
    nlattr_add32 with_dst rta_oif ifc_idx

-- add_route of this file
unfoldable pub add_link_route : ℕ → ℕ → ℕ → ℕ → Sys (Unit {0})
add_link_route ifc_idx src dst mask = do
  fd ← prepare_socket
  send_to_socket fd (link_route_request ifc_idx src dst mask)
