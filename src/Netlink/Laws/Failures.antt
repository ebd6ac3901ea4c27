-- ===== src/Netlink/Laws/Failures.antt =====
-- src/ext/ext_netlink.c: the setup stops at the first ioctl that fails, and names it.
use dpdk_cr.Common.{
  ◌^◌, lt→ltb, ℕ, ℤ, zero, suc, ◌-◌, ◌+◌, ◌≤◌, ◌<◌, Option, none, some, Table, ◌==◌, ltb, refl, ◌≡◌,
  false, Bool-cases, inl, inr, pos, negsuc, arith,
}
use dpdk_cr.Common.Bytes.{Bytes, get32, get_bytes}
use dpdk_cr.System.{
  Sys, ◌>>=◌, ◌>>◌, pure, invoke, negative, Answer, Call, socket, getpid, bind, sendmsg, close,
  perror,
}
use dpdk_cr.System.Laws.{
  stop_rules, failed, FailStop, pure-FailStop, bind-FailStop, invoke-FailStop, if-FailStop,
}
use dpdk_cr.Netlink.Uapi.{af_netlink, sock_raw, netlink_route}
use dpdk_cr.Netlink.Socket.{bind_socket, prepare_socket, send_to_socket}
use dpdk_cr.Netlink.Addresses.{add_ipv4, add_ipv6}
use dpdk_cr.Netlink.Setup.{
  set_mac, set_mtu, set_mac_mtu, setup_ipv4, add_loopback, add_optional_ipv6, setup_ip,
}
use dpdk_cr.Netlink.Routes.{add_route, setup_routes_loop, setup_routes}

-- A call that is no ioctl, before a run that stops.
after_invoke :
    {B : Type 0} (c : Call) (f : Answer → Sys B)
    → ((a : Answer) → failed c a ≡ false)
    → ((a : Answer) → FailStop (f a))
    → FailStop (invoke c >>= f)
after_invoke c f harmless stops = bind-FailStop (invoke c) f (invoke-FailStop c harmless) stops

bind_socket-FailStop : (fd : ℤ) → FailStop (bind_socket fd)
unfolding bind_socket
bind_socket-FailStop fd =
    after_invoke getpid _ (λ a. refl)
      (λ pid.
        after_invoke (bind fd (record { nl_family = af_netlink; nl_pid = pid.ret })) _ (λ a. refl)
          (λ a. pure-FailStop fd))

prepare_socket-FailStop : FailStop prepare_socket
unfolding prepare_socket
prepare_socket-FailStop =
    after_invoke (socket af_netlink sock_raw netlink_route) _ (λ a. refl)
      (λ fd.
        if-FailStop (negative fd.ret) (invoke (perror "socket failed!\n") >> pure (negsuc 0))
          (bind_socket fd.ret)
          (after_invoke (perror "socket failed!\n") _ (λ a. refl) (λ a. pure-FailStop (negsuc 0)))
          (bind_socket-FailStop fd.ret))

send_to_socket-FailStop : (fd : ℤ) (nh : Bytes) → FailStop (send_to_socket fd nh)
unfolding send_to_socket
send_to_socket-FailStop fd nh =
    after_invoke
      (sendmsg fd (record { nl_family = af_netlink; nl_pid = pos 0 }) (get_bytes nh 0 (get32 nh 0)))
      _ (λ a. refl) (λ a. after_invoke (close fd) _ (λ a'. refl) (λ a'. pure-FailStop tt))

-- a request on a socket of its own
request-FailStop : (nh : Bytes) → FailStop (prepare_socket >>= λ fd. send_to_socket fd nh)
request-FailStop nh =
    bind-FailStop prepare_socket (λ fd. send_to_socket fd nh) prepare_socket-FailStop
      (λ fd. send_to_socket-FailStop fd nh)

set_mac-FailStop : (s : ℤ) (ifr : Bytes) (mac : ℕ) → FailStop (set_mac s ifr mac)
unfolding set_mac
set_mac-FailStop s ifr mac = search stop_rules

set_mtu-FailStop : (s : ℤ) (ifr : Bytes) (mtu : ℕ) → FailStop (set_mtu s ifr mtu)
unfolding set_mtu
set_mtu-FailStop s ifr mtu = search stop_rules

pub set_mac_mtu-FailStop :
    (s : ℤ) (ifr : Bytes) (mac mtu : ℕ) → FailStop (set_mac_mtu s ifr mac mtu)
unfolding set_mac_mtu
set_mac_mtu-FailStop s ifr mac mtu = search (stop_rules, set_mac-FailStop, set_mtu-FailStop)

setup_ipv4-FailStop : (s : ℤ) (ifr : Bytes) (ipv4 : ℕ) → FailStop (setup_ipv4 s ifr ipv4)
unfolding setup_ipv4
setup_ipv4-FailStop s ifr ipv4 = search stop_rules

add_loopback-FailStop : (ifindex loopback : ℕ) → FailStop (add_loopback ifindex loopback)
unfolding add_loopback add_ipv4
add_loopback-FailStop ifindex loopback = search (stop_rules, request-FailStop)

add_optional_ipv6-FailStop :
    (ifindex : ℕ) (ipv6 : Option Bytes) → FailStop (add_optional_ipv6 ifindex ipv6)
unfolding add_optional_ipv6 add_ipv6
add_optional_ipv6-FailStop ifindex none = search stop_rules
add_optional_ipv6-FailStop ifindex (some ipv6) = search request-FailStop

pub setup_ip-FailStop :
    (s : ℤ) (ifr : Bytes) (ipv4 loopback : ℕ) (ipv6 : Option Bytes)
    → FailStop (setup_ip s ifr ipv4 loopback ipv6)
unfolding setup_ip
setup_ip-FailStop s ifr ipv4 loopback ipv6 =
    search (stop_rules, setup_ipv4-FailStop, add_loopback-FailStop, add_optional_ipv6-FailStop)

add_route-FailStop : (ifindex gw dst mask : ℕ) → FailStop (add_route ifindex gw dst mask)
unfolding add_route
add_route-FailStop ifindex gw dst mask = search request-FailStop

-- The loop's fuel is enough once it reaches the end by steps of two.
setup_routes_loop-FailStop :
    (fuel ifindex : ℕ) (routes : Table ℕ) (nb_routes gw i : ℕ)
    → nb_routes < 2 ^ 31
    → nb_routes ≤ i + fuel
    → 0 < fuel
    → FailStop (setup_routes_loop fuel ifindex routes nb_routes gw i)
unfolding setup_routes_loop
setup_routes_loop-FailStop zero ifindex routes nb_routes gw i small enough some_fuel =
    absurd (omega arith)
setup_routes_loop-FailStop (suc fuel) ifindex routes nb_routes gw i small enough some_fuel =
    elim (Bool-cases (ltb i (nb_routes - 1))) [
      | inl more ↦ rw more (
          bind-FailStop _ _ (add_route-FailStop ifindex gw (routes i) (routes (i + 1))) (λ a.
            rw (lt→ltb (i + 2) (2 ^ 31) (ground arith)) (
              setup_routes_loop-FailStop fuel ifindex routes nb_routes gw (i + 2) small
                (omega arith) (ground arith))))
      | inr finished ↦ rw finished (pure-FailStop tt)
    ]

pub setup_routes-FailStop :
    (ifindex : ℕ) (routes : Option (Table ℕ)) (nb_routes gw : ℕ)
    → nb_routes < 2 ^ 31
    → FailStop (setup_routes ifindex routes nb_routes gw)
unfolding setup_routes
setup_routes-FailStop ifindex none nb_routes gw small = pure-FailStop tt
setup_routes-FailStop ifindex (some routes) nb_routes gw small =
    elim (Bool-cases (nb_routes == 0)) [
      | inl nothing ↦ rw nothing (pure-FailStop tt)
      | inr routed ↦ rw routed (
          setup_routes_loop-FailStop nb_routes ifindex routes nb_routes gw 0 small (omega arith)
            (ground arith))
    ]
