-- ===== src/Netlink/Laws/Sends.antt =====
-- src/ext/ext_netlink.c: the messages that a run hands to the kernel.
use dpdk_cr.Common.{
  ◌^◌, ltb, ℕ, ℤ, zero, suc, pos, negsuc, ◌+◌, ◌-◌, ◌≤◌, ◌<◌, List, [], ◌∷◌, map, ◌≡◌, subst, ap,
  ap₂, fun_ext, arith, some, false, Table, tabulate, tabulate-ext, lt→ltb, le→ltb, ◌==◌,
  if◌then◌else◌,
}
use dpdk_cr.Common.Bytes.{Bytes}
use dpdk_cr.System.{
  socket, getpid, bind, sendmsg, close, perror, pure, spin, invoke, ◌>>=◌, ◌>>◌, negative,
}
use dpdk_cr.Netlink.Uapi.{af_netlink, sock_raw, netlink_route}
use dpdk_cr.Netlink.Socket.{prepare_socket, send_to_socket, bind_socket}
use dpdk_cr.Netlink.Routes.{route_request, add_route, setup_routes_loop, setup_routes}
use dpdk_cr.Netlink.Laws.Messages.{message_of}
use dpdk_cr.Netlink.Laws.Effects.{
  Effect, message, Performs, pure-Performs, invoke-Performs, bind-Performs,
}

bind_socket-Performs : (fd : ℤ) → Performs (bind_socket fd) []
unfolding bind_socket
bind_socket-Performs fd = bind-Performs (invoke getpid) _ [] [] (invoke-Performs getpid) (λ pid.
    bind-Performs (invoke (bind fd (record { nl_family = af_netlink; nl_pid = pid.ret }))) _ [] []
      (invoke-Performs _) (λ a. pure-Performs fd))

socket_or_error-Performs :
    (fd : ℤ)
    → Performs
        (if negative fd
          then invoke (perror "socket failed!\n") >> pure (negsuc 0)
          else bind_socket fd)
        []
socket_or_error-Performs (pos n) = bind_socket-Performs (pos n)
socket_or_error-Performs (negsuc n) =
    bind-Performs (invoke (perror "socket failed!\n")) _ [] [] (invoke-Performs _)
      (λ a. pure-Performs (negsuc 0))

prepare_socket-Performs : Performs prepare_socket []
unfolding prepare_socket
prepare_socket-Performs =
    bind-Performs (invoke (socket af_netlink sock_raw netlink_route)) _ [] [] (invoke-Performs _)
      (λ fd. socket_or_error-Performs fd.ret)

send_to_socket-Performs :
    (fd : ℤ) (nh : Bytes) → Performs (send_to_socket fd nh) (message (message_of nh) ∷ [])
unfolding send_to_socket
send_to_socket-Performs fd nh =
    bind-Performs (invoke (sendmsg fd _ (message_of nh))) _ (message (message_of nh) ∷ []) []
      (invoke-Performs _)
      (λ a. bind-Performs (invoke (close fd)) _ [] [] (invoke-Performs _) (λ a'. pure-Performs tt))

-- One request on a socket of its own: it is sent whether or not there is a socket.
pub request-Performs :
    (nh : Bytes)
    → Performs (prepare_socket >>= λ fd. send_to_socket fd nh) (message (message_of nh) ∷ [])
request-Performs nh =
    bind-Performs prepare_socket _ [] (message (message_of nh) ∷ []) prepare_socket-Performs
      (λ fd. send_to_socket-Performs fd nh)

-- the pairs of a list, without an odd last element
abbrev pub pairs : List ℕ → List (ℕ × ℕ)
pairs [] = []
pairs (x ∷ []) = []
pairs (x ∷ y ∷ rest) = (x, y) ∷ pairs rest

module _ (ifindex gw : ℕ) where
  -- the message of the route to a destination with its prefix
  abbrev pub route_effect : ℕ × ℕ → Effect
  route_effect p = message (message_of (route_request ifindex gw p.0 p.1))

  add_route-Performs :
      (dst mask : ℕ) → Performs (add_route ifindex gw dst mask) (route_effect (dst, mask) ∷ [])
  unfolding add_route
  add_route-Performs dst mask = request-Performs (route_request ifindex gw dst mask)

  -- `n` entries are left from `i` on.
  setup_routes_loop-Performs :
      (fuel : ℕ) (routes : Table ℕ) (nb_routes i n : ℕ)
      → nb_routes ≡ i + n
      → nb_routes < 2 ^ 31
      → n ≤ fuel
      → 0 < fuel
      → Performs
          (setup_routes_loop fuel ifindex routes nb_routes gw i)
          (map route_effect (pairs (tabulate n (λ k. routes (i + k)))))
  unfolding setup_routes_loop tabulate
  setup_routes_loop-Performs zero routes nb_routes i n size small enough fueled =
      absurd (omega arith)
  setup_routes_loop-Performs (suc fuel) routes nb_routes i zero size small enough fueled =
      rw (le→ltb i (nb_routes - 1) (omega arith)) (pure-Performs tt)
  setup_routes_loop-Performs (suc fuel) routes nb_routes i (suc zero) size small enough fueled =
      rw (le→ltb i (nb_routes - 1) (omega arith)) (pure-Performs tt)
  setup_routes_loop-Performs (suc fuel) routes nb_routes i (suc (suc n)) size small enough fueled =
      rw (lt→ltb i (nb_routes - 1) (omega arith)) (
        subst
          (λ ms.
            Performs
              (add_route ifindex gw (routes i) (routes (i + 1))
                >> (if ltb (i + 2) (2 ^ 31)
                    then setup_routes_loop fuel ifindex routes nb_routes gw (i + 2)
                    else spin))
              ms)
          (ap₂
            (λ (a : ℕ) (ps : List (ℕ × ℕ)).
              route_effect (routes a, routes (i + 1)) ∷ map route_effect ps)
            {x = i} (omega arith)
            (ap pairs (
              tabulate-ext n (λ k. routes (i + 2 + k)) (λ k. routes (i + suc (suc k)))
                (λ k h. ap routes (omega arith)))))
          (bind-Performs (add_route ifindex gw (routes i) (routes (i + 1))) _
            (route_effect (routes i, routes (i + 1)) ∷ []) _
            (add_route-Performs (routes i) (routes (i + 1)))
            (λ a. rw (lt→ltb (i + 2) (2 ^ 31) (omega arith)) (
              setup_routes_loop-Performs fuel routes nb_routes (i + 2) n (omega arith) small
                (omega arith) (omega arith)))))

  -- One message for each pair of a destination and a prefix, in the order of the array.
  pub setup_routes-Performs :
      (routes : Table ℕ) (nb_routes : ℕ)
      → nb_routes < 2 ^ 31
      → Performs
          (setup_routes ifindex (some routes) nb_routes gw)
          (map route_effect (pairs (tabulate nb_routes routes)))
  unfolding setup_routes tabulate
  setup_routes-Performs routes zero small = pure-Performs tt
  setup_routes-Performs routes (suc n) small =
      let routed : suc n == 0 ≡ false = ground arith in
      rw routed (
        subst
          (λ (t : Table ℕ).
            Performs (setup_routes_loop (suc n) ifindex routes (suc n) gw 0)
              (map route_effect (pairs (tabulate (suc n) t))))
          (fun_ext (λ k. ap routes {x = 0 + k} {y = k} (omega arith)))
          (setup_routes_loop-Performs (suc n) routes (suc n) 0 (suc n) (omega arith) small
            (omega arith) (omega arith)))
