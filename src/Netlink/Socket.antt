-- ===== src/Netlink/Socket.antt =====
-- src/ext/ext_netlink.c: the socket of one request. src/ext/tap.c and src/ext/kni.c: the memory of a
-- `struct ifreq` for an interface.
use dpdk_cr.Common.{ℕ, List, [], ◌∷◌, ◌++◌, ℤ, pos, negsuc, if◌then◌else◌}
use dpdk_cr.Common.Bytes.{Bytes, get_bytes, put_bytes, get32}
use dpdk_cr.System.{
  Sys, ◌>>=◌, ◌>>◌, pure, invoke, negative, socket, getpid, bind, sendmsg, close, perror,
}
use dpdk_cr.Netlink.Uapi.{af_netlink, sock_raw, netlink_route}

unfoldable pub bind_socket : ℤ → Sys ℤ
bind_socket fd = do
  pid ← invoke getpid
  invoke (bind fd (record { nl_family = af_netlink; nl_pid = pid.ret }))
  pure fd

-- prepare_socket: a failure of socket() is reported and returned, that of bind() is not looked at.
unfoldable pub prepare_socket : Sys ℤ
unfolding bind_socket
prepare_socket = do
  fd ← invoke (socket af_netlink sock_raw netlink_route)
  if negative fd.ret
      then invoke (perror "socket failed!\n") >> pure (negsuc 0)
      else bind_socket fd.ret

-- send_to_socket: one message of `nlmsg_len` bytes, whatever the descriptor is; then the close.
unfoldable pub send_to_socket : ℤ → Bytes → Sys (Unit {0})
send_to_socket fd reqn = do
  invoke (
      sendmsg fd (record { nl_family = af_netlink; nl_pid = pos 0 })
        (get_bytes reqn 0 (get32 reqn 0)))
  invoke (close fd)
  pure tt

-- A cleared `struct ifreq` after `strcpy(ifr.ifr_name, name)`.
unfoldable pub named_ifreq : List ℕ → Bytes
named_ifreq name = put_bytes (λ _. 0) 0 (name ++ 0 ∷ [])
