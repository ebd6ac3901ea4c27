-- ===== src/Tap.antt =====
-- src/ext/tap.c: TAP devices.
use Prim.Native.String.{String}
use dpdk_cr.Common.{ℕ, ℤ, pos, List, Option, Table, if◌then◌else◌, ◌==◌, bit_or}
use dpdk_cr.Common.Bytes.{Bytes, put16, get32}
use dpdk_cr.System.{
  Sys, ◌>>=◌, ◌>>◌, pure, invoke, negative, perror_exit, ioctl_or_exit, socket, close, ioctl,
  open_file, select_read, read, siogifindex, siocgifflags, siocsifflags, tunsetiff,
}
use dpdk_cr.Netlink.{named_ifreq, set_mac_mtu, setup_ip, setup_routes}
use dpdk_cr.Netlink.Uapi.{
  af_inet, sock_dgram, ifr_ifru, eintr, o_wronly, o_rdwr, o_nonblock, iff_tap, iff_no_pi, iff_up,
  iff_noarp, iff_promisc,
}
mod Laws
mod Reads
mod Tests

-- the read of tap_read, once the descriptor is ready
unfoldable pub read_ready : ℤ → ℕ → Sys (ℤ × Bytes)
read_ready tap_fd buf_size = do
  got ← invoke (read tap_fd buf_size)
  if negative got.ret then perror_exit "tap_read" else pure (got.ret, got.memory)

-- tap_read: the result, and what is in `buf` after it.
unfoldable pub tap_read : ℤ → Bytes → ℕ → Sys (ℤ × Bytes)
unfolding read_ready
tap_read tap_fd buf buf_size = do
  ready ← invoke (select_read tap_fd 10000)
  if negative ready.ret
      then (if ready.errno == eintr then pure (pos 0, buf) else perror_exit "select()")
      else (if ready.is_set then read_ready tap_fd buf_size else pure (pos 0, buf))

-- tap_create from its second socket on: the device is there, with its flags in `ifr`.
unfoldable pub tap_configure : ℤ → Bytes → ℕ → ℕ → ℕ → Sys ℤ
tap_configure fd ifr mac mtu writable = do
  s ← invoke (socket af_inet sock_dgram 0)
  flagged ← ioctl_or_exit s.ret siocgifflags ifr "SIOCGIFFLAGS"
  set ← set_mac_mtu s.ret flagged mac mtu
  found ← ioctl_or_exit s.ret siogifindex set "SIOGIFINDEX"
  let flags = if writable == 0 then bit_or (bit_or iff_up iff_noarp) iff_promisc else iff_up
  ioctl_or_exit s.ret siocsifflags (put16 found ifr_ifru flags) "SIOCSIFFLAGS"
  invoke (close s.ret)
  pure fd

abbrev pub tun_device : String
tun_device = "/dev/net/tun"

-- the flags of open, and the memory of the request that makes the device
abbrev pub open_flags : ℕ → ℕ
open_flags writable = bit_or (if writable == 0 then o_wronly else o_rdwr) o_nonblock

unfoldable pub tap_ifreq : List ℕ → Bytes
unfolding named_ifreq
tap_ifreq name = put16 (named_ifreq name) ifr_ifru (bit_or iff_tap iff_no_pi)

-- tap_create, with an open device
unfoldable pub tap_attach : ℤ → List ℕ → ℕ → ℕ → ℕ → Sys ℤ
unfolding tap_ifreq tap_configure
tap_attach fd name mac mtu writable = do
  made ← invoke (ioctl fd tunsetiff (tap_ifreq name))
  if negative made.ret
      then invoke (close fd) >> perror_exit "TUNSETIFF"
      else tap_configure fd made.memory mac mtu writable

-- tap_create
unfoldable pub tap_create : List ℕ → ℕ → ℕ → ℕ → Sys ℤ
unfolding tap_attach
tap_create name mac mtu writable = do
  opened ← invoke (open_file tun_device (open_flags writable))
  if negative opened.ret
      then perror_exit tun_device
      else tap_attach opened.ret name mac mtu writable

-- tap_setup_ip
unfoldable pub tap_setup_ip :
    List ℕ → ℕ → ℕ → Option Bytes → Option (Table ℕ) → ℕ → ℕ → Sys (Unit {0})
unfolding named_ifreq
tap_setup_ip name ipv4 loopback ipv6 routes nb_routes gw = do
  s ← invoke (socket af_inet sock_dgram 0)
  configured ← setup_ip s.ret (named_ifreq name) ipv4 loopback ipv6
  found ← ioctl_or_exit s.ret siogifindex configured "SIOGIFINDEX"
  setup_routes (get32 found ifr_ifru) routes nb_routes gw
  invoke (close s.ret)
  pure tt
