-- ===== src/Netlink/Setup.antt =====
-- src/ext/ext_netlink.c: an interface's hardware address, MTU and network addresses. A
-- `struct ifreq` is memory: its union holds the index, the MTU and the addresses at one place.
use dpdk_cr.Common.{ℕ, ℤ, ◌-◌, Option, none, some, if◌then◌else◌, ◌==◌, u32, bit_or, bit_xor}
use dpdk_cr.Common.Bytes.{Bytes, put16, put32, put64, get32}
use dpdk_cr.System.{
  Sys, ◌>>=◌, ◌>>◌, pure, ioctl_or_exit, siogifindex, siocsifhwaddr, siocsifmtu, siocsifaddr,
  siocsifdstaddr, siocsifbrdaddr, siocsifnetmask,
}
use dpdk_cr.Netlink.Uapi.{af_inet, arphrd_ether, ifr_ifru, sa_data, sin_addr}
use dpdk_cr.Netlink.Addresses.{add_ipv4, add_ipv6}

-- MASK, 255.255.255.252 in network order, and ~MASK
abbrev pub net_mask : ℕ
net_mask = 0xfcffffff

abbrev pub host_mask : ℕ
host_mask = u32 - 1 - net_mask

-- the first and the second half of set_mac_mtu
unfoldable pub set_mac : ℤ → Bytes → ℕ → Sys Bytes
set_mac s ifr mac =
    if mac == 0
    then pure ifr
    else ioctl_or_exit s siocsifhwaddr (put16 (put64 ifr sa_data mac) ifr_ifru arphrd_ether)
        "SIOCSIFHWADDR"

unfoldable pub set_mtu : ℤ → Bytes → ℕ → Sys Bytes
set_mtu s ifr mtu =
    if mtu == 0 then pure ifr else ioctl_or_exit s siocsifmtu (put32 ifr ifr_ifru mtu) "SIOCSIFMTU"

-- set_mac_mtu
unfoldable pub set_mac_mtu : ℤ → Bytes → ℕ → ℕ → Sys Bytes
unfolding set_mac set_mtu
set_mac_mtu s ifr mac mtu = do
  found ← ioctl_or_exit s siogifindex ifr "SIOGIFINDEX"
  addressed ← set_mac s found mac
  set_mtu s addressed mtu

-- setup_ip with an IPv4 address: the address, its peer, its broadcast address, its network mask
unfoldable pub setup_ipv4 : ℤ → Bytes → ℕ → Sys Bytes
setup_ipv4 s ifr ipv4 = do
  found ← ioctl_or_exit s siogifindex ifr "SIOGIFINDEX"
  let own = put32 (put16 found ifr_ifru af_inet) sin_addr ipv4
  with_addr ← ioctl_or_exit s siocsifaddr own "SIOCSIFADDR"
  let peer = put32 with_addr sin_addr (bit_xor ipv4 host_mask)
  with_peer ← ioctl_or_exit s siocsifdstaddr peer "SIOCSIFDSTADDR"
  let broadcast = put32 with_peer sin_addr (bit_or ipv4 host_mask)
  with_broadcast ← ioctl_or_exit s siocsifbrdaddr broadcast "SIOCSIFBRDADDR"
  ioctl_or_exit s siocsifnetmask (put32 with_broadcast sin_addr net_mask) "SIOCSIFNETMASK"

-- what setup_ip adds by netlink: `none` is a null `ipv6`
unfoldable pub add_loopback : ℕ → ℕ → Sys (Unit {0})
add_loopback ifindex loopback = if loopback == 0 then pure tt else add_ipv4 ifindex loopback 32

unfoldable pub add_optional_ipv6 : ℕ → Option Bytes → Sys (Unit {0})
add_optional_ipv6 ifindex none = pure tt
add_optional_ipv6 ifindex (some ipv6) = add_ipv6 ifindex ipv6 64

-- setup_ip
unfoldable pub setup_ip : ℤ → Bytes → ℕ → ℕ → Option Bytes → Sys Bytes
unfolding setup_ipv4 add_loopback add_optional_ipv6
setup_ip s ifr ipv4 loopback ipv6 = do
  configured ← if ipv4 == 0 then pure ifr else setup_ipv4 s ifr ipv4
  found ← ioctl_or_exit s siogifindex configured "SIOGIFINDEX"
  add_loopback (get32 found ifr_ifru) loopback
  add_optional_ipv6 (get32 found ifr_ifru) ipv6
  pure found
