-- ===== src/Kni.antt =====
-- src/ext/kni.c: interfaces of the kernel's network stack on DPDK ports.
use dpdk_cr.Common.{
  minus_einval, Bool, not, [], ◌∷◌, ℕ, zero, suc, ℤ, pos, negsuc, List, Option, none, some, Table,
  if◌then◌else◌, ◌==◌, leb, ◌||◌, bit_or, bit_and,
}
use dpdk_cr.Common.Bytes.{Bytes, put16, get16, get32}
use dpdk_cr.System.{
  KniConf, Sys, ◌>>=◌, ◌>>◌, pure, spin, exit, invoke, nonzero, ioctl_or_exit, socket, close, ioctl,
  siogifindex, siocgifflags, siocsifflags, rte_eth_dev_count, rte_eth_dev_stop, rte_eth_dev_start,
  rte_kni_alloc, rte_kni_handle_request,
}
use dpdk_cr.Netlink.{named_ifreq, setup_ip, setup_routes}
use dpdk_cr.Netlink.Uapi.{af_inet, sock_dgram, ifr_ifru, iff_up, iff_noarp, iff_promisc}
mod Laws
mod Tests

abbrev pub max_packet_sz : ℕ
max_packet_sz = 1600

abbrev pub count_of : ℤ → ℕ
count_of (pos n) = n
count_of (negsuc n) = 0

-- What DPDK says of its ports: RTE_MAX_ETHPORTS of its build, the address and id of a port's PCI
-- device if it has one, its hardware address, its MTU.
pub record Ports : Type 0 where
  pub rte_max_ethports : ℕ
  pub pci_dev : ℕ → Option (ℕ × ℕ)
  pub macaddr : ℕ → List ℕ
  pub dev_mtu : ℕ → ℕ

unfoldable pub restart : ℕ → Sys ℤ
restart port_id = do
  invoke (rte_eth_dev_stop port_id)
  started ← invoke (rte_eth_dev_start port_id)
  pure started.ret

-- kni_config_network_interface without its log lines
unfoldable pub kni_config_network_interface : Ports → ℕ → ℕ → Sys ℤ
unfolding restart
kni_config_network_interface ports port_id if_up = do
  count ← invoke rte_eth_dev_count
  if leb (count_of count.ret) port_id || leb ports.rte_max_ethports port_id
      then pure minus_einval
      else (if if_up == 0
          then invoke (rte_eth_dev_stop port_id) >> pure (pos 0)
          else restart port_id)

-- `conf` of kni_create
unfoldable pub kni_conf : Ports → List ℕ → ℕ → ℕ → ℕ → KniConf
kni_conf ports name port_id lcore_id writable = record {
  name = name;
  core_id = lcore_id;
  force_bind = 1;
  group_id = port_id;
  mbuf_size = max_packet_sz;
  pci = ports.pci_dev port_id;
  mac_addr = if writable == 0 then 0 ∷ 0 ∷ 0 ∷ 0 ∷ 0 ∷ 0 ∷ [] else ports.macaddr port_id;
  mtu = ports.dev_mtu port_id;
}

abbrev pub is_up : Bytes → Bool
is_up ifr = not (bit_and (get16 ifr ifr_ifru) iff_up == 0)

abbrev pub up_flags : ℕ → ℕ
up_flags writable = if writable == 0 then bit_or (bit_or iff_up iff_noarp) iff_promisc else iff_up

-- The endless loop of kni_create: neither ioctl's result is looked at.
unfoldable pub kni_up_loop : ℕ → ℤ → ℤ → Bytes → ℕ → Sys (Unit {0})
kni_up_loop zero kni s ifr writable = spin
kni_up_loop (suc fuel) kni s ifr writable = do
  invoke (rte_kni_handle_request kni)
  got ← invoke (ioctl s siocgifflags ifr)
  let ask = put16 got.memory ifr_ifru (up_flags writable)
  let again =
      invoke (ioctl s siocsifflags ask) >>= λ set. kni_up_loop fuel kni s set.memory writable
  if is_up got.memory then pure tt else again

-- kni_create: the result is the pointer, 0 for null.
unfoldable pub kni_create : ℕ → Ports → List ℕ → ℕ → ℕ → ℕ → ℕ → Sys ℤ
unfolding kni_conf kni_up_loop named_ifreq
kni_create fuel ports name pool port_id lcore_id writable =
    if leb ports.rte_max_ethports port_id then pure (pos 0) else do
      kni ← invoke (rte_kni_alloc pool (kni_conf ports name port_id lcore_id writable) port_id)
      if nonzero kni.ret
          then (do
            s ← invoke (socket af_inet sock_dgram 0)
            kni_up_loop fuel kni.ret s.ret (named_ifreq name) writable
            pure kni.ret)
          else exit "Fail to create kni for port: %d\n"

-- kni_setup_ip
unfoldable pub kni_setup_ip :
    List ℕ → ℕ → ℕ → Option Bytes → Option (Table ℕ) → ℕ → ℕ → Sys (Unit {0})
unfolding named_ifreq
kni_setup_ip name ipv4 loopback ipv6 routes nb_routes gw = do
  s ← invoke (socket af_inet sock_dgram 0)
  configured ← setup_ip s.ret (named_ifreq name) ipv4 loopback ipv6
  found ← ioctl_or_exit s.ret siogifindex configured "SIOGIFINDEX"
  setup_routes (get32 found ifr_ifru) routes nb_routes gw
  invoke (close s.ret)
  pure tt
