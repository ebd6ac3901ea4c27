-- ===== src/Netlink/Uapi.antt =====
-- The alignment macros and the numbers that <linux/netlink.h>, <linux/rtnetlink.h>,
-- <linux/if_addr.h>, <linux/if.h>, <errno.h> and <fcntl.h> document for the kernel's interface.
use dpdk_cr.Common.{ℕ, ◌+◌, ◌*◌, ◌/◌, add32}

-- NLMSG_ALIGN and RTA_ALIGN round up to a multiple of four in `unsigned` arithmetic.
abbrev pub nlmsg_align : ℕ → ℕ
nlmsg_align len = add32 len 3 / 4 * 4

abbrev pub rta_align : ℕ → ℕ
rta_align len = add32 len 3 / 4 * 4

-- NLMSG_LENGTH(len), RTA_LENGTH(len): a header and `len` bytes
abbrev pub nlmsg_length : ℕ → ℕ
nlmsg_length len = len + 16

abbrev pub rta_length : ℕ → ℕ
rta_length len = 4 + len

-- sizes of `struct ifaddrmsg` and `struct rtmsg`, and where the attributes after them start
abbrev pub ifaddrmsg_size : ℕ
ifaddrmsg_size = 8

abbrev pub rtmsg_size : ℕ
rtmsg_size = 12

abbrev pub ifaddr_start : ℕ
ifaddr_start = 24

abbrev pub route_start : ℕ
route_start = 28

abbrev pub rtm_newaddr : ℕ
rtm_newaddr = 20

abbrev pub rtm_newroute : ℕ
rtm_newroute = 24

abbrev pub nlm_f_request : ℕ
nlm_f_request = 1

abbrev pub nlm_f_create : ℕ
nlm_f_create = 0x400

abbrev pub nlm_f_append : ℕ
nlm_f_append = 0x800

abbrev pub ifa_address : ℕ
ifa_address = 1

abbrev pub ifa_local : ℕ
ifa_local = 2

abbrev pub ifa_f_permanent : ℕ
ifa_f_permanent = 0x80

abbrev pub ifa_f_secondary : ℕ
ifa_f_secondary = 1

abbrev pub rta_dst : ℕ
rta_dst = 1

abbrev pub rta_oif : ℕ
rta_oif = 4

abbrev pub rta_gateway : ℕ
rta_gateway = 5

abbrev pub rt_table_main : ℕ
rt_table_main = 254

abbrev pub rtprot_boot : ℕ
rtprot_boot = 3

abbrev pub rt_scope_universe : ℕ
rt_scope_universe = 0

abbrev pub rt_scope_link : ℕ
rt_scope_link = 253

abbrev pub rtn_unicast : ℕ
rtn_unicast = 1

abbrev pub af_inet : ℕ
af_inet = 2

abbrev pub af_inet6 : ℕ
af_inet6 = 10

abbrev pub af_netlink : ℕ
af_netlink = 16

abbrev pub sock_raw : ℕ
sock_raw = 3

abbrev pub sock_dgram : ℕ
sock_dgram = 2

abbrev pub netlink_route : ℕ
netlink_route = 0

abbrev pub arphrd_ether : ℕ
arphrd_ether = 1

-- where `struct ifreq` keeps its union, and a socket address in it its data and its IPv4 address
abbrev pub ifr_ifru : ℕ
ifr_ifru = 16

abbrev pub sa_data : ℕ
sa_data = 18

abbrev pub sin_addr : ℕ
sin_addr = 20

abbrev pub iff_up : ℕ
iff_up = 1

abbrev pub iff_noarp : ℕ
iff_noarp = 0x80

abbrev pub iff_promisc : ℕ
iff_promisc = 0x100

abbrev pub iff_tap : ℕ
iff_tap = 2

abbrev pub iff_no_pi : ℕ
iff_no_pi = 0x1000

abbrev pub eintr : ℕ
eintr = 4

abbrev pub o_wronly : ℕ
o_wronly = 1

abbrev pub o_rdwr : ℕ
o_rdwr = 2

abbrev pub o_nonblock : ℕ
o_nonblock = 0x800
