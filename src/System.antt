-- ===== src/System.antt =====
-- The operating system as the C files of src/ext use it: a run is a sequence of calls, each answered
-- by a kernel that is a parameter. `perror_exit` of src/ext/ext_netlink.h ends a run.
use Prim.Native.String.{String}
use dpdk_cr.Common.{
  ℕ, zero, suc, ℤ, pos, negsuc, Option, List, ◌∷◌, Bool, true, false, if◌then◌else◌,
}
use dpdk_cr.Common.Bytes.{Bytes}
pub mod Laws

-- the requests of ioctl, by the names of the source
pub data Request : Type 0 where
  siogifindex siocsifhwaddr siocsifmtu : Request
  siocsifaddr siocsifdstaddr siocsifbrdaddr siocsifnetmask : Request
  siocgifflags siocsifflags tunsetiff : Request

-- `struct sockaddr_nl` with zero groups
pub record SockaddrNl : Type 0 where
  pub nl_family : ℕ
  pub nl_pid : ℤ

-- `struct rte_kni_conf`; the address and id of the device are there if there is a PCI device.
pub record KniConf : Type 0 where
  pub name : List ℕ
  pub core_id : ℕ
  pub force_bind : ℕ
  pub group_id : ℕ
  pub mbuf_size : ℕ
  pub pci : Option (ℕ × ℕ)
  pub mac_addr : List ℕ
  pub mtu : ℕ

-- One call with what it reads of the caller's memory; `ioctl` takes a `struct ifreq`. The last ones
-- are DPDK's.
pub data Call : Type 0 where
  socket : (domain type protocol : ℕ) → Call
  getpid : Call
  bind : (fd : ℤ) (address : SockaddrNl) → Call
  sendmsg : (fd : ℤ) (name : SockaddrNl) (message : List ℕ) → Call
  close : (fd : ℤ) → Call
  ioctl : (fd : ℤ) (request : Request) (ifr : Bytes) → Call
  open_file : (path : String) (flags : ℕ) → Call
  select_read : (fd : ℤ) (microseconds : ℕ) → Call
  read : (fd : ℤ) (size : ℕ) → Call
  perror : (message : String) → Call
  rte_eth_dev_count : Call
  rte_eth_dev_stop : (port_id : ℕ) → Call
  rte_eth_dev_start : (port_id : ℕ) → Call
  rte_kni_alloc : (pool : ℕ) (conf : KniConf) (port_id : ℕ) → Call
  rte_kni_handle_request : (kni : ℤ) → Call

-- What comes back: the result, errno, the memory that the call may have written, and whether
-- `select` has left the descriptor in the set.
pub record Answer : Type 0 where
  pub ret : ℤ
  pub errno : ℕ
  pub memory : Bytes
  pub is_set : Bool

pub record Event : Type 0 where
  pub call : Call
  pub answer : Answer

-- A log has its latest event first. The kernel may answer by all that went before.
abbrev pub Log : Type 0
Log = List Event

abbrev pub Kernel : Type 0
Kernel = Log → Call → Answer

-- `exits` is perror(message) and exit(1); `spinning` says that a loop's fuel ran out.
pub data Outcome (A : Type 0) : Type 0 where
  done : A → Log → Outcome A
  exits : String → Log → Outcome A
  spinning : Log → Outcome A

abbrev pub Sys : Type 0 → Type 0
Sys A = Kernel → Log → Outcome A

infixl 5 ◌>>=◌ ◌>>◌
abbrev pub ◌>>=◌ : {A B : Type 0} → Sys A → (A → Sys B) → Sys B
◌>>=◌ m f k log = elim (m k log) [
  | done a log' ↦ f a k log'
  | exits message log' ↦ exits message log'
  | spinning log' ↦ spinning log'
]

abbrev pub ◌>>◌ : {A B : Type 0} → Sys A → Sys B → Sys B
m >> n = m >>= λ _. n

module _ {A : Type 0} where
  abbrev pub pure : A → Sys A
  pure a k log = done a log

  abbrev pub exit : String → Sys A
  exit message k log = exits message log

  abbrev pub spin : Sys A
  spin k log = spinning log

abbrev pub invoke : Call → Sys Answer
invoke c k log = done (k log c) (record { call = c; answer = k log c } ∷ log)

abbrev pub nonzero : ℤ → Bool
nonzero (pos zero) = false
nonzero (pos (suc n)) = true
nonzero (negsuc n) = true

abbrev pub negative : ℤ → Bool
negative (pos n) = false
negative (negsuc n) = true

-- perror_exit
unfoldable pub perror_exit : {A : Type 0} → String → Sys A
perror_exit message = exit message

-- `if (ioctl(s, request, ifr)) perror_exit(message)`; the request's memory comes back.
unfoldable pub ioctl_or_exit : ℤ → Request → Bytes → String → Sys Bytes
unfolding perror_exit
ioctl_or_exit s request ifr message = do
  a ← invoke (ioctl s request ifr)
  if nonzero a.ret then perror_exit message else pure a.memory
