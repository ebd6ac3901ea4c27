-- ===== src/Kni/Laws.antt =====
-- src/ext/kni.c: the loop of kni_create, and the requests to configure a port.
use dpdk_cr.Common.{
  ℕ, ℤ, zero, suc, pos, negsuc, ◌+◌, ◌%◌, ◌≤◌, ◌<◌, List, [], ◌∷◌, ◌≡◌, refl, ap, ◌∙◌, inl, inr,
  arith, Bool, true, false, Option, Table, ltb, leb, ◌==◌, ◌&&◌, Bool-cases, if◌then◌else◌,
}
use dpdk_cr.Common.Bits.{bit_and-mask}
use dpdk_cr.Common.Bytes.{Bytes, get16, put16, get16-put16}
use dpdk_cr.System.{
  Kernel, Log, Call, Event, Request, siocsifflags, siocgifflags, done, ◌>>=◌, ioctl, nonzero,
  rte_kni_alloc, socket, rte_eth_dev_count, rte_eth_dev_stop, rte_eth_dev_start,
  rte_kni_handle_request,
}
use dpdk_cr.Netlink.{named_ifreq}
use dpdk_cr.Netlink.Uapi.{ifr_ifru, af_inet, sock_dgram}
use dpdk_cr.Tap.{tap_setup_ip}
use dpdk_cr.Kni.{
  Ports, count_of, restart, kni_config_network_interface, is_up, up_flags, kni_up_loop,
  kni_setup_ip, kni_conf, kni_create,
}

-- an event for the log
abbrev pub asked : Kernel → Log → Call → Event
asked k log c = record { call = c; answer = k log c }

-- All cases of kni_config_network_interface: an unknown port is refused with nothing called but the
-- count, `if_up` zero stops the port, anything else restarts it and hands back the start's result.
module _ (k : Kernel) (log : Log) (ports : Ports) (port_id if_up : ℕ) where
  abbrev pub counted : Event
  counted = asked k log rte_eth_dev_count

  abbrev pub stopped : Event
  stopped = asked k (counted ∷ log) (rte_eth_dev_stop port_id)

  abbrev pub started : Event
  started = asked k (stopped ∷ counted ∷ log) (rte_eth_dev_start port_id)

  abbrev pub known : Bool
  known = ltb port_id (count_of counted.answer.ret) && ltb port_id ports.rte_max_ethports

  pub kni_config_network_interface_lem : kni_config_network_interface ports port_id if_up k log ≡ (
      if known
      then (if if_up == 0
          then done (pos 0) (stopped ∷ counted ∷ log)
          else done started.answer.ret (started ∷ stopped ∷ counted ∷ log))
      else done (negsuc 21) (counted ∷ log))
  unfolding kni_config_network_interface restart
  kni_config_network_interface_lem = ground arith

-- IFF_UP, the lowest of the flags in a request
abbrev pub flag_up : Bytes → Bool
flag_up ifr = get16 ifr ifr_ifru % 2 == 1

-- how often an interface was asked to be up: by flags that have IFF_UP
abbrev pub is_request : Call → ℕ
is_request (ioctl fd siocsifflags ifr) = if flag_up ifr then 1 else 0
is_request c = 0

abbrev pub requests : Log → ℕ
requests [] = 0
requests (e ∷ es) = requests es + is_request e.call

-- The kernel says that the interface is up once it was asked `n` times to be up.
abbrev pub UpAfter : Kernel → ℕ → Type 0
UpAfter k n =
    (log : Log) (s : ℤ) (ifr : Bytes)
    → flag_up (k log (ioctl s siocgifflags ifr)).memory ≡ leb n (requests log)

-- An ioctl that fails leaves the memory alone.
abbrev pub Refuses : Kernel → Type 0
Refuses k =
    (log : Log) (s : ℤ) (request : Request) (ifr : Bytes)
    → ((k log (ioctl s request ifr)).ret ≡ negsuc 0) × ((k log (ioctl s request ifr)).memory ≡ ifr)

flag_up-ask : (ifr : Bytes) (writable : ℕ) → flag_up (put16 ifr ifr_ifru (up_flags writable)) ≡ true
flag_up-ask ifr writable = elim (Bool-cases (writable == 0)) [
  | inl closed ↦ rw (closed, get16-put16 ifr 16 0x181 (omega arith)) refl
  | inr open_ ↦ rw (open_, get16-put16 ifr 16 1 (omega arith)) refl
]

is_up-flag_up : (ifr : Bytes) → is_up ifr ≡ flag_up ifr
is_up-flag_up ifr = ground (arith, bit_and-mask 1 (get16 ifr ifr_ifru))

pub kni_up_loop-UpAfter :
    (k : Kernel) (n fuel : ℕ) (kni s : ℤ) (ifr : Bytes) (writable : ℕ) (log : Log)
    → UpAfter k n
    → requests log ≤ n
    → n < requests log + fuel
    → (log' : Log) × (kni_up_loop fuel kni s ifr writable k log ≡ done tt log')
      × (requests log' ≡ n)
unfolding kni_up_loop
kni_up_loop-UpAfter k n zero kni s ifr writable log up below enough = absurd (omega arith)
kni_up_loop-UpAfter k n (suc fuel) kni s ifr writable log up below enough =
    let handled : Log = asked k log (rte_kni_handle_request kni) ∷ log in
    let got : Event = asked k handled (ioctl s siocgifflags ifr) in
    let ask : Bytes = put16 got.answer.memory ifr_ifru (up_flags writable) in
    let set : Event = asked k (got ∷ handled) (ioctl s siocsifflags ask) in
    let asked_up : flag_up ask ≡ true = flag_up-ask got.answer.memory writable in
    let answered : is_up got.answer.memory ≡ leb n (requests handled) =
      is_up-flag_up got.answer.memory ∙ up handled s ifr in
    let one_more : requests (set ∷ got ∷ handled) ≡ requests log + 1 = rw asked_up (omega arith) in
    elim (Bool-cases (leb n (requests handled))) [
      | inl ready ↦ (got ∷ handled, rw (answered, ready) refl, ground arith)
      | inr waiting ↦
          let (log', ran, count) =
            kni_up_loop-UpAfter k n fuel kni s set.answer.memory writable (set ∷ got ∷ handled) up
              (ground (arith, one_more)) (omega (arith, one_more)) in
          (log', rw (answered, waiting) ran, count)
    ]

is_up-ask : (ifr : Bytes) (writable : ℕ) → is_up (put16 ifr ifr_ifru (up_flags writable)) ≡ true
is_up-ask ifr writable = elim (Bool-cases (writable == 0)) [
  | inl closed ↦ rw (closed, get16-put16 ifr 16 0x181 (omega arith)) refl
  | inr open_ ↦ rw (open_, get16-put16 ifr 16 1 (omega arith)) refl
]

-- The second round reads the flags that the first one wrote into its own memory.
kni_up_loop-Refuses :
    (k : Kernel) (fuel : ℕ) (kni s : ℤ) (ifr : Bytes) (writable : ℕ) (log : Log)
    → Refuses k
    → (log' : Log) × (kni_up_loop (suc (suc fuel)) kni s ifr writable k log ≡ done tt log')
unfolding kni_up_loop
kni_up_loop-Refuses k fuel kni s ifr writable log refuses =
    let handled : Log = asked k log (rte_kni_handle_request kni) ∷ log in
    let got : Event = asked k handled (ioctl s siocgifflags ifr) in
    let ask : Bytes = put16 got.answer.memory ifr_ifru (up_flags writable) in
    let set : Event = asked k (got ∷ handled) (ioctl s siocsifflags ask) in
    let handled' : Log =
      asked k (set ∷ got ∷ handled) (rte_kni_handle_request kni) ∷ set ∷ got ∷ handled in
    let got' : Event = asked k handled' (ioctl s siocgifflags set.answer.memory) in
    let own_flags : is_up got'.answer.memory ≡ true =
      ap is_up (
        (refuses handled' s siocgifflags set.answer.memory).1
        ∙ (refuses (got ∷ handled) s siocsifflags ask).1)
      ∙ is_up-ask got.answer.memory writable in
    elim (Bool-cases (is_up got.answer.memory)) [
      | inl ready ↦ (got ∷ handled, rw ready refl)
      | inr waiting ↦ (got' ∷ handled', rw (waiting, own_flags) refl)
    ]

-- what rte_kni_alloc hands back
abbrev pub kni_answer : Kernel → Log → Ports → List ℕ → ℕ → ℕ → ℕ → ℕ → ℤ
kni_answer k log ports name pool port_id lcore_id writable =
    (k log (rte_kni_alloc pool (kni_conf ports name port_id lcore_id writable) port_id)).ret

gt→leb : (a b : ℕ) → b < a → leb a b ≡ false
gt→leb a b h = ground arith

-- Where every ioctl fails and leaves its memory alone, kni_create for a valid port and an interface
-- that is allocated returns the interface as though it were up, with two rounds of the loop or more.
pub kni_create-Refuses :
    (k : Kernel) (fuel : ℕ) (ports : Ports) (name : List ℕ) (pool port_id lcore_id writable : ℕ)
    (log : Log)
    → Refuses k
    → port_id < ports.rte_max_ethports
    → nonzero (kni_answer k log ports name pool port_id lcore_id writable) ≡ true
    → 2 ≤ fuel
    → (log' : Log) × (kni_create fuel ports name pool port_id lcore_id writable k log
        ≡ done (kni_answer k log ports name pool port_id lcore_id writable) log')
unfolding kni_create
kni_create-Refuses k zero ports name pool port_id lcore_id writable log refuses port made enough =
    absurd (omega arith)
kni_create-Refuses k (suc zero) ports name pool port_id lcore_id writable log refuses port made
      enough =
    absurd (omega arith)
kni_create-Refuses k (suc (suc fuel)) ports name pool port_id lcore_id writable log refuses port
      made enough =
    let allocated : Event =
      asked k log (rte_kni_alloc pool (kni_conf ports name port_id lcore_id writable) port_id) in
    let opened : Event = asked k (allocated ∷ log) (socket af_inet sock_dgram 0) in
    let (log', ran) =
      kni_up_loop-Refuses k fuel allocated.answer.ret opened.answer.ret (named_ifreq name) writable
        (opened ∷ allocated ∷ log) refuses in
    (log', rw (gt→leb ports.rte_max_ethports port_id port, made, ran, ◌>>=◌) refl)

-- For a valid port and an interface that is allocated, and that the kernel has up once its flags were
-- set `n` times with IFF_UP among them: with fuel above the number of these requests that are left,
-- kni_create returns the interface, and `n` such requests have been made in all.
pub kni_create-UpAfter :
    (k : Kernel) (n fuel : ℕ) (ports : Ports) (name : List ℕ) (pool port_id lcore_id writable : ℕ)
    (log : Log)
    → UpAfter k n
    → port_id < ports.rte_max_ethports
    → nonzero (kni_answer k log ports name pool port_id lcore_id writable) ≡ true
    → requests log ≤ n
    → n < requests log + fuel
    → (log' : Log) × (kni_create fuel ports name pool port_id lcore_id writable k log
        ≡ done (kni_answer k log ports name pool port_id lcore_id writable) log')
      × (requests log' ≡ n)
unfolding kni_create
kni_create-UpAfter k n fuel ports name pool port_id lcore_id writable log up port made below
      enough =
    let allocated : Event =
      asked k log (rte_kni_alloc pool (kni_conf ports name port_id lcore_id writable) port_id) in
    let opened : Event = asked k (allocated ∷ log) (socket af_inet sock_dgram 0) in
    let (log', ran, count) =
      kni_up_loop-UpAfter k n fuel allocated.answer.ret opened.answer.ret (named_ifreq name)
        writable (opened ∷ allocated ∷ log) up (omega arith) (omega arith) in
    (log', rw (gt→leb ports.rte_max_ethports port_id port, made, ran, ◌>>=◌) refl, count)

-- kni_setup_ip and tap_setup_ip are one and the same run.
pub kni_setup_ip-tap_setup_ip :
    (name : List ℕ) (ipv4 loopback : ℕ) (ipv6 : Option Bytes) (routes : Option (Table ℕ))
    (nb_routes gw : ℕ)
    → kni_setup_ip name ipv4 loopback ipv6 routes nb_routes gw
      ≡ tap_setup_ip name ipv4 loopback ipv6 routes nb_routes gw
unfolding kni_setup_ip tap_setup_ip
kni_setup_ip-tap_setup_ip name ipv4 loopback ipv6 routes nb_routes gw = refl
