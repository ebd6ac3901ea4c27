-- ===== src/Netlink/Laws/Configured.antt =====
-- src/ext/ext_netlink.c: the settings and messages of set_mac_mtu and setup_ip.
use Prim.Native.String.{String}
use dpdk_cr.Common.{
  ℕ, ℤ, ◌+◌, ◌-◌, ◌*◌, ◌/◌, ◌%◌, ◌^◌, ◌<◌, List, [], ◌∷◌, ◌++◌, ◌≡◌, append-nil, refl, subst, ap,
  ap₂, ◌∙◌, inl, inr, arith, Option, some, none, u32, ◌==◌, Bool-cases, store, tabulate, bit_or,
  bit_xor, if◌then◌else◌,
}
use dpdk_cr.Common.Bytes.{
  Bytes, put16, put32, put64, get32, get32-put32, get_bytes, le_bytes, of_le, of_le-le_bytes,
  put_bytes,
}
use dpdk_cr.Common.Shifted.{bit_xor-shifted, bit_or-shifted, bit_xor-byte, bit_or-byte}
use dpdk_cr.System.{
  Request, siogifindex, siocsifhwaddr, siocsifmtu, siocsifaddr, siocsifdstaddr, siocsifbrdaddr,
  siocsifnetmask, Kernel, pure, ioctl_or_exit,
}
use dpdk_cr.Netlink.Uapi.{af_inet, ifr_ifru, sa_data, sin_addr, arphrd_ether}
use dpdk_cr.Netlink.Setup.{
  set_mac, set_mtu, set_mac_mtu, setup_ipv4, host_mask, net_mask, add_loopback, add_optional_ipv6,
  setup_ip,
}
use dpdk_cr.Netlink.Addresses.{address_request, add_ipv4, add_ipv6}
use dpdk_cr.Netlink.Laws.Messages.{message_of}
use dpdk_cr.Netlink.Laws.Effects.{
  Effect, message, setting, setting_of, Attempts, IndexIs, found-Attempts, pure-Performs,
  Attempts-Performs, bind-Attempts, ioctl_or_exit-Attempts,
}
use dpdk_cr.Netlink.Laws.Sends.{request-Performs}

-- The address, its peer, its broadcast address and its mask. In network order the last byte is the
-- highest of the number; the networks have four addresses, and the peer is the mirror image.
abbrev pub ipv4_settings : ℕ → List Effect
ipv4_settings ipv4 =
    let low : ℕ = ipv4 % 2 ^ 24 in
    let last : ℕ = ipv4 / 2 ^ 24 in
    setting siocsifaddr ipv4
    ∷ setting siocsifdstaddr (low + (last / 4 * 4 + (3 - last % 4)) * 2 ^ 24)
    ∷ setting siocsifbrdaddr (low + (last / 4 * 4 + 3) * 2 ^ 24)
    ∷ setting siocsifnetmask 0xfcffffff
    ∷ []

abbrev pub when_set : ℕ → List Effect → List Effect
when_set v es = if v == 0 then [] else es

abbrev pub loopback_message : ℕ → ℕ → List Effect
loopback_message index loopback =
    message (message_of (address_request 2 index (le_bytes 4 loopback) 32)) ∷ []

abbrev pub ipv6_messages : ℕ → Option Bytes → List Effect
ipv6_messages index none = []
ipv6_messages index (some ipv6) =
    message (message_of (address_request 10 index (get_bytes ipv6 0 16) 64)) ∷ []

module _ (k : Kernel) where
  pure-Attempts : {A : Type 0} (a : A) → Attempts k (pure a) []
  pure-Attempts a = Attempts-Performs k (pure a) [] (pure-Performs a)

  -- A request that sets the address that was just stored.
  attempt_setting :
      (s : ℤ) (request : Request) (ifr : Bytes) (address : ℕ) (text : String)
      → ((b : Bytes) → setting_of request b ≡ setting request (get32 b sin_addr) ∷ [])
      → address < u32
      → Attempts k
          (ioctl_or_exit s request (put32 ifr sin_addr address) text)
          (setting request address ∷ [])
  attempt_setting s request ifr address text sets h =
      subst (Attempts k (ioctl_or_exit s request (put32 ifr sin_addr address) text))
        (sets (put32 ifr sin_addr address)
          ∙ ap (λ (v : ℕ). setting request v ∷ []) (get32-put32 ifr sin_addr address h))
        (ioctl_or_exit-Attempts k s request (put32 ifr sin_addr address) text)

  setup_ipv4_raw :
      (s : ℤ) (ifr : Bytes) (ipv4 : ℕ)
      → ipv4 < u32
      → bit_xor ipv4 host_mask < u32
      → bit_or ipv4 host_mask < u32
      → Attempts k (setup_ipv4 s ifr ipv4) (
          setting siocsifaddr ipv4
          ∷ setting siocsifdstaddr (bit_xor ipv4 host_mask)
          ∷ setting siocsifbrdaddr (bit_or ipv4 host_mask)
          ∷ setting siocsifnetmask net_mask
          ∷ [])
  unfolding setup_ipv4
  setup_ipv4_raw s ifr ipv4 h hx ho =
      bind-Attempts k _ _ [] _ (ioctl_or_exit-Attempts k s siogifindex ifr _) (λ found.
        bind-Attempts k _ _ (setting siocsifaddr ipv4 ∷ []) _
          (attempt_setting s siocsifaddr (put16 found ifr_ifru af_inet) ipv4 _ (λ b. refl) h)
          (λ with_addr.
            bind-Attempts k _ _ (setting siocsifdstaddr (bit_xor ipv4 host_mask) ∷ []) _
              (attempt_setting s siocsifdstaddr with_addr (bit_xor ipv4 host_mask) _ (λ b. refl) hx)
              (λ with_peer.
                bind-Attempts k _ _ (setting siocsifbrdaddr (bit_or ipv4 host_mask) ∷ []) _
                  (attempt_setting s siocsifbrdaddr with_peer (bit_or ipv4 host_mask) _ (λ b. refl)
                    ho)
                  (λ with_broadcast.
                    attempt_setting s siocsifnetmask with_broadcast net_mask _ (λ b. refl)
                      (omega arith)))))

  setup_ipv4-Attempts :
      (s : ℤ) (ifr : Bytes) (ipv4 : ℕ)
      → ipv4 < u32
      → Attempts k (setup_ipv4 s ifr ipv4) (ipv4_settings ipv4)
  setup_ipv4-Attempts s ifr ipv4 h =
      let low : ℕ = ipv4 % 2 ^ 24 in
      let d : ℕ = ipv4 / 2 ^ 24 in
      let split : ipv4 ≡ low + d * 2 ^ 24 = omega arith in
      let peer : bit_xor ipv4 host_mask ≡ low + (d / 4 * 4 + (3 - d % 4)) * 2 ^ 24 =
        ap (λ (v : ℕ). bit_xor v host_mask) split
        ∙ bit_xor-shifted 24 low d 3 (omega arith)
        ∙ ap (λ (t : ℕ). low + t * 2 ^ 24) (bit_xor-byte d (omega arith)) in
      let broadcast : bit_or ipv4 host_mask ≡ low + (d / 4 * 4 + 3) * 2 ^ 24 =
        ap (λ (v : ℕ). bit_or v host_mask) split
        ∙ bit_or-shifted 24 low d 3 (omega arith)
        ∙ ap (λ (t : ℕ). low + t * 2 ^ 24) (bit_or-byte d (omega arith)) in
      subst (Attempts k (setup_ipv4 s ifr ipv4))
        (ap₂
          (λ (p b : ℕ).
            setting siocsifaddr ipv4
            ∷ setting siocsifdstaddr p
            ∷ setting siocsifbrdaddr b
            ∷ setting siocsifnetmask net_mask
            ∷ [])
          peer broadcast)
        (setup_ipv4_raw s ifr ipv4 h (omega (arith, peer)) (omega (arith, broadcast)))

  optional_ipv4-Attempts :
      (s : ℤ) (ifr : Bytes) (ipv4 : ℕ)
      → ipv4 < u32
      → Attempts k
          (if ipv4 == 0 then pure ifr else setup_ipv4 s ifr ipv4)
          (when_set ipv4 (ipv4_settings ipv4))
  optional_ipv4-Attempts s ifr ipv4 h = elim (Bool-cases (ipv4 == 0)) [
    | inl absent ↦ rw absent (pure-Attempts ifr)
    | inr given ↦ rw given (setup_ipv4-Attempts s ifr ipv4 h)
  ]

  add_loopback-Attempts :
      (index loopback : ℕ)
      → Attempts k
          (add_loopback index loopback)
          (when_set loopback (loopback_message index loopback))
  unfolding add_loopback add_ipv4
  add_loopback-Attempts index loopback = elim (Bool-cases (loopback == 0)) [
    | inl absent ↦ rw absent (pure-Attempts tt)
    | inr given ↦ rw given (Attempts-Performs k _ _ (request-Performs _))
  ]

  add_optional_ipv6-Attempts :
      (index : ℕ) (ipv6 : Option Bytes)
      → Attempts k (add_optional_ipv6 index ipv6) (ipv6_messages index ipv6)
  unfolding add_optional_ipv6 add_ipv6
  add_optional_ipv6-Attempts index none = pure-Attempts tt
  add_optional_ipv6-Attempts index (some ipv6) = Attempts-Performs k _ _ (request-Performs _)

  -- setup_ip on an interface whose index the kernel knows.
  pub setup_ip-Attempts :
      (index : ℕ) (s : ℤ) (ifr : Bytes) (ipv4 loopback : ℕ) (ipv6 : Option Bytes)
      → IndexIs k index
      → ipv4 < u32
      → Attempts k (setup_ip s ifr ipv4 loopback ipv6) (
          when_set ipv4 (ipv4_settings ipv4)
          ++ (when_set loopback (loopback_message index loopback) ++ ipv6_messages index ipv6))
  unfolding setup_ip
  setup_ip-Attempts index s ifr ipv4 loopback ipv6 answers h =
      bind-Attempts k _ _ _ _ (optional_ipv4-Attempts s ifr ipv4 h) (λ configured.
        found-Attempts k index s configured _ _ _ answers (λ found at. rw at (
          bind-Attempts k _ _ _ _ (add_loopback-Attempts index loopback) (λ a.
            subst (Attempts k _) (append-nil (ipv6_messages index ipv6)) (
              bind-Attempts k _ _ _ [] (add_optional_ipv6-Attempts index ipv6)
                (λ b. pure-Attempts found))))))

  hardware_address :
      (ifr : Bytes) (mac : ℕ)
      → get_bytes (put16 (put64 ifr sa_data mac) ifr_ifru arphrd_ether) sa_data 6 ≡ le_bytes 6 mac
  unfolding get_bytes put16 put64 le_bytes put_bytes store tabulate
  hardware_address ifr mac = refl

  set_mac-Attempts :
      (s : ℤ) (ifr : Bytes) (mac : ℕ)
      → mac < 2 ^ 48
      → Attempts k (set_mac s ifr mac) (when_set mac (setting siocsifhwaddr mac ∷ []))
  unfolding set_mac
  set_mac-Attempts s ifr mac h = elim (Bool-cases (mac == 0)) [
    | inl absent ↦ rw absent (pure-Attempts ifr)
    | inr given ↦ rw given (
        subst (Attempts k _)
          (ap (λ (v : ℕ). setting siocsifhwaddr v ∷ [])
            (ap of_le (hardware_address ifr mac) ∙ of_le-le_bytes 6 mac (omega arith)))
          (ioctl_or_exit-Attempts k s siocsifhwaddr _ _))
  ]

  set_mtu-Attempts :
      (s : ℤ) (ifr : Bytes) (mtu : ℕ)
      → mtu < u32
      → Attempts k (set_mtu s ifr mtu) (when_set mtu (setting siocsifmtu mtu ∷ []))
  unfolding set_mtu
  set_mtu-Attempts s ifr mtu h = elim (Bool-cases (mtu == 0)) [
    | inl absent ↦ rw absent (pure-Attempts ifr)
    | inr given ↦ rw given (
        subst (Attempts k _)
          (ap (λ (v : ℕ). setting siocsifmtu v ∷ []) (get32-put32 ifr ifr_ifru mtu h))
          (ioctl_or_exit-Attempts k s siocsifmtu _ _))
  ]

  -- set_mac_mtu sets what is not zero, the hardware address first.
  pub set_mac_mtu-Attempts :
      (s : ℤ) (ifr : Bytes) (mac mtu : ℕ)
      → mac < 2 ^ 48
      → mtu < u32
      → Attempts k (set_mac_mtu s ifr mac mtu) (
          when_set mac (setting siocsifhwaddr mac ∷ [])
          ++ when_set mtu (setting siocsifmtu mtu ∷ []))
  unfolding set_mac_mtu
  set_mac_mtu-Attempts s ifr mac mtu hm ht =
      bind-Attempts k _ _ [] _ (ioctl_or_exit-Attempts k s siogifindex ifr _) (λ found.
        bind-Attempts k _ _ _ _ (set_mac-Attempts s found mac hm)
          (λ addressed. set_mtu-Attempts s addressed mtu ht))
