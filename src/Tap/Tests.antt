-- ===== src/Tap/Tests.antt =====
-- src/ext/tap.c: runs against a kernel that grants everything, and the theorems applied to them.
use Prim.Native.String.{String}
use dpdk_cr.Common.{
  ◌+◌, ℕ, ℤ, pos, negsuc, List, [], ◌∷◌, ◌++◌, ◌≡◌, refl, arith, true, false, Option, none, some,
  Table,
}
use dpdk_cr.Common.Bytes.{Bytes, put32, get32-put32}
use dpdk_cr.System.{
  Request, siogifindex, siocsifhwaddr, spinning, ioctl_or_exit, ioctl, Kernel, Outcome, done, exits,
}
use dpdk_cr.System.Laws.{FailStop}
use dpdk_cr.Netlink.{set_mac_mtu}
use dpdk_cr.Netlink.Uapi.{ifr_ifru}
use dpdk_cr.Netlink.Laws.Effects.{Attempts, IndexIs}
use dpdk_cr.Netlink.Laws.Configured.{when_set, ipv4_settings, loopback_message, ipv6_messages}
use dpdk_cr.Tap.{tap_create, tap_setup_ip, tap_read}
use dpdk_cr.Tap.Laws.{
  routes_effects, tap_setup_ip-FailStop, tap_setup_ip-Attempts, Created, tap_create-Created,
}

-- Interface 7, descriptor 3; every ioctl succeeds.
abbrev index_answer : Request → Bytes → Bytes
index_answer siogifindex ifr = put32 ifr ifr_ifru 7
index_answer request ifr = ifr

abbrev grants : Kernel
grants log (ioctl fd request ifr) = record {
  ret = pos 0;
  errno = 0;
  memory = index_answer request ifr;
  is_set = true;
}
grants log c = record { ret = pos 3; errno = 0; memory = λ _. 0; is_set = true }

-- tap0
abbrev tap0 : List ℕ
tap0 = b't' ∷ b'a' ∷ b'p' ∷ b'0' ∷ []

-- two routes, and an entry too many
abbrev routes : Table ℕ
routes k = 16 + k

grants-IndexIs : IndexIs grants 7
grants-IndexIs log fd ifr = get32-put32 ifr ifr_ifru 7 (omega arith)

tap_setup_ip-Attempts_example :
    Attempts grants (tap_setup_ip tap0 0x100000a 0x200007f none (some routes) 5 0x200000a) (
      (when_set 0x100000a (ipv4_settings 0x100000a)
        ++ (when_set 0x200007f (loopback_message 7 0x200007f) ++ ipv6_messages 7 none))
      ++ routes_effects 7 (some routes) 5 0x200000a)
tap_setup_ip-Attempts_example =
    tap_setup_ip-Attempts grants 7 tap0 0x100000a 0x200007f none (some routes) 5 0x200000a
      grants-IndexIs (omega arith) (omega arith)

tap_setup_ip-FailStop_example :
    FailStop (tap_setup_ip tap0 0x100000a 0x200007f none (some routes) 5 0x200000a)
tap_setup_ip-FailStop_example =
    tap_setup_ip-FailStop tap0 0x100000a 0x200007f none (some routes) 5 0x200000a (omega arith)

tap_create-Created_example :
    Created grants [] tap0 1 (tap_create tap0 0x665544332211 1500 1 grants [])
tap_create-Created_example = tap_create-Created grants [] tap0 1 0x665544332211 1500

abbrev outcome_of : {A : Type 0} → Outcome A → Option A × String
outcome_of (done a log) = (some a, "")
outcome_of (exits message log) = (none, message)
outcome_of (spinning log) = (none, "")

tap_create_works : outcome_of (tap_create tap0 0x665544332211 1500 1 grants []) ≡ (some (pos 3), "")
unfolding tap_create set_mac_mtu ioctl_or_exit
tap_create_works = refl

-- The hardware address is refused.
abbrev mac_answer : Request → ℤ
mac_answer siocsifhwaddr = negsuc 0
mac_answer request = pos 0

abbrev denies_mac : Kernel
denies_mac log (ioctl fd request ifr) = record {
  ret = mac_answer request;
  errno = 1;
  memory = ifr;
  is_set = true;
}
denies_mac log c = record { ret = pos 3; errno = 0; memory = λ _. 0; is_set = true }

tap_create_denied :
    outcome_of (tap_create tap0 0x665544332211 1500 1 denies_mac []) ≡ (none, "SIOCSIFHWADDR")
unfolding tap_create set_mac_mtu ioctl_or_exit
tap_create_denied = refl

-- An interrupted wait reads nothing.
abbrev interrupts : Kernel
interrupts log c = record { ret = negsuc 0; errno = 4; memory = λ _. 0; is_set = false }

tap_read_interrupted :
    (buf : Bytes) → outcome_of (tap_read (pos 3) buf 64 interrupts []) ≡ (some (pos 0, buf), "")
unfolding tap_read
tap_read_interrupted buf = refl
