-- ===== src/Kni/Tests.antt =====
-- src/ext/kni.c: an interface that comes up on the second request, and one that never does.
use dpdk_cr.Common.{
  ℕ, pos, negsuc, List, [], ◌∷◌, ◌≡◌, refl, inl, inr, arith, false, none, leb, Bool-cases,
  if◌then◌else◌,
}
use dpdk_cr.Common.Bytes.{Bytes, put16, get16-put16}
use dpdk_cr.System.{Request, siocgifflags, ioctl, Kernel, Log, done}
use dpdk_cr.Kni.{Ports, kni_create}
use dpdk_cr.Kni.Laws.{
  UpAfter, Refuses, requests, kni_answer, kni_create-UpAfter, kni_create-Refuses,
}

abbrev ports : Ports
ports = record {
  rte_max_ethports = 32;
  pci_dev = λ _. none;
  macaddr = λ _. 2 ∷ 0 ∷ 0 ∷ 0 ∷ 0 ∷ 1 ∷ [];
  dev_mtu = λ _. 1500;
}

abbrev veth0 : List ℕ
veth0 = b'v' ∷ b'E' ∷ b't' ∷ b'h' ∷ b'0' ∷ []

abbrev flags_answer : Log → Bytes → Bytes
flags_answer log ifr = if leb 2 (requests log) then put16 ifr 16 1 else put16 ifr 16 0

abbrev answer_flags : Log → Request → Bytes → Bytes
answer_flags log siocgifflags ifr = flags_answer log ifr
answer_flags log request ifr = ifr

abbrev slow : Kernel
slow log (ioctl fd request ifr) = record {
  ret = pos 0;
  errno = 0;
  memory = answer_flags log request ifr;
  is_set = false;
}
slow log c = record { ret = pos 9; errno = 0; memory = λ _. 0; is_set = false }

slow-UpAfter : UpAfter slow 2
slow-UpAfter log s ifr = elim (Bool-cases (leb 2 (requests log))) [
  | inl ready ↦ rw (ready, get16-put16 ifr 16 1 (omega arith)) refl
  | inr waiting ↦ rw (waiting, get16-put16 ifr 16 0 (omega arith)) refl
]

kni_create-UpAfter_example :
    (log' : Log) × (kni_create 3 ports veth0 64 0 1 1 slow []
      ≡ done (kni_answer slow [] ports veth0 64 0 1 1) log')
    × (requests log' ≡ 2)
kni_create-UpAfter_example =
    kni_create-UpAfter slow 2 3 ports veth0 64 0 1 1 [] slow-UpAfter (omega arith) refl
      (omega arith) (omega arith)

abbrev unwilling : Kernel
unwilling log (ioctl fd request ifr) = record {
  ret = negsuc 0;
  errno = 1;
  memory = ifr;
  is_set = false;
}
unwilling log c = record { ret = pos 9; errno = 0; memory = λ _. 0; is_set = false }

unwilling-Refuses : Refuses unwilling
unwilling-Refuses log s request ifr = (refl, refl)

kni_create-Refuses_example :
    (log' : Log) × (kni_create 2 ports veth0 64 0 1 1 unwilling []
      ≡ done (kni_answer unwilling [] ports veth0 64 0 1 1) log')
kni_create-Refuses_example =
    kni_create-Refuses unwilling 2 ports veth0 64 0 1 1 [] unwilling-Refuses (omega arith) refl
      (omega arith)
