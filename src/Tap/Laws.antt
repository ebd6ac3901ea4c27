-- ===== src/Tap/Laws.antt =====
-- src/ext/tap.c: how tap_create and tap_setup_ip end, and what they ask of the kernel.
use dpdk_cr.Common.{
  ◌^◌, ◌⊎◌, inl, inr, Bool-cases, ℕ, ℤ, ◌<◌, List, [], ◌∷◌, ◌++◌, map, ◌≡◌, refl, ap, ◌∙◌, subst,
  true, false, Option, some, none, Table, tabulate, u32, append-nil,
}
use dpdk_cr.Common.Bytes.{Bytes, get32}
use dpdk_cr.System.{
  Kernel, Log, Call, Event, Outcome, done, spinning, exits, ◌>>◌, pure, invoke, negative,
  perror_exit, close, ioctl, open_file, tunsetiff,
}
use dpdk_cr.System.Laws.{FailStop, Stopped, stop_rules, Hands, Returns, pure-Returns, bind-Returns}
use dpdk_cr.Netlink.{named_ifreq, setup_routes}
use dpdk_cr.Netlink.Uapi.{ifr_ifru}
use dpdk_cr.Netlink.Laws.Failures.{set_mac_mtu-FailStop, setup_ip-FailStop, setup_routes-FailStop}
use dpdk_cr.Netlink.Laws.Effects.{
  Effect, Attempts, IndexIs, Attempts-Performs, pure-Performs, invoke-Performs, bind-Performs,
  bind-Attempts, found-Attempts,
}
use dpdk_cr.Netlink.Laws.Sends.{pairs, route_effect, setup_routes-Performs}
use dpdk_cr.Netlink.Laws.Configured.{
  when_set, ipv4_settings, loopback_message, ipv6_messages, setup_ip-Attempts,
}
use dpdk_cr.Tap.{
  open_flags, tun_device, tap_ifreq, tap_configure, tap_attach, tap_create, tap_setup_ip,
}

tap_configure-FailStop :
    (fd : ℤ) (ifr : Bytes) (mac mtu writable : ℕ) → FailStop (tap_configure fd ifr mac mtu writable)
unfolding tap_configure
tap_configure-FailStop fd ifr mac mtu writable = search (stop_rules, set_mac_mtu-FailStop) depth 8

-- With fewer than 2^31 entries of routes tap_setup_ip ends, whatever the kernel answers: it returns and
-- no ioctl has failed, or its last call is the only ioctl that failed and the exit message is the name
-- of its request.
pub tap_setup_ip-FailStop :
    (name : List ℕ) (ipv4 loopback : ℕ) (ipv6 : Option Bytes) (routes : Option (Table ℕ))
    (nb_routes gw : ℕ)
    → nb_routes < 2 ^ 31
    → FailStop (tap_setup_ip name ipv4 loopback ipv6 routes nb_routes gw)
unfolding tap_setup_ip
tap_setup_ip-FailStop name ipv4 loopback ipv6 routes nb_routes gw small =
    search (stop_rules, setup_ip-FailStop, setup_routes-FailStop, small) depth 8

tap_configure-Returns :
    (fd : ℤ) (ifr : Bytes) (mac mtu writable : ℕ)
    → Returns fd (tap_configure fd ifr mac mtu writable)
unfolding tap_configure
tap_configure-Returns fd ifr mac mtu writable = search (pure-Returns, bind-Returns) depth 12

-- The first two calls of tap_create in a log.
module _ (k : Kernel) (log : Log) (name : List ℕ) (writable : ℕ) where
  abbrev pub opening : Event
  opening =
      let c : Call = open_file tun_device (open_flags writable) in
      record { call = c; answer = k log c }

  abbrev pub making : Event
  making =
      let c : Call = ioctl opening.answer.ret tunsetiff (tap_ifreq name) in
      record { call = c; answer = k (opening ∷ log) c }

  abbrev pub closing : Event
  closing =
      let c : Call = close opening.answer.ret in
      record { call = c; answer = k (making ∷ opening ∷ log) c }

  -- The four ways in which tap_create may end.
  abbrev pub Created : Outcome ℤ → Type 0
  Created (done fd log') =
      (fd ≡ opening.answer.ret)
      × (negative fd ≡ false)
      × (negative making.answer.ret ≡ false)
      × Stopped (making ∷ opening ∷ log) (done fd log')
  Created (exits message log') =
      ((negative opening.answer.ret ≡ true) × (message ≡ "/dev/net/tun") × (log' ≡ opening ∷ log))
      ⊎ ((negative making.answer.ret ≡ true)
          × (message ≡ "TUNSETIFF")
          × (log' ≡ closing ∷ making ∷ opening ∷ log))
      ⊎ Stopped {A = ℤ} (making ∷ opening ∷ log) (exits message log')
  Created (spinning log') = ⊥

  Created-configured :
      (o : Outcome ℤ)
      → negative opening.answer.ret ≡ false
      → negative making.answer.ret ≡ false
      → Stopped (making ∷ opening ∷ log) o
      → Hands opening.answer.ret o
      → Created o
  Created-configured (done fd log') opened made stopped same =
      (same, ap negative same ∙ opened, made, stopped)
  Created-configured (exits message log') opened made stopped same = inr (inr stopped)
  Created-configured (spinning log') opened made stopped same = stopped

  -- tap_create ends in one of four ways: it returns the open descriptor and no ioctl has failed; the
  -- open failed and nothing else was called; the device was refused, the descriptor was closed and
  -- nothing else was called; a later ioctl failed, is the last call, and the exit message is the name
  -- of its request.
  pub tap_create-Created : (mac mtu : ℕ) → Created (tap_create name mac mtu writable k log)
  unfolding tap_create tap_attach perror_exit
  tap_create-Created mac mtu = elim (Bool-cases (negative opening.answer.ret)) [
    | inl no_device ↦ rw no_device (inl (no_device, refl, refl))
    | inr device ↦ rw device (elim (Bool-cases (negative making.answer.ret)) [
      | inl refused ↦ rw refused (inr (inl (refused, refl, refl)))
      | inr made ↦ rw made (
          Created-configured
            (tap_configure opening.answer.ret making.answer.memory mac mtu writable k
              (making ∷ opening ∷ log))
            device made
            ((tap_configure-FailStop opening.answer.ret making.answer.memory mac mtu writable).stops
              k (making ∷ opening ∷ log))
            ((tap_configure-Returns opening.answer.ret making.answer.memory mac mtu
                writable).returns
              k (making ∷ opening ∷ log)))
    ])
  ]

abbrev pub routes_effects : ℕ → Option (Table ℕ) → ℕ → ℕ → List Effect
routes_effects index none nb_routes gw = []
routes_effects index (some routes) nb_routes gw =
    map (route_effect index gw) (pairs (tabulate nb_routes routes))

module _ (k : Kernel) where
  routes-Attempts :
      (index : ℕ) (routes : Option (Table ℕ)) (nb_routes gw : ℕ)
      → nb_routes < 2 ^ 31
      → Attempts k
          (setup_routes index routes nb_routes gw)
          (routes_effects index routes nb_routes gw)
  unfolding setup_routes
  routes-Attempts index none nb_routes gw small = Attempts-Performs k _ _ (pure-Performs tt)
  routes-Attempts index (some routes) nb_routes gw small =
      Attempts-Performs k _ _ (setup_routes-Performs index gw routes nb_routes small)

  -- Where the kernel always gives one index for the interface and there are fewer than 2^31 entries of
  -- routes, tap_setup_ip asks, in this order and once each, for the address if it is not 0, its peer,
  -- broadcast address and mask in its network of four, for the loopback address if it is not 0 and for
  -- the IPv6 address if there is one, and for one route for each pair of entries, an odd last one left
  -- out; when it exits it has asked for the first of these.
  pub tap_setup_ip-Attempts :
      (index : ℕ) (name : List ℕ) (ipv4 loopback : ℕ) (ipv6 : Option Bytes)
      (routes : Option (Table ℕ)) (nb_routes gw : ℕ)
      → IndexIs k index
      → ipv4 < u32
      → nb_routes < 2 ^ 31
      → Attempts k (tap_setup_ip name ipv4 loopback ipv6 routes nb_routes gw) (
          (when_set ipv4 (ipv4_settings ipv4)
            ++ (when_set loopback (loopback_message index loopback) ++ ipv6_messages index ipv6))
          ++ routes_effects index routes nb_routes gw)
  unfolding tap_setup_ip
  tap_setup_ip-Attempts index name ipv4 loopback ipv6 routes nb_routes gw answers h small =
      bind-Attempts k _ _ [] _ (Attempts-Performs k _ _ (invoke-Performs _)) (λ s.
        bind-Attempts k _ _ _ _
          (setup_ip-Attempts k index s.ret (named_ifreq name) ipv4 loopback ipv6 answers h)
          (λ configured.
            found-Attempts k index s.ret configured "SIOGIFINDEX"
              (λ found. do
                setup_routes (get32 found ifr_ifru) routes nb_routes gw
                invoke (close s.ret)
                pure tt)
              (routes_effects index routes nb_routes gw) answers
              (λ found at. rw at (
                subst (Attempts k _) (append-nil (routes_effects index routes nb_routes gw)) (
                  bind-Attempts k _ _ _ [] (routes-Attempts index routes nb_routes gw small) (λ a.
                    Attempts-Performs k _ _ (
                      bind-Performs (invoke (close s.ret)) _ [] [] (invoke-Performs _)
                        (λ b. pure-Performs tt))))))))
