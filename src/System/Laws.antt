-- ===== src/System/Laws.antt =====
-- Runs that stop at the first request that fails: the postcondition and its rules.
use Prim.Native.String.{String}
use dpdk_cr.Common.{
  ℤ, [], ◌∷◌, ◌++◌, ◌≡◌, refl, sym, subst, ap, ◌∙◌, Bool, true, false, if◌then◌else◌, append_assoc,
  Bool-cases, inl, inr,
}
use dpdk_cr.Common.Bytes.{Bytes}
use dpdk_cr.System.{
  Request, siogifindex, siocsifhwaddr, siocsifmtu, siocsifaddr, siocsifdstaddr, siocsifbrdaddr,
  siocsifnetmask, siocgifflags, siocsifflags, tunsetiff, Call, socket, getpid, bind, sendmsg, close,
  ioctl, open_file, select_read, read, perror, rte_eth_dev_count, rte_eth_dev_stop,
  rte_eth_dev_start, rte_kni_alloc, rte_kni_handle_request, Answer, Event, Log, Outcome, done,
  exits, spinning, Sys, ◌>>=◌, pure, invoke, nonzero, ioctl_or_exit, perror_exit,
}

-- the name by which the source reports a request
abbrev pub request_name : Request → String
request_name siogifindex = "SIOGIFINDEX"
request_name siocsifhwaddr = "SIOCSIFHWADDR"
request_name siocsifmtu = "SIOCSIFMTU"
request_name siocsifaddr = "SIOCSIFADDR"
request_name siocsifdstaddr = "SIOCSIFDSTADDR"
request_name siocsifbrdaddr = "SIOCSIFBRDADDR"
request_name siocsifnetmask = "SIOCSIFNETMASK"
request_name siocgifflags = "SIOCGIFFLAGS"
request_name siocsifflags = "SIOCSIFFLAGS"
request_name tunsetiff = "TUNSETIFF"

-- Did an ioctl answer other than 0? No other call counts.
abbrev pub failed : Call → Answer → Bool
failed (ioctl fd request ifr) a = nonzero a.ret
failed (socket domain type protocol) a = false
failed getpid a = false
failed (bind fd address) a = false
failed (sendmsg fd name message) a = false
failed (close fd) a = false
failed (open_file path flags) a = false
failed (select_read fd microseconds) a = false
failed (read fd size) a = false
failed (perror message) a = false
failed rte_eth_dev_count a = false
failed (rte_eth_dev_stop port_id) a = false
failed (rte_eth_dev_start port_id) a = false
failed (rte_kni_alloc pool conf port_id) a = false
failed (rte_kni_handle_request kni) a = false

abbrev pub NoneFailed : Log → Type 0
NoneFailed [] = Unit {0}
NoneFailed (e ∷ es) = (failed e.call e.answer ≡ false) × NoneFailed es

-- The event is an ioctl that failed, and the message is its request's name.
abbrev pub Reports : String → Event → Type 0
Reports message e =
    (fd : ℤ) × (request : Request) × (ifr : Bytes) × (e.call ≡ ioctl fd request ifr)
    × (nonzero e.answer.ret ≡ true)
    × (message ≡ request_name request)

-- How a run that began at `log` has ended: it returned and no ioctl failed, or its last call is the
-- only ioctl that failed and the exit message names it.
abbrev pub Stopped : {A : Type 0} → Log → Outcome A → Type 0
Stopped log (done a log') = (es : Log) × (log' ≡ es ++ log) × NoneFailed es
Stopped log (exits message log') =
    (e : Event) × (es : Log) × (log' ≡ e ∷ es ++ log) × NoneFailed es × Reports message e
Stopped log (spinning log') = ⊥

pub record FailStop {A : Type 0} (m : Sys A) : Type 0 where
  pub stops : (k : Log → Call → Answer) (log : Log) → Stopped log (m k log)

NoneFailed-append : (es fs : Log) → NoneFailed es → NoneFailed fs → NoneFailed (es ++ fs)
NoneFailed-append [] fs h g = g
NoneFailed-append (e ∷ es) fs h g = (h.0, NoneFailed-append es fs h.1 g)

pub pure-FailStop : {A : Type 0} (a : A) → FailStop (pure a)
pure-FailStop a = record { stops = λ k log. ([], refl, tt) }

-- A later part's end, seen from where the whole began.
Stopped-later :
    {A : Type 0} (log es : Log) (o : Outcome A)
    → NoneFailed es
    → Stopped (es ++ log) o
    → Stopped log o
Stopped-later log es (done a log') good (fs, at, rest) =
    (fs ++ es, at ∙ sym (append_assoc fs es log), NoneFailed-append fs es rest good)
Stopped-later log es (exits message log') good (e, fs, at, rest, reports) = (
  e,
  fs ++ es,
  at ∙ ap (λ (l : Log). e ∷ l) (sym (append_assoc fs es log)),
  NoneFailed-append fs es rest good,
  reports,
)
Stopped-later log es (spinning log') good stopped = stopped

-- A run goes on where the first part returned, and else ends as that part did.
Stopped-then :
    {A B : Type 0} (f : A → Sys B) (k : Log → Call → Answer) (log : Log) (o : Outcome A)
    → ((a : A) → FailStop (f a))
    → Stopped log o
    → Stopped log (((λ k' log'. o) >>= f) k log)
Stopped-then f k log (done a log') next (es, at, good) =
    Stopped-later log es (f a k log') good
      (subst (λ l. Stopped l (f a k log')) at ((next a).stops k log'))
Stopped-then f k log (exits message log') next stopped = stopped
Stopped-then f k log (spinning log') next stopped = stopped

pub bind-FailStop :
    {A B : Type 0} (m : Sys A) (f : A → Sys B)
    → FailStop m
    → ((a : A) → FailStop (f a))
    → FailStop (m >>= f)
bind-FailStop m f first next = record {
  stops = λ k log. Stopped-then f k log (m k log) next (first.stops k log);
}

-- a call that is no ioctl
pub invoke-FailStop : (c : Call) → ((a : Answer) → failed c a ≡ false) → FailStop (invoke c)
invoke-FailStop c harmless = record {
  stops = λ k log. ((record { call = c; answer = k log c }) ∷ [], refl, (harmless (k log c), tt));
}

pub if-FailStop :
    {A : Type 0} (b : Bool) (m n : Sys A) → FailStop m → FailStop n → FailStop (if b then m else n)
if-FailStop true m n hm hn = hm
if-FailStop false m n hm hn = hn

pub ioctl_or_exit-FailStop :
    (s : ℤ) (request : Request) (ifr : Bytes) (message : String)
    → message ≡ request_name request
    → FailStop (ioctl_or_exit s request ifr message)
unfolding ioctl_or_exit perror_exit
ioctl_or_exit-FailStop s request ifr message named = record { stops = λ k log. split k log }
  where
    split :
        (k : Log → Call → Answer) (log : Log)
        → Stopped log (ioctl_or_exit s request ifr message k log)
    split k log =
        let e : Event = record {
          call = ioctl s request ifr;
          answer = k log (ioctl s request ifr);
        } in
        elim (Bool-cases (nonzero (k log (ioctl s request ifr)).ret)) [
          | inl bad ↦ rw bad (e, [], refl, tt, (s, request, ifr, refl, bad, named))
          | inr good ↦ rw good (e ∷ [], refl, (good, tt))
        ]

pub ruleset stop_rules =
    (pure-FailStop, bind-FailStop, invoke-FailStop, if-FailStop, ioctl_or_exit-FailStop)

-- A run that returns hands this value back.
abbrev pub Hands : {A : Type 0} → A → Outcome A → Type 0
Hands v (done a log') = a ≡ v
Hands v (exits message log') = Unit {0}
Hands v (spinning log') = Unit {0}

pub record Returns {A : Type 0} (v : A) (m : Sys A) : Type 0 where
  pub returns : (k : Log → Call → Answer) (log : Log) → Hands v (m k log)

pub pure-Returns : {A : Type 0} (v : A) → Returns v (pure v)
pure-Returns v = record { returns = λ k log. refl }

Hands-then :
    {A B : Type 0} (v : B) (f : A → Sys B) (k : Log → Call → Answer) (o : Outcome A)
    → ((a : A) → Returns v (f a))
    → (log : Log) → Hands v (((λ k' log'. o) >>= f) k log)
Hands-then v f k (done a log') next log = (next a).returns k log'
Hands-then v f k (exits message log') next log = tt
Hands-then v f k (spinning log') next log = tt

-- Only the last part decides.
pub bind-Returns :
    {A B : Type 0} (v : B) (m : Sys A) (f : A → Sys B)
    → ((a : A) → Returns v (f a))
    → Returns v (m >>= f)
bind-Returns v m f next = record { returns = λ k log. Hands-then v f k (m k log) next log }
