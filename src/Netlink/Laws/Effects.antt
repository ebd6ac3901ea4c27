-- ===== src/Netlink/Laws/Effects.antt =====
-- What a run asks of the kernel: the messages it sends and the settings it makes, with the rules.
use Prim.Native.String.{String}
use dpdk_cr.Common.{
  Bool, if◌then◌else◌, subst, ℕ, ℤ, List, [], ◌∷◌, ◌++◌, ◌≡◌, refl, sym, ap, ◌∙◌, Bool-cases, inl,
  inr, append_assoc, append-nil,
}
use dpdk_cr.Common.Bytes.{Bytes, get_bytes, get32, of_le}
use dpdk_cr.System.{
  Request, siogifindex, siocsifhwaddr, siocsifmtu, siocsifaddr, siocsifdstaddr, siocsifbrdaddr,
  siocsifnetmask, siocgifflags, siocsifflags, tunsetiff, Call, socket, getpid, bind, sendmsg, close,
  ioctl, open_file, select_read, read, perror, rte_eth_dev_count, rte_eth_dev_stop,
  rte_eth_dev_start, rte_kni_alloc, rte_kni_handle_request, Log, Kernel, Outcome, done, exits,
  spinning, Sys, pure, exit, Answer, invoke, ◌>>=◌, nonzero, ioctl_or_exit, perror_exit,
}
use dpdk_cr.Netlink.Uapi.{ifr_ifru, sa_data, sin_addr}

-- A message, or a setting: a request with the part of the `struct ifreq` that it is about.
pub data Effect : Type 0 where
  message : List ℕ → Effect
  setting : Request → ℕ → Effect

-- the six low bytes of the hardware address, an `int`, an `s_addr`
abbrev pub setting_of : Request → Bytes → List Effect
setting_of siocsifhwaddr ifr = setting siocsifhwaddr (of_le (get_bytes ifr sa_data 6)) ∷ []
setting_of siocsifmtu ifr = setting siocsifmtu (get32 ifr ifr_ifru) ∷ []
setting_of siocsifaddr ifr = setting siocsifaddr (get32 ifr sin_addr) ∷ []
setting_of siocsifdstaddr ifr = setting siocsifdstaddr (get32 ifr sin_addr) ∷ []
setting_of siocsifbrdaddr ifr = setting siocsifbrdaddr (get32 ifr sin_addr) ∷ []
setting_of siocsifnetmask ifr = setting siocsifnetmask (get32 ifr sin_addr) ∷ []
setting_of siogifindex ifr = []
setting_of siocgifflags ifr = []
setting_of siocsifflags ifr = []
setting_of tunsetiff ifr = []

abbrev pub effect_of : Call → List Effect
effect_of (sendmsg fd name bytes) = message bytes ∷ []
effect_of (ioctl fd request ifr) = setting_of request ifr
effect_of (socket domain type protocol) = []
effect_of getpid = []
effect_of (bind fd address) = []
effect_of (close fd) = []
effect_of (open_file path flags) = []
effect_of (select_read fd microseconds) = []
effect_of (read fd size) = []
effect_of (perror text) = []
effect_of rte_eth_dev_count = []
effect_of (rte_eth_dev_stop port_id) = []
effect_of (rte_eth_dev_start port_id) = []
effect_of (rte_kni_alloc pool conf port_id) = []
effect_of (rte_kni_handle_request kni) = []

-- the effects of a log, the first one first
abbrev pub effects : Log → List Effect
effects [] = []
effects (e ∷ es) = effects es ++ effect_of e.call

-- The run returns, and has asked for exactly these effects after those of before.
pub record Performs {A : Type 0} (m : Sys A) (es : List Effect) : Type 0 where
  pub performs :
      (k : Kernel) (log : Log)
      → (a : A) × (log' : Log) × (m k log ≡ done a log') × (effects log' ≡ effects log ++ es)

pub pure-Performs : {A : Type 0} (a : A) → Performs (pure a) []
pure-Performs a = record { performs = λ k log. (a, log, refl, sym (append-nil (effects log))) }

pub invoke-Performs : (c : Call) → Performs (invoke c) (effect_of c)
invoke-Performs c = record {
  performs = λ k log. (k log c, (record { call = c; answer = k log c }) ∷ log, refl, refl);
}

pub bind-Performs :
    {A B : Type 0} (m : Sys A) (f : A → Sys B) (xs ys : List Effect)
    → Performs m xs
    → ((a : A) → Performs (f a) ys)
    → Performs (m >>= f) (xs ++ ys)
bind-Performs m f xs ys first next = record {
  performs = λ k log.
      let (a, log', ran, so_far) = first.performs k log in
      let (b, log'', ran', later) = (next a).performs k log' in
      (
        b,
        log'',
        rw (ran, ◌>>=◌) ran',
        later ∙ ap (λ (l : List Effect). l ++ ys) so_far ∙ append_assoc (effects log) xs ys,
      );
}

-- The kernel answers every request for the index of the interface by this index, in the memory.
abbrev pub IndexIs : Kernel → ℕ → Type 0
IndexIs k index =
    (log : Log) (fd : ℤ) (ifr : Bytes)
    → get32 (k log (ioctl fd siogifindex ifr)).memory ifr_ifru ≡ index

-- Where the run returned it has asked for exactly these effects; where it exits, for the first ones
-- of them.
abbrev pub Attempted : {A : Type 0} → Log → List Effect → Outcome A → Type 0
Attempted log es (done a log') = effects log' ≡ effects log ++ es
Attempted log es (exits text log') =
    (xs : List Effect) × (ys : List Effect) × (es ≡ xs ++ ys) × (effects log' ≡ effects log ++ xs)
Attempted log es (spinning log') = ⊥

pub record Attempts {A : Type 0} (k : Kernel) (m : Sys A) (es : List Effect) : Type 0 where
  pub attempts : (log : Log) → Attempted log es (m k log)

pub Attempts-Performs :
    {A : Type 0} (k : Kernel) (m : Sys A) (es : List Effect) → Performs m es → Attempts k m es
Attempts-Performs k m es h = record {
  attempts = λ log. let (a, log', ran, asked) = h.performs k log in rw ran asked;
}

Attempted-later :
    {A : Type 0} (log log' : Log) (xs ys : List Effect) (o : Outcome A)
    → effects log' ≡ effects log ++ xs
    → Attempted log' ys o
    → Attempted log (xs ++ ys) o
Attempted-later log log' xs ys (done a last) so_far later =
    later ∙ ap (λ (l : List Effect). l ++ ys) so_far ∙ append_assoc (effects log) xs ys
Attempted-later log log' xs ys (exits text last) so_far (zs, ws, split, asked) = (
  xs ++ zs,
  ws,
  ap (λ (l : List Effect). xs ++ l) split ∙ sym (append_assoc xs zs ws),
  asked ∙ ap (λ (l : List Effect). l ++ zs) so_far ∙ append_assoc (effects log) xs zs,
)
Attempted-later log log' xs ys (spinning last) so_far later = later

module _ (k : Kernel) where
  Attempted-then :
      {A B : Type 0} (f : A → Sys B) (log : Log) (xs ys : List Effect) (o : Outcome A)
      → ((a : A) → Attempts k (f a) ys)
      → Attempted log xs o
      → Attempted log (xs ++ ys) (((λ k' log'. o) >>= f) k log)
  Attempted-then f log xs ys (done a log') next so_far =
      Attempted-later log log' xs ys (f a k log') so_far ((next a).attempts log')
  Attempted-then f log xs ys (exits text log') next (zs, ws, split, asked) =
      (zs, ws ++ ys, ap (λ (l : List Effect). l ++ ys) split ∙ append_assoc zs ws ys, asked)
  Attempted-then f log xs ys (spinning log') next stuck = stuck

  pub bind-Attempts :
      {A B : Type 0} (m : Sys A) (f : A → Sys B) (xs ys : List Effect)
      → Attempts k m xs
      → ((a : A) → Attempts k (f a) ys)
      → Attempts k (m >>= f) (xs ++ ys)
  bind-Attempts m f xs ys first next = record {
    attempts = λ log. Attempted-then f log xs ys (m k log) next (first.attempts log);
  }

  pub ioctl_or_exit-Attempts :
      (s : ℤ) (request : Request) (ifr : Bytes) (text : String)
      → Attempts k (ioctl_or_exit s request ifr text) (setting_of request ifr)
  unfolding ioctl_or_exit perror_exit
  ioctl_or_exit-Attempts s request ifr text = record { attempts = λ log. split log }
    where
      split :
          (log : Log)
          → Attempted log (setting_of request ifr) (ioctl_or_exit s request ifr text k log)
      split log = elim (Bool-cases (nonzero (k log (ioctl s request ifr)).ret)) [
        | inl bad ↦
            rw bad (setting_of request ifr, [], sym (append-nil (setting_of request ifr)), refl)
        | inr good ↦ rw good refl
      ]

  -- What follows the request for the index has its answer at hand.
  pub found-Attempts :
      {B : Type 0} (index : ℕ) (s : ℤ) (ifr : Bytes) (text : String) (f : Bytes → Sys B)
      (es : List Effect)
      → IndexIs k index
      → ((found : Bytes) → get32 found ifr_ifru ≡ index → Attempts k (f found) es)
      → Attempts k (ioctl_or_exit s siogifindex ifr text >>= f) es
  unfolding ioctl_or_exit perror_exit
  found-Attempts index s ifr text f es answers next = record { attempts = λ log. split log }
    where
      split : (log : Log) → Attempted log es ((ioctl_or_exit s siogifindex ifr text >>= f) k log)
      split log =
          let a : Answer = k log (ioctl s siogifindex ifr) in
          let later : Log = (record { call = ioctl s siogifindex ifr; answer = a }) ∷ log in
          elim (Bool-cases (nonzero a.ret)) [
            | inl bad ↦
                subst (Attempted log es)
                  (sym (
                    ap (λ (b : Bool). ((if b then exit text else pure a.memory) >>= f) k later)
                      bad))
                  ([], es, refl, refl)
            | inr good ↦
                subst (Attempted log es)
                  (sym (
                    ap (λ (b : Bool). ((if b then exit text else pure a.memory) >>= f) k later)
                      good))
                  (Attempted-later log later [] es (f a.memory k later) refl
                    ((next a.memory (answers log s ifr)).attempts later))
          ]
