-- ===== src/Client/Kernel.antt =====
-- The system calls of the client with the kernel's side behind them, for a client that runs as `euid`.
use reference_monitor.Base.{
  All, Bool, List, [], false, refl, subst, sym, true, ℕ, ◌-◌, ◌^◌, ◌∙◌, ◌≡◌, ◌≢◌,
}
use reference_monitor.Base.Int.{negsuc, pos, ℤ}
use reference_monitor.Blacklist.{AddEnv, RemoveEnv}
use reference_monitor.Client.Getpasswd.Line.{IsSized}
use reference_monitor.Client.Home.{Session, SysCalls}
use reference_monitor.Client.Home.Keeps.{IsForModule, Safe, Steady}
use reference_monitor.Client.Menu.{Turns, stay, turn}
use reference_monitor.Client.Menu.Keeps.{Turns-Steady}
use reference_monitor.Client.Modules.{Screen}
use reference_monitor.Monitor.{Monitor}
use reference_monitor.Password.{PasswordEnv, Sha256}
use reference_monitor.Probes.Table.{ProbeApi}
use reference_monitor.Run.{Cmd, IfDone, IfDone-mono, Run, done, fault}
use reference_monitor.Syscalls.{
  World, sys_add_to_blacklist, sys_get_blacklist_size, sys_get_rf_state, sys_remove_from_blacklist,
  sys_switch_rf_state,
}
use reference_monitor.Syscalls.Authority.{Refused, call-Refused}
use reference_monitor.Syscalls.Call.{Call, add, call, is_change, remove, switch}
use reference_monitor.Syscalls.Print.{PrintEnv, Printed, sys_print_blacklist}
use reference_monitor.Syscalls.Printing.{Reads, sys_print_blacklist-Reads}

-- What the kernel answers on a turn, which can depend on the bytes that the client hands over.
pub record KernelEnv : Type 0 where
  pub password : List ℕ → PasswordEnv
  pub added : List ℕ → AddEnv
  pub removed : List ℕ → RemoveEnv
  pub state_string : Bool
  pub printing : PrintEnv

-- The 32 bits of an `int`
bits : ℤ → ℕ
bits (pos n) = n
bits (negsuc n) = 2 ^ 32 - 1 - n

print_run : World → Run Monitor Printed → Run World (ℤ × List ℕ)
print_run w (done p m) = done (p.ret, p.user) (record w { rf = m })
print_run w (fault f) = fault f

print_on : ℕ → PrintEnv → ℤ → Cmd World (ℤ × List ℕ)
unfolding print_run bits
print_on fuel e n w = print_run w (sys_print_blacklist fuel e (bits n) w.rf)

unfoldable pub kernel_calls : ℕ → Sha256 → ProbeApi → (euid : ℕ) → KernelEnv → SysCalls World
unfolding print_on
kernel_calls fuel sha api euid e = record {
  switch_call = λ n psw. sys_switch_rf_state sha api n (e.password psw) euid e.state_string;
  get_call = sys_get_rf_state e.state_string;
  add_call = λ path psw. sys_add_to_blacklist fuel sha (e.password psw) euid (e.added path);
  remove_call =
      λ path psw. sys_remove_from_blacklist fuel sha (e.password psw) euid (e.removed path);
  size_call = sys_get_blacklist_size;
  print_call = print_on fuel e.printing;
}

-- Calls that the kernel answers in some way, to this caller.
pub data Answers (sha : Sha256) (api : ProbeApi) (euid : ℕ) : SysCalls World → Type 0 where
  answers : (fuel : ℕ) (e : KernelEnv) → Answers sha api euid (kernel_calls fuel sha api euid e)

module _ (sha : Sha256) (api : ProbeApi) (euid : ℕ) where
  Refused-IfDone : (w : World) (r : Run World ℤ) → Refused w r → IfDone (λ _ w'. w' ≡ w) r
  Refused-IfDone w (done r w') h = h.1
  Refused-IfDone w (fault f) h = tt

  print-IfDone :
      (w : World) (r : Run Monitor Printed) → Reads w.rf r → IfDone (λ _ w'. w' ≡ w) (print_run w r)
  unfolding print_run
  print-IfDone w (done p m) h = rw h refl
  print-IfDone w (fault f) h = tt

  state-IfDone : (text : Bool) (w : World) → IfDone (λ _ w'. w' ≡ w) (sys_get_rf_state text w)
  unfolding sys_get_rf_state
  state-IfDone true w = refl
  state-IfDone false w = refl

  from_here :
      {A : Type 0} (w w' : World) (r : Run World A)
      → w' ≡ w
      → IfDone (λ _ w''. w'' ≡ w') r
      → IfDone (λ _ w''. w'' ≡ w) r
  from_here w w' r h kept = IfDone-mono _ _ r kept (λ _ w'' h'. h' ∙ h)

  no_root :
      (fuel : ℕ) (c : Call) (w w' : World)
      → euid ≢ 0
      → is_change c ≡ true
      → w' ≡ w
      → IfDone (λ _ w''. w'' ≡ w) (call fuel sha api euid c w')
  no_root fuel c w w' ne ch h =
      from_here w w' (call fuel sha api euid c w') h (
        Refused-IfDone w' (call fuel sha api euid c w') (call-Refused fuel sha api euid w' c ne ch))

  pub Answers-Safe :
      (w : World) (k : SysCalls World) → euid ≢ 0 → Answers sha api euid k → Safe (λ w'. w' ≡ w) k
  unfolding kernel_calls print_on sys_get_blacklist_size call
  Answers-Safe w k ne (answers fuel e) = record {
    switch = λ n psw w' h. no_root fuel (switch n (e.password psw) e.state_string) w w' ne refl h;
    get = λ w' h. from_here w w' _ h (state-IfDone e.state_string w');
    add = λ path psw w' h. no_root fuel (add (e.password psw) (e.added path)) w w' ne refl h;
    remove =
        λ path psw w' h. no_root fuel (remove (e.password psw) (e.removed path)) w w' ne refl h;
    size = λ w' h. h;
    print = λ n w' h. from_here w w' (print_on fuel e.printing n w') h (
        print-IfDone w' (sys_print_blacklist fuel e.printing (bits n) w'.rf)
          (sys_print_blacklist-Reads fuel e.printing (bits n) w'.rf));
  }

  Turns-Safe :
      (w : World) (x x' : Screen) (s s' : Session World)
      → euid ≢ 0
      → Turns (Answers sha api euid) x s x' s'
      → Turns (Safe (λ w'. w' ≡ w)) x s x' s'
  Turns-Safe w x _ s _ ne stay = stay
  Turns-Safe w x x' s s' ne (turn k mi hi a run rest) =
      turn k mi hi (Answers-Safe w k ne a) run (Turns-Safe w _ x' _ s' ne rest)

  -- A client that does not run as root changes nothing: however many turns the user takes, whatever
  -- is typed, and whatever the kernel and the terminal answer on each turn, the monitor and the
  -- probes are as they were. `psw` has its 32 bytes and no command line was run at first.
  pub Turns-no_root :
      (x x' : Screen) (s s' : Session World)
      → euid ≢ 0
      → IsSized s.tty
      → s.commands ≡ []
      → Turns (Answers sha api euid) x s x' s'
      → s'.kernel ≡ s.kernel
  Turns-no_root x x' s s' ne sized none_yet t =
      let steady : Steady (λ w. w ≡ s.kernel) s = record {
        kernel = refl;
        sized = sized;
        commands = subst (λ cs. All IsForModule cs) (sym none_yet) tt;
      } in
      (Turns-Steady (λ w. w ≡ s.kernel) x x' s s' (Turns-Safe s.kernel x x' s s' ne t)
        steady).kernel
