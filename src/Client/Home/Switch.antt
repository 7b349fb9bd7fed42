-- ===== src/Client/Home/Switch.antt =====
-- The first entry of the second screen, with the kernel behind it: from the keys of a password to the
-- state of the monitor.
pub mod Paths
use reference_monitor.Base.{
  Bool, Bool-cases, List, [], arith, false, if◌then◌else◌, inl, inr, length, refl, some, subst, sym,
  true, ℕ, ◌<◌, ◌==◌, ◌||◌, ◌≡◌,
}
use reference_monitor.Base.Int.{eq_pos, gt_pos, lt_pos, pos, ℤ}
use reference_monitor.CString.{c_str}
use reference_monitor.Checks.{rf_state_check}
use reference_monitor.Client.{change_state, get_rf_state, is_minus, reply_of}
use reference_monitor.Client.Answers.{
  Standing, change_state-Standing, not_root, root, wrong_password_given,
}
use reference_monitor.Client.Getpasswd.{Tty, TtyEnv, getpasswd, max_pass_len}
use reference_monitor.Client.Getpasswd.Editor.{edit}
use reference_monitor.Client.Getpasswd.Line.{IsSized, NoNull, Typed, Works, getpasswd-Typed, typed}
use reference_monitor.Client.Home.{
  HomeInput, Session, after_switch, choose, get_function_number, get_psw, home_case, home_turn,
  on_kernel, on_tty, psw_of, switch_turn, with_kernel, with_password, with_tty,
}
use reference_monitor.Client.Kernel.{KernelEnv, kernel_calls}
use reference_monitor.Client.Modules.{Screen, home}
use reference_monitor.Password.{Sha256, hex}
use reference_monitor.Password.Check.{Answered}
use reference_monitor.Probes.Table.{Probe, ProbeApi}
use reference_monitor.Run.{Cmd, Returns, Returns-bind, Run, and_then, done, fault}
use reference_monitor.Syscalls.{World, sys_get_rf_state, sys_switch_rf_state}

-- The text that is typed is the string in the buffer, the keys behind the line are left, and the
-- terminal is as before.
pub record Entered (t t' : Tty) (bytes : List ℕ) : Type 0 where
  pub buffer : t'.buffer ≡ some bytes
  pub string : c_str bytes ≡ some (typed 31 t.input)
  pub rest : t'.input ≡ (edit 31 [] t.input).1
  pub cooked : t'.raw ≡ false

module _ {S : Type 0} (Q : Screen → Session S → Type 0) where
  with_tty-Returns :
      (P : ℤ → Tty → Type 0) (s : Session S) (r : Run Tty ℤ)
      → Returns P r
      → Returns (λ n s'. (t : Tty) × (s' ≡ record s { tty = t }) × P n t) (with_tty s r)
  unfolding with_tty
  with_tty-Returns P s (done n t) h = (t, refl, h)
  with_tty-Returns P s (fault f) h = elim h [ ]

  -- Behind a text that is not empty, the rest of the turn runs with its bytes.
  with_password-Returns :
      (e : TtyEnv) (next : List ℕ → Cmd (Session S) Screen) (s : Session S)
      → Works e
      → IsSized s.tty
      → NoNull s.tty.input
      → 0 < length (typed 31 s.tty.input)
      → ((bytes : List ℕ) (t : Tty)
          → Entered s.tty t bytes
          → Returns Q (next bytes (record s { tty = t })))
      → Returns Q (with_password e next s)
  unfolding with_password on_tty get_psw psw_of
  with_password-Returns e next s works (b, held, len) keys some_key step =
      Returns-bind _ Q (with_tty s (getpasswd e true max_pass_len true s.tty)) _
        (with_tty-Returns (Typed max_pass_len s.tty) s (getpasswd e true max_pass_len true s.tty)
          (getpasswd-Typed e max_pass_len s.tty b works held len (omega arith) (omega arith) keys))
        λ nchr s' (t, same, y).
          let some_count : (length (typed 31 s.tty.input) == 0) ≡ false = ground arith in
          rw (same, y.count, some_count, y.buffer)
            (step y.bytes (record t { buffer = some y.bytes })
              (record { buffer = refl; string = y.string; rest = y.input; cooked = y.cooked }))

-- The kernel copies the password and computes its digest; it answers for each string that the client
-- hands over.
abbrev pub Hears : KernelEnv → Type 0
Hears e = (psw s : List ℕ) → c_str psw ≡ some s → Answered (e.password psw) s

with_kernel-Returns :
    {S : Type 0} {A : Type 0} (P : A → S → Type 0) (s : Session S) (r : Run S A)
    → Returns P r
    → Returns (λ a s'. (w : S) × (s' ≡ record s { kernel = w }) × P a w) (with_kernel s r)
unfolding with_kernel
with_kernel-Returns P s (done a w) h = (w, refl, h)
with_kernel-Returns P s (fault f) h = elim h [ ]

-- None of the three answers ends the program.
after_switch-Standing :
    (sha : Sha256) (t secret : List ℕ) (euid : ℕ) (text : Bool) (v : ℤ) (s : Session World)
    → Standing sha t secret euid text v
    → after_switch v s ≡ done home s
unfolding after_switch
after_switch-Standing sha t secret euid text v s (wrong_password_given ne) = refl
after_switch-Standing sha t secret euid text v s (not_root e ne) = refl
after_switch-Standing sha t secret euid text v s (root e zero_so has_text) = refl

-- What the first entry of the screen leads to.
pub record Switched (n : ℕ) (v : ℤ) (s : Session World) (x : Screen) (s' : Session World)
    : Type 0 where
  pub screen : x ≡ home
  pub state : s'.kernel.rf.state ≡ (if eq_pos v 0 then pos n else s.kernel.rf.state)
  pub rest : s'.tty.input ≡ (edit 31 [] s.tty.input).1
  pub cooked : s'.tty.raw ≡ false

module _ (fuel : ℕ) (sha : Sha256) (api : ProbeApi) (euid : ℕ) (e : KernelEnv) (i : HomeInput)
    (s : Session World) (secret : List ℕ) where
  number_run :
      i.number ≡ pos 1
      → on_kernel (get_function_number (sys_get_rf_state e.state_string) i.number) s
        ≡ done (pos 1) s
  unfolding on_kernel with_kernel get_function_number get_rf_state sys_get_rf_state choose reply_of
  number_run one = elim (Bool-cases e.state_string) [
    | inl text ↦ elim (Bool-cases (is_minus (reply_of s.kernel.rf.state).ret)) [
      | inl err ↦ rw (one, text, err) refl
      | inr ok ↦ rw (one, text, ok) refl
    ]
    | inr text ↦ rw (one, text) refl
  ]

  module _ (n : ℕ) (v : ℤ) (ps : List Probe) (hears : Hears e)
      (kept : s.kernel.rf.password ≡ some (hex (sha.digest secret)))
      (ok : rf_state_check (pos n) ≡ pos 0) (un : s.kernel.rf.locked ≡ false)
      (pr : s.kernel.probes ≡ some ps)
      (stands : Standing sha (typed 31 s.tty.input) secret euid e.state_string v) where
    Entered-Switched :
        (bytes : List ℕ) (t : Tty)
        → Entered s.tty t bytes
        → Returns (Switched n v s) (
            and_then
              (on_kernel
                (change_state
                  (λ m. sys_switch_rf_state sha api m (e.password bytes) euid e.state_string)
                  (pos n))
                (record s { tty = t }))
              after_switch)
    unfolding on_kernel
    Entered-Switched bytes t y =
        Returns-bind _ (Switched n v s) (with_kernel (record s { tty = t }) _) after_switch
          (with_kernel-Returns _ (record s { tty = t }) _
            (change_state-Standing fuel sha api euid s.kernel (e.password bytes)
              (typed 31 s.tty.input) secret n e.state_string ps v
              (hears bytes (typed 31 s.tty.input) y.string) kept ok un pr stands))
          λ r s' (w, same, (r_so, state_so)).
            rw
              (
                same,
                r_so,
                after_switch-Standing sha (typed 31 s.tty.input) secret euid e.state_string v
                    (record s { tty = t; kernel = w }) stands,
              )
              (record { screen = refl; state = state_so; rest = y.rest; cooked = y.cooked })

    -- The user picks the first entry of the second screen, one of the four states, and types a
    -- text that is not empty, on a terminal that works and without a key of value 0; `psw` has its
    -- 32 bytes. The kernel answers the password check, the monitor keeps the password's digest,
    -- its lock is free and the probes are set up. Then the turn comes back to the same screen,
    -- with the line's keys used up and the terminal as before. The monitor is in the state that
    -- was picked if the text, edited by the delete keys and cut at 31 characters, has that digest,
    -- the client runs as root and the kernel has memory for its text; if the digest or the user is
    -- wrong, it is in the state in which it was.
    pub home_turn-Switched :
        i.number ≡ pos 1
        → i.state ≡ pos n
        → Works i.env
        → IsSized s.tty
        → NoNull s.tty.input
        → 0 < length (typed 31 s.tty.input)
        → Returns (Switched n v s) (home_turn (kernel_calls fuel sha api euid e) i s)
    unfolding home_turn home_case switch_turn rf_state_check kernel_calls
    home_turn-Switched one state_so works sized keys some_key =
        let in_range : (lt_pos (pos n) 0 || gt_pos (pos n) 3) ≡ false = ground (arith, ok) in
        subst
          (λ r.
            Returns (Switched n v s) (and_then r (home_case (kernel_calls fuel sha api euid e) i)))
          (sym (number_run one))
          (rw (state_so, in_range)
            (with_password-Returns (Switched n v s) i.env _ s works sized keys some_key
              Entered-Switched))
