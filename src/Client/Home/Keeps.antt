-- ===== src/Client/Home/Keeps.antt =====
-- What the client keeps from turn to turn.
use reference_monitor.Base.{
  All, Bool, List, Option, if◌then◌else◌, length, ltb, none, some, true, ℕ, ◌||◌, ◌≤◌,
}
use reference_monitor.Base.Int.{eq_pos, gt_pos, lt_pos, ℤ}
use reference_monitor.Client.{change_state, get_rf_state, is_minus}
use reference_monitor.Client.Calls.{
  add_to_blacklist, print_blacklist, remove_from_blacklist, result_of,
}
use reference_monitor.Client.Calls.Keeps.{
  In, change_state-In, get_rf_state-In, In-bind, print_blacklist-In, result_of-In,
}
use reference_monitor.Client.Getpasswd.{Tty, TtyEnv, getpasswd, max_pass_len}
use reference_monitor.Client.Getpasswd.Line.{IsSized, getpasswd-IsSized}
use reference_monitor.Client.Home.{
  HomeInput, Session, SysCalls, after_switch, get_function_number, get_psw, go_home, home_case,
  home_turn, on_kernel, on_tty, psw_of, switch_turn, with_kernel, with_password, with_path,
  with_tty,
}
use reference_monitor.Client.Modules.{Command, Screen, home, make, modules, rmmod, stopped}
use reference_monitor.Run.{
  Cmd, IfDone, IfDone-bind, IfDone-if, Returns, Run, and_then, done, fail, fault, overflow, pure,
  ◌>>=◌,
}

-- A command line is for one of the three modules.
abbrev pub IsForModule : Command → Type 0
IsForModule (make n) = (1 ≤ n) × (n ≤ 3)
IsForModule (rmmod n) = (1 ≤ n) × (n ≤ 3)

-- None of the calls leads out of `K`.
pub record Safe {S : Type 0} (K : S → Type 0) (k : SysCalls S) : Type 0 where
  pub switch : (n : ℤ) (psw : List ℕ) (w : S) → K w → IfDone (λ r w'. K w') (k.switch_call n psw w)
  pub get : (w : S) → K w → IfDone (λ r w'. K w') (k.get_call w)
  pub add : (path psw : List ℕ) (w : S) → K w → IfDone (λ r w'. K w') (k.add_call path psw w)
  pub remove : (path psw : List ℕ) (w : S) → K w → IfDone (λ r w'. K w') (k.remove_call path psw w)
  pub size : (w : S) → K w → IfDone (λ r w'. K w') (k.size_call w)
  pub print : (n : ℤ) (w : S) → K w → IfDone (λ r w'. K w') (k.print_call n w)

pub record Steady {S : Type 0} (K : S → Type 0) (s : Session S) : Type 0 where
  pub kernel : K s.kernel
  pub sized : IsSized s.tty
  pub commands : All IsForModule s.commands

module _ {S : Type 0} (K : S → Type 0) where
  -- The session is steady, whatever the value.
  abbrev After : {A : Type 0} → Run (Session S) A → Type 0
  After r = IfDone (λ _ s. Steady K s) r

  After-bind :
      {A B : Type 0} (r : Run (Session S) A) (k : A → Cmd (Session S) B)
      → After r
      → ((a : A) (s : Session S) → Steady K s → After (k a s))
      → After (and_then r k)
  After-bind r k h next = IfDone-bind _ _ r k h next

  After-if :
      {A : Type 0} (b : Bool) (c d : Cmd (Session S) A) (s : Session S)
      → After (c s)
      → After (d s)
      → After ((if b then c else d) s)
  After-if b c d s h h' = IfDone-if _ b c d s h h'

  with_kernel-Steady :
      {A : Type 0} (s : Session S) (r : Run S A) → Steady K s → In K r → After (with_kernel s r)
  unfolding with_kernel
  with_kernel-Steady s (done a w) h kept = record {
    kernel = kept;
    sized = h.sized;
    commands = h.commands;
  }
  with_kernel-Steady s (fault f) h kept = tt

  with_tty-Steady :
      {A : Type 0} (s : Session S) (r : Run Tty A)
      → Steady K s
      → Returns (λ _ t. IsSized t) r
      → After (with_tty s r)
  unfolding with_tty
  with_tty-Steady s (done a t) h sized = record {
    kernel = h.kernel;
    sized = sized;
    commands = h.commands;
  }
  with_tty-Steady s (fault f) h sized = elim sized [ ]

  on_kernel-Steady :
      {A : Type 0} (c : Cmd S A) (s : Session S)
      → Steady K s
      → In K (c s.kernel)
      → After (on_kernel c s)
  unfolding on_kernel
  on_kernel-Steady c s h kept = with_kernel-Steady s (c s.kernel) h kept

  psw_of-Steady : (o : Option (List ℕ)) (s : Session S) → Steady K s → After (psw_of o s)
  unfolding psw_of
  psw_of-Steady none s h = tt
  psw_of-Steady (some b) s h = h

  get_psw-Steady : (s : Session S) → Steady K s → After (get_psw s)
  unfolding get_psw
  get_psw-Steady s h = psw_of-Steady s.tty.buffer s h

  with_password-Steady :
      (e : TtyEnv) (next : List ℕ → Cmd (Session S) Screen) (s : Session S)
      → Steady K s
      → ((psw : List ℕ) (s' : Session S) → Steady K s' → After (next psw s'))
      → After (with_password e next s)
  unfolding with_password on_tty
  with_password-Steady e next s h step =
      let (b, held, len) = h.sized in
      After-bind (on_tty (getpasswd e true max_pass_len true) s) _
        (with_tty-Steady s (getpasswd e true max_pass_len true s.tty) h
          (getpasswd-IsSized e s.tty b held len))
        λ nchr s' h'.
          After-if (eq_pos nchr 0) (pure home) _ s' h'
            (After-bind (get_psw s') _ (get_psw-Steady s' h') step)

  module _ (k : SysCalls S) (safe : Safe K k) (i : HomeInput) where
    kernel_home :
        {A : Type 0} (c : Cmd S A) (s : Session S)
        → Steady K s
        → In K (c s.kernel)
        → After ((on_kernel c >>= go_home) s)
    unfolding go_home
    kernel_home c s h kept =
        After-bind (on_kernel c s) _ (on_kernel-Steady c s h kept) (λ _ s' h'. h')

    switch_turn-Steady : (s : Session S) → Steady K s → After (switch_turn k i s)
    unfolding switch_turn after_switch
    switch_turn-Steady s h = After-if (lt_pos i.state 0 || gt_pos i.state 3) (pure home) _ s h (
        with_password-Steady i.env _ s h λ psw s1 h1.
          After-bind (on_kernel (change_state (λ n. k.switch_call n psw) i.state) s1) _
            (on_kernel-Steady (change_state (λ n. k.switch_call n psw) i.state) s1 h1 (
              change_state-In K (λ n. k.switch_call n psw) i.state s1.kernel h1.kernel
                (safe.switch i.state psw s1.kernel h1.kernel)))
            λ ret s2 h2. After-if (eq_pos ret 0) (pure home) _ s2 h2 (
              After-if (eq_pos ret 7777 || eq_pos ret 8888) (pure home) (pure (stopped 1)) s2 h2
                h2))

    with_path-Steady :
        (next : Cmd (Session S) Screen) (s : Session S)
        → After (next s)
        → After (with_path i.path next s)
    unfolding with_path
    with_path-Steady next s h = After-if (ltb 4095 (length i.path)) (fail overflow) next s tt h

    home_case-Steady : (number : ℤ) (s : Session S) → Steady K s → After (home_case k i number s)
    unfolding home_case add_to_blacklist remove_from_blacklist
    home_case-Steady number s h =
        let added =
          with_path-Steady
            (with_password i.env (λ psw. on_kernel (result_of (k.add_call i.path psw)) >>= go_home))
            s
            (with_password-Steady i.env _ s h λ psw s1 h1.
              kernel_home (result_of (k.add_call i.path psw)) s1 h1 (
                result_of-In K (k.add_call i.path psw) s1.kernel
                  (safe.add i.path psw s1.kernel h1.kernel))) in
        let removed =
          with_path-Steady
            (with_password i.env
              (λ psw. on_kernel (result_of (k.remove_call i.path psw)) >>= go_home))
            s
            (with_password-Steady i.env _ s h λ psw s1 h1.
              kernel_home (result_of (k.remove_call i.path psw)) s1 h1 (
                result_of-In K (k.remove_call i.path psw) s1.kernel
                  (safe.remove i.path psw s1.kernel h1.kernel))) in
        After-if (is_minus number) (pure home) _ s h (
          After-if (eq_pos number 1) (switch_turn k i) _ s (switch_turn-Steady s h) (
            After-if (eq_pos number 2) _ _ s
              (kernel_home (get_rf_state k.get_call) s h
                (get_rf_state-In K k.get_call s.kernel (safe.get s.kernel h.kernel)))
              (After-if (eq_pos number 3) _ _ s added (
                After-if (eq_pos number 4) _ _ s removed (
                  After-if (eq_pos number 5) _ _ s
                    (kernel_home (print_blacklist k.size_call k.print_call i.memory) s h (
                      print_blacklist-In K k.size_call k.print_call i.memory s.kernel h.kernel
                        (safe.size) (safe.print)))
                    (After-if (eq_pos number 9999) (pure modules) (pure home) s h h))))))

    pub home_turn-Steady : (s : Session S) → Steady K s → After (home_turn k i s)
    unfolding home_turn get_function_number
    home_turn-Steady s h =
        After-bind (on_kernel (get_function_number k.get_call i.number) s) _
          (on_kernel-Steady (get_function_number k.get_call i.number) s h (
            In-bind K (get_rf_state k.get_call s.kernel) _
              (get_rf_state-In K k.get_call s.kernel (safe.get s.kernel h.kernel)) (λ _ w h'. h')))
          (λ number s' h'. home_case-Steady number s' h')
