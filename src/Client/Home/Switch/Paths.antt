-- ===== src/Client/Home/Switch/Paths.antt =====
-- The third and the fourth entry of the second screen, with the kernel behind it: from the keys of a
-- password to the list of protected paths.
use reference_monitor.Base.{
  Bool-cases, List, [], arith, false, if◌then◌else◌, inl, inr, length, ltb, refl, some, subst, suc,
  sym, true, zero, ℕ, ◌<◌, ◌≡◌, ◌≤◌,
}
use reference_monitor.Base.Int.{eperm, lt_pos, negsuc, pos, ℤ}
use reference_monitor.Blacklist.{Block}
use reference_monitor.Blacklist.Add.{Granted}
use reference_monitor.CString.{c_str}
use reference_monitor.Checks.{is_rf_rec}
use reference_monitor.Client.{get_rf_state, is_minus, reply_of}
use reference_monitor.Client.Calls.{add_to_blacklist, remove_from_blacklist, result_of}
use reference_monitor.Client.Getpasswd.{Tty}
use reference_monitor.Client.Getpasswd.Editor.{edit}
use reference_monitor.Client.Getpasswd.Line.{IsSized, NoNull, Works, typed}
use reference_monitor.Client.Home.{
  HomeInput, Session, choose, get_function_number, go_home, home_case, home_turn, is_plain_state,
  is_rec_state, on_kernel, with_kernel,
}
use reference_monitor.Blacklist.Keeps.{with_path}
use reference_monitor.Client.Home.Switch.{
  Entered, Hears, with_kernel-Returns, with_password-Returns,
}
use reference_monitor.Client.Kernel.{KernelEnv, kernel_calls}
use reference_monitor.Client.Modules.{Screen, home}
use reference_monitor.Monitor.{Monitor, null}
use reference_monitor.Monitor.Chain.{Cells, IsList}
use reference_monitor.Monitor.Edit.{erase_cell}
use reference_monitor.Monitor.Invariant.{Holds}
use reference_monitor.Password.{Sha256, hex}
use reference_monitor.Probes.Table.{ProbeApi}
use reference_monitor.Run.{Cmd, Returns, Returns-bind, Returns-mono, and_then, done}
use reference_monitor.Syscalls.{
  World, sys_add_to_blacklist, sys_get_rf_state, sys_remove_from_blacklist,
}
use reference_monitor.Syscalls.Grant.{sys_add_to_blacklist-Added, sys_remove_from_blacklist-Removed}

-- What an entry that changes the list leads to: the same screen, the list `ys`, the same state, the
-- keys behind the line.
pub record Listed (ys : Cells) (s : Session World) (x : Screen) (s' : Session World) : Type 0 where
  pub screen : x ≡ home
  pub list : IsList s'.kernel.rf ys
  pub state : s'.kernel.rf.state ≡ s.kernel.rf.state
  pub rest : s'.tty.input ≡ (edit 31 [] s.tty.input).1
  pub cooked : s'.tty.raw ≡ false

at_least_two : (z : ℤ) → lt_pos z 2 ≡ false → (k : ℕ) × (z ≡ pos (suc (suc k)))
at_least_two (pos zero) e = absurd (ground arith)
at_least_two (pos (suc zero)) e = absurd (ground arith)
at_least_two (pos (suc (suc k))) e = (k, refl)
at_least_two (negsuc n) e = absurd (cc)

rec_state : (m : Monitor) → is_rf_rec m ≡ pos 0 → (k : ℕ) × (m.state ≡ pos (suc (suc k)))
unfolding is_rf_rec
rec_state m e = elim (Bool-cases (lt_pos m.state 2)) [
  | inl low ↦ let never = subst (λ b. (if b then eperm else pos 0) ≡ pos 0) low e in absurd (cc)
  | inr high ↦ at_least_two m.state high
]

-- Between 1 and 5, and in a reconfiguration state, the number that is typed is taken.
choose_rec : (k n : ℕ) → 1 ≤ n → n ≤ 5 → choose (pos (suc (suc k))) (pos n) ≡ pos n
unfolding choose is_plain_state is_rec_state
choose_rec k n one five = ground arith

module _ (fuel : ℕ) (sha : Sha256) (e : KernelEnv) (i : HomeInput) (s : Session World) where
  -- In a reconfiguration state, when the kernel has memory for the text of the state.
  number_run :
      (n : ℕ)
      → i.number ≡ pos n
      → 1 ≤ n
      → n ≤ 5
      → is_rf_rec s.kernel.rf ≡ pos 0
      → e.state_string ≡ true
      → on_kernel (get_function_number (sys_get_rf_state e.state_string) i.number) s
        ≡ done (pos n) s
  unfolding on_kernel with_kernel get_function_number get_rf_state sys_get_rf_state reply_of
  number_run n typed_n one five rec text =
      let (k, st) = rec_state s.kernel.rf rec in
      rw (typed_n, text, st, choose_rec k n one five) refl

result_of-Returns :
    {S : Type 0} (Q : S → Type 0) (c : Cmd S ℤ) (w : S)
    → Returns (λ r w'. Q w') (c w)
    → Returns (λ r w'. Q w') (result_of c w)
unfolding result_of
result_of-Returns Q c w h = Returns-bind _ _ (c w) _ h λ r w' q.
    elim (Bool-cases (is_minus (reply_of r).ret)) [ inl bad ↦ rw bad q | inr good ↦ rw good q ]

module _ (fuel : ℕ) (sha : Sha256) (api : ProbeApi) (e : KernelEnv) (i : HomeInput)
    (s : Session World) (secret : List ℕ) (xs : Cells) where
  -- Behind the password, the call with its answer leaves the list `ys`.
  after_password :
      (ys : Cells) (call_it : List ℕ → Cmd World ℤ)
      → ((bytes : List ℕ)
          → c_str bytes ≡ some (typed 31 s.tty.input)
          → Returns
              (λ r w'. IsList w'.rf ys × (w'.rf.state ≡ s.kernel.rf.state))
              (call_it bytes s.kernel))
      → (bytes : List ℕ) (t : Tty) → Entered s.tty t bytes
      → Returns
          (Listed ys s)
          (and_then (on_kernel (result_of (call_it bytes)) (record s { tty = t })) go_home)
  unfolding on_kernel go_home
  after_password ys call_it runs bytes t y =
      Returns-bind _ (Listed ys s) (with_kernel (record s { tty = t }) _) go_home
        (with_kernel-Returns _ (record s { tty = t }) _
          (result_of-Returns (λ w'. IsList w'.rf ys × (w'.rf.state ≡ s.kernel.rf.state))
            (call_it bytes) s.kernel (runs bytes y.string)))
        (λ r s' (w, same, (list_so, state_so)). rw same (record {
          screen = refl;
          list = list_so;
          state = state_so;
          rest = y.rest;
          cooked = y.cooked;
        }))

  module _ (hears : Hears e) (kept : s.kernel.rf.password ≡ some (hex (sha.digest secret)))
      (right : sha.digest (typed 31 s.tty.input) ≡ sha.digest secret)
      (rec : is_rf_rec s.kernel.rf ≡ pos 0) (h : Holds s.kernel.rf xs)
      (text : e.state_string ≡ true) (short : length i.path ≤ 4095) (works : Works i.env)
      (sized : IsSized s.tty) (keys : NoNull s.tty.input)
      (some_key : 0 < length (typed 31 s.tty.input)) where
    -- In a reconfiguration state, a user at the second screen picks the third entry and types a
    -- path of at most 4095 bytes and a text that is not empty, on a terminal that works and
    -- without a key of value 0; `psw` has its 32 bytes. The text, edited by the delete keys and cut
    -- at 31 characters, has the digest that the monitor keeps, and the client runs as root. The
    -- monitor is well-formed, with fuel for its list; the kernel answers the password check, has
    -- memory for the text of the state, copies the path and gives a fresh node that happens to hold
    -- NULL. Then the turn comes back to the same screen, with the line's keys used up, the terminal
    -- as before, and the state as it was. The list has the path behind its last node, or is as it
    -- was if it had the path already.
    pub home_turn-Added :
        (b : Block)
        → i.number ≡ pos 3
        → Granted (e.added i.path) xs i.path b
        → b.stale ≡ null
        → length xs ≤ fuel
        → Returns
            (Listed (with_path i.path b.address xs) s)
            (home_turn (kernel_calls fuel sha api 0 e) i s)
    unfolding home_turn home_case kernel_calls add_to_blacklist remove_from_blacklist
    home_turn-Added b three g st lt =
        let fits : ltb 4095 (length i.path) ≡ false = ground (arith, short) in
        subst
          (λ r.
            Returns (Listed (with_path i.path b.address xs) s)
              (and_then r (home_case (kernel_calls fuel sha api 0 e) i)))
          (sym (number_run fuel sha e i s 3 three (omega arith) (omega arith) rec text))
          (rw fits (
            with_password-Returns (Listed (with_path i.path b.address xs) s) i.env _ s works sized
              keys some_key
              (after_password (with_path i.path b.address xs)
                (λ bytes. sys_add_to_blacklist fuel sha (e.password bytes) 0 (e.added i.path))
                (λ bytes str.
                  Returns-mono _ _
                    (sys_add_to_blacklist fuel sha (e.password bytes) 0 (e.added i.path) s.kernel)
                    (sys_add_to_blacklist-Added fuel sha s.kernel (e.password bytes)
                      (typed 31 s.tty.input) secret (e.added i.path) xs i.path b
                      (hears bytes (typed 31 s.tty.input) str) kept right rec h g st lt)
                    (λ r w' (ad, same). (ad.1, ad.4))))))

    -- In a reconfiguration state, a user at the second screen picks the fourth entry and types a
    -- path of at most 4095 bytes and a text that is not empty, on a terminal that works and
    -- without a key of value 0; `psw` has its 32 bytes. The text, edited by the delete keys and cut
    -- at 31 characters, has the digest that the monitor keeps, and the client runs as root. The
    -- monitor is well-formed, with fuel for its list; the kernel answers the password check, has
    -- memory for the text of the state and copies the path. Then the turn comes back to the same
    -- screen, with the line's keys used up, the terminal as before, and the state as it was. The
    -- list is without the first occurrence of the path, or as it was if it did not have the path.
    pub home_turn-Removed :
        i.number ≡ pos 4
        → (e.removed i.path).buffer ≡ true
        → (e.removed i.path).copy.left ≤ 4096
        → c_str (e.removed i.path).copy.bytes ≡ some i.path
        → length xs < fuel
        → Returns (Listed (erase_cell i.path xs) s) (home_turn (kernel_calls fuel sha api 0 e) i s)
    unfolding home_turn home_case kernel_calls add_to_blacklist remove_from_blacklist
    home_turn-Removed four buf few str lt =
        let fits : ltb 4095 (length i.path) ≡ false = ground (arith, short) in
        subst
          (λ r.
            Returns (Listed (erase_cell i.path xs) s)
              (and_then r (home_case (kernel_calls fuel sha api 0 e) i)))
          (sym (number_run fuel sha e i s 4 four (omega arith) (omega arith) rec text))
          (rw fits (
            with_password-Returns (Listed (erase_cell i.path xs) s) i.env _ s works sized keys
              some_key
              (after_password (erase_cell i.path xs)
                (λ bytes.
                  sys_remove_from_blacklist fuel sha (e.password bytes) 0 (e.removed i.path))
                (λ bytes held.
                  Returns-mono _ _
                    (sys_remove_from_blacklist fuel sha (e.password bytes) 0 (e.removed i.path)
                      s.kernel)
                    (sys_remove_from_blacklist-Removed fuel sha s.kernel (e.password bytes)
                      (typed 31 s.tty.input) secret (e.removed i.path) xs i.path
                      (hears bytes (typed 31 s.tty.input) held) kept right rec h buf few str lt)
                    (λ r w' (code, list_so, state_so, same). (list_so, state_so))))))
