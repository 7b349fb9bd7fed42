-- ===== src/Client/Calls/Keeps.antt =====
-- What the client's calls keep of the kernel's state.
use reference_monitor.Base.{List, Option, [], drop, length, none, some, ℕ, ◌&&◌, ◌++◌}
use reference_monitor.Base.Int.{gt_pos, lt_pos, pos, ℤ}
use reference_monitor.CString.{c_str}
use reference_monitor.Client.{change_state, get_rf_state, is_minus, reply_of}
use reference_monitor.Client.Calls.{print_blacklist, printed, result_of, shown}
use reference_monitor.Run.{Cmd, IfDone, IfDone-bind, IfDone-if, Run, and_then, pure}

module _ {S : Type 0} (K : S → Type 0) where
  -- A run that comes back ends in `K`.
  abbrev pub In : {A : Type 0} → Run S A → Type 0
  In r = IfDone (λ _ w. K w) r

  pub In-bind :
      {A B : Type 0} (r : Run S A) (k : A → Cmd S B)
      → In r
      → ((a : A) (w : S) → K w → In (k a w))
      → In (and_then r k)
  In-bind r k h next = IfDone-bind _ _ r k h next

  pub result_of-In : (c : Cmd S ℤ) (w : S) → In (c w) → In (result_of c w)
  unfolding result_of
  result_of-In c w h = In-bind (c w) _ h λ r w' h'.
      IfDone-if _ (is_minus (reply_of r).ret) (pure (pos 1)) (pure (reply_of r).ret) w' h' h'

  pub change_state-In :
      (c : ℤ → Cmd S ℤ) (n : ℤ) (w : S) → K w → In (c n w) → In (change_state c n w)
  unfolding change_state
  change_state-In c n w k h =
      IfDone-if _ (lt_pos n 0 && gt_pos n 3) (pure (pos 1)) _ w k
        (In-bind (c n w) _ h (λ r w' h'. h'))

  pub get_rf_state-In : (c : Cmd S ℤ) (w : S) → In (c w) → In (get_rf_state c w)
  unfolding get_rf_state
  get_rf_state-In c w h = In-bind (c w) _ h λ r w' h'.
      IfDone-if _ (is_minus (reply_of r).ret) (pure (pos 1)) (pure (reply_of r).ret) w' h' h'

  printed-In : (o : Option (List ℕ)) (w : S) → K w → In (printed o w)
  unfolding printed
  printed-In none w h = tt
  printed-In (some s) w h = h

  shown-In : (memory : Option (List ℕ)) (user : List ℕ) (w : S) → K w → In (shown memory user w)
  unfolding shown
  shown-In none user w h = tt
  shown-In (some held) user w h = printed-In (c_str (user ++ drop (length user) held)) w h

  pub print_blacklist-In :
      (size_call : Cmd S ℤ) (print_call : ℤ → Cmd S (ℤ × List ℕ)) (memory : Option (List ℕ)) (w : S)
      → K w
      → ((w : S) → K w → In (size_call w))
      → ((n : ℤ) (w : S) → K w → In (print_call n w))
      → In (print_blacklist size_call print_call memory w)
  unfolding print_blacklist
  print_blacklist-In size_call print_call memory w h sizes prints =
      In-bind (size_call w) _ (sizes w h) λ r w1 h1.
        IfDone-if _ (is_minus (reply_of r).ret) (pure []) _ w1 h1 (
          In-bind (print_call (reply_of r).ret w1) _ (prints (reply_of r).ret w1 h1) λ p w2 h2.
            IfDone-if _ (is_minus (reply_of p.0).ret) (pure []) (shown memory p.1) w2 h2
              (shown-In memory p.1 w2 h2))
