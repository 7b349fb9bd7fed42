-- ===== src/Client/Modules/Screens.antt =====
-- Where a turn on the first screen leads, and when it does not come back.
use reference_monitor.Base.{
  Bool-cases, List, Option, Option-cases, arith, codes, false, if◌then◌else◌, inl, inr, length, ltb,
  ltb→lt, none, refl, some, suc, true, zero, ℕ, ◌&&◌, ◌<◌, ◌||◌, ◌≡◌, ◌≤◌, ◌⊎◌,
}
use reference_monitor.Base.Int.{gt_pos, lt_pos, negsuc, pos, ℤ}
use reference_monitor.CString.{c_str, eq_of_str_eq, str_eq}
use reference_monitor.Client.Modules.{
  Command, Loaded, ModInfo, ModulesInput, Screen, all_loaded, by_number, carry_out,
  display_module_info, home, interpret, is_install, is_remove, make, mod_info, modules,
  modules_next, modules_turn, read_line, read_number, rmmod, stale_line, stopped,
}
use reference_monitor.Client.Text.{strtok, strtol_int}
use reference_monitor.Run.{Cmd, Run, and_then, done, fail, fault, null_deref, pure}

-- What a turn on the first screen can lead to.
pub data Outcome (l : Loaded) : Option Command × Screen → Type 0 where
  again : Outcome l (none, modules)
  installed : (n : ℕ) → 1 ≤ n → n ≤ 3 → Outcome l (some (make n), modules)
  removed : (n : ℕ) → 1 ≤ n → n ≤ 3 → Outcome l (some (rmmod n), modules)
  went_home : all_loaded l ≡ true → Outcome l (none, home)
  left : Outcome l (none, stopped 0)

-- The lines for which a turn may not come back: no line at all, one that is longer than the buffer,
-- a blank one, and `install` or `remove` with nothing behind it.
pub data BadLine (i : ModulesInput) : Type 0 where
  no_line : i.line ≡ none → BadLine i
  too_long : (s : List ℕ) → i.line ≡ some s → 255 < length s → BadLine i
  blank : (s : List ℕ) → i.line ≡ some s → strtok s ≡ none → BadLine i
  no_number :
      (s command rest : List ℕ)
      → i.line ≡ some s
      → strtok s ≡ some (command, rest)
      → (command ≡ codes "install") ⊎ (command ≡ codes "remove")
      → strtok rest ≡ none
      → BadLine i

carries_install :
    (command : List ℕ) (n : ℤ)
    → command ≡ codes "install"
    → carry_out (mod_info command n) ≡ by_number n make
unfolding carry_out mod_info is_install str_eq
carries_install command n e = rw e refl

carries_remove :
    (command : List ℕ) (n : ℤ)
    → command ≡ codes "remove"
    → carry_out (mod_info command n) ≡ by_number n rmmod
unfolding carry_out mod_info is_install is_remove str_eq
carries_remove command n e = rw e refl

module _ {S : Type 0} (i : ModulesInput) (st : S) where
  -- A turn that comes back leads to one of the outcomes and leaves the state alone, and one that does
  -- not was given a bad line.
  abbrev pub Turned : Run S (Option Command × Screen) → Type 0
  Turned (done o s) = Outcome i.loaded o × (s ≡ st)
  Turned (fault f) = BadLine i

  -- What is left of the display once the number is read
  abbrev numbered : List ℕ → ℤ → Cmd S (ℤ × ModInfo)
  numbered command n =
      if lt_pos n 1 || gt_pos n 3
      then pure (negsuc 0, mod_info command n)
      else pure (pos 0, mod_info command n)

  abbrev after : Run S (ℤ × ModInfo) → Run S (Option Command × Screen)
  after r = and_then r (λ p. pure (modules_next p.0 p.1))

  number_outcome :
      (word : ℕ → Command) (command : List ℕ) (n : ℤ)
      → ((m : ℕ) → 1 ≤ m → m ≤ 3 → Outcome i.loaded (some (word m), modules))
      → carry_out (mod_info command n) ≡ by_number n word
      → Turned (after (numbered command n st))
  unfolding modules_next by_number mod_info
  number_outcome word command (negsuc n) good e = (again, refl)
  number_outcome word command (pos zero) good e = (again, refl)
  number_outcome word command (pos (suc zero)) good e =
      rw e (good 1 (omega arith) (omega arith), refl)
  number_outcome word command (pos (suc (suc zero))) good e =
      rw e (good 2 (omega arith) (omega arith), refl)
  number_outcome word command (pos (suc (suc (suc zero)))) good e =
      rw e (good 3 (omega arith) (omega arith), refl)
  number_outcome word command (pos (suc (suc (suc (suc n))))) good e =
      let above : ltb 3 (suc (suc (suc (suc n)))) ≡ true = ground arith in
      let below : ltb (suc (suc (suc (suc n)))) 1 ≡ false = ground arith in
      rw (below, above) (again, refl)

  word_outcome :
      (word : ℕ → Command) (command rest : List ℕ)
      → ((m : ℕ) → 1 ≤ m → m ≤ 3 → Outcome i.loaded (some (word m), modules))
      → ((n : ℤ) → carry_out (mod_info command n) ≡ by_number n word)
      → (strtok rest ≡ none → BadLine i)
      → Turned (after (and_then (read_number rest st) (numbered command)))
  unfolding read_number
  word_outcome word command rest good carried bad = elim (Option-cases (strtok rest)) [
    | inl e ↦ rw (e, read_number) (bad e)
    | inr ((w, rest'), e) ↦
        rw (e, read_number)
          (number_outcome word command (strtol_int w) good (carried (strtol_int w)))
  ]

  interpret_outcome :
      (command rest : List ℕ)
      → ((command ≡ codes "install") ⊎ (command ≡ codes "remove") → strtok rest ≡ none → BadLine i)
      → Turned (after (interpret i command rest st))
  unfolding interpret is_install is_remove modules_next carry_out mod_info
  interpret_outcome command rest bad = elim (Bool-cases (str_eq command (codes "exit"))) [
    | inl e ↦ rw e (left, refl)
    | inr not_exit ↦ elim (Bool-cases (all_loaded i.loaded && str_eq command (codes "home"))) [
      | inl e ↦ rw (not_exit, e) (went_home (ground arith), refl)
      | inr not_home ↦ elim (Bool-cases (str_eq command (codes "install"))) [
        | inl e ↦
            let so = eq_of_str_eq command (codes "install") e in
            rw (not_exit, not_home, e)
              (word_outcome make command rest installed (λ n. carries_install command n so)
                (bad (inl so)))
        | inr not_install ↦ elim (Bool-cases (str_eq command (codes "remove"))) [
          | inl e ↦
              let so = eq_of_str_eq command (codes "remove") e in
              rw (not_exit, not_home, not_install, e)
                (word_outcome rmmod command rest removed (λ n. carries_remove command n so)
                  (bad (inr so)))
          | inr not_remove ↦ rw (not_exit, not_home, not_install, not_remove) (again, refl)
        ]
      ]
    ]
  ]

  -- The line is the one that is typed, if there is one.
  abbrev Reads : Run S (List ℕ) → Type 0
  Reads (done s s') = (s' ≡ st) × ((i.line ≡ none) ⊎ (i.line ≡ some s))
  Reads (fault f) = BadLine i

  stale_line-Reads : i.line ≡ none → (held : Option (List ℕ)) → Reads (stale_line held st)
  unfolding stale_line
  stale_line-Reads e none = no_line e
  stale_line-Reads e (some s) = (refl, inl e)

  read_line-Reads : (line held : Option (List ℕ)) → i.line ≡ line → Reads (read_line line held st)
  unfolding read_line
  read_line-Reads none held e = stale_line-Reads e held
  read_line-Reads (some s) held e = elim (Bool-cases (ltb 255 (length s))) [
    | inl long ↦ rw long (too_long s e (ltb→lt 255 (length s) long))
    | inr fits ↦ rw fits (refl, inr e)
  ]

  words : List ℕ → Cmd S (ℤ × ModInfo)
  words s = elim (strtok s) [
    | none ↦ fail null_deref
    | some (command, rest) ↦ interpret i command rest
  ]

  words_outcome : (s : List ℕ) → (i.line ≡ none) ⊎ (i.line ≡ some s) → Turned (after (words s st))
  unfolding words
  words_outcome s (inl e) = elim (Option-cases (strtok s)) [
    | inl none_so ↦ rw (none_so, words) (no_line e)
    | inr ((command, rest), some_so) ↦
        rw (some_so, words) (interpret_outcome command rest (λ _ _. no_line e))
  ]
  words_outcome s (inr e) = elim (Option-cases (strtok s)) [
    | inl none_so ↦ rw (none_so, words) (blank s e none_so)
    | inr ((command, rest), some_so) ↦
        rw (some_so, words)
          (interpret_outcome command rest
            (λ which no_rest. no_number s command rest e some_so which no_rest))
  ]

  line_outcome : (r : Run S (List ℕ)) → Reads r → Turned (after (and_then r words))
  line_outcome (done s s') (same, e) = rw same (words_outcome s e)
  line_outcome (fault f) bad = bad

  pub modules_turn-Turned : Turned (modules_turn i st)
  unfolding modules_turn display_module_info words
  modules_turn-Turned =
      line_outcome (read_line i.line (c_str i.stale_string) st)
        (read_line-Reads i.line (c_str i.stale_string) refl)
