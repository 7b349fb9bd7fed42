-- ===== src/Syscalls/Keeps.antt =====
-- The system calls keep the module's state well-formed.
use reference_monitor.Base.{
  All, Bool, Bool-cases, List, [], arith, false, inl, inr, not, refl, some, subst, suc, sym, true,
  zero, ℕ, ◌+◌, ◌<◌, ◌^◌, ◌∙◌, ◌∷◌, ◌≡◌, ◌≤◌,
}
use reference_monitor.Access.Decision.{is_active}
use reference_monitor.Base.Int.{negsuc, pos, ℤ}
use reference_monitor.Blacklist.{AddEnv, Block, RemoveEnv, add_to_blacklist, remove_from_blacklist}
use reference_monitor.Blacklist.Add.{Added, Granted, add_to_blacklist-Added}
use reference_monitor.Blacklist.Keeps.{Added-Holds, Removed-Holds, with_path}
use reference_monitor.Blacklist.Remove.{Removed, remove_from_blacklist-Removed}
use reference_monitor.CString.{c_str, str_eq}
use reference_monitor.Checks.{euid_check, is_rf_rec, rf_state_check}
use reference_monitor.Monitor.{FilePath, Monitor, null}
use reference_monitor.Monitor.Chain.{Cells}
use reference_monitor.Monitor.Edit.{erase_cell}
use reference_monitor.Monitor.Invariant.{Holds}
use reference_monitor.Password.{PasswordEnv, Sha256, hex, password_check}
use reference_monitor.Password.Check.{Answered, compared}
use reference_monitor.Probes.Table.{Probe, ProbeApi, disable_loop, enable_loop}
use reference_monitor.Run.{Cmd, IfDone-mono, Returns, Returns-bind, Run, and_then, done, fault}
use reference_monitor.Syscalls.{
  World, on_rf, switch_state, sys_add_to_blacklist, sys_get_blacklist_size, sys_get_rf_state,
  sys_remove_from_blacklist, sys_switch_rf_state, unless_error, with_rf,
}
use reference_monitor.Syscalls.Call.{
  Call, Ends, add, call, get, print, print-IfDone, remove, size, switch, told,
}
use reference_monitor.Syscalls.Grant.{probes_for, switch_state_lem}
use reference_monitor.Syscalls.Print.{sys_print_blacklist}

-- The list in memory is well-formed, the password is set, and the probes are set up; they are armed
-- exactly in the states in which paths are protected.
pub record Inv (w : World) : Type 0 where
  pub cells : Cells
  pub monitor : Holds w.rf cells
  pub stored : List ℕ
  pub password : w.rf.password ≡ some stored
  pub array : List Probe
  pub probes : w.probes ≡ some array
  pub armed : All (λ p. p.disabled ≡ not (is_active w.rf.state)) array

-- What the kernel documents of its calls on registered probes.
pub record Obeys (api : ProbeApi) : Type 0 where
  pub enables : (p : Probe) → (api.enable_kretprobe p).0.disabled ≡ false
  pub disables : (p : Probe) → (api.disable_kretprobe p).0.disabled ≡ true

-- The kernel answers what the call asks for: the password's buffer, its copy and its digest, and
-- for a change of the list also memory at a fresh address, NULL in the new node's `next`, and a
-- path with a terminator.
abbrev pub Honest : (w : World) → Inv w → Call → Type 0
Honest w i (switch state pw text) = (s : List ℕ) × Answered pw s
Honest w i (get text) = Unit {0}
Honest w i (add pw e) =
    (s : List ℕ) × Answered pw s
    × (path : FilePath) × (b : Block) × Granted e i.cells path b
    × (b.stale ≡ null)
Honest w i (remove pw e) =
    (s : List ℕ) × Answered pw s
    × (path : FilePath) × (e.buffer ≡ true)
    × (e.copy.left ≤ 4096)
    × (c_str e.copy.bytes ≡ some path)
Honest w i size = Unit {0}
Honest w i (print e asked) = Unit {0}

abbrev Kept : ℤ → World → Type 0
Kept r w = Inv w

pass_code :
    (w : World) (r : ℤ) (k : Cmd World ℤ)
    → Inv w
    → ((r ≡ pos 0) → Returns Kept (k w))
    → Returns Kept (unless_error r k w)
pass_code w (pos zero) k i next = next refl
pass_code w (pos (suc n)) k i next = i
pass_code w (negsuc n) k i next = i

pass_password :
    (sha : Sha256) (w : World) (pw : PasswordEnv) (s : List ℕ) (k : Cmd World ℤ)
    → Answered pw s
    → Inv w
    → Returns Kept (k w)
    → Returns Kept (and_then (on_rf (password_check sha pw) w) (λ c. unless_error c k))
pass_password sha w pw s k a i next =
    rw (compared sha pw w.rf s i.stored a i.password)
      (elim (Bool-cases (str_eq i.stored (hex (sha.digest s)))) [
        | inl e ↦ rw e next
        | inr e ↦ rw e i
      ])

enable_loop-armed :
    (api : ProbeApi)
    → Obeys api
    → (ps : List Probe) → All (λ p. p.disabled ≡ false) (enable_loop api ps)
unfolding enable_loop
enable_loop-armed api o [] = tt
enable_loop-armed api o (p ∷ ps) = (o.enables p, enable_loop-armed api o ps)

disable_loop-disarmed :
    (api : ProbeApi)
    → Obeys api
    → (ps : List Probe) → All (λ p. p.disabled ≡ true) (disable_loop api ps)
unfolding disable_loop
disable_loop-disarmed api o [] = tt
disable_loop-disarmed api o (p ∷ ps) = (o.disables p, disable_loop-disarmed api o ps)

pub probes_for-armed :
    (api : ProbeApi)
    → Obeys api
    → (state : ℤ) (ps : List Probe) → rf_state_check state ≡ pos 0
    → All (λ p. p.disabled ≡ not (is_active state)) (probes_for api state ps)
unfolding is_active rf_state_check
probes_for-armed api o (pos zero) ps ok = enable_loop-armed api o ps
probes_for-armed api o (pos (suc zero)) ps ok = disable_loop-disarmed api o ps
probes_for-armed api o (pos (suc (suc zero))) ps ok = enable_loop-armed api o ps
probes_for-armed api o (pos (suc (suc (suc zero)))) ps ok = disable_loop-disarmed api o ps
probes_for-armed api o (pos (suc (suc (suc (suc n))))) ps ok = absurd (ground arith)
probes_for-armed api o (negsuc n) ps ok = absurd (ground arith)

with_rf-Kept :
    (w : World) (P : ℤ → Monitor → Type 0) (r : Run Monitor ℤ)
    → Returns P r
    → ((a : ℤ) (m : Monitor) → P a m → Inv (record w { rf = m }))
    → Returns Kept (with_rf w r)
with_rf-Kept w P (done a m) h next = next a m h
with_rf-Kept w P (fault f) h next = elim h [ ]

switch-Kept :
    (api : ProbeApi) (state : ℤ) (text : Bool) (w : World)
    → Obeys api
    → rf_state_check state ≡ pos 0
    → Inv w
    → Returns Kept (switch_state api state text w)
switch-Kept api state text w o ok i =
    rw (switch_state_lem api state text w i.array i.monitor.unlocked i.probes) (record {
      cells = i.cells;
      monitor = record {
        list = record { head = i.monitor.list.head; chain = i.monitor.list.chain };
        unlocked = refl;
        counted = i.monitor.counted;
        fits = i.monitor.fits;
      };
      stored = i.stored;
      password = i.password;
      array = probes_for api state i.array;
      probes = refl;
      armed = probes_for-armed api o state i.array ok;
    })

-- The invariant depends on the monitor through its list, its state and its password.
Inv-rf :
    (w : World) (i : Inv w) (m : Monitor) (ys : Cells)
    → Holds m ys
    → m.state ≡ w.rf.state
    → m.password ≡ w.rf.password
    → Inv (record w { rf = m })
Inv-rf w i m ys h st pw = record {
  cells = ys;
  monitor = h;
  stored = i.stored;
  password = pw ∙ i.password;
  array = i.array;
  probes = i.probes;
  armed = subst (λ z. All (λ p. p.disabled ≡ not (is_active z)) i.array) (sym st) i.armed;
}

module _ (fuel : ℕ) (w : World) (i : Inv w) (lt : w.rf.size + 1 < fuel)
    (room : w.rf.size + 1 < 2 ^ 32) where
  add-Kept :
      (e : AddEnv) (path : FilePath) (b : Block)
      → Granted e i.cells path b
      → b.stale ≡ null
      → Returns Kept (on_rf (add_to_blacklist fuel e) w)
  add-Kept e path b g st =
      with_rf-Kept w (Added w.rf i.cells path b.address) (add_to_blacklist fuel e w.rf)
        (add_to_blacklist-Added fuel e w.rf i.cells path b i.monitor g st
          (omega (arith, i.monitor.counted)))
        (λ r m ad.
          Inv-rf w i m (with_path path b.address i.cells)
            (Added-Holds w.rf m i.cells path b.address r i.monitor room ad) ad.4 ad.5)

  remove-Kept :
      (e : RemoveEnv) (path : FilePath)
      → e.buffer ≡ true
      → e.copy.left ≤ 4096
      → c_str e.copy.bytes ≡ some path
      → Returns Kept (on_rf (remove_from_blacklist fuel e) w)
  remove-Kept e path buf small str =
      with_rf-Kept w (Removed w.rf i.cells path) (remove_from_blacklist fuel e w.rf)
        (remove_from_blacklist-Removed fuel e w.rf i.cells path i.monitor buf small str
          (omega (arith, i.monitor.counted)))
        (λ r m re.
          Inv-rf w i m (erase_cell path i.cells) (Removed-Holds w.rf m i.cells path r i.monitor re)
            re.4 re.5)

module _ (fuel : ℕ) (sha : Sha256) (api : ProbeApi) (euid : ℕ) (w : World) where
  -- Every system call but `sys_print_blacklist` comes back, from every caller, with any state, password
  -- and path; and every call, where it comes back, keeps the module's state well-formed: the list, its
  -- count, the free lock, and the probes armed exactly in the protecting states. The count has room for
  -- one more and is below the fuel by more than one, the probes obey, and the kernel answers what the
  -- call asks for. The memory for a new node must also happen to hold NULL in its `next`, which neither
  -- `kmalloc` nor the code sees to.
  pub call-Inv :
      (c : Call) (i : Inv w)
      → w.rf.size + 1 < fuel
      → w.rf.size + 1 < 2 ^ 32
      → Obeys api
      → Honest w i c
      → Ends c (λ r w'. Inv w') (call fuel sha api euid c w)
  unfolding call sys_switch_rf_state sys_get_rf_state sys_add_to_blacklist sys_remove_from_blacklist
      sys_get_blacklist_size
  call-Inv (switch state pw text) i lt room o (s, a) = pass_code w (rf_state_check state) _ i λ ok.
      pass_password sha w pw s _ a i
        (pass_code w (euid_check euid) _ i λ root. switch-Kept api state text w o ok i)
  call-Inv (get text) i lt room o h = elim (Bool-cases text) [ inl t ↦ rw t i | inr t ↦ rw t i ]
  call-Inv (add pw e) i lt room o (s, a, path, b, g, st) = pass_code w (is_rf_rec w.rf) _ i λ rec.
      pass_password sha w pw s _ a i
        (pass_code w (euid_check euid) _ i λ root. add-Kept fuel w i lt room e path b g st)
  call-Inv (remove pw e) i lt room o (s, a, path, buf, small, str) =
      pass_code w (is_rf_rec w.rf) _ i λ rec. pass_password sha w pw s _ a i (
        pass_code w (euid_check euid) _ i λ root.
          Returns-bind Kept Kept (on_rf (remove_from_blacklist fuel e) w) _
            (remove-Kept fuel w i lt room e path buf small str) (λ r w' kept. kept))
  call-Inv size i lt room o h = i
  call-Inv (print e asked) i lt room o h =
      IfDone-mono _ _ (told w (sys_print_blacklist fuel e asked w.rf)) (print-IfDone fuel e asked w)
        (λ r w' (answer, same). rw same i)
