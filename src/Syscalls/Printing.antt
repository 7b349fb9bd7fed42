-- ===== src/Syscalls/Printing.antt =====
-- What `sys_print_blacklist` does to the monitor.
pub mod Stops
use reference_monitor.Base.{
  Bool, Bool-cases, List, Option, Option-cases, codes, false, if◌then◌else◌, inl, inr, leb, length,
  ltb, none, not, refl, some, subst, suc, sym, true, zero, ℕ, ◌+◌, ◌==◌, ◌≡◌, ◌⊎◌,
}
use reference_monitor.Base.Int.{is_error, pos, ℤ}
use reference_monitor.Monitor.{FilePath, Monitor, Ptr, load, null}
use reference_monitor.Run.{Cmd, IfDone, IfDone-bind, IfDone-if, Run, and_then, done, fault}
use reference_monitor.Syscalls.Print.{
  Draft, PrintEnv, Printed, add_item, buffer_size, concat, item, print_all, print_loop,
  read_monitor, refused, send, sys_print_blacklist, title,
}

-- A run that comes back leaves the monitor as it was.
abbrev pub Reads : {A : Type 0} → Monitor → Run Monitor A → Type 0
Reads m (done a m') = m' ≡ m
Reads m (fault f) = Unit {0}

Reads-bind :
    {A B : Type 0} (m : Monitor) (r : Run Monitor A) (k : A → Cmd Monitor B)
    → Reads m r
    → ((a : A) → Reads m (k a m))
    → Reads m (and_then r k)
Reads-bind m (done a m') k h next = subst (λ z. Reads m (k a z)) (sym h) (next a)
Reads-bind m (fault f) k h next = tt

Reads-if :
    {A : Type 0} (m : Monitor) (b : Bool) (x y : Cmd Monitor A)
    → Reads m (x m)
    → Reads m (y m)
    → Reads m ((if b then x else y) m)
Reads-if m true x y h h' = h
Reads-if m false x y h h' = h'

Reads-Option :
    {A B : Type 0} (m : Monitor) (r : Run Monitor (Option A)) (k : Option A → Cmd Monitor B)
    → Reads m r
    → Reads m (k none m)
    → ((a : A) → Reads m (k (some a) m))
    → Reads m (and_then r k)
Reads-Option m r k h empty next =
    Reads-bind m r k h λ o. elim o as (λ o. Reads m (k o m)) [ none ↦ empty | some a ↦ next a ]

concat-Reads : (capacity : ℕ) (text s : List ℕ) (m : Monitor) → Reads m (concat capacity text s m)
unfolding concat
concat-Reads capacity text s m =
    Reads-if m (leb capacity (length text)) _ _ tt
      (Reads-if m (ltb capacity (length text + length s + 1)) _ _ tt refl)

add_item-Reads :
    (e : PrintEnv) (d : Draft) (path : FilePath) (m : Monitor) → Reads m (add_item e d path m)
unfolding add_item
add_item-Reads e d path m = elim (Option-cases d.temp) [
  | inl n ↦ rw n tt
  | inr (t, s) ↦ rw s (
      Reads-if m (not (e.enlarged d.rounds)) _ _ refl (
        Reads-if m (ltb 256 (length (item path) + 1)) _ _ tt (
          Reads-bind m (concat (length d.text + length t) d.text (item path) m) _
            (concat-Reads (length d.text + length t) d.text (item path) m) (λ text. refl))))
]

load-Reads : (p : Ptr) (m : Monitor) → Reads m (load p m)
unfolding load
load-Reads p m = elim (Bool-cases (p == null)) [
  | inl z ↦ rw z tt
  | inr z ↦ elim (Option-cases (m.nodes p)) [ inl n ↦ rw (z, n) tt | inr (n, s) ↦ rw (z, s) refl ]
]

print_loop-Reads :
    (fuel : ℕ) (e : PrintEnv) (curr : Ptr) (d : Draft) (m : Monitor)
    → Reads m (print_loop fuel e curr d m)
unfolding print_loop
print_loop-Reads zero e curr d m = tt
print_loop-Reads (suc k) e curr d m = Reads-bind m (load curr m) _ (load-Reads curr m) λ n.
    Reads-Option m (add_item e d n.path m) _ (add_item-Reads e d n.path m) refl λ d'.
      elim (Bool-cases (n.next == null)) [
        | inl z ↦ rw z refl
        | inr z ↦ rw z (print_loop-Reads k e n.next d' m)
      ]

send-Reads :
    (left : ℕ) (allocated : Bool) (text : List ℕ) (m : Monitor)
    → Reads m (send left allocated text m)
unfolding send
send-Reads left allocated text m =
    Reads-if m (left == 0) _ _ refl (Reads-if m allocated _ _ refl tt)

print_all-Reads :
    (fuel : ℕ) (e : PrintEnv) (n : ℕ) (curr : Ptr) (m : Monitor)
    → Reads m (print_all fuel e n curr m)
unfolding print_all
print_all-Reads fuel e n curr m = Reads-if m (ltb (buffer_size n) (length title + 1)) _ _ tt (
    Reads-Option m _ _
      (print_loop-Reads fuel e curr
        (record { capacity = buffer_size n; text = title; temp = e.stale; rounds = 0 }) m)
      refl (λ d. send-Reads e.left true d.text m))

-- Whatever the kernel answers, and whatever the list looks like: if `sys_print_blacklist` comes back,
-- the monitor is as it was.
pub sys_print_blacklist-Reads :
    (fuel : ℕ) (e : PrintEnv) (asked : ℕ) (m : Monitor)
    → Reads m (sys_print_blacklist fuel e asked m)
unfolding sys_print_blacklist read_monitor
sys_print_blacklist-Reads fuel e asked m = Reads-if m (not (asked == m.size)) _ _ refl (
    Reads-if m (not e.buffer) _ _ refl (
      Reads-if m (m.head == null) _ _ (send-Reads e.left false (codes "Blacklist is empty\n") m)
        (print_all-Reads fuel e asked m.head m)))

-- The results: 0, or an error code.
abbrev pub IsAnswer : ℤ → Type 0
IsAnswer r = (r ≡ pos 0) ⊎ (is_error r ≡ true)

any-IfDone : {A : Type 0} (r : Run Monitor A) → IfDone (λ _ _. Unit {0}) r
any-IfDone (done a m) = tt
any-IfDone (fault f) = tt

IfDone-Option :
    {A B : Type 0} (P : B → Monitor → Type 0) (r : Run Monitor (Option A))
    (k : Option A → Cmd Monitor B)
    → ((m : Monitor) → IfDone P (k none m))
    → ((a : A) (m : Monitor) → IfDone P (k (some a) m))
    → IfDone P (and_then r k)
IfDone-Option P r k empty next =
    IfDone-bind (λ _ _. Unit {0}) P r k (any-IfDone r)
      λ o m any. elim o as (λ o. IfDone P (k o m)) [ none ↦ empty m | some a ↦ next a m ]

send-IsAnswer :
    (left : ℕ) (allocated : Bool) (text : List ℕ) (m : Monitor)
    → IfDone (λ p _. IsAnswer p.ret) (send left allocated text m)
unfolding send
send-IsAnswer left allocated text m =
    IfDone-if _ (left == 0) _ _ m (inl refl) (IfDone-if _ allocated _ _ m (inr refl) tt)

print_all-IsAnswer :
    (fuel : ℕ) (e : PrintEnv) (n : ℕ) (curr : Ptr) (m : Monitor)
    → IfDone (λ p _. IsAnswer p.ret) (print_all fuel e n curr m)
unfolding print_all refused
print_all-IsAnswer fuel e n curr m = IfDone-if _ (ltb (buffer_size n) (length title + 1)) _ _ m tt (
    IfDone-Option _
      (print_loop fuel e curr
        (record { capacity = buffer_size n; text = title; temp = e.stale; rounds = 0 }) m)
      _ (λ m'. inr refl) (λ d m'. send-IsAnswer e.left true d.text m'))

sys_print_blacklist-IsAnswer :
    (fuel : ℕ) (e : PrintEnv) (asked : ℕ) (m : Monitor)
    → IfDone (λ p _. IsAnswer p.ret) (sys_print_blacklist fuel e asked m)
unfolding sys_print_blacklist read_monitor refused
sys_print_blacklist-IsAnswer fuel e asked m = IfDone-if _ (not (asked == m.size)) _ _ m (inr refl) (
    IfDone-if _ (not e.buffer) _ _ m (inr refl) (
      IfDone-if _ (m.head == null) _ _ m
        (send-IsAnswer e.left false (codes "Blacklist is empty\n") m)
        (print_all-IsAnswer fuel e asked m.head m)))

both :
    (m : Monitor) (r : Run Monitor Printed)
    → IfDone (λ p _. IsAnswer p.ret) r
    → Reads m r
    → IfDone (λ p m'. IsAnswer p.ret × (m' ≡ m)) r
both m (done p m') h same = (h, same)
both m (fault f) h same = tt

-- The printing, where it comes back, answers with 0 or an error and changes nothing.
pub sys_print_blacklist-IfDone :
    (fuel : ℕ) (e : PrintEnv) (asked : ℕ) (m : Monitor)
    → IfDone (λ p m'. IsAnswer p.ret × (m' ≡ m)) (sys_print_blacklist fuel e asked m)
sys_print_blacklist-IfDone fuel e asked m =
    both m (sys_print_blacklist fuel e asked m) (sys_print_blacklist-IsAnswer fuel e asked m)
      (sys_print_blacklist-Reads fuel e asked m)
