-- ===== src/Syscalls/Printing/Stops.antt =====
-- The loop of `sys_print_blacklist` ends by its own test.
use reference_monitor.Base.{
  Bool, List, Option, Option-cases, [], arith, codes, false, if◌then◌else◌, inl, inr, leb, length,
  ltb, none, not, refl, some, subst, suc, sym, true, zero, ℕ, ◌+◌, ◌<◌, ◌==◌, ◌∷◌, ◌≡◌,
}
use reference_monitor.Monitor.{FilePath, Monitor, Ptr, null}
use reference_monitor.Monitor.Chain.{Cells, Chain, IsList, load_lem}
use reference_monitor.Run.{
  Cmd, IfDone, Run, Settled, Settled-bind, Settled-if, Settled-then, and_then, done, fault, hangs,
  hangs-bind, hangs-if,
}
use reference_monitor.Syscalls.Print.{
  Draft, PrintEnv, add_item, buffer_size, concat, item, print_all, print_loop, read_monitor,
  refused, send, sys_print_blacklist, title,
}
use reference_monitor.Syscalls.Printing.{Reads, add_item-Reads}

concat-stops :
    (capacity : ℕ) (text s : List ℕ) (m : Monitor) → hangs (concat capacity text s m) ≡ false
unfolding concat
concat-stops capacity text s m =
    hangs-if (leb capacity (length text)) _ _ m refl
      (hangs-if (ltb capacity (length text + length s + 1)) _ _ m refl refl)

add_item-stops :
    (e : PrintEnv) (d : Draft) (path : FilePath) (m : Monitor) → hangs (add_item e d path m) ≡ false
unfolding add_item
add_item-stops e d path m = elim (Option-cases d.temp) [
  | inl n ↦ rw n refl
  | inr (t, s) ↦ rw s (
      hangs-if (not (e.enlarged d.rounds)) _ _ m refl (
        hangs-if (ltb 256 (length (item path) + 1)) _ _ m refl (
          hangs-bind (concat (length d.text + length t) d.text (item path) m) _
            (concat-stops (length d.text + length t) d.text (item path) m) (λ text m'. refl))))
]

Reads-IfDone :
    {A : Type 0} (m : Monitor) (r : Run Monitor A) → Reads m r → IfDone (λ _ m'. m' ≡ m) r
Reads-IfDone m (done a m') h = h
Reads-IfDone m (fault f) h = tt

Settled-Option :
    {A B : Type 0} (m : Monitor) (r : Run Monitor (Option A)) (k k' : Option A → Cmd Monitor B)
    → hangs r ≡ false
    → Reads m r
    → Settled (k none m) (k' none m)
    → ((a : A) → Settled (k (some a) m) (k' (some a) m))
    → Settled (and_then r k) (and_then r k')
Settled-Option m r k k' ends reads empty next =
    Settled-bind (λ _ m'. m' ≡ m) r k k' ends (Reads-IfDone m r reads)
      λ o m' same.
        subst (λ z. Settled (k o z) (k' o z)) (sym same)
          (elim o as (λ o. Settled (k o m) (k' o m)) [ none ↦ empty | some a ↦ next a ])

print_loop-Settled :
    (fuel fuel' : ℕ) (e : PrintEnv) (c : Ptr) (t : FilePath) (rest : Cells) (d : Draft)
    (m : Monitor)
    → Chain m.nodes ((c, t) ∷ rest)
    → length rest < fuel
    → length rest < fuel'
    → Settled (print_loop fuel e c d m) (print_loop fuel' e c d m)
unfolding print_loop
print_loop-Settled zero fuel' e c t rest d m ch lt lt' = absurd (omega arith)
print_loop-Settled (suc k) zero e c t rest d m ch lt lt' = absurd (omega arith)
print_loop-Settled (suc k) (suc k') e c t [] d m ch lt lt' = rw (load_lem m c t null ch.0 ch.1) (
    Settled-Option m (add_item e d t m) _ _ (add_item-stops e d t m) (add_item-Reads e d t m)
      (refl, refl) (λ d'. (refl, refl)))
print_loop-Settled (suc k) (suc k') e c t ((c', t') ∷ rest) d m ch lt lt' =
    let more : (c' == null) ≡ false = ground (arith, (ch.3).0) in
    rw (load_lem m c t c' ch.0 ch.1) (
      Settled-Option m (add_item e d t m) _ _ (add_item-stops e d t m) (add_item-Reads e d t m)
        (refl, refl)
        (λ d'.
          rw more (print_loop-Settled k k' e c' t' rest d' m ch.3 (omega arith) (omega arith))))

send-stops :
    (kept : ℕ) (allocated : Bool) (text : List ℕ) (m : Monitor)
    → hangs (send kept allocated text m) ≡ false
unfolding send
send-stops kept allocated text m =
    hangs-if (kept == 0) _ _ m refl (hangs-if allocated _ _ m refl refl)

by_option :
    {A B : Type 0} (k : Option A → Cmd Monitor B)
    → ((m : Monitor) → hangs (k none m) ≡ false)
    → ((a : A) (m : Monitor) → hangs (k (some a) m) ≡ false)
    → (o : Option A) (m : Monitor) → hangs (k o m) ≡ false
by_option k h h' none m = h m
by_option k h h' (some a) m = h' a m

print_all-Settled :
    (fuel fuel' : ℕ) (e : PrintEnv) (n : ℕ) (c : Ptr) (t : FilePath) (rest : Cells) (m : Monitor)
    → Chain m.nodes ((c, t) ∷ rest)
    → length rest < fuel
    → length rest < fuel'
    → Settled (print_all fuel e n c m) (print_all fuel' e n c m)
unfolding print_all refused
print_all-Settled fuel fuel' e n c t rest m ch lt lt' =
    Settled-if (ltb (buffer_size n) (length title + 1)) _ _ _ _ m (refl, refl)
      (Settled-then _ _ _
        (print_loop-Settled fuel fuel' e c t rest
          (record { capacity = buffer_size n; text = title; temp = e.stale; rounds = 0 }) m ch lt
          lt')
        (by_option _ (λ m'. refl) (λ d m'. send-stops e.left true d.text m')))

listed-Settled :
    (fuel fuel' : ℕ) (e : PrintEnv) (asked : ℕ) (m : Monitor) (xs : Cells)
    → IsList m xs
    → length xs < fuel
    → length xs < fuel'
    → Settled
        ((if m.head == null
            then send e.left false (codes "Blacklist is empty\n")
            else print_all fuel e asked m.head)
          m)
        ((if m.head == null
            then send e.left false (codes "Blacklist is empty\n")
            else print_all fuel' e asked m.head)
          m)
listed-Settled fuel fuel' e asked m [] is lt lt' =
    let empty : (m.head == null) ≡ true = ground (arith, is.head) in
    rw empty (refl, send-stops e.left false (codes "Blacklist is empty\n") m)
listed-Settled fuel fuel' e asked m ((c, t) ∷ rest) is lt lt' =
    Settled-if (m.head == null) _ _ _ _ m
      (refl, send-stops e.left false (codes "Blacklist is empty\n") m)
      (subst (λ z. Settled (print_all fuel e asked z m) (print_all fuel' e asked z m)) (sym is.head)
        (print_all-Settled fuel fuel' e asked c t rest m is.chain (omega arith) (omega arith)))

-- On a well-formed list, the printing comes to the same end on every fuel above its length.
pub sys_print_blacklist-Settled :
    (fuel fuel' : ℕ) (e : PrintEnv) (asked : ℕ) (m : Monitor) (xs : Cells)
    → IsList m xs
    → length xs < fuel
    → length xs < fuel'
    → Settled (sys_print_blacklist fuel e asked m) (sys_print_blacklist fuel' e asked m)
unfolding sys_print_blacklist read_monitor refused
sys_print_blacklist-Settled fuel fuel' e asked m xs is lt lt' =
    Settled-if (not (asked == m.size)) _ _ _ _ m (refl, refl)
      (Settled-if (not e.buffer) _ _ _ _ m (refl, refl)
        (listed-Settled fuel fuel' e asked m xs is lt lt'))
