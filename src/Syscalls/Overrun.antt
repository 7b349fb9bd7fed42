-- ===== src/Syscalls/Overrun.antt =====
-- When the text that `sys_print_blacklist` builds does not fit its buffers.
use reference_monitor.Base.{
  ==_refl, Bool, Bool-cases, List, Option-cases, arith, codes, false, false≢true, if◌then◌else◌,
  inl, inr, leb, length, length-append, ltb, not, refl, some, subst, suc, sym, true, ℕ, ◌++◌, ◌+◌,
  ◌<◌, ◌==◌, ◌∷◌, ◌≡◌, ◌≤◌, ◌⊎◌,
}
use reference_monitor.Monitor.{FilePath, Monitor, Ptr, null}
use reference_monitor.Monitor.Chain.{Cells, Chain, load_lem, start}
use reference_monitor.Monitor.Invariant.{Holds}
use reference_monitor.Run.{Cmd, Run, and_then, done, fault, overflow, overrun}
use reference_monitor.Syscalls.Print.{
  Draft, PrintEnv, add_item, buffer_size, concat, item, print_all, print_loop, read_monitor,
  sys_print_blacklist, title,
}

-- The run ends past the end of a buffer.
abbrev pub Overruns : {A : Type 0} → Run Monitor A → Type 0
Overruns (done a m) = ⊥
Overruns (fault f) = (f ≡ overrun) ⊎ (f ≡ overflow)

Overruns-bind :
    {A B : Type 0} (r : Run Monitor A) (k : A → Cmd Monitor B)
    → Overruns r
    → Overruns (and_then r k)
Overruns-bind (done a m) k h = elim h [ ]
Overruns-bind (fault f) k h = h

Overruns-else :
    {A : Type 0} (m : Monitor) (b : Bool) (x y : Cmd Monitor A)
    → b ≡ false
    → Overruns (y m)
    → Overruns ((if b then x else y) m)
Overruns-else m true x y e h = absurd (false≢true (sym e))
Overruns-else m false x y e h = h

concat-Overruns :
    (capacity : ℕ) (text s : List ℕ) (m : Monitor)
    → capacity < length text + length s + 1
    → Overruns (concat capacity text s m)
unfolding concat
concat-Overruns capacity text s m lt =
    let b : ltb capacity (length text + length s + 1) ≡ true = ground arith in
    elim (Bool-cases (leb capacity (length text))) [
      | inl a ↦ rw a (inl refl)
      | inr a ↦ rw (a, b) (inr refl)
    ]

add_item-Overruns :
    (e : PrintEnv) (d : Draft) (old path : FilePath) (m : Monitor)
    → e.enlarged d.rounds ≡ true
    → d.temp ≡ some (item old)
    → length old ≤ length path
    → Overruns (add_item e d path m)
unfolding add_item
add_item-Overruns e d old path m grant t le =
    let grows : length (item old) ≤ length (item path) =
      omega (arith, length-append old (codes "\n"), length-append path (codes "\n")) in
    elim (Bool-cases (ltb 256 (length (item path) + 1))) [
      | inl long ↦ rw (t, grant, long) (inr refl)
      | inr short ↦
          rw (t, grant, short)
            (Overruns-bind (concat (length d.text + length (item old)) d.text (item path) m) _ (
              concat-Overruns (length d.text + length (item old)) d.text (item path) m
                (omega arith)))
    ]

-- Unless it overruns, the item is in the array afterwards.
add_item-Holds :
    (e : PrintEnv) (d : Draft) (path : FilePath) (m : Monitor)
    → e.enlarged d.rounds ≡ true
    → Overruns (add_item e d path m)
      ⊎ ((d' : Draft) × (add_item e d path m ≡ done (some d') m) × (d'.temp ≡ some (item path)))
unfolding add_item concat
add_item-Holds e d path m grant = elim (Option-cases d.temp) [
  | inl n ↦ inl (rw n (inl refl))
  | inr (t, s) ↦
      let size : ℕ = length d.text + length t in
      elim (Bool-cases (ltb 256 (length (item path) + 1))) [
        | inl long ↦ inl (rw (s, grant, long) (inr refl))
        | inr short ↦ elim (Bool-cases (leb size (length d.text))) [
          | inl a ↦ inl (rw (s, grant, short, a) (inl refl))
          | inr a ↦ elim (Bool-cases (ltb size (length d.text + length (item path) + 1))) [
            | inl b ↦ inl (rw (s, grant, short, a, b) (inr refl))
            | inr b ↦
                let after : Draft = record {
                  capacity = size;
                  text = d.text ++ item path;
                  temp = some (item path);
                  rounds = d.rounds + 1;
                } in
                inr (after, rw (s, grant, short, a, b) refl, refl)
          ]
        ]
      ]
]

two_items-Overruns :
    (k : ℕ) (e : PrintEnv) (d : Draft) (c c' : Ptr) (p p' : FilePath) (rest : Cells) (m : Monitor)
    → Chain m.nodes ((c, p) ∷ (c', p') ∷ rest)
    → ((i : ℕ) → e.enlarged i ≡ true)
    → length p ≤ length p'
    → Overruns (print_loop (suc (suc k)) e c d m)
unfolding print_loop
two_items-Overruns k e d c c' p p' rest m ch grant le =
    let more : (c' == null) ≡ false = ground (arith, ch.3.0) in
    elim (add_item-Holds e d p m (grant d.rounds)) [
      | inl o ↦ rw (load_lem m c p c' ch.0 ch.1) (Overruns-bind (add_item e d p m) _ o)
      | inr (d', run, t) ↦
          rw
            (
              load_lem m c p c' ch.0 ch.1,
              run,
              more,
              load_lem m c' p' (start null rest) ch.3.0 ch.3.1,
            )
            (Overruns-bind (add_item e d' p' m) _
              (add_item-Overruns e d' p p' m (grant d'.rounds) t le))
    ]

-- The list is well-formed, its second path is at least as long as the first, the caller gives the
-- count of the list, and the kernel grants every allocation. Then, whatever the array on the stack
-- holds at first, `sys_print_blacklist` reads or writes past the end of a buffer.
pub sys_print_blacklist-Overruns :
    (k : ℕ) (e : PrintEnv) (m : Monitor) (c c' : Ptr) (p p' : FilePath) (rest : Cells)
    → Holds m ((c, p) ∷ (c', p') ∷ rest)
    → e.buffer ≡ true
    → ((i : ℕ) → e.enlarged i ≡ true)
    → length p ≤ length p'
    → Overruns (sys_print_blacklist (suc (suc k)) e m.size m)
unfolding sys_print_blacklist read_monitor print_all
sys_print_blacklist-Overruns k e m c c' p p' rest h b grant le =
    let same : (m.size == m.size) ≡ true = ==_refl m.size in
    let first : Draft = record {
      capacity = buffer_size m.size;
      text = title;
      temp = e.stale;
      rounds = 0;
    } in
    let some_node : (m.head == null) ≡ false = ground (arith, h.list.head, h.list.chain.0) in
    let loops : Overruns (print_loop (suc (suc k)) e m.head first m) =
      subst (λ x. Overruns (print_loop (suc (suc k)) e x first m)) (sym h.list.head)
        (two_items-Overruns k e first c c' p p' rest m h.list.chain grant le) in
    Overruns-else m (not (m.size == m.size)) _ _ (rw same refl) (
      Overruns-else m (not e.buffer) _ _ (rw b refl) (
        Overruns-else m (m.head == null) _ _ some_node
          (elim (Bool-cases (ltb (buffer_size m.size) (length title + 1))) [
            | inl z ↦ rw z (inr refl)
            | inr z ↦ rw z (Overruns-bind (print_loop (suc (suc k)) e m.head first m) _ loops)
          ])))
