-- ===== src/Syscalls/Print.antt =====
-- `sys_print_blacklist` of reference-monitor/stack_reference_monitor.c: the list as a text for user
-- space. It only reads the monitor. The text is built in a buffer from the kernel and in an array of
-- 256 bytes on the stack, which holds what the stack held until the first path is printed into it.
use reference_monitor.Base.{
  Bool, List, Option, [], codes, false, if◌then◌else◌, leb, length, ltb, none, not, some, suc, take,
  true, zero, ℕ, ◌%◌, ◌*◌, ◌++◌, ◌+◌, ◌-◌, ◌==◌, ◌^◌,
}
use reference_monitor.Base.Int.{eagain, eperm, pos, ℤ}
use reference_monitor.Monitor.{FilePath, Monitor, Ptr, load, null}
use reference_monitor.Run.{Cmd, bad_free, done, fail, hang, overflow, overrun, pure, ◌>>=◌}

-- What the kernel answers: the buffer, each enlargement of it, the string that the array holds at
-- first (`none` if it has no terminator in it), and how many bytes are not copied to the user.
pub record PrintEnv : Type 0 where
  pub buffer : Bool
  pub enlarged : ℕ → Bool
  pub stale : Option (List ℕ)
  pub left : ℕ

-- The result, and the bytes that reached the user.
pub record Printed : Type 0 where
  pub ret : ℤ
  pub user : List ℕ

-- The buffer with its size and its string, the string in the array, and how often the buffer was
-- enlarged.
pub record Draft : Type 0 where
  pub capacity : ℕ
  pub text : List ℕ
  pub temp : Option (List ℕ)
  pub rounds : ℕ

-- The `size_t` that the product of an `int` and PATH_MAX becomes.
unfoldable pub buffer_size : ℕ → ℕ
buffer_size n = let b = (n * 4096) % 2 ^ 32 in if ltb b (2 ^ 31) then b else b + (2 ^ 64 - 2 ^ 32)

-- `"- %s\n"`
abbrev pub item : List ℕ → List ℕ
item path = codes "- " ++ (path ++ codes "\n")

abbrev pub title : List ℕ
title = codes "Blacklist elements\n"

-- `strcat(blacklist_entries, temp_string)` into a buffer of `capacity` bytes
unfoldable pub concat : (capacity : ℕ) → (text s : List ℕ) → Cmd Monitor (List ℕ)
concat capacity text s =
    if leb capacity (length text)
    then fail overrun
    else if ltb capacity (length text + length s + 1)
    then fail overflow
    else pure (text ++ s)

-- The enlargement, `sprintf` into the array, and the concatenation; `none` when the enlargement fails
unfoldable pub add_item : PrintEnv → Draft → FilePath → Cmd Monitor (Option Draft)
unfolding concat
add_item e d path = elim d.temp [
  | none ↦ fail overrun
  | some t ↦
      if not (e.enlarged d.rounds)
      then pure none
      else if ltb 256 (length (item path) + 1)
      then fail overflow
      else do
        text ← concat (length d.text + length t) d.text (item path)
        pure (
            some (record {
              capacity = length d.text + length t;
              text = text;
              temp = some (item path);
              rounds = d.rounds + 1;
            }))
]

-- `while (curr->next != NULL) { ... }` and the item after the loop
unfoldable pub print_loop : ℕ → PrintEnv → (curr : Ptr) → Draft → Cmd Monitor (Option Draft)
unfolding add_item
print_loop zero e curr d = fail hang
print_loop (suc k) e curr d = do
  n ← load curr
  r ← add_item e d n.path
  elim r [
    | none ↦ pure none
    | some d' ↦
        let rest = print_loop k e n.next d' in if n.next == null then pure (some d') else rest
  ]

-- `copy_to_user`; after a failure the text is freed, which `allocated` says is possible.
unfoldable pub send : (left : ℕ) → (allocated : Bool) → List ℕ → Cmd Monitor Printed
send left allocated text =
    if left == 0
    then pure (record { ret = pos 0; user = text })
    else if allocated
    then pure (record { ret = eagain; user = take (length text - left) text })
    else fail bad_free

unfoldable pub refused : Printed
refused = record { ret = eperm; user = [] }

unfoldable pub read_monitor : Cmd Monitor Monitor
read_monitor m = done m m

unfoldable pub print_all : ℕ → PrintEnv → (n : ℕ) → (curr : Ptr) → Cmd Monitor Printed
unfolding print_loop send buffer_size refused
print_all fuel e n curr = if ltb (buffer_size n) (length title + 1) then fail overflow else do
  r ←
      print_loop fuel e curr
        (record { capacity = buffer_size n; text = title; temp = e.stale; rounds = 0 })
  elim r [ none ↦ pure refused | some d ↦ send e.left true d.text ]

-- `asked` is the argument `blacklist_size`.
unfoldable pub sys_print_blacklist : ℕ → PrintEnv → (asked : ℕ) → Cmd Monitor Printed
unfolding print_all read_monitor
sys_print_blacklist fuel e asked = do
  m ← read_monitor
  if not (asked == m.size)
      then pure refused
      else if not e.buffer
      then pure refused
      else if m.head == null
      then send e.left false (codes "Blacklist is empty\n")
      else print_all fuel e asked m.head
