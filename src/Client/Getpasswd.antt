-- ===== src/Client/Getpasswd.antt =====
-- `getpasswd` of client/client.c: a password typed on the terminal into a buffer, with the delete key.
-- What is shown for each key is not part of the model.
pub mod Editor
pub mod Line
pub mod Plain
use reference_monitor.Base.{
  Bool, List, Option, [], false, if◌then◌else◌, length, ltb, none, not, replicate, set, some, true,
  ℕ, ◌&&◌, ◌+◌, ◌-◌, ◌==◌, ◌||◌, ◌∷◌,
}
use reference_monitor.Base.Int.{negsuc, pos, ℤ}
use reference_monitor.Run.{Cmd, done, fault, null_deref, overflow, pure, ◌>>=◌, ◌>>◌}
use reference_monitor.Syscalls.Call.{size}

-- What is still to be read, `*pw` (`none` is NULL), and whether the terminal hands over single keys
-- without showing them.
pub record Tty : Type 0 where
  pub input : List ℕ
  pub buffer : Option (List ℕ)
  pub raw : Bool

-- Whether the memory, `tcgetattr` and the two calls of `tcsetattr` are granted.
pub record TtyEnv : Type 0 where
  pub memory : Bool
  pub get : Bool
  pub set_raw : Bool
  pub reset : Bool

-- `MAX_PASS_LEN`
abbrev pub max_pass_len : ℕ
max_pass_len = 32

-- `(*pw)[i] = c`
unfoldable pub store_char : (i c : ℕ) → Cmd Tty (Unit {0})
store_char i c t = elim t.buffer [
  | none ↦ fault null_deref
  | some b ↦
      if ltb i (length b) then done tt (record t { buffer = some (set b i c) }) else fault overflow
]

set_input : List ℕ → Cmd Tty (Unit {0})
set_input rest t = done tt (record t { input = rest })

set_mode : Bool → Cmd Tty (Unit {0})
set_mode raw t = done tt (record t { raw = raw })

-- The loop's test, for a key that is not EOF.
unfoldable pub goes_on : (limit idx c : ℕ) → Bool
goes_on limit idx c = (not (c == 10) && ltb idx limit) || (idx == limit && c == 127)

-- The loop's body: what it stores, and the index after it.
key : (idx c : ℕ) → Cmd Tty (Unit {0})
key idx c =
    if not (c == 127)
    then store_char idx c
    else if idx == 0
    then pure tt
    else store_char (idx - 1) 0

next_idx : (idx c : ℕ) → ℕ
next_idx idx c = if c == 127 then idx - 1 else idx + 1

-- `limit` is `sz - 1`. The last key that is read is used up.
unfoldable pub key_loop : (limit idx : ℕ) → (keys : List ℕ) → Cmd Tty ℕ
unfolding set_input key next_idx
key_loop limit idx [] = do set_input []; pure idx
key_loop limit idx (c ∷ keys) =
    if goes_on limit idx c
    then (do key idx c; key_loop limit (next_idx idx c) keys)
    else (do set_input keys; pure idx)

get_tty : Cmd Tty Tty
get_tty t = done t t

-- `if (*pw == NULL) { ... }`; the result says whether there is a buffer.
allocate : (memory : Bool) → (sz : ℕ) → Cmd Tty Bool
allocate memory sz t = elim t.buffer [
  | some b ↦ done true t
  | none ↦ if memory then done true (record t { buffer = some (replicate sz 0) }) else done false t
]

read_keys : TtyEnv → (sz : ℕ) → Cmd Tty ℤ
unfolding set_mode get_tty
read_keys e sz = do
  set_mode true
  t ← get_tty
  idx ← key_loop (sz - 1) 0 t.input
  store_char idx 0
  if not e.reset then pure (negsuc 0) else do set_mode false; pure (pos idx)

-- `pw` and `fp` say whether these pointers are set.
unfoldable pub getpasswd : TtyEnv → (pw : Bool) → (sz : ℕ) → (fp : Bool) → Cmd Tty ℤ
unfolding read_keys allocate
getpasswd e pw sz fp = if not pw || (sz == 0 || not fp) then pure (negsuc 0) else do
  let size = if ltb max_pass_len sz then max_pass_len else sz
  ok ← allocate e.memory size
  if not ok
      then pure (negsuc 0)
      else if not e.get
      then pure (negsuc 0)
      else if not e.set_raw
      then pure (negsuc 0)
      else read_keys e size
