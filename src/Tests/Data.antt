-- ===== src/Tests/Data.antt =====
-- A monitor in REC_ON with two protected paths, a toy digest, and a kernel that grants everything.
use reference_monitor.Base.{
  All, List, [], arith, codes, false, if◌then◌else◌, none, not, refl, some, true, ℕ, ◌%◌, ◌++◌, ◌<◌,
  ◌==◌, ◌∷◌, ◌≡◌,
}
use reference_monitor.Access.Decision.{is_active}
use reference_monitor.Base.Int.{pos}
use reference_monitor.Blacklist.{AddEnv, Block, RemoveEnv, UserCopy}
use reference_monitor.Blacklist.Add.{Granted}
use reference_monitor.CString.{c_str}
use reference_monitor.DentryPath.{PathEnv}
use reference_monitor.Monitor.{FilePath, Monitor, Nodes, node}
use reference_monitor.Monitor.Chain.{Cells}
use reference_monitor.Monitor.Invariant.{Holds}
use reference_monitor.Password.{HashEnv, PasswordEnv, Sha256, hex}
use reference_monitor.Password.Check.{Answered}
use reference_monitor.Probes.Table.{ProbeApi, enable_loop, kprobe_array}
use reference_monitor.Syscalls.{World}
use reference_monitor.Syscalls.Grant.{probes_for}
use reference_monitor.Syscalls.Keeps.{Inv, Obeys}

unfoldable pub low : List ℕ → List ℕ
low [] = []
low (c ∷ s) = (c % 256) ∷ low s

unfoldable pub low_bytes : (s : List ℕ) → All (λ b. b < 256) (low s)
unfolding low
low_bytes [] = tt
low_bytes (c ∷ s) = (omega arith, low_bytes s)

-- Keeps the low byte of each character.
abbrev pub sha : Sha256
unfolding low low_bytes
sha = record { digest = low; bytes = low_bytes }

abbrev pub secret : List ℕ
secret = codes "pippo"

abbrev pub guess : List ℕ
guess = codes "pluto"

abbrev pub file_a : FilePath
file_a = codes "/a"

abbrev pub dir_b : FilePath
dir_b = codes "/b/"

abbrev pub inside_b : FilePath
inside_b = codes "/b/x"

abbrev pub two_nodes : Nodes
two_nodes a = if a == 1 then some (node file_a 2) else if a == 2 then some (node dir_b 0) else none

abbrev pub cells : Cells
cells = (1, file_a) ∷ (2, dir_b) ∷ []

abbrev pub demo : Monitor
demo = record {
  state = pos 2;
  password = some (hex (sha.digest secret));
  head = 1;
  locked = false;
  size = 2;
  nodes = two_nodes;
}

pub demo-Holds : Holds demo cells
demo-Holds = record {
  list = record {
    head = refl;
    chain = (λ e. absurd (omega arith), refl, refl, (λ e. absurd (omega arith), refl, refl, tt));
  };
  unlocked = refl;
  counted = omega arith;
  fits = omega arith;
}

abbrev pub hash_env : HashEnv
hash_env = record {
  transform = true;
  desc = true;
  digest_buffer = true;
  status = 0;
  result = true;
  stale_digest = 0;
}

abbrev pub copied : List ℕ → UserCopy
copied s = record { left = 0; bytes = s ++ 0 ∷ [] }

abbrev pub password_env : List ℕ → PasswordEnv
password_env s = record { buffer = true; copy = copied s; hash = hash_env }

pub secret-Answered : Answered (password_env secret) secret
unfolding c_str
secret-Answered = record {
  buffer = refl;
  copied = refl;
  terminated = refl;
  transform = refl;
  desc = refl;
  digest_buffer = refl;
  status = refl;
  result = refl;
}

pub guess-Answered : Answered (password_env guess) guess
unfolding c_str
guess-Answered = record {
  buffer = refl;
  copied = refl;
  terminated = refl;
  transform = refl;
  desc = refl;
  digest_buffer = refl;
  status = refl;
  result = refl;
}

-- A new node at address 3, whose memory holds NULL.
abbrev pub block_3 : Block
block_3 = record { address = 3; stale = 0 }

abbrev pub add_env : List ℕ → AddEnv
add_env s = record { buffer = true; copy = copied s; block = some block_3; path_buffer = true }

abbrev pub remove_env : List ℕ → RemoveEnv
remove_env s = record { buffer = true; copy = copied s }

pub inside_b-Granted : Granted (add_env inside_b) cells inside_b block_3
unfolding c_str
inside_b-Granted = record {
  buffer = refl;
  copied = omega arith;
  terminated = refl;
  block = refl;
  path_buffer = refl;
  not_null = λ e. absurd (omega arith);
  fresh = refl;
}

-- A dentry with the path `s`, with `junk` in the byte behind the copy.
abbrev pub dentry : FilePath → ℕ → PathEnv
dentry s junk = record { page = true; raw = some s; buffer = true; junk = junk }

-- The kernel's calls on probes, doing what they document.
abbrev pub api : ProbeApi
api = record {
  enable_kretprobe = λ p. (record p { disabled = false }, pos 0);
  disable_kretprobe = λ p. (record p { disabled = true }, pos 0);
  register_kretprobes = λ ps. (ps, pos 0);
  unregister_kretprobes = λ ps. ps;
}

pub api-Obeys : Obeys api
api-Obeys = record { enables = λ p. refl; disables = λ p. refl }

abbrev pub world : World
world = record { rf = demo; probes = some (probes_for api (pos 2) kprobe_array) }

pub world-armed :
    All (λ p. p.disabled ≡ not (is_active (pos 2))) (probes_for api (pos 2) kprobe_array)
unfolding kprobe_array is_active enable_loop
world-armed = (refl, (refl, (refl, (refl, (refl, (refl, (refl, (refl, (refl, (refl, tt))))))))))

abbrev pub world-Inv : Inv world
world-Inv = record {
  cells = cells;
  monitor = demo-Holds;
  stored = hex (sha.digest secret);
  password = refl;
  array = probes_for api (pos 2) kprobe_array;
  probes = refl;
  armed = world-armed;
}
