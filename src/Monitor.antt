-- ===== src/Monitor.antt =====
-- struct reference_monitor and struct blacklist_node of
-- reference-monitor/stack_reference_monitor.h, with the kernel memory that holds the nodes.
--
-- A node owns the buffer of its `path`, so the node holds the string itself. `blacklist_size` is
-- the bit pattern of an `int`. `spin_lock` by the one thread that runs would never return.
pub mod Chain
pub mod Edit
pub mod Invariant
use reference_monitor.Base.{
  ℕ, ◌+◌, ◌-◌, ◌%◌, ◌^◌, ◌≡◌, refl, Bool, true, false, Option, none, some, List, ◌==◌,
  if◌then◌else◌,
}
use reference_monitor.Base.Int.{ℤ}
use reference_monitor.Run.{
  Fault, null_deref, bad_pointer, deadlock, bad_unlock, Run, done, fault, Cmd, pure, fail, ◌>>=◌,
}

abbrev pub Ptr : Type 0
Ptr = ℕ

abbrev pub null : Ptr
null = 0

-- The bytes of a path, without the terminator.
abbrev pub FilePath : Type 0
FilePath = List ℕ

pub record Node : Type 0 where
  pub path : FilePath
  pub next : Ptr

abbrev pub node : FilePath → Ptr → Node
node s q = record { path = s; next = q }

abbrev pub Nodes : Type 0
Nodes = Ptr → Option Node

pub record Monitor : Type 0 where
  pub state : ℤ
  pub password : Option (List ℕ)
  pub head : Ptr
  pub locked : Bool
  pub size : ℕ
  pub nodes : Nodes

unfoldable pub write : Nodes → Ptr → Option Node → Nodes
write h p c a = if a == p then c else h a

unfoldable pub load : Ptr → Cmd Monitor Node
load p m =
    if p == null
    then fault null_deref
    else elim (m.nodes p) [ none ↦ fault bad_pointer | some n ↦ done n m ]

unfoldable pub store : Ptr → Node → Cmd Monitor (Unit {0})
store p n m = done tt (record m { nodes = write m.nodes p (some n) })

-- `p->next = q`
unfoldable pub set_next : Ptr → Ptr → Cmd Monitor (Unit {0})
set_next p q = do n ← load p; store p (record n { next = q })

unfoldable pub set_head : Ptr → Cmd Monitor (Unit {0})
set_head p m = done tt (record m { head = p })

-- `blacklist_size++` and `blacklist_size--` on an `int`
unfoldable pub grow : Cmd Monitor (Unit {0})
grow m = done tt (record m { size = (m.size + 1) % 2 ^ 32 })

unfoldable pub shrink : Cmd Monitor (Unit {0})
shrink m = done tt (record m { size = (m.size + 2 ^ 32 - 1) % 2 ^ 32 })

unfoldable pub spin_lock : Cmd Monitor (Unit {0})
spin_lock m = if m.locked then fault deadlock else done tt (record m { locked = true })

unfoldable pub spin_unlock : Cmd Monitor (Unit {0})
spin_unlock m = if m.locked then done tt (record m { locked = false }) else fault bad_unlock
