-- ===== src/Monitor/Invariant.antt =====
-- Well-formedness of the monitor: the lock is free, the memory holds a list of nodes, and
-- `blacklist_size` is an `int` that is not below the number of nodes. It may be above, since
-- `remove_from_blacklist` counts down only when it unlinks the first node.
use reference_monitor.Base.{◌^◌, ◌≤◌, ◌<◌, ◌≡◌, false, length}
use reference_monitor.Monitor.{Monitor}
use reference_monitor.Monitor.Chain.{Cells, IsList}

pub record Holds (m : Monitor) (xs : Cells) : Type 0 where
  pub list : IsList m xs
  pub unlocked : m.locked ≡ false
  pub counted : length xs ≤ m.size
  pub fits : m.size < 2 ^ 32
