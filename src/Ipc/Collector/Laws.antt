-- ===== src/Ipc/Collector/Laws.antt =====
-- What the collector of kernel/src/ipc.rs closes, and what it leaves open.
use nexo_os.Prelude.{ℕ, Bool}
use nexo_os.Ipc.Ends.{Ipc, end_at}
use nexo_os.Ipc.Collector.{World, History, checks_at}

abbrev pub is_closed : Ipc → ℕ → Bool
is_closed i e = (end_at i e).closed_by_me

-- The world in which the collector reads the counters.
abbrev pub last : History → ℕ → World
last h fuel = h (checks_at h fuel)
